-- ===== src/Conversation/Tests.antt =====
-- Two programs of the engine in Engine/Tests: a call of its procedure, of another one, and its list.
use ipc_portable.Common.{
  ℕ, ◌+◌, ◌≡◌, refl, true, false, none, some, List, [], ◌∷◌, ◌++◌, arith, length,
}
use ipc_portable.Stream.{DataStream}
use ipc_portable.Stream.Bytes.{write_unsafe, store_loop}
use ipc_portable.Stream.Procs.{ProcDescription}
use ipc_portable.Signature.{codes, params_string}
use ipc_portable.Call.Packets.{Creates}
use ipc_portable.Call.Values.{bool_value, bool, get_value}
use ipc_portable.Call.Invocation.{arg_names, call_layout}
use ipc_portable.Engine.Jobs.{Engine, called, wrote}
use ipc_portable.Engine.Rejecting.{rejection, told, with_effects}
use ipc_portable.Engine.Tests.{
  zeros, one_arg, always_false, error_handler, engine, engine-IsProcs, f-IsCall, g-IsCall,
  f_has_handler, g_is_unknown, rejection-small, rejection-Creates,
}
use ipc_portable.Calling.{call_packet}
use ipc_portable.Calling.Packets.{setting}
use ipc_portable.Conversation.{serve}
use ipc_portable.Conversation.Returning.{call-returns}
use ipc_portable.Conversation.Failing.{call-fails, respond_rejection}

f-Creates : Creates zeros (12 + length (call_layout (codes "f") true (codes "bool") one_arg))
unfolding write_unsafe store_loop params_string
f-Creates = (_, refl, refl)

g-Creates : Creates zeros (12 + length (call_layout (codes "g") true (codes "bool") one_arg))
unfolding write_unsafe store_loop params_string
g-Creates = (_, refl, refl)

call-returns_example :
    (request answer : List ℕ) × (e' : Engine) × (stream rest : DataStream) × (call_packet
        (some zeros)
        (setting (codes "f") none)
        (codes "bool")
        true
        7
        one_arg
      ≡ some (some request))
    × (serve request engine ≡ some (none, e'))
    × (e'.effects ≡ called always_false one_arg ∷ (wrote answer ∷ []))
    × (serve answer engine ≡ some (some stream, engine))
    × (get_value bool stream ≡ some (bool_value false, rest))
call-returns_example =
    call-returns (codes "f") (codes "bool") one_arg always_false (bool_value false) 7 zeros zeros
      engine engine f-IsCall (omega arith) (omega arith) f-Creates engine-IsProcs f_has_handler refl
      refl refl tt (omega arith) (_, refl, refl) refl refl refl

call-fails_example :
    (request answer : List ℕ) × (e' : Engine) × (call_packet
        (some zeros)
        (setting (codes "g") none)
        (codes "bool")
        true
        7
        one_arg
      ≡ some (some request))
    × (serve request engine ≡ some (none, e'))
    × (e'.effects
        ≡ told
            (some error_handler)
            (rejection (codes "g") (codes "bool") (params_string (arg_names one_arg)))
          ++ (wrote answer ∷ []))
    × (e'.procs ≡ engine.procs)
    × (serve answer engine
        ≡ some (
          none,
          with_effects engine (
              told
                (some error_handler)
                (respond_rejection (codes "g") (codes "bool") (params_string (arg_names one_arg)))),
        ))
call-fails_example =
    call-fails (codes "g") (codes "bool") one_arg 7 zeros zeros engine engine g-IsCall (omega arith)
      (omega arith) g-Creates engine-IsProcs g_is_unknown rejection-small rejection-Creates refl
      refl refl

abbrev only_f : List ProcDescription
only_f =
    record {
      name = codes "f";
      return_type = codes "bool";
      params_types = codes "bool;";
      comment = [];
    }
    ∷ []
