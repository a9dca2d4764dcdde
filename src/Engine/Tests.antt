-- ===== src/Engine/Tests.antt =====
-- An engine with one handler, and two calls.
use ipc_portable.Common.{
  ℕ, ◌+◌, ◌≡◌, refl, true, false, Option, none, some, List, [], ◌∷◌, ◌++◌, arith, length, get_elem?,
  set, replicate, IsU32,
}
use ipc_portable.Stream.Bytes.{write_unsafe, store_loop}
use ipc_portable.RawString.{contents, of_string, convert_check_str_len, memcmp_eq}
use ipc_portable.RawString.Order.{text_eq}
use ipc_portable.Signature.{codes, params_string}
use ipc_portable.Packet.{pt_call, pt_return, pt_return_fail_call}
use ipc_portable.Call.Packets.{Creates, packet_layout}
use ipc_portable.Call.Receiving.{CallDataBuffer, receive_call_data_buffer}
use ipc_portable.Call.Values.{Value, bool_value, bool, value_layout}
use ipc_portable.Call.Invocation.{IsCall, arg_names, call_layout}
use ipc_portable.Call.Returning.{fail_layout}
use ipc_portable.Procs.{
  InvokeRemote, Callback, CallInfoImpl, CallData, signature_key, increment_call_count,
}
use ipc_portable.Procs.Table.{Entry, lookup, has_texts}
use ipc_portable.Procs.Objects.{IsProcs, handler, Denotes-signature_key}
use ipc_portable.Engine.{process_buffer}
use ipc_portable.Engine.Jobs.{Engine, called, wrote}
use ipc_portable.Engine.Serving.{process_buffer-answers}
use ipc_portable.Engine.Rejecting.{rejection, told, process_buffer-rejects}

abbrev pub zeros : ℕ → Option (List ℕ)
zeros n = some (replicate n 0)

abbrev pub one_arg : List Value
one_arg = bool_value true ∷ []

abbrev pub always_false : InvokeRemote
always_false = record {
  thread_id = 0;
  tag = 0;
  is_callable = true;
  return_type = codes "bool";
  params = bool ∷ [];
  run = λ _. some (bool_value false);
}

abbrev object : CallInfoImpl
object = record {
  invoke = some always_false;
  call_count = 4;
  name = codes "f";
  params_type = codes "bool;";
}

abbrev entry : Entry CallData
entry = record { key = signature_key object; value = record { call_info = 0; comment = [] } }

abbrev pub error_handler : Callback
error_handler = record { thread_id = 0; tag = 0; is_callable = true; delegate = 3 }

abbrev pub engine : Engine
engine = record {
  procs = record {
    heap = object ∷ [];
    procs = record {
      name_procs = entry ∷ [];
      on_call_count_changed = none;
      on_invalid_remote_call = some error_handler;
    };
  };
  transport = some zeros;
  inter_thread = false;
  result_thread = 0;
  effects = [];
}

pub engine-IsProcs : IsProcs engine.procs
engine-IsProcs = (
  ((codes "f", codes "bool;", Denotes-signature_key object (omega arith) (omega arith), tt), tt),
  ((object, refl, refl, omega arith, omega arith), tt),
)

pub f-IsCall : IsCall (codes "f") (codes "bool") true one_arg
unfolding write_unsafe store_loop params_string
f-IsCall = record {
  name_size = omega arith;
  return_size = omega arith;
  params_size = omega arith;
  values = (tt, tt);
  packet_size = omega arith;
}

pub f_has_handler :
    handler (codes "f") (params_string (arg_names one_arg)) engine.procs ≡ some always_false
unfolding handler lookup has_texts contents of_string convert_check_str_len text_eq memcmp_eq
    params_string
f_has_handler = refl

process_buffer-answers_example :
    (buffer : CallDataBuffer) × (e' : Engine) × (ref : ℕ) × (c : CallInfoImpl)
    × (receive_call_data_buffer
          (packet_layout pt_call 7 (call_layout (codes "f") true (codes "bool") one_arg))
        ≡ some buffer)
    × (process_buffer buffer engine ≡ some (none, e'))
    × (e'.effects
        ≡ called always_false one_arg
          ∷ (wrote (packet_layout pt_return 7 (value_layout (bool_value false))) ∷ []))
    × (get_elem? engine.procs.heap ref ≡ some c)
    × (e'.procs ≡ record engine.procs { heap = set engine.procs.heap ref (increment_call_count c) })
process_buffer-answers_example =
    process_buffer-answers (codes "f") (codes "bool") one_arg always_false (bool_value false) 7
      zeros engine f-IsCall (omega arith) (omega arith) engine-IsProcs f_has_handler refl refl refl
      tt (omega arith) (_, refl, refl) refl refl refl

pub g-IsCall : IsCall (codes "g") (codes "bool") true one_arg
unfolding write_unsafe store_loop params_string
g-IsCall = record {
  name_size = omega arith;
  return_size = omega arith;
  params_size = omega arith;
  values = (tt, tt);
  packet_size = omega arith;
}

pub g_is_unknown :
    lookup (codes "g") (params_string (arg_names one_arg)) engine.procs.procs.name_procs ≡ none
unfolding lookup has_texts contents of_string convert_check_str_len text_eq memcmp_eq params_string
g_is_unknown = refl

pub rejection-small : IsU32 (
    12
    + length
        (fail_layout (rejection (codes "g") (codes "bool") (params_string (arg_names one_arg)))))
unfolding write_unsafe store_loop params_string
rejection-small = omega arith

pub rejection-Creates : Creates zeros (
    12
    + length
        (fail_layout (rejection (codes "g") (codes "bool") (params_string (arg_names one_arg)))))
unfolding write_unsafe store_loop params_string
rejection-Creates = (_, refl, refl)

process_buffer-rejects_example :
    (buffer : CallDataBuffer) × (e' : Engine) × (receive_call_data_buffer
        (packet_layout pt_call 7 (call_layout (codes "g") true (codes "bool") one_arg))
      ≡ some buffer)
    × (process_buffer buffer engine ≡ some (none, e'))
    × (e'.effects
        ≡ told
            (some error_handler)
            (rejection (codes "g") (codes "bool") (params_string (arg_names one_arg)))
          ++ (wrote (
                packet_layout pt_return_fail_call 7 (
                  fail_layout
                    (rejection (codes "g") (codes "bool") (params_string (arg_names one_arg)))))
              ∷ []))
    × (e'.procs ≡ engine.procs)
process_buffer-rejects_example =
    process_buffer-rejects (codes "g") (codes "bool") one_arg 7 zeros engine g-IsCall (omega arith)
      (omega arith) engine-IsProcs g_is_unknown rejection-small rejection-Creates refl refl
