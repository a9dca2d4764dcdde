-- ===== src/Conversation/Failing.antt =====
-- A call that the other program refuses, and what the caller is told.
use ipc_portable.Common.{
  ℕ, ◌+◌, ◌≡◌, ◌≢◌, ap, ◌∙◌, true, false, Option, none, some, List, [], ◌∷◌, ◌++◌, length, arith,
  IsU32, pure, ◌>>=◌, bind_step,
}
use ipc_portable.Stream.{DataStream}
use ipc_portable.Signature.{params_string}
use ipc_portable.Packet.{c_invalid_id, pt_call, pt_return_fail_call, c_net_call_packet_header_size}
use ipc_portable.Call.Packets.{Creates, packet_layout, header_of}
use ipc_portable.Call.Receiving.{take_packet}
use ipc_portable.Call.Values.{Value}
use ipc_portable.Call.Invocation.{IsCall, arg_names, call_layout}
use ipc_portable.Call.Returning.{
  ErrorArg, fail_layout, length-fail_layout, load_return_fail_call, load_return_fail_call-Reads,
  respond_no_matching_call_name_parameters, respond_error,
}
use ipc_portable.Procs.Table.{lookup}
use ipc_portable.Procs.Objects.{IsProcs}
use ipc_portable.Engine.{process_buffer, report_failure}
use ipc_portable.Engine.Jobs.{Engine, wrote, lift}
use ipc_portable.Engine.Rejecting.{
  rejection, told, with_effects, process_buffer-rejects, send_error_message-told,
}
use ipc_portable.Calling.{call_packet}
use ipc_portable.Calling.Packets.{setting, call_packet-packet_layout}
use ipc_portable.Conversation.{serve}
use ipc_portable.Conversation.Returning.{serve-received}

-- The error as the caller names it, with the message of the other program.
abbrev pub respond_rejection : List ℕ → List ℕ → List ℕ → ErrorArg
respond_rejection name return_type params = record (rejection name return_type params) {
  error = respond_no_matching_call_name_parameters;
}

reported_back :
    (s rest : DataStream) (arg : ErrorArg) (n id : ℕ) (e : Engine)
    → e.inter_thread ≡ false
    → load_return_fail_call s ≡ some (arg, rest)
    → process_buffer (record { data_stream = s; header = header_of n pt_return_fail_call id }) e
      ≡ some (none, with_effects e (told e.procs.procs.on_invalid_remote_call arg))
unfolding process_buffer
reported_back s rest arg n id e alone loaded =
    bind_step (lift (load_return_fail_call s) >>= report_failure) (λ _. pure none) e
      (bind_step (lift (load_return_fail_call s)) report_failure e (ap (λ o. lift o e) loaded)
        ∙ send_error_message-told e.procs.procs.on_invalid_remote_call arg e alone)

-- A call that nobody handles is reported on both sides. Let a call want an answer, with an id that is
-- not 0 and sizes within 32 bits, let both programs have a transport that gives buffers and run
-- without other threads, and let the other program's map be well formed and have no entry for the
-- call's name and parameter types. Then the caller's packet, processed by the other program, has its
-- error handler told of the signature, and an answer written, which the caller processes without a
-- fault: its own error handler, if there is one that can be called, is told of the same signature, and
-- that it was the other side that did not find it. No map changes.
pub call-fails :
    (name return_type : List ℕ) (args : List Value) (id : ℕ) (create create' : ℕ → Option (List ℕ))
    (e caller : Engine)
    → IsCall name return_type true args
    → IsU32 id
    → id ≢ c_invalid_id
    → Creates create'
        (c_net_call_packet_header_size + length (call_layout name true return_type args))
    → IsProcs e.procs
    → lookup name (params_string (arg_names args)) e.procs.procs.name_procs ≡ none
    → IsU32 (
        c_net_call_packet_header_size
        + length (fail_layout (rejection name return_type (params_string (arg_names args)))))
    → Creates create (
        c_net_call_packet_header_size
        + length (fail_layout (rejection name return_type (params_string (arg_names args)))))
    → e.transport ≡ some create
    → e.inter_thread ≡ false
    → caller.inter_thread ≡ false
    → (request answer : List ℕ) × (e' : Engine) × (call_packet
          (some create')
          (setting name none)
          return_type
          true
          id
          args
        ≡ some (some request))
      × (serve request e ≡ some (none, e'))
      × (e'.effects
          ≡ (e.effects
              ++ told e.procs.procs.on_invalid_remote_call
                  (rejection name return_type (params_string (arg_names args))))
            ++ (wrote answer ∷ []))
      × (e'.procs ≡ e.procs)
      × (serve answer caller
          ≡ some (
            none,
            with_effects caller (
                told caller.procs.procs.on_invalid_remote_call
                  (respond_rejection name return_type (params_string (arg_names args)))),
          ))
call-fails name return_type args id create create' e caller call wide valid created' w unknown small
      created connected alone alone' =
    let (buffer, e', arrives, processed, effects, kept) =
      process_buffer-rejects name return_type args id create e call wide valid w unknown small
        created connected alone in
    let (back, arrives', header, taken) =
      take_packet pt_return_fail_call id (fail_layout arg) (omega arith) wide small (
        load_return_fail_call-Reads arg (omega arith)
          (omega (arith, small, length-fail_layout arg))) in
    (
      packet_layout pt_call id (call_layout name true return_type args),
      packet_layout pt_return_fail_call id (fail_layout arg),
      e',
      call_packet-packet_layout name return_type true args id create' call valid created',
      serve-received _ buffer e arrives ∙ processed,
      effects,
      kept,
      serve-received _ back caller arrives'
          ∙ ap (λ t. process_buffer (record { data_stream = back.data_stream; header = t }) caller)
              header
          ∙ reported_back back.data_stream _ (record arg { error = respond_error arg.error })
              (length (fail_layout arg)) id caller alone' taken,
    )
  where
    arg : ErrorArg
    arg = rejection name return_type (params_string (arg_names args))
