-- ===== src/Engine/Rejecting.antt =====
-- `ProcessBuffer` on the packet of a call for which the map has no entry.
use ipc_portable.Common.{
  ℕ, ◌+◌, ◌≡◌, ◌≢◌, refl, sym, ap, ◌∙◌, true, false, Option, none, some, List, [], ◌∷◌, ◌++◌,
  length, arith, inl, inr, Bool-cases, if◌then◌else◌, IsU32, append-nil, ◌>>=◌, pure, bind_step,
}
use ipc_portable.Stream.{DataStream, stream_of_read}
use ipc_portable.Stream.Taking.{Holds, HoldsIn-assoc, skip}
use ipc_portable.RawString.{contents}
use ipc_portable.RawString.Wire.{read_text, contents-read_text}
use ipc_portable.Signature.{params_string}
use ipc_portable.Packet.{c_invalid_id, pt_call, pt_return_fail_call, c_net_call_packet_header_size}
use ipc_portable.Call.{make_packet}
use ipc_portable.Call.Packets.{Creates, packet_layout, make_packet-packet_layout, header_of}
use ipc_portable.Call.Receiving.{CallDataBuffer, receive_call_data_buffer, arrives, body}
use ipc_portable.Call.Values.{Value, args_layout}
use ipc_portable.Call.Invocation.{
  IsCall, arg_names, call_layout, signature_layout, signature_of, DeserializedFindCallInfo,
  deserialize_name_signature, deserialize_name_signature-Reads,
}
use ipc_portable.Call.Returning.{
  ErrorArg, fail_layout, length-fail_layout, store_return_fail_call, store_return_fail_call-Writes,
  no_matching_call_name_parameters,
}
use ipc_portable.Procs.{Callback, FindCallInfoRes, find_call_info}
use ipc_portable.Procs.Table.{lookup}
use ipc_portable.Procs.Objects.{IsProcs}
use ipc_portable.Procs.Searching.{find_call_info-missing}
use ipc_portable.Engine.{invoke_local, process_buffer, after_analysis}
use ipc_portable.Engine.Jobs.{
  Engine, Effect, reported, wrote, lift, send_error_message, write_packet,
}
use ipc_portable.Engine.Analysis.{
  AnalizeInvokeDataRes, analize_invoke_data, search, check_found, message_of,
  report_error_find_call_info,
}

-- "return_type name(params)".
abbrev pub rejection : List ℕ → List ℕ → List ℕ → ErrorArg
rejection name return_type params = record {
  error = no_matching_call_name_parameters;
  message = return_type ++ (b' ' ∷ (name ++ (b'(' ∷ (params ++ (b')' ∷ [])))));
}

-- What an error handler is told where there are no other threads.
abbrev pub told : Option Callback → ErrorArg → List Effect
told none arg = []
told (some callback) arg = if callback.is_callable then reported callback.delegate arg ∷ [] else []

abbrev pub with_effects : Engine → List Effect → Engine
with_effects e xs = record e { effects = e.effects ++ xs }

abbrev done : Engine → Option (Unit {0} × Engine)
done e = some (tt, e)

silent : (e : Engine) → done e ≡ done (with_effects e [])
silent e = ap (λ xs. some (tt, record e { effects = xs })) (sym (append-nil e.effects))

pub send_error_message-told :
    (o : Option Callback) (arg : ErrorArg) (e : Engine)
    → e.inter_thread ≡ false
    → send_error_message o arg e ≡ some (tt, with_effects e (told o arg))
send_error_message-told none arg e alone = silent e
send_error_message-told (some callback) arg e alone = elim (Bool-cases callback.is_callable) [
  | inl is_there ↦ ground (arith, is_there, alone)
  | inr is_gone ↦
      let quiet : send_error_message (some callback) arg e ≡ some (tt, e) =
        ground (arith, is_gone) in
      let nothing : [] ≡ told (some callback) arg = ground (arith, is_gone) in
      quiet ∙ silent e ∙ ap (λ xs. some (tt, with_effects e xs)) nothing
]

module _ (name return_type : List ℕ) (args : List Value) (e : Engine) (s s' : DataStream)
    (alone : e.inter_thread ≡ false)
    (signed : deserialize_name_signature s
      ≡ some (signature_of name true return_type (arg_names args), s')) where
  abbrev info : DeserializedFindCallInfo
  info = signature_of name true return_type (arg_names args)

  abbrev arg : ErrorArg
  arg = rejection name return_type (params_string (arg_names args))

  abbrev handlers : Option Callback
  handlers = e.procs.procs.on_invalid_remote_call

  abbrev nothing_found : FindCallInfoRes
  nothing_found = record {
    call_info = none;
    invoke_base = none;
    on_call_count_changed = none;
    on_invalid_remote_call = handlers;
  }

  abbrev rejected : AnalizeInvokeDataRes
  rejected = record {
    call_info = none;
    invoke_base = none;
    send_return = true;
    on_call_count_changed = none;
    error_arg = some arg;
  }

  abbrev after_telling : Engine
  after_telling = with_effects e (told handlers arg)

  readable :
      message_of (contents info.return_type) (contents info.name) (contents info.params_type)
      ≡ some arg.message
  readable =
      rw
        (
          contents-read_text return_type,
          contents-read_text name,
          contents-read_text (params_string (arg_names args)),
        )
        refl

  checked : check_found info nothing_found e ≡ some (rejected, after_telling)
  unfolding check_found report_error_find_call_info
  checked =
      bind_step
        (lift
          (message_of (contents info.return_type) (contents info.name) (contents info.params_type)))
        _ e (ap (λ o. lift o e) readable)
      ∙ bind_step (send_error_message handlers arg) _ e
          (send_error_message-told handlers arg e alone)

  module _ (there : find_call_info info.name info.params_type e.procs ≡ some nothing_found) where
    analize_invoke_data-rejected : analize_invoke_data s e ≡ some ((rejected, s'), after_telling)
    unfolding analize_invoke_data
    analize_invoke_data-rejected =
        bind_step (lift (deserialize_name_signature s)) search e (ap (λ o. lift o e) signed)
        ∙ bind_step (lift (find_call_info info.name info.params_type e.procs) >>= check_found info)
            (λ invoke. pure (invoke, s')) e
            (bind_step (lift (find_call_info info.name info.params_type e.procs)) (check_found info)
                e (ap (λ o. lift o e) there)
              ∙ checked)

    module _ (id : ℕ) (packet : List ℕ) (create : ℕ → Option (List ℕ))
        (connected : e.transport ≡ some create)
        (made : make_packet (some create) pt_return_fail_call id (store_return_fail_call arg)
          ≡ some (some packet)) where
      pub invoke_local-rejected :
          invoke_local s id e ≡ some (tt, with_effects after_telling (wrote packet ∷ []))
      unfolding invoke_local
      invoke_local-rejected =
          let chain : (analize_invoke_data s >>= after_analysis id) e
              ≡ some (tt, with_effects after_telling (wrote packet ∷ [])) =
            bind_step (analize_invoke_data s) (after_analysis id) e analize_invoke_data-rejected
            ∙ bind_step
                (lift (make_packet e.transport pt_return_fail_call id (store_return_fail_call arg)))
                write_packet after_telling
                (ap
                    (λ t.
                      lift (make_packet t pt_return_fail_call id (store_return_fail_call arg))
                        after_telling)
                    connected
                  ∙ ap (λ o. lift o after_telling) made) in
          ground (arith, connected, chain)

-- A call that nobody handles is refused. Let a call's packet, within the 32-bit sizes and with an
-- id that is not 0, want an answer, and let it be received by an engine with a transport and without
-- other threads. Let the engine's map be well formed and have no entry for the call's name and
-- parameter types, and let the transport give a buffer for the report, whose packet fits 32 bits.
-- Then the call's packet is received and processed without a fault: the error handler, if there is
-- one that can be called, is told the error `no_matching_call_name_parameters` and the call's
-- signature, then one packet is written, which reports both under the call's id, and the map and its
-- objects stay as they are.
pub process_buffer-rejects :
    (name return_type : List ℕ) (args : List Value) (id : ℕ) (create : ℕ → Option (List ℕ))
    (e : Engine)
    → IsCall name return_type true args
    → IsU32 id
    → id ≢ c_invalid_id
    → IsProcs e.procs
    → lookup name (params_string (arg_names args)) e.procs.procs.name_procs ≡ none
    → IsU32 (
        c_net_call_packet_header_size
        + length (fail_layout (rejection name return_type (params_string (arg_names args)))))
    → Creates create (
        c_net_call_packet_header_size
        + length (fail_layout (rejection name return_type (params_string (arg_names args)))))
    → e.transport ≡ some create
    → e.inter_thread ≡ false
    → (buffer : CallDataBuffer) × (e' : Engine) × (receive_call_data_buffer
          (packet_layout pt_call id (call_layout name true return_type args))
        ≡ some buffer)
      × (process_buffer buffer e ≡ some (none, e'))
      × (e'.effects
          ≡ (e.effects
              ++ told e.procs.procs.on_invalid_remote_call
                  (rejection name return_type (params_string (arg_names args))))
            ++ (wrote (
                  packet_layout pt_return_fail_call id
                    (fail_layout (rejection name return_type (params_string (arg_names args)))))
                ∷ []))
      × (e'.procs ≡ e.procs)
unfolding process_buffer
process_buffer-rejects name return_type args id create e call wide valid w unknown small created
      connected alone =
    let there =
      find_call_info-missing (read_text name) (read_text names) name names e.procs
        (contents-read_text name) (contents-read_text names) w unknown in
    let made =
      make_packet-packet_layout create pt_return_fail_call id (store_return_fail_call arg)
        (fail_layout arg)
        (store_return_fail_call-Writes arg (omega (arith, small, length-fail_layout arg))) small
        valid created in
    let local =
      invoke_local-rejected name return_type args e start middle alone signed there id
        (packet_layout pt_return_fail_call id (fail_layout arg)) create connected made in
    (
      record { data_stream = start; header = header_of (length layout) pt_call id },
      _,
      arrives pt_call id layout (omega arith) wide call.packet_size,
      bind_step (invoke_local start id) (λ _. pure none) e local,
      refl,
      refl,
    )
  where
    names : List ℕ
    names = params_string (arg_names args)

    arg : ErrorArg
    arg = rejection name return_type names

    layout : List ℕ
    layout = call_layout name true return_type args

    signature : List ℕ
    signature = signature_layout name true return_type (arg_names args)

    start : DataStream
    start = skip 12 (stream_of_read (packet_layout pt_call id layout))

    middle : DataStream
    middle = skip (length signature) start

    held : Holds start layout []
    held = body pt_call id layout (omega arith) wide call.packet_size

    signed :
        deserialize_name_signature start
        ≡ some (signature_of name true return_type (arg_names args), middle)
    signed =
        (deserialize_name_signature-Reads name true return_type (arg_names args) call.name_size
            call.return_size call.params_size).at
          start (args_layout args ++ [])
          (HoldsIn-assoc start.read start.read_pos signature (args_layout args) [] held)
