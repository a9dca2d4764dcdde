-- ===== src/Engine/Serving.antt =====
-- `ProcessBuffer` on the packet of a call for which the map offers a handler.
use ipc_portable.Common.{
  ℕ, ◌+◌, ◌≤◌, ◌≡◌, ◌≢◌, refl, ap, ◌∙◌, Bool, true, false, Option, none, some, List, [], ◌∷◌, ◌++◌,
  length, get_elem?, set, map, arith, IsU32, append_assoc, ◌>>=◌, pure, bind_step,
}
use ipc_portable.Stream.{DataStream, stream_of_read}
use ipc_portable.Stream.Taking.{Holds, Holds-skip, HoldsIn-assoc, skip}
use ipc_portable.RawString.{raw_eq}
use ipc_portable.RawString.Order.{raw_eq-text_eq, text_eq_refl}
use ipc_portable.RawString.Wire.{text, read_text, contents-text, contents-read_text}
use ipc_portable.Signature.{params_string}
use ipc_portable.Packet.{c_invalid_id, pt_call, pt_return, c_net_call_packet_header_size}
use ipc_portable.Call.Packets.{Creates, packet_layout, length-packet_layout, header_of}
use ipc_portable.Call.Receiving.{CallDataBuffer, receive_call_data_buffer, arrives, body}
use ipc_portable.Call.Values.{
  Value, IsValue, type_of, deserialize_args, deserialize_args-Reads, args_layout, value_layout,
}
use ipc_portable.Call.Invocation.{
  IsCall, arg_names, call_layout, signature_layout, signature_of, DeserializedFindCallInfo,
  deserialize_name_signature, deserialize_name_signature-Reads,
}
use ipc_portable.Call.Returning.{serialize_return, serialize_return-packet_layout}
use ipc_portable.Procs.{
  CallInfoImpl, Callback, FindCallInfoRes, InvokeRemote, increment_call_count, find_call_info,
}
use ipc_portable.Procs.Objects.{IsProcs, handler}
use ipc_portable.Procs.Searching.{find_call_info-found}
use ipc_portable.Engine.{
  invoke_local, process_buffer, after_analysis, count, count_call, tell_count, finish_call,
}
use ipc_portable.Engine.Jobs.{Engine, called, wrote, lift, serialize_result}
use ipc_portable.Engine.Analysis.{
  analize_invoke_data, search, check_found, check_return_type, matched,
}
use ipc_portable.Engine.Answering.{answered, call_job_invoke-answered}

abbrev pub found_with : ℕ → InvokeRemote → FindCallInfoRes
found_with ref h = record {
  call_info = some ref;
  invoke_base = some h;
  on_call_count_changed = none;
  on_invalid_remote_call = none;
}

same_return_type :
    (name return_type : List ℕ) (send_return : Bool) (names : List (List ℕ)) (h : InvokeRemote)
    (ref : ℕ) (e : Engine)
    → h.return_type ≡ return_type
    → check_found (signature_of name send_return return_type names) (found_with ref h) e
      ≡ some (matched (signature_of name send_return return_type names) (found_with ref h) h, e)
unfolding check_found check_return_type
same_return_type name [] send_return names h ref e typed = refl
same_return_type name (x ∷ r) send_return names h ref e typed = ground (
  arith,
  ap (λ t. raw_eq (text (x ∷ r)) (text t)) typed,
  raw_eq-text_eq (text (x ∷ r)) (text (x ∷ r)) (x ∷ r) (x ∷ r) (contents-text (x ∷ r))
      (contents-text (x ∷ r)),
  text_eq_refl (x ∷ r),
)

module _ (name return_type : List ℕ) (args : List Value) (h : InvokeRemote) (ref : ℕ)
    (s s' : DataStream) (e : Engine) (typed : h.return_type ≡ return_type)
    (signed : deserialize_name_signature s
      ≡ some (signature_of name true return_type (arg_names args), s'))
    (there : find_call_info (read_text name) (read_text (params_string (arg_names args))) e.procs
      ≡ some (found_with ref h)) where
  abbrev info : DeserializedFindCallInfo
  info = signature_of name true return_type (arg_names args)

  pub analize_invoke_data-found :
      analize_invoke_data s e ≡ some ((matched info (found_with ref h) h, s'), e)
  unfolding analize_invoke_data
  analize_invoke_data-found =
      bind_step (lift (deserialize_name_signature s)) search e (ap (λ o. lift o e) signed)
      ∙ bind_step (lift (find_call_info info.name info.params_type e.procs) >>= check_found info)
          (λ invoke. pure (invoke, s')) e
          (bind_step (lift (find_call_info info.name info.params_type e.procs)) (check_found info) e
              (ap (λ o. lift o e) there)
            ∙ same_return_type name return_type true (arg_names args) h ref e typed)

  module _ (c : CallInfoImpl) (id : ℕ) (s'' : DataStream) (packet : List ℕ)
      (create : ℕ → Option (List ℕ)) (at : get_elem? e.procs.heap ref ≡ some c)
      (connected : e.transport ≡ some create) (alone : e.inter_thread ≡ false)
      (valid : id ≢ c_invalid_id) (taken : deserialize_args h.params s' ≡ some (args, s''))
      (serialized : serialize_result (h.run args) (some create) id ≡ some (some packet))
      (whole : c_net_call_packet_header_size ≤ length packet) where
    abbrev pub counted_engine : Engine
    counted_engine = record e {
      procs = record e.procs { heap = set e.procs.heap ref (increment_call_count c) };
    }

    abbrev pub served : Engine
    served =
        answered h id s' s'' args packet create counted_engine taken valid connected alone
          serialized whole

    counts : count (matched info (found_with ref h) h) e ≡ some (tt, counted_engine)
    counts = bind_step (count_call ref) (λ _. tell_count none ref) e (rw (at, count_call) refl)

    runs : finish_call (matched info (found_with ref h) h) id s' counted_engine ≡ some (tt, served)
    runs = ground (
      arith,
      alone,
      call_job_invoke-answered h id s' s'' args packet create counted_engine taken valid connected
          alone serialized whole,
    )

    pub invoke_local-served : invoke_local s id e ≡ some (tt, served)
    unfolding invoke_local
    invoke_local-served =
        let chain : (analize_invoke_data s >>= after_analysis id) e ≡ some (tt, served) =
          bind_step (analize_invoke_data s) (after_analysis id) e analize_invoke_data-found
          ∙ bind_step (count (matched info (found_with ref h) h))
              (λ _. finish_call (matched info (found_with ref h) h) id s') e counts
          ∙ runs in
        ground (arith, connected, chain)

-- A call is answered. Let a call's packet, within the 32-bit sizes and with an id that is not 0,
-- want an answer, and let it be received by an engine with a transport and without other threads.
-- Let the engine's map be well formed and offer a handler for the call's name and parameter types,
-- with the call's return type and argument types; let the handler's result be a value whose packet
-- fits 32 bits and for which the transport gives a buffer, and let no callback count calls. Then the
-- packet is received and processed without a fault: the handler is called once, with the arguments
-- that were sent, one packet is written, which carries the handler's result under the call's id, and
-- of the map and its objects only one object's call count changes.
pub process_buffer-answers :
    (name return_type : List ℕ) (args : List Value) (h : InvokeRemote) (result : Value) (id : ℕ)
    (create : ℕ → Option (List ℕ)) (e : Engine)
    → IsCall name return_type true args
    → IsU32 id
    → id ≢ c_invalid_id
    → IsProcs e.procs
    → handler name (params_string (arg_names args)) e.procs ≡ some h
    → h.return_type ≡ return_type
    → h.params ≡ map type_of args
    → h.run args ≡ some result
    → IsValue result
    → IsU32 (c_net_call_packet_header_size + length (value_layout result))
    → Creates create (c_net_call_packet_header_size + length (value_layout result))
    → e.transport ≡ some create
    → e.inter_thread ≡ false
    → e.procs.procs.on_call_count_changed ≡ none
    → (buffer : CallDataBuffer) × (e' : Engine) × (ref : ℕ) × (c : CallInfoImpl)
      × (receive_call_data_buffer
            (packet_layout pt_call id (call_layout name true return_type args))
          ≡ some buffer)
      × (process_buffer buffer e ≡ some (none, e'))
      × (e'.effects
          ≡ e.effects
            ++ (called h args ∷ (wrote (packet_layout pt_return id (value_layout result)) ∷ [])))
      × (get_elem? e.procs.heap ref ≡ some c)
      × (e'.procs ≡ record e.procs { heap = set e.procs.heap ref (increment_call_count c) })
unfolding process_buffer
process_buffer-answers name return_type args h result id create e call wide valid w offers typed
      params ran value small created connected alone uncounted =
    let (ref, c, at, there) =
      find_call_info-found (read_text name) (read_text names) name names h e.procs
        (contents-read_text name) (contents-read_text names) w offers in
    let there' : find_call_info (read_text name) (read_text names) e.procs
        ≡ some (found_with ref h) =
      there
      ∙ ap (λ (o : Option Callback). some (record (found_with ref h) { on_call_count_changed = o }))
          uncounted in
    let local =
      invoke_local-served name return_type args h ref start middle e typed signed there' c id last
        answer create at connected alone valid taken serialized
        (omega (arith, length-packet_layout pt_return id (value_layout result))) in
    (
      record { data_stream = start; header = header_of (length layout) pt_call id },
      _,
      ref,
      c,
      arrives pt_call id layout (omega arith) wide call.packet_size,
      bind_step (invoke_local start id) (λ _. pure none) e local,
      append_assoc e.effects (called h args ∷ []) (wrote answer ∷ []),
      at,
      refl,
    )
  where
    names : List ℕ
    names = params_string (arg_names args)

    layout : List ℕ
    layout = call_layout name true return_type args

    signature : List ℕ
    signature = signature_layout name true return_type (arg_names args)

    answer : List ℕ
    answer = packet_layout pt_return id (value_layout result)

    start : DataStream
    start = skip 12 (stream_of_read (packet_layout pt_call id layout))

    middle : DataStream
    middle = skip (length signature) start

    last : DataStream
    last = skip (length (args_layout args)) middle

    held : Holds start layout []
    held = body pt_call id layout (omega arith) wide call.packet_size

    signed :
        deserialize_name_signature start
        ≡ some (signature_of name true return_type (arg_names args), middle)
    signed =
        (deserialize_name_signature-Reads name true return_type (arg_names args) call.name_size
            call.return_size call.params_size).at
          start (args_layout args ++ [])
          (HoldsIn-assoc start.read start.read_pos signature (args_layout args) [] held)

    taken : deserialize_args h.params middle ≡ some (args, last)
    taken =
        ap (λ ts. deserialize_args ts middle) params
        ∙ (deserialize_args-Reads args call.values).at middle []
            (Holds-skip signature (args_layout args) [] start held)

    returned : serialize_return result (some create) id ≡ some (some answer)
    returned = serialize_return-packet_layout result create id value small valid created

    serialized : serialize_result (h.run args) (some create) id ≡ some (some answer)
    serialized = ap (λ r. serialize_result r (some create) id) ran ∙ returned
