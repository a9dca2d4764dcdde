-- ===== src/Conversation/Returning.antt =====
-- From the arguments of a call to the value that it returns.
use ipc_portable.Common.{
  ℕ, ◌+◌, ◌≡◌, ◌≢◌, refl, ap, ◌∙◌, true, false, Option, none, some, List, [], ◌∷◌, ◌++◌, length,
  map, arith, IsU32,
}
use ipc_portable.Stream.{DataStream}
use ipc_portable.Signature.{params_string}
use ipc_portable.Packet.{c_invalid_id, pt_call, pt_return, c_net_call_packet_header_size}
use ipc_portable.Call.Packets.{Creates, packet_layout, header_of}
use ipc_portable.Call.Receiving.{CallDataBuffer, receive_call_data_buffer, take_packet}
use ipc_portable.Call.Values.{Value, IsValue, type_of, get_value, get_value-Reads, value_layout}
use ipc_portable.Call.Invocation.{IsCall, arg_names, call_layout}
use ipc_portable.Procs.{InvokeRemote}
use ipc_portable.Procs.Objects.{IsProcs, handler}
use ipc_portable.Engine.{process_buffer}
use ipc_portable.Engine.Jobs.{Engine, called, wrote}
use ipc_portable.Engine.Serving.{process_buffer-answers}
use ipc_portable.Calling.{call_packet}
use ipc_portable.Calling.Packets.{setting, call_packet-packet_layout}
use ipc_portable.Conversation.{serve}

-- Receiving and processing, where the receiving is known.
pub serve-received :
    (packet : List ℕ) (buffer : CallDataBuffer) (e : Engine)
    → receive_call_data_buffer packet ≡ some buffer
    → serve packet e ≡ process_buffer buffer e
serve-received packet buffer e arrives =
    ap {B = Option (Option DataStream × Engine)}
      (λ o. elim o as (λ _. Option (Option DataStream × Engine)) [
        | none ↦ none
        | some b ↦ process_buffer b e
      ])
      arrives

-- A packet of the type `pt_return` is the answer that processing gives back.
returned :
    (s : DataStream) (n id : ℕ) (e : Engine)
    → process_buffer (record { data_stream = s; header = header_of n pt_return id }) e
      ≡ some (some s, e)
unfolding process_buffer
returned s n id e = refl

-- A remote call returns what the handler returns. Let a call want an answer, with arguments of their
-- types, an id that is not 0 and sizes within 32 bits, and let both programs have a transport that
-- gives buffers. Let the other program run without other threads, and let its map be well formed and
-- offer, for the call's name and parameter types, a handler with the call's return type, whose result
-- is a value that fits a packet, and no callback count calls. Then the caller's packet, processed by
-- the other program, has the handler called once with the caller's arguments, and an answer written
-- that the caller processes without a fault and without an effect, to a stream that reads as the
-- handler's result.
pub call-returns :
    (name return_type : List ℕ) (args : List Value) (h : InvokeRemote) (result : Value) (id : ℕ)
    (create create' : ℕ → Option (List ℕ)) (e caller : Engine)
    → IsCall name return_type true args
    → IsU32 id
    → id ≢ c_invalid_id
    → Creates create'
        (c_net_call_packet_header_size + length (call_layout name true return_type args))
    → IsProcs e.procs
    → handler name (params_string (arg_names args)) e.procs ≡ some h
    → h.return_type ≡ return_type
    → h.params ≡ map type_of args
    → h.run args ≡ some result
    → IsValue result
    → IsU32 (c_net_call_packet_header_size + length (value_layout result))
    → Creates create (c_net_call_packet_header_size + length (value_layout result))
    → e.transport ≡ some create
    → e.inter_thread ≡ false
    → e.procs.procs.on_call_count_changed ≡ none
    → (request answer : List ℕ) × (e' : Engine) × (stream rest : DataStream) × (call_packet
          (some create')
          (setting name none)
          return_type
          true
          id
          args
        ≡ some (some request))
      × (serve request e ≡ some (none, e'))
      × (e'.effects ≡ e.effects ++ (called h args ∷ (wrote answer ∷ [])))
      × (serve answer caller ≡ some (some stream, caller))
      × (get_value (type_of result) stream ≡ some (result, rest))
call-returns name return_type args h result id create create' e caller call wide valid created' w
      offers typed params ran value small created connected alone uncounted =
    let (buffer, e', ref, c, arrives, processed, effects, found, procs) =
      process_buffer-answers name return_type args h result id create e call wide valid w offers
        typed params ran value small created connected alone uncounted in
    let (back, arrives', header, taken) =
      take_packet pt_return id (value_layout result) (omega arith) wide small
        (get_value-Reads result value) in
    (
      packet_layout pt_call id (call_layout name true return_type args),
      packet_layout pt_return id (value_layout result),
      e',
      back.data_stream,
      _,
      call_packet-packet_layout name return_type true args id create' call valid created',
      serve-received _ buffer e arrives ∙ processed,
      effects,
      serve-received _ back caller arrives'
          ∙ ap (λ t. process_buffer (record { data_stream = back.data_stream; header = t }) caller)
              header
          ∙ returned back.data_stream (length (value_layout result)) id caller,
      taken,
    )
