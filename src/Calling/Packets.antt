-- ===== src/Calling/Packets.antt =====
-- The packet that an outgoing call is sent as, in either buffer.
use ipc_portable.Common.{
  ℕ, ◌+◌, ◌≤◌, ◌≡◌, ◌≢◌, ap, Bool, false, Option, none, some, List, ◌++◌, arith, length, drop,
  add32, ltb, IsU32,
}
use ipc_portable.Stream.Appending.{append_bytes}
use ipc_portable.RawString.Wire.{text}
use ipc_portable.Packet.{pt_call, c_invalid_id, c_net_call_packet_header_size}
use ipc_portable.Call.{Creator, create_data_stream_inplace, stream_behind, written, make_packet}
use ipc_portable.Call.Packets.{
  Creates, packet_layout, header_then_data, measure_size-Writes, make_packet-packet_layout,
}
use ipc_portable.Call.Values.{Value}
use ipc_portable.Call.Invocation.{IsCall, call_layout, call_Writes}
use ipc_portable.Calling.{InvokeSetting, call_packet}

abbrev pub setting : List ℕ → Option (List ℕ) → InvokeSetting
setting name inplace = record { proc_name = text name; inplace_send_buffer = inplace }

-- Let a call's arguments be values of their types and its sizes fit 32 bits, let its id not be 0,
-- and let the transport give a buffer of the packet's size. Then, without a buffer of the
-- caller's, the call is sent as its packet and nothing else, whatever the wish for an answer.
pub call_packet-packet_layout :
    (name return_type : List ℕ) (wait_return : Bool) (args : List Value) (id : ℕ)
    (create : ℕ → Option (List ℕ))
    → IsCall name return_type wait_return args
    → id ≢ c_invalid_id
    → Creates create
        (c_net_call_packet_header_size + length (call_layout name wait_return return_type args))
    → call_packet (some create) (setting name none) return_type wait_return id args
      ≡ some (some (packet_layout pt_call id (call_layout name wait_return return_type args)))
unfolding call_packet make_packet
call_packet-packet_layout name return_type wait_return args id create call valid created =
    make_packet-packet_layout create pt_call id _ (call_layout name wait_return return_type args)
      (call_Writes name return_type wait_return args call) call.packet_size valid created

-- Let a call's arguments be values of their types, and let the caller give a buffer that is at
-- least as long as the packet and shorter than 2 ^ 32. Then the packet is written to the front,
-- and the buffer is sent as a whole: what it held behind the packet is sent behind it, although
-- the packet's header does not announce it.
pub call_packet-inplace :
    (name return_type : List ℕ) (wait_return : Bool) (args : List Value) (id : ℕ)
    (transport : Creator) (buffer : List ℕ)
    → IsCall name return_type wait_return args
    → c_net_call_packet_header_size + length (call_layout name wait_return return_type args)
      ≤ length buffer
    → IsU32 (length buffer)
    → call_packet transport (setting name (some buffer)) return_type wait_return id args
      ≡ some (
          some (
            packet_layout pt_call id (call_layout name wait_return return_type args)
            ++ drop
                (length (packet_layout pt_call id (call_layout name wait_return return_type args)))
                buffer))
unfolding call_packet create_data_stream_inplace append_bytes
call_packet-inplace name return_type wait_return args id transport buffer call room small =
    let w = call_Writes name return_type wait_return args call in
    let (s, e, f) = header_then_data pt_call id _ layout w call.packet_size buffer room small in
    let known : ltb (length buffer) (add32 (length layout) c_net_call_packet_header_size) ≡ false =
      ground (arith, room, call.packet_size) in
    rw (measure_size-Writes _ layout w (omega (arith, call.packet_size)), call_packet)
      (rw (known, create_data_stream_inplace)
        (rw (e, stream_behind)
          (rw (f, written) (ap (λ n. some (some (packet ++ drop n buffer))) from_start))))
  where
    layout : List ℕ
    layout = call_layout name wait_return return_type args

    packet : List ℕ
    packet = packet_layout pt_call id layout

    from_start : 0 + length packet ≡ length packet
    from_start = omega arith
