-- ===== src/Call.antt =====
-- How packets are made: `CreateDataStream` and `CreateDataStreamInplace` of
-- Ipc/MAssIpc_Internals.cpp, and the two passes of every sender, of which the first, on a stream
-- without a buffer, measures what the second writes. The transport is seen through its `Create`:
-- `none` is an expired weak pointer, and `Create` itself may give no buffer.
pub mod Packets
pub mod Values
pub mod Receiving
pub mod Invocation
pub mod Returning
pub mod Tests
use ipc_portable.Common.{
  ℕ, ◌+◌, Option, none, some, List, length, ltb, ◌==◌, if◌then◌else◌, add32, not,
}
use ipc_portable.Stream.{DataStream, empty_stream, stream_of_write, get_write_pos}
use ipc_portable.Stream.Integers.{Put}
use ipc_portable.Packet.{packet_header_write, c_net_call_packet_header_size, c_invalid_id, pt_call}

abbrev pub Creator : Type 0
Creator = Option (ℕ → Option (List ℕ))

-- `CreateDataBuffer`.
abbrev pub create_data_buffer : Creator → ℕ → Option (List ℕ)
create_data_buffer none packet_size = none
create_data_buffer (some create) packet_size = create packet_size

-- The stream behind a writer, which may have failed.
abbrev pub stream_behind : Option (Unit {0} × DataStream) → Option DataStream
stream_behind none = none
stream_behind (some (u, s)) = some s

-- `CreateDataStream`.
unfoldable pub create_data_stream : Creator → ℕ → ℕ → ℕ → Option DataStream
create_data_stream transport no_header_size pt respond_id =
    if respond_id == c_invalid_id
    then some empty_stream
    else (elim (create_data_buffer transport (add32 c_net_call_packet_header_size no_header_size)) [
      | none ↦ some empty_stream
      | some data_buffer ↦
          stream_behind
            (packet_header_write no_header_size pt respond_id (stream_of_write data_buffer))
    ])

-- `CreateDataStreamInplace`. The header is written with `pt_call`, whatever `pt` is.
unfoldable pub create_data_stream_inplace : List ℕ → ℕ → ℕ → ℕ → Option DataStream
create_data_stream_inplace inplace_send_buffer no_header_size pt respond_id =
    let packet_size = add32 no_header_size c_net_call_packet_header_size in
    if ltb (length inplace_send_buffer) packet_size
    then some empty_stream
    else stream_behind (
        packet_header_write no_header_size pt_call respond_id (stream_of_write inplace_send_buffer))

-- The first pass: how many bytes a writer writes.
abbrev pub measured : Option (Unit {0} × DataStream) → Option ℕ
measured none = none
measured (some (u, s)) = some (get_write_pos s)

unfoldable pub measure_size : Put → Option ℕ
measure_size m = measured (m empty_stream)

abbrev pub written : Put → Option DataStream → Option (Option (List ℕ))
written m none = none
written m (some s) = elim (m s) [ none ↦ none | some (u, s') ↦ some s'.write ]

-- Both passes: `measure_size`, the stream, the data, and `DetachWrite`.
unfoldable pub make_packet : Creator → ℕ → ℕ → Put → Option (Option (List ℕ))
unfolding create_data_stream measure_size
make_packet transport pt id m = elim (measure_size m) [
  | none ↦ none
  | some size ↦ written m (create_data_stream transport size pt id)
]
