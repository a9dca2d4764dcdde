-- ===== src/Call/Receiving.antt =====
-- `ReceiveCallDataBuffer` of Ipc/MAssIpcCall.cpp: a packet that has arrived, as a stream behind its
-- header.
use mathlib.Core.Path.{subst}
use ipc_portable.Common.{
  ℕ, ◌+◌, ◌≡◌, refl, sym, ap, ◌∙◌, Option, none, some, List, [], arith, length, IsU32, append-nil,
}
use ipc_portable.Stream.{DataStream, stream_of_read}
use ipc_portable.Stream.Integers.{Get}
use ipc_portable.Stream.Taking.{Reads, Holds, skip, Holds-stream_of_read, Holds-skip, skip-skip}
use ipc_portable.Packet.{
  Header, read_header, header_layout, length-header_layout, IsWide, read_header-Reads,
  c_net_call_packet_header_size,
}
use ipc_portable.Call.Packets.{header_of, packet_layout, length-packet_layout}

pub record CallDataBuffer : Type 0 where
  pub data_stream : DataStream
  pub header : Header

abbrev received : Option (Header × DataStream) → Option CallDataBuffer
received none = none
received (some (h, s)) = some (record { data_stream = s; header = h })

-- `ReceiveCallDataBuffer`.
unfoldable pub receive_call_data_buffer : List ℕ → Option CallDataBuffer
receive_call_data_buffer packet = received (read_header (stream_of_read packet))

module _ (pt id : ℕ) (bytes : List ℕ) (typed : IsU32 pt) (wide : IsU32 id)
    (fits : IsU32 (c_net_call_packet_header_size + length bytes)) where
  abbrev header : Header
  header = header_of (length bytes) pt id

  abbrev packet : List ℕ
  packet = packet_layout pt id bytes

  abbrev s : DataStream
  s = stream_of_read packet

  size : length packet ≡ 12 + length bytes
  size = length-packet_layout pt id bytes

  twelve : length (header_layout header) ≡ 12
  twelve = length-header_layout header

  small : IsU32 (length packet)
  small = omega (arith, size, fits)

  fields : IsWide header
  fields = (omega (arith, fits), typed, wide)

  pub arrives :
      receive_call_data_buffer packet ≡ some (record { data_stream = skip 12 s; header = header })
  unfolding receive_call_data_buffer
  arrives =
      ap received (
        (read_header-Reads header fields).at s bytes
          (Holds-stream_of_read (header_layout header) bytes small))
      ∙ ap (λ n. some (record { data_stream = skip n s; header = header })) twelve

  pub body : Holds (skip 12 s) bytes []
  body =
      subst (λ n. Holds (skip n s) bytes []) twelve
        (Holds-skip (header_layout header) bytes [] s (small, omega arith, sym (append-nil packet)))

  -- A packet is received with its header, and its data are then read as they were written.
  pub take_packet :
      {A : Type 0} {m : Get A} {a : A}
      → Reads m bytes a
      → (buffer : CallDataBuffer) × (receive_call_data_buffer packet ≡ some buffer)
        × (buffer.header ≡ header)
        × (m buffer.data_stream ≡ some (a, skip (length packet) s))
  take_packet {a = a} r = (
    record { data_stream = skip 12 s; header = header },
    arrives,
    refl,
    r.at (skip 12 s) [] body
        ∙ ap (λ t. some (a, t)) (skip-skip 12 (length bytes) (length packet) s size),
  )
