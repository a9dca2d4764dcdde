-- ===== src/Call/Packets.antt =====
-- The packets that the two passes make.
use ipc_portable.Common.{
  ℕ, ◌+◌, ◌≤◌, ◌≡◌, ◌≢◌, false, refl, ap, ◌∙◌, Option, some, List, ◌++◌, arith, length,
  length-append, ◌==◌, add32, IsU32,
}
use ipc_portable.Stream.{DataStream, empty_stream, stream_of_write}
use ipc_portable.Stream.Integers.{Put}
use ipc_portable.Stream.Appending.{
  Writes, append_bytes, append_bytes-exact, append_bytes-append, Fits, Fits-append_bytes,
  Fits-weaken,
}
use ipc_portable.Packet.{
  Header, header_layout, length-header_layout, packet_header_write, packet_header_write-Writes,
  c_net_call_packet_header_size, c_invalid_id,
}
use ipc_portable.Call.{create_data_stream, measure_size, make_packet, written, stream_behind}

-- The first pass counts exactly the layout.
pub measure_size-Writes :
    (m : Put) (bytes : List ℕ)
    → Writes m bytes
    → IsU32 (length bytes)
    → measure_size m ≡ some (length bytes)
unfolding measure_size append_bytes
measure_size-Writes m bytes w h = ground (arith, w.at empty_stream (omega arith))

abbrev pub header_of : ℕ → ℕ → ℕ → Header
header_of size pt id = record { size = size; packet_type = pt; id = id }

-- A packet: the header, and the data that it announces.
abbrev pub packet_layout : ℕ → ℕ → List ℕ → List ℕ
packet_layout pt id bytes = header_layout (header_of (length bytes) pt id) ++ bytes

pub length-packet_layout :
    (pt id : ℕ) (bytes : List ℕ)
    → length (packet_layout pt id bytes) ≡ c_net_call_packet_header_size + length bytes
length-packet_layout pt id bytes = omega (
  arith,
  length-append (header_layout (header_of (length bytes) pt id)) bytes,
  length-header_layout (header_of (length bytes) pt id),
)

-- What `Create` promises: a buffer of the size asked for.
abbrev pub Creates : (ℕ → Option (List ℕ)) → ℕ → Type 0
Creates create n = (buffer : List ℕ) × (create n ≡ some buffer) × (length buffer ≡ n)

module _ (pt id : ℕ) (m : Put) (bytes : List ℕ) (w : Writes m bytes)
    (small : IsU32 (c_net_call_packet_header_size + length bytes)) where
  abbrev header : List ℕ
  header = header_layout (header_of (length bytes) pt id)

  fits :
      (buffer : List ℕ)
      → 12 + length bytes ≤ length buffer
      → IsU32 (length buffer)
      → Fits (stream_of_write buffer) (length (header ++ bytes))
  fits buffer h k = (omega (arith, length-packet_layout pt id bytes), k)

  -- The header and then the data, into a buffer with room for both.
  pub header_then_data :
      (buffer : List ℕ)
      → 12 + length bytes ≤ length buffer
      → IsU32 (length buffer)
      → (s : DataStream) × (packet_header_write (length bytes) pt id (stream_of_write buffer)
          ≡ some (tt, s))
        × (m s ≡ some (tt, append_bytes (header ++ bytes) (stream_of_write buffer)))
  header_then_data buffer h k = (
    append_bytes header (stream_of_write buffer),
    (packet_header_write-Writes (header_of (length bytes) pt id)).at (stream_of_write buffer) (
        Fits-weaken (stream_of_write buffer) _ (length (header ++ bytes))
          (omega (arith, length-append header bytes)) (fits buffer h k)),
    w.at (append_bytes header (stream_of_write buffer))
          (Fits-append_bytes header bytes (stream_of_write buffer) (fits buffer h k))
        ∙ ap (λ t. some (tt, t))
            (append_bytes-append header bytes (stream_of_write buffer) (fits buffer h k)),
  )

-- A writer that appends `bytes` is sent as one packet. Let the packet's size fit 32 bits, let the
-- id not be 0, and let the transport give a buffer of the packet's size. Then measuring, creating,
-- writing and detaching fail nowhere, and the packet is the header, which announces the length of
-- the data, and the data, with nothing behind it.
pub make_packet-packet_layout :
    (create : ℕ → Option (List ℕ)) (pt id : ℕ) (m : Put) (bytes : List ℕ)
    → Writes m bytes
    → IsU32 (c_net_call_packet_header_size + length bytes)
    → id ≢ c_invalid_id
    → Creates create (c_net_call_packet_header_size + length bytes)
    → make_packet (some create) pt id m ≡ some (some (packet_layout pt id bytes))
unfolding make_packet create_data_stream
make_packet-packet_layout create pt id m bytes w small valid (buffer, created, size) =
    let (s, e, f) =
      header_then_data pt id m bytes w small buffer (omega (arith, size)) (omega (arith, size)) in
    let whole =
      append_bytes-exact (packet_layout pt id bytes) buffer
        (omega (arith, size, length-packet_layout pt id bytes)) in
    let known : (id == c_invalid_id) ≡ false = ground (arith, valid) in
    let sum : add32 12 (length bytes) ≡ 12 + length bytes = omega arith in
    rw (measure_size-Writes m bytes w (omega arith), make_packet)
      (rw (known, create_data_stream)
        (rw (sum, created) (rw (e, stream_behind) (rw (f, written) (rw whole refl)))))
