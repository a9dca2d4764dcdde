-- ===== src/Parser/Framing.antt =====
-- The specification of the packet parser: how a run of bytes is cut into packets, whatever the
-- pieces in which the bytes arrive.
pub mod Data
pub mod Refines
pub mod Overflow
use ipc_portable.Common.{
  ℕ, ◌+◌, ◌-◌, ◌≤◌, ◌<◌, ◌≡◌, ◌⊎◌, Bool, Option, none, some, List, [], length, take, drop, arith,
  ltb, if◌then◌else◌, IsU32,
}
use ipc_portable.Stream.Bytes.{read_unsafe}
use ipc_portable.Packet.{c_net_call_packet_header_size, c_invalid_packet_size}
use ipc_portable.Transport.{TransportCopy, IsQueue}
use ipc_portable.Parser.{PacketParser, initial_parser, Needed}

-- The size field of the header at the front.
unfoldable pub size_field : List ℕ → ℕ
size_field bytes = read_unsafe 4 (take c_net_call_packet_header_size bytes)

abbrev pub packet_size : List ℕ → ℕ
packet_size bytes = c_net_call_packet_header_size + size_field bytes

-- The first packet of a run of bytes and what follows it, if the packet is all there.
unfoldable pub next_packet : List ℕ → Option (List ℕ × List ℕ)
next_packet bytes =
    if ltb (length bytes) c_net_call_packet_header_size
    then none
    else if ltb (length bytes) (packet_size bytes)
    then none
    else some (take (packet_size bytes) bytes, drop (packet_size bytes) bytes)

pub next_packet_complete :
    (bytes : List ℕ) (n : ℕ)
    → packet_size bytes ≡ n
    → n ≤ length bytes
    → next_packet bytes ≡ some (take n bytes, drop n bytes)
unfolding next_packet
next_packet_complete bytes n e h = ground arith

pub next_packet_no_header :
    (bytes : List ℕ) → length bytes < c_net_call_packet_header_size → next_packet bytes ≡ none
unfolding next_packet
next_packet_no_header bytes h = ground arith

pub next_packet_short :
    (bytes : List ℕ) → length bytes < packet_size bytes → next_packet bytes ≡ none
unfolding next_packet
next_packet_short bytes h = ground arith

-- How many bytes are missing for the next step: the header, or the announced data.
unfoldable pub missing : List ℕ → ℕ
missing bytes =
    if ltb (length bytes) c_net_call_packet_header_size
    then c_net_call_packet_header_size - length bytes
    else packet_size bytes - length bytes

pub missing_data :
    (bytes : List ℕ) {n : ℕ}
    → c_net_call_packet_header_size ≤ length bytes
    → n + length bytes ≡ packet_size bytes
    → n ≡ missing bytes
unfolding missing
missing_data bytes h e = ground arith

pub missing_header :
    (bytes : List ℕ) {n : ℕ}
    → 0 < n
    → n + length bytes ≡ c_net_call_packet_header_size
    → n ≡ missing bytes
unfolding missing
missing_header bytes h e = ground arith

-- The whole packet's size can be counted in 32 bits.
abbrev pub IsAcceptable : List ℕ → Type 0
IsAcceptable bytes = c_net_call_packet_header_size ≤ length bytes → IsU32 (packet_size bytes)

-- The parser waits for the rest of a header, of which it has `bytes`.
pub record HoldsHeader (p : PacketParser) (bytes : List ℕ) : Type 0 where
  pub no_size : p.incoming.data_size ≡ c_invalid_packet_size
  pub no_data : p.header_data ≡ none
  pub raw_size : length p.incoming.raw_header_buffer ≡ c_net_call_packet_header_size
  pub need_le : p.incoming.need_size ≤ c_net_call_packet_header_size
  pub need_pos : 0 < p.incoming.need_size
  pub received :
      bytes
      ≡ take (c_net_call_packet_header_size - p.incoming.need_size) p.incoming.raw_header_buffer

-- The parser has the header of a packet and has `bytes` of the packet in its buffer.
pub record HoldsData (p : PacketParser) (buffer bytes : List ℕ) : Type 0 where
  pub packet_data : p.header_data ≡ some buffer
  pub counts : IsU32 (c_net_call_packet_header_size + p.incoming.data_size)
  pub buffer_size : length buffer ≡ c_net_call_packet_header_size + p.incoming.data_size
  pub need_le : p.incoming.need_size ≤ p.incoming.data_size
  pub received :
      bytes
      ≡ take (c_net_call_packet_header_size + p.incoming.data_size - p.incoming.need_size) buffer
  pub announced : p.incoming.data_size ≡ size_field bytes

-- The parser holds `bytes`, the beginning of a packet that is not complete.
abbrev pub Holding : PacketParser → List ℕ → Type 0
Holding p bytes =
    HoldsHeader p bytes
    ⊎ ((buffer : List ℕ) × HoldsData p buffer bytes × (0 < p.incoming.need_size))

module _ (t : TransportCopy) (q : IsQueue t) where
  -- What a call makes of `bytes`, which were held by the parser or were waiting in the transport,
  -- in either case of `next_packet`.
  abbrev pub Delivers : List ℕ → Option (List ℕ × List ℕ) → Needed t.State → Type 0
  Delivers bytes none r =
      (r.packet ≡ none)
      × Holding r.parser bytes
      × (q.queued r.transport ≡ [])
      × (r.size ≡ missing bytes)
  Delivers bytes (some (packet, rest)) r =
      (r.packet ≡ some packet)
      × (r.parser ≡ initial_parser)
      × (q.queued r.transport ≡ rest)
      × (r.size ≡ c_net_call_packet_header_size)
