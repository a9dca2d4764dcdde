-- ===== src/Packet.antt =====
-- Ipc/MAssIpc_Packet.h, and the header functions of Ipc/MAssIpc_PacketParser.cpp: the twelve bytes
-- in front of a packet's data. `PacketType` has an underlying `uint32_t`, and a packet may carry any
-- value of it, so that a type is a number.
use mathlib.Core.Path.{subst}
use ipc_portable.Common.{
  ℕ, ◌+◌, ◌≡◌, List, ◌++◌, true, none, arith, length, length-append, if◌then◌else◌, IsU32, u32_max,
  pure, ◌>>=◌, ◌>>◌,
}
use ipc_portable.Stream.{is_read_available}
use ipc_portable.Stream.Bytes.{write_unsafe, length-write_unsafe}
use ipc_portable.Stream.Appending.{Writes, Writes->>}
use ipc_portable.Stream.Taking.{Reads, Reads->>=, is_read_available-Holds}
use ipc_portable.Stream.Integers.{
  Put, Get, put_uint32, get_uint32, put_uint32-Writes, get_uint32-Reads,
}
use ipc_portable.Stream.Procs.{Reads-last}

abbrev pub pt_undefined : ℕ
pt_undefined = 0

abbrev pub pt_enumerate : ℕ
pt_enumerate = 1

abbrev pub pt_call : ℕ
pt_call = 2

abbrev pub pt_return : ℕ
pt_return = 3

abbrev pub pt_return_fail_call : ℕ
pt_return_fail_call = 4

abbrev pub pt_return_enumerate : ℕ
pt_return_enumerate = 5

abbrev pub pt_count_not_a_type : ℕ
pt_count_not_a_type = 6

abbrev pub c_net_call_packet_header_size : ℕ
c_net_call_packet_header_size = 4 + 4 + 4

abbrev pub c_invalid_packet_size : ℕ
c_invalid_packet_size = u32_max

abbrev pub c_invalid_id : ℕ
c_invalid_id = 0

pub record Header : Type 0 where
  pub size : ℕ
  pub packet_type : ℕ
  pub id : ℕ

abbrev pub undefined_header : Header
undefined_header = record {
  size = c_invalid_packet_size;
  packet_type = pt_undefined;
  id = c_invalid_id;
}

-- `type_raw` has no initial value: using it after a read that failed is a fault.
get_type_raw : Get ℕ
get_type_raw s = if is_read_available 4 s then get_uint32 0 s else none

-- `ReadHeader`.
unfoldable pub read_header : Get Header
unfolding get_type_raw
read_header = do
  size ← get_uint32 c_invalid_packet_size
  type_raw ← get_type_raw
  id ← get_uint32 c_invalid_id
  pure (record { size = size; packet_type = type_raw; id = id })

-- `PacketHeaderWrite`.
unfoldable pub packet_header_write : ℕ → ℕ → ℕ → Put
packet_header_write no_header_size pt id =
    put_uint32 no_header_size >> (put_uint32 pt >> put_uint32 id)

abbrev pub header_layout : Header → List ℕ
header_layout h = write_unsafe 4 h.size ++ (write_unsafe 4 h.packet_type ++ write_unsafe 4 h.id)

abbrev pub IsWide : Header → Type 0
IsWide h = IsU32 h.size × IsU32 h.packet_type × IsU32 h.id

pub length-header_layout : (h : Header) → length (header_layout h) ≡ c_net_call_packet_header_size
length-header_layout h = omega (
  arith,
  length-append (write_unsafe 4 h.size) (write_unsafe 4 h.packet_type ++ write_unsafe 4 h.id),
  length-append (write_unsafe 4 h.packet_type) (write_unsafe 4 h.id),
  length-write_unsafe 4 h.size,
  length-write_unsafe 4 h.packet_type,
  length-write_unsafe 4 h.id,
)

pub packet_header_write-Writes :
    (h : Header) → Writes (packet_header_write h.size h.packet_type h.id) (header_layout h)
unfolding packet_header_write
packet_header_write-Writes h =
    Writes->> (put_uint32-Writes h.size)
      (Writes->> (put_uint32-Writes h.packet_type) (put_uint32-Writes h.id))

get_type_raw-Reads : (v : ℕ) → IsU32 v → Reads get_type_raw (write_unsafe 4 v) v
unfolding get_type_raw
get_type_raw-Reads v h = record {
  at = λ s rest held.
      let n : length (write_unsafe 4 v) ≡ 4 = length-write_unsafe 4 v in
      rw
        (subst (λ k. is_read_available k s ≡ true) n
          (is_read_available-Holds s (write_unsafe 4 v) rest held))
        ((get_uint32-Reads 0 v h).at s rest held);
}

-- `ReadHeader` gives back what `PacketHeaderWrite` wrote.
pub read_header-Reads : (h : Header) → IsWide h → Reads read_header (header_layout h) h
unfolding read_header
read_header-Reads h (a, b, c) = Reads->>= _ (get_uint32-Reads c_invalid_packet_size h.size a) (
    Reads->>= _ (get_type_raw-Reads h.packet_type b) (
      Reads-last (λ id. record { size = h.size; packet_type = h.packet_type; id = id })
        (get_uint32-Reads c_invalid_id h.id c)))
