-- ===== src/Parser/Tests.antt =====
-- Concrete runs of the packet parser.
use ipc_portable.Common.{
  ℕ, ◌≡◌, refl, false, none, some, List, [], ◌∷◌, ◌++◌, arith, take, drop, All,
}
use ipc_portable.Stream.Bytes.{read_unsafe, load_loop}
use ipc_portable.Transport.Memory.{MemoryCopy, SyncData, memory_copy, memory_copy-IsQueue}
use ipc_portable.Parser.{Needed, initial_parser, read_needed_data_size}
use ipc_portable.Parser.Framing.{size_field, next_packet, Delivers, HoldsHeader, IsAcceptable}
use ipc_portable.Parser.Framing.Refines.{read_needed_data_size-next_packet}
use ipc_portable.Parser.Framing.Overflow.{read_needed_data_size_oversize}
use ipc_portable.Parser.Delivery.{IsPacket, Run, polls, IsDelivered, Holding-initial, polls_deliver}

abbrev end_with : List ℕ → SyncData
end_with bytes = record { incoming_data = false; cancel_wait_respond = false; bytes = bytes }

abbrev memory_with : List ℕ → MemoryCopy
memory_with bytes = record { read_end = end_with bytes; write_end = end_with [] }

abbrev one_byte_packet : List ℕ
one_byte_packet = 1 ∷ 0 ∷ 0 ∷ 0 ∷ 2 ∷ 0 ∷ 0 ∷ 0 ∷ 7 ∷ 0 ∷ 0 ∷ 0 ∷ 9 ∷ []

abbrev empty_packet : List ℕ
empty_packet = 0 ∷ 0 ∷ 0 ∷ 0 ∷ 3 ∷ 0 ∷ 0 ∷ 0 ∷ 8 ∷ 0 ∷ 0 ∷ 0 ∷ []

abbrev two_packets : List (List ℕ)
two_packets = one_byte_packet ∷ empty_packet ∷ []

abbrev three_pieces : List (List ℕ)
three_pieces =
    take 5 one_byte_packet
    ∷ (drop 5 one_byte_packet ++ take 3 empty_packet)
    ∷ drop 3 empty_packet
    ∷ []

two_packets-IsPacket : All IsPacket two_packets
unfolding size_field read_unsafe load_loop
two_packets-IsPacket = ((omega arith, refl, omega arith), ((omega arith, refl, omega arith), tt))

polls_deliver_example :
    (r : Run) × (polls three_pieces initial_parser (memory_with []) ≡ some r)
    × IsDelivered two_packets [] r
polls_deliver_example =
    polls_deliver two_packets three_pieces (memory_with []) [] two_packets-IsPacket refl

one_byte_packet-IsAcceptable : IsAcceptable one_byte_packet
unfolding size_field read_unsafe load_loop
one_byte_packet-IsAcceptable = λ _. omega arith

next_packet_example :
    (r : Needed MemoryCopy) × (read_needed_data_size memory_copy initial_parser
        (memory_with one_byte_packet)
      ≡ some r)
    × Delivers memory_copy memory_copy-IsQueue one_byte_packet (next_packet one_byte_packet) r
next_packet_example =
    read_needed_data_size-next_packet memory_copy memory_copy-IsQueue initial_parser []
      (memory_with one_byte_packet) Holding-initial one_byte_packet-IsAcceptable

abbrev oversize_header : List ℕ
oversize_header = 250 ∷ 255 ∷ 255 ∷ 255 ∷ 2 ∷ 0 ∷ 0 ∷ 0 ∷ 7 ∷ 0 ∷ 0 ∷ 0 ∷ []

oversize_header-size : size_field oversize_header ≡ 4294967290
unfolding size_field read_unsafe load_loop
oversize_header-size = refl

HoldsHeader-initial : HoldsHeader initial_parser []
HoldsHeader-initial = record {
  no_size = refl;
  no_data = refl;
  raw_size = refl;
  need_le = omega arith;
  need_pos = omega arith;
  received = refl;
}

oversize_example :
    read_needed_data_size memory_copy initial_parser (memory_with oversize_header) ≡ none
oversize_example =
    read_needed_data_size_oversize memory_copy memory_copy-IsQueue initial_parser []
      (memory_with oversize_header) HoldsHeader-initial (omega arith)
      (omega (arith, oversize_header-size)) (omega (arith, oversize_header-size))
