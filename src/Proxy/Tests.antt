-- ===== src/Proxy/Tests.antt =====
-- A concrete read through the proxy.
use ipc_portable.Common.{ℕ, ◌≡◌, false, some, List, [], ◌∷◌, arith}
use ipc_portable.Stream.Bytes.{read_unsafe, load_loop}
use ipc_portable.Transport.Memory.{MemoryCopy, SyncData, memory_copy, memory_copy-IsQueue}
use ipc_portable.Parser.{initial_parser}
use ipc_portable.Parser.Framing.{size_field, next_packet, IsAcceptable}
use ipc_portable.Parser.Delivery.{Holding-initial}
use ipc_portable.Proxy.{ReadResult, read}
use ipc_portable.Proxy.Reading.{Returns, read-next_packet}

abbrev end_with : List ℕ → SyncData
end_with bytes = record { incoming_data = false; cancel_wait_respond = false; bytes = bytes }

abbrev bytes_waiting : List ℕ
bytes_waiting = 1 ∷ 0 ∷ 0 ∷ 0 ∷ 2 ∷ 0 ∷ 0 ∷ 0 ∷ 7 ∷ 0 ∷ 0 ∷ 0 ∷ 9 ∷ 4 ∷ []

abbrev waiting : MemoryCopy
waiting = record { read_end = end_with bytes_waiting; write_end = end_with [] }

bytes_waiting-IsAcceptable : IsAcceptable bytes_waiting
unfolding size_field read_unsafe load_loop
bytes_waiting-IsAcceptable = λ _. omega arith

read_example :
    (r : ReadResult memory_copy) × (read memory_copy false
        (record { packet_parser = initial_parser; transport = some waiting })
      ≡ some r)
    × Returns memory_copy memory_copy-IsQueue bytes_waiting (next_packet bytes_waiting) r
read_example =
    read-next_packet memory_copy memory_copy-IsQueue initial_parser [] waiting Holding-initial
      bytes_waiting-IsAcceptable
