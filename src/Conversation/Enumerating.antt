-- ===== src/Conversation/Enumerating.antt =====
-- `EnumerateRemote`: the list of the other program's procedures.
use ipc_portable.Common.{ℕ, ◌≡◌, Option, some, List, [], ◌∷◌, ◌++◌}
use ipc_portable.Stream.Procs.{ProcDescription, put_enumerate_data, enumerate_layout}
use ipc_portable.Packet.{pt_return_enumerate}
use ipc_portable.Call.{make_packet}
use ipc_portable.Call.Packets.{packet_layout}
use ipc_portable.Procs.{enumerate_handlers}
use ipc_portable.Engine.Jobs.{Engine, wrote}

module _ (id : ℕ) (create : ℕ → Option (List ℕ)) (e : Engine) (descriptions : List ProcDescription)
    (listed : enumerate_handlers e.procs.heap e.procs.procs.name_procs ≡ some descriptions)
    (connected : e.transport ≡ some create)
    (made : make_packet (some create) pt_return_enumerate id (put_enumerate_data descriptions)
      ≡ some (some (packet_layout pt_return_enumerate id (enumerate_layout descriptions)))) where
  abbrev answer : List ℕ
  answer = packet_layout pt_return_enumerate id (enumerate_layout descriptions)

  abbrev listing : Engine
  listing = record e { effects = e.effects ++ (wrote answer ∷ []) }
