-- ===== src/Transport/Memory.antt =====
-- Autotests/IpcTransport_MemoryCopy.h: one end of the in-memory transport, with its two shared
-- queues. The callback `on_read` and the waiting itself are not modelled: a wait ends when the bytes
-- are there or when it is cancelled, and the state given is the one at its end.
use ipc_portable.Common.{
  ℕ, ◌≤◌, ◌≡◌, refl, Bool, true, false, not, Option, none, some, List, ◌++◌, arith, length, take,
  drop, ltb, if◌then◌else◌,
}
use ipc_portable.Transport.{TransportCopy, IsQueue}

pub record SyncData : Type 0 where
  pub incoming_data : Bool
  pub cancel_wait_respond : Bool
  pub bytes : List ℕ

pub record MemoryCopy : Type 0 where
  pub read_end : SyncData
  pub write_end : SyncData

abbrev pub read_memory : ℕ → MemoryCopy → Option (List ℕ) × MemoryCopy
read_memory size s = if ltb (length s.read_end.bytes) size then (none, s) else (
  some (take size s.read_end.bytes),
  record s {
    read_end = record s.read_end { bytes = drop size s.read_end.bytes; incoming_data = false };
  },
)

abbrev pub write_memory : List ℕ → MemoryCopy → MemoryCopy
write_memory bytes s = record s {
  write_end = record s.write_end { bytes = s.write_end.bytes ++ bytes; incoming_data = true };
}

abbrev pub memory_copy : TransportCopy
memory_copy = record {
  State = MemoryCopy;
  wait_respond = λ expected_size s. (not s.read_end.cancel_wait_respond, s);
  read_bytes_available = λ s. length s.read_end.bytes;
  read = read_memory;
  write = write_memory;
}

-- The in-memory transport keeps the contract.
pub memory_read_bytes :
    (n : ℕ) (s : MemoryCopy)
    → n ≤ length s.read_end.bytes
    → (read_memory n s).0 ≡ some (take n s.read_end.bytes)
memory_read_bytes n s h = ground arith

pub memory_read_queue :
    (n : ℕ) (s : MemoryCopy)
    → n ≤ length s.read_end.bytes
    → (read_memory n s).1.read_end.bytes ≡ drop n s.read_end.bytes
memory_read_queue n s h = ground arith

abbrev pub memory_copy-IsQueue : IsQueue memory_copy
memory_copy-IsQueue = record {
  queued = λ s. s.read_end.bytes;
  available_lem = λ s. refl;
  read_bytes_lem = memory_read_bytes;
  read_queue_lem = memory_read_queue;
}
