-- ===== src/Transport.antt =====
-- Ipc/MAssIpc_Transport.h: `MAssIpc_TransportCopy`, the byte transport that the library's user
-- supplies, as the operations that the library calls. The contract of its reading side: the bytes
-- that have arrived form a queue, which `Read` takes from at the front.
pub mod Memory
use ipc_portable.Common.{ℕ, ◌≤◌, ◌≡◌, Bool, Option, some, List, length, take, drop}

pub record TransportCopy : Type 1 where
  pub State : Type 0
  -- `false` cancels the wait.
  pub wait_respond : ℕ → State → Bool × State
  pub read_bytes_available : State → ℕ
  -- `none` is `false`.
  pub read : ℕ → State → Option (List ℕ) × State
  pub write : List ℕ → State → State

pub record IsQueue (t : TransportCopy) : Type 0 where
  pub queued : t.State → List ℕ
  pub available_lem : (s : t.State) → t.read_bytes_available s ≡ length (queued s)
  pub read_bytes_lem :
      (n : ℕ) (s : t.State) → n ≤ length (queued s) → (t.read n s).0 ≡ some (take n (queued s))
  pub read_queue_lem :
      (n : ℕ) (s : t.State) → n ≤ length (queued s) → queued (t.read n s).1 ≡ drop n (queued s)
