-- ===== src/Calling.antt =====
-- Outgoing calls, `MAssIpcCall` of Ipc/MAssIpcCall.h and Ipc/MAssIpcCall.cpp: the ids of calls, and
-- the packet of a call up to the transport's `Write`. The waiting for the answer is in the module
-- Waiting.
pub mod Fresh
pub mod Packets
pub mod Tests
use ipc_portable.Common.{
  ℕ, zero, suc, Bool, true, false, ◌||◌, Option, none, some, List, [], ◌∷◌, length, ◌==◌,
  if◌then◌else◌, add32,
}
use ipc_portable.Stream.{DataStream}
use ipc_portable.RawString.{RawString}
use ipc_portable.Packet.{c_invalid_id, pt_call, pt_enumerate}
use ipc_portable.Call.{
  Creator, create_data_stream, create_data_stream_inplace, measure_size, written,
}
use ipc_portable.Call.Receiving.{CallDataBuffer}
use ipc_portable.Call.Values.{Value}
use ipc_portable.Call.Invocation.{serialize_call}

-- `PendingResponces`: the thread that reads the transport (`LockCurrentThreadId`, whose `id()` is
-- `none`), the counter of ids, the answers that wait under their ids, and the calls that wait to be
-- processed.
pub record PendingResponces : Type 0 where
  pub thread_waiting_transport : Option ℕ
  pub incremental_id : ℕ
  pub id_data_return : List (ℕ × CallDataBuffer)
  pub data_incoming_call : List CallDataBuffer

-- `m_id_data_return.find(id) != m_id_data_return.end()`.
unfoldable pub has_id : ℕ → List (ℕ × CallDataBuffer) → Bool
has_id id [] = false
has_id id ((k, buffer) ∷ rest) = (k == id) || has_id id rest

-- The map's `find`, `erase` and `insert`, which leaves an entry that is there.
unfoldable pub find_id : ℕ → List (ℕ × CallDataBuffer) → Option CallDataBuffer
find_id id [] = none
find_id id ((k, buffer) ∷ rest) = if k == id then some buffer else find_id id rest

unfoldable pub erase_id : ℕ → List (ℕ × CallDataBuffer) → List (ℕ × CallDataBuffer)
erase_id id [] = []
erase_id id ((k, buffer) ∷ rest) =
    let others = erase_id id rest in if k == id then rest else (k, buffer) ∷ others

unfoldable pub insert_id :
    ℕ → CallDataBuffer → List (ℕ × CallDataBuffer) → List (ℕ × CallDataBuffer)
insert_id id buffer waiting = if has_id id waiting then waiting else (id, buffer) ∷ waiting

-- The counter behind the `if` of the loop's body.
abbrev pub skip_invalid : ℕ → ℕ
skip_invalid incremental_id =
    if incremental_id == c_invalid_id then add32 incremental_id 1 else incremental_id

-- The loop of `NewCallId`, with the counter; `none` is a loop that has not ended after `rounds`.
unfoldable pub new_call_id_loop : ℕ → ℕ → List (ℕ × CallDataBuffer) → Option (ℕ × ℕ)
new_call_id_loop zero incremental_id waiting = none
new_call_id_loop (suc rounds) incremental_id waiting =
    let new_id = skip_invalid incremental_id in
    let rest = new_call_id_loop rounds (add32 new_id 1) waiting in
    if has_id new_id waiting then rest else some (new_id, add32 new_id 1)

-- `NewCallId`, with one round more than there are answers waiting.
unfoldable pub new_call_id : PendingResponces → Option (ℕ × PendingResponces)
new_call_id p =
    elim (new_call_id_loop (suc (length p.id_data_return)) p.incremental_id p.id_data_return) [
      | none ↦ none
      | some (new_id, counter) ↦ some (new_id, record p { incremental_id = counter })
    ]

pub data ProcIn : Type 0 where
  later : ProcIn
  now : ProcIn
  bydefault : ProcIn

-- `IsProcessIncomingCalls`, with `m_process_incoming_calls_default`.
abbrev pub is_process_incoming_calls : Bool → ProcIn → Bool
is_process_incoming_calls process_default later = false
is_process_incoming_calls process_default now = true
is_process_incoming_calls process_default bydefault = process_default

-- `InvokeSetting`, without the waiting.
pub record InvokeSetting : Type 0 where
  pub proc_name : RawString
  pub inplace_send_buffer : Option (List ℕ)

-- The stream of a call: in the buffer that the caller gave, or in one of the transport's.
abbrev pub call_stream : Creator → Option (List ℕ) → ℕ → ℕ → Option DataStream
call_stream transport none size id = create_data_stream transport size pt_call id
call_stream transport (some inplace) size id = create_data_stream_inplace inplace size pt_call id

-- `InvokeUnified` up to the data that `InvokeRemote` detaches.
unfoldable pub call_packet :
    Creator → InvokeSetting → List ℕ → Bool → ℕ → List Value → Option (Option (List ℕ))
unfolding measure_size
call_packet transport settings return_type wait_return new_id args =
    let call = serialize_call return_type settings.proc_name wait_return args in
    elim (measure_size call) [
      | none ↦ none
      | some size ↦ written call (call_stream transport settings.inplace_send_buffer size new_id)
    ]

-- `EnumerateRemote` up to the data that `InvokeRemote` detaches.
unfoldable pub enumerate_packet : Creator → ℕ → Option (Option (List ℕ))
enumerate_packet transport new_id = elim (create_data_stream transport 0 pt_enumerate new_id) [
  | none ↦ none
  | some s ↦ some s.write
]
