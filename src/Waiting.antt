-- ===== src/Waiting.antt =====
-- `ProcessTransportResponse` and `LockCurrentThreadId` of Ipc/MAssIpcCall.cpp: the two sections under
-- `m_lock`, as functions on `PendingResponces`, and what is done between them. Threads runs them in
-- any order on any number of threads.
pub mod Threads
pub mod Rules
pub mod Exclusion
pub mod Searching
pub mod Settled
pub mod Wakeup
pub mod Answers
pub mod Keeping
pub mod Order
pub mod Returning
pub mod Tests
use ipc_portable.Common.{
  ℕ, Bool, true, false, not, ◌&&◌, Option, none, some, List, [], ◌∷◌, ◌++◌, leb, ltb, ◌==◌,
  if◌then◌else◌,
}
use ipc_portable.Stream.{empty_stream}
use ipc_portable.Packet.{
  undefined_header, c_invalid_id, pt_undefined, pt_call, pt_return, pt_count_not_a_type,
}
use ipc_portable.Call.Receiving.{CallDataBuffer}
use ipc_portable.Calling.{PendingResponces, find_id, erase_id, insert_id}

-- `IsLocked` and `IsCurrent`.
abbrev pub is_locked : Option ℕ → Bool
is_locked none = false
is_locked (some _) = true

abbrev pub is_current : ℕ → Option ℕ → Bool
is_current thread none = false
is_current thread (some owner) = owner == thread

abbrev pub lock : ℕ → PendingResponces → PendingResponces
lock thread p = record p { thread_waiting_transport = some thread }

abbrev pub unlock : PendingResponces → PendingResponces
unlock p = record p { thread_waiting_transport = none }

-- `CallDataBuffer buffer;`
abbrev pub no_buffer : CallDataBuffer
no_buffer = record { data_stream = empty_stream; header = undefined_header }

-- What the section `ReadBuffer` leaves to do: return `{}`, process a buffer, wait on the condition,
-- or read the transport.
pub data Found : Type 0 where
  nothing : Found
  buffer : CallDataBuffer → Found
  wait : Found
  read : Found

-- No answer waits under the id, and no call is to be taken.
abbrev pub to_transport : ℕ → ℕ → PendingResponces → Found × PendingResponces
to_transport thread wait_response_id p =
    if is_locked p.thread_waiting_transport
    then (if wait_response_id == c_invalid_id then (nothing, p) else (wait, p))
    else (read, lock thread p)

abbrev pub next_incoming_call :
    ℕ → ℕ → PendingResponces → List CallDataBuffer → Found × PendingResponces
next_incoming_call thread wait_response_id p [] = to_transport thread wait_response_id p
next_incoming_call thread wait_response_id p (call ∷ calls) =
    (buffer call, record p { data_incoming_call = calls })

abbrev pub after_find :
    ℕ → ℕ → Bool → PendingResponces → Option CallDataBuffer → Found × PendingResponces
after_find thread wait_response_id process_incoming_calls p (some answer) =
    (buffer answer, record p { id_data_return = erase_id wait_response_id p.id_data_return })
after_find thread wait_response_id true p none =
    next_incoming_call thread wait_response_id p p.data_incoming_call
after_find thread wait_response_id false p none = to_transport thread wait_response_id p

-- A round of the inner loop, from its head to a `break`, a `return` or the wait.
unfoldable pub search : ℕ → ℕ → Bool → PendingResponces → Found × PendingResponces
search thread wait_response_id process_incoming_calls p =
    after_find thread wait_response_id process_incoming_calls p
      (find_id wait_response_id p.id_data_return)

-- The section `ReadBuffer`, where a thread inside the transport's read is sent back.
unfoldable pub read_buffer : ℕ → ℕ → Bool → PendingResponces → Found × PendingResponces
read_buffer thread wait_response_id process_incoming_calls p =
    if is_current thread p.thread_waiting_transport
    then (nothing, p)
    else search thread wait_response_id process_incoming_calls p

-- The buffer's type tells an answer from a call.
abbrev pub is_packet : CallDataBuffer → Bool
is_packet b = not (b.header.packet_type == pt_undefined)

abbrev pub is_incoming_call : CallDataBuffer → Bool
is_incoming_call b = leb b.header.packet_type pt_call

abbrev pub is_new_return : CallDataBuffer → Bool
is_new_return b = is_packet b && not (is_incoming_call b)

abbrev pub store : CallDataBuffer → PendingResponces → PendingResponces
store b p =
    if not (is_packet b)
    then p
    else if is_incoming_call b
    then record p { data_incoming_call = p.data_incoming_call ++ (b ∷ []) }
    else record p { id_data_return = insert_id b.header.id b p.id_data_return }

abbrev pub is_empty : List CallDataBuffer → Bool
is_empty [] = true
is_empty (_ ∷ _) = false

-- Whether the loop goes on behind the section `WriteBuffer`.
abbrev pub goes_on : ℕ → Bool → Bool → CallDataBuffer → PendingResponces → Bool
goes_on wait_response_id process_incoming_calls transport_ok b p =
    if not transport_ok
    then false
    else if not (wait_response_id == c_invalid_id)
    then true
    else if process_incoming_calls && not (is_empty p.data_incoming_call)
    then true
    else is_new_return b

-- The section `WriteBuffer` (its `notify_all` is in Threads), and whether the loop goes on.
unfoldable pub write_buffer :
    ℕ → Bool → Bool → CallDataBuffer → PendingResponces → Bool × PendingResponces
write_buffer wait_response_id process_incoming_calls transport_ok b p =
    let p' = store b (unlock p) in
    (goes_on wait_response_id process_incoming_calls transport_ok b p', p')

-- `response_precessed`.
abbrev pub response_processed : ℕ → CallDataBuffer → Bool
response_processed wait_response_id b =
    (b.header.id == wait_response_id)
    && (leb pt_return b.header.packet_type && ltb b.header.packet_type pt_count_not_a_type)
