-- ===== src/Waiting/Threads.antt =====
-- `ProcessTransportResponse` on threads. A thread has a stack of running calls of it, since a handler
-- that a call runs, or the transport inside its read, may call it again. A move is what one thread
-- does under one lock of `m_lock`, or outside of it; the moves of threads follow in any order.
use ipc_portable.Common.{
  ℕ, Bool, true, false, Option, none, some, List, [], ◌∷◌, ◌++◌, map, ◌==◌, ◌≡◌, if◌then◌else◌,
}
use ipc_portable.Stream.{DataStream}
use ipc_portable.Packet.{c_invalid_id}
use ipc_portable.Call.Receiving.{CallDataBuffer, receive_call_data_buffer}
use ipc_portable.Calling.{PendingResponces}
use ipc_portable.Engine.{process_buffer}
use ipc_portable.Engine.Jobs.{Engine, wrote, asserted}
use ipc_portable.Waiting.{
  Found, nothing, buffer, wait, read, no_buffer, search, read_buffer, write_buffer,
  response_processed,
}

-- Where a running call stands, with the local variables that are live there.
pub data Phase : Type 0 where
  entering : Phase  -- before `ReadBuffer`
  waiting : Phase  -- in `m_write_cond.wait`
  notified : Phase  -- behind the wait, in `ReadBuffer`
  reading : Phase  -- in the transport's `Read`
  arrived : Bool → CallDataBuffer → Phase  -- before `WriteBuffer`
  processing : CallDataBuffer → Phase  -- before `ProcessBuffer`
  returned : Option DataStream → Phase  -- `none` is `{}`

pub record Frame : Type 0 where
  pub wait_response_id : ℕ
  pub process_incoming_calls : Bool
  pub phase : Phase

pub record System : Type 0 where
  pub pending : PendingResponces
  pub engine : Engine
  pub frames : ℕ → List Frame

abbrev pub enter : Phase → Frame → Frame
enter phase f = record f { phase = phase }

abbrev pub update : ℕ → List Frame → (ℕ → List Frame) → ℕ → List Frame
update i a f j = if i == j then a else f j

-- `notify_all`.
abbrev pub woken : Phase → Phase
woken waiting = notified
woken phase = phase

abbrev pub wake : Frame → Frame
wake f = enter (woken f.phase) f

unfoldable pub notify_all : (ℕ → List Frame) → ℕ → List Frame
notify_all frames thread = map wake (frames thread)

-- The packets that a move reads from the transport or takes to process them.
pub data Event : Type 0 where
  silent : Event
  stored : CallDataBuffer → Event
  took : CallDataBuffer → Event

abbrev pub found_phase : Found → Phase
found_phase nothing = returned none
found_phase (buffer b) = processing b
found_phase wait = waiting
found_phase read = reading

abbrev pub found_event : Found → Event
found_event (buffer b) = took b
found_event _ = silent

-- The thread's newest call goes to another phase.
abbrev pub to_phase : ℕ → Phase → Frame → List Frame → System → System
to_phase thread phase f rest s = record s { frames = update thread (enter phase f ∷ rest) s.frames }

abbrev pub after_found : ℕ → Frame → List Frame → System → Found × PendingResponces → Event × System
after_found thread f rest s (found, pending) =
    (found_event found, to_phase thread (found_phase found) f rest (record s { pending = pending }))

-- The end of a round of the outer loop.
abbrev pub next_round : Bool → Phase
next_round true = entering
next_round false = returned none

abbrev pub after_write :
    ℕ → Frame → List Frame → System → CallDataBuffer → Bool × PendingResponces → Event × System
after_write thread f rest s b (goes_on, pending) = (
  stored b,
  record s {
    pending = pending;
    frames = notify_all (update thread (enter (next_round goes_on) f ∷ rest) s.frames);
  },
)

abbrev pub processed_phase : ℕ → CallDataBuffer → Option DataStream → Phase
processed_phase wait_response_id b result =
    if response_processed wait_response_id b then returned result else entering

abbrev pub after_process :
    ℕ
    → Frame
    → List Frame
    → System
    → CallDataBuffer
    → Option (Option DataStream × Engine)
    → Option (Event × System)
after_process thread f rest s b none = none
after_process thread f rest s b (some (result, engine)) = some (
  silent,
  to_phase thread (processed_phase f.wait_response_id b result) f rest
      (record s { engine = engine }),
)

-- The thread's newest call goes on. `none`: it waits for the condition or the transport, or the
-- engine has a fault.
unfoldable pub go : ℕ → Frame → List Frame → System → Phase → Option (Event × System)
go thread f rest s entering = some (
    after_found thread f rest s
      (read_buffer thread f.wait_response_id f.process_incoming_calls s.pending))
go thread f rest s notified = some (
    after_found thread f rest s
      (search thread f.wait_response_id f.process_incoming_calls s.pending))
go thread f rest s waiting = none
go thread f rest s reading = none
go thread f rest s (arrived transport_ok b) = some (
    after_write thread f rest s b
      (write_buffer f.wait_response_id f.process_incoming_calls transport_ok b s.pending))
go thread f rest s (processing b) = after_process thread f rest s b (process_buffer b s.engine)
go thread f rest s (returned result) =
    some (silent, record s { frames = update thread rest s.frames })

-- The transport's `Read` returns, with a packet or without. A packet too short for its header is a
-- fault.
abbrev pub received : Option (List ℕ) → Option CallDataBuffer
received none = some no_buffer
received (some packet) = receive_call_data_buffer packet

unfoldable pub finish_read :
    ℕ → Bool → Frame → List Frame → System → Phase → Option CallDataBuffer → Option (Event × System)
finish_read thread transport_ok f rest s reading (some b) =
    some (silent, to_phase thread (arrived transport_ok b) f rest s)
finish_read thread transport_ok f rest s reading none = none
finish_read thread transport_ok f rest s entering o = none
finish_read thread transport_ok f rest s waiting o = none
finish_read thread transport_ok f rest s notified o = none
finish_read thread transport_ok f rest s (arrived ok b) o = none
finish_read thread transport_ok f rest s (processing b) o = none
finish_read thread transport_ok f rest s (returned r) o = none

-- A wait may end without a notification.
unfoldable pub spurious : ℕ → Frame → List Frame → System → Phase → Option (Event × System)
spurious thread f rest s waiting = some (silent, to_phase thread notified f rest s)
spurious thread f rest s entering = none
spurious thread f rest s notified = none
spurious thread f rest s reading = none
spurious thread f rest s (arrived ok b) = none
spurious thread f rest s (processing b) = none
spurious thread f rest s (returned r) = none

-- Code that may call: no running call, the transport inside its `Read`, or a handler that
-- `ProcessBuffer` runs.
abbrev pub may_call : List Frame → Bool
may_call [] = true
may_call (f ∷ rest) = elim f.phase [ reading ↦ true | processing b ↦ true | _ ↦ false ]

pub data Move : Type 0 where
  call : ℕ → Bool → Move
  proceed : Move
  transport_read : Bool → Option (List ℕ) → Move
  wake_up : Move

abbrev pub new_frame : ℕ → Bool → Frame
new_frame id process = record {
  wait_response_id = id;
  process_incoming_calls = process;
  phase = entering;
}

unfoldable pub call_if : Bool → ℕ → Frame → List Frame → System → Option (Event × System)
call_if true thread f frames s =
    some (silent, record s { frames = update thread (f ∷ frames) s.frames })
call_if false thread f frames s = none

abbrev pub move_newest : ℕ → Move → List Frame → System → Option (Event × System)
move_newest thread (call id process) frames s =
    call_if (may_call frames) thread (new_frame id process) frames s
move_newest thread proceed [] s = none
move_newest thread proceed (f ∷ rest) s = go thread f rest s f.phase
move_newest thread (transport_read transport_ok packet) [] s = none
move_newest thread (transport_read transport_ok packet) (f ∷ rest) s =
    finish_read thread transport_ok f rest s f.phase (received packet)
move_newest thread wake_up [] s = none
move_newest thread wake_up (f ∷ rest) s = spurious thread f rest s f.phase

unfoldable pub move : ℕ → Move → System → Option (Event × System)
unfolding go finish_read spurious call_if
move thread m s = move_newest thread m (s.frames thread) s

-- `ProcessTransport`.
abbrev pub process_transport : Move
process_transport = call c_invalid_id true

-- `InvokeRemote` with the data that the stream detaches: the packet is written, and the call whose
-- answer is wanted goes on with the move `call`.
abbrev pub invoke_remote : Option (List ℕ) → Bool → ℕ → Bool → Engine → Engine × Option Move
invoke_remote packet wait_return response_id process e = elim e.transport [
  | none ↦ (record e { effects = e.effects ++ (asserted ∷ []) }, none)
  | some _ ↦ elim packet [
    | none ↦ (e, none)
    | some bytes ↦ (
      record e { effects = e.effects ++ (wrote bytes ∷ []) },
      if wait_return then some (call response_id process) else none,
    )
  ]
]

-- A system whose `PendingResponces` is as `MAssIpcCall` makes it, and where nothing runs.
abbrev pub initial : Engine → System
initial engine = record {
  pending = record {
    thread_waiting_transport = none;
    incremental_id = 0;
    id_data_return = [];
    data_incoming_call = [];
  };
  engine = engine;
  frames = λ _. [];
}

-- The systems that moves lead to, with the events on the way, the newest first.
pub data Reach (start : System) : List Event → System → Type 0 where
  here : Reach start [] start
  next :
      {events : List Event} {s t : System} {event : Event}
      → Reach start events s
      → (thread : ℕ) (m : Move) → move thread m s ≡ some (event, t)
      → Reach start (event ∷ events) t
