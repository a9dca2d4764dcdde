-- ===== src/Waiter.antt =====
-- Waiting for calls, connections and counters: `MAssIpcWaiter` of Ipc/MAssIpcWaiter.h. The checks are
-- objects that events share; each function here is what the code does under `lock_events`. A pointer
-- that identifies an object in the filter is a number, and the null pointer is 0.
pub mod Counting
pub mod Filter
pub mod Binding
pub mod Operations
pub mod Expiring
pub mod Pending
pub mod Tests
use ipc_portable.Common.{
  erase_one, ℕ, suc, ◌+◌, Bool, true, false, not, ◌&&◌, ◌||◌, Option, none, some, List, [], ◌∷◌,
  ◌++◌, ltb, ◌==◌, if◌then◌else◌, length, get_elem?, set, add32, sub32, u32_max, update, has,
}

-- What a `Check` looks at: the calls of a `CallInfo` (`Call`), a counter of a connection's
-- `Signaling` (`Connect`), or its own counter (`Change`).
pub data Kind : Type 0 where
  call : ℕ → Kind
  connect : ℕ → ℕ → Kind
  change : Kind

-- `m_actual_count` is a member of `Change` only.
pub record Check : Type 0 where
  pub kind : Kind
  pub interpret_as_cancel : Bool
  pub wait_start_count : ℕ
  pub actual_count : ℕ

-- `ConditionWaitLock` with the objects that its checks point to. A `CallInfo` that has expired has no
-- count; the counters of a `Signaling` are numbered by `State`; an event is its vector of checks.
pub record World : Type 0 where
  pub cancel_all_waits : Bool
  pub change_filter : List ℕ
  pub call_counts : ℕ → Option ℕ
  pub connections : ℕ → ℕ → ℕ
  pub checks : ℕ → Check
  pub events : List (List ℕ)
  pub next : ℕ
  pub notified : ℕ
  pub raised : ℕ

abbrev pub notify_all : World → World
notify_all w = record w { notified = suc w.notified }

abbrev pub raise : World → World
raise w = record w { raised = suc w.raised }

-- `State::undefined_enum_count`.
abbrev pub undefined_enum_count : ℕ
undefined_enum_count = 2

abbrev pub null : ℕ
null = 0

-- The count that a check compares with its start.
abbrev pub current_of : Kind → ℕ → World → Option ℕ
current_of (call info) own w = w.call_counts info
current_of (connect signaling state) own w = some (w.connections signaling state)
current_of change own w = some own

abbrev pub current_count : World → Check → Option ℕ
current_count w c = current_of c.kind c.actual_count w

-- `IsTriggeredLocked` of the three checks: the difference is unsigned.
abbrev pub is_past : ℕ → Option ℕ → Bool
is_past start none = false
is_past start (some current) = ltb 0 (sub32 current start)

abbrev pub is_triggered : World → Check → Bool
is_triggered w c = is_past c.wait_start_count (current_count w c)

pub data ResetType : Type 0 where
  wait_next_after_trigger : ResetType
  wait_next_after_reset : ResetType
  wait_next_after_zero : ResetType

abbrev pub or_zero : Option ℕ → ℕ
or_zero none = 0
or_zero (some n) = n

-- `ResetLocked`.
abbrev pub next_start : ResetType → ℕ → Option ℕ → ℕ
next_start wait_next_after_trigger start current = add32 start 1
next_start wait_next_after_reset start current = or_zero current
next_start wait_next_after_zero start current = 0

abbrev pub reset_check : ResetType → World → Check → Check
reset_check reset w c = record c {
  wait_start_count = next_start reset c.wait_start_count (current_count w c);
}

-- `GetFilterId`.
abbrev pub filter_of : Kind → ℕ → (ℕ → Option ℕ) → ℕ
filter_of (call info) self call_counts = elim (call_counts info) [ none ↦ null | some n ↦ info ]
filter_of (connect signaling state) self call_counts = signaling
filter_of change self call_counts = self

unfoldable pub get_filter_id : World → ℕ → ℕ
get_filter_id w ref = filter_of (w.checks ref).kind ref w.call_counts

-- `CheckConditionChanged`, which is also `OnCallCountChanged`.
unfoldable pub check_condition_changed : ℕ → World → World
check_condition_changed filter_id w = if has filter_id w.change_filter then notify_all w else w

-- `CancelAllWaits`.
abbrev pub cancel_all : World → World
cancel_all w = notify_all (record w { cancel_all_waits = true })

-- The loop of `IsTriggeredLocked` of an event: what the first triggered check says of canceling.
unfoldable pub first_triggered : List ℕ → World → Option Bool
first_triggered [] w = none
first_triggered (ref ∷ refs) w =
    let later = first_triggered refs w in
    if is_triggered w (w.checks ref) then some (w.checks ref).interpret_as_cancel else later

-- `IsTriggered`.
unfoldable pub event_is_triggered : List ℕ → World → Bool
unfolding first_triggered
event_is_triggered refs w = elim (first_triggered refs w) [ none ↦ false | some _ ↦ true ]

-- `ResetTriggered`.
abbrev pub reset_one : ResetType → ℕ → World → World
reset_one reset ref w =
    let c = w.checks ref in
    if is_triggered w c && not c.interpret_as_cancel
    then record w { checks = update ref (reset_check reset w c) w.checks }
    else w

unfoldable pub reset_triggered : ResetType → List ℕ → World → World
reset_triggered reset [] w = w
reset_triggered reset (ref ∷ refs) w = reset_triggered reset refs (reset_one reset ref w)

pub data WaitResult : Type 0 where
  ready : WaitResult
  timeout : WaitResult
  canceled : WaitResult

-- The predicate of `WaitDuration` and the result behind a wait that it ended; `none`: it is false.
abbrev pub result_of : Bool → Option Bool → Option WaitResult
result_of true first = some canceled
result_of false none = none
result_of false (some true) = some canceled
result_of false (some false) = some ready

-- `WaitDuration`: the condition variable evaluates the predicate in the states that the wait meets,
-- until it is true; where the time is over it evaluates it for the last time.
unfoldable pub wait_duration : List ℕ → List World → WaitResult
unfolding first_triggered
wait_duration refs [] = timeout
wait_duration refs (w ∷ ws) = elim (result_of w.cancel_all_waits (first_triggered refs w)) [
  | none ↦ wait_duration refs ws
  | some result ↦ result
]

-- `InsertSharedCheckLocked`, on the vector of an event.
abbrev pub insert_shared_check : ℕ → ℕ → ℕ → List ℕ → World → World
insert_shared_check event ref filter_id refs w = record w {
  change_filter = filter_id ∷ w.change_filter;
  events = set w.events event (refs ++ (ref ∷ []));
}

-- `BindCheck` of a new check.
abbrev pub bind_found : ℕ → Check → World → Option (List ℕ) → Option World
bind_found event c w none = none
bind_found event c w (some refs) = some (
    notify_all (
      insert_shared_check event w.next (filter_of c.kind w.next w.call_counts) refs
        (record w { checks = update w.next c w.checks; next = w.next + 1 })))

unfoldable pub bind_new : ℕ → Check → World → Option World
bind_new event c w = bind_found event c w (get_elem? w.events event)

-- The check that `BindCall`, `BindConnect` and `MakeSignaling` construct: with the object's count, and
-- the initial count, of which `InitialCount::current` is the largest number of a counter.
abbrev pub new_check : Kind → ℕ → ℕ → Bool → Check
new_check kind current initial_count interpret_as_cancel = record {
  kind = kind;
  interpret_as_cancel = interpret_as_cancel;
  wait_start_count = if initial_count == u32_max then current else initial_count;
  actual_count = 0;
}

-- `BindCall`: to a `CallInfo` that has expired nothing is bound.
unfoldable pub bind_call : ℕ → ℕ → ℕ → Bool → World → Option World
unfolding bind_new
bind_call event info initial_count interpret_as_cancel w = elim (w.call_counts info) [
  | none ↦ some (raise w)
  | some count ↦ bind_new event (new_check (call info) count initial_count interpret_as_cancel) w
]

-- `BindConnect`.
unfoldable pub bind_connect : ℕ → ℕ → ℕ → ℕ → Bool → World → Option World
unfolding bind_new
bind_connect event signaling state initial_count interpret_as_cancel w =
    if not (ltb state undefined_enum_count)
    then some (raise w)
    else bind_new event
        (new_check (connect signaling state) (w.connections signaling state) initial_count
          interpret_as_cancel)
        w

-- `MakeSignaling` of a `CounterEvent`.
unfoldable pub make_signaling : ℕ → Bool → World → Option World
unfolding bind_new
make_signaling event interpret_as_cancel w =
    bind_new event (new_check change 0 0 interpret_as_cancel) w

-- `SignalChangeState` and `Increment`.
unfoldable pub signal_change_state : ℕ → ℕ → World → World
signal_change_state signaling state w =
    if not (ltb state undefined_enum_count)
    then raise w
    else notify_all (record w {
      connections = λ a st.
          if (a == signaling) && (st == state)
          then add32 (w.connections a st) 1
          else w.connections a st;
    })

unfoldable pub increment : ℕ → World → World
increment ref w =
    let c = w.checks ref in
    notify_all (record w {
      checks = update ref (record c { actual_count = add32 c.actual_count 1 }) w.checks;
    })

-- `BindEvent`: the checks of another event are shared, unless the events are one.
unfoldable pub share_checks : ℕ → List ℕ → List ℕ → World → World
share_checks event [] refs w = w
share_checks event (ref ∷ others) refs w =
    share_checks event others (refs ++ (ref ∷ []))
      (insert_shared_check event ref (get_filter_id w ref) refs w)

abbrev pub share_found : ℕ → World → Option (List ℕ) → Option (List ℕ) → Option World
share_found event w none o = none
share_found event w (some refs) none = none
share_found event w (some refs) (some others) = some (notify_all (share_checks event others refs w))

unfoldable pub bind_event : ℕ → ℕ → World → Option World
unfolding share_checks
bind_event event other w =
    if event == other
    then some w
    else share_found event w (get_elem? w.events event) (get_elem? w.events other)

-- A new event, and `~Event`, which takes an id of each check from the filter.
abbrev pub create_event : World → World
create_event w = record w { events = w.events ++ ([] ∷ []) }

unfoldable pub erase_ids : List ℕ → World → List ℕ → List ℕ
unfolding erase_one
erase_ids [] w filter = filter
erase_ids (ref ∷ refs) w filter = erase_ids refs w (erase_one (get_filter_id w ref) filter)

abbrev pub notify_if : List ℕ → World → World
notify_if [] w = w
notify_if (_ ∷ _) w = notify_all w

abbrev pub destroy_found : ℕ → World → Option (List ℕ) → Option World
destroy_found event w none = none
destroy_found event w (some refs) = some (
    notify_if refs (record w {
      change_filter = erase_ids refs w w.change_filter;
      events = set w.events event [];
    }))

unfoldable pub destroy_event : ℕ → World → Option World
unfolding erase_ids
destroy_event event w = destroy_found event w (get_elem? w.events event)
