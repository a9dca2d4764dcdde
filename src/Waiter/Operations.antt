-- ===== src/Waiter/Operations.antt =====
-- The operations of waiters and of what they wait for, in any order, while each `CallInfo` lives.
use mathlib.Core.Path.{subst}
use ipc_portable.Common.{
  ℕ, suc, Bool, true, false, not, Option, none, some, List, [], ◌==◌, ◌≡◌, refl, if◌then◌else◌,
  get_elem?, has, arith, inl, inr, Bool-cases, ltb,
}
use ipc_portable.Waiter.{
  World, ResetType, bind_call, bind_connect, make_signaling, bind_event, destroy_event,
  reset_triggered, signal_change_state, increment, cancel_all, create_event, bind_new, raise,
  undefined_enum_count, check_condition_changed, change, get_filter_id, notify_all, new_check, call,
  connect,
}
use ipc_portable.Waiter.Counting.{count, count_all, count-has, has-count}
use ipc_portable.Waiter.Filter.{
  IsBalanced, OnSome, alike, reset_triggered-IsBalanced, increment-IsBalanced,
  signal_change_state-IsBalanced, count_call, count_call-IsBalanced,
}
use ipc_portable.Waiter.Binding.{
  notified_id, create_event-IsBalanced, share_found-IsBalanced, bind_new-IsBalanced,
  destroy_found-IsBalanced,
}

pub data Operation : Type 0 where
  create : Operation
  destroy : ℕ → Operation
  to_call : ℕ → ℕ → ℕ → Bool → Operation
  to_connect : ℕ → ℕ → ℕ → ℕ → Bool → Operation
  to_counter : ℕ → Bool → Operation
  to_event : ℕ → ℕ → Operation
  reset : ResetType → ℕ → Operation
  called : ℕ → Operation
  signaled : ℕ → ℕ → Operation
  incremented : ℕ → Operation
  changed : ℕ → Operation
  cancel : Operation

abbrev pub reset_found : ResetType → World → Option (List ℕ) → Option World
reset_found r w none = none
reset_found r w (some refs) = some (reset_triggered r refs w)

-- `none`: there is no such event.
unfoldable pub run : Operation → World → Option World
run create w = some (create_event w)
run (destroy event) w = destroy_event event w
run (to_call event info initial cancels) w = bind_call event info initial cancels w
run (to_connect event signaling state initial cancels) w =
    bind_connect event signaling state initial cancels w
run (to_counter event cancels) w = make_signaling event cancels w
run (to_event event other) w = bind_event event other w
run (reset r event) w = reset_found r w (get_elem? w.events event)
run (called info) w = some (count_call info w)
run (signaled signaling state) w = some (signal_change_state signaling state w)
run (incremented ref) w = some (increment ref w)
run (changed filter_id) w = some (check_condition_changed filter_id w)
run cancel w = some (cancel_all w)

-- A new `MAssIpcWaiter`, with the `CallInfo` objects that there are.
abbrev pub new_waiter : (ℕ → Option ℕ) → World
new_waiter call_counts = record {
  cancel_all_waits = false;
  change_filter = [];
  call_counts = call_counts;
  connections = λ _ _. 0;
  checks = λ _. record {
    kind = change;
    interpret_as_cancel = false;
    wait_start_count = 0;
    actual_count = 0;
  };
  events = [];
  next = 1;
  notified = 0;
  raised = 0;
}

pub data Reach (call_counts : ℕ → Option ℕ) : World → Type 0 where
  start : Reach call_counts (new_waiter call_counts)
  later :
      {w v : World}
      → Reach call_counts w
      → (op : Operation) → run op w ≡ some v
      → Reach call_counts v

OnSome-if :
    (b : Bool) (o p : Option World)
    → OnSome IsBalanced o
    → OnSome IsBalanced p
    → OnSome IsBalanced (if b then o else p)
OnSome-if true o p h k = h
OnSome-if false o p h k = k

noticed : (w : World) → IsBalanced w → IsBalanced (notify_all w)
noticed w b = alike w (notify_all w) b refl refl refl (notified_id w)

raise-IsBalanced : (w : World) → IsBalanced w → IsBalanced (raise w)
unfolding count_all get_filter_id
raise-IsBalanced w b = alike w (raise w) b refl refl refl (λ ref. refl {a = get_filter_id w ref})

cancel_all-IsBalanced : (w : World) → IsBalanced w → IsBalanced (cancel_all w)
unfolding get_filter_id
cancel_all-IsBalanced w b =
    alike w (cancel_all w) b refl refl refl (λ ref. refl {a = get_filter_id w ref})

changed-IsBalanced :
    (filter_id : ℕ) (w : World) → IsBalanced w → IsBalanced (check_condition_changed filter_id w)
unfolding check_condition_changed
changed-IsBalanced filter_id w b = elim (Bool-cases (has filter_id w.change_filter)) [
  | inl found ↦ rw found (noticed w b)
  | inr absent ↦ rw absent b
]

bind_call-IsBalanced :
    (event info initial : ℕ) (cancels : Bool) (w : World)
    → IsBalanced w
    → OnSome IsBalanced (bind_call event info initial cancels w)
unfolding bind_call
bind_call-IsBalanced event info initial cancels w b = go (w.call_counts info)
  where
    go :
        (o : Option ℕ)
        → OnSome IsBalanced (elim o as (λ _. Option World) [
          | none ↦ some (raise w)
          | some n ↦ bind_new event (new_check (call info) n initial cancels) w
        ])
    go none = raise-IsBalanced w b
    go (some n) = bind_new-IsBalanced event (new_check (call info) n initial cancels) w b

reset_found-IsBalanced :
    (r : ResetType) (w : World) (o : Option (List ℕ))
    → IsBalanced w
    → OnSome IsBalanced (reset_found r w o)
reset_found-IsBalanced r w none b = tt
reset_found-IsBalanced r w (some refs) b = reset_triggered-IsBalanced r refs w b

run-IsBalanced : (op : Operation) (w : World) → IsBalanced w → OnSome IsBalanced (run op w)
unfolding run destroy_event bind_connect make_signaling bind_event
run-IsBalanced create w b = create_event-IsBalanced w b
run-IsBalanced (destroy event) w b =
    destroy_found-IsBalanced event w b (get_elem? w.events event) refl
run-IsBalanced (to_call event info initial cancels) w b =
    bind_call-IsBalanced event info initial cancels w b
run-IsBalanced (to_connect event signaling state initial cancels) w b =
    OnSome-if (not (ltb state undefined_enum_count)) _ _ (raise-IsBalanced w b) (
      bind_new-IsBalanced event
        (new_check (connect signaling state) (w.connections signaling state) initial cancels) w b)
run-IsBalanced (to_counter event cancels) w b =
    bind_new-IsBalanced event (new_check change 0 0 cancels) w b
run-IsBalanced (to_event event other) w b = OnSome-if (event == other) _ _ b (
    share_found-IsBalanced event w (get_elem? w.events event) (get_elem? w.events other) other b
      refl refl)
run-IsBalanced (reset r event) w b = reset_found-IsBalanced r w (get_elem? w.events event) b
run-IsBalanced (called info) w b = count_call-IsBalanced info w b
run-IsBalanced (signaled signaling state) w b = signal_change_state-IsBalanced signaling state w b
run-IsBalanced (incremented ref) w b = increment-IsBalanced ref w b
run-IsBalanced (changed filter_id) w b = changed-IsBalanced filter_id w b
run-IsBalanced cancel w b = cancel_all-IsBalanced w b

pub Reach-IsBalanced : (call_counts : ℕ → Option ℕ) {w : World} → Reach call_counts w → IsBalanced w
unfolding count count_all
Reach-IsBalanced call_counts start = record { counts = λ a. refl; made = tt }
Reach-IsBalanced call_counts (later {w} {v} r op e) =
    subst (OnSome IsBalanced) e (run-IsBalanced op w (Reach-IsBalanced call_counts r))

-- Whatever was bound, reset, shared, destroyed, called and signaled before, while each `CallInfo`
-- lives: a change of an object wakes the waits exactly if a check of an event looks at the object,
-- by `CheckConditionChanged`. No wait for it is left asleep.
pub check_condition_changed-notifies :
    (call_counts : ℕ → Option ℕ) {w : World}
    → Reach call_counts w
    → (a : ℕ)
    → (check_condition_changed a w).notified
      ≡ (if ltb 0 (count_all a w w.events) then suc w.notified else w.notified)
unfolding check_condition_changed
check_condition_changed-notifies call_counts {w} r a =
    let balanced = (Reach-IsBalanced call_counts r).counts a in
    elim (Bool-cases (has a w.change_filter)) [
      | inl found ↦
          let some_check : ltb 0 (count_all a w w.events) ≡ true =
            ground (arith, balanced, has-count a w.change_filter found) in
          rw found (rw some_check refl)
      | inr absent ↦
          let no_check : ltb 0 (count_all a w w.events) ≡ false =
            ground (arith, balanced, count-has a w.change_filter, absent) in
          rw absent (rw no_check refl)
    ]
