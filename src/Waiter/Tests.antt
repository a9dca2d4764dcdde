-- ===== src/Waiter/Tests.antt =====
-- An event that waits for calls of the procedure 5 and for its own counter.
use ipc_portable.Common.{
  All, ℕ, suc, false, not, ◌&&◌, Option, none, some, [], ◌∷◌, ◌==◌, ◌≡◌, refl, has, arith,
  if◌then◌else◌, ltb, u32_max, get_elem?, sub32,
}
use ipc_portable.Waiter.{
  null, World, ready, timeout, call, wait_next_after_trigger, bind_new, bind_call, make_signaling,
  destroy_event, check_condition_changed, event_is_triggered, wait_duration, reset_triggered,
  get_filter_id, is_triggered, current_count,
}
use ipc_portable.Waiter.Counting.{count, count_all}
use ipc_portable.Waiter.Filter.{count_call}
use ipc_portable.Waiter.Operations.{
  Operation, create, to_call, to_counter, called, run, new_waiter, Reach, start, later,
  check_condition_changed-notifies,
}
use ipc_portable.Waiter.Expiring.{destroy_event-expired}
use ipc_portable.Waiter.Pending.{reset_triggered-pending, left}

-- The procedure 5 has been called 3 times; no other lives.
abbrev calls : ℕ → Option ℕ
calls info = if info == 5 then some 3 else none

record Run : Type 0 where
  last : World
  reach : Reach calls last

turn : Run → Operation → Run
turn r op = go (run op r.last) refl
  where
    go : (o : Option World) → run op r.last ≡ o → Run
    go none e = r
    go (some t) e = record { last = t; reach = later r.reach op e }

bound : Run
unfolding turn run bind_call bind_new make_signaling get_filter_id
bound =
    turn
      (turn (turn (record { last = new_waiter calls; reach = start }) create)
        (to_call 0 5 u32_max false))
      (to_counter 0 false)

twice : Run
unfolding bound count_call
twice = turn (turn bound (called 5)) (called 5)

bound-idle : event_is_triggered (1 ∷ 2 ∷ []) bound.last ≡ false
unfolding bound event_is_triggered
bound-idle = refl

twice-ready : wait_duration (1 ∷ 2 ∷ []) (bound.last ∷ twice.last ∷ []) ≡ ready
unfolding bound twice wait_duration
twice-ready = refl

bound-timeout : wait_duration (1 ∷ 2 ∷ []) (bound.last ∷ bound.last ∷ []) ≡ timeout
unfolding bound wait_duration
bound-timeout = refl

check_condition_changed_example : (check_condition_changed 5 bound.last).notified ≡ (
    if ltb 0 (count_all 5 bound.last bound.last.events)
    then suc bound.last.notified
    else bound.last.notified)
check_condition_changed_example = check_condition_changed-notifies calls bound.reach 5

bound-notifies : (check_condition_changed 5 bound.last).notified ≡ 3
unfolding bound check_condition_changed has
bound-notifies = refl

bound-ignores : (check_condition_changed 6 bound.last).notified ≡ 2
unfolding bound check_condition_changed has
bound-ignores = refl

-- The event of a procedure that has expired.
abbrev expired : World
expired = record (new_waiter (λ _. none)) {
  change_filter = 5 ∷ [];
  checks = λ _. record {
    kind = call 5;
    interpret_as_cancel = false;
    wait_start_count = 3;
    actual_count = 0;
  };
  events = (1 ∷ []) ∷ [];
}

destroy_event-expired_example :
    (v : World) × (destroy_event 0 expired ≡ some v)
    × (get_elem? v.events 0 ≡ some [])
    × All (λ ref. get_filter_id expired ref ≡ null) (1 ∷ [])
    × (count 5 v.change_filter ≡ count 5 expired.change_filter)
destroy_event-expired_example =
    destroy_event-expired expired 0 5 (1 ∷ []) (λ e. omega (arith, e)) refl refl (refl, tt)

pending_known : current_count twice.last (twice.last.checks 1) ≡ some 5
unfolding bound twice
pending_known = refl

pending_small : (twice.last.checks 1).wait_start_count ≡ 3
unfolding bound twice
pending_small = refl

reset_triggered-pending_example :
    sub32 5
      ((reset_triggered wait_next_after_trigger (1 ∷ 2 ∷ []) twice.last).checks 1).wait_start_count
    ≡ (if is_triggered twice.last (twice.last.checks 1)
          && not (twice.last.checks 1).interpret_as_cancel
        then left wait_next_after_trigger (sub32 5 (twice.last.checks 1).wait_start_count) 5
        else sub32 5 (twice.last.checks 1).wait_start_count)
unfolding count
reset_triggered-pending_example =
    reset_triggered-pending wait_next_after_trigger (1 ∷ 2 ∷ []) 1 5 twice.last refl pending_known
      (omega arith) (omega (arith, pending_small))

twice-resets :
    sub32 5
      ((reset_triggered wait_next_after_trigger (1 ∷ 2 ∷ []) twice.last).checks 1).wait_start_count
    ≡ 1
unfolding twice bound reset_triggered
twice-resets = refl
