-- ===== src/Waiter/Pending.antt =====
-- How many events a check has still to be waited for, and what `ResetTriggered` makes of it.
use ipc_portable.Common.{
  ℕ, ◌-◌, ◌<◌, Bool, true, false, not, ◌&&◌, Option, some, List, [], ◌∷◌, ◌==◌, ◌≡◌, refl, sym, ap,
  ◌∙◌, if◌then◌else◌, update, has, arith, inl, inr, Bool-cases, ==_iff, IsU32, sub32, ltb,
}
use ipc_portable.Waiter.{
  World, Check, Kind, call, connect, change, current_of, current_count, is_triggered, is_past,
  ResetType, wait_next_after_trigger, wait_next_after_reset, wait_next_after_zero, next_start,
  reset_check, reset_one, reset_triggered,
}
use ipc_portable.Waiter.Counting.{count, has-count}

-- What stays pending of `pending` events where the object has the count `current`.
abbrev pub left : ResetType → ℕ → ℕ → ℕ
left wait_next_after_trigger pending current = pending - 1
left wait_next_after_reset pending current = 0
left wait_next_after_zero pending current = current

next_start-left :
    (reset : ResetType) (begin current : ℕ)
    → IsU32 begin
    → IsU32 current
    → 0 < sub32 current begin
    → sub32 current (next_start reset begin (some current))
      ≡ left reset (sub32 current begin) current
next_start-left wait_next_after_trigger begin current b c h = omega (arith, b, c, h)
next_start-left wait_next_after_reset begin current b c h = omega (arith, c)
next_start-left wait_next_after_zero begin current b c h = omega (arith, c)

-- Other checks stay as they are.
reset_one_other :
    (reset : ResetType) (ref other : ℕ) (w : World)
    → (ref == other) ≡ false
    → (reset_one reset ref w).checks other ≡ w.checks other
reset_one_other reset ref other w apart =
    elim (Bool-cases (is_triggered w (w.checks ref) && not (w.checks ref).interpret_as_cancel)) [
      | inl resets ↦ rw resets (rw apart refl)
      | inr keeps ↦ rw keeps refl
    ]

reset_triggered_other :
    (reset : ResetType) (refs : List ℕ) (other : ℕ) (w : World)
    → has other refs ≡ false
    → (reset_triggered reset refs w).checks other ≡ w.checks other
unfolding reset_triggered has
reset_triggered_other reset [] other w h = refl
reset_triggered_other reset (ref ∷ refs) other w h =
    reset_triggered_other reset refs other (reset_one reset ref w) (ground (arith, h))
    ∙ reset_one_other reset ref other w (ground (arith, h))

-- The objects' counts do not depend on resets.
reset_one-current_of :
    (reset : ResetType) (ref own : ℕ) (k : Kind) (w : World)
    → current_of k own (reset_one reset ref w) ≡ current_of k own w
reset_one-current_of reset ref own k w =
    elim (Bool-cases (is_triggered w (w.checks ref) && not (w.checks ref).interpret_as_cancel)) [
      | inl resets ↦ rw resets (unmoved k)
      | inr keeps ↦ rw keeps refl
    ]
  where
    unmoved :
        (k : Kind)
        → current_of k own
            (record w { checks = update ref (reset_check reset w (w.checks ref)) w.checks })
          ≡ current_of k own w
    unmoved (call info) = refl
    unmoved (connect signaling state) = refl
    unmoved change = refl

-- What a reset makes of a check whose object has the count `current`.
abbrev settled : ResetType → Check → Option ℕ → Check
settled reset c current =
    if is_past c.wait_start_count current && not c.interpret_as_cancel
    then record c { wait_start_count = next_start reset c.wait_start_count current }
    else c

reset_one_self :
    (reset : ResetType) (ref : ℕ) (w : World)
    → (reset_one reset ref w).checks ref
      ≡ settled reset (w.checks ref) (current_count w (w.checks ref))
reset_one_self reset ref w =
    let self : (ref == ref) ≡ true = ground arith in
    elim (Bool-cases (is_triggered w (w.checks ref) && not (w.checks ref).interpret_as_cancel)) [
      | inl resets ↦ rw resets (rw self refl)
      | inr keeps ↦ rw keeps refl
    ]

reset_triggered_self :
    (reset : ResetType) (refs : List ℕ) (ref : ℕ) (w : World)
    → count ref refs ≡ 1
    → (reset_triggered reset refs w).checks ref
      ≡ settled reset (w.checks ref) (current_count w (w.checks ref))
unfolding reset_triggered count
reset_triggered_self reset [] ref w once = absurd (omega (arith, once))
reset_triggered_self reset (x ∷ xs) ref w once = elim (Bool-cases (ref == x)) [
  | inl here' ↦
      let same : ref ≡ x = (==_iff ref x).0 here' in
      reset_triggered_other reset xs ref (reset_one reset x w)
        (ground (arith, once, here', has-count ref xs))
      ∙ ap (λ i. (reset_one reset i w).checks ref) (sym same)
      ∙ reset_one_self reset ref w
  | inr away ↦
      let kept = reset_one_other reset x ref w (ground (arith, away)) in
      reset_triggered_self reset xs ref (reset_one reset x w) (ground (arith, once, away))
      ∙ ap (λ c. settled reset c (current_count (reset_one reset x w) c)) kept
      ∙ ap (settled reset (w.checks ref))
          (reset_one-current_of reset x (w.checks ref).actual_count (w.checks ref).kind w)
]

settled_pending :
    (reset : ResetType) (n : ℕ) (c : Check)
    → IsU32 n
    → IsU32 c.wait_start_count
    → sub32 n (settled reset c (some n)).wait_start_count ≡ (
        if is_past c.wait_start_count (some n) && not c.interpret_as_cancel
        then left reset (sub32 n c.wait_start_count) n
        else sub32 n c.wait_start_count)
settled_pending reset n c u v =
    elim (Bool-cases (is_past c.wait_start_count (some n) && not c.interpret_as_cancel)) [
      | inl resets ↦
          rw resets
            (next_start-left reset c.wait_start_count n v u (past _ c.interpret_as_cancel resets))
      | inr keeps ↦ rw keeps refl
    ]
  where
    past : (m : ℕ) (cancels : Bool) → (ltb 0 m && not cancels) ≡ true → 0 < m
    past m true e = ground (arith, e)
    past m false e = ground (arith, e)

-- `ResetTriggered` of an event that names a check once, where the check's object has the count `n`:
-- a triggered check that does not cancel has one event less to be waited for, none, or all that its
-- object has counted, as the `ResetType` says, and every other check as many as before; this also
-- where the 32-bit counters have wrapped around.
pub reset_triggered-pending :
    (reset : ResetType) (refs : List ℕ) (ref n : ℕ) (w : World)
    → count ref refs ≡ 1
    → current_count w (w.checks ref) ≡ some n
    → IsU32 n
    → IsU32 (w.checks ref).wait_start_count
    → sub32 n ((reset_triggered reset refs w).checks ref).wait_start_count ≡ (
        if is_triggered w (w.checks ref) && not (w.checks ref).interpret_as_cancel
        then left reset (sub32 n (w.checks ref).wait_start_count) n
        else sub32 n (w.checks ref).wait_start_count)
reset_triggered-pending reset refs ref n w once known u v =
    let c = w.checks ref in
    ap {B = ℕ} (λ (c : Check). sub32 n c.wait_start_count)
      (reset_triggered_self reset refs ref w once ∙ ap (settled reset c) known)
    ∙ settled_pending reset n c u v
    ∙ ap {B = ℕ}
        (λ (o : Option ℕ).
          if is_past c.wait_start_count o && not c.interpret_as_cancel
          then left reset (sub32 n c.wait_start_count) n
          else sub32 n c.wait_start_count)
        (sym known)
