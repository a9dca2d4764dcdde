-- ===== src/Waiter/Filter.antt =====
-- While the objects that checks look at live, the filter has each object as often as checks of
-- events name it.
use mathlib.Core.Path.{subst}
use ipc_portable.Common.{
  ℕ, not, ◌&&◌, Option, none, some, List, [], ◌∷◌, ◌==◌, ◌≡◌, refl, sym, ap, ◌∙◌, All, update, inl,
  inr, Bool-cases, ==_iff, add32, ltb,
}
use ipc_portable.Waiter.{
  World, Check, Kind, call, connect, change, get_filter_id, filter_of, notify_all, raise, ResetType,
  reset_one, reset_check, reset_triggered, is_triggered, signal_change_state, increment,
  undefined_enum_count,
}
use ipc_portable.Waiter.Counting.{count, count_all, IsBelow, count_all-same}

pub record IsBalanced (w : World) : Type 0 where
  pub counts : (a : ℕ) → count a w.change_filter ≡ count_all a w w.events
  pub made : All (IsBelow w.next) w.events

-- What holds of the state that an operation leaves, if it has no fault.
abbrev pub OnSome : (World → Type 0) → Option World → Type 0
OnSome P none = Unit
OnSome P (some w) = P w

-- Another state with the same events, filter and ids.
pub alike :
    (w v : World)
    → IsBalanced w
    → v.change_filter ≡ w.change_filter
    → v.events ≡ w.events
    → v.next ≡ w.next
    → ((ref : ℕ) → get_filter_id v ref ≡ get_filter_id w ref)
    → IsBalanced v
alike w v b filter events next same = record {
  counts = λ a.
      ap (count a) filter
      ∙ b.counts a
      ∙ sym (count_all-same w.next w v (λ ref _. same ref) a w.events b.made)
      ∙ ap (count_all a v) (sym events);
  made =
      subst (λ n. All (IsBelow n) v.events) (sym next)
        (subst (All (IsBelow w.next)) (sym events) b.made);
}

update-kind :
    (w : World) (ref : ℕ) (c : Check) (other : ℕ)
    → c.kind ≡ (w.checks ref).kind
    → (update ref c w.checks other).kind ≡ (w.checks other).kind
update-kind w ref c other e = elim (Bool-cases (ref == other)) [
  | inl here' ↦ rw here' (e ∙ ap (λ (i : ℕ). (w.checks i).kind) ((==_iff ref other).0 here'))
  | inr away ↦ rw away refl
]

reset_one-IsBalanced :
    (reset : ResetType) (ref : ℕ) (w : World) → IsBalanced w → IsBalanced (reset_one reset ref w)
unfolding get_filter_id
reset_one-IsBalanced reset ref w b =
    elim (Bool-cases (is_triggered w (w.checks ref) && not (w.checks ref).interpret_as_cancel)) [
      | inl resets ↦ rw resets (
          alike w (record w { checks = update ref (reset_check reset w (w.checks ref)) w.checks }) b
            refl refl refl
            (λ other.
              ap (λ k. filter_of k other w.call_counts)
                (update-kind w ref (reset_check reset w (w.checks ref)) other refl)))
      | inr keeps ↦ rw keeps b
    ]

pub reset_triggered-IsBalanced :
    (reset : ResetType) (refs : List ℕ) (w : World)
    → IsBalanced w
    → IsBalanced (reset_triggered reset refs w)
unfolding reset_triggered
reset_triggered-IsBalanced reset [] w b = b
reset_triggered-IsBalanced reset (ref ∷ refs) w b =
    reset_triggered-IsBalanced reset refs (reset_one reset ref w)
      (reset_one-IsBalanced reset ref w b)

pub increment-IsBalanced : (ref : ℕ) (w : World) → IsBalanced w → IsBalanced (increment ref w)
unfolding increment get_filter_id
increment-IsBalanced ref w b =
    let c = w.checks ref in
    let c' : Check = record c { actual_count = add32 c.actual_count 1 } in
    alike w (notify_all (record w { checks = update ref c' w.checks })) b refl refl refl
      (λ other. ap (λ k. filter_of k other w.call_counts) (update-kind w ref c' other refl))

pub signal_change_state-IsBalanced :
    (signaling state : ℕ) (w : World)
    → IsBalanced w
    → IsBalanced (signal_change_state signaling state w)
unfolding signal_change_state get_filter_id
signal_change_state-IsBalanced signaling state w b =
    elim (Bool-cases (ltb state undefined_enum_count)) [
      | inl known ↦ rw known (changed w b _)
      | inr unknown ↦
          rw unknown (alike w (raise w) b refl refl refl (λ ref. refl {a = get_filter_id w ref}))
    ]
  where
    changed :
        (w : World)
        → IsBalanced w
        → (connections : ℕ → ℕ → ℕ)
        → IsBalanced (notify_all (record w { connections = connections }))
    changed w b connections =
        alike w (notify_all (record w { connections = connections })) b refl refl refl
          (λ ref. refl {a = get_filter_id w ref})

-- `IncrementCallCount` of a `CallInfo` that lives.
abbrev pub one_more : Option ℕ → Option ℕ
one_more none = none
one_more (some n) = some (add32 n 1)

unfoldable pub count_call : ℕ → World → World
count_call info w = record w {
  call_counts = update info (one_more (w.call_counts info)) w.call_counts;
}

filter_of-one_more :
    (k : Kind) (self info : ℕ) (counts : ℕ → Option ℕ)
    → filter_of k self (update info (one_more (counts info)) counts) ≡ filter_of k self counts
filter_of-one_more (call i) self info counts = elim (Bool-cases (info == i)) [
  | inl same ↦
      let more : update info (one_more (counts info)) counts i ≡ one_more (counts i) =
        rw same (ap one_more (ap counts ((==_iff info i).0 same))) in
      ap (λ (o : Option ℕ). elim o as (λ _. ℕ) [ none ↦ 0 | some n ↦ i ]) more ∙ go (counts i) i
  | inr differ ↦
      let kept : update info (one_more (counts info)) counts i ≡ counts i = rw differ refl in
      ap (λ (o : Option ℕ). elim o as (λ _. ℕ) [ none ↦ 0 | some n ↦ i ]) kept
]
  where
    go :
        (o : Option ℕ) (i : ℕ)
        → (elim (one_more o) as (λ _. ℕ) [ none ↦ 0 | some n ↦ i ])
          ≡ (elim o as (λ _. ℕ) [ none ↦ 0 | some n ↦ i ])
    go none i = refl
    go (some n) i = refl
filter_of-one_more (connect a st) self info counts = refl
filter_of-one_more change self info counts = refl

pub count_call-IsBalanced : (info : ℕ) (w : World) → IsBalanced w → IsBalanced (count_call info w)
unfolding count_call get_filter_id
count_call-IsBalanced info w b =
    alike w (count_call info w) b refl refl refl
      (λ ref. filter_of-one_more (w.checks ref).kind ref info w.call_counts)
