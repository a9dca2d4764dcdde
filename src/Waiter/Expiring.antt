-- ===== src/Waiter/Expiring.antt =====
-- What `~Event` leaves in the filter where a `CallInfo` has expired before.
use ipc_portable.Common.{
  ℕ, ◌-◌, Option, none, some, List, [], ◌∷◌, ◌≡◌, ◌≢◌, refl, ap, ◌∙◌, get_elem?, set, All, arith,
}
use ipc_portable.Waiter.{
  null, World, call, filter_of, get_filter_id, notify_if, erase_ids, destroy_event, destroy_found,
}
use ipc_portable.Waiter.Counting.{count, count_checks, count-erase_ids, get_elem?-set_self}

expired_id :
    (w : World) (info ref : ℕ)
    → w.call_counts info ≡ none
    → (w.checks ref).kind ≡ call info
    → get_filter_id w ref ≡ 0
unfolding get_filter_id
expired_id w info ref gone e =
    ap (λ k. filter_of k ref w.call_counts) e
    ∙ ap (λ (o : Option ℕ). elim o as (λ _. ℕ) [ none ↦ 0 | some n ↦ info ]) gone

expired_ids :
    (w : World) (info : ℕ) (refs : List ℕ)
    → w.call_counts info ≡ none
    → All (λ ref. (w.checks ref).kind ≡ call info) refs
    → All (λ ref. get_filter_id w ref ≡ null) refs
expired_ids w info [] gone all = tt
expired_ids w info (ref ∷ refs) gone (first, others) =
    (expired_id w info ref gone first, expired_ids w info refs gone others)

expired_checks :
    (w : World) (info : ℕ) (refs : List ℕ)
    → info ≢ 0
    → w.call_counts info ≡ none
    → All (λ ref. (w.checks ref).kind ≡ call info) refs
    → count_checks info w refs ≡ 0
unfolding count_checks
expired_checks w info [] real gone all = refl
expired_checks w info (ref ∷ refs) real gone (first, others) =
    ground (arith, expired_id w info ref gone first, expired_checks w info refs real gone others)

notify_if-filter : (refs : List ℕ) (w : World) → (notify_if refs w).change_filter ≡ w.change_filter
notify_if-filter [] w = refl
notify_if-filter (_ ∷ _) w = refl

notify_if-events : (refs : List ℕ) (w : World) → (notify_if refs w).events ≡ w.events
notify_if-events [] w = refl
notify_if-events (_ ∷ _) w = refl

-- Where a `CallInfo` has expired, `GetFilterId` of its checks is the null pointer, and `~Event` of an
-- event that was bound only to it has no fault and leaves the ids of the checks in the filter,
-- as often as they stood there.
pub destroy_event-expired :
    (w : World) (event info : ℕ) (refs : List ℕ)
    → info ≢ 0
    → w.call_counts info ≡ none
    → get_elem? w.events event ≡ some refs
    → All (λ ref. (w.checks ref).kind ≡ call info) refs
    → (v : World) × (destroy_event event w ≡ some v)
      × (get_elem? v.events event ≡ some [])
      × All (λ ref. get_filter_id w ref ≡ null) refs
      × (count info v.change_filter ≡ count info w.change_filter)
unfolding destroy_event
destroy_event-expired w event info refs real gone known all =
    let left = record w {
      change_filter = erase_ids refs w w.change_filter;
      events = set w.events event [];
    } in
    (
      notify_if refs left,
      ap (destroy_found event w) known,
      ap (λ es. get_elem? es event) (notify_if-events refs left)
          ∙ get_elem?-set_self w.events event refs [] known,
      expired_ids w info refs gone all,
      ap (count info) (notify_if-filter refs left)
          ∙ count-erase_ids info refs w w.change_filter
          ∙ ap (λ (n : ℕ). count info w.change_filter - n)
              (expired_checks w info refs real gone all)
          ∙ omega arith,
    )
