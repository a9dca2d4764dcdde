-- ===== src/Waiter/Binding.antt =====
-- Checks that are bound, shared and taken away with their event, in the balance of Filter.
use ipc_portable.Common.{
  ℕ, ◌+◌, ◌<◌, true, false, Option, none, some, List, [], ◌∷◌, ◌++◌, ◌==◌, ◌≡◌, refl, ap,
  if◌then◌else◌, get_elem?, set, update, arith,
}
use ipc_portable.Waiter.{
  World, Check, get_filter_id, filter_of, notify_all, bind_new, bind_found, share_checks,
  share_found, insert_shared_check, destroy_found, notify_if, erase_ids, create_event,
}
use ipc_portable.Waiter.Counting.{
  count, count_checks, count_all, IsBelow, count-erase_ids, count_checks-append, count_all-append,
  count_all-set, count_all-same, count_checks-same, get_elem?-set_self, All-get_elem?, All-set,
  All-append, All-weaken,
}
use ipc_portable.Waiter.Filter.{IsBalanced, OnSome, alike}

-- A new check, at a number that no event has yet.
module _ (event : ℕ) (c : Check) (w : World) (b : IsBalanced w) where
  abbrev bound : List ℕ → World
  bound refs = notify_all (
      insert_shared_check event w.next (filter_of c.kind w.next w.call_counts) refs
        (record w { checks = update w.next c w.checks; next = w.next + 1 }))

  old_id :
      (refs : List ℕ) (ref : ℕ)
      → ref < w.next
      → get_filter_id (bound refs) ref ≡ get_filter_id w ref
  unfolding get_filter_id
  old_id refs ref h = let away : (w.next == ref) ≡ false = ground (arith, h) in rw away refl

  new_id :
      (refs : List ℕ) → get_filter_id (bound refs) w.next ≡ filter_of c.kind w.next w.call_counts
  unfolding get_filter_id
  new_id refs = let here' : (w.next == w.next) ≡ true = ground arith in rw here' refl

  bound-IsBalanced :
      (refs : List ℕ) → get_elem? w.events event ≡ some refs → IsBalanced (bound refs)
  unfolding count count_checks
  bound-IsBalanced refs e =
      let n = w.next in
      let low : IsBelow n refs = All-get_elem? (IsBelow n) w.events event b.made e in
      record {
        counts = λ a.
            let id = filter_of c.kind n w.call_counts in
            let v = bound refs in
            omega (
              arith,
              b.counts a,
              count_all-set a v w.events event refs (refs ++ (n ∷ [])) e,
              count_checks-append a v refs (n ∷ []),
              count_all-same n w v (old_id refs) a w.events b.made,
              ap {B = ℕ} (λ (i : ℕ). if a == i then 1 else 0) (new_id refs),
            );
        made =
            All-set (IsBelow (n + 1)) w.events event (refs ++ (n ∷ []))
              (All-weaken (IsBelow n) (IsBelow (n + 1)) w.events
                (λ refs'. All-weaken (λ i. i < n) (λ i. i < n + 1) refs' (λ i h. omega (arith, h)))
                b.made)
              (All-append (λ i. i < n + 1) refs (n ∷ [])
                (All-weaken (λ i. i < n) (λ i. i < n + 1) refs (λ i h. omega (arith, h)) low)
                (omega arith, tt));
      }

  bind_found-IsBalanced :
      (o : Option (List ℕ))
      → get_elem? w.events event ≡ o
      → OnSome IsBalanced (bind_found event c w o)
  bind_found-IsBalanced none e = tt
  bind_found-IsBalanced (some refs) e = bound-IsBalanced refs e

  pub bind_new-IsBalanced : OnSome IsBalanced (bind_new event c w)
  unfolding bind_new
  bind_new-IsBalanced = bind_found-IsBalanced (get_elem? w.events event) refl

inserted_id :
    (event ref id : ℕ) (refs : List ℕ) (w : World) (i : ℕ)
    → get_filter_id (insert_shared_check event ref id refs w) i ≡ get_filter_id w i
unfolding get_filter_id
inserted_id event ref id refs w i = refl

pub notified_id : (w : World) (ref : ℕ) → get_filter_id (notify_all w) ref ≡ get_filter_id w ref
unfolding get_filter_id
notified_id w ref = refl

destroyed_id :
    (filter : List ℕ) (events : List (List ℕ)) (w : World) (ref : ℕ)
    → get_filter_id (record w { change_filter = filter; events = events }) ref ≡ get_filter_id w ref
unfolding get_filter_id
destroyed_id filter events w ref = refl

notify_if-IsBalanced : (refs : List ℕ) (w : World) → IsBalanced w → IsBalanced (notify_if refs w)
notify_if-IsBalanced [] w b = b
notify_if-IsBalanced (_ ∷ _) w b = alike w (notify_all w) b refl refl refl (notified_id w)

-- A check that events have already.
module _ (event : ℕ) (w : World) (b : IsBalanced w) where
  insert-IsBalanced :
      (refs : List ℕ) (ref : ℕ)
      → get_elem? w.events event ≡ some refs
      → ref < w.next
      → IsBalanced (insert_shared_check event ref (get_filter_id w ref) refs w)
  unfolding count count_checks
  insert-IsBalanced refs ref e h =
      let v = insert_shared_check event ref (get_filter_id w ref) refs w in
      let same : (i : ℕ) → i < w.next → get_filter_id v i ≡ get_filter_id w i =
        λ i _. inserted_id event ref (get_filter_id w ref) refs w i in
      record {
        counts = λ a. omega (
          arith,
          b.counts a,
          count_all-set a v w.events event refs (refs ++ (ref ∷ [])) e,
          count_checks-append a v refs (ref ∷ []),
          count_all-same w.next w v same a w.events b.made,
          ap {B = ℕ} (λ (i : ℕ). if a == i then 1 else 0)
              (inserted_id event ref (get_filter_id w ref) refs w ref),
        );
        made = All-set (IsBelow w.next) w.events event (refs ++ (ref ∷ [])) b.made (
            All-append (λ i. i < w.next) refs (ref ∷ [])
              (All-get_elem? (IsBelow w.next) w.events event b.made e) (h, tt));
      }

  pub destroy_found-IsBalanced :
      (o : Option (List ℕ))
      → get_elem? w.events event ≡ o
      → OnSome IsBalanced (destroy_found event w o)
  unfolding count_checks
  destroy_found-IsBalanced none e = tt
  destroy_found-IsBalanced (some refs) e =
      let v = record w {
        change_filter = erase_ids refs w w.change_filter;
        events = set w.events event [];
      } in
      let kept : IsBalanced v = record {
        counts = λ a. omega (
          arith,
          b.counts a,
          count-erase_ids a refs w w.change_filter,
          count_all-set a v w.events event refs [] e,
          count_all-same w.next w v (λ ref _. destroyed_id v.change_filter v.events w ref) a
              w.events b.made,
          count_checks-same w.next w v (λ ref _. destroyed_id v.change_filter v.events w ref) a refs
              (All-get_elem? (IsBelow w.next) w.events event b.made e),
        );
        made = All-set (IsBelow w.next) w.events event [] b.made tt;
      } in
      notify_if-IsBalanced refs v kept

share_checks-IsBalanced :
    (event : ℕ) (others refs : List ℕ) (w : World)
    → IsBalanced w
    → get_elem? w.events event ≡ some refs
    → IsBelow w.next others
    → IsBalanced (share_checks event others refs w)
unfolding share_checks
share_checks-IsBalanced event [] refs w b e h = b
share_checks-IsBalanced event (ref ∷ others) refs w b e (first, later) =
    share_checks-IsBalanced event others (refs ++ (ref ∷ []))
      (insert_shared_check event ref (get_filter_id w ref) refs w)
      (insert-IsBalanced event w b refs ref e first)
      (get_elem?-set_self w.events event refs (refs ++ (ref ∷ [])) e) later

pub share_found-IsBalanced :
    (event : ℕ) (w : World) (o p : Option (List ℕ)) (other : ℕ)
    → IsBalanced w
    → get_elem? w.events event ≡ o
    → get_elem? w.events other ≡ p
    → OnSome IsBalanced (share_found event w o p)
share_found-IsBalanced event w none p other b e k = tt
share_found-IsBalanced event w (some refs) none other b e k = tt
share_found-IsBalanced event w (some refs) (some others) other b e k =
    let v = share_checks event others refs w in
    alike v (notify_all v)
      (share_checks-IsBalanced event others refs w b e
        (All-get_elem? (IsBelow w.next) w.events other b.made k))
      refl refl refl (notified_id v)

pub create_event-IsBalanced : (w : World) → IsBalanced w → IsBalanced (create_event w)
unfolding count_all count_checks get_filter_id
create_event-IsBalanced w b = record {
  counts = λ a. omega (
    arith,
    b.counts a,
    count_all-append a (create_event w) w.events ([] ∷ []),
    count_all-same w.next w (create_event w) (λ ref _. refl {a = get_filter_id w ref}) a w.events
        b.made,
  );
  made = All-append (IsBelow w.next) w.events ([] ∷ []) b.made (tt, tt);
}
