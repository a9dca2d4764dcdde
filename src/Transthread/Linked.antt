-- ===== src/Transthread/Linked.antt =====
-- The sets of waiters hold exactly the waiters that name them, so that no pointer in a set dangles.
use ipc_portable.Common.{
  ℕ, ◌+◌, ◌≤◌, ◌<◌, Bool, true, false, not, ◌&&◌, ◌||◌, Option, none, some, List, [], ◌==◌, ◌≡◌,
  refl, sym, ap, ◌∙◌, arith, inl, inr, Bool-cases, ==_iff, update, has, erase, has-insert,
  has-erase, Action, ◌>>=◌,
}
use ipc_portable.Transthread.{
  CallState, CallWaiter, Receiver, Caller, set_found, notify_all, disable, forget, new_receiver,
  assign_receiver, add_to, take_from, construct_waiter, destroy_found,
}

abbrev pub points : ℕ → Option ℕ → Bool
points k none = false
points k (some j) = j == k

abbrev pub names : ℕ → Option CallWaiter → Bool
names k none = false
names k (some w) = points k w.sender_calls || points k w.receiver_calls

-- The pointer is null, or names an object made before.
abbrev pub IsBelow : ℕ → Option ℕ → Type 0
IsBelow n none = Unit
IsBelow n (some k) = k < n

abbrev pub IsMade : ℕ → Option Receiver → Type 0
IsMade n none = Unit
IsMade n (some r) = IsBelow n r.call_waiters_sender × IsBelow n r.call_waiters_receiver

pub record IsLinked (s : Caller) : Type 0 where
  pub same : (k i : ℕ) → has i (s.sets k) ≡ names k (s.waiters i)
  pub fresh_waiter : (i : ℕ) → s.next ≤ i → s.waiters i ≡ none
  pub fresh_set : (k : ℕ) → s.next ≤ k → s.sets k ≡ []
  pub made : (thread : ℕ) → IsMade s.next (s.threads thread)

IsBelow-le : (m n : ℕ) (o : Option ℕ) → m ≤ n → IsBelow m o → IsBelow n o
IsBelow-le m n none le h = tt
IsBelow-le m n (some k) le h = omega (arith, le, h)

pub IsMade-le : (m n : ℕ) (o : Option Receiver) → m ≤ n → IsMade m o → IsMade n o
IsMade-le m n none le h = tt
IsMade-le m n (some r) le (a, b) =
    (IsBelow-le m n r.call_waiters_sender le a, IsBelow-le m n r.call_waiters_receiver le b)

update-IsMade :
    (n thread : ℕ) (o : Option Receiver) (threads : ℕ → Option Receiver)
    → IsMade n o
    → ((t : ℕ) → IsMade n (threads t))
    → (t : ℕ) → IsMade n (update thread o threads t)
update-IsMade n thread o threads h all t = elim (Bool-cases (thread == t)) [
  | inl same ↦ rw same h
  | inr differ ↦ rw differ (all t)
]

-- What holds of the state that an operation leaves, if it has no fault.
abbrev pub OnSome : {A : Type 0} → (Caller → Type 0) → Option (A × Caller) → Type 0
OnSome P none = Unit
OnSome P (some (a, t)) = P t

pub OnSome->>= :
    {A B : Type 0} (P Q : Caller → Type 0) (m : Action Caller A) (f : A → Action Caller B)
    (s : Caller)
    → OnSome P (m s)
    → ((a : A) (t : Caller) → P t → OnSome Q (f a t))
    → OnSome Q ((m >>= f) s)
OnSome->>= {A} {B} P Q m f s h k = go (m s) h
  where
    go :
        (o : Option (A × Caller))
        → OnSome P o
        → OnSome Q (elim o [ none ↦ none | some (a, t) ↦ f a t ])
    go none h = tt
    go (some (a, t)) h = k a t h

-- Operations that leave the waiters' pointers and the sets alone.
module _ (s : Caller) (l : IsLinked s) where
  -- Another state with the same objects.
  pub alike :
      (t : Caller)
      → ((k i : ℕ) → names k (t.waiters i) ≡ names k (s.waiters i))
      → ((i : ℕ) → s.waiters i ≡ none → t.waiters i ≡ none)
      → t.sets ≡ s.sets
      → t.next ≡ s.next
      → ((thread : ℕ) → IsMade t.next (t.threads thread))
      → IsLinked t
  alike t named gone sets next threads = record {
    same = λ k i. ap (λ f. has i (f k)) sets ∙ l.same k i ∙ sym (named k i);
    fresh_waiter = λ i h. gone i (l.fresh_waiter i (omega (arith, next, h)));
    fresh_set = λ k h. ap (λ f. f k) sets ∙ l.fresh_set k (omega (arith, next, h));
    made = threads;
  }

  pub set_found-IsLinked :
      (state : CallState) (ref : ℕ) (o : Option CallWaiter)
      → s.waiters ref ≡ o
      → OnSome IsLinked (set_found state ref s o)
  set_found-IsLinked state ref none e = tt
  set_found-IsLinked state ref (some w) e =
      let w' : CallWaiter = record w { call_state = state } in
      alike (notify_all w.wait_sync (record s { waiters = update ref (some w') s.waiters }))
        (λ k i. elim (Bool-cases (ref == i)) [
          | inl here' ↦
              let one : ref ≡ i = (==_iff ref i).0 here' in
              rw here' (ap (names k) (sym e ∙ ap s.waiters one))
          | inr away ↦ rw away refl
        ])
        (λ i h. elim (Bool-cases (ref == i)) [
          | inl here' ↦
              let one : ref ≡ i = (==_iff ref i).0 here' in absurd (cc (e, h, ap s.waiters one))
          | inr away ↦ rw away h
        ])
        refl refl l.made

  pub disable-IsLinked :
      (thread : ℕ) (r : Receiver) → IsMade s.next (some r) → IsLinked (disable thread r s)
  disable-IsLinked thread r (a, b) =
      alike (disable thread r s) (λ k i. refl) (λ i h. h) refl refl
        (update-IsMade s.next thread (some (record r { call_waiters_sender = none })) s.threads
          (tt, b) l.made)

  pub forget-IsLinked : (thread : ℕ) → IsLinked (forget thread s)
  forget-IsLinked thread =
      alike (forget thread s) (λ k i. refl) (λ i h. h) refl refl
        (update-IsMade s.next thread none s.threads tt l.made)

  -- A set that is not made yet has no members, so that no waiter names it.
  pub unnamed : (k i : ℕ) → s.next ≤ k → names k (s.waiters i) ≡ false
  unfolding has
  unnamed k i h = sym (l.same k i) ∙ ap (has i) (l.fresh_set k h)

  pub assign_receiver-IsLinked : (thread : ℕ) → IsLinked (assign_receiver thread s)
  unfolding assign_receiver has
  assign_receiver-IsLinked thread = record {
    same = λ k i. elim (Bool-cases (s.next == k)) [
      | inl first ↦ rw first (sym (unnamed k i (ground (arith, first))))
      | inr no_first ↦ elim (Bool-cases (s.next + 1 == k)) [
        | inl second ↦ rw no_first (rw second (sym (unnamed k i (ground (arith, second)))))
        | inr no_second ↦ rw no_first (rw no_second (l.same k i))
      ]
    ];
    fresh_waiter = λ i h. l.fresh_waiter i (omega (arith, h));
    fresh_set = λ k h.
        let no_first : (s.next == k) ≡ false = ground (arith, h) in
        let no_second : (s.next + 1 == k) ≡ false = ground (arith, h) in
        rw no_first (rw no_second (l.fresh_set k (omega (arith, h))));
    made =
        update-IsMade (s.next + 3) thread (some (new_receiver s.next)) s.threads
          (omega arith, omega arith)
          (λ t. IsMade-le s.next (s.next + 3) (s.threads t) (omega arith) (l.made t));
  }

has-add_to :
    (o : Option ℕ) (ref k i : ℕ) (sets : ℕ → List ℕ)
    → has i (add_to o ref sets k) ≡ ((points k o && (i == ref)) || has i (sets k))
has-add_to none ref k i sets = refl
has-add_to (some j) ref k i sets = elim (Bool-cases (j == k)) [
  | inl same ↦
      let one : j ≡ k = (==_iff j k).0 same in
      rw same (has-insert i ref (sets j) ∙ ap (λ m. (i == ref) || has i (sets m)) one)
  | inr differ ↦ rw differ refl
]

has-take_from :
    (o : Option ℕ) (ref k i : ℕ) (sets : ℕ → List ℕ)
    → has i (take_from o ref sets k) ≡ (not (points k o && (i == ref)) && has i (sets k))
has-take_from none ref k i sets = refl
has-take_from (some j) ref k i sets = elim (Bool-cases (j == k)) [
  | inl same ↦
      let one : j ≡ k = (==_iff j k).0 same in
      rw same (has-erase i ref (sets j) ∙ ap (λ m. not (i == ref) && has i (sets m)) one)
  | inr differ ↦ rw differ refl
]

here_bool : (r s : Bool) → ((r && true) || ((s && true) || false)) ≡ (s || r)
here_bool r s = ground arith

away_bool : (r s h : Bool) → ((r && false) || ((s && false) || h)) ≡ h
away_bool r s h = ground arith

gone_bool : (r s : Bool) → (not (r && true) && (not (s && true) && (s || r))) ≡ false
gone_bool r s = ground arith

kept_bool : (r s h : Bool) → (not (r && false) && (not (s && false) && h)) ≡ h
kept_bool r s h = ground arith

add_to-fresh :
    (o : Option ℕ) (ref n k : ℕ) (sets : ℕ → List ℕ)
    → IsBelow n o
    → n ≤ k
    → sets k ≡ []
    → add_to o ref sets k ≡ []
add_to-fresh none ref n k sets h le e = e
add_to-fresh (some j) ref n k sets h le e =
    let differ : (j == k) ≡ false = ground (arith, h, le) in rw differ e

take_from-fresh :
    (o : Option ℕ) (ref k : ℕ) (sets : ℕ → List ℕ) → sets k ≡ [] → take_from o ref sets k ≡ []
unfolding erase
take_from-fresh none ref k sets e = e
take_from-fresh (some j) ref k sets e = elim (Bool-cases (j == k)) [
  | inl same ↦
      let one : j ≡ k = (==_iff j k).0 same in
      rw same (ap (λ m. erase ref (sets m)) one ∙ ap (erase ref) e)
  | inr differ ↦ rw differ e
]

module _ (s : Caller) (l : IsLinked s) where
  pub construct_waiter-IsLinked :
      (sender receiver : Option ℕ) (sync : ℕ)
      → IsBelow s.next sender
      → IsBelow s.next receiver
      → IsLinked (construct_waiter sender receiver sync s)
  unfolding construct_waiter
  construct_waiter-IsLinked sender receiver sync a b = record {
    same = λ k i.
        has-add_to receiver s.next k i (add_to sender s.next s.sets)
        ∙ ap (λ x. (points k receiver && (i == s.next)) || x) (has-add_to sender s.next k i s.sets)
        ∙ elim (Bool-cases (s.next == i)) [
          | inl here' ↦
              let back : (i == s.next) ≡ true = ground (arith, here') in
              let empty : has i (s.sets k) ≡ false =
                l.same k i ∙ ap (names k) (l.fresh_waiter i (ground (arith, here'))) in
              rw here' (rw back (rw empty (here_bool (points k receiver) (points k sender))))
          | inr away ↦
              let back : (i == s.next) ≡ false = ground (arith, away) in
              rw away (
                rw back
                  (away_bool (points k receiver) (points k sender) (has i (s.sets k)) ∙ l.same k i))
        ];
    fresh_waiter = λ i h.
        let away : (s.next == i) ≡ false = ground (arith, h) in
        rw away (l.fresh_waiter i (omega (arith, h)));
    fresh_set = λ k h.
        let le : s.next ≤ k = omega (arith, h) in
        add_to-fresh receiver s.next s.next k (add_to sender s.next s.sets) b le
          (add_to-fresh sender s.next s.next k s.sets a le (l.fresh_set k le));
    made = λ t. IsMade-le s.next (s.next + 1) (s.threads t) (omega arith) (l.made t);
  }

  pub destroy_found-IsLinked :
      (ref : ℕ) (o : Option CallWaiter)
      → s.waiters ref ≡ o
      → OnSome IsLinked (destroy_found ref s o)
  destroy_found-IsLinked ref none e = tt
  destroy_found-IsLinked ref (some w) e = record {
    same = λ k i.
        has-take_from w.receiver_calls ref k i (take_from w.sender_calls ref s.sets)
        ∙ ap (λ x. not (points k w.receiver_calls && (i == ref)) && x)
            (has-take_from w.sender_calls ref k i s.sets)
        ∙ elim (Bool-cases (ref == i)) [
          | inl here' ↦
              let back : (i == ref) ≡ true = ground (arith, here') in
              let one : ref ≡ i = (==_iff ref i).0 here' in
              let named : has i (s.sets k) ≡ names k (some w) =
                l.same k i ∙ ap (names k) (ap s.waiters (sym one) ∙ e) in
              rw here' (
                rw back
                  (rw named (gone_bool (points k w.receiver_calls) (points k w.sender_calls))))
          | inr away ↦
              let back : (i == ref) ≡ false = ground (arith, away) in
              rw away (
                rw back (
                  kept_bool (points k w.receiver_calls) (points k w.sender_calls) (has i (s.sets k))
                  ∙ l.same k i))
        ];
    fresh_waiter = λ i h. elim (Bool-cases (ref == i)) [
      | inl same ↦ rw same refl
      | inr differ ↦ rw differ (l.fresh_waiter i h)
    ];
    fresh_set = λ k h.
        take_from-fresh w.receiver_calls ref k (take_from w.sender_calls ref s.sets)
          (take_from-fresh w.sender_calls ref k s.sets (l.fresh_set k h));
    made = l.made;
  }
