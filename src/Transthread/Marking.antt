-- ===== src/Transthread/Marking.antt =====
-- The loops that set the state of all waiters of a set.
use ipc_portable.Common.{
  ℕ, Bool, true, false, not, ◌&&◌, ◌||◌, Option, none, some, List, [], ◌∷◌, ◌==◌, ◌≡◌, ◌≢◌, refl,
  sym, ap, ◌∙◌, if◌then◌else◌, arith, inl, inr, Bool-cases, ==_iff, update, has, bind_step,
}
use ipc_portable.Transthread.{
  CallState, CallWaiter, Caller, set_found, set_call_state, set_call_states, notify_all, waits_on,
}

abbrev pub with_state : CallState → Option CallWaiter → Option CallWaiter
with_state state none = none
with_state state (some w) = some (record w { call_state = state })

with_state-with_state :
    (state : CallState) (o : Option CallWaiter)
    → with_state state (with_state state o) ≡ with_state state o
with_state-with_state state none = refl
with_state-with_state state (some w) = refl

-- The second state has the waiters of the list in the call state, their threads awake, and all else
-- as the first, but that other threads may have been woken too.
pub record Marked (state : CallState) (refs : List ℕ) (s t : Caller) : Type 0 where
  pub waiters :
      (i : ℕ) → t.waiters i ≡ (if has i refs then with_state state (s.waiters i) else s.waiters i)
  pub woken : (i : ℕ) → has i refs ≡ true → t.asleep i ≡ false
  pub awake : (i : ℕ) → s.asleep i ≡ false → t.asleep i ≡ false
  pub alive : t.alive ≡ s.alive
  pub threads : t.threads ≡ s.threads
  pub sets : t.sets ≡ s.sets
  pub incoming : t.process_incoming_call ≡ s.process_incoming_call
  pub next : t.next ≡ s.next
  pub posted : t.posted ≡ s.posted

abbrev IsLive : List ℕ → Caller → Type 0
IsLive refs s = (i : ℕ) → has i refs ≡ true → s.waiters i ≢ none

module _ (state : CallState) (ref : ℕ) (s : Caller) (w : CallWaiter) where
  abbrev pub marked_one : Caller
  marked_one =
      notify_all w.wait_sync
        (record s { waiters = update ref (some (record w { call_state = state })) s.waiters })

  pub set_call_state-marked_one :
      s.waiters ref ≡ some w → set_call_state state ref s ≡ some (tt, marked_one)
  unfolding set_call_state
  set_call_state-marked_one e = ap (set_found state ref s) e

  pub marked_one-waiters :
      s.waiters ref ≡ some w
      → (i : ℕ)
      → marked_one.waiters i ≡ (if ref == i then with_state state (s.waiters i) else s.waiters i)
  marked_one-waiters e i = elim (Bool-cases (ref == i)) [
    | inl same ↦
        let one : ref ≡ i = (==_iff ref i).0 same in
        rw same (sym (ap (with_state state) (ap s.waiters (sym one) ∙ e)))
    | inr differ ↦ rw differ refl
  ]

  marked_one-woken : marked_one.asleep ref ≡ false
  marked_one-woken =
      let here' : (if ref == ref then some (record w { call_state = state }) else s.waiters ref)
          ≡ some (record w { call_state = state }) =
        ground arith in
      let waits : waits_on w.wait_sync (some (record w { call_state = state })) ≡ true =
        (==_iff w.wait_sync w.wait_sync).1 refl in
      ap (λ o. s.asleep ref && not (waits_on w.wait_sync o)) here' ∙ rw waits (ground arith)

  marked_one-awake : (i : ℕ) → s.asleep i ≡ false → marked_one.asleep i ≡ false
  marked_one-awake i h = rw h refl

with_state-none :
    (state : CallState) (b : Bool) (o : Option CallWaiter)
    → (if b then with_state state o else o) ≡ none
    → o ≡ none
with_state-none state b none e = refl
with_state-none state true (some w) e = cc
with_state-none state false (some w) e = cc

compose :
    (state : CallState) (a b : Bool) (o : Option CallWaiter)
    → (if b
        then with_state state (if a then with_state state o else o)
        else (if a then with_state state o else o))
      ≡ (if a || b then with_state state o else o)
compose state true true o = with_state-with_state state o
compose state true false o = refl
compose state false true o = refl
compose state false false o = refl

==-sym : (i j : ℕ) → (i == j) ≡ (j == i)
==-sym i j = ground arith

-- The loop runs to its end where its pointers are valid.
pub set_call_states-Marked :
    (state : CallState) (refs : List ℕ) (s : Caller)
    → IsLive refs s
    → (t : Caller) × (set_call_states state refs s ≡ some (tt, t)) × Marked state refs s t
unfolding set_call_states has
set_call_states-Marked state [] s live = (
  s,
  refl,
  record {
    waiters = λ i. refl;
    woken = λ i h. cc;
    awake = λ i h. h;
    alive = refl;
    threads = refl;
    sets = refl;
    incoming = refl;
    next = refl;
    posted = refl;
  },
)
set_call_states-Marked state (ref ∷ refs) s live =
    go (set_call_states-Marked state refs) (s.waiters ref) refl
  where
    go :
        ((u : Caller)
          → IsLive refs u
          → (t : Caller) × (set_call_states state refs u ≡ some (tt, t)) × Marked state refs u t)
        → (o : Option CallWaiter) → s.waiters ref ≡ o
        → (t : Caller) × (set_call_states state (ref ∷ refs) s ≡ some (tt, t))
          × Marked state (ref ∷ refs) s t
    go rest none e = absurd (live ref (ground arith) e)
    go rest (some w) e =
        let one = marked_one state ref s w in
        let w_at = marked_one-waiters state ref s w e in
        let live' : IsLive refs one = λ i h gone.
          live i (rw h (ground arith))
            (with_state-none state (ref == i) (s.waiters i) (sym (w_at i) ∙ gone)) in
        let (t, run, m) = rest one live' in
        (
          t,
          bind_step (set_call_state state ref) (λ _. set_call_states state refs) s
                (set_call_state-marked_one state ref s w e)
              ∙ run,
          record {
            waiters = λ i.
                m.waiters i
                ∙ ap (λ (o : Option CallWaiter). if has i refs then with_state state o else o)
                    (w_at i)
                ∙ compose state (ref == i) (has i refs) (s.waiters i)
                ∙ ap
                    (λ (b : Bool).
                      if b || has i refs then with_state state (s.waiters i) else s.waiters i)
                    (==-sym ref i);
            woken = λ i h. elim (Bool-cases (has i refs)) [
              | inl later ↦ m.woken i later
              | inr first ↦
                  let same : i ≡ ref = ground (arith, h, first) in
                  m.awake i (ap one.asleep same ∙ marked_one-woken state ref s w)
            ];
            awake = λ i h. m.awake i (marked_one-awake state ref s w i h);
            alive = m.alive;
            threads = m.threads;
            sets = m.sets;
            incoming = m.incoming;
            next = m.next;
            posted = m.posted;
          },
        )
