-- ===== src/Transthread/Sleeping.antt =====
-- No thread sleeps in `WaitProcessing` behind the end of its call or over a signal of the `WaitSync`
-- of its waiter.
use mathlib.Core.Path.{subst}
use ipc_portable.Common.{
  ℕ, ◌+◌, ◌==◌, update, Bool, true, false, not, ◌&&◌, Option, none, some, ◌≡◌, ◌≢◌, refl, sym, ap,
  ◌∙◌, if◌then◌else◌, inl, inr, Bool-cases, ==_iff, arith,
}
use ipc_portable.Transthread.{
  CallState, inprogress, CallWaiter, Caller, set_found, waits_on, signal_incoming_call, wait_found,
  woken_found, is_inprogress, assign_receiver, construct_waiter, new_waiter, destroy_found,
}
use ipc_portable.Transthread.Linked.{IsLinked, OnSome}
use ipc_portable.Transthread.Operations.{OnSome-if, Kept, Reach, start, Reach-Kept}
use ipc_portable.Transthread.Pointers.{IsLinked-Kept, Reach-IsLinked}

-- What holds of a waiter on which a thread sleeps.
abbrev pub MaySleep : (ℕ → Bool) → Option CallWaiter → Type 0
MaySleep incoming none = ⊥
MaySleep incoming (some w) = (w.call_state ≡ inprogress) × (incoming w.wait_sync ≡ false)

abbrev IsRested : Caller → Type 0
IsRested s = (i : ℕ) → s.asleep i ≡ true → MaySleep s.process_incoming_call (s.waiters i)

-- `notify_all` leaves asleep only threads that wait on another condition.
still_asleep : (a b : Bool) → (a && not b) ≡ true → (a ≡ true) × (b ≡ false)
still_asleep a b h = (ground arith, ground arith)

set_found-IsRested :
    (s : Caller)
    → IsRested s
    → (state : CallState) (ref : ℕ) (o : Option CallWaiter) → s.waiters ref ≡ o
    → OnSome IsRested (set_found state ref s o)
set_found-IsRested s rested state ref none e = tt
set_found-IsRested s rested state ref (some w) e = λ i h. elim (Bool-cases (ref == i)) [
  | inl same ↦
      let w' : CallWaiter = record w { call_state = state } in
      let waits : waits_on w.wait_sync (some w') ≡ true = (==_iff w.wait_sync w.wait_sync).1 refl in
      let other : waits_on w.wait_sync (if ref == i then some w' else s.waiters i) ≡ false =
        (still_asleep (s.asleep i) _ h).1 in
      let here' : (if ref == i then some w' else s.waiters i) ≡ some w' = rw same refl in
      absurd (cc (waits, sym (ap (waits_on w.wait_sync) here') ∙ other))
  | inr differ ↦ rw differ (rested i (still_asleep (s.asleep i) _ h).0)
]

signaled-MaySleep :
    (sync : ℕ) (incoming : ℕ → Bool) (o : Option CallWaiter)
    → waits_on sync o ≡ false
    → MaySleep incoming o
    → MaySleep (update sync true incoming) o
signaled-MaySleep sync incoming none h m = m
signaled-MaySleep sync incoming (some w) h (a, b) =
    (a, (let apart : (sync == w.wait_sync) ≡ false = ground arith in rw apart b))

cleared-MaySleep :
    (sync : ℕ) (incoming : ℕ → Bool) (o : Option CallWaiter)
    → MaySleep incoming o
    → MaySleep (update sync false incoming) o
cleared-MaySleep sync incoming none m = m
cleared-MaySleep sync incoming (some w) (a, b) = (a, ground (arith, b))

not_asleep : (ref i : ℕ) (f : ℕ → Bool) → (ref == i) ≡ true → update ref false f i ≢ true
not_asleep ref i f same h = ground arith

elsewhere :
    (ref i : ℕ) (b : Bool) (f : ℕ → Bool)
    → (ref == i) ≡ false
    → update ref b f i ≡ true
    → f i ≡ true
elsewhere ref i b f differ h = ground arith

-- One thread awake, and its waiter anything.
awake-IsRested :
    (s : Caller) (ref : ℕ) (o : Option CallWaiter)
    → IsRested s
    → (i : ℕ) → update ref false s.asleep i ≡ true
    → MaySleep s.process_incoming_call (update ref o s.waiters i)
awake-IsRested s ref o rested i h = elim (Bool-cases (ref == i)) [
  | inl same ↦ absurd (not_asleep ref i s.asleep same h)
  | inr differ ↦ rw differ (rested i (elsewhere ref i _ s.asleep differ h))
]

is_inprogress-eq : (state : CallState) → is_inprogress state ≡ true → state ≡ inprogress
is_inprogress-eq state h = ground arith

sleeps-IsRested :
    (s : Caller) (ref : ℕ) (w : CallWaiter)
    → IsRested s
    → s.waiters ref ≡ some w
    → w.call_state ≡ inprogress
    → s.process_incoming_call w.wait_sync ≡ false
    → IsRested (record s { asleep = update ref true s.asleep })
sleeps-IsRested s ref w rested e on quiet i h = elim (Bool-cases (ref == i)) [
  | inl same ↦
      subst (λ j. MaySleep s.process_incoming_call (s.waiters j)) ((==_iff ref i).0 same)
        (subst (MaySleep s.process_incoming_call) (sym e) (on, quiet))
  | inr differ ↦ rested i (elsewhere ref i _ s.asleep differ h)
]

wait_found-IsRested :
    (s : Caller) (ref : ℕ) (o : Option CallWaiter)
    → s.waiters ref ≡ o
    → IsRested s
    → OnSome IsRested (wait_found ref s o)
wait_found-IsRested s ref none e rested = tt
wait_found-IsRested s ref (some w) e rested = elim (Bool-cases (is_inprogress w.call_state)) [
  | inr over ↦ rw over rested
  | inl on ↦ elim (Bool-cases (s.process_incoming_call w.wait_sync)) [
    | inl came ↦ rw on (
        rw came
          (λ i h. cleared-MaySleep w.wait_sync s.process_incoming_call (s.waiters i) (rested i h)))
    | inr quiet ↦
        rw on (rw quiet (sleeps-IsRested s ref w rested e (is_inprogress-eq w.call_state on) quiet))
  ]
]

destroy_found-IsRested :
    (s : Caller) (ref : ℕ) (o : Option CallWaiter)
    → IsRested s
    → OnSome IsRested (destroy_found ref s o)
destroy_found-IsRested s ref none rested = tt
destroy_found-IsRested s ref (some w) rested = awake-IsRested s ref none rested

woken-IsRested :
    (s : Caller) (ref : ℕ) → IsRested s → IsRested (record s { asleep = update ref false s.asleep })
woken-IsRested s ref rested i h = elim (Bool-cases (ref == i)) [
  | inl same ↦ absurd (not_asleep ref i s.asleep same h)
  | inr differ ↦ rested i (elsewhere ref i _ s.asleep differ h)
]

woken_found-IsRested :
    (s : Caller) (o : Option CallWaiter) → IsRested s → OnSome IsRested (woken_found s o)
woken_found-IsRested s none l = tt
woken_found-IsRested s (some w) l = OnSome-if IsRested (not (is_inprogress w.call_state)) _ _ l l

abbrev IsQuiet : Caller → Type 0
IsQuiet s = IsLinked s × IsRested s

OnSome-both :
    {A : Type 0} (o : Option (A × Caller))
    → OnSome IsLinked o
    → OnSome IsRested o
    → OnSome IsQuiet o
OnSome-both none h k = tt
OnSome-both (some (a, t)) h k = (h, k)

IsQuiet-Kept : Kept IsQuiet
unfolding signal_incoming_call assign_receiver construct_waiter
IsQuiet-Kept = record {
  linked = λ s (l, _). l;
  found = λ s (l, r) state ref.
      OnSome-both (set_found state ref s (s.waiters ref)) (IsLinked-Kept.found s l state ref)
        (set_found-IsRested s r state ref (s.waiters ref) refl);
  raised = λ s (l, r). (IsLinked-Kept.raised s l, r);
  signaled = λ s (l, r) sync thread ref. (
    IsLinked-Kept.signaled s l sync thread ref,
    λ i h.
        let (asleep, other) = still_asleep (s.asleep i) (waits_on sync (s.waiters i)) h in
        signaled-MaySleep sync s.process_incoming_call (s.waiters i) other (r i asleep),
  );
  assigned = λ s (l, r) thread. (
    IsLinked-Kept.assigned s l thread,
    λ i h. cleared-MaySleep (s.next + 2) s.process_incoming_call (s.waiters i) (r i h),
  );
  constructed = λ s (l, r) sender receiver sync a b. (
    IsLinked-Kept.constructed s l sender receiver sync a b,
    awake-IsRested s s.next (some (new_waiter sender receiver sync)) r,
  );
  disabled = λ s (l, r) thread q m. (IsLinked-Kept.disabled s l thread q m, r);
  forgotten = λ s (l, r) thread. (IsLinked-Kept.forgotten s l thread, r);
  destroyed = λ s (l, r) ref.
      OnSome-both (destroy_found ref s (s.waiters ref)) (IsLinked-Kept.destroyed s l ref)
        (destroy_found-IsRested s ref (s.waiters ref) r);
  waited = λ s (l, r) ref.
      OnSome-both (wait_found ref s (s.waiters ref)) (IsLinked-Kept.waited s l ref)
        (wait_found-IsRested s ref (s.waiters ref) refl r);
  woken = λ s (l, r) ref.
      OnSome-both (woken_found (record s { asleep = update ref false s.asleep }) (s.waiters ref))
        (IsLinked-Kept.woken s l ref)
        (woken_found-IsRested (record s { asleep = update ref false s.asleep }) (s.waiters ref)
          (woken-IsRested s ref r));
}

-- Whatever threads did, while a thread sleeps in `WaitProcessing`, the waiter is there, its call is
-- in progress, and `process_incoming_call` of the `WaitSync` that the waiter was made with is false:
-- so the end of the call (done, canceled, or the receiver's thread finished) and each
-- `ProcessIncomingCall` of that `WaitSync` leave it awake. It says nothing of the `WaitSync` of a
-- receiver that has replaced the one that the waiter was made with.
pub Reach-asleep :
    {s : Caller}
    → Reach s
    → (i : ℕ) → s.asleep i ≡ true
    → (w : CallWaiter) × (s.waiters i ≡ some w)
      × (w.call_state ≡ inprogress)
      × (s.process_incoming_call w.wait_sync ≡ false)
Reach-asleep {s} r i h = go (s.waiters i) refl (
    (Reach-Kept IsQuiet IsQuiet-Kept (Reach-IsLinked start, λ j asleep. absurd (cc asleep)) r).1 i
      h)
  where
    go :
        (o : Option CallWaiter)
        → s.waiters i ≡ o
        → MaySleep s.process_incoming_call o
        → (w : CallWaiter) × (s.waiters i ≡ some w)
          × (w.call_state ≡ inprogress)
          × (s.process_incoming_call w.wait_sync ≡ false)
    go none e m = absurd m
    go (some w) e (on, quiet) = (w, e, on, quiet)
