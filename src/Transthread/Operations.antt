-- ===== src/Transthread/Operations.antt =====
-- The operations of threads in any order, and what holds after all of them.
use mathlib.Core.Path.{subst}
use ipc_portable.Common.{
  ℕ, ◌≤◌, ◌==◌, update, Bool, true, false, not, Option, none, some, List, [], ◌∷◌, ◌≡◌, refl,
  if◌then◌else◌, arith,
}
use ipc_portable.Engine.Jobs.{direct_call_pseudo_id}
use ipc_portable.Transthread.{
  CallState, canceled, done, receiver_thread_finished, CallWaiter, Receiver, Caller, set_found,
  set_call_state, set_call_states, raise, members, disable, cancel_found,
  cancel_disable_waiting_call, forget, finish_found, on_finished_receiver_thread,
  is_receiver_absent, assign_receiver, add_target_thread_id, make_find_thread, construct_waiter,
  destroy_found, destroy_waiter, signal_incoming_call, post, cancel_if, call_between, call_from,
  call_to, call_from_thread, process_calls, wait_found, wait_round, woken_found, wake_up,
}
use ipc_portable.Transthread.Linked.{IsBelow, IsMade, IsMade-le, IsLinked, OnSome, OnSome->>=}

-- A section under a lock, with the thread that is in it or that it is about, or its waiter.
pub data Operation : Type 0 where
  add : ℕ → Operation  -- `AddTargetThreadId`
  assign : ℕ → Operation  -- its second section alone, behind another thread's
  call : ℕ → ℕ → Operation  -- `CallFromThread`
  cancel : ℕ → Operation  -- `CancelDisableWaitingCall`
  finish : ℕ → Operation  -- `OnFinished_ReceiverThread`
  process : ℕ → List ℕ → Operation  -- `ProcessCalls`
  destroy : ℕ → Operation  -- `~CallWaiterPrivate`
  wait : ℕ → Operation  -- a round of `WaitProcessing` up to the wait
  wake : ℕ → Operation  -- and behind it

abbrev pub state_of : {A : Type 0} → Option (A × Caller) → Option Caller
state_of none = none
state_of (some (a, t)) = some t

unfoldable pub run : Operation → Caller → Option Caller
run (add thread) s = some (add_target_thread_id thread s)
run (assign thread) s = some (assign_receiver thread s)
run (call current thread) s = state_of (call_from_thread current thread s)
run (cancel thread) s = state_of (cancel_disable_waiting_call thread s)
run (finish thread) s = state_of (on_finished_receiver_thread thread s)
run (process current refs) s = state_of (process_calls current refs s)
run (destroy ref) s = state_of (destroy_waiter ref s)
run (wait ref) s = state_of (wait_round ref s)
run (wake ref) s = state_of (wake_up ref s)

-- Nothing is made yet.
abbrev pub nothing_made : Caller
nothing_made = record {
  alive = true;
  threads = λ _. none;
  waiters = λ _. none;
  sets = λ _. [];
  process_incoming_call = λ _. false;
  asleep = λ _. false;
  next = 0;
  posted = [];
  raised = 0;
}

pub data Reach : Caller → Type 0 where
  start : Reach nothing_made
  later : {s t : Caller} → Reach s → (op : Operation) → run op s ≡ some t → Reach t

abbrev pub Holds : (Caller → Type 0) → Option Caller → Type 0
Holds P none = Unit
Holds P (some t) = P t

OnSome-Holds :
    {A : Type 0} (P : Caller → Type 0) (o : Option (A × Caller)) → OnSome P o → Holds P (state_of o)
OnSome-Holds P none h = tt
OnSome-Holds P (some (a, t)) h = h

set_call_states-OnSome :
    (P : Caller → Type 0)
    → ((state : CallState) (ref : ℕ) (t : Caller)
        → P t
        → OnSome P (set_found state ref t (t.waiters ref)))
    → (state : CallState) (refs : List ℕ) (s : Caller) → P s
    → OnSome P (set_call_states state refs s)
unfolding set_call_states set_call_state
set_call_states-OnSome P step state [] s l = l
set_call_states-OnSome P step state (ref ∷ refs) s l =
    OnSome->>= P P (set_call_state state ref) (λ _. set_call_states state refs) s
      (step state ref s l) (λ _ t h. set_call_states-OnSome P step state refs t h)

if_holds : (P : Caller → Type 0) (b : Bool) {s t : Caller} → P s → P t → P (if b then s else t)
if_holds P true h k = h
if_holds P false h k = k

pub OnSome-if :
    {A : Type 0} (P : Caller → Type 0) (b : Bool) (o p : Option (A × Caller))
    → OnSome P o
    → OnSome P p
    → OnSome P (if b then o else p)
OnSome-if P true o p h k = h
OnSome-if P false o p h k = k

next-make_find_thread : (thread : ℕ) (s : Caller) → s.next ≤ (make_find_thread thread s).next
unfolding add_target_thread_id
next-make_find_thread thread s = ground arith

-- A property of states that every section keeps.
pub record Kept (P : Caller → Type 0) : Type 0 where
  pub linked : (s : Caller) → P s → IsLinked s
  pub found :
      (s : Caller)
      → P s
      → (state : CallState) (ref : ℕ) → OnSome P (set_found state ref s (s.waiters ref))
  pub raised : (s : Caller) → P s → P (raise s)
  pub signaled :
      (s : Caller) → P s → (sync thread ref : ℕ) → P (signal_incoming_call sync (post thread ref s))
  pub assigned : (s : Caller) → P s → (thread : ℕ) → P (assign_receiver thread s)
  pub constructed :
      (s : Caller)
      → P s
      → (sender receiver : Option ℕ) (sync : ℕ) → IsBelow s.next sender
      → IsBelow s.next receiver
      → P (construct_waiter sender receiver sync s)
  pub disabled :
      (s : Caller)
      → P s
      → (thread : ℕ) (r : Receiver) → IsMade s.next (some r)
      → P (disable thread r s)
  pub forgotten : (s : Caller) → P s → (thread : ℕ) → P (forget thread s)
  pub destroyed : (s : Caller) → P s → (ref : ℕ) → OnSome P (destroy_found ref s (s.waiters ref))
  pub waited : (s : Caller) → P s → (ref : ℕ) → OnSome P (wait_found ref s (s.waiters ref))
  pub woken :
      (s : Caller)
      → P s
      → (ref : ℕ)
      → OnSome P (woken_found (record s { asleep = update ref false s.asleep }) (s.waiters ref))

module _ (P : Caller → Type 0) (kept : Kept P) where
  -- The loop makes nothing.
  abbrev Stays : ℕ → Caller → Type 0
  Stays n t = P t × (t.next ≡ n)

  loop_step :
      (n : ℕ) (state : CallState) (ref : ℕ) (t : Caller)
      → Stays n t
      → OnSome (Stays n) (set_found state ref t (t.waiters ref))
  loop_step n state ref t (h, e) = go (t.waiters ref) (kept.found t h state ref)
    where
      go :
          (o : Option CallWaiter)
          → OnSome P (set_found state ref t o)
          → OnSome (Stays n) (set_found state ref t o)
      go none k = tt
      go (some w) k = (k, e)

  loop :
      (state : CallState) (refs : List ℕ) (s : Caller)
      → P s
      → OnSome P (set_call_states state refs s)
  loop = set_call_states-OnSome P (λ state ref t h. kept.found t h state ref)

  add_target_thread_id-Kept : (thread : ℕ) (s : Caller) → P s → P (add_target_thread_id thread s)
  unfolding add_target_thread_id
  add_target_thread_id-Kept thread s l =
      if_holds P (not s.alive) (kept.raised s l)
        (if_holds P (is_receiver_absent thread s) (kept.assigned s l thread) l)

  make_find_thread-Kept : (thread : ℕ) (s : Caller) → P s → P (make_find_thread thread s)
  make_find_thread-Kept thread s l =
      if_holds P (is_receiver_absent thread s) (add_target_thread_id-Kept thread s l) l

  cancel_if-Kept : (o : Option ℕ) (ref : ℕ) (s : Caller) → P s → OnSome P (cancel_if o ref s)
  unfolding set_call_state
  cancel_if-Kept none ref s l = kept.found s l canceled ref
  cancel_if-Kept (some k) ref s l = l

  call_between-Kept :
      (thread : ℕ) (receiver sender : Receiver) (s : Caller)
      → P s
      → IsMade s.next (some receiver)
      → IsMade s.next (some sender)
      → OnSome P (call_between thread receiver sender s)
  unfolding signal_incoming_call
  call_between-Kept thread receiver sender s l (_, b) (a, _) =
      OnSome->>= P P (cancel_if sender.call_waiters_sender s.next)
        (λ _ t. some (some s.next, signal_incoming_call receiver.wait_sync (post thread s.next t)))
        (construct_waiter sender.call_waiters_sender receiver.call_waiters_receiver sender.wait_sync
          s)
        (cancel_if-Kept sender.call_waiters_sender s.next
          (construct_waiter sender.call_waiters_sender receiver.call_waiters_receiver
            sender.wait_sync s)
          (kept.constructed s l sender.call_waiters_sender receiver.call_waiters_receiver
            sender.wait_sync a b))
        (λ _ t h. kept.signaled t h receiver.wait_sync thread s.next)

  call_from-Kept :
      (thread : ℕ) (receiver : Receiver) (o : Option Receiver) (s : Caller)
      → P s
      → IsMade s.next (some receiver)
      → IsMade s.next o
      → OnSome P (call_from thread receiver o s)
  call_from-Kept thread receiver none s l a b = kept.raised s l
  call_from-Kept thread receiver (some sender) s l a b =
      call_between-Kept thread receiver sender s l a b

  call_to-Kept :
      (current thread : ℕ) (o : Option Receiver) (s : Caller)
      → P s
      → IsMade s.next o
      → OnSome P (call_to current thread o s)
  call_to-Kept current thread none s l a = kept.raised s l
  call_to-Kept current thread (some receiver) s l a =
      let t = make_find_thread current s in
      let l' = make_find_thread-Kept current s l in
      call_from-Kept thread receiver (t.threads current) t l'
        (IsMade-le s.next t.next (some receiver) (next-make_find_thread current s) a)
        ((kept.linked t l').made current)

  call_from_thread-Kept :
      (current thread : ℕ) (s : Caller) → P s → OnSome P (call_from_thread current thread s)
  unfolding call_from_thread
  call_from_thread-Kept current thread s l =
      let t = make_find_thread thread s in
      let l' = make_find_thread-Kept thread s l in
      OnSome-if P (thread == direct_call_pseudo_id) _ _ l
        (call_to-Kept current thread (t.threads thread) t l' ((kept.linked t l').made thread))

  cancel_found-Kept :
      (thread : ℕ) (o : Option Receiver) (s : Caller)
      → P s
      → IsMade s.next o
      → OnSome P (cancel_found thread o s)
  cancel_found-Kept thread none s l m = kept.raised s l
  cancel_found-Kept thread (some r) s l m =
      OnSome->>= (Stays s.next) P (set_call_states canceled (members r.call_waiters_sender s))
        (λ _ t. some (tt, disable thread r t)) s
        (set_call_states-OnSome (Stays s.next) (λ state ref t h. loop_step s.next state ref t h)
          canceled (members r.call_waiters_sender s) s (l, refl))
        (λ _ t (h, k).
          kept.disabled t h thread r (IsMade-le s.next t.next (some r) (omega (arith, k)) m))

  finish_found-Kept :
      (thread : ℕ) (o : Option Receiver) (s : Caller) → P s → OnSome P (finish_found thread o s)
  finish_found-Kept thread none s l = l
  finish_found-Kept thread (some r) s l =
      loop receiver_thread_finished (members r.call_waiters_receiver s) (forget thread s)
        (kept.forgotten s l thread)

  run-Kept : (op : Operation) (s : Caller) → P s → Holds P (run op s)
  unfolding run cancel_disable_waiting_call on_finished_receiver_thread destroy_waiter wait_round
      wake_up
  run-Kept (add thread) s l = add_target_thread_id-Kept thread s l
  run-Kept (assign thread) s l = kept.assigned s l thread
  run-Kept (call current thread) s l =
      OnSome-Holds P (call_from_thread current thread s) (call_from_thread-Kept current thread s l)
  run-Kept (cancel thread) s l = OnSome-Holds P (cancel_disable_waiting_call thread s) (
      OnSome-if P (not s.alive) _ _ (kept.raised s l)
        (cancel_found-Kept thread (s.threads thread) s l ((kept.linked s l).made thread)))
  run-Kept (finish thread) s l =
      OnSome-Holds P (on_finished_receiver_thread thread s)
        (OnSome-if P (not s.alive) _ _ l (finish_found-Kept thread (s.threads thread) s l))
  run-Kept (process current refs) s l = OnSome-Holds P (process_calls current refs s) (
      OnSome-if P (not s.alive) _ _ (kept.raised s l)
        (OnSome-if P (is_receiver_absent current s) _ _ (kept.raised s l) (loop done refs s l)))
  run-Kept (destroy ref) s l = OnSome-Holds P (destroy_waiter ref s) (kept.destroyed s l ref)
  run-Kept (wait ref) s l = OnSome-Holds P (wait_round ref s) (kept.waited s l ref)
  run-Kept (wake ref) s l = OnSome-Holds P (wake_up ref s) (kept.woken s l ref)

-- A property that every section keeps holds in every state that sections lead to.
pub Reach-Kept : (P : Caller → Type 0) → Kept P → P nothing_made → {s : Caller} → Reach s → P s
Reach-Kept P kept base start = base
Reach-Kept P kept base (later {s} {t} r op e) =
    subst (Holds P) e (run-Kept P kept op s (Reach-Kept P kept base r))
