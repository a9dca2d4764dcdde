-- ===== src/Transthread/Canceling.antt =====
-- What `CancelDisableWaitingCall`, `OnFinished_ReceiverThread` and `CallFromThread` do to waiters.
use ipc_portable.Common.{
  ℕ, ◌==◌, update, Bool, true, false, not, ◌&&◌, Option, none, some, [], ◌∷◌, ◌++◌, ◌≡◌, ◌≢◌, refl,
  sym, ap, ◌∙◌, if◌then◌else◌, has, bind_step, inl, inr, Bool-cases, ==_iff, arith,
}
use ipc_portable.Engine.Jobs.{direct_call_pseudo_id}
use ipc_portable.Transthread.{
  CallState, inprogress, canceled, receiver_thread_finished, CallWaiter, Receiver, Caller,
  set_call_states, raise, members, disable, cancel_found, cancel_disable_waiting_call, forget,
  finish_found, on_finished_receiver_thread, is_receiver_absent, make_find_thread, new_waiter,
  construct_waiter, waits_on, cancel_if, call_from, call_to, call_from_thread, signal_incoming_call,
  post, new_receiver, assign_receiver,
}
use ipc_portable.Transthread.Linked.{names, IsLinked, forget-IsLinked, unnamed}
use ipc_portable.Transthread.Marking.{
  with_state, marked_one, set_call_state-marked_one, Marked, set_call_states-Marked,
}
use ipc_portable.Transthread.Operations.{Reach, later, assign, run}
use ipc_portable.Transthread.Pointers.{Reach-IsLinked}

-- The waiters that name a set are in the call state and their threads awake; the others are as they
-- were.
pub record Ends (state : CallState) (k : ℕ) (s t : Caller) : Type 0 where
  pub waiters :
      (i : ℕ)
      → t.waiters i
        ≡ (if names k (s.waiters i) then with_state state (s.waiters i) else s.waiters i)
  pub woken : (i : ℕ) → names k (s.waiters i) ≡ true → t.asleep i ≡ false

live : (s : Caller) (k : ℕ) → IsLinked s → (i : ℕ) → has i (s.sets k) ≡ true → s.waiters i ≢ none
live s k l i h e = absurd (cc (sym h ∙ l.same k i ∙ ap (names k) e))

Marked-Ends :
    (state : CallState) (k : ℕ) (s t : Caller)
    → IsLinked s
    → Marked state (s.sets k) s t
    → Ends state k s t
Marked-Ends state k s t l m = record {
  waiters = λ i.
      m.waiters i
      ∙ ap (λ (b : Bool). if b then with_state state (s.waiters i) else s.waiters i) (l.same k i);
  woken = λ i h. m.woken i (l.same k i ∙ h);
}

-- `CancelDisableWaitingCall` of a known thread that still has its set of calls, in any state that
-- operations of threads lead to: it has no fault, exactly the waiters that were made with the set that
-- the thread's receiver has now are canceled, whatever state they had, their threads are woken, and
-- the set is given up. A waiter that was made with another set, as that of an earlier receiver which
-- an assignment by `AddTargetThreadId` has replaced, stays as it was.
pub cancel_disable_waiting_call-Ends :
    {s : Caller}
    → Reach s
    → s.alive ≡ true
    → (thread : ℕ) (r : Receiver) (k : ℕ) → s.threads thread ≡ some r
    → r.call_waiters_sender ≡ some k
    → (t : Caller) × (cancel_disable_waiting_call thread s ≡ some (tt, t))
      × Ends canceled k s t
      × (t.threads ≡ update thread (some (record r { call_waiters_sender = none })) s.threads)
unfolding cancel_disable_waiting_call
cancel_disable_waiting_call-Ends {s} reach alive thread r k known set =
    let l = Reach-IsLinked reach in
    let (t, run, m) = set_call_states-Marked canceled (s.sets k) s (live s k l) in
    let e = Marked-Ends canceled k s t l m in
    (
      disable thread r t,
      ap
            (λ (b : Bool).
              if not b then some (tt, raise s) else cancel_found thread (s.threads thread) s)
            alive
          ∙ (ap (λ o. cancel_found thread o s) known
              ∙ bind_step (set_call_states canceled (members r.call_waiters_sender s))
                  (λ _ u. some (tt, disable thread r u)) s
                  (ap (λ o. set_call_states canceled (members o s) s) set ∙ run)),
      record { waiters = e.waiters; woken = e.woken },
      ap (λ threads. update thread (some (record r { call_waiters_sender = none })) threads)
          m.threads,
    )

-- `OnFinished_ReceiverThread` in a known thread, in any state that operations of threads lead to: it
-- has no fault, the thread is forgotten, exactly the waiters that were made with the set of calls
-- that the thread's receiver has now get the state `cs_receiver_thread_finished`, and their threads
-- are woken. A waiter that was made with another set, as that of an earlier receiver which an
-- assignment by `AddTargetThreadId` has replaced, stays as it was.
pub on_finished_receiver_thread-Ends :
    {s : Caller}
    → Reach s
    → s.alive ≡ true
    → (thread : ℕ) (r : Receiver) (k : ℕ) → s.threads thread ≡ some r
    → r.call_waiters_receiver ≡ some k
    → (t : Caller) × (on_finished_receiver_thread thread s ≡ some (tt, t))
      × Ends receiver_thread_finished k s t
      × (t.threads ≡ update thread none s.threads)
unfolding on_finished_receiver_thread
on_finished_receiver_thread-Ends {s} reach alive thread r k known set =
    let l = Reach-IsLinked reach in
    let (t, run, m) =
      set_call_states-Marked receiver_thread_finished (s.sets k) (forget thread s) (live s k l) in
    let e =
      Marked-Ends receiver_thread_finished k (forget thread s) t (forget-IsLinked s l thread) m in
    (
      t,
      ap (λ (b : Bool). if not b then some (tt, s) else finish_found thread (s.threads thread) s)
            alive
          ∙ (ap (λ o. finish_found thread o s) known
              ∙ ap (λ o. set_call_states receiver_thread_finished (members o s) (forget thread s))
                  set
              ∙ run),
      record { waiters = e.waiters; woken = e.woken },
      m.threads,
    )

-- The state that a waiter gets where its sender's set is given up.
abbrev pub state_by : Option ℕ → CallState → CallState
state_by none state = canceled
state_by (some k) state = state

record Started (o : Option ℕ) (ref : ℕ) (w : CallWaiter) (u t : Caller) : Type 0 where
  waiters :
      (i : ℕ)
      → t.waiters i
        ≡ update ref (some (record w { call_state = state_by o w.call_state })) u.waiters i
  posted : t.posted ≡ u.posted
  incoming : t.process_incoming_call ≡ u.process_incoming_call

cancel_if-Started :
    (o : Option ℕ) (ref : ℕ) (w : CallWaiter) (u : Caller)
    → u.waiters ref ≡ some w
    → (t : Caller) × (cancel_if o ref u ≡ some (tt, t)) × Started o ref w u t
cancel_if-Started none ref w u e = (
  marked_one canceled ref u w,
  set_call_state-marked_one canceled ref u w e,
  record { waiters = λ i. refl; posted = refl; incoming = refl },
)
cancel_if-Started (some k) ref w u e = (
  u,
  refl,
  record {
    waiters = λ i. elim (Bool-cases (ref == i)) [
      | inl same ↦ rw same (ap u.waiters (sym ((==_iff ref i).0 same)) ∙ e)
      | inr differ ↦ rw differ refl
    ];
    posted = refl;
    incoming = refl;
  },
)

make_find_thread-known :
    (thread : ℕ) (s : Caller) {q : Receiver}
    → s.threads thread ≡ some q
    → make_find_thread thread s ≡ s
make_find_thread-known thread s e =
    let there : is_receiver_absent thread s ≡ false =
      ap (λ (o : Option Receiver). elim o as (λ _. Bool) [ none ↦ true | some x ↦ false ]) e in
    rw there refl

update_twice :
    (k : ℕ) (a b : Option CallWaiter) (f : ℕ → Option CallWaiter) (i : ℕ)
    → update k a (update k b f) i ≡ update k a f i
update_twice k a b f i = ground arith

and_false : (b : Bool) → (b && false) ≡ false
and_false b = ground arith

-- `CallFromThread` between two known threads, to a thread that is not the pseudo id of direct calls:
-- a new waiter is made and returned, in progress, or canceled at once where
-- `CancelDisableWaitingCall` was called for the sender before; the other waiters are as they were;
-- the call is posted to the receiver behind the calls posted before, and the receiver is
-- told that a call has come in, so that a thread that waits on its `WaitSync` does not sleep.
pub call_from_thread_lem :
    (current thread : ℕ) (q r : Receiver) (s : Caller)
    → thread ≢ direct_call_pseudo_id
    → s.threads thread ≡ some q
    → s.threads current ≡ some r
    → (t : Caller) × (call_from_thread current thread s ≡ some (some s.next, t))
      × ((i : ℕ)
          → t.waiters i
            ≡ update s.next
                (some
                  (record (new_waiter r.call_waiters_sender q.call_waiters_receiver r.wait_sync) {
                    call_state = state_by r.call_waiters_sender inprogress;
                  }))
                s.waiters
                i)
      × (t.posted ≡ s.posted ++ ((thread, s.next) ∷ []))
      × (t.process_incoming_call ≡ update q.wait_sync true s.process_incoming_call)
      × ((i : ℕ) → waits_on q.wait_sync (t.waiters i) ≡ true → t.asleep i ≡ false)
unfolding call_from_thread construct_waiter signal_incoming_call
call_from_thread_lem current thread q r s direct to from =
    let made = construct_waiter r.call_waiters_sender q.call_waiters_receiver r.wait_sync s in
    let w = new_waiter r.call_waiters_sender q.call_waiters_receiver r.wait_sync in
    let (u, run, st) = cancel_if-Started r.call_waiters_sender s.next w made (ground arith) in
    let no_direct : (thread == direct_call_pseudo_id) ≡ false = ground (arith, direct) in
    (
      signal_incoming_call q.wait_sync (post thread s.next u),
      ap
            (λ (b : Bool).
              if b
              then some (none, s)
              else call_to current thread ((make_find_thread thread s).threads thread)
                  (make_find_thread thread s))
            no_direct
          ∙ ap (λ v. call_to current thread (v.threads thread) v)
              (make_find_thread-known thread s to)
          ∙ ap (λ o. call_to current thread o s) to
          ∙ ap (λ v. call_from thread q (v.threads current) v)
              (make_find_thread-known current s from)
          ∙ ap (λ o. call_from thread q o s) from
          ∙ bind_step (cancel_if r.call_waiters_sender s.next)
              (λ _ v. some (some s.next, signal_incoming_call q.wait_sync (post thread s.next v)))
              made run,
      λ i. st.waiters i ∙ update_twice s.next _ (some w) s.waiters i,
      ap (λ l. l ++ ((thread, s.next) ∷ [])) st.posted,
      ap (λ f. update q.wait_sync true f) st.incoming,
      λ i h. ap (λ b. u.asleep i && not b) h ∙ and_false (u.asleep i),
    )

-- `AddTargetThreadId` tests and assigns in two sections. Where its assignment comes behind that of
-- another thread with the same id, whatever threads did, `CancelDisableWaitingCall` of the id has no
-- fault and cancels no call, also not those that the thread has in progress.
pub assign_receiver-loses :
    {s : Caller}
    → Reach s
    → s.alive ≡ true
    → (thread : ℕ)
    → (t : Caller) × (cancel_disable_waiting_call thread (assign_receiver thread s) ≡ some (tt, t))
      × ((i : ℕ) → t.waiters i ≡ s.waiters i)
unfolding assign_receiver run
assign_receiver-loses {s} reach alive thread =
    let self : (thread == thread) ≡ true = (==_iff thread thread).1 refl in
    let (t, run, e, _) =
      cancel_disable_waiting_call-Ends (later reach (assign thread) refl) alive thread
        (new_receiver s.next) s.next (rw self refl) refl in
    (
      t,
      run,
      λ i.
          e.waiters i
          ∙ ap (λ (b : Bool). if b then with_state canceled (s.waiters i) else s.waiters i)
              (unnamed s (Reach-IsLinked reach) s.next i (omega arith)),
    )
