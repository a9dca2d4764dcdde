-- ===== src/Transthread/Pointers.antt =====
-- In every state that the operations of threads lead to, the sets of waiters are right.
use ipc_portable.Common.{ℕ, suc, update, Bool, false, not, Option, none, some, List, ◌≡◌, refl, has}
use ipc_portable.Transthread.{
  CallWaiter, Caller, signal_incoming_call, wait_found, woken_found, is_inprogress,
}
use ipc_portable.Transthread.Linked.{
  names, IsLinked, OnSome, alike, set_found-IsLinked, disable-IsLinked, forget-IsLinked,
  assign_receiver-IsLinked, construct_waiter-IsLinked, destroy_found-IsLinked,
}
use ipc_portable.Transthread.Operations.{OnSome-if, Kept, Reach, Reach-Kept}

-- Only flags, the queues and the count of asserts change.
flags :
    (s : Caller)
    → IsLinked s
    → (incoming asleep : ℕ → Bool) (posted : List (ℕ × ℕ)) (raised : ℕ)
    → IsLinked (record s {
      process_incoming_call = incoming;
      asleep = asleep;
      posted = posted;
      raised = raised;
    })
flags s l incoming asleep posted raised =
    alike s l
      (record s {
        process_incoming_call = incoming;
        asleep = asleep;
        posted = posted;
        raised = raised;
      })
      (λ k i. refl) (λ i h. h) refl refl l.made

wait_found-IsLinked :
    (ref : ℕ) (s : Caller) (o : Option CallWaiter)
    → IsLinked s
    → OnSome IsLinked (wait_found ref s o)
wait_found-IsLinked ref s none l = tt
wait_found-IsLinked ref s (some w) l = OnSome-if IsLinked (not (is_inprogress w.call_state)) _ _ l (
    OnSome-if IsLinked (s.process_incoming_call w.wait_sync) _ _ (flags s l _ _ _ _)
      (flags s l _ _ _ _))

woken_found-IsLinked :
    (s : Caller) (o : Option CallWaiter) → IsLinked s → OnSome IsLinked (woken_found s o)
woken_found-IsLinked s none l = tt
woken_found-IsLinked s (some w) l = OnSome-if IsLinked (not (is_inprogress w.call_state)) _ _ l l

pub IsLinked-Kept : Kept IsLinked
unfolding signal_incoming_call
IsLinked-Kept = record {
  linked = λ s l. l;
  found = λ s l state ref. set_found-IsLinked s l state ref (s.waiters ref) refl;
  raised = λ s l. flags s l s.process_incoming_call s.asleep s.posted (suc s.raised);
  signaled = λ s l sync thread ref. flags s l _ _ _ _;
  assigned = assign_receiver-IsLinked;
  constructed = construct_waiter-IsLinked;
  disabled = disable-IsLinked;
  forgotten = forget-IsLinked;
  destroyed = λ s l ref. destroy_found-IsLinked s l ref (s.waiters ref) refl;
  waited = λ s l ref. wait_found-IsLinked ref s (s.waiters ref) l;
  woken = λ s l ref.
      woken_found-IsLinked (record s { asleep = update ref false s.asleep }) (s.waiters ref)
        (flags s l _ _ _ _);
}

pub Reach-IsLinked : {s : Caller} → Reach s → IsLinked s
unfolding has
Reach-IsLinked = Reach-Kept IsLinked IsLinked-Kept (record {
  same = λ k i. refl;
  fresh_waiter = λ i h. refl;
  fresh_set = λ k h. refl;
  made = λ thread. tt;
})

-- Whatever threads did, a set of waiters has a pointer exactly if it points to a waiter that is
-- there and that was made with the set, as the calls of its sender or of its receiver: no pointer
-- dangles, and none is missing.
pub Reach-names : {s : Caller} → Reach s → (k i : ℕ) → has i (s.sets k) ≡ names k (s.waiters i)
Reach-names r k i = (Reach-IsLinked r).same k i
