-- ===== src/Transthread.antt =====
-- Calls between threads: `MAssIpc_TransthreadCaller` of Ipc/MAssIpc_TransthreadCaller.h and
-- Ipc/MAssIpc_TransthreadCaller.cpp. The objects that pointers share (waiters, the sets of waiters,
-- `WaitSync`) live in heaps; each operation is one section under `lock_threads` or `mutex_sync`.
-- What a call does (`CallFromTargetThread`) and the queue of the receiving thread (`PostEvent`,
-- `ProcessReceiver`) belong to the derived classes: the model records what is handed to the queue,
-- and takes the calls that a thread processes as an argument.
pub mod Marking
pub mod Linked
pub mod Operations
pub mod Pointers
pub mod Canceling
pub mod Sleeping
pub mod Tests
use ipc_portable.Common.{
  ℕ, suc, ◌+◌, Bool, true, false, not, ◌&&◌, Option, none, some, List, [], ◌∷◌, ◌++◌, ◌==◌,
  if◌then◌else◌, Action, pure, ◌>>=◌, ◌>>◌, update, insert, erase,
}
use ipc_portable.Engine.Jobs.{direct_call_pseudo_id}

-- `CallWaiter::CallState`.
pub data CallState : Type 0 where
  no_call : CallState
  inprogress : CallState
  canceled : CallState
  done : CallState
  receiver_thread_finished : CallState

-- `CallWaiterPrivate`, with references to its `WaitSync` and its sets.
pub record CallWaiter : Type 0 where
  pub call_state : CallState
  pub wait_sync : ℕ
  pub sender_calls : Option ℕ
  pub receiver_calls : Option ℕ

-- `ThreadCallReceiver`.
pub record Receiver : Type 0 where
  pub call_waiters_sender : Option ℕ
  pub call_waiters_receiver : Option ℕ
  pub wait_sync : ℕ

-- `Internals` with the heaps. `alive`: the weak pointer `s_int_inter_thread` has not expired.
-- `asleep`: the thread that called `WaitProcessing` on the waiter is in `condition.wait`.
pub record Caller : Type 0 where
  pub alive : Bool
  pub threads : ℕ → Option Receiver
  pub waiters : ℕ → Option CallWaiter
  pub sets : ℕ → List ℕ
  pub process_incoming_call : ℕ → Bool
  pub asleep : ℕ → Bool
  pub next : ℕ
  pub posted : List (ℕ × ℕ)
  pub raised : ℕ

abbrev pub raise : Caller → Caller
raise s = record s { raised = suc s.raised }

-- `notify_all` on the condition of a `WaitSync`.
abbrev pub waits_on : ℕ → Option CallWaiter → Bool
waits_on sync none = false
waits_on sync (some w) = w.wait_sync == sync

abbrev pub notify_all : ℕ → Caller → Caller
notify_all sync s = record s { asleep = λ ref. s.asleep ref && not (waits_on sync (s.waiters ref)) }

-- `CallDone`, `CallCancel` and `SetReceiverThreadFinished`; a pointer to no waiter is a fault.
abbrev pub set_found : CallState → ℕ → Caller → Option CallWaiter → Option (Unit {0} × Caller)
set_found state ref s none = none
set_found state ref s (some w) = some (
  tt,
  notify_all w.wait_sync
      (record s { waiters = update ref (some (record w { call_state = state })) s.waiters }),
)

unfoldable pub set_call_state : CallState → ℕ → Action Caller (Unit {0})
set_call_state state ref s = set_found state ref s (s.waiters ref)

abbrev pub call_done : ℕ → Action Caller (Unit {0})
call_done = set_call_state done

abbrev pub call_cancel : ℕ → Action Caller (Unit {0})
call_cancel = set_call_state canceled

abbrev pub set_receiver_thread_finished : ℕ → Action Caller (Unit {0})
set_receiver_thread_finished = set_call_state receiver_thread_finished

-- A loop over a set of waiters.
unfoldable pub set_call_states : CallState → List ℕ → Action Caller (Unit {0})
set_call_states state [] s = some (tt, s)
set_call_states state (ref ∷ refs) s = (set_call_state state ref >> set_call_states state refs) s

-- The set that a pointer may name.
abbrev pub members : Option ℕ → Caller → List ℕ
members none s = []
members (some k) s = s.sets k

-- `CancelDisableWaitingCall`.
abbrev pub disable : ℕ → Receiver → Caller → Caller
disable thread r s = record s {
  threads = update thread (some (record r { call_waiters_sender = none })) s.threads;
}

abbrev pub cancel_found : ℕ → Option Receiver → Action Caller (Unit {0})
cancel_found thread none s = some (tt, raise s)
cancel_found thread (some r) s =
    (set_call_states canceled (members r.call_waiters_sender s) >> λ s'.
    some (tt, disable thread r s'))
      s

unfoldable pub cancel_disable_waiting_call : ℕ → Action Caller (Unit {0})
cancel_disable_waiting_call thread s =
    if not s.alive then some (tt, raise s) else cancel_found thread (s.threads thread) s

-- `OnFinished_ReceiverThread`.
abbrev pub forget : ℕ → Caller → Caller
forget thread s = record s { threads = update thread none s.threads }

abbrev pub finish_found : ℕ → Option Receiver → Action Caller (Unit {0})
finish_found thread none s = some (tt, s)
finish_found thread (some r) s =
    set_call_states receiver_thread_finished (members r.call_waiters_receiver s) (forget thread s)

unfoldable pub on_finished_receiver_thread : ℕ → Action Caller (Unit {0})
on_finished_receiver_thread thread s =
    if not s.alive then some (tt, s) else finish_found thread (s.threads thread) s

-- `AddTargetThreadId`: the test, and behind `CreateReceiver` the assignment, each under the lock.
abbrev pub is_receiver_absent : ℕ → Caller → Bool
is_receiver_absent thread s = elim (s.threads thread) [ none ↦ true | some r ↦ false ]

abbrev pub new_receiver : ℕ → Receiver
new_receiver n = record {
  call_waiters_sender = some n;
  call_waiters_receiver = some (n + 1);
  wait_sync = n + 2;
}

unfoldable pub assign_receiver : ℕ → Caller → Caller
assign_receiver thread s = record s {
  threads = update thread (some (new_receiver s.next)) s.threads;
  sets = update s.next [] (update (s.next + 1) [] s.sets);
  process_incoming_call = update (s.next + 2) false s.process_incoming_call;
  next = s.next + 3;
}

-- The whole function where nothing comes between, as under the lock in `CallFromThread`.
unfoldable pub add_target_thread_id : ℕ → Caller → Caller
unfolding assign_receiver
add_target_thread_id thread s =
    if not s.alive
    then raise s
    else if is_receiver_absent thread s
    then assign_receiver thread s
    else s

-- `MakeFindThread`.
abbrev pub make_find_thread : ℕ → Caller → Caller
make_find_thread thread s = if is_receiver_absent thread s then add_target_thread_id thread s else s

-- The constructor and the destructor of `CallWaiterPrivate`.
abbrev pub add_to : Option ℕ → ℕ → (ℕ → List ℕ) → ℕ → List ℕ
add_to none ref sets = sets
add_to (some k) ref sets = update k (insert ref (sets k)) sets

abbrev pub take_from : Option ℕ → ℕ → (ℕ → List ℕ) → ℕ → List ℕ
take_from none ref sets = sets
take_from (some k) ref sets = update k (erase ref (sets k)) sets

abbrev pub new_waiter : Option ℕ → Option ℕ → ℕ → CallWaiter
new_waiter sender receiver sync = record {
  call_state = inprogress;
  wait_sync = sync;
  sender_calls = sender;
  receiver_calls = receiver;
}

unfoldable pub construct_waiter : Option ℕ → Option ℕ → ℕ → Caller → Caller
construct_waiter sender receiver sync s = record s {
  waiters = update s.next (some (new_waiter sender receiver sync)) s.waiters;
  sets = add_to receiver s.next (add_to sender s.next s.sets);
  asleep = update s.next false s.asleep;
  next = s.next + 1;
}

abbrev pub destroy_found : ℕ → Caller → Option CallWaiter → Option (Unit {0} × Caller)
destroy_found ref s none = none
destroy_found ref s (some w) = some (
  tt,
  record s {
    waiters = update ref none s.waiters;
    sets = take_from w.receiver_calls ref (take_from w.sender_calls ref s.sets);
    asleep = update ref false s.asleep;
  },
)

unfoldable pub destroy_waiter : ℕ → Action Caller (Unit {0})
destroy_waiter ref s = destroy_found ref s (s.waiters ref)

-- `WaitSync::ProcessIncomingCall`.
unfoldable pub signal_incoming_call : ℕ → Caller → Caller
signal_incoming_call sync s =
    notify_all sync (record s { process_incoming_call = update sync true s.process_incoming_call })

-- `PostEvent`.
abbrev pub post : ℕ → ℕ → Caller → Caller
post thread ref s = record s { posted = s.posted ++ ((thread, ref) ∷ []) }

abbrev pub cancel_if : Option ℕ → ℕ → Action Caller (Unit {0})
cancel_if none ref s = call_cancel ref s
cancel_if (some k) ref s = some (tt, s)

-- `CallFromThread` to another thread. The result is the waiter, or none for a `CallWaiter` of no
-- call.
abbrev pub call_between : ℕ → Receiver → Receiver → Action Caller (Option ℕ)
call_between thread receiver sender s =
    (cancel_if sender.call_waiters_sender s.next >> λ s'.
    some (some s.next, signal_incoming_call receiver.wait_sync (post thread s.next s')))
      (construct_waiter sender.call_waiters_sender receiver.call_waiters_receiver sender.wait_sync
        s)

abbrev pub call_from : ℕ → Receiver → Option Receiver → Action Caller (Option ℕ)
call_from thread receiver none s = some (none, raise s)
call_from thread receiver (some sender) s = call_between thread receiver sender s

abbrev pub call_to : ℕ → ℕ → Option Receiver → Action Caller (Option ℕ)
call_to current thread none s = some (none, raise s)
call_to current thread (some receiver) s =
    let s' = make_find_thread current s in call_from thread receiver (s'.threads current) s'

-- `CallFromThread` in the thread `current`. A call to no thread is processed in place, without a
-- waiter.
unfoldable pub call_from_thread : ℕ → ℕ → Action Caller (Option ℕ)
unfolding add_target_thread_id construct_waiter signal_incoming_call
call_from_thread current thread s =
    if thread == direct_call_pseudo_id
    then some (none, s)
    else let s' = make_find_thread thread s in call_to current thread (s'.threads thread) s'

-- `ProcessCallFromTargetThread` of a call that has a waiter, behind `CallFromTargetThread`, and
-- `ProcessCalls`, where the thread's queue holds the calls of `refs`.
abbrev pub process_calls : ℕ → List ℕ → Action Caller (Unit {0})
process_calls current refs s =
    if not s.alive
    then some (tt, raise s)
    else if is_receiver_absent current s
    then some (tt, raise s)
    else set_call_states done refs s

-- What a round of `WaitProcessing` does next.
pub data Round : Type 0 where
  ended : CallState → Round
  processes : Round
  sleeps : Round

abbrev pub is_inprogress : CallState → Bool
is_inprogress no_call = false
is_inprogress inprogress = true
is_inprogress canceled = false
is_inprogress done = false
is_inprogress receiver_thread_finished = false

-- A round up to the wait: the flag is taken, or the thread sleeps.
abbrev pub wait_found : ℕ → Caller → Option CallWaiter → Option (Round × Caller)
wait_found ref s none = none
wait_found ref s (some w) =
    if not (is_inprogress w.call_state)
    then some (ended w.call_state, s)
    else if s.process_incoming_call w.wait_sync
    then some (
      processes,
      record s { process_incoming_call = update w.wait_sync false s.process_incoming_call },
    )
    else some (sleeps, record s { asleep = update ref true s.asleep })

unfoldable pub wait_round : ℕ → Action Caller Round
wait_round ref s = wait_found ref s (s.waiters ref)

-- Behind the wait.
abbrev pub woken_found : Caller → Option CallWaiter → Option (Round × Caller)
woken_found s none = none
woken_found s (some w) =
    if not (is_inprogress w.call_state) then some (ended w.call_state, s) else some (processes, s)

unfoldable pub wake_up : ℕ → Action Caller Round
wake_up ref s = woken_found (record s { asleep = update ref false s.asleep }) (s.waiters ref)
