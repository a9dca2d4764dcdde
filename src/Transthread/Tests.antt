-- ===== src/Transthread/Tests.antt =====
-- Thread 1 calls thread 2, and waits.
use ipc_portable.Common.{
  ℕ, update, true, false, Option, none, some, [], ◌∷◌, ◌++◌, ◌≡◌, refl, has, insert, arith,
}
use ipc_portable.Transthread.{
  inprogress, canceled, done, receiver_thread_finished, CallWaiter, Receiver, Caller,
  set_call_state, set_call_states, cancel_disable_waiting_call, on_finished_receiver_thread,
  add_target_thread_id, construct_waiter, call_from_thread, new_waiter, waits_on, wait_round,
  assign_receiver, signal_incoming_call,
}
use ipc_portable.Transthread.Linked.{names}
use ipc_portable.Transthread.Operations.{
  Operation, assign, call, cancel, wait, process, run, nothing_made, Reach, start, later,
}
use ipc_portable.Transthread.Pointers.{Reach-names}
use ipc_portable.Transthread.Sleeping.{Reach-asleep}
use ipc_portable.Transthread.Canceling.{
  Ends, cancel_disable_waiting_call-Ends, on_finished_receiver_thread-Ends, call_from_thread_lem,
  state_by, assign_receiver-loses,
}

record Run : Type 0 where
  last : Caller
  reach : Reach last

turn : Run → Operation → Run
turn r op = go (run op r.last) refl
  where
    go : (o : Option Caller) → run op r.last ≡ o → Run
    go none e = r
    go (some t) e = record { last = t; reach = later r.reach op e }

-- Thread 1 has called thread 2.
called : Run
unfolding turn run call_from_thread add_target_thread_id construct_waiter signal_incoming_call
    insert has assign_receiver
called = turn (record { last = nothing_made; reach = start }) (call 1 2)

-- Thread 1 sleeps for the end of the call.
sleeping : Run
unfolding called wait_round
sleeping = turn called (wait 6)

-- The receiver of thread 2 was made first, then that of thread 1, and the waiter is 6.
abbrev receiver : Receiver
receiver = record { call_waiters_sender = some 0; call_waiters_receiver = some 1; wait_sync = 2 }

abbrev sender : Receiver
sender = record { call_waiters_sender = some 3; call_waiters_receiver = some 4; wait_sync = 5 }

called-posted : called.last.posted ≡ (2, 6) ∷ []
unfolding called
called-posted = refl

sleeping-asleep : sleeping.last.asleep 6 ≡ true
unfolding sleeping
sleeping-asleep = refl

-- The receiver of thread 1 is replaced, and thread 2 calls thread 1: the call signals the new
-- `WaitSync`, and thread 1 sleeps on.
reassigned : Run
unfolding turn run sleeping call_from_thread add_target_thread_id construct_waiter
    signal_incoming_call insert has assign_receiver
reassigned = turn (turn sleeping (assign 1)) (call 2 1)

reassigned-asleep : reassigned.last.asleep 6 ≡ true
unfolding reassigned
reassigned-asleep = refl

reassigned-posted : reassigned.last.posted ≡ (2, 6) ∷ (1, 10) ∷ []
unfolding reassigned
reassigned-posted = refl

canceled_run : Run
unfolding sleeping cancel_disable_waiting_call set_call_states set_call_state
canceled_run = turn sleeping (cancel 1)

canceled_run-awake : canceled_run.last.asleep 6 ≡ false
unfolding canceled_run
canceled_run-awake = refl

done_behind_canceled :
    (turn canceled_run (process 2 (6 ∷ []))).last.waiters 6
    ≡ some (record (new_waiter (some 3) (some 1) 5) { call_state = done })
unfolding canceled_run
done_behind_canceled = refl

Reach-names_example : has 6 (called.last.sets 3) ≡ names 3 (called.last.waiters 6)
Reach-names_example = Reach-names called.reach 3 6

Reach-asleep_example :
    (w : CallWaiter) × (sleeping.last.waiters 6 ≡ some w)
    × (w.call_state ≡ inprogress)
    × (sleeping.last.process_incoming_call w.wait_sync ≡ false)
Reach-asleep_example = Reach-asleep sleeping.reach 6 sleeping-asleep

cancel_example :
    (t : Caller) × (cancel_disable_waiting_call 1 sleeping.last ≡ some (tt, t))
    × Ends canceled 3 sleeping.last t
    × (t.threads
        ≡ update 1 (some (record sender { call_waiters_sender = none })) sleeping.last.threads)
unfolding sleeping
cancel_example = cancel_disable_waiting_call-Ends sleeping.reach refl 1 sender 3 refl refl

finish_example :
    (t : Caller) × (on_finished_receiver_thread 2 sleeping.last ≡ some (tt, t))
    × Ends receiver_thread_finished 1 sleeping.last t
    × (t.threads ≡ update 2 none sleeping.last.threads)
unfolding sleeping
finish_example = on_finished_receiver_thread-Ends sleeping.reach refl 2 receiver 1 refl refl

call_example :
    (t : Caller) × (call_from_thread 1 2 called.last ≡ some (some 7, t))
    × ((i : ℕ)
        → t.waiters i
          ≡ update 7
              (some (record (new_waiter (some 3) (some 1) 5) {
                call_state = state_by (some 3) inprogress;
              }))
              called.last.waiters
              i)
    × (t.posted ≡ called.last.posted ++ ((2, 7) ∷ []))
    × (t.process_incoming_call ≡ update 2 true called.last.process_incoming_call)
    × ((i : ℕ) → waits_on 2 (t.waiters i) ≡ true → t.asleep i ≡ false)
unfolding called
call_example =
    call_from_thread_lem 1 2 receiver sender called.last (λ e. omega (arith, e)) refl refl

loses_example :
    (t : Caller) × (cancel_disable_waiting_call 1 (assign_receiver 1 sleeping.last) ≡ some (tt, t))
    × ((i : ℕ) → t.waiters i ≡ sleeping.last.waiters i)
unfolding sleeping
loses_example = assign_receiver-loses sleeping.reach refl 1
