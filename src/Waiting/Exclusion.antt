-- ===== src/Waiting/Exclusion.antt =====
-- Only one call at a time is between the lock and the unlock of the transport.
use ipc_portable.Common.{
  ℕ, ◌+◌, ◌≤◌, Bool, true, false, Option, none, some, List, [], ◌∷◌, map, ◌==◌, ◌≡◌, refl, sym, ap,
  ◌∙◌, if◌then◌else◌, arith, inl, inr, Bool-cases,
}
use ipc_portable.Stream.{DataStream}
use ipc_portable.Call.Receiving.{CallDataBuffer}
use ipc_portable.Calling.{PendingResponces}
use ipc_portable.Engine.{process_buffer}
use ipc_portable.Engine.Jobs.{Engine}
use ipc_portable.Waiting.{Found, is_current, search, read_buffer, write_buffer, response_processed}
use ipc_portable.Waiting.Threads.{
  Phase, entering, waiting, notified, reading, arrived, processing, returned, Frame, System, Event,
  Move, call, proceed, transport_read, wake_up, move, go, finish_read, spurious, received, update,
  wake, woken, enter, notify_all, found_phase, next_round, processed_phase, after_write,
  after_found, after_process, move_newest, may_call, call_if, new_frame, initial, Reach,
}
use ipc_portable.Waiting.Rules.{After, Reach-induction, Property, Everywhere, update_all}

-- Whether a call is between the lock and the unlock of `lock_thread_waiting_transport`.
abbrev pub reads : Phase → ℕ
reads reading = 1
reads (arrived transport_ok b) = 1
reads entering = 0
reads waiting = 0
reads notified = 0
reads (processing b) = 0
reads (returned result) = 0

pub readers : List Frame → ℕ
readers [] = 0
readers (f ∷ rest) = reads f.phase + readers rest

-- 1 for the thread that the lock names, and 0 for the others.
abbrev pub held : ℕ → PendingResponces → ℕ
held thread p = if is_current thread p.thread_waiting_transport then 1 else 0

abbrev Exclusive : Property
Exclusive thread frames p = readers frames ≡ held thread p

reads-woken : (phase : Phase) → reads (woken phase) ≡ reads phase
reads-woken entering = refl
reads-woken waiting = refl
reads-woken notified = refl
reads-woken reading = refl
reads-woken (arrived transport_ok b) = refl
reads-woken (processing b) = refl
reads-woken (returned result) = refl

readers-wake : (frames : List Frame) → readers (map wake frames) ≡ readers frames
unfolding readers
readers-wake [] = refl
readers-wake (f ∷ rest) = omega (arith, reads-woken f.phase, readers-wake rest)

-- A search takes the lock where it goes on to read, and only then.
pub search-held :
    (thread id : ℕ) (process : Bool) (p : PendingResponces)
    → (held thread (search thread id process p).1
        ≡ held thread p + reads (found_phase (search thread id process p).0))
      × ((u : ℕ) → (thread == u) ≡ false → held u (search thread id process p).1 ≡ held u p)
unfolding search
search-held thread id process p = (ground arith, λ u apart. ground arith)

pub read_buffer-held :
    (thread id : ℕ) (process : Bool) (p : PendingResponces)
    → (held thread (read_buffer thread id process p).1
        ≡ held thread p + reads (found_phase (read_buffer thread id process p).0))
      × ((u : ℕ) → (thread == u) ≡ false → held u (read_buffer thread id process p).1 ≡ held u p)
unfolding read_buffer
read_buffer-held thread id process p = (
  ground (arith, (search-held thread id process p).0),
  λ u apart. ground (arith, (search-held thread id process p).1 u apart),
)

-- The lock is with the thread's newest call, which now gives it up.
write_buffer-held :
    (u thread id : ℕ) (process ok : Bool) (b : CallDataBuffer) (p : PendingResponces)
    → held u (write_buffer id process ok b p).1 ≡ 0
unfolding write_buffer
write_buffer-held u thread id process ok b p = ground arith

one_owner :
    (thread u : ℕ) (p : PendingResponces) → 1 ≤ held thread p → (thread == u) ≡ false → held u p ≡ 0
one_owner thread u p h apart = ground arith

reads-next_round : (goes_on : Bool) → reads (next_round goes_on) ≡ 0
reads-next_round true = refl
reads-next_round false = refl

module _ (thread : ℕ) (f : Frame) (rest : List Frame) (s : System)
    (newest : s.frames thread ≡ f ∷ rest) (all : Everywhere Exclusive s) where
  change :
      (new : List Frame) (p : PendingResponces)
      → readers new + held thread s.pending ≡ readers (f ∷ rest) + held thread p
      → ((u : ℕ) → (thread == u) ≡ false → held u p ≡ held u s.pending)
      → (u : ℕ) → Exclusive u (update thread new s.frames u) p
  change new p sum others =
      update_all Exclusive s.frames s.pending p thread new all
        (omega (arith, sum, all thread, ap readers newest)) (λ u apart e. e ∙ sym (others u apart))

  found-Exclusive :
      (r : Found × PendingResponces)
      → reads f.phase ≡ 0
      → (held thread r.1 ≡ held thread s.pending + reads (found_phase r.0))
        × ((u : ℕ) → (thread == u) ≡ false → held u r.1 ≡ held u s.pending)
      → Everywhere Exclusive (after_found thread f rest s r).1
  unfolding readers
  found-Exclusive (found, p) outside (here', others) =
      change (enter (found_phase found) f ∷ rest) p (omega (arith, outside, here')) others

  same-Exclusive :
      (phase : Phase)
      → reads phase ≡ reads f.phase
      → (u : ℕ) → Exclusive u (update thread (enter phase f ∷ rest) s.frames u) s.pending
  unfolding readers
  same-Exclusive phase e =
      change (enter phase f ∷ rest) s.pending (omega (arith, e)) (λ u apart. refl)

  processed-Exclusive :
      (b : CallDataBuffer) (o : Option (Option DataStream × Engine))
      → reads f.phase ≡ 0
      → After (λ _. Everywhere Exclusive) (after_process thread f rest s b o)
  processed-Exclusive b none outside = tt
  processed-Exclusive b (some (result, engine)) outside =
      elim (Bool-cases (response_processed f.wait_response_id b)) [
        | inl done ↦ same-Exclusive (processed_phase f.wait_response_id b result) (
            omega (
              arith,
              outside,
              (let z : reads (processed_phase f.wait_response_id b result) ≡ 0 = rw done refl in z),
            ))
        | inr more ↦ same-Exclusive (processed_phase f.wait_response_id b result) (
            omega (
              arith,
              outside,
              (let z : reads (processed_phase f.wait_response_id b result) ≡ 0 = rw more refl in z),
            ))
      ]

  written-Exclusive :
      (ok : Bool) (b : CallDataBuffer)
      → reads f.phase ≡ 1
      → Everywhere Exclusive
          (after_write thread f rest s b
            (write_buffer f.wait_response_id f.process_incoming_calls ok b s.pending)).1
  unfolding readers notify_all
  written-Exclusive ok b inside u =
      let r = write_buffer f.wait_response_id f.process_incoming_calls ok b s.pending in
      let new = enter (next_round r.0) f ∷ rest in
      let free : (v : ℕ) → held v r.1 ≡ 0 = λ v.
        write_buffer-held v thread f.wait_response_id f.process_incoming_calls ok b s.pending in
      let owned : 1 + readers rest ≡ held thread s.pending =
        omega (arith, inside, all thread, ap readers newest) in
      let one : held thread s.pending ≤ 1 = ground arith in
      let same : (v : ℕ) → Exclusive v (update thread new s.frames v) r.1 =
        change new r.1 (omega (arith, inside, owned, one, free thread, reads-next_round r.0))
          (λ v apart.
            omega (arith, free v, one_owner thread v s.pending (omega (arith, owned)) apart)) in
      readers-wake (update thread new s.frames u) ∙ same u

  go-Exclusive :
      (phase : Phase)
      → f.phase ≡ phase
      → After (λ _. Everywhere Exclusive) (go thread f rest s phase)
  unfolding go readers
  go-Exclusive entering e =
      found-Exclusive (read_buffer thread f.wait_response_id f.process_incoming_calls s.pending)
        (ap reads e) (read_buffer-held thread f.wait_response_id f.process_incoming_calls s.pending)
  go-Exclusive notified e =
      found-Exclusive (search thread f.wait_response_id f.process_incoming_calls s.pending)
        (ap reads e) (search-held thread f.wait_response_id f.process_incoming_calls s.pending)
  go-Exclusive waiting e = tt
  go-Exclusive reading e = tt
  go-Exclusive (arrived ok b) e = written-Exclusive ok b (ap reads e)
  go-Exclusive (processing b) e = processed-Exclusive b (process_buffer b s.engine) (ap reads e)
  go-Exclusive (returned result) e =
      change rest s.pending (omega (arith, ap reads e)) (λ u apart. refl)

  finish_read-Exclusive :
      (ok : Bool) (phase : Phase) (o : Option CallDataBuffer)
      → f.phase ≡ phase
      → After (λ _. Everywhere Exclusive) (finish_read thread ok f rest s phase o)
  unfolding finish_read
  finish_read-Exclusive ok reading (some b) e = same-Exclusive (arrived ok b) (sym (ap reads e))
  finish_read-Exclusive ok reading none e = tt
  finish_read-Exclusive ok entering o e = tt
  finish_read-Exclusive ok waiting o e = tt
  finish_read-Exclusive ok notified o e = tt
  finish_read-Exclusive ok (arrived _ b) o e = tt
  finish_read-Exclusive ok (processing b) o e = tt
  finish_read-Exclusive ok (returned r) o e = tt

  spurious-Exclusive :
      (phase : Phase)
      → f.phase ≡ phase
      → After (λ _. Everywhere Exclusive) (spurious thread f rest s phase)
  unfolding spurious
  spurious-Exclusive waiting e = same-Exclusive notified (sym (ap reads e))
  spurious-Exclusive entering e = tt
  spurious-Exclusive notified e = tt
  spurious-Exclusive reading e = tt
  spurious-Exclusive (arrived _ b) e = tt
  spurious-Exclusive (processing b) e = tt
  spurious-Exclusive (returned r) e = tt

call-Exclusive :
    (b : Bool) (thread id : ℕ) (process : Bool) (frames : List Frame) (s : System)
    → s.frames thread ≡ frames
    → Everywhere Exclusive s
    → After (λ _. Everywhere Exclusive) (call_if b thread (new_frame id process) frames s)
unfolding call_if readers
call-Exclusive false thread id process frames s e all = tt
call-Exclusive true thread id process frames s e all =
    update_all Exclusive s.frames s.pending s.pending thread (new_frame id process ∷ frames) all
      (omega (arith, all thread, ap readers e)) (λ u apart k. k)

move-Exclusive :
    (thread : ℕ) (m : Move) (frames : List Frame) (s : System)
    → s.frames thread ≡ frames
    → Everywhere Exclusive s
    → After (λ _. Everywhere Exclusive) (move_newest thread m frames s)
move-Exclusive thread (call id process) frames s e all =
    call-Exclusive (may_call frames) thread id process frames s e all
move-Exclusive thread proceed [] s e all = tt
move-Exclusive thread proceed (f ∷ rest) s e all = go-Exclusive thread f rest s e all f.phase refl
move-Exclusive thread (transport_read ok packet) [] s e all = tt
move-Exclusive thread (transport_read ok packet) (f ∷ rest) s e all =
    finish_read-Exclusive thread f rest s e all ok f.phase (received packet) refl
move-Exclusive thread wake_up [] s e all = tt
move-Exclusive thread wake_up (f ∷ rest) s e all =
    spurious-Exclusive thread f rest s e all f.phase refl

-- In every state that moves of any number of threads lead to from a new `MAssIpcCall`, a thread has
-- one call between the lock and the unlock of `m_thread_waiting_transport`, so inside the
-- transport's `Read` or back from it and before the section `WriteBuffer`, if the lock names the
-- thread, and otherwise none.
pub Reach-readers :
    (engine : Engine) {events : List Event} {s : System}
    → Reach (initial engine) events s
    → (thread : ℕ)
    → readers (s.frames thread)
      ≡ (if is_current thread s.pending.thread_waiting_transport then 1 else 0)
unfolding move readers
Reach-readers engine r =
    Reach-induction (λ _. Everywhere Exclusive) (initial engine) (λ thread. refl)
      (λ events s thread m all. move-Exclusive thread m (s.frames thread) s refl all) r
