-- ===== src/Waiting/Settled.antt =====
-- What holds of all running calls of `ProcessTransportResponse` is kept by every move.
use mathlib.Core.Path.{subst}
use ipc_portable.Common.{
  ℕ, Bool, true, false, Option, none, some, List, [], ◌∷◌, map, ◌==◌, ◌≡◌, refl, ap, ◌∙◌, arith,
  All, inl, inr, Bool-cases,
}
use ipc_portable.Stream.{DataStream}
use ipc_portable.Call.Receiving.{CallDataBuffer}
use ipc_portable.Calling.{PendingResponces}
use ipc_portable.Engine.{process_buffer}
use ipc_portable.Engine.Jobs.{Engine}
use ipc_portable.Waiting.{is_current, search, read_buffer, write_buffer, response_processed}
use ipc_portable.Waiting.Threads.{
  Phase, entering, waiting, notified, reading, arrived, processing, returned, Frame, System, Event,
  Move, call, proceed, transport_read, wake_up, move, go, finish_read, spurious, received, update,
  wake, woken, enter, notify_all, found_phase, next_round, processed_phase, after_write,
  after_process, move_newest, may_call, call_if, new_frame, initial, Reach,
}
use ipc_portable.Waiting.Rules.{After, Reach-induction, Everywhere, update_all}
use ipc_portable.Waiting.Searching.{
  busy, IsBusy, Calm, Settled, returned-Settled, Settled-Keeps, Keeps, Keeps-refl, search-Keeps,
  read_buffer-Keeps, search-Calm, read_buffer-Calm,
}

-- Behind `WriteBuffer` the lock is free and no call sleeps.
write_buffer-free :
    (id : ℕ) (process ok : Bool) (b : CallDataBuffer) (p : PendingResponces)
    → (write_buffer id process ok b p).1.thread_waiting_transport ≡ none
unfolding write_buffer
write_buffer-free id process ok b p = ground arith

busy-woken : (phase : Phase) → busy (woken phase) ≡ busy phase
busy-woken entering = refl
busy-woken waiting = refl
busy-woken notified = refl
busy-woken reading = refl
busy-woken (arrived ok b) = refl
busy-woken (processing b) = refl
busy-woken (returned r) = refl

All-wake : (frames : List Frame) → All IsBusy frames → All IsBusy (map wake frames)
All-wake [] h = tt
All-wake (f ∷ rest) (first, others) = (busy-woken f.phase ∙ first, All-wake rest others)

woken-Calm :
    (thread id : ℕ) (process : Bool) (p : PendingResponces) (phase : Phase)
    → p.thread_waiting_transport ≡ none
    → Calm thread id process p (woken phase)
woken-Calm thread id process p waiting e = ap (is_current thread) e
woken-Calm thread id process p notified e = ap (is_current thread) e
woken-Calm thread id process p entering e = tt
woken-Calm thread id process p reading e = tt
woken-Calm thread id process p (arrived ok b) e = tt
woken-Calm thread id process p (processing b) e = tt
woken-Calm thread id process p (returned r) e = tt

-- The calls below the newest one are busy, whatever it is.
abbrev IsStack : List Frame → Type 0
IsStack [] = Unit
IsStack (f ∷ rest) = All IsBusy rest

Settled-IsStack :
    (thread : ℕ) (frames : List Frame) (p : PendingResponces)
    → Settled thread frames p
    → IsStack frames
Settled-IsStack thread [] p h = tt
Settled-IsStack thread (f ∷ rest) p (below, calm) = below

wake-Settled :
    (thread : ℕ) (frames : List Frame) (p : PendingResponces)
    → p.thread_waiting_transport ≡ none
    → IsStack frames
    → Settled thread (map wake frames) p
wake-Settled thread [] p e h = tt
wake-Settled thread (f ∷ rest) p e h =
    (All-wake rest h, woken-Calm thread f.wait_response_id f.process_incoming_calls p f.phase e)

module _ (thread : ℕ) (f : Frame) (rest : List Frame) (s : System)
    (newest : s.frames thread ≡ f ∷ rest) (all : Everywhere Settled s) where
  here' : Settled thread (f ∷ rest) s.pending
  here' = subst (λ frames. Settled thread frames s.pending) newest (all thread)

  at_phase :
      (phase : Phase)
      → f.phase ≡ phase
      → Calm thread f.wait_response_id f.process_incoming_calls s.pending phase
  at_phase phase e =
      subst (Calm thread f.wait_response_id f.process_incoming_calls s.pending) e here'.1

  -- The newest call goes to another phase.
  change :
      (phase : Phase) (p : PendingResponces)
      → Calm thread f.wait_response_id f.process_incoming_calls p phase
      → ((u : ℕ) → (thread == u) ≡ false → Keeps u s.pending p)
      → (u : ℕ) → Settled u (update thread (enter phase f ∷ rest) s.frames u) p
  change phase p calm others =
      update_all Settled s.frames s.pending p thread (enter phase f ∷ rest) all (here'.0, calm)
        (λ u apart. Settled-Keeps u (s.frames u) s.pending p (others u apart))

  same-Settled :
      (phase : Phase)
      → Calm thread f.wait_response_id f.process_incoming_calls s.pending phase
      → (u : ℕ) → Settled u (update thread (enter phase f ∷ rest) s.frames u) s.pending
  same-Settled phase calm = change phase s.pending calm (λ u _. Keeps-refl u s.pending)

  processed-Settled :
      (b : CallDataBuffer) (o : Option (Option DataStream × Engine))
      → After (λ _. Everywhere Settled) (after_process thread f rest s b o)
  processed-Settled b none = tt
  processed-Settled b (some (result, engine)) =
      same-Settled (processed_phase f.wait_response_id b result)
        (elim (Bool-cases (response_processed f.wait_response_id b)) [
          | inl done ↦ rw done tt
          | inr more ↦ rw more tt
        ])

  written-Settled :
      (ok : Bool) (b : CallDataBuffer)
      → Everywhere Settled
          (after_write thread f rest s b
            (write_buffer f.wait_response_id f.process_incoming_calls ok b s.pending)).1
  unfolding notify_all
  written-Settled ok b u =
      let r = write_buffer f.wait_response_id f.process_incoming_calls ok b s.pending in
      let new : List Frame = enter (next_round r.0) f ∷ rest in
      let free = write_buffer-free f.wait_response_id f.process_incoming_calls ok b s.pending in
      wake-Settled u (update thread new s.frames u) r.1 free (
        update_all (λ v frames p. IsStack frames) s.frames s.pending s.pending thread new
          (λ v. Settled-IsStack v (s.frames v) s.pending (all v)) here'.0 (λ v _ h. h) u)

  go-Settled :
      (phase : Phase) → f.phase ≡ phase → After (λ _. Everywhere Settled) (go thread f rest s phase)
  unfolding go
  go-Settled entering e =
      change
        (found_phase (read_buffer thread f.wait_response_id f.process_incoming_calls s.pending).0)
        (read_buffer thread f.wait_response_id f.process_incoming_calls s.pending).1
        (read_buffer-Calm thread f.wait_response_id f.process_incoming_calls s.pending)
        (λ u. read_buffer-Keeps u thread f.wait_response_id f.process_incoming_calls s.pending)
  go-Settled notified e =
      change (found_phase (search thread f.wait_response_id f.process_incoming_calls s.pending).0)
        (search thread f.wait_response_id f.process_incoming_calls s.pending).1
        (search-Calm thread f.wait_response_id f.process_incoming_calls s.pending
          (at_phase notified e))
        (λ u. search-Keeps u thread f.wait_response_id f.process_incoming_calls s.pending)
  go-Settled waiting e = tt
  go-Settled reading e = tt
  go-Settled (arrived ok b) e = written-Settled ok b
  go-Settled (processing b) e = processed-Settled b (process_buffer b s.engine)
  go-Settled (returned result) e =
      update_all Settled s.frames s.pending s.pending thread rest all
        (returned-Settled thread rest s.pending here'.0) (λ u _ h. h)

  finish_read-Settled :
      (ok : Bool) (phase : Phase) (o : Option CallDataBuffer)
      → After (λ _. Everywhere Settled) (finish_read thread ok f rest s phase o)
  unfolding finish_read
  finish_read-Settled ok reading (some b) = same-Settled (arrived ok b) tt
  finish_read-Settled ok reading none = tt
  finish_read-Settled ok entering o = tt
  finish_read-Settled ok waiting o = tt
  finish_read-Settled ok notified o = tt
  finish_read-Settled ok (arrived _ b) o = tt
  finish_read-Settled ok (processing b) o = tt
  finish_read-Settled ok (returned r) o = tt

  spurious-Settled :
      (phase : Phase)
      → f.phase ≡ phase
      → After (λ _. Everywhere Settled) (spurious thread f rest s phase)
  unfolding spurious
  spurious-Settled waiting e = same-Settled notified (at_phase waiting e).1
  spurious-Settled entering e = tt
  spurious-Settled notified e = tt
  spurious-Settled reading e = tt
  spurious-Settled (arrived _ b) e = tt
  spurious-Settled (processing b) e = tt
  spurious-Settled (returned r) e = tt

may_call-IsBusy :
    (thread : ℕ) (frames : List Frame) (p : PendingResponces)
    → may_call frames ≡ true
    → Settled thread frames p
    → All IsBusy frames
may_call-IsBusy thread [] p h k = tt
may_call-IsBusy thread (f ∷ rest) p h (below, calm) = (busy_at f.phase h, below)
  where
    busy_at :
        (phase : Phase)
        → (elim phase [ reading ↦ true | processing b ↦ true | _ ↦ false ]) ≡ true
        → busy phase ≡ true
    busy_at reading h = refl
    busy_at (processing b) h = refl
    busy_at entering h = cc
    busy_at waiting h = cc
    busy_at notified h = cc
    busy_at (arrived ok b) h = cc
    busy_at (returned r) h = cc

call-Settled :
    (b : Bool) (thread id : ℕ) (process : Bool) (frames : List Frame) (s : System)
    → (b ≡ true → All IsBusy frames)
    → Everywhere Settled s
    → After (λ _. Everywhere Settled) (call_if b thread (new_frame id process) frames s)
unfolding call_if
call-Settled false thread id process frames s h all = tt
call-Settled true thread id process frames s h all =
    update_all Settled s.frames s.pending s.pending thread (new_frame id process ∷ frames) all
      (h refl, tt) (λ u _ k. k)

move-Settled :
    (thread : ℕ) (m : Move) (frames : List Frame) (s : System)
    → s.frames thread ≡ frames
    → Everywhere Settled s
    → After (λ _. Everywhere Settled) (move_newest thread m frames s)
move-Settled thread (call id process) frames s e all =
    call-Settled (may_call frames) thread id process frames s
      (λ h.
        may_call-IsBusy thread frames s.pending h
          (subst (λ fs. Settled thread fs s.pending) e (all thread)))
      all
move-Settled thread proceed [] s e all = tt
move-Settled thread proceed (f ∷ rest) s e all = go-Settled thread f rest s e all f.phase refl
move-Settled thread (transport_read ok packet) [] s e all = tt
move-Settled thread (transport_read ok packet) (f ∷ rest) s e all =
    finish_read-Settled thread f rest s e all ok f.phase (received packet)
move-Settled thread wake_up [] s e all = tt
move-Settled thread wake_up (f ∷ rest) s e all = spurious-Settled thread f rest s e all f.phase refl

pub Reach-Settled :
    (engine : Engine) {events : List Event} {s : System}
    → Reach (initial engine) events s
    → Everywhere Settled s
unfolding move
Reach-Settled engine r =
    Reach-induction (λ _. Everywhere Settled) (initial engine) (λ thread. tt)
      (λ events s thread m all. move-Settled thread m (s.frames thread) s refl all) r
