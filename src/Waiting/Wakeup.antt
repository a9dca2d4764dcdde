-- ===== src/Waiting/Wakeup.antt =====
-- No call sleeps on the condition without another thread that has the lock of the transport, nor while
-- there is something for it to take.
use mathlib.Core.Path.{subst}
use ipc_portable.Common.{
  ℕ, true, false, Option, none, some, List, [], ◌∷◌, ◌≡◌, ◌≢◌, refl, ◌∙◌, arith, ==_iff,
}
use ipc_portable.Calling.{find_id}
use ipc_portable.Engine.Jobs.{Engine}
use ipc_portable.Waiting.{is_current, is_locked}
use ipc_portable.Waiting.Threads.{waiting, Frame, System, Event, initial, Reach}
use ipc_portable.Waiting.Exclusion.{readers, Reach-readers}
use ipc_portable.Waiting.Searching.{Calm, Settled}
use ipc_portable.Waiting.Settled.{Reach-Settled}

owner :
    (o : Option ℕ) (thread : ℕ)
    → is_locked o ≡ true
    → is_current thread o ≡ false
    → (u : ℕ) × (o ≡ some u) × (u ≢ thread) × (is_current u o ≡ true)
owner none thread l c = cc
owner (some u) thread l c = (u, refl, (λ e. ground (arith, c)), (==_iff u u).1 refl)

-- In every state that moves of any number of threads lead to from a new `MAssIpcCall`, while the
-- newest call of a thread sleeps in `m_write_cond.wait`, the lock names another thread, which has one
-- call between the taking of the lock and the section `WriteBuffer`, so inside the transport's `Read`
-- or back from it and before the section, and whose newest call does not sleep; no answer is kept for
-- the sleeping call, and no incoming call if it processes these.
pub waiting-reader :
    (engine : Engine) {events : List Event} {s : System}
    → Reach (initial engine) events s
    → (thread : ℕ) (f : Frame) (rest : List Frame) → s.frames thread ≡ f ∷ rest
    → f.phase ≡ waiting
    → (u : ℕ) × (s.pending.thread_waiting_transport ≡ some u)
      × (u ≢ thread)
      × (readers (s.frames u) ≡ 1)
      × ((g : Frame) (others : List Frame) → s.frames u ≡ g ∷ others → g.phase ≢ waiting)
      × (find_id f.wait_response_id s.pending.id_data_return ≡ none)
      × (f.process_incoming_calls ≡ true → s.pending.data_incoming_call ≡ [])
waiting-reader engine {events} {s} r thread f rest newest asleep =
    let (locked, apart, absent, empty) = at_phase thread f rest newest asleep in
    let (u, named, differ, current) =
      owner s.pending.thread_waiting_transport thread locked apart in
    (
      u,
      named,
      differ,
      Reach-readers engine r u ∙ rw current refl,
      (λ g others e sleeping.
          let (_, free, _, _) = at_phase u g others e sleeping in absurd (cc (current, free))),
      absent,
      empty,
    )
  where
    at_phase :
        (v : ℕ) (g : Frame) (others : List Frame)
        → s.frames v ≡ g ∷ others
        → g.phase ≡ waiting
        → Calm v g.wait_response_id g.process_incoming_calls s.pending waiting
    at_phase v g others e sleeping =
        subst (Calm v g.wait_response_id g.process_incoming_calls s.pending) sleeping
          (subst (λ frames. Settled v frames s.pending) e (Reach-Settled engine r v)).1
