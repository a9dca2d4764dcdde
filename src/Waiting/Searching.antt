-- ===== src/Waiting/Searching.antt =====
-- What holds of each call of `ProcessTransportResponse` in its phase, and what a search under `m_lock`
-- makes of it.
use ipc_portable.Common.{
  ℕ, Bool, true, false, Option, none, some, List, [], ◌∷◌, ◌==◌, ◌≡◌, refl, arith, All, inl, inr,
  Bool-cases,
}
use ipc_portable.Packet.{c_invalid_id}
use ipc_portable.Call.Receiving.{CallDataBuffer}
use ipc_portable.Calling.{PendingResponces, find_id, erase_id}
use ipc_portable.Waiting.{
  is_current, is_locked, after_find, next_incoming_call, to_transport, search, read_buffer,
}
use ipc_portable.Waiting.Threads.{
  Phase, entering, waiting, notified, reading, arrived, processing, returned, Frame, found_phase,
}
use ipc_portable.Waiting.Rules.{Property}

-- A call that runs code which may call again.
abbrev pub busy : Phase → Bool
busy reading = true
busy (processing b) = true
busy entering = false
busy waiting = false
busy notified = false
busy (arrived ok b) = false
busy (returned r) = false

abbrev pub IsBusy : Frame → Type 0
IsBusy f = busy f.phase ≡ true

-- What holds of a call in each phase.
abbrev pub Calm : ℕ → ℕ → Bool → PendingResponces → Phase → Type 0
Calm thread id process p waiting =
    (is_locked p.thread_waiting_transport ≡ true)
    × (is_current thread p.thread_waiting_transport ≡ false)
    × (find_id id p.id_data_return ≡ none)
    × (process ≡ true → p.data_incoming_call ≡ [])
Calm thread id process p notified = is_current thread p.thread_waiting_transport ≡ false
Calm thread id process p entering = Unit
Calm thread id process p reading = Unit
Calm thread id process p (arrived ok b) = Unit
Calm thread id process p (processing b) = Unit
Calm thread id process p (returned r) = Unit

-- All calls but the newest are busy.
abbrev pub Settled : Property
Settled thread [] p = Unit
Settled thread (f ∷ rest) p =
    All IsBusy rest × Calm thread f.wait_response_id f.process_incoming_calls p f.phase

busy-Calm :
    (thread id : ℕ) (process : Bool) (p : PendingResponces) (phase : Phase)
    → busy phase ≡ true
    → Calm thread id process p phase
busy-Calm thread id process p reading h = tt
busy-Calm thread id process p (processing b) h = tt
busy-Calm thread id process p entering h = cc
busy-Calm thread id process p waiting h = cc
busy-Calm thread id process p notified h = cc
busy-Calm thread id process p (arrived ok b) h = cc
busy-Calm thread id process p (returned r) h = cc

pub returned-Settled :
    (thread : ℕ) (frames : List Frame) (p : PendingResponces)
    → All IsBusy frames
    → Settled thread frames p
returned-Settled thread [] p h = tt
returned-Settled thread (f ∷ rest) p (first, others) =
    (others, busy-Calm thread f.wait_response_id f.process_incoming_calls p f.phase first)

-- What a change of the shared state by one thread leaves to the others.
pub record Keeps (u : ℕ) (p p' : PendingResponces) : Type 0 where
  pub locked :
      is_locked p.thread_waiting_transport ≡ true → is_locked p'.thread_waiting_transport ≡ true
  pub other :
      is_current u p.thread_waiting_transport ≡ false
      → is_current u p'.thread_waiting_transport ≡ false
  pub absent : (id : ℕ) → find_id id p.id_data_return ≡ none → find_id id p'.id_data_return ≡ none
  pub empty : p.data_incoming_call ≡ [] → p'.data_incoming_call ≡ []

Calm-Keeps :
    (u id : ℕ) (process : Bool) (p p' : PendingResponces) (phase : Phase)
    → Keeps u p p'
    → Calm u id process p phase
    → Calm u id process p' phase
Calm-Keeps u id process p p' waiting k (a, b, c, d) =
    (k.locked a, k.other b, k.absent id c, λ e. k.empty (d e))
Calm-Keeps u id process p p' notified k c = k.other c
Calm-Keeps u id process p p' entering k c = tt
Calm-Keeps u id process p p' reading k c = tt
Calm-Keeps u id process p p' (arrived ok b) k c = tt
Calm-Keeps u id process p p' (processing b) k c = tt
Calm-Keeps u id process p p' (returned r) k c = tt

pub Settled-Keeps :
    (u : ℕ) (frames : List Frame) (p p' : PendingResponces)
    → Keeps u p p'
    → Settled u frames p
    → Settled u frames p'
Settled-Keeps u [] p p' k h = tt
Settled-Keeps u (f ∷ rest) p p' k (below, calm) =
    (below, Calm-Keeps u f.wait_response_id f.process_incoming_calls p p' f.phase k calm)

pub Keeps-refl : (u : ℕ) (p : PendingResponces) → Keeps u p p
Keeps-refl u p = record { locked = λ h. h; other = λ h. h; absent = λ id h. h; empty = λ h. h }

find_id-erase_id :
    (id other : ℕ) (xs : List (ℕ × CallDataBuffer))
    → find_id id xs ≡ none
    → find_id id (erase_id other xs) ≡ none
unfolding find_id erase_id
find_id-erase_id id other [] h = refl
find_id-erase_id id other ((k, b) ∷ rest) h = ground (arith, find_id-erase_id id other rest)

-- A search by one thread, seen by another.
pub search-Keeps :
    (u thread id : ℕ) (process : Bool) (p : PendingResponces)
    → (thread == u) ≡ false
    → Keeps u p (search thread id process p).1
unfolding search
search-Keeps u thread id process p apart = record {
  locked = λ h. ground arith;
  other = λ h. ground arith;
  absent = λ other h. ground (arith, find_id-erase_id other id p.id_data_return h);
  empty = λ h. ground arith;
}

pub read_buffer-Keeps :
    (u thread id : ℕ) (process : Bool) (p : PendingResponces)
    → (thread == u) ≡ false
    → Keeps u p (read_buffer thread id process p).1
unfolding read_buffer
read_buffer-Keeps u thread id process p apart =
    elim (Bool-cases (is_current thread p.thread_waiting_transport)) [
      | inl inside ↦ rw inside (Keeps-refl u p)
      | inr outside ↦ rw outside (search-Keeps u thread id process p apart)
    ]

-- A search by the thread itself.
to_transport-Calm :
    (thread id : ℕ) (process : Bool) (p : PendingResponces)
    → is_current thread p.thread_waiting_transport ≡ false
    → find_id id p.id_data_return ≡ none
    → (process ≡ true → p.data_incoming_call ≡ [])
    → Calm thread id process (to_transport thread id p).1 (found_phase (to_transport thread id p).0)
to_transport-Calm thread id process p outside absent empty =
    elim (Bool-cases (is_locked p.thread_waiting_transport)) [
      | inl locked ↦ elim (Bool-cases (id == c_invalid_id)) [
        | inl nowait ↦ rw locked (rw nowait tt)
        | inr waits ↦ rw locked (rw waits (locked, outside, absent, empty))
      ]
      | inr free ↦ rw free tt
    ]

pub search-Calm :
    (thread id : ℕ) (process : Bool) (p : PendingResponces)
    → is_current thread p.thread_waiting_transport ≡ false
    → Calm thread id process
        (search thread id process p).1
        (found_phase (search thread id process p).0)
unfolding search
search-Calm thread id process p outside = find_case (find_id id p.id_data_return) refl process
  where
    calls_case :
        (calls : List CallDataBuffer)
        → p.data_incoming_call ≡ calls
        → find_id id p.id_data_return ≡ none
        → Calm thread id true
            (next_incoming_call thread id p calls).1
            (found_phase (next_incoming_call thread id p calls).0)
    calls_case [] e absent = to_transport-Calm thread id true p outside absent (λ _. e)
    calls_case (c ∷ calls) e absent = tt

    find_case :
        (o : Option CallDataBuffer)
        → find_id id p.id_data_return ≡ o
        → (b : Bool)
        → Calm thread id b
            (after_find thread id b p o).1
            (found_phase (after_find thread id b p o).0)
    find_case (some answer) e b = tt
    find_case none e true = calls_case p.data_incoming_call refl e
    find_case none e false = to_transport-Calm thread id false p outside e (λ z. cc)

pub read_buffer-Calm :
    (thread id : ℕ) (process : Bool) (p : PendingResponces)
    → Calm thread id process
        (read_buffer thread id process p).1
        (found_phase (read_buffer thread id process p).0)
unfolding read_buffer
read_buffer-Calm thread id process p =
    elim (Bool-cases (is_current thread p.thread_waiting_transport)) [
      | inl inside ↦ rw inside tt
      | inr outside ↦ rw outside (search-Calm thread id process p outside)
    ]
