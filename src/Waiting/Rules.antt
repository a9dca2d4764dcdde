-- ===== src/Waiting/Rules.antt =====
-- How a property of each thread's calls is carried over the moves of `ProcessTransportResponse`.
use mathlib.Core.Path.{subst}
use ipc_portable.Common.{
  ℕ, false, Option, none, some, List, [], ◌∷◌, ◌==◌, ◌≡◌, inl, inr, Bool-cases, ==_iff,
}
use ipc_portable.Calling.{PendingResponces}
use ipc_portable.Waiting.Threads.{Frame, System, Event, Move, move, update, Reach, here, next}

-- What holds of the outcome of a move, if it can be made.
abbrev pub After : (Event → System → Type 0) → Option (Event × System) → Type 0
After P none = Unit
After P (some (event, s)) = P event s

pub Reach-induction :
    (P : List Event → System → Type 0) (start : System)
    → P [] start
    → ((events : List Event) (s : System) (thread : ℕ) (m : Move)
        → P events s
        → After (λ event. P (event ∷ events)) (move thread m s))
    → {events : List Event} {s : System} → Reach start events s
    → P events s
Reach-induction P start base step here = base
Reach-induction P start base step (next {events} {s} {t} {event} r thread m e) =
    subst (After (λ event. P (event ∷ events))) e
      (step events s thread m (Reach-induction P start base step r))

-- A property of a thread's calls and of what all threads share.
abbrev pub Property : Type 1
Property = ℕ → List Frame → PendingResponces → Type 0

abbrev pub Everywhere : Property → System → Type 0
Everywhere P s = (thread : ℕ) → P thread (s.frames thread) s.pending

-- One thread's calls change.
pub update_all :
    (P : Property) (frames : ℕ → List Frame) (p p' : PendingResponces) (thread : ℕ)
    (new : List Frame)
    → ((u : ℕ) → P u (frames u) p)
    → P thread new p'
    → ((u : ℕ) → (thread == u) ≡ false → P u (frames u) p → P u (frames u) p')
    → (u : ℕ) → P u (update thread new frames u) p'
update_all P frames p p' thread new all here' others u = elim (Bool-cases (thread == u)) [
  | inl same ↦
      let e : thread ≡ u = (==_iff thread u).0 same in rw same (subst (λ v. P v new p') e here')
  | inr differ ↦ rw differ (others u differ (all u))
]
