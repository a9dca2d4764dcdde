-- ===== src/Common/Chains.antt =====
-- State passing with faults: `none` is undefined behaviour of the C++ code (an access outside a
-- buffer, a null dereference), which ends the run.
use mathlib.Core.Path.{◌≡◌}
use mathlib.Core.Option.{Option, none, some}

abbrev pub Action : Type 0 → Type 0 → Type 0
Action S A = S → Option (A × S)

module _ {S : Type 0} where
  abbrev pub pure : {A : Type 0} → A → Action S A
  pure a s = some (a, s)

  infixl 5 ◌>>=◌ ◌>>◌
  abbrev pub ◌>>=◌ : {A B : Type 0} → Action S A → (A → Action S B) → Action S B
  ◌>>=◌ m f s = elim (m s) [ none ↦ none | some (a, s') ↦ f a s' ]

  abbrev pub ◌>>◌ : {A B : Type 0} → Action S A → Action S B → Action S B
  m >> k = m >>= λ _. k

  -- A step whose run is known hands its value and state to the rest.
  pub bind_step :
      {A B : Type 0} (m : Action S A) (f : A → Action S B) (s : S) {a : A} {s' : S}
      → m s ≡ some (a, s')
      → (m >>= f) s ≡ f a s'
  bind_step m f s e = rw (e, ◌>>=◌)
