-- ===== src/Common/Maps.antt =====
-- Maps from numbers as functions, and finite sets of numbers as lists.
use Prim.Native.Nat.{ℕ}
use mathlib.Core.Path.{◌≡◌}
use mathlib.Core.Bool.{Bool, false, not, ◌&&◌, ◌||◌}
use mathlib.Core.List.{List, [], ◌∷◌}
use native.Mathlib.Omega.{arith}
use ipc_portable.Common.Tests.{◌==◌, if◌then◌else◌}

abbrev pub update {ℓ} : {A : Type ℓ} → ℕ → A → (ℕ → A) → ℕ → A
update i a f j = if i == j then a else f j

unfoldable pub has : ℕ → List ℕ → Bool
has i [] = false
has i (j ∷ js) = (i == j) || has i js

unfoldable pub insert : ℕ → List ℕ → List ℕ
unfolding has
insert i js = if has i js then js else i ∷ js

unfoldable pub erase : ℕ → List ℕ → List ℕ
erase i [] = []
erase i (j ∷ js) = if i == j then erase i js else j ∷ erase i js

unfoldable pub erase_one : ℕ → List ℕ → List ℕ
erase_one a [] = []
erase_one a (b ∷ bs) = let rest = erase_one a bs in if a == b then bs else b ∷ rest

pub has-insert : (i k : ℕ) (js : List ℕ) → has i (insert k js) ≡ ((i == k) || has i js)
unfolding insert
has-insert i k js = ground arith

pub has-erase : (i k : ℕ) (js : List ℕ) → has i (erase k js) ≡ (not (i == k) && has i js)
unfolding has erase
has-erase i k [] = ground arith
has-erase i k (j ∷ js) = ground (arith, has-erase i k js)
