-- ===== src/CallbackList/Paths.antt =====
-- Blocks that follow each other in both directions, and what single assignments make of them.
use ipc_portable.Common.{
  ◌++◌, ℕ, true, false, List, [], ◌∷◌, ◌==◌, ◌≡◌, ap, ◌∙◌, update, has, arith, inl, inr, Bool-cases,
  ==_iff,
}

-- From `a` over `xs` to `z`.
abbrev pub IsWay : (ℕ → ℕ) → (ℕ → ℕ) → ℕ → List ℕ → ℕ → Type 0
IsWay next prev a [] z = (next a ≡ z) × (prev z ≡ a)
IsWay next prev a (x ∷ xs) z = (next a ≡ x) × (prev x ≡ a) × IsWay next prev x xs z

abbrev pub IsDistinct : List ℕ → Type 0
IsDistinct [] = Unit
IsDistinct (x ∷ xs) = (has x xs ≡ false) × IsDistinct xs

abbrev pub first : List ℕ → ℕ → ℕ
first [] z = z
first (x ∷ xs) z = x

abbrev pub last : ℕ → List ℕ → ℕ
last a [] = a
last a (x ∷ xs) = last x xs

pub IsWay-same :
    (n p n' p' : ℕ → ℕ) (a z : ℕ) (xs : List ℕ)
    → ((i : ℕ) → has i (a ∷ xs) ≡ true → n' i ≡ n i)
    → ((i : ℕ) → has i (z ∷ xs) ≡ true → p' i ≡ p i)
    → IsWay n p a xs z
    → IsWay n' p' a xs z
unfolding has
IsWay-same n p n' p' a z [] hn hp (e, k) = (hn a (ground arith) ∙ e, hp z (ground arith) ∙ k)
IsWay-same n p n' p' a z (x ∷ xs) hn hp (e, k, rest) = (
  hn a (ground arith) ∙ e,
  hp x (ground arith) ∙ k,
  IsWay-same n p n' p' x z xs (λ i h. hn i (ground (arith, h))) (λ i h. hp i (ground (arith, h)))
      rest,
)

pub last-has : (a : ℕ) (xs : List ℕ) → has (last a xs) (a ∷ xs) ≡ true
unfolding has
last-has a [] = ground arith
last-has a (x ∷ xs) = ground (arith, last-has x xs)

pub IsWay-first : (n p : ℕ → ℕ) (a z : ℕ) (xs : List ℕ) → IsWay n p a xs z → n a ≡ first xs z
IsWay-first n p a z [] (e, k) = e
IsWay-first n p a z (x ∷ xs) (e, k, rest) = e

pub IsWay-last : (n p : ℕ → ℕ) (a z : ℕ) (xs : List ℕ) → IsWay n p a xs z → p z ≡ last a xs
IsWay-last n p a z [] (e, k) = k
IsWay-last n p a z (x ∷ xs) (e, k, rest) = IsWay-last n p x z xs rest

pub first-has : (z : ℕ) (xs : List ℕ) → has (first xs z) (z ∷ xs) ≡ true
unfolding has
first-has z [] = ground arith
first-has z (x ∷ xs) = ground arith

-- The neighbours of a block on the way.
pub IsWay-prev :
    (n p : ℕ → ℕ) (a z b : ℕ) (xs : List ℕ)
    → IsWay n p a xs z
    → has b xs ≡ true
    → has (p b) (a ∷ xs) ≡ true
unfolding has
IsWay-prev n p a z b [] path h = cc
IsWay-prev n p a z b (x ∷ xs) (e, k, rest) h = elim (Bool-cases (b == x)) [
  | inl same ↦ ground (arith, k, ap p ((==_iff b x).0 same))
  | inr differ ↦ ground (arith, IsWay-prev n p x z b xs rest, h, differ)
]

pub IsWay-next :
    (n p : ℕ → ℕ) (a z b : ℕ) (xs : List ℕ)
    → IsWay n p a xs z
    → has b xs ≡ true
    → has (n b) (z ∷ xs) ≡ true
unfolding has
IsWay-next n p a z b [] path h = cc
IsWay-next n p a z b (x ∷ xs) (e, k, rest) h = elim (Bool-cases (b == x)) [
  | inl same ↦
      ground (arith, ap n ((==_iff b x).0 same), IsWay-first n p x z xs rest, first-has z xs)
  | inr differ ↦ ground (arith, IsWay-next n p x z b xs rest, h, differ)
]

-- What is in a list is not what is not.
pub apart : (i j : ℕ) (xs : List ℕ) → has i xs ≡ true → has j xs ≡ false → (i == j) ≡ false
apart i j xs h k = elim (Bool-cases (i == j)) [
  | inl same ↦ ground (arith, h, k, ap (λ l. has l xs) ((==_iff i j).0 same))
  | inr differ ↦ differ
]

pub kept_after :
    (i a b c : ℕ) (f : ℕ → ℕ)
    → (i == a) ≡ false
    → (i == b) ≡ false
    → update a b (update b c f) i ≡ f i
kept_after i a b c f h k = ground (arith, h, k)

pub kept : (i a c : ℕ) (f : ℕ → ℕ) → (i == a) ≡ false → update a c f i ≡ f i
kept i a c f h = ground (arith, h)

-- What is behind a block of a way.
pub IsWay-behind :
    (n p : ℕ → ℕ) (a z b : ℕ) (done rest : List ℕ)
    → IsWay n p a (done ++ (b ∷ rest)) z
    → IsWay n p b rest z
IsWay-behind n p a z b [] rest (_, _, path) = path
IsWay-behind n p a z b (x ∷ done) rest (_, _, path) = IsWay-behind n p x z b done rest path
