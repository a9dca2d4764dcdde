-- ===== src/CallbackList/Assigning.antt =====
-- Blocks put on a way and taken out of it.
use mathlib.Core.Path.{subst}
use ipc_portable.Common.{
  ℕ, true, false, List, [], ◌∷◌, ◌++◌, ◌==◌, ◌≡◌, refl, sym, update, has, erase, has-erase, arith,
  inl, inr, Bool-cases, ==_iff,
}
use ipc_portable.CallbackList.Paths.{
  IsWay, IsDistinct, first, last, IsWay-same, last-has, IsWay-first, first-has, IsWay-prev,
  IsWay-next, apart, kept_after, kept,
}

-- A block put behind `a`, and one put in front of `z`.
pub IsWay-after :
    (n p : ℕ → ℕ) (a z b : ℕ) (xs : List ℕ)
    → IsWay n p a xs z
    → has b (a ∷ z ∷ xs) ≡ false
    → has a xs ≡ false
    → has z xs ≡ false
    → IsDistinct xs
    → IsWay
        (update a b (update b (first xs z) n))
        (update (first xs z) b (update b a p))
        a
        (b ∷ xs)
        z
unfolding has
IsWay-after n p a z b [] (e, k) new alone end distinct =
    (ground (arith, new), ground (arith, new), (ground (arith, new), ground (arith, new)))
IsWay-after n p a z b (x ∷ xs) (e, k, rest) new alone end (unlike, distinct) = (
  ground (arith, new),
  ground (arith, new),
  (
    ground (arith, new),
    ground (arith, new),
    IsWay-same n p (update a b (update b x n)) (update x b (update b a p)) x z xs
        (λ i h.
          kept_after i a b x n (apart i a (x ∷ xs) h alone)
            (apart i b (x ∷ xs) h (ground (arith, new))))
        (λ i h.
          kept_after i x b a p (apart i x (z ∷ xs) h (ground (arith, unlike, end)))
            (apart i b (z ∷ xs) h (ground (arith, new))))
        rest,
  ),
)

pub IsWay-before :
    (n p : ℕ → ℕ) (a z b : ℕ) (xs : List ℕ)
    → IsWay n p a xs z
    → has b (a ∷ z ∷ xs) ≡ false
    → has a xs ≡ false
    → has z xs ≡ false
    → IsDistinct xs
    → IsWay
        (update (last a xs) b (update b z n))
        (update z b (update b (last a xs) p))
        a
        (xs ++ (b ∷ []))
        z
unfolding has
IsWay-before n p a z b [] (e, k) new alone end distinct =
    (ground (arith, new), ground (arith, new), (ground (arith, new), ground (arith, new)))
IsWay-before n p a z b (x ∷ xs) (e, k, rest) new alone end (unlike, distinct) = (
  ground (arith, new, alone, last-has x xs, e, apart (last x xs) a (x ∷ xs) (last-has x xs) alone),
  ground (
    arith,
    new,
    end,
    k,
    apart (last x xs) b (x ∷ xs) (last-has x xs) (ground (arith, new)),
    unlike,
  ),
  IsWay-before n p x z b xs rest (ground (arith, new)) unlike (ground (arith, end)) distinct,
)

-- A block taken out.
pub erase-absent : (b : ℕ) (xs : List ℕ) → has b xs ≡ false → erase b xs ≡ xs
unfolding has erase
erase-absent b [] h = refl
erase-absent b (x ∷ xs) h = ground (arith, erase-absent b xs, h)

IsWay-drop :
    (n p : ℕ → ℕ) (a z x : ℕ) (xs : List ℕ)
    → IsWay n p a (x ∷ xs) z
    → has a (x ∷ xs) ≡ false
    → has z (x ∷ xs) ≡ false
    → IsDistinct (x ∷ xs)
    → IsWay (update (p x) (n x) n) (update (n x) (p x) p) a xs z
unfolding has
IsWay-drop n p a z x [] (e, k, (e', k')) alone end distinct =
    (ground (arith, e', k), ground (arith, e', k))
IsWay-drop n p a z x (y ∷ ys) (e, k, (e', k', rest)) alone end (unlike, (unlike', distinct)) = (
  ground (arith, e', k),
  ground (arith, e', k),
  IsWay-same n p (update (p x) (n x) n) (update (n x) (p x) p) y z ys
      (λ i h.
        kept i (p x) (n x) n (ground (arith, k, apart i a (y ∷ ys) h (ground (arith, alone)))))
      (λ i h.
        kept i (n x) (p x) p
          (ground (arith, e', apart i y (z ∷ ys) h (ground (arith, unlike', end)))))
      rest,
)

pub IsWay-without :
    (n p : ℕ → ℕ) (a z b : ℕ) (xs : List ℕ)
    → IsWay n p a xs z
    → has b xs ≡ true
    → has a xs ≡ false
    → has z xs ≡ false
    → IsDistinct xs
    → IsWay (update (p b) (n b) n) (update (n b) (p b) p) a (erase b xs) z
unfolding has erase
IsWay-without n p a z b [] path h alone end distinct = cc
IsWay-without n p a z b (x ∷ xs) (e, k, rest) h alone end (unlike, distinct) =
    elim (Bool-cases (b == x)) [
      | inl same ↦ rw same (
          subst (λ i. IsWay (update (p i) (n i) n) (update (n i) (p i) p) a (erase i xs) z)
            (sym ((==_iff b x).0 same))
            (subst (λ ys. IsWay (update (p x) (n x) n) (update (n x) (p x) p) a ys z)
              (sym (erase-absent x xs unlike))
              (IsWay-drop n p a z x xs (e, k, rest) alone end (unlike, distinct))))
      | inr differ ↦
          let later : has b xs ≡ true = ground (arith, h, differ) in
          rw differ (
            ground (arith, e, apart (p b) a (x ∷ xs) (IsWay-prev n p x z b xs rest later) alone),
            ground (
              arith,
              k,
              apart (n b) x (z ∷ xs) (IsWay-next n p x z b xs rest later)
                  (ground (arith, unlike, end)),
            ),
            IsWay-without n p x z b xs rest later unlike (ground (arith, end)) distinct,
          )
    ]

pub IsWay-moves :
    (n p : ℕ → ℕ) (a z b : ℕ) (xs : List ℕ)
    → IsWay n p a xs z
    → has b xs ≡ true
    → has z xs ≡ false
    → IsDistinct xs
    → (n b == b) ≡ false
unfolding has
IsWay-moves n p a z b [] path h end distinct = cc
IsWay-moves n p a z b (x ∷ xs) (e, k, rest) h end (unlike, distinct) = elim (Bool-cases (b == x)) [
  | inl same ↦
      let one : b ≡ x = (==_iff b x).0 same in
      subst (λ i. (n i == i) ≡ false) (sym one)
        (ground (
          arith,
          IsWay-first n p x z xs rest,
          apart (first xs z) x (z ∷ xs) (first-has z xs) (ground (arith, unlike, end)),
        ))
  | inr differ ↦
      IsWay-moves n p x z b xs rest (ground (arith, h, differ)) (ground (arith, end)) distinct
]

pub IsDistinct-erase : (b : ℕ) (xs : List ℕ) → IsDistinct xs → IsDistinct (erase b xs)
unfolding erase
IsDistinct-erase b [] d = tt
IsDistinct-erase b (x ∷ xs) (unlike, d) = elim (Bool-cases (b == x)) [
  | inl same ↦ rw same (IsDistinct-erase b xs d)
  | inr differ ↦ rw differ (ground (arith, has-erase x b xs, unlike), IsDistinct-erase b xs d)
]
