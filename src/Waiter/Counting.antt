-- ===== src/Waiter/Counting.antt =====
-- How often an object stands in the filter, and how often the checks of events name it.
use mathlib.Core.Path.{subst}
use ipc_portable.Common.{
  erase_one, ℕ, zero, suc, ◌+◌, ◌-◌, ◌≤◌, ◌<◌, true, some, List, [], ◌∷◌, ◌++◌, ◌==◌, ◌≡◌, refl, ap,
  if◌then◌else◌, get_elem?, set, All, has, arith, inl, inr, Bool-cases,
}
use ipc_portable.Waiter.{World, get_filter_id, erase_ids}

unfoldable pub count : ℕ → List ℕ → ℕ
count a [] = 0
count a (b ∷ bs) = (if a == b then 1 else 0) + count a bs

-- The checks of one event that have the filter id `a`, and those of all events.
unfoldable pub count_checks : ℕ → World → List ℕ → ℕ
count_checks a w [] = 0
count_checks a w (ref ∷ refs) = (if a == get_filter_id w ref then 1 else 0) + count_checks a w refs

unfoldable pub count_all : ℕ → World → List (List ℕ) → ℕ
count_all a w [] = 0
count_all a w (refs ∷ events) = count_checks a w refs + count_all a w events

abbrev pub IsBelow : ℕ → List ℕ → Type 0
IsBelow n = All (λ ref. ref < n)

pub count-erase_one :
    (a b : ℕ) (xs : List ℕ) → count a (erase_one b xs) ≡ count a xs - (if a == b then 1 else 0)
unfolding count erase_one
count-erase_one a b [] = ground arith
count-erase_one a b (x ∷ xs) = ground (arith, count-erase_one a b xs)

pub count-erase_ids :
    (a : ℕ) (refs : List ℕ) (w : World) (xs : List ℕ)
    → count a (erase_ids refs w xs) ≡ count a xs - count_checks a w refs
unfolding erase_ids count_checks
count-erase_ids a [] w xs = omega arith
count-erase_ids a (ref ∷ refs) w xs = omega (
  arith,
  count-erase_ids a refs w (erase_one (get_filter_id w ref) xs),
  count-erase_one a (get_filter_id w ref) xs,
)

pub count-has : (a : ℕ) (xs : List ℕ) → 0 < count a xs → has a xs ≡ true
unfolding count has
count-has a [] h = absurd (omega (arith, h))
count-has a (x ∷ xs) h = ground (arith, count-has a xs, h)

pub has-count : (a : ℕ) (xs : List ℕ) → has a xs ≡ true → 0 < count a xs
unfolding count has
has-count a [] h = cc
has-count a (x ∷ xs) h = ground (arith, has-count a xs, h)

pub count_checks-append :
    (a : ℕ) (w : World) (xs ys : List ℕ)
    → count_checks a w (xs ++ ys) ≡ count_checks a w xs + count_checks a w ys
unfolding count_checks
count_checks-append a w [] ys = omega arith
count_checks-append a w (x ∷ xs) ys = omega (arith, count_checks-append a w xs ys)

pub count_all-append :
    (a : ℕ) (w : World) (xs ys : List (List ℕ))
    → count_all a w (xs ++ ys) ≡ count_all a w xs + count_all a w ys
unfolding count_all
count_all-append a w [] ys = omega arith
count_all-append a w (x ∷ xs) ys = omega (arith, count_all-append a w xs ys)

pub count_all-set :
    (a : ℕ) (w : World) (events : List (List ℕ)) (i : ℕ) (old new : List ℕ)
    → get_elem? events i ≡ some old
    → count_all a w (set events i new) + count_checks a w old
      ≡ count_all a w events + count_checks a w new
unfolding count_all
count_all-set a w [] i old new e = cc
count_all-set a w (x ∷ xs) zero old new e =
    let same : x ≡ old = ground (arith, e) in omega (arith, ap (count_checks a w) same)
count_all-set a w (x ∷ xs) (suc i) old new e = omega (arith, count_all-set a w xs i old new e)

pub count_checks-le :
    (a : ℕ) (w : World) (events : List (List ℕ)) (i : ℕ) (old : List ℕ)
    → get_elem? events i ≡ some old
    → count_checks a w old ≤ count_all a w events
unfolding count_all
count_checks-le a w [] i old e = cc
count_checks-le a w (x ∷ xs) zero old e =
    let same : x ≡ old = ground (arith, e) in omega (arith, ap (count_checks a w) same)
count_checks-le a w (x ∷ xs) (suc i) old e = omega (arith, count_checks-le a w xs i old e)

pub count_checks-member :
    (w : World) (ref : ℕ) (refs : List ℕ)
    → has ref refs ≡ true
    → 0 < count_checks (get_filter_id w ref) w refs
unfolding count_checks has
count_checks-member w ref [] h = cc
count_checks-member w ref (x ∷ xs) h = elim (Bool-cases (ref == x)) [
  | inl same ↦
      let one : ref ≡ x = ground (arith, same) in
      let self : (get_filter_id w ref == get_filter_id w x) ≡ true =
        ground (arith, ap (get_filter_id w) one) in
      rw self (omega arith)
  | inr differ ↦ omega (arith, count_checks-member w ref xs (ground (arith, h, differ)))
]

-- Another state in which the checks up to a bound have the ids that they had.
module _ (n : ℕ) (w v : World)
    (same : (ref : ℕ) → ref < n → get_filter_id v ref ≡ get_filter_id w ref) where
  pub count_checks-same :
      (a : ℕ) (refs : List ℕ) → IsBelow n refs → count_checks a v refs ≡ count_checks a w refs
  unfolding count_checks
  count_checks-same a [] h = refl
  count_checks-same a (ref ∷ refs) (first, others) =
      let e = same ref first in rw e (omega (arith, count_checks-same a refs others))

  pub count_all-same :
      (a : ℕ) (events : List (List ℕ))
      → All (IsBelow n) events
      → count_all a v events ≡ count_all a w events
  unfolding count_all
  count_all-same a [] h = refl
  count_all-same a (refs ∷ events) (first, others) =
      omega (arith, count_checks-same a refs first, count_all-same a events others)

pub All-get_elem? {ℓ κ} :
    {A : Type ℓ} (P : A → Type κ) (xs : List A) (i : ℕ) {x : A}
    → All P xs
    → get_elem? xs i ≡ some x
    → P x
All-get_elem? P [] i h e = cc
All-get_elem? P (y ∷ ys) zero {x} (first, others) e =
    let same : y ≡ x = ground (arith, e) in subst P same first
All-get_elem? P (y ∷ ys) (suc i) {x} (first, others) e = All-get_elem? P ys i {x = x} others e

pub All-set {ℓ κ} :
    {A : Type ℓ} (P : A → Type κ) (xs : List A) (i : ℕ) (x : A)
    → All P xs
    → P x
    → All P (set xs i x)
All-set P [] i x h k = h
All-set P (y ∷ ys) zero x (first, others) k = (k, others)
All-set P (y ∷ ys) (suc i) x (first, others) k = (first, All-set P ys i x others k)

pub All-append {ℓ κ} :
    {A : Type ℓ} (P : A → Type κ) (xs ys : List A) → All P xs → All P ys → All P (xs ++ ys)
All-append P [] ys h k = k
All-append P (x ∷ xs) ys (first, others) k = (first, All-append P xs ys others k)

pub All-weaken {ℓ κ} :
    {A : Type ℓ} (P Q : A → Type κ) (xs : List A) → ((x : A) → P x → Q x) → All P xs → All Q xs
All-weaken P Q [] f h = h
All-weaken P Q (x ∷ xs) f (first, others) = (f x first, All-weaken P Q xs f others)

pub get_elem?-set_self {ℓ} :
    {A : Type ℓ} (xs : List A) (i : ℕ) (old new : A)
    → get_elem? xs i ≡ some old
    → get_elem? (set xs i new) i ≡ some new
get_elem?-set_self [] i old new e = cc
get_elem?-set_self (x ∷ xs) zero old new e = refl
get_elem?-set_self (x ∷ xs) (suc i) old new e = get_elem?-set_self xs i old new e
