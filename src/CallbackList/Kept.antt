-- ===== src/CallbackList/Kept.antt =====
-- Elements without a tag, and the blocks around the one where a loop is.
use ipc_portable.Common.{
  ℕ, Bool, true, false, Option, none, some, List, [], ◌∷◌, ◌++◌, ◌==◌, ◌≡◌, refl, sym, ap, ◌∙◌,
  if◌then◌else◌, has, erase, arith, inl, inr, Bool-cases, ==_iff,
}
use ipc_portable.CallbackList.{elements, put_found}
use ipc_portable.CallbackList.Paths.{IsWay, IsDistinct, first, IsWay-first}
use ipc_portable.CallbackList.Assigning.{erase-absent}
use ipc_portable.CallbackList.Ring.{has-append}

-- The elements without the tag.
unfoldable pub keep : (ℕ → Bool) → List ℕ → List ℕ
keep has_tag [] = []
keep has_tag (e ∷ es) = if has_tag e then keep has_tag es else e ∷ keep has_tag es

pub keep-erase :
    (has_tag : ℕ → Bool) (e : ℕ) (es : List ℕ)
    → has_tag e ≡ true
    → keep has_tag (erase e es) ≡ keep has_tag es
unfolding keep erase
keep-erase has_tag e [] h = refl
keep-erase has_tag e (x ∷ es) h = elim (Bool-cases (e == x)) [
  | inl same ↦
      let tagged : has_tag x ≡ true = ap has_tag (sym ((==_iff e x).0 same)) ∙ h in
      rw same (rw tagged (keep-erase has_tag e es h))
  | inr differ ↦ rw differ (elim (Bool-cases (has_tag x)) [
    | inl tagged ↦ rw tagged (keep-erase has_tag e es h)
    | inr bare ↦ rw bare (ap (λ ys. x ∷ ys) (keep-erase has_tag e es h))
  ])
]

pub IsWay-middle :
    (n p : ℕ → ℕ) (a z b : ℕ) (done rest : List ℕ)
    → IsWay n p a (done ++ (b ∷ rest)) z
    → n b ≡ first rest z
IsWay-middle n p a z b [] rest (e, k, path) = IsWay-first n p b z rest path
IsWay-middle n p a z b (x ∷ done) rest (e, k, path) = IsWay-middle n p x z b done rest path

pub erase-middle :
    (b : ℕ) (done rest : List ℕ)
    → IsDistinct (done ++ (b ∷ rest))
    → erase b (done ++ (b ∷ rest)) ≡ done ++ rest
unfolding erase has
erase-middle b [] rest (unlike, d) =
    let self : (b == b) ≡ true = ground arith in rw self (erase-absent b rest unlike)
erase-middle b (x ∷ done) rest (unlike, d) =
    let away : (b == x) ≡ false = ground (arith, has-append x done (b ∷ rest), unlike) in
    rw away (ap (λ ys. x ∷ ys) (erase-middle b done rest d))

pub keep-append :
    (has_tag : ℕ → Bool) (xs ys : List ℕ)
    → keep has_tag (xs ++ ys) ≡ keep has_tag xs ++ keep has_tag ys
unfolding keep
keep-append has_tag [] ys = refl
keep-append has_tag (x ∷ xs) ys = elim (Bool-cases (has_tag x)) [
  | inl tagged ↦ rw tagged (keep-append has_tag xs ys)
  | inr bare ↦ rw bare (ap (λ zs. x ∷ zs) (keep-append has_tag xs ys))
]

pub elements-after :
    (el : ℕ → Option ℕ) (b : ℕ) (xs : List ℕ)
    → elements el (xs ++ (b ∷ [])) ≡ elements el xs ++ put_found (el b) []
unfolding elements
elements-after el b [] = refl
elements-after el b (x ∷ xs) = ap (put_found (el x)) (elements-after el b xs) ∙ go (el x)
  where
    go :
        (o : Option ℕ)
        → put_found o (elements el xs ++ put_found (el b) [])
          ≡ put_found o (elements el xs) ++ put_found (el b) []
    go none = refl
    go (some y) = refl

pub IsDistinct-middle :
    (b : ℕ) (done rest : List ℕ) → IsDistinct (done ++ (b ∷ rest)) → has b done ≡ false
unfolding has
IsDistinct-middle b [] rest d = refl
IsDistinct-middle b (x ∷ done) rest (unlike, d) =
    ground (arith, has-append x done (b ∷ rest), unlike, IsDistinct-middle b done rest d)

pub IsDistinct-next :
    (b c : ℕ) (done rest : List ℕ) → IsDistinct (done ++ (b ∷ c ∷ rest)) → (b == c) ≡ false
unfolding has
IsDistinct-next b c [] rest (unlike, d) = ground (arith, unlike)
IsDistinct-next b c (x ∷ done) rest (unlike, d) = IsDistinct-next b c done rest d
