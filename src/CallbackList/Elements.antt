-- ===== src/CallbackList/Elements.antt =====
-- The elements that a loop over blocks meets, where blocks come, go and lose their elements.
use ipc_portable.Common.{
  ℕ, true, false, Option, none, some, List, [], ◌∷◌, ◌++◌, ◌==◌, ◌≡◌, ◌≢◌, refl, sym, ap, ◌∙◌,
  update, has, erase, arith, inl, inr, Bool-cases, ==_iff,
}
use ipc_portable.CallbackList.{elements, put_found}

pub elements-append :
    (el : ℕ → Option ℕ) (b e : ℕ) (xs : List ℕ)
    → el b ≡ some e
    → elements el (xs ++ (b ∷ [])) ≡ elements el xs ++ (e ∷ [])
unfolding elements
elements-append el b e [] h = ap (λ o. put_found o []) h
elements-append el b e (x ∷ xs) h = ap (put_found (el x)) (elements-append el b e xs h) ∙ go (el x)
  where
    go :
        (o : Option ℕ)
        → put_found o (elements el xs ++ (e ∷ [])) ≡ put_found o (elements el xs) ++ (e ∷ [])
    go none = refl
    go (some y) = refl

pub elements-cons :
    (el : ℕ → Option ℕ) (b e : ℕ) (xs : List ℕ)
    → el b ≡ some e
    → elements el (b ∷ xs) ≡ e ∷ elements el xs
unfolding elements
elements-cons el b e xs h = ap (λ o. put_found o (elements el xs)) h

-- A block without an element is not seen.
pub elements-erase :
    (el : ℕ → Option ℕ) (b : ℕ) (xs : List ℕ)
    → el b ≡ none
    → elements el (erase b xs) ≡ elements el xs
unfolding elements erase
elements-erase el b [] h = refl
elements-erase el b (x ∷ xs) h = elim (Bool-cases (b == x)) [
  | inl same ↦
      let none_there : el x ≡ none = ap el (sym ((==_iff b x).0 same)) ∙ h in
      rw same (elements-erase el b xs h ∙ sym (ap (λ o. put_found o (elements el xs)) none_there))
  | inr differ ↦ rw differ (ap (put_found (el x)) (elements-erase el b xs h))
]

differ_from : (e y : ℕ) → some y ≢ some e → (e == y) ≡ false
differ_from e y k = elim (Bool-cases (e == y)) [
  | inl same ↦ absurd (k (ap some (sym ((==_iff e y).0 same))))
  | inr differ ↦ differ
]

pub elements-absent :
    (el : ℕ → Option ℕ) (e : ℕ) (xs : List ℕ)
    → ((i : ℕ) → el i ≢ some e)
    → has e (elements el xs) ≡ false
unfolding elements has
elements-absent el e [] h = refl
elements-absent el e (x ∷ xs) h = go (el x) (h x) (elements-absent el e xs h)
  where
    go :
        (o : Option ℕ)
        → o ≢ some e
        → has e (elements el xs) ≡ false
        → has e (put_found o (elements el xs)) ≡ false
    go none k later = later
    go (some y) k later = ground (arith, differ_from e y k, later)

-- Another block is given an element.
pub elements-update :
    (el : ℕ → Option ℕ) (b : ℕ) (o : Option ℕ) (xs : List ℕ)
    → has b xs ≡ false
    → elements (update b o el) xs ≡ elements el xs
unfolding elements has
elements-update el b o [] h = refl
elements-update el b o (x ∷ xs) h =
    let away : (b == x) ≡ false = ground (arith, h) in
    rw away (ap (put_found (el x)) (elements-update el b o xs (ground (arith, h))))

-- A block loses its element, which no other block has.
pub elements-detach :
    (el : ℕ → Option ℕ) (b e : ℕ) (xs : List ℕ)
    → el b ≡ some e
    → ((i : ℕ) → (b == i) ≡ false → el i ≢ some e)
    → elements (update b none el) xs ≡ erase e (elements el xs)
unfolding elements erase
elements-detach el b e [] h alone = refl
elements-detach el b e (x ∷ xs) h alone =
    let later = elements-detach el b e xs h alone in
    elim (Bool-cases (b == x)) [
      | inl same ↦
          let there : el x ≡ some e = ap el (sym ((==_iff b x).0 same)) ∙ h in
          let self : (e == e) ≡ true = ground arith in
          let met : erase e (e ∷ elements el xs) ≡ erase e (elements el xs) = rw self refl in
          rw same (later ∙ sym (ap (λ o. erase e (put_found o (elements el xs))) there ∙ met))
      | inr differ ↦ rw differ (ap (put_found (el x)) later ∙ go (el x) (alone x differ))
    ]
  where
    go :
        (o : Option ℕ)
        → o ≢ some e
        → put_found o (erase e (elements el xs)) ≡ erase e (put_found o (elements el xs))
    go none k = refl
    go (some y) k = let differ = differ_from e y k in rw differ refl
