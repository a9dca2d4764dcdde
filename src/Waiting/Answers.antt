-- ===== src/Waiting/Answers.antt =====
-- The map of answers in `PendingResponces`: `find`, `erase` and `insert` on distinct ids.
use mathlib.Core.Path.{subst}
use ipc_portable.Common.{
  ℕ, true, false, Option, none, some, List, [], ◌∷◌, ◌==◌, ◌≡◌, refl, sym, ap, ◌∙◌, if◌then◌else◌,
  arith, All, inl, inr, Bool-cases, ==_iff,
}
use ipc_portable.Call.Receiving.{CallDataBuffer}
use ipc_portable.Calling.{has_id, find_id, erase_id, insert_id}
use ipc_portable.Waiting.{is_new_return}

abbrev pub or_else : Option CallDataBuffer → CallDataBuffer → Option CallDataBuffer
or_else none b = some b
or_else (some a) b = some a

abbrev pub IsKept : ℕ × CallDataBuffer → Type 0
IsKept (id, b) = (is_new_return b ≡ true) × (b.header.id ≡ id)

abbrev pub IsDistinct : List (ℕ × CallDataBuffer) → Type 0
IsDistinct [] = Unit
IsDistinct ((id, b) ∷ rest) = (has_id id rest ≡ false) × IsDistinct rest

has_id-find_id :
    (id : ℕ) (xs : List (ℕ × CallDataBuffer)) → has_id id xs ≡ false → find_id id xs ≡ none
unfolding has_id find_id
has_id-find_id id [] h = refl
has_id-find_id id ((k, b) ∷ rest) h = ground (arith, has_id-find_id id rest)

has_id-erase_id :
    (id other : ℕ) (xs : List (ℕ × CallDataBuffer))
    → has_id id xs ≡ false
    → has_id id (erase_id other xs) ≡ false
unfolding has_id erase_id
has_id-erase_id id other [] h = refl
has_id-erase_id id other ((k, b) ∷ rest) h = ground (arith, has_id-erase_id id other rest)

pub erase_id-IsDistinct :
    (id : ℕ) (xs : List (ℕ × CallDataBuffer)) → IsDistinct xs → IsDistinct (erase_id id xs)
unfolding erase_id
erase_id-IsDistinct id [] d = tt
erase_id-IsDistinct id ((k, b) ∷ rest) (d, ds) = elim (Bool-cases (k == id)) [
  | inl same ↦ rw same ds
  | inr differ ↦ rw differ (has_id-erase_id k id rest d, erase_id-IsDistinct id rest ds)
]

pub erase_id-IsKept :
    (id : ℕ) (xs : List (ℕ × CallDataBuffer)) → All IsKept xs → All IsKept (erase_id id xs)
unfolding erase_id
erase_id-IsKept id [] d = tt
erase_id-IsKept id ((k, b) ∷ rest) (d, ds) = elim (Bool-cases (k == id)) [
  | inl same ↦ rw same ds
  | inr differ ↦ rw differ (d, erase_id-IsKept id rest ds)
]

pub find_id-erase_id :
    (id other : ℕ) (xs : List (ℕ × CallDataBuffer))
    → IsDistinct xs
    → find_id id (erase_id other xs) ≡ (if other == id then none else find_id id xs)
unfolding find_id erase_id
find_id-erase_id id other [] d = ground arith
find_id-erase_id id other ((k, b) ∷ rest) (d, ds) = elim (Bool-cases (k == other)) [
  | inl same ↦
      let e : k ≡ other = (==_iff k other).0 same in
      let gone : find_id k rest ≡ none = has_id-find_id k rest d in
      rw same (elim (Bool-cases (other == id)) [
        | inl here' ↦
            let e' : k ≡ id = e ∙ (==_iff other id).0 here' in
            rw here' (subst (λ j. find_id j rest ≡ none) e' gone)
        | inr away ↦ ground (arith, away)
      ])
  | inr differ ↦ ground (arith, differ, find_id-erase_id id other rest ds)
]

has_id-some :
    (id : ℕ) (xs : List (ℕ × CallDataBuffer))
    → has_id id xs ≡ true
    → (a : CallDataBuffer) × (find_id id xs ≡ some a)
unfolding has_id find_id
has_id-some id [] h = cc
has_id-some id ((k, b) ∷ rest) h = elim (Bool-cases (k == id)) [
  | inl same ↦ (b, rw same refl)
  | inr differ ↦ let (a, e) = has_id-some id rest (ground (arith, differ)) in (a, rw differ e)
]

pub find_id-insert_id :
    (id k : ℕ) (b : CallDataBuffer) (xs : List (ℕ × CallDataBuffer))
    → find_id id (insert_id k b xs) ≡ (if k == id then or_else (find_id id xs) b else find_id id xs)
unfolding find_id insert_id
find_id-insert_id id k b xs = elim (Bool-cases (has_id k xs)) [
  | inl there ↦
      let (a, e) = has_id-some k xs there in
      elim (Bool-cases (k == id)) [
        | inl same ↦
            let e' : find_id id xs ≡ some a =
              subst (λ j. find_id j xs ≡ some a) ((==_iff k id).0 same) e in
            ground (arith, there, same, e')
        | inr differ ↦ ground (arith, there, differ)
      ]
  | inr absent ↦ elim (Bool-cases (k == id)) [
    | inl same ↦
        let e' : find_id id xs ≡ none =
          subst (λ j. find_id j xs ≡ none) ((==_iff k id).0 same) (has_id-find_id k xs absent) in
        ground (arith, absent, same, e')
    | inr differ ↦ ground (arith, absent, differ)
  ]
]

pub find_id-IsKept :
    (id : ℕ) (xs : List (ℕ × CallDataBuffer)) {b : CallDataBuffer}
    → All IsKept xs
    → find_id id xs ≡ some b
    → (is_new_return b ≡ true) × (b.header.id ≡ id)
unfolding find_id
find_id-IsKept id [] h e = cc
find_id-IsKept id ((k, c) ∷ rest) {b} ((new, own), hs) e = elim (Bool-cases (k == id)) [
  | inl same ↦
      let one : c ≡ b = ground (arith, e, same) in
      let e' : k ≡ id = (==_iff k id).0 same in
      (
        subst (λ x. is_new_return x ≡ true) one new,
        ap (λ (x : CallDataBuffer). x.header.id) (sym one) ∙ own ∙ e',
      )
  | inr differ ↦ find_id-IsKept id rest {b = b} hs (ground (arith, differ, e))
]

pub insert_id-IsKept :
    (b : CallDataBuffer) (xs : List (ℕ × CallDataBuffer))
    → is_new_return b ≡ true
    → All IsKept xs
    → All IsKept (insert_id b.header.id b xs)
unfolding insert_id
insert_id-IsKept b xs new all = elim (Bool-cases (has_id b.header.id xs)) [
  | inl there ↦ rw there all
  | inr absent ↦ rw absent ((new, refl), all)
]

pub insert_id-IsDistinct :
    (b : CallDataBuffer) (xs : List (ℕ × CallDataBuffer))
    → IsDistinct xs
    → IsDistinct (insert_id b.header.id b xs)
unfolding insert_id
insert_id-IsDistinct b xs d = elim (Bool-cases (has_id b.header.id xs)) [
  | inl there ↦ rw there d
  | inr absent ↦ rw absent (absent, d)
]
