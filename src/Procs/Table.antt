-- ===== src/Procs/Table.antt =====
-- `std::map<SignatureKey, …>` as the list of its entries in ascending order, searched with the
-- order of keys as `std::map` searches, from the front in place of down a tree. A comparison that
-- cannot read a key is a fault, also where the tree would not make that comparison.
use ipc_portable.Common.{
  ℕ, ◌≡◌, refl, Bool, true, false, ◌&&◌, ◌⊎◌, Option, none, some, List, [], ◌∷◌, arith,
  if◌then◌else◌,
}
use ipc_portable.RawString.{SignatureKey, contents, key_lt}
use ipc_portable.RawString.Order.{
  Denotes, text_eq, text_eq_refl, text_eq→eq, text_key_lt, text_key_lt_irrefl, text_key_lt_trans,
  text_key_lt_connected,
}

pub record Entry (V : Type 0) : Type 0 where
  pub key : SignatureKey
  pub value : V

-- The texts of a key are these.
abbrev pub is_text : Option (List ℕ) → List ℕ → Bool
is_text none y = false
is_text (some x) y = text_eq x y

unfoldable pub has_texts : SignatureKey → List ℕ → List ℕ → Bool
has_texts k n p = is_text (contents k.name) n && is_text (contents k.params_type) p

pub has_texts-Denotes :
    (k : SignatureKey) (n p n' p' : List ℕ)
    → Denotes k n p
    → has_texts k n' p' ≡ text_eq n n' && text_eq p p'
unfolding has_texts
has_texts-Denotes k n p n' p' d = rw (d.name, d.params) refl

same_texts : (a b n p : List ℕ) → text_eq a n && text_eq b p ≡ true → text_key_lt n p a b ≡ false
same_texts a b n p h = ground (arith, text_eq→eq a n, text_eq→eq b p, text_key_lt_irrefl n p)

-- The three outcomes of comparing an entry's texts with a key's.
pub compare_texts :
    (a b n p : List ℕ)
    → ((text_key_lt a b n p ≡ true) × (text_eq a n && text_eq b p ≡ false))
      ⊎ (((text_key_lt a b n p ≡ false)
            × (text_key_lt n p a b ≡ true)
            × (text_eq a n && text_eq b p ≡ false))
          ⊎ ((text_key_lt a b n p ≡ false)
              × (text_key_lt n p a b ≡ false)
              × (text_eq a n && text_eq b p ≡ true)))
compare_texts a b n p = ground (
  arith,
  text_eq→eq a n,
  text_eq→eq b p,
  text_eq_refl n,
  text_eq_refl p,
  text_key_lt_irrefl n p,
  text_key_lt_connected a b n p,
  text_key_lt_trans a b n p a b,
  text_key_lt_irrefl a b,
)

module _ {V : Type 0} where
  -- `find`.
  unfoldable pub find : SignatureKey → List (Entry V) → Option (Option V)
  find key [] = some none
  find key (e ∷ es) =
      let rest = find key es in
      elim (key_lt e.key key) [
        | none ↦ none
        | some true ↦ rest
        | some false ↦ elim (key_lt key e.key) [
          | none ↦ none
          | some true ↦ some none
          | some false ↦ some (some e.value)
        ]
      ]

  abbrev pub behind : Entry V → Option (List (Entry V)) → Option (List (Entry V))
  behind e none = none
  behind e (some es) = some (e ∷ es)

  -- `emplace` and `insert`: an entry that is there stays.
  unfoldable pub insert : SignatureKey → V → List (Entry V) → Option (List (Entry V))
  insert key v [] = some (record { key = key; value = v } ∷ [])
  insert key v (e ∷ es) =
      let rest = insert key v es in
      elim (key_lt e.key key) [
        | none ↦ none
        | some true ↦ behind e rest
        | some false ↦ elim (key_lt key e.key) [
          | none ↦ none
          | some true ↦ some (record { key = key; value = v } ∷ (e ∷ es))
          | some false ↦ some (e ∷ es)
        ]
      ]

  -- `it->second = v` for the `it` that `find` gave.
  unfoldable pub assign : SignatureKey → V → List (Entry V) → Option (List (Entry V))
  assign key v [] = some []
  assign key v (e ∷ es) =
      let rest = assign key v es in
      elim (key_lt e.key key) [
        | none ↦ none
        | some true ↦ behind e rest
        | some false ↦ elim (key_lt key e.key) [
          | none ↦ none
          | some true ↦ some (e ∷ es)
          | some false ↦ some (record e { value = v } ∷ es)
        ]
      ]

  -- The finite map that a table stands for, on the texts of the keys.
  unfoldable pub lookup : List ℕ → List ℕ → List (Entry V) → Option V
  lookup n p [] = none
  lookup n p (e ∷ es) =
      let rest = lookup n p es in if has_texts e.key n p then some e.value else rest

  -- All entries are behind a key's texts in the order.
  abbrev pub Above : List ℕ → List ℕ → List (Entry V) → Type 0
  Above n p [] = Unit
  Above n p (e ∷ es) =
      ((n' p' : List ℕ) × Denotes e.key n' p' × (text_key_lt n p n' p' ≡ true)) × Above n p es

  -- The table is in strictly ascending order, and its keys can be read.
  abbrev pub IsTable : List (Entry V) → Type 0
  IsTable [] = Unit
  IsTable (e ∷ es) = ((n p : List ℕ) × Denotes e.key n p × Above n p es) × IsTable es

  pub Above-weaken :
      (n p n' p' : List ℕ) (es : List (Entry V))
      → text_key_lt n p n' p' ≡ true
      → Above n' p' es
      → Above n p es
  Above-weaken n p n' p' [] h a = tt
  Above-weaken n p n' p' (e ∷ es) h ((x, y, d, k), a) =
      ((x, y, d, text_key_lt_trans n p n' p' x y h k), Above-weaken n p n' p' es h a)

  pub lookup-Above : (n p : List ℕ) (es : List (Entry V)) → Above n p es → lookup n p es ≡ none
  unfolding lookup
  lookup-Above n p [] a = refl
  lookup-Above n p (e ∷ es) ((x, y, d, k), a) =
      ground (arith, has_texts-Denotes e.key x y n p d, same_texts x y n p, lookup-Above n p es a)
