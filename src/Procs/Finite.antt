-- ===== src/Procs/Finite.antt =====
-- A table in ascending order is a finite map from pairs of texts.
use ipc_portable.Common.{
  ℕ, ◌≡◌, refl, true, false, ◌&&◌, inl, inr, Option, none, some, List, [], ◌∷◌, All, arith,
  if◌then◌else◌,
}
use ipc_portable.RawString.{SignatureKey}
use ipc_portable.RawString.Order.{Denotes, text_eq, text_key_lt, key_lt-text_key_lt, text_eq→eq}
use ipc_portable.Procs.Table.{
  Entry, find, insert, lookup, Above, IsTable, has_texts-Denotes, Above-weaken, lookup-Above,
  compare_texts,
}

-- What `insert` leaves of the old value.
abbrev pub kept {ℓ} : {A : Type ℓ} → Option A → A → Option A
kept none v = some v
kept (some old) v = some old

module _ {V : Type 0} where
  -- On a table, `find` with a key that can be read fails nowhere and gives the value that the
  -- finite map has for the key's texts.
  pub find-lookup :
      (k : SignatureKey) (n p : List ℕ) (es : List (Entry V))
      → IsTable es
      → Denotes k n p
      → find k es ≡ some (lookup n p es)
  unfolding find lookup
  find-lookup k n p [] t d = refl
  find-lookup k n p (e ∷ es) ((a, b, d', above), t) d = ground (
    arith,
    compare_texts a b n p,
    key_lt-text_key_lt e.key k a b n p d' d,
    key_lt-text_key_lt k e.key n p a b d d',
    has_texts-Denotes e.key a b n p d',
    lookup-Above n p es,
    Above-weaken n p a b es,
    find-lookup k n p es t d,
  )

module _ {V : Type 0} (k : SignatureKey) (v : V) (n p : List ℕ) (d : Denotes k n p) where
  -- What `insert` does to a table.
  pub record Inserted (es : List (Entry V)) : Type 1 where
    pub result : List (Entry V)
    pub inserted : insert k v es ≡ some result
    pub is_table : IsTable result
    pub above : (a b : List ℕ) → text_key_lt a b n p ≡ true → Above a b es → Above a b result
    pub looked_up :
        (n' p' : List ℕ)
        → lookup n' p' result
          ≡ (if text_eq n n' && text_eq p p' then kept (lookup n p es) v else lookup n' p' es)
    pub entries :
        (P : Entry V → Type 0) → P (record { key = k; value = v }) → All P es → All P result

  fresh : Entry V
  fresh = record { key = k; value = v }

  Inserted-empty : Inserted []
  unfolding insert lookup fresh
  Inserted-empty = record {
    result = fresh ∷ [];
    inserted = refl;
    is_table = ((n, p, d, tt), tt);
    above = λ a b h _. ((n, p, d, h), tt);
    looked_up = λ n' p'. rw (has_texts-Denotes k n p n' p' d) refl;
    entries = λ P x all. (x, tt);
  }

  module _ (e : Entry V) (es : List (Entry V)) (a b : List ℕ) (d' : Denotes e.key a b)
      (first : Above a b es) (t : IsTable es) where
    Inserted-before : text_key_lt a b n p ≡ false → text_key_lt n p a b ≡ true → Inserted (e ∷ es)
    unfolding insert lookup fresh
    Inserted-before h g = record {
      result = fresh ∷ (e ∷ es);
      inserted =
          ground (
            arith,
            key_lt-text_key_lt e.key k a b n p d' d,
            key_lt-text_key_lt k e.key n p a b d d',
          );
      is_table =
          ((n, p, d, ((a, b, d', g), Above-weaken n p a b es g first)), ((a, b, d', first), t));
      above = λ x y h' rest. ((n, p, d, h'), rest);
      looked_up = λ n' p'. ground (
        arith,
        has_texts-Denotes k n p n' p' d,
        has_texts-Denotes e.key a b n p d',
        has_texts-Denotes e.key a b n' p' d',
        compare_texts a b n p,
        lookup-Above n p es (Above-weaken n p a b es g first),
      );
      entries = λ P x all. (x, all);
    }

    Inserted-there :
        text_key_lt a b n p ≡ false
        → text_key_lt n p a b ≡ false
        → text_eq a n && text_eq b p ≡ true
        → Inserted (e ∷ es)
    unfolding insert lookup
    Inserted-there h g same = record {
      result = e ∷ es;
      inserted =
          ground (
            arith,
            key_lt-text_key_lt e.key k a b n p d' d,
            key_lt-text_key_lt k e.key n p a b d d',
          );
      is_table = ((a, b, d', first), t);
      above = λ x y h' rest. rest;
      looked_up = λ n' p'. ground (
        arith,
        has_texts-Denotes e.key a b n p d',
        has_texts-Denotes e.key a b n' p' d',
        text_eq→eq a n,
        text_eq→eq b p,
      );
      entries = λ P x all. all;
    }

    Inserted-behind :
        text_key_lt a b n p ≡ true
        → text_eq a n && text_eq b p ≡ false
        → Inserted es
        → Inserted (e ∷ es)
    unfolding insert lookup
    Inserted-behind h differ ih = record {
      result = e ∷ ih.result;
      inserted = ground (arith, key_lt-text_key_lt e.key k a b n p d' d, ih.inserted);
      is_table = ((a, b, d', ih.above a b h first), ih.is_table);
      above = λ x y h' rest. (rest.0, ih.above x y h' rest.1);
      looked_up = λ n' p'. ground (
        arith,
        has_texts-Denotes e.key a b n p d',
        has_texts-Denotes e.key a b n' p' d',
        ih.looked_up n' p',
        text_eq→eq n n',
        text_eq→eq p p',
      );
      entries = λ P x all. (all.0, ih.entries P x all.1);
    }

  pub IsTable-Inserted : (es : List (Entry V)) → IsTable es → Inserted es
  IsTable-Inserted [] t = Inserted-empty
  IsTable-Inserted (e ∷ es) ((a, b, d', first), t) = elim (compare_texts a b n p) [
    | inl (h, differ) ↦ Inserted-behind e es a b d' first t h differ (IsTable-Inserted es t)
    | inr (inl (h, g, differ)) ↦ Inserted-before e es a b d' first t h g
    | inr (inr (h, g, same)) ↦ Inserted-there e es a b d' first t h g same
  ]

-- On a table in ascending order, `insert` with a key that can be read fails nowhere, gives a table
-- in ascending order, and adds exactly one binding to the finite map, unless the key's texts are
-- bound already: then nothing changes.
pub insert-lookup :
    {V : Type 0} (k : SignatureKey) (v : V) (n p n' p' : List ℕ) (es : List (Entry V))
    → IsTable es
    → Denotes k n p
    → (es' : List (Entry V)) × (insert k v es ≡ some es')
      × IsTable es'
      × (lookup n' p' es'
          ≡ (if text_eq n n' && text_eq p p' then kept (lookup n p es) v else lookup n' p' es))
insert-lookup k v n p n' p' es t d =
    let i = IsTable-Inserted k v n p d es t in (i.result, i.inserted, i.is_table, i.looked_up n' p')
