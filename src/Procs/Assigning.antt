-- ===== src/Procs/Assigning.antt =====
-- Storing through the position that `find` gave, on the finite map.
use ipc_portable.Common.{
  ℕ, ◌≡◌, refl, true, false, ◌&&◌, inl, inr, Option, none, some, List, [], ◌∷◌, All, arith,
  if◌then◌else◌,
}
use ipc_portable.RawString.{SignatureKey}
use ipc_portable.RawString.Order.{Denotes, text_eq, text_key_lt, key_lt-text_key_lt, text_eq→eq}
use ipc_portable.Procs.Table.{
  Entry, assign, lookup, Above, IsTable, has_texts-Denotes, Above-weaken, lookup-Above,
  compare_texts,
}

module _ {V : Type 0} (k : SignatureKey) (old v : V) (n p : List ℕ) (d : Denotes k n p) where
  -- What `assign` does to a table in which the key's texts are bound to `old`.
  pub record Assigned (es : List (Entry V)) : Type 1 where
    pub result : List (Entry V)
    pub assigned : assign k v es ≡ some result
    pub is_table : IsTable result
    pub above : (a b : List ℕ) → Above a b es → Above a b result
    pub looked_up :
        (n' p' : List ℕ)
        → lookup n' p' result ≡ (if text_eq n n' && text_eq p p' then some v else lookup n' p' es)
    pub entries :
        (P : Entry V → Type 0)
        → ((e : Entry V) → e.value ≡ old → P e → P (record e { value = v }))
        → All P es
        → All P result

  module _ (e : Entry V) (es : List (Entry V)) (a b : List ℕ) (d' : Denotes e.key a b)
      (first : Above a b es) (t : IsTable es) where
    Assigned-there :
        text_key_lt a b n p ≡ false
        → text_key_lt n p a b ≡ false
        → text_eq a n && text_eq b p ≡ true
        → lookup n p (e ∷ es) ≡ some old
        → Assigned (e ∷ es)
    unfolding assign lookup
    Assigned-there h g same bound = record {
      result = record e { value = v } ∷ es;
      assigned =
          ground (
            arith,
            key_lt-text_key_lt e.key k a b n p d' d,
            key_lt-text_key_lt k e.key n p a b d d',
          );
      is_table = ((a, b, d', first), t);
      above = λ x y rest. rest;
      looked_up = λ n' p'. ground (
        arith,
        has_texts-Denotes e.key a b n p d',
        has_texts-Denotes e.key a b n' p' d',
        text_eq→eq a n,
        text_eq→eq b p,
      );
      entries = λ P x all. (x e (ground (arith, has_texts-Denotes e.key a b n p d')) all.0, all.1);
    }

    Assigned-behind :
        text_key_lt a b n p ≡ true
        → text_eq a n && text_eq b p ≡ false
        → Assigned es
        → Assigned (e ∷ es)
    unfolding assign lookup
    Assigned-behind h differ ih = record {
      result = e ∷ ih.result;
      assigned = ground (arith, key_lt-text_key_lt e.key k a b n p d' d, ih.assigned);
      is_table = ((a, b, d', ih.above a b first), ih.is_table);
      above = λ x y rest. (rest.0, ih.above x y rest.1);
      looked_up = λ n' p'. ground (
        arith,
        has_texts-Denotes e.key a b n p d',
        has_texts-Denotes e.key a b n' p' d',
        ih.looked_up n' p',
        text_eq→eq n n',
        text_eq→eq p p',
      );
      entries = λ P x all. (all.0, ih.entries P x all.1);
    }

    bound_behind :
        text_eq a n && text_eq b p ≡ false
        → lookup n p (e ∷ es) ≡ some old
        → lookup n p es ≡ some old
    unfolding lookup
    bound_behind differ bound = ground (arith, has_texts-Denotes e.key a b n p d')

    unbound :
        text_key_lt n p a b ≡ true → text_eq a n && text_eq b p ≡ false → lookup n p (e ∷ es) ≡ none
    unfolding lookup
    unbound g differ = ground (
      arith,
      has_texts-Denotes e.key a b n p d',
      lookup-Above n p es (Above-weaken n p a b es g first),
    )

  absent : {o : Option V} {A : Type 1} → o ≡ none → o ≡ some old → A
  absent e h = absurd (cc)

  pub IsTable-Assigned : (es : List (Entry V)) → IsTable es → lookup n p es ≡ some old → Assigned es
  unfolding lookup
  IsTable-Assigned [] t bound = absent {o = none} refl bound
  IsTable-Assigned (e ∷ es) ((a, b, d', first), t) bound = elim (compare_texts a b n p) [
    | inl (h, differ) ↦
        Assigned-behind e es a b d' first t h differ
          (IsTable-Assigned es t (bound_behind e es a b d' first t differ bound))
    | inr (inl (h, g, differ)) ↦ absent (unbound e es a b d' first t g differ) bound
    | inr (inr (h, g, same)) ↦ Assigned-there e es a b d' first t h g same bound
  ]
