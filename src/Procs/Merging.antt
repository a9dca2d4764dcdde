-- ===== src/Procs/Merging.antt =====
-- `AddAllProcs`: one map's entries are added to another.
use ipc_portable.Common.{ℕ, ◌≡◌, refl, ◌∙◌, false, Option, none, some, List, [], ◌∷◌, All, arith}
use ipc_portable.RawString.Order.{Denotes, text_eq→eq}
use ipc_portable.Procs.{CallInfoImpl, CallData, ProcMap, add_entries, add_all_procs}
use ipc_portable.Procs.Table.{Entry, lookup, has_texts-Denotes, IsTable}
use ipc_portable.Procs.Finite.{Inserted, IsTable-Inserted}
use ipc_portable.Procs.Objects.{Backed, IsProcs}

-- The first value that there is.
abbrev pub first_of {ℓ} : {A : Type ℓ} → Option A → Option A → Option A
first_of none b = b
first_of (some a) b = some a

module _ (heap : List CallInfoImpl) where
  record Merged (others es : List (Entry CallData)) : Type 0 where
    result : List (Entry CallData)
    merged : add_entries others es ≡ some result
    is_table : IsTable result
    backed : All (Backed heap) result
    looked_up : (n p : List ℕ) → lookup n p result ≡ first_of (lookup n p es) (lookup n p others)

  first_of-none : (o : Option CallData) → o ≡ first_of o none
  first_of-none none = refl
  first_of-none (some d) = refl

  Merged-nothing : (es : List (Entry CallData)) → IsTable es → All (Backed heap) es → Merged [] es
  unfolding add_entries lookup
  Merged-nothing es t all = record {
    result = es;
    merged = refl;
    is_table = t;
    backed = all;
    looked_up = λ n p. first_of-none (lookup n p es);
  }

  module _ (o : Entry CallData) (others es : List (Entry CallData)) (a b : List ℕ)
      (d : Denotes o.key a b) (ins : Inserted o.key o.value a b d es)
      (ih : Merged others ins.result) where
    first_of-kept :
        (n p : List ℕ)
        → first_of (lookup n p ins.result) (lookup n p others)
          ≡ first_of (lookup n p es) (lookup n p (o ∷ others))
    unfolding lookup
    first_of-kept n p = go (lookup n p es) refl
      where
        go :
            (x : Option CallData)
            → lookup n p es ≡ x
            → first_of (lookup n p ins.result) (lookup n p others)
              ≡ first_of x (lookup n p (o ∷ others))
        go none e = ground (
          arith,
          ins.looked_up n p,
          has_texts-Denotes o.key a b n p d,
          text_eq→eq a n,
          text_eq→eq b p,
          e,
        )
        go (some old) e = ground (
          arith,
          ins.looked_up n p,
          has_texts-Denotes o.key a b n p d,
          text_eq→eq a n,
          text_eq→eq b p,
          e,
        )

    Merged-one : Merged (o ∷ others) es
    unfolding add_entries
    Merged-one = record {
      result = ih.result;
      merged = rw (ins.inserted, add_entries) ih.merged;
      is_table = ih.is_table;
      backed = ih.backed;
      looked_up = λ n p. ih.looked_up n p ∙ first_of-kept n p;
    }

  IsTable-Merged :
      (others es : List (Entry CallData))
      → IsTable others
      → All (Backed heap) others
      → IsTable es
      → All (Backed heap) es
      → Merged others es
  IsTable-Merged [] es u every t all = Merged-nothing es t all
  IsTable-Merged (o ∷ others) es ((a, b, d, _), u) (k, every) t all =
      let ins = IsTable-Inserted o.key o.value a b d es t in
      Merged-one o others es a b d ins
        (IsTable-Merged others ins.result u every ins.is_table (ins.entries (Backed heap) k all))

-- `AddAllProcs` of another map over the same objects, both maps well formed, fails nowhere and
-- leaves a well-formed map. For every name and parameter types, the entry that was there stays,
-- and where there was none the other map's entry is added, which shares its object; the callbacks
-- stay.
pub add_all_procs-lookup :
    (heap : List CallInfoImpl) (other m : ProcMap) (n p : List ℕ)
    → IsProcs (record { heap = heap; procs = other })
    → IsProcs (record { heap = heap; procs = m })
    → (m' : ProcMap) × (add_all_procs false other m ≡ some m')
      × IsProcs (record { heap = heap; procs = m' })
      × (lookup n p m'.name_procs
          ≡ first_of (lookup n p m.name_procs) (lookup n p other.name_procs))
      × (m'.on_call_count_changed ≡ m.on_call_count_changed)
      × (m'.on_invalid_remote_call ≡ m.on_invalid_remote_call)
add_all_procs-lookup heap other m n p u w =
    let x = IsTable-Merged heap other.name_procs m.name_procs u.0 u.1 w.0 w.1 in
    (
      record m { name_procs = x.result },
      rw (x.merged, add_all_procs) refl,
      (x.is_table, x.backed),
      x.looked_up n p,
      refl,
      refl,
    )
