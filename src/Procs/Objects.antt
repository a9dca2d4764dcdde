-- ===== src/Procs/Objects.antt =====
-- The objects that a map's entries point to, and the handlers that a map offers.
use mathlib.Core.Path.{subst}
use ipc_portable.Common.{
  ℕ, zero, inl, inr, Bool-cases, suc, ◌≡◌, refl, sym, ap, ◌∙◌, true, ◌&&◌, Option, none, some, List,
  [], ◌∷◌, ◌++◌, length, get_elem?, set, All, arith, ◌==◌, if◌then◌else◌, IsU32,
}
use native.Mathlib.Nat.{mod-eq_of_lt}
use ipc_portable.RawString.{contents, of_string, convert_check_str_len}
use ipc_portable.RawString.Order.{Denotes, text_eq, text_eq→eq}
use ipc_portable.RawString.Wire.{text, contents-text}
use ipc_portable.Procs.{CallInfoImpl, CallData, InvokeRemote, Procs, signature_key, is_invokable}
use ipc_portable.Procs.Table.{Entry, lookup, has_texts, has_texts-Denotes, IsTable}

pub of_string-text : (v : List ℕ) → IsU32 (length v) → of_string v ≡ text v
unfolding of_string convert_check_str_len
of_string-text v h = rw (mod-eq_of_lt h) (ground arith)

pub contents-of_string : (v : List ℕ) → IsU32 (length v) → contents (of_string v) ≡ some v
contents-of_string v h = rw (of_string-text v h) (contents-text v)

pub get_elem?-snoc {ℓ} :
    {A : Type ℓ} (xs : List A) (x y : A) (i : ℕ)
    → get_elem? xs i ≡ some y
    → get_elem? (xs ++ (x ∷ [])) i ≡ some y
get_elem?-snoc [] x y i h = cc
get_elem?-snoc (z ∷ xs) x y zero h = h
get_elem?-snoc (z ∷ xs) x y (suc i) h = get_elem?-snoc xs x y i h

pub get_elem?-length {ℓ} :
    {A : Type ℓ} (xs : List A) (x : A) → get_elem? (xs ++ (x ∷ [])) (length xs) ≡ some x
get_elem?-length [] x = refl
get_elem?-length (z ∷ xs) x = get_elem?-length xs x

pub get_elem?-set {ℓ} :
    {A : Type ℓ} (xs : List A) (i j : ℕ) (v x : A)
    → get_elem? xs j ≡ some x
    → get_elem? (set xs i v) j ≡ some (if i == j then v else x)
get_elem?-set [] i j v x h = cc
get_elem?-set (y ∷ xs) zero zero v x h = refl
get_elem?-set (y ∷ xs) zero (suc j) v x h = ground arith
get_elem?-set (y ∷ xs) (suc i) zero v x h = ground arith
get_elem?-set (y ∷ xs) (suc i) (suc j) v x h = ground (arith, get_elem?-set xs i j v x h)

-- An entry's object is there, and the entry's key is the object's.
abbrev pub Backed : List CallInfoImpl → Entry CallData → Type 0
Backed heap e =
    (c : CallInfoImpl) × (get_elem? heap e.value.call_info ≡ some c)
    × (e.key ≡ signature_key c)
    × IsU32 (length c.name)
    × IsU32 (length c.params_type)

-- A map whose entries are in order and have their objects.
abbrev pub IsProcs : Procs → Type 0
IsProcs s = IsTable s.procs.name_procs × All (Backed s.heap) s.procs.name_procs

pub Denotes-signature_key :
    (c : CallInfoImpl)
    → IsU32 (length c.name)
    → IsU32 (length c.params_type)
    → Denotes (signature_key c) c.name c.params_type
Denotes-signature_key c h k = record {
  name = contents-of_string c.name h;
  params = contents-of_string c.params_type k;
}

-- The object that texts lead to carries these texts.
abbrev pub Object : List CallInfoImpl → List ℕ → List ℕ → ℕ → Type 0
Object heap n p ref =
    (c : CallInfoImpl) × (get_elem? heap ref ≡ some c) × (c.name ≡ n) × (c.params_type ≡ p)

Backed-Object :
    (heap : List CallInfoImpl) (n p : List ℕ) (e : Entry CallData)
    → Backed heap e
    → has_texts e.key n p ≡ true
    → Object heap n p e.value.call_info
Backed-Object heap n p e (c, at, key, h, k) has =
    let d = Denotes-signature_key c h k in
    let same : text_eq c.name n && text_eq c.params_type p ≡ true =
      sym (has_texts-Denotes (signature_key c) c.name c.params_type n p d)
      ∙ ap (λ x. has_texts x n p) (sym key)
      ∙ has in
    (c, at, ground (arith, text_eq→eq c.name n), ground (arith, text_eq→eq c.params_type p))

pub lookup-Object :
    (heap : List CallInfoImpl) (n p : List ℕ) (es : List (Entry CallData)) (d : CallData)
    → All (Backed heap) es
    → lookup n p es ≡ some d
    → Object heap n p d.call_info
unfolding lookup
lookup-Object heap n p [] d all h = cc
lookup-Object heap n p (e ∷ es) d (b, all) h = elim (Bool-cases (has_texts e.key n p)) [
  | inl has ↦
      let first : e.value ≡ d = ground (arith, has) in
      subst (λ x. Object heap n p x.call_info) first (Backed-Object heap n p e b has)
  | inr has_not ↦ lookup-Object heap n p es d all (ground (arith, has_not))
]

-- The handler that a map offers for texts.
abbrev pub offered : Option CallInfoImpl → Option InvokeRemote
offered none = none
offered (some c) = is_invokable c

abbrev pub handler_at : List CallInfoImpl → Option CallData → Option InvokeRemote
handler_at heap none = none
handler_at heap (some d) = offered (get_elem? heap d.call_info)

unfoldable pub handler : List ℕ → List ℕ → Procs → Option InvokeRemote
handler n p s = handler_at s.heap (lookup n p s.procs.name_procs)
