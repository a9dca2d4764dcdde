-- ===== src/Procs/Heap.antt =====
-- What a change of the heap leaves of the objects and the handlers.
use mathlib.Core.Path.{subst}
use ipc_portable.Common.{
  ℕ, ◌≡◌, refl, sym, ap, ◌∙◌, true, false, ◌&&◌, inl, inr, Bool-cases, Option, none, some, List, [],
  ◌∷◌, ◌++◌, length, IsU32, get_elem?, set, All, arith, ◌==◌, ==_iff,
}
use ipc_portable.RawString.Order.{text_eq, text_eq_refl}
use ipc_portable.Procs.{
  CallInfoImpl, CallData, InvokeRemote, set_invoke, if_callable, signature_key,
}
use ipc_portable.Procs.Table.{Entry, lookup}
use ipc_portable.Procs.Objects.{
  Backed, offered, handler_at, lookup-Object, get_elem?-set, get_elem?-snoc,
}

pub All-map {ℓ} :
    {A : Type ℓ} {P Q : A → Type 0} (xs : List A) → ((x : A) → P x → Q x) → All P xs → All Q xs
All-map [] f all = tt
All-map (x ∷ xs) f (h, all) = (f x h, All-map xs f all)

pub Backed-snoc :
    (heap : List CallInfoImpl) (c : CallInfoImpl) (e : Entry CallData)
    → Backed heap e
    → Backed (heap ++ (c ∷ [])) e
Backed-snoc heap c e (x, at, key, h, k) =
    (x, get_elem?-snoc heap c x e.value.call_info at, key, h, k)

one_object :
    (heap : List CallInfoImpl) (i j : ℕ) {c x : CallInfoImpl}
    → get_elem? heap i ≡ some c
    → get_elem? heap j ≡ some x
    → i == j ≡ true
    → c ≡ x
one_object heap i j h k e = let same : i ≡ j = (==_iff i j).0 e in cc

module _ (heap : List CallInfoImpl) (ref : ℕ) (invoke : Option InvokeRemote) (c : CallInfoImpl)
    (at : get_elem? heap ref ≡ some c) where
  abbrev pub changed : List CallInfoImpl
  changed = set heap ref (set_invoke invoke c)

  pub Backed-set : (e : Entry CallData) → Backed heap e → Backed changed e
  Backed-set e (x, at', key, h, k) = elim (Bool-cases (ref == e.value.call_info)) [
    | inl same ↦
        let one : c ≡ x = one_object heap ref e.value.call_info at at' same in
        (
          set_invoke invoke c,
          get_elem?-set heap ref e.value.call_info (set_invoke invoke c) x at' ∙ rw same refl,
          subst (λ y. e.key ≡ signature_key y) (sym one) key,
          subst (λ y. IsU32 (length y.name)) (sym one) h,
          subst (λ y. IsU32 (length y.params_type)) (sym one) k,
        )
    | inr differ ↦ (
      x,
      get_elem?-set heap ref e.value.call_info (set_invoke invoke c) x at' ∙ rw differ refl,
      key,
      h,
      k,
    )
  ]

  -- The handler of texts that are not the changed object's stays.
  pub handler_at-set :
      (n p : List ℕ) (o : Option CallData) (es : List (Entry CallData))
      → All (Backed heap) es
      → lookup n p es ≡ o
      → text_eq c.name n && text_eq c.params_type p ≡ false
      → handler_at changed o ≡ handler_at heap o
  handler_at-set n p none es all e differ = refl
  handler_at-set n p (some d) es all e differ =
      let (x, at', name, params) = lookup-Object heap n p es d all e in
      elim (Bool-cases (ref == d.call_info)) [
        | inl same ↦
            let one : c ≡ x = one_object heap ref d.call_info at at' same in
            let a : text_eq c.name n ≡ true = rw (one, name) (text_eq_refl n) in
            let b : text_eq c.params_type p ≡ true = rw (one, params) (text_eq_refl p) in
            absurd (ground (arith, a, b))
        | inr apart ↦
            let stays : get_elem? changed d.call_info ≡ some x =
              get_elem?-set heap ref d.call_info (set_invoke invoke c) x at' ∙ rw apart refl in
            ap offered stays ∙ ap offered (sym at')
      ]

  pub handler_at-changed :
      (i : InvokeRemote) (d : CallData)
      → d.call_info ≡ ref
      → invoke ≡ some i
      → i.is_callable ≡ true
      → handler_at changed (some d) ≡ some i
  handler_at-changed i d e stored callable =
      let same : (ref == ref) ≡ true = ground arith in
      let now : get_elem? changed d.call_info ≡ some (set_invoke invoke c) =
        ap (get_elem? changed) e
        ∙ get_elem?-set heap ref ref (set_invoke invoke c) c at
        ∙ rw same refl in
      ap offered now ∙ ap if_callable stored ∙ rw callable refl

pub handler_at-snoc :
    (heap : List CallInfoImpl) (c : CallInfoImpl) (n p : List ℕ) (o : Option CallData)
    (es : List (Entry CallData))
    → All (Backed heap) es
    → lookup n p es ≡ o
    → handler_at (heap ++ (c ∷ [])) o ≡ handler_at heap o
handler_at-snoc heap c n p none es all e = refl
handler_at-snoc heap c n p (some d) es all e =
    let (x, at, name, params) = lookup-Object heap n p es d all e in
    ap offered (get_elem?-snoc heap c x d.call_info at ∙ sym at)
