-- ===== src/Procs/Registration.antt =====
-- `AddProcSignature` and `FindCallInfo`: what a registration does to the handlers that are found.
use ipc_portable.Common.{
  ℕ, ◌≡◌, refl, sym, ap, ◌∙◌, true, ◌&&◌, Option, none, some, List, [], ◌∷◌, ◌++◌, length,
  get_elem?, All, arith, if◌then◌else◌, IsU32, inl, inr, Bool-cases,
}
use ipc_portable.RawString.{RawString, SignatureKey, contents, of_string}
use ipc_portable.RawString.Order.{Denotes, text_eq, text_eq_refl}
use ipc_portable.Procs.{
  CallInfoImpl, CallData, InvokeRemote, Procs, signature_key, is_invokable, add_proc_signature,
  add_new, add_again, store_invoke,
}
use ipc_portable.Procs.Table.{Entry, find, lookup}
use ipc_portable.Procs.Finite.{find-lookup, Inserted, IsTable-Inserted}
use ipc_portable.Procs.Assigning.{Assigned, IsTable-Assigned}
use ipc_portable.Procs.Objects.{
  Backed, IsProcs, lookup-Object, handler, handler_at, offered, contents-of_string,
  Denotes-signature_key, get_elem?-length,
}
use ipc_portable.Procs.Heap.{
  All-map, Backed-snoc, Backed-set, handler_at-set, handler_at-changed, handler_at-snoc, changed,
}

-- The key that a search or a registration makes of its texts.
abbrev pub key_of : RawString → List ℕ → SignatureKey
key_of proc_name params_type = record { name = proc_name; params_type = of_string params_type }

pub Denotes-key_of :
    (proc_name : RawString) (n p : List ℕ)
    → contents proc_name ≡ some n
    → IsU32 (length p)
    → Denotes (key_of proc_name p) n p
Denotes-key_of proc_name n p known small = record {
  name = known;
  params = contents-of_string p small;
}

module _ (proc_name : RawString) (n p comment : List ℕ) (i : InvokeRemote) (s : Procs)
    (known : contents proc_name ≡ some n) (small : IsU32 (length n)) (small' : IsU32 (length p))
    (callable : i.is_callable ≡ true) (w : IsProcs s) where
  abbrev es : List (Entry CallData)
  es = s.procs.name_procs

  -- What a registration that succeeds has done.
  abbrev Registers : List ℕ → List ℕ → Type 0
  Registers n' p' =
      (ref : ℕ) × (s' : Procs) × (add_proc_signature proc_name p (some i) comment s
        ≡ some (some ref, s'))
      × (d : CallData) × (lookup n p s'.procs.name_procs ≡ some d)
      × (d.call_info ≡ ref)
      × (d.comment ≡ comment)
      × IsProcs s'
      × (handler n' p' s' ≡ (if text_eq n n' && text_eq p p' then some i else handler n' p' s))

  abbrev new_object : CallInfoImpl
  new_object = record { invoke = none; call_count = 0; name = n; params_type = p }

  abbrev new_data : CallData
  new_data = record { call_info = length s.heap; comment = comment }

  abbrev grown : List CallInfoImpl
  grown = s.heap ++ (new_object ∷ [])

  at_end : get_elem? grown (length s.heap) ≡ some new_object
  at_end = get_elem?-length s.heap new_object

  stored :
      (t : Procs) (ref : ℕ) (c : CallInfoImpl)
      → (here : get_elem? t.heap ref ≡ some c)
      → store_invoke (some i) ref t
        ≡ some (some ref, record t { heap = changed t.heap ref (some i) c here })
  stored t ref c here = ground (arith, callable, here)

  found_by_key : {o : Option CallData} → lookup n p es ≡ o → find (key_of proc_name p) es ≡ some o
  found_by_key e =
      find-lookup (key_of proc_name p) n p es w.0 (Denotes-key_of proc_name n p known small')
      ∙ ap some e

  module _ (unbound : lookup n p es ≡ none) where
    abbrev new_Denotes : Denotes (signature_key new_object) n p
    new_Denotes = Denotes-signature_key new_object small small'

    ins : Inserted (signature_key new_object) new_data n p new_Denotes es
    ins = IsTable-Inserted (signature_key new_object) new_data n p new_Denotes es w.0

    abbrev heap_new : List CallInfoImpl
    heap_new = changed grown (length s.heap) (some i) new_object at_end

    abbrev after_new : Procs
    after_new = record { heap = heap_new; procs = record s.procs { name_procs = ins.result } }

    grown-Backed : All (Backed grown) es
    grown-Backed = All-map es (Backed-snoc s.heap new_object) w.1

    new_IsProcs : IsProcs after_new
    new_IsProcs = (
      ins.is_table,
      ins.entries (Backed heap_new)
          (Backed-set grown (length s.heap) (some i) new_object at_end
            (record { key = signature_key new_object; value = new_data })
            (new_object, at_end, refl, small, small'))
          (All-map es (Backed-set grown (length s.heap) (some i) new_object at_end) grown-Backed),
    )

    new_handler :
        (n' p' : List ℕ)
        → handler n' p' after_new
          ≡ (if text_eq n n' && text_eq p p' then some i else handler n' p' s)
    unfolding handler
    new_handler n' p' = elim (Bool-cases (text_eq n n' && text_eq p p')) [
      | inl same ↦
          rw (ins.looked_up n' p', same, unbound)
            (handler_at-changed grown (length s.heap) (some i) new_object at_end i new_data refl
              refl callable)
      | inr differ ↦
          rw (ins.looked_up n' p', differ)
            (handler_at-set grown (length s.heap) (some i) new_object at_end n' p' (lookup n' p' es)
                es grown-Backed refl differ
              ∙ handler_at-snoc s.heap new_object n' p' (lookup n' p' es) es w.1 refl)
    ]

    Registers-new : (n' p' : List ℕ) → Registers n' p'
    unfolding add_proc_signature
    Registers-new n' p' = (
      length s.heap,
      after_new,
      rw (found_by_key unbound, add_proc_signature)
          (rw known (
            rw (ins.inserted, add_new)
              (stored (record { heap = grown; procs = record s.procs { name_procs = ins.result } })
                (length s.heap) new_object at_end))),
      new_data,
      ins.looked_up n p ∙ ground (arith, text_eq_refl n, text_eq_refl p),
      refl,
      refl,
      new_IsProcs,
      new_handler n' p',
    )

  module _ (d : CallData) (c : CallInfoImpl) (bound : lookup n p es ≡ some d)
      (at : get_elem? s.heap d.call_info ≡ some c) (named : c.name ≡ n)
      (typed : c.params_type ≡ p) where
    abbrev data_again : CallData
    data_again = record d { comment = comment }

    abbrev old_Denotes : Denotes (key_of proc_name p) n p
    old_Denotes = Denotes-key_of proc_name n p known small'

    asg : Assigned (key_of proc_name p) d data_again n p old_Denotes es
    asg = IsTable-Assigned (key_of proc_name p) d data_again n p old_Denotes es w.0 bound

    abbrev heap_again : List CallInfoImpl
    heap_again = changed s.heap d.call_info (some i) c at

    abbrev after_again : Procs
    after_again = record { heap = heap_again; procs = record s.procs { name_procs = asg.result } }

    again_IsProcs : IsProcs after_again
    again_IsProcs = (
      asg.is_table,
      asg.entries (Backed heap_again)
          (λ e same b.
            (b.0, ap (λ v. get_elem? heap_again v.call_info) (sym same) ∙ b.1, b.2, b.3, b.4))
          (All-map es (Backed-set s.heap d.call_info (some i) c at) w.1),
    )

    again_handler :
        (n' p' : List ℕ)
        → handler n' p' after_again
          ≡ (if text_eq n n' && text_eq p p' then some i else handler n' p' s)
    unfolding handler
    again_handler n' p' = elim (Bool-cases (text_eq n n' && text_eq p p')) [
      | inl same ↦
          rw (asg.looked_up n' p', same)
            (handler_at-changed s.heap d.call_info (some i) c at i data_again refl refl callable)
      | inr differ ↦
          rw (asg.looked_up n' p', differ)
            (handler_at-set s.heap d.call_info (some i) c at n' p' (lookup n' p' es) es w.1 refl
              (rw (named, typed) differ))
    ]

    Registers-again : (n' p' : List ℕ) → is_invokable c ≡ none → Registers n' p'
    unfolding add_proc_signature
    Registers-again n' p' free = (
      d.call_info,
      after_again,
      rw (found_by_key bound, add_proc_signature)
          (rw (at, add_again)
            (rw (free, add_again)
              (rw (asg.assigned, add_again)
                (stored (record s { procs = record s.procs { name_procs = asg.result } })
                  d.call_info c at)))),
      data_again,
      asg.looked_up n p ∙ ground (arith, text_eq_refl n, text_eq_refl p),
      refl,
      refl,
      again_IsProcs,
      again_handler n' p',
    )

-- Let a map be well formed and have no handler for a name that can be read and for parameter
-- types, both shorter than 2 ^ 32. Then the registration of a handler that can be called fails
-- nowhere, the map stays well formed, its entry for the name and the types has the object that is
-- returned and the comment, and of all names and parameter types exactly the registered ones change
-- their handler, to the new one.
pub add_proc_signature-handler :
    (proc_name : RawString) (n p comment n' p' : List ℕ) (i : InvokeRemote) (s : Procs)
    → contents proc_name ≡ some n
    → IsU32 (length n)
    → IsU32 (length p)
    → i.is_callable ≡ true
    → IsProcs s
    → handler n p s ≡ none
    → (ref : ℕ) × (s' : Procs) × (add_proc_signature proc_name p (some i) comment s
        ≡ some (some ref, s'))
      × (d : CallData) × (lookup n p s'.procs.name_procs ≡ some d)
      × (d.call_info ≡ ref)
      × (d.comment ≡ comment)
      × IsProcs s'
      × (handler n' p' s' ≡ (if text_eq n n' && text_eq p p' then some i else handler n' p' s))
add_proc_signature-handler proc_name n p comment n' p' i s known small small' callable w unhandled =
    go (lookup n p s.procs.name_procs) refl
  where
    go :
        (o : Option CallData)
        → lookup n p s.procs.name_procs ≡ o
        → Registers proc_name n p comment i s known small small' callable w n' p'
    go none e = Registers-new proc_name n p comment i s known small small' callable w e n' p'
    go (some d) e =
        let (c, at, named, typed) = lookup-Object s.heap n p s.procs.name_procs d w.1 e in
        let same : handler_at s.heap (lookup n p s.procs.name_procs) ≡ none =
          (unfold handler in unhandled) in
        let free : is_invokable c ≡ none =
          sym (ap offered at) ∙ sym (ap (handler_at s.heap) e) ∙ same in
        Registers-again proc_name n p comment i s known small small' callable w d c e at named typed
          n' p' free
