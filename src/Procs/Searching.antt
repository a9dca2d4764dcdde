-- ===== src/Procs/Searching.antt =====
-- `FindCallInfo`, and the registration that is refused.
use ipc_portable.Common.{
  ℕ, get_elem?, ◌≡◌, refl, sym, ap, ◌∙◌, true, Option, none, some, List, length, arith, IsU32,
}
use ipc_portable.RawString.{RawString, SignatureKey, contents}
use ipc_portable.Procs.{
  Callback, CallInfoImpl, CallData, InvokeRemote, Procs, FindCallInfoRes, is_invokable,
  find_call_info, found, add_proc_signature,
}
use ipc_portable.Procs.Table.{lookup}
use ipc_portable.Procs.Finite.{find-lookup}
use ipc_portable.Procs.Objects.{IsProcs, lookup-Object, handler, handler_at, offered}
use ipc_portable.Procs.Registration.{key_of, Denotes-key_of}

-- The object and the callbacks that a search gives, by the map's entry.
abbrev pub object_of : Option CallData → Option ℕ
object_of none = none
object_of (some d) = some d.call_info

abbrev pub with_entry : Option CallData → Option Callback → Option Callback
with_entry none callback = none
with_entry (some d) callback = callback

abbrev pub without_entry : Option CallData → Option Callback → Option Callback
without_entry none callback = callback
without_entry (some d) callback = none

-- With a name and parameter types that can be read, `FindCallInfo` on a well-formed map fails
-- nowhere and finds the handler that the map offers for their texts, with the object of the map's
-- entry. The callback that counts calls is part of the result exactly where there is an entry, and
-- the error handler exactly where there is none: with an entry, whether or not it has a handler, the
-- error handler is left out.
pub find_call_info-handler :
    (proc_name params_type : RawString) (n p : List ℕ) (s : Procs)
    → contents proc_name ≡ some n
    → contents params_type ≡ some p
    → IsProcs s
    → (r : FindCallInfoRes) × (find_call_info proc_name params_type s ≡ some r)
      × (r.invoke_base ≡ handler n p s)
      × (r.call_info ≡ object_of (lookup n p s.procs.name_procs))
      × (r.on_call_count_changed
          ≡ with_entry (lookup n p s.procs.name_procs) s.procs.on_call_count_changed)
      × (r.on_invalid_remote_call
          ≡ without_entry (lookup n p s.procs.name_procs) s.procs.on_invalid_remote_call)
unfolding find_call_info handler
find_call_info-handler proc_name params_type n p s known typed w =
    go (lookup n p s.procs.name_procs) refl
  where
    key : SignatureKey
    key = record { name = proc_name; params_type = params_type }

    go :
        (o : Option CallData)
        → lookup n p s.procs.name_procs ≡ o
        → (r : FindCallInfoRes) × (find_call_info proc_name params_type s ≡ some r)
          × (r.invoke_base ≡ handler n p s)
          × (r.call_info ≡ object_of (lookup n p s.procs.name_procs))
          × (r.on_call_count_changed
              ≡ with_entry (lookup n p s.procs.name_procs) s.procs.on_call_count_changed)
          × (r.on_invalid_remote_call
              ≡ without_entry (lookup n p s.procs.name_procs) s.procs.on_invalid_remote_call)
    go none e =
        let f =
          find-lookup key n p s.procs.name_procs w.0 (record { name = known; params = typed })
          ∙ ap some e in
        (
          record {
            call_info = none;
            invoke_base = none;
            on_call_count_changed = none;
            on_invalid_remote_call = s.procs.on_invalid_remote_call;
          },
          rw (f, find_call_info) refl,
          rw e refl,
          sym (ap object_of e),
          sym (ap (λ o. with_entry o s.procs.on_call_count_changed) e),
          sym (ap (λ o. without_entry o s.procs.on_invalid_remote_call) e),
        )
    go (some d) e =
        let f =
          find-lookup key n p s.procs.name_procs w.0 (record { name = known; params = typed })
          ∙ ap some e in
        let (c, at, _, _) = lookup-Object s.heap n p s.procs.name_procs d w.1 e in
        (
          record {
            call_info = some d.call_info;
            invoke_base = is_invokable c;
            on_call_count_changed = s.procs.on_call_count_changed;
            on_invalid_remote_call = none;
          },
          rw (f, find_call_info) (rw (at, found) refl),
          rw e (sym (ap offered at)),
          sym (ap object_of e),
          sym (ap (λ o. with_entry o s.procs.on_call_count_changed) e),
          sym (ap (λ o. without_entry o s.procs.on_invalid_remote_call) e),
        )

-- In a well-formed map a handler that can be called does not replace one that can be called: the
-- registration, under a name that can be read and parameter types shorter than 2 ^ 32, returns no
-- object and changes nothing.
pub add_proc_signature-refused :
    (proc_name : RawString) (n p comment : List ℕ) (i old : InvokeRemote) (s : Procs)
    → contents proc_name ≡ some n
    → IsU32 (length p)
    → i.is_callable ≡ true
    → IsProcs s
    → handler n p s ≡ some old
    → add_proc_signature proc_name p (some i) comment s ≡ some (none, s)
unfolding add_proc_signature handler
add_proc_signature-refused proc_name n p comment i old s known small callable w handled =
    go (lookup n p s.procs.name_procs) refl
  where
    go :
        (o : Option CallData)
        → lookup n p s.procs.name_procs ≡ o
        → add_proc_signature proc_name p (some i) comment s ≡ some (none, s)
    go none e = let h = sym (ap (handler_at s.heap) e) ∙ handled in cc
    go (some d) e =
        let f =
          find-lookup (key_of proc_name p) n p s.procs.name_procs w.0
            (Denotes-key_of proc_name n p known small)
          ∙ ap some e in
        let (c, at, _, _) = lookup-Object s.heap n p s.procs.name_procs d w.1 e in
        let busy : is_invokable c ≡ some old =
          sym (ap offered at) ∙ sym (ap (handler_at s.heap) e) ∙ handled in
        rw (f, add_proc_signature) (ground (arith, at, busy, callable))

-- Where the map offers a handler, it is found with its object.
pub find_call_info-found :
    (proc_name params_type : RawString) (n p : List ℕ) (h : InvokeRemote) (s : Procs)
    → contents proc_name ≡ some n
    → contents params_type ≡ some p
    → IsProcs s
    → handler n p s ≡ some h
    → (ref : ℕ) × (c : CallInfoImpl) × (get_elem? s.heap ref ≡ some c)
      × (find_call_info proc_name params_type s
          ≡ some (record {
            call_info = some ref;
            invoke_base = some h;
            on_call_count_changed = s.procs.on_call_count_changed;
            on_invalid_remote_call = none;
          }))
unfolding find_call_info handler
find_call_info-found proc_name params_type n p h s known typed w offers =
    go (lookup n p s.procs.name_procs) refl
  where
    key : SignatureKey
    key = record { name = proc_name; params_type = params_type }

    go :
        (o : Option CallData)
        → lookup n p s.procs.name_procs ≡ o
        → (ref : ℕ) × (c : CallInfoImpl) × (get_elem? s.heap ref ≡ some c)
          × (find_call_info proc_name params_type s
              ≡ some (record {
                call_info = some ref;
                invoke_base = some h;
                on_call_count_changed = s.procs.on_call_count_changed;
                on_invalid_remote_call = none;
              }))
    go none e = let x = sym (ap (handler_at s.heap) e) ∙ offers in absurd (cc)
    go (some d) e =
        let f =
          find-lookup key n p s.procs.name_procs w.0 (record { name = known; params = typed })
          ∙ ap some e in
        let (c, at, _, _) = lookup-Object s.heap n p s.procs.name_procs d w.1 e in
        let there : is_invokable c ≡ some h =
          sym (ap offered at) ∙ sym (ap (handler_at s.heap) e) ∙ offers in
        (d.call_info, c, at, rw (f, find_call_info) (rw (at, found) (rw (there, found) refl)))

-- Without an entry only the error handler is found.
pub find_call_info-missing :
    (proc_name params_type : RawString) (n p : List ℕ) (s : Procs)
    → contents proc_name ≡ some n
    → contents params_type ≡ some p
    → IsProcs s
    → lookup n p s.procs.name_procs ≡ none
    → find_call_info proc_name params_type s
      ≡ some (record {
        call_info = none;
        invoke_base = none;
        on_call_count_changed = none;
        on_invalid_remote_call = s.procs.on_invalid_remote_call;
      })
unfolding find_call_info
find_call_info-missing proc_name params_type n p s known typed w e =
    let key : SignatureKey = record { name = proc_name; params_type = params_type } in
    rw
      (
        find-lookup key n p s.procs.name_procs w.0 (record { name = known; params = typed })
            ∙ ap some e,
        find_call_info,
      )
      refl
