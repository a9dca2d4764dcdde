-- ===== src/Procs/Tests.antt =====
-- A map with one handler, and the operations on it.
use ipc_portable.Common.{ℕ, ◌≡◌, refl, true, false, ◌&&◌, none, some, [], ◌∷◌, arith, if◌then◌else◌}
use ipc_portable.RawString.{contents, of_string, convert_check_str_len, memcmp_eq}
use ipc_portable.RawString.Order.{Denotes, text_eq}
use ipc_portable.RawString.Wire.{text}
use ipc_portable.Signature.{codes}
use ipc_portable.Procs.{
  InvokeRemote, CallInfoImpl, CallData, Procs, ProcMap, add_all_procs, FindCallInfoRes,
  signature_key, find_call_info, add_proc_signature,
}
use ipc_portable.Procs.Table.{Entry, lookup, has_texts}
use ipc_portable.Procs.Objects.{IsProcs, handler, Denotes-signature_key}
use ipc_portable.Procs.Registration.{add_proc_signature-handler}
use ipc_portable.Procs.Searching.{
  object_of, with_entry, without_entry, find_call_info-handler, add_proc_signature-refused,
}
use ipc_portable.Procs.Merging.{first_of, add_all_procs-lookup}

abbrev answer : InvokeRemote
answer = record {
  thread_id = 0;
  tag = 5;
  is_callable = true;
  return_type = codes "void";
  params = [];
  run = λ _. none;
}

abbrev no_procs : Procs
no_procs = record {
  heap = [];
  procs = record { name_procs = []; on_call_count_changed = none; on_invalid_remote_call = none };
}

abbrev object : CallInfoImpl
object = record {
  invoke = some answer;
  call_count = 0;
  name = codes "f";
  params_type = codes "bool;";
}

abbrev entry : Entry CallData
entry = record { key = signature_key object; value = record { call_info = 0; comment = [] } }

abbrev one_proc : Procs
one_proc = record {
  heap = object ∷ [];
  procs = record {
    name_procs = entry ∷ [];
    on_call_count_changed = none;
    on_invalid_remote_call = none;
  };
}

entry-Denotes : Denotes (signature_key object) (codes "f") (codes "bool;")
entry-Denotes = Denotes-signature_key object (omega arith) (omega arith)

one_proc-IsProcs : IsProcs one_proc
one_proc-IsProcs = (
  ((codes "f", codes "bool;", entry-Denotes, tt), tt),
  ((object, refl, refl, omega arith, omega arith), tt),
)

name_f : contents (text (codes "f")) ≡ some (codes "f")
unfolding contents
name_f = refl

params_bool : contents (text (codes "bool;")) ≡ some (codes "bool;")
unfolding contents
params_bool = refl

no_handler : handler (codes "f") (codes "bool;") no_procs ≡ none
unfolding handler lookup
no_handler = refl

one_handler : handler (codes "f") (codes "bool;") one_proc ≡ some answer
unfolding handler lookup has_texts contents of_string convert_check_str_len text_eq memcmp_eq
one_handler = refl

registration_example :
    (ref : ℕ) × (s' : Procs) × (add_proc_signature
        (text (codes "f"))
        (codes "bool;")
        (some answer)
        []
        no_procs
      ≡ some (some ref, s'))
    × (d : CallData) × (lookup (codes "f") (codes "bool;") s'.procs.name_procs ≡ some d)
    × (d.call_info ≡ ref)
    × (d.comment ≡ [])
    × IsProcs s'
    × (handler (codes "f") (codes "bool;") s' ≡ (
        if text_eq (codes "f") (codes "f") && text_eq (codes "bool;") (codes "bool;")
        then some answer
        else handler (codes "f") (codes "bool;") no_procs))
registration_example =
    add_proc_signature-handler (text (codes "f")) (codes "f") (codes "bool;") [] (codes "f")
      (codes "bool;") answer no_procs name_f (omega arith) (omega arith) refl (tt, tt) no_handler

refused_example :
    add_proc_signature (text (codes "f")) (codes "bool;") (some answer) [] one_proc
    ≡ some (none, one_proc)
refused_example =
    add_proc_signature-refused (text (codes "f")) (codes "f") (codes "bool;") [] answer answer
      one_proc name_f (omega arith) refl one_proc-IsProcs one_handler

find_example :
    (r : FindCallInfoRes) × (find_call_info (text (codes "f")) (text (codes "bool;")) one_proc
      ≡ some r)
    × (r.invoke_base ≡ handler (codes "f") (codes "bool;") one_proc)
    × (r.call_info ≡ object_of (lookup (codes "f") (codes "bool;") one_proc.procs.name_procs))
    × (r.on_call_count_changed
        ≡ with_entry (lookup (codes "f") (codes "bool;") one_proc.procs.name_procs) none)
    × (r.on_invalid_remote_call
        ≡ without_entry (lookup (codes "f") (codes "bool;") one_proc.procs.name_procs) none)
find_example =
    find_call_info-handler (text (codes "f")) (text (codes "bool;")) (codes "f") (codes "bool;")
      one_proc name_f params_bool one_proc-IsProcs

add_all_procs-lookup_example :
    (m' : ProcMap) × (add_all_procs false one_proc.procs no_procs.procs ≡ some m')
    × IsProcs (record { heap = one_proc.heap; procs = m' })
    × (lookup (codes "f") (codes "bool;") m'.name_procs
        ≡ first_of
            (lookup (codes "f") (codes "bool;") [])
            (lookup (codes "f") (codes "bool;") (entry ∷ [])))
    × (m'.on_call_count_changed ≡ none)
    × (m'.on_invalid_remote_call ≡ none)
add_all_procs-lookup_example =
    add_all_procs-lookup one_proc.heap one_proc.procs no_procs.procs (codes "f") (codes "bool;")
      one_proc-IsProcs (tt, tt)
