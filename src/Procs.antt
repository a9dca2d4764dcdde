-- ===== src/Procs.antt =====
-- The map of handlers: `CallInfoImpl` and `ProcMap` of Ipc/MAssIpc_Internals.h and
-- Ipc/MAssIpc_Internals.cpp. The objects behind `std::shared_ptr<CallInfoImpl>` are kept in a heap
-- that the maps share, since `AddAllProcs` makes two maps point to one object; a reference is an
-- index. The lock that every operation holds makes each of them one step.
pub mod Table
pub mod Finite
pub mod Assigning
pub mod Objects
pub mod Heap
pub mod Registration
pub mod Searching
pub mod Clearing
pub mod Merging
pub mod Tests
use ipc_portable.Common.{
  ℕ, ◌+◌, Bool, true, false, not, ◌&&◌, Option, none, some, List, [], ◌∷◌, ◌++◌, length, get_elem?,
  set, ◌==◌, if◌then◌else◌, add32,
}
use ipc_portable.RawString.{RawString, of_string, contents, SignatureKey}
use ipc_portable.Stream.Procs.{ProcDescription}
use ipc_portable.Call.Values.{Value, ValueType}
use ipc_portable.Procs.Table.{Entry, find, insert, assign}

-- `InvokeRemoteImpl`: what was registered as a handler. `run` is the delegate, which the
-- application supplies; `none` is the result of a procedure without a value.
pub record InvokeRemote : Type 0 where
  pub thread_id : ℕ
  pub tag : ℕ
  pub is_callable : Bool
  pub return_type : List ℕ
  pub params : List ValueType
  pub run : List Value → Option Value

-- `CallCountChanged` and `ErrorOccured`, with a number for the delegate.
pub record Callback : Type 0 where
  pub thread_id : ℕ
  pub tag : ℕ
  pub is_callable : Bool
  pub delegate : ℕ

pub record CallInfoImpl : Type 0 where
  pub invoke : Option InvokeRemote
  pub call_count : ℕ
  pub name : List ℕ
  pub params_type : List ℕ

abbrev pub signature_key : CallInfoImpl → SignatureKey
signature_key c = record { name = of_string c.name; params_type = of_string c.params_type }

abbrev pub increment_call_count : CallInfoImpl → CallInfoImpl
increment_call_count c = record c { call_count = add32 c.call_count 1 }

abbrev pub set_invoke : Option InvokeRemote → CallInfoImpl → CallInfoImpl
set_invoke invoke c = record c { invoke = invoke }

abbrev pub if_callable : Option InvokeRemote → Option InvokeRemote
if_callable none = none
if_callable (some i) = if i.is_callable then some i else none

-- `IsInvokable`.
abbrev pub is_invokable : CallInfoImpl → Option InvokeRemote
is_invokable c = if_callable c.invoke

abbrev pub is_some {ℓ} : {A : Type ℓ} → Option A → Bool
is_some none = false
is_some (some _) = true

pub record CallData : Type 0 where
  pub call_info : ℕ
  pub comment : List ℕ

pub record ProcMap : Type 0 where
  pub name_procs : List (Entry CallData)
  pub on_call_count_changed : Option Callback
  pub on_invalid_remote_call : Option Callback

-- A map and the heap that its entries point into.
pub record Procs : Type 0 where
  pub heap : List CallInfoImpl
  pub procs : ProcMap

pub record FindCallInfoRes : Type 0 where
  pub call_info : Option ℕ
  pub invoke_base : Option InvokeRemote
  pub on_call_count_changed : Option Callback
  pub on_invalid_remote_call : Option Callback

abbrev pub found : Procs → Option CallData → Option FindCallInfoRes
found s none = some (record {
  call_info = none;
  invoke_base = none;
  on_call_count_changed = none;
  on_invalid_remote_call = s.procs.on_invalid_remote_call;
})
found s (some call_data) = elim (get_elem? s.heap call_data.call_info) [
  | none ↦ none
  | some c ↦ some (record {
    call_info = some call_data.call_info;
    invoke_base = is_invokable c;
    on_call_count_changed = s.procs.on_call_count_changed;
    on_invalid_remote_call = none;
  })
]

-- `FindCallInfo`.
unfoldable pub find_call_info : RawString → RawString → Procs → Option FindCallInfoRes
find_call_info proc_name params_type s =
    elim (find (record { name = proc_name; params_type = params_type }) s.procs.name_procs) [
      | none ↦ none
      | some call_data ↦ found s call_data
    ]

-- `Std_String()` of the two strings of a key.
abbrev describe :
    CallData
    → Option InvokeRemote
    → Option (List ℕ)
    → Option (List ℕ)
    → Option (List ProcDescription)
    → Option (List ProcDescription)
describe call_data none name params rest = rest
describe call_data (some i) (some name) (some params) (some rest) = some (
    record {
      name = name;
      return_type = i.return_type;
      params_types = params;
      comment = call_data.comment;
    }
    ∷ rest)
describe call_data (some i) (some name) (some params) none = none
describe call_data (some i) (some name) none rest = none
describe call_data (some i) none params rest = none

-- `EnumerateHandlers`.
unfoldable pub enumerate_handlers :
    List CallInfoImpl → List (Entry CallData) → Option (List ProcDescription)
enumerate_handlers heap [] = some []
enumerate_handlers heap (e ∷ es) = elim (get_elem? heap e.value.call_info) [
  | none ↦ none
  | some c ↦
      describe e.value (is_invokable c) (contents e.key.name) (contents e.key.params_type)
        (enumerate_handlers heap es)
]

-- The end of `AddProcSignature`: the handler is stored in the object, and the object returned.
abbrev pub store_invoke : Option InvokeRemote → ℕ → Procs → Option (Option ℕ × Procs)
store_invoke none ref s = some (some ref, s)
store_invoke (some i) ref s =
    if not i.is_callable then some (some ref, s) else (elim (get_elem? s.heap ref) [
      | none ↦ none
      | some c ↦ some (some ref, record s { heap = set s.heap ref (set_invoke (some i) c) })
    ])

-- A signature that is new: an object and an entry for it.
abbrev pub add_new :
    Option (List ℕ) → List ℕ → Option InvokeRemote → List ℕ → Procs → Option (Option ℕ × Procs)
add_new none params_type invoke comment s = none
add_new (some name) params_type invoke comment s =
    let c : CallInfoImpl = record {
      invoke = none;
      call_count = 0;
      name = name;
      params_type = params_type;
    } in
    let ref = length s.heap in
    elim (insert (signature_key c) (record { call_info = ref; comment = comment })
      s.procs.name_procs) [
        | none ↦ none
        | some es ↦
            store_invoke invoke ref
              (record { heap = s.heap ++ (c ∷ []); procs = record s.procs { name_procs = es } })
      ]

-- A signature that has an entry: a handler is not replaced by a handler.
abbrev pub add_again :
    SignatureKey → Option InvokeRemote → List ℕ → CallData → Procs → Option (Option ℕ × Procs)
add_again key invoke comment call_data s = elim (get_elem? s.heap call_data.call_info) [
  | none ↦ none
  | some c ↦
      if is_some (is_invokable c) && is_some (if_callable invoke)
      then some (none, s)
      else (elim (assign key (record call_data { comment = comment }) s.procs.name_procs) [
        | none ↦ none
        | some es ↦
            store_invoke invoke call_data.call_info
              (record s { procs = record s.procs { name_procs = es } })
      ])
]

-- `AddProcSignature`.
unfoldable pub add_proc_signature :
    RawString → List ℕ → Option InvokeRemote → List ℕ → Procs → Option (Option ℕ × Procs)
add_proc_signature proc_name params_type invoke comment s =
    let key : SignatureKey = record { name = proc_name; params_type = of_string params_type } in
    elim (find key s.procs.name_procs) [
      | none ↦ none
      | some none ↦ add_new (contents proc_name) params_type invoke comment s
      | some (some call_data) ↦ add_again key invoke comment call_data s
    ]

-- `AddAllProcs`, behind the test that the other map is not this one: what is there stays.
unfoldable pub add_entries :
    List (Entry CallData) → List (Entry CallData) → Option (List (Entry CallData))
add_entries [] es = some es
add_entries (o ∷ others) es = elim (insert o.key o.value es) [
  | none ↦ none
  | some es' ↦ add_entries others es'
]

abbrev pub add_all_procs : Bool → ProcMap → ProcMap → Option ProcMap
add_all_procs is_same other m =
    if is_same then some m else (elim (add_entries other.name_procs m.name_procs) [
      | none ↦ none
      | some es ↦ some (record m { name_procs = es })
    ])

abbrev pub clear_all_procs : ProcMap → ProcMap
clear_all_procs m = record m { name_procs = [] }

abbrev pub has_tag : ℕ → Option InvokeRemote → Bool
has_tag tag none = false
has_tag tag (some i) = i.tag == tag

abbrev pub keep_unless :
    Bool → Entry CallData → Option (List (Entry CallData)) → Option (List (Entry CallData))
keep_unless b e none = none
keep_unless true e (some es) = some es
keep_unless false e (some es) = some (e ∷ es)

-- The loop of `ClearProcsWithTag`.
unfoldable pub erase_tagged :
    List CallInfoImpl → ℕ → List (Entry CallData) → Option (List (Entry CallData))
erase_tagged heap tag [] = some []
erase_tagged heap tag (e ∷ es) = elim (get_elem? heap e.value.call_info) [
  | none ↦ none
  | some c ↦ keep_unless (has_tag tag (is_invokable c)) e (erase_tagged heap tag es)
]

-- `ClearCallbackTag`.
abbrev pub clear_callback_tag : ℕ → Option Callback → Option Callback
clear_callback_tag tag none = none
clear_callback_tag tag (some c) = if c.tag == tag then none else some c

-- `ClearProcsWithTag`.
unfoldable pub clear_procs_with_tag : ℕ → Procs → Option Procs
unfolding erase_tagged
clear_procs_with_tag tag s = elim (erase_tagged s.heap tag s.procs.name_procs) [
  | none ↦ none
  | some es ↦ some (record s {
    procs = record {
      name_procs = es;
      on_call_count_changed = clear_callback_tag tag s.procs.on_call_count_changed;
      on_invalid_remote_call = clear_callback_tag tag s.procs.on_invalid_remote_call;
    };
  })
]

-- `SetCallCountChanged` and `SetErrorHandler`: the old value is returned.
abbrev pub set_call_count_changed : Option Callback → ProcMap → Option Callback × ProcMap
set_call_count_changed new_val m =
    (m.on_call_count_changed, record m { on_call_count_changed = new_val })

abbrev pub set_error_handler : Option Callback → ProcMap → Option Callback × ProcMap
set_error_handler new_val m =
    (m.on_invalid_remote_call, record m { on_invalid_remote_call = new_val })
