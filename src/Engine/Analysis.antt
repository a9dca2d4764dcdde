-- ===== src/Engine/Analysis.antt =====
-- `AnalizeInvokeData` and `ReportError_FindCallInfo` (Ipc/MAssIpcCall.cpp): which handler a call is
-- for, or why there is none.
use ipc_portable.Common.{
  ℕ, Bool, true, false, Option, none, some, List, [], ◌∷◌, ◌++◌, ◌==◌, if◌then◌else◌, Action, pure,
  ◌>>=◌, ◌>>◌,
}
use ipc_portable.Stream.{DataStream}
use ipc_portable.RawString.{contents, raw_eq}
use ipc_portable.RawString.Wire.{text}
use ipc_portable.Call.Invocation.{DeserializedFindCallInfo, deserialize_name_signature}
use ipc_portable.Call.Returning.{
  ErrorArg, no_matching_call_name_parameters, no_matching_call_return_type,
}
use ipc_portable.Procs.{InvokeRemote, Callback, FindCallInfoRes, find_call_info}
use ipc_portable.Engine.Jobs.{Engine, lift, send_error_message}

pub record AnalizeInvokeDataRes : Type 0 where
  pub call_info : Option ℕ
  pub invoke_base : Option InvokeRemote
  pub send_return : Bool
  pub on_call_count_changed : Option Callback
  pub error_arg : Option ErrorArg

-- The message "return_type proc_name(params_type)", of strings that have to be readable.
abbrev pub message_of : Option (List ℕ) → Option (List ℕ) → Option (List ℕ) → Option (List ℕ)
message_of none name params = none
message_of (some return_type) none params = none
message_of (some return_type) (some name) none = none
message_of (some return_type) (some name) (some params) =
    some (return_type ++ (b' ' ∷ (name ++ (b'(' ∷ (params ++ (b')' ∷ []))))))

-- `ReportError_FindCallInfo`.
unfoldable pub report_error_find_call_info :
    DeserializedFindCallInfo → ℕ → FindCallInfoRes → Action Engine AnalizeInvokeDataRes
report_error_find_call_info info error find_res = do
  message ←
      lift (message_of (contents info.return_type) (contents info.name) (contents info.params_type))
  send_error_message find_res.on_invalid_remote_call (record { error = error; message = message })
  pure (record {
    call_info = find_res.call_info;
    invoke_base = none;
    send_return = info.send_return;
    on_call_count_changed = find_res.on_call_count_changed;
    error_arg = some (record { error = error; message = message });
  })

abbrev pub matched :
    DeserializedFindCallInfo → FindCallInfoRes → InvokeRemote → AnalizeInvokeDataRes
matched info find_res base = record {
  call_info = find_res.call_info;
  invoke_base = some base;
  send_return = info.send_return;
  on_call_count_changed = find_res.on_call_count_changed;
  error_arg = none;
}

-- The check of the return type, where the packet names one.
unfoldable pub check_return_type :
    DeserializedFindCallInfo → FindCallInfoRes → InvokeRemote → Action Engine AnalizeInvokeDataRes
unfolding report_error_find_call_info
check_return_type info find_res base e =
    if info.return_type.len == 0
    then some (matched info find_res base, e)
    else (elim (raw_eq info.return_type (text base.return_type)) [
      | none ↦ none
      | some true ↦ some (matched info find_res base, e)
      | some false ↦ report_error_find_call_info info no_matching_call_return_type find_res e
    ])

unfoldable pub check_found :
    DeserializedFindCallInfo → FindCallInfoRes → Action Engine AnalizeInvokeDataRes
unfolding report_error_find_call_info check_return_type
check_found info find_res e = elim find_res.invoke_base [
  | none ↦ report_error_find_call_info info no_matching_call_name_parameters find_res e
  | some base ↦ check_return_type info find_res base e
]

abbrev pub search :
    DeserializedFindCallInfo × DataStream → Action Engine (AnalizeInvokeDataRes × DataStream)
search (info, rest) e =
    (lift (find_call_info info.name info.params_type e.procs) >>= check_found info >>= λ invoke.
    pure (invoke, rest))
      e

-- `AnalizeInvokeData`, with the stream behind the signature.
unfoldable pub analize_invoke_data : DataStream → Action Engine (AnalizeInvokeDataRes × DataStream)
unfolding check_found
analize_invoke_data call_info_data = lift (deserialize_name_signature call_info_data) >>= search
