-- ===== src/Engine/Jobs.antt =====
-- The effects of the engine, and the jobs: `CallJob`, `ResultJob`, `CountJob`, `ErrorJob`, and
-- `InvokeRemoteImpl::Invoke` (Ipc/MAssIpc_Internals.h and Ipc/MAssIpc_Internals.cpp), with
-- `SendErrorMessage` and `IsDirectCall` (Ipc/MAssIpcCall.cpp and Ipc/MAssIpcCall.h).
use ipc_portable.Common.{
  ℕ, Bool, not, ◌||◌, Option, none, some, List, [], ◌∷◌, ◌++◌, length, leb, ◌==◌, if◌then◌else◌,
  Action, ◌>>=◌, ◌>>◌,
}
use ipc_portable.Stream.{DataStream}
use ipc_portable.Packet.{c_invalid_id, c_net_call_packet_header_size}
use ipc_portable.Call.{Creator}
use ipc_portable.Call.Values.{Value, deserialize_args}
use ipc_portable.Call.Returning.{ErrorArg, serialize_return, serialize_return_void}
use ipc_portable.Procs.{InvokeRemote, Callback, Procs}

pub data Job : Type 0 where
  call_job : DataStream → ℕ → InvokeRemote → Job
  result_job : Option (List ℕ) → Job
  count_job : Callback → ℕ → Job
  error_job : Callback → ErrorArg → Job

-- What the rest of the program sees: a delegate called with arguments, a count or an error told to
-- a callback, a job posted to a thread, a packet written, an assert raised.
pub data Effect : Type 0 where
  called : InvokeRemote → List Value → Effect
  counted : ℕ → ℕ → Effect
  reported : ℕ → ErrorArg → Effect
  posted : ℕ → Job → Effect
  wrote : List ℕ → Effect
  asserted : Effect

-- `transport` and `inter_thread` are weak pointers: `none` and `false` are those that are gone.
-- `result_thread` is what `GetResultSendThreadId` gives.
pub record Engine : Type 0 where
  pub procs : Procs
  pub transport : Creator
  pub inter_thread : Bool
  pub result_thread : ℕ
  pub effects : List Effect

abbrev pub emit : Effect → Action Engine (Unit {0})
emit x e = some (tt, record e { effects = e.effects ++ (x ∷ []) })

-- A computation that may fault and does not touch the engine.
abbrev pub lift : {A : Type 0} → Option A → Action Engine A
lift none e = none
lift (some a) e = some (a, e)

-- The number of `DirectCallPseudoId()`.
abbrev pub direct_call_pseudo_id : ℕ
direct_call_pseudo_id = 0

-- `IsDirectCall`.
abbrev pub is_direct_call : Engine → ℕ → Bool
is_direct_call e thread_id = not e.inter_thread || (thread_id == direct_call_pseudo_id)

-- `transport->Write` of a packet that may be null.
abbrev pub write_packet : Option (List ℕ) → Action Engine (Unit {0})
write_packet none e = some (tt, e)
write_packet (some packet) e = emit (wrote packet) e

-- `ResultJob::Invoke`: the result is read through its pointer before any test.
unfoldable pub result_job_invoke : Option (List ℕ) → Action Engine (Unit {0})
result_job_invoke none e = none
result_job_invoke (some result) e =
    if not (leb c_net_call_packet_header_size (length result))
    then emit asserted e
    else (elim e.transport [ none ↦ emit asserted e | some _ ↦ emit (wrote result) e ])

-- `MakeCallSerializeReturn`, behind the delegate.
abbrev pub serialize_result : Option Value → Creator → ℕ → Option (Option (List ℕ))
serialize_result none transport respond_id = serialize_return_void transport respond_id
serialize_result (some ret) transport respond_id = serialize_return ret transport respond_id

abbrev pub call_delegate :
    InvokeRemote → ℕ → List Value × DataStream → Action Engine (Option (List ℕ))
call_delegate base respond_id (args, s) e =
    (emit (called base args) >> lift (serialize_result (base.run args) e.transport respond_id)) e

-- `InvokeRemoteImpl::Invoke`.
unfoldable pub invoke_remote_impl : InvokeRemote → ℕ → DataStream → Action Engine (Option (List ℕ))
invoke_remote_impl base respond_id params =
    lift (deserialize_args base.params params) >>= call_delegate base respond_id

abbrev pub send_result : ℕ → Option (List ℕ) → Action Engine (Unit {0})
send_result respond_id result e =
    if respond_id == c_invalid_id
    then some (tt, e)
    else if e.inter_thread
    then emit (posted e.result_thread (result_job result)) e
    else result_job_invoke result e

-- `CallJob::Invoke`.
unfoldable pub call_job_invoke : InvokeRemote → ℕ → DataStream → Action Engine (Unit {0})
unfolding invoke_remote_impl result_job_invoke
call_job_invoke base respond_id params =
    invoke_remote_impl base respond_id params >>= send_result respond_id

-- `SendErrorMessage`.
abbrev pub send_error_message : Option Callback → ErrorArg → Action Engine (Unit {0})
send_error_message none arg e = some (tt, e)
send_error_message (some callback) arg e =
    if not callback.is_callable
    then some (tt, e)
    else if is_direct_call e callback.thread_id
    then emit (reported callback.delegate arg) e
    else emit (posted callback.thread_id (error_job callback arg)) e
