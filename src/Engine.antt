-- ===== src/Engine.antt =====
-- The engine that serves incoming packets: the jobs of Ipc/MAssIpc_Internals.h and
-- Ipc/MAssIpc_Internals.cpp, and `MAssIpcCall::Internals` of Ipc/MAssIpcCall.cpp. What it does to
-- the rest of the program is kept as a list of effects, oldest first.
pub mod Jobs
pub mod Analysis
pub mod Answering
pub mod Serving
pub mod Rejecting
pub mod Tests
use ipc_portable.Common.{
  ℕ, Bool, true, false, not, Option, none, some, List, [], ◌∷◌, ◌++◌, length, get_elem?, set, leb,
  ◌==◌, if◌then◌else◌, Action, pure, ◌>>=◌, ◌>>◌,
}
use ipc_portable.Stream.{DataStream}
use ipc_portable.Stream.Procs.{put_enumerate_data}
use ipc_portable.Packet.{
  Header, c_invalid_id, pt_call, pt_return, pt_return_fail_call, pt_return_enumerate, pt_enumerate,
}
use ipc_portable.Call.{make_packet}
use ipc_portable.Call.Receiving.{CallDataBuffer}
use ipc_portable.Call.Returning.{ErrorArg, store_return_fail_call, load_return_fail_call}
use ipc_portable.Procs.{
  InvokeRemote, Callback, CallInfoImpl, increment_call_count, enumerate_handlers,
}
use ipc_portable.Engine.Jobs.{
  Engine, Effect, counted, posted, wrote, asserted, emit, lift, is_direct_call, count_job, call_job,
  call_job_invoke, send_error_message, write_packet,
}
use ipc_portable.Engine.Analysis.{AnalizeInvokeDataRes, analize_invoke_data}

-- `IncrementCallCount` on an object of the heap.
abbrev pub count_call : ℕ → Action Engine (Unit {0})
count_call ref e = elim (get_elem? e.procs.heap ref) [
  | none ↦ none
  | some c ↦ some (
    tt,
    record e { procs = record e.procs { heap = set e.procs.heap ref (increment_call_count c) } },
  )
]

-- Telling the callback that counts calls.
abbrev pub tell_count : Option Callback → ℕ → Action Engine (Unit {0})
tell_count none ref e = some (tt, e)
tell_count (some callback) ref e =
    if not callback.is_callable
    then some (tt, e)
    else if is_direct_call e callback.thread_id
    then emit (counted callback.delegate ref) e
    else emit (posted callback.thread_id (count_job callback ref)) e

abbrev pub count : AnalizeInvokeDataRes → Action Engine (Unit {0})
count invoke e = elim invoke.call_info [
  | none ↦ some (tt, e)
  | some ref ↦ (count_call ref >> tell_count invoke.on_call_count_changed ref) e
]

-- `CalcRespondId`.
abbrev pub calc_respond_id : Bool → ℕ → ℕ
calc_respond_id send_return id = if send_return then id else c_invalid_id

abbrev pub run_call : InvokeRemote → Bool → ℕ → DataStream → Action Engine (Unit {0})
run_call base send_return id params e =
    let respond_id = calc_respond_id send_return id in
    if is_direct_call e base.thread_id
    then call_job_invoke base respond_id params e
    else emit (posted base.thread_id (call_job params respond_id base)) e

-- The answer to a call that could not be made.
abbrev pub answer_failure : Option ErrorArg → Bool → ℕ → Action Engine (Unit {0})
answer_failure none send_return id e = emit asserted e
answer_failure (some arg) send_return id e =
    if not send_return
    then some (tt, e)
    else (lift (make_packet e.transport pt_return_fail_call id (store_return_fail_call arg))
          >>= write_packet)
        e

abbrev pub finish_call : AnalizeInvokeDataRes → ℕ → DataStream → Action Engine (Unit {0})
finish_call invoke id params e = elim invoke.invoke_base [
  | none ↦ answer_failure invoke.error_arg invoke.send_return id e
  | some base ↦ run_call base invoke.send_return id params e
]

abbrev pub after_analysis : ℕ → AnalizeInvokeDataRes × DataStream → Action Engine (Unit {0})
after_analysis id (invoke, params) = count invoke >> finish_call invoke id params

-- `InvokeLocal`.
unfoldable pub invoke_local : DataStream → ℕ → Action Engine (Unit {0})
invoke_local call_info_data id e = elim e.transport [
  | none ↦ emit asserted e
  | some _ ↦ (analize_invoke_data call_info_data >>= after_analysis id) e
]

abbrev pub report_failure : ErrorArg × DataStream → Action Engine (Unit {0})
report_failure (arg, s) e = send_error_message e.procs.procs.on_invalid_remote_call arg e

-- The branch `pt_enumerate`.
abbrev pub answer_enumerate : CallDataBuffer → Action Engine (Unit {0})
answer_enumerate buffer e =
    if not (buffer.header.size == 0)
    then emit asserted e
    else (elim (enumerate_handlers e.procs.heap e.procs.procs.name_procs) [
      | none ↦ none
      | some res ↦
          (lift (
                make_packet e.transport pt_return_enumerate buffer.header.id
                  (put_enumerate_data res))
              >>= λ data_buffer. λ e'. elim e'.transport [
                | none ↦ emit asserted e'
                | some _ ↦ write_packet data_buffer e'
              ])
            e
    ])

-- `ProcessBuffer`: the stream that is returned holds an answer, where the packet is one.
unfoldable pub process_buffer : CallDataBuffer → Action Engine (Option DataStream)
unfolding invoke_local
process_buffer buffer e =
    let t = buffer.header.packet_type in
    if t == pt_call
    then (invoke_local buffer.data_stream buffer.header.id >> pure none) e
    else if t == pt_return_fail_call
    then (lift (load_return_fail_call buffer.data_stream) >>= report_failure >> pure none) e
    else if t == pt_return_enumerate
    then some (some buffer.data_stream, e)
    else if t == pt_return
    then some (some buffer.data_stream, e)
    else if t == pt_enumerate
    then (answer_enumerate buffer >> pure none) e
    else (emit asserted >> pure none) e
