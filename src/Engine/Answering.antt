-- ===== src/Engine/Answering.antt =====
-- A call that a handler is there for, from its packet to the packet of the answer.
use ipc_portable.Common.{
  ℕ, ◌≤◌, ◌≡◌, ◌≢◌, ap, ◌∙◌, false, Option, some, List, [], ◌∷◌, ◌++◌, length, arith, ◌==◌,
  bind_step,
}
use ipc_portable.Stream.{DataStream}
use ipc_portable.Packet.{c_invalid_id, c_net_call_packet_header_size}
use ipc_portable.Call.Values.{Value, deserialize_args}
use ipc_portable.Procs.{InvokeRemote}
use ipc_portable.Engine.Jobs.{
  Engine, called, wrote, lift, call_job_invoke, invoke_remote_impl, call_delegate, send_result,
  serialize_result, result_job_invoke,
}

module _ (h : InvokeRemote) (id : ℕ) (s s' : DataStream) (args : List Value) (packet : List ℕ)
    (create : ℕ → Option (List ℕ)) (e : Engine)
    (taken : deserialize_args h.params s ≡ some (args, s')) (valid : id ≢ c_invalid_id)
    (connected : e.transport ≡ some create) (alone : e.inter_thread ≡ false)
    (serialized : serialize_result (h.run args) (some create) id ≡ some (some packet))
    (whole : c_net_call_packet_header_size ≤ length packet) where
  abbrev pub answered : Engine
  answered = record e { effects = (e.effects ++ (called h args ∷ [])) ++ (wrote packet ∷ []) }

  abbrev after_call : Engine
  after_call = record e { effects = e.effects ++ (called h args ∷ []) }

  invoke_remote_impl-after : invoke_remote_impl h id s e ≡ some (some packet, after_call)
  unfolding invoke_remote_impl
  invoke_remote_impl-after =
      bind_step (lift (deserialize_args h.params s)) (call_delegate h id) e
        (ap (λ o. lift o e) taken)
      ∙ ap (λ t. lift (serialize_result (h.run args) t id) after_call) connected
      ∙ ap (λ o. lift o after_call) serialized

  send_result-after : send_result id (some packet) after_call ≡ some (tt, answered)
  unfolding result_job_invoke
  send_result-after =
      let known : (id == c_invalid_id) ≡ false = ground (arith, valid) in
      ground (arith, known, alone, whole, connected)

  pub call_job_invoke-answered : call_job_invoke h id s e ≡ some (tt, answered)
  unfolding call_job_invoke
  call_job_invoke-answered =
      bind_step (invoke_remote_impl h id s) (send_result id) e invoke_remote_impl-after
      ∙ send_result-after
