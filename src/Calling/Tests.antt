-- ===== src/Calling/Tests.antt =====
-- Concrete outgoing calls.
use ipc_portable.Common.{
  ℕ, ◌+◌, ◌≡◌, ◌≢◌, true, false, Option, none, some, List, [], ◌∷◌, ◌++◌, arith, length, drop,
  replicate, add32, IsU32, ◌≤◌,
}
use ipc_portable.Stream.{empty_stream}
use ipc_portable.Stream.Bytes.{write_unsafe, store_loop}
use ipc_portable.Signature.{codes, params_string}
use ipc_portable.Packet.{undefined_header, pt_call, c_invalid_id}
use ipc_portable.Call.Packets.{packet_layout}
use ipc_portable.Call.Receiving.{CallDataBuffer}
use ipc_portable.Call.Values.{Value, bool_value}
use ipc_portable.Call.Invocation.{IsCall, call_layout}
use ipc_portable.Calling.{PendingResponces, has_id, new_call_id, call_packet}
use ipc_portable.Calling.Fresh.{new_call_id-fresh}
use ipc_portable.Calling.Packets.{setting, call_packet-inplace}

abbrev no_data : CallDataBuffer
no_data = record { data_stream = empty_stream; header = undefined_header }

-- The counter has come round to 0, and answers wait under 1 and 2.
abbrev two_waiting : PendingResponces
two_waiting = record {
  thread_waiting_transport = none;
  incremental_id = 0;
  id_data_return = (1, no_data) ∷ (2, no_data) ∷ [];
  data_incoming_call = [];
}

new_call_id-fresh_example :
    (id : ℕ) × (new_call_id two_waiting
      ≡ some (id, record two_waiting { incremental_id = add32 id 1 }))
    × (id ≢ c_invalid_id)
    × IsU32 id
    × (has_id id two_waiting.id_data_return ≡ false)
new_call_id-fresh_example = new_call_id-fresh two_waiting (omega arith) (omega arith)

abbrev one_arg : List Value
one_arg = bool_value true ∷ []

abbrev full_buffer : List ℕ
full_buffer = replicate 64 5

abbrev layout : List ℕ
layout = call_layout (codes "f") false (codes "void") one_arg

abbrev zeros : ℕ → Option (List ℕ)
zeros n = some (replicate n 0)

f-IsCall : IsCall (codes "f") (codes "void") false one_arg
unfolding write_unsafe store_loop params_string
f-IsCall = record {
  name_size = omega arith;
  return_size = omega arith;
  params_size = omega arith;
  values = (tt, tt);
  packet_size = omega arith;
}

enough_room : 12 + length layout ≤ length full_buffer
unfolding write_unsafe store_loop params_string
enough_room = omega arith

call_packet-inplace_example :
    call_packet none (setting (codes "f") (some full_buffer)) (codes "void") false 7 one_arg
    ≡ some (
        some (
          packet_layout pt_call 7 layout
          ++ drop (length (packet_layout pt_call 7 layout)) full_buffer))
call_packet-inplace_example =
    call_packet-inplace (codes "f") (codes "void") false one_arg 7 none full_buffer f-IsCall
      enough_room (omega arith)
