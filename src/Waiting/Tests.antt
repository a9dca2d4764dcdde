-- ===== src/Waiting/Tests.antt =====
-- Two threads that wait for answers.
use ipc_portable.Common.{
  ℕ, true, false, Option, none, some, List, [], ◌∷◌, ◌++◌, ◌≡◌, ◌≢◌, refl, ◌⊎◌, if◌then◌else◌,
}
use ipc_portable.Stream.{stream_of_read, read_bytes}
use ipc_portable.Stream.Integers.{get_uint32}
use ipc_portable.Stream.Bytes.{read_unsafe, load_loop}
use ipc_portable.Packet.{pt_return, read_header}
use ipc_portable.Call.Receiving.{CallDataBuffer, receive_call_data_buffer}
use ipc_portable.Calling.{has_id, find_id, insert_id}
use ipc_portable.Engine.Jobs.{Engine}
use ipc_portable.Waiting.{is_current, is_new_return, search, read_buffer, write_buffer}
use ipc_portable.Waiting.Threads.{
  waiting, entering, Frame, System, Event, silent, took, Move, call, proceed, transport_read, move,
  notify_all, initial, Reach, here, next,
}
use ipc_portable.Waiting.Exclusion.{readers, Reach-readers}
use ipc_portable.Waiting.Wakeup.{waiting-reader}
use ipc_portable.Waiting.Keeping.{is_call, read_calls, taken_calls, kept_answer}
use ipc_portable.Waiting.Order.{Reach-queues}
use ipc_portable.Waiting.Returning.{took-own, answer-returned, with_answer, answered}

abbrev engine : Engine
engine = record {
  procs = record {
    heap = [];
    procs = record { on_call_count_changed = none; on_invalid_remote_call = none; name_procs = [] };
  };
  transport = some (λ n. some []);
  inter_thread = false;
  result_thread = 0;
  effects = [];
}

record Run : Type 0 where
  events : List Event
  last : System
  reach : Reach (initial engine) events last

-- A move that cannot be made is left out.
turn : Run → ℕ → Move → Run
turn r thread m = go (move thread m r.last) refl
  where
    go : (o : Option (Event × System)) → move thread m r.last ≡ o → Run
    go none e = r
    go (some (event, t)) e = record {
      events = event ∷ r.events;
      last = t;
      reach = next r.reach thread m e;
    }

abbrev answer_packet : List ℕ
answer_packet = 0 ∷ 0 ∷ 0 ∷ 0 ∷ 3 ∷ 0 ∷ 0 ∷ 0 ∷ 8 ∷ 0 ∷ 0 ∷ 0 ∷ []

-- Thread 1 reads the transport for the answer 7, and thread 2 sleeps for the answer 8.
two_wait : Run
unfolding turn move read_buffer search find_id
two_wait =
    turn
      (turn
        (turn (turn (record { events = []; last = initial engine; reach = here }) 1 (call 7 false))
          1 proceed)
        2 (call 8 true))
      2 proceed

-- Thread 1 reads the answer 8, and thread 2 is notified.
answer_kept : Run
unfolding two_wait write_buffer insert_id has_id notify_all receive_call_data_buffer read_header
    get_uint32 read_bytes read_unsafe load_loop
answer_kept = turn (turn two_wait 1 (transport_read true (some answer_packet))) 1 proceed

-- Thread 3 wants the answer 8 too.
third_calls : Run
unfolding answer_kept
third_calls = turn answer_kept 3 (call 8 false)

two_wait-lock : two_wait.last.pending.thread_waiting_transport ≡ some 1
unfolding two_wait
two_wait-lock = refl

answer_kept-has_id : has_id 8 answer_kept.last.pending.id_data_return ≡ true
unfolding answer_kept
answer_kept-has_id = refl

Reach-readers_example :
    readers (two_wait.last.frames 1)
    ≡ (if is_current 1 two_wait.last.pending.thread_waiting_transport then 1 else 0)
Reach-readers_example = Reach-readers engine two_wait.reach 1

abbrev sleeper : Frame
sleeper = record { wait_response_id = 8; process_incoming_calls = true; phase = waiting }

waiting-reader_example :
    (u : ℕ) × (two_wait.last.pending.thread_waiting_transport ≡ some u)
    × (u ≢ 2)
    × (readers (two_wait.last.frames u) ≡ 1)
    × ((g : Frame) (others : List Frame) → two_wait.last.frames u ≡ g ∷ others → g.phase ≢ waiting)
    × (find_id 8 two_wait.last.pending.id_data_return ≡ none)
    × (true ≡ true → two_wait.last.pending.data_incoming_call ≡ [])
unfolding two_wait
waiting-reader_example = waiting-reader engine two_wait.reach 2 sleeper [] refl refl

Reach-queues_example :
    (read_calls answer_kept.events
      ≡ taken_calls answer_kept.events ++ answer_kept.last.pending.data_incoming_call)
    × ((id : ℕ)
        → find_id id answer_kept.last.pending.id_data_return ≡ kept_answer id answer_kept.events)
Reach-queues_example = Reach-queues engine answer_kept.reach

abbrev third : Frame
third = record { wait_response_id = 8; process_incoming_calls = false; phase = entering }

abbrev answer : CallDataBuffer
answer = record {
  data_stream = record (stream_of_read answer_packet) { read_pos = 12 };
  header = record { size = 0; packet_type = pt_return; id = 8 };
}

answer-returned_example :
    (move 3 proceed third_calls.last
      ≡ some (took answer, with_answer 3 third [] third_calls.last answer))
    × (move 3 proceed (with_answer 3 third [] third_calls.last answer)
        ≡ some (silent, answered 3 third [] third_calls.last answer))
unfolding third_calls
answer-returned_example =
    answer-returned engine third_calls.reach 3 third [] answer refl refl refl refl refl

third_calls-frames : third_calls.last.frames 3 ≡ third ∷ []
unfolding third_calls
third_calls-frames = refl

took-own_example :
    ((is_call answer ≡ true) × (false ≡ true))
    ⊎ ((is_new_return answer ≡ true) × (8 ≡ third.wait_response_id))
took-own_example =
    took-own engine third_calls.reach 3 third [] answer third_calls-frames answer-returned_example.0
