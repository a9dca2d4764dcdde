-- ===== src/Waiting/Returning.antt =====
-- What a call of `ProcessTransportResponse` takes, and the answer that it returns.
use mathlib.Core.Path.{subst}
use ipc_portable.Common.{
  ℕ, Bool, true, false, Option, none, some, List, [], ◌∷◌, ◌==◌, ◌≡◌, refl, sym, ap, ◌∙◌, ◌⊎◌,
  arith, All, inl, inr, Bool-cases, ==_iff,
}
use ipc_portable.Stream.{DataStream}
use ipc_portable.Packet.{c_invalid_id, pt_call, pt_return, pt_return_fail_call, pt_return_enumerate}
use ipc_portable.Call.Receiving.{CallDataBuffer}
use ipc_portable.Calling.{PendingResponces, find_id, erase_id}
use ipc_portable.Engine.{process_buffer}
use ipc_portable.Engine.Jobs.{Engine}
use ipc_portable.Waiting.{
  buffer, is_new_return, is_current, is_locked, after_find, next_incoming_call, to_transport,
  search, read_buffer, response_processed,
}
use ipc_portable.Waiting.Threads.{
  Phase, entering, waiting, notified, reading, arrived, processing, returned, Frame, System, Event,
  silent, took, stored, proceed, move, go, found_event, after_process, move_newest, initial, Reach,
  enter, update, after_found, to_phase, processed_phase,
}
use ipc_portable.Waiting.Rules.{After}
use ipc_portable.Waiting.Answers.{find_id-IsKept}
use ipc_portable.Waiting.Keeping.{is_call, Agreed}
use ipc_portable.Waiting.Order.{Reach-Recorded}

abbrev IsOwn : Frame → CallDataBuffer → Type 0
IsOwn f b =
    ((is_call b ≡ true) × (f.process_incoming_calls ≡ true))
    ⊎ ((is_new_return b ≡ true) × (b.header.id ≡ f.wait_response_id))

-- What an event says of the packet that a call takes.
abbrev OwnEvent : Frame → Event → Type 0
OwnEvent f silent = Unit
OwnEvent f (stored b) = Unit
OwnEvent f (took b) = IsOwn f b

module _ (thread : ℕ) (f : Frame) (events : List Event) (p : PendingResponces)
    (a : Agreed events p) where
  to_transport-own : OwnEvent f (found_event (to_transport thread f.wait_response_id p).0)
  to_transport-own = elim (Bool-cases (is_locked p.thread_waiting_transport)) [
    | inl locked ↦ elim (Bool-cases (f.wait_response_id == c_invalid_id)) [
      | inl nowait ↦ rw locked (rw nowait tt)
      | inr waits ↦ rw locked (rw waits tt)
    ]
    | inr free ↦ rw free tt
  ]

  calls_own :
      (calls : List CallDataBuffer)
      → f.process_incoming_calls ≡ true
      → All (λ b. is_call b ≡ true) calls
      → OwnEvent f (found_event (next_incoming_call thread f.wait_response_id p calls).0)
  calls_own [] processes all = to_transport-own
  calls_own (b ∷ calls) processes (first, others) = inl (first, processes)

  find_own :
      (o : Option CallDataBuffer)
      → find_id f.wait_response_id p.id_data_return ≡ o
      → (process : Bool) → f.process_incoming_calls ≡ process
      → OwnEvent f (found_event (after_find thread f.wait_response_id process p o).0)
  find_own (some b) e process k = inr (find_id-IsKept f.wait_response_id p.id_data_return a.kept e)
  find_own none e true k = calls_own p.data_incoming_call k a.queued
  find_own none e false k = to_transport-own

  search-own :
      OwnEvent f (found_event (search thread f.wait_response_id f.process_incoming_calls p).0)
  unfolding search
  search-own =
      find_own (find_id f.wait_response_id p.id_data_return) refl f.process_incoming_calls refl

  read_buffer-own :
      OwnEvent f (found_event (read_buffer thread f.wait_response_id f.process_incoming_calls p).0)
  unfolding read_buffer
  read_buffer-own = elim (Bool-cases (is_current thread p.thread_waiting_transport)) [
    | inl inside ↦ rw inside tt
    | inr outside ↦ rw outside search-own
  ]

processed-own :
    (thread : ℕ) (f : Frame) (rest : List Frame) (s : System) (b : CallDataBuffer)
    (o : Option (Option DataStream × Engine))
    → After (λ event _. OwnEvent f event) (after_process thread f rest s b o)
processed-own thread f rest s b none = tt
processed-own thread f rest s b (some (result, engine)) = tt

go-own :
    (thread : ℕ) (f : Frame) (rest : List Frame) (events : List Event) (s : System)
    → Agreed events s.pending
    → (phase : Phase) → After (λ event _. OwnEvent f event) (go thread f rest s phase)
unfolding go
go-own thread f rest events s a entering = read_buffer-own thread f events s.pending a
go-own thread f rest events s a notified = search-own thread f events s.pending a
go-own thread f rest events s a waiting = tt
go-own thread f rest events s a reading = tt
go-own thread f rest events s a (arrived ok b) = tt
go-own thread f rest events s a (processing b) =
    processed-own thread f rest s b (process_buffer b s.engine)
go-own thread f rest events s a (returned result) = tt

-- Whatever threads did before, a packet that the newest call of a thread takes is an incoming call,
-- and the call processes these, or it is an answer with the id that the call waits for.
pub took-own :
    (engine : Engine) {events : List Event} {s t : System}
    → Reach (initial engine) events s
    → (thread : ℕ) (f : Frame) (rest : List Frame) (b : CallDataBuffer) → s.frames thread ≡ f ∷ rest
    → move thread proceed s ≡ some (took b, t)
    → ((is_call b ≡ true) × (f.process_incoming_calls ≡ true))
      ⊎ ((is_new_return b ≡ true) × (b.header.id ≡ f.wait_response_id))
unfolding move
took-own engine {events} {s} r thread f rest b newest moved =
    subst (After (λ event _. OwnEvent f event))
      (sym (ap (λ frames. move_newest thread proceed frames s) newest) ∙ moved)
      (go-own thread f rest events s (Reach-Recorded engine r) f.phase)

at_self :
    (thread : ℕ) (frames : List Frame) (all : ℕ → List Frame)
    → update thread frames all thread ≡ frames
at_self thread frames all = rw ((==_iff thread thread).1 refl) refl

-- The call that waits for an answer, and the answer taken from where it is kept.
module _ (thread : ℕ) (f : Frame) (rest : List Frame) (s : System) (b : CallDataBuffer) where
  abbrev pub without_answer : PendingResponces
  without_answer = record s.pending {
    id_data_return = erase_id f.wait_response_id s.pending.id_data_return;
  }

  abbrev pub with_answer : System
  with_answer = record s {
    pending = without_answer;
    frames = update thread (enter (processing b) f ∷ rest) s.frames;
  }

  abbrev pub answered : System
  answered = record s {
    pending = without_answer;
    frames = update thread (enter (returned (some b.data_stream)) f ∷ rest) with_answer.frames;
  }

  step_take :
      is_current thread s.pending.thread_waiting_transport ≡ false
      → find_id f.wait_response_id s.pending.id_data_return ≡ some b
      → go thread f rest s entering ≡ some (took b, with_answer)
  unfolding go read_buffer search
  step_take outside kept =
      let found : search thread f.wait_response_id f.process_incoming_calls s.pending
          ≡ (buffer b, without_answer) =
        ap (after_find thread f.wait_response_id f.process_incoming_calls s.pending) kept in
      rw outside (ap (λ r. some (after_found thread f rest s r)) found)

  processes :
      b.header.packet_type ≡ pt_return
      → process_buffer b s.engine ≡ some (some b.data_stream, s.engine)
  unfolding process_buffer
  processes typed =
      let no_call : (b.header.packet_type == pt_call) ≡ false = ground (arith, typed) in
      let no_fail : (b.header.packet_type == pt_return_fail_call) ≡ false = ground (arith, typed) in
      let no_enumerate : (b.header.packet_type == pt_return_enumerate) ≡ false =
        ground (arith, typed) in
      let answer : (b.header.packet_type == pt_return) ≡ true = ground (arith, typed) in
      rw no_call (rw no_fail (rw no_enumerate (rw answer refl)))

  step_process :
      b.header.packet_type ≡ pt_return
      → b.header.id ≡ f.wait_response_id
      → go thread (enter (processing b) f) rest with_answer (processing b) ≡ some (silent, answered)
  unfolding go
  step_process typed own =
      ap (after_process thread (enter (processing b) f) rest with_answer b) (processes typed)
      ∙ ap (λ phase. some (silent, to_phase thread phase f rest with_answer))
          (let done : processed_phase f.wait_response_id b (some b.data_stream)
                ≡ returned (some b.data_stream) =
              (let all : response_processed f.wait_response_id b ≡ true =
                  ground (arith, typed, own) in
                rw all refl) in
            done)

-- An answer that is kept is returned: whatever threads did before, where the newest call of a thread
-- is at the head of the loop, the lock does not name the thread, and an answer of the
-- type `pt_return` is kept under the id that the call waits for, two moves of the thread take
-- the answer off, leave the rest of the shared state and the engine as they are, and end the call
-- with the answer's stream.
pub answer-returned :
    (engine : Engine) {events : List Event} {s : System}
    → Reach (initial engine) events s
    → (thread : ℕ) (f : Frame) (rest : List Frame) (b : CallDataBuffer) → s.frames thread ≡ f ∷ rest
    → f.phase ≡ entering
    → is_current thread s.pending.thread_waiting_transport ≡ false
    → find_id f.wait_response_id s.pending.id_data_return ≡ some b
    → b.header.packet_type ≡ pt_return
    → (move thread proceed s ≡ some (took b, with_answer thread f rest s b))
      × (move thread proceed (with_answer thread f rest s b)
          ≡ some (silent, answered thread f rest s b))
unfolding move
answer-returned engine {events} {s} r thread f rest b newest phase outside kept typed =
    let own =
      (find_id-IsKept f.wait_response_id s.pending.id_data_return (Reach-Recorded engine r).kept
        kept).1 in
    (
      ap (λ frames. move_newest thread proceed frames s) newest
          ∙ ap (go thread f rest s) phase
          ∙ step_take thread f rest s b outside kept,
      ap (λ frames. move_newest thread proceed frames (with_answer thread f rest s b))
            (at_self thread (enter (processing b) f ∷ rest) s.frames)
          ∙ step_process thread f rest s b typed own,
    )
