-- ===== src/Waiting/Order.antt =====
-- What becomes of the packets that are read: the incoming calls are a queue, and the answers are kept
-- under their ids, for the calls that wait for them.
use ipc_portable.Common.{ℕ, Bool, true, false, Option, none, some, List, [], ◌∷◌, ◌++◌, ◌≡◌, refl}
use ipc_portable.Stream.{DataStream}
use ipc_portable.Call.Receiving.{CallDataBuffer}
use ipc_portable.Calling.{PendingResponces, find_id}
use ipc_portable.Engine.{process_buffer}
use ipc_portable.Engine.Jobs.{Engine}
use ipc_portable.Waiting.{write_buffer, unlock}
use ipc_portable.Waiting.Threads.{
  Phase, entering, waiting, notified, reading, arrived, processing, returned, Frame, System, Event,
  stored, Move, call, proceed, transport_read, wake_up, move, go, finish_read, spurious, received,
  after_process, move_newest, may_call, call_if, new_frame, initial, Reach,
}
use ipc_portable.Waiting.Rules.{After, Reach-induction}
use ipc_portable.Waiting.Keeping.{
  read_calls, taken_calls, kept_answer, Agreed, quiet, search-Agreed, read_buffer-Agreed,
  store-Agreed,
}

abbrev pub Recorded : List Event → System → Type 0
Recorded events s = Agreed events s.pending

written-Recorded :
    (id : ℕ) (process ok : Bool) (b : CallDataBuffer) (events : List Event) (p : PendingResponces)
    → Agreed events p
    → Agreed (stored b ∷ events) (write_buffer id process ok b p).1
unfolding write_buffer
written-Recorded id process ok b events p a = store-Agreed b events (unlock p) a

module _ (thread : ℕ) (f : Frame) (rest : List Frame) (events : List Event) (s : System)
    (a : Recorded events s) where
  abbrev After' : Option (Event × System) → Type 0
  After' = After (λ event. Recorded (event ∷ events))

  processed-Recorded :
      (b : CallDataBuffer) (o : Option (Option DataStream × Engine))
      → After' (after_process thread f rest s b o)
  processed-Recorded b none = tt
  processed-Recorded b (some (result, engine)) = quiet a

  go-Recorded : (phase : Phase) → After' (go thread f rest s phase)
  unfolding go
  go-Recorded entering =
      read_buffer-Agreed thread f.wait_response_id events s.pending a f.process_incoming_calls
  go-Recorded notified =
      search-Agreed thread f.wait_response_id events s.pending a f.process_incoming_calls
  go-Recorded waiting = tt
  go-Recorded reading = tt
  go-Recorded (arrived ok b) =
      written-Recorded f.wait_response_id f.process_incoming_calls ok b events s.pending a
  go-Recorded (processing b) = processed-Recorded b (process_buffer b s.engine)
  go-Recorded (returned result) = quiet a

  finish_read-Recorded :
      (ok : Bool) (phase : Phase) (o : Option CallDataBuffer)
      → After' (finish_read thread ok f rest s phase o)
  unfolding finish_read
  finish_read-Recorded ok reading (some b) = quiet a
  finish_read-Recorded ok reading none = tt
  finish_read-Recorded ok entering o = tt
  finish_read-Recorded ok waiting o = tt
  finish_read-Recorded ok notified o = tt
  finish_read-Recorded ok (arrived _ b) o = tt
  finish_read-Recorded ok (processing b) o = tt
  finish_read-Recorded ok (returned r) o = tt

  spurious-Recorded : (phase : Phase) → After' (spurious thread f rest s phase)
  unfolding spurious
  spurious-Recorded waiting = quiet a
  spurious-Recorded entering = tt
  spurious-Recorded notified = tt
  spurious-Recorded reading = tt
  spurious-Recorded (arrived _ b) = tt
  spurious-Recorded (processing b) = tt
  spurious-Recorded (returned r) = tt

call-Recorded :
    (b : Bool) (thread : ℕ) (f : Frame) (frames : List Frame) (events : List Event) (s : System)
    → Recorded events s
    → After (λ event. Recorded (event ∷ events)) (call_if b thread f frames s)
unfolding call_if
call-Recorded false thread f frames events s a = tt
call-Recorded true thread f frames events s a = quiet a

move-Recorded :
    (thread : ℕ) (m : Move) (frames : List Frame) (events : List Event) (s : System)
    → Recorded events s
    → After (λ event. Recorded (event ∷ events)) (move_newest thread m frames s)
move-Recorded thread (call id process) frames events s a =
    call-Recorded (may_call frames) thread (new_frame id process) frames events s a
move-Recorded thread proceed [] events s a = tt
move-Recorded thread proceed (f ∷ rest) events s a = go-Recorded thread f rest events s a f.phase
move-Recorded thread (transport_read ok packet) [] events s a = tt
move-Recorded thread (transport_read ok packet) (f ∷ rest) events s a =
    finish_read-Recorded thread f rest events s a ok f.phase (received packet)
move-Recorded thread wake_up [] events s a = tt
move-Recorded thread wake_up (f ∷ rest) events s a =
    spurious-Recorded thread f rest events s a f.phase

pub Reach-Recorded :
    (engine : Engine) {events : List Event} {s : System}
    → Reach (initial engine) events s
    → Recorded events s
unfolding move find_id
Reach-Recorded engine r =
    Reach-induction Recorded (initial engine)
      (record { fifo = refl; slots = λ id. refl; queued = tt; kept = tt; distinct = tt })
      (λ events s thread m a. move-Recorded thread m (s.frames thread) events s a) r

-- Whatever threads do: the incoming calls (`pt_enumerate` and `pt_call`) that were read from the
-- transport are those that were taken to be processed, in the order in which they were read,
-- followed by those that wait in `m_data_incoming_call`; and `m_id_data_return` holds for each id the
-- first answer that was read under it since an answer with the id was last taken. The order in which
-- threads then process the calls that they took is not part of this.
pub Reach-queues :
    (engine : Engine) {events : List Event} {s : System}
    → Reach (initial engine) events s
    → (read_calls events ≡ taken_calls events ++ s.pending.data_incoming_call)
      × ((id : ℕ) → find_id id s.pending.id_data_return ≡ kept_answer id events)
Reach-queues engine r = ((Reach-Recorded engine r).fifo, (Reach-Recorded engine r).slots)
