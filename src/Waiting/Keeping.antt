-- ===== src/Waiting/Keeping.antt =====
-- The packets that were read and taken, as a list of events tells them, and the shared state that
-- agrees with the list.
use mathlib.Core.Path.{subst}
use ipc_portable.Common.{
  ℕ, Bool, true, false, ◌&&◌, Option, none, some, List, [], ◌∷◌, ◌++◌, ◌==◌, ◌≡◌, refl, sym, ap,
  ◌∙◌, if◌then◌else◌, arith, All, inl, inr, Bool-cases, append-nil, append_assoc,
}
use ipc_portable.Packet.{c_invalid_id}
use ipc_portable.Call.Receiving.{CallDataBuffer}
use ipc_portable.Calling.{PendingResponces, find_id, erase_id}
use ipc_portable.Waiting.{
  is_packet, is_incoming_call, is_new_return, is_current, is_locked, after_find, next_incoming_call,
  to_transport, search, read_buffer, store,
}
use ipc_portable.Waiting.Threads.{Event, silent, stored, took, found_event}
use ipc_portable.Waiting.Answers.{
  or_else, IsKept, IsDistinct, erase_id-IsDistinct, erase_id-IsKept, find_id-erase_id,
  find_id-insert_id, find_id-IsKept, insert_id-IsKept, insert_id-IsDistinct,
}

abbrev pub is_call : CallDataBuffer → Bool
is_call b = is_packet b && is_incoming_call b

abbrev pub call_of : CallDataBuffer → List CallDataBuffer
call_of b = if is_call b then b ∷ [] else []

-- The incoming calls that were read, and those that were taken, the oldest first.
abbrev pub read_calls : List Event → List CallDataBuffer
read_calls [] = []
read_calls (silent ∷ events) = read_calls events
read_calls (took b ∷ events) = read_calls events
read_calls (stored b ∷ events) = read_calls events ++ call_of b

abbrev pub taken_calls : List Event → List CallDataBuffer
taken_calls [] = []
taken_calls (silent ∷ events) = taken_calls events
taken_calls (took b ∷ events) = taken_calls events ++ call_of b
taken_calls (stored b ∷ events) = taken_calls events

abbrev pub is_answer_to : ℕ → CallDataBuffer → Bool
is_answer_to id b = is_new_return b && (b.header.id == id)

-- A place for one answer: the first one is kept until it is taken.
abbrev pub kept_answer : ℕ → List Event → Option CallDataBuffer
kept_answer id [] = none
kept_answer id (silent ∷ events) = kept_answer id events
kept_answer id (stored b ∷ events) =
    if is_answer_to id b then or_else (kept_answer id events) b else kept_answer id events
kept_answer id (took b ∷ events) = if is_answer_to id b then none else kept_answer id events

pub record Agrees (events : List Event) (answers : List (ℕ × CallDataBuffer))
    (calls : List CallDataBuffer) : Type 0 where
  pub fifo : read_calls events ≡ taken_calls events ++ calls
  pub slots : (id : ℕ) → find_id id answers ≡ kept_answer id events
  pub queued : All (λ b. is_call b ≡ true) calls
  pub kept : All IsKept answers
  pub distinct : IsDistinct answers

-- An answer is no call.
answer-call_of : (b : CallDataBuffer) → is_new_return b ≡ true → call_of b ≡ []
answer-call_of b h = ground arith

call-answer : (b : CallDataBuffer) → is_call b ≡ true → is_new_return b ≡ false
call-answer b h = ground arith

took_answer :
    (id : ℕ) (b : CallDataBuffer) (events : List Event) (p : PendingResponces)
    → Agrees events p.id_data_return p.data_incoming_call
    → find_id id p.id_data_return ≡ some b
    → Agrees (took b ∷ events) (erase_id id p.id_data_return) p.data_incoming_call
took_answer id b events p a e =
    let (new, own) = find_id-IsKept id p.id_data_return a.kept e in
    record {
      fifo =
          a.fifo
          ∙ ap (λ l. l ++ p.data_incoming_call)
              (sym (append-nil (taken_calls events))
                ∙ ap (λ l. taken_calls events ++ l) (sym (answer-call_of b new)));
      slots = λ other.
          find_id-erase_id other id p.id_data_return a.distinct
          ∙ ground (arith, new, own, a.slots other);
      queued = a.queued;
      kept = erase_id-IsKept id p.id_data_return a.kept;
      distinct = erase_id-IsDistinct id p.id_data_return a.distinct;
    }

took_call :
    (b : CallDataBuffer) (calls : List CallDataBuffer) (events : List Event)
    (answers : List (ℕ × CallDataBuffer))
    → Agrees events answers (b ∷ calls)
    → Agrees (took b ∷ events) answers calls
took_call b calls events answers a =
    let (first, others) = a.queued in
    record {
      fifo = a.fifo ∙ rw first (sym (append_assoc (taken_calls events) (b ∷ []) calls));
      slots = λ id. a.slots id ∙ ground (arith, call-answer b first);
      queued = others;
      kept = a.kept;
      distinct = a.distinct;
    }

pub quiet :
    {events : List Event} {answers : List (ℕ × CallDataBuffer)} {calls : List CallDataBuffer}
    → Agrees events answers calls
    → Agrees (silent ∷ events) answers calls
quiet a = record {
  fifo = a.fifo;
  slots = a.slots;
  queued = a.queued;
  kept = a.kept;
  distinct = a.distinct;
}

abbrev pub Agreed : List Event → PendingResponces → Type 0
Agreed events p = Agrees events p.id_data_return p.data_incoming_call

module _ (thread id : ℕ) (events : List Event) (p : PendingResponces) (a : Agreed events p) where
  to_transport-Agreed :
      Agreed (found_event (to_transport thread id p).0 ∷ events) (to_transport thread id p).1
  to_transport-Agreed = elim (Bool-cases (is_locked p.thread_waiting_transport)) [
    | inl locked ↦ elim (Bool-cases (id == c_invalid_id)) [
      | inl nowait ↦ rw locked (rw nowait (quiet a))
      | inr waits ↦ rw locked (rw waits (quiet a))
    ]
    | inr free ↦ rw free (quiet a)
  ]

  calls_case :
      (calls : List CallDataBuffer)
      → p.data_incoming_call ≡ calls
      → Agreed
          (found_event (next_incoming_call thread id p calls).0 ∷ events)
          (next_incoming_call thread id p calls).1
  calls_case [] e = to_transport-Agreed
  calls_case (b ∷ calls) e =
      took_call b calls events p.id_data_return (subst (Agrees events p.id_data_return) e a)

  find_case :
      (o : Option CallDataBuffer)
      → find_id id p.id_data_return ≡ o
      → (process : Bool)
      → Agreed
          (found_event (after_find thread id process p o).0 ∷ events)
          (after_find thread id process p o).1
  find_case (some b) e process = took_answer id b events p a e
  find_case none e true = calls_case p.data_incoming_call refl
  find_case none e false = to_transport-Agreed

  pub search-Agreed :
      (process : Bool)
      → Agreed (found_event (search thread id process p).0 ∷ events) (search thread id process p).1
  unfolding search
  search-Agreed process = find_case (find_id id p.id_data_return) refl process

  pub read_buffer-Agreed :
      (process : Bool)
      → Agreed
          (found_event (read_buffer thread id process p).0 ∷ events)
          (read_buffer thread id process p).1
  unfolding read_buffer
  read_buffer-Agreed process = elim (Bool-cases (is_current thread p.thread_waiting_transport)) [
    | inl inside ↦ rw inside (quiet a)
    | inr outside ↦ rw outside (search-Agreed process)
  ]

All-snoc {ℓ} :
    {A : Type ℓ} (P : A → Type 0) (xs : List A) (x : A) → All P xs → P x → All P (xs ++ (x ∷ []))
All-snoc P [] x all h = (h, tt)
All-snoc P (y ∷ ys) x (first, others) h = (first, All-snoc P ys x others h)

pub store-Agreed :
    (b : CallDataBuffer) (events : List Event) (p : PendingResponces)
    → Agreed events p
    → Agreed (stored b ∷ events) (store b p)
store-Agreed b events p a = elim (Bool-cases (is_packet b)) [
  | inr nothing_came ↦ rw nothing_came (record {
    fifo = rw nothing_came (append-nil (read_calls events) ∙ a.fifo);
    slots = λ id. rw nothing_came (a.slots id);
    queued = a.queued;
    kept = a.kept;
    distinct = a.distinct;
  })
  | inl came ↦ elim (Bool-cases (is_incoming_call b)) [
    | inl is_in ↦ rw came (
        rw is_in (record {
          fifo = rw came (
              rw is_in (
                ap (λ l. l ++ (b ∷ [])) a.fifo
                ∙ append_assoc (taken_calls events) p.data_incoming_call (b ∷ [])));
          slots = λ id. rw came (rw is_in (a.slots id));
          queued =
              All-snoc (λ c. is_call c ≡ true) p.data_incoming_call b a.queued
                (ground (arith, came, is_in));
          kept = a.kept;
          distinct = a.distinct;
        }))
    | inr is_out ↦ rw came (
        rw is_out (record {
          fifo = rw came (rw is_out (append-nil (read_calls events) ∙ a.fifo));
          slots = λ id.
              find_id-insert_id id b.header.id b p.id_data_return
              ∙ ground (arith, came, is_out, a.slots id);
          queued = a.queued;
          kept = insert_id-IsKept b p.id_data_return (ground (arith, came, is_out)) a.kept;
          distinct = insert_id-IsDistinct b p.id_data_return a.distinct;
        }))
  ]
]
