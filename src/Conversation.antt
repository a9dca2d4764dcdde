-- ===== src/Conversation.antt =====
-- A call and the request for the list of procedures between two programs: the packet that the
-- caller sends (Calling), what the other program makes of it (Engine), and what the caller makes of
-- the answer. That an answer is taken by the call with its id is in Waiting.
pub mod Returning
pub mod Failing
pub mod Enumerating
pub mod Tests
use ipc_portable.Common.{ℕ, Option, none, some, List, Action}
use ipc_portable.Stream.{DataStream}
use ipc_portable.Call.Receiving.{receive_call_data_buffer}
use ipc_portable.Engine.{process_buffer}
use ipc_portable.Engine.Jobs.{Engine}

-- A packet is received and processed, as `ProcessTransportResponse` does where it processes what it
-- has read.
abbrev pub serve : List ℕ → Action Engine (Option DataStream)
serve packet e = elim (receive_call_data_buffer packet) [
  | none ↦ none
  | some buffer ↦ process_buffer buffer e
]
