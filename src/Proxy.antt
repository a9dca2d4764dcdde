-- ===== src/Proxy.antt =====
-- Ipc/MAssIpc_TransportProxy.h and Ipc/MAssIpc_TransportProxy.cpp: packets over a byte transport.
-- `m_transport` is a weak pointer; `none` is a transport that is gone.
pub mod Reading
pub mod Tests
use ipc_portable.Common.{
  ℕ, Bool, true, false, Option, none, some, List, replicate, ◌==◌, if◌then◌else◌,
}
use ipc_portable.Packet.{c_invalid_packet_size}
use ipc_portable.Transport.{TransportCopy}
use ipc_portable.Parser.{PacketParser, Needed, read_needed_data_size}

-- `Create`: a buffer of the size asked for. Its bytes have no value before they are written; zeros
-- stand for them.
abbrev pub create : ℕ → List ℕ
create size = replicate size 0

module _ (t : TransportCopy) where
  pub record TransportProxy : Type 0 where
    pub packet_parser : PacketParser
    pub transport : Option t.State

  -- The value of `Read`, the packet that it stored, and the state behind it.
  pub record ReadResult : Type 0 where
    pub ok : Bool
    pub packet : Option (List ℕ)
    pub proxy : TransportProxy

  -- `Write`; with no transport the packet is dropped.
  unfoldable pub write : List ℕ → TransportProxy → TransportProxy
  write packet x = elim x.transport [
    | none ↦ x
    | some s ↦ record x { transport = some (t.write packet s) }
  ]

  abbrev pub settle : Bool → Needed t.State → ReadResult
  settle ok r = record {
    ok = ok;
    packet = r.packet;
    proxy = record { packet_parser = r.parser; transport = some r.transport };
  }

  -- The call of the parser behind the wait.
  unfoldable pub read_again : PacketParser → t.State → Option ReadResult
  read_again p s = elim (read_needed_data_size t p s) [
    | none ↦ none
    | some r ↦ some (settle (if r.size == c_invalid_packet_size then false else true) r)
  ]

  unfoldable pub wait_and_read : Needed t.State → Option ReadResult
  unfolding read_again
  wait_and_read r =
      let (transport_ok, s) = t.wait_respond r.size r.transport in
      if transport_ok
      then read_again r.parser s
      else some (settle false (record r { transport = s }))

  unfoldable pub read_with : Bool → PacketParser → t.State → Option ReadResult
  unfolding wait_and_read
  read_with wait_incoming_packet p s = elim (read_needed_data_size t p s) [
    | none ↦ none
    | some r ↦ if r.size == c_invalid_packet_size then some (settle false r) else elim r.packet [
      | some packet ↦ some (settle true r)
      | none ↦ if wait_incoming_packet then wait_and_read r else some (settle true r)
    ]
  ]

  -- `Read`, for a packet pointer that is empty at the call.
  unfoldable pub read : Bool → TransportProxy → Option ReadResult
  unfolding read_with
  read wait_incoming_packet x = elim x.transport [
    | none ↦ some (record { ok = false; packet = none; proxy = x })
    | some s ↦ read_with wait_incoming_packet x.packet_parser s
  ]
