-- ===== src/Proxy/Reading.antt =====
-- `TransportProxy::Read` over a transport that keeps its contract.
use ipc_portable.Common.{ℕ, ◌≡◌, refl, true, false, Option, none, some, List, [], ◌++◌, arith, ◌==◌}
use ipc_portable.Packet.{c_invalid_packet_size}
use ipc_portable.Transport.{TransportCopy, IsQueue}
use ipc_portable.Parser.{PacketParser, Needed, initial_parser, read_needed_data_size}
use ipc_portable.Parser.Framing.{next_packet, missing, IsAcceptable, Holding, Delivers}
use ipc_portable.Parser.Framing.Refines.{read_needed_data_size-next_packet}
use ipc_portable.Proxy.{ReadResult, settle, read_with, read}

-- The number of bytes missing is never the value by which `ReadNeededDataSize` reports a failure.
missing-valid :
    (bytes : List ℕ) → IsAcceptable bytes → (missing bytes == c_invalid_packet_size) ≡ false
unfolding missing
missing-valid bytes ok = grind arith

module _ (t : TransportCopy) (q : IsQueue t) where
  -- What `Read` returns and leaves behind, in either case of `next_packet`.
  abbrev pub Returns : List ℕ → Option (List ℕ × List ℕ) → ReadResult t → Type 0
  Returns bytes none r =
      (r.ok ≡ true)
      × (r.packet ≡ none)
      × Holding r.proxy.packet_parser bytes
      × (s : t.State) × (r.proxy.transport ≡ some s)
      × (q.queued s ≡ [])
  Returns bytes (some (packet, rest)) r =
      (r.ok ≡ true)
      × (r.packet ≡ some packet)
      × (r.proxy.packet_parser ≡ initial_parser)
      × (s : t.State) × (r.proxy.transport ≡ some s)
      × (q.queued s ≡ rest)

  settle-Returns :
      (bytes : List ℕ) (o : Option (List ℕ × List ℕ)) (r : Needed t.State)
      → Delivers t q bytes o r
      → Returns bytes o (settle t true r)
  settle-Returns bytes none r (a, b, c, d) = (refl, a, b, r.transport, refl, c)
  settle-Returns bytes (some (p, rest)) r (a, b, c, d) = (refl, a, b, r.transport, refl, c)

  settles :
      (bytes : List ℕ) (o : Option (List ℕ × List ℕ)) (r : Needed t.State) (p : PacketParser)
      (s : t.State)
      → IsAcceptable bytes
      → read_needed_data_size t p s ≡ some r
      → Delivers t q bytes o r
      → read_with t false p s ≡ some (settle t true r)
  unfolding read_with
  settles bytes none r p s ok e (a, b, c, d) =
      let valid : (r.size == c_invalid_packet_size) ≡ false = rw d (missing-valid bytes ok) in
      ground (arith, e, valid, a)
  settles bytes (some (packet, rest)) r p s ok e (a, b, c, d) =
      let valid : (r.size == c_invalid_packet_size) ≡ false = rw d refl in
      ground (arith, e, valid, a)

  -- Without waiting, `Read` over a transport that is there succeeds: under the conditions of the
  -- parser's refinement it returns `true`, with the packet that `next_packet` cuts off the bytes
  -- held and queued, or with no packet where these do not hold a whole one; what is left is kept,
  -- in the parser or in the queue.
  pub read-next_packet :
      (p : PacketParser) (bytes : List ℕ) (s : t.State)
      → Holding p bytes
      → IsAcceptable (bytes ++ q.queued s)
      → (r : ReadResult t) × (read t false (record { packet_parser = p; transport = some s })
          ≡ some r)
        × Returns (bytes ++ q.queued s) (next_packet (bytes ++ q.queued s)) r
  unfolding read
  read-next_packet p bytes s holds ok =
      let (r, e, d) = read_needed_data_size-next_packet t q p bytes s holds ok in
      let all : List ℕ = bytes ++ q.queued s in
      (
        settle t true r,
        settles all (next_packet all) r p s ok e d,
        settle-Returns all (next_packet all) r d,
      )
