-- ===== src/Parser/Delivery.antt =====
-- A run of the parser: bytes arrive in pieces, and after each piece (which may be empty) there is
-- one call of `ReadNeededDataSize`. The transport is that of Transport/Memory.antt.
use mathlib.Core.Path.{subst}
use ipc_portable.Common.{
  ℕ, ◌≤◌, ◌<◌, ◌≡◌, refl, sym, ap, ◌∙◌, inl, inr, true, Option, none, some, List, [], ◌∷◌, ◌++◌,
  append_assoc, arith, length, take, drop, take-append_front, drop-append_left, drop-append_front,
  take-append_left, All, IsU32, Bool-cases, ltb,
}
use ipc_portable.Transport.Memory.{MemoryCopy, memory_copy, memory_copy-IsQueue}
use ipc_portable.Parser.{PacketParser, initial_parser, Needed, read_needed_data_size}
use ipc_portable.Parser.Framing.{
  size_field, packet_size, next_packet, next_packet_complete, next_packet_no_header,
  next_packet_short, IsAcceptable, Holding, Delivers,
}
use ipc_portable.Parser.Framing.Data.{size_field-append}
use ipc_portable.Parser.Framing.Refines.{read_needed_data_size-next_packet}

abbrev pub concat : List (List ℕ) → List ℕ
concat [] = []
concat (x ∷ xs) = x ++ concat xs

-- A packet as `CreateDataStream` makes it: its header announces the rest.
abbrev pub IsPacket : List ℕ → Type 0
IsPacket p = (12 ≤ length p) × (packet_size p ≡ length p) × IsU32 (length p)

abbrev pub arrive : List ℕ → MemoryCopy → MemoryCopy
arrive piece s = record s {
  read_end = record s.read_end { bytes = s.read_end.bytes ++ piece; incoming_data = true };
}

pub record Run : Type 0 where
  pub delivered : List (List ℕ)
  pub parser : PacketParser
  pub transport : MemoryCopy

abbrev add_packet : Option (List ℕ) → List (List ℕ) → List (List ℕ)
add_packet none ps = ps
add_packet (some p) ps = p ∷ ps

abbrev more : Option (List ℕ) → Option Run → Option Run
more packet none = none
more packet (some r) = some (record r { delivered = add_packet packet r.delivered })

unfoldable pub polls : List (List ℕ) → PacketParser → MemoryCopy → Option Run
polls [] p s = some (record { delivered = []; parser = p; transport = s })
polls (piece ∷ pieces) p s = elim (read_needed_data_size memory_copy p (arrive piece s)) [
  | none ↦ none
  | some r ↦ more r.packet (polls pieces r.parser r.transport)
]

-- The bytes at hand are the beginning of a run of packets. Either the first of them is not
-- complete, or it is the next packet and the rest is again the beginning of such a run.
data Front (packets : List (List ℕ)) (bytes future : List ℕ)
    : Option (List ℕ × List ℕ) → Type 0 where
  waits : IsAcceptable bytes → Front packets bytes future none
  gives :
      (p rest : List ℕ) (ps : List (List ℕ))
      → IsAcceptable bytes
      → packets ≡ p ∷ ps
      → rest ++ future ≡ concat ps
      → Front packets bytes future (some (p, rest))

module _ (p : List ℕ) (ps : List (List ℕ)) (bytes future : List ℕ) (h : IsPacket p)
    (e : bytes ++ future ≡ p ++ concat ps) where
  same_size : 12 ≤ length bytes → packet_size bytes ≡ length p
  same_size n = omega (
    arith,
    size_field-append bytes future n,
    ap size_field e,
    size_field-append p (concat ps) h.0,
    h.1,
  )

  acceptable : IsAcceptable bytes
  acceptable n = omega (arith, same_size n, h.2)

  Front-short : length bytes < length p → Front (p ∷ ps) bytes future (next_packet bytes)
  Front-short short = elim (Bool-cases (ltb (length bytes) 12)) [
    | inl no_header ↦ rw (next_packet_no_header bytes (ground arith)) (waits acceptable)
    | inr header ↦
        let n : 12 ≤ length bytes = ground arith in
        rw (next_packet_short bytes (omega (arith, same_size n))) (waits acceptable)
  ]

  Front-long : length p ≤ length bytes → Front (p ∷ ps) bytes future (next_packet bytes)
  Front-long long =
      rw (next_packet_complete bytes (length p) (same_size (omega (arith, h.0))) long) (
        gives (take (length p) bytes) (drop (length p) bytes) ps acceptable
          (ap (λ x. x ∷ ps) (sym first)) behind)
    where
      first : take (length p) bytes ≡ p
      first =
          sym (take-append_front (length p) bytes future long)
          ∙ ap (take (length p)) e
          ∙ take-append_left (length p) p (concat ps) refl

      behind : drop (length p) bytes ++ future ≡ concat ps
      behind =
          sym (drop-append_front (length p) bytes future long)
          ∙ ap (drop (length p)) e
          ∙ drop-append_left (length p) p (concat ps) refl

front :
    (packets : List (List ℕ)) (bytes future : List ℕ)
    → All IsPacket packets
    → bytes ++ future ≡ concat packets
    → Front packets bytes future (next_packet bytes)
front [] [] future h e =
    rw (next_packet_no_header [] (omega arith)) (waits (λ n. absurd (omega arith)))
front [] (b ∷ bytes) future h e = cc
front (p ∷ ps) bytes future (h, hs) e = elim (Bool-cases (ltb (length bytes) (length p))) [
  | inl short ↦ Front-short p ps bytes future h e (ground arith)
  | inr long ↦ Front-long p ps bytes future h e (ground arith)
]

-- What a run has made of a sequence of packets, of which the bytes `future` have not arrived.
pub record IsDelivered (packets : List (List ℕ)) (future : List ℕ) (r : Run) : Type 0 where
  pub undelivered : List (List ℕ)
  pub held : List ℕ
  pub in_order : packets ≡ r.delivered ++ undelivered
  pub holding : Holding r.parser held
  pub kept : held ++ (r.transport.read_end.bytes ++ future) ≡ concat undelivered

abbrev Conserved : List (List ℕ) → Type 0
Conserved pieces =
    (packets : List (List ℕ)) (p : PacketParser) (bytes : List ℕ) (s : MemoryCopy) (future : List ℕ)
    → All IsPacket packets
    → Holding p bytes
    → bytes ++ (s.read_end.bytes ++ (concat pieces ++ future)) ≡ concat packets
    → (r : Run) × (polls pieces p s ≡ some r) × IsDelivered packets future r

pub Holding-initial : Holding initial_parser []
Holding-initial = inl (record {
  no_size = refl;
  no_data = refl;
  raw_size = refl;
  need_le = omega arith;
  need_pos = omega arith;
  received = refl;
})

module _ (pieces : List (List ℕ)) (ih : Conserved pieces) (packets : List (List ℕ))
    (all future : List ℕ) (h : All IsPacket packets) where
  after_call :
      (o : Option (List ℕ × List ℕ)) (r : Needed MemoryCopy)
      → Front packets all (concat pieces ++ future) o
      → Delivers memory_copy memory_copy-IsQueue all o r
      → (total : all ++ (concat pieces ++ future) ≡ concat packets)
      → (run : Run) × (more r.packet (polls pieces r.parser r.transport) ≡ some run)
        × IsDelivered packets future run
  after_call o r (waits ok) (nothing, holds, empty, _) total =
      let (run, e, d) = ih packets r.parser all r.transport future h holds (rw empty total) in
      (run, rw (nothing, e), d)
  after_call o r (gives p rest ps ok first behind) (packet, fresh, queue, _) total =
      let (run, e, d) =
        ih ps r.parser [] r.transport future (subst (All IsPacket) first h).1
          (rw fresh Holding-initial) (rw queue behind) in
      (
        record run { delivered = p ∷ run.delivered },
        rw (packet, e),
        record {
          undelivered = d.undelivered;
          held = d.held;
          in_order = first ∙ ap (◌∷◌ p) d.in_order;
          holding = d.holding;
          kept = d.kept;
        },
      )

Front-IsAcceptable :
    {packets : List (List ℕ)} {bytes future : List ℕ} {o : Option (List ℕ × List ℕ)}
    → Front packets bytes future o
    → IsAcceptable bytes
Front-IsAcceptable (waits ok) = ok
Front-IsAcceptable (gives p rest ps ok first behind) = ok

conserved : (pieces : List (List ℕ)) → Conserved pieces
unfolding polls
conserved [] packets p bytes s future h holds e = (
  _,
  refl,
  record { undelivered = packets; held = bytes; in_order = refl; holding = holds; kept = e },
)
conserved (piece ∷ pieces) packets p bytes s future h holds e =
    let f = front packets all (concat pieces ++ future) h total in
    let (r, called, d) =
      read_needed_data_size-next_packet memory_copy memory_copy-IsQueue p bytes (arrive piece s)
        holds (Front-IsAcceptable f) in
    rw (called, polls)
      (after_call pieces (conserved pieces) packets all future h (next_packet all) r f d total)
  where
    all : List ℕ
    all = bytes ++ (s.read_end.bytes ++ piece)

    total : all ++ (concat pieces ++ future) ≡ concat packets
    total = simp append_assoc (simp append_assoc at e)

-- Let a sequence of packets, each announcing its own length, be cut into pieces at any places, and
-- let the bytes of `pieces` arrive one piece before each call, those of `future` not at all. Then
-- no call fails; what is handed out is the front of the sequence, packet by packet and in order;
-- and what the parser holds, what is queued and what is to come are together exactly the packets
-- not handed out.
pub polls_deliver :
    (packets pieces : List (List ℕ)) (s : MemoryCopy) (future : List ℕ)
    → All IsPacket packets
    → s.read_end.bytes ++ (concat pieces ++ future) ≡ concat packets
    → (r : Run) × (polls pieces initial_parser s ≡ some r) × IsDelivered packets future r
polls_deliver packets pieces s future h e =
    conserved pieces packets initial_parser [] s future h Holding-initial e
