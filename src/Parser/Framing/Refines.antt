-- ===== src/Parser/Framing/Refines.antt =====
-- `ReadNeededDataSize` implements the specification.
use mathlib.Core.Path.{subst, ap₂}
use ipc_portable.Common.{
  ℕ, ◌+◌, ◌-◌, ◌<◌, ◌≡◌, refl, sym, ap, ◌∙◌, inl, inr, true, false, Option, some, List, ◌++◌, arith,
  length, length-append, length-take, length-drop, length-replicate, take, drop, replicate,
  take-length, take-long, drop-length, take-append_left, take-append-drop, ltb, ◌==◌, Bool-cases,
  IsU32, append_assoc,
}
use ipc_portable.Stream.Bytes.{read_unsafe}
use ipc_portable.Packet.{c_invalid_packet_size}
use ipc_portable.Transport.{TransportCopy, IsQueue}
use ipc_portable.Parser.{
  PacketParser, ReadOutcome, read_data_is_available, Needed, data_phase, receive_read_header,
  header_arrived, header_phase, read_needed_data_size,
}
use ipc_portable.Parser.Filling.{Fills, read_data_is_available-Fills}
use ipc_portable.Parser.Framing.{
  size_field, packet_size, next_packet, next_packet_no_header, missing, missing_header,
  IsAcceptable, HoldsHeader, HoldsData, Holding, Delivers,
}
use ipc_portable.Parser.Framing.Data.{size_field-append, data_arrived-Delivers}

module _ (t : TransportCopy) (q : IsQueue t) where
  -- What a successful phase is known by: its result, and that it is as specified.
  abbrev Gives : List ℕ → Option (Needed t.State) → Type 0
  Gives bytes result =
      (r : Needed t.State) × (result ≡ some r) × Delivers t q bytes (next_packet bytes) r

  data_phase-Gives :
      (p : PacketParser) (buffer bytes : List ℕ) (s : t.State)
      → HoldsData p buffer bytes
      → Gives (bytes ++ q.queued s) (data_phase t p s)
  unfolding data_phase
  data_phase-Gives p buffer bytes s h =
      let (o, e, f) =
        read_data_is_available-Fills t q buffer 12 p.incoming.data_size p.incoming.need_size s
          h.need_le (omega (arith, h.counts)) (omega (arith, h.buffer_size)) in
      let known : (p.incoming.data_size == c_invalid_packet_size) ≡ false =
        ground (arith, h.counts) in
      rw (known, h.packet_data, e) (_, refl, data_arrived-Delivers t q p buffer bytes s h o f)

  -- `ReceiveReadHeader` on a whole header that announces an acceptable packet.
  receive_read_header-HoldsData :
      (p : PacketParser)
      → length p.incoming.raw_header_buffer ≡ 12
      → IsU32 (packet_size p.incoming.raw_header_buffer)
      → (p' : PacketParser) × (buffer : List ℕ) × (receive_read_header t p ≡ some p')
        × HoldsData p' buffer p.incoming.raw_header_buffer
  unfolding receive_read_header size_field
  receive_read_header-HoldsData p len fits = (
    p',
    buffer,
    stored,
    record {
      packet_data = refl;
      counts = fits';
      buffer_size = omega (
        arith,
        length-append raw (drop (0 + length raw) (replicate size 0)),
        length-drop {A = ℕ} (0 + length raw) (replicate size 0),
        length-replicate {A = ℕ} size 0,
      );
      need_le = omega arith;
      received = sym (take-append_left (12 + data_size - data_size) raw _ (omega (arith, len)));
      announced = ap (read_unsafe 4) (sym whole);
    },
  )
    where
      raw : List ℕ
      raw = p.incoming.raw_header_buffer

      data_size : ℕ
      data_size = read_unsafe 4 raw

      size : ℕ
      size = 12 + data_size

      buffer : List ℕ
      buffer = raw ++ drop (0 + length raw) (replicate size 0)

      p' : PacketParser
      p' = record {
        header_data = some buffer;
        incoming = record p.incoming { data_size = data_size; need_size = data_size };
      }

      whole : take 12 raw ≡ raw
      whole = take-length 12 raw (sym len)

      fits' : IsU32 (12 + data_size)
      fits' = subst (λ l. IsU32 (12 + read_unsafe 4 l)) whole fits

      stored : receive_read_header t p ≡ some p'
      stored = ground (arith, fits', length-replicate {A = ℕ} size 0)

  module _ (p : PacketParser) (bytes : List ℕ) (s : t.State) (h : HoldsHeader p bytes) where
    abbrev pub queue : List ℕ
    queue = q.queued s

    abbrev pub need : ℕ
    need = p.incoming.need_size

    abbrev pub FillsHeader : ReadOutcome t.State → Type 0
    FillsHeader o = Fills t q p.incoming.raw_header_buffer (0 + (12 - need)) need queue o

    -- The parser behind the read of header bytes.
    abbrev pub with_header : ReadOutcome t.State → PacketParser
    with_header o = record p {
      incoming = record p.incoming { raw_header_buffer = o.buffer; need_size = o.need_size };
    }

    pub length_bytes : length bytes ≡ 12 - need
    length_bytes = omega (
      arith,
      ap length h.received,
      length-take (12 - need) p.incoming.raw_header_buffer,
      h.raw_size,
    )

    pub filled :
        (o : ReadOutcome t.State) (n : ℕ)
        → FillsHeader o
        → n ≡ 12 - o.need_size
        → take n o.buffer ≡ bytes ++ take need queue
    filled o n f e =
        let start : 0 + (12 - need) ≡ 12 - need = omega arith in
        let e' : n ≡ 0 + (12 - need) + need - o.need_size = omega (arith, h.need_le) in
        rw e' (f.filled ∙ ap (λ l. l ++ take need queue) (rw start (sym h.received)))

    pub header_reads :
        (o : ReadOutcome t.State)
        → read_data_is_available t p.incoming.raw_header_buffer 0 12 need s ≡ some o
        → header_phase t p s ≡ header_arrived t o (with_header o)
    unfolding header_phase
    header_reads o e =
        let unknown : (p.incoming.data_size == c_invalid_packet_size) ≡ true =
          ground (arith, h.no_size) in
        rw (unknown, e)

    header_incomplete :
        (o : ReadOutcome t.State)
        → FillsHeader o
        → 0 < o.need_size
        → header_arrived t o (with_header o) ≡ some (false, with_header o, o.transport)
    unfolding header_arrived
    header_incomplete o f e = elim f.took [ inl a ↦ rw a (ground arith) | inr n ↦ rw n.0 ]

    header_complete :
        (o : ReadOutcome t.State) (p' : PacketParser)
        → FillsHeader o
        → o.need_size ≡ 0
        → receive_read_header t (with_header o) ≡ some p'
        → header_arrived t o (with_header o) ≡ some (false, p', o.transport)
    unfolding header_arrived
    header_complete o p' f e r = elim f.took [
      | inl a ↦ rw (a, e, r)
      | inr n ↦ absurd (omega (arith, h.need_pos))
    ]

    phases :
        (p' : PacketParser) (s' : t.State)
        → header_phase t p s ≡ some (false, p', s')
        → read_needed_data_size t p s ≡ data_phase t p' s'
    unfolding read_needed_data_size
    phases p' s' e = rw (e, read_needed_data_size)

    waits :
        (o : ReadOutcome t.State)
        → FillsHeader o
        → 0 < o.need_size
        → Gives (bytes ++ queue) (data_phase t (with_header o) o.transport)
    unfolding data_phase
    waits o f e =
        let unknown : (p.incoming.data_size == c_invalid_packet_size) ≡ true =
          ground (arith, h.no_size) in
        rw (unknown, next_packet_no_header (bytes ++ queue) short)
          (
            _,
            refl,
            (refl, inl holds, f.rest ∙ drop-length need queue (omega (arith, f.need_lem)), amount),
          )
      where
        all_taken : take need queue ≡ queue
        all_taken = take-long need queue (omega (arith, f.need_lem))

        size : length (bytes ++ queue) ≡ 12 - o.need_size
        size = omega (arith, length-append bytes queue, length_bytes, f.need_lem, h.need_le)

        short : length (bytes ++ queue) < 12
        short = omega (arith, size)

        amount : o.need_size ≡ missing (bytes ++ queue)
        amount = missing_header (bytes ++ queue) e (omega (arith, size, f.need_lem, h.need_le))

        holds : HoldsHeader (with_header o) (bytes ++ queue)
        holds = record {
          no_size = h.no_size;
          no_data = h.no_data;
          raw_size = f.size ∙ h.raw_size;
          need_le = omega (arith, f.need_lem, h.need_le);
          need_pos = e;
          received = ap (◌++◌ bytes) (sym all_taken) ∙ sym (filled o _ f refl);
        }

    -- A whole header has moved: the buffer and the queue hold what was there, in order.
    pub header_bytes :
        (o : ReadOutcome t.State)
        → FillsHeader o
        → o.need_size ≡ 0
        → o.buffer ++ q.queued o.transport ≡ bytes ++ queue
    header_bytes o f e =
        ap₂ ◌++◌ whole f.rest
        ∙ append_assoc bytes (take need queue) (drop need queue)
        ∙ ap (◌++◌ bytes) (take-append-drop need queue)
      where
        whole : o.buffer ≡ bytes ++ take need queue
        whole =
            sym (take-length 12 o.buffer (sym (f.size ∙ h.raw_size))) ∙ filled o 12 f (omega arith)

    pub header_size :
        (o : ReadOutcome t.State)
        → FillsHeader o
        → o.need_size ≡ 0
        → size_field (bytes ++ queue) ≡ size_field o.buffer
    header_size o f e =
        ap size_field (sym (header_bytes o f e))
        ∙ size_field-append o.buffer (q.queued o.transport) (omega (arith, f.size, h.raw_size))

    header_Gives :
        (o : ReadOutcome t.State)
        → read_data_is_available t p.incoming.raw_header_buffer 0 12 need s ≡ some o
        → FillsHeader o
        → o.need_size ≡ 0
        → IsAcceptable (bytes ++ queue)
        → Gives (bytes ++ queue) (read_needed_data_size t p s)
    header_Gives o read f e ok =
        let (p', buffer, received, holds) =
          receive_read_header-HoldsData (with_header o) (f.size ∙ h.raw_size) fits in
        rw (phases p' o.transport (header_reads o read ∙ header_complete o p' f e received)) (
          subst (λ l. Gives l (data_phase t p' o.transport)) same
            (data_phase-Gives p' buffer o.buffer o.transport holds))
      where
        twelve : length o.buffer ≡ 12
        twelve = f.size ∙ h.raw_size

        same : o.buffer ++ q.queued o.transport ≡ bytes ++ queue
        same = header_bytes o f e

        fits : IsU32 (packet_size o.buffer)
        fits = omega (
          arith,
          ok (omega (arith, ap length same, length-append o.buffer (q.queued o.transport), twelve)),
          header_size o f e,
        )

    waiting_Gives :
        (o : ReadOutcome t.State)
        → read_data_is_available t p.incoming.raw_header_buffer 0 12 need s ≡ some o
        → FillsHeader o
        → 0 < o.need_size
        → Gives (bytes ++ queue) (read_needed_data_size t p s)
    waiting_Gives o read f e =
        rw (phases (with_header o) o.transport (header_reads o read ∙ header_incomplete o f e))
          (waits o f e)

    from_header :
        IsAcceptable (bytes ++ queue) → Gives (bytes ++ queue) (read_needed_data_size t p s)
    from_header ok =
        let (o, e, f) =
          read_data_is_available-Fills t q p.incoming.raw_header_buffer 0 12 need s h.need_le
            (omega arith) (omega (arith, h.raw_size)) in
        elim (Bool-cases (ltb 0 o.need_size)) [
          | inl more ↦ waiting_Gives o e f (ground arith)
          | inr done ↦ header_Gives o e f (ground arith) ok
        ]

  from_data :
      (p : PacketParser) (buffer bytes : List ℕ) (s : t.State)
      → HoldsData p buffer bytes
      → Gives (bytes ++ q.queued s) (read_needed_data_size t p s)
  unfolding read_needed_data_size header_phase
  from_data p buffer bytes s h =
      let known : (p.incoming.data_size == c_invalid_packet_size) ≡ false =
        ground (arith, h.counts) in
      rw (known, read_needed_data_size) (data_phase-Gives p buffer bytes s h)

  -- Let a parser hold `bytes`, the beginning of a packet that is not complete, over a transport
  -- that keeps its contract and in which further bytes are queued, and let the packet's size with
  -- its header fit 32 bits. Then a call of `ReadNeededDataSize` succeeds without a fault. If
  -- `bytes` and the queue together hold the whole packet, it hands that out, leaves the bytes behind
  -- it in the queue, and the parser is as it was at first. If not, it hands out nothing, the parser
  -- holds all the bytes, the queue is empty, and the size returned is the number of bytes missing.
  pub read_needed_data_size-next_packet :
      (p : PacketParser) (bytes : List ℕ) (s : t.State)
      → Holding p bytes
      → IsAcceptable (bytes ++ q.queued s)
      → (r : Needed t.State) × (read_needed_data_size t p s ≡ some r)
        × Delivers t q (bytes ++ q.queued s) (next_packet (bytes ++ q.queued s)) r
  read_needed_data_size-next_packet p bytes s (inl h) ok = from_header p bytes s h ok
  read_needed_data_size-next_packet p bytes s (inr (buffer, h, pos)) ok =
      from_data p buffer bytes s h
