-- ===== src/Parser/Framing/Data.antt =====
-- The second phase of `ReadNeededDataSize`: a parser that has the header takes the data.
use ipc_portable.Common.{
  ℕ, ◌+◌, ◌-◌, ◌≤◌, ◌<◌, ◌≡◌, refl, sym, ap, ◌∙◌, inl, inr, none, some, List, ◌++◌, arith, length,
  length-append, length-take, take, take-length, take-long, drop-length, take-append_front,
  take-append_back, drop-append_back, ◌==◌, if◌then◌else◌, Bool-cases,
}
use ipc_portable.Packet.{c_net_call_packet_header_size}
use ipc_portable.Transport.{TransportCopy, IsQueue}
use ipc_portable.Parser.{PacketParser, ReadOutcome, initial_parser, data_arrived}
use ipc_portable.Parser.Filling.{Fills}
use ipc_portable.Parser.Framing.{
  size_field, packet_size, next_packet, next_packet_complete, next_packet_short, missing,
  missing_data, HoldsData, Delivers,
}

-- More bytes behind a whole header do not change its size field.
pub size_field-append :
    (xs ys : List ℕ)
    → c_net_call_packet_header_size ≤ length xs
    → size_field (xs ++ ys) ≡ size_field xs
unfolding size_field
size_field-append xs ys h = rw (take-append_front 12 xs ys h)

module _ (t : TransportCopy) (q : IsQueue t) (p : PacketParser) (buffer bytes : List ℕ)
    (s : t.State) (h : HoldsData p buffer bytes) where
  abbrev queue : List ℕ
  queue = q.queued s

  abbrev need : ℕ
  need = p.incoming.need_size

  length_bytes : length bytes ≡ 12 + p.incoming.data_size - need
  length_bytes = omega (
    arith,
    ap length h.received,
    length-take (12 + p.incoming.data_size - need) buffer,
    h.buffer_size,
  )

  announced : packet_size (bytes ++ queue) ≡ 12 + p.incoming.data_size
  announced =
      omega
        (arith, size_field-append bytes queue (omega (arith, length_bytes, h.need_le)), h.announced)

  abbrev FillsData : ReadOutcome t.State → Type 0
  FillsData o = Fills t q buffer (12 + (p.incoming.data_size - need)) need queue o

  fill_position : 12 + (p.incoming.data_size - need) ≡ 12 + p.incoming.data_size - need
  fill_position = omega (arith, h.need_le)

  -- The buffer is filled with what was held and what the queue gave.
  filled :
      (o : ReadOutcome t.State) (n : ℕ)
      → FillsData o
      → n ≡ 12 + p.incoming.data_size - o.need_size
      → take n o.buffer ≡ bytes ++ take need queue
  filled o n f e =
      let e' : n ≡ 12 + (p.incoming.data_size - need) + need - o.need_size =
        omega (arith, h.need_le) in
      rw (e', h.received, ← fill_position) f.filled

  data_complete :
      (o : ReadOutcome t.State)
      → FillsData o
      → o.need_size ≡ 0
      → Delivers t q (bytes ++ queue) (next_packet (bytes ++ queue)) (record {
        size = 12;
        packet = some o.buffer;
        parser = initial_parser;
        transport = o.transport;
      })
  data_complete o f e =
      rw
        (next_packet_complete (bytes ++ queue) (12 + p.incoming.data_size) announced
          (omega (arith, length-append bytes queue, length_bytes, f.need_lem)))
        (
          ap some (whole ∙ sym (take-append_back n need bytes queue split)),
          refl,
          f.rest ∙ sym (drop-append_back n need bytes queue split),
          refl,
        )
    where
      n : ℕ
      n = 12 + p.incoming.data_size

      split : n ≡ length bytes + need
      split = omega (arith, length_bytes, h.need_le)

      whole : o.buffer ≡ bytes ++ take need queue
      whole =
          sym (take-length n o.buffer (omega (arith, f.size, h.buffer_size)))
          ∙ filled o n f (omega arith)

  data_incomplete :
      (o : ReadOutcome t.State)
      → FillsData o
      → 0 < o.need_size
      → Delivers t q (bytes ++ queue) (next_packet (bytes ++ queue)) (record {
        size = o.need_size;
        packet = none;
        parser = record {
          header_data = some o.buffer;
          incoming = record p.incoming { need_size = o.need_size };
        };
        transport = o.transport;
      })
  data_incomplete o f e =
      rw
        (next_packet_short (bytes ++ queue) (
          omega (arith, announced, length-append bytes queue, length_bytes, f.need_lem, h.need_le)))
        (
          refl,
          inr (o.buffer, held, e),
          f.rest ∙ drop-length need queue (omega (arith, f.need_lem)),
          amount,
        )
    where
      all_taken : take need queue ≡ queue
      all_taken = take-long need queue (omega (arith, f.need_lem))

      amount : o.need_size ≡ missing (bytes ++ queue)
      amount =
          missing_data (bytes ++ queue)
            (omega (arith, length-append bytes queue, length_bytes, h.need_le))
            (omega
              (arith, announced, length-append bytes queue, length_bytes, f.need_lem, h.need_le))

      held :
          HoldsData
            (record {
              header_data = some o.buffer;
              incoming = record p.incoming { need_size = o.need_size };
            })
            o.buffer
            (bytes ++ queue)
      held = record {
        packet_data = refl;
        counts = h.counts;
        buffer_size = f.size ∙ h.buffer_size;
        need_le = omega (arith, f.need_lem, h.need_le);
        received = ap (◌++◌ bytes) (sym all_taken) ∙ sym (filled o _ f refl);
        announced = omega (arith, announced);
      }

  -- The call's end, on either side of the test on `need_size`.
  pub data_arrived-Delivers :
      (o : ReadOutcome t.State)
      → FillsData o
      → Delivers t q (bytes ++ queue) (next_packet (bytes ++ queue)) (
          data_arrived t o (record {
            header_data = some o.buffer;
            incoming = record p.incoming { need_size = o.need_size };
          }))
  unfolding data_arrived
  data_arrived-Delivers o f = elim (Bool-cases (o.need_size == 0)) [
    | inl whole ↦ rw (not_failed, whole) (data_complete o f (ground arith))
    | inr part ↦ rw (not_failed, part) (data_incomplete o f (ground arith))
  ]
    where
      waiting : PacketParser
      waiting = record {
        header_data = some o.buffer;
        incoming = record p.incoming { need_size = o.need_size };
      }

      not_failed : data_arrived t o waiting ≡ (
          if o.need_size == 0
          then record {
            size = 12;
            packet = some o.buffer;
            parser = initial_parser;
            transport = o.transport;
          }
          else record {
            size = o.need_size;
            packet = none;
            parser = waiting;
            transport = o.transport;
          })
      not_failed = elim f.took [ inl a ↦ rw a | inr n ↦ rw n.0 ]
