-- ===== src/Parser/Framing/Overflow.antt =====
-- What `ReadNeededDataSize` does with a header that announces more data than 32 bits can count
-- together with the header: `ReceiveReadHeader` has no check of the size.
use mathlib.Core.Path.{subst}
use ipc_portable.Common.{
  ℕ, ◌+◌, ◌-◌, ◌≤◌, ◌≡◌, sym, ◌∙◌, inl, inr, none, List, ◌++◌, arith, length, length-append,
  length-replicate, take, take-length, IsU32, u32_mod,
}
use ipc_portable.Stream.Bytes.{read_unsafe}
use ipc_portable.Transport.{TransportCopy, IsQueue}
use ipc_portable.Parser.{
  PacketParser, ReadOutcome, receive_read_header, header_arrived, read_needed_data_size,
  header_phase,
}
use ipc_portable.Parser.Filling.{read_data_is_available-Fills}
use ipc_portable.Parser.Framing.{size_field, packet_size, HoldsHeader}
use ipc_portable.Parser.Framing.Refines.{
  with_header, FillsHeader, header_reads, header_size, length_bytes,
}

module _ (t : TransportCopy) where
  receive_read_header_oversize :
      (p : PacketParser)
      → length p.incoming.raw_header_buffer ≡ 12
      → IsU32 (size_field p.incoming.raw_header_buffer)
      → u32_mod ≤ packet_size p.incoming.raw_header_buffer
      → receive_read_header t p ≡ none
  unfolding receive_read_header size_field
  receive_read_header_oversize p len small big =
      let whole : take 12 p.incoming.raw_header_buffer ≡ p.incoming.raw_header_buffer =
        take-length 12 _ (sym len) in
      let small' = subst (λ l. IsU32 (read_unsafe 4 l)) whole small in
      let big' = subst (λ l. u32_mod ≤ 12 + read_unsafe 4 l) whole big in
      ground (
        arith,
        length-replicate {A = ℕ} ((12 + read_unsafe 4 p.incoming.raw_header_buffer) - u32_mod) 0,
      )

module _ (t : TransportCopy) (q : IsQueue t) (p : PacketParser) (bytes : List ℕ) (s : t.State)
    (h : HoldsHeader p bytes) where
  abbrev all : List ℕ
  all = bytes ++ q.queued s

  header_faults :
      (o : ReadOutcome t.State)
      → FillsHeader t q p bytes s h o
      → o.need_size ≡ 0
      → IsU32 (size_field all)
      → u32_mod ≤ packet_size all
      → header_arrived t o (with_header t q p bytes s h o) ≡ none
  unfolding header_arrived
  header_faults o f e small big = elim f.took [
    | inl a ↦ rw (
      a,
      e,
      receive_read_header_oversize t (with_header t q p bytes s h o) (f.size ∙ h.raw_size)
          (subst IsU32 size small) (subst (λ n. u32_mod ≤ 12 + n) size big),
    )
    | inr n ↦ absurd (omega (arith, h.need_pos))
  ]
    where
      size : size_field all ≡ size_field o.buffer
      size = header_size t q p bytes s h o f e

  phase_faults : header_phase t p s ≡ none → read_needed_data_size t p s ≡ none
  unfolding read_needed_data_size
  phase_faults e = rw (e, read_needed_data_size)

  -- Let a parser hold the beginning of a header, and let the bytes that it holds and those in the
  -- transport's queue contain the whole header. If the header's size field and the twelve bytes of
  -- the header are together 2 ^ 32 or more, the call of `ReadNeededDataSize` ends in a write
  -- behind the end of the packet's buffer, whatever follows the header.
  pub read_needed_data_size_oversize :
      12 ≤ length all
      → IsU32 (size_field all)
      → u32_mod ≤ packet_size all
      → read_needed_data_size t p s ≡ none
  read_needed_data_size_oversize whole small big =
      let (o, e, f) =
        read_data_is_available-Fills t q p.incoming.raw_header_buffer 0 12 p.incoming.need_size s
          h.need_le (omega arith) (omega (arith, h.raw_size)) in
      let all_there : o.need_size ≡ 0 = omega (
        arith,
        f.need_lem,
        length-append bytes (q.queued s),
        length_bytes t q p bytes s h,
        h.need_le,
      ) in
      phase_faults (header_reads t q p bytes s h o e ∙ header_faults o f all_there small big)
