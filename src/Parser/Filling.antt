-- ===== src/Parser/Filling.antt =====
-- `ReadDataIsAvailable` over a transport that keeps its contract: it moves what has arrived, and no
-- more than is needed, from the transport to the end of what the buffer already holds.
use Prim.Native.Nat.{min}
use ipc_portable.Common.{
  ℕ, zero, suc, ◌+◌, ◌-◌, ◌≤◌, ◌≡◌, refl, sym, ap, ◌∙◌, ◌⊎◌, inl, inr, Option, none, some, List, [],
  ◌∷◌, ◌++◌, append_assoc, append-nil, arith, length, length-append, length-take, length-drop, take,
  drop, take-append_left, ltb, ◌==◌, Bool-cases, IsU32, sub32,
}
use ipc_portable.Transport.{TransportCopy, IsQueue}
use ipc_portable.Parser.{
  ReadDataStatus, available, nodata, ReadOutcome, place, read_data_is_available,
}

module _ {ℓ} {A : Type ℓ} where
  pub take-min : (m n : ℕ) (xs : List A) → m ≡ min n (length xs) → take m xs ≡ take n xs
  take-min zero zero xs e = refl
  take-min zero (suc n) [] e = refl
  take-min zero (suc n) (x ∷ xs) e = absurd (omega arith)
  take-min (suc m) zero xs e = absurd (omega arith)
  take-min (suc m) (suc n) [] e = absurd (omega arith)
  take-min (suc m) (suc n) (x ∷ xs) e = ap (◌∷◌ x) (take-min m n xs (omega arith))

  pub drop-min : (m n : ℕ) (xs : List A) → m ≡ min n (length xs) → drop m xs ≡ drop n xs
  drop-min zero zero xs e = refl
  drop-min zero (suc n) [] e = refl
  drop-min zero (suc n) (x ∷ xs) e = absurd (omega arith)
  drop-min (suc m) zero xs e = absurd (omega arith)
  drop-min (suc m) (suc n) [] e = absurd (omega arith)
  drop-min (suc m) (suc n) (x ∷ xs) e = drop-min m n xs (omega arith)

pub overlay_list : List ℕ → ℕ → List ℕ → List ℕ
overlay_list buffer pos bytes = take pos buffer ++ (bytes ++ drop (pos + length bytes) buffer)

module _ (t : TransportCopy) (q : IsQueue t) where
  -- What the call leaves behind. `pos` is where the buffer is filled up to.
  pub record Fills (buffer : List ℕ) (pos need : ℕ) (queue : List ℕ) (o : ReadOutcome t.State)
      : Type 0 where
    pub took : (o.status ≡ available) ⊎ ((o.status ≡ nodata) × (o.need_size ≡ need))
    pub filled : take (pos + need - o.need_size) o.buffer ≡ take pos buffer ++ take need queue
    pub size : length o.buffer ≡ length buffer
    pub need_lem : o.need_size ≡ need - length queue
    pub rest : q.queued o.transport ≡ drop need queue

  -- Nothing is moved: the queue is empty, or nothing is needed.
  Fills-idle :
      (status : ReadDataStatus) (buffer : List ℕ) (pos need : ℕ) (s : t.State)
      → (status ≡ available) ⊎ ((status ≡ nodata) × (need ≡ need))
      → min need (length (q.queued s)) ≡ 0
      → Fills buffer pos need
          (q.queued s)
          (record { status = status; buffer = buffer; need_size = need; transport = s })
  Fills-idle status buffer pos need s st e = record {
    took = st;
    filled =
        let p : pos + need - need ≡ pos = omega arith in
        rw (p, ← take-min 0 need (q.queued s) (sym e)) (sym (append-nil (take pos buffer)));
    size = refl;
    need_lem = omega arith;
    rest = drop-min 0 need (q.queued s) (sym e);
  }

  Fills-moved :
      (buffer : List ℕ) (pos need n : ℕ) (s : t.State)
      → pos + need ≤ length buffer
      → IsU32 need
      → n ≡ min need (length (q.queued s))
      → Fills buffer pos need (q.queued s) (record {
        status = available;
        buffer = overlay_list buffer pos (take n (q.queued s));
        need_size = sub32 need n;
        transport = (t.read n s).1;
      })
  unfolding overlay_list
  Fills-moved buffer pos need n s room small e = record {
    took = inl refl;
    filled =
        ap (take (pos + need - sub32 need n)) (
          sym (
            append_assoc (take pos buffer) (take n queue)
              (drop (pos + length (take n queue)) buffer)))
        ∙ take-append_left (pos + need - sub32 need n) (take pos buffer ++ take n queue) _ (
            omega (
              arith,
              taken,
              length-append (take pos buffer) (take n queue),
              length-take pos buffer,
            ))
        ∙ ap (◌++◌ (take pos buffer)) (take-min n need queue e);
    size = omega (
      arith,
      taken,
      length-append (take pos buffer) (take n queue ++ drop (pos + length (take n queue)) buffer),
      length-append (take n queue) (drop (pos + length (take n queue)) buffer),
      length-take pos buffer,
      length-drop (pos + length (take n queue)) buffer,
    );
    need_lem = omega arith;
    rest = q.read_queue_lem n s (omega arith) ∙ drop-min n need queue e;
  }
    where
      queue : List ℕ
      queue = q.queued s

      taken : length (take n queue) ≡ n
      taken = omega (arith, length-take n queue)

  place-some :
      (buffer : List ℕ) (pos need n : ℕ) (bytes : List ℕ) (r : Option (List ℕ) × t.State)
      → r.0 ≡ some bytes
      → pos + length bytes ≤ length buffer
      → place t buffer pos need n r
        ≡ some (record {
          status = available;
          buffer = overlay_list buffer pos bytes;
          need_size = sub32 need n;
          transport = r.1;
        })
  unfolding place overlay_list
  place-some buffer pos need n bytes (none, s) e room = cc
  place-some buffer pos need n bytes (some bs, s) e room = ground arith

  -- The call succeeds, and fills the buffer from where it was filled up to.
  pub read_data_is_available-Fills :
      (buffer : List ℕ) (start total need : ℕ) (s : t.State)
      → need ≤ total
      → IsU32 total
      → start + total ≤ length buffer
      → (o : ReadOutcome t.State) × (read_data_is_available t buffer start total need s ≡ some o)
        × Fills buffer (start + (total - need)) need (q.queued s) o
  unfolding read_data_is_available
  read_data_is_available-Fills buffer start total need s le small room =
      rw (q.available_lem s) (elim (Bool-cases (ltb 0 (length (q.queued s)))) [
        | inr empty ↦
            (_, rw empty, Fills-idle nodata buffer pos need s (inr (refl, refl)) (ground arith))
        | inl some_bytes ↦ elim (Bool-cases (n == 0)) [
          | inl none_needed ↦ (
            _,
            rw (some_bytes, none_needed),
            Fills-idle available buffer pos need s (inl refl) (ground arith),
          )
          | inr moves ↦ (
            _,
            rw (some_bytes, moves) moved,
            Fills-moved buffer pos need n s (omega arith) (omega arith) refl,
          )
        ]
      ])
    where
      n : ℕ
      n = min need (length (q.queued s))

      pos : ℕ
      pos = start + (total - need)

      moved :
          place t buffer (start + sub32 total need) need n (t.read n s)
          ≡ some (record {
            status = available;
            buffer = overlay_list buffer pos (take n (q.queued s));
            need_size = sub32 need n;
            transport = (t.read n s).1;
          })
      moved =
          let e : start + sub32 total need ≡ pos = omega arith in
          let len : length (take n (q.queued s)) ≡ n = omega (arith, length-take n (q.queued s)) in
          rw e (
            place-some buffer pos need n (take n (q.queued s)) (t.read n s)
              (q.read_bytes_lem n s (omega arith)) (omega arith))
