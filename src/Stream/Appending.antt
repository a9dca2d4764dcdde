-- ===== src/Stream/Appending.antt =====
-- What a writer of Ipc/MAssIpc_DataStream.cpp does to a stream with room: it appends its bytes.
-- The rules compose writers, so that a packet's layout is the append of its parts' layouts.
use ipc_portable.Common.{
  ℕ, ◌+◌, ◌≤◌, ◌≡◌, refl, sym, ap, ◌∙◌, Option, none, some, List, [], ◌++◌, append_assoc,
  append-nil, arith, length, length-append, length-take, take, drop, take-append_left,
  drop-append_left, take-append-drop, take-length, length-drop, drop-drop, drop-length, IsU32,
  Action, pure, ◌>>◌, bind_step,
}
use ipc_portable.Stream.{DataStream, stream_of_write, empty_stream, write_bytes, write_raw_data}
use ipc_portable.Stream.Bytes.{write_unsafe, length-write_unsafe}

-- `len` more bytes can be written: they lie in the buffer, and the position does not wrap.
abbrev pub FitsIn : Option (List ℕ) → ℕ → ℕ → Type 0
FitsIn none pos len = IsU32 (pos + len)
FitsIn (some buffer) pos len = (pos + len ≤ length buffer) × IsU32 (length buffer)

abbrev pub Fits : DataStream → ℕ → Type 0
Fits s len = FitsIn s.write s.write_pos len

abbrev pub overlay : Option (List ℕ) → ℕ → List ℕ → Option (List ℕ)
overlay none pos bytes = none
overlay (some buffer) pos bytes =
    some (take pos buffer ++ (bytes ++ drop (pos + length bytes) buffer))

unfoldable pub append_bytes : List ℕ → DataStream → DataStream
append_bytes bytes s = record s {
  write = overlay s.write s.write_pos bytes;
  write_pos = s.write_pos + length bytes;
}

-- A writer's specification: into a stream with room it appends `bytes`, and nothing else happens.
pub record Writes (m : Action DataStream (Unit {0})) (bytes : List ℕ) : Type 0 where
  pub at : (s : DataStream) → Fits s (length bytes) → m s ≡ some (tt, append_bytes bytes s)

pub overlay-overlay :
    (o : Option (List ℕ)) (pos : ℕ) (xs ys : List ℕ)
    → FitsIn o pos (length (xs ++ ys))
    → overlay (overlay o pos xs) (pos + length xs) ys ≡ overlay o pos (xs ++ ys)
overlay-overlay none pos xs ys h = refl
overlay-overlay (some buf) pos xs ys (h, _) = ap some (
    rw (← append_assoc (take pos buf) xs (drop (pos + length xs) buf)) (
      rw
        (
          take-append_left (pos + length xs) (take pos buf ++ xs) (drop (pos + length xs) buf)
              front,
          back,
        )
        (simp append_assoc)))
  where
    front : pos + length xs ≡ length (take pos buf ++ xs)
    front = omega (arith, length-append (take pos buf) xs, length-take pos buf, length-append xs ys)

    back :
        drop (pos + length xs + length ys) ((take pos buf ++ xs) ++ drop (pos + length xs) buf)
        ≡ drop (pos + length (xs ++ ys)) buf
    back =
        sym (drop-drop (pos + length xs) (length ys) _ _ refl)
        ∙ ap (drop (length ys)) (drop-append_left (pos + length xs) (take pos buf ++ xs) _ front)
        ∙ drop-drop (pos + length xs) (length ys) _ buf (omega (arith, length-append xs ys))

pub append_bytes-append :
    (xs ys : List ℕ) (s : DataStream)
    → Fits s (length (xs ++ ys))
    → append_bytes ys (append_bytes xs s) ≡ append_bytes (xs ++ ys) s
unfolding append_bytes
append_bytes-append xs ys s h =
    λ i. record s { write = overlay-overlay s.write s.write_pos xs ys h i; write_pos = pos i }
  where
    pos : s.write_pos + length xs + length ys ≡ s.write_pos + length (xs ++ ys)
    pos = omega (arith, length-append xs ys)

FitsIn-weaken : (o : Option (List ℕ)) (pos m n : ℕ) → m ≤ n → FitsIn o pos n → FitsIn o pos m
FitsIn-weaken none pos m n h k = omega arith
FitsIn-weaken (some buf) pos m n h k = omega arith

FitsIn-overlay :
    (o : Option (List ℕ)) (pos : ℕ) (xs : List ℕ) (n : ℕ)
    → FitsIn o pos (length xs + n)
    → FitsIn (overlay o pos xs) (pos + length xs) n
FitsIn-overlay none pos xs n h = omega arith
FitsIn-overlay (some buf) pos xs n h = omega (arith, long)
  where
    tail : ℕ
    tail = length (drop (pos + length xs) buf)

    long : length (take pos buf ++ (xs ++ drop (pos + length xs) buf)) ≡ length buf
    long = omega (
      arith,
      length-append (take pos buf) (xs ++ drop (pos + length xs) buf),
      length-append xs (drop (pos + length xs) buf),
      length-take pos buf,
      length-drop (pos + length xs) buf,
      h.0,
    )

pub Fits-weaken : (s : DataStream) (m n : ℕ) → m ≤ n → Fits s n → Fits s m
Fits-weaken s m n h k = FitsIn-weaken s.write s.write_pos m n h k

pub Fits-append_bytes :
    (xs ys : List ℕ) (s : DataStream)
    → Fits s (length (xs ++ ys))
    → Fits (append_bytes xs s) (length ys)
unfolding append_bytes
Fits-append_bytes xs ys s h =
    FitsIn-overlay s.write s.write_pos xs (length ys) (
      FitsIn-weaken s.write s.write_pos _ (length (xs ++ ys)) (omega (arith, length-append xs ys))
        h)

-- One writer after the other appends both layouts, in order.
pub Writes->> :
    {m k : Action DataStream (Unit {0})} {xs ys : List ℕ}
    → Writes m xs
    → Writes k ys
    → Writes (m >> k) (xs ++ ys)
Writes->> {m} {k} {xs} {ys} wm wk = record {
  at = λ s h.
      bind_step m (λ _. k) s (wm.at s (Fits-weaken s _ _ (omega (arith, length-append xs ys)) h))
      ∙ wk.at (append_bytes xs s) (Fits-append_bytes xs ys s h)
      ∙ ap (λ t. some (tt, t)) (append_bytes-append xs ys s h);
}

append_bytes-nil : (s : DataStream) → Fits s 0 → append_bytes [] s ≡ s
unfolding append_bytes
append_bytes-nil s h = λ i. record s { write = whole s.write s.write_pos h i; write_pos = pos i }
  where
    pos : s.write_pos + 0 ≡ s.write_pos
    pos = omega arith

    whole : (o : Option (List ℕ)) (p : ℕ) → FitsIn o p 0 → overlay o p [] ≡ o
    whole none p h = refl
    whole (some buf) p h =
        let e : p + 0 ≡ p = omega arith in rw e (ap some (take-append-drop p buf))

pub Writes-pure : Writes (pure tt) []
Writes-pure = record { at = λ s h. ap (λ t. some (tt, t)) (sym (append_bytes-nil s h)) }

-- The two primitive writers.
pub write_bytes-Writes : (width t : ℕ) → Writes (write_bytes width t) (write_unsafe width t)
unfolding write_bytes append_bytes
write_bytes-Writes width t = record { at = λ s h. ground (arith, length-write_unsafe width t) }

pub write_raw_data-Writes :
    (source : List ℕ) → Writes (write_raw_data source (length source)) source
unfolding write_raw_data append_bytes
write_raw_data-Writes source = record {
  at = λ s h. ground (arith, take-length (length source) source);
}

-- A buffer of exactly the layout's length ends up holding the layout.
pub append_bytes-exact :
    (bytes buffer : List ℕ)
    → length buffer ≡ length bytes
    → append_bytes bytes (stream_of_write buffer)
      ≡ record empty_stream { write = some bytes; write_pos = length bytes }
unfolding append_bytes
append_bytes-exact bytes buffer e = λ i. record empty_stream {
  write = some (content i);
  write_pos = (let p : 0 + length bytes ≡ length bytes = omega arith in p) i;
}
  where
    content : bytes ++ drop (0 + length bytes) buffer ≡ bytes
    content = rw (drop-length (0 + length bytes) buffer (omega arith)) (append-nil bytes)
