-- ===== src/Stream/Taking.antt =====
-- What a reader of Ipc/MAssIpc_DataStream.cpp does to a stream that holds the layout it reads: it
-- takes the layout off the front. The rules compose readers.
use ipc_portable.Common.{
  ℕ, ◌+◌, ◌^◌, ◌<◌, ◌≤◌, ◌≡◌, refl, sym, ap, ◌∙◌, Option, none, some, true, List, [], ◌++◌,
  append_assoc, arith, length, length-append, length-drop, take, drop, take-append_left,
  drop-append_left, drop-drop, IsU32, Action, pure, ◌>>=◌, bind_step,
}
use ipc_portable.Stream.{DataStream, stream_of_read, read_bytes, read_raw_data, is_read_available}
use ipc_portable.Stream.Bytes.{write_unsafe, length-write_unsafe, read_unsafe-write_unsafe}

-- The unread part of the buffer is `bytes` and then `rest`.
abbrev pub HoldsIn : Option (List ℕ) → ℕ → List ℕ → List ℕ → Type 0
HoldsIn none pos bytes rest = ⊥
HoldsIn (some buffer) pos bytes rest =
    IsU32 (length buffer) × (pos ≤ length buffer) × (drop pos buffer ≡ bytes ++ rest)

abbrev pub Holds : DataStream → List ℕ → List ℕ → Type 0
Holds s bytes rest = HoldsIn s.read s.read_pos bytes rest

unfoldable pub skip : ℕ → DataStream → DataStream
skip n s = record s { read_pos = s.read_pos + n }

-- A reader's specification: from a stream that holds `bytes` it takes them, gives `a`, and leaves
-- the rest unread.
pub record Reads {A : Type 0} (m : Action DataStream A) (bytes : List ℕ) (a : A) : Type 0 where
  pub at :
      (s : DataStream) (rest : List ℕ) → Holds s bytes rest → m s ≡ some (a, skip (length bytes) s)

HoldsIn-skip :
    (o : Option (List ℕ)) (pos : ℕ) (xs ys : List ℕ)
    → HoldsIn o pos xs ys
    → HoldsIn o (pos + length xs) [] ys
HoldsIn-skip none pos xs ys h = h
HoldsIn-skip (some buf) pos xs ys (wide, inside, e) = (
  wide,
  omega (arith, size),
  sym (drop-drop pos (length xs) _ buf refl) ∙ rw e (drop-append_left _ xs ys refl),
)
  where
    size : length buf ≡ pos + (length xs + length ys)
    size = omega (arith, length-drop pos buf, ap length e, length-append xs ys)

pub HoldsIn-assoc :
    (o : Option (List ℕ)) (pos : ℕ) (xs ys rest : List ℕ)
    → HoldsIn o pos (xs ++ ys) rest
    → HoldsIn o pos xs (ys ++ rest)
HoldsIn-assoc none pos xs ys rest h = h
HoldsIn-assoc (some buf) pos xs ys rest (wide, inside, e) =
    (wide, inside, e ∙ append_assoc xs ys rest)

HoldsIn-shift :
    (o : Option (List ℕ)) (pos : ℕ) (ys rest : List ℕ)
    → HoldsIn o pos [] (ys ++ rest)
    → HoldsIn o pos ys rest
HoldsIn-shift none pos ys rest h = h
HoldsIn-shift (some buf) pos ys rest h = h

pub Holds-skip :
    (xs ys rest : List ℕ) (s : DataStream)
    → Holds s (xs ++ ys) rest
    → Holds (skip (length xs) s) ys rest
unfolding skip
Holds-skip xs ys rest s h =
    HoldsIn-shift s.read _ ys rest (
      HoldsIn-skip s.read s.read_pos xs (ys ++ rest) (HoldsIn-assoc s.read s.read_pos xs ys rest h))

pub skip-skip : (m n k : ℕ) (s : DataStream) → k ≡ m + n → skip n (skip m s) ≡ skip k s
unfolding skip
skip-skip m n k s e = λ i. record s { read_pos = sum i }
  where
    sum : s.read_pos + m + n ≡ s.read_pos + k
    sum = omega arith

-- One reader after the other.
pub Reads->>= :
    {A B : Type 0} {m : Action DataStream A} (f : A → Action DataStream B) {xs ys : List ℕ} {a : A}
    {b : B}
    → Reads m xs a
    → Reads (f a) ys b
    → Reads (m >>= f) (xs ++ ys) b
Reads->>= {m = m} f {xs = xs} {ys = ys} {a = a} {b = b} rm rf = record {
  at = λ s rest h.
      bind_step m f s (rm.at s (ys ++ rest) (HoldsIn-assoc s.read s.read_pos xs ys rest h))
      ∙ rf.at (skip (length xs) s) rest (Holds-skip xs ys rest s h)
      ∙ ap (λ t. some (b, t)) (skip-skip _ _ _ s (length-append xs ys));
}

pub Reads-pure : {A : Type 0} (a : A) → Reads (pure a) [] a
unfolding skip
Reads-pure a = record { at = λ s rest h. λ i. some (a, record s { read_pos = stay s i }) }
  where
    stay : (s : DataStream) → s.read_pos ≡ s.read_pos + 0
    stay s = omega arith

-- The bytes of the layout, found at the read position.
pub Holds-load :
    (buf : List ℕ) (pos : ℕ) (bytes rest : List ℕ)
    → HoldsIn (some buf) pos bytes rest
    → (pos + length bytes ≤ length buf) × (take (length bytes) (drop pos buf) ≡ bytes)
Holds-load buf pos bytes rest (wide, inside, e) = (
  omega (arith, length-drop pos buf, ap length e, length-append bytes rest),
  rw e (take-append_left (length bytes) bytes rest refl),
)

pub is_read_available-Holds :
    (s : DataStream) (bytes rest : List ℕ)
    → Holds s bytes rest
    → is_read_available (length bytes) s ≡ true
is_read_available-Holds s bytes rest h = go s.read h refl
  where
    go :
        (o : Option (List ℕ))
        → HoldsIn o s.read_pos bytes rest
        → o ≡ s.read
        → is_read_available (length bytes) s ≡ true
    go none h e = absurd h
    go (some buf) h e =
        unfold is_read_available in ground (arith, Holds-load buf s.read_pos bytes rest h)

-- The two primitive readers.
pub read_bytes-Reads :
    (width old v : ℕ) → v < 256 ^ width → Reads (read_bytes width old) (write_unsafe width v) v
unfolding read_bytes skip
read_bytes-Reads width old v fits = record { at = λ s rest h. go s.read s rest h refl }
  where
    go :
        (o : Option (List ℕ)) (s : DataStream) (rest : List ℕ)
        → HoldsIn o s.read_pos (write_unsafe width v) rest
        → o ≡ s.read
        → read_bytes width old s
          ≡ some (v, record s { read_pos = s.read_pos + length (write_unsafe width v) })
    go none s rest h e = absurd h
    go (some buf) s rest h e = ground (
      arith,
      Holds-load buf s.read_pos (write_unsafe width v) rest h,
      length-write_unsafe width v,
      read_unsafe-write_unsafe width v fits,
    )

pub read_raw_data-Reads : (bytes : List ℕ) → Reads (read_raw_data (length bytes)) bytes bytes
unfolding read_raw_data skip
read_raw_data-Reads bytes = record { at = λ s rest h. go s.read s rest h refl }
  where
    go :
        (o : Option (List ℕ)) (s : DataStream) (rest : List ℕ)
        → HoldsIn o s.read_pos bytes rest
        → o ≡ s.read
        → read_raw_data (length bytes) s
          ≡ some (bytes, record s { read_pos = s.read_pos + length bytes })
    go none s rest h e = absurd h
    go (some buf) s rest h e = ground (arith, Holds-load buf s.read_pos bytes rest h)

-- A fresh stream over a buffer holds the buffer.
pub Holds-stream_of_read :
    (bytes rest : List ℕ)
    → IsU32 (length (bytes ++ rest))
    → Holds (stream_of_read (bytes ++ rest)) bytes rest
Holds-stream_of_read bytes rest h = (h, omega arith, refl)
