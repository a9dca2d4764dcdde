-- ===== src/RawString/Wire.antt =====
-- `RawString::Write` and `RawString::Read` on the wire.
use ipc_portable.Common.{
  ℕ, suc, ◌+◌, ◌≡◌, refl, false, none, some, Option, List, [], ◌∷◌, arith, length, take-length,
  IsU32, ◌==◌, if◌then◌else◌, pure, ◌>>=◌,
}
use ipc_portable.Stream.{DataStream}
use ipc_portable.Stream.Appending.{Writes, Writes->>, write_raw_data-Writes}
use ipc_portable.Stream.Taking.{
  Reads, Reads->>=, Reads-pure, HoldsIn, Holds-load, skip, is_read_available-Holds,
}
use ipc_portable.Stream.Integers.{Get, put_uint32-Writes, get_uint32-Reads}
use ipc_portable.Stream.Texts.{string_layout}
use ipc_portable.Stream.Procs.{Reads-last}
use ipc_portable.RawString.{RawString, contents, write, read, read_raw_data_char}

-- A literal or a string of the program: its pointer gives access to exactly its characters.
abbrev pub text : List ℕ → RawString
text v = record { str = some v; len = length v }

pub contents-text : (v : List ℕ) → contents (text v) ≡ some v
unfolding contents
contents-text v = ground (arith, take-length (length v) v)

pub write-Writes : (v : List ℕ) → Writes (write (text v)) (string_layout v)
unfolding write
write-Writes v = Writes->> (put_uint32-Writes (length v)) (write_raw_data-Writes v)

-- What `Read` gives for a text: of the empty text there is no pointer.
abbrev pub read_text : List ℕ → RawString
read_text [] = record { str = none; len = 0 }
read_text (x ∷ v) = text (x ∷ v)

pub contents-read_text : (v : List ℕ) → contents (read_text v) ≡ some v
contents-read_text [] = unfold contents in refl
contents-read_text (x ∷ v) = contents-text (x ∷ v)

read_raw_data_char-Reads : (v : List ℕ) → Reads (read_raw_data_char (length v)) v (some v)
unfolding read_raw_data_char skip
read_raw_data_char-Reads v = record { at = λ s rest h. go s.read s rest h refl }
  where
    go :
        (o : Option (List ℕ)) (s : DataStream) (rest : List ℕ)
        → HoldsIn o s.read_pos v rest
        → o ≡ s.read
        → read_raw_data_char (length v) s
          ≡ some (some v, record s { read_pos = s.read_pos + length v })
    go none s rest h e = absurd h
    go (some buf) s rest h e =
        ground (arith, Holds-load buf s.read_pos v rest h, is_read_available-Holds s v rest)

read_tail : ℕ → Get RawString
read_tail length =
    if length == 0
    then pure (record { str = none; len = length })
    else read_raw_data_char length >>= λ raw_data. pure (record { str = raw_data; len = length })

read_tail-Reads : (v : List ℕ) → Reads (read_tail (length v)) v (read_text v)
unfolding read_tail
read_tail-Reads [] = Reads-pure (read_text [])
read_tail-Reads (x ∷ v) =
    let nonempty : (suc (length v) == 0) ≡ false = ground arith in
    rw nonempty (
      Reads-last (λ raw_data. record { str = raw_data; len = length (x ∷ v) })
        (read_raw_data_char-Reads (x ∷ v)))

-- A text that was written is read back; the string that is read denotes its characters.
pub read-Reads : (v : List ℕ) → IsU32 (length v) → Reads read (string_layout v) (read_text v)
unfolding read read_tail
read-Reads v h = Reads->>= read_tail (get_uint32-Reads 0 (length v) h) (read_tail-Reads v)
