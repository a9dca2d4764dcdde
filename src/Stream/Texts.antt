-- ===== src/Stream/Texts.antt =====
-- The stream operators on `std::string`, `std::vector<Integer>` and the list of procedures, from
-- Ipc/MAssIpc_DataStream.h and Ipc/MAssIpc_DataStream.cpp. A string is the list of its bytes.
use mathlib.Core.Path.{subst}
use native.Mathlib.Nat.{mod-eq_of_lt}
use ipc_portable.Common.{
  ℕ, ◌-◌, ◌%◌, ◌^◌, ◌<◌, ◌≡◌, List, [], ◌∷◌, ◌++◌, some, append-nil, arith, length, length-append,
  length-take, length-replicate, take, replicate, All, IsU32, u32_mod, ◌==◌, if◌then◌else◌, pure,
  ◌>>=◌, ◌>>◌,
}
use ipc_portable.Stream.{
  raise, is_read_available, write_bytes, read_bytes, write_raw_data, read_raw_data,
}
use ipc_portable.Stream.Bytes.{write_unsafe}
use ipc_portable.Stream.Appending.{
  Writes, Writes->>, Writes-pure, write_bytes-Writes, write_raw_data-Writes,
}
use ipc_portable.Stream.Taking.{
  Reads, Reads->>=, Reads-pure, is_read_available-Holds, read_bytes-Reads, read_raw_data-Reads,
}
use ipc_portable.Stream.Integers.{
  Put, Get, put_uint32, get_uint32, put_uint32-Writes, get_uint32-Reads,
}

abbrev pub complain : Put
complain s = some (tt, raise s)

-- `stream << std::string`.
unfoldable pub put_string : List ℕ → Put
put_string v = put_uint32 (length v % u32_mod) >> write_raw_data v (length v % u32_mod)

-- After the length: the string keeps its old value if the text is not all there.
unfoldable pub get_text : List ℕ → ℕ → Get (List ℕ)
get_text old length s =
    if is_read_available length s
    then (if length == 0 then some ([], s) else read_raw_data length s)
    else some (old, raise s)

-- `stream >> std::string`.
unfoldable pub get_string : List ℕ → Get (List ℕ)
unfolding get_text
get_string old = get_uint32 0 >>= get_text old

-- `stream << std::vector<Integer>`, with `width` for `sizeof(Integer)`.
unfoldable pub put_items : ℕ → List ℕ → Put
put_items width [] = pure tt
put_items width (item ∷ rest) = write_bytes width item >> put_items width rest

unfoldable pub put_vector : ℕ → List ℕ → Put
unfolding put_items
put_vector width v = put_uint32 (length v % u32_mod) >> put_items width v

-- `v.resize(length)`.
abbrev pub resize {ℓ} : {A : Type ℓ} → A → ℕ → List A → List A
resize fresh n v = take n v ++ replicate (n - length v) fresh

-- `stream >> std::vector<Integer>`: each item is read over what the vector held there.
unfoldable pub get_items : ℕ → List ℕ → Get (List ℕ)
get_items width [] = pure []
get_items width (old ∷ olds) = do
  item ← read_bytes width old
  rest ← get_items width olds
  pure (item ∷ rest)

unfoldable pub get_vector : ℕ → List ℕ → Get (List ℕ)
unfolding get_items
get_vector width old = do length ← get_uint32 0; get_items width (resize 0 length old)

abbrev pub string_layout : List ℕ → List ℕ
string_layout v = write_unsafe 4 (length v) ++ v

pub put_string-Writes : (v : List ℕ) → IsU32 (length v) → Writes (put_string v) (string_layout v)
unfolding put_string
put_string-Writes v h =
    rw (mod-eq_of_lt h) (Writes->> (put_uint32-Writes (length v)) (write_raw_data-Writes v))

get_text-Reads : (old v : List ℕ) → Reads (get_text old (length v)) v v
unfolding get_text
get_text-Reads old [] = record {
  at = λ s rest h. rw (is_read_available-Holds s [] rest h) ((Reads-pure []).at s rest h);
}
get_text-Reads old (x ∷ v) = record {
  at = λ s rest h.
      rw (is_read_available-Holds s (x ∷ v) rest h)
        (ground (arith, (read_raw_data-Reads (x ∷ v)).at s rest h));
}

-- A string is read back from what was written for it, whatever the variable held before.
pub get_string-Reads :
    (old v : List ℕ) → IsU32 (length v) → Reads (get_string old) (string_layout v) v
unfolding get_string
get_string-Reads old v h =
    Reads->>= (get_text old) (get_uint32-Reads 0 (length v) h) (get_text-Reads old v)

abbrev pub items_layout : ℕ → List ℕ → List ℕ
items_layout width [] = []
items_layout width (item ∷ rest) = write_unsafe width item ++ items_layout width rest

abbrev pub vector_layout : ℕ → List ℕ → List ℕ
vector_layout width v = write_unsafe 4 (length v) ++ items_layout width v

put_items-Writes : (width : ℕ) (v : List ℕ) → Writes (put_items width v) (items_layout width v)
unfolding put_items
put_items-Writes width [] = Writes-pure
put_items-Writes width (item ∷ rest) =
    Writes->> (write_bytes-Writes width item) (put_items-Writes width rest)

pub put_vector-Writes :
    (width : ℕ) (v : List ℕ)
    → IsU32 (length v)
    → Writes (put_vector width v) (vector_layout width v)
unfolding put_vector
put_vector-Writes width v h =
    rw (mod-eq_of_lt h) (Writes->> (put_uint32-Writes (length v)) (put_items-Writes width v))

get_items-Reads :
    (width : ℕ) (olds v : List ℕ)
    → length olds ≡ length v
    → All (λ item. item < 256 ^ width) v
    → Reads (get_items width olds) (items_layout width v) v
unfolding get_items
get_items-Reads width [] [] e h = Reads-pure []
get_items-Reads width [] (x ∷ v) e h = absurd (omega arith)
get_items-Reads width (old ∷ olds) [] e h = absurd (omega arith)
get_items-Reads width (old ∷ olds) (x ∷ v) e h = Reads->>= _ (read_bytes-Reads width old x h.0) (
    subst (λ l. Reads (get_items width olds >>= λ rest. pure (x ∷ rest)) l (x ∷ v))
      (append-nil (items_layout width v))
      (Reads->>= (λ rest. pure (x ∷ rest)) (get_items-Reads width olds v (omega arith) h.1)
        (Reads-pure (x ∷ v))))

pub length-resize {ℓ} :
    {A : Type ℓ} (fresh : A) (n : ℕ) (v : List A) → length (resize fresh n v) ≡ n
length-resize fresh n v = omega (
  arith,
  length-append (take n v) (replicate (n - length v) fresh),
  length-take n v,
  length-replicate (n - length v) fresh,
)

-- A vector of integers that fit their type is read back, over a vector of any length.
pub get_vector-Reads :
    (width : ℕ) (old v : List ℕ)
    → IsU32 (length v)
    → All (λ item. item < 256 ^ width) v
    → Reads (get_vector width old) (vector_layout width v) v
unfolding get_vector
get_vector-Reads width old v h fits =
    Reads->>= (λ n. get_items width (resize 0 n old)) (get_uint32-Reads 0 (length v) h)
      (get_items-Reads width (resize 0 (length v) old) v (length-resize 0 (length v) old) fits)
