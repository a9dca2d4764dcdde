-- ===== src/Stream/Procs.antt =====
-- The stream operators on `MAssIpcCall_EnumerateData`, the list of procedures that one side reports
-- to the other, from Ipc/MAssIpc_DataStream.h and Ipc/MAssIpc_DataStream.cpp. A list of 2 ^ 32
-- descriptions or more, on which the source's 32-bit loop counter would wrap, is not considered.
use mathlib.Core.Path.{subst}
use native.Mathlib.Nat.{mod-eq_of_lt}
use ipc_portable.Common.{
  ℕ, ◌%◌, ◌≡◌, List, [], ◌∷◌, ◌++◌, append-nil, arith, length, All, IsU32, u32_mod, pure, ◌>>=◌,
  ◌>>◌,
}
use ipc_portable.Stream.Bytes.{write_unsafe}
use ipc_portable.Stream.Appending.{Writes, Writes->>, Writes-pure}
use ipc_portable.Stream.Taking.{Reads, Reads->>=, Reads-pure}
use ipc_portable.Stream.Integers.{
  Put, Get, put_uint32, get_uint32, put_uint32-Writes, get_uint32-Reads,
}
use ipc_portable.Stream.Texts.{
  put_string, get_string, resize, length-resize, string_layout, put_string-Writes, get_string-Reads,
}

pub record ProcDescription : Type 0 where
  pub name : List ℕ
  pub return_type : List ℕ
  pub params_types : List ℕ
  pub comment : List ℕ

abbrev pub blank_description : ProcDescription
blank_description = record { name = []; return_type = []; params_types = []; comment = [] }

put_description : ProcDescription → Put
put_description p =
    put_string p.name
    >> (put_string p.return_type >> (put_string p.params_types >> put_string p.comment))

put_descriptions : List ProcDescription → Put
unfolding put_description
put_descriptions [] = pure tt
put_descriptions (p ∷ ps) = put_description p >> put_descriptions ps

-- `stream << MAssIpcCall_EnumerateData`.
unfoldable pub put_enumerate_data : List ProcDescription → Put
unfolding put_descriptions
put_enumerate_data v = put_uint32 (length v % u32_mod) >> put_descriptions v

get_description : ProcDescription → Get ProcDescription
get_description old = do
  name ← get_string old.name
  return_type ← get_string old.return_type
  params_types ← get_string old.params_types
  comment ← get_string old.comment
  pure (record {
    name = name;
    return_type = return_type;
    params_types = params_types;
    comment = comment;
  })

get_descriptions : List ProcDescription → Get (List ProcDescription)
unfolding get_description
get_descriptions [] = pure []
get_descriptions (old ∷ olds) = do
  p ← get_description old
  ps ← get_descriptions olds
  pure (p ∷ ps)

-- `stream >> MAssIpcCall_EnumerateData`.
unfoldable pub get_enumerate_data : List ProcDescription → Get (List ProcDescription)
unfolding get_descriptions
get_enumerate_data old = do
  size ← get_uint32 0
  get_descriptions (resize blank_description size old)

abbrev pub IsSmall : ProcDescription → Type 0
IsSmall p =
    IsU32 (length p.name)
    × IsU32 (length p.return_type)
    × IsU32 (length p.params_types)
    × IsU32 (length p.comment)

abbrev pub description_layout : ProcDescription → List ℕ
description_layout p =
    string_layout p.name
    ++ (string_layout p.return_type ++ (string_layout p.params_types ++ string_layout p.comment))

abbrev pub descriptions_layout : List ProcDescription → List ℕ
descriptions_layout [] = []
descriptions_layout (p ∷ ps) = description_layout p ++ descriptions_layout ps

abbrev pub enumerate_layout : List ProcDescription → List ℕ
enumerate_layout v = write_unsafe 4 (length v) ++ descriptions_layout v

put_description-Writes :
    (p : ProcDescription) → IsSmall p → Writes (put_description p) (description_layout p)
unfolding put_description
put_description-Writes p (a, b, c, d) = Writes->> (put_string-Writes p.name a) (
    Writes->> (put_string-Writes p.return_type b)
      (Writes->> (put_string-Writes p.params_types c) (put_string-Writes p.comment d)))

put_descriptions-Writes :
    (ps : List ProcDescription)
    → All IsSmall ps
    → Writes (put_descriptions ps) (descriptions_layout ps)
unfolding put_descriptions
put_descriptions-Writes [] h = Writes-pure
put_descriptions-Writes (p ∷ ps) (h, hs) =
    Writes->> (put_description-Writes p h) (put_descriptions-Writes ps hs)

pub put_enumerate_data-Writes :
    (v : List ProcDescription)
    → IsU32 (length v)
    → All IsSmall v
    → Writes (put_enumerate_data v) (enumerate_layout v)
unfolding put_enumerate_data
put_enumerate_data-Writes v h hs =
    rw (mod-eq_of_lt h) (Writes->> (put_uint32-Writes (length v)) (put_descriptions-Writes v hs))

-- The last read of a `do` block, behind which nothing of the layout is left.
pub Reads-last :
    {A B : Type 0} {m : Get A} (f : A → B) {xs : List ℕ} {a : A}
    → Reads m xs a
    → Reads (m >>= λ x. pure (f x)) xs (f a)
Reads-last {m = m} f {xs = xs} {a = a} r =
    subst (λ l. Reads (m >>= λ x. pure (f x)) l (f a)) (append-nil xs)
      (Reads->>= (λ x. pure (f x)) r (Reads-pure (f a)))

get_description-Reads :
    (old p : ProcDescription) → IsSmall p → Reads (get_description old) (description_layout p) p
unfolding get_description
get_description-Reads old p (a, b, c, d) = Reads->>= _ (get_string-Reads old.name p.name a) (
    Reads->>= _ (get_string-Reads old.return_type p.return_type b) (
      Reads->>= _ (get_string-Reads old.params_types p.params_types c)
        (Reads-last _ (get_string-Reads old.comment p.comment d))))

get_descriptions-Reads :
    (olds ps : List ProcDescription)
    → length olds ≡ length ps
    → All IsSmall ps
    → Reads (get_descriptions olds) (descriptions_layout ps) ps
unfolding get_descriptions
get_descriptions-Reads [] [] e h = Reads-pure []
get_descriptions-Reads [] (p ∷ ps) e h = absurd (omega arith)
get_descriptions-Reads (old ∷ olds) [] e h = absurd (omega arith)
get_descriptions-Reads (old ∷ olds) (p ∷ ps) e (h, hs) =
    Reads->>= _ (get_description-Reads old p h)
      (Reads-last (λ rest. p ∷ rest) (get_descriptions-Reads olds ps (omega arith) hs))

-- A list of procedures is read back from its own layout, over a list of any length.
pub get_enumerate_data-Reads :
    (old v : List ProcDescription)
    → IsU32 (length v)
    → All IsSmall v
    → Reads (get_enumerate_data old) (enumerate_layout v) v
unfolding get_enumerate_data
get_enumerate_data-Reads old v h hs =
    Reads->>= _ (get_uint32-Reads 0 (length v) h)
      (get_descriptions-Reads _ v (length-resize blank_description (length v) old) hs)
