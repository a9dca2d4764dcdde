-- ===== src/RawString.antt =====
-- Ipc/MAssIpc_RawString.h and Ipc/MAssIpc_RawString.cpp: a pointer to characters with a length, and
-- the order that keys of the handlers' map are compared by. `none` for `str` is the null pointer;
-- `some bytes` are the characters that can be read behind the pointer.
pub mod Order
pub mod Wire
pub mod Tests
use ipc_portable.Common.{
  ℕ, ◌%◌, Bool, true, false, not, ◌&&◌, Option, none, some, List, [], ◌∷◌, length, ltb, ◌==◌,
  if◌then◌else◌, u32_mod, pure, ◌>>=◌, ◌>>◌,
}
use ipc_portable.Stream.{load_at, load_read, claim_raw_data, write_raw_data}
use ipc_portable.Stream.Integers.{Put, Get, put_uint32, get_uint32}

pub record RawString : Type 0 where
  pub str : Option (List ℕ)
  pub len : ℕ

-- `ConvertCheckStrLen`: the length in 32 bits, and 0 with an alarm where it does not fit.
unfoldable pub convert_check_str_len : ℕ → ℕ
convert_check_str_len str_len = let res = str_len % u32_mod in if res == str_len then res else 0

unfoldable pub of_string : List ℕ → RawString
unfolding convert_check_str_len
of_string v = record { str = some v; len = convert_check_str_len (length v) }

-- The `m_len` characters behind the pointer; reading through a null pointer is a fault.
unfoldable pub contents : RawString → Option (List ℕ)
contents r = elim r.str [
  | none ↦ if r.len == 0 then some [] else none
  | some bytes ↦ load_at bytes 0 r.len
]

-- `memcmp(a, b, len) == 0`, over two ranges of one length.
unfoldable pub memcmp_eq : List ℕ → List ℕ → Bool
memcmp_eq [] ys = true
memcmp_eq (x ∷ xs) [] = true
memcmp_eq (x ∷ xs) (y ∷ ys) = (x == y) && memcmp_eq xs ys

-- `std::lexicographical_compare`.
unfoldable pub lexicographical_compare : List ℕ → List ℕ → Bool
lexicographical_compare xs [] = false
lexicographical_compare [] (y ∷ ys) = true
lexicographical_compare (x ∷ xs) (y ∷ ys) =
    let rest = lexicographical_compare xs ys in
    if ltb x y then true else if ltb y x then false else rest

-- Two operands that have to be readable.
abbrev pub both_readable {ℓ} :
    {A : Type ℓ} → (List ℕ → List ℕ → A) → Option (List ℕ) → Option (List ℕ) → Option A
both_readable f none y = none
both_readable f (some x) none = none
both_readable f (some x) (some y) = some (f x y)

-- `operator==`.
unfoldable pub raw_eq : RawString → RawString → Option Bool
unfolding contents memcmp_eq
raw_eq a b =
    if not (a.len == b.len) then some false else both_readable memcmp_eq (contents a) (contents b)

-- `operator<`.
unfoldable pub raw_lt : RawString → RawString → Option Bool
unfolding contents lexicographical_compare
raw_lt a b = both_readable lexicographical_compare (contents a) (contents b)

-- `CallInfoImpl::SignatureKey` and its `operator<` (Ipc/MAssIpc_Internals.h).
pub record SignatureKey : Type 0 where
  pub name : RawString
  pub params_type : RawString

unfoldable pub key_lt : SignatureKey → SignatureKey → Option Bool
unfolding raw_eq raw_lt
key_lt a b = elim (raw_eq a.name b.name) [
  | none ↦ none
  | some true ↦ raw_lt a.params_type b.params_type
  | some false ↦ raw_lt a.name b.name
]

-- `Write`.
unfoldable pub write : RawString → Put
write r = put_uint32 r.len >> write_raw_data (elim r.str [ none ↦ [] | some bytes ↦ bytes ]) r.len

-- `ReadRawDataChar(length)`, as the characters that the pointer gives access to.
unfoldable pub read_raw_data_char : ℕ → Get (Option (List ℕ))
unfolding claim_raw_data load_read
read_raw_data_char length s =
    let (pos, s') = claim_raw_data length s in
    elim pos [
      | none ↦ some (none, s')
      | some p ↦ elim (load_read p length s') [ none ↦ none | some bytes ↦ some (some bytes, s') ]
    ]

-- `Read`: of a stream that is too short the length is kept, with a null pointer.
unfoldable pub read : Get RawString
unfolding read_raw_data_char
read = do
  length ← get_uint32 0
  if length == 0
      then pure (record { str = none; len = length })
      else do raw_data ← read_raw_data_char length; pure (record { str = raw_data; len = length })
