-- ===== src/Stream/Integers.antt =====
-- The stream operators `<<` and `>>` on integers, `bool`, `float` and `double`, from
-- Ipc/MAssIpc_DataStream.cpp. An integer is its bit pattern, so that the casts between the signed
-- and the unsigned types are the identity; a floating-point number is the bytes of its object.
use ipc_portable.Common.{
  ℕ, ◌^◌, ◌<◌, Bool, true, false, List, [], ◌∷◌, none, some, get_or, ◌==◌, if◌then◌else◌, Action,
  ◌>>=◌,
}
use ipc_portable.Stream.{DataStream, write_bytes, read_bytes, write_raw_data, read_raw_data}
use ipc_portable.Stream.Bytes.{write_unsafe}
use ipc_portable.Stream.Appending.{Writes, write_bytes-Writes, write_raw_data-Writes}
use ipc_portable.Stream.Taking.{Reads, Reads->>=, Reads-pure, read_bytes-Reads, read_raw_data-Reads}

abbrev pub Put : Type 0
Put = Action DataStream (Unit {0})

abbrev pub Get : Type 0 → Type 0
Get A = Action DataStream A

unfoldable pub put_int8 : ℕ → Put
put_int8 i = write_bytes 1 i

unfoldable pub put_int16 : ℕ → Put
put_int16 i = write_bytes 2 i

unfoldable pub put_int32 : ℕ → Put
put_int32 i = write_bytes 4 i

unfoldable pub put_int64 : ℕ → Put
put_int64 i = write_bytes 8 i

unfoldable pub put_uint8 : ℕ → Put
unfolding put_int8
put_uint8 i = put_int8 i

unfoldable pub put_uint16 : ℕ → Put
unfolding put_int16
put_uint16 i = put_int16 i

unfoldable pub put_uint32 : ℕ → Put
unfolding put_int32
put_uint32 i = put_int32 i

unfoldable pub put_uint64 : ℕ → Put
unfolding put_int64
put_uint64 i = put_int64 i

-- The object of a `bool` is one byte, 0 or 1.
abbrev pub bool_byte : Bool → ℕ
bool_byte true = 1
bool_byte false = 0

unfoldable pub put_bool : Bool → Put
put_bool i = write_raw_data (bool_byte i ∷ []) 1

unfoldable pub put_float : List ℕ → Put
put_float f = write_raw_data f 4

unfoldable pub put_double : List ℕ → Put
put_double f = write_raw_data f 8

-- `old` is what the variable held before, which a short stream leaves there.
unfoldable pub get_int8 : ℕ → Get ℕ
get_int8 old = read_bytes 1 old

unfoldable pub get_int16 : ℕ → Get ℕ
get_int16 old = read_bytes 2 old

unfoldable pub get_int32 : ℕ → Get ℕ
get_int32 old = read_bytes 4 old

unfoldable pub get_int64 : ℕ → Get ℕ
get_int64 old = read_bytes 8 old

unfoldable pub get_uint8 : ℕ → Get ℕ
unfolding get_int8
get_uint8 old = get_int8 old

unfoldable pub get_uint16 : ℕ → Get ℕ
unfolding get_int16
get_uint16 old = get_int16 old

unfoldable pub get_uint32 : ℕ → Get ℕ
unfolding get_int32
get_uint32 old = get_int32 old

unfoldable pub get_uint64 : ℕ → Get ℕ
unfolding get_int64
get_uint64 old = get_int64 old

-- A `bool` object that holds another byte than 0 and 1 has no value: using it is undefined.
unfoldable pub bool_of_object : List ℕ → Get Bool
bool_of_object object s =
    if get_or object 0 0 == 1
    then some (true, s)
    else if get_or object 0 0 == 0
    then some (false, s)
    else none

unfoldable pub get_bool : Get Bool
unfolding bool_of_object
get_bool = do object ← read_raw_data 1; bool_of_object object

unfoldable pub get_float : Get (List ℕ)
get_float = read_raw_data 4

unfoldable pub get_double : Get (List ℕ)
get_double = read_raw_data 8

-- What each operator writes, and what reads it back.
pub put_uint32-Writes : (i : ℕ) → Writes (put_uint32 i) (write_unsafe 4 i)
unfolding put_uint32
put_uint32-Writes i = write_bytes-Writes 4 i

pub get_uint32-Reads : (old i : ℕ) → i < 2 ^ 32 → Reads (get_uint32 old) (write_unsafe 4 i) i
unfolding get_uint32
get_uint32-Reads old i h = read_bytes-Reads 4 old i h

pub put_uint8-Writes : (i : ℕ) → Writes (put_uint8 i) (write_unsafe 1 i)
unfolding put_uint8
put_uint8-Writes i = write_bytes-Writes 1 i

pub get_uint8-Reads : (old i : ℕ) → i < 256 → Reads (get_uint8 old) (write_unsafe 1 i) i
unfolding get_uint8
get_uint8-Reads old i h = read_bytes-Reads 1 old i h

pub put_bool-Writes : (b : Bool) → Writes (put_bool b) (bool_byte b ∷ [])
unfolding put_bool
put_bool-Writes b = write_raw_data-Writes (bool_byte b ∷ [])

bool_of_object-Reads : (b : Bool) → Reads (bool_of_object (bool_byte b ∷ [])) [] b
unfolding bool_of_object
bool_of_object-Reads true = Reads-pure true
bool_of_object-Reads false = Reads-pure false

pub get_bool-Reads : (b : Bool) → Reads get_bool (bool_byte b ∷ []) b
unfolding get_bool
get_bool-Reads b =
    Reads->>= bool_of_object (read_raw_data-Reads (bool_byte b ∷ [])) (bool_of_object-Reads b)
