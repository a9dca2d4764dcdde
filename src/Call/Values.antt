-- ===== src/Call/Values.antt =====
-- The values that a call can carry without further code of the program: the types for which
-- Ipc/MAssIpc_DataStream.h and Ipc/MAssIpc_Internals.h define a name and the stream operators, with
-- `SerializeArgs`, `DeserializeArgs` and `ReadFromStream` (`Deserialize_DefConstruct`).
use ipc_portable.Common.{
  ℕ, ◌^◌, ◌<◌, ◌≡◌, Bool, List, [], ◌∷◌, ◌++◌, length, map, All, IsU32, pure, ◌>>=◌, ◌>>◌,
}
use ipc_portable.Stream.{write_raw_data, read_raw_data}
use ipc_portable.Stream.Bytes.{write_unsafe}
use ipc_portable.Stream.Appending.{
  Writes, Writes->>, Writes-pure, write_bytes-Writes, write_raw_data-Writes,
}
use ipc_portable.Stream.Taking.{Reads, Reads->>=, Reads-pure, read_bytes-Reads, read_raw_data-Reads}
use ipc_portable.Stream.Integers.{
  Put, Get, put_int8, put_int16, put_int32, put_int64, put_uint8, put_uint16, put_uint32,
  put_uint64, put_bool, put_float, put_double, get_int8, get_int16, get_int32, get_int64, get_uint8,
  get_uint16, get_uint32, get_uint64, get_bool, get_float, get_double, bool_byte, put_bool-Writes,
  get_bool-Reads,
}
use ipc_portable.Stream.Texts.{
  put_string, get_string, put_vector, get_vector, string_layout, vector_layout, put_string-Writes,
  get_string-Reads, put_vector-Writes, get_vector-Reads,
}
use ipc_portable.Stream.Procs.{Reads-last}
use ipc_portable.Signature.{codes}

pub data IntegerType : Type 0 where
  int8 : IntegerType
  uint8 : IntegerType
  int16 : IntegerType
  uint16 : IntegerType
  int32 : IntegerType
  uint32 : IntegerType
  int64 : IntegerType
  uint64 : IntegerType

pub data ValueType : Type 0 where
  integer : IntegerType → ValueType
  bool : ValueType
  float : ValueType
  double : ValueType
  string : ValueType
  vector : IntegerType → ValueType

-- An integer is its bit pattern; a floating-point number is the bytes of its object.
pub data Value : Type 0 where
  integer_value : IntegerType → ℕ → Value
  bool_value : Bool → Value
  float_value : List ℕ → Value
  double_value : List ℕ → Value
  string_value : List ℕ → Value
  vector_value : IntegerType → List ℕ → Value

-- `sizeof`.
abbrev pub size_of : IntegerType → ℕ
size_of int8 = 1
size_of uint8 = 1
size_of int16 = 2
size_of uint16 = 2
size_of int32 = 4
size_of uint32 = 4
size_of int64 = 8
size_of uint64 = 8

-- `MAssIpcType<T>::NameValue()`.
abbrev pub type_name : ValueType → List ℕ
type_name (integer int8) = codes "int8_t"
type_name (integer uint8) = codes "uint8_t"
type_name (integer int16) = codes "int16_t"
type_name (integer uint16) = codes "uint16_t"
type_name (integer int32) = codes "int32_t"
type_name (integer uint32) = codes "uint32_t"
type_name (integer int64) = codes "int64_t"
type_name (integer uint64) = codes "uint64_t"
type_name bool = codes "bool"
type_name float = codes "float"
type_name double = codes "double"
type_name string = codes "std::string"
type_name (vector int8) = codes "std::vector<int8_t>"
type_name (vector uint8) = codes "std::vector<uint8_t>"
type_name (vector int16) = codes "std::vector<int16_t>"
type_name (vector uint16) = codes "std::vector<uint16_t>"
type_name (vector int32) = codes "std::vector<int32_t>"
type_name (vector uint32) = codes "std::vector<uint32_t>"
type_name (vector int64) = codes "std::vector<int64_t>"
type_name (vector uint64) = codes "std::vector<uint64_t>"

abbrev pub type_of : Value → ValueType
type_of (integer_value t v) = integer t
type_of (bool_value v) = bool
type_of (float_value v) = float
type_of (double_value v) = double
type_of (string_value v) = string
type_of (vector_value t v) = vector t

unfoldable pub put_integer : IntegerType → ℕ → Put
unfolding put_int8 put_int16 put_int32 put_int64 put_uint8 put_uint16 put_uint32 put_uint64
put_integer int8 v = put_int8 v
put_integer uint8 v = put_uint8 v
put_integer int16 v = put_int16 v
put_integer uint16 v = put_uint16 v
put_integer int32 v = put_int32 v
put_integer uint32 v = put_uint32 v
put_integer int64 v = put_int64 v
put_integer uint64 v = put_uint64 v

unfoldable pub get_integer : IntegerType → ℕ → Get ℕ
unfolding get_int8 get_int16 get_int32 get_int64 get_uint8 get_uint16 get_uint32 get_uint64
get_integer int8 old = get_int8 old
get_integer uint8 old = get_uint8 old
get_integer int16 old = get_int16 old
get_integer uint16 old = get_uint16 old
get_integer int32 old = get_int32 old
get_integer uint32 old = get_uint32 old
get_integer int64 old = get_int64 old
get_integer uint64 old = get_uint64 old

-- `stream << v`.
unfoldable pub put_value : Value → Put
unfolding put_integer
put_value (integer_value t v) = put_integer t v
put_value (bool_value v) = put_bool v
put_value (float_value v) = put_float v
put_value (double_value v) = put_double v
put_value (string_value v) = put_string v
put_value (vector_value t v) = put_vector (size_of t) v

-- `T t{}; stream >> t;`.
unfoldable pub get_value : ValueType → Get Value
unfolding get_integer
get_value (integer t) = do v ← get_integer t 0; pure (integer_value t v)
get_value bool = do v ← get_bool; pure (bool_value v)
get_value float = do v ← get_float; pure (float_value v)
get_value double = do v ← get_double; pure (double_value v)
get_value string = do v ← get_string []; pure (string_value v)
get_value (vector t) = do v ← get_vector (size_of t) []; pure (vector_value t v)

-- `SerializeArgs`.
unfoldable pub serialize_args : List Value → Put
serialize_args [] = pure tt
serialize_args (arg ∷ args) = put_value arg >> serialize_args args

-- `DeserializeArgs`.
unfoldable pub deserialize_args : List ValueType → Get (List Value)
deserialize_args [] = pure []
deserialize_args (t ∷ ts) = do arg ← get_value t; args ← deserialize_args ts; pure (arg ∷ args)

-- The value is one of its type.
abbrev pub IsValue : Value → Type 0
IsValue (integer_value t v) = v < 256 ^ size_of t
IsValue (bool_value v) = Unit {0}
IsValue (float_value v) = length v ≡ 4
IsValue (double_value v) = length v ≡ 8
IsValue (string_value v) = IsU32 (length v)
IsValue (vector_value t v) = IsU32 (length v) × All (λ (item : ℕ). item < 256 ^ size_of t) v

abbrev pub value_layout : Value → List ℕ
value_layout (integer_value t v) = write_unsafe (size_of t) v
value_layout (bool_value v) = bool_byte v ∷ []
value_layout (float_value v) = v
value_layout (double_value v) = v
value_layout (string_value v) = string_layout v
value_layout (vector_value t v) = vector_layout (size_of t) v

abbrev pub args_layout : List Value → List ℕ
args_layout [] = []
args_layout (arg ∷ args) = value_layout arg ++ args_layout args

put_integer-Writes :
    (t : IntegerType) (v : ℕ) → Writes (put_integer t v) (write_unsafe (size_of t) v)
unfolding put_integer put_int8 put_int16 put_int32 put_int64 put_uint8 put_uint16 put_uint32
    put_uint64
put_integer-Writes int8 v = write_bytes-Writes 1 v
put_integer-Writes uint8 v = write_bytes-Writes 1 v
put_integer-Writes int16 v = write_bytes-Writes 2 v
put_integer-Writes uint16 v = write_bytes-Writes 2 v
put_integer-Writes int32 v = write_bytes-Writes 4 v
put_integer-Writes uint32 v = write_bytes-Writes 4 v
put_integer-Writes int64 v = write_bytes-Writes 8 v
put_integer-Writes uint64 v = write_bytes-Writes 8 v

get_integer-Reads :
    (t : IntegerType) (old v : ℕ)
    → v < 256 ^ size_of t
    → Reads (get_integer t old) (write_unsafe (size_of t) v) v
unfolding get_integer get_int8 get_int16 get_int32 get_int64 get_uint8 get_uint16 get_uint32
    get_uint64
get_integer-Reads int8 old v h = read_bytes-Reads 1 old v h
get_integer-Reads uint8 old v h = read_bytes-Reads 1 old v h
get_integer-Reads int16 old v h = read_bytes-Reads 2 old v h
get_integer-Reads uint16 old v h = read_bytes-Reads 2 old v h
get_integer-Reads int32 old v h = read_bytes-Reads 4 old v h
get_integer-Reads uint32 old v h = read_bytes-Reads 4 old v h
get_integer-Reads int64 old v h = read_bytes-Reads 8 old v h
get_integer-Reads uint64 old v h = read_bytes-Reads 8 old v h

raw_Writes : (n : ℕ) (v : List ℕ) → length v ≡ n → Writes (write_raw_data v n) v
raw_Writes n v e = rw (← e) (write_raw_data-Writes v)

raw_Reads : (n : ℕ) (v : List ℕ) → length v ≡ n → Reads (read_raw_data n) v v
raw_Reads n v e = rw (← e) (read_raw_data-Reads v)

pub put_value-Writes : (v : Value) → IsValue v → Writes (put_value v) (value_layout v)
unfolding put_value put_float put_double
put_value-Writes (integer_value t v) h = put_integer-Writes t v
put_value-Writes (bool_value v) h = put_bool-Writes v
put_value-Writes (float_value v) h = raw_Writes 4 v h
put_value-Writes (double_value v) h = raw_Writes 8 v h
put_value-Writes (string_value v) h = put_string-Writes v h
put_value-Writes (vector_value t v) (h, fits) = put_vector-Writes (size_of t) v h

pub get_value-Reads : (v : Value) → IsValue v → Reads (get_value (type_of v)) (value_layout v) v
unfolding get_value get_float get_double
get_value-Reads (integer_value t v) h = Reads-last (integer_value t) (get_integer-Reads t 0 v h)
get_value-Reads (bool_value v) h = Reads-last bool_value (get_bool-Reads v)
get_value-Reads (float_value v) h = Reads-last float_value (raw_Reads 4 v h)
get_value-Reads (double_value v) h = Reads-last double_value (raw_Reads 8 v h)
get_value-Reads (string_value v) h = Reads-last string_value (get_string-Reads [] v h)
get_value-Reads (vector_value t v) (h, fits) =
    Reads-last (vector_value t) (get_vector-Reads (size_of t) [] v h fits)

pub serialize_args-Writes :
    (args : List Value) → All IsValue args → Writes (serialize_args args) (args_layout args)
unfolding serialize_args
serialize_args-Writes [] h = Writes-pure
serialize_args-Writes (arg ∷ args) (h, hs) =
    Writes->> (put_value-Writes arg h) (serialize_args-Writes args hs)

-- The arguments that were written are read back, each at its own type, in order.
pub deserialize_args-Reads :
    (args : List Value)
    → All IsValue args
    → Reads (deserialize_args (map type_of args)) (args_layout args) args
unfolding deserialize_args
deserialize_args-Reads [] h = Reads-pure []
deserialize_args-Reads (arg ∷ args) (h, hs) =
    Reads->>= _ (get_value-Reads arg h)
      (Reads-last (λ rest. arg ∷ rest) (deserialize_args-Reads args hs))
