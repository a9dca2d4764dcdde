-- ===== src/RoundTrips.antt =====
-- What is written into a packet's buffer by an operator `<<` and read from the packet by the
-- operator `>>` of the same type, for each composite type that packets are made of: the operators
-- of Ipc/MAssIpc_DataStream.h and Ipc/MAssIpc_DataStream.cpp, `RawString::Write` and
-- `RawString::Read`, `PacketHeaderWrite` and `ReadHeader`, `SerializeArgs` and `DeserializeArgs`.
pub mod Tests
use ipc_portable.Common.{
  ℕ, ◌+◌, ◌^◌, ◌<◌, ◌≡◌, refl, sym, ap, ◌∙◌, some, List, arith, length, length-append, map, All,
  IsU32, append-nil,
}
use ipc_portable.Stream.{DataStream, stream_of_write, stream_of_read, empty_stream}
use ipc_portable.Stream.Bytes.{write_unsafe, length-write_unsafe}
use ipc_portable.Stream.Integers.{Put, Get}
use ipc_portable.Stream.Appending.{Writes, append_bytes-exact}
use ipc_portable.Stream.Taking.{Reads, skip}
use ipc_portable.Stream.Texts.{
  put_string, get_string, put_vector, get_vector, string_layout, vector_layout, put_string-Writes,
  get_string-Reads, put_vector-Writes, get_vector-Reads,
}
use ipc_portable.Stream.Procs.{
  ProcDescription, put_enumerate_data, get_enumerate_data, IsSmall, enumerate_layout,
  put_enumerate_data-Writes, get_enumerate_data-Reads,
}
use ipc_portable.RawString.{write, read}
use ipc_portable.RawString.Wire.{text, read_text, write-Writes, read-Reads}
use ipc_portable.Packet.{
  Header, packet_header_write, read_header, IsWide, header_layout, length-header_layout,
  packet_header_write-Writes, read_header-Reads,
}
use ipc_portable.Call.Values.{
  Value, serialize_args, deserialize_args, type_of, IsValue, args_layout, serialize_args-Writes,
  deserialize_args-Reads,
}

-- `put` fills the buffer and `get` takes all of what it then holds, giving `a`.
abbrev pub RoundTrip : {A : Type 0} → Put → Get A → List ℕ → A → Type 0
RoundTrip put get buffer a =
    (bytes : List ℕ) × (s : DataStream) × (put (stream_of_write buffer) ≡ some (tt, s))
    × (s.write ≡ some bytes)
    × (s.write_pos ≡ length buffer)
    × (get (stream_of_read bytes) ≡ some (a, skip (length bytes) (stream_of_read bytes)))

round_trip :
    {A : Type 0} {put : Put} {get : Get A} {bytes : List ℕ} {a : A} (buffer : List ℕ)
    → Writes put bytes
    → Reads get bytes a
    → length buffer ≡ length bytes
    → IsU32 (length buffer)
    → RoundTrip put get buffer a
round_trip {put = put} {bytes = bytes} buffer w r e small = (
  bytes,
  record empty_stream { write = some bytes; write_pos = length bytes },
  w.at (stream_of_write buffer) (omega (arith, e), small)
      ∙ ap (λ s. some (tt, s)) (append_bytes-exact bytes buffer e),
  refl,
  sym e,
  r.at (stream_of_read bytes) _ (omega (arith, e), omega arith, sym (append-nil bytes)),
)

-- A `std::string` of any bytes fills a buffer of four bytes and its length, and is read back,
-- whatever the variable held before.
pub string_roundtrip :
    (old v buffer : List ℕ)
    → length buffer ≡ 4 + length v
    → IsU32 (length buffer)
    → RoundTrip (put_string v) (get_string old) buffer v
string_roundtrip old v buffer e small =
    round_trip buffer (put_string-Writes v (omega (arith, e)))
      (get_string-Reads old v (omega (arith, e)))
      (omega
        (arith, e, length-append (write_unsafe 4 (length v)) v, length-write_unsafe 4 (length v)))
      small

-- A `std::vector` of integers of `width` bytes that fit their type is read back, whatever vector
-- the variable held before, if the buffer has the size of its layout.
pub vector_roundtrip :
    (width : ℕ) (old v buffer : List ℕ)
    → IsU32 (length v)
    → All (λ (item : ℕ). item < 256 ^ width) v
    → length buffer ≡ length (vector_layout width v)
    → IsU32 (length buffer)
    → RoundTrip (put_vector width v) (get_vector width old) buffer v
vector_roundtrip width old v buffer h fits e small =
    round_trip buffer (put_vector-Writes width v h) (get_vector-Reads width old v h fits) e small

-- A list of descriptions of procedures is read back, whatever list the variable held before, if
-- each text's length fits 32 bits and the buffer has the size of the list's layout.
pub enumerate_data_roundtrip :
    (old v : List ProcDescription) (buffer : List ℕ)
    → IsU32 (length v)
    → All IsSmall v
    → length buffer ≡ length (enumerate_layout v)
    → IsU32 (length buffer)
    → RoundTrip (put_enumerate_data v) (get_enumerate_data old) buffer v
enumerate_data_roundtrip old v buffer h hs e small =
    round_trip buffer (put_enumerate_data-Writes v h hs) (get_enumerate_data-Reads old v h hs) e
      small

-- A `RawString` of any bytes fills a buffer of four bytes and its length, and is read back with
-- the same length, as a pointer to the same bytes; for the empty text the pointer read is null.
pub raw_string_roundtrip :
    (v buffer : List ℕ)
    → length buffer ≡ 4 + length v
    → IsU32 (length buffer)
    → RoundTrip (write (text v)) read buffer (read_text v)
raw_string_roundtrip v buffer e small =
    round_trip buffer (write-Writes v) (read-Reads v (omega (arith, e)))
      (omega
        (arith, e, length-append (write_unsafe 4 (length v)) v, length-write_unsafe 4 (length v)))
      small

-- A packet header whose fields fit 32 bits fills a buffer of twelve bytes and is read back.
pub header_roundtrip :
    (h : Header) (buffer : List ℕ)
    → IsWide h
    → length buffer ≡ 12
    → RoundTrip (packet_header_write h.size h.packet_type h.id) read_header buffer h
header_roundtrip h buffer wide e =
    round_trip buffer (packet_header_write-Writes h) (read_header-Reads h wide)
      (omega (arith, e, length-header_layout h)) (omega (arith, e))

-- Any arguments, each a value of its type, are read back at their types, in order, if the buffer
-- has the size of their layout.
pub args_roundtrip :
    (args : List Value) (buffer : List ℕ)
    → All IsValue args
    → length buffer ≡ length (args_layout args)
    → IsU32 (length buffer)
    → RoundTrip (serialize_args args) (deserialize_args (map type_of args)) buffer args
args_roundtrip args buffer h e small =
    round_trip buffer (serialize_args-Writes args h) (deserialize_args-Reads args h) e small
