-- ===== src/Stream.antt =====
-- Ipc/MAssIpc_DataStream.h and Ipc/MAssIpc_DataStream.cpp: the stream through which every packet
-- is written and read. A buffer (`MAssIpc_Data`) is the list of its bytes, a pointer into it an
-- offset. A stream without a write buffer only counts what would be written.
pub mod Bytes
pub mod Integers
pub mod Appending
pub mod Taking
pub mod Texts
pub mod Procs
use ipc_portable.Common.{
  ℕ, ◌+◌, ◌-◌, Bool, true, false, ◌&&◌, Option, none, some, List, [], ◌++◌, ltb, leb, if◌then◌else◌,
  length, take, drop, replicate, u32_max, add32, sub32, Action, pure,
}
use ipc_portable.Stream.Bytes.{write_unsafe, read_unsafe}

-- `raised` counts the calls of `MAssIpc_Assert::Raise`, the hook that the integrator supplies.
pub record DataStream : Type 0 where
  pub read : Option (List ℕ)
  pub write : Option (List ℕ)
  pub read_pos : ℕ
  pub write_pos : ℕ
  pub raised : ℕ

abbrev pub empty_stream : DataStream
empty_stream = record { read = none; write = none; read_pos = 0; write_pos = 0; raised = 0 }

abbrev pub stream_of_write : List ℕ → DataStream
stream_of_write data_write = record empty_stream { write = some data_write }

abbrev pub stream_of_read : List ℕ → DataStream
stream_of_read data_read = record empty_stream { read = some data_read }

abbrev pub raise : DataStream → DataStream
raise s = record s { raised = s.raised + 1 }

-- Memory behind a pointer: an access that leaves the buffer is a fault.
abbrev pub store_at : List ℕ → ℕ → List ℕ → Option (List ℕ)
store_at buffer pos bytes =
    if leb (pos + length bytes) (length buffer)
    then some (take pos buffer ++ (bytes ++ drop (pos + length bytes) buffer))
    else none

abbrev pub load_at : List ℕ → ℕ → ℕ → Option (List ℕ)
load_at buffer pos len =
    if leb (pos + len) (length buffer) then some (take len (drop pos buffer)) else none

-- The guard of `WriteBytes` and `WriteRawData`.
abbrev pub is_overrun : List ℕ → ℕ → ℕ → Bool
is_overrun buffer pos len = ltb pos (u32_max - len) && ltb (length buffer) (pos + len)

-- `memcpy` of `bytes` to the write buffer at an offset.
unfoldable pub store_write : ℕ → List ℕ → DataStream → Option (Unit {0} × DataStream)
store_write pos bytes s = elim s.write [
  | none ↦ none
  | some buffer ↦ elim (store_at buffer pos bytes) [
    | none ↦ none
    | some buffer' ↦ some (tt, record s { write = some buffer' })
  ]
]

abbrev pub advance_write : ℕ → DataStream → DataStream
advance_write len s = record s { write_pos = add32 s.write_pos len }

abbrev then_advance : ℕ → Option (Unit {0} × DataStream) → Option (Unit {0} × DataStream)
then_advance len none = none
then_advance len (some (u, s)) = some (u, advance_write len s)

-- `WriteBytes<T>(t)`, with `width` for `sizeof(T)`.
unfoldable pub write_bytes : ℕ → ℕ → Action DataStream (Unit {0})
unfolding store_write
write_bytes width t s = elim s.write [
  | none ↦ some (tt, advance_write width s)
  | some buffer ↦
      if is_overrun buffer s.write_pos width
      then some (tt, raise s)
      else then_advance width (store_write s.write_pos (write_unsafe width t) s)
]

-- `WriteRawData(len)`: the room that was reserved, or no pointer.
unfoldable pub reserve_raw_data : ℕ → DataStream → Option ℕ × DataStream
reserve_raw_data len s = elim s.write [
  | none ↦ (none, advance_write len s)
  | some buffer ↦
      if is_overrun buffer s.write_pos len
      then (none, raise s)
      else (some s.write_pos, advance_write len s)
]

-- `WriteRawData(data, len)`.
unfoldable pub write_raw_data : List ℕ → ℕ → Action DataStream (Unit {0})
unfolding reserve_raw_data store_write
write_raw_data source len s =
    let (bytes, s') = reserve_raw_data len s in
    elim bytes [
      | none ↦ some (tt, s')
      | some pos ↦ elim (load_at source 0 len) [ none ↦ none | some xs ↦ store_write pos xs s' ]
    ]

unfoldable pub is_read_available : ℕ → DataStream → Bool
is_read_available size s = elim s.read [
  | none ↦ false
  | some buffer ↦ leb size (sub32 (length buffer) s.read_pos)
]

abbrev pub advance_read : ℕ → DataStream → DataStream
advance_read len s = record s { read_pos = add32 s.read_pos len }

unfoldable pub load_read : ℕ → ℕ → DataStream → Option (List ℕ)
load_read pos len s = elim s.read [ none ↦ none | some buffer ↦ load_at buffer pos len ]

-- `ReadBytes<T>(&t)`: the variable keeps the value `old` when the stream is short.
unfoldable pub read_bytes : ℕ → ℕ → Action DataStream ℕ
unfolding is_read_available load_read
read_bytes width old s =
    if is_read_available width s
    then (elim (load_read s.read_pos width s) [
      | none ↦ none
      | some bytes ↦ some (read_unsafe width bytes, advance_read width s)
    ])
    else some (old, raise s)

-- `ReadRawData(len)`: the position of the bytes, or no pointer.
unfoldable pub claim_raw_data : ℕ → DataStream → Option ℕ × DataStream
unfolding is_read_available
claim_raw_data len s =
    if is_read_available len s then (some s.read_pos, advance_read len s) else (none, raise s)

-- `ReadRawData(data, len)`: a short stream gives zeros.
unfoldable pub read_raw_data : ℕ → Action DataStream (List ℕ)
unfolding claim_raw_data load_read
read_raw_data len s =
    let (pos, s') = claim_raw_data len s in
    elim pos [
      | none ↦ some (replicate len 0, s')
      | some p ↦ elim (load_read p len s') [ none ↦ none | some xs ↦ some (xs, s') ]
    ]

abbrev pub get_write_pos : DataStream → ℕ
get_write_pos s = s.write_pos

abbrev pub detach_write : DataStream → Option (List ℕ) × DataStream
detach_write s = (s.write, record s { write = none })

abbrev pub detach_read : DataStream → Option (List ℕ) × DataStream
detach_read s = (s.read, record s { read = none })

abbrev pub is_read_buffer_present : DataStream → Bool
is_read_buffer_present s = elim s.read [ none ↦ false | some _ ↦ true ]
