-- ===== src/Call/Returning.antt =====
-- The packets that answer a call: `SerializeReturn` (Ipc/MAssIpc_Internals.h and
-- Ipc/MAssIpc_Internals.cpp), and the report of a failure, `StoreReturnFailCall` and the operators
-- on `ErrorType` (Ipc/MAssIpcCall.cpp) with `ErrorTypeToStr`. `ErrorType` has an underlying
-- `uint8_t`, and a packet may carry any value of it, so that an error is a number.
use mathlib.Core.Path.{subst}
use ipc_portable.Common.{
  ℕ, ◌+◌, ◌<◌, ◌≡◌, ◌≢◌, false, sym, ap, ◌∙◌, Option, none, some, List, [], ◌∷◌, ◌++◌, arith,
  length, length-append, get_or, ltb, ◌==◌, if◌then◌else◌, IsU32, pure, ◌>>=◌, ◌>>◌,
}
use ipc_portable.Stream.{stream_of_read}
use ipc_portable.Stream.Bytes.{write_unsafe, length-write_unsafe}
use ipc_portable.Stream.Integers.{Put, Get, put_uint8, get_uint8, put_uint8-Writes, get_uint8-Reads}
use ipc_portable.Stream.Appending.{Writes, Writes->>}
use ipc_portable.Stream.Taking.{Reads, Reads->>=, skip}
use ipc_portable.Stream.Texts.{
  put_string, get_string, string_layout, put_string-Writes, get_string-Reads,
}
use ipc_portable.Stream.Procs.{Reads-last}
use ipc_portable.Signature.{codes}
use ipc_portable.Packet.{
  pt_return, pt_return_fail_call, c_invalid_id, c_net_call_packet_header_size,
}
use ipc_portable.Call.{Creator, create_data_stream, make_packet}
use ipc_portable.Call.Packets.{packet_layout, header_of, Creates, make_packet-packet_layout}
use ipc_portable.Call.Values.{
  Value, put_value, get_value, type_of, IsValue, value_layout, put_value-Writes, get_value-Reads,
}
use ipc_portable.Call.Receiving.{CallDataBuffer, receive_call_data_buffer, take_packet}

-- `SerializeReturn` of a procedure without a value.
unfoldable pub serialize_return_void : Creator → ℕ → Option (Option (List ℕ))
unfolding create_data_stream
serialize_return_void transport respond_id =
    if respond_id == c_invalid_id
    then some none
    else (elim (create_data_stream transport 0 pt_return respond_id) [
      | none ↦ none
      | some result_stream ↦ some result_stream.write
    ])

-- `SerializeReturn` of a value.
unfoldable pub serialize_return : Value → Creator → ℕ → Option (Option (List ℕ))
unfolding make_packet
serialize_return ret transport respond_id =
    if respond_id == c_invalid_id
    then some none
    else (make_packet transport pt_return respond_id (put_value ret))

abbrev pub unknown_error : ℕ
unknown_error = 0

abbrev pub no_matching_call_name_parameters : ℕ
no_matching_call_name_parameters = 1

abbrev pub no_matching_call_return_type : ℕ
no_matching_call_return_type = 2

abbrev pub respond_no_matching_call_name_parameters : ℕ
respond_no_matching_call_name_parameters = 3

abbrev pub respond_no_matching_call_return_type : ℕ
respond_no_matching_call_return_type = 4

abbrev pub error_type_string_map : List (List ℕ)
error_type_string_map =
    codes "unknown_error"
    ∷ codes "no_matching_call_name_parameters"
    ∷ codes "no_matching_call_return_type"
    ∷ codes "respond_no_matching_call_name_parameters"
    ∷ codes "respond_no_matching_call_return_type"
    ∷ []

-- `ErrorTypeToStr`.
abbrev pub error_type_to_str : ℕ → List ℕ
error_type_to_str error =
    if ltb error (length error_type_string_map)
    then get_or error_type_string_map error []
    else get_or error_type_string_map 0 []

-- `ErrorJob::Arg`.
pub record ErrorArg : Type 0 where
  pub error : ℕ
  pub message : List ℕ

-- `stream << ErrorType` and `stream >> ErrorType`.
unfoldable pub put_error_type : ℕ → Put
put_error_type v = put_uint8 v

unfoldable pub get_error_type : ℕ → Get ℕ
get_error_type old = get_uint8 old

-- `StoreReturnFailCall`.
unfoldable pub store_return_fail_call : ErrorArg → Put
unfolding put_error_type
store_return_fail_call error_arg = put_error_type error_arg.error >> put_string error_arg.message

-- How the caller names an error that the other side reports.
abbrev pub respond_error : ℕ → ℕ
respond_error error =
    if error == no_matching_call_name_parameters
    then respond_no_matching_call_name_parameters
    else if error == no_matching_call_return_type
    then respond_no_matching_call_return_type
    else unknown_error

-- The branch `pt_return_fail_call` of `ProcessBuffer`, up to the message that it sends.
unfoldable pub load_return_fail_call : Get ErrorArg
unfolding get_error_type
load_return_fail_call = do
  error ← get_error_type unknown_error
  message ← get_string []
  pure (record { error = respond_error error; message = message })

abbrev pub fail_layout : ErrorArg → List ℕ
fail_layout arg = write_unsafe 1 arg.error ++ string_layout arg.message

pub length-fail_layout : (arg : ErrorArg) → length (fail_layout arg) ≡ 1 + (4 + length arg.message)
length-fail_layout arg = omega (
  arith,
  length-append (write_unsafe 1 arg.error) (string_layout arg.message),
  length-append (write_unsafe 4 (length arg.message)) arg.message,
  length-write_unsafe 1 arg.error,
  length-write_unsafe 4 (length arg.message),
)

pub store_return_fail_call-Writes :
    (arg : ErrorArg)
    → IsU32 (length arg.message)
    → Writes (store_return_fail_call arg) (fail_layout arg)
unfolding store_return_fail_call put_error_type
store_return_fail_call-Writes arg h =
    Writes->> (put_uint8-Writes arg.error) (put_string-Writes arg.message h)

pub load_return_fail_call-Reads :
    (arg : ErrorArg)
    → arg.error < 256
    → IsU32 (length arg.message)
    → Reads load_return_fail_call (fail_layout arg) (record arg { error = respond_error arg.error })
unfolding load_return_fail_call get_error_type
load_return_fail_call-Reads arg h k =
    Reads->>= _ (get_uint8-Reads unknown_error arg.error h)
      (Reads-last _ (get_string-Reads [] arg.message k))

-- A report of a failure reaches the caller. Let the error fit its byte, the packet's size and the
-- id 32 bits, let the id not be 0, and let the transport give a buffer of the packet's size. Then
-- the packet that is made of the report is received with the type `pt_return_fail_call` and the
-- id, and gives the same message, with the error under the name that it has on the caller's side.
pub fail_roundtrip :
    (arg : ErrorArg) (create : ℕ → Option (List ℕ)) (id : ℕ)
    → arg.error < 256
    → IsU32 (c_net_call_packet_header_size + (1 + (4 + length arg.message)))
    → IsU32 id
    → id ≢ c_invalid_id
    → Creates create (c_net_call_packet_header_size + (1 + (4 + length arg.message)))
    → (packet : List ℕ) × (buffer : CallDataBuffer) × (make_packet
          (some create)
          pt_return_fail_call
          id
          (store_return_fail_call arg)
        ≡ some (some packet))
      × (receive_call_data_buffer packet ≡ some buffer)
      × (buffer.header ≡ header_of (1 + (4 + length arg.message)) pt_return_fail_call id)
      × (load_return_fail_call buffer.data_stream
          ≡ some (
            record { error = respond_error arg.error; message = arg.message },
            skip (length packet) (stream_of_read packet),
          ))
fail_roundtrip arg create id h small wide valid c =
    let size : length (fail_layout arg) ≡ 1 + (4 + length arg.message) = length-fail_layout arg in
    let small' : IsU32 (12 + length (fail_layout arg)) = omega (arith, size) in
    let (buffer, arrives, header, taken) =
      take_packet pt_return_fail_call id (fail_layout arg) (omega arith) wide small'
        (load_return_fail_call-Reads arg h (omega arith)) in
    (
      packet_layout pt_return_fail_call id (fail_layout arg),
      buffer,
      make_packet-packet_layout create pt_return_fail_call id _ (fail_layout arg)
          (store_return_fail_call-Writes arg (omega arith)) small' valid
          (subst (λ n. Creates create (12 + n)) (sym size) c),
      arrives,
      header ∙ ap (λ n. header_of n pt_return_fail_call id) size,
      taken,
    )

pub serialize_return-packet_layout :
    (ret : Value) (create : ℕ → Option (List ℕ)) (id : ℕ)
    → IsValue ret
    → IsU32 (c_net_call_packet_header_size + length (value_layout ret))
    → id ≢ c_invalid_id
    → Creates create (c_net_call_packet_header_size + length (value_layout ret))
    → serialize_return ret (some create) id
      ≡ some (some (packet_layout pt_return id (value_layout ret)))
unfolding serialize_return
serialize_return-packet_layout ret create id h small valid c =
    let known : (id == c_invalid_id) ≡ false = ground (arith, valid) in
    rw known (
      make_packet-packet_layout create pt_return id _ (value_layout ret) (put_value-Writes ret h)
        small valid c)

-- A returned value reaches the caller. Let the value be one of its type, the packet's size and the
-- id fit 32 bits, let the id not be 0, and let the transport give a buffer of the packet's size.
-- Then the packet that `SerializeReturn` makes of the value is received with the type `pt_return`
-- and the id, and reads back as the value.
pub return_roundtrip :
    (ret : Value) (create : ℕ → Option (List ℕ)) (id : ℕ)
    → IsValue ret
    → IsU32 (c_net_call_packet_header_size + length (value_layout ret))
    → IsU32 id
    → id ≢ c_invalid_id
    → Creates create (c_net_call_packet_header_size + length (value_layout ret))
    → (packet : List ℕ) × (buffer : CallDataBuffer) × (serialize_return ret (some create) id
        ≡ some (some packet))
      × (receive_call_data_buffer packet ≡ some buffer)
      × (buffer.header ≡ header_of (length (value_layout ret)) pt_return id)
      × (get_value (type_of ret) buffer.data_stream
          ≡ some (ret, skip (length packet) (stream_of_read packet)))
unfolding serialize_return
return_roundtrip ret create id h small wide valid c =
    let (buffer, arrives, header, taken) =
      take_packet pt_return id (value_layout ret) (omega arith) wide small
        (get_value-Reads ret h) in
    let known : (id == c_invalid_id) ≡ false = ground (arith, valid) in
    (
      packet_layout pt_return id (value_layout ret),
      buffer,
      rw known (
          make_packet-packet_layout create pt_return id _ (value_layout ret)
            (put_value-Writes ret h) small valid c),
      arrives,
      header,
      taken,
    )
