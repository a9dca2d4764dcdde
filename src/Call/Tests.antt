-- ===== src/Call/Tests.antt =====
-- Concrete packets.
use ipc_portable.Common.{
  ℕ, ◌+◌, ◌≡◌, refl, true, Option, some, List, [], ◌∷◌, arith, length, map, replicate, IsU32,
}
use ipc_portable.Stream.{stream_of_read}
use ipc_portable.Stream.Bytes.{write_unsafe, store_loop}
use ipc_portable.Stream.Integers.{put_uint32, put_uint32-Writes}
use ipc_portable.Stream.Taking.{skip}
use ipc_portable.RawString.Wire.{text}
use ipc_portable.Signature.{codes, params_string}
use ipc_portable.Packet.{pt_call, pt_return}
use ipc_portable.Call.{make_packet}
use ipc_portable.Call.Packets.{
  Creates, packet_layout, header_of, make_packet-packet_layout, measure_size-Writes,
}
use ipc_portable.Call.Receiving.{CallDataBuffer, receive_call_data_buffer}
use ipc_portable.Call.Values.{Value, integer_value, string_value, int32, type_of, value_layout}
use ipc_portable.Call.Invocation.{
  IsCall, call_layout, serialize_call, calc_call_size, take_call, signature_of, arg_names,
  call_roundtrip, calc_call_size-make_packet, call_Writes,
}
use ipc_portable.Call.Returning.{ErrorArg, no_matching_call_return_type}

abbrev zeros : ℕ → Option (List ℕ)
zeros n = some (replicate n 0)

abbrev two_args : List Value
two_args = integer_value int32 5 ∷ string_value (codes "ab") ∷ []

two_args-IsCall : IsCall (codes "f") (codes "bool") true two_args
unfolding write_unsafe store_loop params_string
two_args-IsCall = record {
  name_size = omega arith;
  return_size = omega arith;
  params_size = omega arith;
  values = (omega arith, (omega arith, tt));
  packet_size = omega arith;
}

abbrev layout : List ℕ
layout = call_layout (codes "f") true (codes "bool") two_args

layout-Creates : Creates zeros (12 + length layout)
unfolding write_unsafe store_loop params_string
layout-Creates = (_, refl, refl)

call_roundtrip_example :
    (packet : List ℕ) × (buffer : CallDataBuffer) × (make_packet
        (some zeros)
        pt_call
        7
        (serialize_call (codes "bool") (text (codes "f")) true two_args)
      ≡ some (some packet))
    × (receive_call_data_buffer packet ≡ some buffer)
    × (buffer.header ≡ header_of (length layout) pt_call 7)
    × (take_call (map type_of two_args) buffer.data_stream
        ≡ some (
          (signature_of (codes "f") true (codes "bool") (arg_names two_args), two_args),
          skip (length packet) (stream_of_read packet),
        ))
call_roundtrip_example =
    call_roundtrip (codes "f") (codes "bool") true two_args two_args-IsCall zeros 7 (omega arith)
      (omega arith) layout-Creates

size_known :
    calc_call_size (codes "bool") true (text (codes "f")) two_args ≡ some (length layout + 12)
unfolding calc_call_size
size_known =
    let m =
      measure_size-Writes _ layout
        (call_Writes (codes "f") (codes "bool") true two_args two_args-IsCall)
        (omega (arith, two_args-IsCall.packet_size)) in
    ground (arith, m, two_args-IsCall.packet_size)

layout-Creates_sum : Creates zeros (length layout + 12)
unfolding write_unsafe store_loop params_string
layout-Creates_sum = (_, refl, refl)

calc_call_size_example :
    (packet : List ℕ) × (make_packet
        (some zeros)
        pt_call
        7
        (serialize_call (codes "bool") (text (codes "f")) true two_args)
      ≡ some (some packet))
    × (length packet ≡ length layout + 12)
calc_call_size_example =
    calc_call_size-make_packet (codes "f") (codes "bool") true two_args two_args-IsCall zeros 7
      (length layout + 12) size_known (omega arith) layout-Creates_sum

four-Creates : Creates zeros (12 + length (write_unsafe 4 9))
unfolding write_unsafe store_loop
four-Creates = (_, refl, refl)

four-small : IsU32 (12 + length (write_unsafe 4 9))
unfolding write_unsafe store_loop
four-small = omega arith

make_packet_example :
    make_packet (some zeros) pt_return 7 (put_uint32 9)
    ≡ some (some (packet_layout pt_return 7 (write_unsafe 4 9)))
make_packet_example =
    make_packet-packet_layout zeros pt_return 7 (put_uint32 9) (write_unsafe 4 9)
      (put_uint32-Writes 9) four-small (omega arith) four-Creates

abbrev report : ErrorArg
report = record { error = no_matching_call_return_type; message = codes "int32_t f()" }

abbrev answer : Value
answer = string_value (codes "ok")

answer-small : IsU32 (12 + length (value_layout answer))
unfolding write_unsafe store_loop
answer-small = omega arith

answer-Creates : Creates zeros (12 + length (value_layout answer))
unfolding write_unsafe store_loop
answer-Creates = (_, refl, refl)
