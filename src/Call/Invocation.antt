-- ===== src/Call/Invocation.antt =====
-- The packet of a call: `SerializeCallSignature`, `SerializeCall` and `CalcCallSize` of
-- Ipc/MAssIpcCall.h, `DeserializeNameSignature` of Ipc/MAssIpcCall.cpp.
use mathlib.Core.Path.{subst}
use ipc_portable.Common.{
  ℕ, ◌+◌, ◌≡◌, ◌≢◌, sym, ◌∙◌, Bool, Option, none, some, List, [], ◌∷◌, ◌++◌, arith, length, map,
  All, IsU32, add32, pure, ◌>>=◌, ◌>>◌,
}
use ipc_portable.Stream.{stream_of_read}
use ipc_portable.Stream.Integers.{
  Put, Get, put_uint32, put_bool, get_bool, bool_byte, put_uint32-Writes, put_bool-Writes,
  get_bool-Reads,
}
use ipc_portable.Stream.Appending.{Writes, Writes->>}
use ipc_portable.Stream.Taking.{Reads, Reads->>=, skip}
use ipc_portable.Stream.Texts.{string_layout}
use ipc_portable.Stream.Procs.{Reads-last}
use ipc_portable.RawString.{RawString, write, read}
use ipc_portable.RawString.Wire.{text, read_text, write-Writes, read-Reads}
use ipc_portable.Signature.{params_string, params_size, put_params}
use ipc_portable.Signature.Injective.{params_size-length, put_params-Writes}
use ipc_portable.Packet.{pt_call, c_net_call_packet_header_size, c_invalid_id}
use ipc_portable.Call.{measure_size, make_packet}
use ipc_portable.Call.Packets.{
  header_of, packet_layout, length-packet_layout, Creates, make_packet-packet_layout,
  measure_size-Writes,
}
use ipc_portable.Call.Receiving.{CallDataBuffer, receive_call_data_buffer, take_packet}
use ipc_portable.Call.Values.{
  Value, ValueType, type_name, type_of, serialize_args, deserialize_args, IsValue, args_layout,
  serialize_args-Writes, deserialize_args-Reads,
}

abbrev pub arg_names : List Value → List (List ℕ)
arg_names args = map (λ a. type_name (type_of a)) args

-- `SerializeCallSignature`; `return_type` is the name of the return type.
unfoldable pub serialize_call_signature : List ℕ → List (List ℕ) → RawString → Bool → Put
serialize_call_signature return_type names proc_name send_return =
    write proc_name
    >> (put_bool send_return
        >> (write (text return_type) >> (put_uint32 (params_size 0 names) >> put_params names)))

-- `SerializeCall`.
unfoldable pub serialize_call : List ℕ → RawString → Bool → List Value → Put
unfolding serialize_call_signature
serialize_call return_type proc_name send_return args =
    serialize_call_signature return_type (arg_names args) proc_name send_return
    >> serialize_args args

-- `CalcCallSize`.
unfoldable pub calc_call_size : List ℕ → Bool → RawString → List Value → Option ℕ
unfolding measure_size
calc_call_size return_type send_return proc_name args =
    elim (measure_size (serialize_call return_type proc_name send_return args)) [
      | none ↦ none
      | some n ↦ some (add32 n c_net_call_packet_header_size)
    ]

pub record DeserializedFindCallInfo : Type 0 where
  pub name : RawString
  pub send_return : Bool
  pub return_type : RawString
  pub params_type : RawString

-- `DeserializeNameSignature`.
unfoldable pub deserialize_name_signature : Get DeserializedFindCallInfo
deserialize_name_signature = do
  name ← read
  send_return ← get_bool
  return_type ← read
  params_type ← read
  pure (record {
    name = name;
    send_return = send_return;
    return_type = return_type;
    params_type = params_type;
  })

-- The layouts.
abbrev pub signature_layout : List ℕ → Bool → List ℕ → List (List ℕ) → List ℕ
signature_layout name send_return return_type names =
    string_layout name
    ++ ((bool_byte send_return ∷ [])
        ++ (string_layout return_type ++ string_layout (params_string names)))

abbrev pub call_layout : List ℕ → Bool → List ℕ → List Value → List ℕ
call_layout name send_return return_type args =
    signature_layout name send_return return_type (arg_names args) ++ args_layout args

serialize_call_signature-Writes :
    (return_type : List ℕ) (names : List (List ℕ)) (name : List ℕ) (send_return : Bool)
    → IsU32 (length (params_string names))
    → Writes
        (serialize_call_signature return_type names (text name) send_return)
        (signature_layout name send_return return_type names)
unfolding serialize_call_signature
serialize_call_signature-Writes return_type names name send_return h =
    rw (params_size-length names h) (
      Writes->> (write-Writes name) (
        Writes->> (put_bool-Writes send_return) (
          Writes->> (write-Writes return_type) (
            Writes->> (put_uint32-Writes (length (params_string names)))
              (put_params-Writes names)))))

pub serialize_call-Writes :
    (return_type name : List ℕ) (send_return : Bool) (args : List Value)
    → IsU32 (length (params_string (arg_names args)))
    → All IsValue args
    → Writes
        (serialize_call return_type (text name) send_return args)
        (call_layout name send_return return_type args)
unfolding serialize_call
serialize_call-Writes return_type name send_return args h k =
    Writes->> (serialize_call_signature-Writes return_type (arg_names args) name send_return h)
      (serialize_args-Writes args k)

abbrev pub signature_of : List ℕ → Bool → List ℕ → List (List ℕ) → DeserializedFindCallInfo
signature_of name send_return return_type names = record {
  name = read_text name;
  send_return = send_return;
  return_type = read_text return_type;
  params_type = read_text (params_string names);
}

pub deserialize_name_signature-Reads :
    (name : List ℕ) (send_return : Bool) (return_type : List ℕ) (names : List (List ℕ))
    → IsU32 (length name)
    → IsU32 (length return_type)
    → IsU32 (length (params_string names))
    → Reads deserialize_name_signature
        (signature_layout name send_return return_type names)
        (signature_of name send_return return_type names)
unfolding deserialize_name_signature
deserialize_name_signature-Reads name send_return return_type names a b c =
    Reads->>= _ (read-Reads name a) (
      Reads->>= _ (get_bool-Reads send_return) (
        Reads->>= _ (read-Reads return_type b) (Reads-last _ (read-Reads (params_string names) c))))

-- The receiver: the signature, and then the arguments at the types of the handler.
abbrev pub take_call : List ValueType → Get (DeserializedFindCallInfo × List Value)
take_call types = do
  signature ← deserialize_name_signature
  args ← deserialize_args types
  pure (signature, args)

-- What limits the sizes of a call: each text can be counted in 32 bits, and so can the packet.
pub record IsCall (name return_type : List ℕ) (send_return : Bool) (args : List Value)
    : Type 0 where
  pub name_size : IsU32 (length name)
  pub return_size : IsU32 (length return_type)
  pub params_size : IsU32 (length (params_string (arg_names args)))
  pub values : All IsValue args
  pub packet_size :
      IsU32 (c_net_call_packet_header_size + length (call_layout name send_return return_type args))

module _ (name return_type : List ℕ) (send_return : Bool) (args : List Value)
    (h : IsCall name return_type send_return args) where
  abbrev layout : List ℕ
  layout = call_layout name send_return return_type args

  pub call_Writes : Writes (serialize_call return_type (text name) send_return args) layout
  call_Writes = serialize_call-Writes return_type name send_return args h.params_size h.values

  -- `CalcCallSize` gives the size of the packet that the call is sent as, for arguments that are
  -- values of their types and sizes that fit 32 bits: whatever the call id, if it is not 0, a
  -- transport with a buffer of that size is all that sending the call needs, and the packet fills
  -- the buffer.
  pub calc_call_size-make_packet :
      (create : ℕ → Option (List ℕ)) (id n : ℕ)
      → calc_call_size return_type send_return (text name) args ≡ some n
      → id ≢ c_invalid_id
      → Creates create n
      → (packet : List ℕ) × (make_packet
            (some create)
            pt_call
            id
            (serialize_call return_type (text name) send_return args)
          ≡ some (some packet))
        × (length packet ≡ n)
  unfolding calc_call_size
  calc_call_size-make_packet create id n e valid c =
      let m = measure_size-Writes _ layout call_Writes (omega (arith, h.packet_size)) in
      let size : n ≡ 12 + length layout = ground (arith, m, h.packet_size) in
      (
        packet_layout pt_call id layout,
        make_packet-packet_layout create pt_call id _ layout call_Writes h.packet_size valid
            (subst (Creates create) size c),
        length-packet_layout pt_call id layout ∙ sym size,
      )

  take_call-Reads :
      Reads
        (take_call (map type_of args))
        layout
        (signature_of name send_return return_type (arg_names args), args)
  take_call-Reads =
      Reads->>= _
        (deserialize_name_signature-Reads name send_return return_type (arg_names args) h.name_size
          h.return_size h.params_size)
        (Reads-last _ (deserialize_args-Reads args h.values))

  -- A call arrives as it was sent. Let the arguments be values of their types and all sizes fit 32
  -- bits, let the id fit 32 bits and not be 0, and let the transport give a buffer of the packet's
  -- size. Then the packet that `make_packet` makes of the call is received with the header that
  -- announces its data, of type `pt_call` and with the id it was sent with, and the rest reads
  -- back as the name, the wish for an answer, the return type, the text of the parameter types and
  -- the arguments; nothing is left.
  pub call_roundtrip :
      (create : ℕ → Option (List ℕ)) (id : ℕ)
      → IsU32 id
      → id ≢ c_invalid_id
      → Creates create (c_net_call_packet_header_size + length layout)
      → (packet : List ℕ) × (buffer : CallDataBuffer) × (make_packet
            (some create)
            pt_call
            id
            (serialize_call return_type (text name) send_return args)
          ≡ some (some packet))
        × (receive_call_data_buffer packet ≡ some buffer)
        × (buffer.header ≡ header_of (length layout) pt_call id)
        × (take_call (map type_of args) buffer.data_stream
            ≡ some (
              (signature_of name send_return return_type (arg_names args), args),
              skip (length packet) (stream_of_read packet),
            ))
  call_roundtrip create id wide valid c =
      let (buffer, arrives, header, taken) =
        take_packet pt_call id layout (omega arith) wide h.packet_size take_call-Reads in
      (
        packet_layout pt_call id layout,
        buffer,
        make_packet-packet_layout create pt_call id _ layout call_Writes h.packet_size valid c,
        arrives,
        header,
        taken,
      )
