-- ===== src/RoundTrips/Tests.antt =====
-- Concrete values, written and read back.
use ipc_portable.Common.{refl, true, List, [], ◌∷◌, arith, map, replicate}
use ipc_portable.Stream.Bytes.{write_unsafe, store_loop}
use ipc_portable.Stream.Procs.{ProcDescription}
use ipc_portable.Signature.{codes}
use ipc_portable.Call.Values.{
  Value, integer_value, bool_value, uint16, serialize_args, deserialize_args, type_of,
}
use ipc_portable.RoundTrips.{RoundTrip, args_roundtrip}

abbrev one_procedure : List ProcDescription
one_procedure =
    record { name = codes "f"; return_type = codes "bool"; params_types = []; comment = [] } ∷ []

abbrev two_args : List Value
two_args = integer_value uint16 300 ∷ bool_value true ∷ []

args_roundtrip_example :
    RoundTrip
      (serialize_args two_args)
      (deserialize_args (map type_of two_args))
      (replicate 3 0)
      two_args
unfolding write_unsafe store_loop
args_roundtrip_example =
    args_roundtrip two_args (replicate 3 0) (omega arith, (tt, tt)) refl (omega arith)
