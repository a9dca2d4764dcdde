-- ===== src/Signature.antt =====
-- The textual signatures of procedures: `MAssIpcType` (Ipc/MAssIpc_DataStream.h), the separator and
-- the holders behind `ProcSignature::GetParams`, `CallInfoImpl::MakeParamsType` and
-- `IsSeparatorInName` (Ipc/MAssIpc_Internals.h). A name is the list of its bytes.
pub mod Injective
pub mod Tests
use Prim.Native.Char.{code}
use Prim.Native.String
use Prim.Native.String.{String}
use ipc_portable.Common.{
  ℕ, ◌+◌, Bool, true, false, not, ◌&&◌, ◌||◌, List, [], ◌∷◌, ◌++◌, length, add32, ◌==◌, pure, ◌>>◌,
}
use ipc_portable.Stream.{write_raw_data}
use ipc_portable.Stream.Integers.{Put}

-- The bytes of an ASCII literal.
abbrev pub codes : String → List ℕ
codes String.[] = []
codes (String.◌∷◌ c s) = code c ∷ codes s

abbrev pub separator : ℕ
separator = b';'

-- `IsSeparatorInName`, from an index on: it holds if there is no separator. The list ends where the
-- terminating zero stands.
unfoldable pub is_separator_in_name : List ℕ → Bool
is_separator_in_name [] = true
is_separator_in_name (c ∷ cs) = not (c == separator) && ((c == 0) || is_separator_in_name cs)

-- `GetParams` with `ParamsTypeHolder_string`.
unfoldable pub params_string : List (List ℕ) → List ℕ
params_string [] = []
params_string (name ∷ names) = name ++ (separator ∷ params_string names)

-- `GetParams` with `ParamsTypeHolder_PacketSize`; the holder starts at `size`.
unfoldable pub params_size : ℕ → List (List ℕ) → ℕ
params_size size [] = size
params_size size (name ∷ names) = params_size (add32 (add32 size (length name)) 1) names

-- `GetParams` with `ParamsTypeHolder_MAssIpcCallDataStream`.
unfoldable pub put_params : List (List ℕ) → Put
put_params [] = pure tt
put_params (name ∷ names) =
    write_raw_data name (length name) >> (write_raw_data (separator ∷ []) 1 >> put_params names)

-- `MakeParamsType`: the size only reserves memory.
abbrev pub make_params_type : List (List ℕ) → List ℕ
make_params_type names = params_string names
