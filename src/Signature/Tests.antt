-- ===== src/Signature/Tests.antt =====
-- Concrete signatures.
use ipc_portable.Common.{ℕ, ◌≡◌, refl, List, [], ◌∷◌, arith, All}
use ipc_portable.Signature.{codes, is_separator_in_name, params_string}
use ipc_portable.Signature.Injective.{IsName, params_string-injective}

abbrev two_names : List (List ℕ)
two_names = codes "int8_t" ∷ codes "bool" ∷ []

two_names-IsName : All IsName two_names
unfolding is_separator_in_name
two_names-IsName = (
  (
    refl,
    (omega arith, (omega arith, (omega arith, (omega arith, (omega arith, (omega arith, tt)))))),
  ),
  ((refl, (omega arith, (omega arith, (omega arith, (omega arith, tt))))), tt),
)

params_string-injective_example : two_names ≡ two_names
params_string-injective_example =
    params_string-injective two_names two_names two_names-IsName two_names-IsName refl

params_string_run : params_string two_names ≡ codes "int8_t;bool;"
unfolding params_string
params_string_run = refl
