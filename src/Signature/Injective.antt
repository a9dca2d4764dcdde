-- ===== src/Signature/Injective.antt =====
-- Signatures tell procedures apart, and the three holders agree.
use ipc_portable.Common.{
  ℕ, ◌+◌, ◌<◌, ◌≡◌, refl, ap₂, true, List, [], ◌∷◌, ◌++◌, arith, length, length-append, All, IsU32,
  add32,
}
use ipc_portable.Stream.Appending.{Writes, Writes->>, Writes-pure, write_raw_data-Writes}
use ipc_portable.Signature.{separator, is_separator_in_name, params_string, params_size, put_params}

-- A name that passes the compile-time check and holds no zero byte.
abbrev pub IsName : List ℕ → Type 0
IsName name = (is_separator_in_name name ≡ true) × All (λ (c : ℕ). 0 < c) name

cut :
    (x y xs ys : List ℕ)
    → IsName x
    → IsName y
    → x ++ (separator ∷ xs) ≡ y ++ (separator ∷ ys)
    → (x ≡ y) × (xs ≡ ys)
unfolding is_separator_in_name
cut [] [] xs ys h k e = ground arith
cut [] (c ∷ y) xs ys h k e = ground arith
cut (c ∷ x) [] xs ys h k e = ground arith
cut (c ∷ x) (d ∷ y) xs ys h k e = ground (arith, cut x y xs ys)

-- Two lists of parameter types whose names hold no separator and no zero byte have one text only if
-- they are the same list: no two signatures are confused.
pub params_string-injective :
    (names others : List (List ℕ))
    → All IsName names
    → All IsName others
    → params_string names ≡ params_string others
    → names ≡ others
unfolding params_string
params_string-injective [] [] h k e = refl
params_string-injective [] ([] ∷ others) h k e = cc
params_string-injective [] ((c ∷ y) ∷ others) h k e = cc
params_string-injective ([] ∷ names) [] h k e = cc
params_string-injective ((c ∷ x) ∷ names) [] h k e = cc
params_string-injective (x ∷ names) (y ∷ others) (h, hs) (k, ks) e =
    let (a, b) = cut x y (params_string names) (params_string others) h k e in
    ap₂ ◌∷◌ a (params_string-injective names others hs ks b)

params_size_from :
    (size : ℕ) (names : List (List ℕ))
    → IsU32 (size + length (params_string names))
    → params_size size names ≡ size + length (params_string names)
unfolding params_size params_string
params_size_from size [] h = omega arith
params_size_from size (name ∷ names) h =
    let n : length (name ++ (separator ∷ params_string names))
        ≡ length name + (1 + length (params_string names)) =
      omega (arith, length-append name (separator ∷ params_string names)) in
    omega (arith, n, params_size_from (add32 (add32 size (length name)) 1) names (omega (arith, n)))

-- The size that is written in front of a signature is the length of the text that follows it, if
-- that length fits 32 bits.
pub params_size-length :
    (names : List (List ℕ))
    → IsU32 (length (params_string names))
    → params_size 0 names ≡ length (params_string names)
params_size-length names h = omega (arith, params_size_from 0 names (omega arith))

-- On the stream the parameter types are written as the text that the handlers' map is keyed by.
pub put_params-Writes : (names : List (List ℕ)) → Writes (put_params names) (params_string names)
unfolding put_params params_string
put_params-Writes [] = Writes-pure
put_params-Writes (name ∷ names) =
    Writes->> (write_raw_data-Writes name)
      (Writes->> (write_raw_data-Writes (separator ∷ [])) (put_params-Writes names))
