-- ===== src/RawString/Tests.antt =====
-- Concrete keys.
use ipc_portable.Common.{ℕ, ◌≡◌, ◌⊎◌, refl, true, false, some, List, []}
use ipc_portable.RawString.{
  SignatureKey, key_lt, raw_lt, raw_eq, contents, memcmp_eq, lexicographical_compare,
}
use ipc_portable.RawString.Order.{Denotes, key_lt_trichotomy, key_lt_trans}
use ipc_portable.RawString.Wire.{text}
use ipc_portable.Signature.{codes}

abbrev key : List ℕ → List ℕ → SignatureKey
key n p = record { name = text n; params_type = text p }

key_f : Denotes (key (codes "f") (codes "bool;")) (codes "f") (codes "bool;")
unfolding contents
key_f = record { name = refl; params = refl }

key_g : Denotes (key (codes "g") []) (codes "g") []
unfolding contents
key_g = record { name = refl; params = refl }

key_h : Denotes (key (codes "h") []) (codes "h") []
unfolding contents
key_h = record { name = refl; params = refl }

key_lt_trichotomy_example :
    ((key_lt (key (codes "f") (codes "bool;")) (key (codes "g") []) ≡ some true)
      × (key_lt (key (codes "g") []) (key (codes "f") (codes "bool;")) ≡ some false))
    ⊎ (((key_lt (key (codes "f") (codes "bool;")) (key (codes "g") []) ≡ some false)
          × (key_lt (key (codes "g") []) (key (codes "f") (codes "bool;")) ≡ some true))
        ⊎ ((key_lt (key (codes "f") (codes "bool;")) (key (codes "g") []) ≡ some false)
            × (key_lt (key (codes "g") []) (key (codes "f") (codes "bool;")) ≡ some false)
            × (codes "f" ≡ codes "g")
            × (codes "bool;" ≡ [])))
key_lt_trichotomy_example =
    key_lt_trichotomy (key (codes "f") (codes "bool;")) (key (codes "g") []) (codes "f")
      (codes "bool;") (codes "g") [] key_f key_g

f_before_g : key_lt (key (codes "f") (codes "bool;")) (key (codes "g") []) ≡ some true
unfolding key_lt raw_lt raw_eq contents memcmp_eq lexicographical_compare
f_before_g = refl

g_before_h : key_lt (key (codes "g") []) (key (codes "h") []) ≡ some true
unfolding key_lt raw_lt raw_eq contents memcmp_eq lexicographical_compare
g_before_h = refl

key_lt_trans_example : key_lt (key (codes "f") (codes "bool;")) (key (codes "h") []) ≡ some true
key_lt_trans_example =
    key_lt_trans (key (codes "f") (codes "bool;")) (key (codes "g") []) (key (codes "h") [])
      (codes "f") (codes "bool;") (codes "g") [] (codes "h") [] key_f key_g key_h f_before_g
      g_before_h
