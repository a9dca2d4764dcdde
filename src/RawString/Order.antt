-- ===== src/RawString/Order.antt =====
-- The order of the handlers' keys (`RawString::operator<`, `SignatureKey::operator<`), which
-- `std::map` relies on.
use ipc_portable.Common.{
  ℕ, ◌≡◌, ◌⊎◌, refl, ap, ◌∙◌, Bool, true, false, ◌&&◌, Option, none, some, List, [], ◌∷◌, arith,
  length, length-take, ◌==◌, if◌then◌else◌,
}
use ipc_portable.RawString.{
  RawString, SignatureKey, contents, memcmp_eq, lexicographical_compare, raw_eq, raw_lt, key_lt,
}

lexicographical_compare_irrefl : (xs : List ℕ) → lexicographical_compare xs xs ≡ false
unfolding lexicographical_compare
lexicographical_compare_irrefl [] = refl
lexicographical_compare_irrefl (x ∷ xs) = ground (arith, lexicographical_compare_irrefl xs)

lexicographical_compare_trans :
    (xs ys zs : List ℕ)
    → lexicographical_compare xs ys ≡ true
    → lexicographical_compare ys zs ≡ true
    → lexicographical_compare xs zs ≡ true
unfolding lexicographical_compare
lexicographical_compare_trans [] [] zs h k = cc
lexicographical_compare_trans [] (y ∷ ys) [] h k = cc
lexicographical_compare_trans [] (y ∷ ys) (z ∷ zs) h k = refl
lexicographical_compare_trans (x ∷ xs) [] zs h k = cc
lexicographical_compare_trans (x ∷ xs) (y ∷ ys) [] h k = cc
lexicographical_compare_trans (x ∷ xs) (y ∷ ys) (z ∷ zs) h k =
    ground (arith, lexicographical_compare_trans xs ys zs)

lexicographical_compare_connected :
    (xs ys : List ℕ)
    → lexicographical_compare xs ys ≡ false
    → lexicographical_compare ys xs ≡ false
    → xs ≡ ys
unfolding lexicographical_compare
lexicographical_compare_connected [] [] h k = refl
lexicographical_compare_connected [] (y ∷ ys) h k = cc
lexicographical_compare_connected (x ∷ xs) [] h k = cc
lexicographical_compare_connected (x ∷ xs) (y ∷ ys) h k =
    ground (arith, lexicographical_compare_connected xs ys)

memcmp_eq_refl : (xs : List ℕ) → memcmp_eq xs xs ≡ true
unfolding memcmp_eq
memcmp_eq_refl [] = refl
memcmp_eq_refl (x ∷ xs) = ground (arith, memcmp_eq_refl xs)

memcmp_eq→eq : (xs ys : List ℕ) → length xs ≡ length ys → memcmp_eq xs ys ≡ true → xs ≡ ys
unfolding memcmp_eq
memcmp_eq→eq [] [] e h = refl
memcmp_eq→eq [] (y ∷ ys) e h = absurd (omega arith)
memcmp_eq→eq (x ∷ xs) [] e h = absurd (omega arith)
memcmp_eq→eq (x ∷ xs) (y ∷ ys) e h = ground (arith, memcmp_eq→eq xs ys)

-- The characters of a readable string are as many as its length says.
pub length-contents : (r : RawString) (x : List ℕ) → contents r ≡ some x → length x ≡ r.len
unfolding contents
length-contents r x h = go r.str refl
  where
    go : (o : Option (List ℕ)) → r.str ≡ o → length x ≡ r.len
    go none e = ground arith
    go (some bytes) e = ground (arith, length-take r.len bytes)

-- Equality of texts, by the test that `operator==` makes.
unfoldable pub text_eq : List ℕ → List ℕ → Bool
text_eq x y = (length x == length y) && memcmp_eq x y

pub text_eq_refl : (x : List ℕ) → text_eq x x ≡ true
unfolding text_eq
text_eq_refl x = ground (arith, memcmp_eq_refl x)

pub text_eq→eq : (x y : List ℕ) → text_eq x y ≡ true → x ≡ y
unfolding text_eq
text_eq→eq x y h = ground (arith, memcmp_eq→eq x y)

-- On readable strings `operator==` decides equality of the characters.
pub raw_eq-text_eq :
    (a b : RawString) (x y : List ℕ)
    → contents a ≡ some x
    → contents b ≡ some y
    → raw_eq a b ≡ some (text_eq x y)
raw_eq-text_eq a b x y h k =
    let m = length-contents a x h in
    let n = length-contents b y k in unfold raw_eq text_eq in ground (arith, m, n)

-- The order of keys, on the texts that they stand for.
pub text_key_lt : List ℕ → List ℕ → List ℕ → List ℕ → Bool
text_key_lt n p n' p' =
    if text_eq n n' then lexicographical_compare p p' else lexicographical_compare n n'

pub text_key_lt_irrefl : (n p : List ℕ) → text_key_lt n p n p ≡ false
unfolding text_key_lt
text_key_lt_irrefl n p = rw (text_eq_refl n) (lexicographical_compare_irrefl p)

pub text_key_lt_trans :
    (n p n' p' n'' p'' : List ℕ)
    → text_key_lt n p n' p' ≡ true
    → text_key_lt n' p' n'' p'' ≡ true
    → text_key_lt n p n'' p'' ≡ true
unfolding text_key_lt
text_key_lt_trans n p n' p' n'' p'' h k = ground (
  arith,
  text_eq→eq n n',
  text_eq→eq n' n'',
  text_eq→eq n n'',
  lexicographical_compare_trans n n' n'',
  lexicographical_compare_trans p p' p'',
  lexicographical_compare_trans n n' n,
  lexicographical_compare_irrefl n,
)

pub text_key_lt_connected :
    (n p n' p' : List ℕ)
    → text_key_lt n p n' p' ≡ false
    → text_key_lt n' p' n p ≡ false
    → (n ≡ n') × (p ≡ p')
unfolding text_key_lt
text_key_lt_connected n p n' p' h k = ground (
  arith,
  text_eq→eq n n',
  text_eq→eq n' n,
  text_eq_refl n,
  lexicographical_compare_connected n n',
  lexicographical_compare_connected p p',
)

-- A key that can be compared: both strings are readable, and these are their characters.
pub record Denotes (k : SignatureKey) (n p : List ℕ) : Type 0 where
  pub name : contents k.name ≡ some n
  pub params : contents k.params_type ≡ some p

pub key_lt-text_key_lt :
    (a b : SignatureKey) (n p n' p' : List ℕ)
    → Denotes a n p
    → Denotes b n' p'
    → key_lt a b ≡ some (text_key_lt n p n' p')
unfolding key_lt raw_lt text_key_lt
key_lt-text_key_lt a b n p n' p' h k =
    ground (arith, raw_eq-text_eq a.name b.name n n' h.name k.name)

answer : {o : Option Bool} {x v : Bool} → o ≡ some x → o ≡ some v → x ≡ v
answer e h = cc

-- On keys whose strings can be read, `SignatureKey::operator<` does not fail, and of two keys
-- exactly one is the case: the first is less, the second is less, or neither is less and both hold
-- the same texts. So `std::map` takes two keys for one only if their texts agree, wherever the
-- characters lie.
pub key_lt_trichotomy :
    (a b : SignatureKey) (n p n' p' : List ℕ)
    → Denotes a n p
    → Denotes b n' p'
    → ((key_lt a b ≡ some true) × (key_lt b a ≡ some false))
      ⊎ (((key_lt a b ≡ some false) × (key_lt b a ≡ some true))
          ⊎ ((key_lt a b ≡ some false) × (key_lt b a ≡ some false) × (n ≡ n') × (p ≡ p')))
key_lt_trichotomy a b n p n' p' da db = ground (
  arith,
  key_lt-text_key_lt a b n p n' p' da db,
  key_lt-text_key_lt b a n' p' n p db da,
  text_key_lt_connected n p n' p',
  text_key_lt_trans n p n' p' n p,
  text_key_lt_irrefl n p,
)

-- On keys whose strings can be read, `SignatureKey::operator<` is transitive.
pub key_lt_trans :
    (a b c : SignatureKey) (n p n' p' n'' p'' : List ℕ)
    → Denotes a n p
    → Denotes b n' p'
    → Denotes c n'' p''
    → key_lt a b ≡ some true
    → key_lt b c ≡ some true
    → key_lt a c ≡ some true
key_lt_trans a b c n p n' p' n'' p'' da db dc h k =
    key_lt-text_key_lt a c n p n'' p'' da dc
    ∙ ap some (
        text_key_lt_trans n p n' p' n'' p'' (answer (key_lt-text_key_lt a b n p n' p' da db) h)
          (answer (key_lt-text_key_lt b c n' p' n'' p'' db dc) k))
