-- ===== src/Calling/Fresh.antt =====
-- `NewCallId`: its loop ends, and gives an id that no waiting answer has.
use ipc_portable.Common.{
  ℕ, zero, suc, ◌⊎◌, ◌+◌, ◌-◌, ◌%◌, ◌≤◌, ◌<◌, ◌≡◌, ◌≢◌, refl, ap, ◌∙◌, true, false, Option, none,
  some, List, [], ◌∷◌, length, arith, ◌==◌, add32, IsU32, inl, inr, Bool-cases,
}
use ipc_portable.Call.Receiving.{CallDataBuffer}
use ipc_portable.Packet.{c_invalid_id}
use ipc_portable.Calling.{
  PendingResponces, has_id, erase_id, skip_invalid, new_call_id_loop, new_call_id,
}

length-erase_id :
    (id : ℕ) (xs : List (ℕ × CallDataBuffer))
    → has_id id xs ≡ true
    → suc (length (erase_id id xs)) ≡ length xs
unfolding erase_id has_id
length-erase_id id [] h = cc
length-erase_id id ((k, buffer) ∷ rest) h = ground (arith, length-erase_id id rest)

has_id-erase_id :
    (id other : ℕ) (xs : List (ℕ × CallDataBuffer))
    → id ≢ other
    → has_id other xs ≡ true
    → has_id other (erase_id id xs) ≡ true
unfolding erase_id has_id
has_id-erase_id id other [] d h = h
has_id-erase_id id other ((k, buffer) ∷ rest) d h = ground (arith, has_id-erase_id id other rest d)

-- How many rounds from a counter until an id is tried: ids run from 1 to 2 ^ 32 - 1 in a circle.
abbrev distance : ℕ → ℕ → ℕ
distance counter id = (id + 4294967295 - skip_invalid counter) % 4294967295

skip_invalid-positive : (counter : ℕ) → 0 < skip_invalid counter
skip_invalid-positive counter = ground arith

skip_invalid-IsU32 : (counter : ℕ) → IsU32 counter → IsU32 (skip_invalid counter)
skip_invalid-IsU32 counter c = ground arith

skip_invalid-next :
    (n : ℕ)
    → 0 < n
    → IsU32 n
    → ((n ≡ 4294967295) × (skip_invalid (add32 n 1) ≡ 1))
      ⊎ ((n < 4294967295) × (skip_invalid (add32 n 1) ≡ n + 1))
skip_invalid-next n p c = elim (Bool-cases (n == 4294967295)) [
  | inl last ↦ let e : n ≡ 4294967295 = ground (arith, last) in inl (e, rw e refl)
  | inr before ↦
      let e : n < 4294967295 = ground (arith, before) in
      let sum : add32 n 1 ≡ n + 1 = omega arith in
      let step : skip_invalid (n + 1) ≡ n + 1 = ground arith in inr (e, ap skip_invalid sum ∙ step)
]

distance-next :
    (rounds counter id : ℕ)
    → IsU32 counter
    → 0 < id
    → IsU32 id
    → suc rounds ≤ distance counter id
    → rounds ≤ distance (add32 (skip_invalid counter) 1) id
distance-next rounds counter id c p i far =
    go (skip_invalid counter) (skip_invalid-positive counter) (skip_invalid-IsU32 counter c) far
  where
    go :
        (n : ℕ)
        → 0 < n
        → IsU32 n
        → suc rounds ≤ (id + 4294967295 - n) % 4294967295
        → rounds ≤ distance (add32 n 1) id
    go n q c' far' = elim (skip_invalid-next n q c') [
      | inl (e, next) ↦ omega (arith, e, next, far')
      | inr (e, next) ↦ omega (arith, e, next, far')
    ]

distance-apart : (counter id : ℕ) → 0 < distance counter id → id ≢ skip_invalid counter
distance-apart counter id far e =
    let zero_away : distance counter id ≡ 0 =
      rw (← e) (let z : (id + 4294967295 - id) % 4294967295 ≡ 0 = omega arith in z) in
    absurd (omega (arith, far, zero_away))

-- An answer that is not met within the rounds may be left out.
loop-erase_id :
    (rounds counter id : ℕ) (xs : List (ℕ × CallDataBuffer))
    → IsU32 counter
    → 0 < id
    → IsU32 id
    → rounds ≤ distance counter id
    → new_call_id_loop rounds counter xs ≡ none
    → new_call_id_loop rounds counter (erase_id id xs) ≡ none
unfolding new_call_id_loop
loop-erase_id zero counter id xs c p i far h = refl
loop-erase_id (suc rounds) counter id xs c p i far h = ground (
  arith,
  has_id-erase_id id (skip_invalid counter) xs (distance-apart counter id (omega (arith, far))),
  loop-erase_id rounds (add32 (skip_invalid counter) 1) id xs (omega arith) p i
      (distance-next rounds counter id c p i far),
)

once_around :
    (rounds n : ℕ) → 0 < n → IsU32 n → rounds < 4294967295 → rounds ≤ distance (add32 n 1) n
once_around rounds n q c small = elim (skip_invalid-next n q c) [
  | inl (e, next) ↦ omega (arith, e, next)
  | inr (e, next) ↦ omega (arith, e, next)
]

-- A loop that has not ended has met as many answers as it has had rounds.
loop-bound :
    (rounds counter : ℕ) (xs : List (ℕ × CallDataBuffer))
    → IsU32 counter
    → rounds < 4294967295
    → new_call_id_loop rounds counter xs ≡ none
    → rounds ≤ length xs
unfolding new_call_id_loop
loop-bound zero counter xs c small h = omega arith
loop-bound (suc rounds) counter xs c small h =
    let q = skip_invalid-positive counter in
    let c' = skip_invalid-IsU32 counter c in
    let met : has_id (skip_invalid counter) xs ≡ true = ground (arith, h) in
    let on : new_call_id_loop rounds (add32 (skip_invalid counter) 1) xs ≡ none =
      ground (arith, h) in
    let far = once_around rounds (skip_invalid counter) q c' (omega arith) in
    let left =
      loop-erase_id rounds (add32 (skip_invalid counter) 1) (skip_invalid counter) xs (omega arith)
        q c' far on in
    omega (
      arith,
      length-erase_id (skip_invalid counter) xs met,
      loop-bound rounds (add32 (skip_invalid counter) 1) (erase_id (skip_invalid counter) xs)
          (omega arith) (omega arith) left,
    )

-- What a loop that has ended gives.
loop-fresh :
    (rounds counter id next : ℕ) (xs : List (ℕ × CallDataBuffer))
    → IsU32 counter
    → new_call_id_loop rounds counter xs ≡ some (id, next)
    → (has_id id xs ≡ false) × (0 < id) × IsU32 id × (next ≡ add32 id 1)
unfolding new_call_id_loop
loop-fresh zero counter id next xs c h = cc
loop-fresh (suc rounds) counter id next xs c h =
    elim (Bool-cases (has_id (skip_invalid counter) xs)) [
      | inl met ↦
          loop-fresh rounds (add32 (skip_invalid counter) 1) id next xs (omega arith)
            (ground (arith, met))
      | inr fresh ↦
          let same : skip_invalid counter ≡ id = ground (arith, fresh) in
          ground (arith, fresh, same, skip_invalid-positive counter, skip_invalid-IsU32 counter c)
    ]

-- `NewCallId` ends, from any 32-bit counter, if fewer than 2 ^ 32 - 2 answers wait: its loop needs
-- at most one round more than there are waiting answers. The id fits 32 bits, is not the invalid
-- id 0, and no answer waits under it, and of the state only the counter changes, to the number
-- behind the id.
pub new_call_id-fresh :
    (p : PendingResponces)
    → IsU32 p.incremental_id
    → length p.id_data_return < 4294967294
    → (id : ℕ) × (new_call_id p ≡ some (id, record p { incremental_id = add32 id 1 }))
      × (id ≢ c_invalid_id)
      × IsU32 id
      × (has_id id p.id_data_return ≡ false)
unfolding new_call_id
new_call_id-fresh p c few = go (new_call_id_loop rounds p.incremental_id p.id_data_return) refl
  where
    rounds : ℕ
    rounds = suc (length p.id_data_return)

    go :
        (o : Option (ℕ × ℕ))
        → new_call_id_loop rounds p.incremental_id p.id_data_return ≡ o
        → (id : ℕ) × (new_call_id p ≡ some (id, record p { incremental_id = add32 id 1 }))
          × (id ≢ c_invalid_id)
          × IsU32 id
          × (has_id id p.id_data_return ≡ false)
    go none e =
        absurd
          (omega (arith, loop-bound rounds p.incremental_id p.id_data_return c (omega arith) e))
    go (some (id, next)) e =
        let (fresh, positive, small, behind) =
          loop-fresh rounds p.incremental_id id next p.id_data_return c e in
        (id, rw (e, new_call_id) (rw behind refl), omega (arith, positive), small, fresh)
