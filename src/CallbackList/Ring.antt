-- ===== src/CallbackList/Ring.antt =====
-- The blocks of a list form a ring, which insertion, removal and the loop follow.
use mathlib.Core.Path.{subst}
use ipc_portable.Common.{
  ℕ, zero, suc, ◌<◌, true, false, ◌||◌, some, List, [], ◌∷◌, ◌++◌, ◌==◌, ◌≡◌, refl, sym, ap, ◌∙◌,
  update, has, erase, has-erase, length, arith, inl, inr, Bool-cases,
}
use ipc_portable.CallbackList.{
  Blocks, add_after, add_before, remove_from_list, is_in_list, get_next, front, loop, put_first,
}
use ipc_portable.CallbackList.Paths.{
  IsWay-behind, IsWay, IsDistinct, first, last, IsWay-same, IsWay-first, IsWay-last, IsWay-prev,
  apart, last-has,
}
use ipc_portable.CallbackList.Assigning.{
  IsWay-after, IsWay-before, IsWay-without, IsWay-moves, IsDistinct-erase,
}

pub record IsRing (s : Blocks) (xs : List ℕ) : Type 0 where
  pub path : IsWay s.next s.prev 0 xs 0
  pub distinct : IsDistinct xs
  pub base_apart : has 0 xs ≡ false
  pub alone : (b : ℕ) → has b (0 ∷ xs) ≡ false → s.next b ≡ b

abbrev blocks : (ℕ → ℕ) → (ℕ → ℕ) → Blocks
blocks next prev = record { next = next; prev = prev }

pub has-append : (i : ℕ) (xs ys : List ℕ) → has i (xs ++ ys) ≡ (has i xs || has i ys)
unfolding has
has-append i [] ys = refl
has-append i (x ∷ xs) ys = ground (arith, has-append i xs ys)

IsDistinct-append :
    (b : ℕ) (xs : List ℕ) → IsDistinct xs → has b xs ≡ false → IsDistinct (xs ++ (b ∷ []))
unfolding has
IsDistinct-append b [] d h = (refl, tt)
IsDistinct-append b (x ∷ xs) (unlike, d) h = (
  ground (arith, has-append x xs (b ∷ []), unlike, h),
  IsDistinct-append b xs d (ground (arith, h)),
)

module _ (s : Blocks) (xs : List ℕ) (r : IsRing s xs) (b : ℕ) (new : has b (0 ∷ xs) ≡ false) where
  add_after-assigned : add_after 0 b s ≡ record {
    next = update 0 b (update b (first xs 0) s.next);
    prev = update (first xs 0) b (update b 0 s.prev);
  }
  unfolding add_after has
  add_after-assigned =
      let f = IsWay-first s.next s.prev 0 0 xs r.path in
      let away : (b == 0) ≡ false = ground (arith, new) in
      rw away
        (ap (λ (i : ℕ). blocks (update 0 b (update b i s.next)) (update i b (update b 0 s.prev))) f)

  pub add_after-IsRing : IsRing (add_after 0 b s) (b ∷ xs)
  unfolding has
  add_after-IsRing =
      subst (λ t. IsRing t (b ∷ xs)) (sym add_after-assigned)
        (record {
          path =
              IsWay-after s.next s.prev 0 0 b xs r.path (ground (arith, new)) r.base_apart
                r.base_apart r.distinct;
          distinct = (ground (arith, new), r.distinct);
          base_apart = ground (arith, new, r.base_apart);
          alone = λ i h. ground (arith, h, r.alone i (ground (arith, h)));
        })

  add_before-assigned : add_before 0 b s ≡ record {
    next = update (last 0 xs) b (update b 0 s.next);
    prev = update 0 b (update b (last 0 xs) s.prev);
  }
  unfolding add_before has
  add_before-assigned =
      let l = IsWay-last s.next s.prev 0 0 xs r.path in
      let away : (b == 0) ≡ false = ground (arith, new) in
      rw away
        (ap (λ (i : ℕ). blocks (update i b (update b 0 s.next)) (update 0 b (update b i s.prev))) l)

  pub add_before-IsRing : IsRing (add_before 0 b s) (xs ++ (b ∷ []))
  unfolding has
  add_before-IsRing =
      subst (λ t. IsRing t (xs ++ (b ∷ []))) (sym add_before-assigned)
        (record {
          path =
              IsWay-before s.next s.prev 0 0 b xs r.path (ground (arith, new)) r.base_apart
                r.base_apart r.distinct;
          distinct = IsDistinct-append b xs r.distinct (ground (arith, new));
          base_apart = ground (arith, new, r.base_apart, has-append 0 xs (b ∷ []));
          alone = λ i h.
              let old : has i (0 ∷ xs) ≡ false = ground (arith, h, has-append i xs (b ∷ [])) in
              ground (
                arith,
                h,
                has-append i xs (b ∷ []),
                apart (last 0 xs) i (0 ∷ xs) (last-has 0 xs) old,
                r.alone i old,
              );
        })

module _ (s : Blocks) (xs : List ℕ) (r : IsRing s xs) (b : ℕ) where
  pub in_list : has b xs ≡ true → is_in_list b s ≡ true
  in_list h =
      let moves = IsWay-moves s.next s.prev 0 0 b xs r.path h r.base_apart r.distinct in
      rw moves refl

  pub remove_from_list-IsRing : has b xs ≡ true → IsRing (remove_from_list b s) (erase b xs)
  unfolding remove_from_list has
  remove_from_list-IsRing h =
      let moves = IsWay-moves s.next s.prev 0 0 b xs r.path h r.base_apart r.distinct in
      let real = apart b 0 xs h r.base_apart in
      let before = IsWay-prev s.next s.prev 0 0 b xs r.path h in
      let gone : has b (0 ∷ erase b xs) ≡ false = ground (arith, real, has-erase b b xs) in
      rw moves (record {
        path =
            IsWay-same (update (s.prev b) (s.next b) s.next) (update (s.next b) (s.prev b) s.prev) _
              _ 0 0 (erase b xs) (λ i k. ground (arith, apart i b (0 ∷ erase b xs) k gone))
              (λ i k. ground (arith, apart i b (0 ∷ erase b xs) k gone))
              (IsWay-without s.next s.prev 0 0 b xs r.path h r.base_apart r.base_apart r.distinct);
        distinct = IsDistinct-erase b xs r.distinct;
        base_apart = ground (arith, r.base_apart, has-erase 0 b xs);
        alone = λ i k. elim (Bool-cases (b == i)) [
          | inl here' ↦ ground (arith, here')
          | inr away ↦
              let old : has i (0 ∷ xs) ≡ false = ground (arith, k, has-erase i b xs, away) in
              ground (arith, away, apart (s.prev b) i (0 ∷ xs) before old, r.alone i old)
        ];
      })

  pub remove_from_list-absent : has b (0 ∷ xs) ≡ false → remove_from_list b s ≡ s
  unfolding remove_from_list
  remove_from_list-absent h =
      let still : (s.next b == b) ≡ true = ground (arith, r.alone b h) in rw still refl

loop-path :
    (s : Blocks) (a : ℕ) (xs : List ℕ) (fuel : ℕ)
    → IsWay s.next s.prev a xs 0
    → has 0 xs ≡ false
    → length xs < fuel
    → loop fuel (get_next a s) s ≡ some xs
unfolding loop has
loop-path s a xs zero path real h = absurd (omega (arith, h))
loop-path s a [] (suc fuel) (e, k) real h =
    let here' : (s.next a == 0) ≡ true = ground (arith, e) in rw here' refl
loop-path s a (x ∷ xs) (suc fuel) (e, k, rest) real h =
    let away : (s.next a == 0) ≡ false = ground (arith, e, real) in
    rw away (
      ap (λ i. put_first i (loop fuel (get_next i s) s)) e
      ∙ ap (put_first x) (loop-path s x xs fuel rest (ground (arith, real)) (omega (arith, h))))

-- With more fuel than there are blocks, the loop meets the blocks of the ring, in their order.
pub loop-ring :
    (s : Blocks) (xs : List ℕ) (fuel : ℕ)
    → IsRing s xs
    → length xs < fuel
    → loop fuel (front s) s ≡ some xs
loop-ring s xs fuel r h =
    let same : front s ≡ get_next 0 s = ground arith in
    ap (λ o. loop fuel o s) same ∙ loop-path s 0 xs fuel r.path r.base_apart h

-- From a block on, the loop meets the blocks behind it.
pub loop-behind :
    (s : Blocks) (b : ℕ) (done rest : List ℕ) (fuel : ℕ)
    → IsRing s (done ++ (b ∷ rest))
    → length rest < fuel
    → loop fuel (get_next b s) s ≡ some rest
unfolding has
loop-behind s b done rest fuel r h =
    loop-path s b rest fuel (IsWay-behind s.next s.prev 0 0 b done rest r.path)
      (ground (arith, has-append 0 done (b ∷ rest), r.base_apart)) h
