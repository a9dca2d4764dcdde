-- ===== src/CallbackList/Invariant.antt =====
-- What holds of a callback list between its operations.
use mathlib.Core.Path.{subst}
use ipc_portable.Common.{
  ℕ, ◌<◌, true, false, ◌||◌, Option, none, some, List, [], ◌∷◌, ◌==◌, ◌≡◌, ◌≢◌, ◌⊎◌, refl, sym, ap,
  ◌∙◌, update, has, erase, erase_one, has-erase, arith, inl, inr, Bool-cases, ==_iff,
}
use ipc_portable.CallbackList.{
  Blocks, CallbackList, new_block, insert_new, detach, release, without, hold_found,
  remove_from_list, elements, base,
}
use ipc_portable.CallbackList.Paths.{IsWay-same, apart}
use ipc_portable.CallbackList.Assigning.{erase-absent}
use ipc_portable.CallbackList.Ring.{IsRing, remove_from_list-IsRing, remove_from_list-absent}
use ipc_portable.CallbackList.Elements.{elements-erase}

-- The blocks `xs` form the ring; an element and the block that it points to know each other; the
-- blocks in the ring are those that live.
pub record IsList (l : CallbackList) (xs : List ℕ) : Type 0 where
  pub ring : IsRing l.blocks xs
  pub below : (b : ℕ) → has b xs ≡ true → b < l.next_block
  pub positive : 0 < l.next_block
  pub linked : (e b : ℕ) → l.m_cb e ≡ some b → (l.element b ≡ some e) × (has b xs ≡ true)
  pub back : (b e : ℕ) → l.element b ≡ some e → (l.m_cb e ≡ some b) × (l.owned b ≡ true)
  pub alive : (b : ℕ) → has b xs ≡ true → (l.owned b || has b l.held) ≡ true
  pub standing : (b : ℕ) → (l.owned b || has b l.held) ≡ true → has b xs ≡ true
  pub real : (l.owned 0 || has 0 l.held) ≡ false

-- A list in which a loop meets the elements `es`.
pub record Shows (l : CallbackList) (es : List ℕ) : Type 0 where
  pub ring_blocks : List ℕ
  pub list : IsList l ring_blocks
  pub shown : elements l.element ring_blocks ≡ es

-- The number of the next block is in no place.
pub fresh : (l : CallbackList) (xs : List ℕ) → IsList l xs → has l.next_block (0 ∷ xs) ≡ false
unfolding has
fresh l xs i = elim (Bool-cases (has l.next_block xs)) [
  | inl old ↦ absurd (omega (arith, i.below l.next_block old))
  | inr new ↦ ground (arith, new, i.positive)
]

pub new_block-IsRing :
    (s : Blocks) (b : ℕ) (xs : List ℕ)
    → IsRing s xs
    → has b (0 ∷ xs) ≡ false
    → IsRing (new_block b s) xs
unfolding has
new_block-IsRing s b xs r new = record {
  path =
      IsWay-same s.next s.prev (update b b s.next) (update b b s.prev) 0 0 xs
        (λ i h. kept i h s.next) (λ i h. kept i h s.prev) r.path;
  distinct = r.distinct;
  base_apart = r.base_apart;
  alone = λ i h. ground (arith, r.alone i h);
}
  where
    kept : (i : ℕ) → has i (0 ∷ xs) ≡ true → (f : ℕ → ℕ) → update b b f i ≡ f i
    kept i h f = ground (arith, apart i b (0 ∷ xs) h new)

pub none_some : {b : ℕ} → ◌≢◌ {A = Option ℕ} none (some b)
none_some h = cc

-- What an insertion does to the order of the blocks.
pub record Adds (add : ℕ → ℕ → Blocks → Blocks) (put : ℕ → List ℕ → List ℕ) : Type 0 where
  pub add-IsRing :
      (s : Blocks) (xs : List ℕ)
      → IsRing s xs
      → (b : ℕ) → has b (0 ∷ xs) ≡ false
      → IsRing (add base b s) (put b xs)
  pub has-put : (i b : ℕ) (xs : List ℕ) → has i (put b xs) ≡ ((i == b) || has i xs)
  pub elements-put :
      (el : ℕ → Option ℕ) (b e : ℕ) (xs : List ℕ)
      → el b ≡ some e
      → elements el (put b xs) ≡ put e (elements el xs)

module _ (add : ℕ → ℕ → Blocks → Blocks) (put : ℕ → List ℕ → List ℕ) (adds : Adds add put)
    (l : CallbackList) (xs : List ℕ) (i : IsList l xs) (e : ℕ) (free : l.m_cb e ≡ none) where
  not_free : (e1 b : ℕ) → l.m_cb e1 ≡ some b → (e == e1) ≡ false
  not_free e1 b points = elim (Bool-cases (e == e1)) [
    | inl same ↦ absurd (none_some (sym free ∙ ap l.m_cb ((==_iff e e1).0 same) ∙ points))
    | inr differ ↦ differ
  ]

  pub insert_new-IsList : IsList (insert_new add e l) (put l.next_block xs)
  unfolding has
  insert_new-IsList = record {
    ring =
        adds.add-IsRing (new_block l.next_block l.blocks) xs
          (new_block-IsRing l.blocks l.next_block xs i.ring (fresh l xs i)) l.next_block
          (fresh l xs i);
    below = λ b h. ground (arith, adds.has-put b l.next_block xs, h, i.below b);
    positive = omega arith;
    linked = λ e1 b h. elim (Bool-cases (e == e1)) [
      | inl same ↦
          let points : some l.next_block ≡ some b = ground (arith, same, h) in
          let met : l.next_block ≡ b = ground (arith, points) in
          (
            ground (arith, met, (==_iff e e1).0 same),
            ground (arith, met, adds.has-put b l.next_block xs),
          )
      | inr differ ↦
          let points : l.m_cb e1 ≡ some b = ground (arith, differ, h) in
          let (with_element, there) = i.linked e1 b points in
          (
            ground (arith, with_element, i.below b there),
            ground (arith, there, adds.has-put b l.next_block xs),
          )
    ];
    back = λ b e1 h. elim (Bool-cases (l.next_block == b)) [
      | inl same ↦
          let met : some e ≡ some e1 = ground (arith, same, h) in
          let one : e ≡ e1 = ground (arith, met) in
          (ground (arith, one, (==_iff l.next_block b).0 same), ground (arith, same))
      | inr differ ↦
          let (points, owned) = i.back b e1 (ground (arith, differ, h)) in
          let other : (e == e1) ≡ false = not_free e1 b points in
          (ground (arith, other, points), ground (arith, differ, owned))
    ];
    alive = λ b h. ground (arith, adds.has-put b l.next_block xs, h, i.alive b);
    standing = λ b h. ground (arith, adds.has-put b l.next_block xs, h, i.standing b);
    real = ground (arith, i.real, i.positive);
  }

pub erase_one-other : (i b : ℕ) (xs : List ℕ) → (b == i) ≡ false → has i (erase_one b xs) ≡ has i xs
unfolding has erase_one
erase_one-other i b [] differ = refl
erase_one-other i b (x ∷ xs) differ = ground (arith, differ, erase_one-other i b xs differ)

erase_one-has : (i b : ℕ) (xs : List ℕ) → has i (erase_one b xs) ≡ true → has i xs ≡ true
unfolding has erase_one
erase_one-has i b [] h = h
erase_one-has i b (x ∷ xs) h = ground (arith, h, erase_one-has i b xs)

true-false : true ≢ false
true-false h = cc

-- Two blocks with different elements are two.
differ_by :
    (el : ℕ → Option ℕ) (b b1 : ℕ) (o o1 : Option ℕ)
    → el b ≡ o
    → el b1 ≡ o1
    → o ≢ o1
    → (b == b1) ≡ false
differ_by el b b1 o o1 h h1 k = elim (Bool-cases (b == b1)) [
  | inl same ↦ absurd (k (sym h ∙ ap el ((==_iff b b1).0 same) ∙ h1))
  | inr differ ↦ differ
]

module _ (l : CallbackList) (xs : List ℕ) (i : IsList l xs) (b : ℕ) where
  pub detach-IsList : (e : ℕ) → l.m_cb e ≡ some b → IsList (detach e b l) xs
  unfolding has
  detach-IsList e points = record {
    ring = i.ring;
    below = i.below;
    positive = i.positive;
    linked = λ e1 b1 h. elim (Bool-cases (e == e1)) [
      | inl same ↦ absurd (none_some {b = b1} (ground (arith, same, h)))
      | inr differ ↦
          let (with_element, there) = i.linked e1 b1 (ground (arith, differ, h)) in
          let moved : (b == b1) ≡ false =
            differ_by l.element b b1 (some e) (some e1) (i.linked e b points).0 with_element
              (λ h. ground (arith, h, differ)) in
          (ground (arith, moved, with_element), there)
    ];
    back = λ b1 e1 h. elim (Bool-cases (b == b1)) [
      | inl same ↦ absurd (none_some {b = e1} (ground (arith, same, h)))
      | inr differ ↦
          let (points1, owned) = i.back b1 e1 (ground (arith, differ, h)) in
          let moved : (e == e1) ≡ false =
            differ_by l.m_cb e e1 (some b) (some b1) points points1
              (λ h. ground (arith, h, differ)) in
          (ground (arith, moved, points1), ground (arith, differ, owned))
    ];
    alive = λ b1 h. ground (arith, i.alive b1 h);
    standing = λ b1 h. elim (Bool-cases (b == b1)) [
      | inl same ↦ subst (λ j. has j xs ≡ true) ((==_iff b b1).0 same) (i.linked e b points).1
      | inr differ ↦ ground (arith, h, differ, i.standing b1)
    ];
    real = ground (arith, i.real, apart b 0 xs (i.linked e b points).1 i.ring.base_apart);
  }

  pub hold-IsList : (b == 0) ≡ false → IsList (hold_found (some b) l) xs
  unfolding has
  hold-IsList away = elim (Bool-cases (l.owned b || has b l.held)) [
    | inl lives ↦ rw lives (record {
      ring = i.ring;
      below = i.below;
      positive = i.positive;
      linked = i.linked;
      back = i.back;
      alive = λ b1 h. ground (arith, i.alive b1 h);
      standing = λ b1 h. elim (Bool-cases (b == b1)) [
        | inl same ↦ subst (λ j. has j xs ≡ true) ((==_iff b b1).0 same) (i.standing b lives)
        | inr differ ↦ ground (arith, h, differ, i.standing b1)
      ];
      real = ground (arith, i.real, away);
    })
    | inr dead ↦ rw dead i
  ]

  without-alive :
      (b1 : ℕ)
      → (b == b1) ≡ false
      → has b1 xs ≡ true
      → (l.owned b1 || has b1 (erase_one b l.held)) ≡ true
  without-alive b1 differ h = ground (arith, i.alive b1 h, erase_one-other b1 b l.held differ)

  lived :
      (b1 : ℕ)
      → (l.owned b1 || has b1 (erase_one b l.held)) ≡ true
      → (l.owned b1 || has b1 l.held) ≡ true
  lived b1 h = ground (arith, h, erase_one-has b1 b l.held)

  pub without-IsList :
      (b == 0) ≡ false → (l.owned b || has b (erase_one b l.held)) ≡ true → IsList (without b l) xs
  without-IsList away keeps = record {
    ring = i.ring;
    below = i.below;
    positive = i.positive;
    linked = i.linked;
    back = i.back;
    alive = λ b1 h. elim (Bool-cases (b == b1)) [
      | inl same ↦
          subst (λ j. (l.owned j || has j (erase_one b l.held)) ≡ true) ((==_iff b b1).0 same) keeps
      | inr differ ↦ without-alive b1 differ h
    ];
    standing = λ b1 h. i.standing b1 (lived b1 h);
    real = ground (arith, i.real, erase_one-other 0 b l.held away);
  }

  unseen : l.owned b ≡ false → l.element b ≡ none
  unseen gone = go (l.element b) refl
    where
      go : (o : Option ℕ) → l.element b ≡ o → o ≡ none
      go none e = refl
      go (some x) e = absurd (true-false (sym (i.back b x e).1 ∙ gone))

  unlinked : (b == 0) ≡ false → IsRing (remove_from_list b l.blocks) (erase b xs)
  unfolding has
  unlinked away = elim (Bool-cases (has b xs)) [
    | inl there ↦ remove_from_list-IsRing l.blocks xs i.ring b there
    | inr absent ↦
        subst (λ ys. IsRing (remove_from_list b l.blocks) ys) (sym (erase-absent b xs absent))
          (subst (λ s. IsRing s xs)
            (sym (remove_from_list-absent l.blocks xs i.ring b (ground (arith, away, absent))))
            i.ring)
  ]

  dead_apart :
      (b1 : ℕ)
      → (l.owned b1 || has b1 (erase_one b l.held)) ≡ true
      → (l.owned b || has b (erase_one b l.held)) ≡ false
      → (b1 == b) ≡ false
  dead_apart b1 lives dead = elim (Bool-cases (b1 == b)) [
    | inl same ↦ absurd (
        true-false (
          sym lives
          ∙ ap (λ j. l.owned j || has j (erase_one b l.held)) ((==_iff b1 b).0 same)
          ∙ dead))
    | inr differ ↦ differ
  ]

  pub release-IsList :
      (b == 0) ≡ false
      → (ys : List ℕ) × IsList (release b l) ys
        × (elements l.element ys ≡ elements l.element xs)
        × ((ys ≡ xs) ⊎ ((ys ≡ erase b xs) × (l.element b ≡ none)))
  unfolding release
  release-IsList away = elim (Bool-cases (l.owned b || has b (erase_one b l.held))) [
    | inl keeps ↦ rw keeps (xs, without-IsList away keeps, refl, inl refl)
    | inr gone ↦
        let bare = unseen (ground (arith, gone)) in
        rw gone (
          erase b xs,
          record {
            ring = unlinked away;
            below = λ b1 h. i.below b1 (ground (arith, h, has-erase b1 b xs));
            positive = i.positive;
            linked = λ e1 b1 h.
                let (with_element, there) = i.linked e1 b1 h in
                let other : (b1 == b) ≡ false =
                  differ_by l.element b1 b (some e1) none with_element bare
                    (λ h. none_some (sym h)) in
                (with_element, ground (arith, there, other, has-erase b1 b xs));
            back = i.back;
            alive = λ b1 h.
                without-alive b1 (ground (arith, h, has-erase b1 b xs))
                  (ground (arith, h, has-erase b1 b xs));
            standing = λ b1 h.
                let other : (b1 == b) ≡ false = dead_apart b1 h gone in
                ground (arith, i.standing b1 (lived b1 h), other, has-erase b1 b xs);
            real = ground (arith, i.real, erase_one-other 0 b l.held away);
          },
          elements-erase l.element b xs bare,
          inr (refl, bare),
        )
  ]
