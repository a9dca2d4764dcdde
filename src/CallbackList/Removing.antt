-- ===== src/CallbackList/Removing.antt =====
-- The loop that takes the elements with a tag out of the list that it goes through.
use mathlib.Core.Path.{subst}
use ipc_portable.Common.{
  ℕ, zero, suc, ◌<◌, Bool, true, false, ◌||◌, some, List, [], ◌∷◌, ◌++◌, length, ◌==◌, ◌≡◌, refl,
  sym, ap, ◌∙◌, has, erase_one, arith, inl, inr, Bool-cases, append_assoc, append-nil,
}
use ipc_portable.CallbackList.{
  Blocks, CallbackList, release, without, hold_found, get_next, front, elements, visit, remove_loop,
  remove_tag, loop,
}
use ipc_portable.CallbackList.Paths.{apart}
use ipc_portable.CallbackList.Ring.{IsRing, has-append, loop-ring}
use ipc_portable.CallbackList.Invariant.{
  IsList, Shows, hold-IsList, release-IsList, erase_one-other,
}
use ipc_portable.CallbackList.Refines.{
  Operation, run_all, listed_all, run_all-Shows, release-element, hold-element,
}
use ipc_portable.CallbackList.Kept.{keep, IsWay-middle, erase-middle, IsDistinct-next}
use ipc_portable.CallbackList.Visiting.{head_of, HoldsFirst, Progress, Visited, visit-Visited}

release-held : (b : ℕ) (l : CallbackList) → (release b l).held ≡ erase_one b l.held
unfolding release
release-held b l = elim (Bool-cases (l.owned b || has b (without b l).held)) [
  | inl keeps ↦ rw keeps refl
  | inr gone ↦ rw gone refl
]

-- The next block is held, and the visited one given up.
module _ (has_tag : ℕ → Bool) (es done : List ℕ) (b : ℕ) (rest : List ℕ) (l : CallbackList)
    (v : Visited has_tag es done b rest l) where
  give_up :
      (l2 : CallbackList)
      → IsList l2 (done ++ (b ∷ rest))
      → l2.element ≡ l.element
      → HoldsFirst rest (erase_one b l2.held)
      → (done' : List ℕ) × Progress has_tag es done' rest (release b l2)
  unfolding has
  give_up l2 list same holds =
      let xs = done ++ (b ∷ rest) in
      let there : has b xs ≡ true = ground (arith, has-append b done (b ∷ rest)) in
      let (ys, list', shown, which) =
        release-IsList l2 xs list b (apart b 0 xs there list.ring.base_apart) in
      let elements_of = release-element b l2 ∙ same in
      let holds' = subst (HoldsFirst rest) (sym (release-held b l2)) holds in
      let kept : keep has_tag (elements (release b l2).element ys) ≡ keep has_tag es =
        ap (λ el. keep has_tag (elements el ys)) (release-element b l2)
        ∙ ap (keep has_tag) shown
        ∙ ap (λ el. keep has_tag (elements el xs)) same
        ∙ v.kept in
      elim which [
        | inl stays ↦
            let as_done : ys ≡ (done ++ (b ∷ [])) ++ rest =
              stays ∙ sym (append_assoc done (b ∷ []) rest) in
            (
              done ++ (b ∷ []),
              record {
                list = subst (IsList (release b l2)) as_done list';
                clean =
                    subst
                      (λ el.
                        keep has_tag (elements el (done ++ (b ∷ [])))
                        ≡ elements el (done ++ (b ∷ [])))
                      (sym elements_of) v.clean;
                kept =
                    subst
                      (λ zs. keep has_tag (elements (release b l2).element zs) ≡ keep has_tag es)
                      as_done kept;
                holds = holds';
              },
            )
        | inr (leaves, bare) ↦
            let as_done : ys ≡ done ++ rest =
              leaves ∙ erase-middle b done rest list.ring.distinct in
            (
              done,
              record {
                list = subst (IsList (release b l2)) as_done list';
                clean =
                    subst (λ el. keep has_tag (elements el done) ≡ elements el done)
                      (sym elements_of) v.clean_before;
                kept =
                    subst
                      (λ zs. keep has_tag (elements (release b l2).element zs) ≡ keep has_tag es)
                      as_done kept;
                holds = holds';
              },
            )
      ]

move_on-Progress :
    (has_tag : ℕ → Bool) (es done : List ℕ) (b : ℕ) (rest : List ℕ) (l : CallbackList)
    → Visited has_tag es done b rest l
    → (done' : List ℕ) × Progress has_tag es done' rest (release b (hold_found (head_of rest) l))
unfolding has
move_on-Progress has_tag es done b [] l v = give_up has_tag es done b [] l v l v.list refl tt
move_on-Progress has_tag es done b (c ∷ rest) l v =
    let xs = done ++ (b ∷ c ∷ rest) in
    let there : has c xs ≡ true = ground (arith, has-append c done (b ∷ c ∷ rest)) in
    let lives = v.list.alive c there in
    give_up has_tag es done b (c ∷ rest) l v (hold_found (some c) l)
      (hold-IsList l xs v.list c (apart c 0 xs there v.list.ring.base_apart)) (hold-element c l)
      (rw lives (
        ground (
          arith,
          erase_one-other c b (c ∷ l.held) (IsDistinct-next b c done rest v.list.ring.distinct),
        )))

next_of :
    (l : CallbackList) (done : List ℕ) (b : ℕ) (rest : List ℕ)
    → IsList l (done ++ (b ∷ rest))
    → get_next b l.blocks ≡ head_of rest
unfolding has
next_of l done b [] list =
    let ends = IsWay-middle l.blocks.next l.blocks.prev 0 0 b done [] list.ring.path in
    let at_base : (l.blocks.next b == 0) ≡ true = ground (arith, ends) in rw at_base refl
next_of l done b (c ∷ rest) list =
    let goes = IsWay-middle l.blocks.next l.blocks.prev 0 0 b done (c ∷ rest) list.ring.path in
    let there : has c (done ++ (b ∷ c ∷ rest)) ≡ true =
      ground (arith, has-append c done (b ∷ c ∷ rest)) in
    let away : (l.blocks.next b == 0) ≡ false =
      ground (arith, goes, apart c 0 (done ++ (b ∷ c ∷ rest)) there list.ring.base_apart) in
    rw away (ap some goes)

remove_loop-Progress :
    (has_tag : ℕ → Bool) (es done ahead : List ℕ) (fuel : ℕ) (l : CallbackList)
    → length ahead < fuel
    → Progress has_tag es done ahead l
    → (l' : CallbackList) × (remove_loop fuel has_tag (head_of ahead) l ≡ some l')
      × Shows l' (keep has_tag es)
unfolding remove_loop
remove_loop-Progress has_tag es done ahead zero l h p = absurd (omega (arith, h))
remove_loop-Progress has_tag es done [] (suc fuel) l h p =
    let all = append-nil done in
    (
      l,
      refl,
      record {
        ring_blocks = done ++ [];
        list = p.list;
        shown =
            ap (elements l.element) all
            ∙ sym p.clean
            ∙ ap (λ xs. keep has_tag (elements l.element xs)) (sym all)
            ∙ p.kept;
      },
    )
remove_loop-Progress has_tag es done (b ∷ rest) (suc fuel) l h p =
    let visited = visit has_tag (l.element b) l in
    let v = visit-Visited has_tag es done b rest l p (l.element b) refl in
    let (done', p') = move_on-Progress has_tag es done b rest visited v in
    let (l', e, s) =
      remove_loop-Progress has_tag es done' rest fuel
        (release b (hold_found (head_of rest) visited)) (omega (arith, h)) p' in
    (
      l',
      ap (λ o. remove_loop fuel has_tag o (release b (hold_found o visited)))
            (next_of visited done b rest v.list)
          ∙ e,
      s,
    )

front_of : (s : Blocks) (xs : List ℕ) → IsRing s xs → front s ≡ head_of xs
unfolding has
front_of s [] r = let ends : (s.next 0 == 0) ≡ true = ground (arith, r.path.0) in rw ends refl
front_of s (x ∷ xs) r =
    let goes = r.path.0 in
    let away : (s.next 0 == 0) ≡ false = ground (arith, goes, r.base_apart) in
    rw away (ap some goes)

begin-Progress :
    (has_tag : ℕ → Bool) (es xs : List ℕ) (l : CallbackList)
    → IsList l xs
    → elements l.element xs ≡ es
    → Progress has_tag es [] xs (hold_found (head_of xs) l)
unfolding has keep elements
begin-Progress has_tag es [] l list shown = record {
  list = list;
  clean = refl;
  kept = ap (keep has_tag) shown;
  holds = tt;
}
begin-Progress has_tag es (x ∷ xs) l list shown =
    let there : has x (x ∷ xs) ≡ true = ground arith in
    let lives = list.alive x there in
    record {
      list = hold-IsList l (x ∷ xs) list x (apart x 0 (x ∷ xs) there list.ring.base_apart);
      clean = refl;
      kept =
          ap (λ el. keep has_tag (elements el (x ∷ xs))) (hold-element x l)
          ∙ ap (keep has_tag) shown;
      holds = rw lives (ground arith);
    }

-- The loop of `ClearHandlersWithTag` over one list, after any insertions, removals, and steps of other
-- loops, while it takes out of the list what it meets there: it ends, with any fuel beyond the number
-- of blocks that a loop would have met before, and what a new loop then meets are the elements without
-- the tag, all of them, in their order.
pub remove_tag-keeps :
    (ops : List Operation) (has_tag : ℕ → Bool)
    → (before : List ℕ) × ((more : ℕ)
        → length before < more
        → loop more (front (run_all ops).blocks) (run_all ops).blocks ≡ some before)
      × ((fuel : ℕ)
          → length before < fuel
          → (l : CallbackList) × (blocks : List ℕ) × (remove_tag fuel has_tag (run_all ops)
              ≡ some l)
            × ((more : ℕ)
                → length blocks < more
                → loop more (front l.blocks) l.blocks ≡ some blocks)
            × (elements l.element blocks ≡ keep has_tag (listed_all ops)))
unfolding remove_tag
remove_tag-keeps ops has_tag =
    let s = run_all-Shows ops in
    let xs = s.ring_blocks in
    (
      xs,
      λ more k. loop-ring (run_all ops).blocks xs more s.list.ring k,
      λ fuel h.
          let (l, e, shows) =
            remove_loop-Progress has_tag (listed_all ops) [] xs fuel
              (hold_found (head_of xs) (run_all ops)) h
              (begin-Progress has_tag (listed_all ops) xs (run_all ops) s.list s.shown) in
          (
            l,
            shows.ring_blocks,
            ap (λ o. remove_loop fuel has_tag o (hold_found o (run_all ops)))
                  (front_of (run_all ops).blocks xs s.list.ring)
                ∙ e,
            λ more k. loop-ring l.blocks shows.ring_blocks more shows.list.ring k,
            shows.shown,
          ),
    )
