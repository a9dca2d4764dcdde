-- ===== src/CallbackList/Refines.antt =====
-- Insertions, removals and loops in any order, and the list of elements that they stand for.
use mathlib.Core.Path.{subst}
use ipc_portable.Common.{
  Bool, ==_iff, ℕ, ◌<◌, true, false, ◌||◌, Option, none, some, List, [], ◌∷◌, ◌++◌, length, ◌==◌,
  ◌≡◌, refl, sym, ap, ◌∙◌, update, has, erase, arith, inl, inr, Bool-cases,
}
use ipc_portable.CallbackList.{
  Blocks, CallbackList, add_before, add_after, push_back, push_front, push_found, remove,
  remove_found, begin, proceed, release, detach, insert_new, hold_found, get_next, front, new_list,
  loop, elements, without,
}
use ipc_portable.CallbackList.Paths.{apart}
use ipc_portable.CallbackList.Assigning.{erase-absent}
use ipc_portable.CallbackList.Ring.{
  add_after-IsRing, add_before-IsRing, has-append, in_list, loop-ring, loop-behind, IsRing,
}
use ipc_portable.CallbackList.Elements.{
  elements-append, elements-cons, elements-absent, elements-update, elements-detach,
}
use ipc_portable.CallbackList.Invariant.{
  Shows, Adds, fresh, insert_new-IsList, detach-IsList, hold-IsList, release-IsList, none_some,
}

pub data Operation : Type 0 where
  to_back : ℕ → Operation
  to_front : ℕ → Operation
  take_out : ℕ → Operation
  start_loop : Operation
  next_in_loop : ℕ → Operation

abbrev pub run : Operation → CallbackList → CallbackList
run (to_back e) l = push_back e l
run (to_front e) l = push_front e l
run (take_out e) l = remove e l
run start_loop l = begin l
run (next_in_loop block) l = proceed block l

-- The last operation is the head.
unfoldable pub run_all : List Operation → CallbackList
run_all [] = new_list
run_all (op ∷ ops) = run op (run_all ops)

-- What the operations mean for the elements: an element is once in the list, where it was put last.
abbrev pub listed : Operation → List ℕ → List ℕ
listed (to_back e) es = erase e es ++ (e ∷ [])
listed (to_front e) es = e ∷ erase e es
listed (take_out e) es = erase e es
listed start_loop es = es
listed (next_in_loop block) es = es

unfoldable pub listed_all : List Operation → List ℕ
listed_all [] = []
listed_all (op ∷ ops) = listed op (listed_all ops)

back-Adds : Adds add_before (λ b xs. xs ++ (b ∷ []))
unfolding has
back-Adds = record {
  add-IsRing = λ s xs r b new. add_before-IsRing s xs r b new;
  has-put = λ i b xs. ground (arith, has-append i xs (b ∷ []));
  elements-put = elements-append;
}

front-Adds : Adds add_after (λ b xs. b ∷ xs)
unfolding has
front-Adds = record {
  add-IsRing = λ s xs r b new. add_after-IsRing s xs r b new;
  has-put = λ i b xs. refl;
  elements-put = elements-cons;
}

pub release-element : (b : ℕ) (l : CallbackList) → (release b l).element ≡ l.element
unfolding release
release-element b l = elim (Bool-cases (l.owned b || has b (without b l).held)) [
  | inl keeps ↦ rw keeps refl
  | inr gone ↦ rw gone refl
]

release-Shows :
    (b : ℕ) (l : CallbackList) (es : List ℕ)
    → (b == 0) ≡ false
    → Shows l es
    → Shows (release b l) es
release-Shows b l es away s =
    let (ys, list, same, _) = release-IsList l s.ring_blocks s.list b away in
    record {
      ring_blocks = ys;
      list = list;
      shown = ap (λ el. elements el ys) (release-element b l) ∙ same ∙ s.shown;
    }

detach-Shows :
    (e b : ℕ) (l : CallbackList) (es : List ℕ)
    → l.m_cb e ≡ some b
    → Shows l es
    → Shows (detach e b l) (erase e es)
detach-Shows e b l es points s = record {
  ring_blocks = s.ring_blocks;
  list = detach-IsList l s.ring_blocks s.list b e points;
  shown =
      elements-detach l.element b e s.ring_blocks (s.list.linked e b points).0 (λ i differ h.
        let one : some b ≡ some i = sym points ∙ (s.list.back i e h).0 in
        ground (arith, one, differ))
      ∙ ap (erase e) s.shown;
}

real_block :
    (e b : ℕ) (l : CallbackList) (es : List ℕ) → l.m_cb e ≡ some b → Shows l es → (b == 0) ≡ false
real_block e b l es points s =
    apart b 0 s.ring_blocks (s.list.linked e b points).1 s.list.ring.base_apart

-- An element that points to no block is in no block.
not_shown :
    (e : ℕ) (l : CallbackList) (es : List ℕ) → l.m_cb e ≡ none → Shows l es → erase e es ≡ es
not_shown e l es free s = erase-absent e es (
    subst (λ xs. has e xs ≡ false) s.shown
      (elements-absent l.element e s.ring_blocks
        (λ i h. none_some (sym free ∙ (s.list.back i e h).0))))

module _ (add : ℕ → ℕ → Blocks → Blocks) (put : ℕ → List ℕ → List ℕ) (adds : Adds add put) where
  insert_new-Shows :
      (e : ℕ) (l : CallbackList) (es : List ℕ)
      → l.m_cb e ≡ none
      → Shows l es
      → Shows (insert_new add e l) (put e es)
  unfolding has
  insert_new-Shows e l es free s =
      let xs = s.ring_blocks in
      let new = fresh l xs s.list in
      record {
        ring_blocks = put l.next_block xs;
        list = insert_new-IsList add put adds l xs s.list e free;
        shown =
            adds.elements-put (update l.next_block (some e) l.element) l.next_block e xs
              (ground arith)
            ∙ ap (put e) (
                elements-update l.element l.next_block (some e) xs (ground (arith, new)) ∙ s.shown);
      }

  push_found-Shows :
      (e : ℕ) (l : CallbackList) (es : List ℕ) (o : Option ℕ)
      → l.m_cb e ≡ o
      → Shows l es
      → Shows (push_found add e l o) (put e (erase e es))
  push_found-Shows e l es none free s =
      subst (λ xs. Shows (insert_new add e l) (put e xs)) (sym (not_shown e l es free s))
        (insert_new-Shows e l es free s)
  push_found-Shows e l es (some b) points s =
      let there = in_list l.blocks s.ring_blocks s.list.ring b (s.list.linked e b points).1 in
      rw there (
        release-Shows b (insert_new add e (detach e b l)) (put e (erase e es))
          (real_block e b l es points s)
          (insert_new-Shows e (detach e b l) (erase e es) (ground arith)
            (detach-Shows e b l es points s)))

remove_found-Shows :
    (e : ℕ) (l : CallbackList) (es : List ℕ) (o : Option ℕ)
    → l.m_cb e ≡ o
    → Shows l es
    → Shows (remove_found e l o) (erase e es)
remove_found-Shows e l es none free s = subst (Shows l) (sym (not_shown e l es free s)) s
remove_found-Shows e l es (some b) points s =
    release-Shows b (detach e b l) (erase e es) (real_block e b l es points s)
      (detach-Shows e b l es points s)

pub hold-element : (b : ℕ) (l : CallbackList) → (hold_found (some b) l).element ≡ l.element
hold-element b l = elim (Bool-cases (l.owned b || has b l.held)) [
  | inl lives ↦ rw lives refl
  | inr dead ↦ rw dead refl
]

hold-Shows :
    (b : ℕ) (l : CallbackList) (es : List ℕ)
    → (b == 0) ≡ false
    → Shows l es
    → Shows (hold_found (some b) l) es
hold-Shows b l es away s = record {
  ring_blocks = s.ring_blocks;
  list = hold-IsList l s.ring_blocks s.list b away;
  shown = ap (λ el. elements el s.ring_blocks) (hold-element b l) ∙ s.shown;
}

pub next-Shows :
    (current : ℕ) (l : CallbackList) (es : List ℕ)
    → Shows l es
    → Shows (hold_found (get_next current l.blocks) l) es
next-Shows current l es s = elim (Bool-cases (l.blocks.next current == 0)) [
  | inl ends ↦ rw ends s
  | inr goes ↦ rw goes (hold-Shows (l.blocks.next current) l es goes s)
]

proceed-Shows :
    (block : ℕ) (l : CallbackList) (es : List ℕ) → Shows l es → Shows (proceed block l) es
unfolding proceed
proceed-Shows block l es s = elim (Bool-cases (has block l.held)) [
  | inl holds ↦
      let away : (block == 0) ≡ false = apart block 0 l.held holds (ground (arith, s.list.real)) in
      rw holds (
        release-Shows block (hold_found (get_next block l.blocks) l) es away
          (next-Shows block l es s))
  | inr free ↦ rw free s
]

pub begin-Shows : (l : CallbackList) (es : List ℕ) → Shows l es → Shows (begin l) es
begin-Shows l es s =
    let same : get_next 0 l.blocks ≡ front l.blocks = ground arith in
    subst (λ o. Shows (hold_found o l) es) same (next-Shows 0 l es s)

run-Shows :
    (op : Operation) (l : CallbackList) (es : List ℕ) → Shows l es → Shows (run op l) (listed op es)
unfolding push_back push_front remove
run-Shows (to_back e) l es s =
    push_found-Shows add_before (λ b xs. xs ++ (b ∷ [])) back-Adds e l es (l.m_cb e) refl s
run-Shows (to_front e) l es s =
    push_found-Shows add_after (λ b xs. b ∷ xs) front-Adds e l es (l.m_cb e) refl s
run-Shows (take_out e) l es s = remove_found-Shows e l es (l.m_cb e) refl s
run-Shows start_loop l es s = begin-Shows l es s
run-Shows (next_in_loop block) l es s = proceed-Shows block l es s

new_list-Shows : Shows new_list []
unfolding has elements
new_list-Shows = record {
  ring_blocks = [];
  list = record {
    ring = record { path = (refl, refl); distinct = tt; base_apart = refl; alone = λ b h. refl };
    below = λ b h. ground (arith, h);
    positive = omega arith;
    linked = λ e b h. absurd (none_some h);
    back = λ b e h. absurd (none_some h);
    alive = λ b h. ground (arith, h);
    standing = λ b h. ground (arith, h);
    real = refl;
  };
  shown = refl;
}

pub run_all-Shows : (ops : List Operation) → Shows (run_all ops) (listed_all ops)
unfolding run_all listed_all
run_all-Shows [] = new_list-Shows
run_all-Shows (op ∷ ops) = run-Shows op (run_all ops) (listed_all ops) (run_all-Shows ops)

-- A block in a list has a front and a rest.
has-split :
    (b : ℕ) (xs : List ℕ) → has b xs ≡ true → (done rest : List ℕ) × (xs ≡ done ++ (b ∷ rest))
unfolding has
has-split b [] h = cc
has-split b (x ∷ xs) h = elim (Bool-cases (b == x)) [
  | inl same ↦ ([], xs, ap (λ y. y ∷ xs) (sym ((==_iff b x).0 same)))
  | inr differ ↦
      let (done, rest, e) = has-split b xs (ground (arith, h, differ)) in
      (x ∷ done, rest, ap (λ ys. x ∷ ys) e)
]

-- After any insertions, removals, and steps of any loops, in any order: a new loop from `Front` by
-- `GetNext` ends; the blocks that it meets are exactly those that an element points to or that a loop
-- holds; and their elements are those of the abstract list, each once, in the order in which they were
-- put last. A block that a loop holds is so in the ring, also where its element has been taken out,
-- and by `GetNext` the loop goes on from it to the blocks behind it in the ring, and ends.
pub run_all-elements :
    (ops : List Operation)
    → (blocks : List ℕ) × ((fuel : ℕ)
        → length blocks < fuel
        → loop fuel (front (run_all ops).blocks) (run_all ops).blocks ≡ some blocks)
      × ((block : ℕ)
          → has block blocks ≡ ((run_all ops).owned block || has block (run_all ops).held))
      × (elements (run_all ops).element blocks ≡ listed_all ops)
      × ((block : ℕ)
          → has block (run_all ops).held ≡ true
          → (done rest : List ℕ) × (blocks ≡ done ++ (block ∷ rest))
            × ((fuel : ℕ)
                → length rest < fuel
                → loop fuel (get_next block (run_all ops).blocks) (run_all ops).blocks ≡ some rest))
run_all-elements ops =
    let s = run_all-Shows ops in
    let xs = s.ring_blocks in
    (
      xs,
      λ fuel h. loop-ring (run_all ops).blocks xs fuel s.list.ring h,
      λ block. same_bool (has block xs) _ (s.list.alive block) (s.list.standing block),
      s.shown,
      λ block holds.
          let (done, rest, e) =
            has-split block xs (s.list.standing block (ground (arith, holds))) in
          (
            done,
            rest,
            e,
            λ fuel h.
                loop-behind (run_all ops).blocks block done rest fuel
                  (subst (IsRing (run_all ops).blocks) e s.list.ring) h,
          ),
    )
  where
    same_bool : (b c : Bool) → (b ≡ true → c ≡ true) → (c ≡ true → b ≡ true) → b ≡ c
    same_bool true c f g = sym (f refl)
    same_bool false true f g = g refl
    same_bool false false f g = refl
