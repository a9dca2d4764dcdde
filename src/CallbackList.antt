-- ===== src/CallbackList.antt =====
-- The list of callbacks of `EventHandlerMap` (Practice/TestabilityInterfaceQt/IntegrationSut/
-- EventHandlerMap.h): control blocks with pointers to the next and the previous one, in a ring with the
-- block of the list itself, which is 0.
pub mod Paths
pub mod Assigning
pub mod Ring
pub mod Elements
pub mod Invariant
pub mod Refines
pub mod Kept
pub mod Visiting
pub mod Removing
pub mod Tests
use ipc_portable.Common.{
  ℕ, zero, suc, Bool, true, false, not, ◌||◌, Option, none, some, List, [], ◌∷◌, ◌==◌,
  if◌then◌else◌, update, has, erase_one,
}

-- `CtrlBlock`, by its address.
pub record Blocks : Type 0 where
  pub next : ℕ → ℕ
  pub prev : ℕ → ℕ

abbrev pub set_next : ℕ → ℕ → Blocks → Blocks
set_next block target s = record s { next = update block target s.next }

abbrev pub set_prev : ℕ → ℕ → Blocks → Blocks
set_prev block target s = record s { prev = update block target s.prev }

-- New blocks: each is alone.
abbrev pub new_blocks : Blocks
new_blocks = record { next = λ b. b; prev = λ b. b }

-- The block of the list.
abbrev pub base : ℕ
base = 0

-- `IsInList_Locked`.
abbrev pub is_in_list : ℕ → Blocks → Bool
is_in_list this s = not (s.next this == this)

-- `AddAfter_Locked` and `AddBefore_Locked`, assignment by assignment.
unfoldable pub add_after : ℕ → ℕ → Blocks → Blocks
add_after this element s =
    let s1 = set_prev element this s in
    let s2 = set_next element (s1.next this) s1 in
    let s3 = set_prev (s2.next this) element s2 in set_next this element s3

unfoldable pub add_before : ℕ → ℕ → Blocks → Blocks
add_before this element s =
    let s1 = set_next element this s in
    let s2 = set_prev element (s1.prev this) s1 in
    let s3 = set_next (s2.prev this) element s2 in set_prev this element s3

-- `RemoveFromList_Locked`.
unfoldable pub remove_from_list : ℕ → Blocks → Blocks
remove_from_list this s =
    if not (is_in_list this s)
    then s
    else let s1 = set_next (s.prev this) (s.next this) s in
      let s2 = set_prev (s1.next this) (s1.prev this) s1 in
      set_prev this this (set_next this this s2)

-- `Front` and `GetNext`; `none`: the end of the list.
abbrev pub get_next : ℕ → Blocks → Option ℕ
get_next current s = if s.next current == base then none else some (s.next current)

abbrev pub front : Blocks → Option ℕ
front s = if not (is_in_list base s) then none else some (s.next base)

-- The loop over the list, from `Front` on; `none`: out of fuel.
abbrev pub put_first : ℕ → Option (List ℕ) → Option (List ℕ)
put_first block none = none
put_first block (some blocks) = some (block ∷ blocks)

unfoldable pub loop : ℕ → Option ℕ → Blocks → Option (List ℕ)
loop fuel none s = some []
loop zero (some block) s = none
loop (suc fuel) (some block) s = put_first block (loop fuel (get_next block s) s)

-- The list with its elements: `m_cb` of an element, whether some `m_cb` points to a block, `element` of
-- a block, and the references to blocks that loops and `Delete_Unlocked` hold.
pub record CallbackList : Type 0 where
  pub blocks : Blocks
  pub m_cb : ℕ → Option ℕ
  pub owned : ℕ → Bool
  pub element : ℕ → Option ℕ
  pub held : List ℕ
  pub next_block : ℕ

-- A reference is given up; `~CtrlBlock` where it was the last one.
abbrev pub without : ℕ → CallbackList → CallbackList
without block l = record l { held = erase_one block l.held }

unfoldable pub release : ℕ → CallbackList → CallbackList
release block l =
    if l.owned block || has block (without block l).held
    then without block l
    else record (without block l) { blocks = remove_from_list block l.blocks }

-- `Element::RemoveFromList_Locked`: what it returns keeps the block until the end of the operation.
abbrev pub detach : ℕ → ℕ → CallbackList → CallbackList
detach element block l = record l {
  m_cb = update element none l.m_cb;
  owned = update block false l.owned;
  element = update block none l.element;
  held = block ∷ l.held;
}

-- `RemoveFromList`.
abbrev pub remove_found : ℕ → CallbackList → Option ℕ → CallbackList
remove_found element l none = l
remove_found element l (some block) = release block (detach element block l)

unfoldable pub remove : ℕ → CallbackList → CallbackList
remove element l = remove_found element l (l.m_cb element)

-- A new `CtrlBlock` for an element, put into the list by `AddBefore_Locked` or `AddAfter_Locked`.
abbrev pub new_block : ℕ → Blocks → Blocks
new_block block s = set_prev block block (set_next block block s)

abbrev pub insert_new : (ℕ → ℕ → Blocks → Blocks) → ℕ → CallbackList → CallbackList
insert_new add element l = record l {
  blocks = add base l.next_block (new_block l.next_block l.blocks);
  m_cb = update element (some l.next_block) l.m_cb;
  owned = update l.next_block true l.owned;
  element = update l.next_block (some element) l.element;
  next_block = suc l.next_block;
}

abbrev pub reuse : (ℕ → ℕ → Blocks → Blocks) → ℕ → ℕ → CallbackList → CallbackList
reuse add element block l = record l {
  blocks = add base block l.blocks;
  element = update block (some element) l.element;
}

-- `LockAddPrepare`, `PrepareAdd_Locked` and the insertion.
abbrev pub push_found : (ℕ → ℕ → Blocks → Blocks) → ℕ → CallbackList → Option ℕ → CallbackList
push_found add element l none = insert_new add element l
push_found add element l (some block) =
    if is_in_list block l.blocks
    then release block (insert_new add element (detach element block l))
    else reuse add element block l

-- `PushBack` and `PushFront`.
unfoldable pub push_back : ℕ → CallbackList → CallbackList
push_back element l = push_found add_before element l (l.m_cb element)

unfoldable pub push_front : ℕ → CallbackList → CallbackList
push_front element l = push_found add_after element l (l.m_cb element)

-- A loop takes the block where it goes, if that lives, and then gives up the one where it was.
abbrev pub hold_found : Option ℕ → CallbackList → CallbackList
hold_found none l = l
hold_found (some block) l =
    if l.owned block || has block l.held then record l { held = block ∷ l.held } else l

abbrev pub begin : CallbackList → CallbackList
begin l = hold_found (front l.blocks) l

unfoldable pub proceed : ℕ → CallbackList → CallbackList
proceed block l =
    if has block l.held then release block (hold_found (get_next block l.blocks) l) else l

-- The loop of `RemoveTagFromMap_Locked` over one list, at a block that it holds: an element that has
-- the tag is taken out. `none`: out of fuel.
abbrev pub visit : (ℕ → Bool) → Option ℕ → CallbackList → CallbackList
visit has_tag none l = l
visit has_tag (some element) l = if has_tag element then remove element l else l

abbrev pub move_on : ℕ → CallbackList → CallbackList
move_on block l = release block (hold_found (get_next block l.blocks) l)

unfoldable pub remove_loop : ℕ → (ℕ → Bool) → Option ℕ → CallbackList → Option CallbackList
remove_loop fuel has_tag none l = some l
remove_loop zero has_tag (some block) l = none
remove_loop (suc fuel) has_tag (some block) l =
    let visited = visit has_tag (l.element block) l in
    remove_loop fuel has_tag (get_next block visited.blocks) (move_on block visited)

unfoldable pub remove_tag : ℕ → (ℕ → Bool) → CallbackList → Option CallbackList
unfolding remove_loop
remove_tag fuel has_tag l = remove_loop fuel has_tag (front l.blocks) (begin l)

abbrev pub new_list : CallbackList
new_list = record {
  blocks = new_blocks;
  m_cb = λ _. none;
  owned = λ _. false;
  element = λ _. none;
  held = [];
  next_block = 1;
}

-- The elements that a loop over blocks meets: `GetElement` of a removed one is null.
abbrev pub put_found : Option ℕ → List ℕ → List ℕ
put_found none elements = elements
put_found (some element) elements = element ∷ elements

unfoldable pub elements : (ℕ → Option ℕ) → List ℕ → List ℕ
elements element [] = []
elements element (block ∷ blocks) = put_found (element block) (elements element blocks)
