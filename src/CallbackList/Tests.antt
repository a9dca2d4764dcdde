-- ===== src/CallbackList/Tests.antt =====
-- Three callbacks, one of which is taken out by a loop that is at its block.
use ipc_portable.Common.{
  ℕ, ◌<◌, ◌||◌, Bool, not, ◌%◌, ◌==◌, true, some, List, [], ◌∷◌, ◌++◌, length, ◌≡◌, refl, has,
  erase, erase_one,
}
use ipc_portable.CallbackList.{
  add_before, add_after, push_back, push_front, remove, release, remove_from_list, front, loop,
  get_next, elements, proceed,
}
use ipc_portable.CallbackList.{CallbackList, remove_tag}
use ipc_portable.CallbackList.Kept.{keep}
use ipc_portable.CallbackList.Removing.{remove_tag-keeps}
use ipc_portable.CallbackList.Refines.{
  Operation, to_back, to_front, take_out, start_loop, next_in_loop, run_all, listed_all,
  run_all-elements,
}

-- The elements 7 and 8 behind 6; the loop is at the block of 6, its element is taken out, and the
-- loop goes on. The last operation is the head.
abbrev taken : List Operation
taken = take_out 6 ∷ start_loop ∷ to_front 6 ∷ to_back 8 ∷ to_back 7 ∷ []

abbrev gone_on : List Operation
gone_on = next_in_loop 3 ∷ taken

taken-linked : loop 9 (front (run_all taken).blocks) (run_all taken).blocks ≡ some (3 ∷ 1 ∷ 2 ∷ [])
unfolding run_all loop push_back push_front remove release add_before add_after remove_from_list has
    erase_one
taken-linked = refl

gone_on-unlinked :
    loop 9 (front (run_all gone_on).blocks) (run_all gone_on).blocks ≡ some (1 ∷ 2 ∷ [])
unfolding run_all loop push_back push_front remove release add_before add_after remove_from_list has
    erase_one proceed
gone_on-unlinked = refl

gone_on-listed : listed_all gone_on ≡ 7 ∷ 8 ∷ []
unfolding listed_all erase
gone_on-listed = refl

run_all-elements_example :
    (blocks : List ℕ) × ((fuel : ℕ)
      → length blocks < fuel
      → loop fuel (front (run_all taken).blocks) (run_all taken).blocks ≡ some blocks)
    × ((block : ℕ)
        → has block blocks ≡ ((run_all taken).owned block || has block (run_all taken).held))
    × (elements (run_all taken).element blocks ≡ listed_all taken)
    × ((block : ℕ)
        → has block (run_all taken).held ≡ true
        → (done rest : List ℕ) × (blocks ≡ done ++ (block ∷ rest))
          × ((fuel : ℕ)
              → length rest < fuel
              → loop fuel (get_next block (run_all taken).blocks) (run_all taken).blocks
                ≡ some rest))
run_all-elements_example = run_all-elements taken

taken-held : (run_all taken).held ≡ 3 ∷ []
unfolding run_all push_back push_front remove release has erase_one add_after
taken-held = refl

-- Odd elements have the tag.
abbrev is_odd : ℕ → Bool
is_odd e = not (e % 2 == 0)

gone_on-kept : keep is_odd (listed_all gone_on) ≡ 8 ∷ []
unfolding keep listed_all erase
gone_on-kept = refl

remove_tag-keeps_example :
    (before : List ℕ) × ((more : ℕ)
      → length before < more
      → loop more (front (run_all gone_on).blocks) (run_all gone_on).blocks ≡ some before)
    × ((fuel : ℕ)
        → length before < fuel
        → (l : CallbackList) × (blocks : List ℕ) × (remove_tag fuel is_odd (run_all gone_on)
            ≡ some l)
          × ((more : ℕ) → length blocks < more → loop more (front l.blocks) l.blocks ≡ some blocks)
          × (elements l.element blocks ≡ keep is_odd (listed_all gone_on)))
remove_tag-keeps_example = remove_tag-keeps gone_on is_odd
