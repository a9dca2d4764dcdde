-- ===== src/CallbackList/Visiting.antt =====
-- A block visited by the loop that takes the elements with a tag out.
use mathlib.Core.Path.{subst}
use ipc_portable.Common.{
  ℕ, Bool, true, ◌||◌, Option, none, some, List, [], ◌∷◌, ◌++◌, ◌==◌, ◌≡◌, refl, sym, ap, ◌∙◌,
  update, has, erase_one, arith, inl, inr, Bool-cases, append-nil,
}
use ipc_portable.CallbackList.{
  CallbackList, remove, remove_found, release, detach, without, elements, put_found, visit,
}
use ipc_portable.CallbackList.Paths.{apart}
use ipc_portable.CallbackList.Elements.{elements-update, elements-detach}
use ipc_portable.CallbackList.Invariant.{IsList, detach-IsList, without-IsList}
use ipc_portable.CallbackList.Kept.{
  keep, keep-erase, keep-append, elements-after, IsDistinct-middle,
}

abbrev pub head_of : List ℕ → Option ℕ
head_of [] = none
head_of (b ∷ bs) = some b

abbrev pub HoldsFirst : List ℕ → List ℕ → Type 0
HoldsFirst [] held = Unit
HoldsFirst (b ∷ bs) held = has b held ≡ true

-- The loop has gone over the blocks `done`, which have no element with the tag, and holds the first of
-- those that are ahead.
pub record Progress (has_tag : ℕ → Bool) (es done ahead : List ℕ) (l : CallbackList) : Type 0 where
  pub list : IsList l (done ++ ahead)
  pub clean : keep has_tag (elements l.element done) ≡ elements l.element done
  pub kept : keep has_tag (elements l.element (done ++ ahead)) ≡ keep has_tag es
  pub holds : HoldsFirst ahead l.held

-- The first block ahead has been visited.
pub record Visited (has_tag : ℕ → Bool) (es done : List ℕ) (b : ℕ) (rest : List ℕ)
    (l : CallbackList) : Type 0 where
  pub list : IsList l (done ++ (b ∷ rest))
  pub clean_before : keep has_tag (elements l.element done) ≡ elements l.element done
  pub clean :
      keep has_tag (elements l.element (done ++ (b ∷ []))) ≡ elements l.element (done ++ (b ∷ []))
  pub kept : keep has_tag (elements l.element (done ++ (b ∷ rest))) ≡ keep has_tag es

release-keeps :
    (b : ℕ) (l : CallbackList)
    → (l.owned b || has b (erase_one b l.held)) ≡ true
    → release b l ≡ without b l
unfolding release
release-keeps b l keeps = rw keeps refl

module _ (has_tag : ℕ → Bool) (es done : List ℕ) (b : ℕ) (rest : List ℕ) (l : CallbackList)
    (p : Progress has_tag es done (b ∷ rest) l) where
  clean_with :
      (o : Option ℕ)
      → l.element b ≡ o
      → keep has_tag (put_found o []) ≡ put_found o []
      → keep has_tag (elements l.element (done ++ (b ∷ []))) ≡ elements l.element (done ++ (b ∷ []))
  clean_with o e clean =
      let after =
        elements-after l.element b done ∙ ap (λ o. elements l.element done ++ put_found o []) e in
      ap (keep has_tag) after
      ∙ keep-append has_tag (elements l.element done) (put_found o [])
      ∙ ap (λ xs. xs ++ keep has_tag (put_found o [])) p.clean
      ∙ ap (λ ys. elements l.element done ++ ys) clean
      ∙ sym after

  stays :
      (o : Option ℕ)
      → l.element b ≡ o
      → keep has_tag (put_found o []) ≡ put_found o []
      → Visited has_tag es done b rest l
  stays o e clean = record {
    list = p.list;
    clean_before = p.clean;
    clean = clean_with o e clean;
    kept = p.kept;
  }

  still_held : (e : ℕ) → ((detach e b l).owned b || has b (erase_one b (detach e b l).held)) ≡ true
  unfolding erase_one
  still_held e = ground (arith, p.holds)

  gone : update b none l.element b ≡ none
  gone = let self : (b == b) ≡ true = ground arith in rw self refl

  taken :
      (e : ℕ)
      → l.element b ≡ some e
      → has_tag e ≡ true
      → Visited has_tag es done b rest (remove e l)
  unfolding remove
  taken e shown tagged =
      let points = (p.list.back b e shown).0 in
      let xs = done ++ (b ∷ rest) in
      let there : has b xs ≡ true = (p.list.linked e b points).1 in
      let removed : remove e l ≡ without b (detach e b l) =
        ap (remove_found e l) points ∙ release-keeps b (detach e b l) (still_held e) in
      let behind =
        elements-update l.element b none done
          (IsDistinct-middle b done rest p.list.ring.distinct) in
      let after : elements (update b none l.element) (done ++ (b ∷ [])) ≡ elements l.element done =
        elements-after (update b none l.element) b done
        ∙ ap (λ o. elements (update b none l.element) done ++ put_found o []) gone
        ∙ append-nil (elements (update b none l.element) done)
        ∙ behind in
      subst (Visited has_tag es done b rest) (sym removed) (record {
        list =
            without-IsList (detach e b l) xs (detach-IsList l xs p.list b e points) b
              (apart b 0 xs there p.list.ring.base_apart) (still_held e);
        clean_before = ap (keep has_tag) behind ∙ p.clean ∙ sym behind;
        clean = ap (keep has_tag) after ∙ p.clean ∙ sym after;
        kept =
            ap (keep has_tag) (
              elements-detach l.element b e xs shown (λ i differ h.
                let one : some b ≡ some i = sym points ∙ (p.list.back i e h).0 in
                ground (arith, one, differ)))
            ∙ keep-erase has_tag e (elements l.element xs) tagged
            ∙ p.kept;
      })

  pub visit-Visited :
      (o : Option ℕ) → l.element b ≡ o → Visited has_tag es done b rest (visit has_tag o l)
  unfolding keep
  visit-Visited none e = stays none e refl
  visit-Visited (some x) e = elim (Bool-cases (has_tag x)) [
    | inl tagged ↦ rw tagged (taken x e tagged)
    | inr bare ↦ rw bare (stays (some x) e (rw bare refl))
  ]
