-- ===== src/Retrieval/Pages/Diverse.antt =====
-- `select_page_diverse` of modules/retrieval/service.py: how much it selects, and out of what.
use mathlib.Core.List.{append_assoc, append-nil, Perm, perm_middle, perm-append_left_iff}
use mathlib.Core.List.Perm
use sourcetrace.Prelude.{
  ℕ, ◌+◌, ◌-◌, ◌≤◌, ◌<◌, ◌≡◌, sym, ◌∙◌, ap, List, [], ◌∷◌, ◌++◌, ◌==◌, nat_eq, contains, length,
  take, drop, take_diff, arith, min, length-append, length-take, Bool-cases, inl, inr,
  take-append-drop,
}
use sourcetrace.Retrieval.Evidence.{RetrievedEvidence, pair_eq}
use sourcetrace.Retrieval.Pages.{page_of, page_loop, select_page_diverse}

abbrev Items : Type 0 → Type 0
Items Score = List (RetrievedEvidence Score)

module _ {Score : Type 0} where
  take_diff-take : (a b : ℕ) (xs : Items Score) → b ≤ a → take_diff a b xs ≡ take (a - b) xs
  unfolding take_diff
  take_diff-take a b xs h = ground arith

  page_loop-length :
      (limit : ℕ) (selected deferred : Items Score) (pages : List (ℕ × ℕ)) (evidence : Items Score)
      → length selected < limit
      → length (page_loop limit selected deferred pages evidence)
        ≡ min limit (length selected + length deferred + length evidence)
  unfolding page_loop
  page_loop-length limit selected deferred pages [] h =
      rw (take_diff-take limit (length selected) deferred (omega arith)) (
        omega (
          arith,
          length-append selected (take (limit - length selected) deferred),
          length-take (limit - length selected) deferred,
        ))
  page_loop-length limit selected deferred pages (item ∷ evidence) h = ground (
    arith,
    length-append selected (item ∷ []),
    length-append deferred (item ∷ []),
    page_loop-length limit selected (deferred ++ item ∷ []) pages evidence,
    page_loop-length limit (selected ++ item ∷ []) deferred (pages ++ page_of item ∷ []) evidence,
  )

  -- For a positive limit, select_page_diverse selects as many items as there are, up to the limit.
  pub length-select_page_diverse :
      (evidence : Items Score) (limit : ℕ)
      → 0 < limit
      → length (select_page_diverse evidence limit) ≡ min limit (length evidence)
  unfolding select_page_diverse
  length-select_page_diverse evidence limit h =
      omega (arith, page_loop-length limit [] [] [] evidence h)

  -- What the selection and its leftovers are together.
  abbrev Leaves : Items Score → Items Score → Type 0
  Leaves result all = (rest : Items Score) × Perm (result ++ rest) all

  perm_of_eq : {xs ys : Items Score} → xs ≡ ys → Perm xs ys
  perm_of_eq {xs} e = rw (← e) (Perm.refl xs)

  move_item :
      (selected deferred evidence : Items Score) (item : RetrievedEvidence Score)
      → Perm
          ((selected ++ item ∷ []) ++ (deferred ++ evidence))
          (selected ++ (deferred ++ item ∷ evidence))
  move_item selected deferred evidence item =
      rw append_assoc
        ((perm-append_left_iff selected).1 (Perm.symm (perm_middle deferred evidence)))

  page_loop-Leaves :
      (limit : ℕ) (selected deferred : Items Score) (pages : List (ℕ × ℕ)) (evidence : Items Score)
      → length selected < limit
      → Leaves
          (page_loop limit selected deferred pages evidence)
          (selected ++ (deferred ++ evidence))
  unfolding page_loop
  page_loop-Leaves limit selected deferred pages [] h =
      rw (take_diff-take limit (length selected) deferred (omega arith)) (
        drop (limit - length selected) deferred,
        perm_of_eq (
            append_assoc selected _ _
            ∙ ap (λ t. selected ++ t)
                (take-append-drop (limit - length selected) deferred ∙ sym (append-nil deferred))),
      )
  page_loop-Leaves limit selected deferred pages (item ∷ evidence) h =
      elim (Bool-cases (contains pages (page_of item))) [
        | inl seen ↦
            rw (seen, page_loop)
              (rw append_assoc at
                (page_loop-Leaves limit selected (deferred ++ item ∷ []) pages evidence h))
        | inr new ↦ elim (Bool-cases (length (selected ++ item ∷ []) == limit)) [
          | inl full ↦
              rw (new, full, page_loop)
                (deferred ++ evidence, move_item selected deferred evidence item)
          | inr room ↦
              let (rest, p) =
                page_loop-Leaves limit (selected ++ item ∷ []) deferred (pages ++ page_of item ∷ [])
                  evidence (ground (arith, length-append selected (item ∷ []))) in
              rw (new, room, page_loop)
                (rest, Perm.trans p (move_item selected deferred evidence item))
        ]
      ]

  -- For a positive limit, the selection of select_page_diverse, together with the items that it
  -- leaves out, is a permutation of the evidence.
  pub select_page_diverse-perm :
      (evidence : Items Score) (limit : ℕ)
      → 0 < limit
      → (rest : Items Score) × Perm (select_page_diverse evidence limit ++ rest) evidence
  unfolding select_page_diverse
  select_page_diverse-perm evidence limit h = page_loop-Leaves limit [] [] [] evidence h
