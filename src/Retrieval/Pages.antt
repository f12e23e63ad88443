-- ===== src/Retrieval/Pages.antt =====
-- `select_page_diverse` of modules/retrieval/service.py.
pub mod Diverse
pub mod Represented
use sourcetrace.Prelude.{
  ℕ, ◌+◌, ◌-◌, Bool, true, false, List, [], ◌∷◌, ◌++◌, map, ◌==◌, nat_eq, contains, length,
  take_diff,
}
use sourcetrace.Retrieval.Evidence.{RetrievedEvidence, pair_eq}

module _ {Score : Type 0} where
  abbrev pub page_of : RetrievedEvidence Score → ℕ × ℕ
  page_of item = (item.document_version_id, item.page_number)

  -- The loop. `pages` is the set `selected_pages` in the order of insertion.
  unfoldable pub page_loop :
      ℕ
      → List (RetrievedEvidence Score)
      → List (RetrievedEvidence Score)
      → List (ℕ × ℕ)
      → List (RetrievedEvidence Score)
      → List (RetrievedEvidence Score)
  page_loop limit selected deferred pages [] =
      selected ++ take_diff limit (length selected) deferred
  page_loop limit selected deferred pages (item ∷ evidence) = elim (contains pages (page_of item)) [
    | true ↦ page_loop limit selected (deferred ++ item ∷ []) pages evidence
    | false ↦ elim (length (selected ++ item ∷ []) == limit) [
      | true ↦ selected ++ item ∷ []
      | false ↦
          page_loop limit (selected ++ item ∷ []) deferred (pages ++ page_of item ∷ []) evidence
    ]
  ]

  unfoldable pub select_page_diverse :
      List (RetrievedEvidence Score) → ℕ → List (RetrievedEvidence Score)
  unfolding page_loop
  select_page_diverse evidence limit = page_loop limit [] [] [] evidence
