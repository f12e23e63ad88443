-- ===== src/Retrieval/Query.antt =====
-- The query side of modules/retrieval/service.py: normalisation, `_unique_queries`, the loops of
-- `RetrievalPlan.with_additional_queries` and of `RetrievalService.resolve_plan`.
-- Python's sets of normalised queries are lists in the order of insertion. `str.casefold` is the
-- parameter `casefold`: nothing here depends on the Unicode tables.
pub mod Valid
pub mod Plans
use sourcetrace.Prelude.{
  ℕ, zero, suc, ◌+◌, Bool, true, false, ◌||◌, Option, none, some, List, [], ◌∷◌, ◌++◌, map, ◌==◌,
  leb, if◌then◌else◌, nat_eq, list_eq, contains, length, Result, ok, err, ◌>>=◌, ◌>>◌, raise_if,
}
use sourcetrace.Text.{Text, codes, is_empty, strip, split, join}
use sourcetrace.Rag.Ports.{QueryPlanningTrace, RetrievalPlanProposal}

abbrev pub max_additional_queries : ℕ
max_additional_queries = 2

abbrev pub planner_document_title_limit : ℕ
planner_document_title_limit = 50

pub record RetrievalPlan : Type 0 where
  pub version : Text
  pub queries : List Text
  pub planning_trace : Option QueryPlanningTrace

-- What `resolve_plan` raises: its own two `ValueError`s, or what a provider raised.
pub data PlanError : Type 0 where
  blank_question missing_plan_version : PlanError
  repository_failure planner_failure : PlanError

module _ (casefold : Text → Text) where
  -- `_normalize_query`
  unfoldable pub normalize_query : Text → Text
  normalize_query query = casefold (join (codes " ") (split query))

  -- The key under which a loop remembers a query.
  abbrev pub key_of : Text → Text
  key_of query = normalize_query (strip query)

  -- `not normalized_candidate or normalized_candidate in normalized`
  abbrev pub is_skipped : List Text → Text → Bool
  is_skipped normalized key = is_empty key || contains normalized key

  -- The loop of `_unique_queries`.
  unfoldable pub unique_loop : List Text → List Text → List Text → List Text
  unique_loop unique normalized [] = unique
  unique_loop unique normalized (query ∷ queries) = elim (is_skipped normalized (key_of query)) [
    | true ↦ unique_loop unique normalized queries
    | false ↦ unique_loop (unique ++ strip query ∷ []) (normalized ++ key_of query ∷ []) queries
  ]

  unfoldable pub unique_queries : List Text → List Text
  unfolding unique_loop
  unique_queries queries = unique_loop [] [] queries

  -- The loop of `with_additional_queries`: a full plan ends it at the first new query.
  unfoldable pub accept_loop : List Text → List Text → List Text → List Text
  accept_loop accepted normalized [] = accepted
  accept_loop accepted normalized (query ∷ queries) = elim (is_skipped normalized (key_of query)) [
    | true ↦ accept_loop accepted normalized queries
    | false ↦ elim (leb (max_additional_queries + 1) (length accepted)) [
      | true ↦ accepted
      | false ↦ accept_loop (accepted ++ strip query ∷ []) (normalized ++ key_of query ∷ []) queries
    ]
  ]

  unfoldable pub with_additional_queries : RetrievalPlan → List Text → Option RetrievalPlan
  unfolding accept_loop
  with_additional_queries plan queries =
      let accepted = accept_loop plan.queries (map normalize_query plan.queries) queries in
      if length accepted == length plan.queries
      then none
      else some (record plan { queries = accepted })

  -- The loop of `resolve_plan`: the query that fills the plan ends it.
  unfoldable pub plan_loop : List Text → List Text → List Text → List Text
  plan_loop queries normalized [] = queries
  plan_loop queries normalized (query ∷ additional) = elim (is_skipped normalized (key_of query)) [
    | true ↦ plan_loop queries normalized additional
    | false ↦ elim (length (queries ++ strip query ∷ []) == max_additional_queries + 1) [
      | true ↦ queries ++ strip query ∷ []
      | false ↦ plan_loop (queries ++ strip query ∷ []) (normalized ++ key_of query ∷ []) additional
    ]
  ]

  -- `RetrievalService.resolve_plan`. `titles` is the repository's
  -- `list_searchable_document_titles` at the knowledge base, `planner` the question planner.
  unfoldable pub resolve_plan :
      Option Text
      → (ℕ → Result PlanError (List Text))
      → (Text → List Text → List Text → Result PlanError RetrievalPlanProposal)
      → Text
      → List Text
      → Result PlanError RetrievalPlan
  unfolding plan_loop
  resolve_plan none titles planner question recent = do
    raise_if (is_empty (strip question)) blank_question
    err missing_plan_version
  resolve_plan (some version) titles planner question recent = do
    raise_if (is_empty (strip question)) blank_question
    document_titles ← titles planner_document_title_limit
    proposal ← planner question recent document_titles
    let original = strip question
    ok (record {
      version = version;
      queries =
          plan_loop (original ∷ []) (normalize_query original ∷ []) proposal.additional_queries;
      planning_trace = proposal.planning_trace;
    })
