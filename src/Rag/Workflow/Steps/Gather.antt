-- ===== src/Rag/Workflow/Steps/Gather.antt =====
-- The nodes of rag/workflow.py that gather evidence: `_analyze`, `_retrieve`, `_assess` and
-- `_retrieve_supplemental`.
use sourcetrace.Prelude.{
  ℕ, ◌≡◌, ◌≢◌, refl, List, [], ◌∷◌, All, Result, ok, err, select, Bool-cases, inl, inr, arith,
}
use sourcetrace.Text.{Text}
use sourcetrace.Retrieval.Evidence.{Scores, RetrievedEvidence}
use sourcetrace.Retrieval.Query.{RetrievalPlan}
use sourcetrace.Rag.Workflow.State.{
  WorkflowRequest, WorkflowState, Services, PlanFailure, analyzing, retrieving, status,
}
use sourcetrace.Rag.Workflow.Nodes.{
  first_query, plan_or_raise, analyze, retrieve, retrieve_supplemental, above_minimum,
}
use sourcetrace.Rag.Workflow.Graph.{
  Node, analysis, retrieval, supplemental_retrieval, after, run_node,
}
use sourcetrace.Rag.Workflow.Rules.{
  Does, does_pure, does_bind, does_ask, does_ask_for, does_emit, does_cancel_unless,
  does_stop_provider, does_require, does_lift, IsSome,
}
use sourcetrace.Rag.Workflow.Ready.{Ready, IsStrong}
use sourcetrace.Rag.Workflow.Steps.{does_ensure_active, does_record_trace, Steps}

module _ (scores : Scores) (casefold : Text → Text) (minimum_score : scores.Score)
    (minimum_evidence : ℕ) (services : Services scores.Score) (request : WorkflowRequest) where
  open scores use {Score, lt}

  -- The evidence that is kept reaches the minimum score.
  above_minimum-IsStrong :
      (items : List (RetrievedEvidence Score))
      → All
          (IsStrong scores casefold minimum_score minimum_evidence services request)
          (above_minimum scores casefold minimum_score minimum_evidence services request items)
  unfolding select
  above_minimum-IsStrong [] = tt
  above_minimum-IsStrong (item ∷ items) = elim (Bool-cases (lt item.score minimum_score)) [
    | inl weak ↦ rw weak (above_minimum-IsStrong items)
    | inr strong ↦ rw strong (strong, above_minimum-IsStrong items)
  ]

  abbrev HasQueries : RetrievalPlan → Type 0
  HasQueries plan = plan.queries ≢ []

  abbrev pub PlansHaveQueries : Type 0
  PlansHaveQueries =
      (n : ℕ) (plan : RetrievalPlan) → services.resolve_plan n ≡ ok plan → HasQueries plan

  does_first_query :
      (queries : List Text)
      → queries ≢ []
      → Does
          (first_query scores casefold minimum_score minimum_evidence services request queries)
          (λ _. Unit {0})
  unfolding first_query
  does_first_query [] h = absurd (h refl)
  does_first_query (q ∷ qs) h = does_pure q tt

  does_plan_or_raise :
      (r : Result PlanFailure RetrievalPlan)
      → ((plan : RetrievalPlan) → r ≡ ok plan → HasQueries plan)
      → Does
          (plan_or_raise scores casefold minimum_score minimum_evidence services request r)
          HasQueries
  unfolding plan_or_raise
  does_plan_or_raise (ok plan) h = does_pure plan (h plan refl)
  does_plan_or_raise (err (PlanFailure.query_planning_failure version planning)) h =
      does_bind
        (does_record_trace scores casefold minimum_score minimum_evidence services request _)
        (λ u g. does_stop_provider)
  does_plan_or_raise (err PlanFailure.other_failure) h = does_stop_provider

  abbrev ReadyFor : Node → WorkflowState Score → Type 0
  ReadyFor = Ready scores casefold minimum_score minimum_evidence services request

  abbrev StepsAt : Node → WorkflowState Score → Type 0
  StepsAt = Steps scores casefold minimum_score minimum_evidence services request

  pub analyze-Steps :
      PlansHaveQueries → (s : WorkflowState Score) → ReadyFor analysis s → StepsAt analysis s
  unfolding run_node analyze after IsSome
  analyze-Steps plans s ready =
      does_bind (does_ensure_active scores casefold minimum_score minimum_evidence services request)
        λ _ _. does_bind (does_emit (status analyzing) tt) λ _ _.
          does_bind (does_ask_for _ services.resolve_plan (λ n. plans n)) λ resolved has.
            does_bind (does_plan_or_raise resolved has) λ plan nonempty.
              does_bind (does_first_query plan.queries nonempty) λ query _.
                does_bind (does_ask (λ n. services.record_retrieval_query n query)) λ recorded _.
                  does_bind (does_cancel_unless recorded) λ _ _.
                    does_bind
                      (does_record_trace scores casefold minimum_score minimum_evidence services
                        request _)
                      λ _ _.
                        does_pure _ (does_pure _ ((ready.0, ready.1, ready.2, tt), omega arith))

  pub retrieve-Steps : (s : WorkflowState Score) → ReadyFor retrieval s → StepsAt retrieval s
  unfolding run_node retrieve after IsSome
  retrieve-Steps s ready =
      does_bind (does_ensure_active scores casefold minimum_score minimum_evidence services request)
        λ _ _. does_bind (does_emit (status retrieving) tt) λ _ _.
          does_bind (does_require {P = λ plan. Unit {0}} s.retrieval_plan ready.3) λ plan _.
            does_bind (does_ask (λ n. services.search n plan.queries)) λ found _.
              does_bind (does_lift found) λ result _.
                does_bind
                  (does_record_trace scores casefold minimum_score minimum_evidence services request
                    _)
                  λ _ _. does_pure _ (
                    does_pure _ (
                      (ready.0, λ _. ready.2, ready.3, above_minimum-IsStrong result.evidence),
                      ground arith,
                    ))

  pub retrieve_supplemental-Steps :
      (s : WorkflowState Score)
      → ReadyFor supplemental_retrieval s
      → StepsAt supplemental_retrieval s
  unfolding run_node retrieve_supplemental after IsSome
  retrieve_supplemental-Steps s ready =
      does_bind (does_ensure_active scores casefold minimum_score minimum_evidence services request)
        λ _ _. does_bind (does_emit (status retrieving) tt) λ _ _.
          does_bind (does_require {P = λ plan. Unit {0}} s.retrieval_plan ready.2) λ plan _.
            does_bind (does_ask (λ n. services.search n plan.queries)) λ found _.
              does_bind (does_lift found) λ result _.
                does_bind
                  (does_record_trace scores casefold minimum_score minimum_evidence services request
                    _)
                  λ _ _. does_pure _ (
                    does_pure _ (
                      (ready.0, λ h. cc, ready.2, above_minimum-IsStrong result.evidence),
                      ground arith,
                    ))
