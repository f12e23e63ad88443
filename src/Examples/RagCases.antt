-- ===== src/Examples/RagCases.antt =====
-- The theorems on answers and on the answer workflow at the test data.
use sourcetrace.Prelude.{
  ◌≡◌, ◌≢◌, ◌↔◌, refl, subst, list_beq, ok-injective, true, false, [], ◌∷◌, nat_eq, All, arith,
}
use sourcetrace.Retrieval.Query.{RetrievalPlan}
use sourcetrace.Rag.AnswerText.{split_answer_units}
use sourcetrace.Rag.Citation.{initial, citation_validation_trace}
use sourcetrace.Rag.Citation.Valid.{AreCited, citation_validation_trace_valid}
use sourcetrace.Rag.Workflow.Graph.{run}
use sourcetrace.Rag.Workflow.Runs.{IsRun, run-IsRun}
use sourcetrace.Rag.Workflow.Reported.{IsSoundEvent, run-IsSoundEvent}
use sourcetrace.Rag.Workflow.Steps.Gather.{PlansHaveQueries}
use sourcetrace.Examples.Values.{
  small_scores, same_case, services_of, request, label, cited_answer, two_plan,
}

plans : PlansHaveQueries small_scores same_case 100 1 (services_of false) request
plans n plan e =
    subst (λ (p : RetrievalPlan). p.queries ≢ []) (ok-injective two_plan plan e) (λ h. cc)

run-IsRun_example :
    IsRun small_scores same_case 100 1
      (services_of false)
      request
      (run small_scores same_case 100 1 (services_of false) request 25)
run-IsRun_example =
    run-IsRun small_scores same_case 100 1 (services_of false) request plans 25 (omega arith)

run-IsSoundEvent_example :
    All
      (IsSoundEvent small_scores same_case 100 1 (services_of false) request)
      (run small_scores same_case 100 1 (services_of false) request 25).1.events
run-IsSoundEvent_example =
    run-IsSoundEvent small_scores same_case 100 1 (services_of false) request plans 25 (omega arith)

citation_validation_trace_valid_example :
    ((citation_validation_trace cited_answer (label ∷ []) initial).valid ≡ true) ↔ (
      (split_answer_units cited_answer ≢ [])
      × AreCited (label ∷ []) (split_answer_units cited_answer))
citation_validation_trace_valid_example =
    citation_validation_trace_valid (label ∷ []) cited_answer initial

cited_answer_valid : (citation_validation_trace cited_answer (label ∷ []) initial).valid ≡ true
unfolding citation_validation_trace list_beq
cited_answer_valid = refl
