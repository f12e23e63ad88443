-- ===== src/Rag/Workflow/Runs.antt =====
-- `AnswerWorkflow.run` of rag/workflow.py as a whole.
use sourcetrace.Prelude.{ℕ, zero, suc, ◌≤◌, ◌<◌, refl, Option, none, some, Result, ok, err, arith}
use sourcetrace.Text.{Text}
use sourcetrace.Retrieval.Evidence.{Scores}
use sourcetrace.Rag.Workflow.State.{
  WorkflowRequest, WorkflowState, Services, Failure, provider_error, Stop, cancellation, failure,
  WorkflowEvent, answered, refused, cancelled, World, Run, initial_state, pure, ◌>>=◌,
}
use sourcetrace.Rag.Workflow.Nodes.{give_answer, refuse}
use sourcetrace.Rag.Workflow.Graph.{
  Node, analysis, retrieval, evidence_assessment, supplemental_retrieval, generation,
  citation_validation, claim_support_validation, citation_repair, answer_language_validation,
  answer, refusal, after, run_node, drive, close, initial_world, run,
}
use sourcetrace.Rag.Workflow.Rules.{
  Quiet, Closed, closed_by, After, Leaves, does_bind, does_close, does_require, does_require_eq,
  leaves_done, IsSome,
}
use sourcetrace.Rag.Workflow.Ready.{Ready, IsGrounded, steps_left}
use sourcetrace.Rag.Workflow.Steps.{does_ensure_active, Steps}
use sourcetrace.Rag.Workflow.Steps.Gather.{
  PlansHaveQueries, analyze-Steps, retrieve-Steps, retrieve_supplemental-Steps,
}
use sourcetrace.Rag.Workflow.Steps.Assess.{assess_evidence-Steps}
use sourcetrace.Rag.Workflow.Steps.Answering.{
  generate-Steps, validate_claim_support-Steps, repair_citations-Steps,
}
use sourcetrace.Rag.Workflow.Steps.Checking.{
  validate_citations-Steps, validate_answer_language-Steps,
}

module _ (scores : Scores) (casefold : Text → Text) (minimum_score : scores.Score)
    (minimum_evidence : ℕ) (services : Services scores.Score) (request : WorkflowRequest) where
  open scores use {Score, lt}

  abbrev ReadyFor : Node → WorkflowState Score → Type 0
  ReadyFor = Ready scores casefold minimum_score minimum_evidence services request

  -- An event that a run may end with.
  abbrev pub IsFinal : WorkflowEvent Score → Type 0
  IsFinal (answered text cited) =
      IsGrounded scores casefold minimum_score minimum_evidence services request text cited
  IsFinal (refused code) = Unit
  IsFinal cancelled = Unit
  IsFinal _ = ⊥

  abbrev Ends : Run Score (Unit {0}) → Type 0
  Ends m = Leaves (λ w. Closed IsFinal w.events) m (λ _. Unit {0})

  give_answer-Ends :
      (fuel : ℕ) (s : WorkflowState Score)
      → ReadyFor answer s
      → Ends (
          drive scores casefold minimum_score minimum_evidence services request (suc fuel) answer s)
  unfolding drive run_node give_answer after ◌>>=◌
  give_answer-Ends fuel s (text, cited, at_text, at_cited, grounded) =
      leaves_done _
        (does_bind
          (does_ensure_active scores casefold minimum_score minimum_evidence services request)
          λ _ _. does_bind (does_require_eq s.answer text at_text) λ text' same_text.
            does_bind (does_require_eq s.cited_evidence cited at_cited) λ cited' same_cited.
              does_close IsFinal {P = λ _. Unit {0}} (answered text' cited') s
                (rw (same_text, same_cited) grounded) tt)
        (λ s' w. (tt, refl))

  refuse-Ends :
      (fuel : ℕ) (s : WorkflowState Score)
      → ReadyFor refusal s
      → Ends (
          drive scores casefold minimum_score minimum_evidence services request
            (suc fuel)
            refusal
            s)
  unfolding drive run_node refuse after ◌>>=◌
  refuse-Ends fuel s ready =
      leaves_done _
        (does_bind
          (does_ensure_active scores casefold minimum_score minimum_evidence services request)
          λ _ _.
            does_bind (does_require s.refusal_code ready)
              λ code _. does_close IsFinal {P = λ _. Unit {0}} (refused code) s tt tt)
        (λ s' w. (tt, refl))

  -- What is still to be shown of the nodes after this one.
  abbrev EndsWith : ℕ → Type 0
  EndsWith fuel =
      (node : Node) (s : WorkflowState Score)
      → ReadyFor node s
      → steps_left scores casefold minimum_score minimum_evidence services request node s ≤ fuel
      → Ends (drive scores casefold minimum_score minimum_evidence services request fuel node s)

  next-Ends :
      (fuel bound : ℕ) (s : WorkflowState Score) (next : Option Node)
      → EndsWith fuel
      → bound ≤ suc fuel
      → IsSome
          (λ node.
            ReadyFor node s
            × (steps_left scores casefold minimum_score minimum_evidence services request node s
                < bound))
          next
      → Ends (elim next [
        | none ↦ pure tt
        | some node ↦
            drive scores casefold minimum_score minimum_evidence services request fuel node s
      ])
  unfolding IsSome
  next-Ends fuel bound s none rest enough h = absurd h
  next-Ends fuel bound s (some node) rest enough h = rest node s h.0 (omega arith)

  step-Ends :
      (fuel : ℕ) (node : Node) (s : WorkflowState Score)
      → EndsWith fuel
      → Steps scores casefold minimum_score minimum_evidence services request node s
      → steps_left scores casefold minimum_score minimum_evidence services request node s ≤ suc fuel
      → Ends
          (drive scores casefold minimum_score minimum_evidence services request (suc fuel) node s)
  unfolding drive
  step-Ends fuel node s rest steps enough = does_bind steps λ s' goes. does_bind goes λ next ready.
      next-Ends fuel
        (steps_left scores casefold minimum_score minimum_evidence services request node s) s' next
        rest enough ready

  steps_left_positive :
      (node : Node) (s : WorkflowState Score)
      → 0 < steps_left scores casefold minimum_score minimum_evidence services request node s
  steps_left_positive node s = ground arith

  drive-EndsWith :
      PlansHaveQueries scores casefold minimum_score minimum_evidence services request
      → (fuel : ℕ) → EndsWith fuel
  drive-EndsWith plans zero node s ready enough = absurd (omega (arith, steps_left_positive node s))
  drive-EndsWith plans (suc fuel) analysis s ready enough =
      step-Ends fuel analysis s (drive-EndsWith plans fuel)
        (analyze-Steps scores casefold minimum_score minimum_evidence services request plans s
          ready)
        enough
  drive-EndsWith plans (suc fuel) retrieval s ready enough =
      step-Ends fuel retrieval s (drive-EndsWith plans fuel)
        (retrieve-Steps scores casefold minimum_score minimum_evidence services request s ready)
        enough
  drive-EndsWith plans (suc fuel) evidence_assessment s ready enough =
      step-Ends fuel evidence_assessment s (drive-EndsWith plans fuel)
        (assess_evidence-Steps scores casefold minimum_score minimum_evidence services request s
          ready)
        enough
  drive-EndsWith plans (suc fuel) supplemental_retrieval s ready enough =
      step-Ends fuel supplemental_retrieval s (drive-EndsWith plans fuel)
        (retrieve_supplemental-Steps scores casefold minimum_score minimum_evidence services request
          s ready)
        enough
  drive-EndsWith plans (suc fuel) generation s ready enough =
      step-Ends fuel generation s (drive-EndsWith plans fuel)
        (generate-Steps scores casefold minimum_score minimum_evidence services request s ready)
        enough
  drive-EndsWith plans (suc fuel) citation_validation s ready enough =
      step-Ends fuel citation_validation s (drive-EndsWith plans fuel)
        (validate_citations-Steps scores casefold minimum_score minimum_evidence services request s
          ready)
        enough
  drive-EndsWith plans (suc fuel) claim_support_validation s ready enough =
      step-Ends fuel claim_support_validation s (drive-EndsWith plans fuel)
        (validate_claim_support-Steps scores casefold minimum_score minimum_evidence services
          request s ready)
        enough
  drive-EndsWith plans (suc fuel) citation_repair s ready enough =
      step-Ends fuel citation_repair s (drive-EndsWith plans fuel)
        (repair_citations-Steps scores casefold minimum_score minimum_evidence services request s
          ready)
        enough
  drive-EndsWith plans (suc fuel) answer_language_validation s ready enough =
      step-Ends fuel answer_language_validation s (drive-EndsWith plans fuel)
        (validate_answer_language-Steps scores casefold minimum_score minimum_evidence services
          request s ready)
        enough
  drive-EndsWith plans (suc fuel) answer s ready enough = give_answer-Ends fuel s ready
  drive-EndsWith plans (suc fuel) refusal s ready enough = refuse-Ends fuel s ready

  -- A run that raises nothing has reported progress and then one final event; one that a provider's
  -- error ends has reported progress only; and it raises nothing else.
  abbrev pub IsRun : Option Failure × World Score → Type 0
  IsRun (none, w) = Closed IsFinal w.events
  IsRun (some provider_error, w) = Quiet w
  IsRun (some _, w) = ⊥

  close-IsRun :
      (x : Result Stop (Unit {0}) × World Score)
      → After (λ w. Closed IsFinal w.events) (λ _. Unit {0}) x
      → IsRun (close scores casefold minimum_score minimum_evidence services request x)
  close-IsRun (ok a, w) h = h.0
  close-IsRun (err cancellation, w) h = closed_by w.events cancelled h tt
  close-IsRun (err (failure provider_error), w) h = h
  close-IsRun (err (failure Failure.key_error), w) h = h
  close-IsRun (err (failure Failure.index_error), w) h = h
  close-IsRun (err (failure Failure.repair_of_valid), w) h = h
  close-IsRun (err (failure Failure.recursion_limit), w) h = h

  -- When every plan that the planner returns has a query and at least 15 nodes may run, a run of
  -- the workflow ends. Either it raises nothing and reports progress events and then exactly one
  -- final event, which is a refusal, a cancellation, or an answer that keeps the language of the
  -- question, whose citations are valid over the labels of a selection that has the minimum number
  -- of items, each of the minimum score, and that is reported with the cited items of that
  -- selection; or a provider has raised, after progress events only. It raises no other error: no
  -- missing key, no empty list, no repair of a valid answer, and no recursion limit.
  pub run-IsRun :
      PlansHaveQueries scores casefold minimum_score minimum_evidence services request
      → (fuel : ℕ) → 15 ≤ fuel
      → IsRun (run scores casefold minimum_score minimum_evidence services request fuel)
  unfolding run IsSome
  run-IsRun plans fuel enough =
      close-IsRun
        (drive scores casefold minimum_score minimum_evidence services request fuel analysis
          initial_state
          (initial_world scores casefold minimum_score minimum_evidence services request))
        ((drive-EndsWith plans fuel analysis initial_state
            (((refl, refl), refl, refl, tt), refl, refl) enough).holds
          (initial_world scores casefold minimum_score minimum_evidence services request) tt)
