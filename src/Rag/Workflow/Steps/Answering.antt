-- ===== src/Rag/Workflow/Steps/Answering.antt =====
-- `_generate`, `_validate_claim_support`, `_repair_citations` and `_validate_answer_language` of
-- rag/workflow.py.
use sourcetrace.Prelude.{
  ℕ, ◌≡◌, refl, subst, true, false, some, List, [], ◌∷◌, ◌++◌, length, ◌==◌, nat_eq, list_eq,
  Result, ok, err, Bool-cases, Option-cases, inl, inr, arith,
}
use sourcetrace.Text.{Text, codes, join}
use sourcetrace.Retrieval.Evidence.{Scores, RetrievedEvidence}
use sourcetrace.Rag.Ports.{ClaimSupportDecision}
use sourcetrace.Rag.Citation.{CitationValidationTrace, is_valid}
use sourcetrace.Rag.Workflow.State.{
  WorkflowRequest, WorkflowState, Services, StreamItem, next_delta, timeout, broken, VerifyFailure,
  generating, validating, repairing, status, delta, claim_support_validation_failed,
}
use sourcetrace.Rag.Workflow.Nodes.{
  read_stream, generate, validate_claim_support, render_claims, supported, verdict, refusal_state,
  allowed_labels, repair_citations, last_validation, feedback_of,
}
use sourcetrace.Rag.Workflow.Graph.{
  Node, generation, claim_support_validation, citation_repair, after_claim_support, after, run_node,
}
use sourcetrace.Rag.Workflow.Rules.{
  Does, does_pure, does_bind, does_ask, does_emit, does_require, does_lift, does_stop_provider,
  IsSome,
}
use sourcetrace.Rag.Workflow.Ready.{Ready, EndsInvalid, ends_invalid, IsSelection, HasAnswer}
use sourcetrace.Rag.Workflow.Steps.{does_ensure_active, does_record_trace, GoesOn, Steps}

module _ (scores : Scores) (casefold : Text → Text) (minimum_score : scores.Score)
    (minimum_evidence : ℕ) (services : Services scores.Score) (request : WorkflowRequest) where
  open scores use {Score, lt}

  abbrev ReadyFor : Node → WorkflowState Score → Type 0
  ReadyFor = Ready scores casefold minimum_score minimum_evidence services request

  abbrev StepsAt : Node → WorkflowState Score → Type 0
  StepsAt = Steps scores casefold minimum_score minimum_evidence services request

  does_read_stream :
      (text : Text) (items : List StreamItem)
      → Does
          (read_stream scores casefold minimum_score minimum_evidence services request text items)
          (λ _. Unit {0})
  unfolding read_stream
  does_read_stream text [] = does_pure text tt
  does_read_stream text (next_delta more ∷ items) =
      does_bind (does_emit (delta more) tt) (λ _ _. does_read_stream (text ++ more) items)
  does_read_stream text (timeout ∷ items) =
      does_bind (does_ensure_active scores casefold minimum_score minimum_evidence services request)
        (λ _ _. does_read_stream text items)
  does_read_stream text (broken ∷ items) = does_stop_provider

  pub generate-Steps : (s : WorkflowState Score) → ReadyFor generation s → StepsAt generation s
  unfolding run_node generate after IsSome
  generate-Steps s ready =
      does_bind (does_ensure_active scores casefold minimum_score minimum_evidence services request)
        λ _ _. does_bind (does_emit (status generating) tt) λ _ _.
          does_bind
            (does_require
              {P = IsSelection scores casefold minimum_score minimum_evidence services request}
              s.selected_evidence ready.1)
            λ selected _. does_bind (does_ask _) λ items _.
              does_bind (does_read_stream [] items)
                λ text _. does_pure _ (does_pure _ ((ready.0.0, ready.1, tt), ground arith))

  -- The states that `_validate_claim_support` can leave.
  abbrev AfterSupport : WorkflowState Score → WorkflowState Score → Type 0
  AfterSupport s s' =
      GoesOn scores casefold minimum_score minimum_evidence services request
        claim_support_validation s s'

  support_refused :
      (s : WorkflowState Score)
      → s.claim_support_valid ≡ false
      → AfterSupport s (
          refusal_state scores casefold minimum_score minimum_evidence services request
            claim_support_validation_failed s.workflow_trace s)
  unfolding after after_claim_support IsSome
  support_refused s h = does_pure _ (rw h (tt, ground arith))

  support_accepted :
      (s : WorkflowState Score) (text : Text)
      → HasAnswer scores casefold minimum_score minimum_evidence services request s
      → AfterSupport s (record s { answer = some text; claim_support_valid = true })
  unfolding after after_claim_support IsSome
  support_accepted s text ready = does_pure _ ((ready.0, ready.1, tt), ground arith)

  support_decided :
      (s : WorkflowState Score) (selected : List (RetrievedEvidence Score))
      (decision : ClaimSupportDecision)
      → ReadyFor claim_support_validation s
      → AfterSupport s (
          supported scores casefold minimum_score minimum_evidence services request s selected
            decision)
  unfolding supported
  support_decided s selected decision ready =
      elim (Option-cases (
        render_claims scores casefold minimum_score minimum_evidence services request
          (allowed_labels scores casefold minimum_score minimum_evidence services request selected)
          decision.claims)) [
            | inl bad ↦
                subst (AfterSupport s) (rw (supported, bad) refl) (support_refused s ready.1)
            | inr (rendered, good) ↦ elim (Bool-cases (length rendered == 0)) [
              | inl blank ↦
                  subst (AfterSupport s) (rw (supported, good, blank) refl)
                    (support_refused s ready.1)
              | inr full ↦
                  subst (AfterSupport s) (rw (supported, good, full) refl)
                    (support_accepted s (join (codes "\n") rendered) ready.0)
            ]
          ]

  does_verdict :
      (s : WorkflowState Score) (selected : List (RetrievedEvidence Score))
      (r : Result VerifyFailure ClaimSupportDecision)
      → ReadyFor claim_support_validation s
      → Does
          (verdict scores casefold minimum_score minimum_evidence services request s selected r)
          (AfterSupport s)
  does_verdict s selected (ok decision) ready =
      does_pure _ (support_decided s selected decision ready)
  does_verdict s selected (err VerifyFailure.claim_support_validation_error) ready =
      does_pure _ (support_refused s ready.1)
  does_verdict s selected (err VerifyFailure.other_failure) ready = does_stop_provider

  pub validate_claim_support-Steps :
      (s : WorkflowState Score)
      → ReadyFor claim_support_validation s
      → StepsAt claim_support_validation s
  unfolding run_node validate_claim_support
  validate_claim_support-Steps s ready =
      does_bind (does_ensure_active scores casefold minimum_score minimum_evidence services request)
        λ _ _. does_bind (does_emit (status validating) tt) λ _ _.
          does_bind (does_require s.selected_evidence ready.0.1) λ selected _.
            does_bind (does_require s.answer ready.0.2)
              λ text _. does_bind (does_ask _) λ decision _. does_verdict s selected decision ready

  does_last_validation :
      (validations : List CitationValidationTrace)
      → EndsInvalid validations
      → Does
          (last_validation scores casefold minimum_score minimum_evidence services request
            validations)
          (λ v. is_valid v.issue ≡ false)
  unfolding last_validation
  does_last_validation _ (ends_invalid [] last h) = does_pure last h
  does_last_validation _ (ends_invalid (v ∷ []) last h) = does_pure last h
  does_last_validation _ (ends_invalid (v ∷ u ∷ before) last h) =
      does_last_validation _ (ends_invalid (u ∷ before) last h)

  does_feedback_of :
      (v : CitationValidationTrace)
      → is_valid v.issue ≡ false
      → Does
          (feedback_of scores casefold minimum_score minimum_evidence services request v)
          (λ _. Unit {0})
  unfolding feedback_of
  does_feedback_of v h = rw h (does_pure _ tt)

  pub repair_citations-Steps :
      (s : WorkflowState Score) → ReadyFor citation_repair s → StepsAt citation_repair s
  unfolding run_node repair_citations after IsSome
  repair_citations-Steps s ready =
      does_bind (does_ensure_active scores casefold minimum_score minimum_evidence services request)
        λ _ _. does_bind (does_emit (status repairing) tt) λ _ _.
          does_bind
            (does_record_trace scores casefold minimum_score minimum_evidence services request _)
            λ _ _.
              does_bind (does_last_validation s.workflow_trace.citation_validations ready.2)
                λ validation bad. does_bind (does_feedback_of validation bad) λ feedback _.
                  does_bind (does_require {P = λ text. Unit {0}} s.answer ready.0.2) λ text _.
                    does_bind
                      (does_require
                        {P = IsSelection scores casefold minimum_score minimum_evidence services
                          request}
                        s.selected_evidence ready.0.1)
                      λ selected _. does_bind (does_ask _) λ made _.
                        does_bind (does_lift made) λ repaired _.
                          does_pure _ (does_pure _ ((ready.0.0, ready.0.1, tt), ground arith))
