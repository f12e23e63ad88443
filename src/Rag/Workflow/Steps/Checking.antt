-- ===== src/Rag/Workflow/Steps/Checking.antt =====
-- `_validate_citations` and `_validate_answer_language` of rag/workflow.py, and the edges behind them.
use sourcetrace.Prelude.{
  ℕ, ◌≡◌, refl, ap, sym, ◌∙◌, subst, Bool, true, false, some, List, [], ◌∷◌, ◌++◌, ◌==◌, nat_eq,
  list_eq, Bool-cases, inl, inr, arith,
}
use sourcetrace.Text.{Text}
use sourcetrace.Retrieval.Evidence.{Scores, RetrievedEvidence}
use sourcetrace.Rag.Citation.{citation_validation_trace}
use sourcetrace.Rag.Citation.Valid.{citation_validation_trace_issue}
use sourcetrace.Rag.Language.{answer_matches_question_language}
use sourcetrace.Rag.Workflow.Traces.{WorkflowTrace}
use sourcetrace.Rag.Workflow.State.{
  WorkflowRequest, WorkflowState, Services, validating, status, citation_validation_failed,
  answer_language_validation_failed,
}
use sourcetrace.Rag.Workflow.Nodes.{
  attempt_of, cited_items, validate_citations, judge, refusal_state, validate_answer_language,
}
use sourcetrace.Rag.Workflow.Graph.{
  Node, citation_validation, answer_language_validation, after_validation,
  after_answer_language_validation, after, run_node,
}
use sourcetrace.Rag.Workflow.Rules.{
  does_pure, does_bind, does_emit, does_require_at, does_require_eq, IsSome,
}
use sourcetrace.Rag.Workflow.Ready.{
  Ready, EndsInvalid, ends_invalid, IsOpen, IsSelection, IsCitedBy, IsCited, IsGrounded, HasAnswer,
  labels_of,
}
use sourcetrace.Rag.Workflow.Steps.{does_ensure_active, does_record_trace, GoesOn, Steps}

module _ (scores : Scores) (casefold : Text → Text) (minimum_score : scores.Score)
    (minimum_evidence : ℕ) (services : Services scores.Score) (request : WorkflowRequest) where
  open scores use {Score, lt}

  abbrev ReadyFor : Node → WorkflowState Score → Type 0
  ReadyFor = Ready scores casefold minimum_score minimum_evidence services request

  abbrev StepsAt : Node → WorkflowState Score → Type 0
  StepsAt = Steps scores casefold minimum_score minimum_evidence services request

  abbrev AfterCitations : WorkflowState Score → WorkflowState Score → Type 0
  AfterCitations s s' =
      GoesOn scores casefold minimum_score minimum_evidence services request citation_validation s
        s'

  abbrev with_validity :
      Bool
      → List (RetrievedEvidence Score)
      → WorkflowTrace Score
      → WorkflowState Score
      → WorkflowState Score
  with_validity valid cited trace s = record s {
    citation_valid = some valid;
    cited_evidence = some cited;
    workflow_trace = trace;
  }

  citations_refused :
      (trace : WorkflowTrace Score) (s : WorkflowState Score)
      → (s.repair_attempts == 0) ≡ false
      → AfterCitations s (record s {
        citation_valid = some false;
        refusal_code = some citation_validation_failed;
        workflow_trace = trace;
      })
  unfolding after after_validation IsSome
  citations_refused trace s h =
      does_bind (does_pure {P = λ b. b ≡ false} false refl)
        λ b e. does_pure _ (rw (e, h) (tt, ground arith))

  citations_repaired :
      (cited : List (RetrievedEvidence Score)) (trace : WorkflowTrace Score)
      (s : WorkflowState Score)
      → HasAnswer scores casefold minimum_score minimum_evidence services request s
      → (s.repair_attempts == 0) ≡ true
      → EndsInvalid trace.citation_validations
      → AfterCitations s (with_validity false cited trace s)
  unfolding after after_validation IsSome
  citations_repaired cited trace s ready h ends =
      does_bind (does_pure {P = λ b. b ≡ false} false refl)
        λ b e. does_pure _ (rw (e, h) ((ready, ground arith, ends), ground arith))

  citations_supported :
      (cited : List (RetrievedEvidence Score)) (trace : WorkflowTrace Score)
      (s : WorkflowState Score)
      → HasAnswer scores casefold minimum_score minimum_evidence services request s
      → s.claim_support_valid ≡ false
      → AfterCitations s (with_validity true cited trace s)
  unfolding after after_validation IsSome
  citations_supported cited trace s ready h =
      does_bind (does_pure {P = λ b. b ≡ true} true refl)
        λ b e. does_pure _ (rw (e, h) ((ready, refl), ground arith))

  citations_passed :
      (cited : List (RetrievedEvidence Score)) (trace : WorkflowTrace Score)
      (s : WorkflowState Score)
      → IsOpen scores casefold minimum_score minimum_evidence services request s
      → IsCited scores casefold minimum_score minimum_evidence services request
          (with_validity true cited trace s)
      → s.claim_support_valid ≡ true
      → AfterCitations s (with_validity true cited trace s)
  unfolding after after_validation IsSome
  citations_passed cited trace s open_state is_cited h =
      does_bind (does_pure {P = λ b. b ≡ true} true refl)
        λ b e. does_pure _ (rw (e, h) ((open_state, is_cited), ground arith))

  goes_judged :
      (s : WorkflowState Score) (text : Text) (selected : List (RetrievedEvidence Score))
      (trace : WorkflowTrace Score)
      → HasAnswer scores casefold minimum_score minimum_evidence services request s
      → s.answer ≡ some text
      → s.selected_evidence ≡ some selected
      → IsSelection scores casefold minimum_score minimum_evidence services request selected
      → trace.citation_validations
        ≡ s.workflow_trace.citation_validations
          ++ citation_validation_trace text
              (labels_of scores casefold minimum_score minimum_evidence services request selected)
              (attempt_of scores casefold minimum_score minimum_evidence services request
                s.repair_attempts)
            ∷ []
      → AfterCitations s (
          judge scores casefold minimum_score minimum_evidence services request s
            (citation_validation_trace text
              (labels_of scores casefold minimum_score minimum_evidence services request selected)
              (attempt_of scores casefold minimum_score minimum_evidence services request
                s.repair_attempts)).valid
            (cited_items scores casefold minimum_score minimum_evidence services request text
              selected)
            trace)
  unfolding judge
  goes_judged s text selected trace ready at_text at_selected enough added =
      let attempt =
        attempt_of scores casefold minimum_score minimum_evidence services request
          s.repair_attempts in
      let cited =
        cited_items scores casefold minimum_score minimum_evidence services request text selected in
      let found =
        citation_validation_trace text
          (labels_of scores casefold minimum_score minimum_evidence services request selected)
          attempt in
      elim (Bool-cases found.valid) [
        | inl valid ↦ elim (Bool-cases s.claim_support_valid) [
          | inl claims ↦ subst (AfterCitations s) (rw (valid, judge) refl) (
              citations_passed cited trace s ready.0
                (text, selected, cited, at_text, at_selected, refl, enough, (attempt, valid, refl))
                claims)
          | inr no_claims ↦
              subst (AfterCitations s) (rw (valid, judge) refl)
                (citations_supported cited trace s ready no_claims)
        ]
        | inr bad ↦ elim (Bool-cases (s.repair_attempts == 0)) [
          | inl first ↦ subst (AfterCitations s) (rw (bad, judge, first) refl) (
              citations_repaired cited trace s ready first (
                subst EndsInvalid (sym added) (
                  ends_invalid _ found (
                    sym (
                      citation_validation_trace_issue
                        (labels_of scores casefold minimum_score minimum_evidence services request
                          selected)
                        text attempt)
                    ∙ bad))))
          | inr second ↦
              subst (AfterCitations s) (rw (bad, judge, second) refl)
                (citations_refused trace s second)
        ]
      ]

  pub validate_citations-Steps :
      (s : WorkflowState Score) → ReadyFor citation_validation s → StepsAt citation_validation s
  unfolding run_node validate_citations
  validate_citations-Steps s ready =
      does_bind (does_ensure_active scores casefold minimum_score minimum_evidence services request)
        λ _ _. does_bind (does_emit (status validating) tt) λ _ _.
          does_bind (does_require_at s.selected_evidence ready.1) λ selected at_selected.
            does_bind (does_require_at s.answer ready.2) λ text at_text.
              does_bind
                (does_record_trace scores casefold minimum_score minimum_evidence services request
                  _)
                λ _ _.
                  does_pure _
                    (goes_judged s text selected _ ready at_text.0 at_selected.0 at_selected.1 refl)

  -- The states that `_validate_answer_language` can leave.
  abbrev AfterLanguage : WorkflowState Score → WorkflowState Score → Type 0
  AfterLanguage s s' =
      GoesOn scores casefold minimum_score minimum_evidence services request
        answer_language_validation s s'

  language_kept :
      (s : WorkflowState Score) (text : Text) (cited : List (RetrievedEvidence Score))
      → s.answer ≡ some text
      → s.cited_evidence ≡ some cited
      → IsGrounded scores casefold minimum_score minimum_evidence services request text cited
      → AfterLanguage s (record s { answer_language_valid = true })
  unfolding after after_answer_language_validation IsSome
  language_kept s text cited at_text at_cited grounded =
      does_pure _ ((text, cited, at_text, at_cited, grounded), ground arith)

  language_lost :
      (s : WorkflowState Score)
      → s.answer_language_valid ≡ false
      → AfterLanguage s (
          refusal_state scores casefold minimum_score minimum_evidence services request
            answer_language_validation_failed s.workflow_trace s)
  unfolding after after_answer_language_validation IsSome
  language_lost s h = does_pure _ (rw h (tt, ground arith))

  pub validate_answer_language-Steps :
      (s : WorkflowState Score)
      → ReadyFor answer_language_validation s
      → StepsAt answer_language_validation s
  unfolding run_node validate_answer_language
  validate_answer_language-Steps s
        (opened, (text, selected, cited, at_text, at_selected, at_cited, enough, is_cited)) =
      does_bind (does_ensure_active scores casefold minimum_score minimum_evidence services request)
        λ _ _. does_bind (does_require_eq s.answer text at_text) λ read same.
          does_pure _ (elim (Bool-cases (answer_matches_question_language request.question read)) [
            | inl kept ↦ subst (AfterLanguage s) (rw kept refl) (
                language_kept s read cited (at_text ∙ ap some (sym same)) at_cited (
                  kept,
                  selected,
                  enough,
                  subst
                      (λ t.
                        IsCitedBy scores casefold minimum_score minimum_evidence services request t
                          selected cited)
                      (sym same) is_cited,
                ))
            | inr lost ↦ subst (AfterLanguage s) (rw lost refl) (language_lost s opened.1)
          ])
