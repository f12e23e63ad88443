-- ===== src/Rag/Workflow/Ready.antt =====
-- What the state of the graph of rag/workflow.py holds when a node starts, and how many nodes can
-- still run from there.
use sourcetrace.Prelude.{
  ℕ, ◌≤◌, ◌≡◌, true, false, none, some, List, [], ◌∷◌, ◌++◌, ◌==◌, nat_eq, All, length,
  if◌then◌else◌,
}
use sourcetrace.Text.{Text}
use sourcetrace.Retrieval.Evidence.{Scores, RetrievedEvidence}
use sourcetrace.Rag.Citation.{Attempt, CitationValidationTrace, citation_validation_trace, is_valid}
use sourcetrace.Rag.Language.{answer_matches_question_language}
use sourcetrace.Rag.Workflow.State.{WorkflowRequest, WorkflowState, Services}
use sourcetrace.Rag.Workflow.Nodes.{allowed_labels, cited_items}
use sourcetrace.Rag.Workflow.Graph.{
  Node, analysis, retrieval, evidence_assessment, supplemental_retrieval, generation,
  citation_validation, claim_support_validation, citation_repair, answer_language_validation,
  answer, refusal,
}
use sourcetrace.Rag.Workflow.Rules.{IsSome}

-- The last citation validation found the answer invalid.
pub data EndsInvalid : List CitationValidationTrace → Type 0 where
  ends_invalid :
      (before : List CitationValidationTrace) (last : CitationValidationTrace)
      → is_valid last.issue ≡ false
      → EndsInvalid (before ++ last ∷ [])

module _ (scores : Scores) (casefold : Text → Text) (minimum_score : scores.Score)
    (minimum_evidence : ℕ) (services : Services scores.Score) (request : WorkflowRequest) where
  open scores use {Score, lt}

  abbrev pub IsStrong : RetrievedEvidence Score → Type 0
  IsStrong item = lt item.score minimum_score ≡ false

  abbrev pub labels_of : List (RetrievedEvidence Score) → List Text
  labels_of = allowed_labels scores casefold minimum_score minimum_evidence services request

  -- Enough evidence was selected, and each item of it reaches the minimum score.
  abbrev pub IsSelection : List (RetrievedEvidence Score) → Type 0
  IsSelection selected = (minimum_evidence ≤ length selected) × All IsStrong selected

  -- The answer is cited by labels of the selection, and these are the items that it cites.
  abbrev pub IsCitedBy :
      Text → List (RetrievedEvidence Score) → List (RetrievedEvidence Score) → Type 0
  IsCitedBy text selected cited =
      (attempt : Attempt) × ((citation_validation_trace text (labels_of selected) attempt).valid
        ≡ true)
      × (cited
          ≡ cited_items scores casefold minimum_score minimum_evidence services request text
              selected)

  -- What an answer that is given out rests on.
  abbrev pub IsGrounded : Text → List (RetrievedEvidence Score) → Type 0
  IsGrounded text cited =
      (answer_matches_question_language request.question text ≡ true)
      × (selected : List (RetrievedEvidence Score)) × IsSelection selected
      × IsCitedBy text selected cited

  -- The invariant of every state before a refusal.
  abbrev pub IsOpen : WorkflowState Score → Type 0
  IsOpen s = (s.refusal_code ≡ none) × (s.answer_language_valid ≡ false)

  abbrev pub IsGathering : WorkflowState Score → Type 0
  IsGathering s =
      IsOpen s
      × (s.repair_attempts ≡ 0)
      × (s.claim_support_valid ≡ false)
      × All IsStrong s.previously_selected_evidence

  abbrev pub HasAnswer : WorkflowState Score → Type 0
  HasAnswer s =
      IsOpen s × IsSome IsSelection s.selected_evidence × IsSome (λ text. Unit {0}) s.answer

  abbrev pub IsCited : WorkflowState Score → Type 0
  IsCited s =
      (text : Text) × (selected : List (RetrievedEvidence Score)) × (cited : List
        (RetrievedEvidence Score))
      × (s.answer ≡ some text)
      × (s.selected_evidence ≡ some selected)
      × (s.cited_evidence ≡ some cited)
      × IsSelection selected
      × IsCitedBy text selected cited

  abbrev pub Ready : Node → WorkflowState Score → Type 0
  Ready analysis s = IsGathering s × (s.supplemental_attempts ≡ 0) × (s.supplemental_queries ≡ none)
  Ready retrieval s =
      IsGathering s
      × (s.supplemental_attempts ≡ 0)
      × (s.supplemental_queries ≡ none)
      × IsSome (λ plan. Unit {0}) s.retrieval_plan
  Ready evidence_assessment s =
      IsGathering s
      × (s.supplemental_attempts ≡ 0 → s.supplemental_queries ≡ none)
      × IsSome (λ plan. Unit {0}) s.retrieval_plan
      × IsSome (All IsStrong) s.evidence
  Ready supplemental_retrieval s =
      IsGathering s × (s.supplemental_attempts ≡ 0) × IsSome (λ plan. Unit {0}) s.retrieval_plan
  Ready generation s = IsGathering s × IsSome IsSelection s.selected_evidence
  Ready citation_validation s = HasAnswer s
  Ready claim_support_validation s = HasAnswer s × (s.claim_support_valid ≡ false)
  Ready citation_repair s =
      HasAnswer s × (s.repair_attempts ≡ 0) × EndsInvalid s.workflow_trace.citation_validations
  Ready answer_language_validation s = IsOpen s × IsCited s
  Ready answer s =
      (text : Text) × (cited : List (RetrievedEvidence Score)) × (s.answer ≡ some text)
      × (s.cited_evidence ≡ some cited)
      × IsGrounded text cited
  Ready refusal s = IsSome (λ code. Unit {0}) s.refusal_code

  -- A bound on the nodes that run from `node` on, itself included.
  abbrev pub steps_left : Node → WorkflowState Score → ℕ
  steps_left analysis s = 15
  steps_left retrieval s = 14
  steps_left evidence_assessment s = if s.supplemental_attempts == 0 then 13 else 11
  steps_left supplemental_retrieval s = 12
  steps_left generation s = 10
  steps_left citation_validation s =
      if s.claim_support_valid
      then if s.repair_attempts == 0 then 7 else 3
      else if s.repair_attempts == 0
      then 9
      else 5
  steps_left claim_support_validation s = if s.repair_attempts == 0 then 8 else 4
  steps_left citation_repair s = 6
  steps_left answer_language_validation s = 2
  steps_left answer s = 1
  steps_left refusal s = 1
