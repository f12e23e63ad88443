-- ===== src/Rag/Workflow/State.antt =====
-- The state, the events and the services of rag/workflow.py, and the monad in which the nodes run.
-- A key that a `TypedDict` may lack is an `Option`. The world counts the calls that leave the
-- workflow, and each service may answer every call differently: a service takes the call's number.
use sourcetrace.Prelude.{
  ℕ, ◌+◌, Bool, true, false, Option, none, some, List, [], ◌∷◌, ◌++◌, Result, ok, err,
}
use sourcetrace.Prelude.Dict.{Dict}
use sourcetrace.Text.{Text}
use sourcetrace.Rag.Ports.{
  QueryPlanningTrace, RetrievalCandidate, EvidenceDecision, ClaimSupportDecision,
}
use sourcetrace.Rag.Citation.{Issue}
use sourcetrace.Retrieval.Evidence.{RetrievedEvidence}
use sourcetrace.Retrieval.Query.{RetrievalPlan}
use sourcetrace.Retrieval.Search.{RetrievalResult}
use sourcetrace.Rag.Workflow.Traces.{WorkflowTrace, empty_trace}

pub record WorkflowRequest : Type 0 where
  pub run_id : ℕ
  pub knowledge_base_id : ℕ
  pub question : Text
  pub recent_questions : List Text

pub data Stage : Type 0 where
  analyzing retrieving assessing generating validating repairing : Stage

pub data RefusalCode : Type 0 where
  insufficient_evidence citation_validation_failed claim_support_validation_failed : RefusalCode
  answer_language_validation_failed : RefusalCode

pub data WorkflowEvent (Score : Type 0) : Type 0 where
  status : Stage → WorkflowEvent Score
  delta : Text → WorkflowEvent Score
  answered : Text → List (RetrievedEvidence Score) → WorkflowEvent Score
  refused : RefusalCode → WorkflowEvent Score
  cancelled : WorkflowEvent Score

-- What a node raises besides `_WorkflowCancellation`: what a provider raised, or an error of the
-- workflow itself. `recursion_limit` is the graph's.
pub data Failure : Type 0 where
  provider_error key_error index_error repair_of_valid recursion_limit : Failure

pub data Stop : Type 0 where
  cancellation : Stop
  failure : Failure → Stop

-- What `resolve_plan` raises.
pub data PlanFailure : Type 0 where
  query_planning_failure : Text → QueryPlanningTrace → PlanFailure
  other_failure : PlanFailure

-- What `verify` raises.
pub data VerifyFailure : Type 0 where
  claim_support_validation_error other_failure : VerifyFailure

-- One round of `_next_delta_or_cancel` on the model's stream: a delta, a wait of 0.1 seconds that
-- ends without one, or an error.
pub data StreamItem : Type 0 where
  next_delta : Text → StreamItem
  timeout broken : StreamItem

pub record WorkflowState (Score : Type 0) : Type 0 where
  pub retrieval_plan : Option RetrievalPlan
  pub evidence : Option (List (RetrievedEvidence Score))
  pub evidence_query_matches : Dict ℕ (List Text)
  pub previously_selected_evidence : List (RetrievedEvidence Score)
  pub supplemental_attempts : ℕ
  pub supplemental_queries : Option (List Text)
  pub selected_evidence : Option (List (RetrievedEvidence Score))
  pub cited_evidence : Option (List (RetrievedEvidence Score))
  pub answer : Option Text
  pub claim_support_valid : Bool
  pub citation_valid : Option Bool
  pub answer_language_valid : Bool
  pub repair_attempts : ℕ
  pub refusal_code : Option RefusalCode
  pub workflow_trace : WorkflowTrace Score

-- The state that `run` starts from. The keys that are only read by `get` with a default start at
-- that default.
abbrev pub initial_state : {Score : Type 0} → WorkflowState Score
initial_state = record {
  retrieval_plan = none;
  evidence = none;
  evidence_query_matches = [];
  previously_selected_evidence = [];
  supplemental_attempts = 0;
  supplemental_queries = none;
  selected_evidence = none;
  cited_evidence = none;
  answer = none;
  claim_support_valid = false;
  citation_valid = none;
  answer_language_valid = false;
  repair_attempts = 0;
  refusal_code = none;
  workflow_trace = empty_trace;
}

pub record CitationValidationFeedback : Type 0 where
  pub issue : Issue
  pub unit_count : ℕ
  pub citation_count : ℕ
  pub uncited_unit_indices : List ℕ
  pub unknown_label_unit_indices : List ℕ

-- The collaborators that `AnswerWorkflow.__init__` takes.
pub record Services (Score : Type 0) : Type 0 where
  pub resolve_plan : ℕ → Result PlanFailure RetrievalPlan
  pub search : ℕ → List Text → Option (RetrievalResult Score)
  pub assess :
      ℕ
      → Text
      → List Text
      → List (RetrievalCandidate Score)
      → List Text
      → ℕ
      → Option EvidenceDecision
  pub stream_answer : ℕ → Text → List (RetrievalCandidate Score) → List StreamItem
  pub repair :
      ℕ → Text → Text → List (RetrievalCandidate Score) → CitationValidationFeedback → Option Text
  pub verify :
      ℕ → Text → Text → List (RetrievalCandidate Score) → Result VerifyFailure ClaimSupportDecision
  pub is_cancel_requested : ℕ → Bool
  pub record_retrieval_query : ℕ → Text → Bool
  pub record_workflow_trace : ℕ → WorkflowTrace Score → Bool
  -- `str(chunk_id)`, and `str(uuid5(run_id, text))`.
  pub uuid_text : ℕ → Text
  pub uuid5_text : ℕ → Text → Text

pub record World (Score : Type 0) : Type 0 where
  pub calls : ℕ
  pub events : List (WorkflowEvent Score)
  pub traces : List (WorkflowTrace Score)

abbrev pub Run : Type 0 → Type 0 → Type 0
Run Score A = World Score → Result Stop A × World Score

module _ {Score : Type 0} where
  abbrev pub pure : {A : Type 0} → A → Run Score A
  pure a w = (ok a, w)

  abbrev pub stop : {A : Type 0} → Stop → Run Score A
  stop s w = (err s, w)

  abbrev pub go_on : {A B : Type 0} → Result Stop A → (A → Run Score B) → Run Score B
  go_on (ok a) f w = f a w
  go_on (err s) f w = (err s, w)

  infixl 5 ◌>>=◌ ◌>>◌
  unfoldable pub ◌>>=◌ : {A B : Type 0} → Run Score A → (A → Run Score B) → Run Score B
  ◌>>=◌ m f w = let (r, w') = m w in go_on r f w'

  abbrev pub ◌>>◌ : {A B : Type 0} → Run Score A → Run Score B → Run Score B
  m >> k = m >>= λ _. k

  -- A call of a service that returns a value.
  unfoldable pub ask : {A : Type 0} → (ℕ → A) → Run Score A
  ask f w = (ok (f w.calls), record w { calls = w.calls + 1 })

  -- `get_stream_writer()(event)`
  unfoldable pub emit : WorkflowEvent Score → Run Score (Unit {0})
  emit e w = (ok tt, record w { events = w.events ++ e ∷ [] })

  -- `state[key]`
  abbrev pub require : {A : Type 0} → Option A → Run Score A
  require none = stop (failure key_error)
  require (some a) = pure a

  -- A provider that raises gives `none`.
  abbrev pub lift : {A : Type 0} → Option A → Run Score A
  lift (some a) = pure a
  lift none = stop (failure provider_error)

  abbrev pub cancel_unless : Bool → Run Score (Unit {0})
  cancel_unless true = pure tt
  cancel_unless false = stop cancellation

  -- A trace that the run control has taken.
  unfoldable pub keep_trace : WorkflowTrace Score → Run Score (Unit {0})
  keep_trace trace w = (ok tt, record w { traces = w.traces ++ trace ∷ [] })
