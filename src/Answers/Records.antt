-- ===== src/Answers/Records.antt =====
-- The rows of modules/answers/models.py and the events of modules/answers/schemas.py. A time is a
-- number, and the timeouts of a run's metadata are in units of their own.
use sourcetrace.Prelude.{ℕ, Bool, true, false, Option, List}
use sourcetrace.Text.{Text, codes}
use sourcetrace.Rag.Workflow.State.{
  RefusalCode, insufficient_evidence, citation_validation_failed, claim_support_validation_failed,
  answer_language_validation_failed,
}
use sourcetrace.Rag.Workflow.Traces.{WorkflowTrace}

pub data RunStatus : Type 0 where
  pending running cancel_requested cancelled completed failed : RunStatus

pub data RunOutcome : Type 0 where
  answered refused : RunOutcome

pub record AnswerExecutionMetadata : Type 0 where
  pub llm_provider : Text
  pub llm_model : Text
  pub prompt_version : Text
  pub retrieval_version : Text
  pub query_rewrite_version : Text
  pub evidence_assessment_prompt_version : Text
  pub citation_repair_prompt_version : Text
  pub workflow_version : Text
  pub provider_connect_timeout_seconds : ℕ
  pub provider_read_timeout_seconds : ℕ
  pub provider_request_timeout_seconds : ℕ
  pub provider_operation_deadline_seconds : ℕ

pub record AnswerRun (Score : Type 0) : Type 0 where
  pub id : ℕ
  pub question_id : ℕ
  pub conversation_id : ℕ
  pub knowledge_base_id : ℕ
  pub status : RunStatus
  pub outcome : Option RunOutcome
  pub answer_text : Option Text
  pub refusal_code : Option Text
  pub refusal_message : Option Text
  pub failure_code : Option Text
  pub failure_message : Option Text
  pub metadata : AnswerExecutionMetadata
  pub retrieval_query : Text
  pub workflow_trace : WorkflowTrace Score
  pub created_at : ℕ
  pub completed_at : Option ℕ

pub record Question : Type 0 where
  pub id : ℕ
  pub conversation_id : ℕ
  pub knowledge_base_id : ℕ
  pub content : Text
  pub created_at : ℕ

pub record CitationDraft : Type 0 where
  pub id : ℕ
  pub chunk_id : ℕ
  pub document_id : ℕ
  pub document_version_id : ℕ
  pub document_name : Text
  pub page_number : ℕ
  pub excerpt : Text

-- A row of `citations`: a draft with its run.
pub record Citation : Type 0 where
  pub answer_run_id : ℕ
  pub draft : CitationDraft

pub record Tables (Score : Type 0) : Type 0 where
  pub runs : List (AnswerRun Score)
  pub citations : List Citation

pub data StreamStatus : Type 0 where
  retrieving generating : StreamStatus

pub data AnswerEvent : Type 0 where
  status : StreamStatus → AnswerEvent
  delta : Text → AnswerEvent
  final : Text → List CitationDraft → AnswerEvent
  refusal : Text → Text → AnswerEvent
  error : Text → Text → AnswerEvent
  cancelled : AnswerEvent

-- `status IN ('pending', 'running', 'cancel_requested')`
abbrev pub is_active : RunStatus → Bool
is_active RunStatus.pending = true
is_active RunStatus.running = true
is_active RunStatus.cancel_requested = true
is_active _ = false

abbrev pub is_pending : RunStatus → Bool
is_pending RunStatus.pending = true
is_pending _ = false

abbrev pub is_running : RunStatus → Bool
is_running RunStatus.running = true
is_running _ = false

-- The code and the message of a refusal. The workflow has one message for each code.
abbrev pub refusal_code_of : RefusalCode → Text
refusal_code_of insufficient_evidence = codes "INSUFFICIENT_EVIDENCE"
refusal_code_of citation_validation_failed = codes "CITATION_VALIDATION_FAILED"
refusal_code_of claim_support_validation_failed = codes "CLAIM_SUPPORT_VALIDATION_FAILED"
refusal_code_of answer_language_validation_failed = codes "ANSWER_LANGUAGE_VALIDATION_FAILED"

abbrev pub refusal_message_of : RefusalCode → Text
refusal_message_of insufficient_evidence =
    codes "The knowledge base does not contain enough evidence to answer."
refusal_message_of citation_validation_failed =
    codes "The generated answer did not contain a valid evidence citation."
refusal_message_of claim_support_validation_failed =
    codes "The generated answer included a claim not supported by the evidence."
refusal_message_of answer_language_validation_failed =
    codes "The generated answer did not preserve the question language."
