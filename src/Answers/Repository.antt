-- ===== src/Answers/Repository.antt =====
-- `AnswerRepository` of modules/answers/repository.py. An `UPDATE` and the commit that follows it
-- are one step: the row is locked between them. An id is a primary key, so an `UPDATE` by id stops
-- at the first row that has it.
pub mod Lifecycle
pub mod Operations
pub mod Sound
use sourcetrace.Prelude.{
  ℕ, ◌+◌, Bool, true, false, not, ◌&&◌, ◌||◌, Option, none, some, List, [], ◌∷◌, ◌++◌, map, ◌==◌,
  nat_eq, contains, some_of, length, select, if◌then◌else◌, Result, ok, err,
}
use sourcetrace.Text.{Text, codes}
use sourcetrace.Answers.Records.{
  RunStatus, RunOutcome, AnswerExecutionMetadata, AnswerRun, Question, CitationDraft, Citation,
  Tables, is_active, is_pending, is_running,
}
use sourcetrace.Rag.Workflow.Traces.{WorkflowTrace, empty_trace}

-- What `create_run` raises: `ActiveAnswerRunExistsError`, or the `IntegrityError` of the key.
pub data CreateError : Type 0 where
  active_answer_run_exists integrity_error : CreateError

abbrev pub citation_of : ℕ → CitationDraft → Citation
citation_of run_id draft = record { answer_run_id = run_id; draft = draft }

-- The keys that two citations may not share.
abbrev pub citation_clash : Citation → Citation → Bool
citation_clash a b =
    a.draft.id == b.draft.id
    || (a.answer_run_id == b.answer_run_id && a.draft.chunk_id == b.draft.chunk_id)

-- `add_all` and `flush`: every row is inserted, or none. `is_stored` says which chunks there are.
unfoldable pub insert_citations :
    (ℕ → Bool) → List Citation → List Citation → Option (List Citation)
insert_citations is_stored stored [] = some stored
insert_citations is_stored stored (c ∷ cs) =
    let rest = insert_citations is_stored (stored ++ c ∷ []) cs in
    if not (is_stored c.draft.chunk_id) || some_of (citation_clash c) stored then none else rest

module _ {Score : Type 0} where
  -- `update(AnswerRun).where(id == run_id, test).values(change).returning(id)`
  unfoldable pub update_run :
      ℕ
      → (AnswerRun Score → Bool)
      → (AnswerRun Score → AnswerRun Score)
      → List (AnswerRun Score)
      → Bool × List (AnswerRun Score)
  update_run run_id test change [] = (false, [])
  update_run run_id test change (r ∷ rs) =
      let rest = update_run run_id test change rs in
      if r.id == run_id
      then (if test r then (true, change r ∷ rs) else (false, r ∷ rs))
      else (rest.0, r ∷ rest.1)

  abbrev pub update_tables :
      ℕ
      → (AnswerRun Score → Bool)
      → (AnswerRun Score → AnswerRun Score)
      → Tables Score
      → Bool × Tables Score
  update_tables run_id test change t =
      let updated = update_run run_id test change t.runs in
      (updated.0, record t { runs = updated.1 })

  -- `select(AnswerRun).where(id == run_id)`
  unfoldable pub find_run : ℕ → List (AnswerRun Score) → Option (AnswerRun Score)
  find_run run_id [] = none
  find_run run_id (r ∷ rs) = if r.id == run_id then some r else find_run run_id rs

  abbrev pub is_active_in : ℕ → AnswerRun Score → Bool
  is_active_in conversation_id r = r.conversation_id == conversation_id && is_active r.status

  abbrev pub new_run : ℕ → ℕ → Question → AnswerExecutionMetadata → AnswerRun Score
  new_run id now question metadata = record {
    id = id;
    question_id = question.id;
    conversation_id = question.conversation_id;
    knowledge_base_id = question.knowledge_base_id;
    status = RunStatus.pending;
    outcome = none;
    answer_text = none;
    refusal_code = none;
    refusal_message = none;
    failure_code = none;
    failure_message = none;
    metadata = metadata;
    retrieval_query = question.content;
    workflow_trace = empty_trace;
    created_at = now;
    completed_at = none;
  }

  -- `create_run`: the key and the index `uq_answer_runs_one_active_per_conversation` are checked.
  unfoldable pub create_run :
      ℕ
      → ℕ
      → Question
      → AnswerExecutionMetadata
      → Tables Score
      → Result CreateError (AnswerRun Score) × Tables Score
  create_run id now question metadata t =
      if contains (map (λ r. r.id) t.runs) id
      then (err integrity_error, t)
      else if some_of (is_active_in question.conversation_id) t.runs
      then (err active_answer_run_exists, t)
      else (
        ok (new_run id now question metadata),
        record t { runs = t.runs ++ new_run id now question metadata ∷ [] },
      )

  abbrev pub has_status : (RunStatus → Bool) → AnswerRun Score → Bool
  has_status test r = test r.status

  unfoldable pub mark_running : ℕ → Tables Score → Bool × Tables Score
  mark_running run_id =
      update_tables run_id (has_status is_pending) (λ r. record r { status = RunStatus.running })

  unfoldable pub set_retrieval_query : ℕ → Text → Tables Score → Bool × Tables Score
  set_retrieval_query run_id query =
      update_tables run_id (has_status is_running) (λ r. record r { retrieval_query = query })

  unfoldable pub set_workflow_trace : ℕ → WorkflowTrace Score → Tables Score → Bool × Tables Score
  set_workflow_trace run_id trace =
      update_tables run_id (has_status is_running) (λ r. record r { workflow_trace = trace })

  abbrev pub status_of : Option (AnswerRun Score) → Option RunStatus
  status_of none = none
  status_of (some r) = some r.status

  abbrev pub get_status : ℕ → Tables Score → Option RunStatus
  get_status run_id t = status_of (find_run run_id t.runs)

  abbrev pub is_owned : ℕ → ℕ → AnswerRun Score → Bool
  is_owned knowledge_base_id conversation_id r =
      r.knowledge_base_id == knowledge_base_id && r.conversation_id == conversation_id

  abbrev pub can_request_cancel : ℕ → ℕ → AnswerRun Score → Bool
  can_request_cancel knowledge_base_id conversation_id r =
      is_owned knowledge_base_id conversation_id r && (is_pending r.status || is_running r.status)

  abbrev pub owned_status : ℕ → ℕ → Option (AnswerRun Score) → Option RunStatus
  owned_status knowledge_base_id conversation_id none = none
  owned_status knowledge_base_id conversation_id (some r) =
      if is_owned knowledge_base_id conversation_id r then some r.status else none

  -- `request_cancel`: the status that it leaves, or `None` if the run is not there.
  unfoldable pub request_cancel : ℕ → ℕ → ℕ → Tables Score → Option RunStatus × Tables Score
  request_cancel knowledge_base_id conversation_id run_id t =
      let t' =
        (update_tables run_id (can_request_cancel knowledge_base_id conversation_id)
          (λ r. record r { status = RunStatus.cancel_requested }) t).1 in
      (owned_status knowledge_base_id conversation_id (find_run run_id t'.runs), t')

  unfoldable pub cancel : ℕ → ℕ → Tables Score → Bool × Tables Score
  cancel run_id now =
      update_tables run_id (has_status is_active)
        (λ r. record r { status = RunStatus.cancelled; completed_at = some now })

  abbrev pub interrupt : ℕ → AnswerRun Score → AnswerRun Score
  interrupt now r =
      if is_active r.status
      then record r {
        status = RunStatus.failed;
        failure_code = some (codes "ANSWER_RUN_INTERRUPTED");
        failure_message = some (codes "Answer run was interrupted before completion");
        completed_at = some now;
      }
      else r

  -- `fail_interrupted_runs`, with the number of rows that it changes.
  unfoldable pub fail_interrupted_runs : ℕ → Tables Score → ℕ × Tables Score
  fail_interrupted_runs now t = (
    length (select (has_status is_active) t.runs),
    record t { runs = map (interrupt now) t.runs },
  )

  unfoldable pub complete_refusal : ℕ → Text → Text → ℕ → Tables Score → Bool × Tables Score
  complete_refusal run_id code message now = update_tables run_id (has_status is_running) (λ r.
      record r {
        status = RunStatus.completed;
        outcome = some RunOutcome.refused;
        refusal_code = some code;
        refusal_message = some message;
        completed_at = some now;
      })

  abbrev pub answer_run : Text → ℕ → AnswerRun Score → AnswerRun Score
  answer_run answer now r = record r {
    status = RunStatus.completed;
    outcome = some RunOutcome.answered;
    answer_text = some answer;
    completed_at = some now;
  }

  abbrev pub with_citations :
      Tables Score → Tables Score → Option (List Citation) → Option Bool × Tables Score
  with_citations before after none = (none, before)
  with_citations before after (some citations) = (some true, record after { citations = citations })

  -- `complete_answer`: `none` is the `IntegrityError` of a citation, which undoes the update.
  unfoldable pub complete_answer :
      (ℕ → Bool) → ℕ → Text → List CitationDraft → ℕ → Tables Score → Option Bool × Tables Score
  unfolding insert_citations
  complete_answer is_stored run_id answer citations now t =
      let updated = update_tables run_id (has_status is_running) (answer_run answer now) t in
      if updated.0
      then with_citations t updated.1
          (insert_citations is_stored t.citations (map (citation_of run_id) citations))
      else (some false, t)

  unfoldable pub fail : ℕ → Text → Text → ℕ → Tables Score → Bool × Tables Score
  fail run_id code message now = update_tables run_id (has_status is_running) (λ r. record r {
    status = RunStatus.failed;
    failure_code = some code;
    failure_message = some message;
    completed_at = some now;
  })
