-- ===== src/Answers/Stream.antt =====
-- `AnswerService` of modules/answers/service.py: the stream of one run. The generator is a job over
-- the tables, the events that the client has taken and those that it will still take: it closes
-- the stream at the next `yield` after that. `moves n` is what the other callers of the repository
-- do to the tables before the `n`-th call of this stream. The workflow is its events and its end.
pub mod Owned
pub mod Settled
use sourcetrace.Prelude.{
  ℕ, zero, suc, ◌+◌, Bool, true, false, not, Option, none, some, List, [], ◌∷◌, ◌++◌, map,
  if◌then◌else◌, Result, ok, err,
}
use sourcetrace.Text.{Text, codes}
use sourcetrace.Retrieval.Evidence.{RetrievedEvidence}
use sourcetrace.Rag.Workflow.State.{
  Stage, analyzing, retrieving, assessing, generating, validating, repairing, WorkflowEvent,
  RefusalCode,
}
use sourcetrace.Answers.Records.{
  CitationDraft, Tables, AnswerEvent, StreamStatus, refusal_code_of, refusal_message_of,
}
use sourcetrace.Answers.Repository as Repository
use sourcetrace.Answers.Repository.Operations.{Operation, apply_all}

-- How the workflow's stream ends after its events: by itself, by an error of a provider that has a
-- code and a message, by another error, or since the task is cancelled.
pub data Ending : Type 0 where
  finished unknown_error task_cancelled : Ending
  known_error : Text → Text → Ending

-- What leaves the generator: `GeneratorExit` and `CancelledError`, a provider's error, or another.
pub data Stop : Type 0 where
  closed unexpected : Stop
  known : Text → Text → Stop

pub record World (Score : Type 0) : Type 0 where
  pub tables : Tables Score
  pub calls : ℕ
  pub sent : List AnswerEvent
  pub patience : ℕ

abbrev pub Job : Type 0 → Type 0 → Type 0
Job Score A = World Score → Result Stop A × World Score

module _ {Score : Type 0} where
  abbrev pub pure : {A : Type 0} → A → Job Score A
  pure a w = (ok a, w)

  abbrev pub stop : {A : Type 0} → Stop → Job Score A
  stop s w = (err s, w)

  abbrev pub go_on : {A B : Type 0} → Result Stop A → (A → Job Score B) → Job Score B
  go_on (ok a) f w = f a w
  go_on (err s) f w = (err s, w)

  infixl 5 ◌>>=◌ ◌>>◌
  abbrev pub ◌>>=◌ : {A B : Type 0} → Job Score A → (A → Job Score B) → Job Score B
  ◌>>=◌ m f w = go_on (m w).0 f (m w).1

  abbrev pub ◌>>◌ : {A B : Type 0} → Job Score A → Job Score B → Job Score B
  m >> k = m >>= λ _. k

  abbrev pub yield_at : ℕ → AnswerEvent → Job Score (Unit {0})
  yield_at zero e w = (err closed, record w { sent = w.sent ++ e ∷ [] })
  yield_at (suc n) e w = (ok tt, record w { sent = w.sent ++ e ∷ []; patience = n })

  -- `yield e`
  unfoldable pub yield : AnswerEvent → Job Score (Unit {0})
  yield e w = yield_at w.patience e w

  -- `_citation_draft`
  abbrev pub citation_draft : (ℕ → ℕ → ℕ) → ℕ → RetrievedEvidence Score → CitationDraft
  citation_draft uuid5 run_id evidence = record {
    id = uuid5 run_id evidence.chunk_id;
    chunk_id = evidence.chunk_id;
    document_id = evidence.document_id;
    document_version_id = evidence.document_version_id;
    document_name = evidence.document_name;
    page_number = evidence.page_number;
    excerpt = evidence.text;
  }

-- `event.stage in {"analyzing", "retrieving", "assessing"}`
abbrev pub is_retrieval : Stage → Bool
is_retrieval analyzing = true
is_retrieval retrieving = true
is_retrieval assessing = true
is_retrieval _ = false

module _ {Score : Type 0} (moves : ℕ → List (Operation Score)) (now : ℕ → ℕ)
    (is_stored : ℕ → ℕ → Bool) (uuid5 : ℕ → ℕ → ℕ) (run_id : ℕ) where
  -- A call of the repository, and its commit. It takes the time and the number of the call.
  unfoldable pub call : {A : Type 0} → (ℕ → Tables Score → A × Tables Score) → Job Score A
  call f w =
      let answer = f w.calls (apply_all (moves w.calls) w.tables) in
      (ok answer.0, record w { tables = answer.1; calls = w.calls + 1 })

  -- `_cancel`
  abbrev pub cancel_run : Job Score Bool
  cancel_run = call (λ n. Repository.cancel run_id (now n))

  -- `yield await self._cancel(run_id)`
  unfoldable pub cancel_event : Job Score (Unit {0})
  cancel_event = do cancel_run; yield AnswerEvent.cancelled

  -- `_fail`
  abbrev pub fail_run : Text → Text → Job Score Bool
  fail_run code message = call (λ n. Repository.fail run_id code message (now n))

  -- The `except` clauses that end the run: it fails, or it was cancelled.
  unfoldable pub fail_event : Text → Text → Job Score (Unit {0})
  unfolding cancel_event
  fail_event code message = do
    failed ← fail_run code message
    if failed then yield (AnswerEvent.error code message) else cancel_event

  -- The branch of `WorkflowRefused`.
  unfoldable pub refuse_run : RefusalCode → Job Score (Unit {0})
  unfolding cancel_event
  refuse_run code = do
    done ← call (λ n.
        Repository.complete_refusal run_id (refusal_code_of code) (refusal_message_of code) (now n))
    if done
        then yield (AnswerEvent.refusal (refusal_code_of code) (refusal_message_of code))
        else cancel_event

  abbrev pub answer_event : Text → List CitationDraft → Option Bool → Job Score (Unit {0})
  answer_event answer drafts none = stop unexpected
  answer_event answer drafts (some done) =
      if done then yield (AnswerEvent.final answer drafts) else cancel_event

  -- The branch of `WorkflowAnswered`.
  unfoldable pub answer_run : Text → List (RetrievedEvidence Score) → Job Score (Unit {0})
  unfolding cancel_event
  answer_run answer evidence = do
    let drafts = map (citation_draft uuid5 run_id) evidence
    done ← call (λ n. Repository.complete_answer (is_stored n) run_id answer drafts (now n))
    answer_event answer drafts done

  abbrev pub end_events : Ending → Job Score (Unit {0})
  end_events finished = stop unexpected
  end_events unknown_error = stop unexpected
  end_events task_cancelled = stop closed
  end_events (known_error code message) = stop (known code message)

  abbrev pub yield_unless : Bool → StreamStatus → Job Score (Unit {0})
  yield_unless true s = pure tt
  yield_unless false s = yield (AnswerEvent.status s)

  -- The loop over the events of the workflow, with `emitted_retrieving` and `emitted_generating`.
  unfoldable pub read_events :
      Bool → Bool → List (WorkflowEvent Score) → Ending → Job Score (Unit {0})
  unfolding refuse_run answer_run cancel_event
  read_events has_retrieving has_generating [] ending = end_events ending
  read_events has_retrieving has_generating (WorkflowEvent.status stage ∷ events) ending =
      let rest = read_events true has_generating events ending in
      let rest' = read_events has_retrieving true events ending in
      if is_retrieval stage
      then yield_unless has_retrieving StreamStatus.retrieving >> rest
      else yield_unless has_generating StreamStatus.generating >> rest'
  read_events has_retrieving has_generating (WorkflowEvent.delta text ∷ events) ending = do
    yield (AnswerEvent.delta text)
    read_events has_retrieving has_generating events ending
  read_events has_retrieving has_generating (WorkflowEvent.cancelled ∷ events) ending = cancel_event
  read_events has_retrieving has_generating (WorkflowEvent.refused code ∷ events) ending =
      refuse_run code
  read_events has_retrieving has_generating (WorkflowEvent.answered answer evidence ∷ events)
        ending =
      answer_run answer evidence

  -- `except (EmbeddingProviderError, LlmProviderError, ...)`
  unfoldable pub catch_known :
      Result Stop (Unit {0}) × World Score → Result Stop (Unit {0}) × World Score
  unfolding fail_event
  catch_known (err (known code message), w) = fail_event code message w
  catch_known x = x

  -- `_execute_stream`
  unfoldable pub execute_stream : List (WorkflowEvent Score) → Ending → Job Score (Unit {0})
  unfolding read_events catch_known cancel_event
  execute_stream events ending = do
    marked ← call (λ n. Repository.mark_running run_id)
    if marked then (λ w. catch_known (read_events false false events ending w)) else cancel_event

  abbrev pub unexpected_code : Text
  unexpected_code = codes "ANSWER_RUN_UNEXPECTED_ERROR"

  abbrev pub unexpected_message : Text
  unexpected_message = codes "Answer generation failed unexpectedly"

  -- The `except` clauses of `_stream`.
  unfoldable pub catch_all :
      Result Stop (Unit {0}) × World Score → Result Stop (Unit {0}) × World Score
  unfolding fail_event
  catch_all (ok a, w) = (ok a, w)
  catch_all (err closed, w) = (cancel_run >> stop closed) w
  catch_all (err unexpected, w) = fail_event unexpected_code unexpected_message w
  catch_all (err (known code message), w) = fail_event unexpected_code unexpected_message w

  -- `_stream`
  unfoldable pub stream : List (WorkflowEvent Score) → Ending → Job Score (Unit {0})
  unfolding execute_stream catch_all
  stream events ending w = catch_all (execute_stream events ending w)
