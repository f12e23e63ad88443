-- ===== src/Documents/Ingestion.antt =====
-- `DocumentIngestionService` of modules/documents/ingestion.py, at one document version. Only one
-- process holds the version's lock, so the newest run stays the run of this process. The parser is
-- the parameter `parse`, which takes the number of the attempt and may answer each differently; the
-- chunks are stored if they keep the unique constraints of modules/documents/models.py, and the
-- storing raises otherwise.
pub mod Attempts
pub mod Interrupted
use sourcetrace.Prelude.{
  ℕ, zero, suc, ◌+◌, Bool, true, false, not, ◌&&◌, ◌||◌, Option, none, some, List, [], ◌∷◌, ◌++◌,
  ◌==◌, nat_eq, list_eq, leb, some_of, if◌then◌else◌, Result, ok, err,
}
use sourcetrace.Text.{Text, codes}
use sourcetrace.Documents.Chunking.{ParsedPage, ChunkingConfig, Chunk, split}
use sourcetrace.Documents.Records.{
  Status, RunStage, parsing, chunking, queued, IngestionRun, DocumentVersion, Tables, Session,
  Raised, version_not_found, transient_error, Job, pure, raise, ◌>>=◌, ◌>>◌, commit, rollback,
  get_version, newest, get_latest_ingestion_run, create_ingestion_run, assign, assign_run,
}

pub record IngestionResult : Type 0 where
  pub status : Status
  pub stage : RunStage
  pub attempt_count : ℕ
  pub retryable : Bool
  pub failure_code : Option Text

-- What parsing, or storing the chunks, raises.
pub data IngestionError : Type 0 where
  permanent transient : Text → Text → IngestionError
  other : IngestionError

-- `_result`
abbrev pub result_of : IngestionRun → IngestionResult
result_of run = record {
  status = run.status;
  stage = run.stage;
  attempt_count = run.attempt_count;
  retryable = run.retryable;
  failure_code = run.failure_code;
}

-- `run.status in {"chunked", "completed", "failed"}`
abbrev pub is_settled : Status → Bool
is_settled Status.pending = false
is_settled Status.processing = false
is_settled _ = true

-- The unique constraints on chunks that a new chunk breaks beside an old one.
abbrev pub collides : Chunk → Chunk → Bool
collides a b =
    a.id == b.id
    || (a.chunking_config_version == b.chunking_config_version
        && ((a.page_number == b.page_number && a.page_chunk_index == b.page_chunk_index)
            || a.chunk_index == b.chunk_index))

-- `repository.create_chunks`: every row is inserted, or none.
unfoldable pub insert_chunks : List Chunk → List Chunk → Option (List Chunk)
insert_chunks stored [] = some stored
insert_chunks stored (c ∷ cs) =
    let rest = insert_chunks (stored ++ c ∷ []) cs in
    if some_of (collides c) stored then none else rest

-- `self._result(run)` of the run of this process.
abbrev pub current_result : Job IngestionResult
current_result s = elim (newest s.working.runs) [
  | none ↦ raise version_not_found s
  | some run ↦ pure (result_of run) s
]

abbrev pub note_failure : Text → Text → IngestionRun → IngestionRun
note_failure code message run = record run {
  retryable = true;
  failure_code = some code;
  failure_message = some message;
}

-- The third failed attempt is the last.
abbrev pub fail_run : Text → Text → Job (Option IngestionResult)
fail_run code message = do
  assign
      (λ r. record (note_failure code message r) {
        status = Status.failed;
        stage = RunStage.failed;
      })
      Status.failed
  commit
  result ← current_result
  pure (some result)

-- Before that the run waits for the next attempt.
abbrev pub requeue_run : Text → Text → Job (Option IngestionResult)
requeue_run code message = do
  assign (λ r. record (note_failure code message r) { status = Status.pending; stage = queued })
      Status.pending
  commit
  pure none

-- The end of `_record_transient_failure`.
unfoldable pub requeue_or_fail :
    Text → Text → Option DocumentVersion → Option IngestionRun → Job (Option IngestionResult)
requeue_or_fail code message (some version) (some run) =
    if leb 3 run.attempt_count then fail_run code message else requeue_run code message
requeue_or_fail code message _ _ = raise version_not_found

-- `_record_transient_failure`
unfoldable pub record_transient_failure : Text → Text → Job (Option IngestionResult)
unfolding requeue_or_fail
record_transient_failure code message = do
  rollback
  version ← get_version
  run ← get_latest_ingestion_run
  requeue_or_fail code message version run

-- A transient failure is the result of the last attempt, or is raised.
abbrev pub result_or_raise : Text → Text → Option IngestionResult → Job IngestionResult
result_or_raise code message (some result) = pure result
result_or_raise code message none = raise (transient_error code message)

abbrev pub temporary_code : Text
temporary_code = codes "INGESTION_TEMPORARY_FAILURE"

abbrev pub temporary_message : Text
temporary_message = codes "Document processing failed temporarily"

-- The `except` clauses of `_process_owned`.
unfoldable pub handle_failure : IngestionError → Job IngestionResult
unfolding record_transient_failure
handle_failure (permanent code message) = do
  assign
      (λ r. record r {
        status = Status.failed;
        stage = RunStage.failed;
        retryable = false;
        failure_code = some code;
        failure_message = some message;
      })
      Status.failed
  commit
  current_result
handle_failure (transient code message) = do
  result ← record_transient_failure code message
  result_or_raise code message result
handle_failure other = do
  result ← record_transient_failure temporary_code temporary_message
  result_or_raise temporary_code temporary_message result

-- A run is identified by its number: all runs here are of one version.
module _ (stable_id : ℕ → Text → ℕ → ℕ → ℕ) (encode : Text → List ℕ) (decode : List ℕ → Text)
    (parse : ℕ → Text → Result IngestionError (List ParsedPage)) (parser_version : Text)
    (config : ChunkingConfig) where
  -- What follows the `try` of `_process_owned`.
  unfoldable pub finish : Job IngestionResult
  finish = do
    assign (λ r. record r { status = Status.chunked; stage = RunStage.chunked; retryable = false })
        Status.chunked
    commit
    current_result

  -- The rest of the `try`, once `create_chunks` has answered.
  unfoldable pub store_chunks : Option (List Chunk) → Job IngestionResult
  unfolding finish handle_failure
  store_chunks none s = handle_failure other s
  store_chunks (some chunks) s =
      finish (record s { working = record s.working { chunks = chunks } })

  abbrev pub insert_pages :
      DocumentVersion → List ParsedPage → Option IngestionRun → Job IngestionResult
  insert_pages version pages none s = raise version_not_found s
  insert_pages version pages (some run) s =
      store_chunks
        (insert_chunks s.working.chunks
          (split stable_id encode decode config version.id run.run_number pages))
        s

  -- The body of the `try` after the parsing.
  unfoldable pub chunk_pages :
      DocumentVersion → Result IngestionError (List ParsedPage) → Job IngestionResult
  unfolding store_chunks insert_chunks
  chunk_pages version (err e) = handle_failure e
  chunk_pages version (ok pages) = do
    assign_run (λ r. record r { stage = chunking })
    commit
    run ← get_latest_ingestion_run
    insert_pages version pages run

  -- `_process_owned` once the run has started.
  unfoldable pub run_attempt : DocumentVersion → Text → Option IngestionRun → Job IngestionResult
  unfolding chunk_pages
  run_attempt version storage_key none = raise version_not_found
  run_attempt version storage_key (some run) =
      chunk_pages version (parse run.attempt_count storage_key)

  abbrev pub start_run : IngestionRun → IngestionRun
  start_run run = record run {
    status = Status.processing;
    stage = parsing;
    attempt_count = run.attempt_count + 1;
    failure_code = none;
    failure_message = none;
  }

  -- `_process_owned` from the assignments that start the run.
  unfoldable pub start_attempt : DocumentVersion → Text → Job IngestionResult
  unfolding run_attempt
  start_attempt version storage_key = do
    assign start_run Status.processing
    commit
    run ← get_latest_ingestion_run
    run_attempt version storage_key run

  abbrev pub ensure_run : Option IngestionRun → Job (Unit {0})
  ensure_run (some run) = pure tt
  ensure_run none =
      create_ingestion_run parser_version config.tokenizer config.chunk_size config.chunk_overlap
        config.version

  abbrev pub settled_result : Option IngestionRun → Option IngestionResult
  settled_result none = none
  settled_result (some run) = if is_settled run.status then some (result_of run) else none

  abbrev pub process_version :
      DocumentVersion → Text → Option IngestionRun → Option IngestionResult → Job IngestionResult
  process_version version storage_key run (some result) = pure result
  process_version version storage_key run none = do
    ensure_run run
    start_attempt version storage_key

  abbrev pub with_storage : Option DocumentVersion → Option IngestionRun → Job IngestionResult
  with_storage none run = raise version_not_found
  with_storage (some version) run = elim version.storage_key [
    | none ↦ raise version_not_found
    | some storage_key ↦ process_version version storage_key run (settled_result run)
  ]

  -- `_process_owned`
  unfoldable pub process_owned : Job IngestionResult
  unfolding start_attempt
  process_owned = do version ← get_version; run ← get_latest_ingestion_run; with_storage version run

  abbrev pub waiting_result : IngestionResult
  waiting_result = record {
    status = Status.pending;
    stage = queued;
    attempt_count = 0;
    retryable = false;
    failure_code = none;
  }

  -- `process`: `acquired` is whether the lock was free.
  unfoldable pub process : Bool → Job IngestionResult
  unfolding process_owned
  process true s = process_owned s
  process false s = elim (newest s.working.runs) [
    | none ↦ pure waiting_result s
    | some run ↦ pure (result_of run) s
  ]
