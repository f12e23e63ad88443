-- ===== src/Documents/Retry.antt =====
-- `DocumentIngestionCoordinator.retry` of modules/documents/ingestion.py. `queued` is whether the
-- queue takes the message.
pub mod Retried
use sourcetrace.Prelude.{
  ℕ, zero, suc, ◌+◌, Bool, true, false, not, ◌&&◌, ◌||◌, Option, none, some, List, [], ◌∷◌, ◌==◌,
  nat_eq, if◌then◌else◌, Result, ok, err,
}
use sourcetrace.Text.{Text, codes}
use sourcetrace.Documents.Chunking.{ChunkingConfig}
use sourcetrace.Documents.Records.{
  Status, RunStage, IngestionRun, DocumentVersion, Tables, Session, Raised, version_not_found,
  not_retryable, queue_unavailable, Job, pure, raise, ◌>>=◌, ◌>>◌, commit, get_version, newest,
  get_latest_ingestion_run, create_ingestion_run, assign,
}
use sourcetrace.Documents.Ingestion.{IngestionResult, current_result}
use sourcetrace.Documents.Indexing.{is_recorded}

abbrev pub is_failed : Status → Bool
is_failed Status.failed = true
is_failed _ = false

-- The new run goes on from the chunks of the previous one.
abbrev pub resume_indexing : IngestionRun → Job (Unit {0})
resume_indexing previous = do
  create_ingestion_run previous.parser_version previous.tokenizer previous.chunk_size
      previous.chunk_overlap previous.chunking_config_version
  assign
      (λ r. record r {
        status = Status.chunked;
        stage = RunStage.chunked;
        embedding_provider = previous.embedding_provider;
        embedding_model = previous.embedding_model;
        embedding_model_revision = previous.embedding_model_revision;
        embedding_dimension = previous.embedding_dimension;
        embedding_config_version = previous.embedding_config_version;
      })
      Status.chunked

abbrev pub give_back : Job IngestionResult
give_back = do
  assign
      (λ r. record r {
        status = Status.failed;
        stage = RunStage.failed;
        retryable = true;
        failure_code = some (codes "QUEUE_UNAVAILABLE");
        failure_message = some (codes "The ingestion queue is temporarily unavailable");
      })
      Status.failed
  commit
  raise queue_unavailable

abbrev pub enqueue : Bool → Job IngestionResult
enqueue true = current_result
enqueue false = give_back

module _ (parser_version : Text) (config : ChunkingConfig) where
  abbrev pub start_over : Job (Unit {0})
  start_over = do
    create_ingestion_run parser_version config.tokenizer config.chunk_size config.chunk_overlap
        config.version
    assign (λ r. r) Status.pending

  abbrev pub new_attempt : IngestionRun → Job (Unit {0})
  new_attempt previous =
      if is_recorded previous.embedding_model then resume_indexing previous else start_over

  abbrev pub retry_run : Bool → Option IngestionRun → Job IngestionResult
  retry_run queued none = raise not_retryable
  retry_run queued (some previous) =
      if not (is_failed previous.status) || not previous.retryable
      then raise not_retryable
      else do new_attempt previous; commit; enqueue queued

  abbrev pub retry_version :
      ℕ → Bool → Option DocumentVersion → Option IngestionRun → Job IngestionResult
  retry_version knowledge_base_id queued none previous = raise version_not_found
  retry_version knowledge_base_id queued (some version) previous =
      if not (version.knowledge_base_id == knowledge_base_id)
      then raise version_not_found
      else retry_run queued previous

  -- `retry`
  unfoldable pub retry : ℕ → Bool → Job IngestionResult
  retry knowledge_base_id queued = do
    version ← get_version
    previous ← get_latest_ingestion_run
    retry_version knowledge_base_id queued version previous
