-- ===== src/Documents/Indexing.antt =====
-- `DocumentIndexingService` of modules/documents/indexing.py, at one document version, and
-- `validate_embeddings` of rag/embeddings.py. The embedding model is the parameter `embed`, which
-- takes the number of the attempt; `is_finite` and `has_unit_norm` test floats.
pub mod Rounds
use sourcetrace.Prelude.{
  ℕ, zero, suc, ◌+◌, max, Bool, true, false, not, ◌&&◌, ◌||◌, Option, none, some, List, [], ◌∷◌,
  ◌++◌, map, ◌==◌, Eq, nat_eq, list_eq, leb, every, length, if◌then◌else◌, Result, ok, err,
}
use sourcetrace.Text.{Text, codes}
use sourcetrace.Documents.Chunking.{Chunk}
use sourcetrace.Documents.Records.{
  Status, RunStage, embedding, indexing, IngestionRun, DocumentVersion, Tables, Session, Raised,
  version_not_found, transient_error, Job, pure, raise, ◌>>=◌, ◌>>◌, commit, rollback, get_version,
  newest, get_latest_ingestion_run, assign, assign_run,
}
use sourcetrace.Documents.Ingestion.{IngestionResult, note_failure}

pub record EmbeddingConfig : Type 0 where
  pub provider : Text
  pub model : Text
  pub revision : Text
  pub batch_size : ℕ
  pub dimension : ℕ
  pub version : Text

-- What the embedding raises: an `EmbeddingProviderError`, or another exception.
pub data EmbeddingError : Type 0 where
  provider_error : Text → Text → EmbeddingError
  other : EmbeddingError

-- `_result`
abbrev pub index_result_of : IngestionRun → IngestionResult
index_result_of run = record {
  status = run.status;
  stage = run.stage;
  attempt_count = max run.attempt_count run.embedding_attempt_count;
  retryable = run.retryable;
  failure_code = run.failure_code;
}

abbrev pub current_index_result : Job IngestionResult
current_index_result s = elim (newest s.working.runs) [
  | none ↦ raise version_not_found s
  | some run ↦ pure (index_result_of run) s
]

abbrev pub is_chunked : Status → Bool
is_chunked Status.chunked = true
is_chunked _ = false

abbrev pub is_completed : Status → Bool
is_completed Status.completed = true
is_completed _ = false

-- A column that may be `None` against a value.
abbrev pub holds_text : Option Text → Text → Bool
holds_text none b = false
holds_text (some a) b = a == b

abbrev pub holds_number : Option ℕ → ℕ → Bool
holds_number none b = false
holds_number (some a) b = a == b

abbrev pub is_recorded : Option Text → Bool
is_recorded none = false
is_recorded (some model) = true

-- The failures that no retry can mend.
abbrev pub fail_index : Text → Text → Job IngestionResult
fail_index code message = do
  assign
      (λ r. record r {
        status = Status.failed;
        stage = RunStage.failed;
        retryable = false;
        failure_code = some code;
        failure_message = some message;
      })
      Status.failed
  commit
  current_index_result

-- The third failed attempt is the last.
abbrev pub fail_index_run : Text → Text → Job (Option IngestionResult)
fail_index_run code message = do
  assign
      (λ r. record (note_failure code message r) {
        status = Status.failed;
        stage = RunStage.failed;
      })
      Status.failed
  commit
  result ← current_index_result
  pure (some result)

abbrev pub requeue_index_run : Text → Text → Job (Option IngestionResult)
requeue_index_run code message = do
  assign
      (λ r. record (note_failure code message r) {
        status = Status.chunked;
        stage = RunStage.chunked;
      })
      Status.chunked
  commit
  pure none

unfoldable pub requeue_or_fail_index :
    Text → Text → Option DocumentVersion → Option IngestionRun → Job (Option IngestionResult)
requeue_or_fail_index code message (some version) (some run) =
    if leb 3 run.embedding_attempt_count
    then fail_index_run code message
    else requeue_index_run code message
requeue_or_fail_index code message _ _ = raise version_not_found

-- `_record_transient_failure`
unfoldable pub record_index_failure : Text → Text → Job (Option IngestionResult)
unfolding requeue_or_fail_index
record_index_failure code message = do
  rollback
  version ← get_version
  run ← get_latest_ingestion_run
  requeue_or_fail_index code message version run

abbrev pub index_result_or_raise : Text → Text → Option IngestionResult → Job IngestionResult
index_result_or_raise code message (some result) = pure result
index_result_or_raise code message none = raise (transient_error code message)

abbrev pub fail_attempt : Text → Text → Job IngestionResult
fail_attempt code message = do
  result ← record_index_failure code message
  index_result_or_raise code message result

-- The `except` clauses of `_process_owned`.
unfoldable pub handle_index_failure : EmbeddingError → Job IngestionResult
unfolding record_index_failure
handle_index_failure (provider_error code message) = fail_attempt code message
handle_index_failure other =
    fail_attempt (codes "INDEXING_TEMPORARY_FAILURE") (codes "Document indexing failed temporarily")

-- `zip(chunks, embeddings, strict=True)` of `set_chunk_embeddings`, after the count is checked.
abbrev pub with_embeddings : List Chunk → List (List ℕ) → List Chunk
with_embeddings (c ∷ cs) (v ∷ vs) = record c { embedding = some v } ∷ with_embeddings cs vs
with_embeddings cs _ = cs

module _ (is_finite : ℕ → Bool) (has_unit_norm : List ℕ → Bool)
    (embed : ℕ → List Text → Result EmbeddingError (List (List ℕ))) (config : EmbeddingConfig) where
  abbrev pub is_valid_vector : ℕ → List ℕ → Bool
  is_valid_vector dimension v = length v == dimension && every is_finite v && has_unit_norm v

  -- `validate_embeddings`
  unfoldable pub validate_embeddings : List (List ℕ) → ℕ → ℕ → Result EmbeddingError (List (List ℕ))
  validate_embeddings vectors expected_count dimension =
      if not (length vectors == expected_count) || not (every (is_valid_vector dimension) vectors)
      then err (
          provider_error (codes "EMBEDDING_INVALID_OUTPUT")
            (codes "Embedding model returned an invalid vector"))
      else ok vectors

  -- `_config_matches`
  abbrev pub config_matches : IngestionRun → Bool
  config_matches run =
      holds_text run.embedding_provider config.provider
      && holds_text run.embedding_model config.model
      && holds_text run.embedding_model_revision config.revision
      && holds_number run.embedding_dimension config.dimension
      && holds_text run.embedding_config_version config.version

  -- The configuration is recorded at the first attempt.
  abbrev pub record_config : IngestionRun → IngestionRun
  record_config run = if is_recorded run.embedding_model then run else record run {
    embedding_provider = some config.provider;
    embedding_model = some config.model;
    embedding_model_revision = some config.revision;
    embedding_dimension = some config.dimension;
    embedding_config_version = some config.version;
  }

  abbrev pub start_index : IngestionRun → IngestionRun
  start_index run = record (record_config run) {
    status = Status.processing;
    stage = embedding;
    embedding_attempt_count = run.embedding_attempt_count + 1;
    retryable = false;
    failure_code = none;
    failure_message = none;
  }

  abbrev pub store_embeddings : List (List ℕ) → Job (Unit {0})
  store_embeddings vectors s = (
    ok tt,
    record s { working = record s.working { chunks = with_embeddings s.working.chunks vectors } },
  )

  -- The `try` once the vectors are validated.
  unfoldable pub index_vectors : Result EmbeddingError (List (List ℕ)) → Job IngestionResult
  unfolding handle_index_failure
  index_vectors (err e) = handle_index_failure e
  index_vectors (ok vectors) = do
    assign_run (λ r. record r { stage = indexing })
    commit
    store_embeddings vectors
    assign
        (λ r. record r { status = Status.completed; stage = RunStage.completed; retryable = false })
        Status.completed
    commit
    current_index_result

  abbrev pub validated :
      Result EmbeddingError (List (List ℕ)) → ℕ → Result EmbeddingError (List (List ℕ))
  validated (err e) count = err e
  validated (ok vectors) count = validate_embeddings vectors count config.dimension

  -- `_process_owned` from the assignments that start the attempt.
  unfoldable pub start_indexing : IngestionRun → List Chunk → Job IngestionResult
  unfolding index_vectors validate_embeddings
  start_indexing run chunks = do
    assign start_index Status.processing
    commit
    index_vectors (
        validated (embed (run.embedding_attempt_count + 1) (map (λ c. c.text) chunks))
          (length chunks))

  abbrev pub index_chunks : IngestionRun → List Chunk → Job IngestionResult
  index_chunks run [] =
      fail_index (codes "CHUNKS_NOT_FOUND") (codes "Document contains no chunks to index")
  index_chunks run (c ∷ cs) =
      if is_recorded run.embedding_model && not (config_matches run)
      then fail_index (codes "EMBEDDING_CONFIG_MISMATCH")
          (codes "Recorded embedding configuration is incompatible")
      else start_indexing run (c ∷ cs)

  abbrev pub index_version :
      Option DocumentVersion → Option IngestionRun → List Chunk → Job IngestionResult
  index_version (some version) (some run) chunks =
      if is_completed version.status && is_completed run.status
      then pure (index_result_of run)
      else if not (is_chunked version.status) || not (is_chunked run.status)
      then pure (index_result_of run)
      else index_chunks run chunks
  index_version _ _ chunks = raise version_not_found

  -- `_process_owned`
  unfoldable pub index_owned : Job IngestionResult
  unfolding start_indexing
  index_owned s = index_version s.working.version (newest s.working.runs) s.working.chunks s

  -- `process`: `acquired` is whether the lock was free.
  unfoldable pub index : Bool → Job IngestionResult
  unfolding index_owned
  index true s = index_owned s
  index false s = current_index_result s
