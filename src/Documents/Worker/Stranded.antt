-- ===== src/Documents/Worker/Stranded.antt =====
-- The message of workers/tasks.py whose last delivery ingests the version, and fails to index it.
use sourcetrace.Prelude.{
  ℕ, ◌==◌, nat_eq, ◌≡◌, refl, Bool, true, false, Option, none, some, List, ◌∷◌, map, Result, ok,
  err, arith,
}
use sourcetrace.Text.{Text}
use sourcetrace.Documents.Chunking.{ParsedPage, ChunkingConfig, Chunk, split}
use sourcetrace.Documents.Records.{
  Status, RunStage, IngestionRun, DocumentVersion, Tables, not_retryable, newest,
}
use sourcetrace.Documents.Ingestion.{
  IngestionError, insert_chunks, process, process_owned, start_attempt, run_attempt, chunk_pages,
  store_chunks, finish,
}
use sourcetrace.Documents.Indexing.{
  EmbeddingConfig, EmbeddingError, provider_error, other, start_index, index, index_owned,
  start_indexing, index_vectors, handle_index_failure, record_index_failure, requeue_or_fail_index,
}
use sourcetrace.Documents.Retry.{retry}
use sourcetrace.Documents.Worker.{
  finished, Settings, settings_config, check_embedding_config, chunking_config_for_run,
  embedding_config_for_run, provider_of, Work, ingest_document_version, work,
}

-- The run waits after two failed attempts to ingest, and has not been indexed.
abbrev pub twice_failed : IngestionRun → IngestionRun
twice_failed run = record run {
  status = Status.pending;
  attempt_count = 2;
  embedding_attempt_count = 0;
  embedding_model = none;
}

abbrev IsChunkedRun : Option IngestionRun → Type 0
IsChunkedRun none = ⊥
IsChunkedRun (some run) = (run.status ≡ Status.chunked) × (run.retryable ≡ true)

own_version :
    (version : DocumentVersion) → version.knowledge_base_id == version.knowledge_base_id ≡ true
own_version version = ground arith

module _ (parser_version : Text) (config : ChunkingConfig) where
  -- The message has raised, its run is chunked, and no retry is let through.
  abbrev pub IsStranded : ℕ → Work → Type 0
  IsStranded knowledge_base_id (ok a, s) = ⊥
  IsStranded knowledge_base_id (err e, s) =
      IsChunkedRun (newest s.working.runs)
      × (retry parser_version config knowledge_base_id true s ≡ (err not_retryable, s))

  -- The first failure of indexing.
  handle_index_failure-IsStranded :
      (e : EmbeddingError) (version : DocumentVersion) (run : IngestionRun)
      (runs : List IngestionRun) (chunks : List Chunk)
      → let t : Tables = record {
        version = some version;
        runs = record run { embedding_attempt_count = 1 } ∷ runs;
        chunks = chunks;
      } in
        IsStranded version.knowledge_base_id
          (finished (handle_index_failure e (record { working = t; committed = t })))
  unfolding handle_index_failure record_index_failure requeue_or_fail_index retry
  handle_index_failure-IsStranded (provider_error code message) version run runs chunks =
      ((refl, refl), rw (own_version version) refl)
  handle_index_failure-IsStranded other version run runs chunks =
      ((refl, refl), rw (own_version version) refl)

module _ (stable_id : ℕ → Text → ℕ → ℕ → ℕ) (encode : Text → List ℕ) (decode : List ℕ → Text)
    (parse : ℕ → Text → Result IngestionError (List ParsedPage)) (parser_version : Text)
    (is_finite : ℕ → Bool) (has_unit_norm : List ℕ → Bool)
    (embed : EmbeddingConfig → ℕ → List Text → Result EmbeddingError (List (List ℕ)))
    (settings : Settings) where
  -- When the run of a version waits after two failed attempts to ingest it, and at the last
  -- delivery of its message the parser gives pages that are chunked and stored while the embedding
  -- raises, the message ends with an error and leaves the run chunked and marked as retryable, but
  -- retry refuses it and changes nothing.
  pub work-IsStranded :
      (version : DocumentVersion) (run : IngestionRun) (runs : List IngestionRun)
      (stored : List Chunk) (key : Text) (chunking : ChunkingConfig) (config : EmbeddingConfig)
      (pages : List ParsedPage) (c : Chunk) (cs : List Chunk) (e : EmbeddingError)
      → version.storage_key ≡ some key
      → chunking_config_for_run settings (some (twice_failed run)) ≡ ok chunking
      → provider_of (check_embedding_config (settings_config settings)) ≡ ok config
      → parse 3 key ≡ ok pages
      → insert_chunks stored
          (split stable_id encode decode chunking version.id run.run_number pages)
        ≡ some (c ∷ cs)
      → embed config 1 (map (λ x. x.text) (c ∷ cs)) ≡ err e
      → let t : Tables = record {
        version = some version;
        runs = twice_failed run ∷ runs;
        chunks = stored;
      } in
        IsStranded parser_version chunking version.knowledge_base_id (
          work stable_id encode decode parse parser_version is_finite has_unit_norm embed settings 0
            (record { working = t; committed = t }))
  unfolding work ingest_document_version process process_owned start_attempt run_attempt chunk_pages
      store_chunks finish index index_owned start_indexing index_vectors handle_index_failure
      record_index_failure requeue_or_fail_index embedding_config_for_run
  work-IsStranded version run runs stored key chunking config pages c cs e file ready provider
        parsed done fails =
      rw (ready, file, parsed, done, provider, fails)
        (handle_index_failure-IsStranded parser_version chunking e
          (record version { storage_key = some key; status = Status.processing })
          (start_index is_finite has_unit_norm (embed config) config (record (twice_failed run) {
            status = Status.chunked;
            stage = RunStage.chunked;
            attempt_count = 3;
            retryable = false;
            failure_code = none;
            failure_message = none;
          }))
          runs (c ∷ cs))
