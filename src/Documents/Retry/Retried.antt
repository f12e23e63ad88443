-- ===== src/Documents/Retry/Retried.antt =====
-- `DocumentIngestionCoordinator.retry` of modules/documents/ingestion.py: what it leaves.
use sourcetrace.Prelude.{
  if◌then◌else◌, ℕ, ◌+◌, ◌≡◌, refl, Bool, true, false, not, ◌||◌, some, List, [], ◌∷◌, ◌==◌, nat_eq,
  ◌&&◌, Result, ok, err, Bool-cases, inl, inr, arith,
}
use sourcetrace.Text.{Text}
use sourcetrace.Documents.Chunking.{Chunk, ChunkingConfig}
use sourcetrace.Documents.Records.{
  Status, RunStage, IngestionRun, DocumentVersion, Tables, Session, Raised, version_not_found,
  not_retryable, queue_unavailable, transient_error, new_run,
}
use sourcetrace.Documents.Ingestion.{IngestionResult, result_of}
use sourcetrace.Documents.Ingestion.Attempts.{Agrees, IsAtRest}
use sourcetrace.Documents.Indexing.{is_recorded}
use sourcetrace.Documents.Retry.{is_failed, enqueue, retry}

-- The newest run can be retried.
abbrev pub IsRetryable : IngestionRun → Type 0
IsRetryable run = (run.status ≡ Status.failed) × (run.retryable ≡ true)

module _ (parser_version : Text) (config : ChunkingConfig) where
  -- What a new run takes over. After a run that got as far as an embedding model, the indexing goes
  -- on with its configuration; after any other the ingestion starts over with the current one.
  abbrev pub GoesOn : IngestionRun → IngestionRun → Type 0
  GoesOn previous run =
      (is_recorded previous.embedding_model ≡ true
        → (run.parser_version ≡ previous.parser_version)
          × (run.tokenizer ≡ previous.tokenizer)
          × (run.chunk_size ≡ previous.chunk_size)
          × (run.chunk_overlap ≡ previous.chunk_overlap)
          × (run.embedding_model ≡ previous.embedding_model)
          × (run.embedding_dimension ≡ previous.embedding_dimension))
      × (is_recorded previous.embedding_model ≡ false
          → (run.parser_version ≡ parser_version)
            × (run.tokenizer ≡ config.tokenizer)
            × (run.chunk_size ≡ config.chunk_size)
            × (run.chunk_overlap ≡ config.chunk_overlap)
            × (is_recorded run.embedding_model ≡ false))

  -- The newest run is new: it has the next number, no attempts, and what it takes over.
  abbrev pub IsNext : IngestionRun → IngestionRun → Type 0
  IsNext previous run =
      (run.run_number ≡ previous.run_number + 1) × (run.attempt_count ≡ 0) × GoesOn previous run

  -- It waits to be indexed, or to be ingested.
  abbrev pub Waits : IngestionRun → IngestionRun → Type 0
  Waits previous run =
      run.status ≡ (if is_recorded previous.embedding_model then Status.chunked else Status.pending)

  -- The newest of the runs, and what it is.
  abbrev pub Newest : (IngestionRun → Type 0) → List IngestionRun → List IngestionRun → Type 0
  Newest P old [] = ⊥
  Newest P old (run ∷ runs) = P run × (runs ≡ old)

  -- What `retry` leaves of the session `s`, where `old` are the runs of the version and `previous`
  -- is the newest of them. A new run is made in the first two cases only.
  abbrev pub Retried :
      ℕ
      → Bool
      → DocumentVersion
      → IngestionRun
      → List IngestionRun
      → Session
      → Result Raised IngestionResult × Session
      → Type 0
  Retried knowledge_base_id queued version previous old s (ok result, s') =
      IsAtRest s'
      × Newest (λ run. IsNext previous run × Waits previous run × (result ≡ result_of run)) old
          s'.working.runs
      × (version.knowledge_base_id ≡ knowledge_base_id)
      × (queued ≡ true)
      × IsRetryable previous
  Retried knowledge_base_id queued version previous old s (err queue_unavailable, s') =
      IsAtRest s'
      × Newest (λ run. IsNext previous run × IsRetryable run) old s'.working.runs
      × (version.knowledge_base_id ≡ knowledge_base_id)
      × (queued ≡ false)
      × IsRetryable previous
  Retried knowledge_base_id queued version previous old s (err not_retryable, s') =
      (s' ≡ s)
      × (version.knowledge_base_id ≡ knowledge_base_id)
      × (is_failed previous.status && previous.retryable ≡ false)
  Retried knowledge_base_id queued version previous old s (err version_not_found, s') =
      (s' ≡ s) × (version.knowledge_base_id == knowledge_base_id ≡ false)
  Retried knowledge_base_id queued version previous old s (err (transient_error code message), s') =
      ⊥

  is_failed_iff : (status : Status) → is_failed status ≡ true → status ≡ Status.failed
  is_failed_iff status h = ground arith

  enqueue-Retried :
      (knowledge_base_id : ℕ) (queued : Bool) (old : DocumentVersion) (s : Session)
      (version : DocumentVersion) (previous run : IngestionRun) (runs : List IngestionRun)
      (chunks : List Chunk)
      → old.knowledge_base_id ≡ knowledge_base_id
      → IsRetryable previous
      → let t : Tables = record { version = some version; runs = run ∷ runs; chunks = chunks } in
        Agrees (some version) (run ∷ runs)
        → IsNext previous run
        → Waits previous run
        → Retried knowledge_base_id queued old previous runs s
            (enqueue queued (record { working = t; committed = t }))
  enqueue-Retried knowledge_base_id true old s version previous run runs chunks own failed agrees
        next waits =
      (record { saved = refl; agrees = agrees }, ((next, waits, refl), refl), own, refl, failed)
  enqueue-Retried knowledge_base_id false old s version previous run runs chunks own failed agrees
        next waits =
      (
        record { saved = refl; agrees = (refl, tt, λ h. cc) },
        ((next, (refl, refl)), refl),
        own,
        refl,
        failed,
      )

  -- For a version with a run, retry makes a new run only for a version of the knowledge base whose
  -- newest run has failed and may be retried. The new run follows the old ones with the next number
  -- and no attempts; it has the chunking and the embedding model of the previous run where that had
  -- a model, and otherwise the current chunking and no model. When retry returns, the queue has
  -- taken the message, and the new run is the result and waits, to be indexed where the previous
  -- run had a model and else to be ingested; when the queue is unavailable, the new run has failed
  -- and may be retried. In both cases everything is committed and the version agrees with its
  -- newest run. The other errors change nothing, and each is raised only in its case.
  pub retry-Retried :
      (knowledge_base_id : ℕ) (queued : Bool) (version : DocumentVersion) (previous : IngestionRun)
      (runs : List IngestionRun) (chunks : List Chunk) (committed : Tables)
      → let s : Session = record {
        working = record { version = some version; runs = previous ∷ runs; chunks = chunks };
        committed = committed;
      } in
        Retried knowledge_base_id queued version previous
          (previous ∷ runs)
          s
          (retry parser_version config knowledge_base_id queued s)
  unfolding retry
  retry-Retried knowledge_base_id queued version previous runs chunks committed =
      elim (Bool-cases (version.knowledge_base_id == knowledge_base_id)) [
        | inr other ↦ rw other (refl, other)
        | inl own ↦ elim (Bool-cases (not (is_failed previous.status) || not previous.retryable)) [
          | inl settled ↦ rw (own, settled) (refl, ground arith, ground arith)
          | inr failed ↦ elim (Bool-cases (is_recorded previous.embedding_model)) [
            | inl indexed ↦
                rw (own, failed, indexed)
                  (enqueue-Retried knowledge_base_id queued version
                    (record {
                      working = record {
                        version = some version;
                        runs = previous ∷ runs;
                        chunks = chunks;
                      };
                      committed = committed;
                    })
                    (record version { status = Status.chunked }) previous
                    (record (new_run (previous ∷ runs) previous.parser_version previous.tokenizer
                      previous.chunk_size previous.chunk_overlap previous.chunking_config_version) {
                        status = Status.chunked;
                        stage = RunStage.chunked;
                        embedding_provider = previous.embedding_provider;
                        embedding_model = previous.embedding_model;
                        embedding_model_revision = previous.embedding_model_revision;
                        embedding_dimension = previous.embedding_dimension;
                        embedding_config_version = previous.embedding_config_version;
                      })
                    (previous ∷ runs) chunks (ground arith)
                    (is_failed_iff previous.status (ground arith), ground arith) (refl, tt, λ h. cc)
                    (refl, refl, (λ e. (refl, refl, refl, refl, refl, refl), λ e. ground arith))
                    (rw indexed refl))
            | inr fresh ↦
                rw (own, failed, fresh)
                  (enqueue-Retried knowledge_base_id queued version
                    (record {
                      working = record {
                        version = some version;
                        runs = previous ∷ runs;
                        chunks = chunks;
                      };
                      committed = committed;
                    })
                    (record version { status = Status.pending }) previous
                    (new_run (previous ∷ runs) parser_version config.tokenizer config.chunk_size
                      config.chunk_overlap config.version)
                    (previous ∷ runs) chunks (ground arith)
                    (is_failed_iff previous.status (ground arith), ground arith)
                    (refl, tt, λ h. omega arith)
                    (refl, refl, (λ e. ground arith, λ e. (refl, refl, refl, refl, refl)))
                    (rw fresh refl))
          ]
        ]
      ]
