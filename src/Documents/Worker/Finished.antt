-- ===== src/Documents/Worker/Finished.antt =====
-- The message of workers/tasks.py at a version whose chunks are stored: its deliveries.
use sourcetrace.Prelude.{
  ℕ, zero, suc, ◌+◌, ◌≤◌, ◌≡◌, refl, sym, ap, ◌∙◌, subst, Bool, true, Option, some, List, [], ◌∷◌,
  nat_eq, list_eq, Result, ok, err, Bool-cases, Option-cases, inl, inr, arith,
}
use sourcetrace.Text.{Text}
use sourcetrace.Documents.Chunking.{ParsedPage, ChunkingConfig, Chunk}
use sourcetrace.Documents.Records.{
  Status, RunStage, IngestionRun, DocumentVersion, Tables, Session, Raised, version_not_found,
  not_retryable, queue_unavailable, transient_error,
}
use sourcetrace.Documents.Ingestion.{IngestionResult, IngestionError, process, process_owned}
use sourcetrace.Documents.Ingestion.Attempts.{IsAtRest}
use sourcetrace.Documents.Indexing.{
  EmbeddingConfig, EmbeddingError, is_recorded, start_index, index,
}
use sourcetrace.Documents.Indexing.Rounds.{IsIndexed, IsWaiting, Outcome, index-Outcome}
use sourcetrace.Documents.Worker.{
  WorkError, Settings, settings_config, check_embedding_config, chunking_config_for_run,
  embedding_config_for_run, get_embedding_provider, provider_of, Work, finished, redelivered,
  ingest_document_version, work,
}

module _ (stable_id : ℕ → Text → ℕ → ℕ → ℕ) (encode : Text → List ℕ) (decode : List ℕ → Text)
    (parse : ℕ → Text → Result IngestionError (List ParsedPage)) (parser_version : Text)
    (is_finite : ℕ → Bool) (has_unit_norm : List ℕ → Bool)
    (embed : EmbeddingConfig → ℕ → List Text → Result EmbeddingError (List (List ℕ)))
    (settings : Settings) where
  -- The provider that the run is indexed with.
  abbrev pub provider_for : IngestionRun → Result WorkError EmbeddingConfig
  provider_for run = provider_of (embedding_config_for_run settings (some run))

  -- The message has ended: the run has failed, or is completed and every chunk has a valid vector.
  abbrev pub IsFinished : EmbeddingConfig → Work → Type 0
  IsFinished config (err e, s) = ⊥
  IsFinished config (ok a, s) =
      IsAtRest s
      × ((result : IngestionResult) × IsIndexed is_finite has_unit_norm (embed config) config result
            s.working.runs s.working.chunks)

  started : EmbeddingConfig → IngestionRun → IngestionRun
  started config = start_index is_finite has_unit_norm (embed config) config

  chunking_config_for_run-started :
      (config : EmbeddingConfig) (run : IngestionRun)
      → chunking_config_for_run settings (some (started config run))
        ≡ chunking_config_for_run settings (some run)
  unfolding chunking_config_for_run started
  chunking_config_for_run-started config run = elim (Bool-cases (is_recorded run.embedding_model)) [
    | inl known ↦ rw known refl
    | inr fresh ↦ rw fresh refl
  ]

  checked_config : (a b : EmbeddingConfig) → provider_of (check_embedding_config a) ≡ ok b → a ≡ b
  unfolding check_embedding_config get_embedding_provider
  checked_config a b h = ground arith

  provider_for-started :
      (config : EmbeddingConfig) (run : IngestionRun)
      → provider_for run ≡ ok config
      → provider_for (started config run) ≡ ok config
  unfolding embedding_config_for_run started
  provider_for-started config run h = elim (Option-cases run.embedding_model) [
    | inl fresh ↦
        let before : embedding_config_for_run settings (some run)
            ≡ check_embedding_config (settings_config settings) =
          rw fresh refl in
        let after : embedding_config_for_run settings (some (started config run))
            ≡ check_embedding_config
                (record config { batch_size = settings.embedding_batch_size }) =
          rw fresh refl in
        let of_settings = subst (λ x. provider_of x ≡ ok config) before h in
        let same = checked_config (settings_config settings) config of_settings in
        subst (λ x. provider_of x ≡ ok config) (sym after)
          (subst
            (λ x.
              provider_of
                (check_embedding_config (record x { batch_size = settings.embedding_batch_size }))
              ≡ ok config)
            same of_settings)
    | inr (model, known) ↦
        let same : embedding_config_for_run settings (some (started config run))
            ≡ embedding_config_for_run settings (some run) =
          rw known refl in
        subst (λ x. provider_of x ≡ ok config) (sym same) h
  ]

  -- Ingestion does nothing at a chunked run.
  ingest_document_version-chunked :
      (version : DocumentVersion) (run : IngestionRun) (runs : List IngestionRun)
      (chunks : List Chunk) (committed : Tables) (key : Text) (chunking : ChunkingConfig)
      (config : EmbeddingConfig)
      → version.storage_key ≡ some key
      → run.status ≡ Status.chunked
      → chunking_config_for_run settings (some run) ≡ ok chunking
      → provider_for run ≡ ok config
      → let s : Session = record {
        working = record { version = some version; runs = run ∷ runs; chunks = chunks };
        committed = committed;
      } in
        ingest_document_version stable_id encode decode parse parser_version is_finite has_unit_norm
          embed settings s
        ≡ finished (index is_finite has_unit_norm (embed config) config true s)
  unfolding ingest_document_version process process_owned
  ingest_document_version-chunked version run runs chunks committed key chunking config file at_run
        ready provider =
      rw (ready, file, at_run, provider) refl

  -- The message at a chunked version with `retries` retries left.
  abbrev IsDone : ℕ → EmbeddingConfig → Session → Type 0
  IsDone retries config s = IsFinished config (
      work stable_id encode decode parse parser_version is_finite has_unit_norm embed settings
        retries s)

  waiting_count :
      (config : EmbeddingConfig) (version : DocumentVersion) (run : IngestionRun)
      (now : Option DocumentVersion) (runs : List IngestionRun)
      → IsWaiting is_finite has_unit_norm (embed config) config version run now runs
      → 3 ≤ run.embedding_attempt_count
      → ⊥
  waiting_count config version run now [] w late = w
  waiting_count config version run now (again ∷ runs) w late = omega arith

  last_delivery-IsFinished :
      (config : EmbeddingConfig) (version : DocumentVersion) (run : IngestionRun)
      (x : Result Raised IngestionResult × Session)
      → Outcome is_finite has_unit_norm (embed config) config version run x
      → 3 ≤ run.embedding_attempt_count
      → IsFinished config (finished x)
  last_delivery-IsFinished config version run (ok result, s) h late = (h.0, (result, h.1))
  last_delivery-IsFinished config version run (err (transient_error code message), s) h late =
      absurd (waiting_count config version run s.working.version s.working.runs h.1 late)
  last_delivery-IsFinished config version run (err version_not_found, s) h late = absurd h
  last_delivery-IsFinished config version run (err not_retryable, s) h late = absurd h
  last_delivery-IsFinished config version run (err queue_unavailable, s) h late = absurd h

  -- The run `again` is the one that waits after `run` was started.
  abbrev IsAgain : IngestionRun → IngestionRun → Type 0
  IsAgain run again = again ≡ record run {
    status = Status.chunked;
    stage = RunStage.chunked;
    retryable = true;
    failure_code = again.failure_code;
    failure_message = again.failure_message;
  }

  abbrev Continues : ℕ → EmbeddingConfig → DocumentVersion → IngestionRun → Type 0
  Continues retries config version run =
      (again : IngestionRun) (runs : List IngestionRun) (chunks : List Chunk)
      → IsAgain run again
      → let t : Tables = record {
        version = some (record version { status = Status.chunked });
        runs = again ∷ runs;
        chunks = chunks;
      } in
        IsDone retries config (record { working = t; committed = t })

  waiting_tables-IsDone :
      (retries : ℕ) (config : EmbeddingConfig) (version : DocumentVersion) (run : IngestionRun)
      (now : Option DocumentVersion) (runs : List IngestionRun) (chunks : List Chunk)
      → IsWaiting is_finite has_unit_norm (embed config) config version run now runs
      → Continues retries config version run
      → let t : Tables = record { version = now; runs = runs; chunks = chunks } in
        IsDone retries config (record { working = t; committed = t })
  waiting_tables-IsDone retries config version run now [] chunks w next = absurd w
  waiting_tables-IsDone retries config version run now (again ∷ runs) chunks w next =
      subst
        (λ v.
          let t : Tables = record { version = v; runs = again ∷ runs; chunks = chunks } in
          IsDone retries config (record { working = t; committed = t }))
        (sym w.0) (next again runs chunks w.1)

  next_delivery-IsFinished :
      (retries : ℕ) (config : EmbeddingConfig) (version : DocumentVersion) (run : IngestionRun)
      (x : Result Raised IngestionResult × Session)
      → Outcome is_finite has_unit_norm (embed config) config version run x
      → Continues retries config version run
      → IsFinished config (
          redelivered (finished x) (λ s.
            work stable_id encode decode parse parser_version is_finite has_unit_norm embed settings
              retries s))
  next_delivery-IsFinished retries config version run (ok result, s) h next = (h.0, (result, h.1))
  next_delivery-IsFinished retries config version run (err (transient_error code message), s) h
        next =
      subst (λ t. IsDone retries config (record { working = t; committed = t })) h.0.saved
        (waiting_tables-IsDone retries config version run s.working.version s.working.runs
          s.working.chunks h.1 next)
  next_delivery-IsFinished retries config version run (err version_not_found, s) h next = absurd h
  next_delivery-IsFinished retries config version run (err not_retryable, s) h next = absurd h
  next_delivery-IsFinished retries config version run (err queue_unavailable, s) h next = absurd h

  again_chunking :
      (config : EmbeddingConfig) (run again : IngestionRun)
      → IsAgain (started config run) again
      → chunking_config_for_run settings (some again) ≡ chunking_config_for_run settings (some run)
  unfolding chunking_config_for_run
  again_chunking config run again h =
      ap (λ r. chunking_config_for_run settings (some r)) h
      ∙ chunking_config_for_run-started config run

  again_count :
      (config : EmbeddingConfig) (run again : IngestionRun)
      → IsAgain (started config run) again
      → again.embedding_attempt_count ≡ run.embedding_attempt_count + 1
  unfolding started
  again_count config run again h = ap (λ r. r.embedding_attempt_count) h

  again_provider :
      (config : EmbeddingConfig) (run again : IngestionRun)
      → IsAgain (started config run) again
      → provider_for run ≡ ok config
      → provider_for again ≡ ok config
  unfolding embedding_config_for_run
  again_provider config run again h provider =
      ap (λ r. provider_for r) h ∙ provider_for-started config run provider

  -- For a chunked version that has its file, whose newest run is chunked, with nothing uncommitted
  -- and valid configurations, whatever the embedding answers, the deliveries of a message whose
  -- retries make three indexing attempts with those the run has had end without an error:
  -- everything is committed, the version agrees with its newest run, and that run has failed, or it
  -- is completed and every chunk has a finite vector of unit norm and of the dimension.
  pub work-IsFinished :
      (retries : ℕ) (version : DocumentVersion) (run : IngestionRun) (runs : List IngestionRun)
      (chunks : List Chunk) (key : Text) (chunking : ChunkingConfig) (config : EmbeddingConfig)
      → version.storage_key ≡ some key
      → version.status ≡ Status.chunked
      → run.status ≡ Status.chunked
      → chunking_config_for_run settings (some run) ≡ ok chunking
      → provider_for run ≡ ok config
      → 2 ≤ run.embedding_attempt_count + retries
      → let t : Tables = record { version = some version; runs = run ∷ runs; chunks = chunks } in
        IsFinished config (
          work stable_id encode decode parse parser_version is_finite has_unit_norm embed settings
            retries
            (record { working = t; committed = t }))
  unfolding work started
  work-IsFinished zero version run runs chunks key chunking config file at_version at_run ready
        provider enough =
      let t : Tables = record { version = some version; runs = run ∷ runs; chunks = chunks } in
      subst (IsFinished config)
        (sym (
          ingest_document_version-chunked version run runs chunks t key chunking config file at_run
            ready provider))
        (last_delivery-IsFinished config version (started config run) _
          (index-Outcome is_finite has_unit_norm (embed config) config version run runs chunks
            at_version at_run)
          (omega arith))
  work-IsFinished (suc retries) version run runs chunks key chunking config file at_version at_run
        ready provider enough =
      let t : Tables = record { version = some version; runs = run ∷ runs; chunks = chunks } in
      subst
        (λ x. IsFinished config (
          redelivered x (λ s.
            work stable_id encode decode parse parser_version is_finite has_unit_norm embed settings
              retries s)))
        (sym (
          ingest_document_version-chunked version run runs chunks t key chunking config file at_run
            ready provider))
        (next_delivery-IsFinished retries config version (started config run) _
          (index-Outcome is_finite has_unit_norm (embed config) config version run runs chunks
            at_version at_run)
          (λ again runs' chunks' is_again.
            work-IsFinished retries (record version { status = Status.chunked }) again runs' chunks'
              key chunking config file refl (ap (λ r. r.status) is_again)
              (again_chunking config run again is_again ∙ ready)
              (again_provider config run again is_again provider)
              (omega (arith, again_count config run again is_again))))
