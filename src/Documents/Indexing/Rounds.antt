-- ===== src/Documents/Indexing/Rounds.antt =====
-- `DocumentIndexingService.process` of modules/documents/indexing.py: what an attempt leaves.
use sourcetrace.Prelude.{
  ℕ, ◌+◌, ◌<◌, ◌≡◌, ◌⊎◌, refl, subst, sym, Bool, true, false, not, ◌&&◌, ◌||◌, Option, none, some,
  List, [], ◌∷◌, map, ◌==◌, nat_eq, leb, every, length, All, Result, ok, err, Bool-cases, inl, inr,
  arith,
}
use sourcetrace.Text.{Text}
use sourcetrace.Documents.Chunking.{Chunk}
use sourcetrace.Documents.Records.{
  Status, RunStage, IngestionRun, DocumentVersion, Tables, Session, Raised, transient_error,
}
use sourcetrace.Documents.Ingestion.{IngestionResult}
use sourcetrace.Documents.Ingestion.Attempts.{IsAtRest}
use sourcetrace.Documents.Indexing.{
  EmbeddingConfig, EmbeddingError, provider_error, other, index_result_of, is_chunked, is_recorded,
  requeue_or_fail_index, record_index_failure, handle_index_failure, with_embeddings,
  is_valid_vector, validate_embeddings, config_matches, start_index, index_vectors, validated,
  start_indexing, index_chunks, index_owned, index,
}

module _ (is_finite : ℕ → Bool) (has_unit_norm : List ℕ → Bool)
    (embed : ℕ → List Text → Result EmbeddingError (List (List ℕ))) (config : EmbeddingConfig) where
  abbrev valid_vector : List ℕ → Bool
  valid_vector = is_valid_vector is_finite has_unit_norm embed config config.dimension

  -- The chunk has a vector of the dimension, finite and of unit norm.
  abbrev pub HasVector : Option (List ℕ) → Type 0
  HasVector none = ⊥
  HasVector (some v) = valid_vector v ≡ true

  with_embeddings-HasVector :
      (chunks : List Chunk) (vectors : List (List ℕ))
      → length vectors ≡ length chunks
      → every valid_vector vectors ≡ true
      → All (λ c. HasVector c.embedding) (with_embeddings chunks vectors)
  with_embeddings-HasVector [] [] same valid = tt
  with_embeddings-HasVector [] (v ∷ vs) same valid = absurd (omega arith)
  with_embeddings-HasVector (c ∷ cs) [] same valid = absurd (omega arith)
  with_embeddings-HasVector (c ∷ cs) (v ∷ vs) same valid =
      (ground arith, with_embeddings-HasVector cs vs (omega arith) (ground arith))

  -- The run has failed, or is completed and every chunk has its vector.
  abbrev pub IsIndexed : IngestionResult → List IngestionRun → List Chunk → Type 0
  IsIndexed result [] chunks = ⊥
  IsIndexed result (run ∷ runs) chunks =
      (result ≡ index_result_of run)
      × ((run.status ≡ Status.failed)
          ⊎ ((run.status ≡ Status.completed) × All (λ c. HasVector c.embedding) chunks))

  -- The run waits for its next attempt after the attempt that `started` begins.
  abbrev pub IsWaiting :
      DocumentVersion → IngestionRun → Option DocumentVersion → List IngestionRun → Type 0
  IsWaiting version started now [] = ⊥
  IsWaiting version started now (run ∷ runs) =
      (now ≡ some (record version { status = Status.chunked }))
      × (run ≡ record started {
        status = Status.chunked;
        stage = RunStage.chunked;
        retryable = true;
        failure_code = run.failure_code;
        failure_message = run.failure_message;
      })
      × (started.embedding_attempt_count < 3)

  abbrev pub Outcome :
      DocumentVersion → IngestionRun → Result Raised IngestionResult × Session → Type 0
  Outcome version started (ok result, s) =
      IsAtRest s × IsIndexed result s.working.runs s.working.chunks
  Outcome version started (err (transient_error code message), s) =
      IsAtRest s × IsWaiting version started s.working.version s.working.runs
  Outcome version started (err _, s) = ⊥

  handle_index_failure-Outcome :
      (e : EmbeddingError) (version : DocumentVersion) (run : IngestionRun)
      (runs : List IngestionRun) (chunks : List Chunk)
      → let t : Tables = record { version = some version; runs = run ∷ runs; chunks = chunks } in
        Outcome version run (handle_index_failure e (record { working = t; committed = t }))
  unfolding handle_index_failure record_index_failure requeue_or_fail_index
  handle_index_failure-Outcome (provider_error code message) version run runs chunks =
      elim (Bool-cases (leb 3 run.embedding_attempt_count)) [
        | inl last ↦
            rw last (record { saved = refl; agrees = (refl, tt, λ h. cc) }, (refl, inl refl))
        | inr more ↦
            rw more
              (record { saved = refl; agrees = (refl, tt, λ h. cc) }, (refl, refl, ground arith))
      ]
  handle_index_failure-Outcome other version run runs chunks =
      elim (Bool-cases (leb 3 run.embedding_attempt_count)) [
        | inl last ↦
            rw last (record { saved = refl; agrees = (refl, tt, λ h. cc) }, (refl, inl refl))
        | inr more ↦
            rw more
              (record { saved = refl; agrees = (refl, tt, λ h. cc) }, (refl, refl, ground arith))
      ]

  -- What validation passes on is as long as asked, and valid.
  IsValidated : ℕ → Result EmbeddingError (List (List ℕ)) → Type 0
  IsValidated count (err e) = Unit
  IsValidated count (ok vectors) = (length vectors ≡ count) × (every valid_vector vectors ≡ true)

  validated-IsValidated :
      (raw : Result EmbeddingError (List (List ℕ))) (count : ℕ)
      → IsValidated count (validated is_finite has_unit_norm embed config raw count)
  unfolding IsValidated validate_embeddings
  validated-IsValidated (err e) count = tt
  validated-IsValidated (ok vectors) count =
      elim (Bool-cases (not (length vectors == count) || not (every valid_vector vectors))) [
        | inl bad ↦ rw bad tt
        | inr good ↦ rw good (ground arith, ground arith)
      ]

  index_vectors-Outcome :
      (vectors : Result EmbeddingError (List (List ℕ))) (version : DocumentVersion)
      (run : IngestionRun) (runs : List IngestionRun) (chunks : List Chunk)
      → IsValidated (length chunks) vectors
      → let t : Tables = record { version = some version; runs = run ∷ runs; chunks = chunks } in
        Outcome version run (
          index_vectors is_finite has_unit_norm embed config vectors
            (record { working = t; committed = t }))
  unfolding index_vectors IsValidated
  index_vectors-Outcome (err e) version run runs chunks valid =
      handle_index_failure-Outcome e version run runs chunks
  index_vectors-Outcome (ok vectors) version run runs chunks valid = (
    record { saved = refl; agrees = (refl, tt, λ h. cc) },
    (refl, inr (refl, with_embeddings-HasVector chunks vectors valid.0 valid.1)),
  )

  index_chunks-Outcome :
      (version : DocumentVersion) (run : IngestionRun) (runs : List IngestionRun)
      (chunks : List Chunk)
      → let t : Tables = record { version = some version; runs = run ∷ runs; chunks = chunks } in
        Outcome version (start_index is_finite has_unit_norm embed config run) (
          index_chunks is_finite has_unit_norm embed config run chunks
            (record { working = t; committed = t }))
  unfolding start_indexing
  index_chunks-Outcome version run runs [] =
      (record { saved = refl; agrees = (refl, tt, λ h. cc) }, (refl, inl refl))
  index_chunks-Outcome version run runs (c ∷ cs) =
      elim (Bool-cases (
        is_recorded run.embedding_model
        && not (config_matches is_finite has_unit_norm embed config run))) [
          | inl changed ↦
              rw changed (record { saved = refl; agrees = (refl, tt, λ h. cc) }, (refl, inl refl))
          | inr fits ↦
              let raw = embed (run.embedding_attempt_count + 1) (map (λ x. x.text) (c ∷ cs)) in
              rw fits (
                index_vectors-Outcome
                  (validated is_finite has_unit_norm embed config raw (length (c ∷ cs)))
                  (record version { status = Status.processing })
                  (start_index is_finite has_unit_norm embed config run) runs (c ∷ cs)
                  (validated-IsValidated raw (length (c ∷ cs))))
        ]

  -- When the newest run of a version is chunked, and so is the version, and nothing is uncommitted,
  -- an indexing attempt leaves nothing uncommitted, the version with the status of its newest run,
  -- and the stage of the run fitting it, whatever the embedding answers. Either it returns the
  -- result of the run, which has failed or is completed with a valid vector stored in every chunk,
  -- or a transient error is raised, and the run, which has counted this attempt, fewer than three,
  -- and has recorded the embedding configuration, is chunked again and may be retried, and is
  -- otherwise as it was.
  pub index-Outcome :
      (version : DocumentVersion) (run : IngestionRun) (runs : List IngestionRun)
      (chunks : List Chunk)
      → version.status ≡ Status.chunked
      → run.status ≡ Status.chunked
      → let t : Tables = record { version = some version; runs = run ∷ runs; chunks = chunks } in
        Outcome version
          (start_index is_finite has_unit_norm embed config run)
          (index is_finite has_unit_norm embed config true (record { working = t; committed = t }))
  unfolding index index_owned
  index-Outcome version run runs chunks at_version at_run =
      let t : Tables = record { version = some version; runs = run ∷ runs; chunks = chunks } in
      let s : Session = record { working = t; committed = t } in
      let e : index is_finite has_unit_norm embed config true s
          ≡ index_chunks is_finite has_unit_norm embed config run chunks s =
        ground arith in
      subst (Outcome version (start_index is_finite has_unit_norm embed config run)) (sym e)
        (index_chunks-Outcome version run runs chunks)

  -- When the newest run of a version is not chunked, an indexing attempt that has the lock changes
  -- nothing and returns the result of that run.
  pub index_unchunked :
      (version : DocumentVersion) (run : IngestionRun) (runs : List IngestionRun)
      (chunks : List Chunk) (committed : Tables)
      → is_chunked run.status ≡ false
      → let s : Session = record {
        working = record { version = some version; runs = run ∷ runs; chunks = chunks };
        committed = committed;
      } in
        index is_finite has_unit_norm embed config true s ≡ (ok (index_result_of run), s)
  unfolding index index_owned
  index_unchunked version run runs chunks committed h = ground arith
