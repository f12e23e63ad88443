-- ===== src/Documents/Ingestion/Attempts.antt =====
-- `DocumentIngestionService.process` of modules/documents/ingestion.py: what an attempt leaves.
use sourcetrace.Prelude.{
  ℕ, ◌+◌, ◌<◌, ◌≡◌, refl, subst, true, Option, none, some, List, [], ◌∷◌, leb, Result, ok, err,
  Bool-cases, Option-cases, inl, inr, arith,
}
use sourcetrace.Text.{Text}
use sourcetrace.Documents.Chunking.{ParsedPage, ChunkingConfig, Chunk, split}
use sourcetrace.Documents.Records.{
  Status, RunStage, queued, parsing, chunking, embedding, indexing, IngestionRun, DocumentVersion,
  Tables, Session, Raised, transient_error, newest, new_run,
}
use sourcetrace.Documents.Ingestion.{
  start_run, IngestionResult, IngestionError, permanent, transient, other, result_of, is_settled,
  requeue_or_fail, record_transient_failure, insert_chunks, handle_failure, finish, store_chunks,
  chunk_pages, run_attempt, start_attempt, process_owned, process,
}

-- The stages of a run in each status.
abbrev pub FitsStatus : Status → RunStage → Type 0
FitsStatus Status.pending queued = Unit
FitsStatus Status.processing parsing = Unit
FitsStatus Status.processing chunking = Unit
FitsStatus Status.processing embedding = Unit
FitsStatus Status.processing indexing = Unit
FitsStatus Status.chunked RunStage.chunked = Unit
FitsStatus Status.completed RunStage.completed = Unit
FitsStatus Status.failed RunStage.failed = Unit
FitsStatus _ _ = ⊥

-- The version has the status of its newest run, which fits its stage, and a run that waits has an
-- attempt left.
abbrev pub Agrees : Option DocumentVersion → List IngestionRun → Type 0
Agrees (some version) (run ∷ runs) =
    (version.status ≡ run.status)
    × FitsStatus run.status run.stage
    × (run.status ≡ Status.pending → run.attempt_count < 3)
Agrees (some version) [] = version.status ≡ Status.pending
Agrees none [] = Unit
Agrees none (run ∷ runs) = ⊥

-- Nothing is uncommitted, and the rows agree.
pub record IsAtRest (s : Session) : Type 0 where
  pub saved : s.working ≡ s.committed
  pub agrees : Agrees s.working.version s.working.runs

-- The newest run is settled, and the result is its.
abbrev pub IsSettled : IngestionResult → Option IngestionRun → Type 0
IsSettled result none = ⊥
IsSettled result (some run) = (is_settled run.status ≡ true) × (result ≡ result_of run)

-- The newest run waits for its next attempt after attempt `n`.
abbrev pub IsWaiting : ℕ → Option IngestionRun → Type 0
IsWaiting n none = ⊥
IsWaiting n (some run) =
    (run.status ≡ Status.pending) × (run.retryable ≡ true) × (run.attempt_count ≡ n) × (n < 3)

-- The version has its file.
abbrev pub HasFile : Text → Option DocumentVersion → Type 0
HasFile key none = ⊥
HasFile key (some version) = version.storage_key ≡ some key

-- What attempt `n` leaves: a settled run, or one that waits, after a transient error.
abbrev pub Outcome : Text → ℕ → Result Raised IngestionResult × Session → Type 0
Outcome key n (ok result, s) = IsAtRest s × IsSettled result (newest s.working.runs)
Outcome key n (err (transient_error code message), s) =
    IsAtRest s × IsWaiting n (newest s.working.runs) × HasFile key s.working.version
Outcome key n (err _, s) = ⊥

record_transient_failure-Outcome :
    (code message : Text) (version : DocumentVersion) (run : IngestionRun)
    (runs : List IngestionRun) (chunks : List Chunk) (working : Tables) (key : Text)
    → HasFile key (some version)
    → let s : Session = record {
      working = working;
      committed = record { version = some version; runs = run ∷ runs; chunks = chunks };
    } in
      Outcome key run.attempt_count (handle_failure (transient code message) s)
unfolding handle_failure record_transient_failure requeue_or_fail
record_transient_failure-Outcome code message version run runs chunks working key has =
    elim (Bool-cases (leb 3 run.attempt_count)) [
      | inl last ↦ rw last (record { saved = refl; agrees = (refl, tt, λ h. cc) }, (refl, refl))
      | inr more ↦ rw more (
        record { saved = refl; agrees = (refl, tt, λ h. ground arith) },
        (refl, refl, refl, ground arith),
        has,
      )
    ]

handle_failure-Outcome :
    (e : IngestionError) (version : DocumentVersion) (run : IngestionRun) (runs : List IngestionRun)
    (chunks : List Chunk) (key : Text)
    → HasFile key (some version)
    → let t : Tables = record { version = some version; runs = run ∷ runs; chunks = chunks } in
      Outcome key run.attempt_count (handle_failure e (record { working = t; committed = t }))
unfolding handle_failure record_transient_failure requeue_or_fail
handle_failure-Outcome (permanent code message) version run runs chunks key has =
    (record { saved = refl; agrees = (refl, tt, λ h. cc) }, (refl, refl))
handle_failure-Outcome (transient code message) version run runs chunks key has =
    record_transient_failure-Outcome code message version run runs chunks
      (record { version = some version; runs = run ∷ runs; chunks = chunks }) key has
handle_failure-Outcome other version run runs chunks key has =
    record_transient_failure-Outcome _ _ version run runs chunks
      (record { version = some version; runs = run ∷ runs; chunks = chunks }) key has

-- The attempts that the newest run has had.
abbrev pub attempts : List IngestionRun → ℕ
attempts [] = 0
attempts (run ∷ runs) = run.attempt_count

module _ (stable_id : ℕ → Text → ℕ → ℕ → ℕ) (encode : Text → List ℕ) (decode : List ℕ → Text)
    (parse : ℕ → Text → Result IngestionError (List ParsedPage)) (parser_version : Text)
    (config : ChunkingConfig) where
  chunk_pages-Outcome :
      (pages : Result IngestionError (List ParsedPage)) (version : DocumentVersion)
      (run : IngestionRun) (runs : List IngestionRun) (chunks : List Chunk) (key : Text)
      → HasFile key (some version)
      → let t : Tables = record { version = some version; runs = run ∷ runs; chunks = chunks } in
        Outcome key run.attempt_count (
          chunk_pages stable_id encode decode parse parser_version config version pages
            (record { working = t; committed = t }))
  unfolding chunk_pages store_chunks finish
  chunk_pages-Outcome (err e) version run runs chunks key has =
      handle_failure-Outcome e version run runs chunks key has
  chunk_pages-Outcome (ok pages) version run runs chunks key has =
      elim (Option-cases (
        insert_chunks chunks
          (split stable_id encode decode config version.id run.run_number pages))) [
            | inl clash ↦ rw clash (
                handle_failure-Outcome other version (record run { stage = chunking }) runs chunks
                  key has)
            | inr (stored, done) ↦
                rw done (record { saved = refl; agrees = (refl, tt, λ h. cc) }, (refl, refl))
          ]

  start_attempt-Outcome :
      (version : DocumentVersion) (run : IngestionRun) (runs : List IngestionRun)
      (chunks : List Chunk) (committed : Tables) (key : Text)
      → HasFile key (some version)
      → Outcome key (run.attempt_count + 1) (
          start_attempt stable_id encode decode parse parser_version config version key (record {
            working = record { version = some version; runs = run ∷ runs; chunks = chunks };
            committed = committed;
          }))
  unfolding start_attempt run_attempt
  start_attempt-Outcome version run runs chunks committed key has =
      chunk_pages-Outcome (parse (run.attempt_count + 1) key)
        (record version { status = Status.processing })
        (start_run stable_id encode decode parse parser_version config run) runs chunks key has

  process_owned-Outcome :
      (version : DocumentVersion) (runs : List IngestionRun) (chunks : List Chunk) (key : Text)
      → HasFile key (some version)
      → Agrees (some version) runs
      → let t : Tables = record { version = some version; runs = runs; chunks = chunks } in
        Outcome key (attempts runs + 1) (
          process_owned stable_id encode decode parse parser_version config
            (record { working = t; committed = t }))
  unfolding process_owned start_attempt run_attempt
  process_owned-Outcome version [] chunks key has agrees = rw has (
      chunk_pages-Outcome (parse 1 key)
        (record version { storage_key = some key; status = Status.processing })
        (start_run stable_id encode decode parse parser_version config (
          new_run [] parser_version config.tokenizer config.chunk_size config.chunk_overlap
            config.version))
        [] chunks key refl)
  process_owned-Outcome version (run ∷ runs) chunks key has agrees =
      elim (Bool-cases (is_settled run.status)) [
        | inl settled ↦
            rw (has, settled) (record { saved = refl; agrees = agrees }, (settled, refl))
        | inr waits ↦
            rw (has, waits)
              (chunk_pages-Outcome (parse (run.attempt_count + 1) key)
                (record version { storage_key = some key; status = Status.processing })
                (start_run stable_id encode decode parse parser_version config run) runs chunks key
                refl)
      ]

  process_tables-Outcome :
      (version : Option DocumentVersion) (runs : List IngestionRun) (chunks : List Chunk)
      (committed : Tables) (key : Text)
      → record { version = version; runs = runs; chunks = chunks } ≡ committed
      → HasFile key version
      → Agrees version runs
      → Outcome key (attempts runs + 1) (
          process stable_id encode decode parse parser_version config true (record {
            working = record { version = version; runs = runs; chunks = chunks };
            committed = committed;
          }))
  unfolding process
  process_tables-Outcome none runs chunks committed key saved has agrees = absurd has
  process_tables-Outcome (some version) runs chunks committed key saved has agrees =
      let t : Tables = record { version = some version; runs = runs; chunks = chunks } in
      subst
        (λ (c : Tables). Outcome key (attempts runs + 1) (
          process_owned stable_id encode decode parse parser_version config
            (record { working = t; committed = c })))
        saved (process_owned-Outcome version runs chunks key has agrees)

  -- An attempt at a version at rest that has its file leaves it at rest: nothing is uncommitted,
  -- the version has the status of its newest run, and the stage of the run fits it. Either the run
  -- is settled and the result is its result, or a transient error is raised, the run waits, may be
  -- retried, has counted this attempt, and has had fewer than three.
  pub process-Outcome :
      (s : Session) (key : Text)
      → IsAtRest s
      → HasFile key s.working.version
      → Outcome key
          (attempts s.working.runs + 1)
          (process stable_id encode decode parse parser_version config true s)
  process-Outcome s key rest has =
      process_tables-Outcome s.working.version s.working.runs s.working.chunks s.committed key
        rest.saved has rest.agrees
