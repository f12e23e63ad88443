-- ===== src/Documents/Ingestion/Interrupted.antt =====
-- `DocumentIngestionService.process` of modules/documents/ingestion.py, for a run that stopped while
-- its chunks were being indexed: its status is still `processing`, and its chunks are stored.
use sourcetrace.Prelude.{
  ℕ, ◌+◌, ◌≡◌, ◌⊎◌, refl, true, Option, none, some, List, ◌∷◌, ◌==◌, nat_eq, nat_beq_iff, list_eq,
  leb, Result, ok, Bool-cases, inl, inr,
}
use sourcetrace.Text.{Text}
use sourcetrace.Documents.Chunking.{ParsedPage, ChunkingConfig, Chunk, split}
use sourcetrace.Documents.Records.{Status, chunking, IngestionRun, DocumentVersion, Tables, newest}
use sourcetrace.Documents.Ingestion.{
  IngestionError, other, requeue_or_fail, record_transient_failure, insert_chunks, handle_failure,
  store_chunks, chunk_pages, run_attempt, start_attempt, process_owned, process,
}

-- Chunks that are stored already are refused.
insert_chunks_again : (c : Chunk) (cs : List Chunk) → insert_chunks (c ∷ cs) (c ∷ cs) ≡ none
unfolding insert_chunks
insert_chunks_again c cs =
    let same : (c.id == c.id) ≡ true = (nat_beq_iff c.id c.id).1 refl in rw same refl

-- The newest run waits or has failed.
abbrev pub IsRefused : Option IngestionRun → Type 0
IsRefused none = ⊥
IsRefused (some run) = (run.status ≡ Status.pending) ⊎ (run.status ≡ Status.failed)

handle_other-IsRefused :
    (version : DocumentVersion) (run : IngestionRun) (runs : List IngestionRun)
    (chunks : List Chunk)
    → let t : Tables = record { version = some version; runs = run ∷ runs; chunks = chunks } in
      IsRefused
        (newest (handle_failure other (record { working = t; committed = t })).1.working.runs)
unfolding handle_failure record_transient_failure requeue_or_fail
handle_other-IsRefused version run runs chunks = elim (Bool-cases (leb 3 run.attempt_count)) [
  | inl last ↦ rw last (inr refl)
  | inr more ↦ rw more (inl refl)
]

module _ (stable_id : ℕ → Text → ℕ → ℕ → ℕ) (encode : Text → List ℕ) (decode : List ℕ → Text)
    (parse : ℕ → Text → Result IngestionError (List ParsedPage)) (parser_version : Text)
    (config : ChunkingConfig) where
  -- When a run is still processing and its chunks are stored, and the parser gives the pages that
  -- they came from, another attempt does not chunk the version: the chunks break the unique
  -- constraints, and the run waits or has failed.
  pub process-IsRefused :
      (version : DocumentVersion) (run : IngestionRun) (runs : List IngestionRun) (key : Text)
      (pages : List ParsedPage) (c : Chunk) (cs : List Chunk) (committed : Tables)
      → version.storage_key ≡ some key
      → run.status ≡ Status.processing
      → parse (run.attempt_count + 1) key ≡ ok pages
      → split stable_id encode decode config version.id run.run_number pages ≡ c ∷ cs
      → IsRefused (
          newest
            (process stable_id encode decode parse parser_version config true (record {
              working = record { version = some version; runs = run ∷ runs; chunks = c ∷ cs };
              committed = committed;
            })).1.working.runs)
  unfolding process process_owned start_attempt run_attempt chunk_pages store_chunks
  process-IsRefused version run runs key pages c cs committed has stopped parsed chunks =
      rw (has, stopped, parsed, chunks, insert_chunks_again c cs)
        (handle_other-IsRefused
          (record version { storage_key = some key; status = Status.processing })
          (record run {
            status = Status.processing;
            stage = chunking;
            attempt_count = run.attempt_count + 1;
            failure_code = none;
            failure_message = none;
          })
          runs (c ∷ cs))
