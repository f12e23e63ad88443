-- ===== src/Examples/DocumentCases.antt =====
-- The theorems on documents at test data.
use sourcetrace.Prelude.{
  ℕ, ◌≡◌, refl, Bool, true, ◌==◌, list_eq, some, List, [], ◌∷◌, map, nat_eq, leb, if◌then◌else◌,
  Distinct, Result, ok, err, arith,
}
use sourcetrace.Text.{Text, codes, strip}
use sourcetrace.Retrieval.Evidence.{pair_eq}
use sourcetrace.Documents.Chunking.{ParsedPage, ChunkingConfig, Chunk, chunk_of, split}
use sourcetrace.Documents.Chunking.Pages.{
  position, split_all, AreChunks, AreKept, split-AreChunks, split-AreKept, split-Distinct,
}
use sourcetrace.Documents.Records.{
  Status, RunStage, embedding, IngestionRun, DocumentVersion, Tables, Session, newest, new_run,
}
use sourcetrace.Documents.Ingestion.{IngestionError, process}
use sourcetrace.Documents.Ingestion.Attempts.{IsAtRest, Outcome, process-Outcome}
use sourcetrace.Documents.Ingestion.Interrupted.{IsRefused, process-IsRefused}
use sourcetrace.Documents.Indexing.{EmbeddingConfig, EmbeddingError, start_index, index}
use sourcetrace.Documents.Indexing.Rounds.{index-Outcome, index_unchunked}
use sourcetrace.Documents.Indexing.Rounds as Rounds
use sourcetrace.Documents.Retry.{retry}
use sourcetrace.Documents.Retry.Retried.{Retried, retry-Retried}
use sourcetrace.Documents.Delivery.{max_retries, deliver, Settles, max_retries-Settles}

abbrev pub small_chunks : ChunkingConfig
small_chunks = record {
  tokenizer = codes "bytes";
  chunk_size = 4;
  chunk_overlap = 1;
  version = codes "v1";
}

-- A tokenizer whose tokens are the characters.
abbrev pub bytes : Text → List ℕ
bytes text = text

abbrev pub no_id : ℕ → Text → ℕ → ℕ → ℕ
no_id version config page place = place

abbrev two_pages : List ParsedPage
two_pages =
    record { page_number = 1; text = codes "the pump" }
    ∷ record { page_number = 2; text = codes "a motor" }
    ∷ []

split-AreChunks_example :
    AreChunks no_id bytes bytes small_chunks 1 1
      (split_all no_id bytes bytes small_chunks 1 1 two_pages)
split-AreChunks_example = split-AreChunks no_id bytes bytes small_chunks 1 1 two_pages

split-AreKept_example :
    AreKept no_id bytes bytes small_chunks 1 1
      (split_all no_id bytes bytes small_chunks 1 1 two_pages)
      two_pages
split-AreKept_example = split-AreKept no_id bytes bytes small_chunks 1 1 two_pages (omega arith)

split-Distinct_example :
    Distinct (map position (split_all no_id bytes bytes small_chunks 1 1 two_pages))
split-Distinct_example =
    split-Distinct no_id bytes bytes small_chunks 1 1 two_pages (refl, (refl, tt))

abbrev parse_ok : ℕ → Text → Result IngestionError (List ParsedPage)
parse_ok attempt key = ok two_pages

-- The parser fails for now at the first two attempts.
abbrev parse_late : ℕ → Text → Result IngestionError (List ParsedPage)
parse_late attempt key =
    if leb attempt 2
    then err (IngestionError.transient (codes "T") (codes "later"))
    else ok two_pages

abbrev pub uploaded : DocumentVersion
uploaded = record {
  id = 1;
  knowledge_base_id = 1;
  storage_key = some (codes "manual.pdf");
  status = Status.pending;
}

abbrev uploaded_tables : Tables
uploaded_tables = record { version = some uploaded; runs = []; chunks = [] }

abbrev uploaded_session : Session
uploaded_session = record { working = uploaded_tables; committed = uploaded_tables }

uploaded-IsAtRest : IsAtRest uploaded_session
uploaded-IsAtRest = record { saved = refl; agrees = refl }

process-Outcome_example :
    Outcome
      (codes "manual.pdf")
      1
      (process no_id bytes bytes parse_late (codes "p1") small_chunks true uploaded_session)
process-Outcome_example =
    process-Outcome no_id bytes bytes parse_late (codes "p1") small_chunks uploaded_session
      (codes "manual.pdf") uploaded-IsAtRest refl

max_retries-Settles_example :
    Settles no_id bytes bytes parse_late
      (codes "p1")
      small_chunks
      (deliver no_id bytes bytes parse_late (codes "p1") small_chunks max_retries uploaded_session)
max_retries-Settles_example =
    max_retries-Settles no_id bytes bytes parse_late (codes "p1") small_chunks uploaded_session
      (codes "manual.pdf") uploaded-IsAtRest refl

abbrev pub stopped_run : IngestionRun
stopped_run = record (new_run [] (codes "p1") (codes "bytes") 4 1 (codes "v1")) {
  status = Status.processing;
  stage = embedding;
  attempt_count = 1;
}

abbrev pub parse_ab : ℕ → Text → Result IngestionError (List ParsedPage)
parse_ab attempt key = ok (record { page_number = 1; text = codes "ab" } ∷ [])

abbrev pub ab_chunk : Chunk
ab_chunk = chunk_of no_id bytes bytes small_chunks 1 1 1 0 0 (codes "ab")

ab_split :
    split no_id bytes bytes small_chunks 1 1 (record { page_number = 1; text = codes "ab" } ∷ [])
    ≡ ab_chunk ∷ []
unfolding split strip
ab_split = refl

process-IsRefused_example : IsRefused (
    newest
      (process no_id bytes bytes parse_ab (codes "p1") small_chunks true (record {
        working = record {
          version = some (record uploaded { status = Status.processing });
          runs = stopped_run ∷ [];
          chunks = ab_chunk ∷ [];
        };
        committed = uploaded_tables;
      })).1.working.runs)
process-IsRefused_example =
    process-IsRefused no_id bytes bytes parse_ab (codes "p1") small_chunks
      (record uploaded { status = Status.processing }) stopped_run [] (codes "manual.pdf")
      (record { page_number = 1; text = codes "ab" } ∷ []) ab_chunk [] uploaded_tables refl refl
      refl ab_split

abbrev pub two_dimensions : EmbeddingConfig
two_dimensions = record {
  provider = codes "sentence-transformers";
  model = codes "m";
  revision = codes "r";
  batch_size = 8;
  dimension = 2;
  version = codes "e1";
}

abbrev pub always_finite : ℕ → Bool
always_finite x = true

abbrev pub is_unit : List ℕ → Bool
is_unit v = v == 1 ∷ 0 ∷ []

-- The model of the embeddings fails at the first attempt.
abbrev pub embed_late : ℕ → List Text → Result EmbeddingError (List (List ℕ))
embed_late attempt texts =
    if leb attempt 1 then err EmbeddingError.other else ok (map (λ text. 1 ∷ 0 ∷ []) texts)

abbrev pub chunked_run : IngestionRun
chunked_run = record stopped_run {
  status = Status.chunked;
  stage = RunStage.chunked;
  embedding_attempt_count = 1;
}

abbrev pub chunked_version : DocumentVersion
chunked_version = record uploaded { status = Status.chunked }

abbrev chunked_tables : Tables
chunked_tables = record {
  version = some chunked_version;
  runs = chunked_run ∷ [];
  chunks = ab_chunk ∷ [];
}

index-Outcome_example :
    Rounds.Outcome always_finite is_unit embed_late two_dimensions chunked_version
      (start_index always_finite is_unit embed_late two_dimensions chunked_run)
      (index always_finite is_unit embed_late two_dimensions true
        (record { working = chunked_tables; committed = chunked_tables }))
index-Outcome_example =
    index-Outcome always_finite is_unit embed_late two_dimensions chunked_version chunked_run []
      (ab_chunk ∷ []) refl refl

abbrev failed_run : IngestionRun
failed_run = record stopped_run {
  status = Status.failed;
  stage = RunStage.failed;
  retryable = true;
  attempt_count = 3;
}

retry-Retried_example :
    Retried
      (codes "p1")
      small_chunks
      1
      true
      uploaded
      failed_run
      (failed_run ∷ [])
      (record {
        working = record { version = some uploaded; runs = failed_run ∷ []; chunks = [] };
        committed = uploaded_tables;
      })
      (retry (codes "p1") small_chunks 1 true (record {
        working = record { version = some uploaded; runs = failed_run ∷ []; chunks = [] };
        committed = uploaded_tables;
      }))
retry-Retried_example =
    retry-Retried (codes "p1") small_chunks 1 true uploaded failed_run [] [] uploaded_tables
