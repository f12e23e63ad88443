-- ===== src/Documents/Records.antt =====
-- The rows of modules/documents/models.py that ingestion and indexing work on, as one session sees
-- them: `working` is what its objects say, `committed` what the database would give back after a
-- rollback. The runs of the version stand newest first.
use sourcetrace.Prelude.{
  ℕ, ◌+◌, Bool, false, Option, none, some, List, [], ◌∷◌, nat_eq, list_eq, Result, ok, err,
}
use sourcetrace.Text.{Text}
use sourcetrace.Documents.Chunking.{Chunk}

pub data Status : Type 0 where
  pending processing chunked completed failed : Status

pub data RunStage : Type 0 where
  queued parsing chunking chunked embedding indexing completed failed : RunStage

pub record IngestionRun : Type 0 where
  pub run_number : ℕ
  pub status : Status
  pub stage : RunStage
  pub attempt_count : ℕ
  pub retryable : Bool
  pub failure_code : Option Text
  pub failure_message : Option Text
  pub parser_version : Text
  pub tokenizer : Text
  pub chunk_size : ℕ
  pub chunk_overlap : ℕ
  pub chunking_config_version : Text
  pub embedding_attempt_count : ℕ
  pub embedding_provider : Option Text
  pub embedding_model : Option Text
  pub embedding_model_revision : Option Text
  pub embedding_dimension : Option ℕ
  pub embedding_config_version : Option Text

pub record DocumentVersion : Type 0 where
  pub id : ℕ
  pub knowledge_base_id : ℕ
  pub storage_key : Option Text
  pub status : Status

pub record Tables : Type 0 where
  pub version : Option DocumentVersion
  pub runs : List IngestionRun
  pub chunks : List Chunk

pub record Session : Type 0 where
  pub working : Tables
  pub committed : Tables

-- What leaves a service: `DocumentVersionNotFoundError`, `IngestionNotRetryableError`,
-- `TransientIngestionError` or `IngestionQueueUnavailableError`.
pub data Raised : Type 0 where
  version_not_found not_retryable queue_unavailable : Raised
  transient_error : Text → Text → Raised

abbrev pub Job : Type 0 → Type 0
Job A = Session → Result Raised A × Session

abbrev pub pure : {A : Type 0} → A → Job A
pure a s = (ok a, s)

abbrev pub raise : {A : Type 0} → Raised → Job A
raise e s = (err e, s)

abbrev pub go_on : {A B : Type 0} → Result Raised A → (A → Job B) → Job B
go_on (ok a) f s = f a s
go_on (err e) f s = (err e, s)

infixl 5 ◌>>=◌ ◌>>◌
abbrev pub ◌>>=◌ : {A B : Type 0} → Job A → (A → Job B) → Job B
◌>>=◌ m f s = go_on (m s).0 f (m s).1

abbrev pub ◌>>◌ : {A B : Type 0} → Job A → Job B → Job B
m >> k = m >>= λ _. k

-- `repository.commit()` and `repository.rollback()`
abbrev pub commit : Job (Unit {0})
commit s = (ok tt, record s { committed = s.working })

abbrev pub rollback : Job (Unit {0})
rollback s = (ok tt, record s { working = s.committed })

-- `repository.get_version(version_id)`
abbrev pub get_version : Job (Option DocumentVersion)
get_version s = (ok s.working.version, s)

abbrev pub newest : List IngestionRun → Option IngestionRun
newest [] = none
newest (run ∷ runs) = some run

-- `repository.get_latest_ingestion_run(version_id)`
abbrev pub get_latest_ingestion_run : Job (Option IngestionRun)
get_latest_ingestion_run s = (ok (newest s.working.runs), s)

abbrev pub next_number : List IngestionRun → ℕ
next_number [] = 1
next_number (run ∷ runs) = run.run_number + 1

-- `repository.create_ingestion_run`, with the defaults of the columns.
abbrev pub new_run : List IngestionRun → Text → Text → ℕ → ℕ → Text → IngestionRun
new_run runs parser_version tokenizer chunk_size chunk_overlap version = record {
  run_number = next_number runs;
  status = Status.pending;
  stage = queued;
  attempt_count = 0;
  retryable = false;
  failure_code = none;
  failure_message = none;
  parser_version = parser_version;
  tokenizer = tokenizer;
  chunk_size = chunk_size;
  chunk_overlap = chunk_overlap;
  chunking_config_version = version;
  embedding_attempt_count = 0;
  embedding_provider = none;
  embedding_model = none;
  embedding_model_revision = none;
  embedding_dimension = none;
  embedding_config_version = none;
}

abbrev pub with_run : IngestionRun → Tables → Tables
with_run run t = record t { runs = run ∷ t.runs }

abbrev pub create_ingestion_run : Text → Text → ℕ → ℕ → Text → Job (Unit {0})
create_ingestion_run parser_version tokenizer size overlap version s = (
  ok tt,
  record s {
    working =
        with_run (new_run s.working.runs parser_version tokenizer size overlap version) s.working;
  },
)

abbrev pub change_newest : (IngestionRun → IngestionRun) → List IngestionRun → List IngestionRun
change_newest f [] = []
change_newest f (run ∷ runs) = f run ∷ runs

abbrev pub change_version :
    (DocumentVersion → DocumentVersion) → Option DocumentVersion → Option DocumentVersion
change_version f none = none
change_version f (some version) = some (f version)

-- Assignments to the attributes of the newest run and of the version.
abbrev pub assign : (IngestionRun → IngestionRun) → Status → Job (Unit {0})
assign f status s = (
  ok tt,
  record s {
    working = record s.working {
      version = change_version (λ v. record v { status = status }) s.working.version;
      runs = change_newest f s.working.runs;
    };
  },
)

abbrev pub assign_run : (IngestionRun → IngestionRun) → Job (Unit {0})
assign_run f s =
    (ok tt, record s { working = record s.working { runs = change_newest f s.working.runs } })
