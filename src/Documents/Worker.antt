-- ===== src/Documents/Worker.antt =====
-- The worker of workers/tasks.py: the configurations that a message takes from the settings or from
-- the newest run, the ingestion and the indexing that one message does, and its deliveries. The
-- message holds the version's lock whenever it asks for it.

pub mod Finished
pub mod Stranded
use sourcetrace.Prelude.{
  ℕ, zero, suc, ◌+◌, Bool, true, false, not, Option, none, some, List, [], ◌∷◌, ◌==◌, nat_eq,
  list_eq, if◌then◌else◌, Result, ok, err,
}
use sourcetrace.Text.{Text, codes}
use sourcetrace.Documents.Chunking.{ParsedPage, ChunkingConfig, post_init}
use sourcetrace.Documents.Records.{IngestionRun, Session, Raised, newest}
use sourcetrace.Documents.Ingestion.{IngestionResult, IngestionError, process}
use sourcetrace.Documents.Indexing.{EmbeddingConfig, EmbeddingError, is_chunked, index}

-- What a message raises: an error of a service, a `ValueError` or a `RuntimeError`.
pub data WorkError : Type 0 where
  raised : Raised → WorkError
  value_error runtime_error : WorkError

-- The settings that the worker reads.
pub record Settings : Type 0 where
  pub ingestion_tokenizer : Text
  pub ingestion_chunk_size : ℕ
  pub ingestion_chunk_overlap : ℕ
  pub ingestion_chunking_config_version : Text
  pub embedding_provider : Text
  pub embedding_model : Text
  pub embedding_model_revision : Text
  pub embedding_batch_size : ℕ
  pub embedding_dimension : ℕ
  pub embedding_config_version : Text

abbrev pub value_or_error : {E A : Type 0} → Result E A → Result WorkError A
value_or_error (ok a) = ok a
value_or_error (err e) = err value_error

-- `chunking_config_for_run`
unfoldable pub chunking_config_for_run :
    Settings → Option IngestionRun → Result WorkError ChunkingConfig
unfolding post_init
chunking_config_for_run settings (some run) = value_or_error (
    post_init (record {
      tokenizer = run.tokenizer;
      chunk_size = run.chunk_size;
      chunk_overlap = run.chunk_overlap;
      version = run.chunking_config_version;
    }))
chunking_config_for_run settings none = value_or_error (
    post_init (record {
      tokenizer = settings.ingestion_tokenizer;
      chunk_size = settings.ingestion_chunk_size;
      chunk_overlap = settings.ingestion_chunk_overlap;
      version = settings.ingestion_chunking_config_version;
    }))

-- `EmbeddingConfig.__post_init__`
unfoldable pub check_embedding_config : EmbeddingConfig → Result WorkError EmbeddingConfig
check_embedding_config config =
    if config.batch_size == 0
    then err value_error
    else if config.dimension == 0
    then err value_error
    else ok config

abbrev pub settings_config : Settings → EmbeddingConfig
settings_config settings = record {
  provider = settings.embedding_provider;
  model = settings.embedding_model;
  revision = settings.embedding_model_revision;
  batch_size = settings.embedding_batch_size;
  dimension = settings.embedding_dimension;
  version = settings.embedding_config_version;
}

-- The configuration that a run has recorded with its model, if it is complete.
abbrev pub recorded_config :
    ℕ → Text → Option Text → Option Text → Option ℕ → Option Text → Result WorkError EmbeddingConfig
recorded_config batch_size model (some provider) (some revision) (some dimension) (some version) =
    check_embedding_config (record {
      provider = provider;
      model = model;
      revision = revision;
      batch_size = batch_size;
      dimension = dimension;
      version = version;
    })
recorded_config batch_size model _ _ _ _ = err runtime_error

abbrev pub config_or_recorded :
    Settings → IngestionRun → Option Text → Result WorkError EmbeddingConfig
config_or_recorded settings run none = check_embedding_config (settings_config settings)
config_or_recorded settings run (some model) =
    recorded_config settings.embedding_batch_size model run.embedding_provider
      run.embedding_model_revision run.embedding_dimension run.embedding_config_version

-- `embedding_config_for_run`
unfoldable pub embedding_config_for_run :
    Settings → Option IngestionRun → Result WorkError EmbeddingConfig
unfolding check_embedding_config
embedding_config_for_run settings none = check_embedding_config (settings_config settings)
embedding_config_for_run settings (some run) = config_or_recorded settings run run.embedding_model

-- `get_embedding_provider`: the provider is known by its configuration.
unfoldable pub get_embedding_provider : EmbeddingConfig → Result WorkError EmbeddingConfig
get_embedding_provider config =
    if config.provider == codes "sentence-transformers" then ok config else err runtime_error

abbrev pub provider_of : Result WorkError EmbeddingConfig → Result WorkError EmbeddingConfig
provider_of (err e) = err e
provider_of (ok config) = get_embedding_provider config

abbrev pub Work : Type 0
Work = Result WorkError (Unit {0}) × Session

abbrev pub finished : Result Raised IngestionResult × Session → Work
finished (ok result, s) = (ok tt, s)
finished (err e, s) = (err (raised e), s)

-- The broker delivers the message again after an error; the session of the message is closed, which
-- drops what it has not committed.
abbrev pub redelivered : Work → (Session → Work) → Work
redelivered (ok a, s) next = (ok a, s)
redelivered (err e, s) next = next (record s { working = s.committed })

module _ (stable_id : ℕ → Text → ℕ → ℕ → ℕ) (encode : Text → List ℕ) (decode : List ℕ → Text)
    (parse : ℕ → Text → Result IngestionError (List ParsedPage)) (parser_version : Text)
    (is_finite : ℕ → Bool) (has_unit_norm : List ℕ → Bool)
    (embed : EmbeddingConfig → ℕ → List Text → Result EmbeddingError (List (List ℕ)))
    (settings : Settings) where
  abbrev pub index_with : Result WorkError EmbeddingConfig → Session → Work
  index_with (err e) s = (err e, s)
  index_with (ok config) s = finished (index is_finite has_unit_norm (embed config) config true s)

  abbrev pub index_after : Result Raised IngestionResult × Session → Work
  index_after (err e, s) = (err (raised e), s)
  index_after (ok result, s) =
      if is_chunked result.status
      then index_with (provider_of (embedding_config_for_run settings (newest s.working.runs))) s
      else (ok tt, s)

  abbrev pub ingest_with : Result WorkError ChunkingConfig → Session → Work
  ingest_with (err e) s = (err e, s)
  ingest_with (ok config) s =
      index_after (process stable_id encode decode parse parser_version config true s)

  -- `_ingest_document_version`
  unfoldable pub ingest_document_version : Session → Work
  unfolding chunking_config_for_run embedding_config_for_run get_embedding_provider
  ingest_document_version s =
      ingest_with (chunking_config_for_run settings (newest s.working.runs)) s

  -- The deliveries of a message, with this many retries left.
  unfoldable pub work : ℕ → Session → Work
  unfolding ingest_document_version
  work zero s = ingest_document_version s
  work (suc retries) s = redelivered (ingest_document_version s) (λ s'. work retries s')
