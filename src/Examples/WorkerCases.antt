-- ===== src/Examples/WorkerCases.antt =====
-- The theorems on the worker at test data.
use sourcetrace.Prelude.{
  ℕ, ◌≡◌, refl, some, List, [], ◌∷◌, nat_eq, list_eq, list_beq, Result, ok, arith,
}
use sourcetrace.Text.{Text, codes, strip}
use sourcetrace.Documents.Chunking.{split, post_init}
use sourcetrace.Documents.Ingestion.{insert_chunks}
use sourcetrace.Documents.Indexing.{EmbeddingConfig, EmbeddingError}
use sourcetrace.Documents.Worker.{
  Settings, settings_config, chunking_config_for_run, check_embedding_config,
  embedding_config_for_run, get_embedding_provider, provider_of, work,
}
use sourcetrace.Documents.Worker.Finished.{provider_for, IsFinished, work-IsFinished}
use sourcetrace.Documents.Worker.Stranded.{twice_failed, IsStranded, work-IsStranded}
use sourcetrace.Examples.DocumentCases.{
  small_chunks, bytes, no_id, uploaded, stopped_run, parse_ab, ab_chunk, two_dimensions,
  always_finite, is_unit, embed_late, chunked_run, chunked_version,
}

abbrev settings : Settings
settings = record {
  ingestion_tokenizer = codes "bytes";
  ingestion_chunk_size = 4;
  ingestion_chunk_overlap = 1;
  ingestion_chunking_config_version = codes "v1";
  embedding_provider = codes "sentence-transformers";
  embedding_model = codes "m";
  embedding_model_revision = codes "r";
  embedding_batch_size = 8;
  embedding_dimension = 2;
  embedding_config_version = codes "e1";
}

abbrev embed : EmbeddingConfig → ℕ → List Text → Result EmbeddingError (List (List ℕ))
embed config = embed_late

chunked_run_chunking : chunking_config_for_run settings (some chunked_run) ≡ ok small_chunks
unfolding chunking_config_for_run post_init
chunked_run_chunking = refl

waiting_run_chunking :
    chunking_config_for_run settings (some (twice_failed stopped_run)) ≡ ok small_chunks
unfolding chunking_config_for_run post_init
waiting_run_chunking = refl

settings_provider :
    provider_of (check_embedding_config (settings_config settings)) ≡ ok two_dimensions
unfolding check_embedding_config get_embedding_provider list_beq
settings_provider = refl

chunked_run_provider :
    provider_for no_id bytes bytes parse_ab
      (codes "p1")
      always_finite
      is_unit
      embed
      settings
      chunked_run
    ≡ ok two_dimensions
unfolding embedding_config_for_run check_embedding_config get_embedding_provider list_beq
chunked_run_provider = refl

stored_chunks :
    insert_chunks [] (
      split no_id bytes bytes small_chunks 1 1 (record { page_number = 1; text = codes "ab" } ∷ []))
    ≡ some (ab_chunk ∷ [])
unfolding insert_chunks split strip
stored_chunks = refl

work-IsFinished_example :
    IsFinished no_id bytes bytes parse_ab
      (codes "p1")
      always_finite
      is_unit
      embed
      settings
      two_dimensions
      (work no_id bytes bytes parse_ab (codes "p1") always_finite is_unit embed settings 2 (record {
        working = record {
          version = some chunked_version;
          runs = chunked_run ∷ [];
          chunks = ab_chunk ∷ [];
        };
        committed = record {
          version = some chunked_version;
          runs = chunked_run ∷ [];
          chunks = ab_chunk ∷ [];
        };
      }))
work-IsFinished_example =
    work-IsFinished no_id bytes bytes parse_ab (codes "p1") always_finite is_unit embed settings 2
      chunked_version chunked_run [] (ab_chunk ∷ []) (codes "manual.pdf") small_chunks
      two_dimensions refl refl refl chunked_run_chunking chunked_run_provider (omega arith)

work-IsStranded_example : IsStranded (codes "p1") small_chunks 1 (
    work no_id bytes bytes parse_ab (codes "p1") always_finite is_unit embed settings 0 (record {
      working = record {
        version = some uploaded;
        runs = twice_failed stopped_run ∷ [];
        chunks = [];
      };
      committed = record {
        version = some uploaded;
        runs = twice_failed stopped_run ∷ [];
        chunks = [];
      };
    }))
work-IsStranded_example =
    work-IsStranded no_id bytes bytes parse_ab (codes "p1") always_finite is_unit embed settings
      uploaded stopped_run [] [] (codes "manual.pdf") small_chunks two_dimensions
      (record { page_number = 1; text = codes "ab" } ∷ []) ab_chunk [] EmbeddingError.other refl
      waiting_run_chunking settings_provider refl stored_chunks refl
