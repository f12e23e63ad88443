-- ===== src/Documents/Chunking.antt =====
-- `ChunkingConfig` and `TokenWindowChunker` of modules/documents/ingestion.py. The tokenizer is the
-- parameters `encode` and `decode`, and `stable_id` is `uuid5` of the name that a chunk's version,
-- configuration, page and place make.
pub mod Windows
pub mod Pages
use sourcetrace.Prelude.{
  ℕ, zero, suc, ◌+◌, ◌-◌, Bool, true, false, Option, none, ◌||◌, List, [], ◌∷◌, ◌++◌, ◌==◌, nat_eq,
  leb, length, take, drop, if◌then◌else◌, Result, ok, ◌>>=◌, ◌>>◌, raise_if,
}
use sourcetrace.Text.{Text, is_empty, strip}

pub record ParsedPage : Type 0 where
  pub page_number : ℕ
  pub text : Text

pub record ChunkingConfig : Type 0 where
  pub tokenizer : Text
  pub chunk_size : ℕ
  pub chunk_overlap : ℕ
  pub version : Text

pub data ChunkingError : Type 0 where
  size_not_positive invalid_overlap : ChunkingError

-- `ChunkingConfig.__post_init__`. A negative overlap has no counterpart here.
unfoldable pub post_init : ChunkingConfig → Result ChunkingError ChunkingConfig
post_init config = do
  raise_if (config.chunk_size == 0) size_not_positive
  raise_if (leb config.chunk_size config.chunk_overlap) invalid_overlap
  ok config

pub record Chunk : Type 0 where
  pub id : ℕ
  pub document_version_id : ℕ
  pub ingestion_run_id : ℕ
  pub page_number : ℕ
  pub chunk_index : ℕ
  pub page_chunk_index : ℕ
  pub text : Text
  pub token_count : ℕ
  pub chunking_config_version : Text
  -- A float is the number that its bits spell.
  pub embedding : Option (List ℕ)

module _ (stable_id : ℕ → Text → ℕ → ℕ → ℕ) (encode : Text → List ℕ) (decode : List ℕ → Text)
    (config : ChunkingConfig) (document_version_id ingestion_run_id : ℕ) where
  open config use {chunk_size, chunk_overlap, version}

  abbrev pub step : ℕ
  step = chunk_size - chunk_overlap

  abbrev pub chunk_of : ℕ → ℕ → ℕ → List ℕ → Chunk
  chunk_of page_number page_chunk_index chunk_index window = record {
    id = stable_id document_version_id version page_number page_chunk_index;
    document_version_id = document_version_id;
    ingestion_run_id = ingestion_run_id;
    page_number = page_number;
    chunk_index = chunk_index;
    page_chunk_index = page_chunk_index;
    text = decode window;
    token_count = length window;
    chunking_config_version = version;
    embedding = none;
  }

  -- `tokens[start : start + chunk_size]`
  abbrev pub window_at : List ℕ → ℕ → List ℕ
  window_at tokens start = take chunk_size (drop start tokens)

  -- The loop over `enumerate(range(0, len(tokens), step))`, from one start on. `fuel` bounds the
  -- starts that are left; the tokens are as many as that is ever.
  unfoldable pub page_chunks : ℕ → ℕ → List ℕ → ℕ → ℕ → ℕ → List Chunk
  page_chunks zero page_number tokens page_chunk_index start chunk_index = []
  page_chunks (suc fuel) page_number tokens page_chunk_index start chunk_index =
      let window = window_at tokens start in
      let chunk = chunk_of page_number page_chunk_index chunk_index window in
      let skipped =
        page_chunks fuel page_number tokens (page_chunk_index + 1) (start + step) chunk_index in
      let more =
        page_chunks fuel page_number tokens (page_chunk_index + 1) (start + step)
          (chunk_index + 1) in
      if leb (length tokens) start
      then []
      else if is_empty window || is_empty (strip (decode window))
      then skipped
      else if leb (length tokens) (start + chunk_size)
      then chunk ∷ []
      else chunk ∷ more

  -- The loop over the pages.
  unfoldable pub split_pages : ℕ → List ParsedPage → List Chunk
  unfolding page_chunks
  split_pages chunk_index [] = []
  split_pages chunk_index (page ∷ pages) =
      let tokens = encode page.text in
      let chunks = page_chunks (length tokens) page.page_number tokens 0 0 chunk_index in
      chunks ++ split_pages (chunk_index + length chunks) pages

  -- `TokenWindowChunker.split`
  unfoldable pub split : List ParsedPage → List Chunk
  unfolding split_pages
  split pages = split_pages 0 pages
