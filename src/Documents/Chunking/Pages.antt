-- ===== src/Documents/Chunking/Pages.antt =====
-- `TokenWindowChunker.split` of modules/documents/ingestion.py over all pages.
use sourcetrace.Prelude.{
  ℕ, zero, suc, ◌+◌, ◌-◌, ◌≤◌, ◌<◌, ◌≡◌, refl, true, false, List, [], ◌∷◌, ◌++◌, map, nat_eq,
  nat_beq_iff, contains, contains-append, length, All, All-append, Distinct, inl, inr, arith,
}
use mathlib.Core.List.{map-append}
use sourcetrace.Text.{Text}
use sourcetrace.Retrieval.Evidence.{pair_eq}
use sourcetrace.Documents.Chunking.{
  ParsedPage, ChunkingConfig, Chunk, page_chunks, split_pages, split,
}
use sourcetrace.Documents.Chunking.Windows.{
  SomeOf-left, SomeOf-right, AreIndexed, AreIndexed-append, IsChunk, IsKept, page_chunks-AreIndexed,
  page_chunks-IsChunk, page-IsKept,
}

-- What the database keeps unique among the chunks of a version and a configuration.
abbrev pub position : Chunk → ℕ × ℕ
position c = (c.page_number, c.page_chunk_index)

-- A chunk of the page, at the place or after it.
abbrev IsFrom : ℕ → ℕ → Chunk → Type 0
IsFrom page_number place c = (c.page_number ≡ page_number) × (place ≤ c.page_chunk_index)

All-imply :
    {A : Type 0} (P Q : A → Type 0) → ((a : A) → P a → Q a) → (xs : List A) → All P xs → All Q xs
All-imply P Q f [] h = tt
All-imply P Q f (x ∷ xs) h = (f x h.0, All-imply P Q f xs h.1)

IsFrom-earlier :
    (page_number place : ℕ) (xs : List Chunk)
    → All (IsFrom page_number (place + 1)) xs
    → All (IsFrom page_number place) xs
IsFrom-earlier page_number place xs h = All-imply _ _ (λ c from. (from.0, omega arith)) xs h

not_before :
    (page_number place : ℕ) (xs : List Chunk)
    → All (IsFrom page_number (place + 1)) xs
    → contains (map position xs) (page_number, place) ≡ false
not_before page_number place [] h = refl
not_before page_number place (c ∷ cs) h =
    ground (arith, not_before page_number place cs h.1, nat_beq_iff place c.page_chunk_index)

not_of_page :
    (page_number place : ℕ) (numbers : List ℕ) (xs : List Chunk)
    → contains numbers page_number ≡ false
    → All (λ c. contains numbers c.page_number ≡ true) xs
    → contains (map position xs) (page_number, place) ≡ false
not_of_page page_number place numbers [] other h = refl
not_of_page page_number place numbers (c ∷ cs) other h = ground (
  arith,
  not_of_page page_number place numbers cs other h.1,
  nat_beq_iff page_number c.page_number,
)

Distinct-positions :
    (page_number : ℕ) (numbers : List ℕ) (xs ys : List Chunk)
    → contains numbers page_number ≡ false
    → All (IsFrom page_number 0) xs
    → All (λ c. contains numbers c.page_number ≡ true) ys
    → Distinct (map position xs)
    → Distinct (map position ys)
    → Distinct (map position xs ++ map position ys)
Distinct-positions page_number numbers [] ys other here there dx dy = dy
Distinct-positions page_number numbers (x ∷ xs) ys other here there dx dy = (
  ground (
    arith,
    contains-append (map position xs) (map position ys) (position x),
    not_of_page page_number x.page_chunk_index numbers ys other there,
  ),
  Distinct-positions page_number numbers xs ys other here.1 there dx.1 dy,
)

module _ (stable_id : ℕ → Text → ℕ → ℕ → ℕ) (encode : Text → List ℕ) (decode : List ℕ → Text)
    (config : ChunkingConfig) (document_version_id ingestion_run_id : ℕ) where
  open config use {chunk_size, chunk_overlap}

  abbrev pages_from : ℕ → List ParsedPage → List Chunk
  pages_from = split_pages stable_id encode decode config document_version_id ingestion_run_id

  abbrev chunks_from : ℕ → ℕ → List ℕ → ℕ → ℕ → ℕ → List Chunk
  chunks_from = page_chunks stable_id encode decode config document_version_id ingestion_run_id

  abbrev pub split_all : List ParsedPage → List Chunk
  split_all = split stable_id encode decode config document_version_id ingestion_run_id

  split_pages-AreIndexed :
      (index : ℕ) (pages : List ParsedPage) → AreIndexed index (pages_from index pages)
  unfolding split_pages
  split_pages-AreIndexed index [] = tt
  split_pages-AreIndexed index (page ∷ pages) =
      let tokens = encode page.text in
      let chunks = chunks_from (length tokens) page.page_number tokens 0 0 index in
      AreIndexed-append index chunks (pages_from (index + length chunks) pages)
        (page_chunks-AreIndexed stable_id encode decode config document_version_id ingestion_run_id
          (length tokens) page.page_number tokens 0 0 index)
        (split_pages-AreIndexed (index + length chunks) pages)

  -- The chunks of a version are numbered from 0 on without a gap, over all its pages.
  pub split-AreIndexed : (pages : List ParsedPage) → AreIndexed 0 (split_all pages)
  unfolding split
  split-AreIndexed pages = split_pages-AreIndexed 0 pages

  abbrev pub AreChunks : List Chunk → Type 0
  AreChunks = All (IsChunk stable_id encode decode config document_version_id ingestion_run_id)

  split_pages-AreChunks : (index : ℕ) (pages : List ParsedPage) → AreChunks (pages_from index pages)
  unfolding split_pages
  split_pages-AreChunks index [] = tt
  split_pages-AreChunks index (page ∷ pages) =
      let tokens = encode page.text in
      let chunks = chunks_from (length tokens) page.page_number tokens 0 0 index in
      All-append _ chunks (pages_from (index + length chunks) pages)
        (page_chunks-IsChunk stable_id encode decode config document_version_id ingestion_run_id
          (length tokens) page.page_number tokens 0 0 index)
        (split_pages-AreChunks (index + length chunks) pages)

  -- Every chunk has at least one token and at most chunk_size of them, and its text is not blank.
  pub split-AreChunks : (pages : List ParsedPage) → AreChunks (split_all pages)
  unfolding split
  split-AreChunks pages = split_pages-AreChunks 0 pages

  abbrev pub AreKept : List Chunk → List ParsedPage → Type 0
  AreKept chunks = All λ page.
      (i : ℕ)
      → i < length (encode page.text)
      → IsKept stable_id encode decode config document_version_id ingestion_run_id page.page_number
          (encode page.text) chunks i

  AreKept-right :
      (xs ys : List Chunk) (pages : List ParsedPage) → AreKept ys pages → AreKept (xs ++ ys) pages
  AreKept-right xs ys pages h =
      All-imply _ _
        (λ page kept i inside.
          let (place, above, below, found) = kept i inside in
          (
            place,
            above,
            below,
            elim found [ inl blank ↦ inl blank | inr chunk ↦ inr (SomeOf-right _ xs ys chunk) ],
          ))
        pages h

  split_pages-AreKept :
      (index : ℕ) (pages : List ParsedPage)
      → chunk_overlap < chunk_size
      → AreKept (pages_from index pages) pages
  unfolding split_pages
  split_pages-AreKept index [] positive = tt
  split_pages-AreKept index (page ∷ pages) positive =
      let tokens = encode page.text in
      let chunks = chunks_from (length tokens) page.page_number tokens 0 0 index in
      let rest = pages_from (index + length chunks) pages in
      (
        λ i inside.
            let (place, above, below, found) =
              page-IsKept stable_id encode decode config document_version_id ingestion_run_id
                page.page_number tokens index i positive inside in
            (
              place,
              above,
              below,
              elim found [
                | inl blank ↦ inl blank
                | inr chunk ↦ inr (SomeOf-left _ chunks rest chunk)
              ],
            ),
        AreKept-right chunks rest pages
            (split_pages-AreKept (index + length chunks) pages positive),
      )

  -- When the overlap is smaller than the chunk size, each token of each page stands in a window
  -- whose start is a multiple of the step, and the window is blank or the text of a chunk of that
  -- page and place.
  pub split-AreKept :
      (pages : List ParsedPage) → chunk_overlap < chunk_size → AreKept (split_all pages) pages
  unfolding split
  split-AreKept pages positive = split_pages-AreKept 0 pages positive

  -- What the loop makes after one more start.
  abbrev later : ℕ → ℕ → List ℕ → ℕ → ℕ → ℕ → List Chunk
  later fuel page_number tokens place start index =
      chunks_from fuel page_number tokens (place + 1) (start + (chunk_size - chunk_overlap)) index

  page_chunks-IsFrom :
      (fuel page_number : ℕ) (tokens : List ℕ) (place start index : ℕ)
      → All (IsFrom page_number place) (chunks_from fuel page_number tokens place start index)
  unfolding page_chunks
  page_chunks-IsFrom zero page_number tokens place start index = tt
  page_chunks-IsFrom (suc fuel) page_number tokens place start index =
      let from : (index' : ℕ)
          → All (IsFrom page_number place) (later fuel page_number tokens place start index') =
        λ index'.
          IsFrom-earlier page_number place (later fuel page_number tokens place start index') (
            page_chunks-IsFrom fuel page_number tokens (place + 1)
              (start + (chunk_size - chunk_overlap)) index') in
      ground (arith, from index, from (index + 1))

  page_chunks-Distinct :
      (fuel page_number : ℕ) (tokens : List ℕ) (place start index : ℕ)
      → Distinct (map position (chunks_from fuel page_number tokens place start index))
  unfolding page_chunks
  page_chunks-Distinct zero page_number tokens place start index = tt
  page_chunks-Distinct (suc fuel) page_number tokens place start index = ground (
    arith,
    not_before page_number place (later fuel page_number tokens place start (index + 1)) (
        page_chunks-IsFrom fuel page_number tokens (place + 1)
          (start + (chunk_size - chunk_overlap)) (index + 1)),
    page_chunks-Distinct fuel page_number tokens (place + 1) (start + (chunk_size - chunk_overlap))
        index,
    page_chunks-Distinct fuel page_number tokens (place + 1) (start + (chunk_size - chunk_overlap))
        (index + 1),
  )

  -- A chunk of one of the pages.
  abbrev IsOfPages : List ParsedPage → Chunk → Type 0
  IsOfPages pages c = contains (map (λ page. page.page_number) pages) c.page_number ≡ true

  split_pages-IsOfPages :
      (index : ℕ) (pages : List ParsedPage) → All (IsOfPages pages) (pages_from index pages)
  unfolding split_pages
  split_pages-IsOfPages index [] = tt
  split_pages-IsOfPages index (page ∷ pages) =
      let tokens = encode page.text in
      let chunks = chunks_from (length tokens) page.page_number tokens 0 0 index in
      All-append _ chunks (pages_from (index + length chunks) pages)
        (All-imply _ _ (λ c h. ground (arith, nat_beq_iff c.page_number page.page_number)) chunks
          (page_chunks-IsFrom (length tokens) page.page_number tokens 0 0 index))
        (All-imply _ _ (λ c h. ground arith) _
          (split_pages-IsOfPages (index + length chunks) pages))

  split_pages-Distinct :
      (index : ℕ) (pages : List ParsedPage)
      → Distinct (map (λ page. page.page_number) pages)
      → Distinct (map position (pages_from index pages))
  unfolding split_pages
  split_pages-Distinct index [] h = tt
  split_pages-Distinct index (page ∷ pages) h =
      let tokens = encode page.text in
      let chunks = chunks_from (length tokens) page.page_number tokens 0 0 index in
      let rest = pages_from (index + length chunks) pages in
      rw map-append (
        Distinct-positions page.page_number (map (λ p. p.page_number) pages) chunks rest h.0
          (page_chunks-IsFrom (length tokens) page.page_number tokens 0 0 index)
          (split_pages-IsOfPages (index + length chunks) pages)
          (page_chunks-Distinct (length tokens) page.page_number tokens 0 0 index)
          (split_pages-Distinct (index + length chunks) pages h.1))

  -- When the pages have different numbers, no two chunks have the same page and place, which the
  -- database keeps unique.
  pub split-Distinct :
      (pages : List ParsedPage)
      → Distinct (map (λ page. page.page_number) pages)
      → Distinct (map position (split_all pages))
  unfolding split
  split-Distinct pages h = split_pages-Distinct 0 pages h
