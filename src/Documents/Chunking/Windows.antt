-- ===== src/Documents/Chunking/Windows.antt =====
-- `TokenWindowChunker.split` of modules/documents/ingestion.py: the windows against the tokens of the
-- pages, and the numbers of the chunks.
use sourcetrace.Prelude.{
  ℕ, zero, suc, ◌+◌, ◌-◌, ◌*◌, ◌≤◌, ◌<◌, ◌≡◌, ◌⊎◌, refl, sym, subst, true, false, ◌||◌, List, [],
  ◌∷◌, ◌++◌, leb, length, take, drop, length-take, length-drop, All, Bool-cases, inl, inr, arith,
}
use sourcetrace.Text.{Text, is_empty, strip}
use sourcetrace.Documents.Chunking.{ChunkingConfig, Chunk, chunk_of, window_at, page_chunks}

-- Some element of the list has the property.
abbrev pub SomeOf : {A : Type 0} → (A → Type 0) → List A → Type 0
SomeOf P [] = ⊥
SomeOf P (x ∷ xs) = P x ⊎ SomeOf P xs

pub SomeOf-left : {A : Type 0} (P : A → Type 0) (xs ys : List A) → SomeOf P xs → SomeOf P (xs ++ ys)
SomeOf-left P [] ys h = absurd h
SomeOf-left P (x ∷ xs) ys (inl h) = inl h
SomeOf-left P (x ∷ xs) ys (inr h) = inr (SomeOf-left P xs ys h)

pub SomeOf-right :
    {A : Type 0} (P : A → Type 0) (xs ys : List A) → SomeOf P ys → SomeOf P (xs ++ ys)
SomeOf-right P [] ys h = h
SomeOf-right P (x ∷ xs) ys h = inr (SomeOf-right P xs ys h)

-- The chunks are numbered from `index` on.
abbrev pub AreIndexed : ℕ → List Chunk → Type 0
AreIndexed index [] = Unit
AreIndexed index (c ∷ cs) = (c.chunk_index ≡ index) × AreIndexed (index + 1) cs

pub AreIndexed-append :
    (index : ℕ) (xs ys : List Chunk)
    → AreIndexed index xs
    → AreIndexed (index + length xs) ys
    → AreIndexed index (xs ++ ys)
AreIndexed-append index [] ys hx hy = subst (λ i. AreIndexed i ys) (omega arith) hy
AreIndexed-append index (x ∷ xs) ys hx hy =
    (hx.0, AreIndexed-append (index + 1) xs ys hx.1 (subst (λ i. AreIndexed i ys) (omega arith) hy))

module _ (stable_id : ℕ → Text → ℕ → ℕ → ℕ) (encode : Text → List ℕ) (decode : List ℕ → Text)
    (config : ChunkingConfig) (document_version_id ingestion_run_id : ℕ) where
  open config use {chunk_size, chunk_overlap}

  abbrev chunks_from : ℕ → ℕ → List ℕ → ℕ → ℕ → ℕ → List Chunk
  chunks_from = page_chunks stable_id encode decode config document_version_id ingestion_run_id

  pub page_chunks-AreIndexed :
      (fuel page_number : ℕ) (tokens : List ℕ) (place start index : ℕ)
      → AreIndexed index (chunks_from fuel page_number tokens place start index)
  unfolding page_chunks
  page_chunks-AreIndexed zero page_number tokens place start index = tt
  page_chunks-AreIndexed (suc fuel) page_number tokens place start index = ground (
    arith,
    page_chunks-AreIndexed fuel page_number tokens (place + 1)
        (start + (chunk_size - chunk_overlap)) index,
    page_chunks-AreIndexed fuel page_number tokens (place + 1)
        (start + (chunk_size - chunk_overlap)) (index + 1),
  )

  -- A chunk has a token, at most `chunk_size` of them, and text that is not blank.
  abbrev pub IsChunk : Chunk → Type 0
  IsChunk c = (0 < c.token_count) × (c.token_count ≤ chunk_size) × (is_empty (strip c.text) ≡ false)

  window-length :
      (tokens : List ℕ) (start : ℕ)
      → length (
          window_at stable_id encode decode config document_version_id ingestion_run_id tokens
            start)
        ≤ chunk_size
  window-length tokens start = omega (arith, length-take chunk_size (drop start tokens))

  length-not_empty : (s : List ℕ) → is_empty s ≡ false → 0 < length s
  length-not_empty [] h = cc
  length-not_empty (c ∷ s) h = omega arith

  pub page_chunks-IsChunk :
      (fuel page_number : ℕ) (tokens : List ℕ) (place start index : ℕ)
      → All IsChunk (chunks_from fuel page_number tokens place start index)
  unfolding page_chunks
  page_chunks-IsChunk zero page_number tokens place start index = tt
  page_chunks-IsChunk (suc fuel) page_number tokens place start index = ground (
    arith,
    window-length tokens start,
    length-not_empty (take chunk_size (drop start tokens)),
    page_chunks-IsChunk fuel page_number tokens (place + 1) (start + (chunk_size - chunk_overlap))
        index,
    page_chunks-IsChunk fuel page_number tokens (place + 1) (start + (chunk_size - chunk_overlap))
        (index + 1),
  )

  abbrev stride : ℕ
  stride = chunk_size - chunk_overlap

  abbrev window : List ℕ → ℕ → List ℕ
  window = window_at stable_id encode decode config document_version_id ingestion_run_id

  -- The token at `i` of a page stands in a window whose start is a multiple of the step, and the
  -- window is blank or one of the chunks.
  abbrev pub IsKept : ℕ → List ℕ → List Chunk → ℕ → Type 0
  IsKept page_number tokens chunks i =
      (place : ℕ) × (place * stride ≤ i)
      × (i < place * stride + chunk_size)
      × ((is_empty (strip (decode (window tokens (place * stride)))) ≡ true)
          ⊎ SomeOf
              (λ c.
                (c.page_number ≡ page_number)
                × (c.page_chunk_index ≡ place)
                × (c.text ≡ decode (window tokens (place * stride))))
              chunks)

  next_place : (place : ℕ) → (place + 1) * stride ≡ place * stride + stride
  next_place place = omega arith

  IsKept-cons :
      (page_number : ℕ) (tokens : List ℕ) (c : Chunk) (chunks : List Chunk) (i : ℕ)
      → IsKept page_number tokens chunks i
      → IsKept page_number tokens (c ∷ chunks) i
  IsKept-cons page_number tokens c chunks i (place, above, below, inl blank) =
      (place, above, below, inl blank)
  IsKept-cons page_number tokens c chunks i (place, above, below, inr here) =
      (place, above, below, inr (inr here))

  window_not_empty :
      (tokens : List ℕ) (start : ℕ)
      → start < length tokens
      → 0 < chunk_size
      → is_empty (window tokens start) ≡ false
  window_not_empty tokens start h positive =
      not_empty (window tokens start)
        (omega (arith, length-take chunk_size (drop start tokens), length-drop start tokens))
    where
      not_empty : (s : List ℕ) → 0 < length s → is_empty s ≡ false
      not_empty [] h = absurd (omega arith)
      not_empty (c ∷ s) h = refl

  page_chunks-IsKept :
      (fuel page_number : ℕ) (tokens : List ℕ) (place index i : ℕ)
      → chunk_overlap < chunk_size
      → place * stride ≤ i
      → i < length tokens
      → length tokens ≤ place * stride + fuel
      → IsKept page_number tokens
          (chunks_from fuel page_number tokens place (place * stride) index)
          i
  unfolding page_chunks
  page_chunks-IsKept zero page_number tokens place index i positive above inside enough =
      absurd (omega arith)
  page_chunks-IsKept (suc fuel) page_number tokens place index i positive above inside enough =
      let start = place * stride in
      let here = window tokens start in
      let Kept : List Chunk → Type 0 = λ chunks. IsKept page_number tokens chunks i in
      let all = chunks_from (suc fuel) page_number tokens place start index in
      let after : ℕ → List Chunk =
        λ index'. chunks_from fuel page_number tokens (place + 1) (start + stride) index' in
      let chunk =
        chunk_of stable_id encode decode config document_version_id ingestion_run_id page_number
          place index here in
      let inside_page : leb (length tokens) start ≡ false = ground arith in
      let rest : (index' : ℕ)
          → start + stride ≤ i
          → Kept (chunks_from fuel page_number tokens (place + 1) (start + stride) index') =
        λ index' far.
          subst (λ s. Kept (chunks_from fuel page_number tokens (place + 1) s index'))
            (next_place place)
            (page_chunks-IsKept fuel page_number tokens (place + 1) index' i positive
              (omega (arith, next_place place)) inside (omega (arith, next_place place))) in
      elim (Bool-cases (is_empty here || is_empty (strip (decode here)))) [
        | inl blank ↦
            let e : all ≡ after index = rw (inside_page, blank) refl in
            subst Kept (sym e) (elim (Bool-cases (leb (start + chunk_size) i)) [
              | inl far ↦ rest index (ground arith)
              | inr near ↦
                  (place, above, ground arith, inl (ground (arith, window_not_empty tokens start)))
            ])
        | inr text ↦ elim (Bool-cases (leb (length tokens) (start + chunk_size))) [
          | inl last ↦
              let e : all ≡ chunk ∷ [] = rw (inside_page, text, last) refl in
              subst Kept (sym e) (place, above, ground arith, inr (inl (refl, refl, refl)))
          | inr more ↦
              let e : all ≡ chunk ∷ after (index + 1) = rw (inside_page, text, more) refl in
              subst Kept (sym e) (elim (Bool-cases (leb (start + chunk_size) i)) [
                | inl far ↦
                    IsKept-cons page_number tokens chunk (after (index + 1)) i
                      (rest (index + 1) (ground arith))
                | inr near ↦ (place, above, ground arith, inr (inl (refl, refl, refl)))
              ])
        ]
      ]

  -- A page from its first token on.
  pub page-IsKept :
      (page_number : ℕ) (tokens : List ℕ) (index i : ℕ)
      → chunk_overlap < chunk_size
      → i < length tokens
      → IsKept page_number tokens (chunks_from (length tokens) page_number tokens 0 0 index) i
  page-IsKept page_number tokens index i positive inside =
      let none_before : 0 * stride ≡ 0 = omega arith in
      subst
        (λ start.
          IsKept page_number tokens (chunks_from (length tokens) page_number tokens 0 start index)
            i)
        none_before
        (page_chunks-IsKept (length tokens) page_number tokens 0 index i positive (omega arith)
          inside (omega arith))
