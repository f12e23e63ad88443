-- ===== src/Documents/Upload/Staged.antt =====
-- What an upload stages.
use sourcetrace.Prelude.{
  ℕ, ◌≤◌, ◌≡◌, refl, sym, true, false, not, List, [], ◌∷◌, ◌++◌, nat_eq, ltb, length, length-append,
  All, Bool-cases, inl, inr, arith, if◌then◌else◌, ok, err,
}
use mathlib.Core.List.{append_assoc, append-nil}
use sourcetrace.Text.{is_empty}
use sourcetrace.Documents.Upload.{UploadError, is_pdf, stage_loop, stage}

abbrev pub joined : List (List ℕ) → List ℕ
joined [] = []
joined (chunk ∷ chunks) = chunk ++ joined chunks

stage_loop-joined :
    (max_bytes : ℕ) (staged : List ℕ) (chunks : List (List ℕ))
    → All (λ chunk. is_empty chunk ≡ false) chunks
    → length staged ≤ max_bytes
    → stage_loop max_bytes false staged chunks ≡ (
        if ltb max_bytes (length (staged ++ joined chunks))
        then err UploadError.pdf_file_too_large
        else ok (staged ++ joined chunks))
unfolding stage_loop
stage_loop-joined max_bytes staged [] full h =
    let short : ltb max_bytes (length staged) ≡ false = ground arith in
    rw (append-nil staged, short) refl
stage_loop-joined max_bytes staged (chunk ∷ chunks) full h =
    let more = sym (append_assoc staged chunk (joined chunks)) in
    let lengths = length-append (staged ++ chunk) (joined chunks) in
    elim (Bool-cases (ltb max_bytes (length (staged ++ chunk)))) [
      | inl long ↦
          let over : ltb max_bytes (length ((staged ++ chunk) ++ joined chunks)) ≡ true =
            ground arith in
          rw (full.0, long, more, over) refl
      | inr short ↦
          let rest = stage_loop-joined max_bytes (staged ++ chunk) chunks full.1 (ground arith) in
          rw (full.0, short, more, rest) refl
    ]

-- For chunks that are not empty, one at least, staging is a test of the signature of the first
-- chunk and then of the length of all the chunks together, and stages their bytes in order.
pub stage-joined :
    (max_bytes : ℕ) (chunk : List ℕ) (chunks : List (List ℕ))
    → All (λ c. is_empty c ≡ false) (chunk ∷ chunks)
    → stage max_bytes (chunk ∷ chunks) ≡ (
        if not (is_pdf chunk)
        then err UploadError.invalid_pdf_signature
        else if ltb max_bytes (length (joined (chunk ∷ chunks)))
        then err UploadError.pdf_file_too_large
        else ok (joined (chunk ∷ chunks)))
unfolding stage stage_loop
stage-joined max_bytes chunk chunks full = elim (Bool-cases (is_pdf chunk)) [
  | inr other ↦ rw (full.0, other) refl
  | inl pdf ↦
      let lengths = length-append chunk (joined chunks) in
      elim (Bool-cases (ltb max_bytes (length chunk))) [
        | inl long ↦
            let over : ltb max_bytes (length (chunk ++ joined chunks)) ≡ true = ground arith in
            rw (full.0, pdf, long, over) refl
        | inr short ↦
            let rest = stage_loop-joined max_bytes chunk chunks full.1 (ground arith) in
            rw (full.0, pdf, short, rest) refl
      ]
]
