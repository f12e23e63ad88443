-- ===== src/Retrieval/Hybrid/Lexical/Phrases.antt =====
-- How many phrases the lexical query has.
use sourcetrace.Prelude.{
  ℕ, ◌-◌, ◌*◌, ◌≤◌, suc, List, [], ◌∷◌, ◌++◌, ◌≡◌, length, leb, arith, Bool-cases, inl, inr,
}
use sourcetrace.Prelude.Lists.{length-append, length-map}
use sourcetrace.Text.{Text}
use sourcetrace.Retrieval.Hybrid.Lexical.{windows, phrase_of, phrases_of}

length-windows :
    (width : ℕ) (ts : List Text) → 1 ≤ width → length (windows width ts) ≡ suc (length ts) - width
unfolding windows
length-windows width [] h = omega arith
length-windows width (t ∷ ts) h =
    let rest = length-windows width ts h in
    elim (Bool-cases (leb width (suc (length ts)))) [
      | inl fits ↦ rw (fits) (ground arith)
      | inr long ↦ rw (long) (ground arith)
    ]

-- Of at least three terms, the phrases are those of two, of three and of four terms that follow
-- one another: three for each term, less six.
pub length-phrases_of :
    (ts : List Text) → 3 ≤ length ts → length (phrases_of ts) ≡ 3 * length ts - 6
unfolding phrases_of
length-phrases_of ts h =
    let two = length-windows 2 ts (omega arith) in
    let three = length-windows 3 ts (omega arith) in
    let four = length-windows 4 ts (omega arith) in
    let all : length (phrases_of ts) ≡ length (windows 2 ts ++ windows 3 ts ++ windows 4 ts) =
      length-map phrase_of (windows 2 ts ++ windows 3 ts ++ windows 4 ts) in
    let first = length-append (windows 2 ts) (windows 3 ts) in
    let whole = length-append (windows 2 ts ++ windows 3 ts) (windows 4 ts) in omega arith
