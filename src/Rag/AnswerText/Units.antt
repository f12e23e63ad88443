-- ===== src/Rag/AnswerText/Units.antt =====
-- `split_answer_units` of rag/answer_text.py: the units of an answer and its characters.
use mathlib.Core.List.{append-nil, append_assoc}
use sourcetrace.Prelude.{
  ℕ, ◌≡◌, refl, sym, ◌∙◌, ap, ap₂, true, false, not, List, [], ◌∷◌, ◌++◌, map, ◌==◌, nat_eq,
  nat_beq_iff, select, select-append, All, arith, Bool-cases, inl, inr,
}
use sourcetrace.Text.{Text, is_empty, is_space, strip}
use sourcetrace.Text.Strip.{kept, kept-strip, strip_idem, strip-kept}
use sourcetrace.Rag.AnswerText.{
  Before, plain, ascii_end, cjk_end, spaces, newlines, newline, before_of, pieces_from,
  split_answer_units,
}

-- The characters that are not white space, in order.
abbrev pub ink : Text → Text
ink = kept is_space

abbrev pub ink_of : List Text → Text
ink_of [] = []
ink_of (t ∷ ts) = ink t ++ ink_of ts

ink-snoc : (t s : Text) (c : ℕ) → ink (t ++ c ∷ []) ++ ink s ≡ ink t ++ ink (c ∷ s)
unfolding select
ink-snoc t s c = rw select-append (elim (Bool-cases (is_space c)) [
  | inl space ↦ rw space (rw append-nil refl)
  | inr letter ↦ rw letter (append_assoc (ink t) (c ∷ []) (ink s))
])

ink-space : (c : ℕ) (s : Text) → is_space c ≡ true → ink (c ∷ s) ≡ ink s
unfolding select
ink-space c s h = rw h refl

is_space_of_newline : (c : ℕ) → (c == newline) ≡ true → is_space c ≡ true
unfolding is_space
is_space_of_newline c h = rw ((nat_beq_iff c newline).0 h) refl

ink_of-pieces_from :
    (b : Before) (piece s : Text) → ink_of (pieces_from b piece s) ≡ ink piece ++ ink s
unfolding pieces_from select
ink_of-pieces_from cjk_end piece [] = refl
ink_of-pieces_from plain piece [] = refl
ink_of-pieces_from ascii_end piece [] = refl
ink_of-pieces_from spaces piece [] = refl
ink_of-pieces_from newlines piece [] = refl
ink_of-pieces_from plain piece (c ∷ s) = elim (Bool-cases (c == newline)) [
  | inl hit ↦
      let e : pieces_from plain piece (c ∷ s) ≡ piece ∷ pieces_from newlines [] s = rw hit refl in
      ap ink_of e
      ∙ ap (λ t. ink piece ++ t)
          (ink_of-pieces_from newlines [] s ∙ sym (ink-space c s (is_space_of_newline c hit)))
  | inr miss ↦
      let e : pieces_from plain piece (c ∷ s) ≡ pieces_from (before_of c) (piece ++ c ∷ []) s =
        rw miss refl in
      ap ink_of e ∙ ink_of-pieces_from (before_of c) (piece ++ c ∷ []) s ∙ ink-snoc piece s c
]
ink_of-pieces_from ascii_end piece (c ∷ s) = elim (Bool-cases (is_space c)) [
  | inl hit ↦
      let e : pieces_from ascii_end piece (c ∷ s) ≡ piece ∷ pieces_from spaces [] s = rw hit refl in
      ap ink_of e
      ∙ ap (λ t. ink piece ++ t) (ink_of-pieces_from spaces [] s ∙ sym (ink-space c s hit))
  | inr miss ↦
      let e : pieces_from ascii_end piece (c ∷ s) ≡ pieces_from (before_of c) (piece ++ c ∷ []) s =
        rw miss refl in
      ap ink_of e ∙ ink_of-pieces_from (before_of c) (piece ++ c ∷ []) s ∙ ink-snoc piece s c
]
ink_of-pieces_from cjk_end piece (c ∷ s) = elim (Bool-cases (is_space c)) [
  | inl hit ↦
      let e : pieces_from cjk_end piece (c ∷ s) ≡ piece ∷ pieces_from spaces [] s = rw hit refl in
      ap ink_of e
      ∙ ap (λ t. ink piece ++ t) (ink_of-pieces_from spaces [] s ∙ sym (ink-space c s hit))
  | inr miss ↦
      let e : pieces_from cjk_end piece (c ∷ s) ≡ piece ∷ pieces_from (before_of c) (c ∷ []) s =
        rw miss refl in
      ap ink_of e
      ∙ ap (λ t. ink piece ++ t) (ink_of-pieces_from (before_of c) (c ∷ []) s ∙ ink-snoc [] s c)
]
ink_of-pieces_from spaces piece (c ∷ s) = elim (Bool-cases (is_space c)) [
  | inl hit ↦
      let e : pieces_from spaces piece (c ∷ s) ≡ pieces_from spaces piece s = rw hit refl in
      ap ink_of e
      ∙ ink_of-pieces_from spaces piece s
      ∙ ap (λ t. ink piece ++ t) (sym (ink-space c s hit))
  | inr miss ↦
      let e : pieces_from spaces piece (c ∷ s) ≡ pieces_from (before_of c) (piece ++ c ∷ []) s =
        rw miss refl in
      ap ink_of e ∙ ink_of-pieces_from (before_of c) (piece ++ c ∷ []) s ∙ ink-snoc piece s c
]
ink_of-pieces_from newlines piece (c ∷ s) = elim (Bool-cases (c == newline)) [
  | inl hit ↦
      let e : pieces_from newlines piece (c ∷ s) ≡ pieces_from newlines piece s = rw hit refl in
      ap ink_of e
      ∙ ink_of-pieces_from newlines piece s
      ∙ ap (λ t. ink piece ++ t) (sym (ink-space c s (is_space_of_newline c hit)))
  | inr miss ↦
      let e : pieces_from newlines piece (c ∷ s) ≡ pieces_from (before_of c) (piece ++ c ∷ []) s =
        rw miss refl in
      ap ink_of e ∙ ink_of-pieces_from (before_of c) (piece ++ c ∷ []) s ∙ ink-snoc piece s c
]

-- Trimming the pieces and dropping the empty ones loses no ink.
ink_of-select : (us : List Text) → ink_of (select (λ u. not (is_empty u)) us) ≡ ink_of us
unfolding select
ink_of-select [] = refl
ink_of-select ([] ∷ us) = ink_of-select us
ink_of-select ((c ∷ u) ∷ us) = ap (λ t. ink (c ∷ u) ++ t) (ink_of-select us)

ink_of-map-strip : (ts : List Text) → ink_of (map strip ts) ≡ ink_of ts
ink_of-map-strip [] = refl
ink_of-map-strip (t ∷ ts) = ap₂ (λ a b. a ++ b) (kept-strip t) (ink_of-map-strip ts)

-- The units of an answer, one after another, have all its characters that are not white space, in
-- their order.
pub ink_of-split_answer_units : (answer : Text) → ink_of (split_answer_units answer) ≡ ink answer
unfolding split_answer_units select
ink_of-split_answer_units answer =
    ink_of-select (map strip (pieces_from plain [] answer))
    ∙ ink_of-map-strip (pieces_from plain [] answer)
    ∙ ink_of-pieces_from plain [] answer

abbrev pub IsTrimmed : Text → Type 0
IsTrimmed unit = (strip unit ≡ unit) × (is_empty unit ≡ false)

pieces-IsTrimmed : (ts : List Text) → All IsTrimmed (select (λ u. not (is_empty u)) (map strip ts))
unfolding select
pieces-IsTrimmed [] = tt
pieces-IsTrimmed (t ∷ ts) = elim (Bool-cases (is_empty (strip t))) [
  | inl blank ↦ rw (blank, select) (pieces-IsTrimmed ts)
  | inr full ↦ rw (full, select) ((strip_idem t, full), pieces-IsTrimmed ts)
]

-- Every unit of an answer is stripped, and none is empty.
pub split_answer_units-IsTrimmed : (answer : Text) → All IsTrimmed (split_answer_units answer)
unfolding split_answer_units
split_answer_units-IsTrimmed answer = pieces-IsTrimmed (pieces_from plain [] answer)

-- An answer that is blank has no units.
no_ink_units : (us : List Text) → All IsTrimmed us → ink_of us ≡ [] → us ≡ []
no_ink_units [] h e = refl
no_ink_units (u ∷ us) h e =
    let blank : strip u ≡ [] = strip-kept u (append_nil_left (ink u) (ink_of us) e) in
    absurd (not_empty u (sym h.0.0 ∙ blank) h.0.1)
  where
    append_nil_left : (s t : Text) → s ++ t ≡ [] → s ≡ []
    append_nil_left [] t e' = refl
    append_nil_left (c ∷ s) t e' = cc

    not_empty : (s : Text) → s ≡ [] → is_empty s ≡ false → ⊥
    not_empty s e' n = ground arith

pub split_answer_units_blank :
    (answer : Text) → is_empty (strip answer) ≡ true → split_answer_units answer ≡ []
unfolding select
split_answer_units_blank answer h =
    no_ink_units (split_answer_units answer) (split_answer_units-IsTrimmed answer)
      (ink_of-split_answer_units answer ∙ sym (kept-strip answer) ∙ ap ink (empty (strip answer) h))
  where
    empty : (s : Text) → is_empty s ≡ true → s ≡ []
    empty [] e = refl
    empty (c ∷ s) e = cc
