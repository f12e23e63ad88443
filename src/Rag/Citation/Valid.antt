-- ===== src/Rag/Citation/Valid.antt =====
-- `_citation_validation_trace` of rag/workflow.py: when its trace is valid.
use sourcetrace.Prelude.{
  ℕ, ◌+◌, ◌<◌, ◌≡◌, ◌≢◌, ◌⊎◌, ◌↔◌, refl, ap, ◌∙◌, true, false, not, Option, none, List, [], ◌∷◌,
  every, some_of, contains, length, nat_eq, list_eq, Bool-cases, inl, inr, arith,
}
use sourcetrace.Text.{Text, is_empty, strip}
use sourcetrace.Rag.AnswerText.{split_answer_units}
use sourcetrace.Rag.AnswerText.Units.{split_answer_units_blank}
use sourcetrace.Rag.Citation.{
  Attempt, Issue, Findings, find_labels, no_labels, is_citation_only, is_valid, or_issue, follows,
  check_unit, check_units, no_findings, units_trace, citation_validation_trace,
}

module _ (allowed : List Text) where
  -- The labels of the unit are allowed, and it has one, or the next unit is only citations.
  abbrev pub IsCited : Text → List Text → Type 0
  IsCited unit rest =
      (every (contains allowed) (find_labels unit) ≡ true)
      × ((no_labels (find_labels unit) ≡ false) ⊎ (follows allowed rest ≡ true))

  abbrev pub AreCited : List Text → Type 0
  AreCited [] = Unit
  AreCited (unit ∷ units) = IsCited unit units × AreCited units

  every-not-some_of :
      (labels : List Text)
      → some_of (λ label. not (contains allowed label)) labels
        ≡ not (every (contains allowed) labels)
  every-not-some_of [] = refl
  every-not-some_of (l ∷ ls) = ground (arith, every-not-some_of ls)

  citation_only_labels :
      (unit : Text) (o : Option (List Text))
      → is_citation_only unit o ≡ true
      → no_labels (find_labels unit) ≡ false
  unfolding is_citation_only
  citation_only_labels unit o h = ground arith

  or_issue_invalid : (old new : Issue) → is_valid new ≡ false → is_valid (or_issue old new) ≡ false
  or_issue_invalid old new h = ground arith

  check_unit_valid :
      (index : ℕ) (unit : Text) (rest : List Text) (f : Findings)
      → is_valid (check_unit allowed index unit rest f).issue ≡ true
      → IsCited unit rest × (is_valid f.issue ≡ true)
  unfolding check_unit
  check_unit_valid index unit rest f h =
      ground (arith, every-not-some_of (find_labels unit), citation_only_labels unit none)

  check_unit_cited :
      (index : ℕ) (unit : Text) (rest : List Text) (f : Findings)
      → IsCited unit rest
      → (check_unit allowed index unit rest f).issue ≡ f.issue
  unfolding check_unit
  check_unit_cited index unit rest f h = ground (arith, every-not-some_of (find_labels unit))

  check_units_valid :
      (index : ℕ) (units : List Text) (f : Findings)
      → is_valid (check_units allowed index units f).issue ≡ true
      → AreCited units × (is_valid f.issue ≡ true)
  unfolding check_units
  check_units_valid index [] f h = (tt, h)
  check_units_valid index (unit ∷ units) f h =
      let (rest, now) =
        check_units_valid (index + 1) units (check_unit allowed index unit units f) h in
      let (cited, before) = check_unit_valid index unit units f now in ((cited, rest), before)

  check_units_cited :
      (index : ℕ) (units : List Text) (f : Findings)
      → AreCited units
      → (check_units allowed index units f).issue ≡ f.issue
  unfolding check_units
  check_units_cited index [] f h = refl
  check_units_cited index (unit ∷ units) f h =
      check_units_cited (index + 1) units (check_unit allowed index unit units f) h.1
      ∙ check_unit_cited index unit units f h.0

  units_trace_valid :
      (attempt : Attempt) (units : List Text)
      → ((units_trace allowed attempt units).valid ≡ true) ↔ ((units ≢ []) × AreCited units)
  units_trace_valid attempt [] = (λ h. cc, λ h. absurd (h.0 refl))
  units_trace_valid attempt (unit ∷ units) = (
    λ h. (λ e. cc, (check_units_valid 0 (unit ∷ units) no_findings h).0),
    λ h. ap is_valid (check_units_cited 0 (unit ∷ units) no_findings h.1),
  )

  -- The trace of a citation validation is valid exactly when the answer has a unit and, for every
  -- unit, all its labels are allowed, and it has a label or is a claim whose next unit is made of
  -- allowed labels only.
  pub citation_validation_trace_valid :
      (answer : Text) (attempt : Attempt)
      → ((citation_validation_trace answer allowed attempt).valid ≡ true)
        ↔ ((split_answer_units answer ≢ []) × AreCited (split_answer_units answer))
  unfolding citation_validation_trace
  citation_validation_trace_valid answer attempt = elim (Bool-cases (is_empty (strip answer))) [
    | inl blank ↦
        rw (blank, split_answer_units_blank answer blank) (λ h. cc, λ h. absurd (h.0 refl))
    | inr full ↦ rw full (units_trace_valid attempt (split_answer_units answer))
  ]

  citation_count-check_unit :
      (index : ℕ) (unit : Text) (rest : List Text) (f : Findings)
      → (check_unit allowed index unit rest f).citation_count
        ≡ f.citation_count + length (find_labels unit)
  unfolding check_unit
  citation_count-check_unit index unit rest f = ground arith

  length-no_labels : (labels : List Text) → no_labels labels ≡ false → 0 < length labels
  length-no_labels [] h = cc
  length-no_labels (l ∷ ls) h = omega arith

  citation_count-check_units :
      (index : ℕ) (unit : Text) (units : List Text) (f : Findings)
      → AreCited (unit ∷ units)
      → f.citation_count < (check_units allowed index (unit ∷ units) f).citation_count
  unfolding check_units
  citation_count-check_units index unit [] f h =
      ground (arith, citation_count-check_unit index unit [] f, length-no_labels (find_labels unit))
  citation_count-check_units index unit (next ∷ units) f h = omega (
    arith,
    citation_count-check_unit index unit (next ∷ units) f,
    citation_count-check_units (index + 1) next units
        (check_unit allowed index unit (next ∷ units) f) h.1,
  )

  units_trace_cites :
      (attempt : Attempt) (units : List Text)
      → (units_trace allowed attempt units).valid ≡ true
      → 0 < (units_trace allowed attempt units).citation_count
  units_trace_cites attempt [] h = cc
  units_trace_cites attempt (unit ∷ units) h =
      citation_count-check_units 0 unit units no_findings
        ((units_trace_valid attempt (unit ∷ units)).0 h).1

  -- A valid trace of a citation validation counts at least one citation.
  pub citation_validation_trace_cites :
      (answer : Text) (attempt : Attempt)
      → (citation_validation_trace answer allowed attempt).valid ≡ true
      → 0 < (citation_validation_trace answer allowed attempt).citation_count
  unfolding citation_validation_trace
  citation_validation_trace_cites answer attempt h = elim (Bool-cases (is_empty (strip answer))) [
    | inl blank ↦ cc (rw blank at h)
    | inr full ↦ rw full (units_trace_cites attempt (split_answer_units answer) (rw full at h))
  ]

  units_trace_issue :
      (attempt : Attempt) (units : List Text)
      → (units_trace allowed attempt units).valid
        ≡ is_valid (units_trace allowed attempt units).issue
  units_trace_issue attempt [] = refl
  units_trace_issue attempt (unit ∷ units) = refl

  -- A trace is valid exactly when its issue says so.
  pub citation_validation_trace_issue :
      (answer : Text) (attempt : Attempt)
      → (citation_validation_trace answer allowed attempt).valid
        ≡ is_valid (citation_validation_trace answer allowed attempt).issue
  unfolding citation_validation_trace
  citation_validation_trace_issue answer attempt = elim (Bool-cases (is_empty (strip answer))) [
    | inl blank ↦ rw blank refl
    | inr full ↦ rw full (units_trace_issue attempt (split_answer_units answer))
  ]
