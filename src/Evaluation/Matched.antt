-- ===== src/Evaluation/Matched.antt =====
-- What the status of expected evidence says.
use sourcetrace.Prelude.{
  ℕ, suc, ◌≡◌, ◌↔◌, refl, Bool, true, false, List, [], ◌∷◌, every, some_of, All, Bool-cases, inl,
  inr, arith,
}
use sourcetrace.Text.{Text}
use sourcetrace.Evaluation.{
  EvaluationStatus, EvidencePassage, EvidenceReference, ObservedEvidence, contains_match,
  first_match, match_claim, match_from, match_evidence_claims, is_matched, evidence_status,
  alternative_match, claim_id_of,
}

-- A claim's own passage or one of its alternatives is observed.
abbrev pub is_supported : List ObservedEvidence → EvidenceReference → Bool
is_supported observed r =
    some_of (λ p. contains_match p observed) (r.passage ∷ r.approved_alternatives)

is_matched-first_match :
    (id : Text) (items : List EvidencePassage) (observed : List ObservedEvidence)
    → is_matched (alternative_match id (first_match items observed)).match_status
      ≡ some_of (λ p. contains_match p observed) items
unfolding first_match
is_matched-first_match id [] observed = refl
is_matched-first_match id (p ∷ items) observed =
    ground (arith, is_matched-first_match id items observed)

pub is_matched-match_claim :
    (index : ℕ) (r : EvidenceReference) (observed : List ObservedEvidence)
    → is_matched (match_claim index r observed).match_status ≡ is_supported observed r
unfolding match_claim
is_matched-match_claim index r observed = elim (Bool-cases (contains_match r.passage observed)) [
  | inl own ↦ rw own refl
  | inr other ↦
      rw other
        (is_matched-first_match (claim_id_of r.claim_id index) r.approved_alternatives observed)
]

every-match_from :
    (index : ℕ) (expected : List EvidenceReference) (observed : List ObservedEvidence)
    → every (λ m. is_matched m.match_status) (match_from index expected observed)
      ≡ every (is_supported observed) expected
unfolding match_from
every-match_from index [] observed = refl
every-match_from index (r ∷ expected) observed =
    rw (is_matched-match_claim index r observed, every-match_from (suc index) expected observed)
      refl

abbrev pub is_nonempty : List EvidenceReference → Bool
is_nonempty [] = false
is_nonempty (r ∷ expected) = true

All-every : {A : Type 0} (p : A → Bool) (xs : List A) → every p xs ≡ true → All (λ x. p x ≡ true) xs
All-every p [] h = tt
All-every p (x ∷ xs) h = (ground arith, All-every p xs (ground arith))

every-All : {A : Type 0} (p : A → Bool) (xs : List A) → All (λ x. p x ≡ true) xs → every p xs ≡ true
every-All p [] h = refl
every-All p (x ∷ xs) h = rw (h.0, every-All p xs h.1) refl

-- The status of expected evidence is passed exactly when some evidence is expected and, for each
-- reference, an observed passage matches the reference or one of its approved alternatives.
pub evidence_status-passed :
    (expected : List EvidenceReference) (observed : List ObservedEvidence)
    → (evidence_status expected observed ≡ EvaluationStatus.passed)
      ↔ ((is_nonempty expected ≡ true) × All (λ r. is_supported observed r ≡ true) expected)
unfolding evidence_status match_evidence_claims
evidence_status-passed [] observed = (λ h. cc, λ h. cc)
evidence_status-passed (r ∷ expected) observed =
    let all = every-match_from 1 (r ∷ expected) observed in
    elim (Bool-cases (every (is_supported observed) (r ∷ expected))) [
      | inl every_one ↦
          let supported = All-every (is_supported observed) (r ∷ expected) every_one in
          (λ h. (refl, supported), λ h. rw (all, every_one) refl)
      | inr not_all ↦ (
        λ h. let e = rw (all, not_all) at h in cc,
        λ h. let e = every-All (is_supported observed) (r ∷ expected) h.1 in cc,
      )
    ]
