-- ===== src/Evaluation/Matching.antt =====
-- evaluation/evidence_matching.py, with the records of evaluation/models.py that it uses.
use sourcetrace.Prelude.{
  ℕ, zero, suc, ◌+◌, ◌/◌, ◌%◌, Bool, true, false, ◌&&◌, ◌||◌, Option, none, some, List, [], ◌∷◌,
  ◌++◌, ◌==◌, nat_eq, list_eq, ltb, some_of, if◌then◌else◌,
}
use sourcetrace.Text.{Text, codes, is_empty, strip}

pub data EvidenceMatchStatus : Type 0 where
  canonical approved_alternative not_matched : EvidenceMatchStatus

pub record EvidencePassage : Type 0 where
  pub document_version_id : ℕ
  pub page_number : ℕ
  pub text : Text

pub record EvidenceReference : Type 0 where
  pub passage : EvidencePassage
  pub claim_id : Option Text
  pub approved_alternatives : List EvidencePassage

pub record ObservedEvidence : Type 0 where
  pub chunk_id : Option ℕ
  pub document_version_id : ℕ
  pub page_number : ℕ
  pub text : Text

pub record EvidenceClaimMatch : Type 0 where
  pub claim_id : Text
  pub match_status : EvidenceMatchStatus
  pub matched_reference : Option EvidencePassage

-- `part in text`
abbrev pub starts_with : Text → Text → Bool
starts_with [] s = true
starts_with (c ∷ part) [] = false
starts_with (c ∷ part) (d ∷ s) = (c == d) && starts_with part s

unfoldable pub occurs_in : Text → Text → Bool
occurs_in part [] = is_empty part
occurs_in part (c ∷ s) = starts_with part (c ∷ s) || occurs_in part s

-- The decimal digits of a number; the fuel is one more than the number, which has no more digits.
unfoldable digits_of : ℕ → ℕ → Text
digits_of zero n = []
digits_of (suc fuel) n =
    let front = digits_of fuel (n / 10) in
    if ltb n 10 then (48 + n) ∷ [] else front ++ (48 + n % 10) ∷ []

unfoldable pub str_of_nat : ℕ → Text
unfolding digits_of
str_of_nat n = digits_of (suc n) n

unfoldable pub passage_matches : EvidencePassage → ObservedEvidence → Bool
unfolding occurs_in strip
passage_matches reference actual =
    (actual.document_version_id == reference.document_version_id)
    && (actual.page_number == reference.page_number)
    && occurs_in (strip reference.text) (strip actual.text)

unfoldable pub contains_match : EvidencePassage → List ObservedEvidence → Bool
unfolding passage_matches
contains_match reference observed = some_of (passage_matches reference) observed

-- `next((item for item in ... if ...), None)`
unfoldable pub first_match : List EvidencePassage → List ObservedEvidence → Option EvidencePassage
unfolding contains_match
first_match [] observed = none
first_match (item ∷ items) observed =
    let rest = first_match items observed in
    if contains_match item observed then some item else rest

-- `reference.claim_id or f"evidence-{index}"`
abbrev pub claim_id_of : Option Text → ℕ → Text
claim_id_of none index = codes "evidence-" ++ str_of_nat index
claim_id_of (some id) index = if is_empty id then codes "evidence-" ++ str_of_nat index else id

abbrev pub alternative_match : Text → Option EvidencePassage → EvidenceClaimMatch
alternative_match id none = record {
  claim_id = id;
  match_status = not_matched;
  matched_reference = none;
}
alternative_match id (some item) = record {
  claim_id = id;
  match_status = approved_alternative;
  matched_reference = some item;
}

unfoldable pub match_claim : ℕ → EvidenceReference → List ObservedEvidence → EvidenceClaimMatch
unfolding contains_match first_match str_of_nat
match_claim index reference observed =
    let id = claim_id_of reference.claim_id index in
    if contains_match reference.passage observed
    then record {
      claim_id = id;
      match_status = canonical;
      matched_reference = some reference.passage;
    }
    else alternative_match id (first_match reference.approved_alternatives observed)

unfoldable pub match_from :
    ℕ → List EvidenceReference → List ObservedEvidence → List EvidenceClaimMatch
unfolding match_claim
match_from index [] observed = []
match_from index (reference ∷ expected) observed =
    match_claim index reference observed ∷ match_from (suc index) expected observed

unfoldable pub match_evidence_claims :
    List EvidenceReference → List ObservedEvidence → List EvidenceClaimMatch
unfolding match_from
match_evidence_claims = match_from 1

abbrev pub is_matched : EvidenceMatchStatus → Bool
is_matched not_matched = false
is_matched _ = true
