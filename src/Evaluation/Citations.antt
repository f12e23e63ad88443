-- ===== src/Evaluation/Citations.antt =====
-- evaluation/citation_diagnostics.py: what the failed citations of a report are put down to.
pub mod Counted
use sourcetrace.Prelude.{
  ℕ, suc, Bool, true, false, not, ◌&&◌, ◌||◌, Option, none, some, List, [], ◌∷◌, map, ◌==◌, ◌≡◌,
  refl, nat_eq, list_eq, ltb, length, select, some_of, if◌then◌else◌, Result, ok, err, ◌>>=◌, ◌>>◌,
  raise_if,
}
use sourcetrace.Text.{Text}
use sourcetrace.Evaluation.{
  EvaluationStatus, EvidenceMatchStatus, EvidencePassage, EvidenceReference, ObservedEvidence,
  EvaluationCase, CaseEvaluationResult, EvaluationReport, same_status, is_answered, claim_id_of,
  str_of_nat, match_claim, match_evidence_claims,
}

pub data CitationObservationStatus : Type 0 where
  canonical approved_alternative same_page_different_chunk not_observed : CitationObservationStatus

pub data CitationFailureMechanism : Type 0 where
  retrieved_but_not_cited same_page_different_chunk partial_claim_coverage :
      CitationFailureMechanism

pub record SanitizedEvidenceLocation : Type 0 where
  pub document_version_id : ℕ
  pub page_number : ℕ

pub record CitationClaimDiagnostic : Type 0 where
  pub claim_id : Text
  pub expected : SanitizedEvidenceLocation
  pub retrieval_status : CitationObservationStatus
  pub citation_status : CitationObservationStatus

pub record CitationCaseDiagnostic : Type 0 where
  pub case_id : Text
  pub primary_mechanism : CitationFailureMechanism
  pub claims : List CitationClaimDiagnostic
  pub cited_passages : List SanitizedEvidenceLocation

pub record CitationDiagnosticsSummary : Type 0 where
  pub failed_answered_cases : ℕ
  pub retrieved_but_not_cited : ℕ
  pub same_page_different_chunk : ℕ
  pub partial_claim_coverage : ℕ

-- Without the metadata of the run.
pub record CitationDiagnosticsReport : Type 0 where
  pub dataset_id : Text
  pub dataset_version : Text
  pub report_sha256 : Text
  pub summary : CitationDiagnosticsSummary
  pub cases : List CitationCaseDiagnostic

-- The fields that are read here.
pub record EvaluationDataset : Type 0 where
  pub dataset_id : Text
  pub dataset_version : Text
  pub cases : List EvaluationCase

pub data DiagnosticsError : Type 0 where
  other_dataset case_outside_dataset : DiagnosticsError

abbrev pub is_on_page : ObservedEvidence → EvidencePassage → Bool
is_on_page actual passage =
    (actual.document_version_id == passage.document_version_id)
    && (actual.page_number == passage.page_number)

-- `match_evidence_claims((reference,), observed)[0].match_status` is the first argument.
abbrev pub refined_status :
    EvidenceMatchStatus → EvidenceReference → List ObservedEvidence → CitationObservationStatus
refined_status EvidenceMatchStatus.canonical reference observed =
    CitationObservationStatus.canonical
refined_status EvidenceMatchStatus.approved_alternative reference observed =
    CitationObservationStatus.approved_alternative
refined_status EvidenceMatchStatus.not_matched reference observed =
    let accepted = reference.passage ∷ reference.approved_alternatives in
    if some_of (λ actual. some_of (is_on_page actual) accepted) observed
    then CitationObservationStatus.same_page_different_chunk
    else CitationObservationStatus.not_observed

unfoldable pub observation_status :
    EvidenceReference → List ObservedEvidence → CitationObservationStatus
unfolding match_claim
observation_status reference observed =
    refined_status (match_claim 1 reference observed).match_status reference observed

-- The status that `observation_status` refines is that of the only match.
match_evidence_claims-single :
    (reference : EvidenceReference) (observed : List ObservedEvidence)
    → match_evidence_claims (reference ∷ []) observed ≡ match_claim 1 reference observed ∷ []
unfolding match_evidence_claims
match_evidence_claims-single reference observed = refl

abbrev pub is_success : CitationObservationStatus → Bool
is_success CitationObservationStatus.canonical = true
is_success CitationObservationStatus.approved_alternative = true
is_success _ = false

abbrev pub is_same_page : CitationObservationStatus → Bool
is_same_page CitationObservationStatus.same_page_different_chunk = true
is_same_page _ = false

abbrev pub is_cited : CitationClaimDiagnostic → Bool
is_cited item = is_success item.citation_status

abbrev pub is_near : CitationClaimDiagnostic → Bool
is_near item = is_same_page item.retrieval_status || is_same_page item.citation_status

unfoldable pub primary_mechanism : List CitationClaimDiagnostic → CitationFailureMechanism
primary_mechanism claims =
    let citation_successes = length (select is_cited claims) in
    if ltb 0 citation_successes && ltb citation_successes (length claims)
    then CitationFailureMechanism.partial_claim_coverage
    else if some_of is_near claims
    then CitationFailureMechanism.same_page_different_chunk
    else CitationFailureMechanism.retrieved_but_not_cited

-- The claims of a case, numbered.
unfoldable pub claims_from :
    ℕ
    → List EvidenceReference
    → List ObservedEvidence
    → List ObservedEvidence
    → List CitationClaimDiagnostic
unfolding observation_status str_of_nat
claims_from index [] retrieved cited = []
claims_from index (reference ∷ expected) retrieved cited =
    record {
      claim_id = claim_id_of reference.claim_id index;
      expected = record {
        document_version_id = reference.passage.document_version_id;
        page_number = reference.passage.page_number;
      };
      retrieval_status = observation_status reference retrieved;
      citation_status = observation_status reference cited;
    }
    ∷ claims_from (suc index) expected retrieved cited

abbrev pub location_of : ObservedEvidence → SanitizedEvidenceLocation
location_of item = record {
  document_version_id = item.document_version_id;
  page_number = item.page_number;
}

unfoldable pub diagnose : EvaluationCase → CaseEvaluationResult → CitationCaseDiagnostic
unfolding claims_from primary_mechanism
diagnose case result =
    let observation = result.observation in
    let claims =
      claims_from 1 case.expected.evidence observation.retrieved_evidence observation.citations in
    record {
      case_id = case.id;
      primary_mechanism = primary_mechanism claims;
      claims = claims;
      cited_passages = map location_of observation.citations;
    }

-- The negation of the condition of `continue`.
abbrev pub is_failed_answer : CaseEvaluationResult → Bool
is_failed_answer result =
    same_status result.retrieval EvaluationStatus.passed
    && same_status result.citation EvaluationStatus.failed
    && is_answered result.observation.outcome

-- `cases_by_id.get(case_id)`: the last case with an identifier counts.
unfoldable pub case_by_id : List EvaluationCase → Text → Option EvaluationCase
case_by_id [] id = none
case_by_id (case ∷ cases) id = elim (case_by_id cases id) [
  | none ↦ if case.id == id then some case else none
  | some found ↦ some found
]

unfoldable pub diagnose_each :
    List EvaluationCase
    → List CaseEvaluationResult
    → Result DiagnosticsError (List CitationCaseDiagnostic)
unfolding case_by_id diagnose
diagnose_each cases [] = ok []
diagnose_each cases (result ∷ results) =
    let rest = diagnose_each cases results in
    if not (is_failed_answer result) then rest else elim (case_by_id cases result.case_id) [
      | none ↦ err case_outside_dataset
      | some case ↦ (rest >>= λ diagnostics. ok (diagnose case result ∷ diagnostics))
    ]

abbrev pub same_mechanism : CitationFailureMechanism → CitationFailureMechanism → Bool
same_mechanism CitationFailureMechanism.retrieved_but_not_cited
      CitationFailureMechanism.retrieved_but_not_cited =
    true
same_mechanism CitationFailureMechanism.same_page_different_chunk
      CitationFailureMechanism.same_page_different_chunk =
    true
same_mechanism CitationFailureMechanism.partial_claim_coverage
      CitationFailureMechanism.partial_claim_coverage =
    true
same_mechanism _ _ = false

-- `mechanisms.count(mechanism)`
abbrev pub cases_of : CitationFailureMechanism → List CitationCaseDiagnostic → ℕ
cases_of mechanism cases = length (select (λ c. same_mechanism c.primary_mechanism mechanism) cases)

unfoldable pub summarize_cases : List CitationCaseDiagnostic → CitationDiagnosticsSummary
summarize_cases cases = record {
  failed_answered_cases = length cases;
  retrieved_but_not_cited = cases_of CitationFailureMechanism.retrieved_but_not_cited cases;
  same_page_different_chunk = cases_of CitationFailureMechanism.same_page_different_chunk cases;
  partial_claim_coverage = cases_of CitationFailureMechanism.partial_claim_coverage cases;
}

unfoldable pub build_citation_diagnostics :
    EvaluationDataset → EvaluationReport → Text → Result DiagnosticsError CitationDiagnosticsReport
unfolding diagnose_each summarize_cases
build_citation_diagnostics dataset report report_sha256 = do
  raise_if
      (not (report.dataset_id == dataset.dataset_id)
        || not (report.dataset_version == dataset.dataset_version))
      other_dataset
  diagnostics ← diagnose_each dataset.cases report.cases
  ok record {
    dataset_id = dataset.dataset_id;
    dataset_version = dataset.dataset_version;
    report_sha256 = report_sha256;
    summary = summarize_cases diagnostics;
    cases = diagnostics;
  }
