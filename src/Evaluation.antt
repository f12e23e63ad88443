-- ===== src/Evaluation.antt =====
-- evaluation/harness.py and evaluation/review.py, with the records of evaluation/models.py that they
-- use, over the matching of evidence in Matching.
pub mod Citations
pub mod Matched
pub mod Matching
pub mod Reviewed
use sourcetrace.Prelude.{
  ℕ, zero, suc, ◌+◌, ◌/◌, ◌%◌, Bool, true, false, not, ◌&&◌, ◌||◌, Option, none, some, List, [],
  ◌∷◌, ◌++◌, map, ◌==◌, nat_eq, list_eq, ltb, every, some_of, select, contains, if◌then◌else◌,
  Result, ok, err, ◌>>=◌, ◌>>◌, raise_if,
}
use sourcetrace.Text.{Text, codes, is_empty, strip}
use mathlib.Core.Option
unfoldable pub use Matching.*

pub data EvaluationStatus : Type 0 where
  passed failed pending_review not_applicable : EvaluationStatus

pub data HumanJudgment : Type 0 where
  passed failed : HumanJudgment

pub data Outcome : Type 0 where
  answered refused error : Outcome

unfoldable pub evidence_status : List EvidenceReference → List ObservedEvidence → EvaluationStatus
unfolding match_evidence_claims
evidence_status [] observed = EvaluationStatus.not_applicable
evidence_status (reference ∷ expected) observed =
    if every (λ m. is_matched m.match_status)
      (match_evidence_claims (reference ∷ expected) observed)
    then EvaluationStatus.passed
    else EvaluationStatus.failed

pub record ExpectedResult : Type 0 where
  pub outcome : Outcome
  pub evidence : List EvidenceReference

pub record EvaluationCase : Type 0 where
  pub id : Text
  pub question : Text
  pub expected : ExpectedResult

pub record EvaluationObservation : Type 0 where
  pub outcome : Outcome
  pub answer : Option Text
  pub retrieved_evidence : List ObservedEvidence
  pub citations : List ObservedEvidence

pub record CaseEvaluationResult : Type 0 where
  pub case_id : Text
  pub retrieval : EvaluationStatus
  pub citation : EvaluationStatus
  pub refusal : EvaluationStatus
  pub end_to_end : EvaluationStatus
  pub retrieval_evidence_matches : List EvidenceClaimMatch
  pub citation_evidence_matches : List EvidenceClaimMatch
  pub observation : EvaluationObservation

pub record EvaluationSummary : Type 0 where
  pub passed : ℕ
  pub failed : ℕ
  pub pending_review : ℕ
  pub not_applicable : ℕ

-- `judgment_review` is the reviewer's name.
pub record EvaluationReport : Type 0 where
  pub dataset_id : Text
  pub dataset_version : Text
  pub judgment_review : Option Text
  pub cases : List CaseEvaluationResult
  pub retrieval_summary : EvaluationSummary
  pub citation_summary : EvaluationSummary
  pub refusal_summary : EvaluationSummary
  pub end_to_end_summary : EvaluationSummary

abbrev pub same_status : EvaluationStatus → EvaluationStatus → Bool
same_status EvaluationStatus.passed EvaluationStatus.passed = true
same_status EvaluationStatus.failed EvaluationStatus.failed = true
same_status EvaluationStatus.pending_review EvaluationStatus.pending_review = true
same_status EvaluationStatus.not_applicable EvaluationStatus.not_applicable = true
same_status _ _ = false

-- `statuses.count(status)`
abbrev pub count_of : EvaluationStatus → List EvaluationStatus → ℕ
count_of status [] = 0
count_of status (s ∷ statuses) =
    let rest = count_of status statuses in if same_status s status then suc rest else rest

unfoldable pub summarize : List EvaluationStatus → EvaluationSummary
summarize statuses = record {
  passed = count_of EvaluationStatus.passed statuses;
  failed = count_of EvaluationStatus.failed statuses;
  pending_review = count_of EvaluationStatus.pending_review statuses;
  not_applicable = count_of EvaluationStatus.not_applicable statuses;
}

abbrev pub is_refused : Outcome → Bool
is_refused refused = true
is_refused _ = false

abbrev pub is_answered : Outcome → Bool
is_answered answered = true
is_answered _ = false

abbrev pub is_failed : EvaluationStatus → Bool
is_failed status = same_status status EvaluationStatus.failed

abbrev pub status_of : Option HumanJudgment → EvaluationStatus
status_of none = EvaluationStatus.pending_review
status_of (some HumanJudgment.passed) = EvaluationStatus.passed
status_of (some HumanJudgment.failed) = EvaluationStatus.failed

unfoldable pub end_to_end_of :
    Outcome
    → Outcome
    → EvaluationStatus
    → EvaluationStatus
    → EvaluationStatus
    → Option HumanJudgment
    → EvaluationStatus
end_to_end_of expected observed retrieval citation refusal judgment =
    if is_refused expected
    then refusal
    else if not (is_answered observed) || is_failed retrieval || is_failed citation
    then EvaluationStatus.failed
    else status_of judgment

abbrev pub refusal_of : Outcome → Outcome → EvaluationStatus
refusal_of expected observed =
    if is_refused expected
    then (if is_refused observed then EvaluationStatus.passed else EvaluationStatus.failed)
    else EvaluationStatus.not_applicable

unfoldable pub evaluate_case : EvaluationCase → EvaluationObservation → CaseEvaluationResult
unfolding match_evidence_claims evidence_status end_to_end_of
evaluate_case case observation =
    let expected = case.expected.evidence in
    let retrieval = evidence_status expected observation.retrieved_evidence in
    let citation = evidence_status expected observation.citations in
    let refusal = refusal_of case.expected.outcome observation.outcome in
    record {
      case_id = case.id;
      retrieval = retrieval;
      citation = citation;
      refusal = refusal;
      end_to_end =
          end_to_end_of case.expected.outcome observation.outcome retrieval citation refusal none;
      retrieval_evidence_matches = match_evidence_claims expected observation.retrieved_evidence;
      citation_evidence_matches = match_evidence_claims expected observation.citations;
      observation = observation;
    }

-- `run`: `subject` is `none` where it raises.
unfoldable pub evaluate_each :
    (EvaluationCase → Option EvaluationObservation)
    → List EvaluationCase
    → Option (List CaseEvaluationResult)
unfolding evaluate_case
evaluate_each subject [] = some []
evaluate_each subject (case ∷ cases) =
    let rest = evaluate_each subject cases in
    elim (subject case) [
      | none ↦ none
      | some observation ↦ Option.map (λ results. evaluate_case case observation ∷ results) rest
    ]

unfoldable pub report_of : Text → Text → List CaseEvaluationResult → EvaluationReport
unfolding summarize
report_of dataset_id dataset_version results = record {
  dataset_id = dataset_id;
  dataset_version = dataset_version;
  judgment_review = none;
  cases = results;
  retrieval_summary = summarize (map (λ r. r.retrieval) results);
  citation_summary = summarize (map (λ r. r.citation) results);
  refusal_summary = summarize (map (λ r. r.refusal) results);
  end_to_end_summary = summarize (map (λ r. r.end_to_end) results);
}

unfoldable pub run :
    Text
    → Text
    → List EvaluationCase
    → (EvaluationCase → Option EvaluationObservation)
    → Option EvaluationReport
unfolding evaluate_each report_of
run dataset_id dataset_version cases subject =
    Option.map (report_of dataset_id dataset_version) (evaluate_each subject cases)

pub record CaseJudgment : Type 0 where
  pub case_id : Text
  pub status : HumanJudgment

pub record EvaluationJudgmentSet : Type 0 where
  pub dataset_id : Text
  pub dataset_version : Text
  pub report_sha256 : Text
  pub reviewed_by : Text
  pub judgments : List CaseJudgment

pub data ReviewError : Type 0 where
  other_digest other_dataset already_reviewed wrong_cases : ReviewError

-- `as_mapping().get(case_id)`: the last judgment of a case counts.
abbrev pub judgment_for : Text → List CaseJudgment → Option HumanJudgment
judgment_for id [] = none
judgment_for id (j ∷ judgments) = elim (judgment_for id judgments) [
  | none ↦ if j.case_id == id then some j.status else none
  | some status ↦ some status
]

abbrev pub is_pending : CaseEvaluationResult → Bool
is_pending c = same_status c.end_to_end EvaluationStatus.pending_review

-- `judgment_map.get(case.case_id, case.end_to_end)`
abbrev pub judged : Option HumanJudgment → EvaluationStatus → EvaluationStatus
judged none status = status
judged (some judgment) status = status_of (some judgment)

abbrev pub judge_case : List CaseJudgment → CaseEvaluationResult → CaseEvaluationResult
judge_case judgments c = record c {
  end_to_end = judged (judgment_for c.case_id judgments) c.end_to_end;
}

abbrev pub is_reviewed : Option Text → Bool
is_reviewed none = false
is_reviewed (some name) = true

-- The equality of the two sets of identifiers.
abbrev pub covers : List Text → List Text → Bool
covers ids others = every (λ i. contains others i) ids && every (λ i. contains ids i) others

unfoldable pub apply_judgments :
    EvaluationReport → EvaluationJudgmentSet → Text → Result ReviewError EvaluationReport
unfolding summarize
apply_judgments report js report_sha256 = do
  raise_if (not (js.report_sha256 == report_sha256)) other_digest
  raise_if
      (not (js.dataset_id == report.dataset_id)
        || not (js.dataset_version == report.dataset_version))
      other_dataset
  raise_if (is_reviewed report.judgment_review) already_reviewed
  let expected_ids = map (λ c. c.case_id) (select is_pending report.cases)
  raise_if (not (covers (map (λ j. j.case_id) js.judgments) expected_ids)) wrong_cases
  let cases = map (judge_case js.judgments) report.cases
  ok (record report {
    cases = cases;
    judgment_review = some js.reviewed_by;
    end_to_end_summary = summarize (map (λ c. c.end_to_end) cases);
  })
