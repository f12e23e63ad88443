-- ===== src/Examples/EvaluationCases.antt =====
-- The theorems on evaluations at test data.
use sourcetrace.Prelude.{
  ◌≡◌, ◌↔◌, refl, true, none, some, List, [], ◌∷◌, list_eq, list_beq, select, nat_eq, All, Option,
  Result, ok, err, map,
}
use sourcetrace.Text.{codes}
use sourcetrace.Evaluation.{
  EvaluationStatus, HumanJudgment, Outcome, EvidencePassage, EvidenceReference, ObservedEvidence,
  CaseEvaluationResult, EvaluationReport, EvaluationJudgmentSet, evidence_status, apply_judgments,
  report_of,
}
use sourcetrace.Evaluation.Citations.{
  CitationFailureMechanism, EvaluationDataset, build_citation_diagnostics,
}
use mathlib.Core.Option
use sourcetrace.Evaluation.Matched.{is_nonempty, is_supported, evidence_status-passed}
use sourcetrace.Evaluation.Reviewed.{IsReviewed, apply_judgments-AreReviewed}

abbrev passage : EvidencePassage
passage = record { document_version_id = 7; page_number = 2; text = codes " 4 bar" }

abbrev other_passage : EvidencePassage
other_passage = record { document_version_id = 7; page_number = 3; text = codes "four bar" }

abbrev reference : EvidenceReference
reference = record {
  passage = passage;
  claim_id = some (codes "pressure");
  approved_alternatives = other_passage ∷ [];
}

abbrev observed : List ObservedEvidence
observed =
    record {
      chunk_id = none;
      document_version_id = 7;
      page_number = 3;
      text = codes "It holds four bar.";
    }
    ∷ []

evidence_status-passed_example :
    (evidence_status (reference ∷ []) observed ≡ EvaluationStatus.passed) ↔ (
      (is_nonempty (reference ∷ []) ≡ true)
      × All (λ r. is_supported observed r ≡ true) (reference ∷ []))
evidence_status-passed_example = evidence_status-passed (reference ∷ []) observed

abbrev result_of : EvaluationStatus → CaseEvaluationResult
result_of status = record {
  case_id = codes "c1";
  retrieval = EvaluationStatus.passed;
  citation = EvaluationStatus.passed;
  refusal = EvaluationStatus.not_applicable;
  end_to_end = status;
  retrieval_evidence_matches = [];
  citation_evidence_matches = [];
  observation = record {
    outcome = Outcome.answered;
    answer = some (codes "4 bar");
    retrieved_evidence = [];
    citations = [];
  };
}

abbrev report : EvaluationReport
report = report_of (codes "d") (codes "1") (result_of EvaluationStatus.pending_review ∷ [])

abbrev judgments : EvaluationJudgmentSet
judgments = record {
  dataset_id = codes "d";
  dataset_version = codes "1";
  report_sha256 = codes "ab";
  reviewed_by = codes "R";
  judgments = record { case_id = codes "c1"; status = HumanJudgment.passed } ∷ [];
}

abbrev reviewed_report : EvaluationReport
reviewed_report = record report {
  judgment_review = some (codes "R");
  cases = result_of EvaluationStatus.passed ∷ [];
  end_to_end_summary = record { passed = 1; failed = 0; pending_review = 0; not_applicable = 0 };
}

apply_judgments-AreReviewed_example : IsReviewed report reviewed_report
unfolding apply_judgments report_of list_beq select
apply_judgments-AreReviewed_example =
    apply_judgments-AreReviewed report reviewed_report judgments (codes "ab") (refl, tt) refl

abbrev returned : {E A : Type 0} → Result E A → Option A
returned (ok a) = some a
returned (err e) = none

-- Of two expected passages the answer cites one.
abbrev cited_in_part : EvaluationDataset
cited_in_part = record {
  dataset_id = codes "d";
  dataset_version = codes "1";
  cases =
      record {
        id = codes "c1";
        question = codes "Pressure?";
        expected = record {
          outcome = Outcome.answered;
          evidence =
              reference
              ∷ record { passage = passage; claim_id = none; approved_alternatives = [] }
              ∷ [];
        };
      }
      ∷ [];
}

abbrev part_failed : EvaluationReport
part_failed = report_of (codes "d") (codes "1") (
    record (result_of EvaluationStatus.failed) {
      citation = EvaluationStatus.failed;
      observation = record {
        outcome = Outcome.answered;
        answer = some (codes "4 bar");
        retrieved_evidence = observed;
        citations = observed;
      };
    }
    ∷ [])

part_failed_is_partial :
    Option.map
      (λ d. map (λ c. c.primary_mechanism) d.cases)
      (returned (build_citation_diagnostics cited_in_part part_failed (codes "0")))
    ≡ some (CitationFailureMechanism.partial_claim_coverage ∷ [])
unfolding build_citation_diagnostics list_beq select report_of
part_failed_is_partial = refl
