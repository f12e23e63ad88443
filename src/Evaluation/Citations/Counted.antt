-- ===== src/Evaluation/Citations/Counted.antt =====
-- What the diagnostics of failed citations say.
use sourcetrace.Prelude.{
  ◌+◌, map, contains, ◌≡◌, Bool, true, not, ◌&&◌, some, List, [], ◌∷◌, list_eq, nat_eq, length,
  select, some_of, every,
}
use sourcetrace.Text.{Text}
use sourcetrace.Evaluation.Matched.{is_supported}
use sourcetrace.Evaluation.{
  EvidenceReference, ObservedEvidence, EvaluationCase, CaseEvaluationResult, EvaluationReport,
}
use sourcetrace.Evaluation.Citations.{
  is_success, CitationFailureMechanism, CitationClaimDiagnostic, CitationCaseDiagnostic,
  CitationDiagnosticsReport, EvaluationDataset, is_cited, primary_mechanism, is_failed_answer,
  case_by_id, same_mechanism,
}

abbrev is_partial : CitationCaseDiagnostic → Bool
is_partial c = same_mechanism c.primary_mechanism CitationFailureMechanism.partial_claim_coverage

-- Some claim of the case is cited and some claim is not.
abbrev is_mixed : List CitationClaimDiagnostic → Bool
is_mixed claims = some_of is_cited claims && not (every is_cited claims)

-- Each claim is that of its reference: at its place, and successful in the retrieval and in the
-- citations exactly when a passage there supports it.
abbrev pub AreClaims :
    List ObservedEvidence
    → List ObservedEvidence
    → List EvidenceReference
    → List CitationClaimDiagnostic
    → Type 0
AreClaims retrieved cited [] [] = Unit
AreClaims retrieved cited (r ∷ rs) (c ∷ cs) =
    (c.expected.document_version_id ≡ r.passage.document_version_id)
    × (c.expected.page_number ≡ r.passage.page_number)
    × (is_success c.retrieval_status ≡ is_supported retrieved r)
    × (is_success c.citation_status ≡ is_supported cited r)
    × AreClaims retrieved cited rs cs
AreClaims retrieved cited _ _ = ⊥

-- The citations support some of the expected passages, and not all of them.
abbrev pub cites_some : List ObservedEvidence → List EvidenceReference → Bool
cites_some cited expected =
    some_of (is_supported cited) expected && not (every (is_supported cited) expected)

-- A diagnostic of a result: that of its case, with a claim for each expected passage, put down to
-- partial coverage exactly when the citations support some expected passage and not another.
unfoldable pub IsDiagnosed :
    List EvaluationCase → CaseEvaluationResult → CitationCaseDiagnostic → Type 0
IsDiagnosed cases r d =
    (case : EvaluationCase) × (case_by_id cases r.case_id ≡ some case)
    × (case.id ≡ r.case_id)
    × (d.case_id ≡ r.case_id)
    × AreClaims r.observation.retrieved_evidence r.observation.citations case.expected.evidence
        d.claims
    × (is_partial d ≡ cites_some r.observation.citations case.expected.evidence)

unfoldable pub AreDiagnosed :
    List EvaluationCase → List CaseEvaluationResult → List CitationCaseDiagnostic → Type 0
AreDiagnosed cases [] [] = Unit
AreDiagnosed cases [] (d ∷ ds) = ⊥
AreDiagnosed cases (r ∷ rs) [] = ⊥
AreDiagnosed cases (r ∷ rs) (d ∷ ds) = IsDiagnosed cases r d × AreDiagnosed cases rs ds

-- The identifiers of the cases of the dataset include that of a result.
abbrev pub IsKnown : List EvaluationCase → CaseEvaluationResult → Type 0
IsKnown cases r = contains (map (λ c. c.id) cases) r.case_id ≡ true

-- The diagnostics of the failed answers of a report, and a summary that counts each once.
abbrev pub IsDiagnosis : EvaluationDataset → EvaluationReport → CitationDiagnosticsReport → Type 0
IsDiagnosis dataset report diagnostics =
    let summary = diagnostics.summary in
    AreDiagnosed dataset.cases (select is_failed_answer report.cases) diagnostics.cases
    × (summary.failed_answered_cases ≡ length diagnostics.cases)
    × (summary.failed_answered_cases
        ≡ summary.retrieved_but_not_cited + summary.same_page_different_chunk
          + summary.partial_claim_coverage)
