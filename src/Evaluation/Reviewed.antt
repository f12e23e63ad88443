-- ===== src/Evaluation/Reviewed.antt =====
-- What the judgments of a reviewer make of a report.
use sourcetrace.Prelude.{
  symmetric_beq, equals_refl, ◌≡◌, refl, sym, subst, ◌∙◌, true, false, none, some, List, [], ◌∷◌,
  map, ◌==◌, nat_eq, list_eq, every, select, contains, All, All-map, Distinct, Bool-cases,
  Option-cases, inl, inr, arith, ok, ok-injective,
}
use sourcetrace.Prelude.Chain.{contains-select}
use sourcetrace.Text.{Text}
use sourcetrace.Evaluation.{
  EvaluationStatus, HumanJudgment, CaseEvaluationResult, EvaluationReport, EvaluationJudgmentSet,
  CaseJudgment, same_status, count_of, summarize, status_of, judgment_for, is_pending, judge_case,
  covers, apply_judgments, is_reviewed,
}

-- A case that waited for a judgment has one, and the others are as they were.
abbrev pub AreReviewed : List CaseEvaluationResult → List CaseEvaluationResult → Type 0
AreReviewed [] [] = Unit
AreReviewed [] (c' ∷ cs') = ⊥
AreReviewed (c ∷ cs) [] = ⊥
AreReviewed (c ∷ cs) (c' ∷ cs') =
    ((is_pending c' ≡ false) × (is_pending c ≡ false → c' ≡ c)) × AreReviewed cs cs'

module _ (id : Text) where
  judgment_for-none :
      (js : List CaseJudgment)
      → contains (map (λ j. j.case_id) js) id ≡ false
      → judgment_for id js ≡ none
  judgment_for-none [] h = refl
  judgment_for-none (j ∷ js) h =
      let differs : (j.case_id == id) ≡ false = rw (symmetric_beq j.case_id id) (ground arith) in
      rw (judgment_for-none js (ground arith), differs) refl

  judgment_for-some :
      (js : List CaseJudgment)
      → contains (map (λ j. j.case_id) js) id ≡ true
      → (judgment : HumanJudgment) × (judgment_for id js ≡ some judgment)
  judgment_for-some [] h = absurd cc
  judgment_for-some (j ∷ js) h = elim (Option-cases (judgment_for id js)) [
    | inr (judgment, found) ↦ (judgment, rw found refl)
    | inl missing ↦ elim (Bool-cases (id == j.case_id)) [
      | inl here ↦
          let same : (j.case_id == id) ≡ true = rw (symmetric_beq j.case_id id) here in
          (j.status, rw (missing, same) refl)
      | inr other ↦ let (judgment, found) = judgment_for-some js (ground arith) in absurd cc
    ]
  ]

judged_settled :
    (judgment : HumanJudgment)
    → same_status (status_of (some judgment)) EvaluationStatus.pending_review ≡ false
judged_settled HumanJudgment.passed = refl
judged_settled HumanJudgment.failed = refl

equals_path : (x y : Text) → (x == y) ≡ true → x ≡ y
equals_path x y h = (list_eq.equals_iff x y).0 h

module _ (js : List CaseJudgment) where
  abbrev keys : List Text
  keys = map (λ j. j.case_id) js

  -- One case, whose identifier is judged exactly when it waits.
  judge_case-reviews :
      (c : CaseEvaluationResult)
      → contains keys c.case_id ≡ is_pending c
      → (is_pending (judge_case js c) ≡ false) × (is_pending c ≡ false → judge_case js c ≡ c)
  judge_case-reviews c covered = elim (Bool-cases (is_pending c)) [
    | inl waits ↦
        let (judgment, found) = judgment_for-some c.case_id js (covered ∙ waits) in
        (rw found (judged_settled judgment), λ h. absurd cc)
    | inr settled ↦
        let missing = judgment_for-none c.case_id js (covered ∙ settled) in
        (rw missing settled, λ h. rw missing refl)
  ]

  AreReviewed-map :
      (cs : List CaseEvaluationResult)
      → All (λ c. contains keys c.case_id ≡ is_pending c) cs
      → AreReviewed cs (map (judge_case js) cs)
  AreReviewed-map [] h = tt
  AreReviewed-map (c ∷ cs) h = (judge_case-reviews c h.0, AreReviewed-map cs h.1)

every-contains :
    (ids others : List Text) (i : Text)
    → every (λ x. contains others x) ids ≡ true
    → contains ids i ≡ true
    → contains others i ≡ true
every-contains [] others i h k = absurd cc
every-contains (x ∷ ids) others i h k = elim (Bool-cases (i == x)) [
  | inl here ↦
      let same = equals_path i x here in
      subst (λ y. contains others y ≡ true) (sym same) (ground arith)
  | inr past ↦ every-contains ids others i (ground arith) (ground arith)
]

covers-contains :
    (ids others : List Text) (i : Text)
    → covers ids others ≡ true
    → contains ids i ≡ contains others i
covers-contains ids others i h =
    ground (arith, every-contains ids others i, every-contains others ids i)

abbrev case_id_of : CaseEvaluationResult → Text
case_id_of c = c.case_id

others_apart :
    (i : Text) (cs : List CaseEvaluationResult)
    → contains (map case_id_of cs) i ≡ false
    → All (λ c. (c.case_id == i) ≡ false) cs
others_apart i [] h = tt
others_apart i (c ∷ cs) h =
    (symmetric_beq c.case_id i ∙ ground arith, others_apart i cs (ground arith))

one_more :
    (i : Text) (ids : List Text) (cs : List CaseEvaluationResult)
    → All (λ c. contains ids c.case_id ≡ is_pending c) cs
    → All (λ c. (c.case_id == i) ≡ false) cs
    → All (λ c. contains (i ∷ ids) c.case_id ≡ is_pending c) cs
one_more i ids [] h k = tt
one_more i ids (c ∷ cs) h k = (rw k.0 h.0, one_more i ids cs h.1 k.1)

-- An identifier waits exactly when its case does.
waiting_ids :
    (cs : List CaseEvaluationResult)
    → Distinct (map case_id_of cs)
    → All (λ c. contains (map case_id_of (select is_pending cs)) c.case_id ≡ is_pending c) cs
unfolding select
waiting_ids [] h = tt
waiting_ids (c ∷ cs) h =
    let tail = map case_id_of (select is_pending cs) in
    elim (Bool-cases (is_pending c)) [
      | inl waits ↦
          let ids : map case_id_of (select is_pending (c ∷ cs)) ≡ c.case_id ∷ tail =
            rw (waits, select) refl in
          subst (λ l. All (λ d. contains l d.case_id ≡ is_pending d) (c ∷ cs)) (sym ids)
            (
              rw (equals_refl c.case_id, waits) refl,
              one_more c.case_id tail cs (waiting_ids cs h.1) (others_apart c.case_id cs h.0),
            )
      | inr settled ↦
          let ids : map case_id_of (select is_pending (c ∷ cs)) ≡ tail =
            rw (settled, select) refl in
          subst (λ l. All (λ d. contains l d.case_id ≡ is_pending d) (c ∷ cs)) (sym ids)
            (
              contains-select case_id_of is_pending cs c.case_id h.0 ∙ sym settled,
              waiting_ids cs h.1,
            )
    ]

count_of-AreReviewed :
    (cs cs' : List CaseEvaluationResult)
    → AreReviewed cs cs'
    → count_of EvaluationStatus.pending_review (map (λ c. c.end_to_end) cs') ≡ 0
count_of-AreReviewed [] [] h = refl
count_of-AreReviewed [] (c' ∷ cs') h = absurd h
count_of-AreReviewed (c ∷ cs) [] h = absurd h
count_of-AreReviewed (c ∷ cs) (c' ∷ cs') h = rw (h.0.0, count_of-AreReviewed cs cs' h.1) refl

abbrev pub IsReviewed : EvaluationReport → EvaluationReport → Type 0
IsReviewed report report' =
    AreReviewed report.cases report'.cases × (report'.end_to_end_summary.pending_review ≡ 0)

abbrev judged_report : EvaluationReport → EvaluationJudgmentSet → EvaluationReport
judged_report report js = record report {
  cases = map (judge_case js.judgments) report.cases;
  judgment_review = some js.reviewed_by;
  end_to_end_summary =
      summarize (map (λ c. c.end_to_end) (map (judge_case js.judgments) report.cases));
}

judged_report-IsReviewed :
    (report : EvaluationReport) (js : EvaluationJudgmentSet)
    → Distinct (map (λ c. c.case_id) report.cases)
    → covers (map (λ j. j.case_id) js.judgments) (map case_id_of (select is_pending report.cases))
      ≡ true
    → IsReviewed report (judged_report report js)
unfolding summarize
judged_report-IsReviewed report js distinct covered =
    let expected_ids = map case_id_of (select is_pending report.cases) in
    let keys = map (λ j. j.case_id) js.judgments in
    let cases = map (judge_case js.judgments) report.cases in
    let reviewed = AreReviewed-map js.judgments report.cases (
      All-map _ (λ c. contains keys c.case_id ≡ is_pending c)
        (λ c waits. covers-contains keys expected_ids c.case_id covered ∙ waits) report.cases
        (waiting_ids report.cases distinct)) in
    (reviewed, count_of-AreReviewed report.cases cases reviewed)

-- When the cases of a report have different identifiers, a report that apply_judgments returns has
-- no case whose end-to-end status is pending, the other cases are as they were, and its summary
-- counts no pending case.
pub apply_judgments-AreReviewed :
    (report report' : EvaluationReport) (js : EvaluationJudgmentSet) (report_sha256 : Text)
    → Distinct (map (λ c. c.case_id) report.cases)
    → apply_judgments report js report_sha256 ≡ ok report'
    → IsReviewed report report'
unfolding apply_judgments summarize
apply_judgments-AreReviewed report report' js report_sha256 distinct h =
    let expected_ids = map case_id_of (select is_pending report.cases) in
    let keys = map (λ j. j.case_id) js.judgments in
    elim (Bool-cases (js.report_sha256 == report_sha256)) [
      | inr other ↦ let e = rw other at h in absurd cc
      | inl digest ↦ elim (Bool-cases (js.dataset_id == report.dataset_id)) [
        | inr other ↦ let e = rw (digest, other) at h in absurd cc
        | inl dataset ↦ elim (Bool-cases (js.dataset_version == report.dataset_version)) [
          | inr other ↦ let e = rw (digest, dataset, other) at h in absurd cc
          | inl version ↦ elim (Bool-cases (is_reviewed report.judgment_review)) [
            | inl reviewed ↦ let e = rw (digest, dataset, version, reviewed) at h in absurd cc
            | inr unreviewed ↦ elim (Bool-cases (covers keys expected_ids)) [
              | inr wrong ↦
                  let e = rw (digest, dataset, version, unreviewed, wrong) at h in absurd cc
              | inl covered ↦
                  let e = rw (digest, dataset, version, unreviewed, covered) at h in
                  let same = ok-injective (judged_report report js) report' e in
                  subst (λ x. IsReviewed report x) same
                    (judged_report-IsReviewed report js distinct covered)
            ]
          ]
        ]
      ]
    ]
