-- ===== src/Rag/Workflow/Steps/Assess.antt =====
-- `_assess` and `_after_assessment` of rag/workflow.py.
use sourcetrace.Prelude.{
  ℕ, ◌<◌, ◌≡◌, refl, subst, Bool, ◌&&◌, none, some, List, [], ◌∷◌, ◌++◌, map, All, All-append,
  select, every, contains, length, take, leb, ◌==◌, nat_eq, list_eq, if◌then◌else◌, Bool-cases,
  Option-cases, inl, inr, arith,
}
use sourcetrace.Text.{Text}
use sourcetrace.Retrieval.Evidence.{Scores, RetrievedEvidence}
use sourcetrace.Retrieval.Query.{RetrievalPlan, with_additional_queries}
use sourcetrace.Rag.Ports.{EvidenceDecision}
use sourcetrace.Rag.Workflow.Traces.{WorkflowTrace}
use sourcetrace.Rag.Workflow.State.{
  WorkflowRequest, WorkflowState, Services, RefusalCode, assessing, status, insufficient_evidence,
}
use sourcetrace.Rag.Workflow.Nodes.{
  unique_evidence, unique_evidence_from, refusal_state, supplemental_query_limit, grow_or_refuse,
  decide, assess_evidence,
}
use sourcetrace.Rag.Workflow.Graph.{Node, evidence_assessment, after_assessment, after, run_node}
use sourcetrace.Rag.Workflow.Rules.{
  does_pure, does_bind, does_ask, does_emit, does_require, does_lift, IsSome,
}
use sourcetrace.Rag.Workflow.Ready.{Ready, IsStrong, IsSelection, steps_left}
use sourcetrace.Rag.Workflow.Steps.{does_ensure_active, does_record_trace, Steps}

All-select :
    {A : Type 0} (P : A → Type 0) (test : A → Bool) (xs : List A)
    → All P xs
    → All P (select test xs)
unfolding select
All-select P test [] h = tt
All-select P test (x ∷ xs) h = elim (Bool-cases (test x)) [
  | inl pass ↦ rw pass (h.0, All-select P test xs h.1)
  | inr fail ↦ rw fail (All-select P test xs h.1)
]

All-unique_evidence_from :
    {Score : Type 0} (P : RetrievedEvidence Score → Type 0) (seen : List ℕ)
    (items : List (RetrievedEvidence Score))
    → All P items
    → All P (unique_evidence_from seen items)
unfolding unique_evidence_from
All-unique_evidence_from P seen [] h = tt
All-unique_evidence_from P seen (x ∷ xs) h = elim (Bool-cases (contains seen x.chunk_id)) [
  | inl old ↦ rw (old, unique_evidence_from) (All-unique_evidence_from P seen xs h.1)
  | inr new ↦
      rw (new, unique_evidence_from)
        (h.0, All-unique_evidence_from P (seen ++ x.chunk_id ∷ []) xs h.1)
]

module _ (scores : Scores) (casefold : Text → Text) (minimum_score : scores.Score)
    (minimum_evidence : ℕ) (services : Services scores.Score) (request : WorkflowRequest) where
  open scores use {Score, lt}

  abbrev Strong : List (RetrievedEvidence Score) → Type 0
  Strong = All (IsStrong scores casefold minimum_score minimum_evidence services request)

  abbrev ReadyFor : Node → WorkflowState Score → Type 0
  ReadyFor = Ready scores casefold minimum_score minimum_evidence services request

  abbrev Goes : WorkflowState Score → WorkflowState Score → Type 0
  Goes s s' =
      ReadyFor (after_assessment s') s'
      × (steps_left scores casefold minimum_score minimum_evidence services request
            (after_assessment s') s'
          < steps_left scores casefold minimum_score minimum_evidence services request
              evidence_assessment s)

  refusal_state-Goes :
      (code : RefusalCode) (trace : WorkflowTrace Score) (s : WorkflowState Score)
      → Goes s (
          refusal_state scores casefold minimum_score minimum_evidence services request code trace
            s)
  unfolding after_assessment IsSome
  refusal_state-Goes code trace s = (tt, ground arith)

  goes_generation :
      (s : WorkflowState Score)
      → s.refusal_code ≡ none
      → (s.supplemental_attempts ≡ 0 → s.supplemental_queries ≡ none)
      → after_assessment s ≡ Node.generation
  unfolding after_assessment
  goes_generation s h g = elim (Bool-cases (s.supplemental_attempts == 0)) [
    | inl first ↦ rw (h, g (ground arith)) refl
    | inr second ↦ rw (h, second) ground arith
  ]

  goes_supplemental :
      (s : WorkflowState Score) (queries : List Text)
      → s.refusal_code ≡ none
      → s.supplemental_queries ≡ some queries
      → s.supplemental_attempts ≡ 0
      → after_assessment s ≡ Node.supplemental_retrieval
  unfolding after_assessment
  goes_supplemental s queries h g first = rw (h, g, first) refl

  selection-Goes :
      (selected : List (RetrievedEvidence Score)) (trace : WorkflowTrace Score)
      (s : WorkflowState Score)
      → ReadyFor evidence_assessment s
      → IsSelection scores casefold minimum_score minimum_evidence services request selected
      → Goes s (record s { selected_evidence = some selected; workflow_trace = trace })
  unfolding IsSome
  selection-Goes selected trace s ready enough =
      let s' : WorkflowState Score = record s {
        selected_evidence = some selected;
        workflow_trace = trace;
      } in
      let e : after_assessment s' ≡ Node.generation = goes_generation s' ready.0.0.0 ready.1 in
      rw e ((ready.0, enough), ground arith)

  supplement-Goes :
      (selected : List (RetrievedEvidence Score)) (queries : List Text) (plan : RetrievalPlan)
      (trace : WorkflowTrace Score) (s : WorkflowState Score)
      → ReadyFor evidence_assessment s
      → Strong selected
      → s.supplemental_attempts ≡ 0
      → Goes s (record s {
        supplemental_queries = some queries;
        retrieval_plan = some plan;
        previously_selected_evidence = selected;
        workflow_trace = trace;
      })
  unfolding IsSome
  supplement-Goes selected queries plan trace s ready strong first =
      let s' : WorkflowState Score = record s {
        supplemental_queries = some queries;
        retrieval_plan = some plan;
        previously_selected_evidence = selected;
        workflow_trace = trace;
      } in
      let e : after_assessment s' ≡ Node.supplemental_retrieval =
        goes_supplemental s' queries ready.0.0.0 refl first in
      rw e (((ready.0.0, ready.0.1, ready.0.2, strong), first, tt), ground arith)

  -- A selection that is too small or not sufficient.
  grow_or_refuse-Goes :
      (selected : List (RetrievedEvidence Score)) (queries : List Text) (plan : RetrievalPlan)
      (trace : WorkflowTrace Score) (s : WorkflowState Score)
      → ReadyFor evidence_assessment s
      → Strong selected
      → Goes s (
          grow_or_refuse scores casefold minimum_score minimum_evidence services request s plan
            selected queries trace)
  unfolding grow_or_refuse
  grow_or_refuse-Goes selected queries plan trace s ready strong =
      elim (Bool-cases (s.supplemental_attempts == 0)) [
        | inr second ↦
            subst (Goes s) (rw second refl) (refusal_state-Goes insufficient_evidence trace s)
        | inl first ↦ elim (Option-cases (with_additional_queries casefold plan queries)) [
          | inl none_new ↦
              subst (Goes s) (rw (first, none_new) refl)
                (refusal_state-Goes insufficient_evidence trace s)
          | inr (expanded, grown) ↦
              subst (Goes s) (rw (first, grown) refl)
                (supplement-Goes selected queries expanded trace s ready strong (ground arith))
        ]
      ]

  known-Goes :
      (s : WorkflowState Score) (plan : RetrievalPlan) (selected : List (RetrievedEvidence Score))
      (sufficient : Bool) (queries : List Text) (trace : WorkflowTrace Score)
      → ReadyFor evidence_assessment s
      → Strong selected
      → Goes s (
          if sufficient && leb minimum_evidence (length selected)
          then record s { selected_evidence = some selected; workflow_trace = trace }
          else grow_or_refuse scores casefold minimum_score minimum_evidence services request s plan
              selected queries trace)
  known-Goes s plan selected sufficient queries trace ready strong =
      elim (Bool-cases (sufficient && leb minimum_evidence (length selected))) [
        | inl enough ↦ rw enough (selection-Goes selected trace s ready (ground arith, strong))
        | inr few ↦ rw few (grow_or_refuse-Goes selected queries plan trace s ready strong)
      ]

  decide-Goes :
      (s : WorkflowState Score) (plan : RetrievalPlan) (available : List (RetrievedEvidence Score))
      (decision : EvidenceDecision) (ids : List Text) (trace : WorkflowTrace Score)
      → ReadyFor evidence_assessment s
      → Strong available
      → Goes s (
          decide scores casefold minimum_score minimum_evidence services request s plan available
            decision ids trace)
  unfolding decide
  decide-Goes s plan available decision ids trace ready strong =
      elim (Bool-cases
        (every (contains (map (λ item. services.uuid_text item.chunk_id) available)) ids)) [
          | inr missing ↦ rw missing (refusal_state-Goes insufficient_evidence trace s)
          | inl known ↦ rw known (
              known-Goes s plan
                (select (λ item. contains ids (services.uuid_text item.chunk_id)) available)
                decision.sufficient
                (take
                  (supplemental_query_limit scores casefold minimum_score minimum_evidence services
                    request s plan)
                  decision.supplemental_queries)
                trace ready (All-select _ _ available strong))
        ]

  pub assess_evidence-Steps :
      (s : WorkflowState Score)
      → ReadyFor evidence_assessment s
      → Steps scores casefold minimum_score minimum_evidence services request evidence_assessment s
  unfolding run_node assess_evidence after unique_evidence IsSome
  assess_evidence-Steps s ready =
      does_bind (does_ensure_active scores casefold minimum_score minimum_evidence services request)
        λ _ _. does_bind (does_emit (status assessing) tt) λ _ _.
          does_bind (does_require {P = Strong} s.evidence ready.3) λ evidence strong.
            does_bind (does_require {P = λ plan. Unit {0}} s.retrieval_plan ready.2) λ plan _.
              does_bind (does_ask _) λ answer _. does_bind (does_lift answer) λ decision _.
                does_bind
                  (does_record_trace scores casefold minimum_score minimum_evidence services request
                    _)
                  λ _ _. does_pure _ (
                    does_pure _ (
                      decide-Goes s plan _ decision _ _ ready (
                        All-unique_evidence_from _ [] _
                          (All-append _ s.previously_selected_evidence evidence ready.0.3 strong))))
