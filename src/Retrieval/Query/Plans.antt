-- ===== src/Retrieval/Query/Plans.antt =====
-- `with_additional_queries` and `resolve_plan` of modules/retrieval/service.py: the plans they
-- make.
use mathlib.Core.List.{append_assoc, append-nil, map-append}
use mathlib.Core.Option.{some-injective}
use sourcetrace.Prelude.{
  ℕ, ◌≤◌, ◌<◌, ◌≡◌, refl, sym, subst, ◌∙◌, true, false, Option, none, some, List, [], ◌∷◌, ◌++◌,
  ◌==◌, leb, nat_eq, list_eq, length, arith, All, All-middle, Distinct-middle, Bool-cases, inl, inr,
  length-append, Result, ok, raise_if, >>=-eq-ok, ok-injective, raise_if-ok,
}
use sourcetrace.Text.{Text, is_empty, strip}
use sourcetrace.Text.Split.{join-split}
use sourcetrace.Text.Strip.{strip_idem}
use sourcetrace.Rag.Ports.{RetrievalPlanProposal}
use sourcetrace.Retrieval.Query.{
  RetrievalPlan, PlanError, blank_question, normalize_query, key_of, is_skipped, unique_loop,
  unique_queries, accept_loop, with_additional_queries, plan_loop, resolve_plan,
}
use sourcetrace.Retrieval.Query.Valid.{
  AreQueries, AreQueries-snoc, keys, keys-snoc, accept_loop-AreQueries,
}

module _ (casefold : Text → Text) where
  pub record IsPlan (queries : List Text) : Type 0 where
    pub valid : AreQueries casefold queries
    pub nonempty : 0 < length queries
    pub bounded : length queries ≤ 3

  pub IsPlan-snoc :
      (queries : List Text) (query : Text)
      → IsPlan queries
      → length queries < 3
      → is_skipped casefold (keys casefold queries) (key_of casefold query) ≡ false
      → IsPlan (queries ++ strip query ∷ [])
  IsPlan-snoc queries query h room fresh = record {
    valid = AreQueries-snoc casefold queries query h.valid fresh;
    nonempty = omega (arith, length-append queries (strip query ∷ []));
    bounded = omega (arith, length-append queries (strip query ∷ []));
  }

  accept_loop-length :
      (accepted normalized queries : List Text)
      → length accepted ≤ 3
      → (length (accept_loop casefold accepted normalized queries) ≤ 3)
        × (length accepted ≤ length (accept_loop casefold accepted normalized queries))
  unfolding accept_loop
  accept_loop-length accepted normalized [] h = omega arith
  accept_loop-length accepted normalized (query ∷ queries) h = ground (
    arith,
    accept_loop-length accepted normalized queries h,
    accept_loop-length (accepted ++ strip query ∷ []) (normalized ++ key_of casefold query ∷ [])
        queries,
    length-append accepted (strip query ∷ []),
  )

  -- The loop appends: what was accepted before stays, in place.
  accept_loop-append :
      (accepted normalized queries : List Text)
      → (extra : List Text) × (accept_loop casefold accepted normalized queries ≡ accepted ++ extra)
  unfolding accept_loop
  accept_loop-append accepted normalized [] = ([], sym (append-nil accepted))
  accept_loop-append accepted normalized (query ∷ queries) =
      elim (Bool-cases (is_skipped casefold normalized (key_of casefold query))) [
        | inl skip ↦ rw (skip, accept_loop) (accept_loop-append accepted normalized queries)
        | inr fresh ↦ elim (Bool-cases (leb 3 (length accepted))) [
          | inl full ↦ ([], rw (fresh, full, accept_loop) (sym (append-nil accepted)))
          | inr room ↦
              let (extra, e) =
                accept_loop-append (accepted ++ strip query ∷ [])
                  (normalized ++ key_of casefold query ∷ []) queries in
              (
                strip query ∷ extra,
                rw (fresh, room, accept_loop) (e ∙ append_assoc accepted (strip query ∷ []) extra),
              )
        ]
      ]

  abbrev accepted : RetrievalPlan → List Text → List Text
  accepted plan queries = accept_loop casefold plan.queries (keys casefold plan.queries) queries

  -- `plan'` is a valid plan of the same version and trace, and has the queries of `plan` first
  -- and at least one more.
  abbrev pub Grown : RetrievalPlan → RetrievalPlan → Type 0
  Grown plan plan' =
      IsPlan plan'.queries
      × (plan'.version ≡ plan.version)
      × (plan'.planning_trace ≡ plan.planning_trace)
      × (length plan.queries < length plan'.queries)
      × ((extra : List Text) × (plan'.queries ≡ plan.queries ++ extra))

  -- From a valid plan, a plan that with_additional_queries returns is valid, has the same version
  -- and planning trace, and has the queries of the old plan first and at least one more after them.
  pub with_additional_queries-IsPlan :
      (plan plan' : RetrievalPlan) (queries : List Text)
      → IsPlan plan.queries
      → with_additional_queries casefold plan queries ≡ some plan'
      → Grown plan plan'
  unfolding with_additional_queries
  with_additional_queries-IsPlan plan plan' queries h e =
      elim (Bool-cases (length (accepted plan queries) == length plan.queries)) [
        | inl same ↦ cc (rw same at e)
        | inr more ↦
            let (extra, e') =
              accept_loop-append plan.queries (keys casefold plan.queries) queries in
            let long =
              accept_loop-length plan.queries (keys casefold plan.queries) queries h.bounded in
            let valid = accept_loop-AreQueries casefold plan.queries queries h.valid in
            subst (Grown plan) (some-injective _ plan' (rw more at e)) (
              record { valid = valid; nonempty = omega arith; bounded = long.0 },
              refl,
              refl,
              ground arith,
              (extra, e'),
            )
      ]

  -- The loop of `resolve_plan` keeps a valid plan valid.
  plan_loop-IsPlan :
      (queries additional : List Text)
      → IsPlan queries
      → length queries < 3
      → IsPlan (plan_loop casefold queries (keys casefold queries) additional)
  unfolding plan_loop
  plan_loop-IsPlan queries [] h room = h
  plan_loop-IsPlan queries (query ∷ additional) h room =
      elim (Bool-cases (is_skipped casefold (keys casefold queries) (key_of casefold query))) [
        | inl skip ↦ rw (skip, plan_loop) (plan_loop-IsPlan queries additional h room)
        | inr fresh ↦ elim (Bool-cases (length (queries ++ strip query ∷ []) == 3)) [
          | inl full ↦ rw (fresh, full, plan_loop) (IsPlan-snoc queries query h room fresh)
          | inr more ↦
              rw (fresh, more, plan_loop)
                (rw (← keys-snoc casefold queries query) (
                  plan_loop-IsPlan (queries ++ strip query ∷ []) additional
                    (IsPlan-snoc queries query h room fresh)
                    (ground (arith, length-append queries (strip query ∷ [])))))
        ]
      ]

  -- `_unique_queries` leaves the queries of a valid plan as they are.
  unique_loop_id :
      (done rest : List Text)
      → AreQueries casefold (done ++ rest)
      → unique_loop casefold done (keys casefold done) rest ≡ done ++ rest
  unfolding unique_loop
  unique_loop_id done [] h = sym (append-nil done)
  unique_loop_id done (query ∷ rest) h =
      let trimmed : strip query ≡ query = All-middle _ done query rest h.stripped in
      let fresh : is_skipped casefold (keys casefold done) (key_of casefold query) ≡ false =
        ground (
          arith,
          trimmed,
          All-middle (λ q. is_empty (normalize_query casefold q) ≡ false) done query rest
              h.nonblank,
          Distinct-middle (keys casefold done) (normalize_query casefold query) (keys casefold rest)
              (rw map-append at h.distinct),
        ) in
      rw (fresh, unique_loop)
        (rw (← keys-snoc casefold done query) (
          rw trimmed (
            unique_loop_id (done ++ query ∷ []) rest (rw append_assoc h)
            ∙ append_assoc done (query ∷ []) rest)))

  -- _unique_queries leaves the queries of a valid plan as they are.
  pub unique_queries_id :
      (queries : List Text) → IsPlan queries → unique_queries casefold queries ≡ queries
  unfolding unique_queries
  unique_queries_id queries h = unique_loop_id [] queries h.valid

  -- `with_additional_queries` gives up on a plan that has room for a query only if every query
  -- offered is blank or has the key of one in the plan.
  accept_loop_stays :
      (accepted normalized queries : List Text)
      → length accepted < 3
      → length (accept_loop casefold accepted normalized queries) ≡ length accepted
      → All (λ q. is_skipped casefold normalized (key_of casefold q) ≡ true) queries
  unfolding accept_loop
  accept_loop_stays accepted normalized [] room e = tt
  accept_loop_stays accepted normalized (query ∷ queries) room e =
      elim (Bool-cases (is_skipped casefold normalized (key_of casefold query))) [
        | inl skip ↦
            (skip, accept_loop_stays accepted normalized queries room (rw (skip, accept_loop) at e))
        | inr fresh ↦ absurd (
            ground (
              arith,
              accept_loop-length (accepted ++ strip query ∷ [])
                  (normalized ++ key_of casefold query ∷ []) queries,
              length-append accepted (strip query ∷ []),
            ))
      ]

  -- When with_additional_queries gives up on a plan that has room for a query, every query that it
  -- was offered is blank or has the normalised text of one in the plan.
  pub with_additional_queries-none :
      (plan : RetrievalPlan) (queries : List Text)
      → length plan.queries < 3
      → with_additional_queries casefold plan queries ≡ none
      → All
          (λ q. is_skipped casefold (keys casefold plan.queries) (key_of casefold q) ≡ true)
          queries
  unfolding with_additional_queries
  with_additional_queries-none plan queries room e =
      accept_loop_stays plan.queries (keys casefold plan.queries) queries room (ground arith)

  -- What `str.casefold` does: it maps no text to the empty one but the empty one.
  abbrev pub KeepsText : Type 0
  KeepsText = (s : Text) → is_empty s ≡ false → is_empty (casefold s) ≡ false

  singleton-IsPlan :
      (question : Text)
      → KeepsText
      → is_empty (strip question) ≡ false
      → IsPlan (strip question ∷ [])
  unfolding normalize_query
  singleton-IsPlan question keeps h = record {
    valid = record {
      stripped = (strip_idem question, tt);
      nonblank = (keeps _ (join-split _ (strip question) (rw strip_idem h)), tt);
      distinct = (refl, tt);
    };
    nonempty = omega arith;
    bounded = omega arith;
  }

  plan_loop-append :
      (queries normalized additional : List Text)
      → (extra : List Text) × (plan_loop casefold queries normalized additional ≡ queries ++ extra)
  unfolding plan_loop
  plan_loop-append queries normalized [] = ([], sym (append-nil queries))
  plan_loop-append queries normalized (query ∷ additional) =
      elim (Bool-cases (is_skipped casefold normalized (key_of casefold query))) [
        | inl skip ↦ rw (skip, plan_loop) (plan_loop-append queries normalized additional)
        | inr fresh ↦ elim (Bool-cases (length (queries ++ strip query ∷ []) == 3)) [
          | inl full ↦ (strip query ∷ [], rw (fresh, full, plan_loop) refl)
          | inr more ↦
              let (extra, e) =
                plan_loop-append (queries ++ strip query ∷ [])
                  (normalized ++ key_of casefold query ∷ []) additional in
              (
                strip query ∷ extra,
                rw (fresh, more, plan_loop) (e ∙ append_assoc queries (strip query ∷ []) extra),
              )
        ]
      ]

  -- A valid plan of the version, whose first query is the stripped question.
  abbrev pub PlansFor : Option Text → Text → RetrievalPlan → Type 0
  PlansFor version question plan =
      IsPlan plan.queries
      × (version ≡ some plan.version)
      × ((extra : List Text) × (plan.queries ≡ strip question ∷ extra))

  -- `resolve_plan`, if it returns, returns a valid plan of the configured version: at most three
  -- distinct queries, the stripped question first.
  pub resolve_plan-PlansFor :
      KeepsText
      → (version : Option Text) (titles : ℕ → Result PlanError (List Text))
        (planner : Text → List Text → List Text → Result PlanError RetrievalPlanProposal)
        (question : Text) (recent : List Text) (plan : RetrievalPlan)
      → resolve_plan casefold version titles planner question recent ≡ ok plan
      → PlansFor version question plan
  unfolding resolve_plan
  resolve_plan-PlansFor keeps none titles planner question recent plan e = absurd (ground arith)
  resolve_plan-PlansFor keeps (some version) titles planner question recent plan e =
      let (_, nonblank, e₁) = >>=-eq-ok (raise_if (is_empty (strip question)) blank_question) _ e in
      let (document_titles, _, e₂) = >>=-eq-ok (titles 50) _ e₁ in
      let (proposal, _, e₃) = >>=-eq-ok (planner question recent document_titles) _ e₂ in
      let start = singleton-IsPlan question keeps (raise_if-ok _ _ nonblank) in
      subst (PlansFor (some version) question) (ok-injective _ plan e₃) (
        plan_loop-IsPlan (strip question ∷ []) proposal.additional_queries start (omega arith),
        refl,
        plan_loop-append (strip question ∷ []) _ proposal.additional_queries,
      )

  -- When case folding empties no text, the question is not blank, and the repository and the
  -- planner return, resolve_plan with a configured version returns a plan of that version: one to
  -- three queries, stripped, not blank and distinct once normalised, with the stripped question
  -- first.
  pub resolve_plan-returns :
      KeepsText
      → (version : Text) (titles : ℕ → Result PlanError (List Text))
        (planner : Text → List Text → List Text → Result PlanError RetrievalPlanProposal)
        (question : Text) (recent document_titles : List Text) (proposal : RetrievalPlanProposal)
      → is_empty (strip question) ≡ false
      → titles 50 ≡ ok document_titles
      → planner question recent document_titles ≡ ok proposal
      → (plan : RetrievalPlan) × (resolve_plan casefold
            (some version)
            titles
            planner
            question
            recent
          ≡ ok plan)
        × PlansFor (some version) question plan
  unfolding resolve_plan
  resolve_plan-returns keeps version titles planner question recent document_titles proposal
        nonblank has_titles has_proposal =
      let plan : RetrievalPlan = record {
        version = version;
        queries =
            plan_loop casefold (strip question ∷ []) (keys casefold (strip question ∷ []))
              proposal.additional_queries;
        planning_trace = proposal.planning_trace;
      } in
      let returns : resolve_plan casefold (some version) titles planner question recent ≡ ok plan =
        rw (nonblank, has_titles, has_proposal) refl in
      (
        plan,
        returns,
        resolve_plan-PlansFor keeps (some version) titles planner question recent plan returns,
      )
