-- ===== src/Answers/Stream/Owned.antt =====
-- The row of the run that is streamed, between the calls of its stream: what the other callers of
-- the repository may do to it.
use sourcetrace.Prelude.{
  ℕ, ◌≡◌, ◌≢◌, ◌⊎◌, refl, sym, ◌∙◌, subst, Bool, false, some, List, [], ◌∷◌, ◌++◌, map, ◌==◌,
  nat_eq, nat_beq_iff, contains, some_of, All, if◌then◌else◌, Bool-cases, Option-cases, inl, inr,
  arith,
}
use sourcetrace.Text.{Text}
use sourcetrace.Answers.Records.{
  RunStatus, AnswerRun, Question, AnswerExecutionMetadata, CitationDraft, Tables, is_active,
  is_running,
}
use sourcetrace.Answers.Repository as Repository
use sourcetrace.Answers.Repository.{
  update_run, update_tables, find_run, create_run, has_status, can_request_cancel, interrupt,
  insert_citations, answer_run, citation_of, is_active_in,
}
use sourcetrace.Answers.Repository.Operations.{
  Operation, create, mark_running, set_retrieval_query, set_workflow_trace, request_cancel, cancel,
  fail_interrupted_runs, complete_refusal, complete_answer, fail, apply, apply_all,
}

module _ {Score : Type 0} where
  -- An update by key, at the row of a key.
  abbrev pub changed :
      (AnswerRun Score → Bool)
      → (AnswerRun Score → AnswerRun Score)
      → AnswerRun Score
      → AnswerRun Score
  changed test change r = if test r then change r else r

  abbrev pub KeepsId : (AnswerRun Score → AnswerRun Score) → Type 0
  KeepsId change = (r : AnswerRun Score) → (change r).id ≡ r.id

  pub find_run-update_run :
      (id : ℕ) (test : AnswerRun Score → Bool) (change : AnswerRun Score → AnswerRun Score)
      (rs : List (AnswerRun Score)) (r : AnswerRun Score)
      → KeepsId change
      → find_run id rs ≡ some r
      → (find_run id (update_run id test change rs).1 ≡ some (changed test change r))
        × ((update_run id test change rs).0 ≡ test r)
  unfolding find_run update_run
  find_run-update_run id test change [] r keeps found = cc
  find_run-update_run id test change (q ∷ rs) r keeps found = ground (
    arith,
    keeps q,
    nat_beq_iff q.id id,
    nat_beq_iff (change q).id id,
    find_run-update_run id test change rs r keeps,
  )

  find_run-update_other :
      (id other : ℕ) (test : AnswerRun Score → Bool) (change : AnswerRun Score → AnswerRun Score)
      (rs : List (AnswerRun Score))
      → KeepsId change
      → other ≢ id
      → find_run id (update_run other test change rs).1 ≡ find_run id rs
  unfolding find_run update_run
  find_run-update_other id other test change [] keeps ne = refl
  find_run-update_other id other test change (q ∷ rs) keeps ne = ground (
    arith,
    keeps q,
    nat_beq_iff q.id id,
    nat_beq_iff q.id other,
    nat_beq_iff (change q).id id,
    find_run-update_other id other test change rs keeps ne,
  )

  -- What the other callers may do: nothing that ends or starts the run `id`.
  abbrev pub IsForeign : ℕ → Operation Score → Type 0
  IsForeign id (mark_running other) = other ≢ id
  IsForeign id (cancel other now) = other ≢ id
  IsForeign id (fail_interrupted_runs now) = ⊥
  IsForeign id (complete_refusal other code message now) = other ≢ id
  IsForeign id (complete_answer is_stored other answer citations now) = other ≢ id
  IsForeign id (fail other code message now) = other ≢ id
  IsForeign id _ = Unit

  -- The row `r'` is the row `r`, but for a requested cancellation and what a running run records.
  pub record Stays (r r' : AnswerRun Score) : Type 0 where
    pub ended : is_active r.status ≡ false → r' ≡ r
    pub waiting :
        r.status ≡ RunStatus.pending
        → (r'.status ≡ RunStatus.pending) ⊎ (r'.status ≡ RunStatus.cancel_requested)
    pub live :
        r.status ≡ RunStatus.running
        → (r'.status ≡ RunStatus.running) ⊎ (r'.status ≡ RunStatus.cancel_requested)
    pub requested : r.status ≡ RunStatus.cancel_requested → r'.status ≡ RunStatus.cancel_requested

  Stays-refl : (r : AnswerRun Score) → Stays r r
  Stays-refl r = record {
    ended = λ h. refl;
    waiting = λ h. inl h;
    live = λ h. inl h;
    requested = λ h. h;
  }

  Stays-trans : {r r' r'' : AnswerRun Score} → Stays r r' → Stays r' r'' → Stays r r''
  Stays-trans {r} {r'} {r''} p q = record {
    ended = λ h. q.ended (subst (λ x. is_active x.status ≡ false) (sym (p.ended h)) h) ∙ p.ended h;
    waiting = λ h. ground (arith, p.waiting h, q.waiting, q.requested);
    live = λ h. ground (arith, p.live h, q.live, q.requested);
    requested = λ h. q.requested (p.requested h);
  }

  -- A change that leaves the status alone, of a running run.
  recorded-Stays :
      (change : AnswerRun Score → AnswerRun Score) (r : AnswerRun Score)
      → (change r).status ≡ r.status
      → Stays r (changed (has_status is_running) change r)
  recorded-Stays change r same = elim (Bool-cases (is_running r.status)) [
    | inl running ↦ rw running (record {
      ended = λ h. ground arith;
      waiting = λ h. inl (same ∙ h);
      live = λ h. inl (same ∙ h);
      requested = λ h. same ∙ h;
    })
    | inr other ↦ rw other (Stays-refl r)
  ]

  requested-Stays :
      (kb conversation : ℕ) (r : AnswerRun Score)
      → Stays r (
          changed
            (can_request_cancel kb conversation)
            (λ r. record r { status = RunStatus.cancel_requested })
            r)
  requested-Stays kb conversation r = elim (Bool-cases (can_request_cancel kb conversation r)) [
    | inl open_run ↦ rw open_run (record {
      ended = λ h. ground arith;
      waiting = λ h. inr refl;
      live = λ h. inr refl;
      requested = λ h. refl;
    })
    | inr other ↦ rw other (Stays-refl r)
  ]

  -- The row of the run after an operation of another caller.
  abbrev pub Remains : ℕ → AnswerRun Score → Tables Score → Type 0
  Remains id r t = (r' : AnswerRun Score) × (find_run id t.runs ≡ some r') × Stays r r'

  other-Remains :
      (id other : ℕ) (test : AnswerRun Score → Bool) (change : AnswerRun Score → AnswerRun Score)
      (t : Tables Score) (r : AnswerRun Score)
      → KeepsId change
      → other ≢ id
      → find_run id t.runs ≡ some r
      → Remains id r (update_tables other test change t).1
  other-Remains id other test change t r keeps ne found =
      (r, find_run-update_other id other test change t.runs keeps ne ∙ found, Stays-refl r)

  changed-Remains :
      (id other : ℕ) (test : AnswerRun Score → Bool) (change : AnswerRun Score → AnswerRun Score)
      (t : Tables Score) (r : AnswerRun Score)
      → KeepsId change
      → ((q : AnswerRun Score) → Stays q (changed test change q))
      → find_run id t.runs ≡ some r
      → Remains id r (update_tables other test change t).1
  changed-Remains id other test change t r keeps stays found = elim (Bool-cases (other == id)) [
    | inl own ↦
        subst (λ i. Remains id r (update_tables i test change t).1)
          (sym ((nat_beq_iff other id).0 own))
          (
            changed test change r,
            (find_run-update_run id test change t.runs r keeps found).0,
            stays r,
          )
    | inr ne ↦
        other-Remains id other test change t r keeps (ground (arith, nat_beq_iff other id)) found
  ]

  find_run-append :
      (id : ℕ) (rs new : List (AnswerRun Score)) (r : AnswerRun Score)
      → find_run id rs ≡ some r
      → find_run id (rs ++ new) ≡ some r
  unfolding find_run
  find_run-append id [] new r found = cc
  find_run-append id (q ∷ rs) new r found = ground (arith, find_run-append id rs new r)

  create_run-Remains :
      (id other now : ℕ) (question : Question) (metadata : AnswerExecutionMetadata)
      (t : Tables Score) (r : AnswerRun Score)
      → find_run id t.runs ≡ some r
      → Remains id r (create_run other now question metadata t).1
  unfolding create_run
  create_run-Remains id other now question metadata t r found =
      elim (Bool-cases (contains (map (λ r. r.id) t.runs) other)) [
        | inl taken ↦ rw taken (r, found, Stays-refl r)
        | inr free ↦ elim (Bool-cases (some_of (is_active_in question.conversation_id) t.runs)) [
          | inl busy ↦ rw (free, busy) (r, found, Stays-refl r)
          | inr idle ↦ rw (free, idle) (r, find_run-append id t.runs _ r found, Stays-refl r)
        ]
      ]

  complete_answer-Remains :
      (id : ℕ) (is_stored : ℕ → Bool) (other : ℕ) (answer : Text) (citations : List CitationDraft)
      (now : ℕ) (t : Tables Score) (r : AnswerRun Score)
      → other ≢ id
      → find_run id t.runs ≡ some r
      → Remains id r (Repository.complete_answer is_stored other answer citations now t).1
  unfolding Repository.complete_answer
  complete_answer-Remains id is_stored other answer citations now t r ne found =
      let updated = update_run other (has_status is_running) (answer_run answer now) t.runs in
      elim (Bool-cases updated.0) [
        | inl running ↦
            elim (Option-cases
              (insert_citations is_stored t.citations (map (citation_of other) citations))) [
                | inl refused ↦ rw (running, refused) (r, found, Stays-refl r)
                | inr (stored, done) ↦
                    rw (running, done)
                      (other-Remains id other (has_status is_running) (answer_run answer now) t r
                        (λ q. refl) ne found)
              ]
        | inr ended ↦ rw ended (r, found, Stays-refl r)
      ]

  apply-Remains :
      (id : ℕ) (op : Operation Score) (t : Tables Score) (r : AnswerRun Score)
      → IsForeign id op
      → find_run id t.runs ≡ some r
      → Remains id r (apply op t)
  unfolding Repository.mark_running Repository.set_retrieval_query Repository.set_workflow_trace
      Repository.request_cancel Repository.cancel Repository.complete_refusal Repository.fail
  apply-Remains id (create other now question metadata) t r foreign found =
      create_run-Remains id other now question metadata t r found
  apply-Remains id (mark_running other) t r foreign found =
      other-Remains id other _ _ t r (λ q. refl) foreign found
  apply-Remains id (set_retrieval_query other query) t r foreign found =
      changed-Remains id other _ _ t r (λ q. refl)
        (λ q. recorded-Stays (λ x. record x { retrieval_query = query }) q refl) found
  apply-Remains id (set_workflow_trace other trace) t r foreign found =
      changed-Remains id other _ _ t r (λ q. refl)
        (λ q. recorded-Stays (λ x. record x { workflow_trace = trace }) q refl) found
  apply-Remains id (request_cancel kb conversation other) t r foreign found =
      changed-Remains id other _ _ t r (λ q. refl) (requested-Stays kb conversation) found
  apply-Remains id (cancel other now) t r foreign found =
      other-Remains id other _ _ t r (λ q. refl) foreign found
  apply-Remains id (fail_interrupted_runs now) t r foreign found = absurd foreign
  apply-Remains id (complete_refusal other code message now) t r foreign found =
      other-Remains id other _ _ t r (λ q. refl) foreign found
  apply-Remains id (complete_answer is_stored other answer citations now) t r foreign found =
      complete_answer-Remains id is_stored other answer citations now t r foreign found
  apply-Remains id (fail other code message now) t r foreign found =
      other-Remains id other _ _ t r (λ q. refl) foreign found

  pub apply_all-Remains :
      (id : ℕ) (ops : List (Operation Score)) (t : Tables Score) (r : AnswerRun Score)
      → All (IsForeign id) ops
      → find_run id t.runs ≡ some r
      → Remains id r (apply_all ops t)
  unfolding apply_all
  apply_all-Remains id [] t r foreign found = (r, found, Stays-refl r)
  apply_all-Remains id (op ∷ ops) t r foreign found =
      let (r', found', stays) = apply-Remains id op t r foreign.0 found in
      let (r'', found'', stays') = apply_all-Remains id ops (apply op t) r' foreign.1 found' in
      (r'', found'', Stays-trans stays stays')
