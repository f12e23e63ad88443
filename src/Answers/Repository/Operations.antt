-- ===== src/Answers/Repository/Operations.antt =====
-- Sequences of the operations of `AnswerRepository`, by any callers in any order.
use sourcetrace.Prelude.{
  ℕ, ◌≡◌, refl, sym, subst, Bool, true, some, List, [], ◌∷◌, map, nat_eq, contains, some_of,
  Bool-cases, Option-cases, inl, inr, arith,
}
use sourcetrace.Text.{Text}
use sourcetrace.Rag.Workflow.Traces.{WorkflowTrace}
use sourcetrace.Answers.Records.{
  RunStatus, AnswerExecutionMetadata, AnswerRun, Question, CitationDraft, Tables, is_active,
  is_running,
}
use sourcetrace.Answers.Repository as Repository
use sourcetrace.Answers.Repository.{
  update_run, update_tables, find_run, create_run, new_run, has_status, is_active_in,
  can_request_cancel, interrupt, insert_citations, answer_run, citation_of,
}
use sourcetrace.Answers.Repository.Lifecycle.{
  ◌⟶*◌, next, here, stop, recover, request, complete, give_up, IsOpen, Follows, Follows-refl,
  Evolves, Evolves-refl, Evolves-trans, Evolves-append, Pointwise, Pointwise-refl,
  Pointwise-Evolves, Pointwise-map, Changes, active_Follows, update_run-Pointwise,
  mark_running-Changes, ended_Changes, active_of_running, active_consistent,
}

-- An operation with its arguments.
pub data Operation (Score : Type 0) : Type 0 where
  create : ℕ → ℕ → Question → AnswerExecutionMetadata → Operation Score
  mark_running : ℕ → Operation Score
  set_retrieval_query : ℕ → Text → Operation Score
  set_workflow_trace : ℕ → WorkflowTrace Score → Operation Score
  request_cancel : ℕ → ℕ → ℕ → Operation Score
  cancel : ℕ → ℕ → Operation Score
  fail_interrupted_runs : ℕ → Operation Score
  complete_refusal : ℕ → Text → Text → ℕ → Operation Score
  complete_answer : (ℕ → Bool) → ℕ → Text → List CitationDraft → ℕ → Operation Score
  fail : ℕ → Text → Text → ℕ → Operation Score

module _ {Score : Type 0} where
  abbrev pub apply : Operation Score → Tables Score → Tables Score
  apply (create id now question metadata) t = (create_run id now question metadata t).1
  apply (mark_running id) t = (Repository.mark_running id t).1
  apply (set_retrieval_query id query) t = (Repository.set_retrieval_query id query t).1
  apply (set_workflow_trace id trace) t = (Repository.set_workflow_trace id trace t).1
  apply (request_cancel kb conversation id) t = (Repository.request_cancel kb conversation id t).1
  apply (cancel id now) t = (Repository.cancel id now t).1
  apply (fail_interrupted_runs now) t = (Repository.fail_interrupted_runs now t).1
  apply (complete_refusal id code message now) t =
      (Repository.complete_refusal id code message now t).1
  apply (complete_answer is_stored id answer citations now) t =
      (Repository.complete_answer is_stored id answer citations now t).1
  apply (fail id code message now) t = (Repository.fail id code message now t).1

  unfoldable pub apply_all : List (Operation Score) → Tables Score → Tables Score
  apply_all [] t = t
  apply_all (op ∷ ops) t = apply_all ops (apply op t)

  create_run-Evolves :
      (id now : ℕ) (question : Question) (metadata : AnswerExecutionMetadata) (t : Tables Score)
      → Evolves t.runs (create_run id now question metadata t).1.runs
  unfolding create_run
  create_run-Evolves id now question metadata t =
      elim (Bool-cases (contains (map (λ r. r.id) t.runs) id)) [
        | inl taken ↦ rw taken (Evolves-refl t.runs)
        | inr free ↦ elim (Bool-cases (some_of (is_active_in question.conversation_id) t.runs)) [
          | inl busy ↦ rw (free, busy) (Evolves-refl t.runs)
          | inr idle ↦ rw (free, idle) (Evolves-append t.runs _ ((here, (tt, tt)), tt))
        ]
      ]

  kept_Follows :
      (r r' : AnswerRun Score)
      → r'.id ≡ r.id
      → r'.conversation_id ≡ r.conversation_id
      → r'.status ≡ r.status
      → is_running r.status ≡ true
      → (IsOpen r → IsOpen r')
      → Follows r r'
  kept_Follows r r' same_id same_conversation same running open_run =
      active_Follows r r' same_id same_conversation (active_of_running r.status running).1
        (subst (λ x. r.status ⟶* x) (sym same) here)
        (λ o.
          (active_consistent r'.status r'.outcome r'.failure_code r'.completed_at
              (subst (λ x. is_active x ≡ true) (sym same) (active_of_running r.status running).1)).1
            (open_run o))

  request_cancel-Changes :
      (kb conversation : ℕ)
      → Changes {Score = Score}
          (can_request_cancel kb conversation)
          (λ r. record r { status = RunStatus.cancel_requested })
  request_cancel-Changes kb conversation r h =
      active_Follows r (record r { status = RunStatus.cancel_requested }) refl refl (ground arith)
        (next (request (ground arith)) here) (λ o. o)

  cancel-Changes :
      (now : ℕ)
      → Changes {Score = Score}
          (has_status is_active)
          (λ r. record r { status = RunStatus.cancelled; completed_at = some now })
  cancel-Changes now r h =
      active_Follows r (record r { status = RunStatus.cancelled; completed_at = some now }) refl
        refl h (next (stop h) here) (λ o. (o.0, tt))

  interrupt-Follows : (now : ℕ) (r : AnswerRun Score) → Follows r (interrupt now r)
  interrupt-Follows now r = elim (Bool-cases (is_active r.status)) [
    | inl active ↦
        rw active
          (active_Follows r _ refl refl active (next (recover active) here) (λ o. (o.0, tt, tt)))
    | inr ended ↦ rw ended (Follows-refl r)
  ]

  complete_answer-Pointwise :
      (is_stored : ℕ → Bool) (id : ℕ) (answer : Text) (citations : List CitationDraft) (now : ℕ)
      (t : Tables Score)
      → Pointwise t.runs (Repository.complete_answer is_stored id answer citations now t).1.runs
  unfolding Repository.complete_answer
  complete_answer-Pointwise is_stored id answer citations now t =
      let updated = update_run id (has_status is_running) (answer_run answer now) t.runs in
      elim (Bool-cases updated.0) [
        | inl running ↦
            elim (Option-cases
              (insert_citations is_stored t.citations (map (citation_of id) citations))) [
                | inl refused ↦ rw (running, refused) (Pointwise-refl t.runs)
                | inr (stored, done) ↦
                    rw (running, done)
                      (update_run-Pointwise id _ _ t.runs
                        (ended_Changes _ (λ r. (refl, refl, refl)) complete (λ r o. (tt, tt))))
              ]
        | inr ended ↦ rw ended (Pointwise-refl t.runs)
      ]

  -- The operation creates no run.
  abbrev pub IsChange : Operation Score → Type 0
  IsChange (create id now question metadata) = ⊥
  IsChange _ = Unit

  pub apply-Pointwise :
      (op : Operation Score) (t : Tables Score) → IsChange op → Pointwise t.runs (apply op t).runs
  unfolding Repository.mark_running Repository.set_retrieval_query Repository.set_workflow_trace
      Repository.request_cancel Repository.cancel Repository.fail_interrupted_runs
      Repository.complete_refusal Repository.fail
  apply-Pointwise (create id now question metadata) t h = absurd h
  apply-Pointwise (mark_running id) t h = update_run-Pointwise id _ _ t.runs mark_running-Changes
  apply-Pointwise (set_retrieval_query id query) t h =
      update_run-Pointwise id _ _ t.runs
        (λ r h. kept_Follows r (record r { retrieval_query = query }) refl refl refl h (λ o. o))
  apply-Pointwise (set_workflow_trace id trace) t h =
      update_run-Pointwise id _ _ t.runs
        (λ r h. kept_Follows r (record r { workflow_trace = trace }) refl refl refl h (λ o. o))
  apply-Pointwise (request_cancel kb conversation id) t h =
      update_run-Pointwise id _ _ t.runs (request_cancel-Changes kb conversation)
  apply-Pointwise (cancel id now) t h = update_run-Pointwise id _ _ t.runs (cancel-Changes now)
  apply-Pointwise (fail_interrupted_runs now) t h = Pointwise-map _ t.runs (interrupt-Follows now)
  apply-Pointwise (complete_refusal id code message now) t h =
      update_run-Pointwise id _ _ t.runs
        (ended_Changes _ (λ r. (refl, refl, refl)) complete (λ r o. (tt, tt)))
  apply-Pointwise (complete_answer is_stored id answer citations now) t h =
      complete_answer-Pointwise is_stored id answer citations now t
  apply-Pointwise (fail id code message now) t h =
      update_run-Pointwise id _ _ t.runs
        (ended_Changes _ (λ r. (refl, refl, refl)) give_up (λ r o. (o.0, tt, tt)))

  pub apply-Evolves : (op : Operation Score) (t : Tables Score) → Evolves t.runs (apply op t).runs
  apply-Evolves (create id now question metadata) t = create_run-Evolves id now question metadata t
  apply-Evolves (mark_running id) t =
      Pointwise-Evolves t.runs _ (apply-Pointwise (mark_running id) t tt)
  apply-Evolves (set_retrieval_query id query) t =
      Pointwise-Evolves t.runs _ (apply-Pointwise (set_retrieval_query id query) t tt)
  apply-Evolves (set_workflow_trace id trace) t =
      Pointwise-Evolves t.runs _ (apply-Pointwise (set_workflow_trace id trace) t tt)
  apply-Evolves (request_cancel kb conversation id) t =
      Pointwise-Evolves t.runs _ (apply-Pointwise (request_cancel kb conversation id) t tt)
  apply-Evolves (cancel id now) t =
      Pointwise-Evolves t.runs _ (apply-Pointwise (cancel id now) t tt)
  apply-Evolves (fail_interrupted_runs now) t =
      Pointwise-Evolves t.runs _ (apply-Pointwise (fail_interrupted_runs now) t tt)
  apply-Evolves (complete_refusal id code message now) t =
      Pointwise-Evolves t.runs _ (apply-Pointwise (complete_refusal id code message now) t tt)
  apply-Evolves (complete_answer is_stored id answer citations now) t =
      Pointwise-Evolves t.runs _
        (apply-Pointwise (complete_answer is_stored id answer citations now) t tt)
  apply-Evolves (fail id code message now) t =
      Pointwise-Evolves t.runs _ (apply-Pointwise (fail id code message now) t tt)

  -- Whatever the operations on the table of answer runs and their order, the runs keep their
  -- places, ids and conversations, the status of each follows the edges of its life, a run that has
  -- ended does not change at all, and a run that satisfies the constraint between status, outcome,
  -- failure and end still does; the runs after them are new, and their life started as pending.
  pub apply_all-Evolves :
      (ops : List (Operation Score)) (t : Tables Score) → Evolves t.runs (apply_all ops t).runs
  unfolding apply_all
  apply_all-Evolves [] t = Evolves-refl t.runs
  apply_all-Evolves (op ∷ ops) t =
      Evolves-trans t.runs (apply op t).runs (apply_all ops (apply op t)).runs (apply-Evolves op t)
        (apply_all-Evolves ops (apply op t))
