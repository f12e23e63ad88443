-- ===== src/Answers/Repository/Sound.antt =====
-- What the constraints of modules/answers/models.py say of the table of answer runs.
use sourcetrace.Prelude.{
  ℕ, ◌≡◌, refl, subst, Bool, true, false, ◌||◌, List, [], ◌∷◌, ◌++◌, map, nat_eq, nat_beq_iff,
  contains, All, All-append, Distinct, Distinct-snoc, some_of, Bool-cases, inl, inr, arith,
}
use mathlib.Core.List.{map-append}
use sourcetrace.Answers.Records.{AnswerExecutionMetadata, AnswerRun, Question, Tables, is_active}
use sourcetrace.Answers.Repository.{create_run, new_run, is_active_in}
use sourcetrace.Answers.Repository.Lifecycle.{IsConsistent, Follows, Pointwise}
use sourcetrace.Answers.Repository.Operations.{
  Operation, create, mark_running, set_retrieval_query, set_workflow_trace, request_cancel, cancel,
  fail_interrupted_runs, complete_refusal, complete_answer, fail, apply, apply_all, IsChange,
  apply-Pointwise,
}

some_of-snoc {ℓ} :
    {A : Type ℓ} (p : A → Bool) (xs : List A) (x : A)
    → some_of p (xs ++ x ∷ []) ≡ (some_of p xs || p x)
some_of-snoc p [] x = ground arith
some_of-snoc p (y ∷ xs) x = ground (arith, some_of-snoc p xs x)

module _ {Score : Type 0} where
  -- A conversation has one active run at most.
  abbrev pub Exclusive : List (AnswerRun Score) → Type 0
  Exclusive [] = Unit
  Exclusive (r ∷ rs) =
      (is_active r.status ≡ true → some_of (is_active_in r.conversation_id) rs ≡ false)
      × Exclusive rs

  pub record IsSound (t : Tables Score) : Type 0 where
    pub consistent : All IsConsistent t.runs
    pub distinct : Distinct (map (λ r. r.id) t.runs)
    pub exclusive : Exclusive t.runs

  Follows-is_active :
      {r r' : AnswerRun Score}
      → Follows r r'
      → is_active r'.status ≡ true
      → is_active r.status ≡ true
  Follows-is_active {r} f h = elim (Bool-cases (is_active r.status)) [
    | inl active ↦ active
    | inr ended ↦ subst (λ x. is_active x.status ≡ true) (f.absorbed ended) h
  ]

  idle_Pointwise :
      (conversation_id : ℕ) (rs rs' : List (AnswerRun Score))
      → Pointwise rs rs'
      → some_of (is_active_in conversation_id) rs ≡ false
      → some_of (is_active_in conversation_id) rs' ≡ false
  idle_Pointwise conversation_id [] [] p h = refl
  idle_Pointwise conversation_id [] (r' ∷ rs') p h = absurd p
  idle_Pointwise conversation_id (r ∷ rs) [] p h = absurd p
  idle_Pointwise conversation_id (r ∷ rs) (r' ∷ rs') p h = ground (
    arith,
    idle_Pointwise conversation_id rs rs' p.1,
    Follows-is_active p.0,
    p.0.same_conversation,
  )

  Exclusive-Pointwise :
      (rs rs' : List (AnswerRun Score)) → Pointwise rs rs' → Exclusive rs → Exclusive rs'
  Exclusive-Pointwise [] [] p h = tt
  Exclusive-Pointwise [] (r' ∷ rs') p h = absurd p
  Exclusive-Pointwise (r ∷ rs) [] p h = absurd p
  Exclusive-Pointwise (r ∷ rs) (r' ∷ rs') p h = (
    λ active.
        rw p.0.same_conversation
          (idle_Pointwise r.conversation_id rs rs' p.1 (h.0 (Follows-is_active p.0 active))),
    Exclusive-Pointwise rs rs' p.1 h.1,
  )

  IsConsistent-Pointwise :
      (rs rs' : List (AnswerRun Score))
      → Pointwise rs rs'
      → All IsConsistent rs
      → All IsConsistent rs'
  IsConsistent-Pointwise [] [] p h = tt
  IsConsistent-Pointwise [] (r' ∷ rs') p h = absurd p
  IsConsistent-Pointwise (r ∷ rs) [] p h = absurd p
  IsConsistent-Pointwise (r ∷ rs) (r' ∷ rs') p h =
      (p.0.consistent h.0, IsConsistent-Pointwise rs rs' p.1 h.1)

  ids-Pointwise :
      (rs rs' : List (AnswerRun Score))
      → Pointwise rs rs'
      → map (λ r. r.id) rs' ≡ map (λ r. r.id) rs
  ids-Pointwise [] [] p = refl
  ids-Pointwise [] (r' ∷ rs') p = absurd p
  ids-Pointwise (r ∷ rs) [] p = absurd p
  ids-Pointwise (r ∷ rs) (r' ∷ rs') p = rw (p.0.same_id, ids-Pointwise rs rs' p.1) refl

  change-IsSound :
      (op : Operation Score) (t : Tables Score) → IsChange op → IsSound t → IsSound (apply op t)
  change-IsSound op t change s =
      let same = apply-Pointwise op t change in
      record {
        consistent = IsConsistent-Pointwise t.runs _ same s.consistent;
        distinct = rw (ids-Pointwise t.runs _ same) s.distinct;
        exclusive = Exclusive-Pointwise t.runs _ same s.exclusive;
      }

  Exclusive-snoc :
      (rs : List (AnswerRun Score)) (r : AnswerRun Score)
      → some_of (is_active_in r.conversation_id) rs ≡ false
      → is_active r.status ≡ true
      → Exclusive rs
      → Exclusive (rs ++ r ∷ [])
  Exclusive-snoc [] r idle active h = (λ _. refl, tt)
  Exclusive-snoc (q ∷ rs) r idle active h = (
    λ busy. ground (
      arith,
      h.0,
      some_of-snoc (is_active_in q.conversation_id) rs r,
      nat_beq_iff q.conversation_id r.conversation_id,
      nat_beq_iff r.conversation_id q.conversation_id,
    ),
    Exclusive-snoc rs r (ground arith) active h.1,
  )

  create_run-IsSound :
      (id now : ℕ) (question : Question) (metadata : AnswerExecutionMetadata) (t : Tables Score)
      → IsSound t
      → IsSound (create_run id now question metadata t).1
  unfolding create_run
  create_run-IsSound id now question metadata t s =
      elim (Bool-cases (contains (map (λ r. r.id) t.runs) id)) [
        | inl taken ↦ rw taken s
        | inr free ↦ elim (Bool-cases (some_of (is_active_in question.conversation_id) t.runs)) [
          | inl busy ↦ rw (free, busy) s
          | inr idle ↦
              rw (free, idle)
                (record {
                  consistent = All-append IsConsistent t.runs _ s.consistent ((tt, tt), tt);
                  distinct =
                      rw map-append (Distinct-snoc (map (λ r. r.id) t.runs) id s.distinct free);
                  exclusive =
                      Exclusive-snoc t.runs (new_run id now question metadata) idle refl
                        s.exclusive;
                })
        ]
      ]

  apply-IsSound : (op : Operation Score) (t : Tables Score) → IsSound t → IsSound (apply op t)
  apply-IsSound (create id now question metadata) t s =
      create_run-IsSound id now question metadata t s
  apply-IsSound (mark_running id) t s = change-IsSound (mark_running id) t tt s
  apply-IsSound (set_retrieval_query id query) t s =
      change-IsSound (set_retrieval_query id query) t tt s
  apply-IsSound (set_workflow_trace id trace) t s =
      change-IsSound (set_workflow_trace id trace) t tt s
  apply-IsSound (request_cancel kb conversation id) t s =
      change-IsSound (request_cancel kb conversation id) t tt s
  apply-IsSound (cancel id now) t s = change-IsSound (cancel id now) t tt s
  apply-IsSound (fail_interrupted_runs now) t s = change-IsSound (fail_interrupted_runs now) t tt s
  apply-IsSound (complete_refusal id code message now) t s =
      change-IsSound (complete_refusal id code message now) t tt s
  apply-IsSound (complete_answer is_stored id answer citations now) t s =
      change-IsSound (complete_answer is_stored id answer citations now) t tt s
  apply-IsSound (fail id code message now) t s = change-IsSound (fail id code message now) t tt s

  -- When the runs of the table have different ids, at most one run of a conversation is active, and
  -- each run satisfies the constraint between its status and its other columns, the same holds
  -- after any operations in any order.
  pub apply_all-IsSound :
      (ops : List (Operation Score)) (t : Tables Score) → IsSound t → IsSound (apply_all ops t)
  unfolding apply_all
  apply_all-IsSound [] t s = s
  apply_all-IsSound (op ∷ ops) t s = apply_all-IsSound ops (apply op t) (apply-IsSound op t s)
