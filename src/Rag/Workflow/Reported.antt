-- ===== src/Rag/Workflow/Reported.antt =====
-- The evidence that an answer of rag/workflow.py is reported with.
use sourcetrace.Prelude.{
  ℕ, suc, ◌≤◌, ◌≡◌, refl, subst, true, Option, none, some, List, [], ◌∷◌, map, All, All-append,
  select, contains, nat_eq, list_eq, Bool-cases, inl, inr,
}
use sourcetrace.Prelude.Dict.{Dict, put, All-put}
use sourcetrace.Text.{Text}
use sourcetrace.Retrieval.Evidence.{Scores, RetrievedEvidence}
use sourcetrace.Rag.Citation.{find_labels}
use sourcetrace.Rag.Language.{answer_matches_question_language}
use sourcetrace.Rag.Workflow.State.{
  WorkflowRequest, Services, Failure, provider_error, WorkflowEvent, status, delta, answered,
  refused, cancelled, World, ◌>>=◌, ask,
}
use sourcetrace.Rag.Workflow.Nodes.{analyze, ensure_active, citation_id, allowed_items, cited_items}
use sourcetrace.Rag.Workflow.Graph.{run, drive, run_node}
use sourcetrace.Rag.Workflow.Rules.{IsProgress, Closed, closed_by}
use sourcetrace.Rag.Workflow.Ready.{IsStrong}
use sourcetrace.Rag.Workflow.Steps.Gather.{PlansHaveQueries}
use sourcetrace.Rag.Workflow.Runs.{IsFinal, IsRun, run-IsRun}

module _ (scores : Scores) (casefold : Text → Text) (minimum_score : scores.Score)
    (minimum_evidence : ℕ) (services : Services scores.Score) (request : WorkflowRequest) where
  open scores use {Score, lt}

  -- An entry under the label of its item.
  abbrev IsEntry : Text × RetrievedEvidence Score → Type 0
  IsEntry e =
      (e.0 ≡ citation_id scores casefold minimum_score minimum_evidence services request e.1)
      × IsStrong scores casefold minimum_score minimum_evidence services request e.1

  allowed_items-IsEntry :
      (d : Dict Text (RetrievedEvidence Score)) (items : List (RetrievedEvidence Score))
      → All IsEntry d
      → All (IsStrong scores casefold minimum_score minimum_evidence services request) items
      → All IsEntry
          (allowed_items scores casefold minimum_score minimum_evidence services request d items)
  unfolding allowed_items
  allowed_items-IsEntry d [] h strong = h
  allowed_items-IsEntry d (item ∷ items) h strong =
      allowed_items-IsEntry
        (put d (citation_id scores casefold minimum_score minimum_evidence services request item)
          item)
        items
        (All-put IsEntry d
          (citation_id scores casefold minimum_score minimum_evidence services request item) item
          (refl, strong.0) h)
        strong.1

  -- The answer has the item's label, and the item reaches the minimum score.
  abbrev pub IsQuoted : Text → RetrievedEvidence Score → Type 0
  IsQuoted text item =
      (contains (find_labels text)
          (citation_id scores casefold minimum_score minimum_evidence services request item)
        ≡ true)
      × IsStrong scores casefold minimum_score minimum_evidence services request item

  selected_entries-IsQuoted :
      (text : Text) (d : Dict Text (RetrievedEvidence Score))
      → All IsEntry d
      → All (IsQuoted text) (map (λ e. e.1) (select (λ e. contains (find_labels text) e.0) d))
  unfolding select
  selected_entries-IsQuoted text [] h = tt
  selected_entries-IsQuoted text (e ∷ d) h = elim (Bool-cases (contains (find_labels text) e.0)) [
    | inl named ↦
        rw (named, select)
          (
            (subst (λ label. contains (find_labels text) label ≡ true) h.0.0 named, h.0.1),
            selected_entries-IsQuoted text d h.1,
          )
    | inr other ↦ rw (other, select) (selected_entries-IsQuoted text d h.1)
  ]

  cited_items-IsQuoted :
      (text : Text) (selected : List (RetrievedEvidence Score))
      → All (IsStrong scores casefold minimum_score minimum_evidence services request) selected
      → All (IsQuoted text) (
          cited_items scores casefold minimum_score minimum_evidence services request text selected)
  unfolding cited_items
  cited_items-IsQuoted text selected strong =
      selected_entries-IsQuoted text
        (allowed_items scores casefold minimum_score minimum_evidence services request [] selected)
        (allowed_items-IsEntry [] selected tt strong)

  -- An answer keeps the language of the question, and its evidence is cited in it.
  abbrev pub IsSoundEvent : WorkflowEvent Score → Type 0
  IsSoundEvent (answered text cited) =
      (answer_matches_question_language request.question text ≡ true) × All (IsQuoted text) cited
  IsSoundEvent _ = Unit

  final-IsSoundEvent :
      (e : WorkflowEvent Score)
      → IsFinal scores casefold minimum_score minimum_evidence services request e
      → IsSoundEvent e
  final-IsSoundEvent (status stage) h = tt
  final-IsSoundEvent (delta text) h = tt
  final-IsSoundEvent (answered text cited) (kept, selected, enough, (attempt, valid, same)) =
      (kept, rw same (cited_items-IsQuoted text selected enough.1))
  final-IsSoundEvent (refused code) h = tt
  final-IsSoundEvent cancelled h = tt

  progress-IsSoundEvent : (e : WorkflowEvent Score) → IsProgress e → IsSoundEvent e
  progress-IsSoundEvent (status stage) h = tt
  progress-IsSoundEvent (delta text) h = tt
  progress-IsSoundEvent (answered text cited) h = absurd h
  progress-IsSoundEvent (refused code) h = tt
  progress-IsSoundEvent cancelled h = tt

  All-imply :
      {A : Type 0} (P Q : A → Type 0) → ((a : A) → P a → Q a) → (xs : List A) → All P xs → All Q xs
  All-imply P Q f [] h = tt
  All-imply P Q f (x ∷ xs) h = (f x h.0, All-imply P Q f xs h.1)

  Closed-IsSoundEvent :
      (events : List (WorkflowEvent Score))
      → Closed (IsFinal scores casefold minimum_score minimum_evidence services request) events
      → All IsSoundEvent events
  Closed-IsSoundEvent _ (closed_by front last quiet good) =
      All-append IsSoundEvent front (last ∷ []) (All-imply _ _ progress-IsSoundEvent front quiet)
        (final-IsSoundEvent last good, tt)

  run_events :
      (x : Option Failure × World Score)
      → IsRun scores casefold minimum_score minimum_evidence services request x
      → All IsSoundEvent x.1.events
  run_events (none, w) h = Closed-IsSoundEvent w.events h
  run_events (some provider_error, w) h = All-imply _ _ progress-IsSoundEvent w.events h
  run_events (some Failure.key_error, w) h = absurd h
  run_events (some Failure.index_error, w) h = absurd h
  run_events (some Failure.repair_of_valid, w) h = absurd h
  run_events (some Failure.recursion_limit, w) h = absurd h

  -- When every plan that the planner returns has a query and at least 15 nodes may run, every
  -- answer among the events of a run keeps the language of the question, and each item of evidence
  -- that is reported with it reaches the minimum score and has its label in the text of the answer.
  pub run-IsSoundEvent :
      PlansHaveQueries scores casefold minimum_score minimum_evidence services request
      → (fuel : ℕ) → 15 ≤ fuel
      → All IsSoundEvent
          (run scores casefold minimum_score minimum_evidence services request fuel).1.events
  run-IsSoundEvent plans fuel enough =
      run_events (run scores casefold minimum_score minimum_evidence services request fuel) (
        run-IsRun scores casefold minimum_score minimum_evidence services request plans fuel enough)

  -- A run whose cancellation is requested at the first check raises nothing, makes no other call,
  -- and reports the cancellation as its only event.
  pub run_cancelled :
      (fuel : ℕ)
      → services.is_cancel_requested 0 ≡ true
      → run scores casefold minimum_score minimum_evidence services request (suc fuel)
        ≡ (none, record { calls = 1; events = cancelled ∷ []; traces = [] })
  unfolding run drive run_node analyze ensure_active ◌>>=◌ ask
  run_cancelled fuel requested = rw requested refl
