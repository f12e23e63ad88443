-- ===== src/Rag/Workflow/Graph.antt =====
-- The graph of `AnswerWorkflow.__init__`, its conditional edges, and `run`. LangGraph runs one node
-- after another and raises when `recursion_limit` nodes have run and another one is due; `fuel` is
-- that limit, which the source leaves at the library's default.
use sourcetrace.Prelude.{
  ℕ, zero, suc, Bool, true, false, not, ◌&&◌, Option, none, some, [], ◌∷◌, ◌++◌, ◌==◌, nat_eq,
  if◌then◌else◌, Result, ok, err,
}
use sourcetrace.Text.{Text}
use sourcetrace.Retrieval.Evidence.{Scores}
use sourcetrace.Rag.Workflow.State.{
  WorkflowRequest, Failure, recursion_limit, Stop, cancellation, failure, cancelled, WorkflowState,
  initial_state, Services, World, Run, pure, stop, ◌>>=◌, require,
}
use sourcetrace.Rag.Workflow.Nodes.{
  analyze, retrieve, assess_evidence, retrieve_supplemental, generate, validate_citations,
  validate_claim_support, repair_citations, validate_answer_language, give_answer, refuse,
}

pub data Node : Type 0 where
  analysis retrieval evidence_assessment supplemental_retrieval generation : Node
  citation_validation claim_support_validation citation_repair : Node
  answer_language_validation answer refusal : Node

abbrev is_none : {A : Type 0} → Option A → Bool
is_none none = true
is_none (some a) = false

module _ {Score : Type 0} where
  -- `_after_assessment`
  unfoldable pub after_assessment : WorkflowState Score → Node
  after_assessment s =
      if not (is_none s.refusal_code)
      then refusal
      else if not (is_none s.supplemental_queries) && s.supplemental_attempts == 0
      then supplemental_retrieval
      else generation

  -- `_after_validation`; `state["citation_valid"]` is read first.
  unfoldable pub after_validation : Bool → WorkflowState Score → Node
  after_validation citation_valid s =
      if citation_valid && not s.claim_support_valid
      then claim_support_validation
      else if citation_valid
      then answer_language_validation
      else if s.repair_attempts == 0
      then citation_repair
      else refusal

  -- `_after_claim_support`
  unfoldable pub after_claim_support : WorkflowState Score → Node
  after_claim_support s = if s.claim_support_valid then citation_validation else refusal

  -- `_after_answer_language_validation`
  unfoldable pub after_answer_language_validation : WorkflowState Score → Node
  after_answer_language_validation s = if s.answer_language_valid then answer else refusal

  -- The edges of the graph; `none` is `END`.
  unfoldable pub after : Node → WorkflowState Score → Run Score (Option Node)
  after analysis s = pure (some retrieval)
  after retrieval s = pure (some evidence_assessment)
  after evidence_assessment s = pure (some (after_assessment s))
  after supplemental_retrieval s = pure (some evidence_assessment)
  after generation s = pure (some citation_validation)
  after citation_validation s = do
    citation_valid ← require s.citation_valid
    pure (some (after_validation citation_valid s))
  after claim_support_validation s = pure (some (after_claim_support s))
  after citation_repair s = pure (some citation_validation)
  after answer_language_validation s = pure (some (after_answer_language_validation s))
  after answer s = pure none
  after refusal s = pure none

module _ (scores : Scores) (casefold : Text → Text) (minimum_score : scores.Score)
    (minimum_evidence : ℕ) (services : Services scores.Score) (request : WorkflowRequest) where
  open scores use {Score}

  unfoldable pub run_node : Node → WorkflowState Score → Run Score (WorkflowState Score)
  run_node analysis = analyze scores casefold minimum_score minimum_evidence services request
  run_node retrieval = retrieve scores casefold minimum_score minimum_evidence services request
  run_node evidence_assessment =
      assess_evidence scores casefold minimum_score minimum_evidence services request
  run_node supplemental_retrieval =
      retrieve_supplemental scores casefold minimum_score minimum_evidence services request
  run_node generation = generate scores casefold minimum_score minimum_evidence services request
  run_node citation_validation =
      validate_citations scores casefold minimum_score minimum_evidence services request
  run_node claim_support_validation =
      validate_claim_support scores casefold minimum_score minimum_evidence services request
  run_node citation_repair =
      repair_citations scores casefold minimum_score minimum_evidence services request
  run_node answer_language_validation =
      validate_answer_language scores casefold minimum_score minimum_evidence services request
  run_node answer = give_answer scores casefold minimum_score minimum_evidence services request
  run_node refusal = refuse scores casefold minimum_score minimum_evidence services request

  unfoldable pub drive : ℕ → Node → WorkflowState Score → Run Score (Unit {0})
  drive zero node s = stop (failure recursion_limit)
  drive (suc fuel) node s = do
    s' ← run_node node s
    next ← after node s'
    elim next [ none ↦ pure tt | some node' ↦ drive fuel node' s' ]

  -- What `run` makes of the graph's end: a cancellation is an event, other errors are raised.
  abbrev pub close : Result Stop (Unit {0}) × World Score → Option Failure × World Score
  close (ok a, w) = (none, w)
  close (err cancellation, w) = (none, record w { events = w.events ++ cancelled ∷ [] })
  close (err (failure e), w) = (some e, w)

  abbrev pub initial_world : World Score
  initial_world = record { calls = 0; events = []; traces = [] }

  -- `run`
  unfoldable pub run : ℕ → Option Failure × World Score
  run fuel = close (drive fuel analysis initial_state initial_world)
