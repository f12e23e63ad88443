-- ===== src/Rag/Workflow/Steps.antt =====
-- Each node of the graph of rag/workflow.py, from a state that is ready for it: what it leaves and
-- where the graph goes next.
pub mod Gather
pub mod Assess
pub mod Answering
pub mod Checking
use sourcetrace.Prelude.{
  ℕ, zero, suc, ◌+◌, ◌≤◌, ◌<◌, ◌≡◌, ◌≢◌, refl, Bool, true, false, not, Option, none, some, List, [],
  ◌∷◌, ◌++◌, All, Result, ok, err,
}
use sourcetrace.Text.{Text}
use sourcetrace.Retrieval.Evidence.{Scores}
use sourcetrace.Retrieval.Query.{RetrievalPlan}
use sourcetrace.Rag.Workflow.Traces.{WorkflowTrace}
use sourcetrace.Rag.Workflow.State.{
  WorkflowRequest, WorkflowState, Services, PlanFailure, Run, ◌>>=◌, ask,
}
use sourcetrace.Rag.Workflow.Nodes.{ensure_active, record_trace, first_query, plan_or_raise}
use sourcetrace.Rag.Workflow.Graph.{Node, after, run_node}
use sourcetrace.Rag.Workflow.Rules.{
  Does, does_pure, does_bind, does_ask, does_keep_trace, does_cancel_unless, does_stop_provider,
  IsSome,
}
use sourcetrace.Rag.Workflow.Ready.{Ready, steps_left}

module _ (scores : Scores) (casefold : Text → Text) (minimum_score : scores.Score)
    (minimum_evidence : ℕ) (services : Services scores.Score) (request : WorkflowRequest) where
  open scores use {Score}

  pub does_ensure_active :
      Does
        (ensure_active scores casefold minimum_score minimum_evidence services request)
        (λ _. Unit {0})
  unfolding ensure_active
  does_ensure_active =
      does_bind (does_ask services.is_cancel_requested) (λ b h. does_cancel_unless (not b))

  pub does_record_trace :
      (trace : WorkflowTrace Score)
      → Does
          (record_trace scores casefold minimum_score minimum_evidence services request trace)
          (λ _. Unit {0})
  unfolding record_trace
  does_record_trace trace =
      does_bind (does_ask (λ n. services.record_workflow_trace n trace))
        (λ b h. does_bind (does_cancel_unless b) (λ u g. does_keep_trace trace))

  -- The graph goes on to a node that is ready, and fewer nodes are left.
  abbrev pub GoesOn : Node → WorkflowState Score → WorkflowState Score → Type 0
  GoesOn node s s' = Does (after node s') (
      IsSome (λ next.
        Ready scores casefold minimum_score minimum_evidence services request next s'
        × (steps_left scores casefold minimum_score minimum_evidence services request next s'
            < steps_left scores casefold minimum_score minimum_evidence services request node s)))

  abbrev pub Steps : Node → WorkflowState Score → Type 0
  Steps node s =
      Does (run_node scores casefold minimum_score minimum_evidence services request node s)
        (GoesOn node s)
