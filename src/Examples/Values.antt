-- ===== src/Examples/Values.antt =====
-- The test data: scores, queries, evidence, and services that answer.
use sourcetrace.Prelude.{
  ℕ, suc, ◌+◌, ◌-◌, ◌/◌, Bool, true, false, not, none, some, List, [], ◌∷◌, map, ◌==◌, nat_eq, ltb,
  length, Result, ok,
}
use sourcetrace.Text.{Text, codes}
use sourcetrace.Rag.Ports.{RetrievalPlanProposal, RerankerIdentity}
use sourcetrace.Retrieval.Evidence.{
  Scores, RetrievedEvidence, RankedRetrievalCandidate, QueryRetrievalResult,
}
use sourcetrace.Retrieval.Query.{RetrievalPlan, PlanError}
use sourcetrace.Retrieval.Hybrid.{FusedChannelCandidate}
use sourcetrace.Retrieval.Search.{Config, RetrievalResult, Providers}
use sourcetrace.Rag.Workflow.State.{WorkflowRequest, Services, next_delta, timeout}

-- A score of `n` millionths is `n + 1`, and `-inf` is 0.
abbrev pub small_scores : Scores
small_scores = record {
  Score = ℕ;
  lt = ltb;
  zero_score = 1;
  negative_infinity = 0;
  is_finite = λ s. not (s == 0);
  add = λ a b. a + b - 1;
  reciprocal = λ n. 1 + 1000000 / n;
}

abbrev pub same_case : Text → Text
same_case s = s

abbrev pub evidence_of : ℕ → ℕ → ℕ → RetrievedEvidence ℕ
evidence_of chunk_id page score = record {
  chunk_id = chunk_id;
  document_id = 1;
  document_version_id = 1;
  document_name = codes "manual";
  storage_key = codes "manual.pdf";
  page_number = page;
  text = codes "The pump runs at 40 bar.";
  score = score;
  page_chunk_index = chunk_id;
}

abbrev pub candidate_of : ℕ → RetrievedEvidence ℕ → RankedRetrievalCandidate ℕ
candidate_of rank evidence = record {
  rank = rank;
  evidence = evidence;
  dense_rank = some rank;
  lexical_rank = none;
  dense_score = some evidence.score;
  lexical_score = none;
  channel_fused_score = 1;
  reranker_score = none;
  reranked_rank = none;
  selected_for_query_coverage = false;
}

abbrev pub pump : RetrievedEvidence ℕ
pump = evidence_of 11 1 500

abbrev pub valve : RetrievedEvidence ℕ
valve = evidence_of 12 1 400

abbrev pub motor : RetrievedEvidence ℕ
motor = evidence_of 13 2 300

abbrev pub two_results : List (QueryRetrievalResult ℕ)
two_results =
    record {
      query = codes "pump pressure";
      candidates = candidate_of 1 pump ∷ candidate_of 2 valve ∷ [];
    }
    ∷ record { query = codes "motor"; candidates = candidate_of 1 motor ∷ candidate_of 2 pump ∷ [] }
    ∷ []

abbrev pub plan_queries : List Text
plan_queries = codes "pump pressure" ∷ codes "motor" ∷ []

abbrev pub two_plan : RetrievalPlan
two_plan = record { version = codes "v1"; queries = plan_queries; planning_trace = none }

abbrev pub small_config : Config
small_config = record { top_k = 2; page_neighbor_count = 1; rrf_rank_constant = 60 }

abbrev pub identity : RerankerIdentity
identity = record {
  provider = codes "local";
  model = codes "m";
  revision = codes "r";
  config_version = codes "c";
}

abbrev pub fused_of : ℕ → RetrievedEvidence ℕ → FusedChannelCandidate ℕ
fused_of rank evidence = record {
  evidence = evidence;
  fused_score = 1;
  channel_fused_rank = rank;
  dense_rank = some rank;
  lexical_rank = none;
  dense_score = some evidence.score;
  lexical_score = none;
}

-- Every passage has the score of its length.
abbrev pub small_providers : Providers ℕ
small_providers = record {
  Embedding = ℕ;
  embed = λ queries. ok (map length queries);
  search_channels = λ embedding query limit. ok (fused_of 1 pump ∷ fused_of 2 motor ∷ []);
  score = λ query passages. ok (map (λ passage. suc (length passage)) passages);
  expand_page_neighbors = λ primary count. ok (valve ∷ []);
  identity = identity;
}

abbrev pub proposal : RetrievalPlanProposal
proposal = record {
  additional_queries = codes " motor " ∷ codes "pump pressure" ∷ [];
  planning_trace = none;
}

abbrev pub titles_of : ℕ → Result PlanError (List Text)
titles_of limit = ok (codes "manual" ∷ [])

abbrev pub planner_of : Text → List Text → List Text → Result PlanError RetrievalPlanProposal
planner_of question recent titles = ok proposal

abbrev pub label : Text
label = codes "00000000-0000-0000-0000-000000000011"

abbrev pub cited_answer : Text
cited_answer = codes "The pump runs at 40 bar [00000000-0000-0000-0000-000000000011]."

abbrev pub request : WorkflowRequest
request = record {
  run_id = 1;
  knowledge_base_id = 1;
  question = codes "How does the pump run?";
  recent_questions = [];
}

abbrev pub found : RetrievalResult ℕ
found = record {
  evidence = pump ∷ [];
  primary_evidence = pump ∷ [];
  query_results = record { query = codes "pump"; candidates = candidate_of 1 pump ∷ [] } ∷ [];
  fused_candidates = [];
  rrf_rank_constant = 60;
  reranker_identity = identity;
}

-- Services that lead to an answer.
abbrev pub services_of : Bool → Services ℕ
services_of cancels = record {
  resolve_plan = λ n. ok two_plan;
  search = λ n queries. some found;
  assess = λ n question queries candidates previous limit. some (record {
    sufficient = true;
    selected_chunk_ids = codes "11" ∷ [];
    supplemental_queries = [];
  });
  stream_answer = λ n question candidates. next_delta cited_answer ∷ timeout ∷ [];
  repair = λ n question answer candidates feedback. some cited_answer;
  verify = λ n question answer candidates. ok (record {
    claims = record { text = codes "The pump runs at 40 bar."; citation_ids = label ∷ [] } ∷ [];
  });
  is_cancel_requested = λ n. cancels;
  record_retrieval_query = λ n query. true;
  record_workflow_trace = λ n trace. true;
  uuid_text = λ chunk_id. codes "11";
  uuid5_text = λ run_id text. label;
}
