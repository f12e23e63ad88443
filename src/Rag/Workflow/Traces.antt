-- ===== src/Rag/Workflow/Traces.antt =====
-- The trace that rag/workflow.py records, and `_with_retrieval_round`. `str` of a UUID is the
-- parameter `uuid_text`. The casts of the source do nothing, so a score that a reranking did not
-- set stays `none`.
use sourcetrace.Prelude.{ℕ, ◌+◌, Bool, Option, none, List, [], ◌∷◌, ◌++◌, map, length}
use sourcetrace.Text.{Text}
use sourcetrace.Rag.Ports.{QueryPlanningTrace, RerankerIdentity}
use sourcetrace.Rag.Citation.{CitationValidationTrace}
use sourcetrace.Retrieval.Evidence.{
  RankedRetrievalCandidate, QueryRetrievalResult, FusedRetrievalCandidate,
}
use sourcetrace.Retrieval.Search.{RetrievalResult}

pub record EvidenceAssessmentTrace : Type 0 where
  pub sufficient : Bool
  pub selected_chunk_ids : List Text
  pub supplemental_queries : List Text

pub record RetrievalCandidateTrace (Score : Type 0) : Type 0 where
  pub chunk_id : Text
  pub raw_rank : ℕ
  pub raw_cosine_score : Score
  pub dense_rank : Option ℕ
  pub lexical_rank : Option ℕ
  pub dense_score : Option Score
  pub lexical_score : Option Score
  pub channel_fused_rank : ℕ
  pub channel_fused_score : Score
  pub reranker_score : Option Score
  pub reranked_rank : Option ℕ
  pub selected_for_query_coverage : Bool

pub record QueryRetrievalTrace (Score : Type 0) : Type 0 where
  pub query : Text
  pub candidates : List (RetrievalCandidateTrace Score)

pub record FusedCandidateTrace (Score : Type 0) : Type 0 where
  pub chunk_id : Text
  pub fused_score : Score
  pub best_raw_cosine_score : Score
  pub reranker_score : Score
  pub reranked_rank : ℕ
  pub selected_as_primary : Bool

pub record RetrievalRoundTrace (Score : Type 0) : Type 0 where
  pub round_number : ℕ
  pub queries : List Text
  pub query_results : List (QueryRetrievalTrace Score)
  pub fused_candidates : List (FusedCandidateTrace Score)
  pub final_evidence_chunk_ids : List Text
  pub rrf_rank_constant : ℕ
  pub reranker : RerankerIdentity

pub record WorkflowTrace (Score : Type 0) : Type 0 where
  pub retrieval_plan_version : Option Text
  pub planning : Option QueryPlanningTrace
  pub retrieval_queries : List Text
  pub retrieval_rounds : List (RetrievalRoundTrace Score)
  pub assessments : List EvidenceAssessmentTrace
  pub citation_validations : List CitationValidationTrace
  pub supplemental_retrieval_attempts : ℕ
  pub citation_repair_attempts : ℕ

-- `WorkflowTrace()`
abbrev pub empty_trace : {Score : Type 0} → WorkflowTrace Score
empty_trace = record {
  retrieval_plan_version = none;
  planning = none;
  retrieval_queries = [];
  retrieval_rounds = [];
  assessments = [];
  citation_validations = [];
  supplemental_retrieval_attempts = 0;
  citation_repair_attempts = 0;
}

module _ {Score : Type 0} (uuid_text : ℕ → Text) where
  abbrev pub candidate_trace : RankedRetrievalCandidate Score → RetrievalCandidateTrace Score
  candidate_trace c = record {
    chunk_id = uuid_text c.evidence.chunk_id;
    raw_rank = c.rank;
    raw_cosine_score = c.evidence.score;
    dense_rank = c.dense_rank;
    lexical_rank = c.lexical_rank;
    dense_score = c.dense_score;
    lexical_score = c.lexical_score;
    channel_fused_rank = c.rank;
    channel_fused_score = c.channel_fused_score;
    reranker_score = c.reranker_score;
    reranked_rank = c.reranked_rank;
    selected_for_query_coverage = c.selected_for_query_coverage;
  }

  abbrev pub query_trace : QueryRetrievalResult Score → QueryRetrievalTrace Score
  query_trace r = record { query = r.query; candidates = map candidate_trace r.candidates }

  abbrev pub fused_trace : FusedRetrievalCandidate Score → FusedCandidateTrace Score
  fused_trace c = record {
    chunk_id = uuid_text c.evidence.chunk_id;
    fused_score = c.fused_score;
    best_raw_cosine_score = c.best_raw_score;
    reranker_score = c.reranker_score;
    reranked_rank = c.reranked_rank;
    selected_as_primary = c.selected_as_primary;
  }

  -- `_with_retrieval_round`
  unfoldable pub with_retrieval_round :
      WorkflowTrace Score → RetrievalResult Score → WorkflowTrace Score
  with_retrieval_round trace result =
      let round : RetrievalRoundTrace Score = record {
        round_number = length trace.retrieval_rounds + 1;
        queries = map (λ r. r.query) result.query_results;
        query_results = map query_trace result.query_results;
        fused_candidates = map fused_trace result.fused_candidates;
        final_evidence_chunk_ids = map (λ item. uuid_text item.chunk_id) result.evidence;
        rrf_rank_constant = result.rrf_rank_constant;
        reranker = result.reranker_identity;
      } in
      record trace { retrieval_rounds = trace.retrieval_rounds ++ round ∷ [] }
