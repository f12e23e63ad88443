-- ===== src/Retrieval/Search.antt =====
-- `RetrievalService.search` of modules/retrieval/service.py. The repository, the embedding
-- provider and the reranker are the interface `Providers`; a call that raises is an `err`.
pub mod Total
pub mod Outcome
pub mod Planned
use mathlib.Core.List.{zip}
use sourcetrace.Prelude.{
  ℕ, zero, suc, ◌+◌, ◌*◌, min, Bool, true, false, not, ◌&&◌, ◌||◌, Option, none, some, List, [],
  ◌∷◌, ◌++◌, map, ◌==◌, nat_eq, ltb, leb, select, contains, length, if◌then◌else◌, Result, ok, err,
  ◌>>=◌, ◌>>◌, raise_if,
}
use sourcetrace.Prelude.Dict.{Dict}
use sourcetrace.Prelude.Sort.{sort}
use sourcetrace.Text.{Text}
use sourcetrace.Rag.Ports.{RerankerIdentity}
use sourcetrace.Retrieval.Evidence.{
  Scores, RetrievedEvidence, RankedRetrievalCandidate, QueryRetrievalResult,
  FusedRetrievalCandidate,
}
use sourcetrace.Retrieval.Hybrid.{FusedChannelCandidate}
use sourcetrace.Retrieval.Query.{unique_queries, max_additional_queries}
use sourcetrace.Retrieval.Fusion.{
  SearchError, no_queries, too_many_queries, invalid_embeddings, item_at, traverse,
  fuse_ranked_candidates,
}
use sourcetrace.Retrieval.Rerank.{rerank_candidates, query_coverage_candidate_ids}
use sourcetrace.Retrieval.Coverage.{coverage_candidate_limits, channel_leader_reranked_rank_limit}
use sourcetrace.Retrieval.Pages.{select_page_diverse}

abbrev pub page_diversity_pool_multiplier : ℕ
page_diversity_pool_multiplier = 4

abbrev pub max_candidate_pool_size : ℕ
max_candidate_pool_size = 100

abbrev pub max_primary_candidates : ℕ
max_primary_candidates = 8

-- The numbers that the constructor checks.
pub record Config : Type 0 where
  pub top_k : ℕ
  pub page_neighbor_count : ℕ
  pub rrf_rank_constant : ℕ

pub data ConfigError : Type 0 where
  top_k_not_positive top_k_too_large rank_constant_not_positive : ConfigError

-- `RetrievalService.__init__`. A negative neighbour count has no counterpart here.
unfoldable pub configure : Config → Result ConfigError Config
configure config = do
  raise_if (config.top_k == 0) top_k_not_positive
  raise_if (ltb max_primary_candidates config.top_k) top_k_too_large
  raise_if (config.rrf_rank_constant == 0) rank_constant_not_positive
  ok config

pub record RetrievalResult (Score : Type 0) : Type 0 where
  pub evidence : List (RetrievedEvidence Score)
  pub primary_evidence : List (RetrievedEvidence Score)
  pub query_results : List (QueryRetrievalResult Score)
  pub fused_candidates : List (FusedRetrievalCandidate Score)
  pub rrf_rank_constant : ℕ
  pub reranker_identity : RerankerIdentity

-- What `search` calls, at one knowledge base.
pub record Providers (Score : Type 0) : Type 1 where
  pub Embedding : Type 0
  pub embed : List Text → Result SearchError (List Embedding)
  pub search_channels :
      Embedding → Text → ℕ → Result SearchError (List (FusedChannelCandidate Score))
  pub score : Text → List Text → Result SearchError (List Score)
  pub expand_page_neighbors :
      List (RetrievedEvidence Score) → ℕ → Result SearchError (List (RetrievedEvidence Score))
  pub identity : RerankerIdentity

-- The candidate of a channel search, before the reranking.
abbrev pub ranked : {Score : Type 0} → FusedChannelCandidate Score → RankedRetrievalCandidate Score
ranked c = record {
  rank = c.channel_fused_rank;
  evidence = c.evidence;
  dense_rank = c.dense_rank;
  lexical_rank = c.lexical_rank;
  dense_score = c.dense_score;
  lexical_score = c.lexical_score;
  channel_fused_score = c.fused_score;
  reranker_score = none;
  reranked_rank = none;
  selected_for_query_coverage = false;
}

module _ (scores : Scores) (providers : Providers scores.Score) where
  open scores use {Score, lt}
  open providers use {Embedding, embed, search_channels, score, expand_page_neighbors, identity}

  -- The loop that searches the channels for each query.
  unfoldable pub search_each :
      ℕ → List (Text × Embedding) → Result SearchError (List (QueryRetrievalResult Score))
  search_each limit [] = ok []
  search_each limit ((query, embedding) ∷ rest) = do
    candidates ← search_channels embedding query limit
    results ← search_each limit rest
    ok (record { query = query; candidates = map ranked candidates } ∷ results)

  abbrev pub rerank_one :
      QueryRetrievalResult Score
      → Dict ℕ Score
      → List (RankedRetrievalCandidate Score)
      → Result SearchError (List (RankedRetrievalCandidate Score) × Dict ℕ Score)
  rerank_one result best [] = ok ([], best)
  rerank_one result best (c ∷ cs) = do
    values ← score result.query (map (λ item. item.evidence.text) (c ∷ cs))
    rerank_candidates scores values (c ∷ cs) best

  -- The loop over the queries; a query without candidates is passed on as it is.
  unfoldable pub rerank_each :
      Dict ℕ Score
      → List (QueryRetrievalResult Score)
      → Result SearchError (List (QueryRetrievalResult Score) × Dict ℕ Score)
  rerank_each best [] = ok ([], best)
  rerank_each best (result ∷ results) = do
    (candidates, best') ← rerank_one result best result.candidates
    (results', best'') ← rerank_each best' results
    ok (record result { candidates = candidates } ∷ results', best'')

  abbrev pub mark_covered : List ℕ → RankedRetrievalCandidate Score → RankedRetrievalCandidate Score
  mark_covered covered c = record c {
    selected_for_query_coverage = contains covered c.evidence.chunk_id;
  }

  -- The comprehension that marks what is kept for each query; `index` is the query's index.
  unfoldable pub cover_each :
      ℕ
      → ℕ
      → List (QueryRetrievalResult Score)
      → List ℕ
      → Result SearchError (List (QueryRetrievalResult Score))
  cover_each rank_limit index (result ∷ results) (limit ∷ limits) = do
    covered ← query_coverage_candidate_ids scores result.candidates limit (ltb 0 index) rank_limit
    results' ← cover_each rank_limit (index + 1) results limits
    ok (record result { candidates = map (mark_covered covered) result.candidates } ∷ results')
  cover_each rank_limit index _ _ = ok []

  -- `coverage_ids` after its updates.
  unfoldable pub coverage_ids : List (QueryRetrievalResult Score) → List ℕ
  coverage_ids [] = []
  coverage_ids (result ∷ results) =
      map (λ c. c.evidence.chunk_id) (select (λ c. c.selected_for_query_coverage) result.candidates)
      ++ coverage_ids results

  unfoldable pub with_reranker_score :
      Dict ℕ Score
      → FusedRetrievalCandidate Score
      → Result SearchError (FusedRetrievalCandidate Score)
  with_reranker_score best item = do
    value ← item_at best item.evidence.chunk_id
    ok (record item { reranker_score = value })

  -- The key `(-reranker_score, -fused_score, -best_raw_score, str(chunk_id))`.
  unfoldable pub final_before : FusedRetrievalCandidate Score → FusedRetrievalCandidate Score → Bool
  final_before a b =
      if lt b.reranker_score a.reranker_score
      then true
      else if lt a.reranker_score b.reranker_score
      then false
      else if lt b.fused_score a.fused_score
      then true
      else if lt a.fused_score b.fused_score
      then false
      else if lt b.best_raw_score a.best_raw_score
      then true
      else if lt a.best_raw_score b.best_raw_score
      then false
      else ltb a.evidence.chunk_id b.evidence.chunk_id

  abbrev pub is_covered : List ℕ → FusedRetrievalCandidate Score → Bool
  is_covered covered item = contains covered item.evidence.chunk_id

  -- The covered items first, each part in its order.
  unfoldable pub covered_first :
      List ℕ → List (FusedRetrievalCandidate Score) → List (FusedRetrievalCandidate Score)
  covered_first covered items =
      select (is_covered covered) items ++ select (λ item. not (is_covered covered item)) items

  unfoldable pub number_from :
      ℕ → List (FusedRetrievalCandidate Score) → List (FusedRetrievalCandidate Score)
  number_from rank [] = []
  number_from rank (item ∷ items) =
      record item { reranked_rank = rank } ∷ number_from (rank + 1) items

  abbrev pub mark_primary : List ℕ → FusedRetrievalCandidate Score → FusedRetrievalCandidate Score
  mark_primary selected item = record item {
    selected_as_primary = contains selected item.evidence.chunk_id;
  }

  -- The loop that appends the neighbours whose chunk is not there yet.
  unfoldable pub append_neighbors :
      List (RetrievedEvidence Score)
      → List ℕ
      → List (RetrievedEvidence Score)
      → List (RetrievedEvidence Score)
  append_neighbors all known [] = all
  append_neighbors all known (n ∷ ns) = elim (contains known n.chunk_id) [
    | true ↦ append_neighbors all known ns
    | false ↦ append_neighbors (all ++ n ∷ []) (known ++ n.chunk_id ∷ []) ns
  ]

  abbrev pub chunk_ids : List (RetrievedEvidence Score) → List ℕ
  chunk_ids = map (λ item. item.chunk_id)

  -- `if primary and self._page_neighbor_count > 0`
  unfoldable pub all_evidence :
      ℕ → List (RetrievedEvidence Score) → Result SearchError (List (RetrievedEvidence Score))
  unfolding append_neighbors
  all_evidence zero primary = ok primary
  all_evidence (suc count) [] = ok []
  all_evidence (suc count) (p ∷ ps) = do
    neighbors ← expand_page_neighbors (p ∷ ps) (suc count)
    ok (append_neighbors (p ∷ ps) (chunk_ids (p ∷ ps)) neighbors)

  -- From the fused candidates to the ones in their final order, numbered.
  unfoldable pub order_candidates :
      Dict ℕ Score
      → List ℕ
      → List (FusedRetrievalCandidate Score)
      → Result SearchError (List (FusedRetrievalCandidate Score))
  unfolding with_reranker_score final_before covered_first number_from traverse sort item_at
  order_candidates best covered fused = do
    rescored ← traverse (with_reranker_score best) fused
    ok (number_from 1 (covered_first covered (sort final_before rescored)))

  -- What follows the searches of the channels.
  unfoldable pub assemble :
      Config → List (QueryRetrievalResult Score) → Result SearchError (RetrievalResult Score)
  unfolding rerank_each cover_each coverage_ids order_candidates all_evidence
  assemble config query_results = do
    fused ← fuse_ranked_candidates scores query_results config.rrf_rank_constant
    (reranked_results, best) ← rerank_each [] query_results
    covered_results ←
        cover_each (channel_leader_reranked_rank_limit config.top_k) 0 reranked_results
          (coverage_candidate_limits reranked_results config.top_k)
    ordered ← order_candidates best (coverage_ids covered_results) fused
    let primary = select_page_diverse (map (λ item. item.evidence) ordered) config.top_k
    evidence ← all_evidence config.page_neighbor_count primary
    ok (record {
      evidence = evidence;
      primary_evidence = primary;
      query_results = covered_results;
      fused_candidates = map (mark_primary (chunk_ids primary)) ordered;
      rrf_rank_constant = config.rrf_rank_constant;
      reranker_identity = identity;
    })

  unfoldable pub search :
      (Text → Text) → Config → List Text → Result SearchError (RetrievalResult Score)
  unfolding search_each assemble
  search casefold config queries = do
    let unique = unique_queries casefold queries
    raise_if (length unique == 0) no_queries
    raise_if (ltb (max_additional_queries + 1) (length unique)) too_many_queries
    embeddings ← embed unique
    raise_if (not (length embeddings == length unique)) invalid_embeddings
    query_results ←
        search_each (min (config.top_k * page_diversity_pool_multiplier) max_candidate_pool_size)
          (zip unique embeddings)
    assemble config query_results
