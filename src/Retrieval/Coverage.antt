-- ===== src/Retrieval/Coverage.antt =====
-- `_coverage_candidate_limits` of modules/retrieval/service.py: how many candidates of each query
-- are kept whatever their score. A `return` inside a loop is the `none` of the capacity that is
-- handed to the next loop.
pub mod Limits
use sourcetrace.Prelude.{
  ℕ, zero, suc, ◌+◌, ◌-◌, ◌*◌, Bool, true, false, Option, none, some, List, [], ◌∷◌, map, ◌==◌,
  nat_eq, length, min, if◌then◌else◌,
}
use sourcetrace.Retrieval.Evidence.{QueryRetrievalResult, RankedRetrievalCandidate}

abbrev pub original_query_coverage_candidates : ℕ
original_query_coverage_candidates = 4

abbrev pub max_additional_query_coverage_candidates : ℕ
max_additional_query_coverage_candidates = 2

module _ {Score : Type 0} where
  -- `not query_result.candidates`
  abbrev pub has_none : List (RankedRetrievalCandidate Score) → Bool
  has_none [] = true
  has_none (c ∷ cs) = false

  -- The first loop: one candidate of each query that has any, while the capacity lasts.
  unfoldable pub first_limits : ℕ → List (QueryRetrievalResult Score) → List ℕ × Option ℕ
  first_limits remaining [] = ([], some remaining)
  first_limits remaining (result ∷ results) =
      let skipped = first_limits remaining results in
      let served = first_limits (remaining - 1) results in
      if remaining == 0
      then (0 ∷ map (λ _. 0) results, none)
      else if has_none result.candidates
      then (0 ∷ skipped.0, skipped.1)
      else (1 ∷ served.0, served.1)

  -- The last loop, over the additional queries and their limits.
  unfoldable pub raise_limits : ℕ → List (QueryRetrievalResult Score) → List ℕ → List ℕ
  raise_limits remaining (result ∷ results) (limit ∷ limits) =
      let additional =
        min
          (min (max_additional_query_coverage_candidates - limit)
            (length result.candidates - limit))
          remaining in
      let rest = raise_limits (remaining - additional) results limits in
      if remaining == 0 then limit ∷ limits else (limit + additional) ∷ rest
  raise_limits remaining _ limits = limits

  -- What follows the first loop: the original query is raised first.
  unfoldable pub raise_all : List (QueryRetrievalResult Score) → List ℕ × Option ℕ → List ℕ
  unfolding raise_limits
  raise_all (result ∷ results) (limit ∷ limits, some remaining) =
      let additional =
        min (min (original_query_coverage_candidates - limit) (length result.candidates - limit))
          remaining in
      (limit + additional) ∷ raise_limits (remaining - additional) results limits
  raise_all _ (limits, _) = limits

  unfoldable pub coverage_candidate_limits : List (QueryRetrievalResult Score) → ℕ → List ℕ
  unfolding first_limits raise_all
  coverage_candidate_limits results top_k = raise_all results (first_limits top_k results)

unfoldable pub channel_leader_reranked_rank_limit : ℕ → ℕ
channel_leader_reranked_rank_limit top_k = top_k + 2 * max_additional_query_coverage_candidates
