-- ===== src/Retrieval/Rerank.antt =====
-- The reranking in `RetrievalService.search` of modules/retrieval/service.py, and
-- `_query_coverage_candidate_ids`.
pub mod Total
use mathlib.Core.List.{zip}
use sourcetrace.Prelude.{
  ℕ, zero, suc, ◌+◌, Bool, true, false, not, ◌&&◌, ◌||◌, Option, none, some, List, [], ◌∷◌, ◌++◌,
  map, ◌==◌, nat_eq, ltb, leb, every, contains, length, if◌then◌else◌, Result, ok, err, ◌>>=◌, ◌>>◌,
  raise_if,
}
use sourcetrace.Prelude.Dict.{Dict, get, put}
use sourcetrace.Prelude.Sort.{sort}
use sourcetrace.Retrieval.Evidence.{
  Scores, RetrievedEvidence, RankedRetrievalCandidate, QueryRetrievalResult,
}
use sourcetrace.Retrieval.Fusion.{
  SearchError, invalid_reranker_scores, index_error, item_at, traverse,
}

module _ (scores : Scores) where
  open scores use {Score, lt, negative_infinity, is_finite}

  abbrev pub Candidate : Type 0
  Candidate = RankedRetrievalCandidate Score

  -- The key `(-score, rank, str(chunk_id))`.
  unfoldable pub scored_before : Candidate × Score → Candidate × Score → Bool
  scored_before (a, s) (b, t) =
      if lt t s
      then true
      else if lt s t
      then false
      else if ltb a.rank b.rank
      then true
      else if ltb b.rank a.rank
      then false
      else ltb a.evidence.chunk_id b.evidence.chunk_id

  -- `{chunk_id: rank for rank, … in enumerate(scored, start=rank)}`
  unfoldable pub ranks_by_chunk : Dict ℕ ℕ → ℕ → List (Candidate × Score) → Dict ℕ ℕ
  ranks_by_chunk d rank [] = d
  ranks_by_chunk d rank ((c, s) ∷ scored) =
      ranks_by_chunk (put d c.evidence.chunk_id rank) (rank + 1) scored

  unfoldable pub scores_for_query : Dict ℕ Score → List (Candidate × Score) → Dict ℕ Score
  scores_for_query d [] = d
  scores_for_query d ((c, s) ∷ scored) = scores_for_query (put d c.evidence.chunk_id s) scored

  abbrev pub or_least : Option Score → Score
  or_least none = negative_infinity
  or_least (some s) = s

  -- Python's `max(a, b)`: the first, unless the second is greater.
  abbrev pub max_score : Score → Score → Score
  max_score a b = if lt a b then b else a

  -- The last inner loop: the best score of each chunk over the queries.
  unfoldable pub best_scores : Dict ℕ Score → List (Candidate × Score) → Dict ℕ Score
  best_scores d [] = d
  best_scores d ((c, s) ∷ scored) =
      best_scores (put d c.evidence.chunk_id (max_score (or_least (get d c.evidence.chunk_id)) s))
        scored

  unfoldable pub reranked : Dict ℕ ℕ → Dict ℕ Score → Candidate → Result SearchError Candidate
  unfolding item_at
  reranked ranks scores_of c = do
    score ← item_at scores_of c.evidence.chunk_id
    rank ← item_at ranks c.evidence.chunk_id
    ok (record c { reranker_score = some score; reranked_rank = some rank })

  -- The body of the loop over the queries; `[]` is the branch of a query without candidates.
  unfoldable pub rerank_candidates :
      (List Score)
      → List Candidate
      → Dict ℕ Score
      → Result SearchError (List Candidate × Dict ℕ Score)
  unfolding scored_before ranks_by_chunk scores_for_query best_scores reranked traverse sort
  rerank_candidates values candidates scores_by_chunk = do
    raise_if (not (length values == length candidates) || not (every is_finite values))
        invalid_reranker_scores
    let scored = sort scored_before (zip candidates values)
    candidates' ←
        traverse (reranked (ranks_by_chunk [] 1 scored) (scores_for_query [] scored)) candidates
    ok (candidates', best_scores scores_by_chunk scored)

  -- Ranks with `None` as infinity.
  abbrev pub rank_less : Option ℕ → Option ℕ → Bool
  rank_less (some a) (some b) = ltb a b
  rank_less (some a) none = true
  rank_less none b = false

  -- The key `(reranked_rank or inf, rank, str(chunk_id))`.
  unfoldable pub reranked_before : Candidate → Candidate → Bool
  reranked_before a b =
      if rank_less a.reranked_rank b.reranked_rank
      then true
      else if rank_less b.reranked_rank a.reranked_rank
      then false
      else if ltb a.rank b.rank
      then true
      else if ltb b.rank a.rank
      then false
      else ltb a.evidence.chunk_id b.evidence.chunk_id

  -- The key `(rank, reranked_rank or inf, str(chunk_id))`.
  unfoldable pub channel_before : Candidate → Candidate → Bool
  channel_before a b =
      if ltb a.rank b.rank
      then true
      else if ltb b.rank a.rank
      then false
      else if rank_less a.reranked_rank b.reranked_rank
      then true
      else if rank_less b.reranked_rank a.reranked_rank
      then false
      else ltb a.evidence.chunk_id b.evidence.chunk_id

  -- `min(candidates, key=…)`: the first of the least.
  unfoldable pub channel_leader : Candidate → List Candidate → Candidate
  unfolding channel_before
  channel_leader least [] = least
  channel_leader least (c ∷ cs) = channel_leader (if channel_before c least then c else least) cs

  abbrev pub rank_within : Option ℕ → ℕ → Bool
  rank_within none limit = false
  rank_within (some rank) limit = leb rank limit

  -- The leader of the channels is kept beside the best reranked candidate.
  unfoldable pub with_leader : Candidate → Bool → ℕ → ℕ → List Candidate → List ℕ
  unfolding channel_leader
  with_leader first preserve limit rank_limit [] = first.evidence.chunk_id ∷ []
  with_leader first preserve limit rank_limit (c ∷ cs) =
      let leader = channel_leader c cs in
      if (preserve && ltb 1 limit)
        && (rank_within leader.reranked_rank rank_limit
            && not (contains (first.evidence.chunk_id ∷ []) leader.evidence.chunk_id))
      then first.evidence.chunk_id ∷ leader.evidence.chunk_id ∷ []
      else first.evidence.chunk_id ∷ []

  -- The loop that fills the selection; `selected` are the ids, in order.
  unfoldable pub fill_coverage : ℕ → List ℕ → List Candidate → List ℕ
  fill_coverage limit selected [] = selected
  fill_coverage limit selected (c ∷ cs) = elim (length selected == limit) [
    | true ↦ selected
    | false ↦
        fill_coverage limit
          (if contains selected c.evidence.chunk_id
            then selected
            else selected ++ c.evidence.chunk_id ∷ [])
          cs
  ]

  abbrev pub coverage_of :
      Bool → ℕ → ℕ → List Candidate → List Candidate → Result SearchError (List ℕ)
  coverage_of preserve limit rank_limit candidates [] = err index_error
  coverage_of preserve limit rank_limit candidates (first ∷ rest) =
      ok (
        fill_coverage limit (with_leader first preserve limit rank_limit candidates) (first ∷ rest))

  -- `_query_coverage_candidate_ids`. `reranked[0]` raises if there are no candidates.
  unfoldable pub query_coverage_candidate_ids :
      List Candidate → ℕ → Bool → ℕ → Result SearchError (List ℕ)
  unfolding with_leader fill_coverage reranked_before sort
  query_coverage_candidate_ids candidates zero preserve rank_limit = ok []
  query_coverage_candidate_ids candidates (suc n) preserve rank_limit =
      coverage_of preserve (suc n) rank_limit candidates (sort reranked_before candidates)
