-- ===== src/Retrieval/Fusion.antt =====
-- `_fuse_ranked_candidates` of modules/retrieval/service.py: reciprocal rank fusion over queries.
-- `fused_scores[chunk_id]` can raise, so the function returns a `Result`.
pub mod Outcome
pub mod Ranks
pub mod Scoring
pub mod Traversal
use sourcetrace.Prelude.{
  ℕ, ◌+◌, Bool, true, false, Option, none, some, List, [], ◌∷◌, ◌++◌, ◌==◌, nat_eq, ltb, contains,
  if◌then◌else◌, Result, ok, err, ◌>>=◌,
}
use sourcetrace.Prelude.Dict.{Dict, get, put}
use sourcetrace.Prelude.Sort.{sort}
use sourcetrace.Retrieval.Evidence.{
  Scores, RetrievedEvidence, RankedRetrievalCandidate, QueryRetrievalResult,
  FusedRetrievalCandidate,
}

-- What `RetrievalService.search` raises: its own errors, a `KeyError`, or what a provider raised.
pub data SearchError : Type 0 where
  no_queries too_many_queries invalid_embeddings invalid_reranker_scores key_error index_error :
      SearchError
  embedding_failure repository_failure reranker_failure : SearchError

-- `d[k]`
unfoldable pub item_at : {V : Type 0} → Dict ℕ V → ℕ → Result SearchError V
item_at d k = elim (get d k) [ none ↦ err key_error | some v ↦ ok v ]

-- A list comprehension whose element may raise.
unfoldable pub traverse :
    {A B : Type 0} → (A → Result SearchError B) → List A → Result SearchError (List B)
traverse f [] = ok []
traverse f (x ∷ xs) = do y ← f x; ys ← traverse f xs; ok (y ∷ ys)

module _ (scores : Scores) where
  open scores use {Score, lt, zero_score, add, reciprocal}

  -- The two dictionaries of the loop.
  pub record Fusion : Type 0 where
    pub fused_scores : Dict ℕ Score
    pub best_evidence : Dict ℕ (RetrievedEvidence Score)

  abbrev pub empty_fusion : Fusion
  empty_fusion = record { fused_scores = []; best_evidence = [] }

  abbrev pub or_zero : Option Score → Score
  or_zero none = zero_score
  or_zero (some s) = s

  -- `current is None or candidate.evidence.score > current.score`
  abbrev pub improves : RetrievedEvidence Score → Option (RetrievedEvidence Score) → Bool
  improves evidence none = true
  improves evidence (some current) = lt current.score evidence.score

  -- The body of the inner loop for a chunk that the query has not shown before.
  unfoldable pub fuse_candidate : ℕ → Fusion → RankedRetrievalCandidate Score → Fusion
  fuse_candidate rank_constant state candidate = record {
    fused_scores = put state.fused_scores chunk_id (
        add (or_zero (get state.fused_scores chunk_id))
          (reciprocal (rank_constant + candidate.rank)));
    best_evidence =
        if improves candidate.evidence (get state.best_evidence chunk_id)
        then put state.best_evidence chunk_id candidate.evidence
        else state.best_evidence;
  }
    where
      open candidate use {evidence.{chunk_id}}

  -- The inner loop. `seen` is `seen_in_query`.
  unfoldable pub fuse_query : ℕ → List ℕ → Fusion → List (RankedRetrievalCandidate Score) → Fusion
  fuse_query rank_constant seen state [] = state
  fuse_query rank_constant seen state (candidate ∷ candidates) =
      elim (contains seen candidate.evidence.chunk_id) [
        | true ↦ fuse_query rank_constant seen state candidates
        | false ↦
            fuse_query rank_constant (seen ++ candidate.evidence.chunk_id ∷ [])
              (fuse_candidate rank_constant state candidate) candidates
      ]

  unfoldable pub fuse_queries : ℕ → Fusion → List (QueryRetrievalResult Score) → Fusion
  unfolding fuse_query fuse_candidate
  fuse_queries rank_constant state [] = state
  fuse_queries rank_constant state (result ∷ results) =
      fuse_queries rank_constant (fuse_query rank_constant [] state result.candidates) results

  abbrev pub new_fused : Score → RetrievedEvidence Score → FusedRetrievalCandidate Score
  new_fused fused_score evidence = record {
    evidence = evidence;
    fused_score = fused_score;
    best_raw_score = evidence.score;
    reranker_score = zero_score;
    reranked_rank = 0;
    selected_as_primary = false;
  }

  unfoldable pub fused_candidate :
      Dict ℕ Score
      → ℕ × RetrievedEvidence Score
      → Result SearchError (FusedRetrievalCandidate Score)
  unfolding item_at
  fused_candidate fused_scores (chunk_id, evidence) = do
    fused_score ← item_at fused_scores chunk_id
    ok (new_fused fused_score evidence)

  -- The key `(-fused_score, -best_raw_score, str(chunk_id))`.
  unfoldable pub fused_before : FusedRetrievalCandidate Score → FusedRetrievalCandidate Score → Bool
  fused_before a b =
      if lt b.fused_score a.fused_score
      then true
      else if lt a.fused_score b.fused_score
      then false
      else if lt b.best_raw_score a.best_raw_score
      then true
      else if lt a.best_raw_score b.best_raw_score
      then false
      else ltb a.evidence.chunk_id b.evidence.chunk_id

  unfoldable pub fuse_ranked_candidates :
      List (QueryRetrievalResult Score)
      → ℕ
      → Result SearchError (List (FusedRetrievalCandidate Score))
  unfolding fuse_queries fused_candidate traverse
  fuse_ranked_candidates results rank_constant = do
    let state = fuse_queries rank_constant empty_fusion results
    fused ← traverse (fused_candidate state.fused_scores) state.best_evidence
    ok (sort fused_before fused)
