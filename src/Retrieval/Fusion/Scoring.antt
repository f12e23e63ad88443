-- ===== src/Retrieval/Fusion/Scoring.antt =====
-- The score of a chunk after the fusion is the sum of its reciprocal ranks, in the order of the
-- queries, each query counting the first place at which it shows the chunk.
use sourcetrace.Prelude.{
  ℕ, ◌+◌, ◌≡◌, refl, Option, none, some, List, [], ◌∷◌, ◌++◌, ◌==◌, nat_eq, nat_beq_iff, contains,
  contains-append, if◌then◌else◌, arith,
}
use sourcetrace.Prelude.Dict.{get, get-put}
use sourcetrace.Retrieval.Evidence.{Scores, RankedRetrievalCandidate, QueryRetrievalResult}
use sourcetrace.Retrieval.Fusion.{Fusion, or_zero, fuse_candidate, fuse_query, fuse_queries}

-- The rank at which a query first shows the chunk.
abbrev pub first_rank : {Score : Type 0} → List (RankedRetrievalCandidate Score) → ℕ → Option ℕ
first_rank [] a = none
first_rank (c ∷ cs) a = if a == c.evidence.chunk_id then some c.rank else first_rank cs a

module _ (scores : Scores) where
  open scores use {Score, zero_score, add, reciprocal}

  abbrev pub add_rank : ℕ → Score → Option ℕ → Score
  add_rank rank_constant total none = total
  add_rank rank_constant total (some rank) = add total (reciprocal (rank_constant + rank))

  -- Reciprocal rank fusion, as it is defined.
  abbrev pub reciprocal_rank_sum : ℕ → Score → List (QueryRetrievalResult Score) → ℕ → Score
  reciprocal_rank_sum rank_constant total [] a = total
  reciprocal_rank_sum rank_constant total (r ∷ rs) a =
      reciprocal_rank_sum rank_constant (add_rank rank_constant total (first_rank r.candidates a))
        rs a

  abbrev pub score_at : Fusion scores → ℕ → Score
  score_at state a = or_zero scores (get state.fused_scores a)

  score_at-fuse_candidate :
      (rank_constant : ℕ) (state : Fusion scores) (c : RankedRetrievalCandidate Score) (a : ℕ)
      → score_at (fuse_candidate scores rank_constant state c) a ≡ (
          if c.evidence.chunk_id == a
          then add (score_at state a) (reciprocal (rank_constant + c.rank))
          else score_at state a)
  unfolding fuse_candidate
  score_at-fuse_candidate rank_constant state c a = ground (
    arith,
    get-put state.fused_scores c.evidence.chunk_id a
        (add (score_at state c.evidence.chunk_id) (reciprocal (rank_constant + c.rank))),
    nat_beq_iff c.evidence.chunk_id a,
  )

  score_at-fuse_query :
      (rank_constant : ℕ) (seen : List ℕ) (state : Fusion scores)
      (cs : List (RankedRetrievalCandidate Score)) (a : ℕ)
      → score_at (fuse_query scores rank_constant seen state cs) a ≡ (
          if contains seen a
          then score_at state a
          else add_rank rank_constant (score_at state a) (first_rank cs a))
  unfolding fuse_query
  score_at-fuse_query rank_constant seen state [] a = ground arith
  score_at-fuse_query rank_constant seen state (c ∷ cs) a = ground (
    arith,
    score_at-fuse_query rank_constant seen state cs a,
    score_at-fuse_query rank_constant (seen ++ c.evidence.chunk_id ∷ [])
        (fuse_candidate scores rank_constant state c) cs a,
    score_at-fuse_candidate rank_constant state c a,
    contains-append seen (c.evidence.chunk_id ∷ []) a,
    nat_beq_iff a c.evidence.chunk_id,
    nat_beq_iff c.evidence.chunk_id a,
  )

  pub score_at-fuse_queries :
      (rank_constant : ℕ) (state : Fusion scores) (results : List (QueryRetrievalResult Score))
      (a : ℕ)
      → score_at (fuse_queries scores rank_constant state results) a
        ≡ reciprocal_rank_sum rank_constant (score_at state a) results a
  unfolding fuse_queries
  score_at-fuse_queries rank_constant state [] a = refl
  score_at-fuse_queries rank_constant state (r ∷ rs) a =
      rw
        (score_at-fuse_queries rank_constant (fuse_query scores rank_constant [] state r.candidates)
          rs a)
        (rw (score_at-fuse_query rank_constant [] state r.candidates a) refl)
