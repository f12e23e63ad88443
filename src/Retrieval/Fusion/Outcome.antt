-- ===== src/Retrieval/Fusion/Outcome.antt =====
-- `_fuse_ranked_candidates` of modules/retrieval/service.py: its result against the results of the
-- queries.
use sourcetrace.Prelude.{
  ℕ, ◌≡◌, refl, sym, ◌∙◌, ap, true, false, some, List, [], ◌∷◌, nat_eq, nat_beq_iff, contains,
  Distinct, All, All-map, ok, arith, subst, >>=-eq-ok, ok-injective,
}
use sourcetrace.Prelude.Dict.{Dict, keys, get, get-contains}
use sourcetrace.Prelude.Sort.{sort, IsSorted, sort-IsSorted, contains-sort, Distinct-sort, All-sort}
use sourcetrace.Retrieval.Evidence.{
  Scores, RetrievedEvidence, QueryRetrievalResult, FusedRetrievalCandidate,
}
use sourcetrace.Retrieval.Order.{MayPrecede, IsDescending, IsSorted-IsDescending}
use sourcetrace.Retrieval.Fusion.{
  item_at, traverse, empty_fusion, new_fused, or_zero, fuse_queries, fused_candidate, fused_before,
  fuse_ranked_candidates,
}
use sourcetrace.Retrieval.Fusion.Ranks.{
  fused_ids, is_retrieved, fuse_queries-IsAligned, contains-fuse_queries,
}
use sourcetrace.Retrieval.Fusion.Scoring.{reciprocal_rank_sum, score_at-fuse_queries}

module _ (scores : Scores) where
  open scores use {Score, lt, zero_score}

  -- Each entry of a dictionary stands under a key of it.
  keys_known : (d : Dict ℕ (RetrievedEvidence Score)) → All (λ e. contains (keys d) e.0 ≡ true) d
  keys_known [] = tt
  keys_known (e ∷ d) =
      (ground (arith, nat_beq_iff e.0 e.0), All-map _ _ (λ a h. ground arith) d (keys_known d))

  traverse-fused :
      (fused_scores : Dict ℕ Score) (d : Dict ℕ (RetrievedEvidence Score))
      → All (λ e. e.1.chunk_id ≡ e.0) d
      → All (λ e. contains (keys fused_scores) e.0 ≡ true) d
      → (out : List (FusedRetrievalCandidate Score)) × (traverse
            (fused_candidate scores fused_scores)
            d
          ≡ ok out)
        × (fused_ids out ≡ keys d)
        × All (λ c. get fused_scores c.evidence.chunk_id ≡ some c.fused_score) out
  unfolding traverse fused_candidate item_at
  traverse-fused fused_scores [] own known = ([], refl, refl, tt)
  traverse-fused fused_scores ((k, e) ∷ d) own known =
      let (s, found) = get-contains fused_scores k known.0 in
      let (out, done, same, scored) = traverse-fused fused_scores d own.1 known.1 in
      (
        new_fused scores s e ∷ out,
        rw (found, done, item_at) refl,
        ground (arith, own.0, same),
        (rw own.0 found, scored),
      )

  -- `fused` is the reciprocal rank fusion of `results`.
  pub record IsFusion (rank_constant : ℕ) (results : List (QueryRetrievalResult Score))
      (fused : List (FusedRetrievalCandidate Score)) : Type 0 where
    pub distinct : Distinct (fused_ids fused)
    pub complete : (a : ℕ) → contains (fused_ids fused) a ≡ is_retrieved results a
    pub scored :
        All
          (λ c.
            c.fused_score
            ≡ reciprocal_rank_sum scores rank_constant zero_score results c.evidence.chunk_id)
          fused

  -- The fusion of the results of several queries returns, whatever the results: it has each
  -- retrieved chunk exactly once and nothing else, and the score of a chunk is the sum over the
  -- queries that show it of the reciprocal of the rank constant plus its first rank there.
  pub fuse_ranked_candidates-IsFusion :
      (results : List (QueryRetrievalResult Score)) (rank_constant : ℕ)
      → (fused : List (FusedRetrievalCandidate Score)) × (fuse_ranked_candidates scores results
            rank_constant
          ≡ ok fused)
        × IsFusion rank_constant results fused
  unfolding fuse_ranked_candidates get
  fuse_ranked_candidates-IsFusion results rank_constant =
      let state = fuse_queries scores rank_constant (empty_fusion scores) results in
      let aligned =
        fuse_queries-IsAligned scores rank_constant (empty_fusion scores) results
          (record { same = refl; distinct = tt; own = tt }) in
      let (out, done, same, found) =
        traverse-fused state.fused_scores state.best_evidence aligned.own
          (rw aligned.same (keys_known state.best_evidence)) in
      let chunk_id = λ (c : FusedRetrievalCandidate Score). c.evidence.chunk_id in
      (
        sort (fused_before scores) out,
        rw done refl,
        record {
          distinct = Distinct-sort (fused_before scores) chunk_id out (rw same aligned.distinct);
          complete = λ a.
              contains-sort (fused_before scores) chunk_id out a
              ∙ rw same
                  (contains-fuse_queries scores rank_constant (empty_fusion scores) results a);
          scored = All-sort (fused_before scores) _ out (
              All-map _ _
                (λ c e.
                  ap (or_zero scores) (sym e)
                  ∙ score_at-fuse_queries scores rank_constant (empty_fusion scores) results
                      c.evidence.chunk_id)
                out found);
        },
      )

  module _ (asym : (x y : Score) → lt x y ≡ true → lt y x ≡ false) where
    fused_before_asym :
        (a b : FusedRetrievalCandidate Score)
        → fused_before scores a b ≡ true
        → fused_before scores b a ≡ false
    unfolding fused_before
    fused_before_asym a b h = ground (
      arith,
      asym a.fused_score b.fused_score,
      asym b.fused_score a.fused_score,
      asym a.best_raw_score b.best_raw_score,
      asym b.best_raw_score a.best_raw_score,
    )

    fused-IsSorted :
        (results : List (QueryRetrievalResult Score)) (rank_constant : ℕ)
        (fused : List (FusedRetrievalCandidate Score))
        → fuse_ranked_candidates scores results rank_constant ≡ ok fused
        → IsSorted (fused_before scores) fused
    unfolding fuse_ranked_candidates
    fused-IsSorted results rank_constant fused e =
        let state = fuse_queries scores rank_constant (empty_fusion scores) results in
        let (out, _, e₁) =
          >>=-eq-ok (traverse (fused_candidate scores state.fused_scores) state.best_evidence) _
            e in
        subst (IsSorted (fused_before scores)) (ok-injective _ fused e₁)
          (sort-IsSorted (fused_before scores) fused_before_asym out)

    fused_before-MayPrecede :
        (a b : FusedRetrievalCandidate Score)
        → fused_before scores b a ≡ false
        → MayPrecede scores
            (λ c. c.fused_score)
            (λ c. c.best_raw_score)
            (λ c. c.evidence.chunk_id)
            a
            b
    unfolding fused_before
    fused_before-MayPrecede a b h = (ground arith, λ e. (ground arith, λ e'. ground arith))

    -- When the order of the scores is asymmetric, the fusion returns candidates of which none has a
    -- lower fused score than the next, at equal ones none a lower best raw score, and at equal ones
    -- of these none a larger chunk.
    pub fuse_ranked_candidates-IsSorted :
        (results : List (QueryRetrievalResult Score)) (rank_constant : ℕ)
        → (fused : List (FusedRetrievalCandidate Score)) × (fuse_ranked_candidates scores results
              rank_constant
            ≡ ok fused)
          × IsDescending scores
              (λ c. c.fused_score)
              (λ c. c.best_raw_score)
              (λ c. c.evidence.chunk_id)
              fused
    fuse_ranked_candidates-IsSorted results rank_constant =
        let (fused, done, _) = fuse_ranked_candidates-IsFusion results rank_constant in
        (
          fused,
          done,
          IsSorted-IsDescending scores _ _ _ (fused_before scores) fused_before-MayPrecede fused
              (fused-IsSorted results rank_constant fused done),
        )
