-- ===== src/Retrieval/Hybrid/Fused.antt =====
-- `fuse_ranked_channels` of modules/retrieval/hybrid.py: what it returns.
use sourcetrace.Prelude.{
  ℕ, zero, suc, ◌+◌, ◌≤◌, ◌≡◌, refl, ◌∙◌, true, false, List, [], ◌∷◌, map, nat_eq, contains,
  Distinct, All, ok, take, arith,
}
use sourcetrace.Prelude.Sort.{sort, sort-IsSorted, contains-sort, Distinct-sort, All-sort}
use sourcetrace.Retrieval.Evidence.{Scores}
use sourcetrace.Retrieval.Order.{MayPrecede, IsDescending, IsSorted-IsDescending}
use sourcetrace.Retrieval.Hybrid.Groups.{
  candidate_id, fused_id, group_candidates-returns, fuse_groups-ids, not_zero,
}
use sourcetrace.Retrieval.Hybrid.Ranks.{IsScored, fuse_groups-IsScored}
use sourcetrace.Retrieval.Hybrid.{
  channel_eq, RankedChannelCandidate, FusedChannelCandidate, fuse_groups, channel_fused_before,
  number_from, fuse_ranked_channels,
}

module _ (scores : Scores) where
  open scores use {Score, lt}

  -- `fused` is the first of `all`, as many as `limit`, numbered from `rank`.
  abbrev pub AreFirst :
      ℕ → ℕ → List (FusedChannelCandidate Score) → List (FusedChannelCandidate Score) → Type 0
  AreFirst rank zero fused all = fused ≡ []
  AreFirst rank (suc limit) fused [] = fused ≡ []
  AreFirst rank (suc limit) [] (a ∷ all) = ⊥
  AreFirst rank (suc limit) (c ∷ fused) (a ∷ all) =
      (c ≡ record a { channel_fused_rank = rank }) × AreFirst (rank + 1) limit fused all

  number_from-AreFirst :
      (rank limit : ℕ) (all : List (FusedChannelCandidate Score))
      → AreFirst rank limit (number_from scores rank (take limit all)) all
  unfolding number_from
  number_from-AreFirst rank zero all = refl
  number_from-AreFirst rank (suc limit) [] = refl
  number_from-AreFirst rank (suc limit) (a ∷ all) =
      (refl, number_from-AreFirst (rank + 1) limit all)

  module _ (asym : (x y : Score) → lt x y ≡ true → lt y x ≡ false) where
    channel_fused_before_asym :
        (a b : FusedChannelCandidate Score)
        → channel_fused_before scores a b ≡ true
        → channel_fused_before scores b a ≡ false
    unfolding channel_fused_before
    channel_fused_before_asym a b h = ground (
      arith,
      asym a.fused_score b.fused_score,
      asym b.fused_score a.fused_score,
      asym a.evidence.score b.evidence.score,
      asym b.evidence.score a.evidence.score,
    )

    channel_fused_before-MayPrecede :
        (a b : FusedChannelCandidate Score)
        → channel_fused_before scores b a ≡ false
        → MayPrecede scores (λ c. c.fused_score) (λ c. c.evidence.score) (fused_id scores) a b
    unfolding channel_fused_before
    channel_fused_before-MayPrecede a b h = (ground arith, λ e. (ground arith, λ e'. ground arith))

    -- `all` has each chunk of the candidates once, with its best ranks and their sum, and is in
    -- order.
    pub record IsRanking (rank_constant : ℕ) (candidates : List (RankedChannelCandidate Score))
        (all : List (FusedChannelCandidate Score)) : Type 0 where
      pub distinct : Distinct (map (fused_id scores) all)
      pub complete :
          (a : ℕ)
          → contains (map (fused_id scores) all) a
            ≡ contains (map (candidate_id scores) candidates) a
      pub scored : All (IsScored scores rank_constant candidates) all
      pub descending :
          IsDescending scores (λ c. c.fused_score) (λ c. c.evidence.score) (fused_id scores) all

    -- When the order of the scores is asymmetric, and the rank constant, the limit and the ranks of
    -- the candidates are positive, the fusion of the channels returns the first, as many as the
    -- limit, of a list that has each chunk of the candidates exactly once and nothing else; they
    -- are numbered from one in that order. In the list a chunk has the best rank that each channel
    -- gives it, and its fused score is the sum of the reciprocals of the rank constant plus these
    -- ranks, in one order of the channels or the other; no item has a lower fused score than the
    -- next, at equal ones no lower score of the evidence, and at equal ones of these no larger
    -- chunk.
    pub fuse_ranked_channels-IsRanking :
        (candidates : List (RankedChannelCandidate Score)) (rank_constant limit : ℕ)
        → 1 ≤ rank_constant
        → 1 ≤ limit
        → All (λ c. 1 ≤ c.rank) candidates
        → (fused : List (FusedChannelCandidate Score)) × (all : List (FusedChannelCandidate Score))
          × (fuse_ranked_channels scores candidates rank_constant limit ≡ ok fused)
          × AreFirst 1 limit fused all
          × IsRanking rank_constant candidates all
    unfolding fuse_ranked_channels
    fuse_ranked_channels-IsRanking candidates rank_constant limit constant some_limit positive =
        let (grouped, done, groups, distinct, same) =
          group_candidates-returns scores [] candidates positive tt tt in
        let ids = fuse_groups-ids scores rank_constant grouped groups in
        let items = fuse_groups scores rank_constant grouped in
        let before = channel_fused_before scores in
        let all = sort before items in
        (
          number_from scores 1 (take limit all),
          all,
          rw (not_zero scores rank_constant constant, not_zero scores limit some_limit, done) refl,
          number_from-AreFirst 1 limit all,
          record {
            distinct = Distinct-sort before (fused_id scores) items (rw ids distinct);
            complete = λ a. contains-sort before (fused_id scores) items a ∙ rw ids (same a);
            scored =
                All-sort before _ items (
                  fuse_groups-IsScored scores rank_constant candidates grouped done groups
                    distinct);
            descending =
                IsSorted-IsDescending scores _ _ _ before channel_fused_before-MayPrecede all
                  (sort-IsSorted before channel_fused_before_asym items);
          },
        )
