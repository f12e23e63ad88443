-- ===== src/Retrieval/Hybrid/Groups.antt =====
-- `fuse_ranked_channels` of modules/retrieval/hybrid.py: the groups of candidates of one chunk.
use sourcetrace.Prelude.{
  ℕ, ◌≤◌, ◌≡◌, ◌⊎◌, subst, refl, ◌∙◌, false, ◌||◌, none, some, List, [], ◌∷◌, map, ◌==◌, nat_eq,
  nat_beq_iff, contains, Distinct, All, Bool-cases, inl, inr, ok, arith,
}
use sourcetrace.Prelude.Dict.{Dict, keys, get, put, Distinct-keys-put, All-put}
use sourcetrace.Retrieval.Evidence.{Scores}
use sourcetrace.Retrieval.Hybrid.{
  RetrievalChannel, channel_eq, RankedChannelCandidate, FusedChannelCandidate, ByChannel, replaces,
  or_empty, with_candidate, group_candidates, best_of, fuse_groups,
}

module _ (scores : Scores) where
  open scores use {Score, lt}

  abbrev pub candidate_id : RankedChannelCandidate Score → ℕ
  candidate_id c = c.evidence.chunk_id

  abbrev pub fused_id : FusedChannelCandidate Score → ℕ
  fused_id c = c.evidence.chunk_id

  abbrev pub HasItem : ByChannel scores → Type 0
  HasItem [] = ⊥
  HasItem (e ∷ es) = Unit

  -- The candidates of the channels of the chunk `k`: there is one, and each shows the chunk.
  abbrev pub IsGroup : ℕ → ByChannel scores → Type 0
  IsGroup k items = HasItem items × All (λ x. candidate_id x.1 ≡ k) items

  pub get-IsGroup :
      (grouped : Dict ℕ (ByChannel scores)) (k : ℕ)
      → All (λ e. IsGroup e.0 e.1) grouped
      → (get grouped k ≡ none)
        ⊎ ((items : ByChannel scores) × (get grouped k ≡ some items) × IsGroup k items)
  unfolding get
  get-IsGroup [] k h = inl refl
  get-IsGroup ((j, items) ∷ grouped) k h = elim (Bool-cases (j == k)) [
    | inl same ↦ inr (items, rw same refl, subst (λ i. IsGroup i items) (ground arith) h.0)
    | inr other ↦ rw other (get-IsGroup grouped k h.1)
  ]

  put-HasItem :
      (items : ByChannel scores) (channel : RetrievalChannel) (c : RankedChannelCandidate Score)
      → HasItem (put items channel c)
  unfolding put
  put-HasItem [] channel c = tt
  put-HasItem ((j, w) ∷ items) channel c = elim (Bool-cases (j == channel)) [
    | inl same ↦ rw same tt
    | inr other ↦ rw other tt
  ]

  with_candidate-IsGroup :
      (grouped : Dict ℕ (ByChannel scores)) (candidate : RankedChannelCandidate Score)
      → All (λ e. IsGroup e.0 e.1) grouped
      → IsGroup
          (candidate_id candidate)
          (with_candidate scores candidate (or_empty scores (get grouped (candidate_id candidate))))
  unfolding get put
  with_candidate-IsGroup grouped candidate h =
      elim (get-IsGroup grouped (candidate_id candidate) h) [
        | inl new ↦ rw new (tt, (refl, tt))
        | inr (items, old, group) ↦
            elim (Bool-cases (replaces scores candidate (get items candidate.channel))) [
              | inl better ↦
                  rw (old, better)
                    (
                      put-HasItem items candidate.channel candidate,
                      All-put (λ x. candidate_id x.1 ≡ candidate_id candidate) items
                          candidate.channel candidate refl group.1,
                    )
              | inr worse ↦ rw (old, worse) group
            ]
      ]

  contains-keys-put :
      (grouped : Dict ℕ (ByChannel scores)) (k a : ℕ) (items : ByChannel scores)
      → contains (keys (put grouped k items)) a ≡ (a == k) || contains (keys grouped) a
  unfolding put
  contains-keys-put [] k a items = refl
  contains-keys-put ((j, w) ∷ grouped) k a items =
      ground (arith, nat_beq_iff j k, contains-keys-put grouped k a items)

  pub not_zero : (n : ℕ) → 1 ≤ n → n == 0 ≡ false
  not_zero n h = ground arith

  -- The groups have the chunks that were there and those of the candidates.
  pub group_candidates-returns :
      (grouped : Dict ℕ (ByChannel scores)) (candidates : List (RankedChannelCandidate Score))
      → All (λ c. 1 ≤ c.rank) candidates
      → All (λ e. IsGroup e.0 e.1) grouped
      → Distinct (keys grouped)
      → (out : Dict ℕ (ByChannel scores)) × (group_candidates scores grouped candidates ≡ ok out)
        × All (λ e. IsGroup e.0 e.1) out
        × Distinct (keys out)
        × ((a : ℕ)
            → contains (keys out) a
              ≡ contains (keys grouped) a || contains (map candidate_id candidates) a)
  unfolding group_candidates
  group_candidates-returns grouped [] positive groups distinct =
      (grouped, refl, groups, distinct, λ a. ground arith)
  group_candidates-returns grouped (c ∷ cs) positive groups distinct =
      let k = candidate_id c in
      let items = with_candidate scores c (or_empty scores (get grouped k)) in
      let (out, done, groups', distinct', same) =
        group_candidates-returns (put grouped k items) cs positive.1
          (All-put (λ e. IsGroup e.0 e.1) grouped k items (with_candidate-IsGroup grouped c groups)
            groups)
          (Distinct-keys-put grouped k items distinct) in
      let step : group_candidates scores grouped (c ∷ cs)
          ≡ group_candidates scores (put grouped k items) cs =
        rw (not_zero c.rank positive.0, group_candidates) refl in
      (
        out,
        step ∙ done,
        groups',
        distinct',
        λ a. ground (arith, same a, contains-keys-put grouped k a items),
      )

  pub best_of-id :
      (best : RankedChannelCandidate Score) (items : ByChannel scores) (k : ℕ)
      → candidate_id best ≡ k
      → All (λ x. candidate_id x.1 ≡ k) items
      → candidate_id (best_of scores best items) ≡ k
  unfolding best_of
  best_of-id best [] k own h = own
  best_of-id best ((channel, item) ∷ items) k own h =
      elim (Bool-cases (lt best.evidence.score item.evidence.score)) [
        | inl less ↦ rw less (best_of-id item items k h.0 h.1)
        | inr more ↦ rw more (best_of-id best items k own h.1)
      ]

  pub fuse_groups-ids :
      (rank_constant : ℕ) (grouped : Dict ℕ (ByChannel scores))
      → All (λ e. IsGroup e.0 e.1) grouped
      → map fused_id (fuse_groups scores rank_constant grouped) ≡ keys grouped
  unfolding fuse_groups
  fuse_groups-ids rank_constant [] h = refl
  fuse_groups-ids rank_constant ((k, []) ∷ grouped) h = absurd h.0.0
  fuse_groups-ids rank_constant ((k, (channel, item) ∷ items) ∷ grouped) h =
      rw (fuse_groups-ids rank_constant grouped h.1, best_of-id item items k h.0.1.0 h.0.1.1) refl
