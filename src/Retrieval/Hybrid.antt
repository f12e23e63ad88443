-- ===== src/Retrieval/Hybrid.antt =====
-- modules/retrieval/hybrid.py: the fusion of the dense and the lexical channel of one query.
-- A `Literal` channel is an enumeration, and the dictionary of one chunk's channels a `Dict`.
pub mod Fused
pub mod Groups
pub mod Lexical
pub mod Ranks
use sourcetrace.Prelude.{
  ℕ, ◌+◌, Bool, true, false, Option, none, some, List, [], ◌∷◌, ◌==◌, Eq, ◌≡◌, ◌↔◌, arith, nat_eq,
  ltb, if◌then◌else◌, Result, ok, err, ◌>>=◌, ◌>>◌, raise_if, take,
}
use sourcetrace.Prelude.Dict.{Dict, get, put}
use sourcetrace.Prelude.Sort.{sort}
use sourcetrace.Retrieval.Evidence.{Scores, RetrievedEvidence}
use mathlib.Core.Option

pub data RetrievalChannel : Type 0 where
  dense lexical : RetrievalChannel

abbrev pub channel_beq : RetrievalChannel → RetrievalChannel → Bool
channel_beq dense dense = true
channel_beq lexical lexical = true
channel_beq _ _ = false

pub channel_beq_iff : (a b : RetrievalChannel) → (channel_beq a b ≡ true) ↔ (a ≡ b)
channel_beq_iff a b = ground arith

instance abbrev pub channel_eq : Eq RetrievalChannel
channel_eq = record { equals = channel_beq; equals_iff = channel_beq_iff }

pub record RankedChannelCandidate (Score : Type 0) : Type 0 where
  pub channel : RetrievalChannel
  pub rank : ℕ
  pub channel_score : Score
  pub evidence : RetrievedEvidence Score

pub record FusedChannelCandidate (Score : Type 0) : Type 0 where
  pub evidence : RetrievedEvidence Score
  pub fused_score : Score
  pub channel_fused_rank : ℕ
  pub dense_rank : Option ℕ
  pub lexical_rank : Option ℕ
  pub dense_score : Option Score
  pub lexical_score : Option Score

pub data HybridError : Type 0 where
  rank_constant_not_positive limit_not_positive candidate_rank_not_positive : HybridError

module _ (scores : Scores) where
  open scores use {Score, lt, zero_score, add, reciprocal}

  abbrev pub ByChannel : Type 0
  ByChannel = Dict RetrievalChannel (RankedChannelCandidate Score)

  -- `current is None or (rank, -channel_score) < (current.rank, -current.channel_score)`
  abbrev pub replaces : RankedChannelCandidate Score → Option (RankedChannelCandidate Score) → Bool
  replaces candidate none = true
  replaces candidate (some current) =
      if ltb candidate.rank current.rank
      then true
      else if ltb current.rank candidate.rank
      then false
      else lt current.channel_score candidate.channel_score

  abbrev pub or_empty : Option ByChannel → ByChannel
  or_empty none = []
  or_empty (some by_channel) = by_channel

  abbrev pub with_candidate : RankedChannelCandidate Score → ByChannel → ByChannel
  with_candidate candidate by_channel =
      if replaces candidate (get by_channel candidate.channel)
      then put by_channel candidate.channel candidate
      else by_channel

  -- The first loop: the best candidate of each channel, by chunk.
  unfoldable pub group_candidates :
      Dict ℕ ByChannel → List (RankedChannelCandidate Score) → Result HybridError (Dict ℕ ByChannel)
  group_candidates grouped [] = ok grouped
  group_candidates grouped (candidate ∷ candidates) = elim (candidate.rank == 0) [
    | true ↦ err candidate_rank_not_positive
    | false ↦
        group_candidates
          (put grouped candidate.evidence.chunk_id
            (with_candidate candidate (or_empty (get grouped candidate.evidence.chunk_id))))
          candidates
  ]

  -- `max(items, key=score)`: the first item whose score no other item passes.
  unfoldable pub best_of : RankedChannelCandidate Score → ByChannel → RankedChannelCandidate Score
  best_of best [] = best
  best_of best ((channel, item) ∷ items) =
      best_of (if lt best.evidence.score item.evidence.score then item else best) items

  -- `sum(1 / (rank_constant + item.rank) for item in items)`
  unfoldable pub rank_sum : ℕ → Score → ByChannel → Score
  rank_sum rank_constant total [] = total
  rank_sum rank_constant total ((channel, item) ∷ items) =
      rank_sum rank_constant (add total (reciprocal (rank_constant + item.rank))) items

  -- The second loop. `max` of no items would raise: a group always has an item, so the case of an
  -- empty group adds nothing.
  unfoldable pub fuse_groups : ℕ → Dict ℕ ByChannel → List (FusedChannelCandidate Score)
  unfolding best_of rank_sum
  fuse_groups rank_constant [] = []
  fuse_groups rank_constant ((chunk_id, []) ∷ groups) = fuse_groups rank_constant groups
  fuse_groups rank_constant ((chunk_id, (channel, item) ∷ items) ∷ groups) =
      let by_channel : ByChannel = (channel, item) ∷ items in
      record {
        evidence = (best_of item items).evidence;
        fused_score = rank_sum rank_constant zero_score by_channel;
        channel_fused_rank = 0;
        dense_rank = Option.map (λ c. c.rank) (get by_channel dense);
        lexical_rank = Option.map (λ c. c.rank) (get by_channel lexical);
        dense_score = Option.map (λ c. c.channel_score) (get by_channel dense);
        lexical_score = Option.map (λ c. c.channel_score) (get by_channel lexical);
      }
      ∷ fuse_groups rank_constant groups

  -- The key `(-fused_score, -evidence.score, str(chunk_id))`.
  unfoldable pub channel_fused_before :
      FusedChannelCandidate Score → FusedChannelCandidate Score → Bool
  channel_fused_before a b =
      if lt b.fused_score a.fused_score
      then true
      else if lt a.fused_score b.fused_score
      then false
      else if lt b.evidence.score a.evidence.score
      then true
      else if lt a.evidence.score b.evidence.score
      then false
      else ltb a.evidence.chunk_id b.evidence.chunk_id

  -- `replace(item, channel_fused_rank=rank) for rank, item in enumerate(items, start=rank)`
  unfoldable pub number_from :
      ℕ → List (FusedChannelCandidate Score) → List (FusedChannelCandidate Score)
  number_from rank [] = []
  number_from rank (item ∷ items) =
      record item { channel_fused_rank = rank } ∷ number_from (rank + 1) items

  unfoldable pub fuse_ranked_channels :
      List (RankedChannelCandidate Score)
      → ℕ
      → ℕ
      → Result HybridError (List (FusedChannelCandidate Score))
  unfolding group_candidates fuse_groups number_from
  fuse_ranked_channels candidates rank_constant limit = do
    raise_if (rank_constant == 0) rank_constant_not_positive
    raise_if (limit == 0) limit_not_positive
    grouped ← group_candidates [] candidates
    ok (number_from 1 (take limit (sort channel_fused_before (fuse_groups rank_constant grouped))))
