-- ===== src/Retrieval/Hybrid/Ranks.antt =====
-- `fuse_ranked_channels` of modules/retrieval/hybrid.py: the ranks that a chunk is fused by.
use sourcetrace.Prelude.{
  All-map, equals_refl, beq→path, subst, ok-injective, ℕ, ◌+◌, ◌≡◌, ◌⊎◌, refl, sym, ◌∙◌, ap, true,
  false, ◌&&◌, Option, none, some, List, [], ◌∷◌, ◌==◌, nat_eq, min, contains, Distinct, All,
  Bool-cases, Option-cases, inl, inr, ok, arith, if◌then◌else◌,
}
use mathlib.Core.Option
use sourcetrace.Prelude.Dict.{
  Dict, keys, get, put, get-put, Distinct-keys-put, All-put, contains-get,
}
use sourcetrace.Retrieval.Evidence.{Scores}
use sourcetrace.Retrieval.Hybrid.{
  RetrievalChannel, dense, lexical, channel_eq, RankedChannelCandidate, FusedChannelCandidate,
  ByChannel, replaces, or_empty, with_candidate, group_candidates, best_of, rank_sum, fuse_groups,
}
use sourcetrace.Retrieval.Hybrid.Groups.{IsGroup, best_of-id}

-- The smaller of two ranks, where there are two.
abbrev pub better : Option ℕ → Option ℕ → Option ℕ
better none b = b
better (some a) none = some a
better (some a) (some b) = some (min a b)

module _ (scores : Scores) where
  open scores use {Score, lt, zero_score, add, reciprocal}

  -- The best rank that a channel gives a chunk.
  unfoldable pub best_rank : RetrievalChannel → ℕ → List (RankedChannelCandidate Score) → Option ℕ
  best_rank channel chunk_id [] = none
  best_rank channel chunk_id (c ∷ cs) =
      let rest = best_rank channel chunk_id cs in
      if (c.channel == channel) && (c.evidence.chunk_id == chunk_id)
      then better (some c.rank) rest
      else rest

  -- The share of a channel in the score of a chunk.
  abbrev pub with_share : ℕ → Score → Option ℕ → Score
  with_share rank_constant total none = total
  with_share rank_constant total (some rank) = add total (reciprocal (rank_constant + rank))

  -- The ranks of a fused candidate are the best that each channel gives its chunk, and its score is
  -- the sum of their shares, in one order or the other.
  abbrev pub IsScored :
      ℕ → List (RankedChannelCandidate Score) → FusedChannelCandidate Score → Type 0
  IsScored rank_constant candidates c =
      (c.dense_rank ≡ best_rank dense c.evidence.chunk_id candidates)
      × (c.lexical_rank ≡ best_rank lexical c.evidence.chunk_id candidates)
      × ((c.fused_score
            ≡ with_share rank_constant (with_share rank_constant zero_score c.dense_rank)
                c.lexical_rank)
          ⊎ (c.fused_score
              ≡ with_share rank_constant (with_share rank_constant zero_score c.lexical_rank)
                  c.dense_rank))

  abbrev rank_in : ByChannel scores → RetrievalChannel → Option ℕ
  rank_in items channel = Option.map (λ c. c.rank) (get items channel)

  abbrev rank_at : Dict ℕ (ByChannel scores) → ℕ → RetrievalChannel → Option ℕ
  rank_at grouped chunk_id channel = rank_in (or_empty scores (get grouped chunk_id)) channel

  rank_in-put :
      (c : RankedChannelCandidate Score) (items : ByChannel scores) (channel : RetrievalChannel)
      → rank_in (put items c.channel c) channel
        ≡ (if c.channel == channel then some c.rank else rank_in items channel)
  rank_in-put c items channel =
      ap (Option.map (λ d. d.rank)) (get-put items c.channel channel c)
      ∙ elim (Bool-cases (c.channel == channel)) [
        | inl same ↦ rw same refl
        | inr other ↦ rw other refl
      ]

  replaces-le :
      (c old : RankedChannelCandidate Score)
      → replaces scores c (some old) ≡ true
      → min old.rank c.rank ≡ c.rank
  replaces-le c old h = ground arith

  keeps-le :
      (c old : RankedChannelCandidate Score)
      → replaces scores c (some old) ≡ false
      → min old.rank c.rank ≡ old.rank
  keeps-le c old h = ground arith

  rank_in-known :
      (c : RankedChannelCandidate Score) (items : ByChannel scores) (channel : RetrievalChannel)
      (found : Option (RankedChannelCandidate Score))
      → get items c.channel ≡ found
      → (c.channel == channel) ≡ true
      → rank_in items channel ≡ Option.map (λ d. d.rank) found
  rank_in-known c items channel found e same =
      ap (Option.map (λ d. d.rank)) (ap (get items) (sym (beq→path c.channel channel same)) ∙ e)

  rank_in-with_candidate :
      (c : RankedChannelCandidate Score) (items : ByChannel scores) (channel : RetrievalChannel)
      → rank_in (with_candidate scores c items) channel ≡ (
          if c.channel == channel
          then better (rank_in items channel) (some c.rank)
          else rank_in items channel)
  rank_in-with_candidate c items channel = elim (Option-cases (get items c.channel)) [
    | inl new ↦ rw new (
        rank_in-put c items channel ∙ elim (Bool-cases (c.channel == channel)) [
          | inl same ↦ rw (same, rank_in-known c items channel none new same) refl
          | inr other ↦ rw other refl
        ])
    | inr (old, found) ↦ elim (Bool-cases (replaces scores c (some old))) [
      | inl smaller ↦
          rw (found, smaller)
            (rank_in-put c items channel ∙ elim (Bool-cases (c.channel == channel)) [
              | inl same ↦
                  rw (same, rank_in-known c items channel (some old) found same)
                    (ap some (sym (replaces-le c old smaller)))
              | inr other ↦ rw other refl
            ])
      | inr larger ↦
          rw (found, larger)
            (elim (Bool-cases (c.channel == channel)) [
              | inl same ↦
                  rw (same, rank_in-known c items channel (some old) found same)
                    (ap some (sym (keeps-le c old larger)))
              | inr other ↦ rw other refl
            ])
    ]
  ]

  better-none : (a : Option ℕ) → better a none ≡ a
  better-none none = refl
  better-none (some a) = refl

  better_assoc : (a b c : Option ℕ) → better (better a b) c ≡ better a (better b c)
  better_assoc none b c = refl
  better_assoc (some a) none c = refl
  better_assoc (some a) (some b) none = refl
  better_assoc (some a) (some b) (some c) = ground arith

  abbrev grown :
      Dict ℕ (ByChannel scores) → RankedChannelCandidate Score → Dict ℕ (ByChannel scores)
  grown grouped c =
      put grouped c.evidence.chunk_id
        (with_candidate scores c (or_empty scores (get grouped c.evidence.chunk_id)))

  rank_at-grown :
      (grouped : Dict ℕ (ByChannel scores)) (c : RankedChannelCandidate Score) (chunk_id : ℕ)
      (channel : RetrievalChannel)
      → rank_at (grown grouped c) chunk_id channel ≡ (
          if (c.channel == channel) && (c.evidence.chunk_id == chunk_id)
          then better (rank_at grouped chunk_id channel) (some c.rank)
          else rank_at grouped chunk_id channel)
  rank_at-grown grouped c chunk_id channel =
      let k = c.evidence.chunk_id in
      let items = or_empty scores (get grouped k) in
      ap (λ o. rank_in (or_empty scores o) channel)
        (get-put grouped k chunk_id (with_candidate scores c items))
      ∙ elim (Bool-cases (k == chunk_id)) [
        | inl same ↦
            let moved : rank_in items channel ≡ rank_at grouped chunk_id channel =
              ap (λ i. rank_at grouped i channel) (beq→path k chunk_id same) in
            rw same (
              rank_in-with_candidate c items channel ∙ elim (Bool-cases (c.channel == channel)) [
                | inl here ↦ rw here (ap (λ r. better r (some c.rank)) moved)
                | inr other ↦ rw other moved
              ])
        | inr other ↦ rw other (elim (Bool-cases (c.channel == channel)) [
          | inl here ↦ rw here refl
          | inr there ↦ rw there refl
        ])
      ]

  rank_at-group_candidates :
      (grouped : Dict ℕ (ByChannel scores)) (candidates : List (RankedChannelCandidate Score))
      (out : Dict ℕ (ByChannel scores))
      → group_candidates scores grouped candidates ≡ ok out
      → (chunk_id : ℕ) (channel : RetrievalChannel)
      → rank_at out chunk_id channel
        ≡ better (rank_at grouped chunk_id channel) (best_rank channel chunk_id candidates)
  unfolding group_candidates best_rank
  rank_at-group_candidates grouped [] out done chunk_id channel =
      ap (λ g. rank_at g chunk_id channel) (sym (ok-injective grouped out done))
      ∙ sym (better-none (rank_at grouped chunk_id channel))
  rank_at-group_candidates grouped (c ∷ cs) out done chunk_id channel =
      elim (Bool-cases (c.rank == 0)) [
        | inl zero_rank ↦ let e = rw (zero_rank, group_candidates) at done in absurd cc
        | inr positive ↦
            rank_at-group_candidates (grown grouped c) cs out
              (rw (positive, group_candidates) at done) chunk_id channel
            ∙ ap (λ r. better r (best_rank channel chunk_id cs))
                (rank_at-grown grouped c chunk_id channel)
            ∙ elim (Bool-cases ((c.channel == channel) && (c.evidence.chunk_id == chunk_id))) [
              | inl here ↦ rw here (
                  better_assoc (rank_at grouped chunk_id channel) (some c.rank)
                    (best_rank channel chunk_id cs))
              | inr other ↦ rw other refl
            ]
      ]

  or_empty-Distinct :
      (grouped : Dict ℕ (ByChannel scores)) (chunk_id : ℕ)
      → All (λ e. Distinct (keys e.1)) grouped
      → Distinct (keys (or_empty scores (get grouped chunk_id)))
  unfolding get
  or_empty-Distinct [] chunk_id h = tt
  or_empty-Distinct ((k, items) ∷ grouped) chunk_id h = elim (Bool-cases (k == chunk_id)) [
    | inl same ↦ rw same h.0
    | inr other ↦ rw other (or_empty-Distinct grouped chunk_id h.1)
  ]

  with_candidate-Distinct :
      (c : RankedChannelCandidate Score) (items : ByChannel scores)
      → Distinct (keys items)
      → Distinct (keys (with_candidate scores c items))
  with_candidate-Distinct c items h = elim (Bool-cases (replaces scores c (get items c.channel))) [
    | inl smaller ↦ rw smaller (Distinct-keys-put items c.channel c h)
    | inr larger ↦ rw larger h
  ]

  -- The channels of a group are distinct.
  group_candidates-Distinct :
      (grouped : Dict ℕ (ByChannel scores)) (candidates : List (RankedChannelCandidate Score))
      (out : Dict ℕ (ByChannel scores))
      → group_candidates scores grouped candidates ≡ ok out
      → All (λ e. Distinct (keys e.1)) grouped
      → All (λ e. Distinct (keys e.1)) out
  unfolding group_candidates
  group_candidates-Distinct grouped [] out done h =
      subst (λ (g : Dict ℕ (ByChannel scores)). All (λ e. Distinct (keys e.1)) g)
        (ok-injective grouped out done) h
  group_candidates-Distinct grouped (c ∷ cs) out done h = elim (Bool-cases (c.rank == 0)) [
    | inl zero_rank ↦ let e = rw (zero_rank, group_candidates) at done in absurd cc
    | inr positive ↦
        group_candidates-Distinct (grown grouped c) cs out (rw (positive, group_candidates) at done)
          (All-put (λ e. Distinct (keys e.1)) grouped c.evidence.chunk_id
            (with_candidate scores c (or_empty scores (get grouped c.evidence.chunk_id)))
            (with_candidate-Distinct c _ (or_empty-Distinct grouped c.evidence.chunk_id h)) h)
  ]

  -- Two channels, one item each: the sum is that of the shares.
  rank_sum-shares :
      (rank_constant : ℕ) (items : ByChannel scores)
      → Distinct (keys items)
      → (rank_sum scores rank_constant zero_score items
          ≡ with_share rank_constant
              (with_share rank_constant zero_score (rank_in items dense))
              (rank_in items lexical))
        ⊎ (rank_sum scores rank_constant zero_score items
            ≡ with_share rank_constant
                (with_share rank_constant zero_score (rank_in items lexical))
                (rank_in items dense))
  unfolding rank_sum get
  rank_sum-shares rank_constant [] h = inl refl
  rank_sum-shares rank_constant ((dense, a) ∷ []) h = inl refl
  rank_sum-shares rank_constant ((lexical, a) ∷ []) h = inl refl
  rank_sum-shares rank_constant ((dense, a) ∷ (dense, b) ∷ items) h = absurd (ground arith)
  rank_sum-shares rank_constant ((dense, a) ∷ (lexical, b) ∷ []) h = inl refl
  rank_sum-shares rank_constant ((dense, a) ∷ (lexical, b) ∷ (dense, c) ∷ items) h =
      absurd (ground arith)
  rank_sum-shares rank_constant ((dense, a) ∷ (lexical, b) ∷ (lexical, c) ∷ items) h =
      absurd (ground arith)
  rank_sum-shares rank_constant ((lexical, a) ∷ (lexical, b) ∷ items) h = absurd (ground arith)
  rank_sum-shares rank_constant ((lexical, a) ∷ (dense, b) ∷ []) h = inr refl
  rank_sum-shares rank_constant ((lexical, a) ∷ (dense, b) ∷ (dense, c) ∷ items) h =
      absurd (ground arith)
  rank_sum-shares rank_constant ((lexical, a) ∷ (dense, b) ∷ (lexical, c) ∷ items) h =
      absurd (ground arith)

  apart :
      (grouped : Dict ℕ (ByChannel scores)) (k : ℕ) (e : ℕ × ByChannel scores)
      → contains (keys grouped) k ≡ false
      → get grouped e.0 ≡ some e.1
      → (k == e.0) ≡ false
  apart grouped k e new found = elim (Bool-cases (k == e.0)) [
    | inl same ↦
        let known = contains-get grouped e.0 e.1 found in
        let moved =
          subst (λ i. contains (keys grouped) i ≡ true) (sym (beq→path k e.0 same)) known in
        absurd cc
    | inr other ↦ other
  ]

  keeps_entry :
      (grouped : Dict ℕ (ByChannel scores)) (k : ℕ) (items : ByChannel scores)
      → contains (keys grouped) k ≡ false
      → (e : ℕ × ByChannel scores) → get grouped e.0 ≡ some e.1
      → get ((k, items) ∷ grouped) e.0 ≡ some e.1
  unfolding get
  keeps_entry grouped k items new e found = rw (apart grouped k e new found) found

  -- An entry of a dictionary is what is found under its key.
  entries-get :
      (grouped : Dict ℕ (ByChannel scores))
      → Distinct (keys grouped)
      → All (λ e. get grouped e.0 ≡ some e.1) grouped
  unfolding get
  entries-get [] h = tt
  entries-get ((k, items) ∷ grouped) h = (
    rw (equals_refl k) refl,
    All-map (λ e. get grouped e.0 ≡ some e.1) _ (keeps_entry grouped k items h.0) grouped
        (entries-get grouped h.1),
  )

  -- A group of the candidates: its channels are distinct, and their ranks are the best.
  abbrev HasRanks : List (RankedChannelCandidate Score) → ℕ × ByChannel scores → Type 0
  HasRanks candidates e =
      (rank_in e.1 dense ≡ best_rank dense e.0 candidates)
      × (rank_in e.1 lexical ≡ best_rank lexical e.0 candidates)

  fuse_each :
      (rank_constant : ℕ) (candidates : List (RankedChannelCandidate Score))
      (grouped : Dict ℕ (ByChannel scores))
      → All (λ e. IsGroup scores e.0 e.1) grouped
      → All (λ e. Distinct (keys e.1)) grouped
      → All (HasRanks candidates) grouped
      → All (IsScored rank_constant candidates) (fuse_groups scores rank_constant grouped)
  unfolding fuse_groups
  fuse_each rank_constant candidates [] groups distinct ranks = tt
  fuse_each rank_constant candidates ((k, []) ∷ grouped) groups distinct ranks = absurd groups.0.0
  fuse_each rank_constant candidates ((k, (channel, item) ∷ items) ∷ grouped) groups distinct
        ranks =
      let own : (best_of scores item items).evidence.chunk_id ≡ k =
        best_of-id scores item items k groups.0.1.0 groups.0.1.1 in
      (
        (
          ranks.0.0 ∙ ap (λ i. best_rank dense i candidates) (sym own),
          ranks.0.1 ∙ ap (λ i. best_rank lexical i candidates) (sym own),
          rank_sum-shares rank_constant ((channel, item) ∷ items) distinct.0,
        ),
        fuse_each rank_constant candidates grouped groups.1 distinct.1 ranks.1,
      )

  has_ranks :
      (candidates : List (RankedChannelCandidate Score)) (grouped : Dict ℕ (ByChannel scores))
      → group_candidates scores [] candidates ≡ ok grouped
      → (e : ℕ × ByChannel scores) → get grouped e.0 ≡ some e.1
      → HasRanks candidates e
  unfolding get
  has_ranks candidates grouped done e found =
      let at : (channel : RetrievalChannel)
          → rank_in e.1 channel ≡ best_rank channel e.0 candidates =
        λ channel.
          ap (λ o. rank_in (or_empty scores o) channel) (sym found)
          ∙ rank_at-group_candidates [] candidates grouped done e.0 channel in
      (at dense, at lexical)

  pub fuse_groups-IsScored :
      (rank_constant : ℕ) (candidates : List (RankedChannelCandidate Score))
      (grouped : Dict ℕ (ByChannel scores))
      → group_candidates scores [] candidates ≡ ok grouped
      → All (λ e. IsGroup scores e.0 e.1) grouped
      → Distinct (keys grouped)
      → All (IsScored rank_constant candidates) (fuse_groups scores rank_constant grouped)
  fuse_groups-IsScored rank_constant candidates grouped done groups distinct =
      fuse_each rank_constant candidates grouped groups
        (group_candidates-Distinct [] candidates grouped done tt)
        (All-map (λ e. get grouped e.0 ≡ some e.1) _ (has_ranks candidates grouped done) grouped
          (entries-get grouped distinct))
