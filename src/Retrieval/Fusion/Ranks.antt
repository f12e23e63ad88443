-- ===== src/Retrieval/Fusion/Ranks.antt =====
-- What the fusion of the queries computes: each chunk once, with its reciprocal rank score.
use sourcetrace.Prelude.{
  ℕ, ◌≡◌, refl, sym, ◌∙◌, ap, Bool, true, false, ◌||◌, List, [], ◌∷◌, ◌++◌, map, ◌==◌, nat_eq,
  nat_beq_iff, contains, contains-append, Distinct, Distinct-snoc, All, All-append, All-map,
  All-contains, if◌then◌else◌, Bool-cases, Option-cases, inl, inr, arith,
}
use sourcetrace.Prelude.Dict.{Dict, keys, get, keys-put, contains-get, All-put}
use sourcetrace.Retrieval.Evidence.{
  Scores, RetrievedEvidence, RankedRetrievalCandidate, QueryRetrievalResult,
  FusedRetrievalCandidate,
}
use sourcetrace.Retrieval.Fusion.{Fusion, improves, fuse_candidate, fuse_query, fuse_queries}

abbrev pub ids : {Score : Type 0} → List (RankedRetrievalCandidate Score) → List ℕ
ids = map (λ c. c.evidence.chunk_id)

abbrev pub fused_ids : {Score : Type 0} → List (FusedRetrievalCandidate Score) → List ℕ
fused_ids = map (λ c. c.evidence.chunk_id)

-- Some query has the chunk among its candidates.
abbrev pub is_retrieved : {Score : Type 0} → List (QueryRetrievalResult Score) → ℕ → Bool
is_retrieved [] a = false
is_retrieved (r ∷ rs) a = contains (ids r.candidates) a || is_retrieved rs a

module _ (scores : Scores) where
  open scores use {Score, zero_score, add, reciprocal}

  -- Both dictionaries have the same keys, each once, and evidence stands under its own chunk.
  pub record IsAligned (state : Fusion scores) : Type 0 where
    pub same : keys state.fused_scores ≡ keys state.best_evidence
    pub distinct : Distinct (keys state.best_evidence)
    pub own : All (λ e. e.1.chunk_id ≡ e.0) state.best_evidence

  improves_known :
      (evidence : RetrievedEvidence Score) (d : Dict ℕ (RetrievedEvidence Score)) (k : ℕ)
      → improves scores evidence (get d k) ≡ false
      → contains (keys d) k ≡ true
  improves_known evidence d k h = elim (Option-cases (get d k)) [
    | inl absent ↦ cc (rw absent at h)
    | inr (current, found) ↦ contains-get d k current found
  ]

  abbrev with_key : List ℕ → ℕ → List ℕ
  with_key ks k = if contains ks k then ks else ks ++ k ∷ []

  keys-best_evidence :
      (rank_constant : ℕ) (state : Fusion scores) (c : RankedRetrievalCandidate Score)
      → keys (fuse_candidate scores rank_constant state c).best_evidence
        ≡ with_key (keys state.best_evidence) c.evidence.chunk_id
  unfolding fuse_candidate
  keys-best_evidence rank_constant state c =
      elim (Bool-cases (improves scores c.evidence (get state.best_evidence c.evidence.chunk_id))) [
        | inl better ↦ rw better (keys-put _ _ _)
        | inr worse ↦
            rw (worse, improves_known c.evidence state.best_evidence c.evidence.chunk_id worse) refl
      ]

  with_key-Distinct : (ks : List ℕ) (k : ℕ) → Distinct ks → Distinct (with_key ks k)
  with_key-Distinct ks k h = elim (Bool-cases (contains ks k)) [
    | inl old ↦ rw old h
    | inr new ↦ rw new (Distinct-snoc ks k h new)
  ]

  contains-with_key :
      (ks : List ℕ) (k a : ℕ) → contains (with_key ks k) a ≡ (contains ks a || a == k)
  contains-with_key ks k a = ground (arith, contains-append ks (k ∷ []) a, nat_beq_iff a k)

  abbrev IsOwn : Fusion scores → Type 0
  IsOwn state = All (λ e. e.1.chunk_id ≡ e.0) state.best_evidence

  fuse_candidate-IsOwn :
      (rank_constant : ℕ) (state : Fusion scores) (c : RankedRetrievalCandidate Score)
      → IsOwn state
      → IsOwn (fuse_candidate scores rank_constant state c)
  unfolding fuse_candidate
  fuse_candidate-IsOwn rank_constant state c h =
      elim (Bool-cases (improves scores c.evidence (get state.best_evidence c.evidence.chunk_id))) [
        | inl better ↦
            rw better (All-put _ state.best_evidence c.evidence.chunk_id c.evidence refl h)
        | inr worse ↦ rw worse h
      ]

  fuse_candidate-IsAligned :
      (rank_constant : ℕ) (state : Fusion scores) (c : RankedRetrievalCandidate Score)
      → IsAligned state
      → IsAligned (fuse_candidate scores rank_constant state c)
  fuse_candidate-IsAligned rank_constant state c h = record {
    same =
        unfold fuse_candidate in
        keys-put state.fused_scores c.evidence.chunk_id _
        ∙ ap (λ ks. with_key ks c.evidence.chunk_id) h.same
        ∙ sym (keys-best_evidence rank_constant state c);
    distinct =
        rw (keys-best_evidence rank_constant state c)
          (with_key-Distinct (keys state.best_evidence) c.evidence.chunk_id h.distinct);
    own = fuse_candidate-IsOwn rank_constant state c h.own;
  }

  fuse_query-IsAligned :
      (rank_constant : ℕ) (seen : List ℕ) (state : Fusion scores)
      (cs : List (RankedRetrievalCandidate Score))
      → IsAligned state
      → IsAligned (fuse_query scores rank_constant seen state cs)
  unfolding fuse_query
  fuse_query-IsAligned rank_constant seen state [] h = h
  fuse_query-IsAligned rank_constant seen state (c ∷ cs) h =
      elim (Bool-cases (contains seen c.evidence.chunk_id)) [
        | inl old ↦ rw (old, fuse_query) (fuse_query-IsAligned rank_constant seen state cs h)
        | inr new ↦
            rw (new, fuse_query)
              (fuse_query-IsAligned rank_constant (seen ++ c.evidence.chunk_id ∷ [])
                (fuse_candidate scores rank_constant state c) cs
                (fuse_candidate-IsAligned rank_constant state c h))
      ]

  -- What the query has shown is a key.
  abbrev Knows : List ℕ → Fusion scores → Type 0
  Knows seen state = All (λ a. contains (keys state.best_evidence) a ≡ true) seen

  Knows-fuse_candidate :
      (rank_constant : ℕ) (seen : List ℕ) (state : Fusion scores)
      (c : RankedRetrievalCandidate Score)
      → Knows seen state
      → Knows (seen ++ c.evidence.chunk_id ∷ []) (fuse_candidate scores rank_constant state c)
  Knows-fuse_candidate rank_constant seen state c h =
      rw (keys-best_evidence rank_constant state c) (
        All-append _ seen (c.evidence.chunk_id ∷ [])
          (All-map _ _
            (λ a k.
              ground (arith, contains-with_key (keys state.best_evidence) c.evidence.chunk_id a))
            seen h)
          (
            ground (
              arith,
              contains-with_key (keys state.best_evidence) c.evidence.chunk_id c.evidence.chunk_id,
              nat_beq_iff c.evidence.chunk_id c.evidence.chunk_id,
            ),
            tt,
          ))

  contains-fuse_query :
      (rank_constant : ℕ) (seen : List ℕ) (state : Fusion scores)
      (cs : List (RankedRetrievalCandidate Score)) (a : ℕ)
      → Knows seen state
      → contains (keys (fuse_query scores rank_constant seen state cs).best_evidence) a
        ≡ (contains (keys state.best_evidence) a || contains (ids cs) a)
  unfolding fuse_query
  contains-fuse_query rank_constant seen state [] a h = ground arith
  contains-fuse_query rank_constant seen state (c ∷ cs) a h =
      elim (Bool-cases (contains seen c.evidence.chunk_id)) [
        | inl old ↦
            rw (old, fuse_query)
              (ground (
                arith,
                contains-fuse_query rank_constant seen state cs a h,
                All-contains _ seen c.evidence.chunk_id h old,
                nat_beq_iff a c.evidence.chunk_id,
              ))
        | inr new ↦
            rw (new, fuse_query)
              (ground (
                arith,
                contains-fuse_query rank_constant (seen ++ c.evidence.chunk_id ∷ [])
                    (fuse_candidate scores rank_constant state c) cs a
                    (Knows-fuse_candidate rank_constant seen state c h),
                keys-best_evidence rank_constant state c,
                contains-with_key (keys state.best_evidence) c.evidence.chunk_id a,
              ))
      ]

  pub fuse_queries-IsAligned :
      (rank_constant : ℕ) (state : Fusion scores) (results : List (QueryRetrievalResult Score))
      → IsAligned state
      → IsAligned (fuse_queries scores rank_constant state results)
  unfolding fuse_queries
  fuse_queries-IsAligned rank_constant state [] h = h
  fuse_queries-IsAligned rank_constant state (r ∷ rs) h =
      fuse_queries-IsAligned rank_constant (fuse_query scores rank_constant [] state r.candidates)
        rs (fuse_query-IsAligned rank_constant [] state r.candidates h)

  pub contains-fuse_queries :
      (rank_constant : ℕ) (state : Fusion scores) (results : List (QueryRetrievalResult Score))
      (a : ℕ)
      → contains (keys (fuse_queries scores rank_constant state results).best_evidence) a
        ≡ (contains (keys state.best_evidence) a || is_retrieved results a)
  unfolding fuse_queries
  contains-fuse_queries rank_constant state [] a = ground arith
  contains-fuse_queries rank_constant state (r ∷ rs) a = ground (
    arith,
    contains-fuse_queries rank_constant (fuse_query scores rank_constant [] state r.candidates) rs
        a,
    contains-fuse_query rank_constant [] state r.candidates a tt,
  )
