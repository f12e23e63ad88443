-- ===== src/Retrieval/Search/Total.antt =====
-- The parts of `RetrievalService.search` of modules/retrieval/service.py that look up by chunk or
-- index a list.
use sourcetrace.Prelude.{
  ℕ, ◌+◌, ◌≤◌, ◌≡◌, refl, ◌∙◌, true, ◌||◌, List, [], ◌∷◌, map, map-compose, nat_eq, ltb, every,
  contains, length, length-map, ok, All-map, arith,
}
use sourcetrace.Prelude.Dict.{Dict, keys}
use sourcetrace.Text.{Text}
use sourcetrace.Retrieval.Evidence.{
  Scores, RankedRetrievalCandidate, QueryRetrievalResult, FusedRetrievalCandidate,
}
use sourcetrace.Retrieval.Fusion.{traverse}
use sourcetrace.Retrieval.Fusion.Ranks.{ids, fused_ids, is_retrieved}
use sourcetrace.Retrieval.Fusion.Traversal.{traverse-total}
use sourcetrace.Retrieval.Rerank.Total.{
  rerank_candidates-total, query_coverage_candidate_ids-total, item_at-contains, self_contained,
}
use sourcetrace.Retrieval.Coverage.Limits.{Fits, FitsPlan}
use sourcetrace.Retrieval.Search.{
  Providers, rerank_one, rerank_each, cover_each, mark_covered, with_reranker_score,
}

module _ (scores : Scores) (providers : Providers scores.Score) where
  open scores use {Score, is_finite}
  open providers use {score}

  -- The reranker returns as many scores as it is given passages, and finite ones.
  abbrev pub ScoresAll : Type 0
  ScoresAll =
      (query : Text) (passages : List Text)
      → (values : List Score) × (score query passages ≡ ok values)
        × (length values ≡ length passages)
        × (every is_finite values ≡ true)

  rerank_one-total :
      ScoresAll
      → (result : QueryRetrievalResult Score) (best : Dict ℕ Score)
        (candidates : List (RankedRetrievalCandidate Score))
      → (candidates' : List (RankedRetrievalCandidate Score)) × (best' : Dict ℕ Score) × (rerank_one
            scores providers result best candidates
          ≡ ok (candidates', best'))
        × (ids candidates' ≡ ids candidates)
        × ((a : ℕ)
            → contains (keys best') a ≡ (contains (keys best) a || contains (ids candidates) a))
  rerank_one-total all result best [] = ([], best, refl, refl, λ a. ground arith)
  rerank_one-total all result best (c ∷ cs) =
      let (values, done, size, finite) =
        all result.query (map (λ item. item.evidence.text) (c ∷ cs)) in
      let (out, best', done', same, known) =
        rerank_candidates-total scores values (c ∷ cs) best
          (size
            ∙ length-map (λ (item : RankedRetrievalCandidate Score). item.evidence.text) (c ∷ cs))
          finite in
      (out, best', rw (done, done') refl, same, known)

  -- The same queries, each with the same chunks in the same places.
  abbrev pub KeepsChunks :
      List (QueryRetrievalResult Score) → List (QueryRetrievalResult Score) → Type 0
  KeepsChunks [] [] = Unit
  KeepsChunks [] (r' ∷ rs') = ⊥
  KeepsChunks (r ∷ rs) [] = ⊥
  KeepsChunks (r ∷ rs) (r' ∷ rs') =
      (r'.query ≡ r.query) × (ids r'.candidates ≡ ids r.candidates) × KeepsChunks rs rs'

  pub KeepsChunks-trans :
      (rs rs' rs'' : List (QueryRetrievalResult Score))
      → KeepsChunks rs rs'
      → KeepsChunks rs' rs''
      → KeepsChunks rs rs''
  KeepsChunks-trans [] [] [] h k = tt
  KeepsChunks-trans [] [] (r ∷ rs) h k = absurd k
  KeepsChunks-trans [] (r' ∷ rs') rs'' h k = absurd h
  KeepsChunks-trans (r ∷ rs) [] rs'' h k = absurd h
  KeepsChunks-trans (r ∷ rs) (r' ∷ rs') [] h k = absurd k
  KeepsChunks-trans (r ∷ rs) (r' ∷ rs') (r'' ∷ rs'') h k =
      (k.0 ∙ h.0, k.1 ∙ h.1, KeepsChunks-trans rs rs' rs'' h.2 k.2)

  pub rerank_each-total :
      ScoresAll
      → (best : Dict ℕ Score) (results : List (QueryRetrievalResult Score))
      → (results' : List (QueryRetrievalResult Score)) × (best' : Dict ℕ Score) × (rerank_each
            scores providers best results
          ≡ ok (results', best'))
        × KeepsChunks results results'
        × ((a : ℕ) → contains (keys best') a ≡ (contains (keys best) a || is_retrieved results a))
  unfolding rerank_each
  rerank_each-total all best [] = ([], best, refl, tt, λ a. ground arith)
  rerank_each-total all best (result ∷ results) =
      let (out, best', done, same, known) = rerank_one-total all result best result.candidates in
      let (outs, best'', done', kept, known') = rerank_each-total all best' results in
      (
        record result { candidates = out } ∷ outs,
        best'',
        rw (done, done') refl,
        (refl, same, kept),
        λ a. ground (arith, known a, known' a),
      )

  -- No limit passes the number of candidates of its query.
  abbrev pub Within : List (QueryRetrievalResult Score) → List ℕ → Type 0
  Within (result ∷ results) (limit ∷ limits) =
      (limit ≤ length result.candidates) × Within results limits
  Within [] limits = Unit
  Within (result ∷ results) [] = ⊥

  Within-Fits :
      (cap : ℕ) (results : List (QueryRetrievalResult Score)) (limits : List ℕ)
      → Fits cap results limits
      → Within results limits
  Within-Fits cap [] [] h = tt
  Within-Fits cap [] (limit ∷ limits) h = tt
  Within-Fits cap (result ∷ results) [] h = h
  Within-Fits cap (result ∷ results) (limit ∷ limits) h =
      (h.0.1, Within-Fits cap results limits h.1)

  pub Within-FitsPlan :
      (results : List (QueryRetrievalResult Score)) (limits : List ℕ)
      → FitsPlan results limits
      → Within results limits
  Within-FitsPlan [] [] h = tt
  Within-FitsPlan [] (limit ∷ limits) h = tt
  Within-FitsPlan (result ∷ results) [] h = h
  Within-FitsPlan (result ∷ results) (limit ∷ limits) h = (h.1, Within-Fits 2 results limits h.2)

  pub cover_each-total :
      (rank_limit index : ℕ) (results : List (QueryRetrievalResult Score)) (limits : List ℕ)
      → Within results limits
      → (results' : List (QueryRetrievalResult Score)) × (cover_each scores providers rank_limit
            index results limits
          ≡ ok results')
        × KeepsChunks results results'
  unfolding cover_each
  cover_each-total rank_limit index [] limits h = ([], refl, tt)
  cover_each-total rank_limit index (result ∷ results) [] h = absurd h
  cover_each-total rank_limit index (result ∷ results) (limit ∷ limits) h =
      let (covered, done) =
        query_coverage_candidate_ids-total scores result.candidates limit (ltb 0 index) rank_limit
          h.0 in
      let (outs, done', kept) = cover_each-total rank_limit (index + 1) results limits h.1 in
      (
        record result { candidates = map (mark_covered scores providers covered) result.candidates }
            ∷ outs,
        rw (done, done') refl,
        (refl, map-compose _ _ result.candidates, kept),
      )

  -- Every fused candidate has a reranker score.
  pub rescore-total :
      (best : Dict ℕ Score) (fused : List (FusedRetrievalCandidate Score))
      → ((a : ℕ) → contains (fused_ids fused) a ≡ true → contains (keys best) a ≡ true)
      → (fused' : List (FusedRetrievalCandidate Score)) × (traverse
            (with_reranker_score scores providers best)
            fused
          ≡ ok fused')
        × (fused_ids fused' ≡ fused_ids fused)
  unfolding with_reranker_score
  rescore-total best fused known =
      traverse-total (with_reranker_score scores providers best) (λ c. c.evidence.chunk_id)
        (λ c. c.evidence.chunk_id) fused
        (All-map _ _
          (λ (c : FusedRetrievalCandidate Score) here.
            let (value, found) =
              item_at-contains best c.evidence.chunk_id (known c.evidence.chunk_id here) in
            (record c { reranker_score = value }, rw found refl, refl))
          fused (self_contained (λ c. c.evidence.chunk_id) fused))
