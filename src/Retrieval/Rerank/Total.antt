-- ===== src/Retrieval/Rerank/Total.antt =====
-- The loop over the reranker's scores in `RetrievalService.search` of modules/retrieval/service.py,
-- and `_query_coverage_candidate_ids`: when they return.
use mathlib.Core.List.{zip}
use sourcetrace.Prelude.{
  ℕ, zero, suc, ◌+◌, ◌≤◌, ◌≡◌, refl, ◌∙◌, ap, Bool, true, ◌||◌, some, List, [], ◌∷◌, map, ◌==◌,
  nat_eq, nat_beq_iff, every, contains, contains-append, length, ok, All, All-map, arith,
}
use sourcetrace.Prelude.Dict.{Dict, keys, get, put, keys-put, get-contains}
use sourcetrace.Prelude.Sort.{sort, contains-sort, length-sort}
use sourcetrace.Retrieval.Evidence.{Scores}
use sourcetrace.Retrieval.Fusion.{item_at}
use sourcetrace.Retrieval.Fusion.Ranks.{ids}
use sourcetrace.Retrieval.Fusion.Traversal.{traverse-total}
use sourcetrace.Retrieval.Rerank.{
  Candidate, scored_before, ranks_by_chunk, scores_for_query, or_least, max_score, best_scores,
  reranked, rerank_candidates, coverage_of, query_coverage_candidate_ids, reranked_before,
}

-- The keys of a dictionary after a `put`.
contains-keys-put :
    {V : Type 0} (d : Dict ℕ V) (k a : ℕ) (v : V)
    → contains (keys (put d k v)) a ≡ (contains (keys d) a || a == k)
contains-keys-put d k a v =
    ground (arith, keys-put d k v, contains-append (keys d) (k ∷ []) a, nat_beq_iff a k)

-- Each element of a list is in it.
pub self_contained :
    {A : Type 0} (f : A → ℕ) (xs : List A) → All (λ x. contains (map f xs) (f x) ≡ true) xs
self_contained f [] = tt
self_contained f (x ∷ xs) = (
  ground (arith, nat_beq_iff (f x) (f x)),
  All-map _ _ (λ a h. ground arith) xs (self_contained f xs),
)

pub item_at-contains :
    {V : Type 0} (d : Dict ℕ V) (k : ℕ)
    → contains (keys d) k ≡ true
    → (v : V) × (item_at d k ≡ ok v)
unfolding item_at
item_at-contains d k h = let (v, found) = get-contains d k h in (v, rw (found, item_at) refl)

module _ (scores : Scores) where
  open scores use {Score, is_finite}

  abbrev Scored : Type 0
  Scored = List (Candidate scores × Score)

  abbrev scored_ids : Scored → List ℕ
  scored_ids = map (λ p. p.0.evidence.chunk_id)

  contains-ranks_by_chunk :
      (d : Dict ℕ ℕ) (rank : ℕ) (scored : Scored) (a : ℕ)
      → contains (keys (ranks_by_chunk scores d rank scored)) a
        ≡ (contains (keys d) a || contains (scored_ids scored) a)
  unfolding ranks_by_chunk
  contains-ranks_by_chunk d rank [] a = ground arith
  contains-ranks_by_chunk d rank ((c, s) ∷ scored) a = ground (
    arith,
    contains-ranks_by_chunk (put d c.evidence.chunk_id rank) (rank + 1) scored a,
    contains-keys-put d c.evidence.chunk_id a rank,
  )

  contains-scores_for_query :
      (d : Dict ℕ Score) (scored : Scored) (a : ℕ)
      → contains (keys (scores_for_query scores d scored)) a
        ≡ (contains (keys d) a || contains (scored_ids scored) a)
  unfolding scores_for_query
  contains-scores_for_query d [] a = ground arith
  contains-scores_for_query d ((c, s) ∷ scored) a = ground (
    arith,
    contains-scores_for_query (put d c.evidence.chunk_id s) scored a,
    contains-keys-put d c.evidence.chunk_id a s,
  )

  contains-best_scores :
      (d : Dict ℕ Score) (scored : Scored) (a : ℕ)
      → contains (keys (best_scores scores d scored)) a
        ≡ (contains (keys d) a || contains (scored_ids scored) a)
  unfolding best_scores
  contains-best_scores d [] a = ground arith
  contains-best_scores d ((c, s) ∷ scored) a =
      let best = max_score scores (or_least scores (get d c.evidence.chunk_id)) s in
      ground (
        arith,
        contains-best_scores (put d c.evidence.chunk_id best) scored a,
        contains-keys-put d c.evidence.chunk_id a best,
      )

  ids-zip :
      (candidates : List (Candidate scores)) (values : List Score)
      → length values ≡ length candidates
      → scored_ids (zip candidates values) ≡ ids candidates
  unfolding zip
  ids-zip [] [] h = refl
  ids-zip [] (v ∷ values) h = absurd (omega arith)
  ids-zip (c ∷ candidates) [] h = absurd (omega arith)
  ids-zip (c ∷ candidates) (v ∷ values) h =
      ap (λ ks. c.evidence.chunk_id ∷ ks) (ids-zip candidates values (omega arith))

  abbrev sorted : List (Candidate scores) → List Score → Scored
  sorted candidates values = sort (scored_before scores) (zip candidates values)

  contains-sorted :
      (candidates : List (Candidate scores)) (values : List Score) (a : ℕ)
      → length values ≡ length candidates
      → contains (scored_ids (sorted candidates values)) a ≡ contains (ids candidates) a
  contains-sorted candidates values a h =
      contains-sort (scored_before scores) (λ (p : Candidate scores × Score). p.0.evidence.chunk_id)
        (zip candidates values) a
      ∙ ap (λ ks. contains ks a) (ids-zip candidates values h)

  reranked-total :
      (ranks : Dict ℕ ℕ) (values : Dict ℕ Score) (c : Candidate scores)
      → contains (keys ranks) c.evidence.chunk_id ≡ true
      → contains (keys values) c.evidence.chunk_id ≡ true
      → (c' : Candidate scores) × (reranked scores ranks values c ≡ ok c')
        × (c'.evidence.chunk_id ≡ c.evidence.chunk_id)
  unfolding reranked
  reranked-total ranks values c known known' =
      let (rank, found) = item_at-contains ranks c.evidence.chunk_id known in
      let (value, found') = item_at-contains values c.evidence.chunk_id known' in
      (
        record c { reranker_score = some value; reranked_rank = some rank },
        rw (found', found) refl,
        refl,
      )

  -- The reranking keeps the chunks of the query, and scores them all.
  pub rerank_candidates-total :
      (values : List Score) (candidates : List (Candidate scores)) (best : Dict ℕ Score)
      → length values ≡ length candidates
      → every is_finite values ≡ true
      → (candidates' : List (Candidate scores)) × (best' : Dict ℕ Score) × (rerank_candidates scores
            values candidates best
          ≡ ok (candidates', best'))
        × (ids candidates' ≡ ids candidates)
        × ((a : ℕ)
            → contains (keys best') a ≡ (contains (keys best) a || contains (ids candidates) a))
  unfolding rerank_candidates
  rerank_candidates-total values candidates best h finite =
      let test : (length values == length candidates) ≡ true = (nat_beq_iff _ _).1 h in
      let scored = sorted candidates values in
      let ranks = ranks_by_chunk scores [] 1 scored in
      let values_of = scores_for_query scores [] scored in
      let (out, done, same) =
        traverse-total (reranked scores ranks values_of) (λ c. c.evidence.chunk_id)
          (λ c. c.evidence.chunk_id) candidates
          (All-map _ _
            (λ (c : Candidate scores) known.
              reranked-total ranks values_of c
                (contains-ranks_by_chunk [] 1 scored c.evidence.chunk_id
                  ∙ contains-sorted candidates values c.evidence.chunk_id h
                  ∙ known)
                (contains-scores_for_query [] scored c.evidence.chunk_id
                  ∙ contains-sorted candidates values c.evidence.chunk_id h
                  ∙ known))
            candidates (self_contained (λ c. c.evidence.chunk_id) candidates)) in
      (
        out,
        best_scores scores best scored,
        rw (test, finite, done) refl,
        same,
        λ a.
            contains-best_scores best scored a
            ∙ ap (λ b. contains (keys best) a || b) (contains-sorted candidates values a h),
      )

  -- The selection for the coverage raises only for a query that has no candidate to keep.
  pub query_coverage_candidate_ids-total :
      (candidates : List (Candidate scores)) (limit : ℕ) (preserve : Bool) (rank_limit : ℕ)
      → limit ≤ length candidates
      → (covered : List ℕ) × (query_coverage_candidate_ids scores candidates limit preserve
            rank_limit
          ≡ ok covered)
  unfolding query_coverage_candidate_ids
  query_coverage_candidate_ids-total candidates zero preserve rank_limit h = ([], refl)
  query_coverage_candidate_ids-total candidates (suc n) preserve rank_limit h =
      first (sort (reranked_before scores) candidates)
        (length-sort (reranked_before scores) candidates)
    where
      first :
          (cs : List (Candidate scores))
          → length cs ≡ length candidates
          → (covered : List ℕ) × (coverage_of scores preserve (suc n) rank_limit candidates cs
              ≡ ok covered)
      first [] e = absurd (omega arith)
      first (c ∷ cs) e = (_, refl)
