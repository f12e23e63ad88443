-- ===== src/Retrieval/Search/Planned.antt =====
-- `RetrievalService.search` of modules/retrieval/service.py by the queries of a plan.
use mathlib.Core.List.{zip}
use sourcetrace.Prelude.{
  ℕ, ◌*◌, ◌<◌, ◌≡◌, refl, true, false, List, [], ◌∷◌, map, ◌==◌, nat_eq, nat_beq_iff, ltb, min,
  length, ok, arith,
}
use sourcetrace.Text.{Text}
use sourcetrace.Retrieval.Evidence.{Scores, QueryRetrievalResult}
use sourcetrace.Retrieval.Hybrid.{FusedChannelCandidate}
use sourcetrace.Retrieval.Query.Plans.{IsPlan, unique_queries_id}
use sourcetrace.Retrieval.Search.{
  Config, RetrievalResult, Providers, ranked, search_each, search, page_diversity_pool_multiplier,
  max_candidate_pool_size,
}
use sourcetrace.Retrieval.Search.Total.{ScoresAll}
use sourcetrace.Retrieval.Search.Outcome.{Expands, IsAnswer, assemble-IsAnswer}

module _ (scores : Scores) (providers : Providers scores.Score) where
  open scores use {Score}
  open providers use {Embedding, embed, search_channels}

  -- Four candidates for each place of the result, a hundred at most.
  abbrev pub pool_size : Config → ℕ
  pool_size config = min (config.top_k * 4) 100

  -- The embedding provider returns one embedding for each query.
  abbrev pub EmbedsAll : Type 0
  EmbedsAll =
      (queries : List Text)
      → (embeddings : List Embedding) × (embed queries ≡ ok embeddings)
        × (length embeddings ≡ length queries)

  -- The repository's channel search returns.
  abbrev pub SearchesAll : Type 0
  SearchesAll =
      (embedding : Embedding) (query : Text) (limit : ℕ)
      → (candidates : List (FusedChannelCandidate Score)) × (search_channels embedding query limit
          ≡ ok candidates)

  -- The results are what the search of the channels returned for each query and its embedding, in
  -- the order of the queries, when it was asked for `limit` candidates.
  abbrev pub AreFound : ℕ → List Text → List Embedding → List (QueryRetrievalResult Score) → Type 0
  AreFound limit [] [] [] = Unit
  AreFound limit (q ∷ qs) (e ∷ es) (r ∷ rs) =
      (r.query ≡ q)
      × ((candidates : List (FusedChannelCandidate Score)) × (search_channels e q limit
            ≡ ok candidates)
          × (r.candidates ≡ map ranked candidates))
      × AreFound limit qs es rs
  AreFound limit _ _ _ = ⊥

  search_each-total :
      SearchesAll
      → (limit : ℕ) (queries : List Text) (embeddings : List Embedding)
      → length embeddings ≡ length queries
      → (results : List (QueryRetrievalResult Score)) × (search_each scores providers limit
            (zip queries embeddings)
          ≡ ok results)
        × AreFound limit queries embeddings results
  unfolding search_each zip
  search_each-total all limit [] [] h = ([], refl, tt)
  search_each-total all limit [] (e ∷ es) h = absurd (omega arith)
  search_each-total all limit (q ∷ qs) [] h = absurd (omega arith)
  search_each-total all limit (q ∷ qs) (e ∷ es) h =
      let (candidates, done) = all e q limit in
      let (results, done', same) = search_each-total all limit qs es (omega arith) in
      (
        record { query = q; candidates = map ranked candidates } ∷ results,
        rw (done, done') refl,
        (refl, (candidates, done, refl), same),
      )

  -- When the providers return, one embedding for each query and one finite score for each passage,
  -- a search by the queries of a valid plan with a positive top_k returns. Its results come from
  -- the search of the channels for each query of the plan and its embedding, with four candidates
  -- asked for each place of the result and a hundred at most; each query is reported, in the order
  -- of the plan, with the chunks that were found for it, in their order. Every chunk that was found
  -- is ranked once and the ranks count up from one; the primary evidence is the page-diverse
  -- selection of the ranking, of the size min top_k of the number ranked, and a candidate is marked
  -- as primary exactly when its chunk is in it; the neighbours follow it, and no chunk is cited
  -- twice.
  pub search-IsAnswer :
      (casefold : Text → Text)
      → EmbedsAll
      → SearchesAll
      → ScoresAll scores providers
      → Expands scores providers
      → (config : Config) (queries : List Text) → 0 < config.top_k
      → IsPlan casefold queries
      → (embeddings : List Embedding) × (results : List (QueryRetrievalResult Score))
        × (answer : RetrievalResult Score) × (search scores providers casefold config queries
            ≡ ok answer)
        × (embed queries ≡ ok embeddings)
        × AreFound (pool_size config) queries embeddings results
        × IsAnswer scores providers config results answer
  unfolding search
  search-IsAnswer casefold embeds searches rescores expands config queries positive plan =
      let (embeddings, done₁, size) = embeds queries in
      let pool = min (config.top_k * page_diversity_pool_multiplier) max_candidate_pool_size in
      let (results, done₂, same) = search_each-total searches pool queries embeddings size in
      let (answer, done₃, promise) =
        assemble-IsAnswer scores providers rescores expands config results positive in
      let some_query : (length queries == 0) ≡ false = ground (arith, plan.nonempty) in
      let few : ltb 3 (length queries) ≡ false = ground (arith, plan.bounded) in
      let sizes : (length embeddings == length queries) ≡ true = (nat_beq_iff _ _).1 size in
      (
        embeddings,
        results,
        answer,
        rw (unique_queries_id casefold queries plan)
            (rw (some_query, few) (rw done₁ (rw sizes (rw done₂ done₃)))),
        done₁,
        same,
        promise,
      )
