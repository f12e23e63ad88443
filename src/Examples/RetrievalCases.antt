-- ===== src/Examples/RetrievalCases.antt =====
-- The theorems on retrieval at the test data.
use sourcetrace.Prelude.{
  ℕ, suc, ◌≤◌, ◌≡◌, refl, true, false, none, some, List, [], ◌∷◌, ◌++◌, map, nat_eq, list_eq,
  list_beq, length, ltb, every, length-map, ok, arith,
}
use sourcetrace.Text.{Text, codes, strip, split, join}
use sourcetrace.Retrieval.Evidence.{
  RetrievedEvidence, QueryRetrievalResult, FusedRetrievalCandidate,
}
use sourcetrace.Retrieval.Query.{
  RetrievalPlan, accept_loop, with_additional_queries, resolve_plan, normalize_query,
}
use sourcetrace.Retrieval.Query.Plans.{
  IsPlan, Grown, PlansFor, with_additional_queries-IsPlan, resolve_plan-returns,
}
use sourcetrace.Retrieval.Pages.{select_page_diverse}
use sourcetrace.Retrieval.Pages.Represented.{IsDiverse, select_page_diverse-IsDiverse}
use sourcetrace.Retrieval.Coverage.{coverage_candidate_limits}
use sourcetrace.Retrieval.Coverage.Limits.{
  FitsPlan, Serves, total, coverage_candidate_limits-FitsPlan, coverage_candidate_limits-Serves,
}
use sourcetrace.Retrieval.Fusion.{fuse_ranked_candidates}
use sourcetrace.Retrieval.Fusion.Outcome.{
  IsFusion, fuse_ranked_candidates-IsFusion, fuse_ranked_candidates-IsSorted,
}
use sourcetrace.Retrieval.Order.{IsDescending}
use sourcetrace.Retrieval.Search.{RetrievalResult, search}
use sourcetrace.Retrieval.Search.Total.{ScoresAll}
use sourcetrace.Retrieval.Search.Outcome.{IsAnswer}
use sourcetrace.Retrieval.Search.Planned.{AreFound, pool_size, search-IsAnswer}
use sourcetrace.Examples.Values.{
  small_scores, same_case, pump, valve, motor, two_results, plan_queries, two_plan, small_config,
  small_providers, proposal, titles_of, planner_of,
}

plan_queries-IsPlan : IsPlan same_case plan_queries
unfolding normalize_query strip split join list_beq
plan_queries-IsPlan = record {
  valid = record {
    stripped = (refl, (refl, tt));
    nonblank = (refl, (refl, tt));
    distinct = (refl, (refl, tt));
  };
  nonempty = omega arith;
  bounded = omega arith;
}

abbrev grown_plan : RetrievalPlan
grown_plan = record two_plan { queries = plan_queries ++ codes "valve" ∷ [] }

two_plan_grows : with_additional_queries same_case two_plan (codes "valve" ∷ []) ≡ some grown_plan
unfolding with_additional_queries accept_loop normalize_query strip split join list_beq
two_plan_grows = refl

with_additional_queries-IsPlan_example : Grown same_case two_plan grown_plan
with_additional_queries-IsPlan_example =
    with_additional_queries-IsPlan same_case two_plan grown_plan (codes "valve" ∷ [])
      plan_queries-IsPlan two_plan_grows

two_plan_stays : with_additional_queries same_case two_plan (codes " motor" ∷ []) ≡ none
unfolding with_additional_queries accept_loop normalize_query strip split join list_beq
two_plan_stays = refl

resolve_plan-returns_example :
    (plan : RetrievalPlan) × (resolve_plan same_case
        (some (codes "v1"))
        titles_of
        planner_of
        (codes " How? ")
        []
      ≡ ok plan)
    × PlansFor same_case (some (codes "v1")) (codes " How? ") plan
unfolding strip
resolve_plan-returns_example =
    resolve_plan-returns same_case (λ s h. h) (codes "v1") titles_of planner_of (codes " How? ") []
      (codes "manual" ∷ []) proposal refl refl refl

abbrev three_items : List (RetrievedEvidence ℕ)
three_items = pump ∷ valve ∷ motor ∷ []

select_page_diverse-IsDiverse_example : IsDiverse three_items (select_page_diverse three_items 2)
select_page_diverse-IsDiverse_example = select_page_diverse-IsDiverse three_items 2

coverage_candidate_limits-FitsPlan_example :
    FitsPlan two_results (coverage_candidate_limits two_results 3)
    × (total (coverage_candidate_limits two_results 3) ≤ 3)
coverage_candidate_limits-FitsPlan_example = coverage_candidate_limits-FitsPlan two_results 3

coverage_candidate_limits-Serves_example :
    Serves two_results (coverage_candidate_limits two_results 3)
coverage_candidate_limits-Serves_example =
    coverage_candidate_limits-Serves two_results 3 (omega arith)

fuse_ranked_candidates-IsFusion_example :
    (fused : List (FusedRetrievalCandidate ℕ)) × (fuse_ranked_candidates small_scores two_results 60
      ≡ ok fused)
    × IsFusion small_scores 60 two_results fused
fuse_ranked_candidates-IsFusion_example =
    fuse_ranked_candidates-IsFusion small_scores two_results 60

ltb_asym : (x y : ℕ) → ltb x y ≡ true → ltb y x ≡ false
ltb_asym x y h = ground arith

length_scores :
    (passages : List Text)
    → every (λ s. small_scores.is_finite s) (map (λ passage. suc (length passage)) passages) ≡ true
length_scores [] = refl
length_scores (p ∷ ps) = ground (arith, length_scores ps)

small_providers-ScoresAll : ScoresAll small_scores small_providers
small_providers-ScoresAll query passages = (
  map (λ passage. suc (length passage)) passages,
  refl,
  length-map _ passages,
  length_scores passages,
)

fuse_ranked_candidates-IsSorted_example :
    (fused : List (FusedRetrievalCandidate ℕ)) × (fuse_ranked_candidates small_scores two_results 60
      ≡ ok fused)
    × IsDescending small_scores
        (λ c. c.fused_score)
        (λ c. c.best_raw_score)
        (λ c. c.evidence.chunk_id)
        fused
fuse_ranked_candidates-IsSorted_example =
    fuse_ranked_candidates-IsSorted small_scores ltb_asym two_results 60

search-IsAnswer_example :
    (embeddings : List ℕ) × (results : List (QueryRetrievalResult ℕ)) × (answer : RetrievalResult ℕ)
    × (search small_scores small_providers same_case small_config plan_queries ≡ ok answer)
    × (small_providers.embed plan_queries ≡ ok embeddings)
    × AreFound small_scores small_providers
        (pool_size small_scores small_providers small_config)
        plan_queries
        embeddings
        results
    × IsAnswer small_scores small_providers small_config results answer
search-IsAnswer_example =
    search-IsAnswer small_scores small_providers same_case
      (λ queries. (map length queries, refl, length-map _ queries))
      (λ embedding query limit. (_, refl)) small_providers-ScoresAll
      (λ primary count. (valve ∷ [], refl)) small_config plan_queries (omega arith)
      plan_queries-IsPlan
