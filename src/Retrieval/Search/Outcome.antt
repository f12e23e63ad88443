-- ===== src/Retrieval/Search/Outcome.antt =====
-- `RetrievalService.search` of modules/retrieval/service.py, after the searches of the channels:
-- the final order, the primary evidence and the neighbours.
use mathlib.Core.List.{append_assoc, append-nil, map-append, Perm}
use mathlib.Core.List.Perm
use sourcetrace.Prelude.{
  ℕ, zero, suc, ◌+◌, ◌<◌, ◌≡◌, refl, sym, ◌∙◌, ap, true, List, [], ◌∷◌, ◌++◌, map, nat_eq, min,
  contains, length, length-map, map-compose, ok, All, Distinct, Distinct-snoc, Bool-cases, inl, inr,
  arith,
}
use sourcetrace.Prelude.Dict.{Dict, keys}
use sourcetrace.Prelude.Sort.{sort, sort-perm}
use sourcetrace.Prelude.Permuting.{contains-perm, Distinct-perm, Distinct-left, partition-perm}
use sourcetrace.Retrieval.Evidence.{
  Scores, RetrievedEvidence, QueryRetrievalResult, FusedRetrievalCandidate,
}
use sourcetrace.Retrieval.Fusion.Ranks.{fused_ids, is_retrieved}
use sourcetrace.Retrieval.Fusion.Outcome.{IsFusion, fuse_ranked_candidates-IsFusion}
use sourcetrace.Retrieval.Coverage.Limits.{coverage_candidate_limits-FitsPlan}
use sourcetrace.Retrieval.Coverage.{coverage_candidate_limits, channel_leader_reranked_rank_limit}
use sourcetrace.Retrieval.Pages.{select_page_diverse}
use sourcetrace.Retrieval.Pages.Diverse.{select_page_diverse-perm, length-select_page_diverse}
use sourcetrace.Retrieval.Search.{
  Config, RetrievalResult, Providers, coverage_ids, final_before, is_covered, covered_first,
  number_from, mark_primary, append_neighbors, chunk_ids, all_evidence, order_candidates, assemble,
}
use sourcetrace.Retrieval.Search.Total.{
  ScoresAll, KeepsChunks, KeepsChunks-trans, rerank_each-total, Within-FitsPlan, cover_each-total,
  rescore-total,
}

module _ (scores : Scores) (providers : Providers scores.Score) where
  open scores use {Score}
  open providers use {expand_page_neighbors}

  abbrev Fused : Type 0
  Fused = List (FusedRetrievalCandidate Score)

  abbrev id_of : FusedRetrievalCandidate Score → ℕ
  id_of c = c.evidence.chunk_id

  -- The numbers count up from `rank`.
  abbrev pub AreNumbered : ℕ → Fused → Type 0
  AreNumbered rank [] = Unit
  AreNumbered rank (c ∷ cs) = (c.reranked_rank ≡ rank) × AreNumbered (rank + 1) cs

  number_from-AreNumbered :
      (rank : ℕ) (items : Fused) → AreNumbered rank (number_from scores providers rank items)
  unfolding number_from
  number_from-AreNumbered rank [] = tt
  number_from-AreNumbered rank (c ∷ cs) = (refl, number_from-AreNumbered (rank + 1) cs)

  fused_ids-number_from :
      (rank : ℕ) (items : Fused)
      → fused_ids (number_from scores providers rank items) ≡ fused_ids items
  unfolding number_from
  fused_ids-number_from rank [] = refl
  fused_ids-number_from rank (c ∷ cs) =
      ap (λ ks. c.evidence.chunk_id ∷ ks) (fused_ids-number_from (rank + 1) cs)

  -- `ordered` has the chunks of `fused`, each once, and is numbered from one.
  pub record IsOrdered (fused ordered : Fused) : Type 0 where
    pub distinct : Distinct (fused_ids ordered)
    pub same : (a : ℕ) → contains (fused_ids ordered) a ≡ contains (fused_ids fused) a
    pub numbered : AreNumbered 1 ordered

  covered_first-perm :
      (covered : List ℕ) (items : Fused)
      → Perm
          (covered_first scores providers covered (sort (final_before scores providers) items))
          items
  unfolding covered_first
  covered_first-perm covered items =
      Perm.trans
        (partition-perm (is_covered scores providers covered)
          (sort (final_before scores providers) items))
        (sort-perm (final_before scores providers) items)

  order_candidates-IsOrdered :
      (best : Dict ℕ Score) (covered : List ℕ) (fused : Fused)
      → Distinct (fused_ids fused)
      → ((a : ℕ) → contains (fused_ids fused) a ≡ true → contains (keys best) a ≡ true)
      → (ordered : Fused) × (order_candidates scores providers best covered fused ≡ ok ordered)
        × IsOrdered fused ordered
  unfolding order_candidates
  order_candidates-IsOrdered best covered fused distinct known =
      let (rescored, done, same) = rescore-total scores providers best fused known in
      let shuffled =
        covered_first scores providers covered (sort (final_before scores providers) rescored) in
      let p = covered_first-perm covered rescored in
      (
        number_from scores providers 1 shuffled,
        rw done refl,
        record {
          distinct =
              rw (fused_ids-number_from 1 shuffled)
                (Distinct-perm id_of (Perm.symm p) (rw same distinct));
          same = λ a.
              ap (λ ks. contains ks a) (fused_ids-number_from 1 shuffled)
              ∙ contains-perm id_of a p
              ∙ ap (λ ks. contains ks a) same;
          numbered = number_from-AreNumbered 1 shuffled;
        },
      )

  -- The neighbours come after what is there, and no chunk is there twice.
  append_neighbors-Distinct :
      (all : List (RetrievedEvidence Score)) (neighbors : List (RetrievedEvidence Score))
      → Distinct (chunk_ids scores providers all)
      → (extra : List (RetrievedEvidence Score)) × (append_neighbors scores providers all
            (chunk_ids scores providers all)
            neighbors
          ≡ all ++ extra)
        × Distinct (chunk_ids scores providers (all ++ extra))
  unfolding append_neighbors
  append_neighbors-Distinct all [] h = ([], sym (append-nil all), rw append-nil h)
  append_neighbors-Distinct all (n ∷ ns) h =
      elim (Bool-cases (contains (chunk_ids scores providers all) n.chunk_id)) [
        | inl old ↦ rw (old, append_neighbors) (append_neighbors-Distinct all ns h)
        | inr new ↦
            let ids-snoc : chunk_ids scores providers (all ++ n ∷ [])
                ≡ chunk_ids scores providers all ++ n.chunk_id ∷ [] =
              map-append _ all _ in
            let (extra, e, d) =
              append_neighbors-Distinct (all ++ n ∷ []) ns
                (rw ids-snoc (Distinct-snoc (chunk_ids scores providers all) n.chunk_id h new)) in
            (
              n ∷ extra,
              rw (new, append_neighbors) (rw (← ids-snoc) (e ∙ append_assoc all (n ∷ []) extra)),
              rw append_assoc at d,
            )
      ]

  -- The neighbour query of the repository returns.
  abbrev pub Expands : Type 0
  Expands =
      (primary : List (RetrievedEvidence Score)) (count : ℕ)
      → (neighbors : List (RetrievedEvidence Score)) × (expand_page_neighbors primary count
          ≡ ok neighbors)

  all_evidence-total :
      Expands
      → (count : ℕ) (primary : List (RetrievedEvidence Score))
      → Distinct (chunk_ids scores providers primary)
      → (extra : List (RetrievedEvidence Score)) × (all_evidence scores providers count primary
          ≡ ok (primary ++ extra))
        × Distinct (chunk_ids scores providers (primary ++ extra))
  unfolding all_evidence
  all_evidence-total expands zero primary h =
      ([], ap ok (sym (append-nil primary)), rw append-nil h)
  all_evidence-total expands (suc count) [] h = ([], refl, tt)
  all_evidence-total expands (suc count) (p ∷ ps) h =
      let (neighbors, done) = expands (p ∷ ps) (suc count) in
      let (extra, e, d) = append_neighbors-Distinct (p ∷ ps) neighbors h in
      (extra, rw done (ap ok e), d)

  -- What `search` promises of its result.
  pub record IsAnswer (config : Config) (results : List (QueryRetrievalResult Score))
      (answer : RetrievalResult Score) : Type 0 where
    -- Each query is reported with the chunks that were retrieved for it, in their order.
    pub kept : KeepsChunks scores providers results answer.query_results
    -- Every retrieved chunk is ranked once, and the ranks count up from one.
    pub distinct : Distinct (fused_ids answer.fused_candidates)
    pub complete : (a : ℕ) → contains (fused_ids answer.fused_candidates) a ≡ is_retrieved results a
    pub numbered : AreNumbered 1 answer.fused_candidates
    -- The primary evidence is the page-diverse selection of the ranking.
    pub primary :
        answer.primary_evidence
        ≡ select_page_diverse (map (λ c. c.evidence) answer.fused_candidates) config.top_k
    pub primary_size :
        length answer.primary_evidence ≡ min config.top_k (length answer.fused_candidates)
    -- A candidate is marked exactly when its chunk is primary.
    pub marked :
        All
          (λ c.
            c.selected_as_primary
            ≡ contains (chunk_ids scores providers answer.primary_evidence) c.evidence.chunk_id)
          answer.fused_candidates
    -- The neighbours follow the primary evidence, and no chunk is cited twice.
    pub neighbors :
        (extra : List (RetrievedEvidence Score)) × (answer.evidence
          ≡ answer.primary_evidence ++ extra)
    pub once : Distinct (chunk_ids scores providers answer.evidence)

  mark_primary-All :
      (selected : List ℕ) (items : Fused)
      → All
          (λ c. c.selected_as_primary ≡ contains selected c.evidence.chunk_id)
          (map (mark_primary scores providers selected) items)
  mark_primary-All selected [] = tt
  mark_primary-All selected (c ∷ cs) = (refl, mark_primary-All selected cs)

  AreNumbered-mark_primary :
      (rank : ℕ) (selected : List ℕ) (items : Fused)
      → AreNumbered rank items
      → AreNumbered rank (map (mark_primary scores providers selected) items)
  AreNumbered-mark_primary rank selected [] h = tt
  AreNumbered-mark_primary rank selected (c ∷ cs) h =
      (h.0, AreNumbered-mark_primary (rank + 1) selected cs h.1)

  primary-Distinct :
      (ordered : Fused) (top_k : ℕ)
      → 0 < top_k
      → Distinct (fused_ids ordered)
      → Distinct
          (chunk_ids scores providers (select_page_diverse (map (λ c. c.evidence) ordered) top_k))
  primary-Distinct ordered top_k positive h =
      let (rest, p) = select_page_diverse-perm (map (λ c. c.evidence) ordered) top_k positive in
      Distinct-left (λ (i : RetrievedEvidence Score). i.chunk_id) _ rest
        (Distinct-perm (λ (i : RetrievedEvidence Score). i.chunk_id) (Perm.symm p)
          (rw map-compose h))

  fused_ids-mark_primary :
      (selected : List ℕ) (items : Fused)
      → fused_ids (map (mark_primary scores providers selected) items) ≡ fused_ids items
  fused_ids-mark_primary selected items = map-compose _ _ items

  evidence-mark_primary :
      (selected : List ℕ) (items : Fused)
      → map (λ c. c.evidence) (map (mark_primary scores providers selected) items)
        ≡ map (λ c. c.evidence) items
  evidence-mark_primary selected items = map-compose _ _ items

  -- The record at the end of `search`.
  abbrev answer_of :
      Config
      → List (QueryRetrievalResult Score)
      → Fused
      → List (RetrievedEvidence Score)
      → RetrievalResult Score
  answer_of config covered ordered evidence =
      let primary = select_page_diverse (map (λ c. c.evidence) ordered) config.top_k in
      record {
        evidence = evidence;
        primary_evidence = primary;
        query_results = covered;
        fused_candidates =
            map (mark_primary scores providers (chunk_ids scores providers primary)) ordered;
        rrf_rank_constant = config.rrf_rank_constant;
        reranker_identity = providers.identity;
      }

  answer_of-IsAnswer :
      (config : Config) (results covered : List (QueryRetrievalResult Score))
      (fused ordered : Fused) (extra : List (RetrievedEvidence Score))
      → 0 < config.top_k
      → IsFusion scores config.rrf_rank_constant results fused
      → IsOrdered fused ordered
      → KeepsChunks scores providers results covered
      → let primary = select_page_diverse (map (λ c. c.evidence) ordered) config.top_k in
        Distinct (chunk_ids scores providers (primary ++ extra))
        → IsAnswer config results (answer_of config covered ordered (primary ++ extra))
  answer_of-IsAnswer config results covered fused ordered extra positive fusion order kept once =
      let primary = select_page_diverse (map (λ c. c.evidence) ordered) config.top_k in
      let selected = chunk_ids scores providers primary in
      record {
        kept = kept;
        distinct = rw (fused_ids-mark_primary selected ordered) order.distinct;
        complete = λ a.
            ap (λ ks. contains ks a) (fused_ids-mark_primary selected ordered)
            ∙ order.same a
            ∙ fusion.complete a;
        numbered = AreNumbered-mark_primary 1 selected ordered order.numbered;
        primary =
            ap (λ items. select_page_diverse items config.top_k)
              (sym (evidence-mark_primary selected ordered));
        primary_size = omega (
          arith,
          length-select_page_diverse (map (λ c. c.evidence) ordered) config.top_k positive,
          length-map (λ (c : FusedRetrievalCandidate Score). c.evidence) ordered,
          length-map (mark_primary scores providers selected) ordered,
        );
        marked = mark_primary-All selected ordered;
        neighbors = (extra, refl);
        once = once;
      }

  -- From any candidates of the channels the search goes on to a result: no lookup by chunk and no
  -- index raises, and the result keeps its promises.
  pub assemble-IsAnswer :
      ScoresAll scores providers
      → Expands
      → (config : Config) (results : List (QueryRetrievalResult Score)) → 0 < config.top_k
      → (answer : RetrievalResult Score) × (assemble scores providers config results ≡ ok answer)
        × IsAnswer config results answer
  unfolding assemble
  assemble-IsAnswer all expands config results positive =
      let (fused, done₁, fusion) =
        fuse_ranked_candidates-IsFusion scores results config.rrf_rank_constant in
      let (reranked, best, done₂, kept, known) =
        rerank_each-total scores providers all [] results in
      let limits = coverage_candidate_limits reranked config.top_k in
      let (covered, done₃, kept') =
        cover_each-total scores providers (channel_leader_reranked_rank_limit config.top_k) 0
          reranked limits
          (Within-FitsPlan scores providers reranked limits
            (coverage_candidate_limits-FitsPlan reranked config.top_k).0) in
      let (ordered, done₄, order) =
        order_candidates-IsOrdered best (coverage_ids scores providers covered) fused
          fusion.distinct (λ a h. known a ∙ sym (fusion.complete a) ∙ h) in
      let primary = select_page_diverse (map (λ c. c.evidence) ordered) config.top_k in
      let (extra, done₅, once) =
        all_evidence-total expands config.page_neighbor_count primary
          (primary-Distinct ordered config.top_k positive order.distinct) in
      (
        answer_of config covered ordered (primary ++ extra),
        rw (done₁, done₂, done₃, done₄, done₅) refl,
        answer_of-IsAnswer config results covered fused ordered extra positive fusion order
            (KeepsChunks-trans scores providers results reranked covered kept kept') once,
      )
