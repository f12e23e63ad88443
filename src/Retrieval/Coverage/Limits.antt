-- ===== src/Retrieval/Coverage/Limits.antt =====
-- `_coverage_candidate_limits` of modules/retrieval/service.py: the limits against the capacity,
-- the candidates and the queries.
use sourcetrace.Prelude.{
  ℕ, suc, ◌+◌, ◌-◌, ◌≤◌, ◌<◌, ◌≡◌, refl, false, Option, none, some, List, [], ◌∷◌, map, ◌==◌,
  nat_eq, length, min, if◌then◌else◌, arith, Bool-cases, inl, inr,
}
use sourcetrace.Retrieval.Evidence.{QueryRetrievalResult}
use sourcetrace.Retrieval.Coverage.{
  has_none, first_limits, raise_limits, raise_all, coverage_candidate_limits,
}

abbrev pub total : List ℕ → ℕ
total [] = 0
total (n ∷ ns) = n + total ns

abbrev capacity : ℕ → Option ℕ → ℕ
capacity used none = used
capacity used (some n) = used + n

module _ {Score : Type 0} where
  -- Each limit is at most `cap` and at most the number of candidates of its query.
  abbrev pub Fits : ℕ → List (QueryRetrievalResult Score) → List ℕ → Type 0
  Fits cap [] [] = Unit
  Fits cap (result ∷ results) (limit ∷ limits) =
      ((limit ≤ cap) × (limit ≤ length result.candidates)) × Fits cap results limits
  Fits cap _ _ = ⊥

  Fits-zero : (results : List (QueryRetrievalResult Score)) → Fits 1 results (map (λ _. 0) results)
  Fits-zero [] = tt
  Fits-zero (result ∷ results) = ((omega arith, omega arith), Fits-zero results)

  total-zero : (results : List (QueryRetrievalResult Score)) → total (map (λ _. 0) results) ≡ 0
  total-zero [] = refl
  total-zero (result ∷ results) = omega (arith, total-zero results)

  first_limits-Fits :
      (remaining : ℕ) (results : List (QueryRetrievalResult Score))
      → Fits 1 results (first_limits remaining results).0
  unfolding first_limits
  first_limits-Fits remaining [] = tt
  first_limits-Fits remaining (result ∷ results) = ground (
    arith,
    Fits-zero results,
    first_limits-Fits remaining results,
    first_limits-Fits (remaining - 1) results,
  )

  first_limits-total :
      (remaining : ℕ) (results : List (QueryRetrievalResult Score))
      → capacity (total (first_limits remaining results).0) (first_limits remaining results).1
        ≡ remaining
  unfolding first_limits
  first_limits-total remaining [] = omega arith
  first_limits-total remaining (result ∷ results) = ground (
    arith,
    total-zero results,
    first_limits-total remaining results,
    first_limits-total (remaining - 1) results,
  )

  Fits-mono :
      (results : List (QueryRetrievalResult Score)) (limits : List ℕ) (a b : ℕ)
      → a ≤ b
      → Fits a results limits
      → Fits b results limits
  Fits-mono [] [] a b le h = tt
  Fits-mono (result ∷ results) (limit ∷ limits) a b le h =
      ((omega arith, h.0.1), Fits-mono results limits a b le h.1)
  Fits-mono [] (limit ∷ limits) a b le h = absurd h
  Fits-mono (result ∷ results) [] a b le h = absurd h

  raise_limits-Fits :
      (remaining : ℕ) (results : List (QueryRetrievalResult Score)) (limits : List ℕ)
      → Fits 1 results limits
      → Fits 2 results (raise_limits remaining results limits)
        × (total (raise_limits remaining results limits) ≤ total limits + remaining)
  unfolding raise_limits
  raise_limits-Fits remaining [] [] h = (tt, omega arith)
  raise_limits-Fits remaining (result ∷ results) (limit ∷ limits) h =
      let more = min (min (2 - limit) (length result.candidates - limit)) remaining in
      let (fits, sum) = raise_limits-Fits (remaining - more) results limits h.1 in
      elim (Bool-cases (remaining == 0)) [
        | inl done ↦
            rw (done, raise_limits)
              (((omega arith, h.0.1), Fits-mono results limits 1 2 (omega arith) h.1), omega arith)
        | inr left ↦ rw (left, raise_limits) (((omega arith, omega arith), fits), omega arith)
      ]
  raise_limits-Fits remaining [] (limit ∷ limits) h = absurd h
  raise_limits-Fits remaining (result ∷ results) [] h = absurd h

  -- The original query keeps at most four candidates, each additional query at most two; no limit
  -- passes the number of candidates of its query.
  abbrev pub FitsPlan : List (QueryRetrievalResult Score) → List ℕ → Type 0
  FitsPlan (result ∷ results) (limit ∷ limits) =
      (limit ≤ 4) × (limit ≤ length result.candidates) × Fits 2 results limits
  FitsPlan [] [] = Unit
  FitsPlan _ _ = ⊥

  raise_all-Fits :
      (top_k : ℕ) (results : List (QueryRetrievalResult Score)) (first : List ℕ × Option ℕ)
      → Fits 1 results first.0
      → capacity (total first.0) first.1 ≤ top_k
      → FitsPlan results (raise_all results first) × (total (raise_all results first) ≤ top_k)
  unfolding raise_all
  raise_all-Fits top_k [] ([], left) h sum = (tt, omega arith)
  raise_all-Fits top_k (result ∷ results) (limit ∷ limits, none) h sum =
      ((omega arith, h.0.1, Fits-mono results limits 1 2 (omega arith) h.1), sum)
  raise_all-Fits top_k (result ∷ results) (limit ∷ limits, some remaining) h sum =
      let more = min (min (4 - limit) (length result.candidates - limit)) remaining in
      let (fits, rest) = raise_limits-Fits (remaining - more) results limits h.1 in
      ((omega arith, omega arith, fits), omega arith)
  raise_all-Fits top_k [] (limit ∷ limits, left) h sum = absurd h
  raise_all-Fits top_k (result ∷ results) ([], left) h sum = absurd h

  -- The coverage limits are one for each query: at most four for the original query, at most two
  -- for each additional one, and none above the number of candidates of its query; their sum is at
  -- most top_k.
  pub coverage_candidate_limits-FitsPlan :
      (results : List (QueryRetrievalResult Score)) (top_k : ℕ)
      → FitsPlan results (coverage_candidate_limits results top_k)
        × (total (coverage_candidate_limits results top_k) ≤ top_k)
  unfolding coverage_candidate_limits
  coverage_candidate_limits-FitsPlan results top_k =
      raise_all-Fits top_k results (first_limits top_k results) (first_limits-Fits top_k results)
        (omega (arith, first_limits-total top_k results))

  -- How many queries have candidates.
  abbrev pub served : List (QueryRetrievalResult Score) → ℕ
  served [] = 0
  served (result ∷ results) =
      if has_none result.candidates then served results else suc (served results)

  -- Each query with candidates has a limit of at least one.
  abbrev pub Serves : List (QueryRetrievalResult Score) → List ℕ → Type 0
  Serves [] limits = Unit
  Serves (result ∷ results) [] = ⊥
  Serves (result ∷ results) (limit ∷ limits) =
      (has_none result.candidates ≡ false → 0 < limit) × Serves results limits

  Serves-zero :
      (results : List (QueryRetrievalResult Score))
      → served results ≡ 0
      → Serves results (map (λ _. 0) results)
  Serves-zero [] h = tt
  Serves-zero (result ∷ results) h = elim (Bool-cases (has_none result.candidates)) [
    | inl empty ↦ (λ e. cc, Serves-zero results (rw empty at h))
    | inr full ↦ absurd (ground arith)
  ]

  first_limits-Serves :
      (remaining : ℕ) (results : List (QueryRetrievalResult Score))
      → served results ≤ remaining
      → Serves results (first_limits remaining results).0
  unfolding first_limits
  first_limits-Serves remaining [] h = tt
  first_limits-Serves remaining (result ∷ results) h = elim (Bool-cases (remaining == 0)) [
    | inl none_left ↦ rw (none_left, first_limits) (Serves-zero (result ∷ results) (ground arith))
    | inr left ↦ elim (Bool-cases (has_none result.candidates)) [
      | inl empty ↦
          rw (left, empty, first_limits)
            (λ e. cc, first_limits-Serves remaining results (rw empty at h))
      | inr full ↦
          rw (left, full, first_limits)
            (λ e. omega arith, first_limits-Serves (remaining - 1) results (ground arith))
    ]
  ]

  raise_limits-Serves :
      (remaining : ℕ) (results : List (QueryRetrievalResult Score)) (limits : List ℕ)
      → Serves results limits
      → Serves results (raise_limits remaining results limits)
  unfolding raise_limits
  raise_limits-Serves remaining [] limits h = tt
  raise_limits-Serves remaining (result ∷ results) [] h = absurd h
  raise_limits-Serves remaining (result ∷ results) (limit ∷ limits) h =
      let more = min (min (2 - limit) (length result.candidates - limit)) remaining in
      elim (Bool-cases (remaining == 0)) [
        | inl done ↦ rw (done, raise_limits) h
        | inr left ↦
            rw (left, raise_limits)
              (λ e. omega (arith, h.0 e), raise_limits-Serves (remaining - more) results limits h.1)
      ]

  raise_all-Serves :
      (results : List (QueryRetrievalResult Score)) (first : List ℕ × Option ℕ)
      → Serves results first.0
      → Serves results (raise_all results first)
  unfolding raise_all
  raise_all-Serves [] first h = tt
  raise_all-Serves (result ∷ results) ([], left) h = absurd h
  raise_all-Serves (result ∷ results) (limit ∷ limits, none) h = h
  raise_all-Serves (result ∷ results) (limit ∷ limits, some remaining) h =
      (λ e. omega (arith, h.0 e), raise_limits-Serves _ results limits h.1)

  -- When top_k has room for one candidate of each query that has any, each of those queries has a
  -- coverage limit of at least one.
  pub coverage_candidate_limits-Serves :
      (results : List (QueryRetrievalResult Score)) (top_k : ℕ)
      → served results ≤ top_k
      → Serves results (coverage_candidate_limits results top_k)
  unfolding coverage_candidate_limits
  coverage_candidate_limits-Serves results top_k h =
      raise_all-Serves results (first_limits top_k results) (first_limits-Serves top_k results h)
