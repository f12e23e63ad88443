-- ===== src/Documents/Delivery.antt =====
-- The ingestion of the message of workers/tasks.py: after an error its broker delivers it again,
-- `max_retries` times at most. A delivery is here an attempt of `DocumentIngestionService.process`.
use sourcetrace.Prelude.{
  ℕ, zero, suc, ◌+◌, ◌≤◌, ◌≡◌, refl, true, Option, none, some, List, [], ◌∷◌, Result, ok, err,
  arith,
}
use sourcetrace.Text.{Text}
use sourcetrace.Documents.Chunking.{ParsedPage, ChunkingConfig}
use sourcetrace.Documents.Records.{
  Session, Raised, version_not_found, not_retryable, queue_unavailable, transient_error, newest,
  IngestionRun,
}
use sourcetrace.Documents.Ingestion.{IngestionResult, IngestionError, process}
use sourcetrace.Documents.Ingestion.Attempts.{
  IsAtRest, IsSettled, HasFile, IsWaiting, Outcome, attempts, process-Outcome,
}

abbrev pub max_retries : ℕ
max_retries = 2

-- The next delivery, after an error.
abbrev pub again :
    Result Raised IngestionResult × Session
    → (Session → Result Raised IngestionResult × Session)
    → Result Raised IngestionResult × Session
again (ok result, s) next = (ok result, s)
again (err e, s) next = next s

module _ (stable_id : ℕ → Text → ℕ → ℕ → ℕ) (encode : Text → List ℕ) (decode : List ℕ → Text)
    (parse : ℕ → Text → Result IngestionError (List ParsedPage)) (parser_version : Text)
    (config : ChunkingConfig) where
  unfoldable pub deliver : ℕ → Session → Result Raised IngestionResult × Session
  deliver zero s = process stable_id encode decode parse parser_version config true s
  deliver (suc retries) s =
      again (process stable_id encode decode parse parser_version config true s)
        (λ s'. deliver retries s')

  -- The version is at rest, and its newest run is settled with this result.
  abbrev pub Settles : Result Raised IngestionResult × Session → Type 0
  Settles x =
      (result : IngestionResult) × (x.0 ≡ ok result)
      × IsAtRest x.1
      × IsSettled result (newest x.1.working.runs)

  last_attempt-Settles :
      (key : Text) (n : ℕ) (x : Result Raised IngestionResult × Session)
      → Outcome key n x
      → 3 ≤ n
      → Settles x
  last_attempt-Settles key n (ok result, s) h late = (result, refl, h.0, h.1)
  last_attempt-Settles key n (err (transient_error code message), s) h late =
      absurd (not_waiting (newest s.working.runs) h.1)
    where
      not_waiting : (run : Option IngestionRun) → IsWaiting n run → ⊥
      not_waiting none w = w
      not_waiting (some run) w = omega arith
  last_attempt-Settles key n (err version_not_found, s) h late = absurd h
  last_attempt-Settles key n (err not_retryable, s) h late = absurd h
  last_attempt-Settles key n (err queue_unavailable, s) h late = absurd h

  again-Settles :
      (retries : ℕ) (key : Text) (n : ℕ) (x : Result Raised IngestionResult × Session)
      → Outcome key n x
      → ((s : Session)
          → IsAtRest s
          → HasFile key s.working.version
          → attempts s.working.runs ≡ n
          → Settles (deliver retries s))
      → Settles (again x (λ s. deliver retries s))
  again-Settles retries key n (ok result, s) h next = (result, refl, h.0, h.1)
  again-Settles retries key n (err (transient_error code message), s) h next =
      next s h.0 h.2 (waiting_attempts s.working.runs h.1)
    where
      waiting_attempts : (runs : List IngestionRun) → IsWaiting n (newest runs) → attempts runs ≡ n
      waiting_attempts [] w = absurd w
      waiting_attempts (run ∷ runs) w = w.2
  again-Settles retries key n (err version_not_found, s) h next = absurd h
  again-Settles retries key n (err not_retryable, s) h next = absurd h
  again-Settles retries key n (err queue_unavailable, s) h next = absurd h

  deliver-Settles :
      (retries : ℕ) (s : Session) (key : Text)
      → IsAtRest s
      → HasFile key s.working.version
      → 2 ≤ attempts s.working.runs + retries
      → Settles (deliver retries s)
  unfolding deliver
  deliver-Settles zero s key rest has enough =
      last_attempt-Settles key (attempts s.working.runs + 1) _
        (process-Outcome stable_id encode decode parse parser_version config s key rest has)
        (omega arith)
  deliver-Settles (suc retries) s key rest has enough =
      again-Settles retries key (attempts s.working.runs + 1) _
        (process-Outcome stable_id encode decode parse parser_version config s key rest has)
        (λ s' rest' has' count. deliver-Settles retries s' key rest' has' (omega (arith, count)))

  -- From a version at rest that has its file, whatever the parser answers at each attempt, the
  -- ingestion attempts, a first and two retries after errors, end in a settled run: it is chunked,
  -- completed or failed, the result is that of the newest run, everything is committed, the version
  -- has the status of the run, and the stage fits it. No version is left pending or processing.
  pub max_retries-Settles :
      (s : Session) (key : Text)
      → IsAtRest s
      → HasFile key s.working.version
      → Settles (deliver max_retries s)
  max_retries-Settles s key rest has = deliver-Settles max_retries s key rest has (omega arith)
