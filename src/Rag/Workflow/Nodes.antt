-- ===== src/Rag/Workflow/Nodes.antt =====
-- The nodes of the graph of rag/workflow.py. Each takes the state and returns it with the node's
-- update merged in.
use sourcetrace.Prelude.{
  ℕ, ◌-◌, Bool, true, false, not, ◌&&◌, ◌||◌, Option, none, some, List, [], ◌∷◌, ◌++◌, map, ◌==◌,
  nat_eq, list_eq, leb, every, contains, length, select, take, if◌then◌else◌, Result, ok, err,
}
use sourcetrace.Prelude.Dict.{Dict, get, put}
use sourcetrace.Text.{Text, codes, is_empty, strip, join}
use sourcetrace.Rag.Ports.{
  RetrievalCandidate, EvidenceDecision, GroundedClaim, ClaimSupportDecision,
}
use sourcetrace.Rag.AnswerText.{split_answer_units}
use sourcetrace.Rag.Citation.{
  Attempt, initial, repair, CitationValidationTrace, find_labels, remove_labels,
  citation_validation_trace, is_valid,
}
use sourcetrace.Rag.Language.{answer_matches_question_language}
use sourcetrace.Rag.Workflow.Traces.{WorkflowTrace, empty_trace, with_retrieval_round}
use sourcetrace.Rag.Workflow.State.{
  WorkflowRequest, analyzing, retrieving, assessing, generating, validating, repairing, RefusalCode,
  insufficient_evidence, citation_validation_failed, claim_support_validation_failed,
  answer_language_validation_failed, status, delta, answered, refused, provider_error, index_error,
  repair_of_valid, failure, PlanFailure, VerifyFailure, StreamItem, next_delta, timeout, broken,
  WorkflowState, CitationValidationFeedback, Services, Run, pure, stop, ◌>>=◌, ◌>>◌, ask, emit,
  require, lift, cancel_unless, keep_trace,
}
use sourcetrace.Retrieval.Evidence.{
  Scores, RetrievedEvidence, RankedRetrievalCandidate, QueryRetrievalResult,
}
use sourcetrace.Retrieval.Query.{RetrievalPlan, with_additional_queries}
use sourcetrace.Retrieval.Search.{RetrievalResult}

abbrev pub or_no_queries : Option (List Text) → List Text
or_no_queries none = []
or_no_queries (some queries) = queries

abbrev pub with_query : List Text → Text → List Text
with_query queries query = if contains queries query then queries else queries ++ query ∷ []

module _ {Score : Type 0} where
  -- `_unique_evidence`
  unfoldable pub unique_evidence_from :
      List ℕ → List (RetrievedEvidence Score) → List (RetrievedEvidence Score)
  unique_evidence_from seen [] = []
  unique_evidence_from seen (item ∷ items) = elim (contains seen item.chunk_id) [
    | true ↦ unique_evidence_from seen items
    | false ↦ item ∷ unique_evidence_from (seen ++ item.chunk_id ∷ []) items
  ]

  unfoldable pub unique_evidence : List (RetrievedEvidence Score) → List (RetrievedEvidence Score)
  unfolding unique_evidence_from
  unique_evidence items = unique_evidence_from [] items

  -- The loops of `_query_matches`.
  unfoldable pub match_candidates :
      Text → List (RankedRetrievalCandidate Score) → Dict ℕ (List Text) → Dict ℕ (List Text)
  match_candidates query [] matches = matches
  match_candidates query (c ∷ cs) matches = match_candidates query cs (
      put matches c.evidence.chunk_id
        (with_query (or_no_queries (get matches c.evidence.chunk_id)) query))

  unfoldable pub query_matches_from :
      List (QueryRetrievalResult Score) → Dict ℕ (List Text) → Dict ℕ (List Text)
  unfolding match_candidates
  query_matches_from [] matches = matches
  query_matches_from (r ∷ rs) matches =
      query_matches_from rs (match_candidates r.query r.candidates matches)

  unfoldable pub query_matches : RetrievalResult Score → Dict ℕ (List Text)
  unfolding query_matches_from
  query_matches result = query_matches_from result.query_results []

unfoldable pub add_queries : List Text → List Text → List Text
add_queries accepted [] = accepted
add_queries accepted (query ∷ queries) = add_queries (with_query accepted query) queries

-- `_merge_query_matches`
unfoldable pub merge_query_matches : Dict ℕ (List Text) → Dict ℕ (List Text) → Dict ℕ (List Text)
unfolding add_queries
merge_query_matches merged [] = merged
merge_query_matches merged ((chunk_id, queries) ∷ current) =
    merge_query_matches
      (put merged chunk_id (add_queries (or_no_queries (get merged chunk_id)) queries)) current

-- `dict.fromkeys(xs)` as a list: each value at its first place.
unfoldable pub dedupe_from : List Text → List Text → List Text
dedupe_from seen [] = seen
dedupe_from seen (x ∷ xs) = dedupe_from (with_query seen x) xs

unfoldable pub dedupe : List Text → List Text
unfolding dedupe_from
dedupe xs = dedupe_from [] xs

-- The collaborators and the thresholds of one workflow, and the request that it runs.
module _ (scores : Scores) (casefold : Text → Text) (minimum_score : scores.Score)
    (minimum_evidence : ℕ) (services : Services scores.Score) (request : WorkflowRequest) where
  open scores use {Score, lt}
  open services use {
    resolve_plan, search, assess, stream_answer, verify, is_cancel_requested,
    record_retrieval_query, record_workflow_trace, uuid_text, uuid5_text,
  }
  open request use {run_id, question}

  abbrev pub State : Type 0
  State = WorkflowState Score

  -- `_ensure_active`
  unfoldable pub ensure_active : Run Score (Unit {0})
  ensure_active = do requested ← ask is_cancel_requested; cancel_unless (not requested)

  -- `_record_trace`
  unfoldable pub record_trace : WorkflowTrace Score → Run Score (Unit {0})
  record_trace trace = do
    recorded ← ask (λ n. record_workflow_trace n trace)
    cancel_unless recorded
    keep_trace trace

  abbrev pub citation_id : RetrievedEvidence Score → Text
  citation_id item = uuid5_text run_id (uuid_text item.chunk_id)

  -- `_candidates`
  unfoldable pub candidates_of :
      Dict ℕ (List Text) → List (RetrievedEvidence Score) → List (RetrievalCandidate Score)
  candidates_of matches = map λ item. record {
    chunk_id = uuid_text item.chunk_id;
    content = item.text;
    score = item.score;
    citation_id = citation_id item;
    document_title = item.document_name;
    page_number = item.page_number;
    matched_queries = or_no_queries (get matches item.chunk_id);
  }

  -- `_refusal_state`
  abbrev pub refusal_state : RefusalCode → WorkflowTrace Score → State → State
  refusal_state code trace s = record s { refusal_code = some code; workflow_trace = trace }

  unfoldable pub first_query : List Text → Run Score Text
  first_query [] = stop (failure index_error)
  first_query (query ∷ queries) = pure query

  unfoldable pub plan_or_raise : Result PlanFailure RetrievalPlan → Run Score RetrievalPlan
  plan_or_raise (ok plan) = pure plan
  plan_or_raise (err (PlanFailure.query_planning_failure version planning)) = do
    record_trace
        (record empty_trace { retrieval_plan_version = some version; planning = some planning })
    stop (failure provider_error)
  plan_or_raise (err PlanFailure.other_failure) = stop (failure provider_error)

  -- `_analyze`
  unfoldable pub analyze : State → Run Score State
  analyze s = do
    ensure_active
    emit (status analyzing)
    resolved ← ask resolve_plan
    plan ← plan_or_raise resolved
    query ← first_query plan.queries
    recorded ← ask (λ n. record_retrieval_query n query)
    cancel_unless recorded
    let trace = record empty_trace {
      retrieval_plan_version = some plan.version;
      planning = plan.planning_trace;
      retrieval_queries = plan.queries;
    }
    record_trace trace
    pure (record s { retrieval_plan = some plan; workflow_trace = trace })

  -- `item.score >= self._minimum_score`
  abbrev pub above_minimum : List (RetrievedEvidence Score) → List (RetrievedEvidence Score)
  above_minimum = select (λ item. not (lt item.score minimum_score))

  -- `_retrieve`
  unfoldable pub retrieve : State → Run Score State
  retrieve s = do
    ensure_active
    emit (status retrieving)
    plan ← require s.retrieval_plan
    found ← ask (λ n. search n plan.queries)
    result ← lift found
    let trace = with_retrieval_round uuid_text s.workflow_trace result
    record_trace trace
    pure (record s {
      evidence = some (above_minimum result.evidence);
      evidence_query_matches = query_matches result;
      workflow_trace = trace;
    })

  -- `max(0, 3 - len(queries)) if supplemental_attempts == 0 else 0`
  abbrev pub supplemental_query_limit : State → RetrievalPlan → ℕ
  supplemental_query_limit s plan =
      if s.supplemental_attempts == 0 then 3 - length plan.queries else 0

  -- The end of `_assess`: the plan may grow once.
  unfoldable pub grow_or_refuse :
      State
      → RetrievalPlan
      → List (RetrievedEvidence Score)
      → List Text
      → WorkflowTrace Score
      → State
  grow_or_refuse s plan selected supplemental trace =
      if s.supplemental_attempts == 0
      then elim (with_additional_queries casefold plan supplemental) [
        | none ↦ refusal_state insufficient_evidence trace s
        | some expanded ↦ record s {
          supplemental_queries = some supplemental;
          retrieval_plan = some expanded;
          previously_selected_evidence = selected;
          workflow_trace = trace;
        }
      ]
      else refusal_state insufficient_evidence trace s

  -- `_assess` after the trace is recorded: a selection that is not available refuses, a sufficient
  -- one is kept, and otherwise the plan may grow.
  unfoldable pub decide :
      State
      → RetrievalPlan
      → List (RetrievedEvidence Score)
      → EvidenceDecision
      → List Text
      → WorkflowTrace Score
      → State
  decide s plan available decision selected_ids trace =
      let selected = select (λ item. contains selected_ids (uuid_text item.chunk_id)) available in
      let supplemental = take (supplemental_query_limit s plan) decision.supplemental_queries in
      if not (every (contains (map (λ item. uuid_text item.chunk_id) available)) selected_ids)
      then refusal_state insufficient_evidence trace s
      else if decision.sufficient && leb minimum_evidence (length selected)
      then record s { selected_evidence = some selected; workflow_trace = trace }
      else grow_or_refuse s plan selected supplemental trace

  -- `_assess`
  unfoldable pub assess_evidence : State → Run Score State
  assess_evidence s = do
    ensure_active
    emit (status assessing)
    evidence ← require s.evidence
    plan ← require s.retrieval_plan
    let available = unique_evidence (s.previously_selected_evidence ++ evidence)
    let previous = map (λ item. uuid_text item.chunk_id) s.previously_selected_evidence
    answer ← ask (λ n.
        assess n question plan.queries (candidates_of s.evidence_query_matches available) previous
          (supplemental_query_limit s plan))
    decision ← lift answer
    let selected_ids = dedupe (previous ++ decision.selected_chunk_ids)
    let trace = record s.workflow_trace {
      assessments =
          s.workflow_trace.assessments
          ++ record {
            sufficient = decision.sufficient;
            selected_chunk_ids = selected_ids;
            supplemental_queries = decision.supplemental_queries;
          }
            ∷ [];
    }
    record_trace trace
    pure (decide s plan available decision selected_ids trace)

  -- `_retrieve_supplemental`
  unfoldable pub retrieve_supplemental : State → Run Score State
  retrieve_supplemental s = do
    ensure_active
    emit (status retrieving)
    plan ← require s.retrieval_plan
    found ← ask (λ n. search n plan.queries)
    result ← lift found
    let round = with_retrieval_round uuid_text s.workflow_trace result
    let trace = record round {
      retrieval_queries = plan.queries;
      supplemental_retrieval_attempts = 1;
    }
    record_trace trace
    pure (record s {
      evidence = some (above_minimum result.evidence);
      evidence_query_matches = merge_query_matches s.evidence_query_matches (query_matches result);
      supplemental_attempts = 1;
      workflow_trace = trace;
    })

  -- The loop of `_generate` over the model's stream; `answer` is `"".join(parts)`.
  unfoldable pub read_stream : Text → List StreamItem → Run Score Text
  read_stream answer [] = pure answer
  read_stream answer (next_delta text ∷ items) = do
    emit (delta text)
    read_stream (answer ++ text) items
  read_stream answer (timeout ∷ items) = do ensure_active; read_stream answer items
  read_stream answer (broken ∷ items) = stop (failure provider_error)

  -- `_generate`
  unfoldable pub generate : State → Run Score State
  generate s = do
    ensure_active
    emit (status generating)
    selected ← require s.selected_evidence
    items ← ask (λ n. stream_answer n question (candidates_of [] selected))
    answer ← read_stream [] items
    pure (record s { answer = some (strip answer) })

  -- The labels that an answer may cite.
  abbrev pub allowed_labels : List (RetrievedEvidence Score) → List Text
  allowed_labels = map citation_id

  abbrev pub attempt_of : ℕ → Attempt
  attempt_of repairs = if repairs == 0 then initial else repair

  -- The items of `allowed` whose label is cited. `allowed` is a dictionary by label, in which a
  -- repeated label keeps its place and takes the last item.
  unfoldable pub allowed_items :
      Dict Text (RetrievedEvidence Score)
      → List (RetrievedEvidence Score)
      → Dict Text (RetrievedEvidence Score)
  allowed_items d [] = d
  allowed_items d (item ∷ items) = allowed_items (put d (citation_id item) item) items

  unfoldable pub cited_items :
      Text → List (RetrievedEvidence Score) → List (RetrievedEvidence Score)
  cited_items answer selected =
      map (λ e. e.1) (select (λ e. contains (find_labels answer) e.0) (allowed_items [] selected))

  -- What `_validate_citations` returns.
  unfoldable pub judge : State → Bool → List (RetrievedEvidence Score) → WorkflowTrace Score → State
  judge s valid cited trace =
      if not valid && not (s.repair_attempts == 0)
      then record s {
        citation_valid = some false;
        refusal_code = some citation_validation_failed;
        workflow_trace = trace;
      }
      else record s {
        citation_valid = some valid;
        cited_evidence = some cited;
        workflow_trace = trace;
      }

  -- `_validate_citations`
  unfoldable pub validate_citations : State → Run Score State
  validate_citations s = do
    ensure_active
    emit (status validating)
    selected ← require s.selected_evidence
    answer ← require s.answer
    let validation =
        citation_validation_trace answer (allowed_labels selected) (attempt_of s.repair_attempts)
    let trace = record s.workflow_trace {
      citation_validations = s.workflow_trace.citation_validations ++ validation ∷ [];
    }
    record_trace trace
    pure (judge s validation.valid (cited_items answer selected) trace)

  abbrev pub labels_text : List Text → Text
  labels_text ids = join (codes " ") (map (λ i. b'[' ∷ (i ++ b']' ∷ [])) ids)

  -- The loop over the claims; `none` is the early return with a refusal.
  unfoldable pub render_claims : List Text → List GroundedClaim → Option (List Text)
  render_claims allowed [] = some []
  render_claims allowed (claim ∷ claims) =
      let text = strip (remove_labels claim.text) in
      let ids = dedupe claim.citation_ids in
      let units = map (λ u. u ++ (codes " " ++ labels_text ids)) (split_answer_units text) in
      let rest = render_claims allowed claims in
      if is_empty text || (length ids == 0 || not (every (contains allowed) ids))
      then none
      else elim rest [ none ↦ none | some rendered ↦ some (units ++ rendered) ]

  -- What `_validate_claim_support` makes of a decision.
  unfoldable pub supported : State → List (RetrievedEvidence Score) → ClaimSupportDecision → State
  supported s selected decision = elim (render_claims (allowed_labels selected) decision.claims) [
    | none ↦ refusal_state claim_support_validation_failed s.workflow_trace s
    | some rendered ↦
        if length rendered == 0
        then refusal_state claim_support_validation_failed s.workflow_trace s
        else record s { answer = some (join (codes "\n") rendered); claim_support_valid = true }
  ]

  abbrev pub verdict :
      State
      → List (RetrievedEvidence Score)
      → Result VerifyFailure ClaimSupportDecision
      → Run Score State
  verdict s selected (ok decision) = pure (supported s selected decision)
  verdict s selected (err VerifyFailure.claim_support_validation_error) =
      pure (refusal_state claim_support_validation_failed s.workflow_trace s)
  verdict s selected (err VerifyFailure.other_failure) = stop (failure provider_error)

  -- `_validate_claim_support`
  unfoldable pub validate_claim_support : State → Run Score State
  validate_claim_support s = do
    ensure_active
    emit (status validating)
    selected ← require s.selected_evidence
    answer ← require s.answer
    decision ← ask (λ n. verify n question answer (candidates_of [] selected))
    verdict s selected decision

  unfoldable pub last_validation : List CitationValidationTrace → Run Score CitationValidationTrace
  last_validation [] = stop (failure index_error)
  last_validation (v ∷ []) = pure v
  last_validation (v ∷ u ∷ vs) = last_validation (u ∷ vs)

  unfoldable pub feedback_of : CitationValidationTrace → Run Score CitationValidationFeedback
  feedback_of v =
      if is_valid v.issue
      then stop (failure repair_of_valid)
      else pure (record {
        issue = v.issue;
        unit_count = v.unit_count;
        citation_count = v.citation_count;
        uncited_unit_indices = v.uncited_unit_indices;
        unknown_label_unit_indices = v.unknown_label_unit_indices;
      })

  -- `_repair_citations`
  unfoldable pub repair_citations : State → Run Score State
  repair_citations s = do
    ensure_active
    emit (status repairing)
    let trace = record s.workflow_trace { citation_repair_attempts = 1 }
    record_trace trace
    validation ← last_validation trace.citation_validations
    feedback ← feedback_of validation
    answer ← require s.answer
    selected ← require s.selected_evidence
    made ← ask (λ n. services.repair n question answer (candidates_of [] selected) feedback)
    repaired ← lift made
    pure (record s {
      answer = some (strip repaired);
      claim_support_valid = false;
      repair_attempts = 1;
      workflow_trace = trace;
    })

  -- `_validate_answer_language`
  unfoldable pub validate_answer_language : State → Run Score State
  validate_answer_language s = do
    ensure_active
    answer ← require s.answer
    pure (
        if answer_matches_question_language question answer
        then record s { answer_language_valid = true }
        else refusal_state answer_language_validation_failed s.workflow_trace s)

  -- `_answer`
  unfoldable pub give_answer : State → Run Score State
  give_answer s = do
    ensure_active
    answer ← require s.answer
    cited ← require s.cited_evidence
    emit (answered answer cited)
    pure s

  -- `_refuse`
  unfoldable pub refuse : State → Run Score State
  refuse s = do ensure_active; code ← require s.refusal_code; emit (refused code); pure s
