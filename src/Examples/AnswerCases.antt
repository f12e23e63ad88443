-- ===== src/Examples/AnswerCases.antt =====
-- The theorems on answer runs at test data.
use sourcetrace.Prelude.{
  ℕ, ◌+◌, All, Bool-cases, inl, inr, ◌≡◌, refl, Bool, true, some, List, [], ◌∷◌, nat_eq, leb,
  if◌then◌else◌,
}
use sourcetrace.Text.{codes}
use sourcetrace.Rag.Workflow.State.{WorkflowEvent, Stage}
use sourcetrace.Answers.Records.{AnswerExecutionMetadata, Question, Tables}
use sourcetrace.Answers.Repository.{new_run, find_run}
use sourcetrace.Answers.Repository.Operations.{Operation, apply_all, apply_all-Evolves}
use sourcetrace.Answers.Repository.Lifecycle.{Evolves}
use sourcetrace.Answers.Repository.Sound.{IsSound, apply_all-IsSound}
use sourcetrace.Answers.Stream.{World, Ending, stream}
use sourcetrace.Answers.Stream.Owned.{IsForeign}
use sourcetrace.Answers.Stream.Settled.{IsSettled, stream-IsSettled}
use sourcetrace.Examples.Values.{pump}

abbrev metadata : AnswerExecutionMetadata
metadata = record {
  llm_provider = codes "p";
  llm_model = codes "m";
  prompt_version = codes "1";
  retrieval_version = codes "1";
  query_rewrite_version = codes "1";
  evidence_assessment_prompt_version = codes "1";
  citation_repair_prompt_version = codes "1";
  workflow_version = codes "1";
  provider_connect_timeout_seconds = 5;
  provider_read_timeout_seconds = 5;
  provider_request_timeout_seconds = 5;
  provider_operation_deadline_seconds = 60;
}

abbrev question : Question
question = record {
  id = 3;
  conversation_id = 2;
  knowledge_base_id = 1;
  content = codes "How fast is the pump?";
  created_at = 9;
}

abbrev waiting_tables : Tables ℕ
waiting_tables = record { runs = new_run 7 10 question metadata ∷ []; citations = [] }

abbrev operations : List (Operation ℕ)
operations =
    Operation.mark_running 7
    ∷ Operation.create 8 11 question metadata
    ∷ Operation.request_cancel 1 2 7
    ∷ Operation.complete_refusal 7 (codes "C") (codes "m") 12
    ∷ Operation.cancel 7 13
    ∷ Operation.create 9 14 question metadata
    ∷ []

apply_all-Evolves_example : Evolves waiting_tables.runs (apply_all operations waiting_tables).runs
apply_all-Evolves_example = apply_all-Evolves operations waiting_tables

apply_all-IsSound_example : IsSound (apply_all operations waiting_tables)
apply_all-IsSound_example =
    apply_all-IsSound operations waiting_tables
      (record { consistent = ((tt, tt), tt); distinct = (refl, tt); exclusive = ((λ h. refl), tt) })

-- Someone asks for the cancellation before every call from the second on.
abbrev late_cancel : ℕ → List (Operation ℕ)
late_cancel n = if leb 1 n then Operation.request_cancel 1 2 7 ∷ [] else []

abbrev clock : ℕ → ℕ
clock n = 20 + n

abbrev all_stored : ℕ → ℕ → Bool
all_stored n chunk_id = true

abbrev sum_id : ℕ → ℕ → ℕ
sum_id a b = a + b

abbrev events : List (WorkflowEvent ℕ)
events =
    WorkflowEvent.status Stage.analyzing
    ∷ WorkflowEvent.status Stage.generating
    ∷ WorkflowEvent.delta (codes "4")
    ∷ WorkflowEvent.answered (codes "40 bar [S1].") (pump ∷ [])
    ∷ []

abbrev waiting_world : World ℕ
waiting_world = record { tables = waiting_tables; calls = 0; sent = []; patience = 9 }

find_waiting : find_run 7 waiting_tables.runs ≡ some (new_run 7 10 question metadata)
unfolding find_run
find_waiting = refl

late_cancel-IsForeign : (n : ℕ) → All (IsForeign 7) (late_cancel n)
late_cancel-IsForeign n = elim (Bool-cases (leb 1 n)) [
  | inl late ↦ rw late (tt, tt)
  | inr first ↦ rw first tt
]

stream-IsSettled_example :
    IsSettled late_cancel clock all_stored sum_id 7
      (stream late_cancel clock all_stored sum_id 7 events Ending.finished waiting_world)
stream-IsSettled_example =
    stream-IsSettled late_cancel clock all_stored sum_id 7 late_cancel-IsForeign events
      Ending.finished waiting_world (new_run 7 10 question metadata) refl find_waiting refl
