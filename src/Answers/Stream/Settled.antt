-- ===== src/Answers/Stream/Settled.antt =====
-- `AnswerService._stream` of modules/answers/service.py: what it tells its client, and what it leaves
-- in the tables, whatever the other callers do meanwhile and whenever the client leaves.
use sourcetrace.Prelude.{
  ℕ, zero, suc, ◌+◌, ◌≡◌, ◌⊎◌, refl, sym, ◌∙◌, subst, Bool, true, false, not, ◌||◌, some_of, Option,
  none, some, List, [], ◌∷◌, ◌++◌, map, All, All-append, if◌then◌else◌, Bool-cases, Option-cases,
  inl, inr, Result, ok, err, arith,
}
use mathlib.Core.List.{append_assoc, append-nil}
use sourcetrace.Text.{Text}
use sourcetrace.Retrieval.Evidence.{RetrievedEvidence}
use sourcetrace.Rag.Workflow.State.{WorkflowEvent, RefusalCode}
use sourcetrace.Answers.Records.{
  RunStatus, RunOutcome, AnswerRun, Citation, CitationDraft, Tables, AnswerEvent, StreamStatus,
  refusal_code_of, refusal_message_of, is_active, is_pending, is_running,
}
use sourcetrace.Answers.Repository as Repository
use sourcetrace.Answers.Repository.{
  find_run, update_run, update_tables, has_status, insert_citations, citation_of, citation_clash,
}
use sourcetrace.Answers.Repository.Operations.{Operation, apply_all}
use sourcetrace.Answers.Stream.{
  Ending, finished, unknown_error, task_cancelled, known_error, Stop, closed, unexpected, known,
  World, Job, ◌>>=◌, ◌>>◌, yield, yield_at, citation_draft, is_retrieval, call, cancel_run,
  cancel_event, fail_event, refuse_run, answer_event, answer_run, yield_unless, read_events,
  catch_known, execute_stream, catch_all, stream,
}
use sourcetrace.Answers.Stream.Owned.{
  IsForeign, Stays, KeepsId, find_run-update_run, apply_all-Remains,
}

abbrev pub IsProgress : AnswerEvent → Type 0
IsProgress (AnswerEvent.status s) = Unit
IsProgress (AnswerEvent.delta text) = Unit
IsProgress _ = ⊥

-- The row of the run, and the citations of the table, are what the last event tells.
abbrev pub Tells : {Score : Type 0} → ℕ → AnswerEvent → AnswerRun Score → List Citation → Type 0
Tells run_id (AnswerEvent.final answer drafts) r citations =
    (r.status ≡ RunStatus.completed)
    × (r.outcome ≡ some RunOutcome.answered)
    × (r.answer_text ≡ some answer)
    × ((before : List Citation) × (citations ≡ before ++ map (citation_of run_id) drafts))
Tells run_id (AnswerEvent.refusal code message) r citations =
    (r.status ≡ RunStatus.completed)
    × (r.outcome ≡ some RunOutcome.refused)
    × (r.refusal_code ≡ some code)
    × (r.refusal_message ≡ some message)
Tells run_id (AnswerEvent.error code message) r citations =
    (r.status ≡ RunStatus.failed)
    × (r.failure_code ≡ some code)
    × (r.failure_message ≡ some message)
Tells run_id AnswerEvent.cancelled r citations = r.status ≡ RunStatus.cancelled
Tells run_id _ r citations = ⊥

insert_citations-append :
    (stores : ℕ → Bool) (stored cs : List Citation) (out : List Citation)
    → insert_citations stores stored cs ≡ some out
    → out ≡ stored ++ cs
unfolding insert_citations
insert_citations-append stores stored [] out h = rw append-nil (cc)
insert_citations-append stores stored (c ∷ cs) out h =
    elim (Bool-cases (not (stores c.draft.chunk_id) || some_of (citation_clash c) stored)) [
      | inl clash ↦ cc (rw (clash, insert_citations) at h)
      | inr free ↦
          insert_citations-append stores (stored ++ c ∷ []) cs out
            (rw (free, insert_citations) at h)
          ∙ append_assoc stored (c ∷ []) cs
    ]

module _ {Score : Type 0} (moves : ℕ → List (Operation Score)) (now : ℕ → ℕ)
    (is_stored : ℕ → ℕ → Bool) (uuid5 : ℕ → ℕ → ℕ) (run_id : ℕ) where
  -- The run is in the table, in a row with `P`.
  abbrev pub Has : (AnswerRun Score → Type 0) → World Score → Type 0
  Has P w = (r : AnswerRun Score) × (find_run run_id w.tables.runs ≡ some r) × P r

  -- Progress was sent, and then one last event, which tells what is in the tables.
  abbrev pub IsTold : World Score → Type 0
  IsTold w =
      (front : List AnswerEvent) × (last : AnswerEvent) × (w.sent ≡ front ++ last ∷ [])
      × All IsProgress front
      × Has (λ r. Tells run_id last r w.tables.citations) w

  -- The stream has told how the run ended, or the client is gone and the run has ended.
  abbrev pub IsSettled : Result Stop (Unit {0}) × World Score → Type 0
  IsSettled (ok a, w) = IsTold w
  IsSettled (err closed, w) = Has (λ r. is_active r.status ≡ false) w
  IsSettled (err _, w) = ⊥

  abbrev IsLive : RunStatus → Type 0
  IsLive s = (s ≡ RunStatus.running) ⊎ (s ≡ RunStatus.cancel_requested)

  -- Inside the stream the run may still be live.
  abbrev IsBusy : World Score → Type 0
  IsBusy w = All IsProgress w.sent × Has (λ r. IsLive r.status) w

  abbrev Inner : Result Stop (Unit {0}) × World Score → Type 0
  Inner (ok a, w) = IsTold w
  Inner (err closed, w) = Has (λ r. Unit {0}) w
  Inner (err _, w) = IsBusy w

  module _ (foreign : (n : ℕ) → All (IsForeign run_id) (moves n)) where
    -- A call that updates the run by its key, if the run passes the test.
    call_update :
        {B : Type 0} (Q : Result Stop B × World Score → Type 0) (test : AnswerRun Score → Bool)
        (change : ℕ → AnswerRun Score → AnswerRun Score) (k : Bool → Job Score B) (w : World Score)
        (r : AnswerRun Score)
        → ((n : ℕ) → KeepsId (change n))
        → find_run run_id w.tables.runs ≡ some r
        → ((r' : AnswerRun Score) (w' : World Score)
            → Stays r r'
            → test r' ≡ true
            → find_run run_id w'.tables.runs ≡ some (change w.calls r')
            → w'.sent ≡ w.sent
            → Q (k true w'))
        → ((r' : AnswerRun Score) (w' : World Score)
            → Stays r r'
            → test r' ≡ false
            → find_run run_id w'.tables.runs ≡ some r'
            → w'.sent ≡ w.sent
            → Q (k false w'))
        → Q (
            (call moves now is_stored uuid5 run_id (λ n. update_tables run_id test (change n))
                >>= k)
              w)
    unfolding call
    call_update Q test change k w r keeps found pass rest =
        let (r', found', stays) =
          apply_all-Remains run_id (moves w.calls) w.tables r (foreign w.calls) found in
        let t = apply_all (moves w.calls) w.tables in
        let (after, answer) =
          find_run-update_run run_id test (change w.calls) t.runs r' (keeps w.calls) found' in
        let w' : World Score = record w {
          tables = record t { runs = (update_run run_id test (change w.calls) t.runs).1 };
          calls = w.calls + 1;
        } in
        subst (λ b. Q (k b w')) (sym answer)
          (elim (Bool-cases (test r')) [
            | inl passed ↦ rw passed (pass r' w' stays passed (rw passed at after) refl)
            | inr other ↦ rw other (rest r' w' stays other (rw other at after) refl)
          ])

    Tells-ended :
        (e : AnswerEvent) (r : AnswerRun Score) (citations : List Citation)
        → Tells run_id e r citations
        → is_active r.status ≡ false
    Tells-ended (AnswerEvent.status s) r citations h = absurd h
    Tells-ended (AnswerEvent.delta text) r citations h = absurd h
    Tells-ended (AnswerEvent.final answer drafts) r citations h = rw h.0 refl
    Tells-ended (AnswerEvent.refusal code message) r citations h = rw h.0 refl
    Tells-ended (AnswerEvent.error code message) r citations h = rw h.0 refl
    Tells-ended AnswerEvent.cancelled r citations h = rw h refl

    yield_last :
        (n : ℕ) (e : AnswerEvent) (w : World Score)
        → All IsProgress w.sent
        → Has (λ r. Tells run_id e r w.tables.citations) w
        → IsSettled (yield_at n e w)
    yield_last zero e w progress (r, found, tells) =
        (r, found, Tells-ended e r w.tables.citations tells)
    yield_last (suc n) e w progress has = (w.sent, e, refl, progress, has)

    IsSettled-Inner : (x : Result Stop (Unit {0}) × World Score) → IsSettled x → Inner x
    IsSettled-Inner (ok a, w) h = h
    IsSettled-Inner (err closed, w) (r, found, ended) = (r, found, tt)
    IsSettled-Inner (err unexpected, w) h = absurd h
    IsSettled-Inner (err (known code message), w) h = absurd h

    yield_progress :
        (n : ℕ) (e : AnswerEvent) (k : Unit {0} → Job Score (Unit {0})) (w : World Score)
        → IsProgress e
        → IsBusy w
        → ((w' : World Score) → IsBusy w' → Inner (k tt w'))
        → Inner ((yield_at n e >>= k) w)
    yield_progress zero e k w progress (sent, (r, found, live)) rest = (r, found, tt)
    yield_progress (suc n) e k w progress (sent, has) rest =
        rest (record w { sent = w.sent ++ e ∷ []; patience = n })
          (All-append IsProgress w.sent (e ∷ []) sent (progress, tt), has)

    Stays-is_active :
        {r r' : AnswerRun Score}
        → Stays r r'
        → is_active r.status ≡ true
        → is_active r'.status ≡ true
    Stays-is_active {r} {r'} s h = ground (arith, s.waiting, s.live, s.requested)

    Stays-IsLive : {r r' : AnswerRun Score} → Stays r r' → IsLive r.status → IsLive r'.status
    Stays-IsLive {r} {r'} s h = ground (arith, s.live, s.requested)

    Live-is_active : (s : RunStatus) → IsLive s → is_active s ≡ true
    Live-is_active s h = ground arith

    ended_active : (s : RunStatus) → is_active s ≡ false → is_active s ≡ true → ⊥
    ended_active s h k = cc

    cancel_event-IsSettled :
        (w : World Score) (r : AnswerRun Score)
        → All IsProgress w.sent
        → find_run run_id w.tables.runs ≡ some r
        → is_active r.status ≡ true
        → IsSettled (cancel_event moves now is_stored uuid5 run_id w)
    unfolding cancel_event yield Repository.cancel
    cancel_event-IsSettled w r progress found active =
        call_update IsSettled (has_status is_active)
          (λ n r. record r { status = RunStatus.cancelled; completed_at = some (now n) })
          (λ _. yield AnswerEvent.cancelled) w r (λ n q. refl) found
          (λ r' w' stays passed found' sent.
            yield_last w'.patience AnswerEvent.cancelled w' (rw sent progress) (_, found', refl))
          (λ r' w' stays other found' sent.
            absurd (ended_active r'.status other (Stays-is_active stays active)))

    fail_event-IsSettled :
        (code message : Text) (w : World Score)
        → IsBusy w
        → IsSettled (fail_event moves now is_stored uuid5 run_id code message w)
    unfolding fail_event yield Repository.fail
    fail_event-IsSettled code message w (progress, (r, found, live)) =
        call_update IsSettled (has_status is_running)
          (λ n r. record r {
            status = RunStatus.failed;
            failure_code = some code;
            failure_message = some message;
            completed_at = some (now n);
          })
          (λ failed.
            if failed
            then yield (AnswerEvent.error code message)
            else cancel_event moves now is_stored uuid5 run_id)
          w r (λ n q. refl) found
          (λ r' w' stays running found' sent.
            yield_last w'.patience (AnswerEvent.error code message) w' (rw sent progress)
              (_, found', (refl, refl, refl)))
          (λ r' w' stays other found' sent.
            cancel_event-IsSettled w' r' (rw sent progress) found'
              (Live-is_active r'.status (Stays-IsLive stays live)))

    refuse_run-IsSettled :
        (code : RefusalCode) (w : World Score)
        → IsBusy w
        → IsSettled (refuse_run moves now is_stored uuid5 run_id code w)
    unfolding refuse_run yield Repository.complete_refusal
    refuse_run-IsSettled code w (progress, (r, found, live)) =
        call_update IsSettled (has_status is_running)
          (λ n r. record r {
            status = RunStatus.completed;
            outcome = some RunOutcome.refused;
            refusal_code = some (refusal_code_of code);
            refusal_message = some (refusal_message_of code);
            completed_at = some (now n);
          })
          (λ done.
            if done
            then yield (AnswerEvent.refusal (refusal_code_of code) (refusal_message_of code))
            else cancel_event moves now is_stored uuid5 run_id)
          w r (λ n q. refl) found
          (λ r' w' stays running found' sent.
            yield_last w'.patience _ w' (rw sent progress) (_, found', (refl, refl, refl, refl)))
          (λ r' w' stays other found' sent.
            cancel_event-IsSettled w' r' (rw sent progress) found'
              (Live-is_active r'.status (Stays-IsLive stays live)))

    -- The answers of `complete_answer` at the row of the run.
    abbrev Completes :
        Text
        → List CitationDraft
        → ℕ
        → AnswerRun Score
        → Tables Score
        → Option Bool × Tables Score
        → Type 0
    Completes answer drafts time r t (none, t') = t' ≡ t
    Completes answer drafts time r t (some false, t') = t' ≡ t
    Completes answer drafts time r t (some true, t') =
        (find_run run_id t'.runs ≡ some (Repository.answer_run answer time r))
        × (t'.citations ≡ t.citations ++ map (citation_of run_id) drafts)

    complete_answer-Completes :
        (stores : ℕ → Bool) (answer : Text) (drafts : List CitationDraft) (time : ℕ)
        (t : Tables Score) (r : AnswerRun Score)
        → find_run run_id t.runs ≡ some r
        → Completes answer drafts time r t
            (Repository.complete_answer stores run_id answer drafts time t)
    unfolding Repository.complete_answer
    complete_answer-Completes stores answer drafts time t r found =
        let change = Repository.answer_run answer time in
        let updated = update_run run_id (has_status is_running) change t.runs in
        elim (Bool-cases updated.0) [
          | inl running ↦
              elim (Option-cases
                (insert_citations stores t.citations (map (citation_of run_id) drafts))) [
                  | inl refused ↦ rw (running, refused) refl
                  | inr (stored, done) ↦
                      let (after, answer) =
                        find_run-update_run run_id (has_status is_running) change t.runs r
                          (λ q. refl) found in
                      rw (running, done)
                        (
                          rw (sym answer ∙ running) at after,
                          insert_citations-append stores t.citations _ stored done,
                        )
                ]
          | inr ended ↦ rw ended refl
        ]

    answer_event-Inner :
        (answer : Text) (drafts : List CitationDraft) (time : ℕ) (t : Tables Score)
        (r : AnswerRun Score) (x : Option Bool × Tables Score) (w : World Score)
        → find_run run_id t.runs ≡ some r
        → IsLive r.status
        → All IsProgress w.sent
        → Completes answer drafts time r t x
        → Inner (
            answer_event moves now is_stored uuid5 run_id answer drafts x.0
              (record w { tables = x.1 }))
    unfolding yield
    answer_event-Inner answer drafts time t r (none, t') w found live progress same =
        (progress, (r, rw same found, live))
    answer_event-Inner answer drafts time t r (some false, t') w found live progress same =
        IsSettled-Inner _ (
          cancel_event-IsSettled (record w { tables = t' }) r progress (rw same found)
            (Live-is_active r.status live))
    answer_event-Inner answer drafts time t r (some true, t') w found live progress
          (after, stored) =
        IsSettled-Inner _ (
          yield_last w.patience (AnswerEvent.final answer drafts) (record w { tables = t' })
            progress (_, after, (refl, refl, refl, (t.citations, stored))))

    answer_run-Inner :
        (answer : Text) (evidence : List (RetrievedEvidence Score)) (w : World Score)
        → IsBusy w
        → Inner (answer_run moves now is_stored uuid5 run_id answer evidence w)
    unfolding answer_run call
    answer_run-Inner answer evidence w (progress, (r, found, live)) =
        let (r', found', stays) =
          apply_all-Remains run_id (moves w.calls) w.tables r (foreign w.calls) found in
        let t = apply_all (moves w.calls) w.tables in
        let drafts = map (citation_draft uuid5 run_id) evidence in
        answer_event-Inner answer drafts (now w.calls) t r'
          (Repository.complete_answer (is_stored w.calls) run_id answer drafts (now w.calls) t)
          (record w { calls = w.calls + 1 }) found' (Stays-IsLive stays live) progress
          (complete_answer-Completes (is_stored w.calls) answer drafts (now w.calls) t r' found')

    yield_unless-Inner :
        (emitted : Bool) (s : StreamStatus) (k : Job Score (Unit {0})) (w : World Score)
        → IsBusy w
        → ((w' : World Score) → IsBusy w' → Inner (k w'))
        → Inner ((yield_unless moves now is_stored uuid5 run_id emitted s >> k) w)
    unfolding yield
    yield_unless-Inner true s k w busy rest = rest w busy
    yield_unless-Inner false s k w busy rest =
        yield_progress w.patience (AnswerEvent.status s) (λ _. k) w tt busy rest

    read_events-Inner :
        (has_retrieving has_generating : Bool) (events : List (WorkflowEvent Score))
        (ending : Ending) (w : World Score)
        → IsBusy w
        → Inner (
            read_events moves now is_stored uuid5 run_id has_retrieving has_generating events ending
              w)
    unfolding read_events yield
    read_events-Inner has_retrieving has_generating [] finished w busy = busy
    read_events-Inner has_retrieving has_generating [] unknown_error w busy = busy
    read_events-Inner has_retrieving has_generating [] task_cancelled w
          (progress, (r, found, live)) =
        (r, found, tt)
    read_events-Inner has_retrieving has_generating [] (known_error code message) w busy = busy
    read_events-Inner has_retrieving has_generating (WorkflowEvent.status stage ∷ events) ending w
          busy =
        elim (Bool-cases (is_retrieval stage)) [
          | inl retrieval ↦ rw retrieval (
              yield_unless-Inner has_retrieving StreamStatus.retrieving _ w busy
                (read_events-Inner true has_generating events ending))
          | inr generation ↦ rw generation (
              yield_unless-Inner has_generating StreamStatus.generating _ w busy
                (read_events-Inner has_retrieving true events ending))
        ]
    read_events-Inner has_retrieving has_generating (WorkflowEvent.delta text ∷ events) ending w
          busy =
        yield_progress w.patience (AnswerEvent.delta text) _ w tt busy
          (read_events-Inner has_retrieving has_generating events ending)
    read_events-Inner has_retrieving has_generating (WorkflowEvent.cancelled ∷ events) ending w
          (progress, (r, found, live)) =
        IsSettled-Inner _ (cancel_event-IsSettled w r progress found (Live-is_active r.status live))
    read_events-Inner has_retrieving has_generating (WorkflowEvent.refused code ∷ events) ending w
          busy =
        IsSettled-Inner _ (refuse_run-IsSettled code w busy)
    read_events-Inner has_retrieving has_generating
          (WorkflowEvent.answered answer evidence ∷ events) ending w busy =
        answer_run-Inner answer evidence w busy

    catch_known-Inner :
        (x : Result Stop (Unit {0}) × World Score)
        → Inner x
        → Inner (catch_known moves now is_stored uuid5 run_id x)
    unfolding catch_known
    catch_known-Inner (ok a, w) h = h
    catch_known-Inner (err closed, w) h = h
    catch_known-Inner (err unexpected, w) h = h
    catch_known-Inner (err (known code message), w) h =
        IsSettled-Inner _ (fail_event-IsSettled code message w h)

    execute_stream-Inner :
        (events : List (WorkflowEvent Score)) (ending : Ending) (w : World Score)
        (r : AnswerRun Score)
        → All IsProgress w.sent
        → find_run run_id w.tables.runs ≡ some r
        → r.status ≡ RunStatus.pending
        → Inner (execute_stream moves now is_stored uuid5 run_id events ending w)
    unfolding execute_stream Repository.mark_running
    execute_stream-Inner events ending w r progress found waiting =
        call_update Inner (has_status is_pending) (λ n q. record q { status = RunStatus.running })
          (λ marked.
            if marked
            then (λ v.
                catch_known moves now is_stored uuid5 run_id
                  (read_events moves now is_stored uuid5 run_id false false events ending v))
            else cancel_event moves now is_stored uuid5 run_id)
          w r (λ n q. refl) found
          (λ r' w' stays pending found' sent. catch_known-Inner _ (
            read_events-Inner false false events ending w'
              (rw sent progress, (_, found', inl refl))))
          (λ r' w' stays other found' sent. IsSettled-Inner _ (
            cancel_event-IsSettled w' r' (rw sent progress) found'
              (Stays-is_active stays (rw waiting refl))))

    -- A closed stream cancels its run, which changes nothing if the run has ended.
    close-IsSettled :
        (w : World Score)
        → Has (λ r. Unit {0}) w
        → IsSettled ((cancel_run moves now is_stored uuid5 run_id >> λ v. (err closed, v)) w)
    unfolding Repository.cancel
    close-IsSettled w (r, found, any) =
        call_update IsSettled (has_status is_active)
          (λ n q. record q { status = RunStatus.cancelled; completed_at = some (now n) })
          (λ _ v. (err closed, v)) w r (λ n q. refl) found
          (λ r' w' stays active found' sent. (_, found', refl))
          (λ r' w' stays ended found' sent. (_, found', ended))

    catch_all-IsSettled :
        (x : Result Stop (Unit {0}) × World Score)
        → Inner x
        → IsSettled (catch_all moves now is_stored uuid5 run_id x)
    unfolding catch_all
    catch_all-IsSettled (ok a, w) h = h
    catch_all-IsSettled (err closed, w) h = close-IsSettled w h
    catch_all-IsSettled (err unexpected, w) h = fail_event-IsSettled _ _ w h
    catch_all-IsSettled (err (known code message), w) h = fail_event-IsSettled _ _ w h

    -- When a stream starts at a waiting run, and the other callers of the repository do not start
    -- or end this run, whatever else they do between its calls, whatever the workflow reports,
    -- however it ends, and whenever the client leaves, the stream raises no error. Either it has
    -- sent progress and then one last event, and the row of the run is what that event tells: an
    -- answer is stored as its text, with its citations at the end of their table, a refusal and a
    -- failure with their code and message, and a cancelled run is cancelled; or the client is gone,
    -- and the run is no longer active.
    pub stream-IsSettled :
        (events : List (WorkflowEvent Score)) (ending : Ending) (w : World Score)
        (r : AnswerRun Score)
        → w.sent ≡ []
        → find_run run_id w.tables.runs ≡ some r
        → r.status ≡ RunStatus.pending
        → IsSettled (stream moves now is_stored uuid5 run_id events ending w)
    unfolding stream
    stream-IsSettled events ending w r fresh found waiting =
        catch_all-IsSettled _ (execute_stream-Inner events ending w r (rw fresh tt) found waiting)
