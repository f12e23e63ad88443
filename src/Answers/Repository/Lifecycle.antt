-- ===== src/Answers/Repository/Lifecycle.antt =====
-- What the operations of `AnswerRepository` do to a run: the life of its status.
use sourcetrace.Prelude.{
  ℕ, ◌≡◌, ◌↔◌, ◌⊎◌, refl, sym, ◌∙◌, subst, Bool, true, false, Option, none, some, List, [], ◌∷◌,
  ◌++◌, map, ◌==◌, nat_eq, All, Bool-cases, inl, inr, arith,
}
use sourcetrace.Text.{Text}
use sourcetrace.Answers.Records.{
  RunStatus, RunOutcome, AnswerRun, is_active, is_pending, is_running,
}
use sourcetrace.Answers.Repository.{update_run, has_status}

-- The life of a run.
infix 40 ◌⟶◌ ◌⟶*◌
pub data ◌⟶◌ : RunStatus → RunStatus → Type 0 where
  start : RunStatus.pending ⟶ RunStatus.running
  request :
      {s : RunStatus}
      → (s ≡ RunStatus.pending) ⊎ (s ≡ RunStatus.running)
      → s ⟶ RunStatus.cancel_requested
  stop : {s : RunStatus} → is_active s ≡ true → s ⟶ RunStatus.cancelled
  recover : {s : RunStatus} → is_active s ≡ true → s ⟶ RunStatus.failed
  complete : RunStatus.running ⟶ RunStatus.completed
  give_up : RunStatus.running ⟶ RunStatus.failed

pub data ◌⟶*◌ : RunStatus → RunStatus → Type 0 where
  here : {s : RunStatus} → s ⟶* s
  next : {s t u : RunStatus} → s ⟶ t → t ⟶* u → s ⟶* u

pub ⟶*-trans : {s t u : RunStatus} → s ⟶* t → t ⟶* u → s ⟶* u
⟶*-trans here q = q
⟶*-trans (next e p) q = next e (⟶*-trans p q)

abbrev pub IsNone {ℓ} : {A : Type ℓ} → Option A → Type 0
IsNone none = Unit
IsNone (some a) = ⊥

abbrev pub IsSome {ℓ} : {A : Type ℓ} → Option A → Type 0
IsSome none = ⊥
IsSome (some a) = Unit

-- The constraint `answer_run_terminal_state_consistent`.
abbrev pub FitsStatus : RunStatus → Option RunOutcome → Option Text → Option ℕ → Type 0
FitsStatus RunStatus.completed outcome failure_code completed_at =
    IsSome outcome × IsSome completed_at
FitsStatus RunStatus.failed outcome failure_code completed_at =
    IsNone outcome × IsSome failure_code × IsSome completed_at
FitsStatus RunStatus.cancelled outcome failure_code completed_at =
    IsNone outcome × IsSome completed_at
FitsStatus _ outcome failure_code completed_at = IsNone outcome × IsNone completed_at

pub active_consistent :
    (s : RunStatus) (outcome : Option RunOutcome) (failure_code : Option Text)
    (completed_at : Option ℕ)
    → is_active s ≡ true
    → (FitsStatus s outcome failure_code completed_at ↔ (IsNone outcome × IsNone completed_at))
active_consistent RunStatus.pending outcome failure_code completed_at h = (λ x. x, λ x. x)
active_consistent RunStatus.running outcome failure_code completed_at h = (λ x. x, λ x. x)
active_consistent RunStatus.cancel_requested outcome failure_code completed_at h = (λ x. x, λ x. x)
active_consistent RunStatus.cancelled outcome failure_code completed_at h = cc
active_consistent RunStatus.completed outcome failure_code completed_at h = cc
active_consistent RunStatus.failed outcome failure_code completed_at h = cc

pub active_of_pending :
    (s : RunStatus) → is_pending s ≡ true → (s ≡ RunStatus.pending) × (is_active s ≡ true)
active_of_pending s h = ground arith

pub active_of_running :
    (s : RunStatus) → is_running s ≡ true → (s ≡ RunStatus.running) × (is_active s ≡ true)
active_of_running s h = ground arith

pub from_running :
    {t : RunStatus} (s : RunStatus) → is_running s ≡ true → RunStatus.running ⟶ t → s ⟶* t
from_running {t} s h e = subst (λ x. x ⟶* t) (sym (active_of_running s h).0) (next e here)

module _ {Score : Type 0} where
  abbrev pub IsConsistent : AnswerRun Score → Type 0
  IsConsistent r = FitsStatus r.status r.outcome r.failure_code r.completed_at

  -- `r'` is a later state of the run `r`.
  pub record Follows (r r' : AnswerRun Score) : Type 0 where
    pub same_id : r'.id ≡ r.id
    pub same_conversation : r'.conversation_id ≡ r.conversation_id
    pub path : r.status ⟶* r'.status
    pub absorbed : is_active r.status ≡ false → r' ≡ r
    pub consistent : IsConsistent r → IsConsistent r'

  pub Follows-refl : (r : AnswerRun Score) → Follows r r
  Follows-refl r = record {
    same_id = refl;
    same_conversation = refl;
    path = here;
    absorbed = λ h. refl;
    consistent = λ h. h;
  }

  pub Follows-trans : {r r' r'' : AnswerRun Score} → Follows r r' → Follows r' r'' → Follows r r''
  Follows-trans {r} {r'} {r''} p q = record {
    same_id = q.same_id ∙ p.same_id;
    same_conversation = q.same_conversation ∙ p.same_conversation;
    path = ⟶*-trans p.path q.path;
    absorbed = λ h.
        q.absorbed (subst (λ x. is_active x.status ≡ false) (sym (p.absorbed h)) h) ∙ p.absorbed h;
    consistent = λ h. q.consistent (p.consistent h);
  }

  -- The runs of the table, later: the old ones in their places, and new ones after them.
  abbrev pub Evolves : List (AnswerRun Score) → List (AnswerRun Score) → Type 0
  Evolves [] rs' = All (λ r'. (RunStatus.pending ⟶* r'.status) × IsConsistent r') rs'
  Evolves (r ∷ rs) [] = ⊥
  Evolves (r ∷ rs) (r' ∷ rs') = Follows r r' × Evolves rs rs'

  -- An active run has no outcome and no end.
  abbrev pub IsOpen : AnswerRun Score → Type 0
  IsOpen r = IsNone r.outcome × IsNone r.completed_at

  pub active_Follows :
      (r r' : AnswerRun Score)
      → r'.id ≡ r.id
      → r'.conversation_id ≡ r.conversation_id
      → is_active r.status ≡ true
      → r.status ⟶* r'.status
      → (IsOpen r → IsConsistent r')
      → Follows r r'
  active_Follows r r' same_id same_conversation active path consistent = record {
    same_id = same_id;
    same_conversation = same_conversation;
    path = path;
    absorbed = λ h. cc;
    consistent = λ h.
        consistent
          ((active_consistent r.status r.outcome r.failure_code r.completed_at active).0 h);
  }

  -- An update is a step of the runs that it changes.
  abbrev pub Changes : (AnswerRun Score → Bool) → (AnswerRun Score → AnswerRun Score) → Type 0
  Changes test change = (r : AnswerRun Score) → test r ≡ true → Follows r (change r)

  pub Evolves-refl : (rs : List (AnswerRun Score)) → Evolves rs rs
  Evolves-refl [] = tt
  Evolves-refl (r ∷ rs) = (Follows-refl r, Evolves-refl rs)

  -- The same runs, later, and no new ones.
  abbrev pub Pointwise : List (AnswerRun Score) → List (AnswerRun Score) → Type 0
  Pointwise [] [] = Unit
  Pointwise (r ∷ rs) (r' ∷ rs') = Follows r r' × Pointwise rs rs'
  Pointwise _ _ = ⊥

  pub Pointwise-refl : (rs : List (AnswerRun Score)) → Pointwise rs rs
  Pointwise-refl [] = tt
  Pointwise-refl (r ∷ rs) = (Follows-refl r, Pointwise-refl rs)

  pub Pointwise-Evolves : (rs rs' : List (AnswerRun Score)) → Pointwise rs rs' → Evolves rs rs'
  Pointwise-Evolves [] [] h = tt
  Pointwise-Evolves [] (r' ∷ rs') h = absurd h
  Pointwise-Evolves (r ∷ rs) [] h = absurd h
  Pointwise-Evolves (r ∷ rs) (r' ∷ rs') h = (h.0, Pointwise-Evolves rs rs' h.1)

  pub update_run-Pointwise :
      (run_id : ℕ) (test : AnswerRun Score → Bool) (change : AnswerRun Score → AnswerRun Score)
      (rs : List (AnswerRun Score))
      → Changes test change
      → Pointwise rs (update_run run_id test change rs).1
  unfolding update_run
  update_run-Pointwise run_id test change [] step = tt
  update_run-Pointwise run_id test change (r ∷ rs) step = elim (Bool-cases (r.id == run_id)) [
    | inl own ↦ elim (Bool-cases (test r)) [
      | inl open_run ↦ rw (own, open_run) (step r open_run, Pointwise-refl rs)
      | inr other ↦ rw (own, other) (Follows-refl r, Pointwise-refl rs)
    ]
    | inr other ↦ rw other (Follows-refl r, update_run-Pointwise run_id test change rs step)
  ]

  pub mark_running-Changes :
      Changes (has_status is_pending) (λ r. record r { status = RunStatus.running })
  mark_running-Changes r h =
      active_Follows r (record r { status = RunStatus.running }) refl refl
        (active_of_pending r.status h).1
        (subst (λ x. x ⟶* RunStatus.running) (sym (active_of_pending r.status h).0)
          (next start here))
        (λ o. o)

  pub ended_Changes :
      (change : AnswerRun Score → AnswerRun Score) {t : RunStatus}
      → ((r : AnswerRun Score)
          → ((change r).id ≡ r.id)
            × ((change r).conversation_id ≡ r.conversation_id)
            × ((change r).status ≡ t))
      → RunStatus.running ⟶ t
      → ((r : AnswerRun Score) → IsOpen r → IsConsistent (change r))
      → Changes (has_status is_running) change
  ended_Changes change {t} keeps e consistent r h =
      active_Follows r (change r) (keeps r).0 (keeps r).1 (active_of_running r.status h).1
        (subst (λ x. r.status ⟶* x) (sym (keeps r).2) (from_running r.status h e)) (consistent r)

  pub Evolves-append :
      (rs new : List (AnswerRun Score))
      → All (λ r'. (RunStatus.pending ⟶* r'.status) × IsConsistent r') new
      → Evolves rs (rs ++ new)
  Evolves-append [] new h = h
  Evolves-append (r ∷ rs) new h = (Follows-refl r, Evolves-append rs new h)

  pub Pointwise-map :
      (change : AnswerRun Score → AnswerRun Score) (rs : List (AnswerRun Score))
      → ((r : AnswerRun Score) → Follows r (change r))
      → Pointwise rs (map change rs)
  Pointwise-map change [] step = tt
  Pointwise-map change (r ∷ rs) step = (step r, Pointwise-map change rs step)

  new_Evolves :
      (rs rs' : List (AnswerRun Score))
      → All (λ r. (RunStatus.pending ⟶* r.status) × IsConsistent r) rs
      → Evolves rs rs'
      → All (λ r. (RunStatus.pending ⟶* r.status) × IsConsistent r) rs'
  new_Evolves [] rs' h e = e
  new_Evolves (r ∷ rs) [] h e = absurd e
  new_Evolves (r ∷ rs) (r' ∷ rs') h e =
      ((⟶*-trans h.0.0 e.0.path, e.0.consistent h.0.1), new_Evolves rs rs' h.1 e.1)

  pub Evolves-trans :
      (rs rs' rs'' : List (AnswerRun Score)) → Evolves rs rs' → Evolves rs' rs'' → Evolves rs rs''
  Evolves-trans [] rs' rs'' p q = new_Evolves rs' rs'' p q
  Evolves-trans (r ∷ rs) [] rs'' p q = absurd p
  Evolves-trans (r ∷ rs) (r' ∷ rs') [] p q = absurd q
  Evolves-trans (r ∷ rs) (r' ∷ rs') (r'' ∷ rs'') p q =
      (Follows-trans p.0 q.0, Evolves-trans rs rs' rs'' p.1 q.1)
