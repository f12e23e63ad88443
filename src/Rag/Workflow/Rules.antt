-- ===== src/Rag/Workflow/Rules.antt =====
-- The rules of the monad of rag/workflow.py: what holds after a piece of a node when the calls of the
-- providers may raise and the run may be cancelled at every check.
use sourcetrace.Prelude.{
  ℕ, ◌≡◌, refl, sym, subst, Bool, true, false, Option, none, some, List, [], ◌∷◌, ◌++◌, All,
  All-append, Result, ok, err,
}
use sourcetrace.Rag.Workflow.Traces.{WorkflowTrace}
use sourcetrace.Rag.Workflow.State.{
  status, delta, Failure, provider_error, Stop, cancellation, failure, WorkflowEvent, Run, World,
  pure, stop, go_on, ◌>>=◌, ◌>>◌, ask, emit, require, lift, cancel_unless, keep_trace,
}

-- A key that the state has.
unfoldable pub IsSome : {A : Type 0} → (A → Type 0) → Option A → Type 0
IsSome P none = ⊥
IsSome P (some a) = P a

module _ {Score : Type 0} where
  -- An event that does not end a run.
  abbrev pub IsProgress : WorkflowEvent Score → Type 0
  IsProgress (status stage) = Unit
  IsProgress (delta text) = Unit
  IsProgress _ = ⊥

  abbrev pub Quiet : World Score → Type 0
  Quiet w = All IsProgress w.events

  -- Progress, and then one event that the run ends with.
  pub data Closed (Good : WorkflowEvent Score → Type 0) : List (WorkflowEvent Score) → Type 0 where
    closed_by :
        (front : List (WorkflowEvent Score)) (last : WorkflowEvent Score)
        → All IsProgress front
        → Good last
        → Closed Good (front ++ last ∷ [])

  -- The world and the result have their properties, or an error from outside has left progress only.
  abbrev pub After :
      (World Score → Type 0) → {A : Type 0} → (A → Type 0) → Result Stop A × World Score → Type 0
  After W P (ok a, w) = W w × P a
  After W P (err cancellation, w) = Quiet w
  After W P (err (failure provider_error), w) = Quiet w
  After W P (err (failure _), w) = ⊥

  pub record Leaves {A : Type 0} (W : World Score → Type 0) (m : Run Score A) (P : A → Type 0)
      : Type 0 where
    pub holds : (w : World Score) → Quiet w → After W P (m w)

  abbrev pub Does : {A : Type 0} → Run Score A → (A → Type 0) → Type 0
  Does = Leaves Quiet

  pub does_pure : {A : Type 0} {P : A → Type 0} (a : A) → P a → Does (pure a) P
  does_pure a h = record { holds = λ w quiet. (quiet, h) }

  After-go_on :
      {A B : Type 0} (W : World Score → Type 0) (P : A → Type 0) (Q : B → Type 0)
      (k : A → Run Score B) (x : Result Stop A × World Score)
      → ((a : A) → P a → Leaves W (k a) Q)
      → After Quiet P x
      → After W Q (go_on x.0 k x.1)
  After-go_on W P Q k (ok a, w) next (quiet, h) = (next a h).holds w quiet
  After-go_on W P Q k (err cancellation, w) next h = h
  After-go_on W P Q k (err (failure provider_error), w) next h = h
  After-go_on W P Q k (err (failure Failure.key_error), w) next h = h
  After-go_on W P Q k (err (failure Failure.index_error), w) next h = h
  After-go_on W P Q k (err (failure Failure.repair_of_valid), w) next h = h
  After-go_on W P Q k (err (failure Failure.recursion_limit), w) next h = h

  pub does_bind :
      {A B : Type 0} {W : World Score → Type 0} {P : A → Type 0} {Q : B → Type 0} {m : Run Score A}
      {k : A → Run Score B}
      → Does m P
      → ((a : A) → P a → Leaves W (k a) Q)
      → Leaves W (m >>= k) Q
  unfolding ◌>>=◌
  does_bind {W} {P} {Q} {m} {k} first next = record {
    holds = λ w quiet. After-go_on W P Q k (m w) next (first.holds w quiet);
  }

  pub does_ask_for :
      {A : Type 0} (P : A → Type 0) (f : ℕ → A) → ((n : ℕ) → P (f n)) → Does (ask f) P
  unfolding ask
  does_ask_for P f h = record { holds = λ w quiet. (quiet, h w.calls) }

  pub does_ask : {A : Type 0} (f : ℕ → A) → Does (ask f) (λ _. Unit {0})
  does_ask f = does_ask_for (λ _. Unit {0}) f (λ n. tt)

  pub does_emit : (e : WorkflowEvent Score) → IsProgress e → Does (emit e) (λ _. Unit {0})
  unfolding emit
  does_emit e h = record {
    holds = λ w quiet. (All-append IsProgress w.events (e ∷ []) quiet (h, tt), tt);
  }

  pub does_keep_trace : (trace : WorkflowTrace Score) → Does (keep_trace trace) (λ _. Unit {0})
  unfolding keep_trace
  does_keep_trace trace = record { holds = λ w quiet. (quiet, tt) }

  pub does_cancel_unless : (b : Bool) → Does (cancel_unless b) (λ _. Unit {0})
  does_cancel_unless true = record { holds = λ w quiet. (quiet, tt) }
  does_cancel_unless false = record { holds = λ w quiet. quiet }

  pub does_require : {A : Type 0} {P : A → Type 0} (o : Option A) → IsSome P o → Does (require o) P
  unfolding IsSome
  does_require none h = absurd h
  does_require (some a) h = does_pure a h

  -- The value that was read is the one that the state holds.
  pub does_require_at :
      {A : Type 0} {P : A → Type 0} (o : Option A)
      → IsSome P o
      → Does (require o) (λ a. (o ≡ some a) × P a)
  unfolding IsSome
  does_require_at none h = absurd h
  does_require_at (some a) h = does_pure a (refl, h)

  pub does_require_eq :
      {A : Type 0} (o : Option A) (a : A) → o ≡ some a → Does (require o) (λ b. b ≡ a)
  does_require_eq none a h = cc
  does_require_eq (some b) a h = does_pure b cc

  pub does_lift : {A : Type 0} (o : Option A) → Does (lift o) (λ _. Unit {0})
  does_lift none = record { holds = λ w quiet. quiet }
  does_lift (some a) = record { holds = λ w quiet. (quiet, tt) }

  pub does_stop_provider :
      {A : Type 0} {P : A → Type 0} → Does {A = A} (stop (failure provider_error)) P
  does_stop_provider = record { holds = λ w quiet. quiet }

  -- The last event, after which nothing is left to do.
  pub does_close :
      (Good : WorkflowEvent Score → Type 0) {A : Type 0} {P : A → Type 0} (e : WorkflowEvent Score)
      (a : A)
      → Good e
      → P a
      → Leaves (λ w. Closed Good w.events) (emit e >> pure a) P
  unfolding ◌>>=◌ emit
  does_close Good e a good h = record { holds = λ w quiet. (closed_by w.events e quiet good, h) }

  After-done :
      {A B : Type 0} (W : World Score → Type 0) (P : A → Type 0) (k : A → Run Score B)
      (x : Result Stop A × World Score)
      → ((a : A) (w : World Score) → (b : B) × (k a w ≡ (ok b, w)))
      → After W P x
      → After W (λ b. Unit {0}) (go_on x.0 k x.1)
  After-done W P k (ok a, w) done (h, _) =
      let (b, e) = done a w in subst (After W (λ b. Unit {0})) (sym e) (h, tt)
  After-done W P k (err cancellation, w) done h = h
  After-done W P k (err (failure provider_error), w) done h = h
  After-done W P k (err (failure Failure.key_error), w) done h = h
  After-done W P k (err (failure Failure.index_error), w) done h = h
  After-done W P k (err (failure Failure.repair_of_valid), w) done h = h
  After-done W P k (err (failure Failure.recursion_limit), w) done h = h

  -- What follows leaves the world alone.
  pub leaves_done :
      {A B : Type 0} {W : World Score → Type 0} {P : A → Type 0} {m : Run Score A}
      (k : A → Run Score B)
      → Leaves W m P
      → ((a : A) (w : World Score) → (b : B) × (k a w ≡ (ok b, w)))
      → Leaves W (m >>= k) (λ b. Unit {0})
  unfolding ◌>>=◌
  leaves_done {W} {P} {m} k first done = record {
    holds = λ w quiet. After-done W P k (m w) done (first.holds w quiet);
  }
