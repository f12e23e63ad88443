-- ===== src/Conversations/Deletion/Recovered.antt =====
-- Wherever a deletion ends, the recovery leaves the files of exactly the knowledge bases that are there.
use sourcetrace.Prelude.{
  ℕ, ◌≡◌, refl, sym, subst, ◌∙◌, true, false, none, some, List, [], ◌∷◌, ◌++◌, nat_eq, nat_beq_iff,
  select, Bool-cases, Option-cases, inl, inr, arith, if◌then◌else◌, ok,
}
use sourcetrace.Conversations.{Tables, delete_knowledge_base}
use sourcetrace.Conversations.Owned.{is_base_of}
use sourcetrace.Conversations.Deletion.{
  Deletion, no_recovery, rolled_back, Ending, finished, cleanup_failed, commit_failed,
  stopped_before_commit, stopped_after_commit, StagedDeletion, Disk, find_files, without, unstaged,
  finalize, restore, end_deletion, delete, recover_each, reconcile,
}
use sourcetrace.Conversations.Deletion.Steps.{
  deleted, deletion_cases, find_files-without, find_files-moved, find_files-unmoved,
  stage_deletion-none, stage_deletion-some, delete-refused, delete-accepted, recover_one-back,
  recover_one-away,
}

module _ {Files : Type 0} where
  -- The disk when no deletion is staged.
  abbrev pub at_rest : List (ℕ × Files) → Disk Files
  at_rest sources = record { sources = sources; staged = [] }

  -- Every folder is a knowledge base's.
  abbrev pub AreKnown : Tables → List (ℕ × Files) → Type 0
  AreKnown t sources = (i : ℕ) → is_base_of t i ≡ false → find_files i sources ≡ none

  -- The recovery has left the files of exactly the knowledge bases that are there, and nothing staged.
  pub record IsRecovered (t : Tables) (sources : List (ℕ × Files)) (d : Disk Files) : Type 0 where
    pub nothing_staged : d.staged ≡ []
    pub files_of_bases :
        (i : ℕ) → find_files i d.sources ≡ (if is_base_of t i then find_files i sources else none)

  module _ (t : Tables) (sources : List (ℕ × Files)) (known : AreKnown t sources) where
    kept : (i : ℕ) → find_files i sources ≡ (if is_base_of t i then find_files i sources else none)
    kept i = elim (Bool-cases (is_base_of t i)) [
      | inl there ↦ rw there refl
      | inr nowhere ↦ rw (nowhere, known i nowhere) refl
    ]

    module _ (base : ℕ) (t' : Tables) (gone : delete_knowledge_base base t ≡ ok t') where
      -- The files of the deleted knowledge base are away.
      without-IsRecovered : IsRecovered t' sources (at_rest (without base sources))
      without-IsRecovered = record {
        nothing_staged = refl;
        files_of_bases = λ i.
            find_files-without i base sources
            ∙ ground (arith, kept i, (deleted base t t' gone).1 i);
      }

      unmoved-IsRecovered :
          find_files base sources ≡ none → IsRecovered t' sources (at_rest sources)
      unmoved-IsRecovered none_there = record {
        nothing_staged = refl;
        files_of_bases = λ i.
            sym (find_files-unmoved i base sources none_there)
            ∙ without-IsRecovered.files_of_bases i;
      }

    moved-IsRecovered :
        (base : ℕ) (files : Files)
        → find_files base sources ≡ some files
        → IsRecovered t sources (at_rest (without base sources ++ (base, files) ∷ []))
    moved-IsRecovered base files found = record {
      nothing_staged = refl;
      files_of_bases = λ i. find_files-moved i base files sources found ∙ kept i;
    }

    kept-IsRecovered : IsRecovered t sources (at_rest sources)
    kept-IsRecovered = record { nothing_staged = refl; files_of_bases = kept }

    abbrev after_recovery : Tables → Disk Files → Disk Files
    after_recovery t' d = (reconcile (λ n. true) t' d).0

    abbrev pub EndsRecovered : Deletion Files → Type 0
    EndsRecovered x = IsRecovered x.1.0 sources (after_recovery x.1.0 x.1.1)

    module _ (base token : ℕ) (files : Files) (found : find_files base sources ≡ some files) where
      abbrev moved : StagedDeletion Files
      moved = record { knowledge_base_id = base; token = token; files = files }

      abbrev one_staged : Disk Files
      one_staged = record { sources = without base sources; staged = moved ∷ [] }

      nothing_left : unstaged token (moved ∷ []) ≡ []
      unfolding select
      nothing_left = rw ((nat_beq_iff token token).1 refl) refl

      restore-moved :
          restore (some moved) one_staged
          ≡ ok (at_rest (without base sources ++ (base, files) ∷ []))
      unfolding restore
      restore-moved =
          let empty : find_files base (without base sources) ≡ none =
            find_files-without base base sources ∙ rw ((nat_beq_iff base base).1 refl) refl in
          rw (empty, nothing_left) refl

      finalize-moved : finalize (some moved) one_staged ≡ at_rest (without base sources)
      unfolding finalize
      finalize-moved = rw nothing_left refl

      recovered-back :
          is_base_of t base ≡ true
          → after_recovery t one_staged ≡ at_rest (without base sources ++ (base, files) ∷ [])
      unfolding reconcile recover_each
      recovered-back there =
          recover_one-back t moved one_staged (at_rest (without base sources ++ (base, files) ∷ []))
            no_recovery there restore-moved

      recovered-away :
          (t' : Tables)
          → is_base_of t' base ≡ false
          → after_recovery t' one_staged ≡ at_rest (without base sources)
      unfolding reconcile recover_each
      recovered-away t' nowhere =
          recover_one-away t' moved one_staged no_recovery nowhere ∙ finalize-moved

      away :
          (t' : Tables)
          → delete_knowledge_base base t ≡ ok t'
          → IsRecovered t' sources (after_recovery t' one_staged)
      away t' gone =
          let there = (deleted base t t' gone).1 base in
          let nowhere : is_base_of t' base ≡ false =
            there ∙ ground (arith, (nat_beq_iff base base).1 refl) in
          subst (IsRecovered t' sources) (sym (recovered-away t' nowhere))
            (without-IsRecovered base t' gone)

      end_deletion-moved :
          (ending : Ending) (t' : Tables)
          → delete_knowledge_base base t ≡ ok t'
          → EndsRecovered (end_deletion ending t t' (some moved) one_staged)
      unfolding end_deletion reconcile recover_each
      end_deletion-moved finished t' gone =
          subst (λ d. IsRecovered t' sources (after_recovery t' d)) (sym finalize-moved)
            (without-IsRecovered base t' gone)
      end_deletion-moved cleanup_failed t' gone = away t' gone
      end_deletion-moved commit_failed t' gone =
          subst (λ r. EndsRecovered (rolled_back t one_staged r)) (sym restore-moved)
            (moved-IsRecovered base files found)
      end_deletion-moved stopped_before_commit t' gone =
          subst (IsRecovered t sources) (sym (recovered-back (deleted base t t' gone).0))
            (moved-IsRecovered base files found)
      end_deletion-moved stopped_after_commit t' gone = away t' gone

    refused-IsRecovered : IsRecovered t sources (after_recovery t (at_rest sources))
    unfolding reconcile recover_each
    refused-IsRecovered = kept-IsRecovered

    end_deletion-unmoved :
        (base : ℕ) (ending : Ending) (t' : Tables)
        → find_files base sources ≡ none
        → delete_knowledge_base base t ≡ ok t'
        → EndsRecovered (end_deletion ending t t' none (at_rest sources))
    unfolding end_deletion reconcile recover_each finalize restore
    end_deletion-unmoved base finished t' missing gone = unmoved-IsRecovered base t' gone missing
    end_deletion-unmoved base cleanup_failed t' missing gone =
        unmoved-IsRecovered base t' gone missing
    end_deletion-unmoved base commit_failed t' missing gone = kept-IsRecovered
    end_deletion-unmoved base stopped_before_commit t' missing gone = kept-IsRecovered
    end_deletion-unmoved base stopped_after_commit t' missing gone =
        unmoved-IsRecovered base t' gone missing

    -- When no deletion is staged and every folder is of a knowledge base that is there, wherever
    -- the deletion of a knowledge base ends, at its end, at a failed cleaning, at a failed commit,
    -- or where the process stops before or after the commit, the recovery with a working disk
    -- leaves nothing staged, the files of each knowledge base that is in the tables then as they
    -- were, and no files of another.
    pub delete-IsRecovered :
        (base token : ℕ) (ending : Ending)
        → EndsRecovered (delete base token ending t (at_rest sources))
    delete-IsRecovered base token ending = elim (deletion_cases (delete_knowledge_base base t)) [
      | inl (e, refused) ↦
          subst EndsRecovered (sym (delete-refused base token ending t (at_rest sources) e refused))
            refused-IsRecovered
      | inr (t', gone) ↦
          subst EndsRecovered (sym (delete-accepted base token ending t t' (at_rest sources) gone))
            (elim (Option-cases (find_files base sources)) [
              | inl missing ↦
                  subst (λ x. EndsRecovered (end_deletion ending t t' x.0 x.1))
                    (sym (stage_deletion-none base token (at_rest sources) missing))
                    (end_deletion-unmoved base ending t' missing gone)
              | inr (files, found) ↦
                  subst (λ x. EndsRecovered (end_deletion ending t t' x.0 x.1))
                    (sym (stage_deletion-some base token (at_rest sources) files found))
                    (end_deletion-moved base token files found ending t' gone)
            ])
    ]
