-- ===== src/Conversations/Deletion.antt =====
-- `delete` of modules/knowledge_bases/service.py with the files of modules/documents/storage.py, and
-- `reconcile_staged_document_deletions` of api/recovery.py. `Ending` says where the call of `delete`
-- ends: the process may stop between two steps. The files of a knowledge base are one value, which
-- `os.replace` moves at once.
pub mod Steps
pub mod Recovered
use sourcetrace.Prelude.{
  ℕ, zero, suc, ◌+◌, Bool, true, false, not, ◌&&◌, Option, none, some, List, [], ◌∷◌, ◌++◌, ◌==◌,
  nat_eq, select, if◌then◌else◌, Result, ok, err,
}
use sourcetrace.Paging.Cursor.{ServiceError}
use sourcetrace.Conversations.{Tables, delete_knowledge_base}
use sourcetrace.Conversations.Owned.{is_base_of}

pub data Ending : Type 0 where
  finished cleanup_failed commit_failed stopped_before_commit stopped_after_commit : Ending

pub data DeletionError : Type 0 where
  not_found database_error file_exists stopped : DeletionError

-- `LocalStagedKnowledgeBaseDeletion` whose files were moved; `token` is the `uuid4` of its name.
pub record StagedDeletion (Files : Type 0) : Type 0 where
  pub knowledge_base_id : ℕ
  pub token : ℕ
  pub files : Files

pub record Disk (Files : Type 0) : Type 0 where
  pub sources : List (ℕ × Files)
  pub staged : List (StagedDeletion Files)

pub record StagedDeletionRecovery : Type 0 where
  pub restored : ℕ
  pub finalized : ℕ
  pub failed : ℕ

abbrev pub no_recovery : StagedDeletionRecovery
no_recovery = record { restored = 0; finalized = 0; failed = 0 }

abbrev pub Deletion : Type 0 → Type 0
Deletion Files = Result DeletionError (Unit {0}) × (Tables × Disk Files)

module _ {Files : Type 0} where
  abbrev pub find_files : ℕ → List (ℕ × Files) → Option Files
  find_files base [] = none
  find_files base (s ∷ sources) =
      let rest = find_files base sources in if s.0 == base then some s.1 else rest

  abbrev pub is_there : Option Files → Bool
  is_there none = false
  is_there (some files) = true

  abbrev pub without : ℕ → List (ℕ × Files) → List (ℕ × Files)
  without base = select (λ s. not (s.0 == base))

  -- `stage_knowledge_base_deletion`: the deletion that `finalize` and `restore` are called on, which
  -- has no staged path when there was no folder.
  unfoldable pub stage_deletion : ℕ → ℕ → Disk Files → Option (StagedDeletion Files) × Disk Files
  stage_deletion base token d = elim (find_files base d.sources) [
    | none ↦ (none, d)
    | some files ↦
        let deletion : StagedDeletion Files = record {
          knowledge_base_id = base;
          token = token;
          files = files;
        } in
        (
          some deletion,
          record { sources = without base d.sources; staged = d.staged ++ deletion ∷ [] },
        )
  ]

  abbrev pub unstaged : ℕ → List (StagedDeletion Files) → List (StagedDeletion Files)
  unstaged token = select (λ s. not (s.token == token))

  unfoldable pub finalize : Option (StagedDeletion Files) → Disk Files → Disk Files
  finalize none d = d
  finalize (some s) d = record d { staged = unstaged s.token d.staged }

  unfoldable pub restore :
      Option (StagedDeletion Files) → Disk Files → Result DeletionError (Disk Files)
  restore none d = ok d
  restore (some s) d =
      if is_there (find_files s.knowledge_base_id d.sources)
      then err file_exists
      else ok (record {
        sources = d.sources ++ (s.knowledge_base_id, s.files) ∷ [];
        staged = unstaged s.token d.staged;
      })

  abbrev pub rolled_back : Tables → Disk Files → Result DeletionError (Disk Files) → Deletion Files
  rolled_back t d (err e) = (err e, (t, d))
  rolled_back t d (ok d') = (err database_error, (t, d'))

  -- The rest of `delete`, once the files are staged; `t'` is what the commit makes of `t`.
  unfoldable pub end_deletion :
      Ending → Tables → Tables → Option (StagedDeletion Files) → Disk Files → Deletion Files
  unfolding finalize restore
  end_deletion finished t t' handle d = (ok tt, (t', finalize handle d))
  end_deletion cleanup_failed t t' handle d = (ok tt, (t', d))
  end_deletion commit_failed t t' handle d = rolled_back t d (restore handle d)
  end_deletion stopped_before_commit t t' handle d = (err stopped, (t, d))
  end_deletion stopped_after_commit t t' handle d = (err stopped, (t', d))

  unfoldable pub delete : ℕ → ℕ → Ending → Tables → Disk Files → Deletion Files
  unfolding stage_deletion end_deletion delete_knowledge_base
  delete base token ending t d = elim (delete_knowledge_base base t) [
    | err e ↦ (err not_found, (t, d))
    | ok t' ↦ let staged = stage_deletion base token d in end_deletion ending t t' staged.0 staged.1
  ]

  -- One deletion of the loop. `works` says whether the disk does; the restoring may fail by itself.
  unfoldable pub recover_one :
      Bool
      → Tables
      → StagedDeletion Files
      → Disk Files × StagedDeletionRecovery
      → Disk Files × StagedDeletionRecovery
  unfolding finalize restore
  recover_one works t s (d, counts) =
      if works
      then (if is_base_of t s.knowledge_base_id
          then elim (restore (some s) d) [
            | err e ↦ (d, record counts { failed = counts.failed + 1 })
            | ok d' ↦ (d', record counts { restored = counts.restored + 1 })
          ]
          else (finalize (some s) d, record counts { finalized = counts.finalized + 1 }))
      else (d, record counts { failed = counts.failed + 1 })

  unfoldable pub recover_each :
      (ℕ → Bool)
      → Tables
      → List (StagedDeletion Files)
      → Disk Files × StagedDeletionRecovery
      → Disk Files × StagedDeletionRecovery
  unfolding recover_one
  recover_each works t [] x = x
  recover_each works t (s ∷ deletions) x =
      recover_each works t deletions (recover_one (works s.token) t s x)

  unfoldable pub reconcile : (ℕ → Bool) → Tables → Disk Files → Disk Files × StagedDeletionRecovery
  unfolding recover_each
  reconcile works t d = recover_each works t d.staged (d, no_recovery)
