-- ===== src/Conversations/Deletion/Steps.antt =====
-- The steps of a deletion and of its recovery, and what they say of the folders.
use sourcetrace.Prelude.{
  ℕ, ◌≡◌, refl, sym, ap, subst, ◌∙◌, true, false, not, ◌&&◌, none, some, List, [], ◌∷◌, ◌++◌, ◌==◌,
  nat_eq, select, some_of, Bool-cases, Option-cases, inl, inr, ◌⊎◌, arith, if◌then◌else◌, Result,
  ok, err,
}
use sourcetrace.Paging.Cursor.{ServiceError}
use sourcetrace.Conversations.{
  KnowledgeBase, Tables, find, same_id, get_knowledge_base, delete_knowledge_base,
}
use sourcetrace.Conversations.Owned.{is_base_of}
use sourcetrace.Conversations.Deletion.{
  StagedDeletionRecovery, not_found, Ending, StagedDeletion, Disk, find_files, is_there, without,
  stage_deletion, finalize, restore, end_deletion, delete, recover_one,
}

others_there :
    (i base : ℕ) (ks : List KnowledgeBase)
    → some_of (same_id i) (select (λ k. not (k.id == base)) ks)
      ≡ (some_of (same_id i) ks && not (i == base))
unfolding select
others_there i base [] = refl
others_there i base (k ∷ ks) = ground (arith, others_there i base ks)

find-here :
    (base : ℕ) (k : KnowledgeBase) (ks : List KnowledgeBase)
    → same_id base k ≡ true
    → find (same_id base) (k ∷ ks) ≡ some k
find-here base k ks h = rw h refl

find_same_id :
    (base : ℕ) (ks : List KnowledgeBase) (k : KnowledgeBase)
    → find (same_id base) ks ≡ some k
    → (k.id ≡ base) × (some_of (same_id base) ks ≡ true)
find_same_id base [] k h = cc
find_same_id base (l ∷ ks) k h = elim (Bool-cases (same_id base l)) [
  | inl here ↦
      let it : some l ≡ some k = sym (find-here base l ks here) ∙ h in
      let same : l ≡ k = cc in
      let id : l.id ≡ base = ground arith in (ap (λ x. x.id) (sym same) ∙ id, rw here refl)
  | inr other ↦
      let rest : find (same_id base) ks ≡ some k = ground arith in
      let found = find_same_id base ks k rest in (found.0, rw (other, found.1) refl)
]

abbrev bases_of : Result ServiceError Tables → List KnowledgeBase
bases_of (ok t) = t.knowledge_bases
bases_of (err e) = []

-- What the deletion of a knowledge base says of the tables.
pub deleted :
    (base : ℕ) (t t' : Tables)
    → delete_knowledge_base base t ≡ ok t'
    → (is_base_of t base ≡ true) × ((i : ℕ) → is_base_of t' i ≡ (is_base_of t i && not (i == base)))
unfolding delete_knowledge_base get_knowledge_base
deleted base t t' h = elim (Option-cases (find (same_id base) t.knowledge_bases)) [
  | inl missing ↦ let e = rw missing at h in cc
  | inr (k, found) ↦
      let (same, there) = find_same_id base t.knowledge_bases k found in
      let e = ap bases_of (rw found at h) in
      (
        there,
        λ i.
            ap (some_of (same_id i)) (sym e)
            ∙ others_there i k.id t.knowledge_bases
            ∙ ap (λ b. some_of (same_id i) t.knowledge_bases && not (i == b)) same,
      )
]

pub deletion_cases :
    (x : Result ServiceError Tables)
    → ((e : ServiceError) × (x ≡ err e)) ⊎ ((t : Tables) × (x ≡ ok t))
deletion_cases (err e) = inl (e, refl)
deletion_cases (ok t) = inr (t, refl)

module _ {Files : Type 0} where
  pub find_files-without :
      (i base : ℕ) (sources : List (ℕ × Files))
      → find_files i (without base sources) ≡ (if i == base then none else find_files i sources)
  unfolding select
  find_files-without i base [] = ground arith
  find_files-without i base (s ∷ sources) = ground (arith, find_files-without i base sources)

  find_files-snoc :
      (i base : ℕ) (files : Files) (sources : List (ℕ × Files))
      → find_files i (sources ++ (base, files) ∷ []) ≡ (
          if is_there (find_files i sources)
          then find_files i sources
          else if base == i
          then some files
          else none)
  find_files-snoc i base files [] = refl
  find_files-snoc i base files (s ∷ sources) = ground (arith, find_files-snoc i base files sources)

  -- The folder that is moved away and back is where it was.
  pub find_files-moved :
      (i base : ℕ) (files : Files) (sources : List (ℕ × Files))
      → find_files base sources ≡ some files
      → find_files i (without base sources ++ (base, files) ∷ []) ≡ find_files i sources
  find_files-moved i base files sources h =
      let left = find_files-without i base sources in
      let back = find_files-snoc i base files (without base sources) in
      elim (Bool-cases (i == base)) [
        | inl here ↦
            let gone : find_files i (without base sources) ≡ none = left ∙ rw here refl in
            let same : i ≡ base = ground arith in
            let held : find_files i sources ≡ some files =
              subst (λ j. find_files j sources ≡ some files) (sym same) h in
            let turned : base == i ≡ true = ground arith in back ∙ rw (gone, turned, held) refl
        | inr other ↦
            let kept : find_files i (without base sources) ≡ find_files i sources =
              left ∙ rw other refl in
            let turned : base == i ≡ false = ground arith in
            elim (Option-cases (find_files i sources)) [
              | inl missing ↦ back ∙ rw (kept, missing, turned) refl
              | inr (held, found) ↦ back ∙ rw (kept, found) refl
            ]
      ]

  pub find_files-unmoved :
      (i base : ℕ) (sources : List (ℕ × Files))
      → find_files base sources ≡ none
      → find_files i (without base sources) ≡ find_files i sources
  find_files-unmoved i base sources h =
      let left = find_files-without i base sources in
      elim (Bool-cases (i == base)) [
        | inl here ↦
            let same : i ≡ base = ground arith in
            left ∙ rw here (sym (subst (λ j. find_files j sources ≡ none) (sym same) h))
        | inr other ↦ left ∙ rw other refl
      ]

  pub stage_deletion-none :
      (base token : ℕ) (d : Disk Files)
      → find_files base d.sources ≡ none
      → stage_deletion base token d ≡ (none, d)
  unfolding stage_deletion
  stage_deletion-none base token d missing = rw (missing, stage_deletion) refl

  pub stage_deletion-some :
      (base token : ℕ) (d : Disk Files) (files : Files)
      → find_files base d.sources ≡ some files
      → stage_deletion base token d ≡ (
        some (record { knowledge_base_id = base; token = token; files = files }),
        record {
          sources = without base d.sources;
          staged =
              d.staged ++ record { knowledge_base_id = base; token = token; files = files } ∷ [];
        },
      )
  unfolding stage_deletion
  stage_deletion-some base token d files found = rw (found, stage_deletion) refl

  pub delete-refused :
      (base token : ℕ) (ending : Ending) (t : Tables) (d : Disk Files) (e : ServiceError)
      → delete_knowledge_base base t ≡ err e
      → delete base token ending t d ≡ (err not_found, (t, d))
  unfolding delete
  delete-refused base token ending t d e refused = rw (refused, delete) refl

  pub delete-accepted :
      (base token : ℕ) (ending : Ending) (t t' : Tables) (d : Disk Files)
      → delete_knowledge_base base t ≡ ok t'
      → delete base token ending t d
        ≡ end_deletion ending t t' (stage_deletion base token d).0 (stage_deletion base token d).1
  unfolding delete
  delete-accepted base token ending t t' d gone = rw (gone, delete) refl

  pub recover_one-back :
      (t : Tables) (s : StagedDeletion Files) (d d' : Disk Files) (counts : StagedDeletionRecovery)
      → is_base_of t s.knowledge_base_id ≡ true
      → restore (some s) d ≡ ok d'
      → (recover_one true t s (d, counts)).0 ≡ d'
  unfolding recover_one
  recover_one-back t s d d' counts there restored = rw (there, recover_one, restored) refl

  pub recover_one-away :
      (t : Tables) (s : StagedDeletion Files) (d : Disk Files) (counts : StagedDeletionRecovery)
      → is_base_of t s.knowledge_base_id ≡ false
      → (recover_one true t s (d, counts)).0 ≡ finalize (some s) d
  unfolding recover_one
  recover_one-away t s d counts nowhere = rw (nowhere, recover_one) refl
