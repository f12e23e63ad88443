-- ===== src/Documents/Registration/Attempts.antt =====
-- An attempt to register, and the loop of attempts, leave tables that keep the constraints, with
-- nothing pending.
use sourcetrace.Prelude.{
  ℕ, zero, suc, ◌≡◌, refl, sym, subst, ◌∙◌, true, false, none, some, List, [], ◌∷◌, some_of,
  All-map, Bool-cases, Option-cases, inl, inr, ◌⊎◌, arith, Result, ok, err,
}
use sourcetrace.Text.{Text}
use sourcetrace.Documents.Registration.{
  Document, Version, World, VersionRegistration, RegistrationError, Write, new_version,
  new_document, Schedule, Request, Attempt, registered, conflict, broken, same_name, same_document,
  has_name, all_documents, name_taken, version_taken, document_refused, version_refused,
  holds_version, write, write_all, rolled_back, committed, version_of, find_row, latest_number,
  create_version, number_version, create_document, find_or_create, get_by_checksum,
  register_attempt, register_loop, register_version, normalize_document_name, is_sha256,
  max_registration_attempts,
}
use sourcetrace.Documents.Registration.Sound.{
  Unique-right, IsSound, add_version-IsSound, write_all-IsSound, some_of-right,
}

write-pending : (w : World) (x : Write) → (write w x).pending ≡ w.pending
unfolding write
write-pending w (new_version v) = ground arith
write-pending w (new_document d v) = ground arith

pub write_all-pending : (w : World) (xs : List Write) → (write_all w xs).pending ≡ w.pending
unfolding write_all
write_all-pending w [] = refl
write_all-pending w (x ∷ xs) = write_all-pending (write w x) xs ∙ write-pending w x

abbrev pub IsSettled : World → Type 0
IsSettled w = IsSound w × (w.pending ≡ [])

abbrev pub EndsSettled : Attempt → Type 0
EndsSettled (registered result w) = IsSettled w
EndsSettled (conflict w) = IsSettled w
EndsSettled (broken w) = IsSettled w

pub write_all-IsSettled : (w : World) (xs : List Write) → IsSettled w → IsSettled (write_all w xs)
write_all-IsSettled w xs h = (write_all-IsSound w xs h.0, write_all-pending w xs ∙ h.1)

rolled_back-IsSettled : (w : World) → IsSound w → IsSettled (rolled_back w)
rolled_back-IsSettled w s = (
  record {
    unique_names = Unique-right same_name w.pending w.documents s.unique_names;
    unique_documents = Unique-right same_document w.pending w.documents s.unique_documents;
    unique_checksums = s.unique_checksums;
    unique_numbers = s.unique_numbers;
    unique_versions = s.unique_versions;
    owned = s.owned;
  },
  refl,
)

committed-IsSound : (w : World) → IsSound w → IsSound (committed w)
committed-IsSound w s = record {
  unique_names = s.unique_names;
  unique_documents = s.unique_documents;
  unique_checksums = s.unique_checksums;
  unique_numbers = s.unique_numbers;
  unique_versions = s.unique_versions;
  owned =
      All-map _ _ (λ v. some_of-right (holds_version v) w.pending w.documents) w.versions s.owned;
}

pub Attempt-cases :
    (a : Attempt)
    → ((result : VersionRegistration) × (w : World) × (a ≡ registered result w))
      ⊎ (((w : World) × (a ≡ conflict w)) ⊎ ((w : World) × (a ≡ broken w)))
Attempt-cases (registered result w) = inl (result, w, refl)
Attempt-cases (conflict w) = inr (inl (w, refl))
Attempt-cases (broken w) = inr (inr (w, refl))

pub name_cases :
    (x : Result RegistrationError Text)
    → ((e : RegistrationError) × (x ≡ err e)) ⊎ ((name : Text) × (x ≡ ok name))
name_cases (err e) = inl (e, refl)
name_cases (ok name) = inr (name, refl)

create_version-EndsSettled :
    (r : Request) (d : Document) (n : ℕ) (w : World)
    → IsSound w
    → EndsSettled (create_version r d n w)
unfolding create_version
create_version-EndsSettled r d n w s =
    let v = version_of r d.id n in
    elim (Bool-cases (version_refused (all_documents w) w v)) [
      | inl refused ↦ rw refused (rolled_back-IsSettled w s)
      | inr allowed ↦ elim (Bool-cases (version_taken w v)) [
        | inl taken ↦ rw (allowed, taken) (rolled_back-IsSettled w s)
        | inr free ↦
            rw (allowed, free)
              (add_version-IsSound (committed w) v (committed-IsSound w s) free allowed, refl)
      ]
    ]

number_version-EndsSettled :
    (s : Schedule) (r : Request) (d : Document) (w : World)
    → IsSound w
    → EndsSettled (number_version s r d w)
unfolding number_version
number_version-EndsSettled s r d w sound =
    let seen = write_all w s.fourth in
    create_version-EndsSettled r d (suc (latest_number d.id seen.versions)) (write_all seen s.fifth)
      (write_all-IsSound seen s.fifth (write_all-IsSound w s.fourth sound))

-- A new document that no constraint refuses, before its commit.
pub pending-IsSound :
    (w : World) (d : Document)
    → IsSettled w
    → name_taken w d ≡ false
    → document_refused w d ≡ false
    → IsSound (record w { pending = d ∷ [] })
pending-IsSound w d settled free allowed =
    let idle = settled.1 in
    let sound = settled.0 in
    let new : some_of (same_document d) (all_documents w) ≡ false = ground arith in
    record {
      unique_names = (rw idle at free, rw idle at sound.unique_names);
      unique_documents = (rw idle at new, rw idle at sound.unique_documents);
      unique_checksums = sound.unique_checksums;
      unique_numbers = sound.unique_numbers;
      unique_versions = sound.unique_versions;
      owned = sound.owned;
    }

create_document-EndsSettled :
    (s : Schedule) (r : Request) (name : Text) (w : World)
    → IsSettled w
    → EndsSettled (create_document s r name w)
unfolding create_document
create_document-EndsSettled s r name w settled =
    let d : Document = record {
      id = r.document_id;
      knowledge_base_id = r.knowledge_base_id;
      name = name;
    } in
    elim (Bool-cases (document_refused w d)) [
      | inl refused ↦ rw refused settled
      | inr allowed ↦ elim (Bool-cases (name_taken w d)) [
        | inl taken ↦ rw (allowed, taken) settled
        | inr free ↦
            rw (allowed, free)
              (number_version-EndsSettled s r d (record w { pending = d ∷ [] })
                (pending-IsSound w d settled free allowed))
      ]
    ]

-- The two branches of the look-ups.
module _ (s : Schedule) (r : Request) (name : Text) (w : World) where
  pub find_or_create-none :
      find_row (has_name r.knowledge_base_id name) w.documents ≡ none
      → find_or_create s r name w ≡ create_document s r name (write_all w s.third)
  unfolding find_or_create
  find_or_create-none missing = rw (missing, find_or_create) refl

  pub find_or_create-some :
      (d : Document)
      → find_row (has_name r.knowledge_base_id name) w.documents ≡ some d
      → find_or_create s r name w ≡ number_version s r d w
  unfolding find_or_create
  find_or_create-some d found = rw (found, find_or_create) refl

  pub register_attempt-none :
      get_by_checksum (write_all w s.first) r.knowledge_base_id r.checksum_sha256 ≡ none
      → register_attempt s r name w
        ≡ find_or_create s r name (write_all (write_all w s.first) s.second)
  unfolding register_attempt
  register_attempt-none missing = rw (missing, register_attempt) refl

  pub register_attempt-some :
      (existing : Document × Version)
      → get_by_checksum (write_all w s.first) r.knowledge_base_id r.checksum_sha256 ≡ some existing
      → register_attempt s r name w
        ≡ registered
            (record { document = existing.0; version = existing.1; deduplicated = true })
            (write_all w s.first)
  unfolding register_attempt
  register_attempt-some existing found = rw (found, register_attempt) refl

find_or_create-EndsSettled :
    (s : Schedule) (r : Request) (name : Text) (w : World)
    → IsSettled w
    → EndsSettled (find_or_create s r name w)
unfolding find_or_create
find_or_create-EndsSettled s r name w settled =
    elim (Option-cases (find_row (has_name r.knowledge_base_id name) w.documents)) [
      | inl missing ↦ subst EndsSettled (sym (find_or_create-none s r name w missing)) (
          create_document-EndsSettled s r name (write_all w s.third)
            (write_all-IsSettled w s.third settled))
      | inr (d, found) ↦
          subst EndsSettled (sym (find_or_create-some s r name w d found))
            (number_version-EndsSettled s r d w settled.0)
    ]

pub register_attempt-EndsSettled :
    (s : Schedule) (r : Request) (name : Text) (w : World)
    → IsSettled w
    → EndsSettled (register_attempt s r name w)
unfolding register_attempt
register_attempt-EndsSettled s r name w settled =
    let seen = write_all w s.first in
    let settled' = write_all-IsSettled w s.first settled in
    elim (Option-cases (get_by_checksum seen r.knowledge_base_id r.checksum_sha256)) [
      | inl missing ↦ subst EndsSettled (sym (register_attempt-none s r name w missing)) (
          find_or_create-EndsSettled s r name (write_all seen s.second)
            (write_all-IsSettled seen s.second settled'))
      | inr (existing, found) ↦
          subst EndsSettled (sym (register_attempt-some s r name w existing found)) settled'
    ]

register_loop-IsSettled :
    (n : ℕ) (schedules : ℕ → Schedule) (r : Request) (name : Text) (w : World)
    → IsSettled w
    → IsSettled (register_loop n schedules r name w).1
unfolding register_loop
register_loop-IsSettled zero schedules r name w settled = settled
register_loop-IsSettled (suc n) schedules r name w settled =
    let ends = register_attempt-EndsSettled (schedules n) r name w settled in
    elim (Attempt-cases (register_attempt (schedules n) r name w)) [
      | inl (result, w', e) ↦ rw (e, register_loop) (rw e at ends)
      | inr (inl (w', e)) ↦
          rw (e, register_loop) (register_loop-IsSettled n schedules r name w' (rw e at ends))
      | inr (inr (w', e)) ↦ rw (e, register_loop) (rw e at ends)
    ]

-- When the names of the documents of a knowledge base, the checksums of its versions, the numbers
-- of the versions of a document and the identifiers are unique, every version has a document of its
-- knowledge base, and nothing is pending, the same holds after register_version, whatever versions,
-- each with a new document or with none, other sessions commit between its statements, and whether
-- it returns or raises.
pub register_version-IsSettled :
    (schedules : ℕ → Schedule) (r : Request) (w : World)
    → IsSettled w
    → IsSettled (register_version schedules r w).1
unfolding register_version
register_version-IsSettled schedules r w settled = elim (Bool-cases (is_sha256 r.checksum_sha256)) [
  | inr malformed ↦ rw malformed settled
  | inl well_formed ↦ elim (name_cases (normalize_document_name r.file_name)) [
    | inl (e, refused) ↦ rw (well_formed, refused) settled
    | inr (name, accepted) ↦
        rw (well_formed, accepted)
          (register_loop-IsSettled max_registration_attempts schedules r name w settled)
  ]
]
