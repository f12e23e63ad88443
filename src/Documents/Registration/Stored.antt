-- ===== src/Documents/Registration/Stored.antt =====
-- What has been registered is what the look-up by checksum finds, so that the same file again is the
-- same version.
use sourcetrace.Prelude.{
  equals_refl, ℕ, zero, suc, ◌≡◌, refl, sym, ap, subst, ◌∙◌, true, false, some, [], ◌∷◌, nat_eq,
  list_eq, Bool-cases, Option-cases, inl, inr, arith, Result, ok, err,
}
use sourcetrace.Text.{Text}
use sourcetrace.Documents.Records.{Status}
use sourcetrace.Documents.Registration.{
  Document, Version, World, VersionRegistration, RegistrationError, Schedule, Request, Attempt,
  registered, conflict, broken, same_document, has_name, all_documents, name_taken, version_taken,
  document_refused, version_refused, write_all, version_of, find_row, latest_number, create_version,
  number_version, create_document, find_or_create, get_by_checksum, register_attempt, register_loop,
  register_version, normalize_document_name, is_sha256, max_registration_attempts,
}
use sourcetrace.Documents.Registration.Sound.{Unique, IsSound, write_all-IsSound}
use sourcetrace.Documents.Registration.Attempts.{
  IsSettled, write_all-IsSettled, pending-IsSound, register_attempt-EndsSettled, Attempt-cases,
  name_cases, find_or_create-none, find_or_create-some, register_attempt-none,
  register_attempt-some,
}
use sourcetrace.Documents.Registration.Lookup.{find_row-true, find_row-Unique, is_at}
use sourcetrace.Documents.Registration.Copies.{stored, write_all-keeps}

abbrev pub EndsStored : Request → Attempt → Type 0
EndsStored r (registered result w) =
    (get_by_checksum w r.knowledge_base_id r.checksum_sha256
      ≡ some (result.document, result.version))
    × (result.deduplicated ≡ false → result.version.status ≡ Status.pending)
EndsStored r (conflict w) = Unit
EndsStored r (broken w) = Unit

create_version-EndsStored :
    (r : Request) (d : Document) (n : ℕ) (w : World)
    → IsSound w
    → find_row (is_at d.id r.knowledge_base_id) (all_documents w) ≡ some d
    → EndsStored r (create_version r d n w)
unfolding create_version
create_version-EndsStored r d n w s holds =
    let v = version_of r d.id n in
    elim (Bool-cases (version_refused (all_documents w) w v)) [
      | inl refused ↦ rw refused tt
      | inr allowed ↦ elim (Bool-cases (version_taken w v)) [
        | inl taken ↦ rw (allowed, taken) tt
        | inr free ↦ rw (allowed, free) (stored r d n w s holds (ground arith), λ new. refl)
      ]
    ]

number_version-EndsStored :
    (s : Schedule) (r : Request) (d : Document) (w : World)
    → IsSound w
    → find_row (is_at d.id r.knowledge_base_id) (all_documents w) ≡ some d
    → EndsStored r (number_version s r d w)
unfolding number_version
number_version-EndsStored s r d w sound holds =
    let seen = write_all w s.fourth in
    let at = is_at d.id r.knowledge_base_id in
    create_version-EndsStored r d (suc (latest_number d.id seen.versions)) (write_all seen s.fifth)
      (write_all-IsSound seen s.fifth (write_all-IsSound w s.fourth sound))
      (write_all-keeps at d seen s.fifth (write_all-keeps at d w s.fourth holds))

create_document-EndsStored :
    (s : Schedule) (r : Request) (name : Text) (w : World)
    → IsSettled w
    → EndsStored r (create_document s r name w)
unfolding create_document
create_document-EndsStored s r name w settled =
    let d : Document = record {
      id = r.document_id;
      knowledge_base_id = r.knowledge_base_id;
      name = name;
    } in
    elim (Bool-cases (document_refused w d)) [
      | inl refused ↦ rw refused tt
      | inr allowed ↦ elim (Bool-cases (name_taken w d)) [
        | inl taken ↦ rw (allowed, taken) tt
        | inr free ↦
            rw (allowed, free)
              (number_version-EndsStored s r d (record w { pending = d ∷ [] })
                (pending-IsSound w d settled free allowed)
                (rw (equals_refl r.document_id, equals_refl r.knowledge_base_id) refl))
      ]
    ]

find_or_create-EndsStored :
    (s : Schedule) (r : Request) (name : Text) (w : World)
    → IsSettled w
    → EndsStored r (find_or_create s r name w)
find_or_create-EndsStored s r name w settled =
    elim (Option-cases (find_row (has_name r.knowledge_base_id name) w.documents)) [
      | inl missing ↦ subst (EndsStored r) (sym (find_or_create-none s r name w missing)) (
          create_document-EndsStored s r name (write_all w s.third)
            (write_all-IsSettled w s.third settled))
      | inr (d, found) ↦
          let base = r.knowledge_base_id in
          let named = find_row-true (has_name base name) w.documents d found in
          let unique : Unique same_document w.documents =
            rw settled.1 at settled.0.unique_documents in
          let place : is_at d.id base d ≡ true = ground (arith, equals_refl d.id) in
          let holds =
            find_row-Unique same_document (has_name base name) (is_at d.id base) w.documents d
              unique found place (λ e same. ground arith) in
          subst (EndsStored r) (sym (find_or_create-some s r name w d found))
            (number_version-EndsStored s r d w settled.0 (rw settled.1 holds))
    ]

register_attempt-EndsStored :
    (s : Schedule) (r : Request) (name : Text) (w : World)
    → IsSettled w
    → EndsStored r (register_attempt s r name w)
register_attempt-EndsStored s r name w settled =
    let seen = write_all w s.first in
    let settled' = write_all-IsSettled w s.first settled in
    elim (Option-cases (get_by_checksum seen r.knowledge_base_id r.checksum_sha256)) [
      | inl missing ↦ subst (EndsStored r) (sym (register_attempt-none s r name w missing)) (
          find_or_create-EndsStored s r name (write_all seen s.second)
            (write_all-IsSettled seen s.second settled'))
      | inr (existing, found) ↦
          subst (EndsStored r) (sym (register_attempt-some s r name w existing found))
            (found, λ new. cc)
    ]

-- What a call returns is what the look-up finds afterwards, and waits when it is new.
abbrev pub IsFound : Request → Result RegistrationError VersionRegistration × World → Type 0
IsFound r (ok result, w) =
    (get_by_checksum w r.knowledge_base_id r.checksum_sha256
      ≡ some (result.document, result.version))
    × (result.deduplicated ≡ false → result.version.status ≡ Status.pending)
IsFound r (err e, w) = Unit

register_loop-IsFound :
    (n : ℕ) (schedules : ℕ → Schedule) (r : Request) (name : Text) (w : World)
    → IsSettled w
    → IsFound r (register_loop n schedules r name w)
unfolding register_loop
register_loop-IsFound zero schedules r name w settled = tt
register_loop-IsFound (suc n) schedules r name w settled =
    let ends = register_attempt-EndsSettled (schedules n) r name w settled in
    let keeps = register_attempt-EndsStored (schedules n) r name w settled in
    elim (Attempt-cases (register_attempt (schedules n) r name w)) [
      | inl (result, w', e) ↦ rw (e, register_loop) (rw e at keeps)
      | inr (inl (w', e)) ↦
          rw (e, register_loop) (register_loop-IsFound n schedules r name w' (rw e at ends))
      | inr (inr (w', e)) ↦ rw (e, register_loop) tt
    ]

-- From tables that keep their constraints with nothing pending, whatever versions, each with a new
-- document or with none, other sessions commit between the statements of register_version, a
-- registration that it returns is what the look-up by the knowledge base and the checksum finds
-- afterwards, and its version is pending when it is new.
pub register_version-IsFound :
    (schedules : ℕ → Schedule) (r : Request) (w : World)
    → IsSettled w
    → IsFound r (register_version schedules r w)
unfolding register_version
register_version-IsFound schedules r w settled = elim (Bool-cases (is_sha256 r.checksum_sha256)) [
  | inr malformed ↦ rw malformed tt
  | inl well_formed ↦ elim (name_cases (normalize_document_name r.file_name)) [
    | inl (e, refused) ↦ rw (well_formed, refused) tt
    | inr (name, accepted) ↦
        rw (well_formed, accepted)
          (register_loop-IsFound max_registration_attempts schedules r name w settled)
  ]
]

-- A call that returns had a digest and a name.
pub register_version-accepts :
    (schedules : ℕ → Schedule) (r : Request) (w : World) {result : VersionRegistration}
    → (register_version schedules r w).0 ≡ ok result
    → (is_sha256 r.checksum_sha256 ≡ true)
      × ((name : Text) × (normalize_document_name r.file_name ≡ ok name))
unfolding register_version
register_version-accepts schedules r w h = elim (Bool-cases (is_sha256 r.checksum_sha256)) [
  | inr malformed ↦ let e = rw malformed at h in cc
  | inl well_formed ↦ elim (name_cases (normalize_document_name r.file_name)) [
    | inl (e, refused) ↦ let e' = rw (well_formed, refused) at h in cc
    | inr accepted ↦ (well_formed, accepted)
  ]
]

abbrev pub quiet : Schedule
quiet = record { first = []; second = []; third = []; fourth = []; fifth = [] }

pub register_loop-registered :
    (n : ℕ) (schedules : ℕ → Schedule) (r : Request) (name : Text) (w w' : World)
    (result : VersionRegistration)
    → register_attempt (schedules n) r name w ≡ registered result w'
    → register_loop (suc n) schedules r name w ≡ (ok result, w')
unfolding register_loop
register_loop-registered n schedules r name w w' result e = rw (e, register_loop) refl

-- A file that is there is not registered again, whatever it is called.
pub register_version-again :
    (schedules : ℕ → Schedule) (r : Request) (w : World) (d : Document) (v : Version) {name : Text}
    → (schedules 2).first ≡ []
    → is_sha256 r.checksum_sha256 ≡ true
    → normalize_document_name r.file_name ≡ ok name
    → get_by_checksum w r.knowledge_base_id r.checksum_sha256 ≡ some (d, v)
    → register_version schedules r w
      ≡ (ok (record { document = d; version = v; deduplicated = true }), w)
unfolding register_version write_all
register_version-again schedules r w d v {name} calm well_formed accepted found =
    let seen : write_all w (schedules 2).first ≡ w = rw calm refl in
    let result : VersionRegistration = record { document = d; version = v; deduplicated = true } in
    let attempt =
      register_attempt-some (schedules 2) r name w (d, v)
        (subst (λ x. get_by_checksum x r.knowledge_base_id r.checksum_sha256 ≡ some (d, v))
          (sym seen) found)
      ∙ ap (registered result) seen in
    rw (well_formed, accepted) (register_loop-registered 2 schedules r name w w result attempt)
