-- ===== src/Documents/Upload/Queued.antt =====
-- What an upload stages, registers and puts into the queue, and how one whose version was registered
-- and not queued is made good.
use sourcetrace.Prelude.{
  ℕ, ◌≡◌, refl, sym, ap, subst, ◌∙◌, true, false, some, List, [], ◌∷◌, ◌++◌, nat_eq, Bool-cases,
  inl, inr, ◌⊎◌, arith, if◌then◌else◌, Result, ok, err,
}
use sourcetrace.Text.{Text}
use sourcetrace.Documents.Records.{Status}
use sourcetrace.Documents.Registration.{
  World, VersionRegistration, RegistrationError, Schedule, Request, register_version,
  get_by_checksum,
}
use sourcetrace.Documents.Registration.Attempts.{IsSettled, register_version-IsSettled}
use sourcetrace.Documents.Registration.Stored.{
  IsFound, register_version-IsFound, register_version-accepts, register_version-again,
}
use sourcetrace.Documents.Upload.{
  Outside, Turn, UploadError, Uploads, Prepared, Call, prepare, request_of, is_pending,
  wants_ingestion, enqueue, save, upload, send_loop, queue_send_attempts, storage_key_of,
  store_file,
}
use sourcetrace.Documents.Registration.Copies.{checksum_of}

abbrev pub IsOutcome : Uploads → ℕ → Call → Type 0
IsOutcome u knowledge_base_id (ok registration, u') =
    (u'.queue
      ≡ (if wants_ingestion registration then u.queue ++ registration.version.id ∷ [] else u.queue))
    × (get_by_checksum u'.world knowledge_base_id registration.version.checksum_sha256
        ≡ some (registration.document, registration.version))
    × IsSettled u'.world
IsOutcome u knowledge_base_id (err e, u') = (u'.queue ≡ u.queue) × IsSettled u'.world

-- The branches of `enqueue`.
enqueue-IsOutcome :
    (turn : Turn) (u : Uploads) (r : Request)
    (x : Result RegistrationError VersionRegistration × World)
    → IsSettled x.1
    → IsFound r x
    → IsOutcome u r.knowledge_base_id (enqueue turn u x)
unfolding enqueue
enqueue-IsOutcome turn u r (err e, w) settled found = (refl, settled)
enqueue-IsOutcome turn u r (ok registration, w) settled found =
    let same =
      checksum_of w r.knowledge_base_id r.checksum_sha256 registration.document registration.version
        found.0 in
    let found' =
      subst
        (λ c.
          get_by_checksum w r.knowledge_base_id c
          ≡ some (registration.document, registration.version))
        (sym same) found.0 in
    elim (Bool-cases (wants_ingestion registration)) [
      | inr known ↦ rw (known, enqueue) (rw known refl, found', settled)
      | inl wanted ↦ elim (Bool-cases (send_loop queue_send_attempts turn.sends)) [
        | inl sent ↦ rw (wanted, sent, enqueue) (rw wanted refl, found', settled)
        | inr lost ↦ rw (wanted, lost, enqueue) (refl, settled)
      ]
    ]

save-IsOutcome :
    (o : Outside) (turn : Turn) (knowledge_base_id : ℕ) (p : Prepared) (u : Uploads)
    → IsSettled u.world
    → IsOutcome u knowledge_base_id (save o turn knowledge_base_id p u)
unfolding save
save-IsOutcome o turn knowledge_base_id p u settled = elim (Bool-cases turn.disk_works) [
  | inr broken ↦ rw broken (refl, settled)
  | inl works ↦
      let r = request_of o turn knowledge_base_id p in
      rw works (
        enqueue-IsOutcome turn
          (record u {
            files =
                store_file (storage_key_of o knowledge_base_id r.checksum_sha256) p.content u.files;
          })
          r (register_version turn.schedules r u.world)
          (register_version-IsSettled turn.schedules r u.world settled)
          (register_version-IsFound turn.schedules r u.world settled))
]

prepare_cases :
    (x : Result UploadError Prepared)
    → ((e : UploadError) × (x ≡ err e)) ⊎ ((p : Prepared) × (x ≡ ok p))
prepare_cases (err e) = inl (e, refl)
prepare_cases (ok p) = inr (p, refl)

returned-IsFound :
    (r : Request) (schedules : ℕ → Schedule) (w : World) (registration : VersionRegistration)
    → IsSettled w
    → (register_version schedules r w).0 ≡ ok registration
    → IsFound r (ok registration, (register_version schedules r w).1)
returned-IsFound r schedules w registration settled returned =
    subst (λ x. IsFound r (x, (register_version schedules r w).1)) returned
      (register_version-IsFound schedules r w settled)

pending_path : (status : Status) → is_pending status ≡ true → status ≡ Status.pending
pending_path Status.pending h = refl
pending_path Status.processing h = cc
pending_path Status.chunked h = cc
pending_path Status.completed h = cc
pending_path Status.failed h = cc

-- A version that is wanted waits.
wanted_waits :
    (registration : VersionRegistration)
    → wants_ingestion registration ≡ true
    → (registration.deduplicated ≡ false → registration.version.status ≡ Status.pending)
    → registration.version.status ≡ Status.pending
wanted_waits registration wanted new = elim (Bool-cases registration.deduplicated) [
  | inr fresh ↦ new fresh
  | inl known ↦ pending_path registration.version.status (ground arith)
]

-- A call whose version is there, waits and gets into the queue at the first send.
save-known :
    (o : Outside) (turn : Turn) (knowledge_base_id : ℕ) (p : Prepared) (u : Uploads)
    (registration : VersionRegistration)
    → turn.disk_works ≡ true
    → register_version turn.schedules (request_of o turn knowledge_base_id p) u.world
      ≡ (ok registration, u.world)
    → is_pending registration.version.status ≡ true
    → turn.sends 2 ≡ true
    → save o turn knowledge_base_id p u ≡ (
      ok registration,
      record {
        world = u.world;
        files =
            store_file (storage_key_of o knowledge_base_id (o.sha256 p.content)) p.content u.files;
        queue = u.queue ++ registration.version.id ∷ [];
      },
    )
unfolding save enqueue send_loop
save-known o turn knowledge_base_id p u registration works repeated waits sent =
    let wanted : wants_ingestion registration ≡ true = ground arith in
    rw (works, repeated, wanted, sent) refl

abbrev world_of : Call → World
world_of x = x.1.world

-- A call whose version did not get into the queue has registered it.
enqueue-lost :
    (turn : Turn) (u u' : Uploads) (x : Result RegistrationError VersionRegistration × World)
    → enqueue turn u x ≡ (err UploadError.queue_unavailable, u')
    → (registration : VersionRegistration) × (x.0 ≡ ok registration)
      × (u'.world ≡ x.1)
      × (wants_ingestion registration ≡ true)
unfolding enqueue
enqueue-lost turn u u' (err e, w) h = let e' = ap (λ c. c.0) h in cc
enqueue-lost turn u u' (ok registration, w) h = elim (Bool-cases (wants_ingestion registration)) [
  | inr known ↦ let e = ap (λ c. c.0) (rw (known, enqueue) at h) in cc
  | inl wanted ↦ elim (Bool-cases (send_loop queue_send_attempts turn.sends)) [
    | inl sent ↦ let e = ap (λ c. c.0) (rw (wanted, sent, enqueue) at h) in cc
    | inr lost ↦ (registration, refl, sym (ap world_of (rw (wanted, lost, enqueue) at h)), wanted)
  ]
]

save-lost :
    (o : Outside) (turn : Turn) (knowledge_base_id : ℕ) (p : Prepared) (u u' : Uploads)
    → save o turn knowledge_base_id p u ≡ (err UploadError.queue_unavailable, u')
    → (registration : VersionRegistration) × ((register_version turn.schedules
          (request_of o turn knowledge_base_id p)
          u.world).0
        ≡ ok registration)
      × (u'.world
          ≡ (register_version turn.schedules (request_of o turn knowledge_base_id p) u.world).1)
      × (wants_ingestion registration ≡ true)
unfolding save
save-lost o turn knowledge_base_id p u u' h = elim (Bool-cases turn.disk_works) [
  | inr broken ↦ let e = ap (λ c. c.0) (rw broken at h) in cc
  | inl works ↦
      let r = request_of o turn knowledge_base_id p in
      enqueue-lost turn
        (record u {
          files =
              store_file (storage_key_of o knowledge_base_id r.checksum_sha256) p.content u.files;
        })
        u' (register_version turn.schedules r u.world) (rw works at h)
]

module _ (o : Outside) (knowledge_base_id : ℕ) (file_name : Text) (chunks : List (List ℕ)) where
  upload-refused :
      (turn : Turn) (u : Uploads) (e : UploadError)
      → prepare o u.world.bases knowledge_base_id file_name chunks ≡ err e
      → upload o turn knowledge_base_id file_name chunks u ≡ (err e, u)
  unfolding upload
  upload-refused turn u e refused = rw (refused, upload) refl

  upload-prepared :
      (turn : Turn) (u : Uploads) (p : Prepared)
      → prepare o u.world.bases knowledge_base_id file_name chunks ≡ ok p
      → upload o turn knowledge_base_id file_name chunks u ≡ save o turn knowledge_base_id p u
  unfolding upload
  upload-prepared turn u p prepared = rw (prepared, upload) refl

  -- From tables that keep their constraints with nothing pending, an upload that returns puts its
  -- version at the end of the queue when the version is new or pending, and leaves the queue as it
  -- is otherwise, and the look-up by checksum finds the version; an upload that raises leaves the
  -- queue as it is. In both cases the tables keep their constraints with nothing pending.
  pub upload-IsOutcome :
      (turn : Turn) (u : Uploads)
      → IsSettled u.world
      → IsOutcome u knowledge_base_id (upload o turn knowledge_base_id file_name chunks u)
  upload-IsOutcome turn u settled =
      elim (prepare_cases (prepare o u.world.bases knowledge_base_id file_name chunks)) [
        | inl (e, refused) ↦
            subst (IsOutcome u knowledge_base_id) (sym (upload-refused turn u e refused))
              (refl, settled)
        | inr (p, prepared) ↦
            subst (IsOutcome u knowledge_base_id) (sym (upload-prepared turn u p prepared))
              (save-IsOutcome o turn knowledge_base_id p u settled)
      ]

  -- When the tables keep their constraints with nothing pending, and an upload of an acceptable
  -- file ends because the queue is unavailable, the same upload, with its knowledge base still
  -- there, a working disk, a queue that takes the first message and no other session that writes
  -- before its look-up, returns a registration whose version is pending and puts that version at
  -- the end of the queue.
  pub upload-again :
      (turn again : Turn) (u u' : Uploads) (p : Prepared)
      → IsSettled u.world
      → prepare o u.world.bases knowledge_base_id file_name chunks ≡ ok p
      → upload o turn knowledge_base_id file_name chunks u ≡ (err UploadError.queue_unavailable, u')
      → prepare o u'.world.bases knowledge_base_id file_name chunks ≡ ok p
      → (again.schedules 2).first ≡ []
      → again.disk_works ≡ true
      → again.sends 2 ≡ true
      → (registration : VersionRegistration) × ((upload o again knowledge_base_id file_name chunks
            u').0
          ≡ ok registration)
        × ((upload o again knowledge_base_id file_name chunks u').1.queue
            ≡ u'.queue ++ registration.version.id ∷ [])
        × (registration.version.status ≡ Status.pending)
  upload-again turn again u u' p settled prepared lost prepared' calm works sent =
      let r = request_of o turn knowledge_base_id p in
      let (registration, returned, world', wanted) =
        save-lost o turn knowledge_base_id p u u'
          (sym (upload-prepared turn u p prepared) ∙ lost) in
      let found = returned-IsFound r turn.schedules u.world registration settled returned in
      let accepted = register_version-accepts turn.schedules r u.world returned in
      let waits = wanted_waits registration wanted found.1 in
      let same : VersionRegistration = record {
        document = registration.document;
        version = registration.version;
        deduplicated = true;
      } in
      let repeated =
        register_version-again again.schedules (request_of o again knowledge_base_id p) u'.world
          registration.document registration.version calm accepted.0 accepted.1.1
          (subst
            (λ w.
              get_by_checksum w knowledge_base_id r.checksum_sha256
              ≡ some (registration.document, registration.version))
            (sym world') found.0) in
      let whole =
        upload-prepared again u' p prepared'
        ∙ save-known o again knowledge_base_id p u' same works repeated (ap is_pending waits)
            sent in
      (same, ap (λ c. c.0) whole, ap (λ c. c.1.queue) whole, waits)
