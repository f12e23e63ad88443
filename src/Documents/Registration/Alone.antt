-- ===== src/Documents/Registration/Alone.antt =====
-- A registration that no other session disturbs returns.
use sourcetrace.Prelude.{
  equals_refl, ℕ, suc, ◌≡◌, refl, sym, subst, Bool, true, false, none, List, [], ◌∷◌, ◌++◌, ◌==◌,
  ◌<◌, contains, nat_eq, list_eq, some_of, All, Bool-cases, Option-cases, inl, inr, arith, ok,
}
use sourcetrace.Text.{Text}
use sourcetrace.Documents.Registration.{
  Document, Version, World, VersionRegistration, Request, Attempt, registered, has_name,
  has_checksum, has_number, name_taken, version_taken, document_refused, version_refused,
  holds_version, add_version, write_all, committed, version_of, find_row, latest_number,
  create_version, number_version, create_document, find_or_create, get_by_checksum,
  register_attempt, register_version, normalize_document_name, is_sha256, is_copy, is_zero,
}
use sourcetrace.Documents.Registration.Attempts.{
  IsSettled, find_or_create-none, find_or_create-some, register_attempt-none, register_attempt-some,
}
use sourcetrace.Documents.Registration.Lookup.{find_row-some_of, find_row-true, is_at}
use sourcetrace.Documents.Registration.Copies.{get_by_checksum-some}
use sourcetrace.Documents.Registration.Copies.{get_by_checksum-some}
use sourcetrace.Documents.Registration.Stored.{quiet, register_loop-registered}

-- What the database asks of the rows of a request.
pub record IsAcceptable (r : Request) (w : World) : Type 0 where
  pub known_base : contains w.bases r.knowledge_base_id ≡ true
  pub new_document_id : some_of (λ d. d.id == r.document_id) w.documents ≡ false
  pub new_version_id : some_of (λ v. v.id == r.version_id) w.versions ≡ false
  pub sized : is_zero r.file_size_bytes ≡ false
  pub paged : is_zero r.page_count ≡ false

latest_number-greatest :
    (i n : ℕ) (vs : List Version) → latest_number i vs < n → some_of (has_number i n) vs ≡ false
latest_number-greatest i n [] h = refl
latest_number-greatest i n (v ∷ vs) h = ground (arith, latest_number-greatest i n vs)

-- A checksum that the look-up does not find is no version's.
unused_checksum :
    (w : World) (base : ℕ) (checksum : Text)
    → (vs : List Version) → All (λ v. some_of (holds_version v) w.documents ≡ true) vs
    → find_row (is_copy w base checksum) vs ≡ none
    → some_of (has_checksum base checksum) vs ≡ false
unused_checksum w base checksum [] owned h = refl
unused_checksum w base checksum (v ∷ vs) owned h = elim (Bool-cases (is_copy w base checksum v)) [
  | inl copy ↦ let e = rw copy at h in cc
  | inr other ↦
      let rest = unused_checksum w base checksum vs owned.1 (rw other at h) in
      elim (Bool-cases (has_checksum base checksum v)) [
        | inr differs ↦ rw (differs, rest) refl
        | inl same ↦
            let base' : v.knowledge_base_id ≡ base = ground arith in
            let owner : some_of (is_at v.document_id base) w.documents ≡ true =
              subst (λ b. some_of (is_at v.document_id b) w.documents ≡ true) base' owned.0 in
            absurd (ground arith)
      ]
]

find_row-none :
    {A : Type 0} (p : A → Bool) (xs : List A) → find_row p xs ≡ none → some_of p xs ≡ false
find_row-none p [] h = refl
find_row-none p (x ∷ xs) h = ground (arith, find_row-none p xs)

copy_none :
    (w : World) (base : ℕ) (checksum : Text)
    → get_by_checksum w base checksum ≡ none
    → find_row (is_copy w base checksum) w.versions ≡ none
copy_none w base checksum h = elim (Option-cases (find_row (is_copy w base checksum) w.versions)) [
  | inl missing ↦ missing
  | inr (v, found) ↦
      let copy = find_row-true (is_copy w base checksum) w.versions v found in
      let owner : some_of (is_at v.document_id base) w.documents ≡ true = ground arith in
      elim (Option-cases (find_row (is_at v.document_id base) w.documents)) [
        | inl nowhere ↦ let e = find_row-none (is_at v.document_id base) w.documents nowhere in cc
        | inr (d, holds) ↦ let e = get_by_checksum-some w base checksum v d found holds in cc
      ]
]

unused_version :
    (r : Request) (w : World)
    → IsSettled w
    → get_by_checksum w r.knowledge_base_id r.checksum_sha256 ≡ none
    → some_of (has_checksum r.knowledge_base_id r.checksum_sha256) w.versions ≡ false
unused_version r w settled missing =
    unused_checksum w r.knowledge_base_id r.checksum_sha256 w.versions settled.0.owned
      (copy_none w r.knowledge_base_id r.checksum_sha256 missing)

module _ (r : Request) (w : World) (settled : IsSettled w) (acceptable : IsAcceptable r w) where
  -- The version is not refused, when its document is there.
  create_version-Registers :
      (d : Document) (pending : List Document)
      → some_of (is_at d.id r.knowledge_base_id) (pending ++ w.documents) ≡ true
      → some_of (has_checksum r.knowledge_base_id r.checksum_sha256) w.versions ≡ false
      → (result : VersionRegistration) × (w' : World) × (create_version r d
            (suc (latest_number d.id w.versions))
            (record w { pending = pending })
          ≡ registered result w')
  unfolding create_version
  create_version-Registers d pending owned unused =
      let number = suc (latest_number d.id w.versions) in
      let version = version_of r d.id number in
      let unnumbered = latest_number-greatest d.id number w.versions (omega arith) in
      let allowed : version_refused (pending ++ w.documents) w version ≡ false =
        rw (owned, acceptable.new_version_id, acceptable.sized, acceptable.paged) refl in
      let free : version_taken w version ≡ false = rw (unused, unnumbered) refl in
      (
        record { document = d; version = version; deduplicated = false },
        committed (add_version version (record w { pending = pending })),
        rw (allowed, free) refl,
      )

  abbrev Registers : Attempt → Type 0
  Registers a = (result : VersionRegistration) × (w' : World) × (a ≡ registered result w')

  number_version-Registers :
      (d : Document) (pending : List Document)
      → some_of (is_at d.id r.knowledge_base_id) (pending ++ w.documents) ≡ true
      → some_of (has_checksum r.knowledge_base_id r.checksum_sha256) w.versions ≡ false
      → Registers (number_version quiet r d (record w { pending = pending }))
  unfolding number_version write_all
  number_version-Registers d pending owned unused = create_version-Registers d pending owned unused

  create_document-Registers :
      (name : Text)
      → find_row (has_name r.knowledge_base_id name) w.documents ≡ none
      → some_of (has_checksum r.knowledge_base_id r.checksum_sha256) w.versions ≡ false
      → Registers (create_document quiet r name w)
  unfolding create_document
  create_document-Registers name missing unused =
      let d : Document = record {
        id = r.document_id;
        knowledge_base_id = r.knowledge_base_id;
        name = name;
      } in
      let allowed : document_refused w d ≡ false =
        rw (settled.1, acceptable.known_base, acceptable.new_document_id) refl in
      let free : name_taken w d ≡ false =
        rw settled.1 (find_row-none (has_name r.knowledge_base_id name) w.documents missing) in
      let here : some_of (is_at d.id r.knowledge_base_id) (d ∷ w.documents) ≡ true =
        rw (equals_refl r.document_id, equals_refl r.knowledge_base_id) refl in
      rw (allowed, free) (number_version-Registers d (d ∷ []) here unused)

  find_or_create-Registers :
      (name : Text)
      → some_of (has_checksum r.knowledge_base_id r.checksum_sha256) w.versions ≡ false
      → Registers (find_or_create quiet r name w)
  unfolding write_all
  find_or_create-Registers name unused =
      elim (Option-cases (find_row (has_name r.knowledge_base_id name) w.documents)) [
        | inl missing ↦
            subst Registers (sym (find_or_create-none quiet r name w missing))
              (create_document-Registers name missing unused)
        | inr (d, found) ↦
            let named = find_row-true (has_name r.knowledge_base_id name) w.documents d found in
            let owned =
              find_row-some_of (has_name r.knowledge_base_id name) (is_at d.id r.knowledge_base_id)
                w.documents d found (ground (arith, equals_refl d.id)) in
            subst Registers (sym (find_or_create-some quiet r name w d found)) (
              subst (λ x. Registers (number_version quiet r d (record w { pending = x })))
                (sym settled.1) (number_version-Registers d [] owned unused))
      ]

  register_attempt-Registers : (name : Text) → Registers (register_attempt quiet r name w)
  unfolding write_all
  register_attempt-Registers name =
      elim (Option-cases (get_by_checksum w r.knowledge_base_id r.checksum_sha256)) [
        | inr (existing, found) ↦ (_, _, register_attempt-some quiet r name w existing found)
        | inl missing ↦
            subst Registers (sym (register_attempt-none quiet r name w missing))
              (find_or_create-Registers name (unused_version r w settled missing))
      ]

  -- When no other session writes, the tables keep their constraints with nothing pending, the
  -- knowledge base exists, the identifiers are new, the sizes are not zero, the checksum is a
  -- SHA-256 digest and the name is acceptable, register_version returns a registration.
  pub register_version-returns :
      {name : Text}
      → is_sha256 r.checksum_sha256 ≡ true
      → normalize_document_name r.file_name ≡ ok name
      → (result : VersionRegistration) × (w' : World) × (register_version (λ n. quiet) r w
          ≡ (ok result, w'))
  unfolding register_version
  register_version-returns {name} well_formed accepted =
      let (result, w', e) = register_attempt-Registers name in
      (
        result,
        w',
        rw (well_formed, accepted) (register_loop-registered 2 (λ n. quiet) r name w w' result e),
      )
