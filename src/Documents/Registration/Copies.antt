-- ===== src/Documents/Registration/Copies.antt =====
-- The look-up of a version by its checksum, when the constraints hold.
use sourcetrace.Prelude.{
  equals_refl, ℕ, ◌≡◌, refl, sym, ap, subst, ◌∙◌, Bool, true, false, ◌||◌, Option, none, some, List,
  [], ◌∷◌, ◌++◌, ◌==◌, nat_eq, list_eq, Eq, some_of, All, Bool-cases, Option-cases, inl, inr, arith,
}
use mathlib.Core.List.{append_assoc}
use sourcetrace.Text.{Text}
use sourcetrace.Documents.Registration.{
  Document, Version, World, Write, new_version, new_document, Request, same_document, has_checksum,
  all_documents, name_taken, version_taken, document_refused, version_refused, holds_version,
  add_version, write, write_all, committed, version_of, find_row, get_by_checksum, is_copy,
}
use sourcetrace.Documents.Registration.Sound.{Unique, IsSound, some_of-right}
use sourcetrace.Documents.Registration.Lookup.{
  find_row-some_of, find_row-true, find_row-append, find_row-snoc, is_at,
}

-- Writes of other sessions keep what a look-up of a document has found.
module _ (p : Document → Bool) (d : Document) where
  write-keeps :
      (w : World) (x : Write)
      → find_row p (all_documents w) ≡ some d
      → find_row p (all_documents (write w x)) ≡ some d
  unfolding write
  write-keeps w (new_version v) h =
      elim (Bool-cases (version_taken w v || version_refused w.documents w v)) [
        | inl clash ↦ rw clash h
        | inr free ↦ rw free h
      ]
  write-keeps w (new_document e v) h =
      elim (Bool-cases (
        name_taken w e
        || document_refused w e
        || version_taken w v
        || version_refused (w.documents ++ e ∷ []) w v)) [
          | inl clash ↦ rw clash h
          | inr free ↦ rw free (
              subst (λ ds. find_row p ds ≡ some d) (append_assoc w.pending w.documents (e ∷ []))
                (find_row-append p (all_documents w) (e ∷ []) d h))
        ]

  pub write_all-keeps :
      (w : World) (xs : List Write)
      → find_row p (all_documents w) ≡ some d
      → find_row p (all_documents (write_all w xs)) ≡ some d
  unfolding write_all
  write_all-keeps w [] h = h
  write_all-keeps w (x ∷ xs) h = write_all-keeps (write w x) xs (write-keeps w x h)

same_tail :
    (i b : ℕ) (d : Document) (ds : List Document)
    → some_of (is_at i b) ds ≡ true
    → (d.id == i) ≡ true
    → some_of (same_document d) ds ≡ true
same_tail i b d [] h k = cc
same_tail i b d (e ∷ ds) h k = ground (arith, same_tail i b d ds)

-- A version's document has its knowledge base, so that two of one identifier have one.
same_base :
    (i a b : ℕ) (ds : List Document)
    → Unique same_document ds
    → some_of (is_at i a) ds ≡ true
    → some_of (is_at i b) ds ≡ true
    → a ≡ b
same_base i a b [] u h k = cc
same_base i a b (d ∷ ds) u h k =
    ground (arith, same_base i a b ds u.1, same_tail i a d ds, same_tail i b d ds)

not_copy :
    (w : World) (base : ℕ) (checksum : Text)
    → IsSound w
    → (v : Version) → some_of (holds_version v) w.documents ≡ true
    → has_checksum base checksum v ≡ false
    → is_copy (committed w) base checksum v ≡ false
not_copy w base checksum s v owned h =
    elim (Bool-cases (some_of (is_at v.document_id base) (all_documents w))) [
      | inr unowned ↦ ground arith
      | inl found ↦
          let same =
            same_base v.document_id base v.knowledge_base_id (all_documents w) s.unique_documents
              found (some_of-right (holds_version v) w.pending w.documents owned) in
          ground arith
    ]

not_copied :
    (w : World) (base : ℕ) (checksum : Text)
    → IsSound w
    → (vs : List Version) → All (λ v. some_of (holds_version v) w.documents ≡ true) vs
    → some_of (has_checksum base checksum) vs ≡ false
    → some_of (is_copy (committed w) base checksum) vs ≡ false
not_copied w base checksum s [] owned h = refl
not_copied w base checksum s (v ∷ vs) owned h =
    ground (arith, not_copied w base checksum s vs owned.1, not_copy w base checksum s v owned.0)

pub get_by_checksum-some :
    (w : World) (base : ℕ) (checksum : Text) (v : Version) (d : Document)
    → find_row (is_copy w base checksum) w.versions ≡ some v
    → find_row (is_at v.document_id base) w.documents ≡ some d
    → get_by_checksum w base checksum ≡ some (d, v)
unfolding get_by_checksum
get_by_checksum-some w base checksum v d found holds = rw (found, get_by_checksum, holds) refl

equals_path : {A : Type 0} ⦃e : Eq A⦄ (x y : A) → (x == y) ≡ true → x ≡ y
equals_path ⦃e⦄ x y = (e.equals_iff x y).0

abbrev found_version : Version → Option (Document × Version) → Version
found_version v none = v
found_version v (some found) = found.1

pub get_by_checksum-none :
    (w : World) (base : ℕ) (checksum : Text)
    → find_row (is_copy w base checksum) w.versions ≡ none
    → get_by_checksum w base checksum ≡ none
unfolding get_by_checksum
get_by_checksum-none w base checksum missing = rw (missing, get_by_checksum) refl

get_by_checksum-nowhere :
    (w : World) (base : ℕ) (checksum : Text) (v : Version)
    → find_row (is_copy w base checksum) w.versions ≡ some v
    → find_row (is_at v.document_id base) w.documents ≡ none
    → get_by_checksum w base checksum ≡ none
unfolding get_by_checksum
get_by_checksum-nowhere w base checksum v found nowhere = rw (found, get_by_checksum, nowhere) refl

-- What the look-up finds has the checksum.
pub checksum_of :
    (w : World) (base : ℕ) (checksum : Text) (d : Document) (v : Version)
    → get_by_checksum w base checksum ≡ some (d, v)
    → v.checksum_sha256 ≡ checksum
checksum_of w base checksum d v h =
    elim (Option-cases (find_row (is_copy w base checksum) w.versions)) [
      | inl missing ↦ let e = get_by_checksum-none w base checksum missing in cc
      | inr (u, found) ↦
          let copy = find_row-true (is_copy w base checksum) w.versions u found in
          let same = equals_path u.checksum_sha256 checksum (ground arith) in
          elim (Option-cases (find_row (is_at u.document_id base) w.documents)) [
            | inl nowhere ↦ let e = get_by_checksum-nowhere w base checksum u found nowhere in cc
            | inr (e, holds) ↦
                let both : some (e, u) ≡ some (d, v) =
                  sym (get_by_checksum-some w base checksum u e found holds) ∙ h in
                let it : u ≡ v = ap (λ x. found_version u x) both in
                ap (λ x. x.checksum_sha256) (sym it) ∙ same
          ]
    ]

-- The new version, with its document, is found.
pub stored :
    (r : Request) (d : Document) (n : ℕ) (w : World)
    → IsSound w
    → find_row (is_at d.id r.knowledge_base_id) (all_documents w) ≡ some d
    → some_of (has_checksum r.knowledge_base_id r.checksum_sha256) w.versions ≡ false
    → get_by_checksum
        (committed (add_version (version_of r d.id n) w))
        r.knowledge_base_id
        r.checksum_sha256
      ≡ some (d, version_of r d.id n)
stored r d n w s holds new =
    let v = version_of r d.id n in
    let base = r.knowledge_base_id in
    let checksum = r.checksum_sha256 in
    let old = not_copied w base checksum s w.versions s.owned new in
    let owner =
      find_row-some_of (is_at d.id base) (is_at d.id base) (all_documents w) d holds
        (find_row-true (is_at d.id base) (all_documents w) d holds) in
    let it : is_copy (committed w) base checksum v ≡ true =
      rw (equals_refl r.checksum_sha256, owner) refl in
    let found = find_row-snoc (is_copy (committed w) base checksum) w.versions v old it in
    get_by_checksum-some (committed (add_version v w)) base checksum v d found holds
