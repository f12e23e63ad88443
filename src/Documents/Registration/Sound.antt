-- ===== src/Documents/Registration/Sound.antt =====
-- The constraints of models.py on the documents and their versions, whatever the sessions write.
use sourcetrace.Prelude.{
  symmetric_beq, ◌≡◌, refl, subst, Bool, true, false, ◌||◌, List, [], ◌∷◌, ◌++◌, nat_eq, list_eq,
  some_of, All, All-append, All-map, Bool-cases, inl, inr, arith,
}
use mathlib.Core.List.{append_assoc}
use sourcetrace.Documents.Registration.{
  Document, Version, World, Write, new_version, new_document, same_name, same_document,
  same_checksum, same_number, same_version, all_documents, name_taken, version_taken,
  document_refused, version_refused, holds_version, add_version, add_document, write, write_all,
}

-- No two rows are related.
abbrev pub Unique : {A : Type 0} → (A → A → Bool) → List A → Type 0
Unique same [] = Unit
Unique same (x ∷ xs) = (some_of (same x) xs ≡ false) × Unique same xs

module _ {A : Type 0} (same : A → A → Bool) where
  pub some_of-append :
      (p : A → Bool) (xs ys : List A) → some_of p (xs ++ ys) ≡ (some_of p xs || some_of p ys)
  some_of-append p [] ys = refl
  some_of-append p (x ∷ xs) ys = ground (arith, some_of-append p xs ys)

  Unique-snoc :
      ((x y : A) → same x y ≡ same y x)
      → (xs : List A) (x : A) → Unique same xs
      → some_of (same x) xs ≡ false
      → Unique same (xs ++ x ∷ [])
  Unique-snoc symmetric [] x h new = (refl, tt)
  Unique-snoc symmetric (y ∷ ys) x h new = (
    ground (arith, some_of-append (same y) ys (x ∷ []), symmetric x y),
    Unique-snoc symmetric ys x h.1 (ground arith),
  )

  pub Unique-right : (xs ys : List A) → Unique same (xs ++ ys) → Unique same ys
  Unique-right [] ys h = h
  Unique-right (x ∷ xs) ys h = Unique-right xs ys h.1

same_name_comm : (d e : Document) → same_name d e ≡ same_name e d
same_name_comm d e =
    rw (symmetric_beq e.knowledge_base_id d.knowledge_base_id, symmetric_beq e.name d.name) refl

same_document_comm : (d e : Document) → same_document d e ≡ same_document e d
same_document_comm d e = symmetric_beq e.id d.id

same_checksum_comm : (v u : Version) → same_checksum v u ≡ same_checksum u v
same_checksum_comm v u =
    rw
      (
        symmetric_beq u.knowledge_base_id v.knowledge_base_id,
        symmetric_beq u.checksum_sha256 v.checksum_sha256,
      )
      refl

same_number_comm : (v u : Version) → same_number v u ≡ same_number u v
same_number_comm v u =
    rw (symmetric_beq u.document_id v.document_id, symmetric_beq u.version_number v.version_number)
      refl

same_version_comm : (v u : Version) → same_version v u ≡ same_version u v
same_version_comm v u = symmetric_beq u.id v.id

pub record IsSound (w : World) : Type 0 where
  pub unique_names : Unique same_name (all_documents w)
  pub unique_documents : Unique same_document (all_documents w)
  pub unique_checksums : Unique same_checksum w.versions
  pub unique_numbers : Unique same_number w.versions
  pub unique_versions : Unique same_version w.versions
  pub owned : All (λ v. some_of (holds_version v) w.documents ≡ true) w.versions

-- A row that no constraint refuses.
pub add_version-IsSound :
    (w : World) (v : Version)
    → IsSound w
    → version_taken w v ≡ false
    → version_refused w.documents w v ≡ false
    → IsSound (add_version v w)
add_version-IsSound w v s taken refused = record {
  unique_names = s.unique_names;
  unique_documents = s.unique_documents;
  unique_checksums =
      Unique-snoc same_checksum same_checksum_comm w.versions v s.unique_checksums (ground arith);
  unique_numbers =
      Unique-snoc same_number same_number_comm w.versions v s.unique_numbers (ground arith);
  unique_versions =
      Unique-snoc same_version same_version_comm w.versions v s.unique_versions (ground arith);
  owned =
      All-append (λ u. some_of (holds_version u) w.documents ≡ true) w.versions (v ∷ []) s.owned
        (ground arith, tt);
}

pub some_of-right :
    {A : Type 0} (p : A → Bool) (xs ys : List A) → some_of p ys ≡ true → some_of p (xs ++ ys) ≡ true
some_of-right p [] ys h = h
some_of-right p (x ∷ xs) ys h = ground (arith, some_of-right p xs ys h)

pub some_of-left :
    {A : Type 0} (p : A → Bool) (xs ys : List A) → some_of p xs ≡ true → some_of p (xs ++ ys) ≡ true
some_of-left p (x ∷ xs) ys h = ground (arith, some_of-left p xs ys)
some_of-left p [] ys h = cc

add_document-IsSound :
    (w : World) (d : Document)
    → IsSound w
    → name_taken w d ≡ false
    → document_refused w d ≡ false
    → IsSound (add_document d w)
add_document-IsSound w d s taken refused = record {
  unique_names =
      subst (Unique same_name) (append_assoc w.pending w.documents (d ∷ []))
        (Unique-snoc same_name same_name_comm (all_documents w) d s.unique_names taken);
  unique_documents = subst (Unique same_document) (append_assoc w.pending w.documents (d ∷ [])) (
      Unique-snoc same_document same_document_comm (all_documents w) d s.unique_documents
        (ground arith));
  unique_checksums = s.unique_checksums;
  unique_numbers = s.unique_numbers;
  unique_versions = s.unique_versions;
  owned = All-map _ _ (λ v. some_of-left (holds_version v) w.documents (d ∷ [])) w.versions s.owned;
}

write-IsSound : (w : World) (x : Write) → IsSound w → IsSound (write w x)
unfolding write
write-IsSound w (new_version v) s =
    elim (Bool-cases (version_taken w v || version_refused w.documents w v)) [
      | inl clash ↦ rw clash s
      | inr free ↦ rw free (add_version-IsSound w v s (ground arith) (ground arith))
    ]
write-IsSound w (new_document d v) s =
    elim (Bool-cases (
      name_taken w d
      || document_refused w d
      || version_taken w v
      || version_refused (w.documents ++ d ∷ []) w v)) [
        | inl clash ↦ rw clash s
        | inr free ↦ rw free (
            add_version-IsSound (add_document d w) v
              (add_document-IsSound w d s (ground arith) (ground arith)) (ground arith)
              (ground arith))
      ]

pub write_all-IsSound : (w : World) (xs : List Write) → IsSound w → IsSound (write_all w xs)
unfolding write_all
write_all-IsSound w [] s = s
write_all-IsSound w (x ∷ xs) s = write_all-IsSound (write w x) xs (write-IsSound w x s)
