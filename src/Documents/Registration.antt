-- ===== src/Documents/Registration.antt =====
-- `DocumentService.register_version` of modules/documents/service.py with the statements of
-- repository.py and the constraints of models.py that it runs into. Other sessions write between its
-- statements: `Schedule` says what they commit before each of them. What the session has flushed and
-- not committed is `pending`: no other session reads it, and the constraints count it.
pub mod Sound
pub mod Attempts
pub mod Lookup
pub mod Copies
pub mod Stored
pub mod Alone
use sourcetrace.Prelude.{
  ℕ, zero, suc, ◌+◌, max, Bool, true, false, not, ◌&&◌, ◌||◌, Option, none, some, List, [], ◌∷◌,
  ◌++◌, map, ◌==◌, nat_eq, list_eq, ltb, leb, length, every, select, contains, some_of,
  if◌then◌else◌, Result, ok, err, ◌>>=◌, ◌>>◌, raise_if,
}
use sourcetrace.Text.{Text, is_empty, strip}
use sourcetrace.Documents.Records.{Status}

pub record Document : Type 0 where
  pub id : ℕ
  pub knowledge_base_id : ℕ
  pub name : Text

pub record Version : Type 0 where
  pub id : ℕ
  pub document_id : ℕ
  pub knowledge_base_id : ℕ
  pub version_number : ℕ
  pub checksum_sha256 : Text
  pub storage_key : Option Text
  pub file_size_bytes : Option ℕ
  pub page_count : Option ℕ
  pub status : Status
  pub created_at : ℕ

pub record VersionRegistration : Type 0 where
  pub document : Document
  pub version : Version
  pub deduplicated : Bool

pub data RegistrationError : Type 0 where
  invalid_checksum invalid_name registration_conflict integrity_error : RegistrationError

pub record World : Type 0 where
  pub bases : List ℕ
  pub documents : List Document
  pub pending : List Document
  pub versions : List Version

abbrev pub max_registration_attempts : ℕ
max_registration_attempts = 3

-- `[0-9a-f]{64}`
unfoldable pub is_sha256 : Text → Bool
is_sha256 s = (length s == 64) && every (λ c. (leb 48 c && leb c 57) || (leb 97 c && leb c 102)) s

unfoldable pub normalize_document_name : Text → Result RegistrationError Text
unfolding strip
normalize_document_name file_name =
    if is_empty (strip file_name) || ltb 255 (length (strip file_name))
    then err invalid_name
    else ok (strip file_name)

-- The keys of the constraints that `_is_concurrent_write` knows.
abbrev pub has_name : ℕ → Text → Document → Bool
has_name base name d = (d.knowledge_base_id == base) && (d.name == name)

abbrev pub has_checksum : ℕ → Text → Version → Bool
has_checksum base checksum v = (v.knowledge_base_id == base) && (v.checksum_sha256 == checksum)

abbrev pub has_number : ℕ → ℕ → Version → Bool
has_number document_id number v = (v.document_id == document_id) && (v.version_number == number)

abbrev pub all_documents : World → List Document
all_documents w = w.pending ++ w.documents

-- The relations that the constraints forbid between two rows.
abbrev pub same_name : Document → Document → Bool
same_name d = has_name d.knowledge_base_id d.name

abbrev pub same_document : Document → Document → Bool
same_document d e = e.id == d.id

abbrev pub same_checksum : Version → Version → Bool
same_checksum v = has_checksum v.knowledge_base_id v.checksum_sha256

abbrev pub same_number : Version → Version → Bool
same_number v = has_number v.document_id v.version_number

abbrev pub same_version : Version → Version → Bool
same_version v u = u.id == v.id

abbrev pub name_taken : World → Document → Bool
name_taken w d = some_of (same_name d) (all_documents w)

abbrev pub version_taken : World → Version → Bool
version_taken w v = some_of (same_checksum v) w.versions || some_of (same_number v) w.versions

-- The other constraints: primary keys, the foreign keys and the checks of the sizes.
abbrev pub document_refused : World → Document → Bool
document_refused w d =
    not (contains w.bases d.knowledge_base_id) || some_of (same_document d) (all_documents w)

abbrev pub is_zero : Option ℕ → Bool
is_zero none = false
is_zero (some n) = n == 0

abbrev pub holds_version : Version → Document → Bool
holds_version v d = (d.id == v.document_id) && (d.knowledge_base_id == v.knowledge_base_id)

abbrev pub version_refused : List Document → World → Version → Bool
version_refused documents w v =
    not (some_of (holds_version v) documents)
    || some_of (same_version v) w.versions
    || is_zero v.file_size_bytes
    || is_zero v.page_count

-- What another session commits: a version, and its document when that is new.
pub data Write : Type 0 where
  new_version : Version → Write
  new_document : Document → Version → Write

abbrev pub add_version : Version → World → World
add_version v w = record w { versions = w.versions ++ v ∷ [] }

abbrev pub add_document : Document → World → World
add_document d w = record w { documents = w.documents ++ d ∷ [] }

unfoldable pub write : World → Write → World
write w (new_version v) =
    if version_taken w v || version_refused w.documents w v then w else add_version v w
write w (new_document d v) =
    if name_taken w d
      || document_refused w d
      || version_taken w v
      || version_refused (w.documents ++ d ∷ []) w v
    then w
    else add_version v (add_document d w)

unfoldable pub write_all : World → List Write → World
unfolding write
write_all w [] = w
write_all w (x ∷ xs) = write_all (write w x) xs

-- What is committed before `get_by_checksum`, `get_document_by_name`, `create_document`,
-- `get_latest_version` and `create_version`.
pub record Schedule : Type 0 where
  pub first : List Write
  pub second : List Write
  pub third : List Write
  pub fourth : List Write
  pub fifth : List Write

abbrev pub find_row {ℓ} : {A : Type ℓ} → (A → Bool) → List A → Option A
find_row p [] = none
find_row p (x ∷ xs) = let rest = find_row p xs in if p x then some x else rest

-- `get_latest_version`: the greatest number of a version of the document.
abbrev pub latest_number : ℕ → List Version → ℕ
latest_number document_id [] = 0
latest_number document_id (v ∷ vs) =
    let rest = latest_number document_id vs in
    if v.document_id == document_id then max v.version_number rest else rest

-- The arguments of `register_version`, with the identifiers and the time of the rows it makes.
pub record Request : Type 0 where
  pub knowledge_base_id : ℕ
  pub file_name : Text
  pub checksum_sha256 : Text
  pub storage_key : Option Text
  pub file_size_bytes : Option ℕ
  pub page_count : Option ℕ
  pub document_id : ℕ
  pub version_id : ℕ
  pub now : ℕ

-- How an attempt ends: with a registration, a `DocumentWriteConflictError`, or another exception.
pub data Attempt : Type 0 where
  registered : VersionRegistration → World → Attempt
  conflict : World → Attempt
  broken : World → Attempt

abbrev pub rolled_back : World → World
rolled_back w = record w { pending = [] }

-- The commit makes the pending rows those of the database.
abbrev pub committed : World → World
committed w = record w { documents = w.pending ++ w.documents; pending = [] }

abbrev pub version_of : Request → ℕ → ℕ → Version
version_of r document_id number = record {
  id = r.version_id;
  document_id = document_id;
  knowledge_base_id = r.knowledge_base_id;
  version_number = number;
  checksum_sha256 = r.checksum_sha256;
  storage_key = r.storage_key;
  file_size_bytes = r.file_size_bytes;
  page_count = r.page_count;
  status = Status.pending;
  created_at = r.now;
}

unfoldable pub create_version : Request → Document → ℕ → World → Attempt
create_version r document number w =
    let version = version_of r document.id number in
    if version_refused (all_documents w) w version
    then broken (rolled_back w)
    else if version_taken w version
    then conflict (rolled_back w)
    else registered (record { document = document; version = version; deduplicated = false })
        (committed (add_version version w))

unfoldable pub number_version : Schedule → Request → Document → World → Attempt
unfolding write_all create_version
number_version s r document w =
    let seen = write_all w s.fourth in
    create_version r document (suc (latest_number document.id seen.versions))
      (write_all seen s.fifth)

unfoldable pub create_document : Schedule → Request → Text → World → Attempt
unfolding number_version
create_document s r name w =
    let document : Document = record {
      id = r.document_id;
      knowledge_base_id = r.knowledge_base_id;
      name = name;
    } in
    if document_refused w document
    then broken w
    else if name_taken w document
    then conflict w
    else number_version s r document (record w { pending = document ∷ [] })

unfoldable pub find_or_create : Schedule → Request → Text → World → Attempt
unfolding write_all number_version create_document
find_or_create s r name w = elim (find_row (has_name r.knowledge_base_id name) w.documents) [
  | none ↦ create_document s r name (write_all w s.third)
  | some document ↦ number_version s r document w
]

-- The version and its document, which the statement joins.
abbrev pub is_copy : World → ℕ → Text → Version → Bool
is_copy w base checksum v =
    (v.checksum_sha256 == checksum)
    && some_of (λ d. (d.id == v.document_id) && (d.knowledge_base_id == base)) w.documents

unfoldable pub get_by_checksum : World → ℕ → Text → Option (Document × Version)
get_by_checksum w base checksum = elim (find_row (is_copy w base checksum) w.versions) [
  | none ↦ none
  | some v ↦
      elim (find_row (λ d. (d.id == v.document_id) && (d.knowledge_base_id == base)) w.documents) [
        | none ↦ none
        | some d ↦ some (d, v)
      ]
]

-- `_register_version`
unfoldable pub register_attempt : Schedule → Request → Text → World → Attempt
unfolding write_all find_or_create get_by_checksum
register_attempt s r name w =
    let seen = write_all w s.first in
    elim (get_by_checksum seen r.knowledge_base_id r.checksum_sha256) [
      | none ↦ find_or_create s r name (write_all seen s.second)
      | some existing ↦
          registered (record { document = existing.0; version = existing.1; deduplicated = true })
            seen
    ]

unfoldable pub register_loop :
    ℕ
    → (ℕ → Schedule)
    → Request
    → Text
    → World
    → Result RegistrationError VersionRegistration × World
unfolding register_attempt
register_loop zero schedules r name w = (err registration_conflict, w)
register_loop (suc n) schedules r name w = elim (register_attempt (schedules n) r name w) [
  | registered result w' ↦ (ok result, w')
  | conflict w' ↦ register_loop n schedules r name w'
  | broken w' ↦ (err integrity_error, w')
]

unfoldable pub register_version :
    (ℕ → Schedule) → Request → World → Result RegistrationError VersionRegistration × World
unfolding register_loop is_sha256 normalize_document_name
register_version schedules r w =
    if not (is_sha256 r.checksum_sha256)
    then (err invalid_checksum, w)
    else elim (normalize_document_name r.file_name) [
      | err e ↦ (err e, w)
      | ok name ↦ register_loop max_registration_attempts schedules r name w
    ]
