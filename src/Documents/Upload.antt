-- ===== src/Documents/Upload.antt =====
-- `DocumentUploadService` of modules/documents/service.py, with `PdfValidator` of validation.py,
-- `LocalDocumentStorage.store` of storage.py and `DramatiqIngestionQueue.enqueue` of queue.py.
-- `Outside` is what is read of a file by `hashlib` and `pypdf`, and the text of an identifier; `Turn`
-- says how the disk, the broker and the other sessions behave during one call.
pub mod Staged
pub mod Queued
use sourcetrace.Prelude.{
  ℕ, zero, suc, ◌+◌, Bool, true, false, not, ◌&&◌, ◌||◌, Option, none, some, List, [], ◌∷◌, ◌++◌,
  map, ◌==◌, nat_eq, list_eq, ltb, length, take, contains, if◌then◌else◌, Result, ok, err, ◌>>=◌,
  ◌>>◌, raise_if,
}
use sourcetrace.Text.{Text, codes, is_empty}
use sourcetrace.Documents.Records.{Status}
use sourcetrace.Documents.Registration.{
  World, VersionRegistration, RegistrationError, Schedule, Request, register_version,
  normalize_document_name,
}

pub record Outside : Type 0 where
  pub sha256 : List ℕ → Text
  pub str_of_id : ℕ → Text
  -- What `PdfReader` says: `is_encrypted` and the number of pages, or that it cannot read the file.
  pub read_pdf : List ℕ → Option (Bool × ℕ)
  pub max_pages : ℕ
  pub max_upload_bytes : ℕ

pub record Turn : Type 0 where
  pub disk_works : Bool
  pub sends : ℕ → Bool
  pub schedules : ℕ → Schedule
  pub document_id : ℕ
  pub version_id : ℕ
  pub now : ℕ

pub data UploadError : Type 0 where
  knowledge_base_not_found invalid_name invalid_pdf_signature pdf_file_too_large : UploadError
  encrypted_pdf pdf_page_limit_exceeded corrupt_pdf not_stored queue_unavailable : UploadError
  not_registered : RegistrationError → UploadError

pub record Uploads : Type 0 where
  pub world : World
  pub files : List (Text × List ℕ)
  pub queue : List ℕ

-- `chunk.startswith(b"%PDF-")`
unfoldable pub is_pdf : List ℕ → Bool
is_pdf chunk = take 5 chunk == codes "%PDF-"

-- The loop of `_stage` over the chunks that `_chunks` yields, up to an empty one.
unfoldable pub stage_loop : ℕ → Bool → List ℕ → List (List ℕ) → Result UploadError (List ℕ)
unfolding is_pdf
stage_loop max_bytes first_chunk staged [] =
    if first_chunk then err invalid_pdf_signature else ok staged
stage_loop max_bytes first_chunk staged (chunk ∷ chunks) =
    let rest = stage_loop max_bytes false (staged ++ chunk) chunks in
    if is_empty chunk
    then (if first_chunk then err invalid_pdf_signature else ok staged)
    else if first_chunk && not (is_pdf chunk)
    then err invalid_pdf_signature
    else if ltb max_bytes (length (staged ++ chunk))
    then err pdf_file_too_large
    else rest

unfoldable pub stage : ℕ → List (List ℕ) → Result UploadError (List ℕ)
unfolding stage_loop
stage max_bytes chunks = stage_loop max_bytes true [] chunks

-- `_validate_sync`: the number of pages.
abbrev check_pages : ℕ → Option (Bool × ℕ) → Result UploadError ℕ
check_pages max_pages none = err corrupt_pdf
check_pages max_pages (some (encrypted, pages)) =
    if encrypted
    then err encrypted_pdf
    else if ltb max_pages pages
    then err pdf_page_limit_exceeded
    else if pages == 0
    then err corrupt_pdf
    else ok pages

unfoldable pub validate : Outside → List ℕ → Result UploadError ℕ
validate o content = check_pages o.max_pages (o.read_pdf content)

-- `_store_sync`: a file that is there is kept.
unfoldable pub store_file : Text → List ℕ → List (Text × List ℕ) → List (Text × List ℕ)
store_file key content files =
    if contains (map (λ f. f.0) files) key then files else files ++ (key, content) ∷ []

abbrev pub storage_key_of : Outside → ℕ → Text → Text
storage_key_of o knowledge_base_id checksum =
    o.str_of_id knowledge_base_id ++ (codes "/" ++ (checksum ++ codes ".pdf"))

abbrev pub queue_send_attempts : ℕ
queue_send_attempts = 3

-- `enqueue`: whether one of the sends that are left succeeds.
unfoldable pub send_loop : ℕ → (ℕ → Bool) → Bool
send_loop zero sends = false
send_loop (suc n) sends = let later = send_loop n sends in if sends n then true else later

-- What `upload` has of the file before it is stored.
pub record Prepared : Type 0 where
  pub file_name : Text
  pub content : List ℕ
  pub page_count : ℕ

abbrev named : Result RegistrationError Text → Result UploadError Text
named (err e) = err invalid_name
named (ok name) = ok name

unfoldable pub prepare : Outside → List ℕ → ℕ → Text → List (List ℕ) → Result UploadError Prepared
unfolding stage validate normalize_document_name
prepare o bases knowledge_base_id file_name chunks = do
  raise_if (not (contains bases knowledge_base_id)) knowledge_base_not_found
  name ← named (normalize_document_name file_name)
  content ← stage o.max_upload_bytes chunks
  page_count ← validate o content
  ok (record { file_name = name; content = content; page_count = page_count })

abbrev pub request_of : Outside → Turn → ℕ → Prepared → Request
request_of o turn knowledge_base_id p = record {
  knowledge_base_id = knowledge_base_id;
  file_name = p.file_name;
  checksum_sha256 = o.sha256 p.content;
  storage_key = some (storage_key_of o knowledge_base_id (o.sha256 p.content));
  file_size_bytes = some (length p.content);
  page_count = some p.page_count;
  document_id = turn.document_id;
  version_id = turn.version_id;
  now = turn.now;
}

abbrev pub is_pending : Status → Bool
is_pending Status.pending = true
is_pending _ = false

abbrev pub wants_ingestion : VersionRegistration → Bool
wants_ingestion registration =
    not registration.deduplicated || is_pending registration.version.status

abbrev pub Call : Type 0
Call = Result UploadError VersionRegistration × Uploads

unfoldable pub enqueue :
    Turn → Uploads → Result RegistrationError VersionRegistration × World → Call
unfolding send_loop
enqueue turn u (err e, w) = (err (not_registered e), record u { world = w })
enqueue turn u (ok registration, w) =
    if wants_ingestion registration
    then (if send_loop queue_send_attempts turn.sends
        then (
          ok registration,
          record u { world = w; queue = u.queue ++ registration.version.id ∷ [] },
        )
        else (err queue_unavailable, record u { world = w }))
    else (ok registration, record u { world = w })

unfoldable pub save : Outside → Turn → ℕ → Prepared → Uploads → Call
unfolding store_file register_version enqueue
save o turn knowledge_base_id p u =
    let key = storage_key_of o knowledge_base_id (o.sha256 p.content) in
    if turn.disk_works
    then enqueue turn (record u { files = store_file key p.content u.files })
        (register_version turn.schedules (request_of o turn knowledge_base_id p) u.world)
    else (err not_stored, u)

unfoldable pub upload : Outside → Turn → ℕ → Text → List (List ℕ) → Uploads → Call
unfolding prepare save
upload o turn knowledge_base_id file_name chunks u =
    elim (prepare o u.world.bases knowledge_base_id file_name chunks) [
      | err e ↦ (err e, u)
      | ok p ↦ save o turn knowledge_base_id p u
    ]
