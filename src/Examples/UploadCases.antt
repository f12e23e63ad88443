-- ===== src/Examples/UploadCases.antt =====
-- The theorems on registrations and uploads at test data.
use sourcetrace.Prelude.{
  ℕ, ◌≡◌, refl, Bool, true, false, some, List, [], ◌∷◌, ◌++◌, nat_eq, list_eq, list_beq, ok, err,
}
use sourcetrace.Text.{Text, codes}
use sourcetrace.Documents.Records.{Status}
use sourcetrace.Documents.Registration.{
  World, VersionRegistration, Schedule, Request, Write, register_version, is_sha256,
  normalize_document_name,
}
use sourcetrace.Documents.Registration.Attempts.{IsSettled, register_version-IsSettled}
use sourcetrace.Documents.Registration.Stored.{IsFound, register_version-IsFound, quiet}
use sourcetrace.Documents.Registration.Alone.{register_version-returns}
use sourcetrace.Documents.Upload.{
  Outside, Turn, UploadError, Uploads, is_pdf, prepare, stage, upload,
}
use sourcetrace.Documents.Upload.Staged.{joined, stage-joined}
use sourcetrace.Documents.Upload.Queued.{IsOutcome, upload-IsOutcome, upload-again}

abbrev digest : Text
digest = codes "0123456789abcdef0123456789abcdef0123456789abcdef0123456789abcdef"

abbrev other_digest : Text
other_digest = codes "1123456789abcdef0123456789abcdef0123456789abcdef0123456789abcdef"

abbrev empty_world : World
empty_world = record { bases = 4 ∷ []; documents = []; pending = []; versions = [] }

empty_world-IsSettled : IsSettled empty_world
empty_world-IsSettled = (
  record {
    unique_names = tt;
    unique_documents = tt;
    unique_checksums = tt;
    unique_numbers = tt;
    unique_versions = tt;
    owned = tt;
  },
  refl,
)

abbrev request : Request
request = record {
  knowledge_base_id = 4;
  file_name = codes " pump.pdf";
  checksum_sha256 = digest;
  storage_key = some (codes "k");
  file_size_bytes = some 5;
  page_count = some 1;
  document_id = 20;
  version_id = 30;
  now = 9;
}

-- Another session takes the name between the look-up and the new document.
abbrev busy : ℕ → Schedule
busy n = record {
  first = [];
  second = [];
  third =
      Write.new_document (record { id = 21; knowledge_base_id = 4; name = codes "pump.pdf" })
        (record {
          id = 31;
          document_id = 21;
          knowledge_base_id = 4;
          version_number = 1;
          checksum_sha256 = other_digest;
          storage_key = some (codes "k");
          file_size_bytes = some 5;
          page_count = some 1;
          status = Status.pending;
          created_at = 8;
        })
      ∷ [];
  fourth = [];
  fifth = [];
}

register_version-IsSettled_example : IsSettled (register_version busy request empty_world).1
register_version-IsSettled_example =
    register_version-IsSettled busy request empty_world empty_world-IsSettled

register_version-IsFound_example : IsFound request (register_version busy request empty_world)
register_version-IsFound_example =
    register_version-IsFound busy request empty_world empty_world-IsSettled

register_version-returns_example :
    (result : VersionRegistration) × (w' : World) × (register_version
        (λ n. quiet)
        request
        empty_world
      ≡ (ok result, w'))
unfolding is_sha256 normalize_document_name
register_version-returns_example =
    register_version-returns request empty_world empty_world-IsSettled
      (record {
        known_base = refl;
        new_document_id = refl;
        new_version_id = refl;
        sized = refl;
        paged = refl;
      })
      refl refl

stage-joined_example :
    stage 6 (codes "%PDF-1" ∷ codes "a" ∷ []) ≡ err UploadError.pdf_file_too_large
unfolding is_pdf list_beq
stage-joined_example = stage-joined 6 (codes "%PDF-1") (codes "a" ∷ []) (refl, (refl, tt))

abbrev outside : Outside
outside = record {
  sha256 = λ content. digest;
  str_of_id = λ i. codes "4";
  read_pdf = λ content. some (false, 2);
  max_pages = 10;
  max_upload_bytes = 100;
}

abbrev turn : Bool → Turn
turn sends = record {
  disk_works = true;
  sends = λ n. sends;
  schedules = λ n. quiet;
  document_id = 20;
  version_id = 30;
  now = 9;
}

abbrev no_uploads : Uploads
no_uploads = record { world = empty_world; files = []; queue = [] }

abbrev chunks : List (List ℕ)
chunks = codes "%PDF-1" ∷ codes "abc" ∷ []

upload-IsOutcome_example :
    IsOutcome no_uploads 4 (upload outside (turn true) 4 (codes "pump.pdf") chunks no_uploads)
upload-IsOutcome_example =
    upload-IsOutcome outside 4 (codes "pump.pdf") chunks (turn true) no_uploads
      empty_world-IsSettled

abbrev lost_uploads : Uploads
lost_uploads = (upload outside (turn false) 4 (codes "pump.pdf") chunks no_uploads).1

upload-again_example :
    (registration : VersionRegistration) × ((upload outside
        (turn true)
        4
        (codes "pump.pdf")
        chunks
        lost_uploads).0
      ≡ ok registration)
    × ((upload outside (turn true) 4 (codes "pump.pdf") chunks lost_uploads).1.queue
        ≡ lost_uploads.queue ++ registration.version.id ∷ [])
    × (registration.version.status ≡ Status.pending)
unfolding prepare list_beq upload
upload-again_example =
    upload-again outside 4 (codes "pump.pdf") chunks (turn false) (turn true) no_uploads
      lost_uploads
      (record { file_name = codes "pump.pdf"; content = joined chunks; page_count = 2 })
      empty_world-IsSettled refl refl refl refl refl refl
