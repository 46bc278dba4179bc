-- ===== src/Files.antt =====
-- The files that users upload: services/messages/application/file_service.go and the handlers of
-- services/messages/api/file_handler.go. The table of file records, the membership of rooms, the object storage and
-- Go's functions on strings and paths are parameters.
pub mod Sharing
mod Tests
use lan_sync.Prelude.{
  ℕ, String, Bool, true, false, Option, none, some, List, [], ◌∷◌, not, ◌&&◌, ◌||◌, ◌==◌, string_eq,
  if◌then◌else◌,
}
use lan_sync.Prelude.Int.{ℤ, pos, ltb_ℤ, leb_ℤ, int_eq}
use lan_sync.Prelude.Result.{Result, ok, err}

pub data Error : Type 0 where
  file_not_found file_forbidden invalid_file_key : Error
  -- any other, of the database or of the check of the membership
  internal : Error

pub record CompleteUploadRequest : Type 0 where
  pub object_key : String
  pub original_name : String
  pub sha256 : String
  pub file_size : ℤ
  pub room_id : ℤ

pub record FileRecord : Type 0 where
  pub id : ℤ
  pub object_key : String
  pub original_name : String
  pub sha256 : String
  pub size : ℤ
  pub uploader_id : ℤ
  pub room_id : ℤ
  pub backend : String
  pub status : String
  pub message_id : ℤ
  pub created_at : ℤ
  pub updated_at : ℤ

pub data DbError : Type 0 where
  record_not_found query_failed : DbError

-- strings.TrimSpace, TrimPrefix and HasPrefix, strings.SplitN at "/" into at most three parts, path.Clean and
-- path.Base, and strconv.FormatInt.
pub record GoText : Type 0 where
  pub trim_space : String → String
  pub trim_prefix : String → String → String
  pub has_prefix : String → String → Bool
  pub split_in_three : String → List String
  pub clean : String → String
  pub base : String → String
  pub format_int : ℤ → String

-- The table of file records, the members of rooms and the storage; a write returns what becomes of the table.
pub record Backend (S : Type 0) : Type 0 where
  pub find_by_id : ℤ → S → Result DbError FileRecord
  pub find_by_key : String → S → Result DbError FileRecord
  pub save : FileRecord → S → Result DbError (Unit {0}) × S
  pub create : FileRecord → S → Result DbError FileRecord × S
  pub check_is_member : ℤ → ℤ → S → Result DbError Bool
  pub get_download_url : String → S → Option String
  pub backend_type : String

module _ (text : GoText) where
  unfoldable pub normalize_object_key : String → Result Error String
  normalize_object_key raw =
      let cleaned = text.trim_prefix (text.clean (text.trim_space raw)) "/" in
      if cleaned == "" || cleaned == "." || text.has_prefix cleaned "../"
      then err invalid_file_key
      else ok cleaned

  abbrev pub second_is : String → List String → Bool
  second_is wanted (a ∷ b ∷ c ∷ []) = b == wanted
  second_is wanted _ = false

  unfoldable pub object_key_belongs_to_user : String → ℤ → Bool
  object_key_belongs_to_user key user = second_is (text.format_int user) (text.split_in_three key)

  module _ {S : Type 0} (backend : Backend S) where
    abbrev pub refreshed : FileRecord → CompleteUploadRequest → ℤ → FileRecord
    refreshed existing req now = record existing {
      original_name = text.base (text.trim_space req.original_name);
      sha256 = text.trim_space req.sha256;
      size = req.file_size;
      room_id = req.room_id;
      status = "uploaded";
      updated_at = now;
      backend = backend.backend_type;
    }

    abbrev pub new_record : String → ℤ → CompleteUploadRequest → FileRecord
    new_record key user req = record {
      id = pos 0;
      object_key = key;
      original_name = text.base (text.trim_space req.original_name);
      sha256 = text.trim_space req.sha256;
      size = req.file_size;
      uploader_id = user;
      room_id = req.room_id;
      backend = backend.backend_type;
      status = "uploaded";
      message_id = pos 0;
      created_at = pos 0;
      updated_at = pos 0;
    }

    abbrev pub saved : FileRecord → Result DbError (Unit {0}) × S → Result Error FileRecord × S
    saved file (err e, s) = (err internal, s)
    saved file (ok _, s) = (ok file, s)

    abbrev pub made : Result DbError FileRecord × S → Result Error FileRecord × S
    made (err e, s) = (err internal, s)
    made (ok file, s) = (ok file, s)

    abbrev pub store_record :
        ℤ
        → CompleteUploadRequest
        → ℤ
        → String
        → S
        → Result DbError FileRecord
        → Result Error FileRecord × S
    store_record user req now key s (ok existing) =
        if not (existing.uploader_id == user)
        then (err file_forbidden, s)
        else saved (refreshed existing req now) (backend.save (refreshed existing req now) s)
    store_record user req now key s (err record_not_found) =
        made (backend.create (new_record key user req) s)
    store_record user req now key s (err query_failed) = (err internal, s)

    -- `if req.RoomID > 0`; with no error where the room needs no check.
    abbrev pub room_checked : Result DbError Bool → Result Error (Unit {0})
    room_checked (err e) = err internal
    room_checked (ok false) = err file_forbidden
    room_checked (ok true) = ok tt

    abbrev pub check_room : ℤ → ℤ → S → Result Error (Unit {0})
    check_room room user s =
        if ltb_ℤ (pos 0) room then room_checked (backend.check_is_member room user s) else ok tt

    abbrev pub checked_upload :
        ℤ
        → CompleteUploadRequest
        → ℤ
        → String
        → S
        → Result Error (Unit {0})
        → Result Error FileRecord × S
    checked_upload user req now key s (err e) = (err e, s)
    checked_upload user req now key s (ok _) =
        store_record user req now key s (backend.find_by_key key s)

    abbrev pub keyed_upload :
        ℤ → CompleteUploadRequest → ℤ → S → Result Error String → Result Error FileRecord × S
    keyed_upload user req now s (err e) = (err invalid_file_key, s)
    keyed_upload user req now s (ok key) =
        if object_key_belongs_to_user key user
        then checked_upload user req now key s (check_room req.room_id user s)
        else (err invalid_file_key, s)

    unfoldable pub complete_upload : ℤ → CompleteUploadRequest → ℤ → S → Result Error FileRecord × S
    unfolding object_key_belongs_to_user
    complete_upload user req now s =
        keyed_upload user req now s (normalize_object_key req.object_key)

    abbrev pub url_of : Option String → Result Error String
    url_of none = err file_not_found
    url_of (some url) = ok url

    abbrev pub member_url : FileRecord → S → Result DbError Bool → Result Error String
    member_url file s (err e) = err internal
    member_url file s (ok false) = err file_forbidden
    member_url file s (ok true) = url_of (backend.get_download_url file.object_key s)

    unfoldable pub authorized_download_url : ℤ → FileRecord → S → Result Error String
    authorized_download_url user file s =
        if not (file.status == "uploaded")
        then err file_not_found
        else if ltb_ℤ (pos 0) file.room_id
        then member_url file s (backend.check_is_member file.room_id user s)
        else if not (file.uploader_id == user)
        then err file_forbidden
        else url_of (backend.get_download_url file.object_key s)

    abbrev pub found_url : ℤ → S → Result DbError FileRecord → Result Error String
    found_url user s (ok file) = authorized_download_url user file s
    found_url user s (err record_not_found) = err file_not_found
    found_url user s (err query_failed) = err internal

    unfoldable pub download_url_by_id : ℤ → ℤ → S → Result Error String
    unfolding authorized_download_url
    download_url_by_id user file s = found_url user s (backend.find_by_id file s)

    abbrev pub keyed_url : ℤ → S → Result Error String → Result Error String
    keyed_url user s (err e) = err e
    keyed_url user s (ok key) = found_url user s (backend.find_by_key key s)

    unfoldable pub download_url_by_object_key : ℤ → String → S → Result Error String
    unfolding authorized_download_url
    download_url_by_object_key user key s = keyed_url user s (normalize_object_key key)

-- writeFileError.
abbrev pub status_of {ℓ} : {A : Type ℓ} → Result Error A → ℕ
status_of (ok a) = 200
status_of (err invalid_file_key) = 400
status_of (err file_forbidden) = 403
status_of (err file_not_found) = 404
status_of (err internal) = 500

abbrev pub replied : Result Error String → ℕ × Option String
replied (ok url) = (200, some url)
replied (err e) = (status_of {A = String} (err e), none)

module _ (text : GoText) {S : Type 0} (backend : Backend S) where
  abbrev pub numbered_download : ℤ → Option ℤ → S → ℕ × Option String
  numbered_download user none s = (400, none)
  numbered_download user (some file) s =
      if leb_ℤ file (pos 0)
      then (400, none)
      else replied (download_url_by_id text backend user file s)

  -- The handler of the download by number: the status and the address that is sent.
  unfoldable pub download_file_by_id : ℤ → Option ℤ → S → ℕ × Option String
  download_file_by_id user file s = numbered_download user file s
