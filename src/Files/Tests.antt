-- ===== src/Files/Tests.antt =====
-- An upload and its downloads (services/messages/application/file_service.go).
use lan_sync.Prelude.{
  String, ◌≡◌, ◌↔◌, refl, true, false, Option, none, some, [], ◌∷◌, if◌then◌else◌, ◌==◌, string_eq,
  eq_of, eq_self, arith,
}
use lan_sync.Prelude.Int.{ℤ, pos, int_eq}
use lan_sync.Prelude.Result.{Result, ok, err, ok-injective}
use lan_sync.Files.{
  CompleteUploadRequest, FileRecord, DbError, record_not_found, GoText, Backend, complete_upload,
  download_url_by_id, object_key_belongs_to_user, normalize_object_key,
}
use lan_sync.Files.Sharing.{IsFileTable, complete_upload-download}

-- A table of one file at most.
abbrev Table : Type 0
Table = Option FileRecord

abbrev by_id : ℤ → Table → Result DbError FileRecord
by_id id none = err record_not_found
by_id id (some f) = if f.id == id then ok f else err record_not_found

abbrev by_key : String → Table → Result DbError FileRecord
by_key k none = err record_not_found
by_key k (some f) = if f.object_key == k then ok f else err record_not_found

-- User 7 is the member of every room.
abbrev backend : Backend Table
backend = record {
  find_by_id = by_id;
  find_by_key = by_key;
  save = λ f s. (ok tt, some f);
  create = λ f s. (ok (record f { id = pos 1 }), some (record f { id = pos 1 }));
  check_is_member = λ room user s. ok (user == pos 7);
  get_download_url = λ key s. some "url";
  backend_type = "minio";
}

saved_lem : (f : FileRecord) → by_id f.id (some f) ≡ ok f
saved_lem f = rw (eq_self f.id) refl

keyed_lem : (k : String) (f : FileRecord) (s : Table) → by_key k s ≡ ok f → f.object_key ≡ k
keyed_lem k f none h = cc h
keyed_lem k f (some g) h = ground (arith, eq_of g.object_key k)

created_lem :
    (f g : FileRecord)
    → ◌≡◌ {A = Result DbError FileRecord} (ok (record f { id = pos 1 })) (ok g)
    → (by_id g.id (some (record f { id = pos 1 })) ≡ ok g)
      × (g.object_key ≡ f.object_key)
      × (g.uploader_id ≡ f.uploader_id)
      × (g.room_id ≡ f.room_id)
      × (g.status ≡ f.status)
created_lem f g h = let e = ok-injective h in rw (← e) (refl, refl, refl, refl, refl)

backend-IsFileTable : IsFileTable backend
backend-IsFileTable = record {
  saved = λ f s h. saved_lem f;
  created = λ f g s h. created_lem f g h;
  keyed = keyed_lem;
}

-- Texts of which every one is clean and belongs to user 3.
abbrev text : GoText
text = record {
  trim_space = λ s. s;
  trim_prefix = λ s p. s;
  has_prefix = λ s p. false;
  split_in_three = λ s. "day" ∷ "3" ∷ "a" ∷ [];
  clean = λ s. s;
  base = λ s. s;
  format_int = λ n. "3";
}

abbrev request : CompleteUploadRequest
request = record {
  object_key = "day/3/a";
  original_name = "a";
  sha256 = "";
  file_size = pos 5;
  room_id = pos 0;
}

abbrev file : FileRecord
file = record {
  id = pos 1;
  object_key = "day/3/a";
  original_name = "a";
  sha256 = "";
  size = pos 5;
  uploader_id = pos 3;
  room_id = pos 0;
  backend = "minio";
  status = "uploaded";
  message_id = pos 0;
  created_at = pos 0;
  updated_at = pos 0;
}

complete_upload-download_example :
    (file.uploader_id ≡ pos 3)
    × (object_key_belongs_to_user text file.object_key (pos 3) ≡ true)
    × ((download_url_by_id text backend (pos 4) file.id (some file) ≡ ok "url")
        ↔ ((pos 4 ≡ pos 3) × (backend.get_download_url file.object_key (some file) ≡ some "url")))
unfolding complete_upload normalize_object_key object_key_belongs_to_user
complete_upload-download_example =
    complete_upload-download text backend backend-IsFileTable (pos 3) request (pos 9) file none
      (pos 4) "url" refl
