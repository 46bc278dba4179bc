-- ===== src/AdminFiles/Tests.antt =====
-- A cleanup with one object that has a record and one that was uploaded just now
-- (services/admin/application/file_service.go).
use lan_sync.Prelude.{
  ◌≡◌, refl, String, string_eq, Bool, true, false, not, [], ◌∷◌, ◌&&◌, ◌==◌, take, arith,
}
use lan_sync.Prelude.Int.{pos}
use lan_sync.Prelude.Result.{ok}
use lan_sync.Hub.{contains}
use lan_sync.Files.{FileRecord}
use lan_sync.AdminFiles.{
  FileBackend, ObjectStat, AuditAction, cleanup_orphans, clean_scan, clean, scan_anomalies,
}
use lan_sync.AdminFiles.Cleanup.{cleanup_orphans-stat}

abbrev photo : FileRecord
photo = record {
  id = pos 1;
  object_key = "a";
  original_name = "a.png";
  sha256 = "";
  size = pos 3;
  uploader_id = pos 5;
  room_id = pos 7;
  backend = "minio";
  status = "uploaded";
  message_id = pos 0;
  created_at = pos 100;
  updated_at = pos 100;
}

-- The state tells which keys the storage has.
abbrev object : (String → Bool) → String → ObjectStat
object s key = record { key = key; size = pos 3; last_modified = pos 100; exists = s key }

abbrev delete_key : String → (String → Bool) → Bool × (String → Bool)
delete_key key s = (true, λ other. not (key == other) && s other)

abbrev backend : FileBackend (String → Bool)
backend = record {
  first_record = λ id s. ok photo;
  newest_records = λ n s. ok (take n (photo ∷ []));
  delete_record = λ id s. (true, s);
  create_record = λ item s. s;
  username = λ id s. "";
  room_name = λ id s. "";
  has_storage = true;
  stat = λ key s. ok (object s key);
  delete_object = delete_key;
  list_objects = λ prefix n s. ok (object s "a" ∷ object s "b" ∷ []);
  has_audit = true;
  log = λ action target s. s;
}

abbrev action : AuditAction
action = record {
  admin_user_id = pos 1;
  admin_name = "admin";
  request_id = "";
  remote_ip = "";
  user_agent = "";
}

abbrev every : String → Bool
every key = true

delete_key-other :
    (key other : String) (s : String → Bool)
    → (other == key) ≡ false
    → backend.stat key (delete_key other s).1 ≡ backend.stat key s
delete_key-other key other s apart = rw apart refl

cleanup_orphans-stat_example :
    backend.stat "a" (cleanup_orphans backend (pos 100) action every).1 ≡ backend.stat "a" every
unfolding contains
cleanup_orphans-stat_example =
    cleanup_orphans-stat backend delete_key-other (λ action target key s. refl) (photo ∷ [])
      (pos 100) action "a" every (λ n. refl) (omega arith) refl

-- The object that has no record yet is deleted.
fresh_upload_example : (cleanup_orphans backend (pos 100) action every).1 "b" ≡ false
unfolding cleanup_orphans clean_scan clean scan_anomalies contains
fresh_upload_example = refl
