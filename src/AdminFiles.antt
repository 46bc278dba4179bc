-- ===== src/AdminFiles.antt =====
-- The administration of uploaded files: services/admin/application/file_service.go without the list of files. The
-- database, the object storage and the audit log are parameters over a state.
pub mod Cleanup
mod Tests
use lan_sync.Prelude.{
  ℕ, zero, suc, ◌^◌, ◌*◌, String, string_eq, Bool, true, false, not, List, [], ◌∷◌, ◌&&◌, ◌==◌,
  keep, map, length, if◌then◌else◌,
}
use lan_sync.Prelude.Int.{ℤ, pos, ltb_ℤ, ◌-ℤ◌, int_eq}
use lan_sync.Prelude.Result.{Result, ok, err}
use lan_sync.Hub.{contains}
use lan_sync.Files.{FileRecord}

pub record FileListItem : Type 0 where
  pub file : FileRecord
  pub username : String
  pub room_name : String
  pub exists : Bool
  pub has_message : Bool

pub record AuditAction : Type 0 where
  pub admin_user_id : ℤ
  pub admin_name : String
  pub request_id : String
  pub remote_ip : String
  pub user_agent : String

pub record ObjectStat : Type 0 where
  pub key : String
  pub size : ℤ
  pub last_modified : ℤ
  pub exists : Bool

pub record FileScanResult : Type 0 where
  pub total_records : ℕ
  pub total_objects : ℕ
  pub missing_records : List FileListItem
  pub orphan_objects : List ObjectStat
  pub stale_records : List FileListItem

pub data Error : Type 0 where
  database_failed storage_failed : Error

-- The numbers of an audit entry are what its target names: the id of the file, or how many were cleaned.
pub data Target : Type 0 where
  file_delete cleanup_orphans_done : ℤ → Target

-- A delete tells whether it succeeded. Creating a record again has no result that is looked at. `has_storage` and
-- `has_audit` are the checks for nil.
pub record FileBackend (S : Type 0) : Type 0 where
  pub first_record : ℤ → S → Result Error FileRecord
  pub newest_records : ℕ → S → Result Error (List FileRecord)
  pub delete_record : ℤ → S → Bool × S
  pub create_record : FileListItem → S → S
  pub username : ℤ → S → String
  pub room_name : ℤ → S → String
  pub has_storage : Bool
  pub stat : String → S → Result Error ObjectStat
  pub delete_object : String → S → Bool × S
  pub list_objects : String → ℕ → S → Result Error (List ObjectStat)
  pub has_audit : Bool
  pub log : AuditAction → Target → S → S

abbrev pub exists_in : Result Error ObjectStat → Bool
exists_in (err e) = false
exists_in (ok stat) = stat.exists

abbrev pub known_keys : List FileRecord → List String
known_keys records = map (λ (r : FileRecord). r.object_key) records

abbrev pub is_orphan : List FileRecord → ObjectStat → Bool
is_orphan records object = not (contains object.key (known_keys records))

module _ {S : Type 0} (backend : FileBackend S) where
  unfoldable pub object_exists : String → S → Bool
  object_exists key s = if backend.has_storage then exists_in (backend.stat key s) else false

  abbrev pub item_of : S → FileRecord → FileListItem
  unfolding object_exists
  item_of s r = record {
    file = r;
    username = backend.username r.uploader_id s;
    room_name = backend.room_name r.room_id s;
    exists = object_exists r.object_key s;
    has_message = ltb_ℤ (pos 0) r.message_id;
  }

  abbrev pub get_file : ℤ → S → Result Error FileListItem
  get_file id s = elim (backend.first_record id s) [ err e ↦ err e | ok r ↦ ok (item_of s r) ]

  abbrev pub audited : AuditAction → Target → S → S
  audited action target s = if backend.has_audit then backend.log action target s else s

  abbrev pub object_deleted :
      ℤ → AuditAction → FileListItem → Bool × S → Result Error (Unit {0}) × S
  object_deleted id action item (false, s) = (err storage_failed, backend.create_record item s)
  object_deleted id action item (true, s) = (ok tt, audited action (file_delete id) s)

  abbrev pub record_deleted :
      ℤ → AuditAction → FileListItem → Bool × S → Result Error (Unit {0}) × S
  record_deleted id action item (false, s) = (err database_failed, s)
  record_deleted id action item (true, s) =
      object_deleted id action item
        (if backend.has_storage then backend.delete_object item.file.object_key s else (true, s))

  abbrev pub delete_found :
      ℤ → AuditAction → S → Result Error FileListItem → Result Error (Unit {0}) × S
  delete_found id action s (err e) = (err e, s)
  delete_found id action s (ok item) = record_deleted id action item (backend.delete_record id s)

  abbrev pub delete_file : ℤ → AuditAction → S → Result Error (Unit {0}) × S
  delete_file id action s = delete_found id action s (get_file id s)

  -- `now` is time.Now(), in nanoseconds.
  abbrev pub is_stale : ℤ → FileListItem → Bool
  is_stale now item =
      item.file.message_id == pos 0 && ltb_ℤ item.file.created_at (now -ℤ pos (24 * 3600 * 10 ^ 9))

  abbrev pub scanned : ℤ → S → List FileRecord → FileScanResult
  scanned now s records = record {
    total_records = length records;
    total_objects = 0;
    missing_records = keep (λ (i : FileListItem). not i.exists) (map (item_of s) records);
    orphan_objects = [];
    stale_records = keep (is_stale now) (map (item_of s) records);
  }

  abbrev pub with_objects :
      List FileRecord
      → FileScanResult
      → Result Error (List ObjectStat)
      → Result Error FileScanResult
  with_objects records scan (err e) = err e
  with_objects records scan (ok objects) = ok record scan {
    total_objects = length objects;
    orphan_objects = keep (is_orphan records) objects;
  }

  abbrev pub scan_records : ℤ → S → Result Error (List FileRecord) → Result Error FileScanResult
  scan_records now s (err e) = err e
  scan_records now s (ok records) =
      if backend.has_storage
      then with_objects records (scanned now s records) (backend.list_objects "" 1000 s)
      else ok (scanned now s records)

  unfoldable pub scan_anomalies : ℤ → S → Result Error FileScanResult
  scan_anomalies now s = scan_records now s (backend.newest_records 5000 s)

  -- The loop of CleanupOrphans.
  unfoldable pub clean : List ObjectStat → ℕ → S → ℕ × S
  clean [] cleaned s = (cleaned, s)
  clean (object ∷ rest) cleaned s =
      let (done, s1) =
        if backend.has_storage then backend.delete_object object.key s else (true, s) in
      clean rest (if done then suc cleaned else cleaned) s1

  abbrev pub clean_audited : AuditAction → ℕ × S → Result Error ℕ × S
  clean_audited action (zero, s) = (ok 0, s)
  clean_audited action (suc n, s) =
      (ok (suc n), audited action (cleanup_orphans_done (pos (suc n))) s)

  unfoldable pub clean_scan : AuditAction → S → Result Error FileScanResult → Result Error ℕ × S
  unfolding clean
  clean_scan action s (err e) = (err e, s)
  clean_scan action s (ok scan) = clean_audited action (clean scan.orphan_objects 0 s)

  unfoldable pub cleanup_orphans : ℤ → AuditAction → S → Result Error ℕ × S
  cleanup_orphans now action s = clean_scan action s (scan_anomalies now s)
