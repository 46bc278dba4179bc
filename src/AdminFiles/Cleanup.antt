-- ===== src/AdminFiles/Cleanup.antt =====
-- What the cleanup of orphaned objects leaves (services/admin/application/file_service.go).
use lan_sync.Prelude.{
  ℕ, zero, suc, ◌≤◌, ◌≡◌, refl, ap, ◌∙◌, String, string_eq, Bool, true, false, List, [], ◌∷◌, ◌==◌,
  All, keep, take, length, arith, Bool-cases, inl, inr, if◌then◌else◌, eq_of,
}
use lan_sync.Prelude.Int.{ℤ}
use lan_sync.Prelude.Result.{Result, ok, err}
use lan_sync.Hub.{contains}
use lan_sync.Files.{FileRecord}
use lan_sync.Messages.Pages.{take-all}
use lan_sync.AdminFiles.{
  FileBackend, ObjectStat, AuditAction, Error, FileScanResult, known_keys, is_orphan, scanned,
  with_objects, scan_anomalies, scan_records, clean, clean_audited, clean_scan, cleanup_orphans,
  Target,
}

All-keep {ℓ} : {A : Type ℓ} (p : A → Bool) (xs : List A) → All (λ x. p x ≡ true) (keep p xs)
All-keep p [] = tt
All-keep p (x ∷ xs) = elim (Bool-cases (p x)) [
  | inl yes_p ↦ rw yes_p (yes_p, All-keep p xs)
  | inr no_p ↦ rw no_p (All-keep p xs)
]

-- An object that no record names has another key than one that a record names.
other_key :
    (records : List FileRecord) (object : ObjectStat) (key : String)
    → is_orphan records object ≡ true
    → contains key (known_keys records) ≡ true
    → (object.key == key) ≡ false
other_key records object key orphan known = elim (Bool-cases (object.key == key)) [
  | inl same ↦
      let named : contains object.key (known_keys records) ≡ true =
        ap (λ k. contains k (known_keys records)) (eq_of object.key key same) ∙ known in
      absurd (ground (arith, named, orphan))
  | inr apart ↦ apart
]

module _ {S : Type 0} (backend : FileBackend S)
    (deletes : (key other : String) (s : S)
      → (other == key) ≡ false
      → backend.stat key (backend.delete_object other s).1 ≡ backend.stat key s)
    (logs : (action : AuditAction) (target : Target) (key : String) (s : S)
      → backend.stat key (backend.log action target s) ≡ backend.stat key s) where
  kept :
      (b : Bool) (key other : String) (s : S)
      → (other == key) ≡ false
      → backend.stat key (if b then backend.delete_object other s else (true, s)).1
        ≡ backend.stat key s
  kept true key other s apart = deletes key other s apart
  kept false key other s apart = refl

  clean-stat :
      (records : List FileRecord) (objects : List ObjectStat) (cleaned : ℕ) (key : String) (s : S)
      → All (λ o. is_orphan records o ≡ true) objects
      → contains key (known_keys records) ≡ true
      → backend.stat key (clean backend objects cleaned s).1 ≡ backend.stat key s
  unfolding clean
  clean-stat records [] cleaned key s orphans known = refl
  clean-stat records (object ∷ rest) cleaned key s orphans known =
      clean-stat records rest _ key _ orphans.1 known
      ∙ kept backend.has_storage key object.key s (other_key records object key orphans.0 known)

  audited-stat :
      (b : Bool) (action : AuditAction) (target : Target) (key : String) (s : S)
      → backend.stat key (if b then backend.log action target s else s) ≡ backend.stat key s
  audited-stat true action target key s = logs action target key s
  audited-stat false action target key s = refl

  clean_audited-stat :
      (action : AuditAction) (n : ℕ) (key : String) (s : S)
      → backend.stat key (clean_audited backend action (n, s)).1 ≡ backend.stat key s
  clean_audited-stat action zero key s = refl
  clean_audited-stat action (suc n) key s = audited-stat backend.has_audit action _ key s

  with_objects-stat :
      (records : List FileRecord) (scan : FileScanResult) (objects : Result Error (List ObjectStat))
      (action : AuditAction) (key : String) (s : S)
      → contains key (known_keys records) ≡ true
      → backend.stat key (clean_scan backend action s (with_objects backend records scan objects)).1
        ≡ backend.stat key s
  unfolding clean_scan
  with_objects-stat records scan (err e) action key s known = refl
  with_objects-stat records scan (ok objects) action key s known =
      clean_audited-stat action _ key _
      ∙ clean-stat records (keep (is_orphan records) objects) 0 key s
          (All-keep (is_orphan records) objects) known

  if-stat :
      (b : Bool) (found without : Result Error FileScanResult) (action : AuditAction) (key : String)
      (s : S)
      → backend.stat key (clean_scan backend action s found).1 ≡ backend.stat key s
      → backend.stat key (clean_scan backend action s without).1 ≡ backend.stat key s
      → backend.stat key (clean_scan backend action s (if b then found else without)).1
        ≡ backend.stat key s
  if-stat true found without action key s e f = e
  if-stat false found without action key s e f = f

  -- While the database has at most 5,000 records of files, CleanupOrphans leaves every object that a record names
  -- as it is, whatever the storage lists and whichever of its deletions fail. A deletion and an entry of the audit
  -- log change no other object.
  pub cleanup_orphans-stat :
      (all : List FileRecord) (now : ℤ) (action : AuditAction) (key : String) (s : S)
      → ((n : ℕ) → backend.newest_records n s ≡ ok (take n all))
      → length all ≤ 5000
      → contains key (known_keys all) ≡ true
      → backend.stat key (cleanup_orphans backend now action s).1 ≡ backend.stat key s
  unfolding cleanup_orphans scan_anomalies
  cleanup_orphans-stat all now action key s newest few known =
      let found : backend.newest_records 5000 s ≡ ok all =
        newest 5000 ∙ ap ok (take-all 5000 all few) in
      let scan = scanned backend now s all in
      ap (λ r. backend.stat key (clean_scan backend action s (scan_records backend now s r)).1)
        found
      ∙ if-stat backend.has_storage (with_objects backend all scan (backend.list_objects "" 1000 s))
          (ok scan) action key s
          (with_objects-stat all scan (backend.list_objects "" 1000 s) action key s known)
          (unfold clean_scan clean in refl)
