-- ===== src/Files/Sharing.antt =====
-- Who may download a file that was uploaded (services/messages/application/file_service.go).
use lan_sync.Prelude.{
  String, ◌≡◌, refl, sym, ap, ◌∙◌, ◌↔◌, Bool, true, false, not, Option, none, some, Bool-cases, inl,
  inr, ◌==◌, string_eq, eq_of, if◌then◌else◌, arith,
}
use lan_sync.Prelude.Int.{ℤ, pos, ltb_ℤ, int_eq}
use lan_sync.Prelude.Result.{Result, ok, err, ok-injective}
use lan_sync.Files.{
  Error, file_forbidden, CompleteUploadRequest, FileRecord, DbError, record_not_found, query_failed,
  GoText, Backend, normalize_object_key, object_key_belongs_to_user, refreshed, new_record, saved,
  made, store_record, check_room, checked_upload, keyed_upload, complete_upload, url_of, member_url,
  found_url, download_url_by_id,
}

-- What the table promises: a row that was written is found under its number, a new row keeps its key, owner,
-- room and status, and a row found under a key has that key.
pub record IsFileTable {S : Type 0} (backend : Backend S) : Type 0 where
  pub saved :
      (f : FileRecord) (s : S)
      → (backend.save f s).0 ≡ ok tt
      → backend.find_by_id f.id (backend.save f s).1 ≡ ok f
  pub created :
      (f g : FileRecord) (s : S)
      → (backend.create f s).0 ≡ ok g
      → (backend.find_by_id g.id (backend.create f s).1 ≡ ok g)
        × (g.object_key ≡ f.object_key)
        × (g.uploader_id ≡ f.uploader_id)
        × (g.room_id ≡ f.room_id)
        × (g.status ≡ f.status)
  pub keyed :
      (k : String) (f : FileRecord) (s : S) → backend.find_by_key k s ≡ ok f → f.object_key ≡ k

module _ (text : GoText) {S : Type 0} (backend : Backend S) (law : IsFileTable backend) (user : ℤ)
    (req : CompleteUploadRequest) (now : ℤ) (file : FileRecord) where
  -- The row of a finished upload.
  record IsStored (key : String) (t : S) : Type 0 where
    found : backend.find_by_id file.id t ≡ ok file
    key_is : file.object_key ≡ key
    owner : file.uploader_id ≡ user
    room : file.room_id ≡ req.room_id
    status : file.status ≡ "uploaded"

  saved-IsStored :
      (key : String) (f : FileRecord) (s : S) (x : Result DbError (Unit {0}) × S)
      → (x.0 ≡ ok tt → backend.find_by_id f.id x.1 ≡ ok f)
      → f.object_key ≡ key
      → f.uploader_id ≡ user
      → f.room_id ≡ req.room_id
      → f.status ≡ "uploaded"
      → (saved text backend f x).0 ≡ ok file
      → IsStored key (saved text backend f x).1
  saved-IsStored key f s (err e, t) found k u r st h = cc h
  saved-IsStored key f s (ok _, t) found k u r st h =
      let same : f ≡ file = cc h in
      rw (← same) (record { found = found refl; key_is = k; owner = u; room = r; status = st })

  made-IsStored :
      (key : String) (s : S) (x : Result DbError FileRecord × S)
      → ((g : FileRecord)
          → x.0 ≡ ok g
          → (backend.find_by_id g.id x.1 ≡ ok g)
            × (g.object_key ≡ key)
            × (g.uploader_id ≡ user)
            × (g.room_id ≡ req.room_id)
            × (g.status ≡ "uploaded"))
      → (made text backend x).0 ≡ ok file
      → IsStored key (made text backend x).1
  made-IsStored key s (err e, t) found h = cc h
  made-IsStored key s (ok g, t) found h =
      let (stored, k, u, r, st) = found file (ap ok (ok-injective h)) in
      record { found = stored; key_is = k; owner = u; room = r; status = st }

  record-IsStored :
      (key : String) (s : S) (existing : Result DbError FileRecord)
      → backend.find_by_key key s ≡ existing
      → (store_record text backend user req now key s existing).0 ≡ ok file
      → IsStored key (store_record text backend user req now key s existing).1
  record-IsStored key s (ok f) e h = elim (Bool-cases (f.uploader_id == user)) [
    | inr other ↦ absurd (let k = rw other at h in cc k)
    | inl same ↦ rw same (
        saved-IsStored key (refreshed text backend f req now) s
          (backend.save (refreshed text backend f req now) s)
          (law.saved (refreshed text backend f req now) s) (law.keyed key f s e)
          (eq_of f.uploader_id user same) refl refl (rw same at h))
  ]
  record-IsStored key s (err record_not_found) e h =
      made-IsStored key s (backend.create (new_record text backend key user req) s)
        (λ g made. law.created (new_record text backend key user req) g s made) h
  record-IsStored key s (err query_failed) e h = cc h

  checked-IsStored :
      (key : String) (s : S) (room : Result Error (Unit {0}))
      → (checked_upload text backend user req now key s room).0 ≡ ok file
      → IsStored key (checked_upload text backend user req now key s room).1
  checked-IsStored key s (err e) h = cc h
  checked-IsStored key s (ok _) h = record-IsStored key s (backend.find_by_key key s) refl h

  -- The row is stored under a key of the user.
  abbrev IsUploaded : S → Type 0
  IsUploaded t =
      (key : String) × (IsStored key t) × (object_key_belongs_to_user text key user ≡ true)

  keyed-IsUploaded :
      (s : S) (key : Result Error String)
      → (keyed_upload text backend user req now s key).0 ≡ ok file
      → IsUploaded (keyed_upload text backend user req now s key).1
  keyed-IsUploaded s (err e) h = cc h
  keyed-IsUploaded s (ok key) h = elim (Bool-cases (object_key_belongs_to_user text key user)) [
    | inr other ↦ absurd (let k = rw other at h in cc k)
    | inl owned ↦ rw owned (
      key,
      checked-IsStored key s (check_room text backend req.room_id user s) (rw owned at h),
      owned,
    )
  ]

  complete_upload-IsUploaded :
      (s : S)
      → (complete_upload text backend user req now s).0 ≡ ok file
      → IsUploaded (complete_upload text backend user req now s).1
  unfolding complete_upload
  complete_upload-IsUploaded s h = keyed-IsUploaded s (normalize_object_key text req.object_key) h

  module _ (other : ℤ) (url : String) (t : S) where
    -- The members of a room share its files; a file of no room is its owner's.
    abbrev pub MayRead : Bool → Type 0
    MayRead true = backend.check_is_member req.room_id other t ≡ ok true
    MayRead false = other ≡ user

    url-given : (o : Option String) → (url_of text backend o ≡ ok url) ↔ (o ≡ some url)
    url-given none = ((λ h. cc h), λ h. cc h)
    url-given (some u) = ((λ h. ap some (ok-injective h)), λ h. cc h)

    member-given :
        (b : Result DbError Bool)
        → (member_url text backend file t b ≡ ok url)
          ↔ ((b ≡ ok true) × (backend.get_download_url file.object_key t ≡ some url))
    member-given (err e) = ((λ h. cc h), λ h. cc h.0)
    member-given (ok false) = ((λ h. cc h), λ h. cc h.0)
    member-given (ok true) =
        let given = url-given (backend.get_download_url file.object_key t) in
        ((λ h. (refl, given.0 h)), λ h. given.1 h.1)

    owner-given :
        (b : Bool)
        → (file.uploader_id == other) ≡ b
        → file.uploader_id ≡ user
        → ((if not b
              then err file_forbidden
              else url_of text backend (backend.get_download_url file.object_key t))
            ≡ ok url)
          ↔ ((other ≡ user) × (backend.get_download_url file.object_key t ≡ some url))
    owner-given true e owner =
        let given = url-given (backend.get_download_url file.object_key t) in
        ((λ h. (sym (eq_of file.uploader_id other e) ∙ owner, given.0 h)), λ h. given.1 h.1)
    owner-given false e owner =
        ((λ h. cc h), λ h. absurd (ground (arith, int_eq.beq_iff file.uploader_id other, h.0)))

    is_uploaded : (key : String) → IsStored key t → (file.status == "uploaded") ≡ true
    is_uploaded key stored = ap (λ st. st == "uploaded") stored.status

    room-access :
        (key : String)
        → IsStored key t
        → ltb_ℤ (pos 0) req.room_id ≡ true
        → download_url_by_id text backend other file.id t
          ≡ member_url text backend file t (backend.check_is_member req.room_id other t)
    unfolding download_url_by_id
    room-access key stored e =
        let e' : ltb_ℤ (pos 0) file.room_id ≡ true = ap (ltb_ℤ (pos 0)) stored.room ∙ e in
        ap (found_url text backend other t) stored.found
        ∙ rw (is_uploaded key stored, e')
            (ap (λ r. member_url text backend file t (backend.check_is_member r other t))
              stored.room)

    owner-access :
        (key : String)
        → IsStored key t
        → ltb_ℤ (pos 0) req.room_id ≡ false
        → download_url_by_id text backend other file.id t ≡ (
            if not (file.uploader_id == other)
            then err file_forbidden
            else url_of text backend (backend.get_download_url file.object_key t))
    unfolding download_url_by_id
    owner-access key stored e =
        let e' : ltb_ℤ (pos 0) file.room_id ≡ false = ap (ltb_ℤ (pos 0)) stored.room ∙ e in
        ap (found_url text backend other t) stored.found ∙ rw (is_uploaded key stored, e') refl

    stored-given :
        (key : String)
        → IsStored key t
        → (download_url_by_id text backend other file.id t ≡ ok url) ↔ (
            MayRead (ltb_ℤ (pos 0) req.room_id)
            × (backend.get_download_url file.object_key t ≡ some url))
    stored-given key stored = elim (Bool-cases (ltb_ℤ (pos 0) req.room_id)) [
      | inl e ↦
          rw (room-access key stored e, e)
            (member-given (backend.check_is_member req.room_id other t))
      | inr e ↦
          rw (owner-access key stored e, e)
            (owner-given (file.uploader_id == other) refl stored.owner)
    ]

  -- A completed upload is the uploader's, under a key of the uploader; and right after it, any user is given an
  -- address for the file exactly if the storage has one and the user is a member of the room that the upload named,
  -- or, where it named none, is the uploader.
  pub complete_upload-download :
      (s : S) (other : ℤ) (url : String)
      → (complete_upload text backend user req now s).0 ≡ ok file
      → let t = (complete_upload text backend user req now s).1 in
        (file.uploader_id ≡ user)
        × (object_key_belongs_to_user text file.object_key user ≡ true)
        × ((download_url_by_id text backend other file.id t ≡ ok url) ↔ (
            MayRead other url t (ltb_ℤ (pos 0) req.room_id)
            × (backend.get_download_url file.object_key t ≡ some url)))
  complete_upload-download s other url h =
      let (key, stored, owned) = complete_upload-IsUploaded s h in
      (
        stored.owner,
        ap (λ k. object_key_belongs_to_user text k user) stored.key_is ∙ owned,
        stored-given other url (complete_upload text backend user req now s).1 key stored,
      )
