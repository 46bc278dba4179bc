-- ===== src/Rooms.antt =====
-- services/rooms/application/service.go: creating, joining, leaving and disbanding a room. The two
-- repositories stand on a database, which is not part of the repository: their interfaces
-- (services/rooms/repository/interfaces.go) are the parameter `Repositories`, over any state of the
-- database. The runtime notifier is a list of what it was told, or absent.
pub mod Permissions
pub mod Notices
pub mod Api
mod Tests
use lan_sync.Prelude.{
  ℕ, String, Bool, true, false, not, Option, none, some, List, [], ◌∷◌, ◌++◌, ◌&&◌, ◌||◌,
  if◌then◌else◌, ◌==◌, string_eq,
}
use lan_sync.Prelude.Int.{ℤ, pos, int_eq, ltb_ℤ, leb_ℤ}
use lan_sync.Prelude.Result.{Result, ok, err, ◌>>=◌, ◌>>◌, refuse_if}

pub record Room : Type 0 where
  pub id : ℤ
  pub name : String
  pub creator_id : ℤ
  pub kind : ℤ
  pub last_active_at : ℤ

pub record RoomMember : Type 0 where
  pub id : ℤ
  pub username : String
  pub avatar : String
  pub member_role : ℤ

-- gorm.ErrRecordNotFound, or any other error of the database.
pub data DbError : Type 0 where
  not_found : DbError
  other_error : ℕ → DbError

pub data Error : Type 0 where
  room_not_found not_room_member target_not_member permission_denied cannot_remove_owner
        invalid_room_name :
      Error
  db_error : DbError → Error

-- A write that fails may have changed the state. The room that is created is returned with its id.
pub record Repositories (S : Type 0) : Type 0 where
  pub create_room_with_creator : Room → ℤ → S → Result DbError Room × S
  pub get_room_by_id : ℤ → S → Result DbError Room
  pub soft_delete_room : ℤ → S → Result DbError (Unit {0}) × S
  pub search_rooms : String → ℤ → ℤ → S → Result DbError (List Room × ℤ)
  pub add_member : ℤ → ℤ → ℤ → S → Result DbError (Unit {0}) × S
  pub remove_member : ℤ → ℤ → S → Result DbError (Unit {0}) × S
  pub check_is_member : ℤ → ℤ → S → Result DbError Bool
  pub get_member_role : ℤ → ℤ → S → Result DbError (Option ℤ)
  pub get_room_members_with_roles : ℤ → S → Result DbError (List RoomMember)

pub data Notice : Type 0 where
  joins leaves : ℤ → ℤ → Notice  -- the user and the room
  disbands : ℤ → Notice

pub record World (S : Type 0) : Type 0 where
  pub store : S
  pub has_runtime : Bool
  pub notices : List Notice

-- How an error of the database is reported, where a missing record has a meaning of its own.
abbrev pub report {ℓ} : {A : Type ℓ} → Error → Result DbError A → Result Error A
report missing (ok a) = ok a
report missing (err not_found) = err missing
report missing (err (other_error n)) = err (db_error (other_error n))

abbrev pub plain {ℓ} : {A : Type ℓ} → Result DbError A → Result Error A
plain (ok a) = ok a
plain (err e) = err (db_error e)

abbrev pub has_role_from : ℤ → Option ℤ → Bool
has_role_from least none = false
has_role_from least (some role) = leb_ℤ least role

module _ {S : Type 0} (repo : Repositories S) where
  abbrev pub notify : World S → Notice → World S
  notify w n = record w { notices = if w.has_runtime then w.notices ++ n ∷ [] else w.notices }

  -- The end of each method: a write, and a notice where it succeeded.
  abbrev pub after_write {ℓ} :
      {A : Type ℓ} → World S → (A → Notice) → Result Error A × S → Result Error A × World S
  after_write w notice (err e, s) = (err e, record w { store = s })
  after_write w notice (ok a, s) = (ok a, notify (record w { store = s }) (notice a))

  abbrev pub guarded {ℓ} :
      {A : Type ℓ}
      → World S
      → Result Error (Unit {0})
      → Result Error A × World S
      → Result Error A × World S
  guarded w (err e) act = (err e, w)
  guarded w (ok _) act = act

  -- `trim` is strings.TrimSpace, `now` the value of time.Now().
  unfoldable pub create_room :
      (String → String) → ℤ → World S → String → ℤ → Result Error Room × World S
  create_room trim now w name creator =
      let room : Room = record {
        id = pos 0;
        name = trim name;
        creator_id = creator;
        kind = pos 2;
        last_active_at = now;
      } in
      let (created, s) = repo.create_room_with_creator room creator w.store in
      guarded w (refuse_if (trim name == "") invalid_room_name)
        (after_write w (λ (r : Room). joins creator r.id) (plain created, s))

  unfoldable pub join_room : World S → ℤ → ℤ → Result Error (Unit {0}) × World S
  join_room w room user =
      let (added, s) = repo.add_member room user (pos 1) w.store in
      guarded w (report room_not_found (repo.get_room_by_id room w.store) >>= λ _. ok tt)
        (after_write w (λ _. joins user room) (plain added, s))

  unfoldable pub can_remove : S → Room → ℤ → ℤ → ℤ → ℤ → Result Error Bool
  can_remove s found room operator target global_role =
      if global_role == pos 1 || operator == target || found.creator_id == operator
      then ok true
      else do role ← plain (repo.get_member_role room operator s); ok (has_role_from (pos 2) role)

  -- The guards of RemoveMember, in their order.
  unfoldable pub check_remove : S → ℤ → ℤ → ℤ → ℤ → Result Error (Unit {0})
  check_remove s room operator target global_role = do
    found ← report room_not_found (repo.get_room_by_id room s)
    allowed ← can_remove s found room operator target global_role
    refuse_if (not allowed) permission_denied
    refuse_if
        (target == found.creator_id && (not (operator == target) && not (global_role == pos 1)))
        cannot_remove_owner

  unfoldable pub remove_member : World S → ℤ → ℤ → ℤ → ℤ → Result Error (Unit {0}) × World S
  remove_member w room operator target global_role =
      let (removed, s) = repo.remove_member room target w.store in
      guarded w (check_remove w.store room operator target global_role)
        (after_write w (λ _. leaves target room) (report target_not_member removed, s))

  unfoldable pub room_members : S → ℤ → ℤ → Result Error (List RoomMember × ℤ)
  room_members s room requester = do
    is_in ← plain (repo.check_is_member room requester s)
    refuse_if (not is_in) not_room_member
    found ← plain (repo.get_room_by_id room s)
    members ← plain (repo.get_room_members_with_roles room s)
    ok (members, found.creator_id)

  abbrev pub clamp_limit : ℤ → ℤ
  clamp_limit limit =
      let least = if ltb_ℤ limit (pos 1) then pos 20 else limit in
      if ltb_ℤ (pos 100) least then pos 100 else least

  unfoldable pub search_rooms : S → String → ℤ → ℤ → Result Error (List Room × ℤ)
  search_rooms s keyword offset limit = plain (
      repo.search_rooms keyword (if ltb_ℤ offset (pos 0) then pos 0 else offset) (clamp_limit limit)
        s)

  abbrev pub member_or : Option ℤ → Result Error ℤ
  member_or none = err not_room_member
  member_or (some role) = ok role

  unfoldable pub check_disband : S → ℤ → ℤ → Result Error (Unit {0})
  check_disband s room operator = do
    found ← report room_not_found (repo.get_room_by_id room s)
    member ← plain (repo.get_member_role room operator s)
    role ← member_or member
    refuse_if (not (found.creator_id == operator) && not (role == pos 3)) permission_denied

  unfoldable pub disband_room : World S → ℤ → ℤ → Result Error (Unit {0}) × World S
  disband_room w room operator =
      let (deleted, s) = repo.soft_delete_room room w.store in
      guarded w (check_disband w.store room operator)
        (after_write w (λ _. disbands room) (plain deleted, s))
