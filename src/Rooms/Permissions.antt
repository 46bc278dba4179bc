-- ===== src/Rooms/Permissions.antt =====
-- Who may remove a member and disband a room (services/rooms/application/service.go).
use lan_sync.Prelude.{
  ◌≡◌, refl, ◌⊎◌, inl, inr, Bool, true, false, not, Option, none, some, ◌&&◌, ◌||◌, ◌==◌,
  Bool-cases, arith,
}
use lan_sync.Prelude.Int.{ℤ, pos, int_eq}
use lan_sync.Prelude.Result.{Result, ok, err, ◌>>=◌, ◌>>◌, refuse_if, ok-injective}
use lan_sync.Rooms.{
  Room, DbError, Error, Repositories, World, Notice, report, plain, has_role_from, after_write,
  guarded, can_remove, check_remove, remove_member, check_disband, disband_room, member_or,
}

module _ {S : Type 0} (repo : Repositories S) where
  -- The operator is a super administrator, leaves on its own, made the room, or has a role of at
  -- least 2 in it; and the maker of the room is removed by itself or by a super administrator.
  pub record MayRemove (s : S) (room operator target global_role : ℤ) : Type 0 where
    pub found : Room
    pub exists : repo.get_room_by_id room s ≡ ok found
    pub entitled :
        ((global_role == pos 1 || operator == target || found.creator_id == operator) ≡ true)
        ⊎ ((role : Option ℤ) × (repo.get_member_role room operator s ≡ ok role)
            × (has_role_from (pos 2) role ≡ true))
    pub not_owner :
        (target == found.creator_id && (not (operator == target) && not (global_role == pos 1)))
        ≡ false

  pub record MayDisband (s : S) (room operator : ℤ) : Type 0 where
    pub found : Room
    pub exists : repo.get_room_by_id room s ≡ ok found
    pub role : ℤ
    pub is_member : repo.get_member_role room operator s ≡ ok (some role)
    pub entitled : (found.creator_id == operator || role == pos 3) ≡ true

  entitled-role :
      (r : Result DbError (Option ℤ))
      → (plain r >>= λ role. ok (has_role_from (pos 2) role)) ≡ ok true
      → (role : Option ℤ) × (r ≡ ok role) × (has_role_from (pos 2) role ≡ true)
  entitled-role (err e) h = ground arith
  entitled-role (ok role) h = (role, refl, ok-injective h)

  entitled-can_remove :
      (s : S) (found : Room) (room operator target global_role : ℤ)
      → can_remove repo s found room operator target global_role ≡ ok true
      → ((global_role == pos 1 || operator == target || found.creator_id == operator) ≡ true)
        ⊎ ((role : Option ℤ) × (repo.get_member_role room operator s ≡ ok role)
            × (has_role_from (pos 2) role ≡ true))
  unfolding can_remove
  entitled-can_remove s found room operator target global_role =
      elim (Bool-cases
        (global_role == pos 1 || operator == target || found.creator_id == operator)) [
          | inl direct ↦ λ h. inl direct
          | inr indirect ↦
              rw indirect (λ h. inr (entitled-role (repo.get_member_role room operator s) h))
        ]

  not_refused : (b : Bool) (e : Error) → refuse_if b e ≡ ok tt → b ≡ false
  not_refused true e h = cc h
  not_refused false e h = refl

  module _ (s : S) (room operator target global_role : ℤ) where
    abbrev takes_owner : Room → Bool
    takes_owner found =
        target == found.creator_id && (not (operator == target) && not (global_role == pos 1))

    MayRemove-allowed :
        (found : Room) (a : Result Error Bool)
        → repo.get_room_by_id room s ≡ ok found
        → can_remove repo s found room operator target global_role ≡ a
        → (a >>= λ allowed.
            refuse_if (not allowed) Error.permission_denied
            >> refuse_if (takes_owner found) Error.cannot_remove_owner)
          ≡ ok tt
        → MayRemove s room operator target global_role
    MayRemove-allowed found (err e) exists same h = cc h
    MayRemove-allowed found (ok false) exists same h = cc h
    MayRemove-allowed found (ok true) exists same h = record {
      found = found;
      exists = exists;
      entitled = entitled-can_remove s found room operator target global_role same;
      not_owner = not_refused (takes_owner found) Error.cannot_remove_owner h;
    }

    MayRemove-found :
        (r : Result DbError Room)
        → repo.get_room_by_id room s ≡ r
        → (report Error.room_not_found r >>= λ found.
            can_remove repo s found room operator target global_role >>= λ allowed.
            refuse_if (not allowed) Error.permission_denied
            >> refuse_if (takes_owner found) Error.cannot_remove_owner)
          ≡ ok tt
        → MayRemove s room operator target global_role
    MayRemove-found (err DbError.not_found) exists h = cc h
    MayRemove-found (err (DbError.other_error n)) exists h = cc h
    MayRemove-found (ok found) exists h =
        MayRemove-allowed found (can_remove repo s found room operator target global_role) exists
          refl h

    MayRemove-check_remove :
        check_remove repo s room operator target global_role ≡ ok tt
        → MayRemove s room operator target global_role
    unfolding check_remove
    MayRemove-check_remove h = MayRemove-found (repo.get_room_by_id room s) refl h

  guarded-cases :
      (w : World S) (r : Result Error (Unit {0})) (act : Result Error (Unit {0}) × World S)
      → ((e : Error) × (guarded repo w r act ≡ (err e, w))) ⊎ (r ≡ ok tt)
  guarded-cases w (err e) act = inl (e, refl)
  guarded-cases w (ok tt) act = inr refl

  -- RemoveMember either returns an error and leaves the database and the runtime alone, or the
  -- room exists and the caller is entitled: a super administrator, the target itself, the maker of
  -- the room or a member with a role of at least 2, and for the maker of the room one of the first two.
  pub remove_member-MayRemove :
      (w : World S) (room operator target global_role : ℤ)
      → ((e : Error) × (remove_member repo w room operator target global_role ≡ (err e, w)))
        ⊎ MayRemove w.store room operator target global_role
  unfolding remove_member
  remove_member-MayRemove w room operator target global_role =
      let (removed, s) = repo.remove_member room target w.store in
      let act =
        after_write repo w (λ _. Notice.leaves target room)
          (report Error.target_not_member removed, s) in
      elim (guarded-cases w (check_remove repo w.store room operator target global_role) act) [
        | inl refused ↦ inl refused
        | inr passed ↦ inr (MayRemove-check_remove w.store room operator target global_role passed)
      ]

  module _ (s : S) (room operator : ℤ) where
    MayDisband-role :
        (found : Room) (o : Result DbError (Option ℤ))
        → repo.get_room_by_id room s ≡ ok found
        → repo.get_member_role room operator s ≡ o
        → (plain o >>= λ member. member_or repo member >>= λ role.
            refuse_if
              (not (found.creator_id == operator) && not (role == pos 3))
              Error.permission_denied)
          ≡ ok tt
        → MayDisband s room operator
    MayDisband-role found (err e) exists same h = cc h
    MayDisband-role found (ok none) exists same h = cc h
    MayDisband-role found (ok (some role)) exists same h = record {
      found = found;
      exists = exists;
      role = role;
      is_member = same;
      entitled =
          let kept =
            not_refused (not (found.creator_id == operator) && not (role == pos 3))
              Error.permission_denied h in
          ground (arith, kept);
    }

    MayDisband-found :
        (r : Result DbError Room)
        → repo.get_room_by_id room s ≡ r
        → (report Error.room_not_found r >>= λ found.
            plain (repo.get_member_role room operator s) >>= λ member.
            member_or repo member >>= λ role.
            refuse_if
              (not (found.creator_id == operator) && not (role == pos 3))
              Error.permission_denied)
          ≡ ok tt
        → MayDisband s room operator
    MayDisband-found (err DbError.not_found) exists h = cc h
    MayDisband-found (err (DbError.other_error n)) exists h = cc h
    MayDisband-found (ok found) exists h =
        MayDisband-role found (repo.get_member_role room operator s) exists refl h

    MayDisband-check_disband :
        check_disband repo s room operator ≡ ok tt → MayDisband s room operator
    unfolding check_disband
    MayDisband-check_disband h = MayDisband-found (repo.get_room_by_id room s) refl h

  -- DisbandRoom either returns an error and leaves the database and the runtime alone, or the room
  -- exists and the caller is a member of it that made it or has role 3 in it.
  pub disband_room-MayDisband :
      (w : World S) (room operator : ℤ)
      → ((e : Error) × (disband_room repo w room operator ≡ (err e, w)))
        ⊎ MayDisband w.store room operator
  unfolding disband_room
  disband_room-MayDisband w room operator =
      let (deleted, s) = repo.soft_delete_room room w.store in
      let act = after_write repo w (λ _. Notice.disbands room) (plain deleted, s) in
      elim (guarded-cases w (check_disband repo w.store room operator) act) [
        | inl refused ↦ inl refused
        | inr passed ↦ inr (MayDisband-check_disband w.store room operator passed)
      ]
