-- ===== src/Rooms/Notices.antt =====
-- What the runtime is told (services/rooms/application/service.go).
use lan_sync.Prelude.{
  String, ◌≡◌, sym, Bool, List, [], ◌∷◌, ◌++◌, if◌then◌else◌, ◌==◌, string_eq, arith,
}
use lan_sync.Prelude.Int.{ℤ, pos}
use lan_sync.Prelude.Result.{Result, ok, err, ◌>>=◌, refuse_if}
use lan_sync.Rooms.{
  Room, Error, Repositories, World, Notice, report, plain, after_write, guarded, check_remove,
  remove_member, check_disband, disband_room, create_room, join_room,
}
use mathlib.Core.List.{append-nil}

-- The notice of a call that succeeded, where there is a runtime, and none otherwise.
abbrev pub told {ℓ} : {A : Type ℓ} → Bool → (A → Notice) → Result Error A → List Notice
told has_runtime notice (err e) = []
told has_runtime notice (ok a) = if has_runtime then notice a ∷ [] else []

module _ {S : Type 0} (repo : Repositories S) where
  guarded-told :
      {A : Type 0} (w : World S) (notice : A → Notice) (r : Result Error (Unit {0}))
      (a : Result Error A) (s : S)
      → let done = guarded repo w r (after_write repo w notice (a, s)) in
        done.1.notices ≡ w.notices ++ told w.has_runtime notice done.0
  guarded-told w notice (err e) a s = sym (append-nil w.notices)
  guarded-told w notice (ok tt) (err e) s = sym (append-nil w.notices)
  guarded-told w notice (ok tt) (ok a) s = ground (arith, append-nil w.notices)

  -- CreateRoom, JoinRoom, RemoveMember and DisbandRoom tell the runtime of the change exactly once
  -- where they succeed and there is a runtime, and tell it nothing where they return an error.
  pub calls-told :
      (w : World S) (trim : String → String) (now : ℤ) (name : String)
      (user room operator target global_role : ℤ)
      → (let done = create_room repo trim now w name user in
          done.1.notices
          ≡ w.notices ++ told w.has_runtime (λ (r : Room). Notice.joins user r.id) done.0)
        × (let done = join_room repo w room user in
            done.1.notices ≡ w.notices ++ told w.has_runtime (λ _. Notice.joins user room) done.0)
        × (let done = remove_member repo w room operator target global_role in
            done.1.notices
            ≡ w.notices ++ told w.has_runtime (λ _. Notice.leaves target room) done.0)
        × (let done = disband_room repo w room operator in
            done.1.notices ≡ w.notices ++ told w.has_runtime (λ _. Notice.disbands room) done.0)
  unfolding create_room join_room remove_member disband_room
  calls-told w trim now name user room operator target global_role =
      let made : Room = record {
        id = pos 0;
        name = trim name;
        creator_id = user;
        kind = pos 2;
        last_active_at = now;
      } in
      let (created, s1) = repo.create_room_with_creator made user w.store in
      let (added, s2) = repo.add_member room user (pos 1) w.store in
      let (removed, s3) = repo.remove_member room target w.store in
      let (deleted, s4) = repo.soft_delete_room room w.store in
      (
        guarded-told w (λ (r : Room). Notice.joins user r.id)
            (refuse_if (trim name == "") Error.invalid_room_name) (plain created) s1,
        guarded-told w (λ (u : Unit {0}). Notice.joins user room)
            (report Error.room_not_found (repo.get_room_by_id room w.store) >>= λ _. ok tt)
            (plain added) s2,
        guarded-told w (λ (u : Unit {0}). Notice.leaves target room)
            (check_remove repo w.store room operator target global_role)
            (report Error.target_not_member removed) s3,
        guarded-told w (λ (u : Unit {0}). Notice.disbands room)
            (check_disband repo w.store room operator) (plain deleted) s4,
      )
