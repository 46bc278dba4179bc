-- ===== src/Admin/Users.antt =====
-- What an action on a user changes (services/admin/application/user_service.go).
use lan_sync.Prelude.{
  String, ◌≡◌, ◌≢◌, refl, sym, ◌∙◌, Option, some, ◌⊎◌, inl, inr, ◌&&◌, ◌==◌, string_eq, Bool-cases,
  Option-cases, arith,
}
use lan_sync.Prelude.Int.{ℤ}
use lan_sync.Prelude.Result.{Result, ok, err, err-ne-ok}
use lan_sync.Prelude.Command.{Command, and_then, and_then-keeps, ◌>>=◌, ◌>>◌, ignoring, or_error}
use lan_sync.Admin.{
  User, Backend, Error, UserAction, AuditLog, changed_user, write_user_audit, after_ban,
  apply_user_action, unsupported_action,
}

abbrev pub Failed : {A : Type 0} → Result Error A → Type 0
Failed r = (e : Error) × (r ≡ err e)

-- What the database promises of its table of users, as `user_of` shows it: a read and the other services
-- change nothing of it, and a write that does not store the row under its id fails or is about another.
pub record IsUserTable {S : Type 0} (backend : Backend S) (user_of : S → ℤ → Option User)
    : Type 0 where
  pub found :
      (id : ℤ) (s : S) (u : User)
      → (backend.find_user id s).0 ≡ ok u
      → (user_of s id ≡ some u) × (u.id ≡ id)
  pub find_keeps : (id j : ℤ) (s : S) → user_of (backend.find_user id s).1 j ≡ user_of s j
  pub saved :
      (u : User) (j : ℤ) (s : S)
      → ((user_of (backend.save_user u s).1 j ≡ user_of s j)
          × (Failed (backend.save_user u s).0 ⊎ (j ≢ u.id)))
        ⊎ ((j ≡ u.id) × (user_of (backend.save_user u s).1 j ≡ some u))
  pub kick_keeps : (id j : ℤ) (s : S) → user_of (backend.kick_user id s).1 j ≡ user_of s j
  pub offline_keeps : (id j : ℤ) (s : S) → user_of (backend.set_user_offline id s).1 j ≡ user_of s j
  pub log_keeps :
      (l : AuditLog User) (j : ℤ) (s : S) → user_of (backend.log_user l s).1 j ≡ user_of s j

-- The action changes the row of its user as its switch says; or the row stays, and the action fails
-- or is about another user.
abbrev pub IsChange : String → ℤ → ℤ → Option User → Result Error (Unit {0}) → Option User → Type 0
IsChange action user_id j before result after =
    ((after ≡ before) × (Failed result ⊎ (j ≢ user_id)))
    ⊎ ((u : User) × (v : User) × (j ≡ user_id)
        × (before ≡ some u)
        × (changed_user action u ≡ some v)
        × (after ≡ some v))

changed_user-id : (action : String) (u v : User) → changed_user action u ≡ some v → v.id ≡ u.id
unfolding changed_user
changed_user-id action u v h = ground arith

module _ {S : Type 0} (backend : Backend S) (joined : String → String → String)
    (user_of : S → ℤ → Option User) (law : IsUserTable backend user_of) (j : ℤ) where
  audit-keeps :
      (before after : User) (action : UserAction) (s : S)
      → user_of (write_user_audit backend joined before after action s).1 j ≡ user_of s j
  audit-keeps before after action s = elim (Bool-cases backend.has_audit) [
    | inl e ↦ rw e (law.log_keeps _ j s)
    | inr e ↦ rw e refl
  ]

  ban-keeps :
      (user_id : ℤ) (action : UserAction) (s : S)
      → user_of (after_ban backend joined user_id action s).1 j ≡ user_of s j
  ban-keeps user_id action s = elim (Bool-cases (action.action == "ban" && backend.has_runtime)) [
    | inl e ↦ rw e (
        and_then-keeps (λ t. user_of t j ≡ user_of s j)
          (λ _. ignoring (backend.set_user_offline user_id)) (backend.kick_user user_id s)
          (law.kick_keeps user_id j s) (λ _ t h. law.offline_keeps user_id j t ∙ h))
    | inr e ↦ rw e refl
  ]

  after_save-keeps :
      (user_id : ℤ) (action : UserAction) (u v : User) (s : S)
      → user_of
          ((after_ban backend joined user_id action >> write_user_audit backend joined u v action)
            s).1
          j
        ≡ user_of s j
  after_save-keeps user_id action u v s =
      and_then-keeps (λ t. user_of t j ≡ user_of s j)
        (λ _. write_user_audit backend joined u v action)
        (after_ban backend joined user_id action s) (ban-keeps user_id action s)
        (λ _ t h. audit-keeps u v action t ∙ h)

  -- What follows a change and keeps the table does not undo it.
  IsChange-and_then :
      (action : String) (user_id : ℤ) (before : Option User)
      (f : Unit {0} → Command S Error (Unit {0})) (x : Result Error (Unit {0}) × S)
      → ((t : S) → user_of (f tt t).1 j ≡ user_of t j)
      → IsChange action user_id j before x.0 (user_of x.1 j)
      → IsChange action user_id j before (and_then f x).0 (user_of (and_then f x).1 j)
  IsChange-and_then action user_id before f (err e, t) keeps h = h
  IsChange-and_then action user_id before f (ok a, t) keeps (inl (same, inl (e, failed))) =
      absurd (err-ne-ok (sym failed))
  IsChange-and_then action user_id before f (ok a, t) keeps (inl (same, inr other)) =
      inl (keeps t ∙ same, inr other)
  IsChange-and_then action user_id before f (ok a, t) keeps (inr (u, v, at, found, changed, now)) =
      inr (u, v, at, found, changed, keeps t ∙ now)

  save-IsChange :
      (user_id : ℤ) (action : String) (u v : User) (s t : S)
      → user_of s user_id ≡ some u
      → v.id ≡ user_id
      → changed_user action u ≡ some v
      → user_of t j ≡ user_of s j
      → IsChange action user_id j
          (user_of s j)
          (backend.save_user v t).0
          (user_of (backend.save_user v t).1 j)
  save-IsChange user_id action u v s t found same changed kept = elim (law.saved v j t) [
    | inl (stays, inl failed) ↦ inl (stays ∙ kept, inl failed)
    | inl (stays, inr other) ↦ inl (stays ∙ kept, inr (λ e. other (e ∙ sym same)))
    | inr (at, now) ↦ inr (u, v, at ∙ same, (rw (at ∙ same) found), changed, now)
  ]

  -- What follows the read of the row.
  abbrev rest_of : ℤ → UserAction → User → Command S Error (Unit {0})
  rest_of user_id action before =
      or_error (changed_user action.action before) unsupported_action >>= λ user.
      backend.save_user user
      >> (after_ban backend joined user_id action
          >> write_user_audit backend joined before user action)

  found-IsChange :
      (user_id : ℤ) (action : UserAction) (s : S) (x : Result Error User × S)
      → ((u : User) → x.0 ≡ ok u → (user_of s user_id ≡ some u) × (u.id ≡ user_id))
      → user_of x.1 j ≡ user_of s j
      → IsChange action.action user_id j
          (user_of s j)
          (and_then (rest_of user_id action) x).0
          (user_of (and_then (rest_of user_id action) x).1 j)
  found-IsChange user_id action s (err e, t) found kept = inl (kept, inl (e, refl))
  found-IsChange user_id action s (ok u, t) found kept =
      let (stored, same) = found u refl in
      elim (Option-cases (changed_user action.action u)) [
        | inl unknown ↦ rw unknown (inl (kept, inl (unsupported_action, refl)))
        | inr (v, changed) ↦ rw changed (
            IsChange-and_then action.action user_id (user_of s j) _ (backend.save_user v t)
              (λ w. after_save-keeps user_id action u v w)
              (save-IsChange user_id action.action u v s t stored
                (changed_user-id action.action u v changed ∙ same) changed kept))
      ]

  -- ApplyAction changes no row but that of its user, and that row, where it is found, as the action says;
  -- where the row of the user is not so changed, the action returns an error and the row is as it was.
  pub apply_user_action-IsChange :
      (user_id : ℤ) (action : UserAction) (s : S)
      → IsChange action.action user_id j
          (user_of s j)
          (apply_user_action backend joined user_id action s).0
          (user_of (apply_user_action backend joined user_id action s).1 j)
  unfolding apply_user_action
  apply_user_action-IsChange user_id action s =
      found-IsChange user_id action s (backend.find_user user_id s) (law.found user_id s)
        (law.find_keeps user_id j s)
