-- ===== src/Admin/Tests.antt =====
-- Requests of administrators to act on users and rooms (services/admin/api).
use lan_sync.Prelude.{
  String, ◌≡◌, ◌≢◌, refl, true, Option, none, some, List, [], ◌∷◌, ◌⊎◌, inl, inr, if◌then◌else◌,
  ◌==◌, eq_of, eq_self, Bool-cases, arith,
}
use lan_sync.Prelude.Int.{ℤ, pos, int_eq}
use lan_sync.Prelude.Result.{Result, ok, err}
use lan_sync.Prelude.Command.{done}
use lan_sync.Access.{CustomClaims, Context, claims_of}
use lan_sync.Admin.{User, Backend, Error, operation_failed, record_not_found}
use lan_sync.Admin.Users.{IsUserTable, Failed}
use lan_sync.Admin.Routes.{
  ActionRequest, post_user_action, post_room_action, room_action_permission,
}
use lan_sync.Admin.Entitled.{
  IsEntitled, IsEntitledChange, room_acted, post_user_action-IsEntitledChange,
  post_room_action-IsEntitled,
}

-- A database of one user.
abbrev user_of : User → ℤ → Option User
user_of u j = if u.id == j then some u else none

abbrev find : ℤ → User → Result Error User × User
find id u = (if u.id == id then ok u else err record_not_found, u)

abbrev save : User → User → Result Error (Unit {0}) × User
save v u = if u.id == v.id then (ok tt, v) else (err operation_failed, u)

abbrev backend : Backend User
backend = record {
  find_user = find;
  save_user = save;
  find_room = λ id u. (err record_not_found, u);
  save_room = λ r. done tt;
  delete_room = λ id. done tt;
  delete_member = λ id user. done tt;
  update_member_role = λ id user role. done tt;
  log_user = λ l. done tt;
  log_room = λ l. done tt;
  has_runtime = true;
  has_audit = true;
  kick_user = λ id. done tt;
  disband_room = λ id. done tt;
  remove_room_member = λ id user. done tt;
  set_user_offline = λ id. done tt;
}

found_lem : (id : ℤ) (s u : User) → (find id s).0 ≡ ok u → (user_of s id ≡ some u) × (u.id ≡ id)
found_lem id s u h = ground (arith, eq_of s.id id)

saved_lem :
    (u : User) (j : ℤ) (s : User)
    → ((user_of (save u s).1 j ≡ user_of s j) × (Failed (save u s).0 ⊎ (j ≢ u.id)))
      ⊎ ((j ≡ u.id) × (user_of (save u s).1 j ≡ some u))
saved_lem u j s = elim (Bool-cases (s.id == u.id)) [
  | inr other ↦ rw other (inl (refl, inl (operation_failed, refl)))
  | inl same ↦ rw same (elim (Bool-cases (u.id == j)) [
    | inl at ↦ rw at (inr (ground (arith, eq_of u.id j), refl))
    | inr away ↦ inl (ground (arith, eq_of s.id u.id), inr (λ e. ground (arith, eq_self u.id)))
  ])
]

backend-IsUserTable : IsUserTable backend user_of
backend-IsUserTable = record {
  found = found_lem;
  find_keeps = λ id j s. refl;
  saved = saved_lem;
  kick_keeps = λ id j s. refl;
  offline_keeps = λ id j s. refl;
  log_keeps = λ l j s. refl;
}

abbrev ann : User
ann = record { id = pos 9; username = "ann"; role = pos 0; status = pos 0 }

abbrev moderator_claims : CustomClaims
moderator_claims = claims_of (pos 0) (pos 7) (pos 2)

abbrev context : Context
context = record {
  authorization = "";
  query_token = "t";
  user_id = none;
  user_role = none;
  admin_role = none;
}

abbrev joined : String → String → String
joined s t = t

abbrev format_int : ℤ → String
format_int i = "7"

abbrev split_n : String → List String
split_n s = s ∷ []

abbrev request : String → ActionRequest
request action = record {
  id = some (pos 9);
  body = some (action, pos 9);
  admin_username = "";
  request_id = "";
  remote_ip = "";
  user_agent = "";
}

post_user_action-IsEntitledChange_example :
    IsEntitledChange backend joined format_int split_n
      (λ _. some moderator_claims)
      (λ _. true)
      context
      (request "ban")
      ann
      user_of
      backend-IsUserTable
      (pos 9)
      (user_of
        (post_user_action backend joined format_int split_n
          (λ _. some moderator_claims)
          (λ _. true)
          true
          context
          (request "ban")
          ann).1
        (pos 9))
post_user_action-IsEntitledChange_example =
    post_user_action-IsEntitledChange backend joined format_int split_n (λ _. some moderator_claims)
      (λ _. true) context (request "ban") ann user_of backend-IsUserTable true (pos 9)

post_room_action-IsEntitled_example :
    IsEntitled backend joined format_int split_n
      (λ _. some moderator_claims)
      (λ _. true)
      context
      (request "freeze")
      ann
      room_action_permission
      (room_acted backend joined format_int split_n
        (λ _. some moderator_claims)
        (λ _. true)
        context
        (request "freeze")
        ann)
      (post_room_action backend joined format_int split_n
        (λ _. some moderator_claims)
        (λ _. true)
        true
        context
        (request "freeze")
        ann).1
post_room_action-IsEntitled_example =
    post_room_action-IsEntitled backend joined format_int split_n (λ _. some moderator_claims)
      (λ _. true) context (request "freeze") ann true
