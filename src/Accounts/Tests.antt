-- ===== src/Accounts/Tests.antt =====
-- Logins and what their tokens open (services/gateway/handlers/auth_handler.go).
use lan_sync.Prelude.{
  String, ◌≡◌, refl, Bool, true, false, none, some, List, [], ◌∷◌, ◌==◌, string_eq, arith,
}
use lan_sync.Prelude.Int.{pos, int_eq}
use lan_sync.Prelude.Result.{ok}
use lan_sync.Login.{Config, new_login_protector, allow, begin_compare}
use lan_sync.Access.{
  CustomClaims, Context, Outcome, require_any_permission, aborted, forbidden, run_chain,
  parse_token, generate_token, claims_of,
}
use lan_sync.Access.OneToken.{jwt, jwt-IsJwt}
use lan_sync.Access.Chain.{admin_group}
use lan_sync.Accounts.{User, LoginRequest, login_handler, log_in}
use lan_sync.Accounts.Tokens.{IsLogin, login_handler-IsLogin}

abbrev same : String → String
same s = s

abbrev config : Config
config = record {
  disable_rate_limit = true;
  ip_limit = pos 1;
  ip_window = 60;
  pair_limit = pos 5;
  pair_window = 60;
  bcrypt_concurrent = 2;
}

-- Banned by an administrator, and let in.
abbrev ann : User
ann = record {
  id = pos 7;
  username = "ann";
  password = "hash";
  avatar = "";
  role = pos 0;
  status = pos 1;
}

abbrev request : LoginRequest
request = record {
  body = some ("ann", "pw");
  ip = "10.0.0.1";
  now = 100;
  issue_time = pos 100;
  find_user = λ name. ok ann;
  is_done = false;
  prefers_done = false;
  interrupted = false;
}

abbrev claims : CustomClaims
claims = claims_of (pos 100) (pos 7) (pos 0)

abbrev matches : String → String → Bool
matches hash password = true

abbrev context : Context
context = record {
  authorization = "";
  query_token = "t";
  user_id = none;
  user_role = none;
  admin_role = none;
}

abbrev split : String → List String
split s = s ∷ []

-- The middleware of the route that acts on a user.
abbrev user_action_guards : List (Context → Outcome)
user_action_guards = require_any_permission ("user.ban" ∷ "user.role.update" ∷ []) ∷ []

login_handler-IsLogin_example :
    (IsLogin same same matches
      (generate_token (jwt claims) [])
      (λ role. role == pos 0)
      config
      request
      "t"
      ann
      new_login_protector)
    × (run_chain
          (admin_group split (parse_token (jwt claims) [] (pos 200)) (λ _. true) user_action_guards)
          context
        ≡ aborted forbidden)
unfolding login_handler log_in generate_token begin_compare allow new_login_protector
login_handler-IsLogin_example =
    login_handler-IsLogin same same matches (jwt claims) (jwt-IsJwt claims) [] split (λ _. true)
      config request new_login_protector "t" ann user_action_guards (pos 200) context refl
      (omega arith) refl refl
