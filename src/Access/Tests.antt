-- ===== src/Access/Tests.antt =====
-- Requests to the routes of the administration (shared/auth/jwt.go, shared/http/middleware).
use lan_sync.Prelude.{String, ◌≡◌, refl, true, none, some, List, [], ◌∷◌, string_eq, arith}
use lan_sync.Prelude.Int.{pos, int_eq}
use lan_sync.Roles.{has_permission, role_permissions, holds}
use lan_sync.Access.{
  CustomClaims, Context, Value, Outcome, next, run_chain, generate_token, parse_token, claims_of,
  super_admin_only,
}
use lan_sync.Access.OneToken.{jwt, jwt-IsJwt}
use lan_sync.Access.Chain.{admin_chain, admin_chain-generate_token}

abbrev claims : CustomClaims
claims = claims_of (pos 100) (pos 7) (pos 2)

abbrev request : Context
request = record {
  authorization = "";
  query_token = "t";
  user_id = none;
  user_role = none;
  admin_role = none;
}

abbrev split : String → List String
split s = s ∷ []

-- The moderator may ban a user, until a day after the token was made.
admin_chain-generate_token_example :
    run_chain
      (admin_chain split (parse_token (jwt claims) [] (pos 200)) (λ _. true) "user.ban")
      request
    ≡ next (record request {
      user_id = some (pos 7);
      user_role = some (Value.int8 (pos 2));
      admin_role = some (pos 2);
    })
unfolding generate_token has_permission role_permissions holds
admin_chain-generate_token_example =
    admin_chain-generate_token (jwt claims) (jwt-IsJwt claims) [] split (λ _. true) (λ _. refl)
      "user.ban" "t" (pos 100) (pos 200) (pos 7) (pos 2) request refl (omega arith) refl refl

-- A value of another type in the context makes SuperAdminOnly panic.
panics_example :
    super_admin_only (record request { user_role = some Value.other_value }) ≡ Outcome.panics
unfolding super_admin_only
panics_example = refl
