-- ===== src/Access.antt =====
-- shared/auth/jwt.go and shared/http/middleware/jwt_auth.go, rbac.go: who may call a route. golang-jwt,
-- strings.SplitN and the environment are parameters; a middleware of gin is a function of the request's
-- context; logging and metrics are left out.
pub mod Tokens
pub mod Chain
pub mod OneToken
mod Tests
use lan_sync.Prelude.{
  ℕ, ◌*◌, String, Bool, true, false, not, Option, none, some, List, [], ◌∷◌, ◌||◌, if◌then◌else◌,
  ◌==◌, string_eq,
}
use lan_sync.Prelude.Int.{ℤ, pos, ◌+ℤ◌, int_eq}
use lan_sync.Events.{Bytes}
use lan_sync.Roles.{super_admin, is_admin_role, has_permission}

-- Instants are in seconds, the resolution of jwt.NumericDate.
pub record CustomClaims : Type 0 where
  pub user_id : ℤ
  pub role : ℤ
  pub expires_at : ℤ
  pub issued_at : ℤ
  pub issuer : String

-- The method in the header of a token.
pub data SigningMethod : Type 0 where
  hmac other_method : SigningMethod

-- `claims` is none where they are not of our type.
pub record Token : Type 0 where
  pub claims : Option CustomClaims
  pub valid : Bool

-- golang-jwt: `signed_string` signs with HS256, and `parse_with_claims` asks a function for the key.
pub record Jwt : Type 0 where
  pub signed_string : Bytes → CustomClaims → Option String
  pub parse_with_claims : ℤ → (SigningMethod → Option Bytes) → String → Option Token

-- `secret` is the variable JWT_SECRET.
unfoldable pub jwt_secret : (String → Bytes) → String → Bytes
jwt_secret to_bytes secret =
    if secret == "" then to_bytes "fK29gArL2zTtX7V8ErD9bF2wR4qJ6pM3" else to_bytes secret

abbrev pub claims_of : ℤ → ℤ → ℤ → CustomClaims
claims_of now user_id role = record {
  user_id = user_id;
  role = role;
  expires_at = now +ℤ pos (24 * 3600);
  issued_at = now;
  issuer = "lan-im-server";
}

abbrev pub key_func : Bytes → SigningMethod → Option Bytes
key_func secret hmac = some secret
key_func secret other_method = none

abbrev pub checked : Option Token → Option CustomClaims
checked none = none
checked (some token) = if token.valid then token.claims else none

module _ (jwt : Jwt) (secret : Bytes) where
  unfoldable pub generate_token : ℤ → ℤ → ℤ → Option String
  generate_token now user_id role = jwt.signed_string secret (claims_of now user_id role)

  unfoldable pub parse_token : ℤ → String → Option CustomClaims
  parse_token now token = checked (jwt.parse_with_claims now (key_func secret) token)

-- A value of the context: the role that JWTAuth sets is an int8.
pub data Value : Type 0 where
  int8 : ℤ → Value
  other_value : Value

-- What a middleware sees and sets of gin.Context.
pub record Context : Type 0 where
  pub authorization : String
  pub query_token : String
  pub user_id : Option ℤ
  pub user_role : Option Value
  pub admin_role : Option ℤ

-- A middleware calls Next, aborts with a status, or panics.
pub data Outcome : Type 0 where
  next : Context → Outcome
  aborted : ℕ → Outcome
  panics : Outcome

abbrev pub unauthorized : ℕ
unauthorized = 401

abbrev pub forbidden : ℕ
forbidden = 403

abbrev pub too_many_requests : ℕ
too_many_requests = 429

-- The parts of the header Authorization.
abbrev pub bearer : List String → Option String
bearer (scheme ∷ token ∷ []) = if scheme == "Bearer" then some token else none
bearer _ = none

unfoldable pub token_string : (String → List String) → Context → Option String
token_string split_n c =
    if not (c.authorization == "") then bearer (split_n c.authorization) else some c.query_token

abbrev pub authenticated : Context → Option CustomClaims → Outcome
authenticated c none = aborted unauthorized
authenticated c (some claims) =
    next (record c { user_id = some claims.user_id; user_role = some (int8 claims.role) })

abbrev pub with_token : (String → Option CustomClaims) → Context → Option String → Outcome
with_token parse c none = aborted unauthorized
with_token parse c (some token) =
    if token == "" then aborted unauthorized else authenticated c (parse token)

-- `split_n` is strings.SplitN at " " and 2, and `parse` is ParseToken at the time of the request.
unfoldable pub jwt_auth :
    (String → List String) → (String → Option CustomClaims) → Context → Outcome
jwt_auth split_n parse c = with_token parse c (token_string split_n c)

abbrev pub super_admin_value : Context → Option Value → Outcome
super_admin_value c none = aborted forbidden
super_admin_value c (some other_value) = panics
super_admin_value c (some (int8 role)) = if not (role == pos 1) then aborted forbidden else next c

unfoldable pub super_admin_only : Context → Outcome
super_admin_only c = super_admin_value c c.user_role

abbrev pub role_of_value : Option Value → Option ℤ
role_of_value none = none
role_of_value (some (int8 role)) = some role
role_of_value (some other_value) = none

unfoldable pub get_user_role : Context → Option ℤ
get_user_role c = role_of_value c.user_role

abbrev pub admit_role : (ℤ → Bool) → Context → Option ℤ → Outcome
admit_role allows c none = aborted forbidden
admit_role allows c (some role) =
    if allows role then next (record c { admin_role = some role }) else aborted forbidden

unfoldable pub require_admin : Context → Outcome
unfolding get_user_role
require_admin c = admit_role is_admin_role c (get_user_role c)

unfoldable pub require_permission : String → Context → Outcome
unfolding get_user_role
require_permission permission c =
    admit_role (λ role. has_permission role permission) c (get_user_role c)

-- The loop over the permissions stops at the first that the role has.
unfoldable pub has_any : ℤ → List String → Bool
has_any role [] = false
has_any role (permission ∷ rest) =
    if has_permission role permission then true else has_any role rest

unfoldable pub require_any_permission : List String → Context → Outcome
unfolding get_user_role
require_any_permission permissions c =
    admit_role (λ role. has_any role permissions) c (get_user_role c)

-- AdminRateLimit, given what its limiter for the user and the address answers.
unfoldable pub admin_rate_limit : (Context → Bool) → Context → Outcome
admin_rate_limit limiter_allows c = if limiter_allows c then next c else aborted too_many_requests

-- gin runs the handlers of a route in turn until one aborts.
abbrev pub chained : (Context → Outcome) → Outcome → Outcome
chained handler (next c) = handler c
chained handler (aborted status) = aborted status
chained handler panics = panics

unfoldable pub run_chain : List (Context → Outcome) → Context → Outcome
run_chain [] c = next c
run_chain (middleware ∷ rest) c = chained (run_chain rest) (middleware c)
