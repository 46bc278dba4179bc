-- ===== src/Access/Chain.antt =====
-- The middlewares in front of an administrator's route (shared/http/middleware/jwt_auth.go, rbac.go,
-- security.go).
use lan_sync.Prelude.{
  String, ◌≡◌, ◌≢◌, refl, ap, ◌∙◌, ◌*◌, Bool, true, false, Option, none, some, List, [], ◌∷◌,
  if◌then◌else◌, ◌==◌, string_eq, arith, Bool-cases, inl, inr, eq_of,
}
use lan_sync.Prelude.Int.{ℤ, pos, ltb_ℤ, ◌+ℤ◌, ◌≤ℤ◌}
use lan_sync.Events.{Bytes}
use lan_sync.Roles.{is_admin_role, has_permission}
use lan_sync.Roles.Rights.{is_admin_role-has_permission}
use lan_sync.Access.{
  CustomClaims, Jwt, Context, Value, Outcome, next, aborted, unauthorized, forbidden, token_string,
  with_token, authenticated, jwt_auth, require_admin, admin_rate_limit, require_permission,
  get_user_role, run_chain, chained, generate_token, parse_token, claims_of,
}
use lan_sync.Access.Tokens.{IsJwt, parse_token-generate_token}

module _ (split_n : String → List String) (parse : String → Option CustomClaims) where
  abbrev pub token_claims : Option String → Option CustomClaims
  token_claims none = none
  token_claims (some token) = if token == "" then none else parse token

  abbrev pub request_claims : Context → Option CustomClaims
  request_claims c = token_claims (token_string split_n c)

  abbrev pub allowed : Context → CustomClaims → Context
  allowed c claims = record c {
    user_id = some claims.user_id;
    user_role = some (Value.int8 claims.role);
    admin_role = some claims.role;
  }

  abbrev pub decision : String → Context → Option CustomClaims → Outcome
  decision permission c none = aborted unauthorized
  decision permission c (some claims) =
      if has_permission claims.role permission then next (allowed c claims) else aborted forbidden

  query-token_string :
      (c : Context) (token : String)
      → c.authorization ≡ ""
      → c.query_token ≡ token
      → token_string split_n c ≡ some token
  unfolding token_string
  query-token_string c token a q = rw (a, q) refl

  token_claims-full : (token : String) → token ≢ "" → token_claims (some token) ≡ parse token
  token_claims-full token full = elim (Bool-cases (token == "")) [
    | inl e ↦ absurd (full (eq_of token "" e))
    | inr e ↦ rw e refl
  ]

  decision-if :
      (permission : String) (c : Context) (early : Bool) (claims : CustomClaims)
      → decision permission c (if early then some claims else none)
        ≡ (if early then decision permission c (some claims) else aborted unauthorized)
  decision-if permission c true claims = refl
  decision-if permission c false claims = refl

rights :
    (role : ℤ) (permission : String)
    → is_admin_role role ≡ false
    → has_permission role permission ≡ false
rights role permission h = elim (Bool-cases (has_permission role permission)) [
  | inl can ↦ absurd (ground (arith, (is_admin_role-has_permission role).0.1 (permission, can)))
  | inr cannot ↦ cannot
]

chained-last :
    (b : Bool) (c : Context)
    → chained (λ d. next d) (if b then next c else aborted forbidden)
      ≡ (if b then next c else aborted forbidden)
chained-last true c = refl
chained-last false c = refl

module _ (split_n : String → List String) (parse : String → Option CustomClaims)
    (limiter_allows : Context → Bool) (free : (d : Context) → limiter_allows d ≡ true) where
  abbrev role_chain : String → List (Context → Outcome)
  role_chain permission =
      require_admin ∷ admin_rate_limit limiter_allows ∷ require_permission permission ∷ []

  roles-decide :
      (permission : String) (c : Context) (claims : CustomClaims)
      → run_chain
          (role_chain permission)
          (record c { user_id = some claims.user_id; user_role = some (Value.int8 claims.role) })
        ≡ decision split_n parse permission c (some claims)
  unfolding run_chain require_admin admin_rate_limit require_permission get_user_role
  roles-decide permission c claims = elim (Bool-cases (is_admin_role claims.role)) [
    | inl admin ↦
        rw (admin, free (allowed split_n parse c claims))
          (chained-last (has_permission claims.role permission) (allowed split_n parse c claims))
    | inr user ↦ rw (user, rights claims.role permission user) refl
  ]

  authenticated-decide :
      (permission : String) (c : Context) (claims : Option CustomClaims)
      → chained (run_chain (role_chain permission)) (authenticated c claims)
        ≡ decision split_n parse permission c claims
  authenticated-decide permission c none = refl
  authenticated-decide permission c (some claims) = roles-decide permission c claims

  with_token-decide :
      (permission : String) (c : Context) (token : Option String)
      → chained (run_chain (role_chain permission)) (with_token parse c token)
        ≡ decision split_n parse permission c (token_claims split_n parse token)
  with_token-decide permission c none = refl
  with_token-decide permission c (some token) = elim (Bool-cases (token == "")) [
    | inl empty ↦ rw empty refl
    | inr full ↦ rw full (authenticated-decide permission c (parse token))
  ]

  admin_chain-decides :
      (permission : String) (c : Context)
      → run_chain (jwt_auth split_n parse ∷ role_chain permission) c
        ≡ decision split_n parse permission c (request_claims split_n parse c)
  unfolding run_chain jwt_auth
  admin_chain-decides permission c = with_token-decide permission c (token_string split_n c)

-- The middlewares of a route of RegisterAdminRoutes that needs one permission.
abbrev pub admin_chain :
    (String → List String)
    → (String → Option CustomClaims)
    → (Context → Bool)
    → String
    → List (Context → Outcome)
admin_chain split_n parse limiter_allows permission =
    jwt_auth split_n parse
    ∷ require_admin
    ∷ admin_rate_limit limiter_allows
    ∷ require_permission permission
    ∷ []

module _ (split_n : String → List String) (parse : String → Option CustomClaims) where
  jwt_auth-claims :
      (c : Context) → jwt_auth split_n parse c ≡ authenticated c (request_claims split_n parse c)
  unfolding jwt_auth
  jwt_auth-claims c = with_token-claims (token_string split_n c)
    where
      with_token-claims :
          (token : Option String)
          → with_token parse c token ≡ authenticated c (token_claims split_n parse token)
      with_token-claims none = refl
      with_token-claims (some token) = elim (Bool-cases (token == "")) [
        | inl empty ↦ rw empty refl
        | inr full ↦ rw full refl
      ]

-- The middlewares of the group of routes for administrators, before those of the route.
abbrev pub admin_group :
    (String → List String)
    → (String → Option CustomClaims)
    → (Context → Bool)
    → List (Context → Outcome)
    → List (Context → Outcome)
admin_group split_n parse limiter_allows guards =
    jwt_auth split_n parse ∷ require_admin ∷ admin_rate_limit limiter_allows ∷ guards

module _ (jwt : Jwt) (law : IsJwt jwt) (secret : Bytes) (split_n : String → List String) where
  generated-claims :
      (token : String) (made now user_id role : ℤ) (c : Context)
      → generate_token jwt secret made user_id role ≡ some token
      → made ≤ℤ now
      → c.authorization ≡ ""
      → c.query_token ≡ token
      → request_claims split_n (parse_token jwt secret now) c
        ≡ (if ltb_ℤ now (made +ℤ pos (24 * 3600)) then some (claims_of made user_id role) else none)
  unfolding generate_token
  generated-claims token made now user_id role c h l a q =
      let parse = parse_token jwt secret now in
      let full = law.nonempty secret (claims_of made user_id role) token h in
      ap (token_claims split_n parse) (query-token_string split_n parse c token a q)
      ∙ (token_claims-full split_n parse token full
          ∙ parse_token-generate_token jwt law secret made now user_id role token h l)

  user-refused :
      (limiter_allows : Context → Bool) (guards : List (Context → Outcome)) (early : Bool)
      (claims : CustomClaims) (c : Context)
      → is_admin_role claims.role ≡ false
      → chained
          (run_chain (require_admin ∷ admin_rate_limit limiter_allows ∷ guards))
          (authenticated c (if early then some claims else none))
        ≡ aborted (if early then forbidden else unauthorized)
  unfolding run_chain require_admin get_user_role
  user-refused limiter_allows guards false claims c user = refl
  user-refused limiter_allows guards true claims c user = rw user refl

  -- A request with a generated token of no administrator as its query parameter passes none of the routes for
  -- administrators, whatever their own middlewares: it is answered 403 during the token's 24 hours, and then 401.
  pub admin_group-generate_token :
      (limiter_allows : Context → Bool) (guards : List (Context → Outcome)) (token : String)
      (made now user_id role : ℤ) (c : Context)
      → is_admin_role role ≡ false
      → generate_token jwt secret made user_id role ≡ some token
      → made ≤ℤ now
      → c.authorization ≡ ""
      → c.query_token ≡ token
      → run_chain (admin_group split_n (parse_token jwt secret now) limiter_allows guards) c
        ≡ aborted (if ltb_ℤ now (made +ℤ pos (24 * 3600)) then forbidden else unauthorized)
  unfolding run_chain
  admin_group-generate_token limiter_allows guards token made now user_id role c user h l a q =
      rw
        (
          jwt_auth-claims split_n (parse_token jwt secret now) c,
          generated-claims token made now user_id role c h l a q,
        )
        (user-refused limiter_allows guards (ltb_ℤ now (made +ℤ pos (24 * 3600)))
          (claims_of made user_id role) c user)

module _ (jwt : Jwt) (law : IsJwt jwt) (secret : Bytes) (split_n : String → List String)
    (limiter_allows : Context → Bool) (free : (d : Context) → limiter_allows d ≡ true) where
  -- While the rate limiter lets requests through, a request that carries a generated token as its query
  -- parameter is let in as the user and the role of the token, during its 24 hours, exactly if the role has the
  -- permission of the route, and is else answered 403; after the 24 hours it is answered 401.
  pub admin_chain-generate_token :
      (permission token : String) (made now user_id role : ℤ) (c : Context)
      → generate_token jwt secret made user_id role ≡ some token
      → made ≤ℤ now
      → c.authorization ≡ ""
      → c.query_token ≡ token
      → run_chain (admin_chain split_n (parse_token jwt secret now) limiter_allows permission) c ≡ (
          if ltb_ℤ now (made +ℤ pos (24 * 3600))
          then (if has_permission role permission
              then next
                  (allowed split_n (parse_token jwt secret now) c (claims_of made user_id role))
              else aborted forbidden)
          else aborted unauthorized)
  admin_chain-generate_token permission token made now user_id role c h l a q =
      let parse = parse_token jwt secret now in
      let claims = generated-claims jwt law secret split_n token made now user_id role c h l a q in
      admin_chain-decides split_n parse limiter_allows free permission c
      ∙ (ap (decision split_n parse permission c) claims
          ∙ decision-if split_n parse permission c (ltb_ℤ now (made +ℤ pos (24 * 3600)))
              (claims_of made user_id role))
