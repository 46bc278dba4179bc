-- ===== src/Admin/Admission.antt =====
-- The middlewares before the routes of services/admin/api/router.go that act on users and rooms.
use lan_sync.Prelude.{
  ℕ, String, ◌≡◌, refl, Bool, Option, none, some, List, [], ◌∷◌, ◌⊎◌, inl, inr, ◌==◌, string_eq,
  Bool-cases,
}
use lan_sync.Roles.{is_admin_role}
use lan_sync.Access.{
  CustomClaims, Context, Value, Outcome, next, aborted, unauthorized, forbidden, too_many_requests,
  token_string, with_token, authenticated, jwt_auth, require_admin, admin_rate_limit,
  require_any_permission, has_any, run_chain, chained, get_user_role,
}
use lan_sync.Access.Chain.{request_claims, token_claims, allowed}

module _ (split_n : String → List String) (parse : String → Option CustomClaims)
    (limiter_allows : Context → Bool) (c : Context) where
  abbrev pub role_guards : List String → List (Context → Outcome)
  role_guards permissions =
      require_admin ∷ admin_rate_limit limiter_allows ∷ require_any_permission permissions ∷ []

  -- The middlewares answer the request, or hand on the user and the role of its token.
  abbrev pub IsAdmission : Option CustomClaims → Outcome → Type 0
  IsAdmission claims o =
      ((status : ℕ) × (o ≡ aborted status))
      ⊎ ((known : CustomClaims) × (claims ≡ some known)
          × (o ≡ next (allowed split_n parse c known)))

  roles-IsAdmission :
      (permissions : List String) (claims : CustomClaims)
      → IsAdmission (some claims) (
          run_chain
            (role_guards permissions)
            (record c { user_id = some claims.user_id; user_role = some (Value.int8 claims.role) }))
  unfolding run_chain require_admin admin_rate_limit require_any_permission get_user_role
  roles-IsAdmission permissions claims = elim (Bool-cases (is_admin_role claims.role)) [
    | inr user ↦ rw user (inl (forbidden, refl))
    | inl admin ↦ rw admin (elim (Bool-cases (limiter_allows (allowed split_n parse c claims))) [
      | inr limited ↦ rw limited (inl (too_many_requests, refl))
      | inl free ↦ rw free (elim (Bool-cases (has_any claims.role permissions)) [
        | inr none_held ↦ rw none_held (inl (forbidden, refl))
        | inl held ↦ rw held (inr (claims, refl, refl))
      ])
    ])
  ]

  authenticated-IsAdmission :
      (permissions : List String) (claims : Option CustomClaims)
      → IsAdmission claims (chained (run_chain (role_guards permissions)) (authenticated c claims))
  authenticated-IsAdmission permissions none = inl (unauthorized, refl)
  authenticated-IsAdmission permissions (some claims) = roles-IsAdmission permissions claims

  token-IsAdmission :
      (permissions : List String) (token : Option String)
      → IsAdmission
          (token_claims split_n parse token)
          (chained (run_chain (role_guards permissions)) (with_token parse c token))
  token-IsAdmission permissions none = inl (unauthorized, refl)
  token-IsAdmission permissions (some token) = elim (Bool-cases (token == "")) [
    | inl empty ↦ rw empty (inl (unauthorized, refl))
    | inr full ↦ rw full (authenticated-IsAdmission permissions (parse token))
  ]

  pub guards-IsAdmission :
      (permissions : List String)
      → IsAdmission
          (request_claims split_n parse c)
          (run_chain (jwt_auth split_n parse ∷ role_guards permissions) c)
  unfolding run_chain jwt_auth
  guards-IsAdmission permissions = token-IsAdmission permissions (token_string split_n c)
