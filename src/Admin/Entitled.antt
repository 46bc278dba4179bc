-- ===== src/Admin/Entitled.antt =====
-- Who may act on users and rooms: the routes of services/admin/api/router.go behind their middlewares.
use lan_sync.Prelude.{
  ℕ, String, ◌≡◌, ◌≢◌, refl, sym, ap, ◌∙◌, Bool, true, false, Option, none, some, List, [], ◌∷◌,
  ◌⊎◌, inl, inr, ◌==◌, string_eq, Bool-cases,
}
use mathlib.Core.Bool.{false≢true}
use lan_sync.Prelude.Int.{ℤ}
use lan_sync.Prelude.Result.{Result, ok, err}
use lan_sync.Roles.{has_permission}
use lan_sync.Access.{CustomClaims, Context, Outcome}
use lan_sync.Access.Chain.{request_claims, allowed}
use lan_sync.Admin.{Backend, Error, User, changed_user, apply_user_action, apply_room_action}
use lan_sync.Admin.Users.{IsUserTable, apply_user_action-IsChange}
use lan_sync.Admin.Routes.{
  ActionRequest, admin_has_permission, user_action_permission, room_action_permission,
  user_action_of, room_action_of, replied, checked_action, served, admin_user_action,
  admin_room_action, user_action_on, room_action_on, post_user_action, post_room_action,
}
use lan_sync.Admin.Admission.{IsAdmission, guards-IsAdmission}

module _ {S : Type 0} (backend : Backend S) (joined : String → String → String)
    (format_int : ℤ → String) where
  -- An action with its permission, and what a request made of a state.
  abbrev pub IsPermitted :
      (String → String)
      → CustomClaims
      → Option ℤ
      → Option (String × ℤ)
      → (ℤ → String → ℤ → S)
      → S
      → Type 0
  IsPermitted permission_of claims id body acted after =
      (target : ℤ) × (action : String) × (member : ℤ) × (id ≡ some target)
      × (body ≡ some (action, member))
      × (permission_of action ≢ "")
      × (has_permission claims.role (permission_of action) ≡ true)
      × (after ≡ acted target action member)

  replied-state : (x : Result Error (Unit {0}) × S) → (replied x).1 ≡ x.1
  replied-state (ok _, s) = refl
  replied-state (err _, s) = refl

  module _ (split_n : String → List String) (parse : String → Option CustomClaims)
      (limiter_allows : Context → Bool) (c : Context) (r : ActionRequest) (s : S) where
    -- The user whose token the request carries.
    abbrev pub user_acted : CustomClaims → ℤ → String → ℤ → S
    user_acted claims target action member =
        (apply_user_action backend joined target
          (user_action_of backend joined format_int (allowed split_n parse c claims) r action) s).1

    abbrev pub room_acted : CustomClaims → ℤ → String → ℤ → S
    room_acted claims target action member =
        (apply_room_action backend joined target
          (room_action_of backend joined format_int (allowed split_n parse c claims) r action
            member)
          s).1

    -- Nothing changes, or the user of the token has the permission for the action that is made.
    abbrev pub IsEntitled : (String → String) → (CustomClaims → ℤ → String → ℤ → S) → S → Type 0
    IsEntitled permission_of acted after =
        (after ≡ s)
        ⊎ ((claims : CustomClaims) × (request_claims split_n parse c ≡ some claims)
            × (IsPermitted permission_of claims r.id r.body (acted claims) after))

    checked_permission :
        (claims : CustomClaims) (permission : String) (act : S → Result Error (Unit {0}) × S)
        → ((checked_action backend joined format_int
              (allowed split_n parse c claims)
              permission
              (λ t. replied (act t))
              s).1
            ≡ s)
          ⊎ ((permission ≢ "")
              × (has_permission claims.role permission ≡ true)
              × ((checked_action backend joined format_int
                    (allowed split_n parse c claims)
                    permission
                    (λ t. replied (act t))
                    s).1
                  ≡ (act s).1))
    unfolding admin_has_permission
    checked_permission claims permission act = elim (Bool-cases (permission == "")) [
      | inl none_known ↦ rw none_known (inl refl)
      | inr known ↦ rw known (elim (Bool-cases (has_permission claims.role permission)) [
        | inr missing ↦ rw missing (inl refl)
        | inl held ↦ rw held (
            inr (
              (λ e. false≢true (sym known ∙ (string_eq.beq_iff permission "").1 e)),
              refl,
              replied-state (act s),
            ))
      ])
    ]

    user-IsPermitted :
        (ready : Bool) (claims : CustomClaims) (id : Option ℤ) (body : Option (String × ℤ))
        → let after =
            (user_action_on backend joined format_int ready
              (allowed split_n parse c claims)
              r
              id
              body
              s).1 in
          (after ≡ s)
          ⊎ (IsPermitted user_action_permission claims id body (user_acted claims) after)
    unfolding admin_has_permission
    user-IsPermitted ready claims none body = inl refl
    user-IsPermitted ready claims (some target) none = inl refl
    user-IsPermitted false claims (some target) (some (action, member)) = inl refl
    user-IsPermitted true claims (some target) (some (action, member)) =
        elim (checked_permission claims (user_action_permission action) (
          apply_user_action backend joined target
            (user_action_of backend joined format_int (allowed split_n parse c claims) r action))) [
              | inl same ↦ inl same
              | inr (known, held, acted) ↦
                  inr (target, action, member, refl, refl, known, held, acted)
            ]

    room-IsPermitted :
        (ready : Bool) (claims : CustomClaims) (id : Option ℤ) (body : Option (String × ℤ))
        → let after =
            (room_action_on backend joined format_int ready
              (allowed split_n parse c claims)
              r
              id
              body
              s).1 in
          (after ≡ s)
          ⊎ (IsPermitted room_action_permission claims id body (room_acted claims) after)
    unfolding admin_has_permission
    room-IsPermitted ready claims none body = inl refl
    room-IsPermitted ready claims (some target) none = inl refl
    room-IsPermitted false claims (some target) (some (action, member)) = inl refl
    room-IsPermitted true claims (some target) (some (action, member)) =
        elim (checked_permission claims (room_action_permission action) (
          apply_room_action backend joined target (
            room_action_of backend joined format_int (allowed split_n parse c claims) r action
              member))) [
                | inl same ↦ inl same
                | inr (known, held, acted) ↦
                    inr (target, action, member, refl, refl, known, held, acted)
              ]

    admitted-IsEntitled :
        (permission_of : String → String) (acted : CustomClaims → ℤ → String → ℤ → S)
        (handler : Context → S → ℕ × S) (o : Outcome)
        → ((claims : CustomClaims)
            → let after = (handler (allowed split_n parse c claims) s).1 in
              (after ≡ s) ⊎ (IsPermitted permission_of claims r.id r.body (acted claims) after))
        → IsAdmission split_n parse limiter_allows c (request_claims split_n parse c) o
        → IsEntitled permission_of acted (served backend joined format_int handler o s).1
    admitted-IsEntitled permission_of acted handler o permitted (inl (status, e)) = rw e (inl refl)
    admitted-IsEntitled permission_of acted handler o permitted (inr (claims, known, e)) =
        rw e
          (elim (permitted claims) [ inl same ↦ inl same | inr acts ↦ inr (claims, known, acts) ])

    user-IsEntitled :
        (ready : Bool)
        → IsEntitled user_action_permission user_acted
            (post_user_action backend joined format_int split_n parse limiter_allows ready c r s).1
    unfolding post_user_action admin_user_action
    user-IsEntitled ready =
        admitted-IsEntitled user_action_permission user_acted
          (λ d. admin_user_action backend joined format_int ready d r) _
          (λ claims. user-IsPermitted ready claims r.id r.body)
          (guards-IsAdmission split_n parse limiter_allows c ("user.ban" ∷ "user.role.update" ∷ []))

    -- A request to act on a room changes nothing, or it carries a token that parses, whose role has the
    -- permission for the action in its body; and then what is done is that action on the room in its path, in
    -- the name of the user of the token.
    pub post_room_action-IsEntitled :
        (ready : Bool)
        → IsEntitled room_action_permission room_acted
            (post_room_action backend joined format_int split_n parse limiter_allows ready c r s).1
    unfolding post_room_action admin_room_action
    post_room_action-IsEntitled ready =
        admitted-IsEntitled room_action_permission room_acted
          (λ d. admin_room_action backend joined format_int ready d r) _
          (λ claims. room-IsPermitted ready claims r.id r.body)
          (guards-IsAdmission split_n parse limiter_allows c
            ("room.freeze" ∷ "room.delete" ∷ "agent.config" ∷ []))

    module _ (user_of : S → ℤ → Option User) (law : IsUserTable backend user_of) where
      -- What a request may do to the row of user `j`.
      abbrev pub IsEntitledChange : ℤ → Option User → Type 0
      IsEntitledChange j after =
          (after ≡ user_of s j)
          ⊎ ((claims : CustomClaims) × (action : String) × (member : ℤ) × (u : User) × (v : User)
              × (request_claims split_n parse c ≡ some claims)
              × (r.id ≡ some j)
              × (r.body ≡ some (action, member))
              × (has_permission claims.role (user_action_permission action) ≡ true)
              × (user_of s j ≡ some u)
              × (changed_user action u ≡ some v)
              × (after ≡ some v))

      -- A request to act on a user changes no row but that of the user in its path, and that row only if it
      -- carries a token that parses, whose role has the permission for the action in its body; the row is then
      -- as the action says.
      pub post_user_action-IsEntitledChange :
          (ready : Bool) (j : ℤ)
          → IsEntitledChange j (
              user_of
                (post_user_action backend joined format_int split_n parse limiter_allows ready c r
                  s).1
                j)
      post_user_action-IsEntitledChange ready j = elim (user-IsEntitled ready) [
        | inl same ↦ inl (ap (λ t. user_of t j) same)
        | inr (claims, known, (target, action, member, id, body, _, held, acted)) ↦
            elim (apply_user_action-IsChange backend joined user_of law j target
              (user_action_of backend joined format_int (allowed split_n parse c claims) r action)
              s) [
                | inl (stays, _) ↦ inl (ap (λ t. user_of t j) acted ∙ stays)
                | inr (u, v, at, found, changed, now) ↦ inr (
                  claims,
                  action,
                  member,
                  u,
                  v,
                  known,
                  id ∙ ap some (sym at),
                  body,
                  held,
                  found,
                  changed,
                  ap (λ t. user_of t j) acted ∙ now,
                )
              ]
      ]
