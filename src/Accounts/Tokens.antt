-- ===== src/Accounts/Tokens.antt =====
-- What a login's token is given for, and what it opens (services/gateway/handlers/auth_handler.go,
-- services/admin/api/admin_auth.go).
use lan_sync.Prelude.{
  String, ◌≡◌, refl, ap, ◌∙◌, Bool, true, false, Option, none, some, List, Bool-cases, inl, inr,
  ◌==◌, if◌then◌else◌, ◌*◌, eq_of,
}
use lan_sync.Prelude.Int.{ℤ, pos, ltb_ℤ, ◌+ℤ◌, ◌≤ℤ◌, int_eq}
use lan_sync.Prelude.Result.{Result, ok, err}
use lan_sync.Events.{Bytes}
use lan_sync.Roles.{is_admin_role}
use lan_sync.Login.{
  Config, LoginProtector, Reply, Error, allowed, refused, cancelled, bcrypt_busy, allow,
  begin_compare,
}
use lan_sync.Access.{
  Jwt, Context, Outcome, aborted, unauthorized, forbidden, run_chain, generate_token, parse_token,
}
use lan_sync.Access.Tokens.{IsJwt}
use lan_sync.Access.Chain.{admin_group, admin_group-generate_token}
use lan_sync.Accounts.{
  User, UserError, context_done, not_found, LoginRequest, logged_in, with_generated, compared,
  after_slot, after_find, after_allow, after_body, log_in, login_handler,
}

module _ (trim lower : String → String) (matches : String → String → Bool)
    (generate : ℤ → ℤ → ℤ → Option String) (admits : ℤ → Bool) (c : Config) (r : LoginRequest)
    (token : String) (user : User) where
  -- The password that a login was given is the user's, and the token is for that user.
  pub record IsLogin (p : LoginProtector) : Type 0 where
    pub username : String
    pub password : String
    pub body : r.body ≡ some (username, password)
    pub is_allowed :
        (allow trim lower c p (record { now = r.now; ip = r.ip; username = username })).1 ≡ allowed
    pub found : r.find_user username ≡ ok user
    pub matched : matches user.password password ≡ true
    pub admitted : admits user.role ≡ true
    pub generated : generate r.issue_time user.id user.role ≡ some token

  abbrev IsGiven : User → String → Type 0
  IsGiven found password =
      (found ≡ user)
      × (matches found.password password ≡ true)
      × (admits found.role ≡ true)
      × (generate r.issue_time found.id found.role ≡ some token)

  with_generated-given :
      (found : User) (made : Option String)
      → with_generated trim lower matches generate admits c r found made ≡ logged_in token user
      → (found ≡ user) × (made ≡ some token)
  with_generated-given found none h = cc h
  with_generated-given found (some made) h = (cc h, cc h)

  compared-given :
      (found : User) (b : Bool)
      → compared trim lower matches generate admits c r found b ≡ logged_in token user
      → (found ≡ user)
        × (b ≡ true)
        × (admits found.role ≡ true)
        × (generate r.issue_time found.id found.role ≡ some token)
  compared-given found false h = cc h
  compared-given found true h = elim (Bool-cases (admits found.role)) [
    | inr outside ↦ absurd (let k = rw outside at h in cc k)
    | inl admitted ↦
        let (same, made) = with_generated-given found _ (rw admitted at h) in
        (same, refl, admitted, made)
  ]

  after_slot-IsGiven :
      (found : User) (password : String) (x : LoginProtector × Reply)
      → (after_slot trim lower matches generate admits c r found password x).1
        ≡ logged_in token user
      → IsGiven found password
  after_slot-IsGiven found password (p, refused cancelled) h = cc h
  after_slot-IsGiven found password (p, refused bcrypt_busy) h = cc h
  after_slot-IsGiven found password (p, refused Error.ip_rate_limited) h = cc h
  after_slot-IsGiven found password (p, refused Error.pair_rate_limited) h = cc h
  after_slot-IsGiven found password (p, allowed) h = elim (Bool-cases r.interrupted) [
    | inl late ↦ absurd (let k = rw late at h in cc k)
    | inr intime ↦ compared-given found (matches found.password password) (rw intime at h)
  ]

  after_find-IsGiven :
      (p : LoginProtector) (password : String) (found : Result UserError User)
      → (after_find trim lower matches generate admits c r p password found).1
        ≡ logged_in token user
      → (u : User) × (found ≡ ok u) × (IsGiven u password)
  after_find-IsGiven p password (err context_done) h = cc h
  after_find-IsGiven p password (err not_found) h = cc h
  after_find-IsGiven p password (ok u) h =
      (u, refl, after_slot-IsGiven u password (begin_compare c p r.is_done r.prefers_done) h)

  after_allow-IsGiven :
      (username password : String) (x : LoginProtector × Reply)
      → (after_allow trim lower matches generate admits c r username password x).1
        ≡ logged_in token user
      → (x.1 ≡ allowed) × ((u : User) × (r.find_user username ≡ ok u) × (IsGiven u password))
  after_allow-IsGiven username password (p, refused e) h = cc h
  after_allow-IsGiven username password (p, allowed) h =
      (refl, after_find-IsGiven p password (r.find_user username) h)

  body-IsLogin :
      (p : LoginProtector) (body : Option (String × String))
      → r.body ≡ body
      → (after_body trim lower matches generate admits c r p body).1 ≡ logged_in token user
      → IsLogin p
  body-IsLogin p none e h = cc h
  body-IsLogin p (some (username, password)) e h =
      let (is_allowed, (u, found, (same, matched, admitted, generated))) =
        after_allow-IsGiven username password
          (allow trim lower c p (record { now = r.now; ip = r.ip; username = username })) h in
      record {
        username = username;
        password = password;
        body = e;
        is_allowed = is_allowed;
        found = found ∙ ap ok same;
        matched = rw (← same) matched;
        admitted = rw (← same) admitted;
        generated = rw (← same) generated;
      }

  pub log_in-IsLogin :
      (p : LoginProtector)
      → (log_in trim lower matches generate admits c r p).1 ≡ logged_in token user
      → IsLogin p
  unfolding log_in
  log_in-IsLogin p h = body-IsLogin p r.body refl h

is_user : (role : ℤ) → role ≡ pos 0 → is_admin_role role ≡ false
unfolding is_admin_role
is_user role e = rw e refl

module _ (trim lower : String → String) (matches : String → String → Bool) (jwt : Jwt)
    (law : IsJwt jwt) (secret : Bytes) (split_n : String → List String)
    (limiter_allows : Context → Bool) (c : Config) (r : LoginRequest) (p : LoginProtector)
    (token : String) (user : User) where
  -- A token that LoginHandler gives was asked for with a body that names the user and whose password matches the
  -- user's hash, in an attempt that the login protector allowed, and the user has role 0. And it opens no route
  -- of RegisterAdminRoutes, whatever middlewares of its own the route has: at any later time a request with it as
  -- its query parameter is answered 403, and 401 after 24 hours.
  pub login_handler-IsLogin :
      (guards : List (Context → Outcome)) (now : ℤ) (d : Context)
      → (login_handler trim lower matches (generate_token jwt secret) c r p).1
        ≡ logged_in token user
      → r.issue_time ≤ℤ now
      → d.authorization ≡ ""
      → d.query_token ≡ token
      → (IsLogin trim lower matches
          (generate_token jwt secret)
          (λ role. role == pos 0)
          c
          r
          token
          user
          p)
        × (run_chain (admin_group split_n (parse_token jwt secret now) limiter_allows guards) d
            ≡ aborted
                (if ltb_ℤ now (r.issue_time +ℤ pos (24 * 3600)) then forbidden else unauthorized))
  unfolding login_handler
  login_handler-IsLogin guards now d h later a q =
      let given =
        log_in-IsLogin trim lower matches (generate_token jwt secret) (λ role. role == pos 0) c r
          token user p h in
      (
        given,
        admin_group-generate_token jwt law secret split_n limiter_allows guards token r.issue_time
            now user.id user.role d (is_user user.role (eq_of user.role (pos 0) given.admitted))
            given.generated later a q,
      )
