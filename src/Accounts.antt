-- ===== src/Accounts.antt =====
-- The logins of users and administrators and the registration: services/gateway/handlers/auth_handler.go and
-- services/admin/api/admin_auth.go, over Login and Access. bcrypt, the users' table, strconv and the checks
-- of gin's binding are parameters; logging and metrics are left out.
pub mod Tokens
mod Tests
use lan_sync.Prelude.{
  ℕ, String, Bool, true, false, Option, none, some, List, [], ◌∷◌, ◌==◌, string_eq, if◌then◌else◌,
  ◌*◌,
}
use lan_sync.Prelude.Int.{ℤ, pos, leb_ℤ, int_eq}
use lan_sync.Prelude.Result.{Result, ok, err}
use lan_sync.Prelude.Command.{Command}
use lan_sync.Login.{
  Config, LoginProtector, Reply, Error, allowed, refused, cancelled, bcrypt_busy, Attempt, allow,
  begin_compare, end_compare,
}
use lan_sync.Roles.{is_admin_role}

-- The columns of the users' table that these handlers read and set.
pub record User : Type 0 where
  pub id : ℤ
  pub username : String
  pub password : String
  pub avatar : String
  pub role : ℤ
  pub status : ℤ

-- Errors of a query: the context's, and any other.
pub data UserError : Type 0 where
  context_done not_found : UserError

unfoldable pub positive_env_int : (String → Option ℤ) → (String → String) → String → ℤ → ℤ
positive_env_int atoi getenv name fallback = elim (atoi (getenv name)) [
  | none ↦ fallback
  | some value ↦ if leb_ℤ value (pos 0) then fallback else value
]

-- What one request meets: its body where it binds, the store's answers, the readings of the clocks, and how
-- the selects of Compare go; `interrupted` says that the context ends before bcrypt does.
pub record LoginRequest : Type 0 where
  pub body : Option (String × String)
  pub ip : String
  pub now : ℕ
  pub issue_time : ℤ
  pub find_user : String → Result UserError User
  pub is_done : Bool
  pub prefers_done : Bool
  pub interrupted : Bool

pub data LoginReply : Type 0 where
  failed : ℕ → LoginReply
  logged_in : String → User → LoginReply

-- `trim` and `lower` as in Login; `matches` is bcrypt's comparison of a hash with a password, and
-- `generate` is GenerateToken at a time.
module _ (trim lower : String → String) (matches : String → String → Bool)
    (generate : ℤ → ℤ → ℤ → Option String) (admits : ℤ → Bool) (c : Config) (r : LoginRequest) where
  abbrev pub with_generated : User → Option String → LoginReply
  with_generated user none = failed 500
  with_generated user (some token) = logged_in token user

  abbrev pub compared : User → Bool → LoginReply
  compared user false = failed 401
  compared user true =
      if admits user.role
      then with_generated user (generate r.issue_time user.id user.role)
      else failed 403

  abbrev pub after_slot : User → String → LoginProtector × Reply → LoginProtector × LoginReply
  after_slot user password (p, refused cancelled) = (p, failed 504)
  after_slot user password (p, refused bcrypt_busy) = (p, failed 503)
  after_slot user password (p, refused _) = (p, failed 401)
  after_slot user password (p, allowed) =
      if r.interrupted
      then (p, failed 504)
      else (end_compare p, compared user (matches user.password password))

  abbrev pub after_find :
      LoginProtector → String → Result UserError User → LoginProtector × LoginReply
  after_find p password (err context_done) = (p, failed 504)
  after_find p password (err not_found) = (p, failed 401)
  after_find p password (ok user) =
      after_slot user password (begin_compare c p r.is_done r.prefers_done)

  abbrev pub after_allow : String → String → LoginProtector × Reply → LoginProtector × LoginReply
  after_allow username password (p, refused _) = (p, failed 429)
  after_allow username password (p, allowed) = after_find p password (r.find_user username)

  abbrev pub after_body : LoginProtector → Option (String × String) → LoginProtector × LoginReply
  after_body p none = (p, failed 400)
  after_body p (some (username, password)) =
      after_allow username password
        (allow trim lower c p (record { now = r.now; ip = r.ip; username = username }))

  -- What LoginHandler and AdminLogin have in common, up to the roles that they admit.
  unfoldable pub log_in : LoginProtector → LoginProtector × LoginReply
  log_in p = after_body p r.body

module _ (trim lower : String → String) (matches : String → String → Bool)
    (generate : ℤ → ℤ → ℤ → Option String) where
  unfoldable pub login_handler :
      Config → LoginRequest → LoginProtector → LoginProtector × LoginReply
  unfolding log_in
  login_handler c r p = log_in trim lower matches generate (λ role. role == pos 0) c r p

  unfoldable pub admin_login : Config → LoginRequest → LoginProtector → LoginProtector × LoginReply
  unfolding log_in
  admin_login c r p = log_in trim lower matches generate is_admin_role c r p

-- The table of users, by the methods of the repository; an error of GetByUsername is taken for no user.
pub record Users (S : Type 0) : Type 0 where
  pub get_by_username : String → S → Option User
  pub create_user : User → Command S UserError (Unit {0})

abbrev pub new_user : String → String → User
new_user username hash = record {
  id = pos 0;
  username = username;
  password = hash;
  avatar = "";
  role = pos 0;
  status = pos 0;
}

abbrev pub created : {S : Type 0} → Result UserError (Unit {0}) × S → ℕ × S
created (ok _, s) = (200, s)
created (err _, s) = (500, s)

module _ {S : Type 0} (users : Users S) (hash : String → Option String) where
  abbrev pub with_hash : String → S → Option String → ℕ × S
  with_hash username s none = (500, s)
  with_hash username s (some hashed) = created (users.create_user (new_user username hashed) s)

  abbrev pub register_new : String → String → S → Option User → ℕ × S
  register_new username password s (some existing) = (409, s)
  register_new username password s none = with_hash username s (hash password)

  -- The status of the reply and what becomes of the table.
  unfoldable pub register_handler : Option (String × String) → S → ℕ × S
  register_handler none s = (400, s)
  register_handler (some (username, password)) s =
      register_new username password s (users.get_by_username username s)
