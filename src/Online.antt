-- ===== src/Online.antt =====
-- Which connection has a user online: the first half of cache/redisconfig.go. Redis keeps for each user's key a value
-- and the second in which it expires; commands, and the two scripts, are atomic.
pub mod Owned
mod Tests
use lan_sync.Prelude.{
  ℕ, ◌+◌, ◌<◌, String, string_eq, Bool, true, false, Option, none, some, List, [], ◌∷◌, ◌==◌, map,
  ltb, if◌then◌else◌,
}
use lan_sync.Prelude.Int.{ℤ, int_eq}
use lan_sync.Prelude.Assoc.{Assoc, lookup, insert, delete}

pub record Entry : Type 0 where
  pub value : String
  pub expires : ℕ

abbrev pub Redis : Type 0
Redis = Assoc ℤ Entry

-- onlineTTL, in seconds.
abbrev pub online_ttl : ℕ
online_ttl = 60

abbrev pub alive : ℕ → Option Entry → Option String
alive now none = none
alive now (some e) = if ltb now e.expires then some e.value else none

-- GET
unfoldable pub get : ℕ → ℤ → Redis → Option String
get now user redis = alive now (lookup user redis)

abbrev pub owned_by : String → Option String → Bool
owned_by owner none = false
owned_by owner (some value) = value == owner

unfoldable pub set_user_connection_online : ℕ → ℤ → String → Redis → Redis
set_user_connection_online now user owner redis =
    insert user (record { value = owner; expires = now + online_ttl }) redis

unfoldable pub set_user_connection_offline : ℕ → ℤ → String → Redis → Redis
unfolding get
set_user_connection_offline now user owner redis =
    if owned_by owner (get now user redis) then delete user redis else redis

unfoldable pub renew_user_connection_online : ℕ → ℤ → String → Redis → Redis
unfolding get
renew_user_connection_online now user owner redis =
    if owned_by owner (get now user redis)
    then insert user (record { value = owner; expires = now + online_ttl }) redis
    else redis

abbrev pub is_online : Option String → Bool × String
is_online none = (false, "")
is_online (some node) = (true, node)

unfoldable pub check_user_online : ℕ → ℤ → Redis → Bool × String
unfolding get
check_user_online now user redis = is_online (get now user redis)

-- Whether each user has an entry, asked in one pipeline.
abbrev pub check_users_online : ℕ → List ℤ → Redis → List (ℤ × Bool)
unfolding get
check_users_online now users redis = map (λ u. (u, (is_online (get now u redis)).0)) users

-- What connections do while they are open: a heart beat renews, and a close takes the user off.
pub data Call : Type 0 where
  renews closes : ℕ → ℤ → String → Call  -- the second, the user and the owner

unfoldable pub call : Call → Redis → Redis
call (renews now user owner) redis = renew_user_connection_online now user owner redis
call (closes now user owner) redis = set_user_connection_offline now user owner redis

unfoldable pub calls : List Call → Redis → Redis
calls [] redis = redis
calls (c ∷ rest) redis = calls rest (call c redis)
