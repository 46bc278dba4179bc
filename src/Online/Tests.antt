-- ===== src/Online/Tests.antt =====
-- A user who reconnects before the first connection is closed (cache/redisconfig.go).
use lan_sync.Prelude.{◌≡◌, refl, true, false, List, [], ◌∷◌, inl, inr}
use lan_sync.Prelude.Int.{pos}
use lan_sync.Prelude.Assoc.{lookup, insert, delete}
use lan_sync.Online.{
  Redis, Call, renews, closes, calls, get, set_user_connection_online, set_user_connection_offline,
  check_user_online,
}
use lan_sync.Online.Owned.{calls-check_user_online}

abbrev first : Redis
first = set_user_connection_online 10 (pos 5) "n:1" []

-- The first connection renews and closes, and another user is taken off.
abbrev late_calls : List Call
late_calls = renews 30 (pos 5) "n:1" ∷ closes 31 (pos 5) "n:1" ∷ closes 32 (pos 6) "n:2" ∷ []

calls-check_user_online_example :
    check_user_online 60
      (pos 5)
      (calls late_calls (set_user_connection_online 20 (pos 5) "n:2" first))
    ≡ (true, "n:2")
calls-check_user_online_example =
    calls-check_user_online 20 60 (pos 5) "n:2" first late_calls
      (inr refl, (inr refl, (inl refl, tt)))

-- The close of the connection that owns the entry takes the user off.
own_close_example :
    check_user_online 12 (pos 5) (set_user_connection_offline 11 (pos 5) "n:1" first) ≡ (false, "")
unfolding check_user_online set_user_connection_online set_user_connection_offline get lookup insert
    delete
own_close_example = refl
