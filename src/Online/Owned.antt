-- ===== src/Online/Owned.antt =====
-- An entry belongs to one connection (cache/redisconfig.go).
use lan_sync.Prelude.{
  ℕ, ◌+◌, ◌≡◌, refl, ap, ◌∙◌, String, string_eq, Bool, true, false, some, List, [], ◌∷◌, ◌==◌, ltb,
  All, Bool-cases, ◌⊎◌, inl, inr, if◌then◌else◌, eq_of,
}
use lan_sync.Prelude.Int.{ℤ, int_eq}
use lan_sync.Prelude.Assoc.{
  lookup, insert, delete, lookup-insert, lookup-insert_self, lookup-delete,
}
use lan_sync.Online.{
  Redis, Entry, online_ttl, get, owned_by, set_user_connection_online, set_user_connection_offline,
  renew_user_connection_online, check_user_online, Call, renews, closes, call, calls,
}

-- A call of another connection, or for another user.
abbrev pub IsOther : ℤ → String → Call → Type 0
IsOther user owner (renews now u o) = (u == user) ≡ false ⊎ (owner == o) ≡ false
IsOther user owner (closes now u o) = (u == user) ≡ false ⊎ (owner == o) ≡ false

module _ (user : ℤ) (owner : String) (until : ℕ) where
  abbrev entry : Entry
  entry = record { value = owner; expires = until }

  not_owned :
      (now : ℕ) (o : String) (redis : Redis)
      → lookup user redis ≡ some entry
      → (owner == o) ≡ false
      → owned_by o (get now user redis) ≡ false
  unfolding get
  not_owned now o redis e other =
      rw e
        (elim (Bool-cases (ltb now until)) [ inl here ↦ rw here other | inr gone ↦ rw gone refl ])

  if-lookup :
      (b : Bool) (x y : Redis)
      → lookup user x ≡ some entry
      → lookup user y ≡ some entry
      → lookup user (if b then x else y) ≡ some entry
  if-lookup true x y e f = e
  if-lookup false x y e f = f

  apart_or_not_owned :
      (now : ℕ) (u : ℤ) (o : String) (redis : Redis)
      → (u == user) ≡ false ⊎ (owner == o) ≡ false
      → lookup user redis ≡ some entry
      → (u == user) ≡ false ⊎ owned_by o (get now u redis) ≡ false
  apart_or_not_owned now u o redis (inl apart) e = inl apart
  apart_or_not_owned now u o redis (inr other) e = elim (Bool-cases (u == user)) [
    | inr apart ↦ inl apart
    | inl same ↦
        inr (
          ap (λ v. owned_by o (get now v redis)) (eq_of u user same)
          ∙ not_owned now o redis e other)
  ]

  renewed :
      (now : ℕ) (u : ℤ) (o : String) (redis : Redis)
      → (u == user) ≡ false ⊎ owned_by o (get now u redis) ≡ false
      → lookup user redis ≡ some entry
      → lookup user (renew_user_connection_online now u o redis) ≡ some entry
  unfolding renew_user_connection_online
  renewed now u o redis (inl apart) e =
      let new : Entry = record { value = o; expires = now + online_ttl } in
      if-lookup (owned_by o (get now u redis)) (insert u new redis) redis
        (rw (lookup-insert u user new redis, apart) e) e
  renewed now u o redis (inr kept) e = rw kept e

  closed :
      (now : ℕ) (u : ℤ) (o : String) (redis : Redis)
      → (u == user) ≡ false ⊎ owned_by o (get now u redis) ≡ false
      → lookup user redis ≡ some entry
      → lookup user (set_user_connection_offline now u o redis) ≡ some entry
  unfolding set_user_connection_offline
  closed now u o redis (inl apart) e =
      if-lookup (owned_by o (get now u redis)) (delete u redis) redis
        (rw (lookup-delete u user redis, apart) e) e
  closed now u o redis (inr kept) e = rw kept e

  call-lookup :
      (c : Call) (redis : Redis)
      → IsOther user owner c
      → lookup user redis ≡ some entry
      → lookup user (call c redis) ≡ some entry
  unfolding call
  call-lookup (renews now u o) redis other e =
      renewed now u o redis (apart_or_not_owned now u o redis other e) e
  call-lookup (closes now u o) redis other e =
      closed now u o redis (apart_or_not_owned now u o redis other e) e

  calls-lookup :
      (cs : List Call) (redis : Redis)
      → All (IsOther user owner) cs
      → lookup user redis ≡ some entry
      → lookup user (calls cs redis) ≡ some entry
  unfolding calls
  calls-lookup [] redis other e = e
  calls-lookup (c ∷ cs) redis (first, rest) e =
      calls-lookup cs (call c redis) rest (call-lookup c redis first e)

-- Once a connection has put its user online, the user stays online with this connection for the 60 seconds of its
-- entry and no longer, whatever other connections renew or close meanwhile, those of the same user included: the
-- late close of an older connection does not take the user off.
pub calls-check_user_online :
    (now at : ℕ) (user : ℤ) (owner : String) (redis : Redis) (cs : List Call)
    → All (IsOther user owner) cs
    → check_user_online at user (calls cs (set_user_connection_online now user owner redis))
      ≡ (if ltb at (now + online_ttl) then (true, owner) else (false, ""))
unfolding set_user_connection_online check_user_online get
calls-check_user_online now at user owner redis cs other =
    let new : Entry = record { value = owner; expires = now + online_ttl } in
    let kept : lookup user (calls cs (insert user new redis)) ≡ some new =
      calls-lookup user owner (now + online_ttl) cs (insert user new redis) other
        (lookup-insert_self user new redis) in
    rw kept (elim (Bool-cases (ltb at (now + online_ttl))) [
      | inl here ↦ rw here refl
      | inr gone ↦ rw gone refl
    ])
