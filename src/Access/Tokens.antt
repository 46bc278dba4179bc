-- ===== src/Access/Tokens.antt =====
-- How long a token is good for (shared/auth/jwt.go).
use lan_sync.Prelude.{
  ◌*◌, String, ◌≡◌, ◌≢◌, refl, ap, true, false, if◌then◌else◌, Bool-cases, inl, inr, arith, Option,
  none, some,
}
use lan_sync.Prelude.Int.{ℤ, pos, ltb_ℤ, ◌+ℤ◌, ◌≤ℤ◌, ◌<ℤ◌}
use lan_sync.Events.{Bytes}
use lan_sync.Access.{
  CustomClaims, SigningMethod, Jwt, claims_of, key_func, checked, generate_token, parse_token, hmac,
}

-- What golang-jwt documents: a token that was signed by a key is valid under that key from when it was
-- issued until it expires, and then it is refused. A signed token is not empty.
pub record IsJwt (jwt : Jwt) : Type 0 where
  pub valid :
      (now : ℤ) (key : Bytes) (key_of : SigningMethod → Option Bytes) (claims : CustomClaims)
      (token : String)
      → jwt.signed_string key claims ≡ some token
      → key_of hmac ≡ some key
      → claims.issued_at ≤ℤ now
      → now <ℤ claims.expires_at
      → jwt.parse_with_claims now key_of token
        ≡ some (record { claims = some claims; valid = true })
  pub expired :
      (now : ℤ) (key : Bytes) (key_of : SigningMethod → Option Bytes) (claims : CustomClaims)
      (token : String)
      → jwt.signed_string key claims ≡ some token
      → claims.expires_at ≤ℤ now
      → jwt.parse_with_claims now key_of token ≡ none
  pub nonempty :
      (key : Bytes) (claims : CustomClaims) (token : String)
      → jwt.signed_string key claims ≡ some token
      → token ≢ ""

lt_of-ltb : (a b : ℤ) → ltb_ℤ a b ≡ true → a <ℤ b
lt_of-ltb a b h = ground arith

le_of-ltb : (a b : ℤ) → ltb_ℤ a b ≡ false → b ≤ℤ a
le_of-ltb a b h = ground arith

module _ (jwt : Jwt) (law : IsJwt jwt) (secret : Bytes) where
  -- A token that was generated is parsed, at any later time, to the user and the role it was generated
  -- for during its 24 hours, and refused after them.
  pub parse_token-generate_token :
      (made now user_id role : ℤ) (token : String)
      → generate_token jwt secret made user_id role ≡ some token
      → made ≤ℤ now
      → parse_token jwt secret now token
        ≡ (if ltb_ℤ now (made +ℤ pos (24 * 3600)) then some (claims_of made user_id role) else none)
  unfolding generate_token parse_token
  parse_token-generate_token made now user_id role token h l =
      let claims = claims_of made user_id role in
      elim (Bool-cases (ltb_ℤ now (made +ℤ pos (24 * 3600)))) [
        | inl early ↦ rw early (
            ap checked (
              law.valid now secret (key_func secret) claims token h refl l
                (lt_of-ltb now (made +ℤ pos (24 * 3600)) early)))
        | inr late ↦ rw late (
            ap checked (
              law.expired now secret (key_func secret) claims token h
                (le_of-ltb now (made +ℤ pos (24 * 3600)) late)))
      ]
