-- ===== src/Access/OneToken.antt =====
-- A version of golang-jwt that signs one set of claims only, for the tests (shared/auth/jwt.go).
use lan_sync.Prelude.{
  String, ◌≡◌, ◌≢◌, refl, ap, ◌∙◌, Bool, true, false, ◌&&◌, Option, none, some, if◌then◌else◌, ◌==◌,
  string_eq, arith, eq_of,
}
use lan_sync.Prelude.Int.{ℤ, ltb_ℤ, ◌<ℤ◌, ◌≤ℤ◌, int_eq}
use lan_sync.Access.{CustomClaims, Jwt}
use lan_sync.Access.Tokens.{IsJwt}

abbrev pub signed : Bool → Option String
signed b = if b then some "t" else none

signed-eq-some : (b : Bool) (token : String) → signed b ≡ some token → b ≡ true
signed-eq-some true token h = refl
signed-eq-some false token h = cc h

some-injective : {s t : String} → some s ≡ some t → s ≡ t
some-injective e = ground arith

abbrev name : String
name = "t"

named_ne_empty : name ≢ ""
named_ne_empty e = ground (arith, (string_eq.beq_iff "t" "").1 e)

signed-nonempty : (b : Bool) (token : String) → signed b ≡ some token → token ≢ ""
signed-nonempty true token h e = named_ne_empty (some-injective h ∙ e)
signed-nonempty false token h e = cc h

parsed_early : (now e k : ℤ) → e ≡ k → now <ℤ e → ltb_ℤ now k ≡ true
parsed_early now e k h l = rw (← h) (ground arith)

parsed_late : (now e k : ℤ) → e ≡ k → e ≤ℤ now → ltb_ℤ now k ≡ false
parsed_late now e k h l = rw (← h) (ground arith)

-- The claims that are signed.
module _ (claims : CustomClaims) where
  abbrev pub is_claims : CustomClaims → Bool
  is_claims c =
      c.user_id == claims.user_id
      && c.role == claims.role
      && c.expires_at == claims.expires_at
      && c.issued_at == claims.issued_at
      && c.issuer == claims.issuer

  is_claims_lem : (c : CustomClaims) → is_claims c ≡ true → c ≡ claims
  is_claims_lem c h = ground (
    arith,
    eq_of c.user_id claims.user_id,
    eq_of c.role claims.role,
    eq_of c.expires_at claims.expires_at,
    eq_of c.issued_at claims.issued_at,
    eq_of c.issuer claims.issuer,
  )

  abbrev pub jwt : Jwt
  jwt = record {
    signed_string = λ key c. signed (is_claims c);
    parse_with_claims = λ now key_of token.
        if ltb_ℤ now claims.expires_at
        then some (record { claims = some claims; valid = true })
        else none;
  }

  pub jwt-IsJwt : IsJwt jwt
  jwt-IsJwt = record {
    valid = λ now key key_of c token h k l u.
        let same = is_claims_lem c (signed-eq-some (is_claims c) token h) in
        rw
          (
            parsed_early now c.expires_at claims.expires_at (ap CustomClaims.expires_at same) u,
            same,
          )
          refl;
    expired = λ now key key_of c token h l.
        let same = is_claims_lem c (signed-eq-some (is_claims c) token h) in
        rw (parsed_late now c.expires_at claims.expires_at (ap CustomClaims.expires_at same) l)
          refl;
    nonempty = λ key c token h. signed-nonempty (is_claims c) token h;
  }
