-- ===== src/Auth/Tokens.antt =====
-- Access tokens: how long one is accepted, and what a request that RequireAuth lets through has shown.
use tradesphere.Base.{
  ℕ, ◌+◌, ◌*◌, ◌<◌, ◌≤◌, ◌≡◌, refl, inl, inr, Bool, true, not, ◌||◌, Bool-cases, Result-cases,
  Option, some, List, ◌++◌, ltb, if◌then◌else◌, ok, err, arith,
}
use tradesphere.Text.{Text, codes, has_prefix, is_empty, trim_prefix, trim_prefix_lem}
use tradesphere.Auth.{
  Claims, ParseError, Jwt, expired_token, access_claims, generate_access_token, validate_token,
  get_secret, key_for, is_allowed, rejected, served, authorize,
}

-- What the library documents of tokens that were signed with HS256 and whose dates it has made:
-- under the same key, the claims are read back before the time that they name, and from it on the
-- error is ErrTokenExpired.
pub record IsJwt (j : Jwt) : Type 0 where
  pub dated : (t : ℕ) → j.new_numeric_date (j.new_numeric_date t) ≡ j.new_numeric_date t
  pub signed :
      (key : Text) (c : Claims) (t : Text) (key_of : Bool → Option Text) (now : ℕ)
      → j.new_numeric_date c.expires_at ≡ c.expires_at
      → j.new_numeric_date c.issued_at ≡ c.issued_at
      → j.signed_string key c ≡ some t
      → key_of true ≡ some key
      → now < c.expires_at
      → j.parse_with_claims now t key_of ≡ ok (record { claims = some c; valid = true })
  pub stale :
      (key : Text) (c : Claims) (t : Text) (key_of : Bool → Option Text) (now : ℕ)
      → j.new_numeric_date c.expires_at ≡ c.expires_at
      → j.new_numeric_date c.issued_at ≡ c.issued_at
      → j.signed_string key c ≡ some t
      → key_of true ≡ some key
      → c.expires_at ≤ now
      → (e : ParseError) × (j.parse_with_claims now t key_of ≡ err e) × (e.is_expired ≡ true)

module _ (j : Jwt) (laws : IsJwt j) (env : Text) (uuid_text : ℕ → Text) where
  -- On a library as documented: a token that GenerateAccessToken made is accepted by ValidateToken
  -- under the same secret, with the claims that were put in it, up to the time 15 minutes after its
  -- making, as the library rounds it, and from then on it is expired.
  pub validate_token-generate_access_token :
      (now later user_id : ℕ) (role t : Text)
      → generate_access_token j env uuid_text now later user_id role ≡ some t
      → (at : ℕ)
      → validate_token j env at t ≡ (
          if ltb at (j.new_numeric_date (now + 15 * 60 * 1000000000))
          then ok (access_claims j uuid_text now later user_id role)
          else err expired_token)
  unfolding validate_token generate_access_token
  validate_token-generate_access_token now later user_id role t made at =
      let c = access_claims j uuid_text now later user_id role in
      let key = get_secret env in
      let dates = laws.dated (now + 15 * 60 * 1000000000) in
      elim (Bool-cases (ltb at c.expires_at)) [
        | inl early ↦
            let read =
              laws.signed key c t (key_for env) at dates (laws.dated later) made refl
                (ground arith) in
            rw (early, validate_token, read)
        | inr late ↦
            let (e, failed, expired) =
              laws.stale key c t (key_for env) at dates (laws.dated later) made refl
                (ground arith) in
            rw (late, validate_token, failed, expired)
      ]

  -- So RequireAuth lets a request with such a token through as its user, if the role is allowed.
  pub authorize-generate_access_token :
      (now later user_id : ℕ) (role t : Text) (allowed : List Text)
      → generate_access_token j env uuid_text now later user_id role ≡ some t
      → is_allowed role allowed ≡ true
      → (at : ℕ)
      → authorize j env uuid_text allowed at (codes "Bearer " ++ t) ≡ (
          if ltb at (j.new_numeric_date (now + 15 * 60 * 1000000000))
          then served (uuid_text user_id)
          else rejected (codes "token has expired") 401)
  unfolding authorize
  authorize-generate_access_token now later user_id role t allowed made may at =
      let valid = validate_token-generate_access_token now later user_id role t made at in
      elim (Bool-cases (ltb at (j.new_numeric_date (now + 15 * 60 * 1000000000)))) [
        | inl early ↦ rw (valid, early, may)
        | inr late ↦ rw (valid, late)
      ]

-- What a request has shown that RequireAuth lets through as this user
pub record IsAuthorized (j : Jwt) (env : Text) (uuid_text : ℕ → Text) (allowed : List Text) (at : ℕ)
    (header user : Text) : Type 0 where
  pub token : Text
  pub claims : Claims
  pub bearer : header ≡ codes "Bearer " ++ token
  pub accepted : validate_token j env at token ≡ ok claims
  pub role : is_allowed claims.role allowed ≡ true
  pub subject : user ≡ uuid_text claims.user_id

module _ (j : Jwt) (env : Text) (uuid_text : ℕ → Text) (allowed : List Text) (at : ℕ) where
  -- RequireAuth lets a request through only as the user of a token that ValidateToken accepts, which
  -- stands in the header behind "Bearer " and has one of the allowed roles.
  pub authorize-IsAuthorized :
      (header user : Text)
      → authorize j env uuid_text allowed at header ≡ served user
      → IsAuthorized j env uuid_text allowed at header user
  unfolding authorize
  authorize-IsAuthorized header user h =
      let prefix = codes "Bearer " in
      elim (Bool-cases (is_empty header || not (has_prefix prefix header))) [
        | inl missing ↦ absurd (ground arith)
        | inr there ↦ elim (Result-cases (validate_token j env at (trim_prefix prefix header))) [
          | inr (e, bad) ↦ absurd (ground arith)
          | inl (claims, good) ↦ elim (Bool-cases (is_allowed claims.role allowed)) [
            | inr other ↦ absurd (ground arith)
            | inl may ↦ record {
              token = trim_prefix prefix header;
              claims = claims;
              bearer = trim_prefix_lem prefix header (ground arith);
              accepted = good;
              role = may;
              subject = ground arith;
            }
          ]
        ]
      ]
