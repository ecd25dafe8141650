-- ===== src/Auth.antt =====
-- pkg/auth/jwt.go and pkg/auth/middleware.go: access tokens, and the two layers that stand before the
-- handlers of order-service and portfolio-service. The library of JSON web tokens and the token
-- buckets are parameters, the records Jwt and Bucket; times are in nanoseconds. A refusal is the
-- message and the status code of http.Error. The mutex of RateLimit makes its lookups follow one
-- another.
pub mod Tokens
pub mod Limits
pub mod Layers
use tradesphere.Base.{
  ℕ, ◌+◌, ◌*◌, Bool, true, false, not, ◌&&◌, ◌||◌, Option, none, some, List, [], ◌∷◌, if◌then◌else◌,
  Result, ok, err, take,
}
use tradesphere.Text.{Text, codes, is_empty, text_eq, has_prefix, trim_prefix, last_index}

pub record Claims : Type 0 where
  pub user_id : ℕ
  pub role : Text
  pub expires_at : ℕ
  pub issued_at : ℕ
  pub issuer : Text
  pub subject : Text

-- The token that the library parses: its claims, if they are of the type Claims, and the field Valid.
pub record Token : Type 0 where
  pub claims : Option Claims
  pub valid : Bool

-- An error of the library: whether it is ErrTokenExpired, and its text.
pub record ParseError : Type 0 where
  pub is_expired : Bool
  pub text : Text

-- The library. The key function of a parse is given whether the method is HMAC, and returns the key
-- or an error.
pub record Jwt : Type 0 where
  pub signed_string : Text → Claims → Option Text
  pub parse_with_claims : ℕ → Text → (Bool → Option Text) → Result ParseError Token
  pub new_numeric_date : ℕ → ℕ

pub data TokenError : Type 0 where
  invalid_token expired_token : TokenError
  parse_failed : Text → TokenError

-- The method Error
abbrev pub error_text : TokenError → Text
error_text invalid_token = codes "invalid token"
error_text expired_token = codes "token has expired"
error_text (parse_failed text) = text

-- getSecret; `env` is the variable JWT_SECRET, empty if it is not set.
abbrev pub get_secret : Text → Text
get_secret env = if is_empty env then codes "default-secret-for-dev" else env

-- The claims of a token for a user, made at `now`; IssuedAt is read at `later`.
abbrev pub access_claims : Jwt → (ℕ → Text) → ℕ → ℕ → ℕ → Text → Claims
access_claims j uuid_text now later user_id role = record {
  user_id = user_id;
  role = role;
  expires_at = j.new_numeric_date (now + 15 * 60 * 1000000000);
  issued_at = j.new_numeric_date later;
  issuer = codes "tradesphere-auth";
  subject = uuid_text user_id;
}

-- GenerateAccessToken
unfoldable pub generate_access_token : Jwt → Text → (ℕ → Text) → ℕ → ℕ → ℕ → Text → Option Text
generate_access_token j env uuid_text now later user_id role =
    j.signed_string (get_secret env) (access_claims j uuid_text now later user_id role)

-- The key function of ValidateToken
abbrev pub key_for : Text → Bool → Option Text
key_for env hmac = if hmac then some (get_secret env) else none

-- The end of ValidateToken
abbrev pub valid_claims : Token → Result TokenError Claims
valid_claims token = elim token.claims [
  | none ↦ err invalid_token
  | some claims ↦ if token.valid then ok claims else err invalid_token
]

-- ValidateToken
unfoldable pub validate_token : Jwt → Text → ℕ → Text → Result TokenError Claims
validate_token j env now token = elim (j.parse_with_claims now token (key_for env)) [
  | err e ↦ err (if e.is_expired then expired_token else parse_failed e.text)
  | ok t ↦ valid_claims t
]

-- The answer to a request: http.Error of one of the two layers, or what the handler answers.
pub data Answer (B : Type 0) : Type 0 where
  rejected : Text → ℕ → Answer B
  served : B → Answer B

abbrev pub has_role : Text → List Text → Bool
has_role role [] = false
has_role role (r ∷ rs) = text_eq role r || has_role role rs

-- The test on roles, which is left out if none are named
abbrev pub is_allowed : Text → List Text → Bool
is_allowed role [] = true
is_allowed role (r ∷ rs) = has_role role (r ∷ rs)

-- What RequireAuth does before the handler: the text of the user's id, or a refusal
unfoldable pub authorize : Jwt → Text → (ℕ → Text) → List Text → ℕ → Text → Answer Text
authorize j env uuid_text allowed now header =
    if is_empty header || not (has_prefix (codes "Bearer ") header)
    then rejected (codes "missing or malformed authorization header") 401
    else elim (validate_token j env now (trim_prefix (codes "Bearer ") header)) [
      | err e ↦ rejected (error_text e) 401
      | ok claims ↦
          if is_allowed claims.role allowed
          then served (uuid_text claims.user_id)
          else rejected (codes "forbidden: insufficient permissions") 403
    ]

-- RequireAuth, before a handler that reads the user's id from the context
abbrev pub require_auth :
    {S B : Type 0}
    → Jwt
    → Text
    → (ℕ → Text)
    → List Text
    → (Text → S → B × S)
    → ℕ
    → Text
    → S
    → Answer B × S
require_auth j env uuid_text allowed next now header s =
    elim (authorize j env uuid_text allowed now header) [
      | rejected message code ↦ (rejected message code, s)
      | served user ↦ let (b, s') = next user s in (served b, s')
    ]

-- A token bucket: NewLimiter at the rate and the burst of the layer, and Allow at a time.
pub record Bucket (L : Type 0) : Type 0 where
  pub new_limiter : L
  pub allow : ℕ → L → Bool × L

-- The address of a client without its port
unfoldable pub client_ip : Text → Text
client_ip remote_addr = elim (last_index b':' remote_addr) [
  | none ↦ remote_addr
  | some i ↦ take i remote_addr
]

-- The map `clients`
abbrev pub Clients : Type 0 → Type 0
Clients L = Text → Option L

abbrev pub set_client : {L : Type 0} → Clients L → Text → L → Clients L
set_client clients ip l a = if text_eq ip a then some l else clients a

abbrev pub limiter_of : {L : Type 0} → Bucket L → Option L → L
limiter_of b none = b.new_limiter
limiter_of b (some l) = l

-- What RateLimit does before the handler: whether the client's bucket allows the request
unfoldable pub admit : {L : Type 0} → Bucket L → ℕ → Text → Clients L → Bool × Clients L
admit b now remote_addr clients =
    let ip = client_ip remote_addr in
    let limiter = limiter_of b (clients ip) in
    let (allowed, limiter') = b.allow now limiter in (allowed, set_client clients ip limiter')

-- RateLimit, before a handler with answers of its own
abbrev pub rate_limit :
    {L S B : Type 0}
    → Bucket L
    → (S → Answer B × S)
    → ℕ
    → Text
    → Clients L × S
    → Answer B × (Clients L × S)
rate_limit b next now remote_addr (clients, s) =
    let (allowed, clients') = admit b now remote_addr clients in
    let (r, s') = next s in
    if allowed
    then (r, (clients', s'))
    else (rejected (codes "too many requests") 429, (clients', s))
