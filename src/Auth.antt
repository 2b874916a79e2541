-- ===== src/Auth.antt =====
-- backend/internal/utils/jwt.go and backend/internal/middleware/auth_middleware.go: the tokens, and
-- who gets past the two middlewares. golang-jwt is the parameter `Jwt`.
pub mod Tokens
use digital_square.Base.{
  ℕ, ◌+◌, ◌≤◌, ◌<◌, ◌≡◌, ◌≢◌, ◌⊎◌, inl, inr, ltb, code, ◌=?◌, String, ◌==◌, Bool, true, false, not,
  Option, none, some, if◌then◌else◌,
}
use digital_square.Errors.{Error, invalid_token, expired_token, Result, ok, err}
use digital_square.Models.{Uuid, Time, Role, User, role_admin}
use digital_square.Http.{Refusal}

pub record Claims : Type 0 where
  pub user_id : Uuid
  pub email : String
  pub username : String
  pub role : Role
  pub expires_at : Option Time
  pub issued_at : Option Time
  pub not_before : Option Time

-- What the library has read of a token's text.
pub record Token : Type 0 where
  pub claims : Claims
  pub is_hmac : Bool
  pub valid : Bool

-- `parse_with_claims now text key`: the library asks `key` for the key of the token that it reads.
pub record Jwt : Type 0 where
  pub numeric_date : Time → Time
  pub signed_string : Claims → String → Result String
  pub parse_with_claims : Time → String → (Token → Result String) → Result Token

-- A token's text is its parts joined by dots. A token whose key is refused is refused. A token that
-- was signed reads back under the same key from its `nbf` on and before its `exp`.
pub record IsJwt (J : Jwt) : Type 0 where
  pub keyed :
      (now : Time) (text : String) (key : Token → Result String) (token : Token)
      → J.parse_with_claims now text key ≡ ok token
      → (k : String) × (key token ≡ ok k)
  pub filled :
      (claims : Claims) (secret text : String) → J.signed_string claims secret ≡ ok text → text ≢ ""
  pub reads_back :
      (now start end : Time) (claims : Claims) (secret text : String) (key : Token → Result String)
      → J.signed_string claims secret ≡ ok text
      → key (record { claims = claims; is_hmac = true; valid = true }) ≡ ok secret
      → claims.not_before ≡ some start
      → claims.expires_at ≡ some end
      → start ≤ now
      → now < end
      → J.parse_with_claims now text key
        ≡ ok (record { claims = claims; is_hmac = true; valid = true })

module _ (J : Jwt) where
  abbrev pub claims_of : User → Time → ℕ → Claims
  claims_of user now expires_in = record {
    user_id = user.id;
    email = user.email;
    username = user.username;
    role = user.role;
    expires_at = some (J.numeric_date (now + expires_in));
    issued_at = some (J.numeric_date now);
    not_before = some (J.numeric_date now);
  }

  unfoldable pub generate_token : Time → User → String → ℕ → Result String
  generate_token now user secret_key expires_in =
      J.signed_string (claims_of user now expires_in) secret_key

  abbrev pub key_of : String → Token → Result String
  key_of secret_key token = if token.is_hmac then ok secret_key else err invalid_token

  abbrev pub is_expired : Time → Option Time → Bool
  is_expired now none = false
  is_expired now (some end) = ltb end now

  abbrev pub checked : Time → Token → Result Claims
  checked now token =
      if not token.valid
      then err invalid_token
      else if is_expired now token.claims.expires_at
      then err expired_token
      else ok token.claims

  abbrev pub or_checked : Time → Result Token → Result Claims
  or_checked now (err e) = err e
  or_checked now (ok token) = checked now token

  pub validate_token : Time → String → String → Result Claims
  validate_token now token_string secret_key =
      or_checked now (J.parse_with_claims now token_string (key_of secret_key))

-- A request as the middleware reads it: `none` is a cookie that is not there, the empty text a
-- header that is not there.
pub record Request : Type 0 where
  pub cookie : Option String
  pub authorization : String

-- What stands behind a prefix.
after : String → String → Option String
after String.[] s = some s
after (String.◌∷◌ c p) String.[] = none
after (String.◌∷◌ c p) (String.◌∷◌ d s) =
    let rest = after p s in if code c =? code d then rest else none

-- strings.TrimPrefix
trim_prefix : String → String → String
unfolding after
trim_prefix s p = elim (after p s) [ none ↦ s | some rest ↦ rest ]

abbrev unauthorized_as : String → Refusal
unauthorized_as error = record { status = 401; error = error; retry_after = none }

-- The token of the Authorization header.
from_header : String → Refusal ⊎ String
unfolding trim_prefix
from_header header =
    let token = trim_prefix header "Bearer " in
    if header == ""
    then inr ""
    else if token == header
    then inl (unauthorized_as "Invalid authorization format. Use: Bearer <token>")
    else inr token

unfoldable pub token_string : Request → Refusal ⊎ String
unfolding from_header
token_string r = elim r.cookie [
  | none ↦ from_header r.authorization
  | some token ↦ let other = from_header r.authorization in if token == "" then other else inr token
]

abbrev or_unauthorized : Result Claims → Refusal ⊎ Claims
or_unauthorized (ok claims) = inr claims
or_unauthorized (err _) = inl (unauthorized_as "Invalid or expired token")

module _ (J : Jwt) (now : Time) (jwt_secret : String) where
  abbrev with_token : String → Refusal ⊎ Claims
  with_token token =
      if token == ""
      then inl (unauthorized_as "Authentication required")
      else or_unauthorized (validate_token J now token jwt_secret)

  abbrev pub or_token : Refusal ⊎ String → Refusal ⊎ Claims
  or_token (inl refusal) = inl refusal
  or_token (inr token) = with_token token

  -- The claims are what the next handler finds in its context.
  unfoldable pub auth_middleware : Request → Refusal ⊎ Claims
  auth_middleware r = or_token (token_string r)

-- The role that the context holds, where there is one; `none` is the call of the next handler.
pub admin_middleware : Option Role → Option Refusal
admin_middleware none = some (unauthorized_as "Unauthorized")
admin_middleware (some role) =
    if not (role == role_admin)
    then some (record { status = 403; error = "Admin access required"; retry_after = none })
    else none
