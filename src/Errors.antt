-- ===== src/Errors.antt =====
-- Go's `(value, error)` results. The sentinel errors are those of message_service.go and
-- auth_service.go in backend/internal/service, and of jwt.go and hash.go in backend/internal/utils.
-- `invalid_input` is an error that a function makes of a text, `external` one that a library or the
-- operating system returns. A panic unwinds the functions like an error that none of them looks at.
use digital_square.Base.{String, Bool, true, false}

pub data Error : Type 0 where
  message_not_found unauthorized message_too_long message_too_short : Error
  invalid_token expired_token : Error
  file_closed token_too_long record_not_found : Error
  email_already_exists username_already_exists invalid_credentials : Error
  invalid_hash incompatible_version panicked : Error
  invalid_input external : String → Error

pub data Result {ℓ} (A : Type ℓ) : Type ℓ where
  ok : A → Result A
  err : Error → Result A

-- `Error()`, the text of an error.
abbrev pub text : Error → String
text message_not_found = "message not found"
text unauthorized = "unauthorized to delete this message"
text message_too_long = "message too long (max 5000 characters)"
text message_too_short = "message cannot be empty"
text invalid_token = "invalid token"
text expired_token = "token expired"
text file_closed = "file already closed"
text token_too_long = "bufio.Scanner: token too long"
text record_not_found = "record not found"
text email_already_exists = "email already exists"
text username_already_exists = "username already exists"
text invalid_credentials = "invalid credentials"
text invalid_hash = "invalid hash format"
text incompatible_version = "incompatible argon2 version"
text panicked = ""
text (invalid_input t) = t
text (external t) = t

abbrev pub is_panicked : Error → Bool
is_panicked panicked = true
is_panicked e = false
