-- ===== src/AuthService.antt =====
-- backend/internal/service/auth_service.go. The state is the database's. `uuid.New` and the salt of
-- a hash are arguments, as are the times at which a row is written and a token is issued; `parse_uuid`
-- is uuid.Parse.
pub mod Input
pub mod Register
pub mod Steps
pub mod Refused
pub mod Login
pub mod Returning
pub mod Ban
use digital_square.Base.{
  ℕ, leb, ltb, ◌=?◌, ◌≡◌, code, String, len, ◌==◌, Bool, true, false, not, ◌&&◌, ◌||◌, Option, none,
  some, List, [], ◌∷◌, if◌then◌else◌,
}
use digital_square.Errors.{
  Error, email_already_exists, username_already_exists, invalid_credentials, invalid_input, Result,
  ok, err,
}
use digital_square.Action.{Action, pure, fail, from, continue, ◌>>=◌, ◌>>◌}
use digital_square.Models.{Uuid, Time, User, no_user, role_user}
use digital_square.Regex.{Regex, class, sequence, star, plus, codes, match}
use digital_square.Hash.{Argon, hash_password, verify_password}
use digital_square.Auth.{Jwt, generate_token}
use digital_square.UserRepository.{
  UserTable, create_user, get_user_by_email, get_user_by_username, get_all_users, soft_delete_user,
  bulk_soft_delete,
}

pub record Parts : Type 1 where
  pub table : UserTable
  pub argon : Argon
  pub jwt : Jwt
  pub parse_uuid : String → Option Uuid
  pub jwt_secret : String
  pub jwt_expiration : ℕ
  pub environment : String

abbrev pub State : Parts → Type 0
State P = P.table.State

abbrev is_letter : ℕ → Bool
is_letter c = (leb b'a' c && leb c b'z') || (leb b'A' c && leb c b'Z')

abbrev is_host : ℕ → Bool
is_host c = is_letter c || (leb b'0' c && leb c b'9') || c =? b'.' || c =? b'-'

abbrev is_local : ℕ → Bool
is_local c = is_host c || c =? b'_' || c =? b'%' || c =? b'+'

-- `[a-zA-Z0-9._%+-]+@[a-zA-Z0-9.-]+\.[a-zA-Z]{2,}`
abbrev pub email_regex : Regex
email_regex = sequence (plus (class is_local)) (
    sequence (class (λ c. c =? b'@')) (
      sequence (plus (class is_host))
        (sequence (class (λ c. c =? b'.')) (sequence (class is_letter) (plus (class is_letter))))))

unfoldable pub validate_register_input : String → String → String → Result (Unit {0})
validate_register_input username email password =
    if ltb (len username) 3
    then err (invalid_input "username must be at least 3 characters")
    else if ltb 50 (len username)
    then err (invalid_input "username must be at most 50 characters")
    else if not (match email_regex (codes email))
    then err (invalid_input "invalid email format")
    else if ltb 100 (len email)
    then err (invalid_input "email too long")
    else if ltb (len password) 8
    then err (invalid_input "password must be at least 8 characters")
    else if ltb 128 (len password)
    then err (invalid_input "password too long")
    else ok tt

-- `if existingUser != nil { return e }`
abbrev refuse_existing : Error → Option User → Result (Unit {0})
refuse_existing e none = ok tt
refuse_existing e (some _) = err e

abbrev pub new_user : Uuid → String → String → String → User
new_user id username email password_hash = record no_user {
  id = id;
  username = username;
  email = email;
  password_hash = password_hash;
  role = role_user;
}

module _ (P : Parts) where
  abbrev pub is_production : Bool
  is_production = P.environment == "production"

  abbrev pub with_token : Time → User → Action (State P) (User × String)
  with_token issued user =
      from (λ _. generate_token P.jwt issued user P.jwt_secret P.jwt_expiration) >>= λ token.
      pure (user, token)

  abbrev pub email_free : String → Action (State P) (Unit {0})
  email_free email = get_user_by_email P.table email >>= λ existing.
      from (λ _. refuse_existing email_already_exists existing)

  abbrev pub username_free : String → Action (State P) (Unit {0})
  username_free username = get_user_by_username P.table username >>= λ existing.
      from (λ _. refuse_existing username_already_exists existing)

  abbrev pub create_and_sign : Time → Time → User → Action (State P) (User × String)
  create_and_sign now issued user =
      create_user P.table now user >>= λ created. with_token issued created

  abbrev pub store :
      Time
      → Time
      → Uuid
      → Result (List ℕ)
      → String
      → String
      → String
      → Action (State P) (User × String)
  store now issued id salt username email password =
      from (λ _. hash_password P.argon salt password) >>= λ hashed_password.
      create_and_sign now issued (new_user id username email hashed_password)

  unfoldable pub register :
      Time
      → Time
      → Uuid
      → Result (List ℕ)
      → String
      → String
      → String
      → Action (State P) (User × String)
  register now issued id salt username email password =
      from (λ _. validate_register_input username email password)
      >> (email_free email
          >> (username_free username >> store now issued id salt username email password))

  abbrev pub check_password : Time → String → User → Action (State P) (User × String)
  check_password issued password user =
      from (λ _. verify_password P.argon password user.password_hash) >>= λ valid.
      if valid then with_token issued user else fail invalid_credentials

  abbrev pub or_no_user : Time → String → Option User → Action (State P) (User × String)
  or_no_user issued password none = fail invalid_credentials
  or_no_user issued password (some user) = check_password issued password user

  unfoldable pub login : Time → String → String → Action (State P) (User × String)
  login issued email password =
      get_user_by_email P.table email >>= λ user. or_no_user issued password user

  abbrev pub all_users : Action (State P) (List User)
  all_users = get_all_users P.table >>= λ users. pure users

  abbrev pub or_invalid_id : Time → Option Uuid → Action (State P) (Unit {0})
  or_invalid_id now none = fail (invalid_input "invalid user ID format")
  or_invalid_id now (some id) = soft_delete_user P.table now id

  -- `admin_id` and `reason` are only logged.
  unfoldable pub ban_user : Time → String → String → String → Action (State P) (Unit {0})
  ban_user now user_id admin_id reason = or_invalid_id now (P.parse_uuid user_id)

  abbrev pub add_parsed : Option Uuid → List Uuid → List Uuid
  add_parsed none uuids = uuids
  add_parsed (some id) uuids = id ∷ uuids

  -- The ids that do not parse are skipped.
  pub parse_ids : List String → List Uuid
  parse_ids [] = []
  parse_ids (id ∷ ids) = add_parsed (P.parse_uuid id) (parse_ids ids)

  abbrev pub or_no_ids : Time → List Uuid → Action (State P) (Unit {0})
  or_no_ids now [] = fail (invalid_input "no valid user IDs provided")
  or_no_ids now (id ∷ ids) = bulk_soft_delete P.table now (id ∷ ids)

  pub ban_bulk : Time → List String → String → String → Action (State P) (Unit {0})
  ban_bulk now user_ids admin_id reason = or_no_ids now (parse_ids user_ids)
