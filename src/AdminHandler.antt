-- ===== src/AdminHandler.antt =====
-- backend/internal/handler/admin_handler.go. A request is `none` where its body is no JSON object of
-- the request's type; a text that the body omits is empty, and an array that it omits is nil, here
-- `none`.
pub mod Answers
use digital_square.Base.{
  String, Bool, true, false, ◌&&◌, ◌⊎◌, inl, inr, Option, none, some, List, [], map, if◌then◌else◌,
}
use digital_square.Errors.{Result, ok, err}
use digital_square.Models.{Uuid, Time, Role, DeletedAt, User}
use digital_square.Http.{Refusal}
use digital_square.AuthHandler.{is_given, refused}
use digital_square.AuthService
use digital_square.AuthService.{Parts, State}

pub record BanUserRequest : Type 0 where
  pub user_id : String
  pub reason : String

pub record BanBulkRequest : Type 0 where
  pub user_ids : Option (List String)
  pub reason : String

-- models.User as encoding/json writes it, by the tags of its fields: without the password's hash.
pub record UserJson : Type 0 where
  pub id : Uuid
  pub username : String
  pub email : String
  pub role : Role
  pub created_at : Time
  pub updated_at : Time
  pub deleted_at : DeletedAt

abbrev pub user_json : User → UserJson
user_json user = record {
  id = user.id;
  username = user.username;
  email = user.email;
  role = user.role;
  created_at = user.created_at;
  updated_at = user.updated_at;
  deleted_at = user.deleted_at;
}

abbrev or_users : Result (List User) → Refusal ⊎ List UserJson
or_users (err _) = inl (refused 500 "Failed to fetch users")
or_users (ok users) = inr (map user_json users)

abbrev pub or_message : String → String → Result (Unit {0}) → Refusal ⊎ String
or_message error message (err _) = inl (refused 500 error)
or_message error message (ok _) = inr message

abbrev pub is_set : Option (List String) → Bool
is_set none = false
is_set (some _) = true

abbrev pub ids_of : Option (List String) → List String
ids_of none = []
ids_of (some ids) = ids

module _ (P : Parts) where
  abbrev pub all_users : State P → (Refusal ⊎ List UserJson) × State P
  all_users s = let (r, s') = AuthService.all_users P s in (or_users r, s')

  abbrev invalid_body : State P → (Refusal ⊎ String) × State P
  invalid_body s = (inl (refused 400 "Invalid request body"), s)

  abbrev pub run_ban_user : Time → String → BanUserRequest → State P → (Refusal ⊎ String) × State P
  run_ban_user now admin_id req s =
      let (r, s') = AuthService.ban_user P now req.user_id admin_id req.reason s in
      (or_message "Failed to ban user" "User banned successfully" r, s')

  -- `admin_id` is the text of the caller's id, which the middleware has set.
  unfoldable pub ban_user :
      Time → String → Option BanUserRequest → State P → (Refusal ⊎ String) × State P
  ban_user now admin_id none s = invalid_body s
  ban_user now admin_id (some req) s =
      if is_given req.user_id && is_given req.reason
      then run_ban_user now admin_id req s
      else invalid_body s

  abbrev pub run_ban_bulk : Time → String → BanBulkRequest → State P → (Refusal ⊎ String) × State P
  run_ban_bulk now admin_id req s =
      let (r, s') = AuthService.ban_bulk P now (ids_of req.user_ids) admin_id req.reason s in
      (or_message "Failed to ban users" "Users banned successfully" r, s')

  unfoldable pub ban_bulk :
      Time → String → Option BanBulkRequest → State P → (Refusal ⊎ String) × State P
  ban_bulk now admin_id none s = invalid_body s
  ban_bulk now admin_id (some req) s =
      if is_set req.user_ids && is_given req.reason
      then run_ban_bulk now admin_id req s
      else invalid_body s
