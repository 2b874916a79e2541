-- ===== src/UserRepository.antt =====
-- backend/internal/repository/user_repository.go. PostgreSQL behind gorm is not part of the program:
-- each chain of gorm calls that the file makes is an operation of the parameter `UserTable`, and
-- `IsUserTable` is what the documentation of gorm and the tags of models.User say of them.
pub mod Lookups
pub mod History
use digital_square.Base.{
  ℕ, String, ◌≡◌, ◌≢◌, Bool, true, false, not, ◌&&◌, ◌||◌, ◌=?◌, Option, none, some, List, [], ◌∷◌,
  ◌++◌, map, Has, All, if◌then◌else◌,
}
use digital_square.Errors.{Error, record_not_found, Result, ok, err}
use digital_square.Action.{Action}
use digital_square.Models.{Uuid, Time, IsTimeOf, User}

pub record UserTable : Type 1 where
  pub State : Type 0
  -- What a column keeps of a time.
  pub column : Time → Time
  -- `Create(user)` also writes into `user` what the database chose.
  pub create : Time → User → Action State User
  pub first_by_email : String → Action State User
  pub first_by_username : String → Action State User
  pub first_by_id : Uuid → Action State User
  pub find_all : Action State (List User)
  pub delete_by_id : Time → Uuid → Action State (Unit {0})
  pub delete_by_ids : Time → List Uuid → Action State (Unit {0})

-- What `Create` leaves of a user whose fields are set; it sets the two times.
pub record IsStoredAs (user stored : User) : Type 0 where
  pub id : stored.id ≡ user.id
  pub username : stored.username ≡ user.username
  pub email : stored.email ≡ user.email
  pub password_hash : stored.password_hash ≡ user.password_hash
  pub role : stored.role ≡ user.role
  pub not_deleted : stored.deleted_at.valid ≡ user.deleted_at.valid

abbrev pub is_visible : User → Bool
is_visible user = not user.deleted_at.valid

abbrev pub is_among : Uuid → List Uuid → Bool
is_among id [] = false
is_among id (x ∷ ids) = id =? x || is_among id ids

-- The row of a user: its times are those that the columns keep.
abbrev pub kept_user : (Time → Time) → User → User
kept_user column user = record user {
  created_at = column user.created_at;
  updated_at = column user.updated_at;
}

-- gorm's soft delete
abbrev pub mark : Time → List Uuid → User → User
mark now ids user =
    if is_among user.id ids && is_visible user
    then record user { deleted_at = record { time = now; valid = true } }
    else user

-- `errors.Is(err, gorm.ErrRecordNotFound)`
abbrev is_not_found : Error → Bool
is_not_found record_not_found = true
is_not_found e = false

-- A visible user with the property is in the table, or none is.
abbrev pub IsFirst : (User → Type 0) → List User → Result User → Type 0
IsFirst P users (ok user) = Has (λ u. (u ≡ user) × P u × (u.deleted_at.valid ≡ false)) users
IsFirst P users (err e) = is_not_found e ≡ true → All (λ u. P u → u.deleted_at.valid ≡ true) users

-- `users` are all rows, deleted ones included. The unique indexes cover deleted rows too; a query
-- and a delete see no deleted row, and a query changes no row.
pub record IsUserTable (T : UserTable) (users : T.State → List User) : Type 0 where
  pub keeps_time : (time : Time) → IsTimeOf time (T.column time)
  pub created :
      (now : Time) (user stored : User) (s : T.State)
      → (T.create now user s).0 ≡ ok stored
      → IsStoredAs user stored
        × (users (T.create now user s).1 ≡ users s ++ kept_user T.column stored ∷ [])
  pub not_created :
      (now : Time) (user : User) (e : Error) (s : T.State)
      → (T.create now user s).0 ≡ err e
      → users (T.create now user s).1 ≡ users s
  pub unique :
      (now : Time) (user stored : User) (s : T.State)
      → (T.create now user s).0 ≡ ok stored
      → All (λ u. (u.email ≢ user.email) × (u.username ≢ user.username)) (users s)
  pub by_email :
      (email : String) (s : T.State)
      → IsFirst (λ u. u.email ≡ email) (users s) (T.first_by_email email s).0
  pub by_username :
      (username : String) (s : T.State)
      → IsFirst (λ u. u.username ≡ username) (users s) (T.first_by_username username s).0
  pub by_email_reads : (email : String) (s : T.State) → users (T.first_by_email email s).1 ≡ users s
  pub by_username_reads :
      (username : String) (s : T.State) → users (T.first_by_username username s).1 ≡ users s
  pub all_reads : (s : T.State) → users (T.find_all s).1 ≡ users s
  pub marked :
      (now : Time) (id : Uuid) (s : T.State)
      → (T.delete_by_id now id s).0 ≡ ok tt
      → users (T.delete_by_id now id s).1 ≡ map (mark (T.column now) (id ∷ [])) (users s)
  pub not_marked :
      (now : Time) (id : Uuid) (s : T.State)
      → (T.delete_by_id now id s).0 ≢ ok tt
      → users (T.delete_by_id now id s).1 ≡ users s
  pub all_marked :
      (now : Time) (ids : List Uuid) (s : T.State)
      → (T.delete_by_ids now ids s).0 ≡ ok tt
      → users (T.delete_by_ids now ids s).1 ≡ map (mark (T.column now) ids) (users s)
  pub none_marked :
      (now : Time) (ids : List Uuid) (s : T.State)
      → (T.delete_by_ids now ids s).0 ≢ ok tt
      → users (T.delete_by_ids now ids s).1 ≡ users s

abbrev pub user_or_nil : Result User → Result (Option User)
user_or_nil (ok user) = ok (some user)
user_or_nil (err e) = if is_not_found e then ok none else err e

module _ (T : UserTable) where
  unfoldable pub create_user : Time → User → Action T.State User
  create_user now user = T.create now user

  unfoldable pub get_user_by_email : String → Action T.State (Option User)
  get_user_by_email email s = let (r, s') = T.first_by_email email s in (user_or_nil r, s')

  unfoldable pub get_user_by_username : String → Action T.State (Option User)
  get_user_by_username username s =
      let (r, s') = T.first_by_username username s in (user_or_nil r, s')

  abbrev get_user_by_id : Uuid → Action T.State (Option User)
  get_user_by_id id s = let (r, s') = T.first_by_id id s in (user_or_nil r, s')

  abbrev pub get_all_users : Action T.State (List User)
  get_all_users = T.find_all

  unfoldable pub soft_delete_user : Time → Uuid → Action T.State (Unit {0})
  soft_delete_user now id = T.delete_by_id now id

  unfoldable pub bulk_soft_delete : Time → List Uuid → Action T.State (Unit {0})
  bulk_soft_delete now ids = T.delete_by_ids now ids
