-- ===== src/Models.antt =====
-- backend/internal/models: the rows of the two tables.
use digital_square.Base.{ℕ, ◌+◌, ◌%◌, ◌<◌, ◌≡◌, String, Bool, false, Option, none}

-- uuid.UUID is an array of 16 bytes, read here as one number; `uuid.Nil` is 0.
abbrev pub Uuid : Type 0
Uuid = ℕ

-- time.Time, in nanoseconds from Go's zero time.
abbrev pub Time : Type 0
Time = ℕ

abbrev pub Role : Type 0
Role = String

abbrev pub role_user : Role
role_user = "user"

abbrev pub role_admin : Role
role_admin = "admin"

-- What a column of type timestamp keeps of a time: whole microseconds, less than one of them away.
pub record IsTimeOf (time kept : Time) : Type 0 where
  pub whole : kept % 1000 ≡ 0
  pub below : kept < time + 1000
  pub above : time < kept + 1000

-- gorm.DeletedAt
pub record DeletedAt : Type 0 where
  pub time : Time
  pub valid : Bool

pub record User : Type 0 where
  pub id : Uuid
  pub username : String
  pub email : String
  pub password_hash : String
  pub role : Role
  pub created_at : Time
  pub updated_at : Time
  pub deleted_at : DeletedAt

pub record Message : Type 0 where
  pub id : ℕ
  pub message_id : String
  pub user_id : Uuid
  pub username : String
  pub content : String
  pub created_at : Time
  pub deleted_at : DeletedAt
  pub deleted_by : Option Uuid
  pub is_deleted_by_admin : Bool
  pub user : User

-- The zero values of the structs, which a composite literal gives to the fields that it omits.
abbrev pub not_deleted : DeletedAt
not_deleted = record { time = 0; valid = false }

abbrev pub no_user : User
no_user = record {
  id = 0;
  username = "";
  email = "";
  password_hash = "";
  role = "";
  created_at = 0;
  updated_at = 0;
  deleted_at = not_deleted;
}

abbrev pub no_message : Message
no_message = record {
  id = 0;
  message_id = "";
  user_id = 0;
  username = "";
  content = "";
  created_at = 0;
  deleted_at = not_deleted;
  deleted_by = none;
  is_deleted_by_admin = false;
  user = no_user;
}
