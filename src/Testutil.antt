-- ===== src/Testutil.antt =====
-- backend/internal/testutil: the rows that the Go tests make, and the calls of the message service
-- with an identifier as text, which is how SQLite keeps it. What a random identifier or the clock
-- answers is an argument, and `uuid.Parse` is the parameter `parse`. `t.Fatalf` and `panic` are not
-- returned from: their text is the error. The in-memory database and cache are not modelled.
pub mod Fixtures
use digital_square.Base.{ℕ, String, ◌<>◌, Bool, true, false, List}
use digital_square.Errors.{text, external, Result, ok, err}
use digital_square.Action.{Action, ◌>>=◌, from}
use digital_square.Models.{Uuid, Time, Role, role_user, role_admin, Message, DeletedAt, not_deleted}
use digital_square.Hash.{Argon, hash_password}
use digital_square.Wal.{WriteFaults}
use digital_square.MessageService
use digital_square.MessageService.{Parts, State}

-- sql.NullString
pub record NullString : Type 0 where
  pub string : String
  pub valid : Bool

pub record TestUser : Type 0 where
  pub id : String
  pub username : String
  pub email : String
  pub password_hash : String
  pub role : String
  pub created_at : Time
  pub updated_at : Time
  pub deleted_at : DeletedAt

abbrev no_test_user : TestUser
no_test_user = record {
  id = "";
  username = "";
  email = "";
  password_hash = "";
  role = "";
  created_at = 0;
  updated_at = 0;
  deleted_at = not_deleted;
}

-- gorm.DeletedAt is sql.NullTime.
pub record TestMessage : Type 0 where
  pub id : ℕ
  pub message_id : String
  pub user_id : String
  pub content : String
  pub created_at : Time
  pub deleted_at : DeletedAt
  pub deleted_by : NullString
  pub is_deleted_by_admin : Bool
  pub user : TestUser

abbrev pub made_user : String → String → String → Role → String → Time → Time → TestUser
made_user fresh username email role hashed_password created updated = record {
  id = fresh;
  username = username;
  email = email;
  password_hash = hashed_password;
  role = role;
  created_at = created;
  updated_at = updated;
  deleted_at = not_deleted;
}

-- `CreatedAt` and `UpdatedAt` are two readings of the clock.
abbrev with_hash : String → Time → Time → String → String → Role → Result String → Result TestUser
with_hash fresh created updated username email role (err e) = err e
with_hash fresh created updated username email role (ok hashed_password) =
    ok (made_user fresh username email role hashed_password created updated)

module _ (argon : Argon) (salt : Result (List ℕ)) (fresh : String) (created updated : Time) where
  pub create_test_user : String → String → String → Role → Result TestUser
  create_test_user username email password role =
      with_hash fresh created updated username email role (hash_password argon salt password)

  abbrev default_test_user : Result TestUser
  default_test_user = create_test_user "testuser" "test@example.com" "Test123456" role_user

  abbrev default_admin_user : Result TestUser
  default_admin_user = create_test_user "admin" "admin@example.com" "Admin123456" role_admin

abbrev create_test_message : String → Time → String → String → TestMessage
create_test_message fresh now user_id content = record {
  id = 0;
  message_id = fresh;
  user_id = user_id;
  content = content;
  created_at = now;
  deleted_at = not_deleted;
  deleted_by = record { string = ""; valid = false };
  is_deleted_by_admin = false;
  user = no_test_user;
}

abbrev create_test_message_with_delete :
    String → Time → String → String → String → Bool → TestMessage
create_test_message_with_delete fresh now user_id content deleted_by is_deleted_by_admin = record {
  id = 0;
  message_id = fresh;
  user_id = user_id;
  content = content;
  created_at = now;
  deleted_at = record { time = now; valid = true };
  deleted_by = record { string = deleted_by; valid = true };
  is_deleted_by_admin = is_deleted_by_admin;
  user = no_test_user;
}

module _ (parse : String → Result Uuid) where
  abbrev or_fatalf : String → Result Uuid → Result Uuid
  or_fatalf uuid_str (ok id) = ok id
  or_fatalf uuid_str (err e) =
      err (external ("Invalid UUID string: " <> (uuid_str <> (", error: " <> text e))))

  -- `t` is the running test, which `t.Fatalf` ends.
  abbrev pub parse_uuid : String → Result Uuid
  parse_uuid uuid_str = or_fatalf uuid_str (parse uuid_str)

  abbrev or_panic : String → Result Uuid → Result Uuid
  or_panic uuid_str (ok id) = ok id
  or_panic uuid_str (err e) = err (external ("Invalid UUID: " <> uuid_str))

  abbrev must_parse_uuid : String → Result Uuid
  must_parse_uuid uuid_str = or_panic uuid_str (parse uuid_str)

  module _ (P : Parts) where
    pub send_message_str :
        Uuid → Time → WriteFaults → String → String → String → Action (State P) Message
    send_message_str fresh now faults user_id username content = do
      uid ← from (λ _. parse user_id)
      MessageService.send_message P fresh now faults uid username content

    pub delete_message_str : Time → String → String → Bool → Action (State P) (Unit {0})
    delete_message_str now message_id user_id is_admin = do
      uid ← from (λ _. parse user_id)
      MessageService.delete_message P now message_id uid is_admin
