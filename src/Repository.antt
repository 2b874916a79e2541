-- ===== src/Repository.antt =====
-- backend/internal/repository/message_repository.go. PostgreSQL behind gorm is not part of the
-- program: each chain of gorm calls that the file makes is an operation of the parameter
-- `MessageTable`, and `IsMessageTable` is what the documentation of gorm and the tags of
-- models.Message say of them.
pub mod Order
use mathlib.Core.List.{Permᴰ}
use digital_square.Base.{
  ℕ, ◌≤◌, ltb, String, ◌≡◌, ◌≢◌, Bool, true, false, not, ◌&&◌, Option, none, some, List, [], ◌∷◌,
  ◌++◌, map, take, keep, Has, All, ◌=?◌, if◌then◌else◌,
}
use digital_square.Errors.{record_not_found, Result, ok, err}
use digital_square.Action.{Action, pure}
use digital_square.Models.{Uuid, Time, IsTimeOf, DeletedAt, Message, no_user}

-- The columns that `SoftDeleteMessage` updates.
pub record Deletion : Type 0 where
  pub deleted_at : DeletedAt
  pub deleted_by : Uuid
  pub is_deleted_by_admin : Bool

pub record MessageTable : Type 1 where
  pub State : Type 0
  -- What a column keeps of a time.
  pub column : Time → Time
  pub create : Message → Action State (Unit {0})
  pub create_in_batches : List Message → ℕ → Action State (Unit {0})
  pub first_by_id : ℕ → Action State Message
  pub first_by_message_id : String → Action State Message
  pub find_before : ℕ → ℕ → Action State (List Message)
  pub find_recent : ℕ → Action State (List Message)
  pub update_where_id : ℕ → Deletion → Action State (Unit {0})

-- A row holds a message as it was inserted, with the time that the column keeps; the database
-- chooses its `id`.
pub record IsRowOf (column : Time → Time) (msg row : Message) : Type 0 where
  pub message_id : row.message_id ≡ msg.message_id
  pub user_id : row.user_id ≡ msg.user_id
  pub username : row.username ≡ msg.username
  pub content : row.content ≡ msg.content
  pub created_at : row.created_at ≡ column msg.created_at
  pub not_deleted : row.deleted_at.valid ≡ msg.deleted_at.valid

abbrev pub AreRowsOf : (Time → Time) → List Message → List Message → Type 0
AreRowsOf column [] [] = Unit
AreRowsOf column (msg ∷ msgs) (row ∷ rows) = IsRowOf column msg row × AreRowsOf column msgs rows
AreRowsOf column _ _ = ⊥

abbrev pub is_visible : Message → Bool
is_visible row = not row.deleted_at.valid

-- The times of an update are kept as the column keeps them.
abbrev pub kept_deletion : (Time → Time) → Deletion → Deletion
kept_deletion column d = record d {
  deleted_at = record d.deleted_at { time = column d.deleted_at.time };
}

abbrev pub delete_row : Deletion → Message → Message
delete_row d row = record row {
  deleted_at = d.deleted_at;
  deleted_by = some d.deleted_by;
  is_deleted_by_admin = d.is_deleted_by_admin;
}

-- A row without its author, whom `Preload` adds to what is found, from another table: nothing is said
-- of what is added.
abbrev pub bare : Message → Message
bare row = record row { user = no_user }

abbrev pub IsNewestFirst : List Message → Type 0
IsNewestFirst [] = Unit
IsNewestFirst (row ∷ rows) = All (λ r. r.created_at ≤ row.created_at) rows × IsNewestFirst rows

-- `ORDER BY created_at DESC LIMIT`: the rows are arranged, those of one time in any order, and the
-- first ones are taken.
abbrev pub IsNewest : ℕ → List Message → List Message → Type 0
IsNewest limit all found =
    (ordered : List Message) × Permᴰ (map bare all) (map bare ordered)
    × IsNewestFirst ordered
    × (found ≡ take limit ordered)

abbrev pub older : ℕ → List Message → List Message
older before = keep (λ row. is_visible row && ltb row.id before)

-- `rows` are all rows, deleted ones included. An insert is one transaction, and the unique index
-- refuses a message id that is there; a query and an update see no soft-deleted row, and a query
-- changes no row.
pub record IsMessageTable (T : MessageTable) (rows : T.State → List Message) : Type 0 where
  pub keeps_time : (time : Time) → IsTimeOf time (T.column time)
  pub inserted :
      (msgs : List Message) (size : ℕ) (s : T.State)
      → (T.create_in_batches msgs size s).0 ≡ ok tt
      → (new : List Message) × (rows (T.create_in_batches msgs size s).1 ≡ rows s ++ new)
        × AreRowsOf T.column msgs new
  pub rolled_back :
      (msgs : List Message) (size : ℕ) (s : T.State)
      → (T.create_in_batches msgs size s).0 ≢ ok tt
      → rows (T.create_in_batches msgs size s).1 ≡ rows s
  pub unique :
      (msgs : List Message) (size : ℕ) (s : T.State) (message_id : String)
      → Has (λ msg. msg.message_id ≡ message_id) msgs
      → Has (λ row. row.message_id ≡ message_id) (rows s)
      → (T.create_in_batches msgs size s).0 ≢ ok tt
  pub found :
      (message_id : String) (s : T.State) (row : Message)
      → (T.first_by_message_id message_id s).0 ≡ ok row
      → Has (λ r. (r ≡ row) × (r.message_id ≡ message_id) × (r.deleted_at.valid ≡ false)) (rows s)
  pub first_reads :
      (message_id : String) (s : T.State) → rows (T.first_by_message_id message_id s).1 ≡ rows s
  pub before_newest :
      (before limit : ℕ) (s : T.State) (found_rows : List Message)
      → (T.find_before before limit s).0 ≡ ok found_rows
      → IsNewest limit (older before (rows s)) found_rows
  pub before_reads :
      (before limit : ℕ) (s : T.State) → rows (T.find_before before limit s).1 ≡ rows s
  pub recent_reads : (limit : ℕ) (s : T.State) → rows (T.find_recent limit s).1 ≡ rows s
  pub updated :
      (id : ℕ) (d : Deletion) (s : T.State)
      → (T.update_where_id id d s).0 ≡ ok tt
      → rows (T.update_where_id id d s).1
        ≡ map
            (λ row.
              if row.id =? id && is_visible row
              then delete_row (kept_deletion T.column d) row
              else row)
            (rows s)
  pub not_updated :
      (id : ℕ) (d : Deletion) (s : T.State)
      → (T.update_where_id id d s).0 ≢ ok tt
      → rows (T.update_where_id id d s).1 ≡ rows s

module _ (T : MessageTable) where
  abbrev create_message : Message → Action T.State (Unit {0})
  create_message msg = T.create msg

  abbrev found_or_nil : Result Message → Result (Option Message)
  found_or_nil (ok msg) = ok (some msg)
  found_or_nil (err record_not_found) = ok none
  found_or_nil (err e) = err e

  abbrev get_message_by_id : ℕ → Action T.State (Option Message)
  get_message_by_id id s = let (r, s') = T.first_by_id id s in (found_or_nil r, s')

  unfoldable pub get_messages_before : ℕ → ℕ → Action T.State (List Message)
  get_messages_before before_id limit = T.find_before before_id limit

  unfoldable pub get_recent_messages : ℕ → Action T.State (List Message)
  get_recent_messages limit = T.find_recent limit

  -- `now` is the time of the call.
  unfoldable pub soft_delete_message : Time → ℕ → Uuid → Bool → Action T.State (Unit {0})
  soft_delete_message now message_id deleted_by is_deleted_by_admin =
      T.update_where_id message_id (record {
        deleted_at = record { time = now; valid = true };
        deleted_by = deleted_by;
        is_deleted_by_admin = is_deleted_by_admin;
      })

  unfoldable pub batch_insert : List Message → Action T.State (Unit {0})
  batch_insert [] = pure tt
  batch_insert (msg ∷ msgs) = T.create_in_batches (msg ∷ msgs) 500

  unfoldable pub get_by_message_id : String → Action T.State Message
  get_by_message_id message_id = T.first_by_message_id message_id
