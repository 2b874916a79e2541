-- ===== src/MessageService.antt =====
-- backend/internal/service/message_service.go. A goroutine that an operation starts is a task that
-- it adds to `spawned`: when it runs is decided by `MessageService.World`. Log lines and durations
-- are left out; the current time and the fresh uuid are arguments.
pub mod Send
pub mod Recent
pub mod Delete
pub mod Unsaved
pub mod Batch
pub mod Ticks
pub mod World
pub mod Invariant
pub mod Durability
pub mod Writer
pub mod Refused
pub mod Stuck
use digital_square.Base.{
  ℕ, String, ◌≡◌, ◌==◌, ◌=?◌, ltb, count, Bool, true, false, not, ◌&&◌, Option, none, some, List,
  [], ◌∷◌, ◌++◌, map, if◌then◌else◌,
}
use digital_square.Errors.{
  Error, message_not_found, unauthorized, message_too_long, message_too_short, Result, ok, err,
}
use digital_square.Action.{Action, pure, fail, from, modify, ◌>>=◌, ◌>>◌, Outcome, result}
use digital_square.Codec.{Codec}
use digital_square.Models.{Uuid, Time, Message, no_message}
use digital_square.Html.{escape_string}
use digital_square.Wal
use digital_square.Wal.{Wal, WalEntry, WriteFaults, ReadFaults, CleanupFaults}
use digital_square.Redis.{Redis}
use digital_square.Broker
use digital_square.Repository
use digital_square.Repository.{MessageTable}

-- The calls of google/uuid: `parse` gives its first result, which is all that the caller reads.
pub record UuidText : Type 0 where
  pub to_string : Uuid → String
  pub parse : String → Uuid

-- `parse` reads back the text of an id.
pub record IsUuidText (U : UuidText) : Type 0 where
  pub reads_back : (id : Uuid) → U.parse (U.to_string id) ≡ id

-- What a goroutine has still to do.
pub data Task : Type 0 where
  caching : Message → Task
  warming : List Message → Task

-- What the service is made of, apart from its state.
pub record Parts : Type 1 where
  pub redis : Redis
  pub table : MessageTable
  pub message_json : Codec Message
  pub entry_json : Codec WalEntry
  pub uuid : UuidText

pub record State (P : Parts) : Type 0 where
  pub wal : Wal
  pub cache : P.redis.State
  pub db : P.table.State
  pub spawned : List Task

abbrev pub max_message_length : ℕ
max_message_length = 5000

pub validate_message_content : String → Outcome
validate_message_content content =
    if content == ""
    then some message_too_short
    else if ltb max_message_length (count content)
    then some message_too_long
    else if ltb (count content) 1
    then some message_too_short
    else none

module _ (P : Parts) where
  abbrev on_wal : {A : Type 0} → Action Wal A → Action (State P) A
  on_wal m s = let (r, w) = m s.wal in (r, record s { wal = w })

  abbrev on_cache : {A : Type 0} → Action P.redis.State A → Action (State P) A
  on_cache m s = let (r, c) = m s.cache in (r, record s { cache = c })

  abbrev on_db : {A : Type 0} → Action P.table.State A → Action (State P) A
  on_db m s = let (r, d) = m s.db in (r, record s { db = d })

  abbrev spawn : Task → Action (State P) (Unit {0})
  spawn task = modify (λ s. record s { spawned = s.spawned ++ task ∷ [] })

  -- The message that `SendMessage` makes of its arguments.
  abbrev pub new_message : Uuid → Time → Uuid → String → String → Message
  new_message fresh now user_id username content = record no_message {
    message_id = P.uuid.to_string fresh;
    user_id = user_id;
    username = username;
    content = escape_string content;
    created_at = now;
  }

  abbrev pub wal_entry : Message → WalEntry
  wal_entry msg = record {
    message_id = msg.message_id;
    user_id = P.uuid.to_string msg.user_id;
    content = msg.content;
    timestamp = msg.created_at;
  }

  pub send_message : Uuid → Time → WriteFaults → Uuid → String → String → Action (State P) Message
  send_message fresh now faults user_id username content = do
    from (λ _. result (validate_message_content content))
    let msg = new_message fresh now user_id username content
    on_wal (Wal.write P.entry_json faults (wal_entry msg))
    spawn (caching msg)
    pure msg

  -- A failed call of the cache inside a goroutine is only logged.
  abbrev ignore : Action P.redis.State (Unit {0}) → P.redis.State → P.redis.State
  ignore m c = (m c).1

  pub warm_up : List Message → P.redis.State → P.redis.State
  warm_up [] c = c
  warm_up (msg ∷ msgs) c = warm_up msgs (ignore (Broker.cache_message P.redis P.message_json msg) c)

  pub run_task : Task → P.redis.State → P.redis.State
  unfolding warm_up
  run_task (caching msg) c = ignore (Broker.cache_message P.redis P.message_json msg) c
  run_task (warming msgs) c = warm_up msgs c

  -- The cache missed: the table answers, and a goroutine fills the cache with the answer.
  pub answer : List Message → Action (State P) (List Message)
  answer [] = pure []
  answer (msg ∷ msgs) = do spawn (warming (msg ∷ msgs)); pure (msg ∷ msgs)

  pub from_table : ℕ → Action (State P) (List Message)
  unfolding answer
  from_table limit = do
    messages ← on_db (Repository.get_recent_messages P.table limit)
    answer messages

  abbrev or_table : ℕ → Result (List Message) → Action (State P) (List Message)
  or_table limit (ok (msg ∷ msgs)) = pure (msg ∷ msgs)
  or_table limit _ = from_table limit

  unfoldable pub get_recent_messages : ℕ → Action (State P) (List Message)
  unfolding from_table
  get_recent_messages limit s =
      let (cached, s') = on_cache (Broker.get_recent_messages P.redis P.message_json limit) s in
      or_table limit cached s'

  unfoldable pub get_messages_before : ℕ → ℕ → Bool → Action (State P) (List Message)
  get_messages_before before_id limit is_admin =
      on_db (Repository.get_messages_before P.table before_id limit)

  -- Every error of the lookup is reported as a missing message.
  abbrev or_missing : Result Message → Result Message
  or_missing (ok msg) = ok msg
  or_missing (err _) = err message_not_found

  abbrev or_not_found : Action (State P) Message → Action (State P) Message
  or_not_found m s = let (r, s') = m s in (or_missing r, s')

  -- The error of the cache is only logged.
  unfoldable pub mark_cached : String → Bool → Action (State P) (Unit {0})
  mark_cached message_id by_admin s =
      let (_, s') =
        on_cache (Broker.mark_message_as_deleted P.redis P.message_json message_id by_admin) s in
      (ok tt, s')

  unfoldable pub delete_message : Time → String → Uuid → Bool → Action (State P) (Unit {0})
  unfolding mark_cached
  delete_message now message_id user_id is_admin = do
    msg ← or_not_found (on_db (Repository.get_by_message_id P.table message_id))
    from (λ _. if not is_admin && not (msg.user_id =? user_id) then err unauthorized else ok tt)
    on_db (Repository.soft_delete_message P.table now msg.id user_id is_admin)
    mark_cached message_id is_admin

  -- The message that the batch writer makes of an entry.
  abbrev pub from_entry : WalEntry → Message
  from_entry e = record no_message {
    message_id = e.message_id;
    user_id = P.uuid.parse e.user_id;
    content = e.content;
    created_at = e.timestamp;
  }

  -- An empty log ends the round before the table is asked.
  insert_entries : List WalEntry → Action (State P) (List String)
  insert_entries [] = pure []
  insert_entries (e ∷ entries) = do
    on_db (Repository.batch_insert P.table (map from_entry (e ∷ entries)))
    pure (map (λ x. x.message_id) (e ∷ entries))

  -- `processBatch` up to the insert; its result are the ids that were inserted.
  pub insert_batch : ReadFaults → Action (State P) (List String)
  unfolding insert_entries
  insert_batch faults = do
    entries ← from (λ s. Wal.get_all_entries P.entry_json faults s.wal)
    insert_entries entries

  -- The rest of it: the inserted entries leave the log. There are no ids where the log was empty.
  pub cleanup_batch : CleanupFaults → List String → Action (State P) (Unit {0})
  cleanup_batch faults [] = pure tt
  cleanup_batch faults (id ∷ ids) = on_wal (Wal.cleanup P.entry_json faults (id ∷ ids))

  abbrev round : ReadFaults → CleanupFaults → Action (State P) (Unit {0})
  round reading cleaning = do ids ← insert_batch reading; cleanup_batch cleaning ids

  -- One tick of the batch writer. Every error ends the round, and is only logged.
  pub process_batch : ReadFaults → CleanupFaults → State P → State P
  unfolding insert_batch cleanup_batch
  process_batch reading cleaning s = (round reading cleaning s).1
