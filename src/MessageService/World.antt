-- ===== src/MessageService/World.antt =====
-- The service of message_service.go among its clients, its goroutines and crashes. A tick of the
-- batch writer is two steps, so that other steps can come between the insert and the cleanup.
use digital_square.Base.{ℕ, String, ◌≡◌, ◌≢◌, Bool, true, none, List, [], ◌∷◌, ◌++◌, map, All}
use digital_square.Errors.{Result, ok, err}
use digital_square.Models.{Uuid, Time, Message}
use digital_square.Wal.{WalEntry, ReadFaults, WriteFaults, CleanupFaults, get_all_entries}
use digital_square.Wal.Contents.{IsStorable, IsWhole}
use digital_square.MessageService.{
  Parts, State, Task, new_message, wal_entry, send_message, run_task, get_recent_messages,
  delete_message, insert_batch, cleanup_batch,
}

-- `acked`: the messages whose senders were told that they are sent. `issued`: the ids that were
-- given to messages. `pending`: the entries that the batch writer has inserted and not yet removed
-- from the log.
pub record World (P : Parts) : Type 0 where
  pub service : State P
  pub acked : List Message
  pub issued : List String
  pub pending : List WalEntry

module _ (P : Parts) where
  abbrev pub ack : Result Message → List Message → List Message
  ack (ok msg) acked = msg ∷ acked
  ack (err e) acked = acked

  abbrev pub ids : List WalEntry → List String
  ids = map (λ e. e.message_id)

  -- What the batch writer has in hand after its insert.
  abbrev pub or_nothing : Result (List String) → List WalEntry → List WalEntry
  or_nothing (ok _) entries = entries
  or_nothing (err e) entries = []

  abbrev pub entries_read : Result (List WalEntry) → List WalEntry
  entries_read (ok entries) = entries
  entries_read (err e) = []

  abbrev pub inserted : ReadFaults → State P → List WalEntry
  inserted f s =
      or_nothing (insert_batch P f s).0 (entries_read (get_all_entries P.entry_json f s.wal))

  pub data Step (w : World P) : World P → Type 0 where
    -- A client sends a text. Its id is new; its entry can be stored; a failed write leaves nothing.
    send :
        (fresh : Uuid) (now : Time) (f : WriteFaults) (user_id : Uuid) (username content : String)
        → All (λ id. id ≢ P.uuid.to_string fresh) w.issued
        → IsStorable P.entry_json (wal_entry P (new_message P fresh now user_id username content))
        → IsWhole f
        → Step w (record w {
          service = (send_message P fresh now f user_id username content w.service).1;
          acked = ack (send_message P fresh now f user_id username content w.service).0 w.acked;
          issued = P.uuid.to_string fresh ∷ w.issued;
        })
    -- The batch writer reads the log and inserts what it has read.
    insert :
        (f : ReadFaults)
        → w.pending ≡ []
        → Step w
            (record w { service = (insert_batch P f w.service).1; pending = inserted f w.service })
    -- It removes from the log what it has inserted. Every line of the new file is written whole, and
    -- the new file is synced.
    clean :
        (f : CleanupFaults)
        → ((i : ℕ) → f.on_temp i ≡ none)
        → f.on_temp_sync ≡ none
        → Step w
            (record w { service = (cleanup_batch P f (ids w.pending) w.service).1; pending = [] })
    -- A goroutine that was started runs.
    run :
        (before after : List Task) (task : Task)
        → w.service.spawned ≡ before ++ task ∷ after
        → Step w (record w {
          service = record w.service {
            cache = run_task P task w.service.cache;
            spawned = before ++ after;
          };
        })
    read : (limit : ℕ) → Step w (record w { service = (get_recent_messages P limit w.service).1 })
    delete :
        (now : Time) (message_id : String) (user_id : Uuid) (is_admin : Bool)
        → Step w
            (record w { service = (delete_message P now message_id user_id is_admin w.service).1 })
    -- The process ends and starts again: it forgets its goroutines and its batch, and opens the log.
    crash : Step w (record w {
      service = record w.service { wal = record w.service.wal { is_open = true }; spawned = [] };
      pending = [];
    })

  pub data Reach (w : World P) : World P → Type 0 where
    here : Reach w w
    next : {u v : World P} → Reach w u → Step u v → Reach w v
