-- ===== src/MessageService/Durability.antt =====
-- No acknowledged message is lost: whatever the clients, the goroutines, the batch writer and
-- crashes do, it is in the log or in the table.
mod Fresh
mod Send
mod Tick
use digital_square.Base.{
  ℕ, String, ◌≡◌, ◌⊎◌, inl, inr, none, refl, sym, ap, subst, ◌∙◌, Bool, true, ◌&&◌, ◌=?◌, List, [],
  ◌∷◌, map, All, All-imp, Has, Has-imp, Has-map, if_elim, if◌then◌else◌,
}
use digital_square.Action.{Result-cases, ◌>>=◌}
use digital_square.Errors.{Result, ok, err}
use digital_square.Models.{Uuid, Time, IsTimeOf, Message}
use digital_square.Wal
use digital_square.Wal.{WalEntry, ReadFaults, CleanupFaults, get_all_entries, power_cut}
use digital_square.Wal.Contents.{
  Stores, Survives, Survives-same, Stores-same, no_read_faults, get_all_entries-Stores,
}
use digital_square.Repository
use digital_square.Repository.{IsMessageTable, Deletion, delete_row, is_visible}
use digital_square.MessageService.{
  Parts, State, IsUuidText, wal_entry, from_entry, insert_entries, insert_batch, cleanup_batch,
  process_batch, get_recent_messages, delete_message,
}
use digital_square.MessageService.Invariant.{Persists, IsKept, AllIssued, Facts, IsDurable}
use digital_square.MessageService.World.{
  World, ids, inserted, or_nothing, Step, send, insert, clean, run, read, delete, crash, Reach,
  here, next,
}
use digital_square.MessageService.Batch.{process_batch_steps}
use digital_square.MessageService.Recent.{get_recent_messages_untouched}
use digital_square.MessageService.Delete.{
  deletion, delete_message_allowed, delete_message_fails, wal-delete_message,
}
use Fresh.{no_agreement}
use Send.{send-IsDurable}
use Tick.{insert-IsDurable, clean-IsDurable}

module _ (P : Parts) (rows : P.table.State → List Message) where
  -- A call that leaves the log alone and loses no row keeps the facts.
  rows_kept :
      (w : World P) (s' : State P) (entries : List WalEntry)
      → s'.wal ≡ w.service.wal
      → ((e : WalEntry) → Has (Persists P e) (rows w.service.db) → Has (Persists P e) (rows s'.db))
      → Facts P rows w entries
      → Facts P rows (record w { service = s' }) entries
  rows_kept w s' entries wal move F = record {
    stores = Stores-same P.entry_json _ _ wal entries F.stores;
    known = F.known;
    known_pending = F.known_pending;
    distinct = F.distinct;
    agree = F.agree;
    saved = All-imp _ _ move w.pending F.saved;
    kept = All-imp _ _ (moved entries) w.acked F.kept;
    synced = F.synced;
    survives =
        Survives-same P.entry_json w.service.wal s'.wal F.synced
          (ap (λ v. v.synced v.file_path) wal) F.survives;
    kept_synced = All-imp _ _ (moved F.synced) w.acked F.kept_synced;
  }
    where
      moved :
          (log : List WalEntry) (msg : Message)
          → IsKept P log (rows w.service.db) msg
          → IsKept P log (rows s'.db) msg
      moved log msg (inl h) = inl h
      moved log msg (inr h) = inr (move _ h)

  -- A row that is marked as deleted holds what it held.
  Persists-delete_row :
      (id : ℕ) (d : Deletion) (e : WalEntry) (row : Message)
      → Persists P e row
      → Persists P e (if row.id =? id && is_visible row then delete_row d row else row)
  Persists-delete_row id d e row h =
      if_elim (Persists P e) (row.id =? id && is_visible row)
        (λ _. record {
          message_id = h.message_id;
          user_id = h.user_id;
          content = h.content;
          created_at = h.created_at;
        })
        (λ _. h)

  module _ (L : IsMessageTable P.table rows) where
    read-IsDurable :
        (w : World P) (limit : ℕ)
        → IsDurable P rows w
        → IsDurable P rows (record w { service = (get_recent_messages P limit w.service).1 })
    read-IsDurable w limit (entries, F) =
        let (wal, same) = get_recent_messages_untouched P rows L limit w.service in
        (
          entries,
          rows_kept w (get_recent_messages P limit w.service).1 entries wal
              (λ e h. subst (Has (Persists P e)) (sym same) h) F,
        )

    delete-IsDurable :
        (w : World P) (now : Time) (message_id : String) (user_id : Uuid) (is_admin : Bool)
        → IsDurable P rows w
        → IsDurable P rows
            (record w { service = (delete_message P now message_id user_id is_admin w.service).1 })
    delete-IsDurable w now message_id user_id is_admin (entries, F) =
        let done = (delete_message P now message_id user_id is_admin w.service).1 in
        let wal = wal-delete_message P rows L now message_id user_id is_admin w.service in
        (
          entries,
          rows_kept w done entries wal
              (λ e h.
                elim (Result-cases (delete_message P now message_id user_id is_admin w.service).0) [
                  | inl (_, success) ↦
                      let (msg, _, _, effect) =
                        delete_message_allowed P rows L now message_id user_id is_admin w.service
                          success in
                      subst (Has (Persists P e)) (sym effect) (
                        Has-map _ (Persists P e) _ (rows w.service.db)
                          (Persists-delete_row msg.id (deletion P.table now user_id is_admin) e) h)
                  | inr (t, failure) ↦
                      subst (Has (Persists P e))
                        (sym
                          (delete_message_fails P rows L now message_id user_id is_admin w.service
                            (cc failure)).0)
                        h
                ])
              F,
        )

    Step-IsDurable : {w w' : World P} → Step P w w' → IsDurable P rows w → IsDurable P rows w'
    Step-IsDurable {w} (send fresh now f user_id username content unused storable whole) d =
        send-IsDurable P rows w fresh now f user_id username content unused storable whole d
    Step-IsDurable {w} (insert f idle) d = insert-IsDurable P rows L w f d
    Step-IsDurable {w} (clean f full works) d = clean-IsDurable P rows L w f full works d
    Step-IsDurable {w} (run before after task there) (entries, F) =
        (entries, rows_kept w _ entries refl (λ e h. h) F)
    Step-IsDurable {w} (read limit) d = read-IsDurable w limit d
    Step-IsDurable {w} (delete now message_id user_id is_admin) d =
        delete-IsDurable w now message_id user_id is_admin d
    Step-IsDurable {w} crash (entries, F) = (
      entries,
      record {
        stores = record { text = F.stores.text; storable = F.stores.storable };
        known = F.known;
        known_pending = tt;
        distinct = F.distinct;
        agree = no_agreement P entries;
        saved = tt;
        kept = F.kept;
        synced = F.synced;
        survives = record { text = F.survives.text; storable = F.survives.storable };
        kept_synced = F.kept_synced;
      },
    )

    Reach-IsDurable : {w w' : World P} → IsDurable P rows w → Reach P w w' → IsDurable P rows w'
    Reach-IsDurable d here = d
    Reach-IsDurable d (next r st) = Step-IsDurable st (Reach-IsDurable d r)

    -- The service starts with an empty log, and nobody has sent anything.
    pub record IsStart (w : World P) : Type 0 where
      pub empty : Stores P.entry_json w.service.wal []
      pub safe : Survives P.entry_json w.service.wal []
      pub nothing_acked : w.acked ≡ []
      pub nothing_pending : w.pending ≡ []

    start-IsDurable : (w : World P) → IsStart w → IsDurable P rows w
    start-IsDurable w start = (
      [],
      record {
        stores = start.empty;
        known = tt;
        known_pending = subst (AllIssued P w.issued) (sym start.nothing_pending) tt;
        distinct = tt;
        agree = tt;
        saved =
            subst (All (λ p. Has (Persists P p) (rows w.service.db))) (sym start.nothing_pending)
              tt;
        kept = subst (All (IsKept P [] (rows w.service.db))) (sym start.nothing_acked) tt;
        synced = [];
        survives = start.safe;
        kept_synced = subst (All (IsKept P [] (rows w.service.db))) (sym start.nothing_acked) tt;
      },
    )

    -- A row that holds the message. It may have been marked as deleted.
    pub record IsRowFor (msg row : Message) : Type 0 where
      pub message_id : row.message_id ≡ msg.message_id
      pub user_id : row.user_id ≡ msg.user_id
      pub content : row.content ≡ msg.content
      pub created_at : IsTimeOf msg.created_at row.created_at

    -- The message is in a log of these entries or in one of the rows.
    abbrev pub IsSafe : List WalEntry → List Message → Message → Type 0
    IsSafe entries held msg = Has (λ e. e ≡ wal_entry P msg) entries ⊎ Has (IsRowFor msg) held

    IsKept-IsSafe :
        IsUuidText P.uuid
        → (entries : List WalEntry) (held : List Message) (msg : Message)
        → IsKept P entries held msg
        → IsSafe entries held msg
    IsKept-IsSafe U entries held msg (inl h) = inl h
    IsKept-IsSafe U entries held msg (inr h) = inr (
        Has-imp (Persists P (wal_entry P msg)) (IsRowFor msg)
          (λ row p. record {
            message_id = p.message_id;
            user_id = p.user_id ∙ U.reads_back msg.user_id;
            content = p.content;
            created_at =
                subst (IsTimeOf msg.created_at) (sym p.created_at) (L.keeps_time msg.created_at);
          })
          held h)

    -- From a start with an empty log, of which nothing more is synced, where nothing is
    -- acknowledged and nothing is in the hands of the batch writer, and where ids read back from
    -- their texts, after any run of the steps of `World` every message that a sender was told is
    -- sent stands in the log, which can be read, or in a row of the table with its id, author and
    -- text and, to less than a microsecond, its time. The same holds of what a power failure would
    -- leave of the log.
    pub acked_survive :
        (w w' : World P)
        → IsUuidText P.uuid
        → IsStart w
        → Reach P w w'
        → let held = rows w'.service.db in
          let wal = w'.service.wal in
          ((entries : List WalEntry) × (get_all_entries P.entry_json no_read_faults wal
              ≡ ok entries)
            × All (IsSafe entries held) w'.acked)
          × ((synced : List WalEntry) × (get_all_entries P.entry_json no_read_faults (power_cut wal)
                ≡ ok synced)
              × All (IsSafe synced held) w'.acked)
    acked_survive w w' U start reach =
        let (entries, F) = Reach-IsDurable (start-IsDurable w start) reach in
        let held = rows w'.service.db in
        (
          (
            entries,
            get_all_entries-Stores P.entry_json _ entries F.stores,
            All-imp _ _ (IsKept-IsSafe U entries held) w'.acked F.kept,
          ),
          (
            F.synced,
            get_all_entries-Stores P.entry_json (power_cut w'.service.wal) F.synced F.survives,
            All-imp _ _ (IsKept-IsSafe U F.synced held) w'.acked F.kept_synced,
          ),
        )

  -- When the batch writer has nothing in hand, a tick of it is a run of the steps of `World`,
  -- whatever its faults, provided that no line of the new log file is cut short and that it is
  -- synced.
  pub process_batch-Reach :
      (w : World P) (reading : ReadFaults) (cleaning : CleanupFaults)
      → w.pending ≡ []
      → ((i : ℕ) → cleaning.on_temp i ≡ none)
      → cleaning.on_temp_sync ≡ none
      → Reach P w (record w { service = process_batch P reading cleaning w.service; pending = [] })
  process_batch-Reach w reading cleaning idle full works =
      rw (process_batch_steps P reading cleaning w.service)
        (next (next here (insert reading idle)) (clean cleaning full works))
