-- ===== src/MessageService/Stuck.antt =====
-- What a crash of message_service.go between the insert of a batch and the cleanup of the log leads
-- to: the next batches hold an entry whose id a row has.
use digital_square.Base.{
  String, ◌≡◌, inl, inr, refl, sym, ap, subst, ◌∙◌, true, List, [], ◌∷◌, ◌++◌, map, Has,
  Has-append_left,
}
use digital_square.Errors.{ok}
use digital_square.Models.{Message}
use digital_square.Wal.{WalEntry, CleanupFaults}
use digital_square.Wal.Contents.{Stores, Stores-same, no_read_faults, get_all_entries-Stores}
use digital_square.Repository
use digital_square.Repository.{IsMessageTable, AreRowsOf, Deletion, is_visible, delete_row}
use digital_square.MessageService.{
  Parts, State, from_entry, insert_entries, insert_batch, cleanup_batch, get_recent_messages,
  delete_message,
}
use digital_square.MessageService.Ticks.{call}
use digital_square.MessageService.Recent.{get_recent_messages_untouched}
use digital_square.MessageService.Delete.{wal-delete_message}
use digital_square.MessageService.World.{
  World, ids, inserted, Step, send, insert, clean, run, read, delete, crash, Reach, here, next,
}
use digital_square.MessageService.Refused.{
  unmarked, Has-unmarked, send_message-Stores, insert_stuck, delete_keeps_rows,
}

module _ (P : Parts) (rows : P.table.State → List Message) (L : IsMessageTable P.table rows) where
  -- The log holds an entry with an id that a row has, and no batch is in hand.
  pub record IsStuck (id : String) (w : World P) : Type 0 where
    pub entries : List WalEntry
    pub stores : Stores P.entry_json w.service.wal entries
    pub logged : Has (λ e. e.message_id ≡ id) entries
    pub saved : Has (λ x. x.message_id ≡ id) (map unmarked (rows w.service.db))
    pub idle : w.pending ≡ []

  stays :
      (id : String) (w : World P) (s' : State P) (pending : List WalEntry)
      → IsStuck id w
      → s'.wal ≡ w.service.wal
      → map unmarked (rows s'.db) ≡ map unmarked (rows w.service.db)
      → pending ≡ []
      → IsStuck id (record w { service = s'; pending = pending })
        × (map unmarked (rows s'.db) ≡ map unmarked (rows w.service.db))
  stays id w s' pending k wal same idle = (
    record {
      entries = k.entries;
      stores = Stores-same P.entry_json _ _ wal k.entries k.stores;
      logged = k.logged;
      saved = subst (Has (λ x. x.message_id ≡ id)) (sym same) k.saved;
      idle = idle;
    },
    same,
  )

  idle_clean :
      (f : CleanupFaults) (pending : List WalEntry) (s : State P)
      → pending ≡ []
      → (cleanup_batch P f (ids P pending) s).1 ≡ s
  unfolding cleanup_batch
  idle_clean f pending s idle = ap (λ p. (cleanup_batch P f (ids P p) s).1) idle

  Step-IsStuck :
      (id : String) {w w' : World P}
      → Step P w w'
      → IsStuck id w
      → IsStuck id w' × (map unmarked (rows w'.service.db) ≡ map unmarked (rows w.service.db))
  Step-IsStuck id {w} (send fresh now f user_id username content unused storable whole) k =
      let (more, stores, db) =
        send_message-Stores P rows L fresh now f user_id username content w.service k.entries
          k.stores storable whole in
      let same = ap (λ d. map unmarked (rows d)) db in
      (
        record {
          entries = k.entries ++ more;
          stores = stores;
          logged = Has-append_left _ k.entries more k.logged;
          saved = subst (Has (λ x. x.message_id ≡ id)) (sym same) k.saved;
          idle = k.idle;
        },
        same,
      )
  Step-IsStuck id {w} (insert f _) k =
      let used = Has-unmarked id (rows w.service.db) k.saved in
      let (none_new, wal, same) =
        insert_stuck P rows L id f w.service k.entries k.stores k.logged used in
      stays id w (insert_batch P f w.service).1 (inserted P f w.service) k wal
        (ap (map unmarked) same) none_new
  Step-IsStuck id {w} (clean f full works) k =
      let same = idle_clean f w.pending w.service k.idle in
      stays id w (cleanup_batch P f (ids P w.pending) w.service).1 [] k (ap (λ t. t.wal) same)
        (ap (λ t. map unmarked (rows t.db)) same) refl
  Step-IsStuck id {w} (run before after task there) k = (
    record {
      entries = k.entries;
      stores = k.stores;
      logged = k.logged;
      saved = k.saved;
      idle = k.idle;
    },
    refl,
  )
  Step-IsStuck id {w} (read limit) k =
      let (wal, same) = get_recent_messages_untouched P rows L limit w.service in
      stays id w (get_recent_messages P limit w.service).1 w.pending k wal (ap (map unmarked) same)
        k.idle
  Step-IsStuck id {w} (delete now message_id user_id is_admin) k =
      stays id w (delete_message P now message_id user_id is_admin w.service).1 w.pending k
        (wal-delete_message P rows L now message_id user_id is_admin w.service)
        (delete_keeps_rows P rows L now message_id user_id is_admin w.service) k.idle
  Step-IsStuck id {w} crash k = (
    record {
      entries = k.entries;
      stores = record { text = k.stores.text; storable = k.stores.storable };
      logged = k.logged;
      saved = k.saved;
      idle = refl;
    },
    refl,
  )

  Reach-IsStuck :
      (id : String) {w w' : World P}
      → Reach P w w'
      → IsStuck id w
      → IsStuck id w' × (map unmarked (rows w'.service.db) ≡ map unmarked (rows w.service.db))
  Reach-IsStuck id here k = (k, refl)
  Reach-IsStuck id (next r st) k =
      let (k', same) = Reach-IsStuck id r k in
      let (k'', step) = Step-IsStuck id st k' in (k'', step ∙ same)

  -- The world after the insert of a tick without a fault, and a crash.
  abbrev pub after_crash : World P → World P
  after_crash w =
      let s = (insert_batch P no_read_faults w.service).1 in
      record w {
        service = record s { wal = record s.wal { is_open = true }; spawned = [] };
        pending = [];
      }

  new_saved :
      (e : WalEntry) (entries : List WalEntry) (old new : List Message)
      → AreRowsOf P.table.column (map (from_entry P) (e ∷ entries)) new
      → Has (λ x. x.message_id ≡ e.message_id) (map unmarked (old ++ new))
  new_saved e entries old [] h = absurd h
  new_saved e entries [] (row ∷ new) (p, h) = inl p.message_id
  new_saved e entries (o ∷ old) (row ∷ new) h = inr (new_saved e entries old (row ∷ new) h)

  after_crash-IsStuck :
      (w : World P) (e : WalEntry) (entries : List WalEntry)
      → Stores P.entry_json w.service.wal (e ∷ entries)
      → (call P rows L e entries w.service).0 ≡ ok tt
      → IsStuck e.message_id (after_crash w)
  unfolding insert_batch insert_entries Repository.batch_insert
  after_crash-IsStuck w e entries h done =
      let whole = get_all_entries-Stores P.entry_json w.service.wal (e ∷ entries) h in
      let (new, effect, are) =
        L.inserted (map (from_entry P) (e ∷ entries)) 500 w.service.db done in
      rw whole (
        rw done (record {
          entries = e ∷ entries;
          stores = record { text = h.text; storable = h.storable };
          logged = inl refl;
          saved =
              subst (λ l. Has (λ x. x.message_id ≡ e.message_id) ((map unmarked) l)) (sym effect)
                (new_saved e entries (rows w.service.db) new are);
          idle = refl;
        }))

  -- Where the process crashes after the batch writer has inserted a log that is undamaged and not
  -- empty, and before it has cleaned it, then after any run of the steps of `World` the log still
  -- holds an entry whose id a row has, and the table has the rows that it had at the crash, apart
  -- from deletion marks: no message is saved any more.
  pub crash_blocks :
      (w w' : World P) (e : WalEntry) (entries : List WalEntry)
      → Stores P.entry_json w.service.wal (e ∷ entries)
      → (call P rows L e entries w.service).0 ≡ ok tt
      → Reach P (after_crash w) w'
      → IsStuck e.message_id w'
        × (map unmarked (rows w'.service.db) ≡ map unmarked (rows (after_crash w).service.db))
  crash_blocks w w' e entries h done reach =
      Reach-IsStuck e.message_id reach (after_crash-IsStuck w e entries h done)
