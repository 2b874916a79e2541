-- ===== src/MessageService/Ticks.antt =====
-- Ticks of the batch writer of message_service.go as its users see them: a tick that works empties
-- the log into the table, and one id in both stops every tick.
use digital_square.Base.{
  String, ◌≡◌, inl, inr, refl, subst, true, List, [], ◌∷◌, ◌++◌, map, All, All-imp, Has, Has-map,
  arith, eq_refl,
}
use digital_square.Errors.{Error, Result, ok, err}
use digital_square.Action.{Result-cases}
use digital_square.Models.{Message}
use digital_square.Wal
use digital_square.Wal.{WalEntry, ReadFaults, CleanupFaults, remaining, contains}
use digital_square.Wal.Contents.{
  Stores, Holds, no_read_faults, get_all_entries-Stores, get_all_entries_cases,
}
use digital_square.Wal.Cleanup.{cleanup-Holds, cleanup_works, no_cleanup_faults}
use digital_square.Repository
use digital_square.Repository.{MessageTable, IsMessageTable, AreRowsOf}
use digital_square.MessageService.{
  Parts, State, from_entry, insert_entries, insert_batch, cleanup_batch, process_batch,
}
use digital_square.MessageService.World.{ids}

contains_each :
    (P : Parts) (entries : List WalEntry)
    → All (λ e. contains (ids P entries) e.message_id ≡ true) entries
unfolding contains
contains_each P [] = tt
contains_each P (e ∷ entries) = (
  ground (arith, eq_refl e.message_id),
  All-imp _ _ (λ x h. ground (arith, h)) entries (contains_each P entries),
)

remaining_none :
    (gone : List String) (entries : List WalEntry)
    → All (λ e. contains gone e.message_id ≡ true) entries
    → remaining gone entries ≡ []
unfolding remaining
remaining_none gone [] h = refl
remaining_none gone (e ∷ entries) (p, h) = rw p (remaining_none gone entries h)

AreRowsOf-username :
    (P : Parts) (entries : List WalEntry) (new : List Message)
    → AreRowsOf P.table.column (map (from_entry P) entries) new
    → All (λ row. row.username ≡ "") new
AreRowsOf-username P [] [] h = tt
AreRowsOf-username P [] (row ∷ new) h = absurd h
AreRowsOf-username P (e ∷ entries) [] h = absurd h
AreRowsOf-username P (e ∷ entries) (row ∷ new) (r, h) =
    (r.username, AreRowsOf-username P entries new h)

module _ (P : Parts) (rows : P.table.State → List Message) (L : IsMessageTable P.table rows) where
  module _ (e : WalEntry) (entries : List WalEntry) (s : State P) where
    abbrev pub call : Result (Unit {0}) × P.table.State
    call = P.table.create_in_batches (map (from_entry P) (e ∷ entries)) 500 s.db

    -- A tick on a log that is not empty, with an insert that works.
    tick_saves :
        (reading : ReadFaults) (cleaning : CleanupFaults)
        → Wal.get_all_entries P.entry_json reading s.wal ≡ ok (e ∷ entries)
        → call.0 ≡ ok tt
        → process_batch P reading cleaning s ≡ record s {
          db = call.1;
          wal = (Wal.cleanup P.entry_json cleaning (ids P (e ∷ entries)) s.wal).1;
        }
    unfolding process_batch insert_batch insert_entries cleanup_batch Repository.batch_insert
    tick_saves reading cleaning read done = rw (read, process_batch) (rw done refl)

    -- A tick with an insert that fails.
    tick_fails :
        (reading : ReadFaults) (cleaning : CleanupFaults) (t : Error)
        → Wal.get_all_entries P.entry_json reading s.wal ≡ ok (e ∷ entries)
        → call.0 ≡ err t
        → process_batch P reading cleaning s ≡ record s { db = call.1 }
    unfolding process_batch insert_batch insert_entries cleanup_batch Repository.batch_insert
    tick_fails reading cleaning t read failed = rw (read, process_batch) (rw failed refl)

    -- When the log is open and not empty and the insert works, a tick without a fault of the disk
    -- moves the whole log into the table: one new row for each entry, in order, with the entry's
    -- id and text, the author that its text of an id is parsed to, its time as the column keeps
    -- it, and with no username. The log is empty then.
    pub process_batch_moves :
        Holds P.entry_json s.wal (e ∷ entries)
        → call.0 ≡ ok tt
        → let s' = process_batch P no_read_faults no_cleanup_faults s in
          (new : List Message) × (rows s'.db ≡ rows s.db ++ new)
          × AreRowsOf P.table.column (map (from_entry P) (e ∷ entries)) new
          × All (λ row. row.username ≡ "") new
          × Holds P.entry_json s'.wal []
    process_batch_moves h done =
        let read = get_all_entries-Stores P.entry_json s.wal (e ∷ entries) h.stores in
        let (new, effect, are) = L.inserted (map (from_entry P) (e ∷ entries)) 500 s.db done in
        let gone = ids P (e ∷ entries) in
        let cleaned =
          cleanup-Holds P.entry_json s.wal no_cleanup_faults gone (e ∷ entries) h.stores
            (λ i. refl) in
        let emptied : remaining gone (e ∷ entries) ≡ [] =
          remaining_none gone (e ∷ entries) (contains_each P (e ∷ entries)) in
        let works = cleanup_works P.entry_json s.wal gone (e ∷ entries) h in
        rw (tick_saves no_read_faults no_cleanup_faults read done) (
          new,
          effect,
          are,
          AreRowsOf-username P (e ∷ entries) new are,
          subst (Holds P.entry_json _) emptied (cleaned works),
        )

  -- A tick on an undamaged log that holds an entry whose id a row has already changes neither the
  -- log nor a row: the unique index refuses the whole batch.
  process_batch_stuck :
      (reading : ReadFaults) (cleaning : CleanupFaults) (s : State P) (entries : List WalEntry)
      (id : String)
      → Stores P.entry_json s.wal entries
      → Has (λ e. e.message_id ≡ id) entries
      → Has (λ row. row.message_id ≡ id) (rows s.db)
      → let s' = process_batch P reading cleaning s in (s'.wal ≡ s.wal) × (rows s'.db ≡ rows s.db)
  unfolding process_batch insert_batch
  process_batch_stuck reading cleaning s [] id h there used = absurd there
  process_batch_stuck reading cleaning s (e ∷ entries) id h there used =
      elim (get_all_entries_cases P.entry_json s.wal (e ∷ entries) h reading) [
        | inr (t, unread) ↦ rw (unread, process_batch) (refl, refl)
        | inl read ↦ elim (Result-cases (call e entries s).0) [
          | inl (_, done) ↦ absurd (
              L.unique _ 500 s.db id (Has-map (from_entry P) _ _ (e ∷ entries) (λ x p. p) there)
                used done)
          | inr (t, failed) ↦
              rw (tick_fails e entries s reading cleaning t read failed)
                (refl, L.rolled_back _ 500 s.db (cc failed))
        ]
      ]
