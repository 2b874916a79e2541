-- ===== src/MessageService/Batch.antt =====
-- The batch writer of message_service.go: what a tick does to the log and the table.
use digital_square.Base.{
  arith, ℕ, String, ◌≡◌, ◌⊎◌, inl, inr, refl, sym, ap, subst, ◌∙◌, none, List, [], ◌∷◌, ◌++◌,
  append_assoc, append-nil, map, All, Has, Has-append_right,
}
use digital_square.Errors.{ok}
use digital_square.Action.{continue, Result-cases}
use digital_square.Models.{Message}
use digital_square.Wal
use digital_square.Wal.{remaining, WalEntry, ReadFaults, CleanupFaults}
use digital_square.Wal.Contents.{Survives, Stores, get_all_entries_cases}
use digital_square.Wal.Cleanup.{cleanup-Survives}
use digital_square.Repository
use digital_square.Repository.{MessageTable, IsMessageTable, AreRowsOf, IsRowOf}
use digital_square.MessageService.{
  Parts, State, from_entry, insert_entries, insert_batch, cleanup_batch, process_batch,
}
use digital_square.MessageService.World.{ids, inserted, or_nothing, entries_read}
use digital_square.MessageService.Invariant.{Persists}

module _ (P : Parts) where
  -- The rows of an inserted batch hold the entries that it was made of.
  rows-Persists :
      (entries : List WalEntry) (old new : List Message)
      → AreRowsOf P.table.column (map (from_entry P) entries) new
      → All (λ p. Has (Persists P p) (old ++ new)) entries
  rows-Persists [] old new h = tt
  rows-Persists (e ∷ entries) old [] h = absurd h
  rows-Persists (e ∷ entries) old (row ∷ new) (r, h) = (
    Has-append_right (Persists P e) old (row ∷ new) (
        inl (record {
          message_id = r.message_id;
          user_id = r.user_id;
          content = r.content;
          created_at = r.created_at;
        })),
    subst (λ rs. All (λ p. Has (Persists P p) rs) entries) (append_assoc old (row ∷ []) new)
        (rows-Persists entries (old ++ row ∷ []) new h),
  )

  module _ (rows : P.table.State → List Message) (L : IsMessageTable P.table rows) where
    -- What the insert of a tick does: the batch in hand is saved, and it is empty or the whole log.
    pub record Inserted (s s' : State P) (entries batch : List WalEntry) : Type 0 where
      pub wal : s'.wal ≡ s.wal
      pub whole : (batch ≡ []) ⊎ (batch ≡ entries)
      pub grown : (new : List Message) × (rows s'.db ≡ rows s.db ++ new)
      pub saved : All (λ p. Has (Persists P p) (rows s'.db)) batch

    insert_entries-Inserted :
        (entries : List WalEntry) (s : State P)
        → Inserted s
            (insert_entries P entries s).1
            entries
            (or_nothing P (insert_entries P entries s).0 entries)
    unfolding insert_entries Repository.batch_insert
    insert_entries-Inserted [] s = record {
      wal = refl;
      whole = inl refl;
      grown = ([], sym (append-nil _));
      saved = tt;
    }
    insert_entries-Inserted (e ∷ entries) s =
        let msgs = map (from_entry P) (e ∷ entries) in
        let call = P.table.create_in_batches msgs 500 s.db in
        elim (Result-cases call.0) [
          | inr (t, failed) ↦ rw failed (record {
            wal = refl;
            whole = inl refl;
            grown = ([], L.rolled_back msgs 500 s.db (cc failed) ∙ sym (append-nil _));
            saved = tt;
          })
          | inl (_, done) ↦
              let (new, effect, are) = L.inserted msgs 500 s.db done in
              rw done (record {
                wal = refl;
                whole = inr refl;
                grown = (new, effect);
                saved =
                    subst (λ rs. All (λ p. Has (Persists P p) rs) (e ∷ entries)) (sym effect)
                      (rows-Persists (e ∷ entries) (rows s.db) new are);
              })
        ]

    pub insert_batch-Inserted :
        (f : ReadFaults) (s : State P) (entries : List WalEntry)
        → Stores P.entry_json s.wal entries
        → Inserted s (insert_batch P f s).1 entries (inserted P f s)
    unfolding insert_batch
    insert_batch-Inserted f s entries h =
        elim (get_all_entries_cases P.entry_json s.wal entries h f) [
          | inr (e, failed) ↦ rw failed (record {
            wal = refl;
            whole = inl refl;
            grown = ([], sym (append-nil _));
            saved = tt;
          })
          | inl read ↦ rw read (insert_entries-Inserted entries s)
        ]

  -- The cleanup of a tick touches the log alone, which keeps all its entries or those that are not
  -- in the batch.
  pub cleanup_batch_cases :
      (f : CleanupFaults) (batch entries : List WalEntry) (s : State P)
      → Stores P.entry_json s.wal entries
      → ((i : ℕ) → f.on_temp i ≡ none)
      → f.on_temp_sync ≡ none
      → let s' = (cleanup_batch P f (ids P batch) s).1 in
        (s'.db ≡ s.db)
        × ((Stores P.entry_json s'.wal entries
              × (s'.wal.synced s'.wal.file_path ≡ s.wal.synced s.wal.file_path))
            ⊎ (Stores P.entry_json s'.wal (remaining (ids P batch) entries)
                × Survives P.entry_json s'.wal (remaining (ids P batch) entries)))
  unfolding cleanup_batch
  cleanup_batch_cases f [] entries s h full works = (refl, inl (h, refl))
  cleanup_batch_cases f (e ∷ batch) entries s h full works =
      (refl, cleanup-Survives P.entry_json s.wal f (ids P (e ∷ batch)) entries h full works)

  ids_inserted_entries :
      (entries : List WalEntry) (s : State P) (found : List String)
      → (insert_entries P entries s).0 ≡ ok found
      → found ≡ ids P (or_nothing P (insert_entries P entries s).0 entries)
  unfolding insert_entries
  ids_inserted_entries [] s found h = cc h
  ids_inserted_entries (e ∷ entries) s found h =
      elim (Result-cases
        (Repository.batch_insert P.table (map (from_entry P) (e ∷ entries)) s.db).0) [
          | inr (t, failed) ↦ ground (arith, failed)
          | inl (_, done) ↦ ground (arith, done)
        ]

  -- The ids that the insert hands on are those of the entries that it inserted.
  ids-inserted :
      (f : ReadFaults) (s : State P) (found : List String)
      → (insert_batch P f s).0 ≡ ok found
      → found ≡ ids P (inserted P f s)
  unfolding insert_batch
  ids-inserted f s found h = elim (Result-cases (Wal.get_all_entries P.entry_json f s.wal)) [
    | inr (e, failed) ↦ ground (arith, failed)
    | inl (entries, read) ↦
        let h' : (insert_entries P entries s).0 ≡ ok found = rw read at h in
        rw read (ids_inserted_entries entries s found h')
  ]

  -- A tick of the batch writer is its insert, and then its cleanup of what was inserted.
  pub process_batch_steps :
      (reading : ReadFaults) (cleaning : CleanupFaults) (s : State P)
      → process_batch P reading cleaning s
        ≡ (cleanup_batch P cleaning (ids P (inserted P reading s)) (insert_batch P reading s).1).1
  unfolding process_batch cleanup_batch
  process_batch_steps reading cleaning s =
      let s' = (insert_batch P reading s).1 in
      let batch = entries_read P (Wal.get_all_entries P.entry_json reading s.wal) in
      elim (Result-cases (insert_batch P reading s).0) [
        | inl (found, done) ↦
            ap (λ r. (continue r s' (cleanup_batch P cleaning)).1) done
            ∙ ap (λ l. (cleanup_batch P cleaning l s').1) (ids-inserted reading s found done)
        | inr (e, failed) ↦
            ap (λ r. (continue r s' (cleanup_batch P cleaning)).1) failed
            ∙ sym (ap (λ r. (cleanup_batch P cleaning (ids P (or_nothing P r batch)) s').1) failed)
      ]
