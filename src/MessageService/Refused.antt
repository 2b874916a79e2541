-- ===== src/MessageService/Refused.antt =====
-- The operations of message_service.go while a batch is refused: what each of them leaves of the log
-- and of the rows.
use digital_square.Base.{
  none, false, String, ◌≡◌, ◌⊎◌, inl, inr, refl, sym, ap, subst, ◌∙◌, Bool, ◌&&◌, ◌=?◌, Bool-cases,
  Option-cases, List, [], ◌∷◌, ◌++◌, append-nil, map, Has, Has-map, if◌then◌else◌,
}
use digital_square.Errors.{Error, err}
use digital_square.Action.{Result-cases}
use digital_square.Models.{not_deleted, Uuid, Time, Message}
use digital_square.Wal
use digital_square.Wal.{Wal, WalEntry, WriteFaults, ReadFaults, CleanupFaults}
use digital_square.Wal.Contents.{Stores, IsStorable, IsWhole, write_cases, get_all_entries_cases}
use digital_square.Repository
use digital_square.Repository.{IsMessageTable, AreRowsOf, Deletion, is_visible, delete_row}
use digital_square.MessageService.{
  Parts, State, new_message, wal_entry, from_entry, send_message, validate_message_content,
  insert_entries, insert_batch, delete_message,
}
use digital_square.MessageService.Send.{
  send_message_rejects, send_message_wrote, send_message_failed,
}
use digital_square.MessageService.Ticks.{call}
use digital_square.MessageService.Delete.{deletion, delete_message_allowed, delete_message_fails}
use digital_square.MessageService.World.{inserted, or_nothing}

-- The rows without their deletion marks.
abbrev pub unmarked : Message → Message
unmarked row = record row {
  deleted_at = not_deleted;
  deleted_by = none;
  is_deleted_by_admin = false;
}

pub Has-unmarked :
    (id : String) (rows : List Message)
    → Has (λ x. x.message_id ≡ id) (map unmarked rows)
    → Has (λ row. row.message_id ≡ id) rows
Has-unmarked id [] h = absurd h
Has-unmarked id (row ∷ rows) (inl p) = inl p
Has-unmarked id (row ∷ rows) (inr h) = inr (Has-unmarked id rows h)

unmarked-delete_row :
    (p : Message → Bool) (d : Deletion) (rows : List Message)
    → map unmarked (map (λ row. if p row then delete_row d row else row) rows) ≡ map unmarked rows
unmarked-delete_row p d [] = refl
unmarked-delete_row p d (row ∷ rows) = elim (Bool-cases (p row)) [
  | inl hit ↦ rw hit (ap (λ l. unmarked row ∷ l) (unmarked-delete_row p d rows))
  | inr other ↦ rw other (ap (λ l. unmarked row ∷ l) (unmarked-delete_row p d rows))
]

module _ (P : Parts) (rows : P.table.State → List Message) (L : IsMessageTable P.table rows) where
  may_grow :
      (w : Wal) (entries : List WalEntry) (e : WalEntry) (Q : Type 0)
      → Stores P.entry_json w (entries ++ e ∷ []) ⊎ (Stores P.entry_json w entries × Q)
      → (more : List WalEntry) × Stores P.entry_json w (entries ++ more)
  may_grow w entries e Q (inl longer) = (e ∷ [], longer)
  may_grow w entries e Q (inr (same, _)) =
      ([], subst (Stores P.entry_json w) (sym (append-nil entries)) same)

  -- A call of `SendMessage` leaves the rows alone, and at most adds to the log.
  pub send_message-Stores :
      (fresh : Uuid) (now : Time) (f : WriteFaults) (user_id : Uuid) (username content : String)
      (s : State P) (entries : List WalEntry)
      → Stores P.entry_json s.wal entries
      → IsStorable P.entry_json (wal_entry P (new_message P fresh now user_id username content))
      → IsWhole f
      → let s' = (send_message P fresh now f user_id username content s).1 in
        (more : List WalEntry) × Stores P.entry_json s'.wal (entries ++ more) × (s'.db ≡ s.db)
  send_message-Stores fresh now f user_id username content s entries h storable whole =
      let msg = new_message P fresh now user_id username content in
      let cases = write_cases P.entry_json s.wal f entries (wal_entry P msg) h storable whole in
      elim (Option-cases (validate_message_content content)) [
        | inr (e, invalid) ↦
            rw (send_message_rejects P fresh now f user_id username content s e invalid)
              ([], subst (Stores P.entry_json s.wal) (sym (append-nil entries)) h, refl)
        | inl valid ↦ elim (Result-cases (Wal.write P.entry_json f (wal_entry P msg) s.wal).0) [
          | inr (e, failed) ↦
              rw (send_message_failed P fresh now f user_id username content s valid e failed) (
                let (more, longer) = may_grow _ entries (wal_entry P msg) _ cases in
                (more, longer, refl))
          | inl (_, done) ↦
              rw (send_message_wrote P fresh now f user_id username content s valid done) (
                let (more, longer) = may_grow _ entries (wal_entry P msg) _ cases in
                (more, longer, refl))
        ]
      ]

  insert_entries_stuck :
      (id : String) (entries : List WalEntry) (s : State P)
      → Has (λ e. e.message_id ≡ id) entries
      → Has (λ row. row.message_id ≡ id) (rows s.db)
      → ((t : Error) × ((insert_entries P entries s).0 ≡ err t))
        × ((insert_entries P entries s).1.wal ≡ s.wal)
        × (rows (insert_entries P entries s).1.db ≡ rows s.db)
  unfolding insert_entries Repository.batch_insert
  insert_entries_stuck id [] s there used = absurd there
  insert_entries_stuck id (e ∷ entries) s there used =
      elim (Result-cases (call P rows L e entries s).0) [
        | inl (_, done) ↦ absurd (
            L.unique _ 500 s.db id (Has-map (from_entry P) _ _ (e ∷ entries) (λ x p. p) there) used
              done)
        | inr (t, failed) ↦ rw failed ((t, refl), refl, L.rolled_back _ 500 s.db (cc failed))
      ]

  pub insert_stuck :
      (id : String) (f : ReadFaults) (s : State P) (entries : List WalEntry)
      → Stores P.entry_json s.wal entries
      → Has (λ e. e.message_id ≡ id) entries
      → Has (λ row. row.message_id ≡ id) (rows s.db)
      → (inserted P f s ≡ [])
        × ((insert_batch P f s).1.wal ≡ s.wal)
        × (rows (insert_batch P f s).1.db ≡ rows s.db)
  unfolding insert_batch
  insert_stuck id f s entries h there used =
      elim (get_all_entries_cases P.entry_json s.wal entries h f) [
        | inr (t, unread) ↦ rw unread (refl, refl, refl)
        | inl whole ↦
            let ((t, failed), log, kept) = insert_entries_stuck id entries s there used in
            rw whole (ap (λ r. or_nothing P r entries) failed, log, kept)
      ]

  pub delete_keeps_rows :
      (now : Time) (message_id : String) (user_id : Uuid) (is_admin : Bool) (s : State P)
      → map unmarked (rows (delete_message P now message_id user_id is_admin s).1.db)
        ≡ map unmarked (rows s.db)
  delete_keeps_rows now message_id user_id is_admin s =
      elim (Result-cases (delete_message P now message_id user_id is_admin s).0) [
        | inl (_, done) ↦
            let (msg, _, _, effect) =
              delete_message_allowed P rows L now message_id user_id is_admin s done in
            ap (map unmarked) effect
            ∙ unmarked-delete_row (λ row. row.id =? msg.id && is_visible row)
                (deletion P.table now user_id is_admin) (rows s.db)
        | inr (t, failed) ↦
            ap (map unmarked)
              (delete_message_fails P rows L now message_id user_id is_admin s (cc failed)).0
      ]
