-- ===== src/MessageService/Unsaved.antt =====
-- Deleting a message of message_service.go that the batch writer has not inserted yet.
use digital_square.Base.{
  String, ◌≡◌, ◌≢◌, inl, inr, refl, ap, ◌∙◌, Bool, List, All, Has-All, Has_elim,
}
use digital_square.Errors.{message_not_found, ok, err}
use digital_square.Action.{Result-cases}
use digital_square.Models.{Uuid, Time, Message}
use digital_square.Wal.{WriteFaults}
use digital_square.Repository.{IsMessageTable}
use digital_square.MessageService.{Parts, State, send_message, delete_message}
use digital_square.MessageService.Send.{send_message_effect}
use digital_square.MessageService.Delete.{missing}

module _ (P : Parts) (rows : P.table.State → List Message) (L : IsMessageTable P.table rows) where
  -- A deletion of an id that no row has ends with that error.
  delete_message_unsaved :
      (now : Time) (message_id : String) (user_id : Uuid) (is_admin : Bool) (s : State P)
      → All (λ row. row.message_id ≢ message_id) (rows s.db)
      → let run = delete_message P now message_id user_id is_admin s in
        (run.0 ≡ err message_not_found)
        × (rows run.1.db ≡ rows s.db)
        × (run.1.cache ≡ s.cache)
        × (run.1.wal ≡ s.wal)
  delete_message_unsaved now message_id user_id is_admin s unknown =
      elim (Result-cases (P.table.first_by_message_id message_id s.db).0) [
        | inl (msg, h) ↦ absurd (
            Has_elim _ ⊥ (rows s.db) (λ row both. both.1 both.0.1)
              (Has-All _ _ (rows s.db) (L.found message_id s.db msg h) unknown))
        | inr (e, h) ↦
            rw (missing P rows L now message_id user_id is_admin s e h)
              (refl, L.first_reads message_id s.db, refl, refl)
      ]

  -- A message that was accepted, and whose id no row has, cannot be deleted before the batch
  -- writer has run, by nobody: the answer is that there is no such message, and no row, the cache
  -- and the log have not changed.
  pub delete_message-send_message :
      (fresh : Uuid) (now later : Time) (f : WriteFaults) (author user_id : Uuid)
      (username content : String) (is_admin : Bool) (s : State P) (msg : Message)
      → (send_message P fresh now f author username content s).0 ≡ ok msg
      → All (λ row. row.message_id ≢ msg.message_id) (rows s.db)
      → let sent = (send_message P fresh now f author username content s).1 in
        let run = delete_message P later msg.message_id user_id is_admin sent in
        (run.0 ≡ err message_not_found)
        × (rows run.1.db ≡ rows s.db)
        × (run.1.cache ≡ s.cache)
        × (run.1.wal ≡ sent.wal)
  delete_message-send_message fresh now later f author user_id username content is_admin s msg done
        unknown =
      let (new, wrote, state) =
        send_message_effect P fresh now f author username content s msg done in
      let (missed, same_rows, same_cache, same_wal) =
        delete_message_unsaved later msg.message_id user_id is_admin
          (send_message P fresh now f author username content s).1 (rw state unknown) in
      (
        missed,
        same_rows ∙ ap (λ t. rows t.db) state,
        same_cache ∙ ap (λ t. t.cache) state,
        same_wal,
      )
