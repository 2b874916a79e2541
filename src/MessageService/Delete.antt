-- ===== src/MessageService/Delete.antt =====
-- `DeleteMessage` of message_service.go: who may delete a message, and what is deleted.
use digital_square.Base.{
  String, ◌≡◌, ◌≢◌, ◌⊎◌, inl, inr, refl, ap, ◌∙◌, Bool, true, false, not, ◌&&◌, ◌=?◌, Bool-cases,
  List, map, Has, arith, if◌then◌else◌,
}
use digital_square.Errors.{Error, message_not_found, unauthorized, Result, ok, err}
use digital_square.Action.{Result-cases}
use digital_square.Models.{Uuid, Time, Message}
use digital_square.Broker
use digital_square.Repository
use digital_square.Repository.{
  kept_deletion, Deletion, MessageTable, IsMessageTable, is_visible, delete_row,
}
use digital_square.MessageService.{Parts, State, mark_cached, delete_message}

-- The message belongs to somebody else, and the user is no admin.
abbrev pub is_refused : Bool → Uuid → Message → Bool
is_refused is_admin user_id msg = not is_admin && not (msg.user_id =? user_id)

-- What the call writes, and what the columns keep of it.
abbrev marks : Time → Uuid → Bool → Deletion
marks now user_id is_admin = record {
  deleted_at = record { time = now; valid = true };
  deleted_by = user_id;
  is_deleted_by_admin = is_admin;
}

abbrev pub deletion : MessageTable → Time → Uuid → Bool → Deletion
deletion T now user_id is_admin = kept_deletion T.column (marks now user_id is_admin)

module _ (P : Parts) (rows : P.table.State → List Message) (L : IsMessageTable P.table rows)
    (now : Time) (message_id : String) (user_id : Uuid) (is_admin : Bool) (s : State P) where
  abbrev lookup : Result Message × P.table.State
  lookup = P.table.first_by_message_id message_id s.db

  abbrev after : Message → Result (Unit {0}) × P.table.State
  after msg = P.table.update_where_id msg.id (marks now user_id is_admin) lookup.1

  abbrev run : Result (Unit {0}) × State P
  run = delete_message P now message_id user_id is_admin s

  -- The four ways through the function.
  pub missing :
      (e : Error) → lookup.0 ≡ err e → run ≡ (err message_not_found, record s { db = lookup.1 })
  unfolding delete_message Repository.get_by_message_id
  missing e h = rw h refl

  module _ (msg : Message) (h : lookup.0 ≡ ok msg) where
    refused :
        is_refused is_admin user_id msg ≡ true
        → run ≡ (err unauthorized, record s { db = lookup.1 })
    unfolding delete_message Repository.get_by_message_id
    refused r = rw h (rw r refl)

    not_saved :
        is_refused is_admin user_id msg ≡ false
        → (e : Error) → (after msg).0 ≡ err e
        → run ≡ (err e, record s { db = (after msg).1 })
    unfolding delete_message Repository.get_by_message_id Repository.soft_delete_message
    not_saved r e f = rw h (rw r (rw f refl))

    saved :
        is_refused is_admin user_id msg ≡ false
        → (after msg).0 ≡ ok tt
        → run ≡ (
          ok tt,
          record s {
            db = (after msg).1;
            cache =
                (Broker.mark_message_as_deleted P.redis P.message_json message_id is_admin
                  s.cache).1;
          },
        )
    unfolding delete_message mark_cached Repository.get_by_message_id Repository.soft_delete_message
    saved r f = rw h (rw r (rw f refl))

  -- A deletion that succeeds was asked for by an admin or by the author of a message that has this
  -- id and was not deleted before; it marks the visible rows with that message's key and changes
  -- no other row.
  pub delete_message_allowed :
      run.0 ≡ ok tt
      → (msg : Message) × Has
          (λ r. (r ≡ msg) × (r.message_id ≡ message_id) × (r.deleted_at.valid ≡ false))
          (rows s.db)
        × ((is_admin ≡ true) ⊎ (msg.user_id ≡ user_id))
        × (rows run.1.db
            ≡ map
                (λ row.
                  if row.id =? msg.id && is_visible row
                  then delete_row (deletion P.table now user_id is_admin) row
                  else row)
                (rows s.db))
  delete_message_allowed done = elim (Result-cases lookup.0) [
    | inr (e, h) ↦ cc (done, ap (λ r. r.0) (missing e h))
    | inl (msg, h) ↦ elim (Bool-cases (is_refused is_admin user_id msg)) [
      | inl r ↦ cc (done, ap (λ r. r.0) (refused msg h r))
      | inr r ↦ elim (Result-cases (after msg).0) [
        | inr (e, f) ↦ cc (done, ap (λ r. r.0) (not_saved msg h r e f))
        | inl (_, f) ↦ (
          msg,
          L.found message_id s.db msg h,
          ground arith,
          ap (λ r. rows r.1.db) (saved msg h r f)
              ∙ L.updated msg.id (marks now user_id is_admin) lookup.1 f
              ∙ ap
                  (map (λ row.
                    if row.id =? msg.id && is_visible row
                    then delete_row (deletion P.table now user_id is_admin) row
                    else row))
                  (L.first_reads message_id s.db),
        )
      ]
    ]
  ]

  -- A deletion that fails, for whatever reason, changes no row and leaves the cache and the log
  -- alone.
  pub delete_message_fails :
      run.0 ≢ ok tt → (rows run.1.db ≡ rows s.db) × (run.1.cache ≡ s.cache) × (run.1.wal ≡ s.wal)
  delete_message_fails failed = elim (Result-cases lookup.0) [
    | inr (e, h) ↦ rw (missing e h) (L.first_reads message_id s.db, refl, refl)
    | inl (msg, h) ↦ elim (Bool-cases (is_refused is_admin user_id msg)) [
      | inl r ↦ rw (refused msg h r) (L.first_reads message_id s.db, refl, refl)
      | inr r ↦ elim (Result-cases (after msg).0) [
        | inr (e, f) ↦ rw (not_saved msg h r e f) (
          L.not_updated msg.id (marks now user_id is_admin) lookup.1 (cc f)
              ∙ L.first_reads message_id s.db,
          refl,
          refl,
        )
        | inl (_, f) ↦ absurd (failed (ap (λ r. r.0) (saved msg h r f)))
      ]
    ]
  ]

  -- The log is not touched.
  pub wal-delete_message : run.1.wal ≡ s.wal
  wal-delete_message = elim (Result-cases lookup.0) [
    | inr (e, h) ↦ ap (λ r. r.1.wal) (missing e h)
    | inl (msg, h) ↦ elim (Bool-cases (is_refused is_admin user_id msg)) [
      | inl r ↦ ap (λ r. r.1.wal) (refused msg h r)
      | inr r ↦ elim (Result-cases (after msg).0) [
        | inr (e, f) ↦ ap (λ r. r.1.wal) (not_saved msg h r e f)
        | inl (_, f) ↦ ap (λ r. r.1.wal) (saved msg h r f)
      ]
    ]
  ]

  -- A user who is no admin is refused when the message that the table finds is not his own.
  pub delete_message_refuses :
      (msg : Message)
      → lookup.0 ≡ ok msg
      → is_admin ≡ false
      → msg.user_id ≢ user_id
      → run.0 ≡ err unauthorized
  delete_message_refuses msg h user other = ap (λ r. r.0) (refused msg h (ground arith))
