-- ===== src/MessageService/Send.antt =====
-- `SendMessage` of message_service.go: what is accepted, and what an accepted message leaves
-- behind.
use text.Mathlib.TextLemmas.{length-nil}
use digital_square.Base.{
  ◌≤◌, String, eq_iff, count, ◌≡◌, ◌↔◌, refl, ap, ◌∙◌, Option-cases, none, some, List, [], ◌∷◌,
  ◌++◌, arith, inl, inr,
}
use digital_square.Errors.{Error, ok, err}
use digital_square.Action.{Result-cases}
use digital_square.Models.{Uuid, Time, Message}
use digital_square.Html.{NoMarkup, escape_string-NoMarkup}
use digital_square.Wal
use digital_square.Wal.{WriteFaults, WalEntry}
use digital_square.Wal.Contents.{Holds, IsStorable, write-Holds, write_succeeds, no_write_faults}
use digital_square.MessageService.{
  Parts, State, caching, max_message_length, validate_message_content, new_message, wal_entry,
  send_message,
}

-- A text is accepted exactly when it has between 1 and 5000 characters.
validate_message_content_iff :
    (content : String)
    → (validate_message_content content ≡ none)
      ↔ ((1 ≤ count content) × (count content ≤ max_message_length))
unfolding validate_message_content
validate_message_content_iff content =
    let empty = eq_iff content "" in
    let zero_of : content ≡ "" → count content ≡ 0 = λ e. ap count e ∙ length-nil in
    ground (arith, empty, zero_of)

module _ (P : Parts) where
  -- A message that is not accepted changes nothing.
  pub send_message_rejects :
      (fresh : Uuid) (now : Time) (f : WriteFaults) (user_id : Uuid) (username content : String)
      (s : State P) (e : Error)
      → validate_message_content content ≡ some e
      → send_message P fresh now f user_id username content s ≡ (err e, s)
  unfolding send_message
  send_message_rejects fresh now f user_id username content s e h = rw h

  module _ (fresh : Uuid) (now : Time) (f : WriteFaults) (user_id : Uuid)
      (username content : String) (s : State P)
      (valid : validate_message_content content ≡ none) where
    abbrev new : Message
    new = new_message P fresh now user_id username content

    pub send_message_wrote :
        (Wal.write P.entry_json f (wal_entry P new) s.wal).0 ≡ ok tt
        → send_message P fresh now f user_id username content s ≡ (
          ok new,
          record s {
            wal = (Wal.write P.entry_json f (wal_entry P new) s.wal).1;
            spawned = s.spawned ++ caching new ∷ [];
          },
        )
    unfolding send_message
    send_message_wrote wrote = rw valid (rw wrote refl)

    pub send_message_failed :
        (e : Error)
        → (Wal.write P.entry_json f (wal_entry P new) s.wal).0 ≡ err e
        → send_message P fresh now f user_id username content s
          ≡ (err e, record s { wal = (Wal.write P.entry_json f (wal_entry P new) s.wal).1 })
    unfolding send_message
    send_message_failed e failed = rw valid (rw failed refl)

  -- What a call that succeeds has done.
  pub send_message_effect :
      (fresh : Uuid) (now : Time) (f : WriteFaults) (user_id : Uuid) (username content : String)
      (s : State P) (msg : Message)
      → (send_message P fresh now f user_id username content s).0 ≡ ok msg
      → let wrote = Wal.write P.entry_json f (wal_entry P msg) s.wal in
        (msg ≡ new_message P fresh now user_id username content)
        × (wrote.0 ≡ ok tt)
        × ((send_message P fresh now f user_id username content s).1
            ≡ record s { wal = wrote.1; spawned = s.spawned ++ caching msg ∷ [] })
  send_message_effect fresh now f user_id username content s msg done =
      let sent = new_message P fresh now user_id username content in
      elim (Option-cases (validate_message_content content)) [
        | inr (e, invalid) ↦
            let rejected = send_message_rejects fresh now f user_id username content s e invalid in
            cc (done, ap (λ r. r.0) rejected)
        | inl valid ↦ elim (Result-cases (Wal.write P.entry_json f (wal_entry P sent) s.wal).0) [
          | inr (e, failed) ↦
              let same =
                send_message_failed fresh now f user_id username content s valid e failed in
              cc (done, ap (λ r. r.0) same)
          | inl (_, wrote) ↦
              let same = send_message_wrote fresh now f user_id username content s valid wrote in
              let is_sent : msg ≡ sent = cc (done, ap (λ r. r.0) same) in
              rw is_sent (refl, wrote, ap (λ r. r.1) same)
        ]
      ]

  -- A message whose entry can be stored, and that is accepted while the log is open, is in the
  -- log, behind all that was there, and in the task that will cache it; its text holds no markup,
  -- and the cache and the table have not changed.
  pub send_message_logged :
      (fresh : Uuid) (now : Time) (f : WriteFaults) (user_id : Uuid) (username content : String)
      (s : State P) (entries : List WalEntry) (msg : Message)
      → Holds P.entry_json s.wal entries
      → IsStorable P.entry_json (wal_entry P (new_message P fresh now user_id username content))
      → (send_message P fresh now f user_id username content s).0 ≡ ok msg
      → let s' = (send_message P fresh now f user_id username content s).1 in
        Holds P.entry_json s'.wal (entries ++ wal_entry P msg ∷ [])
        × (s'.spawned ≡ s.spawned ++ caching msg ∷ [])
        × NoMarkup msg.content
        × (s'.cache ≡ s.cache)
        × (s'.db ≡ s.db)
  unfolding send_message
  send_message_logged fresh now f user_id username content s entries msg h storable done =
      let (new, wrote, state) =
        send_message_effect fresh now f user_id username content s msg done in
      let stored : IsStorable P.entry_json (wal_entry P msg) = rw new storable in
      rw state (
        write-Holds P.entry_json s.wal f entries (wal_entry P msg) h stored wrote,
        refl,
        rw new (escape_string-NoMarkup content),
        refl,
        refl,
      )

  -- Without a fault of the disk every text of 1 to 5000 characters whose entry can be stored is
  -- accepted while the log is open, with the message that was made of it.
  pub send_message_accepts :
      (fresh : Uuid) (now : Time) (user_id : Uuid) (username content : String) (s : State P)
      (entries : List WalEntry)
      → 1 ≤ count content
      → count content ≤ max_message_length
      → Holds P.entry_json s.wal entries
      → IsStorable P.entry_json (wal_entry P (new_message P fresh now user_id username content))
      → (send_message P fresh now no_write_faults user_id username content s).0
        ≡ ok (new_message P fresh now user_id username content)
  unfolding send_message
  send_message_accepts fresh now user_id username content s entries low high h storable =
      let valid = (validate_message_content_iff content).1 (low, high) in
      let wrote = write_succeeds P.entry_json s.wal entries _ h storable in rw valid (rw wrote)
