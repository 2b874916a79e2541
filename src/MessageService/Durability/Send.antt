-- ===== src/MessageService/Durability/Send.antt =====
-- A call of `SendMessage` keeps the invariant, whether it succeeds or fails.
use digital_square.Base.{
  String, ◌≡◌, ◌≢◌, ◌⊎◌, inl, inr, refl, sym, subst, Option-cases, List, [], ◌∷◌, ◌++◌, All,
  All-imp, All-append, Has, Has-append_right,
}
use digital_square.Action.{Result-cases}
use digital_square.Models.{Uuid, Time, Message}
use digital_square.Wal
use digital_square.Wal.{WalEntry, ReadFaults, WriteFaults, CleanupFaults, remaining}
use digital_square.Wal.Contents.{
  Stores, Survives, Survives-same, Stores-Survives, IsStorable, IsWhole, write_cases, write_synced,
  write_unsynced,
}
use digital_square.MessageService.{
  Parts, State, caching, new_message, wal_entry, send_message, validate_message_content,
}
use digital_square.MessageService.Invariant.{Persists, IsKept, Agree, Facts, IsDurable}
use digital_square.MessageService.World.{World, ack}
use digital_square.MessageService.Durability.Fresh.{
  IsKept-log, fresh-Agree, AllAgree-snoc, AllIssued-more,
}
use digital_square.MessageService.Send.{
  send_message_rejects, send_message_wrote, send_message_failed,
}

module _ (P : Parts) (rows : P.table.State → List Message) where
  -- A write of a new entry keeps the facts. The message counts as acknowledged only if it has
  -- reached the log.
  module _ (w : World P) (entries : List WalEntry) (F : Facts P rows w entries) (msg : Message)
      (fresh : All (λ id. id ≢ msg.message_id) w.issued) where
    abbrev entry : WalEntry
    entry = wal_entry P msg

    IsKept-by :
        (s' : State P) (acked : List Message)
        → s'.db ≡ w.service.db
        → (acked ≡ w.acked) ⊎ (acked ≡ msg ∷ w.acked)
        → All (IsKept P (entries ++ entry ∷ []) (rows s'.db)) acked
    IsKept-by s' acked db acks =
        let K = IsKept P (entries ++ entry ∷ []) (rows s'.db) in
        let older : All K w.acked =
          subst (λ d. All (IsKept P (entries ++ entry ∷ []) (rows d)) w.acked) (sym db)
            (All-imp _ _ (IsKept-log P entries (entry ∷ []) (rows w.service.db)) w.acked F.kept) in
        elim acks [
          | inl same ↦ subst (All K) (sym same) older
          | inr same ↦
              subst (All K) (sym same)
                (inl (Has-append_right (λ e. e ≡ entry) entries (entry ∷ []) (inl refl)), older)
        ]

    logged :
        (s' : State P) (acked : List Message) (synced : List WalEntry)
        → Stores P.entry_json s'.wal (entries ++ entry ∷ [])
        → s'.db ≡ w.service.db
        → (acked ≡ w.acked) ⊎ (acked ≡ msg ∷ w.acked)
        → Survives P.entry_json s'.wal synced
        → All (IsKept P synced (rows s'.db)) acked
        → IsDurable P rows
            (record w { service = s'; acked = acked; issued = msg.message_id ∷ w.issued })
    logged s' acked synced stores db acks survives kept_synced = (
      entries ++ entry ∷ [],
      record {
        stores = stores;
        known =
            All-append _ entries (entry ∷ [])
              (AllIssued-more P w.issued msg.message_id entries F.known) (inl refl, tt);
        known_pending = AllIssued-more P w.issued msg.message_id w.pending F.known_pending;
        distinct =
            All-append (λ x. All (Agree P x) (entries ++ entry ∷ [])) entries (entry ∷ [])
              (AllAgree-snoc P w.issued entry fresh entries entries F.known F.distinct)
              (
                All-append (Agree P entry) entries (entry ∷ [])
                    (fresh-Agree P w.issued entry fresh entries F.known) ((λ _. refl), tt),
                tt,
              );
        agree =
            All-append (λ x. All (Agree P x) w.pending) entries (entry ∷ []) F.agree
              (fresh-Agree P w.issued entry fresh w.pending F.known_pending, tt);
        saved = subst (λ d. All (λ p. Has (Persists P p) (rows d)) w.pending) (sym db) F.saved;
        kept = IsKept-by s' acked db acks;
        synced = synced;
        survives = survives;
        kept_synced = kept_synced;
      },
    )

    not_logged :
        (s' : State P)
        → Stores P.entry_json s'.wal entries
        → s'.db ≡ w.service.db
        → s'.wal.synced s'.wal.file_path ≡ w.service.wal.synced w.service.wal.file_path
        → IsDurable P rows (record w { service = s'; issued = msg.message_id ∷ w.issued })
    not_logged s' stores db same = (
      entries,
      record {
        stores = stores;
        known = AllIssued-more P w.issued msg.message_id entries F.known;
        known_pending = AllIssued-more P w.issued msg.message_id w.pending F.known_pending;
        distinct = F.distinct;
        agree = F.agree;
        saved = subst (λ d. All (λ p. Has (Persists P p) (rows d)) w.pending) (sym db) F.saved;
        kept = subst (λ d. All (IsKept P entries (rows d)) w.acked) (sym db) F.kept;
        synced = F.synced;
        survives = Survives-same P.entry_json w.service.wal s'.wal F.synced same F.survives;
        kept_synced = subst (λ d. All (IsKept P F.synced (rows d)) w.acked) (sym db) F.kept_synced;
      },
    )

  pub send-IsDurable :
      (w : World P) (fresh : Uuid) (now : Time) (f : WriteFaults) (user_id : Uuid)
      (username content : String)
      → All (λ id. id ≢ P.uuid.to_string fresh) w.issued
      → IsStorable P.entry_json (wal_entry P (new_message P fresh now user_id username content))
      → IsWhole f
      → IsDurable P rows w
      → IsDurable P rows (record w {
        service = (send_message P fresh now f user_id username content w.service).1;
        acked = ack P (send_message P fresh now f user_id username content w.service).0 w.acked;
        issued = P.uuid.to_string fresh ∷ w.issued;
      })
  send-IsDurable w fresh now f user_id username content unused storable whole (entries, F) =
      let msg = new_message P fresh now user_id username content in
      let s = w.service in
      let wrote = Wal.write P.entry_json f (wal_entry P msg) s.wal in
      elim (Option-cases (validate_message_content content)) [
        | inr (e, invalid) ↦
            rw (send_message_rejects P fresh now f user_id username content s e invalid)
              (not_logged w entries F msg unused s F.stores refl refl)
        | inl valid ↦ elim (Result-cases wrote.0) [
          | inr (e, failed) ↦
              rw (send_message_failed P fresh now f user_id username content s valid e failed)
                (elim (write_cases P.entry_json s.wal f entries (wal_entry P msg) F.stores storable
                  whole) [
                    | inl stored ↦
                        let same = write_unsynced P.entry_json s.wal f (wal_entry P msg) e failed in
                        logged w entries F msg unused (record s { wal = wrote.1 }) w.acked F.synced
                          stored refl (inl refl)
                          (Survives-same P.entry_json s.wal wrote.1 F.synced same F.survives)
                          F.kept_synced
                    | inr (kept, _) ↦
                        not_logged w entries F msg unused (record s { wal = wrote.1 }) kept refl
                          (write_unsynced P.entry_json s.wal f (wal_entry P msg) e failed)
                  ])
          | inl (_, done) ↦
              rw (send_message_wrote P fresh now f user_id username content s valid done)
                (elim (write_cases P.entry_json s.wal f entries (wal_entry P msg) F.stores storable
                  whole) [
                    | inl stored ↦
                        let s' : State P = record s {
                          wal = wrote.1;
                          spawned = s.spawned ++ caching msg ∷ [];
                        } in
                        logged w entries F msg unused s' (msg ∷ w.acked)
                          (entries ++ wal_entry P msg ∷ []) stored refl (inr refl)
                          (Stores-Survives P.entry_json wrote.1 _
                            (write_synced P.entry_json s.wal f (wal_entry P msg) done) stored)
                          (IsKept-by w entries F msg unused s' (msg ∷ w.acked) refl (inr refl))
                    | inr (_, failed) ↦ absurd (failed done)
                  ])
        ]
      ]
