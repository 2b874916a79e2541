-- ===== src/MessageService/Invariant.antt =====
-- What holds of the log, the table and the acknowledged messages after every step of
-- `MessageService.World`.
use digital_square.Base.{
  String, ◌≡◌, ◌⊎◌, inl, inr, sym, ap, ◌∙◌, subst, true, false, List, [], ◌∷◌, All, Has, Has-All,
  Has_elim, arith, eq_iff, ◌==◌, Bool-cases,
}
use digital_square.Models.{Message}
use digital_square.Wal.{WalEntry, remaining, contains}
use digital_square.Wal.Contents.{Stores, Survives}
use digital_square.MessageService.{Parts, wal_entry}
use digital_square.MessageService.World.{World, ids}

module _ (P : Parts) where
  -- The row holds what the entry says. It may have been marked as deleted.
  pub record Persists (e : WalEntry) (row : Message) : Type 0 where
    pub message_id : row.message_id ≡ e.message_id
    pub user_id : row.user_id ≡ P.uuid.parse e.user_id
    pub content : row.content ≡ e.content
    pub created_at : row.created_at ≡ P.table.column e.timestamp

  -- The message is in the log or in the table.
  abbrev pub IsKept : List WalEntry → List Message → Message → Type 0
  IsKept entries rows msg =
      Has (λ e. e ≡ wal_entry P msg) entries ⊎ Has (Persists (wal_entry P msg)) rows

  -- Entries with one id are one.
  abbrev pub Agree : WalEntry → WalEntry → Type 0
  Agree e p = e.message_id ≡ p.message_id → e ≡ p

  abbrev pub AllAgree : List WalEntry → List WalEntry → Type 0
  AllAgree xs ys = All (λ e. All (Agree e) ys) xs

  abbrev pub AllIssued : List String → List WalEntry → Type 0
  AllIssued issued = All (λ e. Has (λ id. id ≡ e.message_id) issued)

  pub record Facts (rows : P.table.State → List Message) (w : World P) (entries : List WalEntry)
      : Type 0 where
    pub stores : Stores P.entry_json w.service.wal entries
    pub known : AllIssued w.issued entries
    pub known_pending : AllIssued w.issued w.pending
    pub distinct : AllAgree entries entries
    pub agree : AllAgree entries w.pending
    pub saved : All (λ p. Has (Persists p) (rows w.service.db)) w.pending
    pub kept : All (IsKept entries (rows w.service.db)) w.acked
    -- What has been synced.
    pub synced : List WalEntry
    pub survives : Survives P.entry_json w.service.wal synced
    pub kept_synced : All (IsKept synced (rows w.service.db)) w.acked

  -- The invariant: the facts hold of the log and of some list of entries.
  abbrev pub IsDurable : (P.table.State → List Message) → World P → Type 0
  IsDurable rows w = (entries : List WalEntry) × Facts rows w entries

  -- An id among those of a list of entries is that of one of them.
  contains-ids :
      (id : String) (entries : List WalEntry)
      → contains (ids P entries) id ≡ true
      → Has (λ p. id ≡ p.message_id) entries
  unfolding contains
  contains-ids id [] h = cc
  contains-ids id (e ∷ entries) h = elim (Bool-cases (e.message_id == id)) [
    | inl same ↦ inl (sym ((eq_iff _ _).0 same))
    | inr other ↦ inr (contains-ids id entries (ground (arith, other)))
  ]

  Has-remaining :
      (x : WalEntry) (gone : List String) (entries : List WalEntry)
      → contains gone x.message_id ≡ false
      → Has (λ e. e ≡ x) entries
      → Has (λ e. e ≡ x) (remaining gone entries)
  unfolding remaining
  Has-remaining x gone [] h m = m
  Has-remaining x gone (e ∷ entries) h (inl same) =
      rw (ap (λ y. contains gone y.message_id) same ∙ h) (inl same)
  Has-remaining x gone (e ∷ entries) h (inr m) = elim (Bool-cases (contains gone e.message_id)) [
    | inl out ↦ rw out (Has-remaining x gone entries h m)
    | inr stays ↦ rw stays (inr (Has-remaining x gone entries h m))
  ]

  saved_same :
      (rows : List Message) (p x : WalEntry) → p ≡ x → Has (Persists p) rows → Has (Persists x) rows
  saved_same rows p x same h = subst (λ e. Has (Persists e) rows) same h

  -- What a cleanup of the pending entries takes from the log is in the table.
  pub remaining-IsKept :
      (rows : List Message) (entries pending : List WalEntry)
      → AllAgree entries pending
      → All (λ p. Has (Persists p) rows) pending
      → (msg : Message) → IsKept entries rows msg
      → IsKept (remaining (ids P pending) entries) rows msg
  remaining-IsKept rows entries pending agree saved msg (inr h) = inr h
  remaining-IsKept rows entries pending agree saved msg (inl h) =
      let x = wal_entry P msg in
      elim (Bool-cases (contains (ids P pending) x.message_id)) [
        | inr stays ↦ inl (Has-remaining x (ids P pending) entries stays h)
        | inl out ↦
            let hits = Has-All _ _ entries h agree in
            let ids_hit = contains-ids x.message_id pending out in
            inr (
              Has_elim _ _ entries
                (λ e hit.
                  Has_elim _ _ pending
                    (λ p both.
                      saved_same rows p x
                        (sym (both.0.1 (ap (λ y. y.message_id) hit.0 ∙ both.0.0)) ∙ hit.0) both.1)
                    (Has-All _ _ pending (Has-All _ _ pending ids_hit hit.1) saved))
                hits)
      ]
