-- ===== src/MessageService/Durability/Tick.antt =====
-- The two halves of a tick of the batch writer keep the invariant, whatever goes wrong in them.
use digital_square.Base.{ℕ, ap, ◌≡◌, ◌⊎◌, inl, inr, sym, subst, none, List, [], All, All-imp}
use digital_square.Models.{Message}
use digital_square.Wal.{WalEntry, ReadFaults, CleanupFaults, remaining}
use digital_square.Wal.Contents.{Stores-same, Survives-same}
use digital_square.Wal.Cleanup.{remaining-All}
use digital_square.Repository.{IsMessageTable}
use digital_square.MessageService.{Parts, insert_batch, cleanup_batch}
use digital_square.MessageService.Invariant.{
  IsKept, Agree, AllAgree, AllIssued, IsDurable, remaining-IsKept,
}
use digital_square.MessageService.World.{World, inserted, ids}
use digital_square.MessageService.Durability.Fresh.{IsKept-rows, no_agreement}
use digital_square.MessageService.Batch.{insert_batch-Inserted, cleanup_batch_cases}

module _ (P : Parts) (rows : P.table.State → List Message) (L : IsMessageTable P.table rows) where
  pub insert-IsDurable :
      (w : World P) (f : ReadFaults)
      → IsDurable P rows w
      → IsDurable P rows
          (record w { service = (insert_batch P f w.service).1; pending = inserted P f w.service })
  insert-IsDurable w f (entries, F) =
      let I = insert_batch-Inserted P rows L f w.service entries F.stores in
      let (new, grown) = I.grown in
      (
        entries,
        record {
          stores = Stores-same P.entry_json _ _ I.wal entries F.stores;
          known = F.known;
          known_pending = batch_known _ I.whole;
          distinct = F.distinct;
          agree = batch_agree _ I.whole;
          saved = I.saved;
          kept =
              subst (λ rs. All (IsKept P entries rs) w.acked) (sym grown)
                (All-imp _ _ (IsKept-rows P entries (rows w.service.db) new) w.acked F.kept);
          synced = F.synced;
          survives =
              Survives-same P.entry_json w.service.wal (insert_batch P f w.service).1.wal F.synced
                (ap (λ v. v.synced v.file_path) I.wal) F.survives;
          kept_synced =
              subst (λ rs. All (IsKept P F.synced rs) w.acked) (sym grown)
                (All-imp _ _ (IsKept-rows P F.synced (rows w.service.db) new) w.acked
                  F.kept_synced);
        },
      )
    where
      batch_known :
          (batch : List WalEntry) → (batch ≡ []) ⊎ (batch ≡ entries) → AllIssued P w.issued batch
      batch_known batch (inl e) = subst (AllIssued P w.issued) (sym e) tt
      batch_known batch (inr e) = subst (AllIssued P w.issued) (sym e) F.known

      batch_agree :
          (batch : List WalEntry) → (batch ≡ []) ⊎ (batch ≡ entries) → AllAgree P entries batch
      batch_agree batch (inl e) = subst (AllAgree P entries) (sym e) (no_agreement P entries)
      batch_agree batch (inr e) = subst (AllAgree P entries) (sym e) F.distinct

  pub clean-IsDurable :
      (w : World P) (f : CleanupFaults)
      → ((i : ℕ) → f.on_temp i ≡ none)
      → f.on_temp_sync ≡ none
      → IsDurable P rows w
      → IsDurable P rows
          (record w { service = (cleanup_batch P f (ids P w.pending) w.service).1; pending = [] })
  clean-IsDurable w f full works (entries, F) =
      let (db, cases) = cleanup_batch_cases P f w.pending entries w.service F.stores full works in
      elim cases [
        | inl (old, same) ↦ (
          entries,
          record {
            stores = old;
            known = F.known;
            known_pending = tt;
            distinct = F.distinct;
            agree = no_agreement P entries;
            saved = tt;
            kept = subst (λ d. All (IsKept P entries (rows d)) w.acked) (sym db) F.kept;
            synced = F.synced;
            survives =
                Survives-same P.entry_json w.service.wal
                  (cleanup_batch P f (ids P w.pending) w.service).1.wal F.synced same F.survives;
            kept_synced =
                subst (λ d. All (IsKept P F.synced (rows d)) w.acked) (sym db) F.kept_synced;
          },
        )
        | inr (new, safe) ↦
            let left = remaining (ids P w.pending) entries in
            let kept =
              subst (λ d. All (IsKept P left (rows d)) w.acked) (sym db)
                (All-imp _ _
                  (remaining-IsKept P (rows w.service.db) entries w.pending F.agree F.saved) w.acked
                  F.kept) in
            (
              left,
              record {
                stores = new;
                known = remaining-All _ (ids P w.pending) entries F.known;
                known_pending = tt;
                distinct =
                    remaining-All (λ e. All (Agree P e) left) (ids P w.pending) entries
                      (All-imp _ _ (λ e h. remaining-All (Agree P e) (ids P w.pending) entries h)
                        entries F.distinct);
                agree = no_agreement P left;
                saved = tt;
                kept = kept;
                synced = left;
                survives = safe;
                kept_synced = kept;
              },
            )
      ]
