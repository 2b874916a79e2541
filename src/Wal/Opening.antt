-- ===== src/Wal/Opening.antt =====
-- `NewWAL` of wal.go on the disk that an earlier process has left.
use digital_square.Base.{◌≡◌, subst, refl, true, none, some, List, arith, eq_refl}
use digital_square.Codec.{Codec}
use digital_square.Errors.{ok}
use digital_square.Action.{Outcome}
use digital_square.Wal.{new_wal, update, or_empty, WalEntry, Wal}
use digital_square.Wal.Contents.{Stores, Holds}

module _ (c : Codec WalEntry) where
  -- A log that is opened without an error at the path of an undamaged one, whose handle may be
  -- closed, is open and holds its entries.
  pub new_wal-Holds :
      (w w' : Wal) (entries : List WalEntry) (on_mkdir on_open : Outcome)
      → Stores c w entries
      → new_wal on_mkdir on_open w.file_path w.disk ≡ ok w'
      → Holds c w' entries
  unfolding new_wal
  new_wal-Holds w w' entries (some e) on_open h done = cc done
  new_wal-Holds w w' entries none (some e) h done = cc done
  new_wal-Holds w w' entries none none h done =
      let made : Wal = record {
        file_path = w.file_path;
        is_open = true;
        disk = update w.disk w.file_path (some (or_empty (w.disk w.file_path)));
        synced = w.disk;
      } in
      let same : made ≡ w' = cc done in
      subst (λ v. Holds c v entries) same
        (record {
          opened = refl;
          stores = record {
            text = ground (arith, h.text, eq_refl w.file_path);
            storable = h.storable;
          };
        })
