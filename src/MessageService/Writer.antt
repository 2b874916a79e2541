-- ===== src/MessageService/Writer.antt =====
-- `StartBatchWriter` of message_service.go: the loop of its goroutine over what it is woken by.
use digital_square.Base.{
  ℕ, zero, suc, ◌≡◌, refl, ap, subst, ◌∙◌, none, List, [], ◌∷◌, ◌++◌, map, All,
}
use digital_square.Errors.{ok}
use digital_square.Models.{Message}
use digital_square.Wal.{WalEntry, ReadFaults, CleanupFaults}
use digital_square.Wal.Contents.{Holds, no_read_faults, get_all_entries-Stores}
use digital_square.Wal.Cleanup.{no_cleanup_faults}
use digital_square.Repository.{IsMessageTable, AreRowsOf}
use digital_square.MessageService.{
  Parts, State, from_entry, insert_entries, insert_batch, cleanup_batch, process_batch,
}
use digital_square.MessageService.World.{World, Reach, here, next}
use digital_square.MessageService.Ticks.{call, process_batch_moves}
use digital_square.MessageService.Durability.{process_batch-Reach}

-- What the loop waits for: the ticker, with the faults of the round, or the end of its context.
pub data Event : Type 0 where
  tick : ReadFaults → CleanupFaults → Event
  stop : Event

module _ (P : Parts) where
  pub batch_writer : List Event → State P → State P
  batch_writer [] s = s
  batch_writer (tick reading cleaning ∷ events) s =
      batch_writer events (process_batch P reading cleaning s)
  batch_writer (stop ∷ events) s = s

  -- In no round is a line of a new log file cut short, or the file not synced.
  abbrev pub IsWhole : Event → Type 0
  IsWhole (tick reading cleaning) =
      ((i : ℕ) → cleaning.on_temp i ≡ none) × (cleaning.on_temp_sync ≡ none)
  IsWhole stop = Unit

  Reach-trans : {u v w : World P} → Reach P u v → Reach P v w → Reach P u w
  Reach-trans r here = r
  Reach-trans r (next q st) = next (Reach-trans r q) st

  idle_tick :
      (s : State P)
      → Holds P.entry_json s.wal []
      → process_batch P no_read_faults no_cleanup_faults s ≡ s
  unfolding process_batch insert_batch insert_entries cleanup_batch
  idle_tick s h =
      let read = get_all_entries-Stores P.entry_json s.wal [] h.stores in
      rw (read, process_batch) refl

  abbrev pub quiet_ticks : ℕ → List Event
  quiet_ticks zero = []
  quiet_ticks (suc n) = tick no_read_faults no_cleanup_faults ∷ quiet_ticks n

  idle_writer :
      (n : ℕ) (s : State P) → Holds P.entry_json s.wal [] → batch_writer (quiet_ticks n) s ≡ s
  unfolding batch_writer
  idle_writer zero s h = refl
  idle_writer (suc n) s h = ap (batch_writer (quiet_ticks n)) (idle_tick s h) ∙ idle_writer n s h

  module _ (rows : P.table.State → List Message) where
    -- When the batch writer has nothing in hand, its loop over any ticks, up to its end, is a run
    -- of the steps of `World`, whatever the faults, provided that no line of a new log file is cut
    -- short and that the new files are synced.
    pub batch_writer-Reach :
        (events : List Event) (w : World P)
        → w.pending ≡ []
        → All IsWhole events
        → Reach P w (record w { service = batch_writer events w.service; pending = [] })
    unfolding batch_writer
    batch_writer-Reach [] w idle h = subst (λ p. Reach P w (record w { pending = p })) idle here
    batch_writer-Reach (stop ∷ events) w idle h =
        subst (λ p. Reach P w (record w { pending = p })) idle here
    batch_writer-Reach (tick reading cleaning ∷ events) w idle (p, h) =
        let after : World P = record w {
          service = process_batch P reading cleaning w.service;
          pending = [];
        } in
        Reach-trans (process_batch-Reach P rows w reading cleaning idle p.0 p.1)
          (batch_writer-Reach events after refl h)

    -- When the log is open and not empty and the insert works, the first of any number of ticks
    -- without a fault of the disk moves the whole log into the table: one new row for each entry,
    -- in order, with the entry's id and text, the author that its text of an id is parsed to, its
    -- time as the column keeps it, and with no username. The log is empty then, and the later
    -- ticks add no row.
    pub batch_writer_moves :
        (L : IsMessageTable P.table rows) (n : ℕ) (e : WalEntry) (entries : List WalEntry)
        (s : State P)
        → Holds P.entry_json s.wal (e ∷ entries)
        → (call P rows L e entries s).0 ≡ ok tt
        → let s' = batch_writer (quiet_ticks (suc n)) s in
          (new : List Message) × (rows s'.db ≡ rows s.db ++ new)
          × AreRowsOf P.table.column (map (from_entry P) (e ∷ entries)) new
          × All (λ row. row.username ≡ "") new
          × Holds P.entry_json s'.wal []
    unfolding batch_writer
    batch_writer_moves L n e entries s h done =
        let (new, effect, are, names, empty) = process_batch_moves P rows L e entries s h done in
        let idle = idle_writer n (process_batch P no_read_faults no_cleanup_faults s) empty in
        rw idle (new, effect, are, names, empty)
