-- ===== src/Tests/ServiceRuns.antt =====
-- The theorems of the message service on concrete inputs.
use digital_square.Base.{
  ◌≡◌, ◌≢◌, ◌⊎◌, inl, refl, true, false, List, [], ◌∷◌, ◌++◌, map, All, Has, arith, ◌=?◌, ◌&&◌,
  if◌then◌else◌,
}
use digital_square.Errors.{ok}
use digital_square.Models.{Message}
use digital_square.Html.{NoMarkup}
use digital_square.Wal.{power_cut, WalEntry, get_all_entries}
use digital_square.Wal.Contents.{Holds, no_read_faults, no_write_faults}
use digital_square.Wal.Cleanup.{no_cleanup_faults}
use digital_square.Repository
use digital_square.Repository.{AreRowsOf, delete_row, is_visible}
use digital_square.MessageService.{
  State, caching, wal_entry, from_entry, send_message, insert_batch, process_batch, delete_message,
  mark_cached,
}
use digital_square.MessageService.Send.{send_message_logged, send_message_accepts}
use digital_square.MessageService.Delete.{
  deletion, delete_message_allowed, delete_message_fails, delete_message_refuses,
}
use digital_square.MessageService.World.{World, ack, send, insert, crash, Reach, here, next}
use digital_square.MessageService.Refused.{unmarked}
use digital_square.MessageService.Stuck.{IsStuck, after_crash, crash_blocks}
use digital_square.MessageService.Writer.{
  tick, stop, batch_writer, quiet_ticks, batch_writer-Reach, batch_writer_moves,
}
use digital_square.MessageService.Durability.{IsSafe, acked_survive, process_batch-Reach}
use digital_square.Tests.Table.{memory_table-IsMessageTable}
use digital_square.Tests.Samples.{
  parts-IsUuidText, empty_log-Survives, first_entry, second_entry, entry_json, full_log,
  empty_log-Holds, full_log-Holds, parts, empty_state, hello, hello-IsStorable,
}

abbrev both : List WalEntry
both = first_entry ∷ second_entry ∷ []

send_message_logged_example :
    let s' = (send_message parts 1 5 no_write_faults 7 "ann" "hello" empty_state).1 in
    Holds entry_json s'.wal ([] ++ wal_entry parts hello ∷ [])
    × (s'.spawned ≡ caching hello ∷ [])
    × NoMarkup hello.content
    × (s'.cache ≡ empty_state.cache)
    × (s'.db ≡ empty_state.db)
send_message_logged_example =
    send_message_logged parts 1 5 no_write_faults 7 "ann" "hello" empty_state [] hello
      empty_log-Holds hello-IsStorable
      (send_message_accepts parts 1 5 7 "ann" "hello" empty_state [] (omega arith) (omega arith)
        empty_log-Holds hello-IsStorable)

-- A table with one message of the user 7.
abbrev row : Message
row = record hello { id = 1 }

abbrev with_row : State parts
with_row = record empty_state { db = row ∷ [] }

is_deleted : (delete_message parts 9 "m1" 8 true with_row).0 ≡ ok tt
unfolding delete_message mark_cached Repository.get_by_message_id Repository.soft_delete_message
is_deleted = refl

delete_message_allowed_example :
    (msg : Message) × (Has
      (λ r. (r ≡ msg) × (r.message_id ≡ "m1") × (r.deleted_at.valid ≡ false))
      with_row.db)
    × ((true ≡ true) ⊎ (msg.user_id ≡ 8))
    × ((delete_message parts 9 "m1" 8 true with_row).1.db
        ≡ map
            (λ r.
              if r.id =? msg.id && is_visible r
              then delete_row (deletion parts.table 9 8 true) r
              else r)
            with_row.db)
delete_message_allowed_example =
    delete_message_allowed parts (λ rows. rows) memory_table-IsMessageTable 9 "m1" 8 true with_row
      is_deleted

is_refused : (delete_message parts 9 "m1" 8 false with_row).0 ≢ ok tt
is_refused done = cc (
  done,
  delete_message_refuses parts (λ rows. rows) memory_table-IsMessageTable 9 "m1" 8 false with_row
      row refl refl (omega arith),
)

delete_message_fails_example :
    let run = delete_message parts 9 "m1" 8 false with_row in
    (run.1.db ≡ with_row.db) × (run.1.cache ≡ with_row.cache) × (run.1.wal ≡ with_row.wal)
delete_message_fails_example =
    delete_message_fails parts (λ rows. rows) memory_table-IsMessageTable 9 "m1" 8 false with_row
      is_refused

abbrev full_state : State parts
full_state = record empty_state { wal = full_log }

abbrev start : World parts
start = record { service = empty_state; acked = []; issued = []; pending = [] }

-- A client sends "hello", a tick of the batch writer inserts it, and the process crashes before the
-- cleanup.
abbrev sent : World parts
sent = record start {
  service = (send_message parts 1 5 no_write_faults 7 "ann" "hello" empty_state).1;
  acked = ack parts (send_message parts 1 5 no_write_faults 7 "ann" "hello" empty_state).0 [];
  issued = "m1" ∷ [];
}

abbrev crashed : World parts
crashed =
    let s = (insert_batch parts no_read_faults sent.service).1 in
    record sent { service = record s { wal = record s.wal { is_open = true }; spawned = [] } }

to_crashed : Reach parts start crashed
to_crashed =
    next
      (next (next here (send 1 5 no_write_faults 7 "ann" "hello" tt hello-IsStorable (inl refl)))
        (insert no_read_faults refl))
      crash

acked_survive_example :
    let safe = IsSafe parts (λ rows. rows) memory_table-IsMessageTable in
    let wal = crashed.service.wal in
    ((entries : List WalEntry) × (get_all_entries entry_json no_read_faults wal ≡ ok entries)
      × All (safe entries crashed.service.db) crashed.acked)
    × ((synced : List WalEntry) × (get_all_entries entry_json no_read_faults (power_cut wal)
          ≡ ok synced)
        × All (safe synced crashed.service.db) crashed.acked)
acked_survive_example =
    acked_survive parts (λ rows. rows) memory_table-IsMessageTable start crashed parts-IsUuidText
      (record {
        empty = empty_log-Holds.stores;
        safe = empty_log-Survives;
        nothing_acked = refl;
        nothing_pending = refl;
      })
      to_crashed

batch_writer-Reach_example :
    Reach parts
      (record start { service = full_state })
      (record start {
        service = batch_writer parts (tick no_read_faults no_cleanup_faults ∷ stop ∷ []) full_state;
      })
batch_writer-Reach_example =
    batch_writer-Reach parts (λ rows. rows) (tick no_read_faults no_cleanup_faults ∷ stop ∷ [])
      (record start { service = full_state }) refl (((λ i. refl), refl), (tt, tt))

batch_writer_moves_example :
    let s' = batch_writer parts (quiet_ticks parts 4) full_state in
    (new : List Message) × (s'.db ≡ [] ++ new)
    × AreRowsOf parts.table.column (map (from_entry parts) both) new
    × All (λ r. r.username ≡ "") new
    × Holds entry_json s'.wal []
batch_writer_moves_example =
    batch_writer_moves parts (λ rows. rows) memory_table-IsMessageTable 3 first_entry
      (second_entry ∷ []) full_state full_log-Holds refl

-- A crash after the insert, and then a tick.
abbrev stuck : World parts
stuck =
    after_crash parts (λ rows. rows) memory_table-IsMessageTable
      (record start { service = full_state })

abbrev still_stuck : World parts
still_stuck = record stuck {
  service = process_batch parts no_read_faults no_cleanup_faults stuck.service;
  pending = [];
}

crash_blocks_example :
    IsStuck parts (λ rows. rows) memory_table-IsMessageTable "m1" still_stuck
    × (map unmarked still_stuck.service.db ≡ map unmarked stuck.service.db)
crash_blocks_example =
    crash_blocks parts (λ rows. rows) memory_table-IsMessageTable
      (record start { service = full_state }) still_stuck first_entry (second_entry ∷ [])
      full_log-Holds.stores refl
      (process_batch-Reach parts (λ rows. rows) stuck no_read_faults no_cleanup_faults refl
        (λ i. refl) refl)
