-- ===== src/Wal.antt =====
-- backend/internal/wal/wal.go: the write-ahead log. The file system is a map from paths to texts;
-- every call of the operating system that can fail has an argument saying whether it does, and how
-- much a failed write leaves behind. The JSON form of an entry is the parameter `Codec`. The mutex
-- makes each operation one step, and log lines and durations are left out.
pub mod Contents
pub mod Opening
pub mod Cleanup
pub mod Faults
use digital_square.Base.{
  ℕ, zero, suc, String, ◌<>◌, ◌==◌, ◌≡◌, Bool, true, false, not, ◌||◌, Option, none, some, List, [],
  ◌∷◌, keep, if◌then◌else◌,
}
use digital_square.Errors.{Error, file_closed, Result, ok, err}
use digital_square.Action.{Action, from, modify, ◌>>=◌, ◌>>◌, Outcome, result}
use digital_square.Codec.{Codec}
use digital_square.Models.{Time}
use digital_square.Scanner.{scan_lines, first_chars, IsLine, Scanned}

pub record WalEntry : Type 0 where
  pub message_id : String
  pub user_id : String
  pub content : String
  pub timestamp : Time

abbrev pub Disk : Type 0
Disk = String → Option String

abbrev pub update : Disk → String → Option String → Disk
update disk path text p = if p == path then text else disk p

-- `w.file` is a handle on the file at `file_path`: only `cleanup` renames a file onto that path,
-- after it has closed the handle. `is_open` is false once the handle is closed. `synced` is what a
-- power failure leaves of the files: each as it was when it was last synced.
pub record Wal : Type 0 where
  pub file_path : String
  pub is_open : Bool
  pub disk : Disk
  pub synced : Disk

-- What a power failure leaves.
abbrev pub power_cut : Wal → Wal
power_cut w = record w { disk = w.synced }

-- A read or a write that stops short has handled this many characters before its error.
abbrev pub Stop : Type 0
Stop = Option (ℕ × Error)

pub record ReadFaults : Type 0 where
  pub on_open : Outcome
  pub stop : Stop

pub record WriteFaults : Type 0 where
  pub stop : Stop
  pub on_sync : Outcome

pub record CleanupFaults : Type 0 where
  pub reading : ReadFaults
  pub on_close : Outcome
  pub on_create : Outcome
  pub on_temp : ℕ → Stop
  pub on_temp_sync : Outcome
  pub on_rename : Outcome
  pub on_reopen : Outcome

-- A text goes to the end of the file at a path: all of it, or its first characters.
abbrev or_empty : Option String → String
or_empty none = ""
or_empty (some text) = text

abbrev written : Stop → String → String
written none text = text
written (some (n, e)) text = first_chars n text

abbrev stopped : Stop → Outcome
stopped none = none
stopped (some (n, e)) = some e

append : String → String → Disk → Disk
append path text disk = update disk path (some (or_empty (disk path) <> text))

-- `w.file.WriteString`
write_string : Stop → String → Action Wal (Unit {0})
unfolding append
write_string stop text w =
    if w.is_open
    then (result (stopped stop), record w { disk = append w.file_path (written stop text) w.disk })
    else (err file_closed, w)

-- The file at a path is as safe as it is full, where syncing it works.
synced_at : Outcome → String → Wal → Wal
synced_at none path w = record w { synced = update w.synced path (w.disk path) }
synced_at (some e) path w = w

-- `w.file.Sync`
sync : Outcome → Action Wal (Unit {0})
unfolding synced_at
sync out w = if w.is_open then (result out, synced_at out w.file_path w) else (err file_closed, w)

-- `NewWAL`: the directory is made, and the file opened with `O_CREATE`. What it finds is synced.
unfoldable pub new_wal : Outcome → Outcome → String → Disk → Result Wal
new_wal (some e) on_open path disk = err e
new_wal none (some e) path disk = err e
new_wal none none path disk = ok (record {
  file_path = path;
  is_open = true;
  disk = update disk path (some (or_empty (disk path)));
  synced = disk;
})

pub write : Codec WalEntry → WriteFaults → WalEntry → Action Wal (Unit {0})
unfolding write_string sync
write c f entry = do
  line ← from (λ _. c.marshal entry)
  write_string f.stop (line <> "\n")
  sync f.on_sync

-- The loop of `readAllUnsafe`: a line that does not decode is passed over.
decode_lines : Codec WalEntry → List String → List WalEntry
decode_lines c [] = []
decode_lines c (line ∷ lines) = elim (c.unmarshal line) [
  | none ↦ decode_lines c lines
  | some entry ↦ entry ∷ decode_lines c lines
]

-- `scanner.Err()`: the scanner's own error, or the one that stopped the reading.
abbrev first_error : Outcome → Outcome → Outcome
first_error none e = e
first_error (some t) e = some t

pub decode : Codec WalEntry → Stop → Scanned → List WalEntry × Outcome
unfolding decode_lines
decode c stop (lines, e) = (decode_lines c lines, first_error e (stopped stop))

read_all_unsafe : Codec WalEntry → ReadFaults → Wal → List WalEntry × Outcome
unfolding decode
read_all_unsafe c f w = elim f.on_open [
  | some e ↦ ([], some e)
  | none ↦ elim (w.disk w.file_path) [
    | none ↦ ([], none)
    | some text ↦ decode c f.stop (scan_lines (written f.stop text))
  ]
]

abbrev read_all : Codec WalEntry → ReadFaults → Wal → List WalEntry × Outcome
unfolding read_all_unsafe
read_all c f w = read_all_unsafe c f w

abbrev or_error : List WalEntry × Outcome → Result (List WalEntry)
or_error (entries, none) = ok entries
or_error (entries, some e) = err e

pub get_all_entries : Codec WalEntry → ReadFaults → Wal → Result (List WalEntry)
unfolding read_all_unsafe
get_all_entries c f w = or_error (read_all_unsafe c f w)

unfoldable pub contains : List String → String → Bool
contains [] id = false
contains (x ∷ ids) id = x == id || contains ids id

-- The entries that `Cleanup` leaves in the log.
unfoldable pub remaining : List String → List WalEntry → List WalEntry
remaining ids = keep (λ e. not (contains ids e.message_id))

-- `w.file.Close`: a handle counts as closed also when closing it failed.
pub close : Outcome → Action Wal (Unit {0})
close out w = if w.is_open then (result out, record w { is_open = false }) else (err file_closed, w)

abbrev pub temp_path : Wal → String
temp_path w = w.file_path <> ".tmp"

create_temp : Outcome → Action Wal (Unit {0})
create_temp none w = (ok tt, record w { disk = update w.disk (temp_path w) (some "") })
create_temp (some e) w = (err e, w)

-- What json.Marshal gives where its error is ignored.
abbrev pub encode : Codec WalEntry → WalEntry → String
encode c e = elim (c.marshal e) [ ok line ↦ line | err _ ↦ "" ]

-- The loop that fills the temporary file. Neither of its errors is looked at.
write_temp : Codec WalEntry → (ℕ → Stop) → String → List WalEntry → Disk → Disk
unfolding append
write_temp c stops path [] disk = disk
write_temp c stops path (e ∷ entries) disk =
    write_temp c (λ i. stops (suc i)) path entries
      (append path (written (stops zero) (encode c e <> "\n")) disk)

rename_temp : Outcome → Action Wal (Unit {0})
rename_temp none w =
    let moved = update w.disk w.file_path (w.disk (temp_path w)) in
    let safe = update w.synced w.file_path (w.synced (temp_path w)) in
    (
      ok tt,
      record w { disk = update moved (temp_path w) none; synced = update safe (temp_path w) none },
    )
rename_temp (some e) w = (err e, w)

-- `os.OpenFile` with `O_CREATE`
reopen : Outcome → Action Wal (Unit {0})
reopen none w =
    let text = or_empty (w.disk w.file_path) in
    (ok tt, record w { disk = update w.disk w.file_path (some text); is_open = true })
reopen (some e) w = (err e, w)

pub cleanup : Codec WalEntry → CleanupFaults → List String → Action Wal (Unit {0})
unfolding close create_temp synced_at rename_temp reopen
cleanup c f persisted_ids = do
  entries ← from (get_all_entries c f.reading)
  close f.on_close
  create_temp f.on_create
  modify (λ w. record w {
    disk = write_temp c f.on_temp (temp_path w) (remaining persisted_ids entries) w.disk;
  })
  modify (λ w. synced_at f.on_temp_sync (temp_path w) w)
  rename_temp f.on_rename
  reopen f.on_reopen
