-- ===== src/Wal/Faults.antt =====
-- What the faults of single system calls do to the log of wal.go.
use mathlib.Core.List
use text.Mathlib.TextLemmas
use text.Mathlib.TextLemmas.{append-nil, nil-append}
use digital_square.Base.{
  ℕ, suc, String, ◌<>◌, ◌≡◌, ◌≢◌, refl, ap, sym, ◌∙◌, false, none, some, List, [], ◌∷◌, All, arith,
  eq_refl,
}
use digital_square.Codec.{Codec}
use digital_square.Errors.{Error, Result, ok, err}
use digital_square.Scanner.{
  IsLine, first_chars, first_chars-zero, scan_lines, scan_lines-line, scan_lines_empty,
}
use digital_square.Wal.{
  WalEntry, Wal, Disk, Stop, WriteFaults, CleanupFaults, encode, write, cleanup, decode,
  decode_lines, remaining, get_all_entries, write_temp, append, temp_path, update,
}
use digital_square.Wal.Contents.{
  IsStorable, Holds, render, no_read_faults, no_write_faults, get_all_entries-Stores,
  get_all_entries_text, decode-render,
}
use digital_square.Wal.Cleanup.{temp_path-ne, temp_path-ne_sym}

-- The two operations of the program that change the log, with the faults that they meet.
pub data Operation : Type 0 where
  writing : WriteFaults → WalEntry → Operation
  cleaning : CleanupFaults → List String → Operation

perform : Codec WalEntry → Operation → Wal → Result (Unit {0}) × Wal
perform c (writing f e) w = write c f e w
perform c (cleaning f ids) w = cleanup c f ids w

-- The results of a run of operations, and the log after it.
perform_all : Codec WalEntry → List Operation → Wal → List (Result (Unit {0})) × Wal
unfolding perform
perform_all c [] w = ([], w)
perform_all c (o ∷ ops) w =
    let (r, w') = perform c o w in let (rs, w'') = perform_all c ops w' in (r ∷ rs, w'')

abbrev pub Failed : Result (Unit {0}) → Type 0
Failed r = r ≢ ok tt

module _ (c : Codec WalEntry) where
  closed-perform :
      (o : Operation) (w : Wal)
      → w.is_open ≡ false
      → Failed (perform c o w).0 × ((perform c o w).1 ≡ w)
  unfolding perform write cleanup
  closed-perform (writing f e) w h = (ground arith, ground arith)
  closed-perform (cleaning f ids) w h = (ground arith, ground arith)

  -- Once its handle is closed, the log accepts nothing: every later write and every later cleanup
  -- fails and changes nothing.
  closed_forever :
      (ops : List Operation) (w : Wal)
      → w.is_open ≡ false
      → All Failed (perform_all c ops w).0 × ((perform_all c ops w).1 ≡ w)
  unfolding perform_all
  closed_forever [] w h = (tt, refl)
  closed_forever (o ∷ ops) w h =
      let (failed, same) = closed-perform o w h in
      let (rest, kept) = closed_forever ops (perform c o w).1 (rw same h) in
      ((failed, rest), kept ∙ same)

  -- A cleanup of an open log that can read and close it but cannot create its temporary file
  -- returns the error and leaves the handle closed.
  pub cleanup_closes :
      (w : Wal) (f : CleanupFaults) (ids : List String) (entries : List WalEntry) (e : Error)
      → Holds c w entries
      → f.reading ≡ no_read_faults
      → f.on_close ≡ none
      → f.on_create ≡ some e
      → ((cleanup c f ids w).0 ≡ err e) × ((cleanup c f ids w).1.is_open ≡ false)
  unfolding cleanup
  cleanup_closes w f ids entries e h readable closes fails =
      ground (arith, h.opened, readable, get_all_entries-Stores c w entries h.stores)

module _ (c : Codec WalEntry) (path : String) where
  write_temp_nothing :
      (stops : ℕ → Stop) (entries : List WalEntry) (disk : Disk) (text : String) (e : Error)
      → ((i : ℕ) → stops i ≡ some (0, e))
      → disk path ≡ some text
      → write_temp c stops path entries disk path ≡ some text
  unfolding write_temp append
  write_temp_nothing stops [] disk text e none_written h = h
  write_temp_nothing stops (x ∷ entries) disk text e none_written h =
      write_temp_nothing (λ i. stops (suc i)) entries _ text e (λ i. none_written (suc i))
        (ground (
          arith,
          none_written 0,
          eq_refl path,
          h,
          append-nil text,
          first_chars-zero (encode c x <> "\n"),
        ))

module _ (c : Codec WalEntry) where
  -- The loop of `cleanup` that fills the temporary file ignores its errors: where none of its
  -- writes puts anything there and no other call fails, the cleanup of an open log succeeds and
  -- the log is empty, whatever it held and whatever was persisted.
  pub cleanup_loses_all :
      (w : Wal) (f : CleanupFaults) (ids : List String) (entries : List WalEntry) (e : Error)
      → Holds c w entries
      → f.reading ≡ no_read_faults
      → f.on_close ≡ none
      → f.on_create ≡ none
      → ((i : ℕ) → f.on_temp i ≡ some (0, e))
      → f.on_rename ≡ none
      → f.on_reopen ≡ none
      → ((cleanup c f ids w).0 ≡ ok tt) × Holds c (cleanup c f ids w).1 []
  unfolding cleanup render
  cleanup_loses_all w f ids entries e h readable closes creates nothing renames reopens =
      let emptied =
        write_temp_nothing c (temp_path w) f.on_temp (remaining ids entries)
          (update w.disk (temp_path w) (some "")) "" e nothing
          (ground (arith, eq_refl (temp_path w))) in
      let read = get_all_entries-Stores c w entries h.stores in
      (
        ground (arith, readable, read, h.opened),
        record {
          opened = ground (arith, readable, read, h.opened);
          stores = record {
            text = ground (
              arith,
              readable,
              read,
              h.opened,
              emptied,
              temp_path-ne w,
              temp_path-ne_sym w,
              eq_refl w.file_path,
            );
            storable = tt;
          };
        },
      )

-- A log whose file goes on after its entries with a fragment of a line.
module _ (c : Codec WalEntry) where
  read_fragment :
      (entries : List WalEntry) (next : WalEntry) (fragment : String)
      → All (IsStorable c) entries
      → IsLine (fragment <> encode c next)
      → c.unmarshal (fragment <> encode c next) ≡ none
      → decode c none (scan_lines ((render c entries <> fragment) <> (encode c next <> "\n")))
        ≡ (entries, none)
  unfolding decode decode_lines
  read_fragment entries next fragment h line broken =
      let last : scan_lines (fragment <> (encode c next <> "\n"))
          ≡ ((fragment <> encode c next) ∷ (scan_lines "").0, (scan_lines "").1) =
        ap scan_lines (sym (TextLemmas.append_assoc fragment (encode c next) "\n"))
        ∙ scan_lines-line (fragment <> encode c next) "" line in
      let split = decode-render c entries (fragment <> (encode c next <> "\n")) h in
      rw TextLemmas.append_assoc
        (ground (arith, split, last, broken, scan_lines_empty, List.append-nil entries))

  -- A write that stops inside its line leaves a fragment in the file. The next write succeeds, and
  -- its line is read together with the fragment: where that is a line that does not decode, only
  -- the entries from before the two writes are read back.
  pub torn_write_hides_next :
      (w : Wal) (entries : List WalEntry) (e next : WalEntry) (n : ℕ) (t : Error)
      (fragment : String)
      → Holds c w entries
      → IsStorable c e
      → IsStorable c next
      → first_chars n (encode c e <> "\n") ≡ fragment
      → IsLine (fragment <> encode c next)
      → c.unmarshal (fragment <> encode c next) ≡ none
      → let torn = (write c (record { stop = some (n, t); on_sync = none }) e w).1 in
        let (r, w') = write c no_write_faults next torn in
        (r ≡ ok tt) × (get_all_entries c no_read_faults w' ≡ ok entries)
  unfolding write
  torn_write_hides_next w entries e next n t fragment h se sn cut line broken = (
    ground (arith, h.opened, se.marshalled, sn.marshalled),
    get_all_entries_text c _ _ entries
        (ground (arith, h.opened, h.text, se.marshalled, sn.marshalled, cut, eq_refl w.file_path))
        (read_fragment entries next fragment h.storable line broken),
  )
