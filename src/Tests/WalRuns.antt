-- ===== src/Tests/WalRuns.antt =====
-- The theorems of the log, the scanner and the escaping on concrete inputs.
use digital_square.Base.{◌<>◌, ◌≡◌, ◌⊎◌, refl, false, none, some, List, [], ◌∷◌, ◌++◌, arith}
use digital_square.Errors.{external, ok, err}
use digital_square.Scanner.{IsLine, first_chars, drop_cr}
use digital_square.Wal.{
  Wal, WalEntry, CleanupFaults, write, cleanup, remaining, get_all_entries, encode,
}
use digital_square.Wal.Contents.{
  Holds, render, no_read_faults, no_write_faults, write-Holds, write_succeeds,
}
use digital_square.Wal.Cleanup.{cleanup_atomic, no_cleanup_faults}
use digital_square.Wal.Faults.{cleanup_closes, cleanup_loses_all, torn_write_hides_next}
use digital_square.Tests.Samples.{
  first_entry, second_entry, first_entry-IsStorable, second_entry-IsStorable, entry_json, full_log,
  full_log-Holds,
}

abbrev both : List WalEntry
both = first_entry ∷ second_entry ∷ []

write-Holds_example :
    Holds entry_json
      (write entry_json no_write_faults second_entry full_log).1
      (both ++ second_entry ∷ [])
write-Holds_example =
    write-Holds entry_json full_log no_write_faults both second_entry full_log-Holds
      second_entry-IsStorable
      (write_succeeds entry_json full_log both second_entry full_log-Holds second_entry-IsStorable)

abbrev rename_fails : CleanupFaults
rename_fails = record no_cleanup_faults { on_rename = some (external "EIO") }

cleanup_atomic_example :
    let w' = (cleanup entry_json rename_fails ("m1" ∷ []) full_log).1 in
    (w'.disk w'.file_path ≡ some (render entry_json both))
    ⊎ (w'.disk w'.file_path ≡ some (render entry_json (remaining ("m1" ∷ []) both)))
cleanup_atomic_example =
    cleanup_atomic entry_json full_log rename_fails ("m1" ∷ []) both full_log-Holds.stores
      (λ i. refl)

abbrev closed_log : Wal
closed_log = record full_log { is_open = false }

abbrev create_fails : CleanupFaults
create_fails = record no_cleanup_faults { on_create = some (external "ENOSPC") }

cleanup_closes_example :
    let (r, w') = cleanup entry_json create_fails ("m1" ∷ []) full_log in
    (r ≡ err (external "ENOSPC")) × (w'.is_open ≡ false)
cleanup_closes_example =
    cleanup_closes entry_json full_log create_fails ("m1" ∷ []) both (external "ENOSPC")
      full_log-Holds refl refl refl

abbrev temp_fails : CleanupFaults
temp_fails = record no_cleanup_faults { on_temp = λ i. some (0, external "ENOSPC") }

cleanup_loses_all_example :
    ((cleanup entry_json temp_fails ("m1" ∷ []) full_log).0 ≡ ok tt)
    × Holds entry_json (cleanup entry_json temp_fails ("m1" ∷ []) full_log).1 []
cleanup_loses_all_example =
    cleanup_loses_all entry_json full_log temp_fails ("m1" ∷ []) both (external "ENOSPC")
      full_log-Holds refl refl refl (λ i. refl) refl refl

first_chars_test : first_chars 1 (encode entry_json first_entry <> "\n") ≡ "m"
unfolding first_chars
first_chars_test = refl

fragment-IsLine : IsLine ("m" <> encode entry_json second_entry)
unfolding drop_cr
fragment-IsLine = record {
  no_newline = (omega arith, (omega arith, (omega arith, tt)));
  no_return = refl;
  fits = omega arith;
}

torn_write_hides_next_example :
    let torn =
      (write entry_json
        (record { stop = some (1, external "ENOSPC"); on_sync = none })
        first_entry
        full_log).1 in
    let (r, w') = write entry_json no_write_faults second_entry torn in
    (r ≡ ok tt) × (get_all_entries entry_json no_read_faults w' ≡ ok both)
torn_write_hides_next_example =
    torn_write_hides_next entry_json full_log both first_entry second_entry 1 (external "ENOSPC")
      "m" full_log-Holds first_entry-IsStorable second_entry-IsStorable first_chars_test
      fragment-IsLine refl
