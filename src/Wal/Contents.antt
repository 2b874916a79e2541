-- ===== src/Wal/Contents.antt =====
-- The log as a list of entries: what the file of an undamaged log holds, and how `write` and the
-- two reading operations of wal.go act on that list.
use text.Mathlib.TextLemmas
use text.Mathlib.TextLemmas.{nil-append, cons-append, append-nil}
use mathlib.Core.List
use digital_square.Base.{
  ap, ◌∙◌, ℕ, String, ◌<>◌, ◌≡◌, ◌≢◌, subst, sym, ◌⊎◌, inl, inr, refl, true, false, Bool-cases,
  Option-cases, none, some, List, [], ◌∷◌, ◌++◌, All, All-append, arith, eq_refl,
}
use digital_square.Codec.{Codec}
use digital_square.Errors.{Error, ok, err}
use digital_square.Action.{Outcome}
use digital_square.Scanner.{
  IsLine, Scanned, first_chars, first_chars-zero, scan_lines, scan_lines-line, scan_lines_empty,
}
use digital_square.Wal.{
  WalEntry, Wal, Stop, or_error, ReadFaults, WriteFaults, encode, write, decode, decode_lines,
  read_all_unsafe, get_all_entries, synced_at, power_cut,
}

-- An entry whose JSON is one line that the scanner can hold, and that reads back as the entry.
pub record IsStorable (c : Codec WalEntry) (e : WalEntry) : Type 0 where
  pub marshalled : c.marshal e ≡ ok (encode c e)
  pub is_line : IsLine (encode c e)
  pub reads_back : c.unmarshal (encode c e) ≡ some e

-- The text of a log: each entry on its line.
unfoldable pub render : Codec WalEntry → List WalEntry → String
render c [] = ""
render c (e ∷ entries) = encode c e <> ("\n" <> render c entries)

-- The file of the log holds exactly these entries.
pub record Stores (c : Codec WalEntry) (w : Wal) (entries : List WalEntry) : Type 0 where
  pub text : w.disk w.file_path ≡ some (render c entries)
  pub storable : All (IsStorable c) entries

pub Stores-same :
    (c : Codec WalEntry) (w w' : Wal)
    → w' ≡ w
    → (entries : List WalEntry) → Stores c w entries
    → Stores c w' entries
Stores-same c w w' same entries h = subst (λ v. Stores c v entries) (sym same) h

-- And the log is open.
pub record Holds (c : Codec WalEntry) (w : Wal) (entries : List WalEntry) : Type 0 where
  pub opened : w.is_open ≡ true
  pub stores : Stores c w entries
  pub open stores use *

abbrev pub no_read_faults : ReadFaults
no_read_faults = record { on_open = none; stop = none }

abbrev pub no_write_faults : WriteFaults
no_write_faults = record { stop = none; on_sync = none }

-- A write is all there or not at all: what is short of a line is empty.
abbrev pub IsWhole : WriteFaults → Type 0
IsWhole f = (f.stop ≡ none) ⊎ ((e : Error) × (f.stop ≡ some (0, e)))

module _ (c : Codec WalEntry) where
  -- The entries come out in front of whatever follows them in the file.
  pub decode-render :
      (entries : List WalEntry) (tail : String)
      → All (IsStorable c) entries
      → decode c none (scan_lines (render c entries <> tail))
        ≡ (entries ++ (decode c none (scan_lines tail)).0, (decode c none (scan_lines tail)).1)
  unfolding decode decode_lines render
  decode-render [] tail h = rw nil-append refl
  decode-render (e ∷ entries) tail (s, h) = simp TextLemmas.append_assoc (
      rw (scan_lines-line _ _ s.is_line)
        (ground (arith, s.reads_back, decode-render entries tail h)))

  decode-render-All :
      (entries : List WalEntry)
      → All (IsStorable c) entries
      → decode c none (scan_lines (render c entries)) ≡ (entries, none)
  unfolding decode decode_lines
  decode-render-All entries h =
      let all : scan_lines (render c entries <> "") ≡ scan_lines (render c entries) =
        ap scan_lines (append-nil (render c entries)) in
      ground (arith, all, decode-render entries "" h, scan_lines_empty, List.append-nil entries)

  pub get_all_entries_text :
      (w : Wal) (text : String) (entries : List WalEntry)
      → w.disk w.file_path ≡ some text
      → decode c none (scan_lines text) ≡ (entries, none)
      → get_all_entries c no_read_faults w ≡ ok entries
  unfolding get_all_entries read_all_unsafe
  get_all_entries_text w text entries h d = rw h (ground (arith, d))

  -- What a reader gets that meets no fault is what the log holds.
  pub get_all_entries-Stores :
      (w : Wal) (entries : List WalEntry)
      → Stores c w entries
      → get_all_entries c no_read_faults w ≡ ok entries
  get_all_entries-Stores w entries h =
      get_all_entries_text w (render c entries) entries h.text
        (decode-render-All entries h.storable)

  decode-short :
      (n : ℕ) (e : Error) (s : Scanned)
      → (t : Error) × (or_error (decode c (some (n, e)) s) ≡ err t)
  unfolding decode
  decode-short n e (lines, none) = (e, refl)
  decode-short n e (lines, some t) = (t, refl)

  module _ (w : Wal) (entries : List WalEntry) (h : Stores c w entries) where
    reading_cases :
        (out : Outcome) (stop : Stop)
        → (get_all_entries c (record { on_open = out; stop = stop }) w ≡ ok entries)
          ⊎ ((t : Error) × (get_all_entries c (record { on_open = out; stop = stop }) w ≡ err t))
    unfolding get_all_entries read_all_unsafe
    reading_cases (some e) stop = inr (e, refl)
    reading_cases none none = inl (get_all_entries-Stores w entries h)
    reading_cases none (some (n, e)) =
        let (t, failed) = decode-short n e (scan_lines (first_chars n (render c entries))) in
        inr (t, ground (arith, h.text, failed))

    -- Reading an undamaged log either fails or gives exactly its entries, whatever the faults.
    pub get_all_entries_cases :
        (f : ReadFaults)
        → (get_all_entries c f w ≡ ok entries) ⊎ ((t : Error) × (get_all_entries c f w ≡ err t))
    get_all_entries_cases f = reading_cases f.on_open f.stop

  render-append : (xs ys : List WalEntry) → render c (xs ++ ys) ≡ render c xs <> render c ys
  unfolding render
  render-append [] ys = rw nil-append
  render-append (e ∷ xs) ys = simp (render-append xs ys, TextLemmas.append_assoc)

  render-one : (e : WalEntry) → render c (e ∷ []) ≡ encode c e <> "\n"
  unfolding render
  render-one e = rw append-nil

  -- A write to an open log that succeeds has put its entry, if it can be stored, at the end of the
  -- log.
  pub write-Holds :
      (w : Wal) (f : WriteFaults) (entries : List WalEntry) (e : WalEntry)
      → Holds c w entries
      → IsStorable c e
      → (write c f e w).0 ≡ ok tt
      → Holds c (write c f e w).1 (entries ++ e ∷ [])
  unfolding write
  write-Holds w f entries e h s done = record {
    opened = ground (arith, h.opened, s.marshalled);
    stores = record {
      text = ground (
        arith,
        h.opened,
        h.text,
        s.marshalled,
        eq_refl w.file_path,
        render-append entries (e ∷ []),
        render-one e,
      );
      storable = All-append (IsStorable c) entries (e ∷ []) h.storable (s, tt);
    };
  }

  write_failed :
      (w : Wal) (f : WriteFaults) (entries : List WalEntry) (e : WalEntry) (t : Error)
      → Stores c w entries
      → f.stop ≡ some (0, t)
      → ((write c f e w).0 ≢ ok tt)
        × ((write c f e w).1.disk (write c f e w).1.file_path ≡ some (render c entries))
  unfolding write
  write_failed w f entries e t h stop =
      let nothing = first_chars-zero (encode c e <> "\n") in
      (
        ground arith,
        ground (arith, h.text, nothing, append-nil (render c entries), eq_refl w.file_path),
      )

  write_whole :
      (w : Wal) (f : WriteFaults) (entries : List WalEntry) (e : WalEntry)
      → Stores c w entries
      → IsStorable c e
      → f.stop ≡ none
      → w.is_open ≡ true
      → (write c f e w).1.disk (write c f e w).1.file_path ≡ some (render c (entries ++ e ∷ []))
  unfolding write
  write_whole w f entries e h s stop opened = ground (
    arith,
    h.text,
    s.marshalled,
    eq_refl w.file_path,
    render-append entries (e ∷ []),
    render-one e,
  )

  write_closed :
      (w : Wal) (f : WriteFaults) (e : WalEntry)
      → w.is_open ≡ false
      → ((write c f e w).0 ≢ ok tt) × ((write c f e w).1 ≡ w)
  unfolding write
  write_closed w f e closed = (ground arith, ground arith)

  -- A write that meets no fault succeeds.
  pub write_succeeds :
      (w : Wal) (entries : List WalEntry) (e : WalEntry)
      → Holds c w entries
      → IsStorable c e
      → (write c no_write_faults e w).0 ≡ ok tt
  unfolding write
  write_succeeds w entries e h s = ground (arith, h.opened, s.marshalled)

  -- Whatever happens to a whole write, the log has the entry at its end or is as it was; in the
  -- second case the write has failed.
  pub write_cases :
      (w : Wal) (f : WriteFaults) (entries : List WalEntry) (e : WalEntry)
      → Stores c w entries
      → IsStorable c e
      → IsWhole f
      → Stores c (write c f e w).1 (entries ++ e ∷ [])
        ⊎ (Stores c (write c f e w).1 entries × ((write c f e w).0 ≢ ok tt))
  write_cases w f entries e h s (inr (t, stop)) =
      let (failed, text) = write_failed w f entries e t h stop in
      inr (record { text = text; storable = h.storable }, failed)
  write_cases w f entries e h s (inl stop) = elim (Bool-cases w.is_open) [
    | inr closed ↦ let (failed, same) = write_closed w f e closed in inr (rw same h, failed)
    | inl opened ↦ inl (record {
      text = write_whole w f entries e h s stop opened;
      storable = All-append (IsStorable c) entries (e ∷ []) h.storable (s, tt);
    })
  ]

  -- A write that succeeds has synced what is in the file; one that fails has synced nothing.
  pub write_synced :
      (w : Wal) (f : WriteFaults) (e : WalEntry)
      → (write c f e w).0 ≡ ok tt
      → let w' = (write c f e w).1 in w'.synced w'.file_path ≡ w'.disk w'.file_path
  unfolding write synced_at
  write_synced w f e done = elim (Option-cases f.on_sync) [
    | inl works ↦ ground (arith, works, done, eq_refl w.file_path)
    | inr (t, fails) ↦ ground (arith, fails, done)
  ]

  pub write_unsynced :
      (w : Wal) (f : WriteFaults) (e : WalEntry) (t : Error)
      → (write c f e w).0 ≡ err t
      → let w' = (write c f e w).1 in w'.synced w'.file_path ≡ w.synced w.file_path
  unfolding write synced_at
  write_unsynced w f e t failed = elim (Option-cases f.on_sync) [
    | inl works ↦ ground (arith, works, failed)
    | inr (t', fails) ↦ ground (arith, fails, failed)
  ]

  -- What a power failure leaves of the log holds exactly these entries.
  abbrev pub Survives : Wal → List WalEntry → Type 0
  Survives w entries = Stores c (power_cut w) entries

  pub Survives-same :
      (w w' : Wal) (entries : List WalEntry)
      → w'.synced w'.file_path ≡ w.synced w.file_path
      → Survives w entries
      → Survives w' entries
  Survives-same w w' entries same h = record { text = same ∙ h.text; storable = h.storable }

  pub Stores-Survives :
      (w : Wal) (entries : List WalEntry)
      → w.synced w.file_path ≡ w.disk w.file_path
      → Stores c w entries
      → Survives w entries
  Stores-Survives w entries same h = record { text = same ∙ h.text; storable = h.storable }
