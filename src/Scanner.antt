-- ===== src/Scanner.antt =====
-- bufio.Scanner with its default split function and buffer, as `readAllUnsafe` uses it.
use text.Mathlib.TextLemmas
use text.Mathlib.TextLemmas.{nil-append, cons-append, append-nil}
use digital_square.Base.{
  ℕ, zero, suc, ◌<◌, ◌≡◌, ◌≢◌, refl, Char, code, String, ◌<>◌, ◌==◌, len, List, [], ◌∷◌, Option,
  none, some, arith, sym, ◌∙◌, ltb, ◌=?◌, if◌then◌else◌,
}
use digital_square.Errors.{Error, token_too_long}

-- bufio.MaxScanTokenSize, in bytes
abbrev max_scan_token_size : ℕ
max_scan_token_size = 65536

-- The first characters of a text: what a write or a read that stops short has handled.
unfoldable pub first_chars : ℕ → String → String
first_chars zero s = ""
first_chars (suc n) String.[] = ""
first_chars (suc n) (String.◌∷◌ c s) = String.◌∷◌ c (first_chars n s)

pub first_chars-zero : (s : String) → first_chars zero s ≡ ""
unfolding first_chars
first_chars-zero s = refl

-- dropCR, which removes one carriage return from the end of a line
unfoldable pub drop_cr : String → String
drop_cr String.[] = ""
drop_cr (String.◌∷◌ c String.[]) = if code c =? 13 then "" else String.◌∷◌ c ""
drop_cr (String.◌∷◌ c (String.◌∷◌ d s)) = String.◌∷◌ c (drop_cr (String.◌∷◌ d s))

-- The lines that `Scan` delivers, and what `Err` returns when it has stopped.
abbrev pub Scanned : Type 0
Scanned = List String × Option Error

-- A line that does not fit into the buffer stops the scanner.
abbrev emit : String → Scanned → Scanned
emit line rest =
    if ltb (len line) max_scan_token_size
    then (drop_cr line ∷ rest.0, rest.1)
    else ([], some token_too_long)

scan_from : String → String → Scanned
scan_from line String.[] = if line == "" then ([], none) else emit line ([], none)
scan_from line (String.◌∷◌ c s) =
    let next = scan_from "" s in
    let longer = scan_from (line <> String.◌∷◌ c "") s in
    if code c =? 10 then emit line next else longer

pub scan_lines : String → Scanned
unfolding scan_from drop_cr
scan_lines s = scan_from "" s

abbrev NoNewline : String → Type 0
NoNewline String.[] = Unit
NoNewline (String.◌∷◌ c s) = (code c ≢ 10) × NoNewline s

-- A text that the scanner delivers as one line, unchanged.
pub record IsLine (line : String) : Type 0 where
  pub no_newline : NoNewline line
  pub no_return : drop_cr line ≡ line
  pub fits : len line < max_scan_token_size

-- Taking one character over from the text that is left.
shift_char :
    (before : String) (c : Char) (line : String)
    → (before <> String.◌∷◌ c "") <> line ≡ before <> String.◌∷◌ c line
shift_char before c line = simp (TextLemmas.append_assoc, cons-append, nil-append)

newline-append : (s : String) → "\n" <> s ≡ String.◌∷◌ "\n" s
newline-append s = rw cons-append (rw nil-append)

scan_from-line :
    (before line rest whole : String)
    → before <> line ≡ whole
    → NoNewline line
    → drop_cr whole ≡ whole
    → len whole < max_scan_token_size
    → scan_from before (line <> ("\n" <> rest))
      ≡ (whole ∷ (scan_from "" rest).0, (scan_from "" rest).1)
unfolding scan_from
scan_from-line before String.[] rest whole e h r f =
    let same : before ≡ whole = sym (append-nil before) ∙ e in
    simp (nil-append, newline-append, same) (ground (arith, r))
scan_from-line before (String.◌∷◌ c line) rest whole e (p, h) r f =
    let ih =
      scan_from-line (before <> String.◌∷◌ c "") line rest whole (shift_char before c line ∙ e) h r
        f in
    simp cons-append (ground (arith, ih))

-- A line that the scanner can hold comes out first, and the rest of the file after it.
pub scan_lines-line :
    (line rest : String)
    → IsLine line
    → scan_lines (line <> ("\n" <> rest)) ≡ (line ∷ (scan_lines rest).0, (scan_lines rest).1)
unfolding scan_lines
scan_lines-line line rest h =
    scan_from-line "" line rest line (nil-append line) h.no_newline h.no_return h.fits

pub scan_lines_empty : scan_lines "" ≡ ([], none)
unfolding scan_lines
scan_lines_empty = refl
