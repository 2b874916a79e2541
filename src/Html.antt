-- ===== src/Html.antt =====
-- html.EscapeString of Go's standard library, which `SendMessage` of
-- backend/internal/service/message_service.go applies to every message.
use text.Mathlib.TextLemmas.{nil-append, cons-append}
use text.Mathlib.TextPositions.{len-append, len_utf8-pos}
use Prim.Native.String.len
use digital_square.Base.{
  ℕ, ◌≤◌, ◌*◌, ◌+◌, Char, code, String, ◌<>◌, len, ◌≡◌, ◌≢◌, refl, arith, ◌=?◌, if_elim,
  if◌then◌else◌,
}

abbrev escape_char : Char → String
escape_char c =
    if code c =? b'&'
    then "&amp;"
    else if code c =? b'\''
    then "&#39;"
    else if code c =? b'<'
    then "&lt;"
    else if code c =? b'>'
    then "&gt;"
    else if code c =? b'"'
    then "&#34;"
    else String.◌∷◌ c ""

unfoldable pub escape_string : String → String
escape_string String.[] = ""
escape_string (String.◌∷◌ c s) = escape_char c <> escape_string s

-- A character that ends neither a text nor an attribute of a page, nor opens a tag.
abbrev IsInert : ℕ → Type 0
IsInert n = (n ≢ b'<') × (n ≢ b'>') × (n ≢ b'\'') × (n ≢ b'"')

abbrev pub NoMarkup : String → Type 0
NoMarkup String.[] = Unit
NoMarkup (String.◌∷◌ c s) = IsInert (code c) × NoMarkup s

NoMarkup-append : (s t : String) → NoMarkup s → NoMarkup t → NoMarkup (s <> t)
NoMarkup-append String.[] t hs ht = rw nil-append ht
NoMarkup-append (String.◌∷◌ c s) t (p, hs) ht = rw cons-append (p, NoMarkup-append s t hs ht)

len-cons : (c : Char) (s : String) → len (String.◌∷◌ c s) ≡ len (String.◌∷◌ c "") + len s
len-cons c s = rw len.cons (rw len.cons (rw len.nil (omega arith)))

len-one : (c : Char) → 1 ≤ len (String.◌∷◌ c "")
len-one c = rw len.cons (let (k, e) = len_utf8-pos c in rw e (omega arith))

-- What holds of the five entities, and of a character that is none of the five, holds of every
-- result of `escape_char`.
escape_char_elim :
    (P : String → Type 0) (c : Char)
    → P "&amp;"
    → P "&#39;"
    → P "&lt;"
    → P "&gt;"
    → P "&#34;"
    → (IsInert (code c) → P (String.◌∷◌ c ""))
    → P (escape_char c)
escape_char_elim P c amp apos lt gt quot other =
    if_elim P (code c =? b'&') (λ _. amp)
      λ _.
        if_elim P (code c =? b'\'') (λ _. apos)
          λ a.
            if_elim P (code c =? b'<') (λ _. lt)
              λ l.
                if_elim P (code c =? b'>') (λ _. gt)
                  λ g. if_elim P (code c =? b'"') (λ _. quot) λ q. other (ground arith)

escape_char-NoMarkup : (c : Char) → NoMarkup (escape_char c)
escape_char-NoMarkup c =
    escape_char_elim NoMarkup c (omega arith) (omega arith) (omega arith) (omega arith)
      (omega arith) (λ h. (h, tt))

-- An escaped text has no angle bracket and no quote.
pub escape_string-NoMarkup : (s : String) → NoMarkup (escape_string s)
unfolding escape_string
escape_string-NoMarkup String.[] = tt
escape_string-NoMarkup (String.◌∷◌ c s) =
    NoMarkup-append (escape_char c) (escape_string s) (escape_char-NoMarkup c)
      (escape_string-NoMarkup s)

len-escape_char : (c : Char) → len (escape_char c) ≤ 5 * len (String.◌∷◌ c "")
len-escape_char c =
    let one = len-one c in
    escape_char_elim (λ s. len s ≤ 5 * len (String.◌∷◌ c "")) c (omega arith) (omega arith)
      (omega arith) (omega arith) (omega arith) (λ h. omega arith)

-- Escaping makes a text at most five times as long, in bytes.
len-escape_string : (s : String) → len (escape_string s) ≤ 5 * len s
unfolding escape_string
len-escape_string String.[] = omega arith
len-escape_string (String.◌∷◌ c s) = omega (
  arith,
  len-append (escape_char c) (escape_string s),
  len-escape_char c,
  len-escape_string s,
  len-cons c s,
)

escape_test : escape_string "<a href='x'>&\"" ≡ "&lt;a href=&#39;x&#39;&gt;&amp;&#34;"
unfolding escape_string
escape_test = refl
