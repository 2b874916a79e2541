-- ===== src/Text.antt =====
-- Functions of Go's packages strings and strconv that the program calls.
use text.Mathlib.TextLemmas.{nil-append, cons-append}
use digital_square.Base.{
  ℕ, zero, suc, ◌/◌, ◌%◌, ltb, ◌=?◌, ◌≡◌, ◌≢◌, refl, Char, code, String, ◌<>◌, List, [], ◌∷◌, arith,
  if◌then◌else◌,
}
use Prim.Native.String.{char_at}

-- A character in front of the first part.
abbrev push : Char → List String → List String
push c [] = String.◌∷◌ c "" ∷ []
push c (part ∷ parts) = String.◌∷◌ c part ∷ parts

-- strings.Split at a separator of one character
pub split : ℕ → String → List String
split sep String.[] = "" ∷ []
split sep (String.◌∷◌ c s) =
    let rest = split sep s in if code c =? sep then "" ∷ rest else push c rest

abbrev pub Lacks : ℕ → String → Type 0
Lacks sep String.[] = Unit
Lacks sep (String.◌∷◌ c s) = (code c ≢ sep) × Lacks sep s

Lacks-append : (sep : ℕ) (s t : String) → Lacks sep s → Lacks sep t → Lacks sep (s <> t)
Lacks-append sep String.[] t hs ht = rw nil-append ht
Lacks-append sep (String.◌∷◌ c s) t (p, hs) ht = rw cons-append (p, Lacks-append sep s t hs ht)

split-nil : (sep : ℕ) → split sep "" ≡ "" ∷ []
unfolding split
split-nil sep = refl

-- A text without the separator is one part.
pub split_one : (sep : ℕ) (s : String) → Lacks sep s → split sep s ≡ s ∷ []
unfolding split
split_one sep String.[] h = refl
split_one sep (String.◌∷◌ c s) (p, h) = ground (arith, split_one sep s h)

-- What stands before the first separator is the first part.
pub split-append :
    (sep : ℕ) (s : String) (c : Char) (t : String)
    → code c ≡ sep
    → Lacks sep s
    → split sep (s <> String.◌∷◌ c t) ≡ s ∷ split sep t
unfolding split
split-append sep String.[] c t e h = rw nil-append (ground arith)
split-append sep (String.◌∷◌ d s) c t e (p, h) =
    rw cons-append (ground (arith, split-append sep s c t e h))

abbrev digit_char : ℕ → Char
digit_char n = char_at "0123456789" n

-- The digits of a number in front of a text. A number has at most as many digits as it counts.
decimal_from : ℕ → ℕ → String → String
decimal_from zero n out = out
decimal_from (suc fuel) n out =
    let longer = decimal_from fuel (n / 10) (String.◌∷◌ (digit_char (n % 10)) out) in
    if ltb n 10 then String.◌∷◌ (digit_char n) out else longer

-- The verb `%d` of package fmt, on a number that is not negative
unfoldable pub decimal : ℕ → String
unfolding decimal_from
decimal n = decimal_from (suc n) n ""

decimal_test : decimal 65536 ≡ "65536"
unfolding decimal
decimal_test = refl

split_test : split b'$' "$a$$b" ≡ "" ∷ "a" ∷ "" ∷ "b" ∷ []
unfolding split
split_test = refl
