-- ===== src/Base64.antt =====
-- encoding/base64.RawStdEncoding, which backend/internal/utils/hash.go uses.
pub mod RoundTrip
use Prim.Native.String.{char_at}
use digital_square.Base.{
  ℕ, suc, ◌+◌, ◌-◌, ◌*◌, ◌/◌, ◌%◌, leb, ◌=?◌, Char, code, String, ◌<>◌, len, Bool, ◌&&◌, ◌||◌,
  Option, none, some, List, [], ◌∷◌, ◌≡◌, refl, if◌then◌else◌,
}
use digital_square.Errors.{external, Result, ok, err}
use digital_square.Text.{decimal}

-- The 64 characters; six bits of the input each.
pub letter : ℕ → Char
letter n = char_at "ABCDEFGHIJKLMNOPQRSTUVWXYZabcdefghijklmnopqrstuvwxyz0123456789+/" n

abbrev within : ℕ → ℕ → ℕ → Bool
within lo hi c = leb lo c && leb c hi

abbrev value_of : ℕ → Option ℕ
value_of c =
    if within b'A' b'Z' c
    then some (c - b'A')
    else if within b'a' b'z' c
    then some (c - b'a' + 26)
    else if within b'0' b'9' c
    then some (c - b'0' + 52)
    else if c =? b'+'
    then some 62
    else if c =? b'/'
    then some 63
    else none

pub letter_value : Char → Option ℕ
letter_value c = value_of (code c)

infixr 67 ◌at◌
abbrev pub ◌at◌ : ℕ → String → String
n at s = String.◌∷◌ (letter n) s

-- Three bytes are four characters; one or two bytes at the end are two or three.
pub encode : List ℕ → String
encode [] = ""
encode (a ∷ []) = (a / 4) at (a % 4 * 16) at ""
encode (a ∷ b ∷ []) = (a / 4) at (a % 4 * 16 + b / 16) at (b % 16 * 4) at ""
encode (a ∷ b ∷ c ∷ rest) =
    (a / 4) at (a % 4 * 16 + b / 16) at (b % 16 * 4 + c / 64) at (c % 64) at encode rest

-- `CorruptInputError`
abbrev corrupt : {A : Type 0} → ℕ → Result A
corrupt offset = err (external ("illegal base64 data at input byte " <> decimal offset))

abbrev cons_ok : ℕ → Result (List ℕ) → Result (List ℕ)
cons_ok n (ok ns) = ok (n ∷ ns)
cons_ok n (err e) = err e

-- Line ends are passed over.
abbrev is_line_end : Char → Bool
is_line_end c = code c =? 10 || code c =? 13

abbrev or_corrupt : ℕ → Option ℕ → Result (List ℕ) → Result (List ℕ)
or_corrupt offset none rest = corrupt offset
or_corrupt offset (some n) rest = cons_ok n rest

-- The values of the characters from an offset on.
pub values : ℕ → String → Result (List ℕ)
values offset String.[] = ok []
values offset (String.◌∷◌ c s) =
    let rest = values (suc offset) s in
    let read = or_corrupt offset (letter_value c) rest in if is_line_end c then rest else read

-- Groups of four; bits that are left over are dropped. One character at the end is too short.
pub groups : ℕ → List ℕ → Result (List ℕ)
groups length [] = ok []
groups length (p ∷ []) = corrupt (length - 1)
groups length (p ∷ q ∷ []) = ok ((p * 4 + q / 16) ∷ [])
groups length (p ∷ q ∷ r ∷ []) = ok ((p * 4 + q / 16) ∷ (q % 16 * 16 + r / 4) ∷ [])
groups length (p ∷ q ∷ r ∷ t ∷ rest) =
    cons_ok (p * 4 + q / 16)
      (cons_ok (q % 16 * 16 + r / 4) (cons_ok (r % 4 * 64 + t) (groups length rest)))

abbrev pub or_groups : ℕ → Result (List ℕ) → Result (List ℕ)
or_groups length (ok ns) = groups length ns
or_groups length (err e) = err e

pub decode : String → Result (List ℕ)
unfolding values groups
decode s = or_groups (len s) (values 0 s)

decode_test : decode "AAEC/w" ≡ ok (0 ∷ 1 ∷ 2 ∷ 255 ∷ [])
unfolding decode letter_value
decode_test = refl
