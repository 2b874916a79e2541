-- ===== src/Sscanf.antt =====
-- fmt.Sscanf with the two formats of backend/internal/utils/hash.go: literal text, which has to be
-- there, and the verb `%d`. What is left of the input when the format ends is not looked at.
use digital_square.Base.{
  ℕ, ◌+◌, ◌-◌, ◌*◌, ◌^◌, ◌≡◌, refl, leb, ◌=?◌, Char, code, String, ◌<>◌, Bool, true, false, ◌&&◌,
  ◌||◌, if◌then◌else◌,
}
use digital_square.Errors.{external, Result, ok, err}

-- What was scanned, and the rest of the input.
abbrev pub Scan : Type 0 → Type 0
Scan A = String → Result (A × String)

module _ {A B : Type 0} where
  abbrev continue : (A → Scan B) → Result (A × String) → Result (B × String)
  continue f (ok (a, rest)) = f a rest
  continue f (err e) = err e

  infixl 5 ◌>>=◌
  abbrev pub ◌>>=◌ : Scan A → (A → Scan B) → Scan B
  ◌>>=◌ m f s = continue f (m s)

infixl 5 ◌>>◌
abbrev pub ◌>>◌ : {B : Type 0} → Scan (Unit {0}) → Scan B → Scan B
m >> k = m >>= λ _. k

abbrev pub pure : {A : Type 0} → A → Scan A
pure a s = ok (a, s)

-- The text of the format outside its verbs.
pub literal : String → Scan (Unit {0})
literal String.[] s = ok (tt, s)
literal (String.◌∷◌ c p) String.[] = err (external "unexpected EOF")
literal (String.◌∷◌ c p) (String.◌∷◌ d s) =
    let rest = literal p s in
    if code c =? code d then rest else err (external "input does not match format")

abbrev within : ℕ → ℕ → ℕ → Bool
within lo hi c = leb lo c && leb c hi

-- The white space of package fmt; a line feed is an error.
abbrev is_space : ℕ → Bool
is_space c =
    within 9 13 c
    || c =? 32
    || c =? 133
    || c =? 160
    || c =? 5760
    || within 8192 8202 c
    || within 8232 8233 c
    || c =? 8239
    || c =? 8287
    || c =? 12288

skip_space : Scan (Unit {0})
skip_space String.[] = ok (tt, "")
skip_space (String.◌∷◌ c s) =
    let rest = skip_space s in
    if code c =? 10
    then err (external "unexpected newline")
    else if is_space (code c)
    then rest
    else ok (tt, String.◌∷◌ c s)

abbrev is_digit : Char → Bool
is_digit c = within b'0' b'9' (code c)

-- The longest run of digits: its text and its value.
take_digits : String → ℕ → String → (String × ℕ) × String
take_digits token n String.[] = ((token, n), "")
take_digits token n (String.◌∷◌ c s) =
    let more = take_digits (token <> String.◌∷◌ c "") (n * 10 + (code c - b'0')) s in
    if is_digit c then more else ((token, n), String.◌∷◌ c s)

number : Scan (String × ℕ)
unfolding take_digits
number String.[] = err (external "EOF")
number (String.◌∷◌ c s) =
    let taken = take_digits "" 0 (String.◌∷◌ c s) in
    if is_digit c then ok taken else err (external "expected integer")

abbrev out_of_range : {A : Type 0} → String → String → Result A
out_of_range function token =
    err (
      external
        ("strconv." <> (function <> (": parsing \"" <> (token <> "\": value out of range")))))

-- `%d` into an unsigned integer of this width
abbrev fits_unsigned : ℕ → String × ℕ → Scan ℕ
fits_unsigned bits (token, n) s =
    if leb (2 ^ 64) n
    then out_of_range "ParseUint" token
    else if leb (2 ^ bits) n
    then err (external ("unsigned integer overflow on token " <> token))
    else ok (n, s)

unsigned : ℕ → Scan ℕ
unfolding skip_space number
unsigned bits = do skip_space; n ← number; fits_unsigned bits n

-- An int: its sign and its size.
pub record Signed : Type 0 where
  pub is_negative : Bool
  pub size : ℕ

abbrev fits_signed : Bool → String × ℕ → Scan Signed
fits_signed negative (token, n) s =
    let sign : String = if negative then "-" else "" in
    if leb (if negative then 2 ^ 63 + 1 else 2 ^ 63) n
    then out_of_range "ParseInt" (sign <> token)
    else ok (record { is_negative = negative; size = n }, s)

-- The sign, if there is one.
sign : Scan Bool
sign String.[] = ok (false, "")
sign (String.◌∷◌ c s) =
    if code c =? b'-'
    then ok (true, s)
    else if code c =? b'+'
    then ok (false, s)
    else ok (false, String.◌∷◌ c s)

-- `%d` into an int of 64 bits
pub signed : Scan Signed
unfolding skip_space sign number
signed = do skip_space; negative ← sign; n ← number; fits_signed negative n

-- Sscanf(s, "v=%d", &version)
unfoldable pub scan_version : String → Result (Signed × String)
unfolding literal signed
scan_version = do literal "v="; signed

pub record Numbers : Type 0 where
  pub memory : ℕ
  pub iterations : ℕ
  pub parallelism : ℕ

-- Sscanf(s, "m=%d,t=%d,p=%d", ...) into two uint32 and one uint8
unfoldable pub scan_numbers : String → Result (Numbers × String)
unfolding literal unsigned
scan_numbers = do
  literal "m="
  memory ← unsigned 32
  literal ",t="
  iterations ← unsigned 32
  literal ",p="
  parallelism ← unsigned 8
  pure (record { memory = memory; iterations = iterations; parallelism = parallelism })

rest_test : scan_numbers "m= 8,t=+1" ≡ err (external "expected integer")
unfolding scan_numbers
rest_test = refl

trailing_test :
    scan_numbers "m=8,t=2,p=4,x" ≡ ok (record { memory = 8; iterations = 2; parallelism = 4 }, ",x")
unfolding scan_numbers
trailing_test = refl
