-- ===== src/Base64/RoundTrip.antt =====
-- Decoding undoes encoding.
use digital_square.Base.{
  ℕ, zero, suc, ◌+◌, ◌*◌, ◌/◌, ◌%◌, ◌<◌, ◌=?◌, code, String, ◌≡◌, ◌≢◌, refl, ap, ◌∙◌, Bool, true,
  false, not, ◌&&◌, Option, none, some, List, [], ◌∷◌, All, Bool-cases, inl, inr, arith, len,
}
use digital_square.Errors.{ok}
use digital_square.Text.{Lacks}
use digital_square.Base64.{letter, letter_value, encode, values, groups, decode, or_groups}

abbrev pub IsByte : ℕ → Type 0
IsByte n = n < 256

abbrev is_some : ℕ → Option ℕ → Bool
is_some n none = false
is_some n (some m) = m =? n

-- What the round trip needs of one letter, as a test.
is_good : ℕ → Bool
is_good n =
    is_some n (letter_value (letter n))
    && not (code (letter n) =? 10)
    && not (code (letter n) =? 13)
    && not (code (letter n) =? b'$')

are_good : ℕ → Bool
are_good zero = true
are_good (suc n) = is_good n && are_good n

letters_test : are_good 64 ≡ true
unfolding are_good is_good letter letter_value
letters_test = refl

are_good-is_good : (k n : ℕ) → are_good k ≡ true → n < k → is_good n ≡ true
unfolding are_good
are_good-is_good zero n h lt = absurd (omega arith)
are_good-is_good (suc k) n h lt = elim (Bool-cases (n =? k)) [
  | inl same ↦ let e : n ≡ k = ground arith in rw e (ground arith)
  | inr other ↦ are_good-is_good k n (ground arith) (ground (arith, other))
]

record IsLetter (n : ℕ) : Type 0 where
  reads_back : letter_value (letter n) ≡ some n
  no_feed : code (letter n) ≢ 10
  no_return : code (letter n) ≢ 13
  no_dollar : code (letter n) ≢ b'$'

is_some-eq : (n : ℕ) (o : Option ℕ) → is_some n o ≡ true → o ≡ some n
is_some-eq n none h = cc h
is_some-eq n (some m) h = ground arith

is_good-IsLetter : (n : ℕ) → is_good n ≡ true → IsLetter n
unfolding is_good
is_good-IsLetter n h = record {
  reads_back = is_some-eq n (letter_value (letter n)) (ground arith);
  no_feed = ground arith;
  no_return = ground arith;
  no_dollar = ground arith;
}

sextet-IsLetter : (n : ℕ) → n < 64 → IsLetter n
sextet-IsLetter n lt = is_good-IsLetter n (are_good-is_good 64 n letters_test lt)

-- A letter is read as its number, whatever follows it.
values-at :
    (offset n : ℕ) (s : String) (ns : List ℕ)
    → n < 64
    → values (suc offset) s ≡ ok ns
    → values offset (String.◌∷◌ (letter n) s) ≡ ok (n ∷ ns)
unfolding values
values-at offset n s ns lt h =
    let l = sextet-IsLetter n lt in ground (arith, l.no_feed, l.no_return, l.reads_back, h)

no_dollar : (n : ℕ) → n < 64 → code (letter n) ≢ b'$'
no_dollar n lt = let l = sextet-IsLetter n lt in l.no_dollar

-- The six-bit numbers that the bytes are cut into.
sextets : List ℕ → List ℕ
sextets [] = []
sextets (a ∷ []) = (a / 4) ∷ (a % 4 * 16) ∷ []
sextets (a ∷ b ∷ []) = (a / 4) ∷ (a % 4 * 16 + b / 16) ∷ (b % 16 * 4) ∷ []
sextets (a ∷ b ∷ c ∷ rest) =
    (a / 4) ∷ (a % 4 * 16 + b / 16) ∷ (b % 16 * 4 + c / 64) ∷ (c % 64) ∷ sextets rest

values-nil : (offset : ℕ) → values offset "" ≡ ok []
unfolding values
values-nil offset = refl

values-encode :
    (bytes : List ℕ) (offset : ℕ)
    → All IsByte bytes
    → values offset (encode bytes) ≡ ok (sextets bytes)
unfolding encode sextets
values-encode [] offset h = values-nil offset
values-encode (a ∷ []) offset h =
    values-at offset (a / 4) _ _ (omega arith)
      (values-at (suc offset) (a % 4 * 16) _ _ (omega arith) (values-nil _))
values-encode (a ∷ b ∷ []) offset h = values-at offset (a / 4) _ _ (omega arith) (
    values-at (suc offset) (a % 4 * 16 + b / 16) _ _ (omega arith)
      (values-at (suc (suc offset)) (b % 16 * 4) _ _ (omega arith) (values-nil _)))
values-encode (a ∷ b ∷ c ∷ rest) offset (ha, (hb, (hc, h))) =
    values-at offset (a / 4) _ _ (omega arith) (
      values-at (suc offset) (a % 4 * 16 + b / 16) _ _ (omega arith) (
        values-at (suc (suc offset)) (b % 16 * 4 + c / 64) _ _ (omega arith) (
          values-at (suc (suc (suc offset))) (c % 64) _ _ (omega arith)
            (values-encode rest (suc (suc (suc (suc offset)))) h))))

groups-sextets : (n : ℕ) (bytes : List ℕ) → All IsByte bytes → groups n (sextets bytes) ≡ ok bytes
unfolding groups sextets
groups-sextets n [] h = refl
groups-sextets n (a ∷ []) h = let ea : a / 4 * 4 + a % 4 * 16 / 16 ≡ a = omega arith in rw ea refl
groups-sextets n (a ∷ b ∷ []) (ha, (hb, h)) =
    let ea : a / 4 * 4 + (a % 4 * 16 + b / 16) / 16 ≡ a = omega arith in
    let eb : (a % 4 * 16 + b / 16) % 16 * 16 + b % 16 * 4 / 4 ≡ b = omega arith in
    rw ea (rw eb refl)
groups-sextets n (a ∷ b ∷ c ∷ rest) (ha, (hb, (hc, h))) =
    let ea : a / 4 * 4 + (a % 4 * 16 + b / 16) / 16 ≡ a = omega arith in
    let eb : (a % 4 * 16 + b / 16) % 16 * 16 + (b % 16 * 4 + c / 64) / 4 ≡ b = omega arith in
    let ec : (b % 16 * 4 + c / 64) % 4 * 64 + c % 64 ≡ c = omega arith in
    rw (groups-sextets n rest h) (rw ea (rw eb (rw ec refl)))

-- Decoding gives back the bytes that were encoded.
pub decode-encode : (bytes : List ℕ) → All IsByte bytes → decode (encode bytes) ≡ ok bytes
unfolding decode
decode-encode bytes h =
    ap (or_groups (len (encode bytes))) (values-encode bytes 0 h)
    ∙ groups-sextets (len (encode bytes)) bytes h

-- The encoding has no dollar sign.
pub encode-Lacks : (bytes : List ℕ) → All IsByte bytes → Lacks b'$' (encode bytes)
unfolding encode
encode-Lacks [] h = tt
encode-Lacks (a ∷ []) h =
    (no_dollar (a / 4) (omega arith), (no_dollar (a % 4 * 16) (omega arith), tt))
encode-Lacks (a ∷ b ∷ []) h = (
  no_dollar (a / 4) (omega arith),
  (no_dollar (a % 4 * 16 + b / 16) (omega arith), (no_dollar (b % 16 * 4) (omega arith), tt)),
)
encode-Lacks (a ∷ b ∷ c ∷ rest) (ha, (hb, (hc, h))) = (
  no_dollar (a / 4) (omega arith),
  (
    no_dollar (a % 4 * 16 + b / 16) (omega arith),
    (
      no_dollar (b % 16 * 4 + c / 64) (omega arith),
      (no_dollar (c % 64) (omega arith), encode-Lacks rest h),
    ),
  ),
)
