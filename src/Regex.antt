-- ===== src/Regex.antt =====
-- Go's package regexp, for an expression between `^` and `$` that is made of character classes,
-- sequences and repetitions: what it means for a text to match, and a matcher. A text is the list of
-- its code points.
pub mod Matching
use digital_square.Base.{
  ℕ, ◌≡◌, code, String, Bool, true, false, ◌&&◌, ◌||◌, List, [], ◌∷◌, ◌++◌, if◌then◌else◌,
}

pub data Regex : Type 0 where
  class : (ℕ → Bool) → Regex
  sequence alternative : Regex → Regex → Regex
  star : Regex → Regex
  empty never : Regex

abbrev pub codes : String → List ℕ
codes String.[] = []
codes (String.◌∷◌ c s) = code c ∷ codes s

-- `r+`
abbrev pub plus : Regex → Regex
plus r = sequence r (star r)

pub data Matches : Regex → List ℕ → Type 0 where
  one : {p : ℕ → Bool} {c : ℕ} → p c ≡ true → Matches (class p) (c ∷ [])
  both :
      {r q : Regex} {u v w : List ℕ}
      → Matches r u
      → Matches q v
      → w ≡ u ++ v
      → Matches (sequence r q) w
  left : {r q : Regex} {w : List ℕ} → Matches r w → Matches (alternative r q) w
  right : {r q : Regex} {w : List ℕ} → Matches q w → Matches (alternative r q) w
  stop : {r : Regex} → Matches (star r) []
  more :
      {r : Regex} {u v w : List ℕ}
      → Matches r u
      → Matches (star r) v
      → w ≡ u ++ v
      → Matches (star r) w
  nothing : Matches empty []

pub nullable : Regex → Bool
nullable (class p) = false
nullable (sequence r q) = nullable r && nullable q
nullable (alternative r q) = nullable r || nullable q
nullable (star r) = true
nullable empty = true
nullable never = false

-- What is left to match after a character.
pub derive : ℕ → Regex → Regex
unfolding nullable
derive c (class p) = if p c then empty else never
derive c (sequence r q) =
    let first = sequence (derive c r) q in
    let second = derive c q in if nullable r then alternative first second else first
derive c (alternative r q) = alternative (derive c r) (derive c q)
derive c (star r) = sequence (derive c r) (star r)
derive c empty = never
derive c never = never

unfoldable pub match : Regex → List ℕ → Bool
unfolding derive
match r [] = nullable r
match r (c ∷ w) = match (derive c r) w
