-- ===== src/Regex/Matching.antt =====
-- The matcher decides what it means to match.
use digital_square.Base.{
  ℕ, ◌≡◌, ◌↔◌, refl, sym, ap, ◌∙◌, subst, Bool, true, false, Bool-cases, inl, inr, List, [], ◌∷◌,
  ◌++◌, ◌⊎◌, arith, if◌then◌else◌,
}
use digital_square.Regex.{
  Regex, class, sequence, alternative, star, empty, never, Matches, one, both, left, right, stop,
  more, nothing, nullable, derive, match,
}

nullable_sound : (r : Regex) → nullable r ≡ true → Matches r []
unfolding nullable
nullable_sound (class p) h = cc h
nullable_sound (sequence r q) h =
    both (nullable_sound r (ground arith)) (nullable_sound q (ground arith)) refl
nullable_sound (alternative r q) h = elim (Bool-cases (nullable r)) [
  | inl yes_left ↦ left (nullable_sound r yes_left)
  | inr no_left ↦ right (nullable_sound q (ground (arith, no_left)))
]
nullable_sound (star r) h = stop
nullable_sound empty h = nothing
nullable_sound never h = cc h

append-is-nil : (u v : List ℕ) → [] ≡ u ++ v → (u ≡ []) × (v ≡ [])
append-is-nil [] v h = (refl, sym h)
append-is-nil (x ∷ u) v h = cc h

nullable_complete : {r : Regex} {w : List ℕ} → Matches r w → w ≡ [] → nullable r ≡ true
unfolding nullable
nullable_complete (one p) e = cc e
nullable_complete (both {u} {v} d d' h) e =
    let (eu, ev) = append-is-nil u v (sym e ∙ h) in
    let a = nullable_complete d eu in let b = nullable_complete d' ev in ground (arith, a, b)
nullable_complete (left d) e = let a = nullable_complete d e in ground (arith, a)
nullable_complete (right d) e = let a = nullable_complete d e in ground (arith, a)
nullable_complete stop e = refl
nullable_complete (more d d' h) e = refl
nullable_complete nothing e = refl

-- Which of the two parts of a text begins with its first character.
cons-append_cases :
    (c : ℕ) (w u v : List ℕ)
    → c ∷ w ≡ u ++ v
    → ((u ≡ []) × (v ≡ c ∷ w)) ⊎ ((u' : List ℕ) × (u ≡ c ∷ u') × (w ≡ u' ++ v))
cons-append_cases c w [] v h = inl (refl, sym h)
cons-append_cases c w (x ∷ u) v h = let e : x ≡ c = cc h in inr (u, ap (λ y. y ∷ u) e, cc h)

never-Matches : {w : List ℕ} → Matches never w → ⊥
never-Matches d = elim d [ ]

class_choice_sound :
    {p : ℕ → Bool} {c : ℕ} (b : Bool) {w : List ℕ}
    → p c ≡ b
    → Matches (if b then empty else never) w
    → Matches (class p) (c ∷ w)
class_choice_sound true h nothing = one h
class_choice_sound false h d = absurd (never-Matches d)

-- What a derivative of a sequence is, by whether its first part matches the empty text.
sequence_choice_sound :
    (n b : Bool) {first second : Regex} {w : List ℕ}
    → n ≡ b
    → Matches (if b then alternative first second else first) w
    → Matches first w ⊎ ((n ≡ true) × Matches second w)
sequence_choice_sound n true h (left d) = inl d
sequence_choice_sound n true h (right d) = inr (h, d)
sequence_choice_sound n false h d = inl d

sequence_choice_left :
    (b : Bool) {first : Regex} (second : Regex) {w : List ℕ}
    → Matches first w
    → Matches (if b then alternative first second else first) w
sequence_choice_left true second d = left d
sequence_choice_left false second d = d

sequence_head :
    {r r' q : Regex} (c : ℕ) {w : List ℕ}
    → ((u : List ℕ) → Matches r' u → Matches r (c ∷ u))
    → Matches (sequence r' q) w
    → Matches (sequence r q) (c ∷ w)
sequence_head c step (both {u} d d' h) = both (step u d) d' (ap (λ l. c ∷ l) h)

derive_sound : (c : ℕ) (r : Regex) {w : List ℕ} → Matches (derive c r) w → Matches r (c ∷ w)
unfolding derive
derive_sound c (class p) d = class_choice_sound (p c) refl d
derive_sound c (sequence r q) d = elim (sequence_choice_sound (nullable r) (nullable r) refl d) [
  | inl first ↦ sequence_head c (λ u d'. derive_sound c r d') first
  | inr (n, second) ↦ both (nullable_sound r n) (derive_sound c q second) refl
]
derive_sound c (alternative r q) (left d) = left (derive_sound c r d)
derive_sound c (alternative r q) (right d) = right (derive_sound c q d)
derive_sound c (star r) (both d d' h) = more (derive_sound c r d) d' (ap (λ l. c ∷ l) h)
derive_sound c empty d = absurd (never-Matches d)
derive_sound c never d = absurd (never-Matches d)

class_choice_complete :
    (p : ℕ → Bool) (c : ℕ) {w : List ℕ}
    → p c ≡ true
    → w ≡ []
    → Matches (if p c then empty else never) w
class_choice_complete p c {w} h e =
    subst (λ b. Matches (if b then empty else never) w) (sym h)
      (subst (Matches empty) (sym e) nothing)

derive_complete :
    {r : Regex} {v : List ℕ} (c : ℕ) (w : List ℕ) → Matches r v → v ≡ c ∷ w → Matches (derive c r) w
unfolding derive
derive_complete c w (one {p} h) e = class_choice_complete p c (cc (h, e)) (cc e)
derive_complete c w (both {r} {q} {u} {v} d d' h) e = elim (cons-append_cases c w u v (sym e ∙ h)) [
  | inl (eu, ev) ↦
      subst
        (λ b.
          Matches
            (if b
              then alternative (sequence (derive c r) q) (derive c q)
              else sequence (derive c r) q)
            w)
        (sym (nullable_complete d eu)) (right (derive_complete c w d' ev))
  | inr (u', eu, ew) ↦
      sequence_choice_left (nullable r) (derive c q) (both (derive_complete c u' d eu) d' ew)
]
derive_complete c w (left d) e = left (derive_complete c w d e)
derive_complete c w (right d) e = right (derive_complete c w d e)
derive_complete c w stop e = cc e
derive_complete c w (more {r} {u} {v} d d' h) e = elim (cons-append_cases c w u v (sym e ∙ h)) [
  | inl (eu, ev) ↦ derive_complete c w d' ev
  | inr (u', eu, ew) ↦ both (derive_complete c u' d eu) d' ew
]
derive_complete c w nothing e = cc e

-- The matcher answers true on exactly the texts that match.
pub match_iff : (r : Regex) (w : List ℕ) → (match r w ≡ true) ↔ Matches r w
unfolding match
match_iff r [] = (nullable_sound r, λ d. nullable_complete d refl)
match_iff r (c ∷ w) =
    let (to, from) = match_iff (derive c r) w in
    (λ h. derive_sound c r (to h), λ d. from (derive_complete c w d refl))
