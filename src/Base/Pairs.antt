-- ===== src/Base/Pairs.antt =====
-- Relations between all items of a list, permutations, and lists cut in two.
use Prim.Native.Nat.{ℕ, zero, suc, ◌+◌, ◌-◌}
use mathlib.Core.Path.{◌≡◌, refl, sym, ap, ◌∙◌, subst}
use mathlib.Core.Bool.{Bool, true, false}
use mathlib.Core.Logic.{◌↔◌}
use mathlib.Core.List.{List, [], ◌∷◌, ◌++◌, map, reverse, reverse-cons, append-nil, Permᴰ}
use native.Mathlib.Omega.{arith}
use digital_square.Base.Lists.{length, take, keep, All, All-append}

module _ {ℓ} {A : Type ℓ} (P : A → Type 0) where
  pub All-Perm : {xs ys : List A} → Permᴰ xs ys → All P xs → All P ys
  All-Perm Permᴰ.nil h = tt
  All-Perm (Permᴰ.cons e p) (h, hs) = (subst P e h, All-Perm p hs)
  All-Perm (Permᴰ.swap e f) (h, (k, hs)) = (subst P f k, (subst P e h, hs))
  All-Perm (Permᴰ.trans p q) h = All-Perm q (All-Perm p h)

  pub All-reverse : (xs : List A) → All P xs → All P (reverse xs)
  All-reverse [] h = tt
  All-reverse (x ∷ xs) (p, h) =
      subst (All P) (sym (reverse-cons x xs))
        (All-append P (reverse xs) (x ∷ []) (All-reverse xs h) (p, tt))

pub All-map {ℓ κ} :
    {A : Type ℓ} {B : Type κ} (f : A → B) (P : B → Type 0) (xs : List A)
    → All P (map f xs) ↔ All (λ x. P (f x)) xs
All-map f P [] = (λ h. tt, λ h. tt)
All-map f P (x ∷ xs) = let (to, of) = All-map f P xs in (λ h. (h.0, to h.1), λ h. (h.0, of h.1))

-- Every item is in the relation with every later one.
module _ {ℓ} {A : Type ℓ} (R : A → A → Type 0) where
  abbrev pub AllPairs : List A → Type 0
  AllPairs [] = Unit
  AllPairs (x ∷ xs) = All (R x) xs × AllPairs xs

  All-keep_only : (P : A → Type 0) (q : A → Bool) (xs : List A) → All P xs → All P (keep q xs)
  All-keep_only P q [] h = tt
  All-keep_only P q (x ∷ xs) (p, h) = ground (arith, All-keep_only P q xs h)

  pub AllPairs-keep : (q : A → Bool) (xs : List A) → AllPairs xs → AllPairs (keep q xs)
  AllPairs-keep q [] h = tt
  AllPairs-keep q (x ∷ xs) (p, h) = ground (arith, AllPairs-keep q xs h, All-keep_only (R x) q xs p)

  pub AllPairs-snoc :
      (xs : List A) (y : A) → AllPairs xs → All (λ x. R x y) xs → AllPairs (xs ++ y ∷ [])
  AllPairs-snoc [] y h k = (tt, tt)
  AllPairs-snoc (x ∷ xs) y (p, h) (q, k) =
      (All-append (R x) xs (y ∷ []) p (q, tt), AllPairs-snoc xs y h k)

pub AllPairs-reverse {ℓ} :
    {A : Type ℓ} (R : A → A → Type 0) (xs : List A)
    → AllPairs R xs
    → AllPairs (λ x y. R y x) (reverse xs)
AllPairs-reverse R [] h = tt
AllPairs-reverse R (x ∷ xs) (p, h) =
    subst (AllPairs (λ x y. R y x)) (sym (reverse-cons x xs)) (
      AllPairs-snoc (λ x y. R y x) (reverse xs) x (AllPairs-reverse R xs h)
        (All-reverse (R x) xs p))

module _ {ℓ} {A : Type ℓ} where
  abbrev pub drop : ℕ → List A → List A
  drop zero xs = xs
  drop (suc n) [] = []
  drop (suc n) (x ∷ xs) = drop n xs

  take_nothing : (n : ℕ) → Path (List A) (take n []) []
  take_nothing zero = refl
  take_nothing (suc n) = refl

  pub take_sum : (m n : ℕ) (xs : List A) → take (m + n) xs ≡ take m xs ++ take n (drop m xs)
  take_sum zero n xs = let none_more : 0 + n ≡ n = omega arith in ap (λ k. take k xs) none_more
  take_sum (suc m) n [] =
      let one_more : suc m + n ≡ suc (m + n) = omega arith in
      ap (λ k. take k []) one_more ∙ sym (take_nothing n)
  take_sum (suc m) n (x ∷ xs) =
      let one_more : suc m + n ≡ suc (m + n) = omega arith in
      ap (λ k. take k (x ∷ xs)) one_more ∙ ap (λ l. x ∷ l) (take_sum m n xs)

  pub length-drop : (n : ℕ) (xs : List A) → length (drop n xs) ≡ length xs - n
  length-drop zero xs = omega arith
  length-drop (suc n) [] = omega arith
  length-drop (suc n) (x ∷ xs) = omega (arith, length-drop n xs)

  keep-append : (p : A → Bool) (xs ys : List A) → keep p (xs ++ ys) ≡ keep p xs ++ keep p ys
  keep-append p [] ys = refl
  keep-append p (x ∷ xs) ys = ground (arith, keep-append p xs ys)

  keep-last :
      (p : A → Bool) (x : A) (xs : List A) (b : Bool)
      → p x ≡ b
      → keep p (reverse xs) ≡ reverse (keep p xs)
      → keep p (reverse xs) ++ keep p (x ∷ []) ≡ reverse (keep p (x ∷ xs))
  keep-last p x xs true h same =
      rw h (ap (λ l. l ++ x ∷ []) same ∙ sym (reverse-cons x (keep p xs)))
  keep-last p x xs false h same = rw h (append-nil (keep p (reverse xs)) ∙ same)

  pub keep-reverse : (p : A → Bool) (xs : List A) → keep p (reverse xs) ≡ reverse (keep p xs)
  keep-reverse p [] = refl
  keep-reverse p (x ∷ xs) =
      ap (keep p) (reverse-cons x xs)
      ∙ keep-append p (reverse xs) (x ∷ [])
      ∙ keep-last p x xs (p x) refl (keep-reverse p xs)

  pub keep_all : (p : A → Bool) (xs : List A) → All (λ x. p x ≡ true) xs → keep p xs ≡ xs
  keep_all p [] h = refl
  keep_all p (x ∷ xs) (q, h) = rw q (ap (λ l. x ∷ l) (keep_all p xs h))

pub take-map {ℓ κ} :
    {A : Type ℓ} {B : Type κ} (f : A → B) (n : ℕ) (xs : List A)
    → take n (map f xs) ≡ map f (take n xs)
take-map f zero xs = refl
take-map f (suc n) [] = refl
take-map f (suc n) (x ∷ xs) = ap (λ l. f x ∷ l) (take-map f n xs)

pub drop-map {ℓ κ} :
    {A : Type ℓ} {B : Type κ} (f : A → B) (n : ℕ) (xs : List A)
    → drop n (map f xs) ≡ map f (drop n xs)
drop-map f zero xs = refl
drop-map f (suc n) [] = refl
drop-map f (suc n) (x ∷ xs) = drop-map f n xs
