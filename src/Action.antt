-- ===== src/Action.antt =====
-- Go code that changes a state and returns `(value, error)`: an action gives the result and the
-- state that it leaves, which also an action that fails may have changed.
use digital_square.Base.{◌≡◌, ◌⊎◌, inl, inr, refl, sym, subst, Option, none, some}
use digital_square.Errors.{Error, Result, ok, err}

abbrev pub Action : Type 0 → Type 0 → Type 0
Action S A = S → Result A × S

module _ {S A : Type 0} where
  abbrev pub pure : A → Action S A
  pure a s = (ok a, s)

  abbrev pub fail : Error → Action S A
  fail e s = (err e, s)

  -- `if err != nil { return err }` after a call that only reads.
  abbrev pub from : (S → Result A) → Action S A
  from f s = (f s, s)

-- A change of the state that cannot fail.
abbrev pub modify : {S : Type 0} → (S → S) → Action S (Unit {0})
modify f s = (ok tt, f s)

infixl 5 ◌>>=◌ ◌>>◌
module _ {S A B : Type 0} where
  abbrev pub continue : Result A → S → (A → Action S B) → Result B × S
  continue (ok a) s f = f a s
  continue (err e) s f = (err e, s)

  -- The first error ends the function.
  abbrev pub ◌>>=◌ : Action S A → (A → Action S B) → Action S B
  ◌>>=◌ m f s = continue (m s).0 (m s).1 f

abbrev pub ◌>>◌ : {S B : Type 0} → Action S (Unit {0}) → Action S B → Action S B
m >> k = m >>= λ _. k

-- A call of a library or of the operating system either goes on or returns an error.
abbrev pub Outcome : Type 0
Outcome = Option Error

abbrev pub result : Outcome → Result (Unit {0})
result none = ok tt
result (some e) = err e

-- Inversion of a sequence that succeeds: its first part succeeds, and the rest goes on from there.
module _ {S A B : Type 0} where
  continue-ok :
      (r : Result A) (s : S) (f : A → Action S B) (b : B)
      → (continue r s f).0 ≡ ok b
      → (a : A) × (r ≡ ok a) × ((f a s).0 ≡ ok b) × ((continue r s f).1 ≡ (f a s).1)
  continue-ok (ok a) s f b h = (a, refl, h, refl)
  continue-ok (err e) s f b h = cc

  pub >>=-ok :
      (m : Action S A) (f : A → Action S B) (s : S) (b : B)
      → ((m >>= f) s).0 ≡ ok b
      → (a : A) × ((m s).0 ≡ ok a) × ((f a (m s).1).0 ≡ ok b) × (((m >>= f) s).1 ≡ (f a (m s).1).1)
  >>=-ok m f s b h = continue-ok (m s).0 (m s).1 f b h

pub Result-cases :
    {A : Type 0} (r : Result A) → ((a : A) × (r ≡ ok a)) ⊎ ((e : Error) × (r ≡ err e))
Result-cases (ok a) = inl (a, refl)
Result-cases (err e) = inr (e, refl)

-- A relation of the states before and after that a failing sequence keeps, where its first part
-- leaves the state as it is seen.
module _ {S A B V : Type 0} (view : S → V) (R : V → V → Type 0) (same : (v : V) → R v v) where
  continue-err :
      (r : Result A) (s' : S) (f : A → Action S B) (e : Error) (v : V)
      → view s' ≡ v
      → ((a : A) (s : S) → view s ≡ v → (f a s).0 ≡ err e → R v (view (f a s).1))
      → (continue r s' f).0 ≡ err e
      → R v (view (continue r s' f).1)
  continue-err (ok a) s' f e v kept rest h = rest a s' kept h
  continue-err (err e') s' f e v kept rest h = subst (R v) (sym kept) (same v)

  pub >>=-err :
      (m : Action S A) (f : A → Action S B) (s : S) (e : Error) (v : V)
      → view (m s).1 ≡ v
      → ((a : A) (s' : S) → view s' ≡ v → (f a s').0 ≡ err e → R v (view (f a s').1))
      → ((m >>= f) s).0 ≡ err e
      → R v (view ((m >>= f) s).1)
  >>=-err m f s e v kept rest h = continue-err (m s).0 (m s).1 f e v kept rest h
