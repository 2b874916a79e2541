-- ===== src/AuthService/Returning.antt =====
-- A registration followed by a login.
use digital_square.Base.{
  ℕ, String, ◌≡◌, ◌≢◌, refl, sym, ap, ◌∙◌, subst, true, false, Option, none, some, List, [], ◌∷◌,
  ◌++◌, All, Has,
}
use digital_square.Errors.{ok}
use digital_square.Models.{Uuid, Time, User}
use digital_square.Base64.RoundTrip.{IsByte}
use digital_square.Hash.{IsArgon, verify_password}
use digital_square.Hash.RoundTrip.{verify_password-hash_password}
use digital_square.Auth.{generate_token}
use digital_square.UserRepository.{kept_user, IsUserTable, get_user_by_email}
use digital_square.UserRepository.Lookups.{
  Has-last, All-last, get_user_by_email-some, get_user_by_email-none,
}
use digital_square.AuthService.{Parts, State, register, login}
use digital_square.AuthService.Register.{IsRegistered, register-IsRegistered}

All-map :
    (P Q : User → Type 0) (users : List User) → ((u : User) → P u → Q u) → All P users → All Q users
All-map P Q [] f h = tt
All-map P Q (u ∷ users) f (p, h) = (f u p, All-map P Q users f h)

-- The user that a query finds among rows of which only the last has the email.
last_found :
    (email : String) (rows : List User) (user found : User)
    → All (λ u. u.email ≢ email) rows
    → Has (λ u. (u ≡ found) × (u.email ≡ email) × (u.deleted_at.valid ≡ false)) (rows ++ user ∷ [])
    → user ≡ found
last_found email rows user found others seen =
    (Has-last (λ u. (u ≡ found) × (u.email ≡ email) × (u.deleted_at.valid ≡ false)) rows user
      (All-map (λ u. u.email ≢ email)
        (λ u. ((u ≡ found) × (u.email ≡ email) × (u.deleted_at.valid ≡ false)) → ⊥) rows
        (λ u other. λ p. other p.1) others)
      seen).0

module _ (P : Parts) (users : State P → List User) (L : IsUserTable P.table users) where
  module _ (now issued : Time) (id : Uuid) (salt : List ℕ) (username email password : String)
      (s : State P) (user : User) (token : String)
      (registered : (register P now issued id (ok salt) username email password s).0
        ≡ ok (user, token)) where
    abbrev after : State P
    after = (register P now issued id (ok salt) username email password s).1

    made : IsRegistered P users issued id (ok salt) username email password s after user token
    made =
        register-IsRegistered P users L now issued id (ok salt) username email password s user token
          registered

    -- The row of the user, whose times are those that the columns keep.
    abbrev stored : User
    stored = kept_user P.table.column user

    -- The query of a login finds exactly the row of the user that was registered, where the database answers.
    found_registered :
        (existing : Option User)
        → (get_user_by_email P.table email after).0 ≡ ok existing
        → existing ≡ some stored
    found_registered none h =
        let unseen =
          subst (All (λ u. u.email ≡ email → u.deleted_at.valid ≡ true)) made.added
            (get_user_by_email-none P.table users L email after h) in
        let deleted =
          All-last (λ u. u.email ≡ email → u.deleted_at.valid ≡ true) (users s) stored unseen
            made.stored.email in
        cc (deleted, made.stored.not_deleted)
    found_registered (some found) h =
        let seen =
          subst (Has (λ u. (u ≡ found) × (u.email ≡ email) × (u.deleted_at.valid ≡ false)))
            made.added (get_user_by_email-some P.table users L email after found h) in
        let others =
          All-map (λ u. (u.email ≢ email) × (u.username ≢ username)) (λ u. u.email ≢ email)
            (users s) (λ u p. p.0) made.was_free in
        ap some (sym (last_found email (users s) stored found others seen))

    -- After a registration with a salt of bytes that succeeded, a login with the same address and
    -- password, for which the database answers and a token can be signed, succeeds and returns
    -- exactly the user that was registered, but for its two times, which are those that the
    -- columns of the table keep, whatever user the query gives.
    pub login-register :
        IsArgon P.argon
        → All IsByte salt
        → (later : Time) (existing : Option User) (next_token : String)
        → (get_user_by_email P.table email after).0 ≡ ok existing
        → generate_token P.jwt later stored P.jwt_secret P.jwt_expiration ≡ ok next_token
        → (login P later email password after).0 ≡ ok (stored, next_token)
    unfolding login
    login-register A bytes later existing next_token answered signed =
        let found : (get_user_by_email P.table email after).0 ≡ ok (some stored) =
          answered ∙ ap ok (found_registered existing answered) in
        let (hash, hashed, (_, accepts)) =
          verify_password-hash_password P.argon A salt bytes password password in
        let same_hash : made.hash ≡ hash = cc (made.hashed, hashed) in
        let right : verify_password P.argon password user.password_hash ≡ ok true =
          ap (verify_password P.argon password) (made.stored.password_hash ∙ same_hash)
          ∙ accepts refl in
        rw found (rw right (rw signed refl))
