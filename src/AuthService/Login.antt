-- ===== src/AuthService/Login.antt =====
-- `Login` of auth_service.go, and the session that it opens.
use digital_square.Base.{
  ◌+◌, ◌≤◌, ◌<◌, String, ◌==◌, eq_iff, ◌≡◌, ◌≢◌, inl, inr, refl, sym, ap, ◌∙◌, true, false,
  Bool-cases, Option, none, some, List, Has,
}
use digital_square.Errors.{invalid_credentials, ok, err}
use digital_square.Action.{>>=-ok, Result-cases}
use digital_square.Models.{Time, User}
use digital_square.Hash.{verify_password}
use digital_square.Auth.{IsJwt, claims_of, token_string, auth_middleware, generate_token}
use digital_square.Auth.Tokens.{validate_token-generate_token}
use digital_square.UserRepository.{IsUserTable, get_user_by_email}
use digital_square.UserRepository.Lookups.{get_user_by_email-some, get_user_by_email_reads}
use digital_square.AuthService.{Parts, State, with_token, check_password, or_no_user, login}
use digital_square.AuthService.Register.{with_token-ok}

check_password-ok :
    (P : Parts) (issued : Time) (password : String) (found : User) (s : State P) (user : User)
    (token : String)
    → (check_password P issued password found s).0 ≡ ok (user, token)
    → (found ≡ user)
      × (verify_password P.argon password user.password_hash ≡ ok true)
      × (generate_token P.jwt issued user P.jwt_secret P.jwt_expiration ≡ ok token)
      × ((check_password P issued password found s).1 ≡ s)
check_password-ok P issued password found s user token h =
    elim (Result-cases (verify_password P.argon password found.password_hash)) [
      | inr (e, failed) ↦ cc (h, failed)
      | inl (false, wrong) ↦
          let e : (check_password P issued password found s).0 ≡ err invalid_credentials =
            rw wrong refl in
          cc (e, h)
      | inl (true, right) ↦
          let e : check_password P issued password found s ≡ with_token P issued found s =
            rw right refl in
          let (same, signed, kept) =
            with_token-ok P issued found s user token (ap (λ x. x.0) (sym e) ∙ h) in
          (
            same,
            ap (λ u. verify_password P.argon password u.password_hash) (sym same) ∙ right,
            signed,
            ap (λ x. x.1) e ∙ kept,
          )
    ]

or_no_user-ok :
    (P : Parts) (issued : Time) (password : String) (found : Option User) (s : State P)
    (user : User) (token : String)
    → (or_no_user P issued password found s).0 ≡ ok (user, token)
    → (found ≡ some user)
      × (verify_password P.argon password user.password_hash ≡ ok true)
      × (generate_token P.jwt issued user P.jwt_secret P.jwt_expiration ≡ ok token)
      × ((or_no_user P issued password found s).1 ≡ s)
or_no_user-ok P issued password none s user token h = cc h
or_no_user-ok P issued password (some u) s user token h =
    let (same, right, signed, kept) = check_password-ok P issued password u s user token h in
    (ap some same, right, signed, kept)

not_equal : (a b : String) → a ≢ b → (a == b) ≡ false
not_equal a b differ =
    let eq = eq_iff a b in
    elim (Bool-cases (a == b)) [ inl same ↦ absurd (differ (eq.0 same)) | inr h ↦ h ]

module _ (P : Parts) (users : State P → List User) (L : IsUserTable P.table users) where
  -- A login that succeeds gives a user who can be seen, has the address and whose hash accepts the
  -- password, and a token for this user; it changes no row.
  pub login_sound :
      (issued : Time) (email password : String) (s : State P) (user : User) (token : String)
      → (login P issued email password s).0 ≡ ok (user, token)
      → Has (λ u. (u ≡ user) × (u.email ≡ email) × (u.deleted_at.valid ≡ false)) (users s)
        × (verify_password P.argon password user.password_hash ≡ ok true)
        × (generate_token P.jwt issued user P.jwt_secret P.jwt_expiration ≡ ok token)
        × (users (login P issued email password s).1 ≡ users s)
  unfolding login
  login_sound issued email password s user token h =
      let s1 = (get_user_by_email P.table email s).1 in
      let (existing, found, h1, e1) =
        >>=-ok (get_user_by_email P.table email) (λ u. or_no_user P issued password u) s
          (user, token) h in
      let (same, right, signed, kept) = or_no_user-ok P issued password existing s1 user token h1 in
      (
        get_user_by_email-some P.table users L email s user (found ∙ ap ok same),
        right,
        signed,
        ap users (e1 ∙ kept) ∙ get_user_by_email_reads P.table users L email s,
      )

check_password_reads :
    (P : Parts) (issued : Time) (password : String) (user : User) (s : State P)
    → (check_password P issued password user s).1 ≡ s
check_password_reads P issued password user s =
    elim (Result-cases (verify_password P.argon password user.password_hash)) [
      | inr (e, failed) ↦ rw failed refl
      | inl (false, wrong) ↦ rw wrong refl
      | inl (true, right) ↦
          elim (Result-cases (generate_token P.jwt issued user P.jwt_secret P.jwt_expiration)) [
            | inl (token, signed) ↦ rw right (rw signed refl)
            | inr (e, failed) ↦ rw right (rw failed refl)
          ]
    ]

or_no_user_reads :
    (P : Parts) (issued : Time) (password : String) (found : Option User) (s : State P)
    → (or_no_user P issued password found s).1 ≡ s
or_no_user_reads P issued password none s = refl
or_no_user_reads P issued password (some user) s = check_password_reads P issued password user s

-- A login changes no row, whether it succeeds or fails.
pub login_reads :
    (P : Parts) (users : State P → List User)
    → IsUserTable P.table users
    → (issued : Time) (email password : String) (s : State P)
    → users (login P issued email password s).1 ≡ users s
unfolding login
login_reads P users L issued email password s =
    let s1 = (get_user_by_email P.table email s).1 in
    let reads = get_user_by_email_reads P.table users L email s in
    elim (Result-cases (get_user_by_email P.table email s).0) [
      | inr (e, failed) ↦ rw failed reads
      | inl (found, answered) ↦
          rw answered (ap users (or_no_user_reads P issued password found s1) ∙ reads)
    ]

-- A token that was signed for a user is let through by the middleware while it is valid.
pub auth_middleware-generate_token :
    (P : Parts)
    → IsJwt P.jwt
    → (issued when : Time) (authorization token : String) (user : User)
    → generate_token P.jwt issued user P.jwt_secret P.jwt_expiration ≡ ok token
    → P.jwt.numeric_date issued ≤ when
    → when < P.jwt.numeric_date (issued + P.jwt_expiration)
    → auth_middleware P.jwt when P.jwt_secret
        (record { cookie = some token; authorization = authorization })
      ≡ inr (claims_of P.jwt user issued P.jwt_expiration)
unfolding auth_middleware token_string generate_token
auth_middleware-generate_token P J issued when authorization token user signed late early =
    let accepted =
      validate_token-generate_token P.jwt J issued when user P.jwt_secret token P.jwt_expiration
        signed late early in
    let filled : (token == "") ≡ false =
      not_equal token ""
        (J.filled (claims_of P.jwt user issued P.jwt_expiration) P.jwt_secret token signed) in
    rw filled (rw filled (rw accepted refl))
