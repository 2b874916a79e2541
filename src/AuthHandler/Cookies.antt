-- ===== src/AuthHandler/Cookies.antt =====
-- The cookie that auth_handler.go sets, and what auth_middleware.go makes of it.
use digital_square.Base.{
  ℕ, ◌+◌, ◌≤◌, ◌<◌, String, ◌≡◌, ◌≢◌, inl, inr, refl, sym, ap, ◌∙◌, true, false, Bool-cases, none,
  some, List, [], ◌∷◌, ◌++◌, Has, arith, eq_iff,
}
use digital_square.Errors.{Result, ok, err}
use digital_square.Models.{Uuid, Time, Role, User, role_user, role_admin}
use digital_square.Hash.{verify_password}
use digital_square.Auth.{IsJwt, generate_token, claims_of, auth_middleware, admin_middleware}
use digital_square.Auth.Tokens.{admin_middleware_iff}
use digital_square.UserRepository.{kept_user, IsUserTable, get_user_by_email}
use digital_square.AuthService
use digital_square.AuthService.{Parts, State}
use digital_square.AuthService.Login.{login_sound, auth_middleware-generate_token}
use digital_square.AuthService.Register.{register-IsRegistered}
use digital_square.AuthHandler.{
  RegisterRequest, LoginRequest, Session, is_complete_registration, is_complete_login, user_body,
  token_cookie, refused, answer, run_register, register, run_login, login,
}

answer-inr :
    (P : Parts) (error_status status : ℕ) (message : String) (r : Result (User × String))
    (session : Session)
    → answer P error_status status message r ≡ inr session
    → (user : User) × (token : String) × (r ≡ ok (user, token))
      × (session.user ≡ user_body P user)
      × (session.cookie ≡ token_cookie P token)
answer-inr P error_status status message (err e) session h = cc h
answer-inr P error_status status message (ok (user, token)) session h =
    let same : record {
      status = status;
      message = message;
      user = user_body P user;
      cookie = token_cookie P token;
    }
        ≡ session =
      cc h in
    (user, token, refl, ap (λ x. x.user) (sym same), ap (λ x. x.cookie) (sym same))

-- The request that a browser makes with the cookie of a session is let through for the session's user.
abbrev pub IsOpen : Parts → Time → User → Session → Type 0
IsOpen P issued user session =
    (when : Time) (authorization : String)
    → P.jwt.numeric_date issued ≤ when
    → when < P.jwt.numeric_date (issued + P.jwt_expiration)
    → auth_middleware P.jwt when P.jwt_secret
        (record { cookie = some session.cookie.value; authorization = authorization })
      ≡ inr (claims_of P.jwt user issued P.jwt_expiration)

IsOpen-signed :
    (P : Parts) (issued : Time) (user : User) (token : String) (session : Session)
    → IsJwt P.jwt
    → session.cookie ≡ token_cookie P token
    → generate_token P.jwt issued user P.jwt_secret P.jwt_expiration ≡ ok token
    → IsOpen P issued user session
IsOpen-signed P issued user token session J cookie signed when authorization late early =
    let same : session.cookie.value ≡ token = ap (λ c. c.value) cookie in
    ap
      (λ t.
        auth_middleware P.jwt when P.jwt_secret
          (record { cookie = some t; authorization = authorization }))
      same
    ∙ auth_middleware-generate_token P J issued when authorization token user signed late early

not_admin : (role : Role) → role ≡ role_user → some role ≡ some role_admin → ⊥
not_admin role is_user is_admin =
    let eq = eq_iff "user" "admin" in
    let same : role_user ≡ role_admin = cc (is_user, is_admin) in ground (arith, eq, same)

-- What the service has done for a session that is answered.
module _ (P : Parts) where
  pub login_answered :
      (issued : Time) (req : LoginRequest) (s : State P) (session : Session)
      → (login P issued (some req) s).0 ≡ inr session
      → (user : User) × (token : String) × ((AuthService.login P issued req.email req.password s).0
          ≡ ok (user, token))
        × (session.user ≡ user_body P user)
        × (session.cookie ≡ token_cookie P token)
  unfolding login
  login_answered issued req s session h = elim (Bool-cases (is_complete_login req)) [
    | inr missing ↦
        let e : login P issued (some req) s ≡ (inl (refused 400 "Invalid request body"), s) =
          rw missing refl in
        cc (ap (λ x. x.0) e, h)
    | inl complete ↦
        let e : login P issued (some req) s ≡ run_login P issued req s = rw complete refl in
        answer-inr P 401 200 "Login successful" _ session (ap (λ x. x.0) (sym e) ∙ h)
  ]

  pub register_answered :
      (now issued : Time) (id : Uuid) (salt : Result (List ℕ)) (req : RegisterRequest) (s : State P)
      (session : Session)
      → (register P now issued id salt (some req) s).0 ≡ inr session
      → (register P now issued id salt (some req) s ≡ run_register P now issued id salt req s)
        × ((user : User) × (token : String) × ((AuthService.register P now issued id salt
                req.username req.email req.password s).0
              ≡ ok (user, token))
            × (session.user ≡ user_body P user)
            × (session.cookie ≡ token_cookie P token))
  unfolding register
  register_answered now issued id salt req s session h =
      elim (Bool-cases (is_complete_registration req)) [
        | inr missing ↦
            let e : register P now issued id salt (some req) s
                ≡ (inl (refused 400 "Invalid request body"), s) =
              rw missing refl in
            cc (ap (λ x. x.0) e, h)
        | inl complete ↦
            let e : register P now issued id salt (some req) s
                ≡ run_register P now issued id salt req s =
              rw complete refl in
            (
              e,
              answer-inr P 400 201 "User registered successfully" _ session
                  (ap (λ x. x.0) (sym e) ∙ h),
            )
      ]

module _ (P : Parts) (users : State P → List User) (L : IsUserTable P.table users) where
  -- A login that is answered with a session is that of a user who can be seen, has the address and
  -- whose stored hash accepts the password. The body tells this user, and from the token's issue
  -- on and before its expiry a request with the session's cookie is let through with the claims of
  -- this user.
  pub login_opens :
      IsJwt P.jwt
      → (issued : Time) (req : LoginRequest) (s : State P) (session : Session)
      → (login P issued (some req) s).0 ≡ inr session
      → (user : User) × Has
          (λ u. (u ≡ user) × (u.email ≡ req.email) × (u.deleted_at.valid ≡ false))
          (users s)
        × (verify_password P.argon req.password user.password_hash ≡ ok true)
        × (session.user ≡ user_body P user)
        × IsOpen P issued user session
  login_opens J issued req s session h =
      let (user, token, done, body, cookie) = login_answered P issued req s session h in
      let (seen, right, signed, _) =
        login_sound P users L issued req.email req.password s user token done in
      (user, seen, right, body, IsOpen-signed P issued user token session J cookie signed)

  -- A registration that is answered with a session has added one row, that of a user with the
  -- times that the columns keep, and the body tells this user. A request with the cookie is let
  -- through with the claims of this user from the token's issue on and before its expiry, but not
  -- to the admin routes.
  pub register_opens :
      IsJwt P.jwt
      → (now issued : Time) (id : Uuid) (salt : Result (List ℕ)) (req : RegisterRequest)
        (s : State P) (session : Session)
      → (register P now issued id salt (some req) s).0 ≡ inr session
      → (user : User) × (users (register P now issued id salt (some req) s).1
          ≡ users s ++ kept_user P.table.column user ∷ [])
        × (session.user ≡ user_body P user)
        × IsOpen P issued user session
        × (admin_middleware (some user.role) ≢ none)
  register_opens J now issued id salt req s session h =
      let (e, (user, token, done, body, cookie)) =
        register_answered P now issued id salt req s session h in
      let made =
        register-IsRegistered P users L now issued id salt req.username req.email req.password s
          user token done in
      (
        user,
        ap (λ x. users x.1) e ∙ made.added,
        body,
        IsOpen-signed P issued user token session J cookie made.signed,
        λ passes.
            not_admin user.role made.stored.role ((admin_middleware_iff (some user.role)).0 passes),
      )

-- An address that nobody has and a wrong password get the same answer.
login_hides :
    (P : Parts) (issued issued' : Time) (req req' : LoginRequest) (s s' : State P) (user : User)
    → is_complete_login req ≡ true
    → is_complete_login req' ≡ true
    → (get_user_by_email P.table req.email s).0 ≡ ok none
    → (get_user_by_email P.table req'.email s').0 ≡ ok (some user)
    → verify_password P.argon req'.password user.password_hash ≡ ok false
    → (login P issued (some req) s).0 ≡ (login P issued' (some req') s').0
unfolding login AuthService.login
login_hides P issued issued' req req' s s' user complete complete' unknown known wrong =
    rw complete (rw complete' (rw unknown (rw known (rw wrong refl))))
