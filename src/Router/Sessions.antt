-- ===== src/Router/Sessions.antt =====
-- The sessions that requests open: whose they are.
use digital_square.Base.{
  ◌≡◌, ◌≢◌, ◌⊎◌, refl, sym, ap, ◌∙◌, subst, inl, inr, Option, Option-cases, none, some, List, [],
  ◌∷◌, All, Has-All, Has_elim,
}
use digital_square.Models.{User, role_admin}
use digital_square.Http.{Refusal}
use digital_square.Auth.{Claims, admin_middleware}
use digital_square.RateLimiter.{middleware}
use digital_square.UserRepository.{IsUserTable}
use digital_square.UserRepository.History.{not_admin}
use digital_square.AuthService
use digital_square.AuthService.Login.{login_sound}
use digital_square.AuthService.Register.{register-IsRegistered}
use digital_square.AuthHandler
use digital_square.AuthHandler.{Session}
use digital_square.AuthHandler.Cookies.{login_answered, register_answered}
use digital_square.WebSocketHandler.{Server}
use digital_square.WebSocketHandler.Session.{End}
use digital_square.Routes.{
  PublicRoute, ProtectedRoute, AdminRoute, Route, register, login, all_users, ban_user, ban_bulk,
  web_socket, get_before, public, protected, admin, route,
}
use digital_square.Router.{
  App, Request, State, Reply, session_of, page_of, users_of, message_of, reply_of, socket_reply,
  run_public, run_admin, run_protected, authenticated, guarded, admitted, run_route, serve,
}

-- The session that a reply opens.
abbrev pub opened : Reply → List Session
opened (session_of session) = session ∷ []
opened _ = []

abbrev pub NoAdmin : List User → Type 0
NoAdmin = All (λ u. u.role ≢ role_admin)

abbrev pub AreUsers : List Session → Type 0
AreUsers = All (λ session. session.user.role ≢ role_admin)

opened-reply_of :
    (r : Refusal ⊎ Session)
    → ((session : Session) → r ≡ inr session → session.user.role ≢ role_admin)
    → AreUsers (opened (reply_of session_of r))
opened-reply_of (inl x) h = tt
opened-reply_of (inr session) h = (h session refl, tt)

module _ (A : App) (users : AuthService.State A.auth → List User)
    (L : IsUserTable A.auth.table users) (req : Request A) where
  login_role :
      (given : AuthHandler.LoginRequest) (s : AuthService.State A.auth) (session : Session)
      → NoAdmin (users s)
      → (AuthHandler.login A.auth req.now (some given) s).0 ≡ inr session
      → session.user.role ≢ role_admin
  login_role given s session h answered is_admin =
      let (user, token, done, body, _) = login_answered A.auth req.now given s session answered in
      let (seen, _, _, _) =
        login_sound A.auth users L req.now given.email given.password s user token done in
      Has_elim _ ⊥ (users s)
        (λ u both. both.1 (ap (λ x. x.role) both.0.0 ∙ sym (ap (λ b. b.role) body) ∙ is_admin))
        (Has-All _ _ (users s) seen h)

  register_role :
      (given : AuthHandler.RegisterRequest) (s : AuthService.State A.auth) (session : Session)
      → (AuthHandler.register A.auth req.now req.now req.fresh req.salt (some given) s).0
        ≡ inr session
      → session.user.role ≢ role_admin
  register_role given s session answered =
      let (_, (user, token, done, body, _)) =
        register_answered A.auth req.now req.now req.fresh req.salt given s session answered in
      let made =
        register-IsRegistered A.auth users L req.now req.now req.fresh req.salt given.username
          given.email given.password s user token done in
      not_admin session.user.role (ap (λ b. b.role) body ∙ made.stored.role)

  opened-public :
      (r : PublicRoute) (s : State A)
      → NoAdmin (users s.users)
      → AreUsers (opened (run_public A r req s).0)
  unfolding AuthHandler.login AuthHandler.register
  opened-public login s h = elim (Option-cases (A.login_request req.body)) [
    | inl missing ↦ rw missing tt
    | inr (given, parsed) ↦ rw parsed (
        opened-reply_of (AuthHandler.login A.auth req.now (some given) s.users).0
          (λ session answered. login_role given s.users session h answered))
  ]
  opened-public register s h = elim (Option-cases (A.register_request req.body)) [
    | inl missing ↦ rw missing tt
    | inr (given, parsed) ↦ rw parsed (
        opened-reply_of
          (AuthHandler.register A.auth req.now req.now req.fresh req.salt (some given) s.users).0
          (λ session answered. register_role given s.users session answered))
  ]

  opened-socket :
      (s : State A) (r : Refusal ⊎ (Option End × Server A.messages))
      → AreUsers (opened (socket_reply A s r).0)
  opened-socket s (inl x) = tt
  opened-socket s (inr (end, server)) = tt

  none_opened :
      {B : Type 0} (f : B → Reply) (r : Refusal ⊎ B)
      → ((b : B) → opened (f b) ≡ [])
      → AreUsers (opened (reply_of f r))
  none_opened f (inl x) h = tt
  none_opened f (inr b) h = subst AreUsers (sym (h b)) tt

  opened-protected :
      (r : ProtectedRoute) (s : State A) (found : Refusal ⊎ Claims)
      → AreUsers (opened (guarded A found (λ claims s. run_protected A claims r req s) s).0)
  opened-protected r s (inl x) = tt
  opened-protected web_socket s (inr claims) = opened-socket s _
  opened-protected (get_before id) s (inr claims) = none_opened page_of _ (λ b. refl)

  opened-admin :
      (r : AdminRoute) (claims : Claims) (s : State A)
      → AreUsers (opened (run_admin A claims r req s).0)
  opened-admin all_users claims s = none_opened users_of _ (λ b. refl)
  opened-admin ban_user claims s = none_opened message_of _ (λ b. refl)
  opened-admin ban_bulk claims s = none_opened message_of _ (λ b. refl)

  opened-admitted :
      (x : Option Refusal) (s : State A) (next : State A → Reply × State A)
      → ((t : State A) → NoAdmin (users t.users) → AreUsers (opened (next t).0))
      → NoAdmin (users s.users)
      → AreUsers (opened (admitted A x next s).0)
  opened-admitted (some x) s next h plain = tt
  opened-admitted none s next h plain = h s plain

  opened-guarded :
      (r : AdminRoute) (s : State A) (found : Refusal ⊎ Claims)
      → NoAdmin (users s.users)
      → AreUsers (
          opened
            (guarded A found
              (λ claims s.
                admitted A
                  (admin_middleware (some claims.role))
                  (λ s. run_admin A claims r req s)
                  s)
              s).0)
  opened-guarded r s (inl x) plain = tt
  opened-guarded r s (inr claims) plain =
      opened-admitted (admin_middleware (some claims.role)) s (λ s. run_admin A claims r req s)
        (λ t _. opened-admin r claims t) plain

  opened-route :
      (o : Option Route) (s : State A)
      → NoAdmin (users s.users)
      → AreUsers (opened (run_route A o req s).0)
  unfolding run_route
  opened-route none s plain = tt
  opened-route (some (public r)) s plain = opened-public r s plain
  opened-route (some (protected r)) s plain = opened-protected r s (authenticated A req)
  opened-route (some (admin r)) s plain = opened-guarded r s (authenticated A req) plain

  -- No session of an admin is opened while no account is one.
  pub opened-serve :
      (s : State A) → NoAdmin (users s.users) → AreUsers (opened (serve A req s).0.reply)
  unfolding serve
  opened-serve s plain =
      let run = middleware A.redis A.limits req.ip s.limiter in
      opened-admitted run.0 (record s { limiter = run.1 })
        (λ s. run_route A (route req.method req.path) req s)
        (λ t plain'. opened-route (route req.method req.path) t plain') plain
