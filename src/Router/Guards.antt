-- ===== src/Router/Guards.antt =====
-- What the middlewares let through.
use digital_square.Base.{
  ◌≡◌, ◌≢◌, ◌⊎◌, inl, inr, refl, ap, Bool-cases, Option, Option-cases, none, some, List,
}
use digital_square.Models.{Role, User, role_admin}
use digital_square.RateLimiter.{middleware}
use digital_square.Http.{Refusal}
use digital_square.Auth.{Claims, admin_middleware}
use digital_square.Auth.Tokens.{admin_middleware_iff}
use digital_square.UserRepository.{IsUserTable}
use digital_square.AuthService
use digital_square.AuthHandler
use digital_square.Routes.{
  ProtectedRoute, AdminRoute, Route, register, login, web_socket, get_before, public, protected,
  admin, route,
}
use digital_square.AuthService.Login.{login_reads}
use digital_square.WebSocketHandler.{Server}
use digital_square.WebSocketHandler.Session.{End}
use digital_square.Router.{
  socket_reply, App, Request, State, refusal, run_public, run_protected, run_admin, authenticated,
  guarded, admitted, run_route, serve,
}

-- The request carries a token that is accepted and says `admin`.
abbrev pub IsByAdmin : (A : App) → Request A → Type 0
IsByAdmin A req =
    (claims : Claims) × (authenticated A req ≡ inr claims) × (claims.role ≡ role_admin)

socket_reply_keeps :
    (A : App) (s : State A) (r : Refusal ⊎ (Option End × Server A.messages))
    → (socket_reply A s r).1.users ≡ s.users
socket_reply_keeps A s (inl refused) = refl
socket_reply_keeps A s (inr (end, server)) = refl

protected_keeps :
    (A : App) (req : Request A) (claims : Claims) (r : ProtectedRoute) (s : State A)
    → (run_protected A claims r req s).1.users ≡ s.users
protected_keeps A req claims web_socket s = socket_reply_keeps A s _
protected_keeps A req claims (get_before id) s = refl

admitted_by : (role : Role) → admin_middleware (some role) ≡ none → role ≡ role_admin
admitted_by role h = let e = (admin_middleware_iff (some role)).0 h in cc e

module _ (A : App) (users : AuthService.State A.auth → List User)
    (L : IsUserTable A.auth.table users) (req : Request A) where
  pub login_keeps : (s : State A) → users (run_public A login req s).1.users ≡ users s.users
  unfolding AuthHandler.login
  login_keeps s = elim (Option-cases (A.login_request req.body)) [
    | inl missing ↦ rw missing refl
    | inr (given, parsed) ↦ elim (Bool-cases (AuthHandler.is_complete_login given)) [
      | inr incomplete ↦ rw parsed (rw incomplete refl)
      | inl complete ↦
          rw parsed
            (rw complete (login_reads A.auth users L req.now given.email given.password s.users))
    ]
  ]

  abbrev Changes : Option Route → Type 0
  Changes o = (o ≡ some (public register)) ⊎ IsByAdmin A req

  pub protected_step :
      (r : ProtectedRoute) (s : State A) (found : Refusal ⊎ Claims)
      → (guarded A found (λ claims s. run_protected A claims r req s) s).1.users ≡ s.users
  protected_step r s (inl refused) = refl
  protected_step r s (inr claims) = protected_keeps A req claims r s

  admin_step :
      (r : AdminRoute) (s : State A) (claims : Claims) (refused : Option Refusal)
      → admin_middleware (some claims.role) ≡ refused
      → (claims.role ≡ role_admin)
        ⊎ ((admitted A refused (λ s. run_admin A claims r req s) s).1 ≡ s)
  admin_step r s claims none h = inl (admitted_by claims.role h)
  admin_step r s claims (some x) h = inr refl

  admin_route :
      (r : AdminRoute) (s : State A) (found : Refusal ⊎ Claims)
      → authenticated A req ≡ found
      → IsByAdmin A req
        ⊎ ((guarded A found
              (λ claims s.
                admitted A
                  (admin_middleware (some claims.role))
                  (λ s. run_admin A claims r req s)
                  s)
              s).1
            ≡ s)
  admin_route r s (inl refused) h = inr refl
  admin_route r s (inr claims) h =
      elim (admin_step r s claims (admin_middleware (some claims.role)) refl) [
        | inl is_admin ↦ inl (claims, h, is_admin)
        | inr same ↦ inr same
      ]

  run_route_keeps :
      (o : Option Route) (s : State A)
      → Changes o ⊎ (users (run_route A o req s).1.users ≡ users s.users)
  unfolding run_route
  run_route_keeps none s = inr refl
  run_route_keeps (some (public register)) s = inl (inl refl)
  run_route_keeps (some (public login)) s = inr (login_keeps s)
  run_route_keeps (some (protected r)) s = inr (ap users (protected_step r s (authenticated A req)))
  run_route_keeps (some (admin r)) s = elim (admin_route r s (authenticated A req) refl) [
    | inl by_admin ↦ inl (inr by_admin)
    | inr same ↦ inr (ap (λ x. users x.users) same)
  ]

  admitted_keeps :
      (refused : Option Refusal) (o : Option Route) (s : State A)
      → Changes o
        ⊎ (users (admitted A refused (λ s. run_route A o req s) s).1.users ≡ users s.users)
  admitted_keeps (some x) o s = inr refl
  admitted_keeps none o s = run_route_keeps o s

  -- When a request changes the rows of the table of users, it was a registration, or it carries a
  -- token that is accepted and whose role is admin.
  pub serve_changes :
      (s : State A)
      → users (serve A req s).1.users ≢ users s.users
      → (route req.method req.path ≡ some (public register)) ⊎ IsByAdmin A req
  unfolding serve
  serve_changes s changed =
      let run = middleware A.redis A.limits req.ip s.limiter in
      elim (admitted_keeps run.0 (route req.method req.path) (record s { limiter = run.1 })) [
        | inl by ↦ by
        | inr same ↦ absurd (changed same)
      ]

module _ (A : App) (req : Request A) where
  admin_refused :
      (r : AdminRoute) (s : State A) (found : Refusal ⊎ Claims)
      → authenticated A req ≡ found
      → IsByAdmin A req
        ⊎ ((x : Refusal) × ((guarded A found
                (λ claims s.
                  admitted A
                    (admin_middleware (some claims.role))
                    (λ s. run_admin A claims r req s)
                    s)
                s)
              ≡ (refusal x, s)))
  admin_refused r s (inl x) h = inr (x, refl)
  admin_refused r s (inr claims) h = elim (Option-cases (admin_middleware (some claims.role))) [
    | inl passes ↦ inl (claims, h, admitted_by claims.role passes)
    | inr (x, stops) ↦ inr (x, rw stops refl)
  ]

  -- A request for an admin route carries a token that is accepted and whose role is admin, or it
  -- is refused and leaves the users, the messages and the connections as they were.
  pub serve_admin :
      (r : AdminRoute) (s : State A)
      → route req.method req.path ≡ some (admin r)
      → IsByAdmin A req
        ⊎ ((x : Refusal) × ((serve A req s).0.reply ≡ refusal x)
            × ((serve A req s).1.users ≡ s.users)
            × ((serve A req s).1.server ≡ s.server))
  unfolding serve run_route
  serve_admin r s found =
      let run = middleware A.redis A.limits req.ip s.limiter in
      let s' : State A = record s { limiter = run.1 } in
      elim (Option-cases run.0) [
        | inr (x, limited) ↦ rw limited (inr (x, refl, refl, refl))
        | inl open_to_all ↦ rw open_to_all (
            rw found (elim (admin_refused r s' (authenticated A req) refl) [
              | inl by_admin ↦ inl by_admin
              | inr (x, refused) ↦ inr (
                x,
                ap (λ y. y.0) refused,
                ap (λ y. y.1.users) refused,
                ap (λ y. y.1.server) refused,
              )
            ]))
      ]
