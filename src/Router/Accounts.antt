-- ===== src/Router/Accounts.antt =====
-- What one request, and what any number of requests can do to the accounts.
use digital_square.Base.{
  ◌≡◌, ◌⊎◌, sym, ap, subst, inl, inr, Bool-cases, ◌&&◌, Option, Option-cases, none, some, List, [],
  ◌∷◌,
}
use digital_square.Base.Pairs.{AllPairs}
use digital_square.Action.{Result-cases}
use digital_square.Models.{User}
use digital_square.Http.{Refusal}
use digital_square.Auth.{Claims, admin_middleware}
use digital_square.RateLimiter.{middleware}
use digital_square.UserRepository.{IsUserTable}
use digital_square.UserRepository.History.{
  IsOtherThan, AccountStep, keeps, Grown, Grown-refl, Grown-trans, AccountStep-Grown,
  AccountStep-IsOtherThan,
}
use digital_square.AuthService
use digital_square.AuthService.Steps.{register_step, ban_user_step, ban_bulk_step}
use digital_square.AuthHandler
use digital_square.AuthHandler.{is_complete_registration, is_given}
use digital_square.AdminHandler
use digital_square.AdminHandler.{is_set}
use digital_square.Routes.{
  PublicRoute, AdminRoute, Route, register, login, all_users, ban_user, ban_bulk, public, protected,
  admin, route,
}
use digital_square.Router.{
  App, Request, State, run_public, run_admin, run_ban_user, run_ban_bulk, run_protected,
  authenticated, guarded, admitted, run_route, serve,
}
use digital_square.Router.Guards.{login_keeps, protected_step}

module _ (A : App) where
  -- The state after a list of requests, one after the other.
  pub serve_all : List (Request A) → State A → State A
  serve_all [] s = s
  serve_all (req ∷ reqs) s = serve_all reqs (serve A req s).1

module _ (A : App) (users : AuthService.State A.auth → List User)
    (L : IsUserTable A.auth.table users) where
  abbrev Steps : State A → State A → Type 0
  Steps s s' = AccountStep (users s.users) (users s'.users)

  kept_step : (s s' : State A) → users s'.users ≡ users s.users → Steps s s'
  kept_step s s' kept = subst (AccountStep (users s.users)) (sym kept) keeps

  public_step : (req : Request A) (r : PublicRoute) (s : State A) → Steps s (run_public A r req s).1
  unfolding AuthHandler.register
  public_step req login s = kept_step s (run_public A login req s).1 (login_keeps A users L req s)
  public_step req register s = elim (Option-cases (A.register_request req.body)) [
    | inl missing ↦ rw missing keeps
    | inr (given, parsed) ↦ elim (Bool-cases (is_complete_registration given)) [
      | inr incomplete ↦ rw parsed (rw incomplete keeps)
      | inl complete ↦ rw parsed (
          rw complete (
            register_step A.auth users L req.now req.now req.fresh req.salt given.username
              given.email given.password s.users))
    ]
  ]

  ban_step :
      (req : Request A) (claims : Claims) (s : State A) → Steps s (run_ban_user A claims req s).1
  unfolding AdminHandler.ban_user
  ban_step req claims s = elim (Option-cases (A.ban_user_request req.body)) [
    | inl missing ↦ rw missing keeps
    | inr (given, parsed) ↦ elim (Bool-cases (is_given given.user_id && is_given given.reason)) [
      | inr incomplete ↦ rw parsed (rw incomplete keeps)
      | inl complete ↦ rw parsed (
          rw complete (
            ban_user_step A.auth users L req.now given.user_id (A.uuid_text claims.user_id)
              given.reason s.users))
    ]
  ]

  bulk_step :
      (req : Request A) (claims : Claims) (s : State A) → Steps s (run_ban_bulk A claims req s).1
  unfolding AdminHandler.ban_bulk
  bulk_step req claims s = elim (Option-cases (A.ban_bulk_request req.body)) [
    | inl missing ↦ rw missing keeps
    | inr (given, parsed) ↦ elim (Bool-cases (is_set given.user_ids && is_given given.reason)) [
      | inr incomplete ↦ rw parsed (rw incomplete keeps)
      | inl complete ↦ rw parsed (
          rw complete (
            ban_bulk_step A.auth users L req.now (AdminHandler.ids_of given.user_ids)
              (A.uuid_text claims.user_id) given.reason s.users))
    ]
  ]

  admin_step :
      (req : Request A) (claims : Claims) (r : AdminRoute) (s : State A)
      → Steps s (run_admin A claims r req s).1
  admin_step req claims all_users s = elim (Result-cases (A.auth.table.find_all s.users).0) [
    | inl (found, done) ↦
        kept_step s (run_admin A claims all_users req s).1 (rw done (L.all_reads s.users))
    | inr (e, failed) ↦
        kept_step s (run_admin A claims all_users req s).1 (rw failed (L.all_reads s.users))
  ]
  admin_step req claims ban_user s = ban_step req claims s
  admin_step req claims ban_bulk s = bulk_step req claims s

  admin_middleware_step :
      (req : Request A) (r : AdminRoute) (claims : Claims) (s : State A) (refused : Option Refusal)
      → Steps s (admitted A refused (λ s. run_admin A claims r req s) s).1
  admin_middleware_step req r claims s none = admin_step req claims r s
  admin_middleware_step req r claims s (some x) = keeps

  admin_route_step :
      (req : Request A) (r : AdminRoute) (s : State A) (found : Refusal ⊎ Claims)
      → Steps s
          (guarded A found
            (λ claims s.
              admitted A (admin_middleware (some claims.role)) (λ s. run_admin A claims r req s) s)
            s).1
  admin_route_step req r s (inl x) = keeps
  admin_route_step req r s (inr claims) =
      admin_middleware_step req r claims s (admin_middleware (some claims.role))

  route_step : (req : Request A) (o : Option Route) (s : State A) → Steps s (run_route A o req s).1
  unfolding run_route
  route_step req none s = keeps
  route_step req (some (public r)) s = public_step req r s
  route_step req (some (protected r)) s =
      kept_step s (guarded A (authenticated A req) (λ claims s. run_protected A claims r req s) s).1
        (ap users (protected_step A users L req r s (authenticated A req)))
  route_step req (some (admin r)) s = admin_route_step req r s (authenticated A req)

  admitted_step :
      (req : Request A) (refused : Option Refusal) (o : Option Route) (s : State A)
      → Steps s (admitted A refused (λ s. run_route A o req s) s).1
  admitted_step req (some x) o s = keeps
  admitted_step req none o s = route_step req o s

  pub serve_step : (req : Request A) (s : State A) → Steps s (serve A req s).1
  unfolding serve
  serve_step req s =
      let run = middleware A.redis A.limits req.ip s.limiter in
      admitted_step req run.0 (route req.method req.path) (record s { limiter = run.1 })

  serve_all-Grown :
      (reqs : List (Request A)) (s : State A)
      → Grown (users s.users) (users (serve_all A reqs s).users)
  unfolding serve_all
  serve_all-Grown [] s = Grown-refl (users s.users)
  serve_all-Grown (req ∷ reqs) s =
      let s' = (serve A req s).1 in
      Grown-trans (users s.users) (users s'.users) (users (serve_all A reqs s').users)
        (AccountStep-Grown (users s.users) (users s'.users) (serve_step req s))
        (serve_all-Grown reqs s')

  serve_all-IsOtherThan :
      (reqs : List (Request A)) (s : State A)
      → AllPairs IsOtherThan (users s.users)
      → AllPairs IsOtherThan (users (serve_all A reqs s).users)
  unfolding serve_all
  serve_all-IsOtherThan [] s h = h
  serve_all-IsOtherThan (req ∷ reqs) s h =
      let s' = (serve A req s).1 in
      serve_all-IsOtherThan reqs s'
        (AccountStep-IsOtherThan (users s.users) (users s'.users) (serve_step req s) h)

  -- Where all accounts have different addresses and different names, they have after any list of
  -- requests. Every account is still there then, with its id, names, hash and role, a banned one
  -- is still banned, and those that are new have the role of a user.
  pub serve_all_keeps :
      (reqs : List (Request A)) (s : State A)
      → AllPairs IsOtherThan (users s.users)
      → Grown (users s.users) (users (serve_all A reqs s).users)
        × AllPairs IsOtherThan (users (serve_all A reqs s).users)
  serve_all_keeps reqs s h = (serve_all-Grown reqs s, serve_all-IsOtherThan reqs s h)
