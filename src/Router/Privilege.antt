-- ===== src/Router/Privilege.antt =====
-- Who can reach the admin routes, when tokens come from the server alone: requests one after the
-- other, with the sessions that the earlier ones were answered with.
use digital_square.Base.{
  ◌≡◌, ◌∙◌, inl, inr, some, List, [], ◌++◌, All-append, Has, Has-All, Has_elim,
}
use digital_square.Models.{User}
use digital_square.Http.{Refusal}
use digital_square.Auth.{Claims}
use digital_square.UserRepository.{IsUserTable}
use digital_square.UserRepository.History.{AccountStep-no_admin}
use digital_square.AuthService
use digital_square.AuthHandler.{Session}
use digital_square.Routes.{AdminRoute, admin, route}
use digital_square.Router.{App, Request, State, refusal, authenticated, serve}
use digital_square.Router.Guards.{serve_admin}
use digital_square.Router.Accounts.{serve_step}
use digital_square.Router.Sessions.{opened, NoAdmin, AreUsers, opened-serve}

-- A token that is accepted has the role of a session that was opened before.
abbrev IsHonest : (A : App) → List Session → Request A → Type 0
IsHonest A sessions req =
    (claims : Claims)
    → authenticated A req ≡ inr claims
    → Has (λ session. session.user.role ≡ claims.role) sessions

-- Requests one after the other, from the state `s` and with no session open. The list holds the
-- sessions that were opened.
pub data Run (A : App) (s : State A) : List Session → State A → Type 0 where
  start : Run A s [] s
  request :
      {sessions : List Session} {t : State A}
      → Run A s sessions t
      → (req : Request A) → IsHonest A sessions req
      → Run A s (opened (serve A req t).0.reply ++ sessions) (serve A req t).1

module _ (A : App) (users : AuthService.State A.auth → List User)
    (L : IsUserTable A.auth.table users) (s : State A) where
  run-NoAdmin :
      {sessions : List Session} {t : State A}
      → Run A s sessions t
      → NoAdmin (users s.users)
      → NoAdmin (users t.users) × AreUsers sessions
  run-NoAdmin start plain = (plain, tt)
  run-NoAdmin (request {sessions} {t} run req honest) plain =
      let (before, opened_before) = run-NoAdmin run plain in
      (
        AccountStep-no_admin (users t.users) (users (serve A req t).1.users)
            (serve_step A users L req t) before,
        All-append _ (opened (serve A req t).0.reply) sessions (opened-serve A users L req t before)
            opened_before,
      )

  -- Take any run of requests from a state in which no account is an administrator, where each
  -- token that is accepted has the role of a session that an earlier request of the run opened.
  -- Then a request for an admin route is refused, and leaves the users, the messages and the
  -- connections as they were.
  pub admin_unreachable :
      (sessions : List Session) (t : State A) (req : Request A) (r : AdminRoute)
      → Run A s sessions t
      → NoAdmin (users s.users)
      → IsHonest A sessions req
      → route req.method req.path ≡ some (admin r)
      → (x : Refusal) × ((serve A req t).0.reply ≡ refusal x)
        × ((serve A req t).1.users ≡ t.users)
        × ((serve A req t).1.server ≡ t.server)
  admin_unreachable sessions t req r run plain honest found =
      let (_, are_users) = run-NoAdmin run plain in
      elim (serve_admin A req r t found) [
        | inr refused ↦ refused
        | inl (claims, accepted, is_admin) ↦ absurd (
            Has_elim _ ⊥ sessions (λ session both. both.1 (both.0 ∙ is_admin))
              (Has-All _ _ sessions (honest claims accepted) are_users))
      ]
