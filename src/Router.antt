-- ===== src/Router.antt =====
-- The routes of backend/cmd/server/main.go: every request goes through the headers, the rate limiter,
-- the middlewares of its group and its handler; the requests are those that the CORS middleware lets
-- through. The counters of the rate limiter and the cached messages have different keys, so they are
-- two states here.
pub mod Guards
pub mod Accounts
pub mod Sessions
pub mod Privilege
use digital_square.Base.{
  ℕ, ◌*◌, String, ◌==◌, Bool, true, false, ◌&&◌, ◌⊎◌, inl, inr, Option, none, some, List, [], ◌∷◌,
  ◌++◌, if◌then◌else◌,
}
use digital_square.Errors.{Result}
use digital_square.Routes.{
  PublicRoute, ProtectedRoute, AdminRoute, Route, register, login, web_socket, get_before,
  all_users, ban_user, ban_bulk, public, protected, admin, route,
}
use digital_square.Models.{Uuid, Time, User}
use digital_square.Redis.{Redis}
use digital_square.RateLimiter
use digital_square.RateLimiter.{Config, middleware}
use digital_square.Http.{Refusal}
use digital_square.SecurityHeaders.{Header, security_headers, hsts_headers}
use digital_square.Auth
use digital_square.Auth.{Claims, auth_middleware, admin_middleware}
use digital_square.AuthService
use digital_square.AuthService.{is_production}
use digital_square.AuthHandler
use digital_square.AuthHandler.{RegisterRequest, LoginRequest, Session, refused}
use digital_square.AdminHandler
use digital_square.AdminHandler.{BanUserRequest, BanBulkRequest, UserJson}
use digital_square.MessageService
use digital_square.MessageHandler
use digital_square.MessageHandler.{Page}
use digital_square.WebSocketHandler.{Server}
use digital_square.WebSocketHandler.Session.{Read, End, handle_web_socket}

pub record App : Type 1 where
  pub auth : AuthService.Parts
  pub messages : MessageService.Parts
  pub redis : Redis
  pub limits : Config
  pub format : Time → String
  pub uuid_text : Uuid → String
  -- encoding/json on a request's body
  pub register_request : String → Option RegisterRequest
  pub login_request : String → Option LoginRequest
  pub ban_user_request : String → Option BanUserRequest
  pub ban_bulk_request : String → Option BanBulkRequest

-- What stands in a request, and what the handler reads of its surroundings. `upgrade` and `reads` are
-- those of a web socket.
pub record Request (A : App) : Type 0 where
  pub method : String
  pub path : String
  pub ip : String
  pub credentials : Auth.Request
  pub body : String
  pub now : Time
  pub fresh : Uuid
  pub salt : Result (List ℕ)
  pub upgrade : Option ℕ
  pub reads : List (Read A.messages)

pub record State (A : App) : Type 0 where
  pub limiter : A.redis.State
  pub users : AuthService.State A.auth
  pub server : Server A.messages

pub data Reply : Type 0 where
  not_found : Reply
  refusal : Refusal → Reply
  session_of : Session → Reply
  page_of : Page → Reply
  users_of : List UserJson → Reply
  message_of : String → Reply
  socket_of : Option End → Reply

pub record Response : Type 0 where
  pub headers : List Header
  pub reply : Reply

abbrev reply_of : {B : Type 0} → (B → Reply) → Refusal ⊎ B → Reply
reply_of f (inl r) = refusal r
reply_of f (inr b) = f b

module _ (A : App) where
  abbrev with_users : State A → Reply × AuthService.State A.auth → Reply × State A
  with_users s (r, t) = (r, record s { users = t })

  abbrev pub run_register : Request A → State A → Reply × State A
  run_register req s =
      let (r, t) =
        AuthHandler.register A.auth req.now req.now req.fresh req.salt (A.register_request req.body)
          s.users in
      with_users s (reply_of session_of r, t)

  abbrev pub run_login : Request A → State A → Reply × State A
  run_login req s =
      let (r, t) = AuthHandler.login A.auth req.now (A.login_request req.body) s.users in
      with_users s (reply_of session_of r, t)

  abbrev pub socket_reply : State A → Refusal ⊎ (Option End × Server A.messages) → Reply × State A
  socket_reply s (inl r) = (refusal r, s)
  socket_reply s (inr (end, server)) = (socket_of end, record s { server = server })

  abbrev run_web_socket : Option Claims → Request A → State A → Reply × State A
  run_web_socket claims req s =
      socket_reply s
        (handle_web_socket A.messages A.format req.now claims req.upgrade req.reads s.server)

  abbrev run_get_before : Option Claims → String → State A → Reply × State A
  run_get_before claims id s =
      let (r, t) = MessageHandler.get_before A.messages claims id s.server.service in
      (reply_of page_of r, record s { server = record s.server { service = t } })

  abbrev run_all_users : State A → Reply × State A
  run_all_users s =
      let (r, t) = AdminHandler.all_users A.auth s.users in with_users s (reply_of users_of r, t)

  abbrev pub run_ban_user : Claims → Request A → State A → Reply × State A
  run_ban_user claims req s =
      let (r, t) =
        AdminHandler.ban_user A.auth req.now (A.uuid_text claims.user_id)
          (A.ban_user_request req.body) s.users in
      with_users s (reply_of message_of r, t)

  abbrev pub run_ban_bulk : Claims → Request A → State A → Reply × State A
  run_ban_bulk claims req s =
      let (r, t) =
        AdminHandler.ban_bulk A.auth req.now (A.uuid_text claims.user_id)
          (A.ban_bulk_request req.body) s.users in
      with_users s (reply_of message_of r, t)

  abbrev pub run_public : PublicRoute → Request A → State A → Reply × State A
  run_public register req s = run_register req s
  run_public login req s = run_login req s

  abbrev pub run_protected : Claims → ProtectedRoute → Request A → State A → Reply × State A
  run_protected claims web_socket req s = run_web_socket (some claims) req s
  run_protected claims (get_before id) req s = run_get_before (some claims) id s

  abbrev pub run_admin : Claims → AdminRoute → Request A → State A → Reply × State A
  run_admin claims all_users req s = run_all_users s
  run_admin claims ban_user req s = run_ban_user claims req s
  run_admin claims ban_bulk req s = run_ban_bulk claims req s

  abbrev pub authenticated : Request A → Refusal ⊎ Claims
  authenticated req = auth_middleware A.auth.jwt req.now A.auth.jwt_secret req.credentials

  abbrev pub guarded :
      Refusal ⊎ Claims → (Claims → State A → Reply × State A) → State A → Reply × State A
  guarded (inl r) next s = (refusal r, s)
  guarded (inr claims) next s = next claims s

  abbrev pub admitted : Option Refusal → (State A → Reply × State A) → State A → Reply × State A
  admitted (some r) next s = (refusal r, s)
  admitted none next s = next s

  unfoldable pub run_route : Option Route → Request A → State A → Reply × State A
  run_route none req s = (not_found, s)
  run_route (some (public r)) req s = run_public r req s
  run_route (some (protected r)) req s =
      guarded (authenticated req) (λ claims s. run_protected claims r req s) s
  run_route (some (admin r)) req s =
      guarded (authenticated req)
        (λ claims s.
          admitted (admin_middleware (some claims.role)) (λ s. run_admin claims r req s) s)
        s

  abbrev headers : List Header
  headers = security_headers ++ hsts_headers (is_production A.auth)

  abbrev pub answered : Reply × State A → Response × State A
  answered (r, s) = (record { headers = headers; reply = r }, s)

  unfoldable pub serve : Request A → State A → Response × State A
  serve req s =
      let (refused, limiter) = middleware A.redis A.limits req.ip s.limiter in
      answered (
        admitted refused (λ s. run_route (route req.method req.path) req s)
          (record s { limiter = limiter }))
