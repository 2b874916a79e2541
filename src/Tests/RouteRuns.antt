-- ===== src/Tests/RouteRuns.antt =====
-- The theorems on web socket sessions and on routes on concrete inputs.
use digital_square.Base.{String, ◌≡◌, ◌≢◌, ◌⊎◌, inl, refl, none, some, [], ◌∷◌, arith}
use digital_square.Errors.{ok}
use digital_square.Models.{Time}
use digital_square.RateLimiter.{middleware, is_ip_banned, check_limit}
use digital_square.Http.{Refusal}
use digital_square.AuthHandler
use digital_square.AuthHandler.{RegisterRequest}
use digital_square.Wal.Contents.{no_write_faults}
use digital_square.WebSocketHandler.Session.{Read, waiting, handle_client}
use digital_square.WebSocketHandler.Session.Lifetime.{handle_client_ends}
use digital_square.Routes
use digital_square.Routes.{route}
use digital_square.Router
use digital_square.Router.{App, Request, State, authenticated, serve, run_route}
use digital_square.Router.Guards.{IsByAdmin, serve_changes, serve_admin}
use digital_square.Router.Accounts.{serve_all, serve_all_keeps}
use digital_square.Router.Privilege.{start, request, admin_unreachable}
use digital_square.UserRepository.History.{IsOtherThan, Grown}
use digital_square.Base.Pairs.{AllPairs}
use digital_square.Auth.{auth_middleware, token_string}
use digital_square.Tests.Memory.{memory, empty_store}
use digital_square.Tests.Samples.{parts}
use digital_square.Tests.MiddlewareRuns.{cfg}
use digital_square.Tests.HandlerRuns.{bob, server, say_hello}
use digital_square.Tests.Users.{user_table-IsUserTable}
use digital_square.Tests.AccountRuns.{accounts, salt, ann, added}

-- A request that arrives after 16 minutes.
abbrev late_read : Read parts
late_read = record {
  at = 960000000000;
  meanwhile = λ s. s;
  request = some say_hello;
  fresh = 1;
  now = 960000000000;
  faults = no_write_faults;
}

abbrev no_format : Time → String
no_format t = ""

handle_client_ends_example :
    (handle_client parts no_format bob 0 0 (late_read ∷ []) server).0 ≢ waiting
handle_client_ends_example =
    handle_client_ends parts no_format bob 0 0 (late_read ∷ []) server (inl (omega arith))

abbrev ann_registration : RegisterRequest
ann_registration = record { username = "ann"; email = "ann@b.co"; password = "password" }

abbrev app : App
app = record {
  auth = accounts;
  messages = parts;
  redis = memory;
  limits = cfg;
  format = no_format;
  uuid_text = λ id. "";
  register_request = λ body. some ann_registration;
  login_request = λ body. none;
  ban_user_request = λ body. none;
  ban_bulk_request = λ body. none;
}

abbrev registration : Request app
registration = record {
  method = "POST";
  path = "/api/auth/register";
  ip = "::1";
  credentials = record { cookie = none; authorization = "" };
  body = "";
  now = 10;
  fresh = 7;
  salt = ok salt;
  upgrade = none;
  reads = [];
}

abbrev nobody : State app
nobody = record { limiter = empty_store; users = []; server = server }

not_limited : (middleware memory cfg "::1" empty_store).0 ≡ none
unfolding middleware check_limit is_ip_banned
not_limited = refl

known_registration : route "POST" "/api/auth/register" ≡ some (Routes.public Routes.register)
unfolding route
known_registration = refl

ann_added : (serve app registration nobody).1.users ≡ ann ∷ []
unfolding serve run_route AuthHandler.register
ann_added = rw not_limited (rw known_registration added)

serve_changes_example :
    (route "POST" "/api/auth/register" ≡ some (Routes.public Routes.register))
    ⊎ IsByAdmin app registration
serve_changes_example =
    serve_changes app (λ rows. rows) user_table-IsUserTable registration nobody
      (λ e. cc (e, ann_added))

abbrev listing : Request app
listing = record registration { method = "GET"; path = "/api/admin/users" }

known_listing : route "GET" "/api/admin/users" ≡ some (Routes.admin Routes.all_users)
unfolding route
known_listing = refl

serve_admin_example :
    IsByAdmin app listing
    ⊎ ((x : Refusal) × ((serve app listing nobody).0.reply ≡ Router.refusal x)
        × ((serve app listing nobody).1.users ≡ [])
        × ((serve app listing nobody).1.server ≡ server))
serve_admin_example = serve_admin app listing Routes.all_users nobody known_listing

serve_all_keeps_example :
    let after = serve_all app (registration ∷ listing ∷ []) nobody in
    Grown [] after.users × AllPairs IsOtherThan after.users
serve_all_keeps_example =
    serve_all_keeps app (λ rows. rows) user_table-IsUserTable (registration ∷ listing ∷ []) nobody
      tt

-- Requests that carry no token.
abbrev no_token : Refusal
no_token = record { status = 401; error = "Authentication required"; retry_after = none }

unknown_registration : authenticated app registration ≡ inl no_token
unfolding auth_middleware token_string
unknown_registration = refl

unknown_listing : authenticated app listing ≡ inl no_token
unfolding auth_middleware token_string
unknown_listing = refl

admin_unreachable_example :
    let t = (serve app registration nobody).1 in
    (x : Refusal) × ((serve app listing t).0.reply ≡ Router.refusal x)
    × ((serve app listing t).1.users ≡ t.users)
    × ((serve app listing t).1.server ≡ t.server)
admin_unreachable_example =
    admin_unreachable app (λ rows. rows) user_table-IsUserTable nobody _ _ listing Routes.all_users
      (request start registration (λ claims accepted. cc (accepted, unknown_registration))) tt
      (λ claims accepted. cc (accepted, unknown_listing)) known_listing
