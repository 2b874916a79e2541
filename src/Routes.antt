-- ===== src/Routes.antt =====
-- The table of routes in backend/cmd/server/main.go, by the middlewares of their groups. gin's matching
-- of a path is written out for the patterns that the table has; its redirect of a path that only has a
-- slash too many is left out.
use digital_square.Base.{String, ◌==◌, ◌&&◌, Option, none, some, List, [], ◌∷◌, if◌then◌else◌}
use digital_square.Text.{split}

pub data PublicRoute : Type 0 where
  register login : PublicRoute

pub data ProtectedRoute : Type 0 where
  web_socket : ProtectedRoute
  get_before : String → ProtectedRoute

pub data AdminRoute : Type 0 where
  all_users ban_user ban_bulk : AdminRoute

pub data Route : Type 0 where
  public : PublicRoute → Route
  protected : ProtectedRoute → Route
  admin : AdminRoute → Route

-- gin finds the pattern of a method and a path; `:id` stands for one segment that is not empty.
abbrev page_route : String → List String → Option Route
page_route method (empty ∷ api ∷ messages ∷ before ∷ id ∷ []) =
    if method == "GET"
      && empty == ""
      && api == "api"
      && messages == "messages"
      && before == "before"
    then if id == "" then none else some (protected (get_before id))
    else none
page_route method _ = none

abbrev fixed_route : String → String → Option Route
fixed_route method path =
    if method == "POST" && path == "/api/auth/register"
    then some (public register)
    else if method == "POST" && path == "/api/auth/login"
    then some (public login)
    else if method == "GET" && path == "/api/ws"
    then some (protected web_socket)
    else if method == "GET" && path == "/api/admin/users"
    then some (admin all_users)
    else if method == "POST" && path == "/api/admin/ban"
    then some (admin ban_user)
    else if method == "POST" && path == "/api/admin/ban-bulk"
    then some (admin ban_bulk)
    else none

abbrev or_page_route : String → String → Option Route → Option Route
or_page_route method path (some r) = some r
or_page_route method path none = page_route method (split b'/' path)

unfoldable pub route : String → String → Option Route
route method path = or_page_route method path (fixed_route method path)
