-- ===== src/AuthHandler.antt =====
-- backend/internal/handler/auth_handler.go. A request is `none` where its body is no JSON object of
-- the request's type; a field that the body omits is the empty text. gin's Recovery, which gin.Default
-- puts around the handlers, answers a panic with an empty body.
pub mod Cookies
use digital_square.Base.{
  ℕ, ◌*◌, String, ◌==◌, Bool, true, not, ◌&&◌, ◌⊎◌, inl, inr, Option, none, some, if◌then◌else◌,
  List,
}
use digital_square.Errors.{Error, text, is_panicked, Result, ok, err}
use digital_square.Models.{Uuid, Time, Role, User}
use digital_square.Http.{Refusal}
use digital_square.AuthService
use digital_square.AuthService.{Parts, State, is_production}

pub record RegisterRequest : Type 0 where
  pub username : String
  pub email : String
  pub password : String

pub record LoginRequest : Type 0 where
  pub email : String
  pub password : String

pub record Cookie : Type 0 where
  pub name : String
  pub value : String
  pub max_age : ℕ
  pub path : String
  pub domain : String
  pub secure : Bool
  pub http_only : Bool
  pub same_site : String

pub record UserBody : Type 0 where
  pub id : Uuid
  pub username : String
  pub email : String
  pub role : Role

pub record Session : Type 0 where
  pub status : ℕ
  pub message : String
  pub user : UserBody
  pub cookie : Cookie

abbrev pub refused : ℕ → String → Refusal
refused status error = record { status = status; error = error; retry_after = none }

-- `binding:"required"`
abbrev pub is_given : String → Bool
is_given field = not (field == "")

abbrev pub is_complete_registration : RegisterRequest → Bool
is_complete_registration req = is_given req.username && is_given req.email && is_given req.password

abbrev pub is_complete_login : LoginRequest → Bool
is_complete_login req = is_given req.email && is_given req.password

module _ (P : Parts) where
  abbrev pub user_body : User → UserBody
  user_body user = record {
    id = user.id;
    username = user.username;
    email = user.email;
    role = user.role;
  }

  abbrev pub token_cookie : String → Cookie
  token_cookie token = record {
    name = "token";
    value = token;
    max_age = 7 * 24 * 60 * 60;
    path = "/";
    domain = "";
    secure = is_production P;
    http_only = true;
    same_site = "Lax";
  }

  abbrev pub answer : ℕ → ℕ → String → Result (User × String) → Refusal ⊎ Session
  answer error_status status message (err e) =
      inl (if is_panicked e then refused 500 "" else refused error_status (text e))
  answer error_status status message (ok (user, token)) = inr (record {
    status = status;
    message = message;
    user = user_body user;
    cookie = token_cookie token;
  })

  abbrev pub run_register :
      Time
      → Time
      → Uuid
      → Result (List ℕ)
      → RegisterRequest
      → State P
      → (Refusal ⊎ Session) × State P
  run_register now issued id salt req s =
      let (r, s') =
        AuthService.register P now issued id salt req.username req.email req.password s in
      (answer 400 201 "User registered successfully" r, s')

  unfoldable pub register :
      Time
      → Time
      → Uuid
      → Result (List ℕ)
      → Option RegisterRequest
      → State P
      → (Refusal ⊎ Session) × State P
  register now issued id salt none s = (inl (refused 400 "Invalid request body"), s)
  register now issued id salt (some req) s =
      if is_complete_registration req
      then run_register now issued id salt req s
      else (inl (refused 400 "Invalid request body"), s)

  abbrev pub run_login : Time → LoginRequest → State P → (Refusal ⊎ Session) × State P
  run_login issued req s =
      let (r, s') = AuthService.login P issued req.email req.password s in
      (answer 401 200 "Login successful" r, s')

  unfoldable pub login : Time → Option LoginRequest → State P → (Refusal ⊎ Session) × State P
  login issued none s = (inl (refused 400 "Invalid request body"), s)
  login issued (some req) s =
      if is_complete_login req
      then run_login issued req s
      else (inl (refused 400 "Invalid request body"), s)
