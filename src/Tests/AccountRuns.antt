-- ===== src/Tests/AccountRuns.antt =====
-- The theorems on accounts on concrete inputs, with a stand-in for argon2 whose key is the length of
-- the password, again and again.
use digital_square.Base.{
  ℕ, zero, suc, ◌%◌, ◌=?◌, ◌||◌, len, String, ◌==◌, ◌≡◌, ◌↔◌, inl, refl, ap, subst, true, false,
  none, some, List, [], ◌∷◌, length, All, arith, if◌then◌else◌,
}
use digital_square.Errors.{panicked, Error, ok, err}
use digital_square.Models.{User}
use digital_square.Base64.RoundTrip.{IsByte}
use digital_square.Hash.{Argon, IsArgon, hash_password}
use digital_square.UserRepository.{create_user, get_user_by_email, get_user_by_username}
use digital_square.AuthService.{Parts, register, login, new_user, validate_register_input}
use digital_square.AuthService.Input.{IsRegistration, validate_register_input_iff}
use digital_square.AuthService.Register.{IsRegistered, register-IsRegistered}
use digital_square.AuthService.Refused.{register_banned}
use digital_square.AuthService.Returning.{login-register}
use digital_square.Auth.{generate_token}
use digital_square.Tests.Users.{user_table, user_table-IsUserTable}
use digital_square.Tests.MiddlewareRuns.{jwt}
use digital_square.Regex.{match}

abbrev repeat : ℕ → ℕ → List ℕ
repeat zero x = []
repeat (suc n) x = x ∷ repeat n x

abbrev byte_of : String → ℕ
byte_of password = len password % 256

abbrev pub argon : Argon
argon = record {
  id_key = λ password salt t m p n.
      if t =? 0 || p =? 0 then err panicked else ok (repeat n (byte_of password));
}

All-repeat : (n x : ℕ) → IsByte x → All IsByte (repeat n x)
All-repeat zero x h = tt
All-repeat (suc n) x h = (h, All-repeat n x h)

length-repeat : (n x : ℕ) → length (repeat n x) ≡ n
length-repeat zero x = refl
length-repeat (suc n) x = ap suc (length-repeat n x)

byte_of-IsByte : (password : String) → IsByte (byte_of password)
byte_of-IsByte password = omega arith

pub argon-IsArgon : IsArgon argon
argon-IsArgon = record {
  makes_key = λ password salt t m p n ht hp hn.
      let given : (t =? 0 || p =? 0) ≡ false = ground (arith, ht, hp) in
      (
        repeat n (byte_of password),
        rw given refl,
        All-repeat n (byte_of password) (byte_of-IsByte password),
        length-repeat n (byte_of password),
      );
}

abbrev pub accounts : Parts
accounts = record {
  table = user_table;
  argon = argon;
  jwt = jwt;
  parse_uuid = λ t. if t == "7" then some 7 else if t == "9" then some 9 else none;
  jwt_secret = "secret";
  jwt_expiration = 90;
  environment = "production";
}

abbrev pub salt : List ℕ
salt = 1 ∷ 2 ∷ []

pub made_hash : (h : String) × (hash_password argon (ok salt) "password" ≡ ok h)
unfolding hash_password
made_hash = (_, refl)

abbrev ann_hash : String
ann_hash = made_hash.0

abbrev pub ann : User
ann = new_user 7 "ann" "ann@b.co" ann_hash

is_valid : validate_register_input "ann" "ann@b.co" "password" ≡ ok tt
unfolding validate_register_input match
is_valid = refl

pub registered :
    (register accounts 10 10 7 (ok salt) "ann" "ann@b.co" "password" []).0 ≡ ok (ann, "user")
unfolding register create_user get_user_by_email get_user_by_username generate_token
registered = rw is_valid (rw made_hash.1 refl)

register-IsRegistered_example :
    IsRegistered accounts
      (λ rows. rows)
      10
      7
      (ok salt)
      "ann"
      "ann@b.co"
      "password"
      []
      (register accounts 10 10 7 (ok salt) "ann" "ann@b.co" "password" []).1
      ann
      "user"
register-IsRegistered_example =
    register-IsRegistered accounts (λ rows. rows) user_table-IsUserTable 10 10 7 (ok salt) "ann"
      "ann@b.co" "password" [] ann "user" registered

validate_register_input_iff_example :
    (validate_register_input "ann" "ann@b.co" "password" ≡ ok tt)
    ↔ IsRegistration "ann" "ann@b.co" "password"
validate_register_input_iff_example = validate_register_input_iff "ann" "ann@b.co" "password"

ann_input : IsRegistration "ann" "ann@b.co" "password"
ann_input = (validate_register_input_iff "ann" "ann@b.co" "password").0 is_valid

abbrev banned_ann : User
banned_ann = record ann { deleted_at = record { time = 5; valid = true }; username = "old" }

register_banned_example :
    (e : Error) × ((user_table.create 10 (new_user 7 "ann" "ann@b.co" ann_hash) (banned_ann ∷ [])).0
      ≡ err e)
    × ((register accounts 10 10 7 (ok salt) "ann" "ann@b.co" "password" (banned_ann ∷ [])).0
        ≡ err e)
unfolding get_user_by_email get_user_by_username
register_banned_example =
    register_banned accounts (λ rows. rows) user_table-IsUserTable 10 10 7 (ok salt) "ann"
      "ann@b.co" "password" (banned_ann ∷ []) ann_hash ann_input refl refl made_hash.1 (inl refl)

pub bytes_of_salt : All IsByte salt
bytes_of_salt = (omega arith, (omega arith, tt))

pub added : (register accounts 10 10 7 (ok salt) "ann" "ann@b.co" "password" []).1 ≡ ann ∷ []
added =
    let made =
      register-IsRegistered accounts (λ rows. rows) user_table-IsUserTable 10 10 7 (ok salt) "ann"
        "ann@b.co" "password" [] ann "user" registered in
    made.added

found_ann :
    (get_user_by_email user_table "ann@b.co"
      (register accounts 10 10 7 (ok salt) "ann" "ann@b.co" "password" []).1).0
    ≡ ok (some ann)
unfolding get_user_by_email
found_ann = rw added refl

login_signed : generate_token jwt 10 ann "secret" 90 ≡ ok "user"
unfolding generate_token
login_signed = refl

logs_in_registered :
    (login accounts 10 "ann@b.co" "password"
      (register accounts 10 10 7 (ok salt) "ann" "ann@b.co" "password" []).1).0
    ≡ ok (ann, "user")
logs_in_registered =
    login-register accounts (λ rows. rows) user_table-IsUserTable 10 10 7 salt "ann" "ann@b.co"
      "password" [] ann "user" registered argon-IsArgon bytes_of_salt 10 (some ann) "user" found_ann
      login_signed

login-register_example :
    (login accounts 10 "ann@b.co" "password"
      (register accounts 10 10 7 (ok salt) "ann" "ann@b.co" "password" []).1).0
    ≡ ok (ann, "user")
login-register_example =
    login-register accounts (λ rows. rows) user_table-IsUserTable 10 10 7 salt "ann" "ann@b.co"
      "password" [] ann "user" registered argon-IsArgon bytes_of_salt 10 (some ann) "user" found_ann
      login_signed

pub logs_in : (login accounts 10 "ann@b.co" "password" (ann ∷ [])).0 ≡ ok (ann, "user")
logs_in =
    subst (λ s. (login accounts 10 "ann@b.co" "password" s).0 ≡ ok (ann, "user")) added
      logs_in_registered
