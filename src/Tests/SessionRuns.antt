-- ===== src/Tests/SessionRuns.antt =====
-- The theorems on bans, hashes, cookies and routes on concrete inputs.
use digital_square.Base.{
  none, ◌++◌, String, ◌==◌, ◌≡◌, ◌≢◌, ◌↔◌, inr, refl, sym, subst, true, false, some, List, [], ◌∷◌,
  Has, if◌then◌else◌,
}
use digital_square.Errors.{ok}
use digital_square.Models.{User, role_admin}
use digital_square.Hash.{hash_password, verify_password}
use digital_square.Hash.RoundTrip.{key_of, verify_password-hash_password}
use digital_square.Auth.{admin_middleware}
use digital_square.UserRepository.{kept_user, soft_delete_user}
use digital_square.AuthService.{login, ban_user}
use digital_square.AuthService.Ban.{login-ban_user}
use digital_square.AuthHandler
use digital_square.AuthHandler.{
  LoginRequest, RegisterRequest, Session, UserBody, user_body, token_cookie,
}
use digital_square.AuthHandler.Cookies.{IsOpen, login_opens, register_opens}
use digital_square.AdminHandler
use digital_square.AdminHandler.{BanBulkRequest}
use digital_square.AdminHandler.Answers.{Answered, ban_bulk_answers}
use digital_square.Seed.{created, seed}
use digital_square.Seed.Again.{seed_again}
use digital_square.Tests.Users.{user_table, user_table-IsUserTable}
use digital_square.Tests.MiddlewareRuns.{jwt-IsJwt}
use digital_square.Tests.AccountRuns.{
  registered, accounts, argon, argon-IsArgon, salt, bytes_of_salt, ann, made_hash, logs_in,
}

abbrev after_ban : List User
after_ban = (ban_user accounts 12 "9" "7" "spam" (ann ∷ [])).1

kept_ann : after_ban ≡ ann ∷ []
unfolding ban_user soft_delete_user
kept_ann = refl

ban_done : (ban_user accounts 12 "9" "7" "spam" (ann ∷ [])).0 ≡ ok tt
unfolding ban_user soft_delete_user
ban_done = refl

second_login : (login accounts 10 "ann@b.co" "password" after_ban).0 ≡ ok (ann, "user")
second_login =
    subst (λ s. (login accounts 10 "ann@b.co" "password" s).0 ≡ ok (ann, "user")) (sym kept_ann)
      logs_in

login-ban_user_example : ann.id ≢ 9
login-ban_user_example =
    login-ban_user accounts (λ rows. rows) user_table-IsUserTable 12 "9" "7" "spam" (ann ∷ []) 9
      ban_done refl 10 "ann@b.co" "password" "user" ann second_login

abbrev bulk : BanBulkRequest
bulk = record { user_ids = some ("x" ∷ "7" ∷ []); reason = "spam" }

ban_bulk_answers_example :
    Answered accounts
      (λ rows. rows)
      user_table-IsUserTable
      12
      "1"
      (ann ∷ [])
      (some bulk)
      (AdminHandler.ban_bulk accounts 12 "1" (some bulk) (ann ∷ []))
ban_bulk_answers_example =
    ban_bulk_answers accounts (λ rows. rows) user_table-IsUserTable 12 "1" (ann ∷ []) (some bulk)

verify_password-hash_password_example :
    (stored : String) × (hash_password argon (ok salt) "password" ≡ ok stored)
    × ((verify_password argon "other" stored ≡ ok true) ↔ (
        key_of argon argon-IsArgon salt bytes_of_salt "other"
        ≡ key_of argon argon-IsArgon salt bytes_of_salt "password"))
verify_password-hash_password_example =
    verify_password-hash_password argon argon-IsArgon salt bytes_of_salt "password" "other"

abbrev ann_login : LoginRequest
ann_login = record { email = "ann@b.co"; password = "password" }

abbrev ann_session : Session
ann_session = record {
  status = 200;
  message = "Login successful";
  user = user_body accounts ann;
  cookie = token_cookie accounts "user";
}

session_begins : (AuthHandler.login accounts 10 (some ann_login) (ann ∷ [])).0 ≡ inr ann_session
unfolding AuthHandler.login
session_begins = rw logs_in refl

login_opens_example :
    (user : User) × Has
      (λ u. (u ≡ user) × (u.email ≡ "ann@b.co") × (u.deleted_at.valid ≡ false))
      (ann ∷ [])
    × (verify_password argon "password" user.password_hash ≡ ok true)
    × (user_body accounts ann ≡ user_body accounts user)
    × IsOpen accounts 10 user ann_session
login_opens_example =
    login_opens accounts (λ rows. rows) user_table-IsUserTable jwt-IsJwt 10 ann_login (ann ∷ [])
      ann_session session_begins

abbrev ann_registration : RegisterRequest
ann_registration = record { username = "ann"; email = "ann@b.co"; password = "password" }

abbrev new_session : Session
new_session = record ann_session { status = 201; message = "User registered successfully" }

registration_answered :
    (AuthHandler.register accounts 10 10 7 (ok salt) (some ann_registration) []).0 ≡ inr new_session
unfolding AuthHandler.register
registration_answered = rw registered refl

register_opens_example :
    (user : User) × ((AuthHandler.register accounts 10 10 7 (ok salt) (some ann_registration) []).1
      ≡ [] ++ kept_user accounts.table.column user ∷ [])
    × (user_body accounts ann ≡ user_body accounts user)
    × IsOpen accounts 10 user new_session
    × (admin_middleware (some user.role) ≢ none)
register_opens_example =
    register_opens accounts (λ rows. rows) user_table-IsUserTable jwt-IsJwt 10 10 7 (ok salt)
      ann_registration [] new_session registration_answered

abbrev env : String → String
env name =
    if name == "ADMIN_USERNAME"
    then "ann"
    else if name == "ADMIN_EMAIL"
    then "ann@b.co"
    else "password"

abbrev seeded_ann : User
seeded_ann = record ann { role = role_admin }

seed_done : (seed user_table argon env 10 7 (ok salt) []).0 ≡ ok (created seeded_ann)
unfolding seed
seed_done = rw made_hash.1 refl

seed_again_example :
    let after = (seed user_table argon env 10 7 (ok salt) []).1 in
    (seed user_table argon env 20 8 (ok salt) after).1 ≡ after
seed_again_example =
    seed_again user_table (λ rows. rows) user_table-IsUserTable argon env 10 20 7 8 (ok salt)
      (ok salt) [] (created seeded_ann) seed_done
