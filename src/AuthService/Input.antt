-- ===== src/AuthService/Input.antt =====
-- Which registrations `validateRegisterInput` of auth_service.go lets through.
use digital_square.Base.{◌≤◌, ◌≡◌, ◌↔◌, String, len, arith}
use digital_square.Errors.{ok}
use digital_square.Regex.{Matches, codes}
use digital_square.Regex.Matching.{match_iff}
use digital_square.AuthService.{email_regex, validate_register_input}

-- What a registration has to be.
pub record IsRegistration (username email password : String) : Type 0 where
  pub username_long : 3 ≤ len username
  pub username_short : len username ≤ 50
  pub is_email : Matches email_regex (codes email)
  pub email_short : len email ≤ 100
  pub password_long : 8 ≤ len password
  pub password_short : len password ≤ 128

-- A registration is let through exactly when its name has 3 to 50 bytes, its address at most 100
-- bytes that match the expression, and its password 8 to 128 bytes.
pub validate_register_input_iff :
    (username email password : String)
    → (validate_register_input username email password ≡ ok tt)
      ↔ IsRegistration username email password
unfolding validate_register_input
validate_register_input_iff username email password =
    let (to, from) = match_iff email_regex (codes email) in
    (
      λ h. record {
        username_long = ground arith;
        username_short = ground arith;
        is_email = to (ground arith);
        email_short = ground arith;
        password_long = ground arith;
        password_short = ground arith;
      },
      λ r. ground (
        arith,
        r.username_long,
        r.username_short,
        from r.is_email,
        r.email_short,
        r.password_long,
        r.password_short,
      ),
    )
