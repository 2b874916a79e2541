-- ===== src/Auth/Tokens.antt =====
-- Which tokens are accepted, and who gets past the middlewares.
use digital_square.Base.{
  ℕ, ◌+◌, ◌≤◌, ◌<◌, ltb, String, ◌==◌, ◌≡◌, ◌≢◌, ◌⊎◌, ◌↔◌, inl, inr, refl, sym, ap, subst, ◌∙◌,
  true, false, Option, none, some, arith, eq_iff, Bool-cases,
}
use digital_square.Errors.{ok}
use digital_square.Action.{Result-cases}
use digital_square.Models.{Time, Role, User, role_admin}
use digital_square.Http.{Refusal}
use digital_square.Auth.{
  Claims, Token, Jwt, IsJwt, claims_of, generate_token, key_of, is_expired, checked, or_checked,
  or_token, validate_token, Request, token_string, auth_middleware, admin_middleware,
}

ltb-false : (a b : ℕ) → b < a → ltb a b ≡ false
ltb-false a b h = ground arith

module _ (J : Jwt) (L : IsJwt J) where
  -- A token that was generated for a user is accepted, from its issue on and before its expiry,
  -- and gives back the claims that were made of the user.
  pub validate_token-generate_token :
      (issued now : Time) (user : User) (secret text : String) (expires_in : ℕ)
      → generate_token J issued user secret expires_in ≡ ok text
      → J.numeric_date issued ≤ now
      → now < J.numeric_date (issued + expires_in)
      → validate_token J now text secret ≡ ok (claims_of J user issued expires_in)
  unfolding generate_token validate_token
  validate_token-generate_token issued now user secret text expires_in made late early =
      let read =
        L.reads_back now (J.numeric_date issued) (J.numeric_date (issued + expires_in))
          (claims_of J user issued expires_in) secret text (key_of J secret) made refl refl refl
          late early in
      let in_time = ltb-false _ _ early in ap (or_checked J now) read ∙ ground (arith, in_time)

  checked-ok :
      (now : Time) (token : Token) (claims : Claims)
      → checked J now token ≡ ok claims
      → (token.valid ≡ true)
        × (token.claims ≡ claims)
        × (is_expired J now token.claims.expires_at ≡ false)
  checked-ok now token claims h = elim (Bool-cases token.valid) [
    | inr bad ↦ ground (arith, bad)
    | inl good ↦ elim (Bool-cases (is_expired J now token.claims.expires_at)) [
      | inl late ↦ ground (arith, good, late)
      | inr fresh ↦
          let e : checked J now token ≡ ok token.claims = rw good (rw fresh refl) in
          (good, cc (h, e), fresh)
    ]
  ]

  key_of-ok :
      (secret k : String) (token : Token) → key_of J secret token ≡ ok k → token.is_hmac ≡ true
  key_of-ok secret k token h = ground arith

  -- A token that is accepted is one that the library reads as valid and as signed with an HMAC
  -- method, it gives the claims of that token, and these have not expired.
  validate_token_accepts :
      (now : Time) (text secret : String) (claims : Claims)
      → validate_token J now text secret ≡ ok claims
      → (token : Token) × (J.parse_with_claims now text (key_of J secret) ≡ ok token)
        × (token.is_hmac ≡ true)
        × (token.valid ≡ true)
        × (token.claims ≡ claims)
        × (is_expired J now claims.expires_at ≡ false)
  unfolding validate_token
  validate_token_accepts now text secret claims h =
      elim (Result-cases (J.parse_with_claims now text (key_of J secret))) [
        | inr (e, failed) ↦ cc h
        | inl (token, read) ↦
            let (k, asked) = L.keyed now text (key_of J secret) token read in
            let judged = sym (ap (or_checked J now) read) ∙ h in
            let (valid, same, fresh) = checked-ok now token claims judged in
            (
              token,
              read,
              key_of-ok secret k token asked,
              valid,
              same,
              subst (λ c. is_expired J now c.expires_at ≡ false) same fresh,
            )
      ]

  or_token-inr :
      (now : Time) (secret : String) (found : Refusal ⊎ String) (claims : Claims)
      → or_token J now secret found ≡ inr claims
      → (text : String) × (found ≡ inr text)
        × (text ≢ "")
        × (validate_token J now text secret ≡ ok claims)
  or_token-inr now secret (inl refusal) claims h = cc h
  or_token-inr now secret (inr text) claims h = elim (Bool-cases (text == "")) [
    | inl empty ↦ ground (arith, empty)
    | inr given ↦ elim (Result-cases (validate_token J now text secret)) [
      | inr (e, failed) ↦ ground (arith, given, failed)
      | inl (found_claims, done) ↦
          let e : or_token J now secret (inr text) ≡ inr found_claims = rw given (rw done refl) in
          let same : found_claims ≡ claims = cc (h, e) in
          (text, refl, λ is_empty. cc (given, (eq_iff text "").1 is_empty), done ∙ ap ok same)
    ]
  ]

  -- A request that gets past the middleware carries a token that is not empty and is accepted, and
  -- it gets past with that token's claims.
  auth_middleware_passes :
      (now : Time) (secret : String) (r : Request) (claims : Claims)
      → auth_middleware J now secret r ≡ inr claims
      → (text : String) × (token_string r ≡ inr text)
        × (text ≢ "")
        × (validate_token J now text secret ≡ ok claims)
  unfolding auth_middleware
  auth_middleware_passes now secret r claims h = or_token-inr now secret (token_string r) claims h

-- Exactly the role `admin` gets past the second middleware.
pub admin_middleware_iff :
    (role : Option Role) → (admin_middleware role ≡ none) ↔ (role ≡ some role_admin)
unfolding admin_middleware
admin_middleware_iff none = (λ h. ground arith, λ h. ground arith)
admin_middleware_iff (some role) =
    let is_admin = eq_iff role role_admin in
    (
      λ h. ap some (is_admin.0 (ground arith)),
      λ h. let same = is_admin.1 (cc h) in ground (arith, same),
    )
