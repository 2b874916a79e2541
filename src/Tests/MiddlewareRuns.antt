-- ===== src/Tests/MiddlewareRuns.antt =====
-- The theorems of the middlewares on concrete inputs, with a stand-in for golang-jwt that signs only
-- the claims `plain_claims`, whose text is their role.
use digital_square.Base.{
  ℕ, ◌-◌, min, ◌=?◌, String, ◌==◌, eq_iff, ◌≡◌, inl, inr, refl, sym, ap, ◌∙◌, Bool, not, true,
  false, ◌&&◌, Option, none, some, All, arith, Bool-cases, if◌then◌else◌,
}
use digital_square.Errors.{external, Result, ok, err}
use digital_square.Models.{User, no_user}
use digital_square.RateLimiter.{Config, Verdict, check_limit}
use digital_square.RateLimiter.Window.{requests, number_allowed, number_allowed-requests}
use digital_square.Auth.{Claims, Token, Jwt, IsJwt, Request}
use digital_square.Tests.Memory.{memory, memory-IsCounterStore, empty_store}

abbrev pub cfg : Config
cfg = record { max_requests = 2; window = 60000000000; block_time = 0 }

abbrev plain_claims : String → Claims
plain_claims role = record {
  user_id = 7;
  email = "ann@b.co";
  username = "ann";
  role = role;
  expires_at = some 100;
  issued_at = some 10;
  not_before = some 10;
}

abbrev is_time : ℕ → Option ℕ → Bool
is_time n none = false
is_time n (some t) = t =? n

abbrev is_plain : Claims → Bool
is_plain c =
    not (c.role == "")
    && c.user_id =? 7
    && c.email == "ann@b.co"
    && c.username == "ann"
    && is_time 100 c.expires_at
    && is_time 10 c.issued_at
    && is_time 10 c.not_before

abbrev token_of : String → Token
token_of role = record { claims = plain_claims role; is_hmac = true; valid = true }

abbrev with_key : Token → Result String → Result Token
with_key token (ok k) = ok token
with_key token (err e) = err e

abbrev pub jwt : Jwt
jwt = record {
  numeric_date = λ t. t;
  signed_string = λ claims secret. if is_plain claims then ok claims.role else err (external "");
  parse_with_claims = λ now text key. with_key (token_of text) (key (token_of text));
}

is_time-eq : (n : ℕ) (o : Option ℕ) → is_time n o ≡ true → o ≡ some n
is_time-eq n none h = cc h
is_time-eq n (some t) h = ground arith

claims_plain : (c : Claims) → is_plain c ≡ true → plain_claims c.role ≡ c
claims_plain c h =
    let mail = eq_iff c.email "ann@b.co" in
    let name = eq_iff c.username "ann" in
    let u : c.user_id ≡ 7 = ground arith in
    let m : c.email ≡ "ann@b.co" = ground (arith, mail) in
    let n : c.username ≡ "ann" = ground (arith, name) in
    let e = is_time-eq 100 c.expires_at (ground arith) in
    let t = is_time-eq 10 c.issued_at (ground arith) in
    let b = is_time-eq 10 c.not_before (ground arith) in
    sym (λ k. record {
      user_id = u k;
      email = m k;
      username = n k;
      role = c.role;
      expires_at = e k;
      issued_at = t k;
      not_before = b k;
    })

with_key-ok :
    (token token' : Token) (r : Result String)
    → with_key token r ≡ ok token'
    → (k : String) × (r ≡ ok k) × (token ≡ token')
with_key-ok token token' (ok k) h = (k, refl, cc h)
with_key-ok token token' (err e) h = cc h

pub jwt-IsJwt : IsJwt jwt
jwt-IsJwt = record {
  filled = λ claims secret text made. elim (Bool-cases (is_plain claims)) [
    | inr other ↦ ground (arith, other)
    | inl good ↦
        let same : claims.role ≡ text = ground (arith, good) in
        let eq = eq_iff claims.role "" in
        λ empty.
          let none_given : claims.role ≡ "" = same ∙ empty in ground (arith, eq, none_given, good)
  ];
  keyed = λ now text key token h.
      let (k, asked, same) = with_key-ok (token_of text) token (key (token_of text)) h in
      (k, ap key (sym same) ∙ asked);
  reads_back = λ now start end claims secret text key made asked b e late early.
      elim (Bool-cases (is_plain claims)) [
        | inr other ↦ ground (arith, other)
        | inl good ↦
            let is_text : claims.role ≡ text = ground (arith, good) in
            let same : token_of text ≡ record { claims = claims; is_hmac = true; valid = true } =
              ap token_of (sym is_text)
              ∙ ap (λ c. record { claims = c; is_hmac = true; valid = true })
                  (claims_plain claims good) in
            ap (λ t. with_key t (key t)) same
            ∙ ap (with_key (record { claims = claims; is_hmac = true; valid = true })) asked
      ];
}

abbrev ann : User
ann = record no_user { id = 7; username = "ann"; email = "ann@b.co"; role = "admin" }

abbrev request : Request
request = record { cookie = none; authorization = "Bearer admin" }

three_returned :
    All
      (λ r. (v : Verdict) × (r ≡ ok v))
      (requests memory cfg
        (λ s. s.counts)
        (λ s. s.members)
        memory-IsCounterStore
        "::1"
        3
        empty_store).0
unfolding requests check_limit
three_returned = ((_, refl), ((_, refl), ((_, refl), tt)))

number_allowed-requests_example :
    number_allowed memory cfg
      (λ s. s.counts)
      (λ s. s.members)
      memory-IsCounterStore
      (requests memory cfg
        (λ s. s.counts)
        (λ s. s.members)
        memory-IsCounterStore
        "::1"
        3
        empty_store).0
    ≡ min 3 (2 - 0)
number_allowed-requests_example =
    number_allowed-requests memory cfg (λ s. s.counts) (λ s. s.members) memory-IsCounterStore "::1"
      3 empty_store three_returned
