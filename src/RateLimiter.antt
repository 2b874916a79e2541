-- ===== src/RateLimiter.antt =====
-- backend/internal/middleware/rate_limiter.go. Durations are in nanoseconds. The fields of
-- the configuration are natural numbers: a negative limit or duration is left out.
pub mod Window
use digital_square.Base.{
  ℕ, zero, suc, ◌/◌, ◌^◌, ◌=?◌, ltb, String, ◌<>◌, Bool, true, false, Option, none, some,
  if◌then◌else◌,
}
use digital_square.Errors.{Result, ok, err}
use digital_square.Action.{Action, pure, ◌>>=◌, ◌>>◌}
use digital_square.Redis.{ℤ, pos, negsuc, Redis}
use digital_square.Http.{Refusal}

pub record Config : Type 0 where
  pub max_requests : ℕ
  pub window : ℕ
  pub block_time : ℕ

-- The first two results of `CheckLimit`.
pub record Verdict : Type 0 where
  pub allowed : Bool
  pub retry_after : ℤ

abbrev pub limit_key : String → String
limit_key ip = "ratelimit:" <> ip

abbrev pub banned_key : String
banned_key = "banned_ips"

abbrev negated : ℕ → ℤ
negated zero = pos 0
negated (suc n) = negsuc n

-- `int(d.Seconds())`, which rounds towards zero
abbrev seconds : ℤ → ℤ
seconds (pos n) = pos (n / 1000000000)
seconds (negsuc n) = negated (suc n / 1000000000)

abbrev or_window : Config → Result ℤ → ℤ
or_window cfg (ok t) = t
or_window cfg (err _) = pos cfg.window

abbrev or_false : Result Bool → Bool
or_false (ok b) = b
or_false (err _) = false

module _ (R : Redis) (cfg : Config) where
  -- The window begins with the first request.
  start_window : ℕ → String → Action R.State (Unit {0})
  start_window count key = if count =? 1 then R.expire key cfg.window else pure tt

  -- An error of TTL is replaced by the length of the window.
  over_limit : String → Action R.State Verdict
  over_limit key s =
      let (t, s') = R.ttl key s in
      (ok (record { allowed = false; retry_after = or_window cfg t }), s')

  verdict : ℕ → String → Action R.State Verdict
  unfolding over_limit
  verdict count key =
      if ltb cfg.max_requests count
      then over_limit key
      else pure (record { allowed = true; retry_after = pos 0 })

  unfoldable pub check_limit : String → Action R.State Verdict
  unfolding start_window verdict
  check_limit ip = do
    count ← R.incr (limit_key ip)
    start_window count (limit_key ip)
    verdict count (limit_key ip)

  unfoldable pub is_ip_banned : String → Action R.State Bool
  is_ip_banned ip = R.s_is_member banned_key ip

  pub ban_ip : String → Action R.State (Unit {0})
  ban_ip ip = R.s_add banned_key ip

  pub unban_ip : String → Action R.State (Unit {0})
  unban_ip ip = R.s_rem banned_key ip

  -- An error of the limiter lets the request pass.
  abbrev pub answer : Result Verdict → Option Refusal
  answer (err _) = none
  answer (ok v) =
      if v.allowed
      then none
      else some (record {
        status = 429;
        error = "Too many requests. Please try again later.";
        retry_after = some (seconds v.retry_after);
      })

  abbrev pub banned_answer : Refusal
  banned_answer = record {
    status = 403;
    error = "Your IP address has been banned";
    retry_after = none;
  }

  abbrev limited : String → R.State → Option Refusal × R.State
  limited ip s = let (r, s') = check_limit ip s in (answer r, s')

  -- `none` is the call of the next handler.
  unfoldable pub middleware : String → R.State → Option Refusal × R.State
  unfolding is_ip_banned
  middleware ip s =
      let (banned, s') = is_ip_banned ip s in
      let checked = limited ip s' in if or_false banned then (some banned_answer, s') else checked
