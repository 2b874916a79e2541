-- ===== src/RateLimiter/Window.antt =====
-- How many requests of one address pass between two resets of its counter, and what a ban does.
use digital_square.Base.{
  ℕ, zero, suc, ◌-◌, ◌≤◌, min, ◌=?◌, leb→le, ltb, leb, String, ◌≡◌, refl, sym, ap, ◌∙◌, Bool, true,
  false, none, some, List, [], ◌∷◌, All, arith, Bool-cases, inl, inr, if◌then◌else◌,
}
use digital_square.Errors.{Error, Result, ok, err}
use digital_square.Action.{>>=-ok, ◌>>◌, pure}
use digital_square.Redis.{Redis, IsCounterStore, pos}
use digital_square.RateLimiter.{
  Config, Verdict, limit_key, banned_key, start_window, verdict, over_limit, check_limit,
  is_ip_banned, ban_ip, unban_ip, middleware, banned_answer,
}

ok_allowed : (u v : Verdict) → ok u ≡ ok v → v.allowed ≡ u.allowed
ok_allowed u v h = let e : u ≡ v = cc h in sym (ap (λ x. x.allowed) e)

module _ (R : Redis) (cfg : Config) (count_at : R.State → String → ℕ)
    (members : R.State → String → String → Bool) (L : IsCounterStore R count_at members) where
  count-start_window :
      (count : ℕ) (key : String) (s : R.State)
      → count_at (start_window R cfg count key s).1 key ≡ count_at s key
  unfolding start_window
  count-start_window count key s = elim (Bool-cases (count =? 1)) [
    | inl first ↦ rw first (L.expire_keeps key key cfg.window s)
    | inr later ↦ rw later refl
  ]

  verdict_cases :
      (count : ℕ) (key : String) (s : R.State) (v : Verdict)
      → (verdict R cfg count key s).0 ≡ ok v
      → (v.allowed ≡ leb count cfg.max_requests)
        × (count_at (verdict R cfg count key s).1 key ≡ count_at s key)
  unfolding verdict over_limit
  verdict_cases count key s v h = elim (Bool-cases (ltb cfg.max_requests count)) [
    | inl over ↦
        let e : verdict R cfg count key s ≡ over_limit R cfg key s = rw over refl in
        let refused : v.allowed ≡ false = ok_allowed _ v (sym (ap (λ r. r.0) e) ∙ h) in
        (refused ∙ ground arith, ap (λ r. count_at r.1 key) e ∙ L.ttl_keeps key key s)
    | inr under ↦
        let e : verdict R cfg count key s
            ≡ pure (record { allowed = true; retry_after = pos 0 }) s =
          rw under refl in
        let let_pass : v.allowed ≡ true = ok_allowed _ v (sym (ap (λ r. r.0) e) ∙ h) in
        (let_pass ∙ ground arith, ap (λ r. count_at r.1 key) e)
  ]

  -- A call that returns no error has counted one more request, and allows it exactly if the count
  -- is at most the maximum.
  check_limit_counts :
      (ip : String) (s : R.State) (v : Verdict)
      → (check_limit R cfg ip s).0 ≡ ok v
      → (v.allowed ≡ leb (suc (count_at s (limit_key ip))) cfg.max_requests)
        × (count_at (check_limit R cfg ip s).1 (limit_key ip) ≡ suc (count_at s (limit_key ip)))
  unfolding check_limit
  check_limit_counts ip s v done =
      let key = limit_key ip in
      let (n, counted, rest, same) =
        >>=-ok (R.incr key) (λ n. start_window R cfg n key >> verdict R cfg n key) s v done in
      let s1 = (R.incr key s).1 in
      let (_, started, judged, same') =
        >>=-ok (start_window R cfg n key) (λ _. verdict R cfg n key) s1 v rest in
      let (is_next, grown) = L.counted key s n counted in
      let (allows, kept) = verdict_cases n key (start_window R cfg n key s1).1 v judged in
      (
        allows ∙ ap (λ k. leb k cfg.max_requests) is_next,
        ap (λ t. count_at t key) (same ∙ same') ∙ kept ∙ count-start_window n key s1 ∙ grown,
      )

  -- Requests from one address, one after another, within one window.
  unfoldable pub requests : String → ℕ → R.State → List (Result Verdict) × R.State
  requests ip zero s = ([], s)
  requests ip (suc k) s =
      let (r, s') = check_limit R cfg ip s in let (rs, s'') = requests ip k s' in (r ∷ rs, s'')

  abbrev pub number_allowed : List (Result Verdict) → ℕ
  number_allowed [] = 0
  number_allowed (ok v ∷ rs) = if v.allowed then suc (number_allowed rs) else number_allowed rs
  number_allowed (err e ∷ rs) = number_allowed rs

  abbrev Returned : Result Verdict → Type 0
  Returned r = (v : Verdict) × (r ≡ ok v)

  -- Of `k` requests from one address that all get their answer from Redis while the counter does
  -- not expire, as many are allowed as are left of the maximum after the requests that the counter
  -- holds already.
  pub number_allowed-requests :
      (ip : String) (k : ℕ) (s : R.State)
      → All Returned (requests ip k s).0
      → number_allowed (requests ip k s).0 ≡ min k (cfg.max_requests - count_at s (limit_key ip))
  unfolding requests
  number_allowed-requests ip zero s h = omega arith
  number_allowed-requests ip (suc k) s ((v, done), h) =
      let (allows, grown) = check_limit_counts ip s v done in
      let rest = number_allowed-requests ip k (check_limit R cfg ip s).1 h in
      elim (Bool-cases v.allowed) [
        | inl passes ↦
            let within : suc (count_at s (limit_key ip)) ≤ cfg.max_requests =
              leb→le _ _ (sym allows ∙ passes) in
            rw done (rw passes (omega (arith, rest, grown, within)))
        | inr stops ↦
            let over : cfg.max_requests ≤ count_at s (limit_key ip) =
              ground (arith, allows, stops) in
            rw done (rw stops (omega (arith, rest, grown, over)))
      ]

  -- After an address was banned, a request from it for which Redis answers whether it is banned is
  -- refused with 403, whatever its counter holds.
  ban_ip_refuses :
      (ip : String) (s : R.State) (b : Bool)
      → (ban_ip R cfg ip s).0 ≡ ok tt
      → (is_ip_banned R cfg ip (ban_ip R cfg ip s).1).0 ≡ ok b
      → (middleware R cfg ip (ban_ip R cfg ip s).1).0 ≡ some (banned_answer R cfg)
  unfolding ban_ip is_ip_banned middleware
  ban_ip_refuses ip s b done asked =
      let known = L.is_member banned_key ip (R.s_add banned_key ip s).1 b asked in
      let is_in = L.added banned_key ip s done in ground (arith, asked, known, is_in)

  -- An unbanned address is not in the list that the limiter asks.
  unban_ip_lifts :
      (ip : String) (s : R.State) (b : Bool)
      → (unban_ip R cfg ip s).0 ≡ ok tt
      → (is_ip_banned R cfg ip (unban_ip R cfg ip s).1).0 ≡ ok b
      → b ≡ false
  unfolding unban_ip is_ip_banned
  unban_ip_lifts ip s b done asked =
      L.is_member banned_key ip (R.s_rem banned_key ip s).1 b asked ∙ L.removed banned_key ip s done

  -- A request from an address that is not banned passes when its counter returns an error.
  middleware_fails_open :
      (ip : String) (s : R.State) (e : Error)
      → (is_ip_banned R cfg ip s).0 ≡ ok false
      → (R.incr (limit_key ip) (is_ip_banned R cfg ip s).1).0 ≡ err e
      → (middleware R cfg ip s).0 ≡ none
  unfolding middleware is_ip_banned check_limit
  middleware_fails_open ip s e free failed = rw free (rw failed refl)
