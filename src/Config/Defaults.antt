-- ===== src/Config/Defaults.antt =====
-- When the configuration loads, and what a variable that is unset or malformed gives.
use digital_square.Base.{
  String, ◌==◌, eq_iff, ◌≡◌, ◌≢◌, ◌⊎◌, inl, inr, refl, ap, false, Bool-cases, Option, Option-cases,
  none, some, arith,
}
use digital_square.Redis.{ℤ, pos}
use digital_square.Config.{Config, get_env_as_int, get_env_as_duration, or_fatal, wal_path_of, load}

set_of : (text : String) → (text == "") ≡ false → text ≢ ""
set_of text given e = cc (given, (eq_iff text "").1 e)

wal_path_given : (path : String) → wal_path_of path ≢ ""
wal_path_given path = elim (Bool-cases (path == "")) [
  | inl unset ↦ rw unset (λ e. let eq = eq_iff "data/wal_messages" "" in ground (arith, eq, e))
  | inr given ↦ rw given (set_of path given)
]

module _ (env : String → String) (atoi parse_duration : String → Option ℤ) where
  -- The number is that of the variable, or the variable is unset or malformed and it is the default.
  abbrev Falls : (String → Option ℤ) → String → ℤ → ℤ → Type 0
  Falls parse key default_val n =
      ((env key ≢ "") × (parse (env key) ≡ some n))
      ⊎ (((env key ≡ "") ⊎ (parse (env key) ≡ none)) × (n ≡ default_val))

  get_env_as_duration-Falls :
      (key default_val : String) (d : ℤ)
      → parse_duration default_val ≡ some d
      → Falls parse_duration key d (get_env_as_duration env atoi parse_duration key default_val)
  unfolding get_env_as_duration
  get_env_as_duration-Falls key default_val d h = elim (Bool-cases (env key == "")) [
    | inl unset ↦ rw unset (rw h (inr (inl ((eq_iff (env key) "").0 unset), refl)))
    | inr given ↦ elim (Option-cases (parse_duration (env key))) [
      | inl bad ↦ rw given (rw bad (rw h (inr (inr refl, refl))))
      | inr (n, good) ↦ rw given (rw good (inl (set_of (env key) given, refl)))
    ]
  ]

  get_env_as_int-Falls :
      (key : String) (d : ℤ) → Falls atoi key d (get_env_as_int env atoi parse_duration key d)
  unfolding get_env_as_int
  get_env_as_int-Falls key d = elim (Bool-cases (env key == "")) [
    | inl unset ↦ rw unset (inr (inl ((eq_iff (env key) "").0 unset), refl))
    | inr given ↦ elim (Option-cases (atoi (env key))) [
      | inl bad ↦ rw given (rw bad (inr (inr refl, refl)))
      | inr (n, good) ↦ rw given (rw good (inl (set_of (env key) given, refl)))
    ]
  ]

  -- Where the expiry and the two defaults parse, the configuration loads; each number is that of its
  -- variable, or the variable is unset or malformed and it is the default; the path is not empty.
  load_defaults :
      (expiry minute block : ℤ)
      → parse_duration (env "JWT_EXPIRY") ≡ some expiry
      → parse_duration "1m" ≡ some minute
      → parse_duration "5m" ≡ some block
      → (cfg : Config) × (load env atoi parse_duration ≡ some cfg)
        × Falls atoi "RATE_LIMIT_MAX_REQUESTS" (pos 100) cfg.rate_limit_max_requests
        × Falls parse_duration "RATE_LIMIT_WINDOW" minute cfg.rate_limit_window
        × Falls parse_duration "RATE_LIMIT_BLOCK_TIME" block cfg.rate_limit_block_time
        × (cfg.wal_path ≢ "")
  unfolding load
  load_defaults expiry minute block set one five = (
    _,
    ap (or_fatal env atoi parse_duration) set,
    get_env_as_int-Falls "RATE_LIMIT_MAX_REQUESTS" (pos 100),
    get_env_as_duration-Falls "RATE_LIMIT_WINDOW" "1m" minute one,
    get_env_as_duration-Falls "RATE_LIMIT_BLOCK_TIME" "5m" block five,
    wal_path_given (env "WAL_PATH"),
  )
