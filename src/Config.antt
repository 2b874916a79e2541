-- ===== src/Config.antt =====
-- backend/internal/config/config.go, and what backend/cmd/server/main.go takes of it. `env` is
-- os.Getenv after godotenv has read the file, `atoi` is strconv.Atoi and `parse_duration` is
-- time.ParseDuration; `none` is their error, and the end of the program by `log.Fatal`.
pub mod Defaults
use digital_square.Base.{ℕ, ◌*◌, String, ◌==◌, Option, none, some, if◌then◌else◌}
use digital_square.Redis.{ℤ, pos}
use digital_square.Models.{Uuid}
use digital_square.UserRepository.{UserTable}
use digital_square.Hash.{Argon}
use digital_square.Auth.{Jwt}
use digital_square.AuthService

pub record Config : Type 0 where
  pub database_url : String
  pub redis_url : String
  pub jwt_secret : String
  pub server_port : String
  pub environment : String
  pub jwt_expiry : ℤ
  pub wal_path : String
  pub rate_limit_max_requests : ℤ
  pub rate_limit_window : ℤ
  pub rate_limit_block_time : ℤ

abbrev or_default : {A : Type 0} → A → Option A → A
or_default d none = d
or_default d (some x) = x

abbrev pub wal_path_of : String → String
wal_path_of path = if path == "" then "data/wal_messages" else path

module _ (env : String → String) (atoi parse_duration : String → Option ℤ) where
  unfoldable pub get_env_as_int : String → ℤ → ℤ
  get_env_as_int key default_val =
      if env key == "" then default_val else or_default default_val (atoi (env key))

  -- What `ParseDuration` returns beside an error is 0.
  unfoldable pub get_env_as_duration : String → String → ℤ
  get_env_as_duration key default_val =
      let text = if env key == "" then default_val else env key in
      or_default (or_default (pos 0) (parse_duration default_val)) (parse_duration text)

  abbrev config_of : ℤ → Config
  config_of expiry = record {
    database_url = env "DATABASE_URL";
    redis_url = env "REDIS_URL";
    jwt_secret = env "JWT_SECRET";
    server_port = env "SERVER_PORT";
    environment = env "ENVIRONMENT";
    jwt_expiry = expiry;
    wal_path = wal_path_of (env "WAL_PATH");
    rate_limit_max_requests = get_env_as_int "RATE_LIMIT_MAX_REQUESTS" (pos 100);
    rate_limit_window = get_env_as_duration "RATE_LIMIT_WINDOW" "1m";
    rate_limit_block_time = get_env_as_duration "RATE_LIMIT_BLOCK_TIME" "5m";
  }

  abbrev pub or_fatal : Option ℤ → Option Config
  or_fatal none = none
  or_fatal (some expiry) = some (config_of expiry)

  unfoldable pub load : Option Config
  load = or_fatal (parse_duration (env "JWT_EXPIRY"))

-- 24*time.Hour
abbrev token_lifetime : ℕ
token_lifetime = 24 * 60 * 60 * 1000000000

-- `NewAuthService(userRepo, cfg.JWTSecret, 24*time.Hour, cfg.Environment)`
abbrev auth_parts : Config → UserTable → Argon → Jwt → (String → Option Uuid) → AuthService.Parts
auth_parts cfg table argon jwt parse_uuid = record {
  table = table;
  argon = argon;
  jwt = jwt;
  parse_uuid = parse_uuid;
  jwt_secret = cfg.jwt_secret;
  jwt_expiration = token_lifetime;
  environment = cfg.environment;
}
