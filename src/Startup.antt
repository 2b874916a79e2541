-- ===== src/Startup.antt =====
-- The start of backend/cmd/server/main.go up to the routes, with backend/internal/database,
-- backend/pkg/logger and the constructor of backend/internal/broker. gorm, zap, go-redis and the
-- operating system answer through `Surroundings`; `log.Fatal` ends the program at a stage.
pub mod Restart
use digital_square.Base.{
  ℕ, String, ◌==◌, Bool, true, false, Option, none, some, ◌⊎◌, inl, inr, if◌then◌else◌,
}
use digital_square.Errors.{Error, external, Result, ok, err}
use digital_square.Action.{Outcome, result}
use digital_square.Redis.{ℤ}
use digital_square.Config
use digital_square.Config.{Config, load}
use digital_square.Wal.{Wal, Disk, new_wal}

-- What `Init` sets of a zap.Config.
pub record ZapConfig : Type 0 where
  pub development : Bool
  pub capital_color : Bool
  pub debug_level : Bool

abbrev pub zap_config : Bool → ZapConfig
zap_config is_development =
    if is_development
    then record { development = true; capital_color = true; debug_level = true }
    else record { development = false; capital_color = false; debug_level = false }

pub data Stage : Type 0 where
  logging configuring connecting migrating opening_log caching : Stage

-- The stage at which the program ended, and the error that was logged.
pub record Fatal : Type 0 where
  pub stage : Stage
  pub error : Error

pub record Surroundings : Type 1 where
  pub Database : Type 0
  pub Options : Type 0
  pub build : ZapConfig → Outcome
  pub env : String → String
  pub atoi : String → Option ℤ
  pub parse_duration : String → Option ℤ
  pub open_database : String → Result Database
  pub auto_migrate : Database → Result Database
  pub on_mkdir : Outcome
  pub on_open : Outcome
  pub disk : Disk
  pub parse_url : String → Result Options
  pub ping : Options → Outcome

-- What the program holds when it makes its services.
pub record Process (S : Surroundings) : Type 0 where
  pub cfg : Config
  pub database : S.Database
  pub wal : Wal
  pub redis : S.Options

abbrev pub log_path : String
log_path = "./data/wal.log"

abbrev bad_expiry : Error
bad_expiry = external "Invalid JWT_EXPIRY format"

abbrev pub or_end : {A : Type 0} → Stage → Result A → Fatal ⊎ A
or_end stage (ok a) = inr a
or_end stage (err e) = inl (record { stage = stage; error = e })

abbrev pub configured : Option Config → Fatal ⊎ Config
configured none = inl (record { stage = configuring; error = bad_expiry })
configured (some cfg) = inr cfg

infixl 5 ◌>>=◌
abbrev pub ◌>>=◌ : {A B : Type 0} → Fatal ⊎ A → (A → Fatal ⊎ B) → Fatal ⊎ B
inl fatal >>= k = inl fatal
inr a >>= k = k a

module _ (S : Surroundings) where
  -- logger.Init
  abbrev pub init : Bool → Result (Unit {0})
  init is_development = result (S.build (zap_config is_development))

  -- database.Connect
  abbrev pub connect : Config → Fatal ⊎ S.Database
  connect cfg = or_end connecting (S.open_database cfg.database_url)

  -- database.Migrate
  abbrev pub migrate : S.Database → Fatal ⊎ S.Database
  migrate database = or_end migrating (S.auto_migrate database)

  abbrev pub reached : S.Options → Outcome → Result S.Options
  reached opt none = ok opt
  reached opt (some e) = err e

  abbrev or_reach : Result S.Options → Result S.Options
  or_reach (err e) = err e
  or_reach (ok opt) = reached opt (S.ping opt)

  abbrev pub new_redis_message_broker : String → Result S.Options
  new_redis_message_broker redis_url = or_reach (S.parse_url redis_url)

  unfoldable pub start : Fatal ⊎ Process S
  start = do
    _ ← or_end logging (init true)
    cfg ← configured (load S.env S.atoi S.parse_duration)
    opened ← connect cfg
    database ← migrate opened
    wal ← or_end opening_log (new_wal S.on_mkdir S.on_open log_path S.disk)
    redis ← or_end caching (new_redis_message_broker cfg.redis_url)
    inr (record { cfg = cfg; database = database; wal = wal; redis = redis })
