-- ===== src/Tests/StartRuns.antt =====
-- The start of the server after an earlier process, on concrete inputs.
use digital_square.Base.{◌==◌, ◌≡◌, inr, refl, true, false, none, some, [], ◌∷◌, ℕ, if◌then◌else◌}
use digital_square.Errors.{ok}
use digital_square.Redis.{pos}
use digital_square.Wal.{Wal, new_wal}
use digital_square.Wal.Contents.{Holds, Stores, render}
use digital_square.Config.{load, get_env_as_int, get_env_as_duration}
use digital_square.Startup.{Surroundings, Process, start, log_path}
use digital_square.Startup.Restart.{IsStarted, start-Holds}
use digital_square.Tests.Samples.{
  entry_json, first_entry, second_entry, first_entry-IsStorable, second_entry-IsStorable,
}

-- The log that an earlier process left at the path of main.go.
abbrev left : Wal
left = record {
  file_path = log_path;
  is_open = false;
  disk = λ p. if p == log_path then some "m1\nm2\n" else none;
  synced = λ p. if p == log_path then some "m1\nm2\n" else none;
}

left-Stores : Stores entry_json left (first_entry ∷ second_entry ∷ [])
unfolding render
left-Stores = record {
  text = refl;
  storable = (first_entry-IsStorable, (second_entry-IsStorable, tt));
}

abbrev around : Surroundings
around = record {
  Database = Unit {0};
  Options = ℕ;
  build = λ cfg. none;
  env = λ key. if key == "REDIS_URL" then "redis://localhost" else "";
  atoi = λ text. none;
  parse_duration = λ text. some (pos 5);
  open_database = λ url. ok tt;
  auto_migrate = λ db. ok db;
  on_mkdir = none;
  on_open = none;
  disk = left.disk;
  parse_url = λ url. ok 6379;
  ping = λ opt. none;
}

abbrev started : Process around
started = record {
  cfg = record {
    database_url = "";
    redis_url = "redis://localhost";
    jwt_secret = "";
    server_port = "";
    environment = "";
    jwt_expiry = pos 5;
    wal_path = "data/wal_messages";
    rate_limit_max_requests = pos 100;
    rate_limit_window = pos 5;
    rate_limit_block_time = pos 5;
  };
  database = tt;
  wal = record {
    file_path = log_path;
    is_open = true;
    disk = λ p. if p == log_path then some "m1\nm2\n" else left.disk p;
    synced = left.disk;
  };
  redis = 6379;
}

starts : start around ≡ inr started
unfolding start load new_wal get_env_as_int get_env_as_duration
starts = refl

start-Holds_example :
    IsStarted around started × Holds entry_json started.wal (first_entry ∷ second_entry ∷ [])
start-Holds_example =
    start-Holds around entry_json left (first_entry ∷ second_entry ∷ []) started left-Stores refl
      refl starts
