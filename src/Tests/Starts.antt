-- ===== src/Tests/Starts.antt =====
-- A server that starts with a TTL of zero, and runs of main.
use drs.Prelude.{
  ◌*◌, ◌^◌, ◌≡◌, ◌≢◌, refl, true, false, [], ◌∷◌, none, some, if◌then◌else◌, ok, arith,
}
use drs.Prelude.Int.{pos, pos_part, finite, IsInt64, wrap64, ◌+ℤ◌, ◌-ℤ◌}
use drs.Prelude.Text.{codes, ◌==◌}
use drs.Nonce.{Store, replay_detected, lookup, check}
use drs.Chain.Semantic.{clock_skew, check_freshness}
use drs.Settings.Parse.{
  Environment, digits_from, get_env_int, parse_int, get_env_float, get_env_or_default,
}
use drs.Settings.Load.{Config, load_config, read_variables, check_backend}
use drs.Server.Start.{
  Host, Started, start, info, in_memory, memory, local, whole_seconds, log_level_of, seconds,
}
use drs.Server.Started.{IsStarted, start_sound}
use drs.Server.AnyTtl.{with_ttl, with_window}
use drs.Server.Unlimited.{unlimited_replays}
use drs.Tests.Replicas.{redis, Keys}

abbrev host : Host (Unit {0}) Keys
host = record {
  parse_float = λ s. none;
  lru_size = λ n. true;
  open_file_store = λ path. true;
  new_filesystem_store = λ dir. true;
  new_memory_store = true;
  certificates_from_pem = λ pem. none;
  redis = redis;
  listen = λ addr. true;
}

abbrev no_ttl : Environment
no_ttl name = if name == codes "NONCE_STORE_TTL_SECS" then codes "0" else []

abbrev server : Started
server = record {
  log_level = info;
  json_logs = false;
  resolver = record {
    cache_size = pos 10000;
    ttl = pos 3_600_000_000_000;
    cb_threshold = pos 5;
    cb_cooldown = pos 60_000_000_000;
  };
  status_list = none;
  revocations = in_memory;
  receipts = memory;
  tsa_root_pool = none;
  server_identity = [];
  max_invocation_age = pos 0;
  nonce_store = local (pos 100000) (pos 0);
  max_body_bytes = pos 1048576;
  rate_limit_per_ip = finite (pos (100 * 2 ^ 1074));
  rate_limit_global = finite (pos (1000 * 2 ^ 1074));
  trust_proxy = false;
  admin_token = [];
  listen_addr = codes ":8080";
  tls = none;
  metrics_addr = none;
}

start_run : start host no_ttl ≡ ok server
unfolding start ◌==◌ load_config read_variables get_env_int parse_int digits_from get_env_float
    check_backend get_env_or_default log_level_of seconds wrap64
start_run = refl

start_sound_example :
    (cfg : Config) × (load_config host.parse_float no_ttl ≡ ok cfg) × IsStarted host cfg server
start_sound_example = start_sound host no_ttl server start_run

abbrev default_server : Started
default_server = record server {
  max_invocation_age = pos 900_000_000_000;
  nonce_store = local (pos 100000) (pos 900_000_000_000);
}

default_run : start host (λ name. []) ≡ ok default_server
unfolding start ◌==◌ load_config read_variables get_env_int parse_int digits_from get_env_float
    check_backend get_env_or_default log_level_of seconds wrap64
default_run = refl

-- A JTI that was claimed at the time 5
abbrev nonces : Store
nonces = record { seen = (codes "j1", pos 5) ∷ []; max_entries = 100; ttl = pos 0 }

claimed_run : lookup (codes "j1") nonces.seen ≡ some (pos 5)
unfolding lookup ◌==◌
claimed_run = refl

soon : IsInt64 (pos 1000 +ℤ clock_skew)
unfolding ◌+ℤ◌
soon = omega arith

old : IsInt64 (pos 1000 -ℤ pos 4)
unfolding ◌-ℤ◌
old = omega arith

zero_run : parse_int (codes "0") ≡ some (pos 0)
unfolding parse_int digits_from
zero_run = refl

no_time : pos_part (seconds (pos 0)) ≡ 0
unfolding seconds wrap64
no_time = refl

ttl_run : pos 0 ≡ whole_seconds (seconds (pos 0))
unfolding whole_seconds seconds wrap64
ttl_run = refl

-- The server with the default TTL, and then with a TTL of zero.
unlimited_replays_example :
    (start host (with_ttl (λ name. []) (codes "0"))
      ≡ ok (with_window default_server (pos 100000) (pos 0)))
    × ((check nonces (codes "j1") (pos 1000)).0 ≢ replay_detected)
    × (check_freshness (whole_seconds (seconds (pos 0))) (pos 1000) (pos 4) ≡ ok tt)
unlimited_replays_example =
    unlimited_replays host (λ name. []) default_server (pos 100000) (pos 900_000_000_000) (pos 0)
      (codes "0") nonces (codes "j1") (pos 5) (pos 1000) (pos 4) default_run refl refl zero_run
      no_time ttl_run claimed_run (omega arith) (omega arith) (omega arith) (omega arith) soon old
