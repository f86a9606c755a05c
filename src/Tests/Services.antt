-- ===== src/Tests/Services.antt =====
-- The stores, the configuration and the rate limiter of drs-verify on small inputs.
use drs.Prelude.{
  if◌then◌else◌, ℕ, zero, suc, ◌*◌, ◌^◌, ◌≡◌, refl, Bool, true, false, [], ◌∷◌, ◌++◌, none, some,
  Option, ok, arith,
}
use drs.Prelude.Int.{Float64, pos, finite}
use drs.Prelude.Lru.{Lru}
use drs.Prelude.Text.{Text, codes, ◌==◌, strip_prefix}
use drs.Storage.Key.{hash_path, take_hex, extension}
use drs.Storage.Filesystem
use drs.Storage.Filesystem.{File, Disk, Faults, write_file}
use drs.Storage.RoundTrip.{get-put}
use drs.Settings.Parse.{Environment}
use drs.Settings.Load.{Config}
use drs.Middleware.RateLimit.{Incoming, Net, Bucket, Limits}

abbrev repeated : ℕ → ℕ → Text
repeated zero c = []
repeated (suc n) c = c ∷ repeated n c

abbrev hash : Text
hash = codes "sha256:" ++ repeated 64 b'a'

abbrev calm : Faults
calm = record {
  mkdir_fails = false;
  open_fails = false;
  write_fails = none;
  stat_fails = false;
  read_fails = false;
  remove_fails = false;
}

abbrev empty_disk : Disk
empty_disk path = none

put_run : (Filesystem.put calm 100 hash (codes "jwt") empty_disk).0 ≡ none
unfolding Filesystem.put hash_path take_hex extension strip_prefix
put_run = refl

get-put_example :
    Filesystem.get calm 60 130 hash (Filesystem.put calm 100 hash (codes "jwt") empty_disk).1
    ≡ (ok (codes "jwt"), (Filesystem.put calm 100 hash (codes "jwt") empty_disk).1)
get-put_example =
    get-put calm calm 60 100 130 hash (codes "jwt") empty_disk put_run (omega arith) refl refl

abbrev unset : Environment
unset name = []

abbrev no_float : Text → Option Float64
no_float text = none

abbrev default_config : Config
default_config = record {
  listen_addr = codes ":8080";
  tls_cert_file = [];
  tls_key_file = [];
  did_cache_size = pos 10000;
  did_cache_ttl_secs = pos 3600;
  status_list_cache_ttl_secs = pos 300;
  status_list_base_url = [];
  max_body_bytes = pos 1048576;
  log_level = codes "info";
  log_format = codes "text";
  admin_token = [];
  tsa_url = [];
  store_dir = [];
  server_identity = [];
  nonce_store_max_entries = pos 100000;
  nonce_store_ttl_secs = pos 900;
  tsa_root_cert_pem = [];
  rate_limit_per_ip = finite (pos (100 * 2 ^ 1074));
  rate_limit_global = finite (pos (1000 * 2 ^ 1074));
  trust_proxy = false;
  circuit_breaker_threshold = pos 5;
  circuit_breaker_cooldown_secs = pos 60;
  revocation_store_path = [];
  nonce_store_backend = codes "memory";
  redis_url = [];
  metrics_addr = [];
}

abbrev net : Net
net = record { is_ip = λ s. true; split_host_port = λ s. none }

abbrev request : Incoming
request = record { path = codes "/verify"; forwarded_for = []; remote_addr = codes "10.0.0.1" }

-- A bucket is the tokens left, and the cache of them forgets nothing.
abbrev take_token : ℕ → ℕ → Bool × ℕ
take_token now zero = (false, zero)
take_token now (suc n) = (true, n)

abbrev tokens : Bucket ℕ
tokens = record { allow = take_token; fresh = 1 }

abbrev memo : Lru ℕ (Text → Option ℕ)
memo = record {
  get = λ k s. (s k, s);
  add = λ k v s j. if j == k then some v else s j;
  remove = λ k s j. if j == k then none else s j;
}

abbrev limits : Limits ℕ (Text → Option ℕ)
limits = record { global = 2; per_ip = λ k. none }
