-- ===== src/Server/Start.antt =====
-- main of drs-verify/cmd/server/main.go: what the server is put together from, and when it does not
-- start. The constructors of the libraries and the calls of the operating system are parameters.
use drs.Prelude.{
  suc, ◌-◌, ◌*◌, ◌/◌, Bool, not, List, [], ◌∷◌, Option, none, some, if◌then◌else◌, Result, err, ok,
  fail_if, ◌>>=◌, ◌>>◌,
}
use drs.Prelude.Int.{ℤ, pos, negsuc, sub_ℕ, wrap64, Float64}
use drs.Prelude.Text.{Text, codes, ◌==◌, is_empty}
use drs.Timestamp.Token.{Certificate}
use drs.Nonce.Redis.{Redis, RedisStore, RedisError, new_redis_store}
use drs.Settings.Parse.{Environment, LoadError}
use drs.Settings.Load.{Config, load_config}

-- time.Duration(n) * time.Second, in nanoseconds: an int64 product
abbrev pub scale : ℤ → ℤ
scale (pos n) = pos (n * 1_000_000_000)
scale (negsuc n) = negsuc (suc n * 1_000_000_000 - 1)

unfoldable pub seconds : ℤ → ℤ
seconds n = wrap64 (scale n)

-- int64(d.Seconds()), where the float64 holds the number of seconds exactly
unfoldable pub whole_seconds : ℤ → ℤ
whole_seconds (pos n) = pos (n / 1_000_000_000)
whole_seconds (negsuc n) = sub_ℕ 0 (suc n / 1_000_000_000)

pub data LogLevel : Type 0 where
  debug info warn error : LogLevel

unfoldable pub log_level_of : Text → LogLevel
unfolding ◌==◌
log_level_of name =
    if name == codes "debug"
    then debug
    else if name == codes "warn"
    then warn
    else if name == codes "error"
    then error
    else info

pub record DidResolver : Type 0 where
  pub cache_size : ℤ
  pub ttl : ℤ
  pub cb_threshold : ℤ
  pub cb_cooldown : ℤ

pub record StatusList : Type 0 where
  pub base_url : Text
  pub ttl : ℤ

pub data Revocations : Type 0 where
  in_memory : Revocations
  file_backed : Text → Revocations

-- Tiers 0, 1 and 3
pub data Receipts : Type 0 where
  memory : Receipts
  filesystem : Text → Receipts
  timestamped : Text → Text → Receipts

pub data NonceStore : Type 0 where
  local : ℤ → ℤ → NonceStore
  shared : RedisStore → NonceStore

-- The parts of a server that listens, with the verifier's Deps field by field. Durations are in
-- nanoseconds.
pub record Started : Type 0 where
  pub log_level : LogLevel
  pub json_logs : Bool
  pub resolver : DidResolver
  pub status_list : Option StatusList
  pub revocations : Revocations
  pub receipts : Receipts
  pub tsa_root_pool : Option (List Certificate)
  pub server_identity : Text
  pub max_invocation_age : ℤ
  pub nonce_store : NonceStore
  pub max_body_bytes : ℤ
  pub rate_limit_per_ip : Float64
  pub rate_limit_global : Float64
  pub trust_proxy : Bool
  pub admin_token : Text
  pub listen_addr : Text
  -- the files of the certificate and of its key, where TLS is on
  pub tls : Option (Text × Text)
  pub metrics_addr : Option Text

-- Each way to exit before the server serves.
pub data StartError : Type 0 where
  config_load : LoadError → StartError
  resolver_init revocation_store_init store_init no_valid_certificates : StartError
  nonce_store_init : RedisError → StartError
  tls_misconfigured metrics_failed : StartError

pub record Host (Options S : Type 0) : Type 0 where
  pub parse_float : Text → Option Float64
  -- lru.New accepts the size
  pub lru_size : ℤ → Bool
  pub open_file_store : Text → Bool
  pub new_filesystem_store : Text → Bool
  -- NewMemoryStore of the default size
  pub new_memory_store : Bool
  -- AppendCertsFromPEM: the certificates of a pool, where one at least was added
  pub certificates_from_pem : Text → Option (List Certificate)
  pub redis : Redis Options S
  -- net.Listen for the metrics
  pub listen : Text → Bool

abbrev pub wrap_error : {E A : Type 0} → (E → StartError) → Result E A → Result StartError A
wrap_error f (err e) = err (f e)
wrap_error f (ok a) = ok a

abbrev pub unless : Bool → StartError → Result StartError (Unit {0})
unless b e = fail_if (not b) e

module _ {Options S : Type 0} (host : Host Options S) where
  -- resolver.NewWithCircuitBreaker
  unfoldable pub new_resolver : Config → Result StartError DidResolver
  new_resolver cfg = do
    unless (host.lru_size cfg.did_cache_size) resolver_init
    ok (record {
      cache_size = cfg.did_cache_size;
      ttl = seconds cfg.did_cache_ttl_secs;
      cb_threshold = cfg.circuit_breaker_threshold;
      cb_cooldown = seconds cfg.circuit_breaker_cooldown_secs;
    })

  -- The status list is optional, and a warm-up that fails is only logged.
  unfoldable pub status_list_of : Config → Option StatusList
  status_list_of cfg =
      if is_empty cfg.status_list_base_url
      then none
      else some (record {
        base_url = cfg.status_list_base_url;
        ttl = seconds cfg.status_list_cache_ttl_secs;
      })

  unfoldable pub open_revocations : Config → Result StartError Revocations
  open_revocations cfg =
      if is_empty cfg.revocation_store_path
      then ok in_memory
      else (unless (host.open_file_store cfg.revocation_store_path) revocation_store_init
          >> ok (file_backed cfg.revocation_store_path))

  unfoldable pub open_receipts : Config → Result StartError Receipts
  open_receipts cfg =
      if is_empty cfg.store_dir
      then (unless host.new_memory_store store_init >> ok memory)
      else (unless (host.new_filesystem_store cfg.store_dir) store_init
          >> ok (
              if is_empty cfg.tsa_url
              then filesystem cfg.store_dir
              else timestamped cfg.store_dir cfg.tsa_url))

  abbrev pub pool_of : Option (List Certificate) → Result StartError (Option (List Certificate))
  pool_of none = err no_valid_certificates
  pool_of (some roots) = ok (some roots)

  unfoldable pub tsa_roots : Config → Result StartError (Option (List Certificate))
  tsa_roots cfg =
      if is_empty cfg.tsa_root_cert_pem
      then ok none
      else pool_of (host.certificates_from_pem cfg.tsa_root_cert_pem)

  unfoldable pub open_nonces : Config → Result StartError NonceStore
  unfolding ◌==◌
  open_nonces cfg =
      if cfg.nonce_store_backend == codes "redis"
      then (wrap_error nonce_store_init (
            new_redis_store host.redis (record {
              url = cfg.redis_url;
              key_prefix = [];
              ttl = seconds cfg.nonce_store_ttl_secs;
              check_timeout = pos 0;
            }))
          >>= λ store. ok (shared store))
      else ok (local cfg.nonce_store_max_entries (seconds cfg.nonce_store_ttl_secs))

  -- TLS is on with both files and off with neither.
  abbrev pub tls_of : Text → Text → Result StartError (Option (Text × Text))
  tls_of [] [] = ok none
  tls_of [] (b ∷ key) = err tls_misconfigured
  tls_of (b ∷ cert) [] = err tls_misconfigured
  tls_of (b ∷ cert) (c ∷ key) = ok (some (b ∷ cert, c ∷ key))

  -- metrics.StartServer
  unfoldable pub start_metrics : Text → Result StartError (Option Text)
  start_metrics addr =
      if is_empty addr
      then ok none
      else (unless (host.listen addr) metrics_failed >> ok (some addr))

  unfoldable pub start_with : Config → Result StartError Started
  unfolding new_resolver status_list_of open_revocations open_receipts tsa_roots open_nonces
      start_metrics
  start_with cfg = do
    resolver ← new_resolver cfg
    revocations ← open_revocations cfg
    receipts ← open_receipts cfg
    pool ← tsa_roots cfg
    nonces ← open_nonces cfg
    tls ← tls_of cfg.tls_cert_file cfg.tls_key_file
    metrics ← start_metrics cfg.metrics_addr
    ok (record {
      log_level = log_level_of cfg.log_level;
      json_logs = cfg.log_format == codes "json";
      resolver = resolver;
      status_list = status_list_of cfg;
      revocations = revocations;
      receipts = receipts;
      tsa_root_pool = pool;
      server_identity = cfg.server_identity;
      max_invocation_age = seconds cfg.nonce_store_ttl_secs;
      nonce_store = nonces;
      max_body_bytes = cfg.max_body_bytes;
      rate_limit_per_ip = cfg.rate_limit_per_ip;
      rate_limit_global = cfg.rate_limit_global;
      trust_proxy = cfg.trust_proxy;
      admin_token = cfg.admin_token;
      listen_addr = cfg.listen_addr;
      tls = tls;
      metrics_addr = metrics;
    })

  -- main, up to the listeners
  unfoldable pub start : Environment → Result StartError Started
  unfolding start_with
  start env = wrap_error config_load (load_config host.parse_float env) >>= start_with
