-- ===== src/Settings/Load.antt =====
-- Load of drs-verify/pkg/config/config.go.
use drs.Prelude.{◌*◌, ◌^◌, Bool, not, ◌&&◌, Option, Result, ok, fail_if, ◌>>=◌, ◌>>◌}
use drs.Prelude.Int.{ℤ, pos, Float64, finite}
use drs.Prelude.Text.{Text, codes, ◌==◌, is_empty}
use drs.Settings.Parse.{
  Environment, LoadError, redis_without_url, memory_behind_proxy, unknown_backend,
  get_env_or_default, get_env_int, get_env_float,
}

-- Config
pub record Config : Type 0 where
  pub listen_addr : Text
  pub tls_cert_file : Text
  pub tls_key_file : Text
  pub did_cache_size : ℤ
  pub did_cache_ttl_secs : ℤ
  pub status_list_cache_ttl_secs : ℤ
  pub status_list_base_url : Text
  pub max_body_bytes : ℤ
  pub log_level : Text
  pub log_format : Text
  pub admin_token : Text
  pub tsa_url : Text
  pub store_dir : Text
  pub server_identity : Text
  pub nonce_store_max_entries : ℤ
  pub nonce_store_ttl_secs : ℤ
  pub tsa_root_cert_pem : Text
  pub rate_limit_per_ip : Float64
  pub rate_limit_global : Float64
  pub trust_proxy : Bool
  pub circuit_breaker_threshold : ℤ
  pub circuit_breaker_cooldown_secs : ℤ
  pub revocation_store_path : Text
  pub nonce_store_backend : Text
  pub redis_url : Text
  pub metrics_addr : Text

-- The checks on the backend of the nonce store, in their order.
unfoldable pub check_backend : Config → Result LoadError (Unit {0})
check_backend c =
    fail_if (c.nonce_store_backend == codes "redis" && is_empty c.redis_url) redis_without_url
    >> fail_if
        (not (c.nonce_store_backend == codes "memory")
          && not (c.nonce_store_backend == codes "redis"))
        (unknown_backend c.nonce_store_backend)
    >> fail_if (c.trust_proxy && c.nonce_store_backend == codes "memory") memory_behind_proxy

-- What is read, the numbers in the order in which their errors are found.
unfoldable pub read_variables : (Text → Option Float64) → Environment → Result LoadError Config
read_variables parse_float env =
    get_env_int env (codes "DID_CACHE_SIZE") (pos 10000) >>= λ did_cache_size.
    get_env_int env (codes "DID_CACHE_TTL_SECS") (pos 3600) >>= λ did_cache_ttl_secs.
    get_env_int env (codes "STATUS_CACHE_TTL_SECS") (pos 300) >>= λ status_list_cache_ttl_secs.
    get_env_int env (codes "MAX_BODY_BYTES") (pos 1048576) >>= λ max_body_bytes.
    get_env_int env (codes "NONCE_STORE_MAX_ENTRIES") (pos 100000) >>= λ nonce_store_max_entries.
    get_env_int env (codes "NONCE_STORE_TTL_SECS") (pos 900) >>= λ nonce_store_ttl_secs.
    get_env_float parse_float env (codes "RATE_LIMIT_PER_IP") (finite (pos (100 * 2 ^ 1074)))
    >>= λ rate_limit_per_ip.
        get_env_float parse_float env (codes "RATE_LIMIT_GLOBAL") (finite (pos (1000 * 2 ^ 1074)))
        >>= λ rate_limit_global.
            get_env_int env (codes "CIRCUIT_BREAKER_THRESHOLD") (pos 5)
            >>= λ circuit_breaker_threshold.
                get_env_int env (codes "CIRCUIT_BREAKER_COOLDOWN_SECS") (pos 60)
                >>= λ circuit_breaker_cooldown_secs. ok (record {
                  listen_addr = get_env_or_default env (codes "LISTEN_ADDR") (codes ":8080");
                  tls_cert_file = env (codes "TLS_CERT_FILE");
                  tls_key_file = env (codes "TLS_KEY_FILE");
                  did_cache_size = did_cache_size;
                  did_cache_ttl_secs = did_cache_ttl_secs;
                  status_list_cache_ttl_secs = status_list_cache_ttl_secs;
                  status_list_base_url = env (codes "STATUS_LIST_BASE_URL");
                  max_body_bytes = max_body_bytes;
                  log_level = get_env_or_default env (codes "LOG_LEVEL") (codes "info");
                  log_format = get_env_or_default env (codes "LOG_FORMAT") (codes "text");
                  admin_token = env (codes "DRS_ADMIN_TOKEN");
                  tsa_url = env (codes "TSA_URL");
                  store_dir = env (codes "STORE_DIR");
                  server_identity = env (codes "SERVER_IDENTITY");
                  nonce_store_max_entries = nonce_store_max_entries;
                  nonce_store_ttl_secs = nonce_store_ttl_secs;
                  tsa_root_cert_pem = env (codes "TSA_ROOT_CERT_PEM");
                  rate_limit_per_ip = rate_limit_per_ip;
                  rate_limit_global = rate_limit_global;
                  trust_proxy = env (codes "TRUST_PROXY") == codes "true";
                  circuit_breaker_threshold = circuit_breaker_threshold;
                  circuit_breaker_cooldown_secs = circuit_breaker_cooldown_secs;
                  revocation_store_path = env (codes "REVOCATION_STORE_PATH");
                  nonce_store_backend =
                      get_env_or_default env (codes "NONCE_STORE_BACKEND") (codes "memory");
                  redis_url = env (codes "REDIS_URL");
                  metrics_addr = env (codes "METRICS_ADDR");
                })

abbrev pub checked : Config → Result LoadError Config
checked c = check_backend c >> ok c

unfoldable pub load_config : (Text → Option Float64) → Environment → Result LoadError Config
load_config parse_float env = read_variables parse_float env >>= checked
