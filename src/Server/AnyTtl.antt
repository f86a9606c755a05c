-- ===== src/Server/AnyTtl.antt =====
-- A server of drs-verify/cmd/server/main.go with another NONCE_STORE_TTL_SECS: with the nonce store in
-- memory, it starts whatever number that is.
use drs.Prelude.{
  ◌≡◌, ◌>>=◌, refl, ap, ◌∙◌, false, Option, some, if◌then◌else◌, Result, ok, ok-injective,
  >>=-eq-ok, >>=-ok, Bool-cases, inl, inr,
}
use drs.Prelude.Int.{ℤ, Float64}
use drs.Prelude.Text.{Text, codes, ◌==◌, is_empty}
use drs.Settings.Parse.{Environment, parse_int, get_env_int, get_env_float, get_env_or_default}
use drs.Settings.Load.{Config, read_variables, load_config}
use drs.Settings.Loaded.{load_config-eq-ok_iff}
use drs.Server.Start.{
  Host, Started, NonceStore, local, config_load, nonce_store_init, seconds, start, wrap_error,
  start_with, new_resolver, open_revocations, open_receipts, tsa_roots, open_nonces, tls_of,
  start_metrics,
}
use drs.Nonce.Redis.{new_redis_store}
use drs.Server.Started.{wrap_error-eq-ok}

-- The environment with another value of NONCE_STORE_TTL_SECS.
abbrev pub with_ttl : Environment → Text → Environment
with_ttl env v name = if name == codes "NONCE_STORE_TTL_SECS" then v else env name

-- A server that is the same but for its TTL, which is `n` seconds.
abbrev pub with_window : Started → ℤ → ℤ → Started
with_window w max_entries n = record w {
  max_invocation_age = seconds n;
  nonce_store = local max_entries (seconds n);
}

module _ {E A B : Type 0} {q : Result E A} (next later : A → Result E B) {b c : B} where
  -- A call that gives the same in both chains.
  carried :
      {r : Result E A}
      → q ≡ r
      → ((a : A) → next a ≡ ok b → later a ≡ ok c)
      → ◌≡◌ {A = Result E B} (r >>= next) (ok b)
      → ◌≡◌ {A = Result E B} (q >>= later) (ok c)
  carried {r} same go h =
      let (a, e, rest) = >>=-eq-ok r next h in >>=-ok q later a (ok c) (same ∙ e) (go a rest)

  -- A call that gives `n` in the second chain.
  replaced :
      (call : Result E A) {n : A}
      → q ≡ ok n
      → ((a : A) → next a ≡ ok b → later n ≡ ok c)
      → ◌≡◌ {A = Result E B} (call >>= next) (ok b)
      → ◌≡◌ {A = Result E B} (q >>= later) (ok c)
  replaced call {n} other go h =
      let (a, _, rest) = >>=-eq-ok call next h in >>=-ok q later n (ok c) other (go a rest)

module _ (env : Environment) (v : Text) where
  other_int :
      (name : Text) (default : ℤ)
      → (name == codes "NONCE_STORE_TTL_SECS") ≡ false
      → get_env_int (with_ttl env v) name default ≡ get_env_int env name default
  unfolding get_env_int
  other_int name default other = rw other refl

  other_float :
      (parse_float : Text → Option Float64) (name : Text) (default : Float64)
      → (name == codes "NONCE_STORE_TTL_SECS") ≡ false
      → get_env_float parse_float (with_ttl env v) name default
        ≡ get_env_float parse_float env name default
  unfolding get_env_float
  other_float parse_float name default other = rw other refl

  ttl_int :
      (n default : ℤ)
      → is_empty v ≡ false
      → parse_int v ≡ some n
      → get_env_int (with_ttl env v) (codes "NONCE_STORE_TTL_SECS") default ≡ ok n
  unfolding get_env_int ◌==◌
  ttl_int n default given read = rw (given, read) refl

  read_variables-with_ttl :
      (parse_float : Text → Option Float64) (cfg : Config) (n : ℤ)
      → is_empty v ≡ false
      → parse_int v ≡ some n
      → read_variables parse_float env ≡ ok cfg
      → read_variables parse_float (with_ttl env v) ≡ ok (record cfg { nonce_store_ttl_secs = n })
  unfolding read_variables get_env_or_default ◌==◌
  read_variables-with_ttl parse_float cfg n given read =
      carried _ _ (other_int (codes "DID_CACHE_SIZE") _ refl) (λ cache_size.
        carried _ _ (other_int (codes "DID_CACHE_TTL_SECS") _ refl) (λ cache_ttl.
          carried _ _ (other_int (codes "STATUS_CACHE_TTL_SECS") _ refl) (λ list_ttl.
            carried _ _ (other_int (codes "MAX_BODY_BYTES") _ refl) (λ body_bytes.
              carried _ _ (other_int (codes "NONCE_STORE_MAX_ENTRIES") _ refl) (λ entries.
                replaced _ _ _ (ttl_int n _ given read) (λ nonce_ttl.
                  carried _ _ (other_float parse_float (codes "RATE_LIMIT_PER_IP") _ refl)
                    (λ per_ip.
                      carried _ _ (other_float parse_float (codes "RATE_LIMIT_GLOBAL") _ refl)
                        (λ global.
                          carried _ _ (other_int (codes "CIRCUIT_BREAKER_THRESHOLD") _ refl)
                            (λ threshold.
                              carried _ _ (other_int (codes "CIRCUIT_BREAKER_COOLDOWN_SECS") _ refl)
                                (λ cooldown h.
                                  ap (λ (c : Config). ok (record c { nonce_store_ttl_secs = n }))
                                    (ok-injective h)))))))))))

module _ {Options S : Type 0} (host : Host Options S) where
  local_nonces :
      (cfg : Config) (max_entries ttl n : ℤ)
      → open_nonces host cfg ≡ ok (local max_entries ttl)
      → open_nonces host (record cfg { nonce_store_ttl_secs = n })
        ≡ ok (local max_entries (seconds n))
  unfolding open_nonces
  local_nonces cfg max_entries ttl n h =
      elim (Bool-cases (cfg.nonce_store_backend == codes "redis")) [
        | inl redis ↦
            let (_, _, same) =
              >>=-eq-ok (wrap_error nonce_store_init (new_redis_store host.redis _)) _
                (rw redis at h) in
            let clash = ok-injective same in cc
        | inr other ↦
            let same = ok-injective (rw other at h) in
            let entries : cfg.nonce_store_max_entries ≡ max_entries = cc in rw (other, entries) refl
      ]

  start_with-with_window :
      (cfg : Config) (w : Started) (max_entries ttl n : ℤ)
      → start_with host cfg ≡ ok w
      → w.nonce_store ≡ local max_entries ttl
      → start_with host (record cfg { nonce_store_ttl_secs = n }) ≡ ok (with_window w max_entries n)
  unfolding start_with new_resolver open_revocations open_receipts tsa_roots start_metrics
  start_with-with_window cfg w max_entries ttl n h store =
      let (_, e1, h1) = >>=-eq-ok (new_resolver host cfg) _ h in
      let (_, e2, h2) = >>=-eq-ok (open_revocations host cfg) _ h1 in
      let (_, e3, h3) = >>=-eq-ok (open_receipts host cfg) _ h2 in
      let (_, e4, h4) = >>=-eq-ok (tsa_roots host cfg) _ h3 in
      let (nonces, e5, h5) = >>=-eq-ok (open_nonces host cfg) _ h4 in
      let (_, e6, h6) = >>=-eq-ok (tls_of host cfg.tls_cert_file cfg.tls_key_file) _ h5 in
      let (_, e7, h7) = >>=-eq-ok (start_metrics host cfg.metrics_addr) _ h6 in
      let built = ok-injective h7 in
      let opened : nonces ≡ local max_entries ttl =
        ap (λ (x : Started). x.nonce_store) built ∙ store in
      let again = local_nonces cfg max_entries ttl n (e5 ∙ ap (λ (x : NonceStore). ok x) opened) in
      >>=-ok _ _ _ _ e1 (
        >>=-ok _ _ _ _ e2 (
          >>=-ok _ _ _ _ e3 (
            >>=-ok _ _ _ _ e4 (
              >>=-ok _ _ _ _ again (
                >>=-ok _ _ _ _ e6 (
                  >>=-ok _ _ _ _ e7
                    (ap (λ (x : Started). ok (with_window x max_entries n)) built)))))))

  -- A server with the nonce store in memory starts with every TTL that is a number.
  pub start-with_ttl :
      (env : Environment) (w : Started) (max_entries ttl n : ℤ) (v : Text)
      → start host env ≡ ok w
      → w.nonce_store ≡ local max_entries ttl
      → is_empty v ≡ false
      → parse_int v ≡ some n
      → start host (with_ttl env v) ≡ ok (with_window w max_entries n)
  unfolding start
  start-with_ttl env w max_entries ttl n v started store given read =
      let (cfg, wrapped, built) =
        >>=-eq-ok (wrap_error config_load (load_config host.parse_float env)) _ started in
      let (variables, consistent) =
        (load_config-eq-ok_iff host.parse_float env cfg).0
          (wrap_error-eq-ok config_load _ cfg wrapped) in
      let loaded =
        (load_config-eq-ok_iff host.parse_float (with_ttl env v)
            (record cfg { nonce_store_ttl_secs = n })).1
          (read_variables-with_ttl env v host.parse_float cfg n given read variables, consistent) in
      >>=-ok _ _ _ _ (ap (wrap_error config_load) loaded)
        (start_with-with_window cfg w max_entries ttl n built store)
