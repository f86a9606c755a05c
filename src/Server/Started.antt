-- ===== src/Server/Started.antt =====
-- What a server that main of drs-verify/cmd/server/main.go has started is sure of.
use drs.Prelude.{
  ◌≡◌, ◌≢◌, inl, inr, refl, sym, subst, true, false, List, [], ◌∷◌, Option, none, some,
  if◌then◌else◌, Result, err, ok, >>=-eq-ok, ok-injective, Bool-cases, Option-cases,
}
use drs.Prelude.Int.{ℤ}
use drs.Prelude.Text.{Text, codes, ◌==◌, ==_iff, is_empty}
use drs.Timestamp.Token.{Certificate}
use drs.Nonce.Redis.{new_redis_store, new_redis_store_sound}
use drs.Settings.Parse.{Environment}
use drs.Settings.Load.{Config, load_config}
use drs.Settings.Loaded.{IsConsistent, load_config-eq-ok_iff}
use drs.Server.Start.{
  Host, Started, StartError, NonceStore, local, shared, seconds, open_nonces, open_receipts,
  open_revocations, new_resolver, tsa_roots, pool_of, tls_of, start_metrics, wrap_error, start_with,
  start,
}

-- The time for which a claimed JTI is kept.
abbrev pub ttl_of : NonceStore → ℤ
ttl_of (local max_entries ttl) = ttl
ttl_of (shared store) = store.ttl

abbrev IsShared : NonceStore → Type 0
IsShared (local max_entries ttl) = ⊥
IsShared (shared store) = Unit

pub wrap_error-eq-ok :
    {E A : Type 0} (f : E → StartError) (r : Result E A) (a : A) → wrap_error f r ≡ ok a → r ≡ ok a
wrap_error-eq-ok f (ok b) a h = cc
wrap_error-eq-ok f (err e) a h = cc

-- TLS with both of its files, or with neither.
abbrev pub IsTls : Text → Text → Option (Text × Text) → Type 0
IsTls cert key none = (cert ≡ []) × (key ≡ [])
IsTls cert key (some files) = (files ≡ (cert, key)) × (cert ≢ []) × (key ≢ [])

module _ {Options S : Type 0} (host : Host Options S) where
  tls_of_sound :
      (cert key : Text) (tls : Option (Text × Text))
      → tls_of host cert key ≡ ok tls
      → IsTls cert key tls
  tls_of_sound [] [] none h = (refl, refl)
  tls_of_sound [] [] (some files) h = cc
  tls_of_sound [] (b ∷ key) tls h = cc
  tls_of_sound (b ∷ cert) [] tls h = cc
  tls_of_sound (b ∷ cert) (c ∷ key) none h = cc
  tls_of_sound (b ∷ cert) (c ∷ key) (some files) h = (cc, λ e. cc, λ e. cc)

  -- The backend of the store, with its TTL.
  abbrev IsBackend : Config → NonceStore → Type 0
  IsBackend cfg nonces =
      (ttl_of nonces ≡ seconds cfg.nonce_store_ttl_secs)
      × (cfg.nonce_store_backend ≡ codes "redis" → IsShared nonces)

  differ : {s : Text} → s ≡ codes "redis" → (s == codes "redis") ≡ false → ⊥
  differ {s} e other = cc ((==_iff s (codes "redis")).1 e)

  open_nonces_sound :
      (cfg : Config) (nonces : NonceStore) → open_nonces host cfg ≡ ok nonces → IsBackend cfg nonces
  unfolding open_nonces
  open_nonces_sound cfg nonces h = elim (Bool-cases (cfg.nonce_store_backend == codes "redis")) [
    | inl redis ↦
        let (store, made, same) =
          >>=-eq-ok (wrap_error StartError.nonce_store_init (new_redis_store host.redis _)) _
            (rw redis at h) in
        let sound =
          new_redis_store_sound host.redis _ store
            (wrap_error-eq-ok StartError.nonce_store_init _ _ made) in
        subst (IsBackend cfg) (ok-injective same) (sound.0, λ e. tt)
    | inr other ↦
        subst (IsBackend cfg) (ok-injective (rw other at h)) (refl, λ e. absurd (differ e other))
  ]

  -- The roots are those of the configured certificates, or there are none.
  abbrev pub IsPool : Text → Option (List Certificate) → Type 0
  IsPool pem none = pem ≡ []
  IsPool pem (some roots) = (pem ≢ []) × (host.certificates_from_pem pem ≡ some roots)

  roots_sound :
      (pem : Text) (pool : Option (List Certificate))
      → (if is_empty pem then ok none else pool_of host (host.certificates_from_pem pem)) ≡ ok pool
      → IsPool pem pool
  roots_sound [] none h = refl
  roots_sound [] (some roots) h = cc
  roots_sound (b ∷ pem) pool h = elim (Option-cases (host.certificates_from_pem (b ∷ pem))) [
    | inl bad ↦ cc (rw (bad, pool_of) at h)
    | inr (roots, found) ↦
        subst (IsPool (b ∷ pem)) (ok-injective (rw (found, pool_of) at h)) (λ e. cc, found)
  ]

  -- The server was put together from this configuration.
  pub record IsStarted (cfg : Config) (w : Started) : Type 0 where
    pub consistent : IsConsistent cfg
    -- An invocation may be as old as a claim is kept.
    pub window : w.max_invocation_age ≡ ttl_of w.nonce_store
    pub ttl : ttl_of w.nonce_store ≡ seconds cfg.nonce_store_ttl_secs
    -- Behind a proxy the replicas share their claims.
    pub proxied : w.trust_proxy ≡ true → IsShared w.nonce_store
    pub tls : IsTls cfg.tls_cert_file cfg.tls_key_file w.tls
    pub pool : IsPool cfg.tsa_root_cert_pem w.tsa_root_pool

  consistent_redis :
      (cfg : Config)
      → IsConsistent cfg
      → cfg.trust_proxy ≡ true
      → cfg.nonce_store_backend ≡ codes "redis"
  consistent_redis cfg (inl (memory, direct)) proxy = cc
  consistent_redis cfg (inr (redis, given)) proxy = redis

  start_with_sound :
      (cfg : Config) (w : Started) → IsConsistent cfg → start_with host cfg ≡ ok w → IsStarted cfg w
  unfolding start_with tsa_roots
  start_with_sound cfg w consistent h =
      let (resolver, _, h1) = >>=-eq-ok (new_resolver host cfg) _ h in
      let (revocations, _, h2) = >>=-eq-ok (open_revocations host cfg) _ h1 in
      let (receipts, _, h3) = >>=-eq-ok (open_receipts host cfg) _ h2 in
      let (pool, rooted, h4) = >>=-eq-ok (tsa_roots host cfg) _ h3 in
      let (nonces, opened, h5) = >>=-eq-ok (open_nonces host cfg) _ h4 in
      let (tls, files, h6) = >>=-eq-ok (tls_of host cfg.tls_cert_file cfg.tls_key_file) _ h5 in
      let (metrics, _, h7) = >>=-eq-ok (start_metrics host cfg.metrics_addr) _ h6 in
      let (ttl, redis) = open_nonces_sound cfg nonces opened in
      subst (IsStarted cfg) (ok-injective h7) (record {
        consistent = consistent;
        window = sym ttl;
        ttl = ttl;
        proxied = λ proxy. redis (consistent_redis cfg consistent proxy);
        tls = tls_of_sound cfg.tls_cert_file cfg.tls_key_file tls files;
        pool = roots_sound cfg.tsa_root_cert_pem pool rooted;
      })

  -- A server starts only from a configuration that Load accepts. The age that it allows an invocation
  -- is then the TTL of its nonce store; it trusts a proxy only with Redis as that store; TLS is on
  -- with both files and off with neither; and its timestamp roots are those of the configured PEM
  -- text, none if that is empty.
  pub start_sound :
      (env : Environment) (w : Started)
      → start host env ≡ ok w
      → (cfg : Config) × (load_config host.parse_float env ≡ ok cfg) × IsStarted cfg w
  unfolding start
  start_sound env w h =
      let (cfg, loaded, started) =
        >>=-eq-ok (wrap_error StartError.config_load (load_config host.parse_float env)) _ h in
      let read =
        wrap_error-eq-ok StartError.config_load (load_config host.parse_float env) cfg loaded in
      let consistent = ((load_config-eq-ok_iff host.parse_float env cfg).0 read).1 in
      (cfg, read, start_with_sound cfg w consistent started)
