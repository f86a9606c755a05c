-- ===== src/Nonce/Redis.antt =====
-- RedisStore of drs-verify/pkg/nonce/redis.go. The Redis client is a parameter; a time is that of
-- the Redis server, and times and durations are in nanoseconds.
use drs.Prelude.{
  ◌≡◌, ◌≢◌, refl, Bool, true, false, List, [], ◌∷◌, ◌++◌, Option, none, some, if◌then◌else◌, Result,
  err, ok, fail_if, ◌>>=◌, ◌>>◌, >>=-eq-ok, >>-eq-ok_iff, ok-injective, Bool-cases, inl, inr, subst,
}
use drs.Prelude.Int.{ℤ, pos, ltb_ℤ, ◌+ℤ◌}
use drs.Prelude.Text.{Text, codes, is_empty}

pub record Redis (Options S : Type 0) : Type 0 where
  -- redis.ParseURL
  pub parse_url : Text → Option Options
  -- Ping within two seconds, and SetNX of a key with a time to live, within a timeout, at a time of
  -- the server: `err` is an error of the call, which may still have set the key.
  pub ping : Options → Bool
  pub set_nx : ℤ → Text → ℤ → ℤ → S → Result (Unit {0}) Bool × S

pub record RedisConfig : Type 0 where
  pub url : Text
  pub key_prefix : Text
  pub ttl : ℤ
  pub check_timeout : ℤ

pub record RedisStore : Type 0 where
  pub prefix : Text
  pub ttl : ℤ
  pub ctx_timeout : ℤ

pub data RedisError : Type 0 where
  url_required ttl_not_positive parse_failed ping_failed : RedisError

pub data RedisOutcome : Type 0 where
  accepted replay_detected empty_jti set_nx_failed : RedisOutcome

abbrev or_default_prefix : Text → Text
or_default_prefix [] = codes "drs:nonce:"
or_default_prefix (b ∷ s) = b ∷ s

-- `x <= 0`
abbrev is_positive : ℤ → Bool
is_positive x = ltb_ℤ (pos 0) x

abbrev positive_or : ℤ → ℤ → ℤ
positive_or d x = if is_positive x then x else d

module _ {Options S : Type 0} (redis : Redis Options S) where
  abbrev parsed : Option Options → Result RedisError Options
  parsed none = err parse_failed
  parsed (some opts) = ok opts

  -- NewRedisStore, whose default timeout is 250 ms
  unfoldable pub new_redis_store : RedisConfig → Result RedisError RedisStore
  new_redis_store cfg = do
    fail_if (is_empty cfg.url) url_required
    fail_if (if is_positive cfg.ttl then false else true) ttl_not_positive
    opts ← parsed (redis.parse_url cfg.url)
    fail_if (if redis.ping opts then false else true) ping_failed
    ok (record {
      prefix = or_default_prefix cfg.key_prefix;
      ttl = cfg.ttl;
      ctx_timeout = positive_or (pos 250_000_000) cfg.check_timeout;
    })

  default_prefix-ne : (p : Text) → or_default_prefix p ≢ []
  default_prefix-ne [] = λ h. cc
  default_prefix-ne (b ∷ s) = λ h. cc

  default_timeout-positive : (x : ℤ) → is_positive (positive_or (pos 250_000_000) x) ≡ true
  default_timeout-positive x = elim (Bool-cases (is_positive x)) [
    | inl longer ↦ rw longer longer
    | inr unset ↦ rw unset refl
  ]

  -- A store is built only with a TTL that is positive, which is the configured one, after the server
  -- answered; its keys have a prefix, and a call has a positive time limit.
  pub new_redis_store_sound :
      (cfg : RedisConfig) (store : RedisStore)
      → new_redis_store cfg ≡ ok store
      → (store.ttl ≡ cfg.ttl)
        × (is_positive store.ttl ≡ true)
        × (is_positive store.ctx_timeout ≡ true)
        × (store.prefix ≢ [])
        × ((opts : Options) × (redis.parse_url cfg.url ≡ some opts) × (redis.ping opts ≡ true))
  unfolding new_redis_store
  new_redis_store_sound cfg store h =
      let (url, h1) = (>>-eq-ok_iff _ _ _).0 h in
      let (ttl, h2) = (>>-eq-ok_iff _ _ _).0 h1 in
      let (opts, parse, h3) = >>=-eq-ok (parsed (redis.parse_url cfg.url)) _ h2 in
      let (ping, h4) = (>>-eq-ok_iff _ _ _).0 h3 in
      let made = ok-injective h4 in
      let positive = passed (is_positive cfg.ttl) _ ttl in
      subst
        (λ (r : RedisStore).
          (r.ttl ≡ cfg.ttl)
          × (is_positive r.ttl ≡ true)
          × (is_positive r.ctx_timeout ≡ true)
          × (r.prefix ≢ [])
          × ((opts : Options) × (redis.parse_url cfg.url ≡ some opts) × (redis.ping opts ≡ true)))
        made
        (
          refl,
          positive,
          default_timeout-positive cfg.check_timeout,
          default_prefix-ne cfg.key_prefix,
          (opts, parsed-some (redis.parse_url cfg.url) opts parse, passed (redis.ping opts) _ ping),
        )
    where
      passed :
          (b : Bool) (e : RedisError) → fail_if (if b then false else true) e ≡ ok tt → b ≡ true
      passed true e g = refl
      passed false e g = cc

      parsed-some : (o : Option Options) (x : Options) → parsed o ≡ ok x → o ≡ some x
      parsed-some none x g = cc
      parsed-some (some y) x g = cc

  abbrev outcome : Result (Unit {0}) Bool × S → RedisOutcome × S
  outcome (err e, s) = (set_nx_failed, s)
  outcome (ok true, s) = (accepted, s)
  outcome (ok false, s) = (replay_detected, s)

  -- (*RedisStore).Check at the time `now`
  unfoldable pub check : RedisStore → Text → ℤ → S → RedisOutcome × S
  check store [] now s = (empty_jti, s)
  check store (b ∷ jti) now s =
      outcome (redis.set_nx store.ctx_timeout (store.prefix ++ (b ∷ jti)) store.ttl now s)

  -- The calls that the processes make on one Redis, each by a store of its own, in the order in
  -- which they are served.
  unfoldable pub check_all : List (RedisStore × Text × ℤ) → S → S
  check_all [] s = s
  check_all ((store, jti, now) ∷ calls) s = check_all calls (check store jti now s).1

  -- What Redis promises of SET NX with an expiry. `Holds key t s`: the key is set, and expires at the
  -- time t or later.
  pub record Laws : Type 1 where
    pub Holds : Text → ℤ → S → Type 0
    -- a key that was set by the call stays for its time to live
    pub set_holds :
        (timeout : ℤ) (key : Text) (ttl now : ℤ) (s : S)
        → (redis.set_nx timeout key ttl now s).0 ≡ ok true
        → Holds key (now +ℤ ttl) (redis.set_nx timeout key ttl now s).1
    -- no call removes a key
    pub keeps :
        (timeout : ℤ) (key other : Text) (ttl now t : ℤ) (s : S)
        → Holds key t s
        → Holds key t (redis.set_nx timeout other ttl now s).1
    -- a key that is set is not set again
    pub refuses :
        (timeout : ℤ) (key : Text) (ttl now t : ℤ) (s : S)
        → Holds key t s
        → ltb_ℤ now t ≡ true
        → (redis.set_nx timeout key ttl now s).0 ≢ ok true

  outcome-accepted : (p : Result (Unit {0}) Bool × S) → (outcome p).0 ≡ accepted → p.0 ≡ ok true
  outcome-accepted (err e, s) h = cc
  outcome-accepted (ok true, s) h = refl
  outcome-accepted (ok false, s) h = cc

  outcome-state : (p : Result (Unit {0}) Bool × S) → (outcome p).1 ≡ p.1
  outcome-state (err e, s) = refl
  outcome-state (ok true, s) = refl
  outcome-state (ok false, s) = refl

  module _ (laws : Laws) where
    open laws use {Holds, set_holds, keeps, refuses}

    check-Holds :
        (store : RedisStore) (jti : Text) (now : ℤ) (s : S)
        → (check store jti now s).0 ≡ accepted
        → Holds (store.prefix ++ jti) (now +ℤ store.ttl) (check store jti now s).1
    unfolding check
    check-Holds store [] now s h = cc
    check-Holds store (b ∷ jti) now s h =
        rw
          (outcome-state
            (redis.set_nx store.ctx_timeout (store.prefix ++ (b ∷ jti)) store.ttl now s))
          (set_holds store.ctx_timeout (store.prefix ++ (b ∷ jti)) store.ttl now s
            (outcome-accepted _ h))

    check-keeps :
        (key : Text) (t : ℤ) (store : RedisStore) (jti : Text) (now : ℤ) (s : S)
        → Holds key t s
        → Holds key t (check store jti now s).1
    unfolding check
    check-keeps key t store [] now s h = h
    check-keeps key t store (b ∷ jti) now s h =
        rw
          (outcome-state
            (redis.set_nx store.ctx_timeout (store.prefix ++ (b ∷ jti)) store.ttl now s))
          (keeps store.ctx_timeout key (store.prefix ++ (b ∷ jti)) store.ttl now t s h)

    check_all-keeps :
        (key : Text) (t : ℤ) (calls : List (RedisStore × Text × ℤ)) (s : S)
        → Holds key t s
        → Holds key t (check_all calls s)
    unfolding check_all
    check_all-keeps key t [] s h = h
    check_all-keeps key t ((store, jti, now) ∷ calls) s h =
        check_all-keeps key t calls _ (check-keeps key t store jti now s h)

    -- Over a Redis that keeps its promises of SET NX, a JTI that one replica's Check accepted is not
    -- accepted again by a replica of the same prefix before the TTL of that claim has passed,
    -- whatever calls the replicas make between, failing ones included.
    pub claimed_once :
        (store replica : RedisStore) (jti : Text) (at now : ℤ) (s : S)
        (calls : List (RedisStore × Text × ℤ))
        → replica.prefix ≡ store.prefix
        → (check store jti at s).0 ≡ accepted
        → ltb_ℤ now (at +ℤ store.ttl) ≡ true
        → (check replica jti now (check_all calls (check store jti at s).1)).0 ≢ accepted
    unfolding check
    claimed_once store replica [] at now s calls same claimed soon = λ h. cc
    claimed_once store replica (b ∷ jti) at now s calls same claimed soon = λ h.
        let held = check_all-keeps _ _ calls _ (check-Holds store (b ∷ jti) at s claimed) in
        refuses replica.ctx_timeout (replica.prefix ++ (b ∷ jti)) replica.ttl now (at +ℤ store.ttl)
          _ (rw same held) soon (outcome-accepted _ h)
