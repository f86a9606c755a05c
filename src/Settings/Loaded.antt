-- ===== src/Settings/Loaded.antt =====
-- What a configuration that Load of drs-verify/pkg/config/config.go returns is sure of.
use drs.Prelude.{
  ◌≡◌, ◌⊎◌, ◌↔◌, inl, inr, refl, ap, subst, ◌∙◌, Bool, true, false, not, ◌&&◌, Option, ok, fail_if,
  ◌>>◌, >>=-eq-ok, ok-injective, Bool-cases,
}
use drs.Prelude.Int.{Float64}
use drs.Prelude.Text.{Text, codes, ◌==◌, ==_iff, is_empty}
use drs.Settings.Parse.{
  Environment, LoadError, redis_without_url, unknown_backend, memory_behind_proxy,
}
use drs.Settings.Load.{Config, check_backend, read_variables, checked, load_config}

-- The nonce store is in memory, and then there is no proxy, or in Redis, and then its URL is set.
abbrev pub IsConsistent : Config → Type 0
IsConsistent c =
    ((c.nonce_store_backend ≡ codes "memory") × (c.trust_proxy ≡ false))
    ⊎ ((c.nonce_store_backend ≡ codes "redis") × (is_empty c.redis_url ≡ false))

checks_passed :
    (memory redis blank proxy : Bool) (e f g : LoadError)
    → (fail_if (redis && blank) e
        >> fail_if (not memory && not redis) f
        >> fail_if (proxy && memory) g)
      ≡ ok tt
    → ((memory ≡ true) × (proxy ≡ false)) ⊎ ((redis ≡ true) × (blank ≡ false))
checks_passed true redis blank false e f g h = inl (refl, refl)
checks_passed true true true true e f g h = cc
checks_passed true true false true e f g h = cc
checks_passed true false blank true e f g h = cc
checks_passed false true false proxy e f g h = inr (refl, refl)
checks_passed false true true proxy e f g h = cc
checks_passed false false blank proxy e f g h = cc

-- The checks pass exactly a consistent configuration.
pub check_backend-eq-ok_iff : (c : Config) → (check_backend c ≡ ok tt) ↔ IsConsistent c
unfolding check_backend ◌==◌
check_backend-eq-ok_iff c = (
  λ h.
      elim (checks_passed (c.nonce_store_backend == codes "memory")
        (c.nonce_store_backend == codes "redis") (is_empty c.redis_url) c.trust_proxy
        redis_without_url (unknown_backend c.nonce_store_backend) memory_behind_proxy h) [
          | inl (memory, direct) ↦
              inl ((==_iff c.nonce_store_backend (codes "memory")).0 memory, direct)
          | inr (redis, given) ↦ inr ((==_iff c.nonce_store_backend (codes "redis")).0 redis, given)
        ],
  λ h. elim h [
    | inl (memory, direct) ↦ simp (memory, direct)
    | inr (redis, given) ↦ elim (Bool-cases c.trust_proxy) [
      | inl proxy ↦ simp (redis, given, proxy)
      | inr direct ↦ simp (redis, given, direct)
    ]
  ],
)

checked-eq-ok : (d c : Config) → checked d ≡ ok c → (check_backend d ≡ ok tt) × (d ≡ c)
checked-eq-ok d c h =
    let (unit, passed, same) = >>=-eq-ok (check_backend d) (λ u. ok d) h in
    (passed, ok-injective same)

-- Load returns a configuration exactly if the variables read as it and it is consistent: with the
-- nonce store in memory it does not trust a proxy, and with Redis it has a URL.
pub load_config-eq-ok_iff :
    (parse_float : Text → Option Float64) (env : Environment) (c : Config)
    → (load_config parse_float env ≡ ok c)
      ↔ ((read_variables parse_float env ≡ ok c) × IsConsistent c)
unfolding load_config
load_config-eq-ok_iff parse_float env c = (
  λ h.
      let (d, read, passed) = >>=-eq-ok (read_variables parse_float env) checked h in
      let (consistent, same) = checked-eq-ok d c passed in
      (
        read ∙ ap (λ (x : Config). ok x) same,
        subst IsConsistent same ((check_backend-eq-ok_iff d).0 consistent),
      ),
  λ (read, consistent). rw (read, (check_backend-eq-ok_iff c).1 consistent) refl,
)
