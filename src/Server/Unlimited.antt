-- ===== src/Server/Unlimited.antt =====
-- A TTL that is not positive, which drs-verify/pkg/config/config.go and the store in memory of
-- drs-verify/pkg/nonce/store.go both take.
use drs.Prelude.{◌≡◌, ◌≢◌, refl, ap, ◌∙◌, false, some, arith, ok}
use drs.Prelude.Int.{ℤ, pos, negsuc, pos_part, ◌≤ℤ◌, ◌-ℤ◌, ◌+ℤ◌, IsInt64, wrap64_id, +ℤ_parts}
use drs.Prelude.Text.{Text, is_empty}
use drs.Nonce.{
  Seen, Store, replay_detected, lookup, is_live, make_room, insert_if_room, delete, check,
}
use drs.Chain.Semantic.{clock_skew, check_freshness}
use drs.Chain.InForce.{check_freshness-eq-ok_iff}
use drs.Settings.Parse.{Environment, parse_int}
use drs.Server.AnyTtl.{with_ttl, with_window, start-with_ttl}
use drs.Server.Replays.{dead_claim}
use drs.Server.Start.{Host, Started, local, scale, seconds, whole_seconds, start}
use drs.Server.Started.{ttl_of, start_sound}

whole_seconds-pos_part : (d : ℤ) → pos_part d ≡ 0 → pos_part (whole_seconds d) ≡ 0
unfolding whole_seconds
whole_seconds-pos_part (pos n) h = ground arith
whole_seconds-pos_part (negsuc n) h = ground arith

-- Whole seconds are kept, where their nanoseconds fit int64.
pub whole_seconds-seconds : (n : ℤ) → IsInt64 (scale n) → whole_seconds (seconds n) ≡ n
unfolding whole_seconds seconds
whole_seconds-seconds (pos n) fits = rw (wrap64_id (scale (pos n)) fits) (ground arith)
whole_seconds-seconds (negsuc n) fits = rw (wrap64_id (scale (negsuc n)) fits) (ground arith)

no_replay :
    (s : Store) (jti : Text) (now : ℤ) (m : Seen) → (insert_if_room s jti now m).0 ≢ replay_detected
unfolding insert_if_room
no_replay s jti now m h = ground arith

check-dead :
    (s : Store) (jti : Text) (at now : ℤ)
    → lookup jti s.seen ≡ some at
    → is_live s.ttl now at ≡ false
    → (check s jti now).0 ≢ replay_detected
unfolding check
check-dead s jti at now h dead =
    rw (h, dead) (no_replay s jti now (make_room s now (delete jti s.seen)))

unlimited :
    {Options S : Type 0} (host : Host Options S) (env : Environment) (w : Started)
    (max_entries ttl : ℤ) (s : Store) (jti : Text) (at now iat : ℤ)
    → start host env ≡ ok w
    → w.nonce_store ≡ local max_entries ttl
    → pos_part ttl ≡ 0
    → s.ttl ≡ whole_seconds ttl
    → lookup jti s.seen ≡ some at
    → pos 0 ≤ℤ at
    → at ≤ℤ now
    → iat ≤ℤ now
    → IsInt64 now
    → IsInt64 (now +ℤ clock_skew)
    → IsInt64 (now -ℤ iat)
    → ((check s jti now).0 ≢ replay_detected)
      × (check_freshness (whole_seconds w.max_invocation_age) now iat ≡ ok tt)
unlimited host env w max_entries ttl s jti at now iat started store none_left same held epoch after
      past word later age =
    let (cfg, _, sound) = start_sound host env w started in
    let limit : w.max_invocation_age ≡ ttl = sound.window ∙ ap ttl_of store in
    let whole : pos_part (whole_seconds ttl) ≡ 0 = whole_seconds-pos_part ttl none_left in
    let spent : pos_part s.ttl ≡ 0 = ap pos_part same ∙ whole in
    let sum = +ℤ_parts at s.ttl in
    let ahead = +ℤ_parts now clock_skew in
    (
      check-dead s jti at now held (dead_claim s.ttl now at word epoch after (omega arith)),
      (check_freshness-eq-ok_iff (whole_seconds w.max_invocation_age) now iat later age).1 (
        omega arith,
        λ positive. absurd (omega (arith, ap (λ (d : ℤ). pos_part (whole_seconds d)) limit)),
      ),
    )

-- Let a server with the nonce store in memory start. With NONCE_STORE_TTL_SECS set to any number
-- whose duration in int64 nanoseconds is not positive it starts too, and is the same but for its
-- TTL. Whatever JTI the store then holds since a time that is not after the clock, Check never
-- answers that it is a replay, and the freshness test passes every invocation that is not from
-- the future and whose age fits int64.
pub unlimited_replays :
    {Options S : Type 0} (host : Host Options S) (env : Environment) (w : Started)
    (max_entries ttl n : ℤ) (v : Text) (s : Store) (jti : Text) (at now iat : ℤ)
    → start host env ≡ ok w
    → w.nonce_store ≡ local max_entries ttl
    → is_empty v ≡ false
    → parse_int v ≡ some n
    → pos_part (seconds n) ≡ 0
    → s.ttl ≡ whole_seconds (seconds n)
    → lookup jti s.seen ≡ some at
    → pos 0 ≤ℤ at
    → at ≤ℤ now
    → iat ≤ℤ now
    → IsInt64 now
    → IsInt64 (now +ℤ clock_skew)
    → IsInt64 (now -ℤ iat)
    → (start host (with_ttl env v) ≡ ok (with_window w max_entries n))
      × ((check s jti now).0 ≢ replay_detected)
      × (check_freshness (whole_seconds (seconds n)) now iat ≡ ok tt)
unlimited_replays host env w max_entries ttl n v s jti at now iat started store given read none_left
      same held epoch after past word later age =
    let again = start-with_ttl host env w max_entries ttl n v started store given read in
    let (claim, fresh) =
      unlimited host (with_ttl env v) (with_window w max_entries n) max_entries (seconds n) s jti at
        now iat again refl none_left same held epoch after past word later age in
    (again, claim, fresh)
