-- ===== src/Server/Replays.antt =====
-- The window in which drs-verify refuses a replayed invocation: the freshness test of
-- drs-verify/pkg/verify/chain.go and the nonce store of drs-verify/pkg/nonce/store.go, with the one
-- limit that drs-verify/cmd/server/main.go gives both (MaxInvocationAge is the store's TTL).
use drs.Prelude.{
  ◌+◌, ◌<◌, ◌≡◌, inl, inr, ◌∙◌, true, false, List, [], ◌∷◌, some, arith, length, All, ok,
  Bool-cases,
}
use drs.Prelude.Int.{
  ℤ, pos, pos_part, neg_part, ◌≤ℤ◌, ◌-ℤ◌, ◌+ℤ◌, IsInt64, sub64, sub64_wrap, wrap64_id, -ℤ_parts,
  +ℤ_parts,
}
use drs.Prelude.Text.{Text, ◌==◌}
use drs.Nonce.{
  Seen, Store, accepted, replay_detected, lookup, delete, is_live, make_room, insert_if_room, check,
  check_all,
}
use drs.Nonce.Claims.{check_replay, accepted-Holds, IsBounded, check-IsBounded, length-delete-le}
use drs.Chain.Semantic.{clock_skew, check_freshness}
use drs.Chain.InForce.{IsFresh, check_freshness-eq-ok_iff}

-- Strictly earlier.
infix 50 ◌<ℤ◌
abbrev pub ◌<ℤ◌ : ℤ → ℤ → Type 0
a <ℤ b = pos_part a + neg_part b < pos_part b + neg_part a

-- The difference of two times that are not negative fits int64.
sub64_times : (t at : ℤ) → IsInt64 t → pos 0 ≤ℤ at → at ≤ℤ t → sub64 t at ≡ t -ℤ at
sub64_times t at word epoch order =
    let fits : IsInt64 (t -ℤ at) = unfold ◌-ℤ◌ in ground arith in
    sub64_wrap t at ∙ wrap64_id (t -ℤ at) fits

live_if_fresh :
    (ttl now iat at t : ℤ)
    → 0 < pos_part ttl
    → IsInt64 t
    → pos 0 ≤ℤ at
    → iat <ℤ at
    → at ≤ℤ t
    → t ≤ℤ now
    → IsFresh ttl now iat
    → is_live ttl t at ≡ true
live_if_fresh ttl now iat at t limit word epoch older after before fresh =
    let same = sub64_times t at word epoch after in
    let ages = fresh.1 limit in
    let difference = -ℤ_parts t at in let age = -ℤ_parts now iat in rw same (ground arith)

calls_live :
    (ttl now iat at : ℤ) (calls : List (Text × ℤ))
    → 0 < pos_part ttl
    → pos 0 ≤ℤ at
    → iat <ℤ at
    → IsFresh ttl now iat
    → All (λ c. IsInt64 c.1 × (at ≤ℤ c.1) × (c.1 ≤ℤ now)) calls
    → All (λ c. is_live ttl c.1 at ≡ true) calls
calls_live ttl now iat at [] limit epoch older fresh times = tt
calls_live ttl now iat at ((k, t) ∷ calls) limit epoch older fresh ((word, after, before), rest) = (
  live_if_fresh ttl now iat at t limit word epoch older after before fresh,
  calls_live ttl now iat at calls limit epoch older fresh rest,
)

-- Let the store's TTL be positive, let the invocation be older than the time `at` at which its JTI
-- was claimed, let the clock not run backwards, and let the clock with the skew and the age fit
-- int64. Whatever calls of Check follow, where the freshness test with the TTL as its limit still
-- passes the invocation, Check refuses its JTI as a replay.
pub fresh_refused :
    (s : Store) (jti : Text) (at now iat : ℤ) (calls : List (Text × ℤ))
    → 0 < pos_part s.ttl
    → (check s jti at).0 ≡ accepted
    → pos 0 ≤ℤ at
    → iat <ℤ at
    → at ≤ℤ now
    → IsInt64 now
    → IsInt64 (now +ℤ clock_skew)
    → IsInt64 (now -ℤ iat)
    → All (λ c. IsInt64 c.1 × (at ≤ℤ c.1) × (c.1 ≤ℤ now)) calls
    → check_freshness s.ttl now iat ≡ ok tt
    → check (check_all (check s jti at).1 calls) jti now
      ≡ (replay_detected, check_all (check s jti at).1 calls)
fresh_refused s jti at now iat calls limit claimed epoch older after word later age times passed =
    let fresh = (check_freshness-eq-ok_iff s.ttl now iat later age).0 passed in
    check_replay s jti at now calls claimed
      (calls_live s.ttl now iat at calls limit epoch older fresh times)
      (live_if_fresh s.ttl now iat at now limit word epoch older after (omega arith) fresh)

pub dead_claim :
    (ttl now at : ℤ)
    → IsInt64 now
    → pos 0 ≤ℤ at
    → at ≤ℤ now
    → at +ℤ ttl ≤ℤ now
    → is_live ttl now at ≡ false
dead_claim ttl now at word epoch after gone =
    let same = sub64_times now at word epoch after in
    let difference = -ℤ_parts now at in let sum = +ℤ_parts at ttl in rw same (ground arith)

delete_present :
    (jti : Text) (at : ℤ) (m : Seen) → lookup jti m ≡ some at → length (delete jti m) < length m
unfolding lookup delete
delete_present jti at [] h = cc
delete_present jti at ((k, t) ∷ m) h = elim (Bool-cases (k == jti)) [
  | inl hit ↦ rw hit (omega (arith, length-delete-le jti m))
  | inr miss ↦ rw miss (omega (arith, delete_present jti at m (rw miss at h)))
]

room_accepted :
    (s : Store) (jti : Text) (now : ℤ) (m : Seen)
    → length m < s.max_entries
    → (insert_if_room s jti now (make_room s now m)).0 ≡ accepted
unfolding insert_if_room make_room
room_accepted s jti now m h = ground arith

-- A claim that is no longer live is taken again, where the store keeps its capacity.
check-reclaims :
    (s : Store) (jti : Text) (at now : ℤ)
    → IsBounded s
    → lookup jti s.seen ≡ some at
    → is_live s.ttl now at ≡ false
    → (check s jti now).0 ≡ accepted
unfolding check
check-reclaims s jti at now bound h dead =
    let fewer = delete_present jti at s.seen h in
    rw (h, dead) (room_accepted s jti now (delete jti s.seen) (omega arith))

-- Where the JTI was accepted at a time `at` that is not after the invocation's iat, which may be
-- up to the skew ahead, its claim can expire while the invocation is still fresh: at every time
-- that the TTL or more separates from `at`, and at most the TTL from iat, the same invocation
-- passes the freshness test and Check accepts its JTI a second time.
pub accepted_again :
    (s : Store) (jti : Text) (at now iat : ℤ)
    → 0 < pos_part s.ttl
    → IsBounded s
    → (check s jti at).0 ≡ accepted
    → pos 0 ≤ℤ at
    → at ≤ℤ iat
    → at +ℤ s.ttl ≤ℤ now
    → now ≤ℤ iat +ℤ s.ttl
    → iat ≤ℤ now
    → IsInt64 now
    → IsInt64 (now +ℤ clock_skew)
    → ((check (check s jti at).1 jti now).0 ≡ accepted) × (check_freshness s.ttl now iat ≡ ok tt)
accepted_again s jti at now iat limit bound claimed epoch ahead gone fresh past word later =
    let (held, same) = accepted-Holds s jti at claimed in
    let dead = dead_claim s.ttl now at word epoch (omega (arith, +ℤ_parts at s.ttl)) gone in
    let again =
      check-reclaims (check s jti at).1 jti at now (check-IsBounded s jti at bound) held
        (rw same dead) in
    let age = -ℤ_parts now iat in
    let sum = +ℤ_parts iat s.ttl in
    let fits : IsInt64 (now -ℤ iat) = unfold ◌-ℤ◌ in ground arith in
    (
      again,
      (check_freshness-eq-ok_iff s.ttl now iat later fits).1
          (omega (arith, +ℤ_parts now clock_skew), λ _. omega arith),
    )
