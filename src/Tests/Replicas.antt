-- ===== src/Tests/Replicas.antt =====
-- Two replicas of the server on one Redis, kept as a list of keys with their times of expiry.
use drs.Prelude.{
  ◌≡◌, ◌≢◌, refl, Bool, true, false, ◌&&◌, List, [], ◌∷◌, some, Result, ok, any_of, Some,
  Some-any_of, Some-mono, inl, inr, arith,
}
use drs.Prelude.Int.{ℤ, pos, ltb_ℤ, ◌+ℤ◌, ◌≤ℤ◌}
use drs.Prelude.Text.{Text, codes, ◌==◌, ==-refl}
use drs.Nonce.Redis.{Redis, RedisStore, Laws, accepted, check, check_all, claimed_once}

abbrev pub Keys : Type 0
Keys = List (Text × ℤ)

-- The key is set, and has not expired.
abbrev is_set : Text → ℤ → Text × ℤ → Bool
is_set key now e = (e.0 == key) && ltb_ℤ now e.1

abbrev set_if : Bool → Text → ℤ → Keys → Result (Unit {0}) Bool × Keys
set_if true key t s = (ok false, s)
set_if false key t s = (ok true, (key, t) ∷ s)

abbrev pub redis : Redis (Unit {0}) Keys
redis = record {
  parse_url = λ u. some tt;
  ping = λ o. true;
  set_nx = λ timeout key ttl now s. set_if (any_of (is_set key now) s) key (now +ℤ ttl) s;
}

abbrev SetUntil : Text → ℤ → Keys → Type 0
SetUntil key t s = Some (λ e. ((e.0 == key) ≡ true) × (t ≤ℤ e.1)) s

set_if-keeps :
    (b : Bool) (key other : Text) (u t : ℤ) (s : Keys)
    → SetUntil key t s
    → SetUntil key t (set_if b other u s).1
set_if-keeps true key other u t s h = h
set_if-keeps false key other u t s h = inr h

set_if-holds :
    (b : Bool) (key : Text) (t : ℤ) (s : Keys)
    → (set_if b key t s).0 ≡ ok true
    → SetUntil key t (set_if b key t s).1
set_if-holds true key t s h = cc
set_if-holds false key t s h = inl (==-refl key, omega arith)

still_set :
    (key : Text) (now t : ℤ) (e : Text × ℤ)
    → ltb_ℤ now t ≡ true
    → ((e.0 == key) ≡ true) × (t ≤ℤ e.1)
    → is_set key now e ≡ true
still_set key now t e soon (same, later) = rw same (ground arith)

laws : Laws redis
laws = record {
  Holds = SetUntil;
  set_holds =
      λ timeout key ttl now s h. set_if-holds (any_of (is_set key now) s) key (now +ℤ ttl) s h;
  keeps = λ timeout key other ttl now t s h.
      set_if-keeps (any_of (is_set other now) s) key other (now +ℤ ttl) t s h;
  refuses = λ timeout key ttl now t s h soon e.
      let held = Some-any_of (is_set key now) s (Some-mono (λ x. still_set key now t x soon) s h) in
      cc (rw (held, set_if) at e);
}

abbrev store : RedisStore
store = record { prefix = codes "drs:nonce:"; ttl = pos 900; ctx_timeout = pos 250 }

accepted_run : (check redis store (codes "j1") (pos 5) []).0 ≡ accepted
unfolding check any_of
accepted_run = refl

soon_run : ltb_ℤ (pos 800) (pos 5 +ℤ pos 900) ≡ true
unfolding ◌+ℤ◌
soon_run = refl

claimed_once_example :
    (check redis store (codes "j1") (pos 800) (
      check_all redis
        ((store, codes "j2", pos 6) ∷ [])
        (check redis store (codes "j1") (pos 5) []).1)).0
    ≢ accepted
claimed_once_example =
    claimed_once redis laws store store (codes "j1") (pos 5) (pos 800) []
      ((store, codes "j2", pos 6) ∷ []) refl accepted_run soon_run
