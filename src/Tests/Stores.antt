-- ===== src/Tests/Stores.antt =====
-- The nonce store and the revocation stores of drs-verify on small inputs.
use drs.Prelude.{ℕ, ◌≡◌, ◌≢◌, refl, true, false, List, [], ◌∷◌, Option, some, ok, err, All, arith}
use drs.Prelude.Int.{ℤ, pos, ◌-ℤ◌, wrap64, signed64, sub64}
use drs.Prelude.Text.{Text, codes, ◌==◌}
use drs.Nonce
use drs.Nonce.{
  Outcome, accepted, replay_detected, store_exhausted, is_live, insert_if_room, make_room, evict,
}
use drs.Nonce.Claims.{check_replay}
use drs.Revocation.Status
use drs.Revocation.Status.{
  StatusCache, Fetch, failed, response, Moment, Error, cancelled, no_snapshot, http_error, get_bit,
  accept_body, limited, fetched, refresh, ensure_initial_snapshot, refresh_expired, read_bit,
}
use drs.Revocation.FailClosed.{IsSound}
use drs.Revocation.Local
use drs.Revocation.Local.{Revoked, memory_store, memory_store-IsCumulative, is_revoked-revoke}
use drs.Revocation.Admin
use drs.Revocation.Admin.{Admitted, Request, revoked, handle-revoked, handle_refused, status}

abbrev store : Nonce.Store
store = Nonce.new 2 (pos 60)

abbrev jti : Text
jti = codes "inv:0"

abbrev calls : List (Text × ℤ)
calls = (codes "inv:1", pos 110) ∷ (codes "inv:2", pos 120) ∷ []

first_accepted : (Nonce.check store jti (pos 100)).0 ≡ accepted
unfolding Nonce.check Nonce.lookup insert_if_room make_room
first_accepted = refl

live_between : All (λ c. is_live (pos 60) c.1 (pos 100) ≡ true) calls
unfolding sub64 wrap64 signed64 ◌-ℤ◌
live_between = (refl, (refl, tt))

live_later : is_live (pos 60) (pos 130) (pos 100) ≡ true
unfolding sub64 wrap64 signed64 ◌-ℤ◌
live_later = refl

check_replay_example :
    Nonce.check (Nonce.check_all (Nonce.check store jti (pos 100)).1 calls) jti (pos 130)
    ≡ (replay_detected, Nonce.check_all (Nonce.check store jti (pos 100)).1 calls)
check_replay_example =
    check_replay store jti (pos 100) (pos 130) calls first_accepted live_between live_later

abbrev full : Nonce.Store
full = record { seen = (codes "inv:1", pos 90) ∷ []; max_entries = 1; ttl = pos 60 }

exhausted_run : (Nonce.check full jti (pos 100)).0 ≡ store_exhausted
unfolding Nonce.check Nonce.lookup insert_if_room make_room evict sub64 wrap64 signed64 ◌-ℤ◌ ◌==◌
exhausted_run = refl

abbrev cache : StatusCache
cache = Status.new (codes "https://status") 300

abbrev served : Fetch
served = response (record { status = 200; content_length = some 2; body = some (5 ∷ 128 ∷ []) })

abbrev moment : Fetch → Moment
moment f = record {
  is_done = false;
  first = f;
  first_at = 10;
  now = 11;
  recheck_at = 11;
  again = failed;
  again_at = 12;
}

unread-IsSound : IsSound cache
unread-IsSound h = cc

answer_run : (Status.is_revoked cache 8 (moment served)).0 ≡ ok true
unfolding Status.is_revoked ensure_initial_snapshot refresh fetched accept_body limited
    refresh_expired read_bit get_bit
answer_run = refl

lost_run : fetched failed ≡ err http_error
unfolding fetched
lost_run = refl

abbrev identity : Text → Text
identity t = t

abbrev post : Request
post = record { method = codes "POST"; authorization = codes "Bearer secret"; index = some 7 }

post_run : (Admin.handle identity memory_store (codes "secret") post []).0 ≡ revoked 7
unfolding Admin.handle Local.revoke ◌==◌
post_run = refl

handle-revoked_example :
    Admitted identity memory_store (codes "secret") post
    × (◌≡◌ {A = Option ℕ} (some 7) (some 7))
    × (Local.is_revoked 7 (Admin.handle identity memory_store (codes "secret") post []).1 ≡ true)
handle-revoked_example =
    handle-revoked identity memory_store (codes "secret") memory_store-IsCumulative post 7 []
      post_run

abbrev forged : Request
forged = record post { authorization = codes "Bearer guess" }

forged_run : status (Admin.handle identity memory_store (codes "secret") forged []).0 ≡ 401
unfolding Admin.handle ◌==◌
forged_run = refl

not_ok : status (Admin.handle identity memory_store (codes "secret") forged []).0 ≢ 200
not_ok h = ground (arith, forged_run)

not_failed : status (Admin.handle identity memory_store (codes "secret") forged []).0 ≢ 500
not_failed h = ground (arith, forged_run)
