-- ===== src/Server/Health.antt =====
-- drs-verify/pkg/health/handler.go: the status codes of /healthz and /readyz, with Ready and WarmUp of
-- drs-verify/pkg/revocation/status.go.
use drs.Prelude.{
  ℕ, ◌≡◌, arith, ◌↔◌, inl, inr, refl, true, Option, none, some, if◌then◌else◌, Bool-cases,
}
use drs.Revocation.Status.{StatusCache, Fetch, ready, refresh, ensure_initial_snapshot}
use drs.Revocation.FailClosed.{first-snapshot}
use drs.Revocation.Interleaved.{refresh-keeps}

-- StatusOK
unfoldable pub liveness : ℕ
liveness = 200

-- StatusOK or StatusServiceUnavailable; the cache is nil where no list is configured.
unfoldable pub readiness : Option StatusCache → ℕ
readiness none = 200
readiness (some cache) = if ready cache then 200 else 503

-- The server is ready exactly if no list is configured or one was published; a WarmUp without an error
-- makes it ready, and no refresh, whether it fails or not, makes it unready.
pub readiness_lem :
    (c : StatusCache) (f : Fetch) (at : ℕ)
    → ((readiness (some c) ≡ 200) ↔ (c.has_snapshot ≡ true))
      × ((ensure_initial_snapshot c f at).0 ≡ none
          → readiness (some (ensure_initial_snapshot c f at).1) ≡ 200)
      × (readiness (some c) ≡ 200 → readiness (some (refresh c f at).1) ≡ 200)
unfolding readiness
readiness_lem c f at = (
  (known c, λ h. rw h refl),
  λ done. rw (first-snapshot c f at done) refl,
  λ h. rw (refresh-keeps c f at (known c h)) refl,
)
  where
    known :
        (d : StatusCache)
        → ◌≡◌ {A = ℕ} (if d.has_snapshot then 200 else 503) 200
        → d.has_snapshot ≡ true
    known d h = elim (Bool-cases d.has_snapshot) [
      | inl held ↦ held
      | inr unread ↦ absurd (ground (arith, unread, h))
    ]
