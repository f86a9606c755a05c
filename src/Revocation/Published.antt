-- ===== src/Revocation/Published.antt =====
-- Concurrent calls of IsRevoked in drs-verify/pkg/revocation/status.go: one fetch at a time, and
-- answers from published lists only.
use drs.Prelude.{ℕ, ◌≡◌, true, false, some}
use drs.Prelude.Text.{Text, is_empty}
use drs.Revocation.FailClosed.{IsSound}
use drs.Revocation.Refreshing.{Shared, Pc}
use drs.Revocation.Interleaved.{initiates, refreshes, fetches_first, has_seen}

pub record Inv (m : Shared) (pc : ℕ → Pc) : Type 0 where
  pub sound : IsSound m.cache
  pub set : is_empty m.cache.base_url ≡ false
  pub initiating : (i : ℕ) → initiates (pc i) ≡ true → m.init_mu ≡ some i
  pub refreshing : (i : ℕ) → refreshes (pc i) ≡ true → m.refresh_mu ≡ some i
  pub unread : (i : ℕ) → fetches_first (pc i) ≡ true → m.cache.has_snapshot ≡ false
  pub seen : (i : ℕ) → has_seen (pc i) ≡ true → m.cache.has_snapshot ≡ true
