-- ===== src/Tests/Restarts.antt =====
-- The file-backed revocation store of drs-verify across a restart, and the replay window.
use drs.Prelude.{
  ℕ, zero, suc, ◌≡◌, refl, true, List, [], ◌∷◌, ◌++◌, none, some, ok, arith, inr, length,
}
use drs.Prelude.Int.{ℤ, pos, ◌-ℤ◌, ◌+ℤ◌, wrap64, signed64, sub64, add64}
use drs.Prelude.Text.{Text, codes, space_step, blank_from, is_blank, has_prefix, strip_prefix}
use drs.Prelude.Trim.{trim_left, trim_right, trim_space}
use drs.Revocation.Log.{
  format_uint, parse_uint, parse_from, lines_from, drop_cr, add_line, read_lines, load,
}
use drs.Revocation.Local
use drs.Revocation.File
use drs.Revocation.File.{
  Weather, fair, FileStore, Existing, content, open_store, file_store, is_revoked_file,
}
use drs.Revocation.Restart.{IsWhole, revoke_all, restart_keeps, restart_loses}
use drs.Revocation.Refined.{Promise, Promised, Implements, file_store-Implements}
use drs.Nonce
use drs.Nonce.{accepted, replay_detected, insert_if_room, make_room}
use drs.Chain.Semantic.{check_freshness}
use drs.Server.Replays.{fresh_refused, accepted_again}

-- The first write fails and leaves nothing; the others succeed.
abbrev rough : ℕ → Weather
rough zero = record { written = 0; write_error = some (codes "no space"); sync_error = none }
rough (suc n) = fair

rough-IsWhole : (n : ℕ) → IsWhole (rough n)
rough-IsWhole zero = λ h. refl
rough-IsWhole (suc n) = λ h. refl

abbrev log : Text
log = codes "7" ++ (b'\n' ∷ [])

abbrev opened : FileStore
opened = record { revoked = 7 ∷ []; log = log; is_open = true; calls = 0 }

log_read : load log ≡ some (7 ∷ [])
unfolding load read_lines lines_from drop_cr trim_space trim_left trim_right add_line parse_uint
    parse_from is_blank blank_from space_step has_prefix strip_prefix
log_read = refl

opened_run : open_store none (content log) none ≡ ok opened
unfolding open_store
opened_run = rw log_read refl

abbrev seven : Promise
seven = record { live = 7 ∷ []; kept = 7 ∷ []; usable = true }

opened-Implements : Implements opened seven
opened-Implements = record {
  live = refl;
  kept = log_read;
  ends = inr (codes "7", refl);
  usable = refl;
}

file_store-Implements_example :
    (b : Promise) × Promised 12 fair seven (File.revoke (λ n. fair) 12 opened).0 b
    × Implements (File.revoke (λ n. fair) 12 opened).1 b
    × (t : FileStore) × (open_store none (content (File.revoke (λ n. fair) 12 opened).1.log) none
        ≡ ok t)
    × Implements t (record { live = b.kept; kept = b.kept; usable = true })
file_store-Implements_example =
    file_store-Implements (λ n. fair) 12 opened seven (λ n h. refl) (omega arith) opened-Implements

third_done : (File.revoke rough 12 (revoke_all rough (5 ∷ []) opened)).0 ≡ none
unfolding File.revoke revoke_all
third_done = refl

abbrev final : FileStore
final = revoke_all rough (9 ∷ []) (File.revoke rough 12 (revoke_all rough (5 ∷ []) opened)).1

restart_keeps_example :
    (t : FileStore) × (open_store none (content final.log) none ≡ ok t)
    × (is_revoked_file rough 12 t ≡ true)
restart_keeps_example =
    restart_keeps rough rough-IsWhole (content log) opened (5 ∷ []) 12 (9 ∷ [])
      (inr (codes "7", refl)) opened_run (omega arith, tt) (omega arith) (omega arith, tt)
      third_done

-- The first write stops before its newline.
abbrev torn : ℕ → Weather
torn zero = record {
  written = length (format_uint 1);
  write_error = some (codes "interrupted");
  sync_error = none;
}
torn (suc n) = fair

abbrev after_both : FileStore
after_both = (File.revoke torn 2 (File.revoke torn 1 opened).1).1

restart_loses_example :
    ((File.revoke torn 2 (File.revoke torn 1 opened).1).0 ≡ none)
    × (is_revoked_file torn 2 after_both ≡ true)
    × (t : FileStore) × (open_store none (content after_both.log) none ≡ ok t)
    × (is_revoked_file torn 2 t ≡ Local.is_revoked 2 (7 ∷ []))
restart_loses_example =
    restart_loses torn opened (7 ∷ []) 1 2 (codes "interrupted") (inr (codes "7", refl)) log_read
      refl (omega arith) (omega arith) (omega arith) refl refl refl

abbrev nonces : Nonce.Store
nonces = Nonce.new 4 (pos 60)

abbrev jti : Text
jti = codes "inv:0"

claimed : (Nonce.check nonces jti (pos 100)).0 ≡ accepted
unfolding Nonce.check Nonce.lookup insert_if_room make_room
claimed = refl

fresh_later : check_freshness (pos 60) (pos 140) (pos 90) ≡ ok tt
unfolding check_freshness sub64 add64 wrap64 signed64 ◌-ℤ◌ ◌+ℤ◌
fresh_later = refl

abbrev other_calls : List (Text × ℤ)
other_calls = (codes "inv:1", pos 120) ∷ []

fresh_refused_example :
    Nonce.check (Nonce.check_all (Nonce.check nonces jti (pos 100)).1 other_calls) jti (pos 140)
    ≡ (replay_detected, Nonce.check_all (Nonce.check nonces jti (pos 100)).1 other_calls)
unfolding ◌-ℤ◌ ◌+ℤ◌
fresh_refused_example =
    fresh_refused nonces jti (pos 100) (pos 140) (pos 90) other_calls (omega arith) claimed
      (omega arith) (omega arith) (omega arith) (omega arith, omega arith)
      (omega arith, omega arith) (omega arith, omega arith)
      (((omega arith, omega arith), omega arith, omega arith), tt) fresh_later

accepted_again_example :
    ((Nonce.check (Nonce.check nonces jti (pos 100)).1 jti (pos 170)).0 ≡ accepted)
    × (check_freshness (pos 60) (pos 170) (pos 150) ≡ ok tt)
unfolding ◌-ℤ◌ ◌+ℤ◌
accepted_again_example =
    accepted_again nonces jti (pos 100) (pos 170) (pos 150) (omega arith) (omega arith) claimed
      (omega arith) (omega arith) (omega arith) (omega arith) (omega arith)
      (omega arith, omega arith) (omega arith, omega arith)
