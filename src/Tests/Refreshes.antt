-- ===== src/Tests/Refreshes.antt =====
-- Two calls of IsRevoked on a cache without a list: the first fetches it, and the second waits.
use drs.Prelude.{ℕ, ◌≡◌, refl, true, false, [], ◌∷◌, some, none, some}
use drs.Prelude.Text.{codes}
use drs.Revocation.Status.{
  StatusCache, Fetch, response, new, accept_body, limited, fetched, refresh, is_expired,
}
use drs.Revocation.Refreshing.{
  Pc, reading, has_list, asked, wants_init, in_init, fetching_first, set_pc, System, start,
}

abbrev cache : StatusCache
cache = new (codes "https://status.example") 300

abbrev moved : ℕ → Pc → System → System
moved i p s = record { shared = s.shared; pc = set_pc i p s.pc }

abbrev asked_twice : System
asked_twice =
    moved 0 (wants_init 3)
      (moved 1 (wants_init 4) (moved 1 (asked 4) (moved 0 (asked 3) (start cache))))

abbrev fetching : System
fetching = record {
  shared = record { cache = cache; init_mu = some 0; refresh_mu = none };
  pc = set_pc 0 (fetching_first 3) (set_pc 0 (in_init 3) asked_twice.pc);
}

abbrev reply : Fetch
reply = response (record { status = 200; content_length = none; body = some (16 ∷ []) })

-- The first call has the list, whose bit 3 is set, and is about to read it.
abbrev fetched_once : System
fetched_once = record {
  shared = record {
    cache = record cache { bitstring = 16 ∷ []; fetched_at = 7; has_snapshot = true };
    init_mu = none;
    refresh_mu = none;
  };
  pc = set_pc 0 (reading 3) (set_pc 0 (has_list 3) fetching.pc);
}

reply_run : refresh cache reply 7 ≡ (none, fetched_once.shared.cache)
unfolding refresh fetched limited accept_body
reply_run = refl

fresh_run : is_expired fetched_once.shared.cache 8 ≡ false
fresh_run = refl
