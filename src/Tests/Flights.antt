-- ===== src/Tests/Flights.antt =====
-- Two calls of Resolve for one DID, the second of which waits for the first.
use drs.Prelude.{ℕ, ◌≡◌, refl, Option, none, some}
use drs.Prelude.Text.{Text, ◌==◌}
use drs.Resolver.DidKey.{Resolved, resolve_did_key}
use drs.Resolver.Resolve.{Entry}
use drs.Resolver.Flight.{
  Pc, called, missed, waiting, leading, returned, put, call, absent, join, lead, set_pc, System,
  Reach, pick, later, begin, start,
}
use drs.Resolver.Waiting.{pending}
use drs.Resolver.Concurrent.{IsServed, concurrent_sound}
use drs.Tests.Resolvers.{did, memo, memo-IsLru}

abbrev Answer : Text → Resolved → Type 0
Answer d r = resolve_did_key d ≡ r

abbrev no_keys : Text → Option Entry
no_keys d = none

abbrev Calls : Type 0
Calls = System {C = Text → Option Entry} memo 300 Answer

abbrev moved : ℕ → Pc → Calls → Calls
moved i p s = record { shared = s.shared; pc = set_pc i p s.pc }

abbrev leader_missed : Calls
leader_missed = moved 0 (missed did) (moved 0 (called did) (start memo 300 Answer no_keys))

abbrev flying : Calls
flying = record {
  shared = record {
    cache = no_keys;
    inflight = put did (some 0) (λ d. none);
    results = λ d e. none;
    next = 1;
  };
  pc = set_pc 0 (leading did 0) leader_missed.pc;
}

abbrev waited : Calls
waited = moved 1 (waiting did 0) (moved 1 (missed did) (moved 1 (called did) flying))

there : flying.shared.inflight did ≡ some 0
unfolding ◌==◌
there = refl

waited-Reach : Reach {C = Text → Option Entry} memo 300 Answer no_keys waited
waited-Reach =
    later
      (later
        (later
          (later (later (later begin (pick 0 call)) (pick 0 (absent refl)))
            (pick 0 (lead refl refl)))
          (pick 1 call))
        (pick 1 (absent refl)))
      (pick 1 (join there))

concurrent_sound_example :
    ((i j : ℕ) (d : Text) (e e' : ℕ)
      → pending (waited.pc i) ≡ some (d, e)
      → pending (waited.pc j) ≡ some (d, e')
      → i ≡ j)
    × ((i : ℕ) (d : Text) (r : Resolved) → waited.pc i ≡ returned d r → Answer d r)
    × ((i : ℕ) (d : Text) (e : ℕ)
        → waited.pc i ≡ waiting d e
        → IsServed memo 300 Answer memo-IsLru waited.shared waited.pc d e)
concurrent_sound_example =
    concurrent_sound memo 300 Answer memo-IsLru no_keys waited (λ d e found. cc found) waited-Reach
