-- ===== src/Resolver/Concurrent.antt =====
-- Concurrent calls of Resolve in drs-verify/pkg/resolver/did.go: one resolution of a DID at a time,
-- true answers, and no call left waiting.
use drs.Prelude.{ℕ, ◌≡◌, ◌⊎◌, inl, inr, refl, sym, ap, ◌∙◌, Option, some, eqb_iff}
use mathlib.Core.Option.{some-injective}
use drs.Prelude.Text.{Text, ==_iff}
use drs.Prelude.Lru.{Lru, IsLru}
use drs.Resolver.DidKey.{Resolved}
use drs.Resolver.Resolve.{Entry}
use drs.Resolver.Flight.{
  Shared, Pc, idle, called, missed, waiting, leading, resolved, published, removed, returned,
  cancelled, store_result, set_pc, System, pick, Reach, begin, later,
}
use drs.Resolver.InFlight.{
  flight, Flights, effect, step-Flights, set_pc-cases, set_pc_self, set_pc-other, number-cases,
}
use drs.Resolver.Waiting.{
  pending, answer, store_result-cases, StepOf, IsCached, IsPosted, Posting, kept, posts, posting,
  joined, gained,
}
use drs.Resolver.Remembered.{move-Cached}

unpublished :
    (p : Pc) (did : Text) (e : ℕ)
    → flight p ≡ some (did, e)
    → (pending p ≡ some (did, e)) ⊎ ((r : Resolved) × (p ≡ published did e r))
unpublished idle did e h = cc
unpublished (called k) did e h = cc
unpublished (missed k) did e h = cc
unpublished (waiting k n) did e h = cc
unpublished (leading k n) did e h = inl h
unpublished (resolved k n r) did e h = inl h
unpublished (published k n r) did e h =
    let same : k ≡ did = cc in let number : n ≡ e = cc in inr (r, rw (same, number) refl)
unpublished (removed k r) did e h = cc
unpublished (returned k r) did e h = cc
unpublished (cancelled k) did e h = cc

pending-flight : (p : Pc) (x : Text × ℕ) → pending p ≡ some x → flight p ≡ some x
pending-flight (leading k n) x h = h
pending-flight (resolved k n r) x h = h
pending-flight idle x h = cc
pending-flight (called k) x h = cc
pending-flight (missed k) x h = cc
pending-flight (waiting k n) x h = cc
pending-flight (published k n r) x h = cc
pending-flight (removed k r) x h = cc
pending-flight (returned k r) x h = cc
pending-flight (cancelled k) x h = cc

store_result_self :
    (did : Text) (e : ℕ) (r : Resolved) (f : Text → ℕ → Option Resolved)
    → store_result did e r f did e ≡ some r
store_result_self did e r f = rw ((==_iff did did).1 refl, (eqb_iff e e).1 refl) refl

module _ {C : Type 0} (keys : Lru Entry C) (ttl : ℕ) (Answer : Text → Resolved → Type 0)
    (laws : IsLru keys) where
  abbrev Cached : C → Type 0
  Cached = IsCached keys ttl Answer

  -- The entry has its result, or a call that will store it.
  abbrev pub IsServed : Shared C → (ℕ → Pc) → Text → ℕ → Type 0
  IsServed m pc did e =
      ((r : Resolved) × (m.results did e ≡ some r)) ⊎ ((j : ℕ) × (pending (pc j) ≡ some (did, e)))

  pub record Inv (m : Shared C) (pc : ℕ → Pc) : Type 0 where
    pub flights : Flights keys ttl Answer m pc
    pub cached : Cached m.cache
    pub posted : IsPosted keys ttl Answer m
    pub answered :
        (i : ℕ) (did : Text) (r : Resolved) → answer (pc i) ≡ some (did, r) → Answer did r
    pub stored :
        (i : ℕ) (did : Text) (e : ℕ) (r : Resolved)
        → pc i ≡ published did e r
        → m.results did e ≡ some r
    pub served : (i : ℕ) (did : Text) (e : ℕ) → pc i ≡ waiting did e → IsServed m pc did e

  module _ {m m' : Shared C} {pc : ℕ → Pc} (i : ℕ) {p' : Pc} (inv : Inv m pc)
      (mv : StepOf keys ttl Answer m (pc i) m' p') where
    open inv use {flights, cached, posted, answered, stored, served}

    answered' :
        (j : ℕ) (did : Text) (r : Resolved)
        → answer (set_pc i p' pc j) ≡ some (did, r)
        → Answer did r
    answered' j did r h = elim (set_pc-cases i j p' pc) [
      | inr (_, it) ↦ answered j did r (sym (ap answer it) ∙ h)
      | inl (_, it) ↦
          elim (gained keys ttl Answer cached posted mv did r (sym (ap answer it) ∙ h)) [
            | inl before ↦ answered i did r before
            | inr right ↦ right
          ]
    ]

    posted' : Posting keys ttl Answer m (pc i) m' p' → IsPosted keys ttl Answer m'
    posted' (kept same _ _) did e r h =
        posted did e r (sym (ap (λ (f : Text → ℕ → Option Resolved). f did e) same) ∙ h)
    posted' (posts k n x before new after) did e r h =
        elim (store_result-cases k did n e x m.results) [
          | inl (there, number, it) ↦
              let same : x ≡ r = some-injective _ _ (sym it ∙ rw new at h) in
              rw (there, ← same) (answered i k x (ap answer before))
          | inr old ↦ posted did e r (sym old ∙ rw new at h)
        ]

    stored' :
        Posting keys ttl Answer m (pc i) m' p'
        → (j : ℕ) (did : Text) (e : ℕ) (r : Resolved) → set_pc i p' pc j ≡ published did e r
        → m'.results did e ≡ some r
    stored' (kept same none_new _) j did e r h = elim (set_pc-cases i j p' pc) [
      | inl (_, it) ↦ absurd (none_new did e r (sym it ∙ h))
      | inr (_, it) ↦
          ap (λ (f : Text → ℕ → Option Resolved). f did e) same ∙ stored j did e r (sym it ∙ h)
    ]
    stored' (posts k n x before new after) j did e r h = elim (set_pc-cases i j p' pc) [
      | inl (_, it) ↦
          let both : published k n x ≡ published did e r = sym after ∙ sym it ∙ h in
          let there : k ≡ did = cc in
          let number : n ≡ e = cc in
          let value : x ≡ r = cc in
          rw (new, ← there, ← number, ← value) (store_result_self k n x m.results)
      | inr (other, it) ↦ elim (store_result-cases k did n e x m.results) [
        | inl (there, number, _) ↦
            let mine = ap flight before in
            let theirs = ap flight (sym it ∙ h) in
            absurd (
              other (
                flights.alone j i did e n theirs
                  (mine ∙ ap (λ (t : Text). some (t, n)) (sym there))))
        | inr old ↦ rw new (old ∙ stored j did e r (sym it ∙ h))
      ]
    ]

    served_kept :
        Posting keys ttl Answer m (pc i) m' p'
        → (did : Text) (e : ℕ) → IsServed m pc did e
        → IsServed m' (set_pc i p' pc) did e
    served_kept (kept same _ keeps) did e (inl (r, ready)) =
        inl (r, ap (λ (f : Text → ℕ → Option Resolved). f did e) same ∙ ready)
    served_kept (kept same _ keeps) did e (inr (j, it)) = elim (number-cases j i) [
      | inl here ↦ inr (
        i,
        ap pending (set_pc_self i p' pc)
            ∙ keeps (did, e) (ap (λ (x : ℕ). pending (pc x)) (sym here) ∙ it),
      )
      | inr other ↦ inr (j, ap pending (set_pc-other i j p' pc other) ∙ it)
    ]
    served_kept (posts k n x before new after) did e (inl (r, ready)) =
        elim (store_result-cases k did n e x m.results) [
          | inl (_, _, it) ↦ inl (x, rw new it)
          | inr old ↦ inl (r, rw new (old ∙ ready))
        ]
    served_kept (posts k n x before new after) did e (inr (j, it)) = elim (number-cases j i) [
      | inl here ↦
          let mine = sym (ap pending before) ∙ ap (λ (x : ℕ). pending (pc x)) (sym here) ∙ it in
          let there : k ≡ did = cc in
          let number : n ≡ e = cc in
          inl (x, rw (new, ← there, ← number) (store_result_self k n x m.results))
      | inr other ↦ inr (j, ap pending (set_pc-other i j p' pc other) ∙ it)
    ]

    entry_served : (did : Text) (e : ℕ) → m.inflight did ≡ some e → IsServed m pc did e
    entry_served did e there =
        let (j, it) = flights.led did e there in
        elim (unpublished (pc j) did e it) [
          | inl busy ↦ inr (j, busy)
          | inr (r, done) ↦ inl (r, stored j did e r done)
        ]

    served' :
        (j : ℕ) (did : Text) (e : ℕ)
        → set_pc i p' pc j ≡ waiting did e
        → IsServed m' (set_pc i p' pc) did e
    served' j did e h =
        served_kept (posting keys ttl Answer mv) did e (elim (set_pc-cases i j p' pc) [
          | inl (_, it) ↦ entry_served did e (joined keys ttl Answer mv did e (sym it ∙ h))
          | inr (_, it) ↦ served j did e (sym it ∙ h)
        ])

    move-Inv : Inv m' (set_pc i p' pc)
    move-Inv = record {
      flights = step-Flights keys ttl Answer i p' flights (effect keys ttl Answer mv);
      cached = move-Cached keys ttl Answer laws mv (answered i) cached;
      posted = posted' (posting keys ttl Answer mv);
      answered = answered';
      stored = stored' (posting keys ttl Answer mv);
      served = served';
    }

  Reach-Inv :
      {cache : C} {s : System keys ttl Answer}
      → Cached cache
      → Reach keys ttl Answer cache s
      → Inv s.shared s.pc
  Reach-Inv h begin = record {
    flights = record {
      owns = λ i did e g. cc;
      led = λ did e g. cc;
      alone = λ i j did e e' g g'. cc;
    };
    cached = h;
    posted = λ did e r g. cc;
    answered = λ i did r g. cc;
    stored = λ i did e r g. cc;
    served = λ i did e g. cc;
  }
  Reach-Inv h (later reach (pick i mv)) = move-Inv i (Reach-Inv h reach) mv

  -- Over a cache that meets the LRU's laws and whose keys are answers of the resolution, in every
  -- order of the steps of the calls, at most one call at a time resolves a DID; a call returns only an
  -- answer of the resolution for its DID; and the entry that a call waits on has its result, or a
  -- call that will store it.
  pub concurrent_sound :
      (cache : C) (s : System keys ttl Answer)
      → Cached cache
      → Reach keys ttl Answer cache s
      → ((i j : ℕ) (did : Text) (e e' : ℕ)
          → pending (s.pc i) ≡ some (did, e)
          → pending (s.pc j) ≡ some (did, e')
          → i ≡ j)
        × ((i : ℕ) (did : Text) (r : Resolved) → s.pc i ≡ returned did r → Answer did r)
        × ((i : ℕ) (did : Text) (e : ℕ) → s.pc i ≡ waiting did e → IsServed s.shared s.pc did e)
  concurrent_sound cache s h reach =
      let inv = Reach-Inv h reach in
      (
        λ i j did e e' hi hj.
            inv.flights.alone i j did e e' (pending-flight (s.pc i) _ hi)
              (pending-flight (s.pc j) _ hj),
        λ i did r it. inv.answered i did r (ap answer it),
        inv.served,
      )
