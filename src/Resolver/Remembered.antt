-- ===== src/Resolver/Remembered.antt =====
-- The cache of keys under the steps of concurrent calls of Resolve in drs-verify/pkg/resolver/did.go.
use drs.Prelude.{ℕ, ◌+◌, ◌≡◌, inl, inr, refl, sym, ◌∙◌, some, Bool-cases, subst}
use mathlib.Core.Option.{some-injective}
use drs.Prelude.Text.{Text, ◌==◌, ==_iff}
use drs.Prelude.Lru.{Lru, IsLru, entry}
use drs.Resolver.DidKey.{Resolved, key}
use drs.Resolver.Resolve.{Entry}
use drs.Resolver.Flight.{
  Shared, Pc, call, hit, expired, absent, join, lead, resolve, publish, remove, keep, give_up, wake,
  cancel, again,
}
use drs.Resolver.Waiting.{answer, StepOf, IsCached}

module _ {C : Type 0} (keys : Lru Entry C) (ttl : ℕ) (Answer : Text → Resolved → Type 0)
    (laws : IsLru keys) where
  abbrev Cached : C → Type 0
  Cached = IsCached keys ttl Answer

  get-Cached : (did : Text) (c : C) → Cached c → Cached (keys.get did c).1
  get-Cached did c h k e found = h k e (sym (laws.get_keeps k did c) ∙ found)

  add-Cached :
      (did : Text) (new : Entry) (c : C)
      → Answer did (key new.public_key)
      → Cached c
      → Cached (keys.add did new c)
  add-Cached did new c right h k e found = elim (Bool-cases (k == did)) [
    | inl equal ↦
        let same : k ≡ did = (==_iff k did).0 equal in
        let it : new ≡ e = some-injective _ _ (
          sym (laws.added did new c)
          ∙ subst (λ (d : Text). entry keys d (keys.add did new c) ≡ some e) same found) in
        rw (same, ← it) right
    | inr other ↦
        h k e (laws.add_keeps k did new e c (λ same. let equal = (==_iff k did).1 same in cc) found)
  ]

  pub move-Cached :
      {m m' : Shared C} {p p' : Pc}
      → StepOf keys ttl Answer m p m' p'
      → ((did : Text) (r : Resolved) → answer p ≡ some (did, r) → Answer did r)
      → Cached m.cache
      → Cached m'.cache
  move-Cached {m} (hit {did} _ _ _ _) right h = get-Cached did m.cache h
  move-Cached {m} (expired {did} _ _ _ _) right h = λ k e found.
      get-Cached did m.cache h k e (laws.remove_keeps k did e (keys.get did m.cache).1 found)
  move-Cached {m} (absent {did} _) right h = get-Cached did m.cache h
  move-Cached {m} (keep {did} {k} now) right h =
      add-Cached did (record { public_key = k; expiry = now + ttl }) m.cache
        (right did (key k) refl) h
  move-Cached call right h = h
  move-Cached (join _) right h = h
  move-Cached (lead _ _) right h = h
  move-Cached (resolve _ _) right h = h
  move-Cached publish right h = h
  move-Cached remove right h = h
  move-Cached give_up right h = h
  move-Cached (wake _ _) right h = h
  move-Cached cancel right h = h
  move-Cached again right h = h
