-- ===== src/Resolver/Waiting.antt =====
-- What concurrent calls of Resolve in drs-verify/pkg/resolver/did.go return, and what they wait for.
use drs.Prelude.{
  ℕ, ◌≡◌, ◌≢◌, ◌⊎◌, inl, inr, refl, Option, none, some, eqb, eqb_iff, Bool-cases, subst,
}
use mathlib.Core.Option.{some-injective}
use drs.Prelude.Text.{Text, ◌==◌, ==_iff}
use drs.Prelude.Lru.{Lru, entry}
use drs.Resolver.DidKey.{Resolved, key}
use drs.Resolver.Resolve.{Entry}
use drs.Resolver.Flight.{
  Shared, Pc, waiting, leading, resolved, published, removed, returned, store_result, Move, call,
  hit, expired, absent, join, lead, resolve, publish, remove, keep, give_up, wake, cancel, again,
}

-- The entry that the call will store a result in.
abbrev pub pending : Pc → Option (Text × ℕ)
pending (leading did e) = some (did, e)
pending (resolved did e r) = some (did, e)
pending _ = none

-- The answer that the call has.
abbrev pub answer : Pc → Option (Text × Resolved)
answer (resolved did e r) = some (did, r)
answer (published did e r) = some (did, r)
answer (removed did r) = some (did, r)
answer (returned did r) = some (did, r)
answer _ = none

pub store_result-cases :
    (did k : Text) (e n : ℕ) (r : Resolved) (f : Text → ℕ → Option Resolved)
    → ((k ≡ did) × (n ≡ e) × (store_result did e r f k n ≡ some r))
      ⊎ (store_result did e r f k n ≡ f k n)
store_result-cases did k e n r f = elim (Bool-cases (k == did)) [
  | inr other ↦ inr (rw other refl)
  | inl same ↦ elim (Bool-cases (eqb n e)) [
    | inl number ↦ inl ((==_iff k did).0 same, (eqb_iff n e).0 number, rw (same, number) refl)
    | inr other ↦ inr (rw (same, other) refl)
  ]
]

module _ {C : Type 0} (keys : Lru Entry C) (ttl : ℕ) (Answer : Text → Resolved → Type 0) where
  abbrev pub StepOf : Shared C → Pc → Shared C → Pc → Type 0
  StepOf = Move keys ttl Answer

  -- The cached keys are answers.
  abbrev pub IsCached : C → Type 0
  IsCached cache =
      (did : Text) (e : Entry) → entry keys did cache ≡ some e → Answer did (key e.public_key)

  abbrev pub IsPosted : Shared C → Type 0
  IsPosted m = (did : Text) (e : ℕ) (r : Resolved) → m.results did e ≡ some r → Answer did r

  -- What a step does to the stored results.
  pub data Posting (m : Shared C) (p : Pc) (m' : Shared C) (p' : Pc) : Type 0 where
    kept :
        m'.results ≡ m.results
        → ((did : Text) (e : ℕ) (r : Resolved) → p' ≢ published did e r)
        → ((x : Text × ℕ) → pending p ≡ some x → pending p' ≡ some x)
        → Posting m p m' p'
    posts :
        (did : Text) (e : ℕ) (r : Resolved)
        → p ≡ resolved did e r
        → m'.results ≡ store_result did e r m.results
        → p' ≡ published did e r
        → Posting m p m' p'

  pub posting : {m m' : Shared C} {p p' : Pc} → StepOf m p m' p' → Posting m p m' p'
  posting call = kept refl (λ d e r h. cc) (λ x h. cc)
  posting (hit _ _ _ _) = kept refl (λ d e r h. cc) (λ x h. cc)
  posting (expired _ _ _ _) = kept refl (λ d e r h. cc) (λ x h. cc)
  posting (absent _) = kept refl (λ d e r h. cc) (λ x h. cc)
  posting (join _) = kept refl (λ d e r h. cc) (λ x h. cc)
  posting (lead _ _) = kept refl (λ d e r h. cc) (λ x h. cc)
  posting (resolve _ _) = kept refl (λ d e r h. cc) (λ x h. h)
  posting (publish {did} {e} {r}) = posts did e r refl refl refl
  posting (remove) = kept refl (λ d e r h. cc) (λ x h. cc)
  posting (keep _) = kept refl (λ d e r h. cc) (λ x h. cc)
  posting give_up = kept refl (λ d e r h. cc) (λ x h. cc)
  posting (wake _ _) = kept refl (λ d e r h. cc) (λ x h. cc)
  posting cancel = kept refl (λ d e r h. cc) (λ x h. cc)
  posting again = kept refl (λ d e r h. cc) (λ x h. cc)

  -- A call starts to wait only on an entry of the map.
  pub joined :
      {m m' : Shared C} {p p' : Pc}
      → StepOf m p m' p'
      → (did : Text) (e : ℕ) → p' ≡ waiting did e
      → m.inflight did ≡ some e
  joined (join {did = k} {e = n} there) did e h =
      let same : k ≡ did = cc in let number : n ≡ e = cc in rw (← same, ← number) there
  joined call did e h = cc
  joined (hit _ _ _ _) did e h = cc
  joined (expired _ _ _ _) did e h = cc
  joined (absent _) did e h = cc
  joined (lead _ _) did e h = cc
  joined (resolve _ _) did e h = cc
  joined publish did e h = cc
  joined remove did e h = cc
  joined (keep _) did e h = cc
  joined give_up did e h = cc
  joined (wake _ _) did e h = cc
  joined cancel did e h = cc
  joined again did e h = cc

  -- A new answer is one of the resolution, of the cache, or of the entry that was waited on.
  pub gained :
      {m m' : Shared C} {p p' : Pc}
      → IsCached m.cache
      → IsPosted m
      → StepOf m p m' p'
      → (did : Text) (r : Resolved) → answer p' ≡ some (did, r)
      → (answer p ≡ some (did, r)) ⊎ Answer did r
  gained cached posted call did r h = cc
  gained cached posted (hit {did = k} en _ found _) did r h =
      let same : k ≡ did = cc in
      let it : key en.public_key ≡ r = cc in
      inr
        (subst (λ (x : Text × Resolved). Answer x.0 x.1) (some-injective _ _ h) (cached k en found))
  gained cached posted (expired _ _ _ _) did r h = cc
  gained cached posted (absent _) did r h = cc
  gained cached posted (join _) did r h = cc
  gained cached posted (lead _ _) did r h = cc
  gained cached posted (resolve x right) did r h =
      inr (subst (λ (x : Text × Resolved). Answer x.0 x.1) (some-injective _ _ h) right)
  gained cached posted publish did r h = inl h
  gained cached posted remove did r h = inl h
  gained cached posted (keep _) did r h = inl h
  gained cached posted give_up did r h = inl h
  gained cached posted (wake {did = k} {e = n} x ready) did r h =
      inr (
        subst (λ (x : Text × Resolved). Answer x.0 x.1) (some-injective _ _ h) (posted k n x ready))
  gained cached posted cancel did r h = cc
  gained cached posted again did r h = cc
