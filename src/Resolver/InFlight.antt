-- ===== src/Resolver/InFlight.antt =====
-- The map of resolutions in flight in drs-verify/pkg/resolver/did.go: each of its entries belongs to
-- one call, and no two calls resolve one DID.
use drs.Prelude.{
  ℕ, ◌≡◌, ◌≢◌, ◌⊎◌, inl, inr, refl, sym, ap, ◌∙◌, Option, none, some, eqb, eqb_iff, Bool-cases,
}
use mathlib.Core.Option.{some-injective}
use drs.Prelude.Text.{Text, ◌==◌, ==_iff}
use drs.Prelude.Lru.{Lru}
use drs.Resolver.DidKey.{Resolved}
use drs.Resolver.Resolve.{Entry}
use drs.Resolver.Flight.{
  Shared, Pc, idle, called, missed, waiting, leading, resolved, published, removed, returned,
  cancelled, put, Move, call, hit, expired, absent, join, lead, resolve, publish, remove, keep,
  give_up, wake, cancel, again, set_pc,
}

-- The entry that a call has in the map.
abbrev pub flight : Pc → Option (Text × ℕ)
flight idle = none
flight (called did) = none
flight (missed did) = none
flight (waiting did e) = none
flight (leading did e) = some (did, e)
flight (resolved did e r) = some (did, e)
flight (published did e r) = some (did, e)
flight (removed did r) = none
flight (returned did r) = none
flight (cancelled did) = none

pub set_pc-cases :
    (i j : ℕ) (p : Pc) (f : ℕ → Pc)
    → ((j ≡ i) × (set_pc i p f j ≡ p)) ⊎ ((j ≢ i) × (set_pc i p f j ≡ f j))
set_pc-cases i j p f = elim (Bool-cases (eqb j i)) [
  | inl same ↦ inl ((eqb_iff j i).0 same, rw same refl)
  | inr other ↦ inr (λ e. let hit = (eqb_iff j i).1 e in cc, rw other refl)
]

pub set_pc_self : (i : ℕ) (p : Pc) (f : ℕ → Pc) → set_pc i p f i ≡ p
set_pc_self i p f = rw ((eqb_iff i i).1 refl) refl

pub set_pc-other : (i j : ℕ) (p : Pc) (f : ℕ → Pc) → j ≢ i → set_pc i p f j ≡ f j
set_pc-other i j p f other = elim (set_pc-cases i j p f) [
  | inl (same, _) ↦ absurd (other same)
  | inr (_, e) ↦ e
]

pub put_self {ℓ} : {V : Type ℓ} (k : Text) (v : V) (f : Text → V) → put k v f k ≡ v
put_self k v f = rw ((==_iff k k).1 refl) refl

pub number-cases : (j i : ℕ) → (j ≡ i) ⊎ (j ≢ i)
number-cases j i = elim (Bool-cases (eqb j i)) [
  | inl same ↦ inl ((eqb_iff j i).0 same)
  | inr other ↦ inr (λ e. let hit = (eqb_iff j i).1 e in cc)
]

pub put-cases {ℓ} :
    {V : Type ℓ} (k j : Text) (v : V) (f : Text → V)
    → ((j ≡ k) × (put k v f j ≡ v)) ⊎ ((j ≢ k) × (put k v f j ≡ f j))
put-cases k j v f = elim (Bool-cases (j == k)) [
  | inl same ↦ inl ((==_iff j k).0 same, rw same refl)
  | inr other ↦ inr (λ e. let hit = (==_iff j k).1 e in cc, rw other refl)
]

module _ {C : Type 0} (keys : Lru Entry C) (ttl : ℕ) (Answer : Text → Resolved → Type 0) where
  -- What a step does to the map, and to the entry of the call.
  pub data Effect (m : Shared C) (p : Pc) (m' : Shared C) (p' : Pc) : Type 0 where
    same : m'.inflight ≡ m.inflight → flight p' ≡ flight p → Effect m p m' p'
    takes_off :
        (did : Text) (e : ℕ)
        → m.inflight did ≡ none
        → m'.inflight ≡ put did (some e) m.inflight
        → flight p ≡ none
        → flight p' ≡ some (did, e)
        → Effect m p m' p'
    lands :
        (did : Text) (e : ℕ)
        → flight p ≡ some (did, e)
        → m'.inflight ≡ put did none m.inflight
        → flight p' ≡ none
        → Effect m p m' p'

  pub effect : {m m' : Shared C} {p p' : Pc} → Move keys ttl Answer m p m' p' → Effect m p m' p'
  effect call = same refl refl
  effect (hit _ _ _ _) = same refl refl
  effect (expired _ _ _ _) = same refl refl
  effect (absent _) = same refl refl
  effect (join _) = same refl refl
  effect (lead {did} {e} free new) = takes_off did e free refl refl refl
  effect (resolve _ _) = same refl refl
  effect publish = same refl refl
  effect (remove {did} {e} {r}) = lands did e refl refl refl
  effect (keep _) = same refl refl
  effect give_up = same refl refl
  effect (wake _ _) = same refl refl
  effect cancel = same refl refl
  effect again = same refl refl

  -- The entries of the map are those of the calls, and a DID has one call at most.
  pub record Flights (m : Shared C) (pc : ℕ → Pc) : Type 0 where
    pub owns :
        (i : ℕ) (did : Text) (e : ℕ) → flight (pc i) ≡ some (did, e) → m.inflight did ≡ some e
    pub led :
        (did : Text) (e : ℕ) → m.inflight did ≡ some e → (j : ℕ) × (flight (pc j) ≡ some (did, e))
    pub alone :
        (i j : ℕ) (did : Text) (e e' : ℕ)
        → flight (pc i) ≡ some (did, e)
        → flight (pc j) ≡ some (did, e')
        → i ≡ j

  module _ {m m' : Shared C} {pc : ℕ → Pc} (flights : Flights m pc) (i : ℕ) (p' : Pc) where
    open flights use {owns, led, alone}

    owns_new :
        Effect m (pc i) m' p'
        → (did : Text) (e : ℕ) → flight p' ≡ some (did, e)
        → m'.inflight did ≡ some e
    owns_new (same kept unchanged) did e h =
        ap (λ (f : Text → Option ℕ). f did) kept ∙ owns i did e (sym unchanged ∙ h)
    owns_new (takes_off k n free new before after) did e h =
        let there : k ≡ did = cc in
        let number : n ≡ e = cc in rw (new, ← there, ← number) (put_self k (some n) m.inflight)
    owns_new (lands k n before gone after) did e h = cc

    owns_old :
        Effect m (pc i) m' p'
        → (j : ℕ) → j ≢ i
        → (did : Text) (e : ℕ) → flight (pc j) ≡ some (did, e)
        → m'.inflight did ≡ some e
    owns_old (same kept unchanged) j other did e h =
        ap (λ (f : Text → Option ℕ). f did) kept ∙ owns j did e h
    owns_old (takes_off k n free new before after) j other did e h =
        elim (put-cases k did (some n) m.inflight) [
          | inl (there, _) ↦
              let taken = owns j did e h in let empty : m.inflight did ≡ none = rw there free in cc
          | inr (_, old) ↦ rw new (old ∙ owns j did e h)
        ]
    owns_old (lands k n before gone after) j other did e h =
        elim (put-cases k did none m.inflight) [
          | inl (there, _) ↦
              absurd
                (other (alone j i did e n h (before ∙ ap (λ (t : Text). some (t, n)) (sym there))))
          | inr (_, old) ↦ rw gone (old ∙ owns j did e h)
        ]

    led_new :
        Effect m (pc i) m' p'
        → (did : Text) (e : ℕ) → m'.inflight did ≡ some e
        → (flight p' ≡ some (did, e)) ⊎ ((j : ℕ) × (j ≢ i) × (flight (pc j) ≡ some (did, e)))
    led_new (same kept unchanged) did e h =
        let (j, it) = led did e (sym (ap (λ (f : Text → Option ℕ). f did) kept) ∙ h) in
        elim (number-cases j i) [
          | inl here ↦ inl (unchanged ∙ ap (λ (x : ℕ). flight (pc x)) (sym here) ∙ it)
          | inr other ↦ inr (j, other, it)
        ]
    led_new (takes_off k n free new before after) did e h =
        elim (put-cases k did (some n) m.inflight) [
          | inl (there, it) ↦
              let number : n ≡ e = some-injective _ _ (sym it ∙ rw new at h) in
              inl (rw (there, ← number) after)
          | inr (_, old) ↦
              let (j, it) = led did e (sym old ∙ rw new at h) in
              elim (number-cases j i) [
                | inl here ↦ let none_here : flight (pc j) ≡ none = rw here before in cc
                | inr other ↦ inr (j, other, it)
              ]
        ]
    led_new (lands k n before gone after) did e h = elim (put-cases k did none m.inflight) [
      | inl (there, it) ↦ let empty = sym it ∙ rw gone at h in cc
      | inr (away, old) ↦
          let (j, it) = led did e (sym old ∙ rw gone at h) in
          elim (number-cases j i) [
            | inl here ↦
                let mine : flight (pc j) ≡ some (k, n) = rw here before in
                let there : did ≡ k = cc in absurd (away there)
            | inr other ↦ inr (j, other, it)
          ]
    ]

    apart :
        Effect m (pc i) m' p'
        → (j : ℕ) → j ≢ i
        → (did : Text) (e e' : ℕ) → flight p' ≡ some (did, e)
        → flight (pc j) ≢ some (did, e')
    apart (same kept unchanged) j other did e e' mine theirs =
        other (alone j i did e' e theirs (sym unchanged ∙ mine))
    apart (takes_off k n free new before after) j other did e e' mine theirs =
        let taken = owns j did e' theirs in
        let there : k ≡ did = cc in let empty : m.inflight did ≡ none = rw (← there) free in cc
    apart (lands k n before gone after) j other did e e' mine theirs = cc

  -- A step keeps the flights.
  pub step-Flights :
      {m m' : Shared C} {pc : ℕ → Pc} (i : ℕ) (p' : Pc)
      → Flights m pc
      → Effect m (pc i) m' p'
      → Flights m' (set_pc i p' pc)
  step-Flights {m} {m'} {pc} i p' flights eff = record {
    owns = λ j did e h. elim (set_pc-cases i j p' pc) [
      | inl (_, it) ↦ owns_new flights i p' eff did e (sym (ap flight it) ∙ h)
      | inr (other, it) ↦ owns_old flights i p' eff j other did e (sym (ap flight it) ∙ h)
    ];
    led = λ did e h. elim (led_new flights i p' eff did e h) [
      | inl mine ↦ (i, ap flight (set_pc_self i p' pc) ∙ mine)
      | inr (j, other, it) ↦ (j, ap flight (set_pc-other i j p' pc other) ∙ it)
    ];
    alone = λ j k did e e' hj hk. elim (set_pc-cases i j p' pc) [
      | inl (here, it) ↦ elim (set_pc-cases i k p' pc) [
        | inl (here', it') ↦ here ∙ sym here'
        | inr (other, it') ↦ absurd (
            apart flights i p' eff k other did e e' (sym (ap flight it) ∙ hj)
              (sym (ap flight it') ∙ hk))
      ]
      | inr (other, it) ↦ elim (set_pc-cases i k p' pc) [
        | inl (here', it') ↦ absurd (
            apart flights i p' eff j other did e' e (sym (ap flight it') ∙ hk)
              (sym (ap flight it) ∙ hj))
        | inr (_, it') ↦
            flights.alone j k did e e' (sym (ap flight it) ∙ hj) (sym (ap flight it') ∙ hk)
      ]
    ];
  }
