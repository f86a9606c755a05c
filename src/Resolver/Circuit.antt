-- ===== src/Resolver/Circuit.antt =====
-- The circuit breaker of drs-verify/pkg/resolver/did.go: circuitState. Times are nanoseconds, and a
-- zero time is `none`; the mutex makes each method one step.
use drs.Prelude.{
  ℕ, suc, ◌+◌, ◌≤◌, ◌<◌, ◌≡◌, ◌≢◌, ◌↔◌, refl, Bool, true, false, List, [], ◌∷◌, Option, none, some,
  ltb, leb, if◌then◌else◌, arith, ap, sym, ◌∙◌, Bool-cases, inl, inr,
}

pub record Circuit : Type 0 where
  pub failures : ℕ
  pub open_until : Option ℕ

abbrev pub closed : Circuit
closed = record { failures = 0; open_until = none }

abbrev pub open_at : ℕ → Circuit → Option ℕ → Bool × Circuit
open_at now c none = (false, c)
open_at now c (some t) = if ltb t now then (false, record c { open_until = none }) else (true, c)

-- isOpen: the answer, and the state, which is closed again once the time has passed
unfoldable pub is_open : ℕ → Circuit → Bool × Circuit
is_open now c = open_at now c c.open_until

unfoldable pub record_success : Circuit → Circuit
record_success c = record { failures = 0; open_until = none }

-- recordFailure, at the time `now`
unfoldable pub record_failure : ℕ → ℕ → ℕ → Circuit → Circuit
record_failure threshold cooldown now c =
    if leb threshold (suc c.failures)
    then record { failures = suc c.failures; open_until = some (now + cooldown) }
    else record c { failures = suc c.failures }

open_at-blocked :
    (now : ℕ) (c : Circuit) (u : Option ℕ) → (open_at now c u).0 ≡ true → (open_at now c u).1 ≡ c
open_at-blocked now c none h = refl
open_at-blocked now c (some t) h = elim (Bool-cases (ltb t now)) [
  | inl past ↦ cc (rw (past, open_at) at h)
  | inr still ↦ rw still refl
]

-- A test that answers "open" changes nothing.
pub is_open-blocked : (now : ℕ) (c : Circuit) → (is_open now c).0 ≡ true → (is_open now c).1 ≡ c
unfolding is_open
is_open-blocked now c h = open_at-blocked now c c.open_until h

-- What happens to a circuit: a test at a time, and the outcome of a fetch that was let through.
pub data Event : Type 0 where
  tested : ℕ → Event
  succeeded : Event
  failed : ℕ → Event

module _ (threshold cooldown : ℕ) where
  unfoldable pub step : Event → Circuit → Circuit
  step (tested now) c = (is_open now c).1
  step succeeded c = record_success c
  step (failed now) c = record_failure threshold cooldown now c

  unfoldable pub run : List Event → Circuit → Circuit
  run [] c = c
  run (e ∷ es) c = run es (step e c)

  -- An open circuit has seen enough failures.
  abbrev IsTripped : Circuit → Type 0
  IsTripped c = c.open_until ≢ none → threshold ≤ c.failures

  open_at-IsTripped :
      (now : ℕ) (c : Circuit) (u : Option ℕ)
      → c.open_until ≡ u
      → IsTripped c
      → IsTripped (open_at now c u).1
  open_at-IsTripped now c none e h = h
  open_at-IsTripped now c (some t) e h = elim (Bool-cases (ltb t now)) [
    | inl past ↦ rw past (λ some_left. absurd (some_left refl))
    | inr still ↦ rw still h
  ]

  failed-IsTripped :
      (now : ℕ) (c : Circuit) → IsTripped c → IsTripped (record_failure threshold cooldown now c)
  unfolding record_failure
  failed-IsTripped now c h = elim (Bool-cases (leb threshold (suc c.failures))) [
    | inl enough ↦ rw enough (λ _. ground arith)
    | inr few ↦ rw few (λ set. omega (arith, h set))
  ]

  open_at-failures :
      (now : ℕ) (c : Circuit) (u : Option ℕ) → (open_at now c u).1.failures ≡ c.failures
  open_at-failures now c none = refl
  open_at-failures now c (some t) = elim (Bool-cases (ltb t now)) [
    | inl past ↦ rw past refl
    | inr still ↦ rw still refl
  ]

  step-IsTripped : (e : Event) (c : Circuit) → IsTripped c → IsTripped (step e c)
  unfolding step is_open
  step-IsTripped (tested now) c h = open_at-IsTripped now c c.open_until refl h
  step-IsTripped succeeded c h = unfold record_success in λ set. absurd (set refl)
  step-IsTripped (failed now) c h = failed-IsTripped now c h

  run-IsTripped : (es : List Event) (c : Circuit) → IsTripped c → IsTripped (run es c)
  unfolding run
  run-IsTripped [] c h = h
  run-IsTripped (e ∷ es) c h = run-IsTripped es (step e c) (step-IsTripped e c h)

  -- The failures since the last success, however many tests stand between them.
  unfoldable pub streak : ℕ → List Event → ℕ
  streak n [] = n
  streak n (tested now ∷ es) = streak n es
  streak n (succeeded ∷ es) = streak 0 es
  streak n (failed now ∷ es) = streak (suc n) es

  failed-failures :
      (now : ℕ) (c : Circuit) → (record_failure threshold cooldown now c).failures ≡ suc c.failures
  unfolding record_failure
  failed-failures now c = elim (Bool-cases (leb threshold (suc c.failures))) [
    | inl enough ↦ rw enough refl
    | inr few ↦ rw few refl
  ]

  run-failures : (es : List Event) (c : Circuit) → (run es c).failures ≡ streak c.failures es
  unfolding run streak
  run-failures [] c = refl
  run-failures (tested now ∷ es) c =
      run-failures es _
      ∙ ap (λ n. streak n es) (unfold step is_open in open_at-failures now c c.open_until)
  run-failures (succeeded ∷ es) c =
      run-failures es _ ∙ ap (λ n. streak n es) (unfold step record_success in refl)
  run-failures (failed now ∷ es) c =
      run-failures es _ ∙ ap (λ n. streak n es) (unfold step in failed-failures now c)

  open_at-some_iff :
      (later t : ℕ) (c : Circuit) → ((open_at later c (some t)).0 ≡ true) ↔ (later ≤ t)
  open_at-some_iff later t c = elim (Bool-cases (ltb t later)) [
    | inl past ↦ rw past (λ h. cc, λ h. ground arith)
    | inr still ↦ rw still (λ h. ground arith, λ h. refl)
  ]

  open_at-never :
      (later n : ℕ) (c : Circuit) (u : Option ℕ)
      → (u ≢ none → threshold ≤ n)
      → n < threshold
      → (open_at later c u).0 ≡ false
  open_at-never later n c none h few = refl
  open_at-never later n c (some t) h few = absurd (omega (arith, h (λ e. cc)))

  after_failure :
      (now later : ℕ) (c : Circuit)
      → IsTripped c
      → ((is_open later (step (failed now) c)).0 ≡ true)
        ↔ ((threshold ≤ suc c.failures) × (later ≤ now + cooldown))
  unfolding step is_open record_failure
  after_failure now later c h = elim (Bool-cases (leb threshold (suc c.failures))) [
    | inl enough ↦
        let (a, b) =
          open_at-some_iff later (now + cooldown)
            (record { failures = suc c.failures; open_until = some (now + cooldown) }) in
        rw enough (λ k. (ground arith, a k), λ k. b k.1)
    | inr few ↦
        let shut =
          open_at-never later c.failures (record c { failures = suc c.failures }) c.open_until h
            (ground arith) in
        rw few (λ k. cc, λ k. absurd (ground arith))
  ]

  -- After any history of tests, successes and failures of a fresh circuit that ends with a failure
  -- at `now`, a test answers "open" exactly where the failures since the last success have reached
  -- the threshold and the time is not past the cooldown.
  pub is_open_iff :
      (es : List Event) (now later : ℕ)
      → ((is_open later (step (failed now) (run es closed))).0 ≡ true)
        ↔ ((threshold ≤ suc (streak 0 es)) × (later ≤ now + cooldown))
  is_open_iff es now later =
      let tripped = run-IsTripped es closed (λ set. absurd (set refl)) in
      rw (sym (run-failures es closed)) (after_failure now later (run es closed) tripped)
