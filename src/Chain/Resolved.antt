-- ===== src/Chain/Resolved.antt =====
-- What resolveIssuersParallel of drs-verify/pkg/verify/chain.go returns, under every fair schedule.
use drs.Prelude.{
  ◌≡◌, ◌≢◌, refl, ap, ap₂, ◌∙◌, subst, ◌⊎◌, inl, inr, true, false, List, [], ◌∷◌, some, Result, ok,
  err, All, Some, any_of, any_of-Some, Some-mono, Bool-cases, arith, ok-injective, >>=-eq-ok,
}
use mathlib.Core.Option.{some-injective}
use drs.Prelude.Text.{Text, ◌==◌, ==_iff}
use drs.Chain.Signature.{
  Keys, key_of, Outcome, Schedule, unique, unique_from, run_workers, drain, resolve_issuers,
}

abbrev Member : {A : Type 0} → A → List A → Type 0
Member x xs = Some (λ y. y ≡ x) xs

-- Every worker starts, and the results that arrive are those that were sent.
pub record IsFair (sched : Schedule) : Type 0 where
  pub starts : (dids : List Text) (d : Text) → Member d dids → Member d (sched.start dids)
  pub arrives : (rs : List Outcome) (r : Outcome) → Member r rs → Member r (sched.arrive rs)
  pub sent : (rs : List Outcome) (r : Outcome) → Member r (sched.arrive rs) → Member r rs

moved :
    (x : Text) (seen dids : List Text) (d : Text)
    → Member d (x ∷ seen) ⊎ Member d (unique_from (x ∷ seen) dids)
    → Member d seen ⊎ Member d (x ∷ unique_from (x ∷ seen) dids)
moved x seen dids d (inl (inl e)) = inr (inl e)
moved x seen dids d (inl (inr old)) = inl old
moved x seen dids d (inr rest) = inr (inr rest)

unique_from-Member :
    (seen dids : List Text) (d : Text)
    → Member d dids
    → Member d seen ⊎ Member d (unique_from seen dids)
unfolding unique_from
unique_from-Member seen [] d h = absurd h
unique_from-Member seen (x ∷ dids) d (inl e) = elim (Bool-cases (any_of (λ y. y == x) seen)) [
  | inl known ↦
      rw known
        (inl (Some-mono (λ y h. (==_iff y x).0 h ∙ e) seen (any_of-Some (λ y. y == x) seen known)))
  | inr fresh ↦ rw fresh (inr (inl e))
]
unique_from-Member seen (x ∷ dids) d (inr later) = elim (Bool-cases (any_of (λ y. y == x) seen)) [
  | inl known ↦ rw known (unique_from-Member seen dids d later)
  | inr fresh ↦ rw fresh (moved x seen dids d (unique_from-Member (x ∷ seen) dids d later))
]

module _ {S : Type 0} (resolve : Text → S → Result Text Text × S) where
  -- An answer of the resolver, in some state.
  abbrev pub IsAnswer : Outcome → Type 0
  IsAnswer r = (s : S) × ((resolve r.0 s).0 ≡ r.1)

  run_workers-IsAnswer : (dids : List Text) (s : S) → All IsAnswer (run_workers resolve dids s).0
  unfolding run_workers
  run_workers-IsAnswer [] s = tt
  run_workers-IsAnswer (d ∷ dids) s = ((s, refl), run_workers-IsAnswer dids (resolve d s).1)

  run_workers-Member :
      (dids : List Text) (s : S) (d : Text)
      → Member d dids
      → (r : Result Text Text) × Member (d, r) (run_workers resolve dids s).0
  unfolding run_workers
  run_workers-Member [] s d h = absurd h
  run_workers-Member (x ∷ dids) s d (inl e) =
      ((resolve x s).0, inl (ap (λ (y : Text). (y, (resolve x s).0)) e))
  run_workers-Member (x ∷ dids) s d (inr later) =
      let (r, m) = run_workers-Member dids (resolve x s).1 d later in (r, inr m)

drain_cons :
    (d : Text) (key : Text) (rs : List Outcome) (keys : Keys)
    → drain ((d, ok key) ∷ rs) ≡ ok keys
    → (rest : Keys) × (drain rs ≡ ok rest) × ((d, key) ∷ rest ≡ keys)
unfolding drain
drain_cons d key rs keys h = let (rest, e, same) = >>=-eq-ok _ _ h in (rest, e, ok-injective same)

drain_err : (d t : Text) (rs : List Outcome) (keys : Keys) → drain ((d, err t) ∷ rs) ≢ ok keys
unfolding drain
drain_err d t rs keys h = cc

drain_nil : (keys : Keys) → drain [] ≡ ok keys → [] ≡ keys
unfolding drain
drain_nil keys h = ok-injective h

drain-Member :
    (rs : List Outcome) (keys : Keys) (d : Text) (r : Result Text Text)
    → drain rs ≡ ok keys
    → Member (d, r) rs
    → (key : Text) × (key_of d keys ≡ some key)
unfolding key_of
drain-Member [] keys d r h m = absurd m
drain-Member ((x, err t) ∷ rs) keys d r h m = absurd (drain_err x t rs keys h)
drain-Member ((x, ok key) ∷ rs) keys d r h m = elim (Bool-cases (x == d)) [
  | inl hit ↦ let (rest, e, same) = drain_cons x key rs keys h in rw⁻¹ same (key, rw hit refl)
  | inr miss ↦
      let (rest, e, same) = drain_cons x key rs keys h in
      rw⁻¹ same (elim m [
        | inl now ↦ absurd (ground (arith, (==_iff x d).1 (ap (λ (o : Outcome). o.0) now)))
        | inr later ↦ let (k, found) = drain-Member rs rest d r e later in (k, rw miss found)
      ])
]

no_key : (d key : Text) {keys : Keys} → [] ≡ keys → key_of d keys ≢ some key
unfolding key_of
no_key d key e k = cc (rw (← e, key_of) at k)

found_first :
    (x y d key : Text) (rest : Keys)
    → (x == d) ≡ true
    → key_of d ((x, y) ∷ rest) ≡ some key
    → y ≡ key
unfolding key_of
found_first x y d key rest hit k = some-injective _ _ (rw (hit, key_of) at k)

found_later :
    (x y d key : Text) (rest : Keys)
    → (x == d) ≡ false
    → key_of d ((x, y) ∷ rest) ≡ some key
    → key_of d rest ≡ some key
unfolding key_of
found_later x y d key rest miss k = rw (miss, key_of) at k

All-Member : {A : Type 0} (P : A → Type 0) (x : A) (xs : List A) → All P xs → Member x xs → P x
All-Member P x [] h m = absurd m
All-Member P x (y ∷ ys) h (inl e) = subst P e h.0
All-Member P x (y ∷ ys) h (inr later) = All-Member P x ys h.1 later

drain-key :
    (rs : List Outcome) (keys : Keys) (d key : Text)
    → drain rs ≡ ok keys
    → key_of d keys ≡ some key
    → Member (d, ok key) rs
drain-key [] keys d key h k = absurd (no_key d key (drain_nil keys h) k)
drain-key ((x, err t) ∷ rs) keys d key h k = absurd (drain_err x t rs keys h)
drain-key ((x, ok y) ∷ rs) keys d key h k =
    let (rest, e, same) = drain_cons x y rs keys h in
    let first : key_of d ((x, y) ∷ rest) ≡ some key = rw same k in
    elim (Bool-cases (x == d)) [
      | inl hit ↦ inl (
          ap₂ (λ (a b : Text). (a, ok b)) ((==_iff x d).0 hit)
            (found_first x y d key rest hit first))
      | inr miss ↦ inr (drain-key rs rest d key e (found_later x y d key rest miss first))
    ]

module _ {S : Type 0} (resolve : Text → S → Result Text Text × S) (sched : Schedule) where
  -- Under a fair schedule, where resolveIssuersParallel returns keys, every DID that it was asked
  -- for has one.
  pub resolve_issuers_covers :
      IsFair sched
      → (dids : List Text) (s : S) (keys : Keys) (d : Text)
      → (resolve_issuers resolve sched dids s).0 ≡ ok keys
      → Member d dids
      → (key : Text) × (key_of d keys ≡ some key)
  unfolding resolve_issuers
  resolve_issuers_covers fair dids s keys d h m = elim (unique_from-Member [] dids d m) [
    | inl gone ↦ absurd gone
    | inr kept ↦
        let (r, ran) =
          run_workers-Member resolve (sched.start (unique dids)) s d
            (fair.starts (unique dids) d kept) in
        drain-Member _ keys d r h (fair.arrives _ (d, r) ran)
  ]

  -- Under a fair schedule, each key that resolveIssuersParallel returns is an answer of the
  -- resolver for the key's own DID.
  pub resolve_issuers-IsAnswer :
      IsFair sched
      → (dids : List Text) (s : S) (keys : Keys) (d key : Text)
      → (resolve_issuers resolve sched dids s).0 ≡ ok keys
      → key_of d keys ≡ some key
      → IsAnswer resolve (d, ok key)
  unfolding resolve_issuers
  resolve_issuers-IsAnswer fair dids s keys d key h k =
      let sent = fair.sent _ (d, ok key) (drain-key _ keys d key h k) in
      All-Member (IsAnswer resolve) (d, ok key) _
        (run_workers-IsAnswer resolve (sched.start (unique dids)) s) sent
