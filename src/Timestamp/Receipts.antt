-- ===== src/Timestamp/Receipts.antt =====
-- The timestamps of Chain in drs-verify/pkg/verify/chain.go, with VerifyTimestampTrusted of
-- drs-verify/pkg/anchor/rfc3161.go as the function that Chain calls.
use drs.Prelude.{
  ℕ, suc, ◌≡◌, refl, true, false, List, [], ◌∷◌, ◌++◌, Option, none, some, Result, ok, err, sym, ap,
}
use drs.Prelude.Int.{ℤ}
use drs.Prelude.Text.{Text, codes}
use drs.Types.{TimestampResult}
use drs.Chain.Jwt.{Env, compute_chain_hash}
use drs.Chain.Structure.{Link}
use drs.Chain.Verify.{Deps, Store, timestamp_result, verify_timestamps}
use drs.Timestamp.Token.{Certificate, Library}
use drs.Timestamp.Verify.{TimestampError, Signed, verify_timestamp_trusted}
use drs.Timestamp.Trusted.{IsStamped, IsTrusted, verify_timestamp_trusted-eq-ok_iff}

abbrev pub time_of : Result TimestampError ℤ → Option ℤ
time_of (err e) = none
time_of (ok t) = some t

-- verify.Deps with the configured pool of roots
abbrev pub with_roots : {S : Type 0} → Library → Option (List Certificate) → Deps S → Deps S
with_roots lib pool deps = record deps {
  verify_timestamp = λ token hash s. time_of (verify_timestamp_trusted lib token hash pool);
}

module _ {S : Type 0} (env : Env) (lib : Library) (pool : Option (List Certificate))
    (deps : Deps S) where
  -- What the store has under a receipt's hash and the suffix of timestamps.
  abbrev pub stored : Store S → Link → S → Option Text × S
  stored store l s = store.get (compute_chain_hash env l.jwt ++ codes ".tst") s

  -- The result has the receipt's index; it is invalid, or the token that was found is a trusted
  -- timestamp of the receipt's hash, with that time.
  abbrev pub IsReported : ℕ → Option Text → Link → TimestampResult → Type 0
  IsReported i found l r =
      (r.index ≡ i)
      × (r.valid ≡ true
          → (token : Text) × (roots : List Certificate) × (signed : Signed) × (found ≡ some token)
            × (pool ≡ some roots)
            × IsStamped lib token (env.sha256 l.jwt) signed
            × IsTrusted lib roots signed
            × (r.time ≡ some signed.tst.gen_time))

  -- One result for each receipt, the first with the index `i`.
  abbrev pub AllReported : Store S → ℕ → List Link → S → List TimestampResult → Type 0
  AllReported store i [] s rs = rs ≡ []
  AllReported store i (l ∷ ls) s [] = ⊥
  AllReported store i (l ∷ ls) s (r ∷ rs) =
      IsReported i (stored store l s).0 l r × AllReported store (suc i) ls (stored store l s).1 rs

  reported :
      (i : ℕ) (l : Link) (token : Text) (answer : Result TimestampError ℤ)
      → verify_timestamp_trusted lib token (env.sha256 l.jwt) pool ≡ answer
      → IsReported i (some token) l (elim (time_of answer) [
        | none ↦ record { index = i; valid = false; time = none }
        | some t ↦ record { index = i; valid = true; time = some t }
      ])
  reported i l token (err e) bad = (refl, λ h. cc)
  reported i l token (ok t) good =
      let (roots, signed, e, stamped, trusted, time) =
        (verify_timestamp_trusted-eq-ok_iff lib token (env.sha256 l.jwt) pool t).0 good in
      (
        refl,
        λ h. (token, roots, signed, refl, e, stamped, trusted, ap (λ (n : ℤ). some n) (sym time)),
      )

  timestamp_result-IsReported :
      (i : ℕ) (l : Link) (s : S) (found : Option Text)
      → IsReported i found l (timestamp_result env (with_roots lib pool deps) i l s found)
  timestamp_result-IsReported i l s none = (refl, λ h. cc)
  timestamp_result-IsReported i l s (some token) =
      reported i l token (verify_timestamp_trusted lib token (env.sha256 l.jwt) pool) refl

  -- Chain reports one result for each receipt, with the receipts' indices in order, and one that is
  -- valid only where roots are configured and what the store gave under the receipt's hash and
  -- ".tst" is a trusted timestamp of the receipt's SHA-256, whose time it has.
  pub verify_timestamps-AllReported :
      (store : Store S) (i : ℕ) (ls : List Link) (s : S)
      → AllReported store i ls s (verify_timestamps env (with_roots lib pool deps) store i ls s).0
  unfolding verify_timestamps
  verify_timestamps-AllReported store i [] s = refl
  verify_timestamps-AllReported store i (l ∷ ls) s = (
    timestamp_result-IsReported i l (stored store l s).1 (stored store l s).0,
    verify_timestamps-AllReported store (suc i) ls (stored store l s).1,
  )
