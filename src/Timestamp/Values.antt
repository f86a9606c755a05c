-- ===== src/Timestamp/Values.antt =====
-- The loop `for len(rest) > 0 { rest, err = asn1.Unmarshal(rest, &v); … }` of
-- drs-verify/pkg/anchor/rfc3161.go, which reads the values of a SET one after the other.
use drs.Prelude.{
  ℕ, zero, suc, ◌≤◌, ◌<◌, ◌≡◌, ◌≢◌, Bool, true, false, List, [], ◌∷◌, none, some, length, arith,
  inl, inr, Option-cases,
}
use drs.Prelude.Text.{Text}
use drs.Timestamp.Token.{Decoder}

pub record Values (A : Type 0) : Type 0 where
  pub items : List A
  -- the loop read all bytes, and did not stop at an undecodable value
  pub complete : Bool

abbrev pub add_item : {A : Type 0} → A → Values A → Values A
add_item v r = record r { items = v ∷ r.items }

module _ {A : Type 0} (decode : Decoder A) where
  -- The rounds of the loop, at most as many as its first argument.
  unfoldable pub read_rounds : ℕ → Text → Values A
  read_rounds n [] = record { items = []; complete = true }
  read_rounds zero (b ∷ s) = record { items = []; complete = false }
  read_rounds (suc n) (b ∷ s) = elim (decode (b ∷ s)) [
    | none ↦ record { items = []; complete = false }
    | some (v, rest) ↦ add_item v (read_rounds n rest)
  ]

  -- As many rounds as there are bytes.
  unfoldable pub read_values : Text → Values A
  unfolding read_rounds
  read_values s = read_rounds (length s) s

  -- What a loop without a bound on its rounds reads, when it ends.
  pub data Reads : Text → List A → Bool → Type 0 where
    finished : Reads [] [] true
    stopped : {s : Text} → s ≢ [] → decode s ≡ none → Reads s [] false
    read :
        {s rest : Text} {v : A} {vs : List A} {all : Bool}
        → s ≢ []
        → decode s ≡ some (v, rest)
        → Reads rest vs all
        → Reads s (v ∷ vs) all

  -- The decoder uses up a byte at least.
  abbrev pub Consumes : Type 0
  Consumes = (s rest : Text) (v : A) → decode s ≡ some (v, rest) → length rest < length s

  read_rounds-Reads :
      Consumes
      → (n : ℕ) (s : Text) → length s ≤ n
      → Reads s (read_rounds n s).items (read_rounds n s).complete
  unfolding read_rounds
  read_rounds-Reads shrinks n [] enough = finished
  read_rounds-Reads shrinks zero (b ∷ s) enough = absurd (omega arith)
  read_rounds-Reads shrinks (suc n) (b ∷ s) enough = elim (Option-cases (decode (b ∷ s))) [
    | inl bad ↦ rw (bad, read_rounds) (stopped (cc) bad)
    | inr ((v, rest), good) ↦
        let fewer = shrinks (b ∷ s) rest v good in
        rw (good, read_rounds) (read (cc) good (read_rounds-Reads shrinks n rest (omega arith)))
  ]

  -- Under a decoder that uses up a byte at least with each value, the loop ends within as many
  -- rounds as there are bytes, and has then read what the unbounded loop reads.
  pub read_values-Reads :
      Consumes → (s : Text) → Reads s (read_values s).items (read_values s).complete
  unfolding read_values
  read_values-Reads shrinks s = read_rounds-Reads shrinks (length s) s (omega arith)
