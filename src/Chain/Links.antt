-- ===== src/Chain/Links.antt =====
-- Predicates on a chain of receipts, and what the loops of Chain establish.
use drs.Prelude.{◌≡◌, refl, Bool, true, false, not, List, [], ◌∷◌, last_of, All, ok, fail_if, ◌>>◌}
use drs.Prelude.Text.{Text, ◌==◌, ==_iff}
use drs.Types.{VerificationError}
use drs.Chain.Structure.{Verdict}

-- Each link stands in the relation to the one before it.
abbrev pub Linked {ℓ} : {A : Type ℓ} → (A → A → Type 0) → A → List A → Type 0
Linked R parent [] = Unit
Linked R parent (l ∷ ls) = R parent l × Linked R l ls

pub passed :
    (b : Bool) (e : VerificationError) (m : Verdict)
    → (fail_if b e >> m) ≡ ok tt
    → (b ≡ false) × (m ≡ ok tt)
passed true e m h = cc
passed false e m h = (refl, h)

pub passed_last : (b : Bool) (e : VerificationError) → fail_if b e ≡ ok tt → b ≡ false
passed_last true e h = cc
passed_last false e h = refl

pub passed_both :
    (a b : Bool) (e f : VerificationError) (m : Verdict)
    → (fail_if a e >> fail_if b f >> m) ≡ ok tt
    → (a ≡ false) × (b ≡ false) × (m ≡ ok tt)
passed_both true b e f m h = cc
passed_both false true e f m h = cc
passed_both false false e f m h = (refl, refl, h)

pub passed_three :
    (a b c : Bool) (e f g : VerificationError) (m : Verdict)
    → (fail_if a e >> fail_if b f >> fail_if c g >> m) ≡ ok tt
    → (a ≡ false) × (b ≡ false) × (c ≡ false) × (m ≡ ok tt)
passed_three true b c e f g m h = cc
passed_three false true c e f g m h = cc
passed_three false false true e f g m h = cc
passed_three false false false e f g m h = (refl, refl, refl, h)

pub not-eq-false : (b : Bool) → not b ≡ false → b ≡ true
not-eq-false true h = refl
not-eq-false false h = cc

-- A test for equality that was passed.
pub same_text : (s t : Text) → not (s == t) ≡ false → s ≡ t
same_text s t h = (==_iff s t).0 (not-eq-false (s == t) h)

pub same_text_passes : (s t : Text) → s ≡ t → not (s == t) ≡ false
same_text_passes s t e = rw ((==_iff s t).1 e)

module _ {ℓ} {A : Type ℓ} where
  pub Linked-mono :
      {R Q : A → A → Type 0}
      → ((a b : A) → R a b → Q a b)
      → (a : A) (xs : List A) → Linked R a xs
      → Linked Q a xs
  Linked-mono f a [] h = tt
  Linked-mono f a (x ∷ xs) (r, h) = (f a x r, Linked-mono f x xs h)

  -- What passes from a link to the one before it holds of all where it holds of the last.
  pub Linked-All :
      (R : A → A → Type 0) (P : A → Type 0)
      → ((a b : A) → R a b → P b → P a)
      → (a : A) (xs : List A) → Linked R a xs
      → P (last_of a xs)
      → All P (a ∷ xs)
  unfolding last_of
  Linked-All R P down a [] h p = (p, tt)
  Linked-All R P down a (x ∷ xs) (r, h) p =
      let later = Linked-All R P down x xs h p in (down a x r later.0, later)
