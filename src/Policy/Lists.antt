-- ===== src/Policy/Lists.antt =====
-- Facts about the allow-lists that evaluation and attenuation share.
use drs.Prelude.{
  ◌≡◌, ◌≢◌, ◌↔◌, refl, Bool, true, false, List, [], ◌∷◌, inl, inr, arith, any_of, All, Some,
  Some-mono, any_of-Some, Some-any_of, Bool-cases, ok,
}
use drs.Prelude.Text.{Text, ◌==◌, ==_iff}
use drs.Policy.Uri.{wildcard}
use drs.Policy.Evaluate.{has_wildcard, contains, restricts}
use drs.Policy.Attenuate.{Escalation, each_listed, keep_list}

-- The text is an entry of the list.
abbrev pub Listed : Text → List Text → Type 0
Listed s xs = Some (λ t. t ≡ s) xs

pub contains_iff : (xs : List Text) (s : Text) → (contains xs s ≡ true) ↔ Listed s xs
unfolding contains
contains_iff xs s = (
  λ h. Some-mono (λ t. (==_iff t s).0) xs (any_of-Some (λ t. t == s) xs h),
  λ h. Some-any_of (λ t. t == s) xs (Some-mono (λ t. (==_iff t s).1) xs h),
)

has_wildcard-contains : (xs : List Text) → has_wildcard xs ≡ contains xs wildcard
unfolding has_wildcard contains
has_wildcard-contains xs = refl

-- A list restricts exactly where it has entries and no wildcard.
pub restricts_iff : (xs : List Text) → (restricts xs ≡ true) ↔ ((xs ≢ []) × (¬ Listed wildcard xs))
unfolding restricts
restricts_iff [] = (λ h. cc, λ h. absurd (h.0 refl))
restricts_iff (x ∷ xs) = (
  λ h. (
    λ e. cc,
    λ l. ground (arith, has_wildcard-contains (x ∷ xs), (contains_iff (x ∷ xs) wildcard).1 l),
  ),
  λ h. elim (Bool-cases (contains (x ∷ xs) wildcard)) [
    | inl wild ↦ absurd (h.1 ((contains_iff (x ∷ xs) wildcard).0 wild))
    | inr plain ↦ rw (has_wildcard-contains (x ∷ xs), plain)
  ],
)

-- What the loop over the child's list has checked of each entry.
abbrev pub Kept : List Text → Text → Type 0
Kept parent x = ((x == wildcard) ≡ false) × (contains parent x ≡ true)

pub each_listed-All :
    (wild added : Escalation) (parent xs : List Text)
    → each_listed wild added parent xs ≡ ok tt
    → All (Kept parent) xs
unfolding each_listed
each_listed-All wild added parent [] h = tt
each_listed-All wild added parent (x ∷ xs) h =
    ((ground arith, ground arith), each_listed-All wild added parent xs (ground arith))

has_wildcard_of_Kept : (parent xs : List Text) → All (Kept parent) xs → has_wildcard xs ≡ false
unfolding has_wildcard any_of
has_wildcard_of_Kept parent [] h = refl
has_wildcard_of_Kept parent (x ∷ xs) (k, h) = rw k.0 (has_wildcard_of_Kept parent xs h)

-- Below a restricting list an accepted list restricts too, and all of it was kept.
pub keep_list-ok :
    (omitted wild added : Escalation) (parent child : List Text)
    → restricts parent ≡ true
    → keep_list omitted wild added parent child ≡ ok tt
    → (restricts child ≡ true) × All (Kept parent) child
unfolding keep_list restricts
keep_list-ok omitted wild added parent [] r h = cc
keep_list-ok omitted wild added parent (x ∷ xs) r h =
    let kept = each_listed-All wild added parent (x ∷ xs) (rw r at h) in
    (rw (has_wildcard_of_Kept parent (x ∷ xs) kept), kept)

-- Any test that an accepted entry passes, the parent's list passes.
pub any_of-Kept :
    (p : Text → Bool) (parent xs : List Text)
    → All (Kept parent) xs
    → any_of p xs ≡ true
    → any_of p parent ≡ true
unfolding any_of
any_of-Kept p parent [] h e = cc
any_of-Kept p parent (x ∷ xs) (k, h) e = elim (Bool-cases (p x)) [
  | inl hit ↦
      Some-any_of p parent
        (Some-mono (λ t same. rw same hit) parent ((contains_iff parent x).0 k.1))
  | inr miss ↦ any_of-Kept p parent xs h (rw miss at e)
]
