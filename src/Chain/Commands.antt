-- ===== src/Chain/Commands.antt =====
-- cmdIsSubpath of drs-verify/pkg/verify/chain.go as an order on command paths.
use drs.Prelude.{
  ◌≡◌, ◌↔◌, ◌⊎◌, inl, inr, refl, ap, ◌∙◌, true, ◌∷◌, ◌++◌, some, Bool-cases, Option-cases,
}
use mathlib.Core.List.{append_assoc}
use drs.Prelude.Text.{
  Text, codes, ◌==◌, ==_iff, strip_prefix, strip_prefix_sound, strip_prefix-append, has_prefix,
}
use drs.Chain.Semantic.{cmd_is_subpath}

-- The path itself, or the path continued by a slash and anything.
abbrev pub Subpath : Text → Text → Type 0
Subpath parent child = (child ≡ parent) ⊎ ((rest : Text) × (child ≡ parent ++ b'/' ∷ rest))

slash_iff : (s : Text) → (has_prefix s (codes "/") ≡ true) ↔ ((rest : Text) × (s ≡ b'/' ∷ rest))
unfolding has_prefix
slash_iff s = (
  λ h. elim (Option-cases (strip_prefix (codes "/") s)) [
    | inl e ↦ cc (rw e at h)
    | inr (rest, e) ↦ (rest, strip_prefix_sound (codes "/") s rest e)
  ],
  λ h. rw h.1 refl,
)

strip_iff : (p s rest : Text) → (strip_prefix p s ≡ some rest) ↔ (s ≡ p ++ rest)
strip_iff p s rest = (strip_prefix_sound p s rest, λ e. rw e (strip_prefix-append p rest))

cmd_is_subpath-Subpath : (p c : Text) → cmd_is_subpath p c ≡ true → Subpath p c
unfolding cmd_is_subpath
cmd_is_subpath-Subpath p c h = elim (Bool-cases (c == p)) [
  | inl same ↦ inl ((==_iff c p).0 same)
  | inr other ↦ elim (Option-cases (strip_prefix p c)) [
    | inl e ↦ cc (rw (other, e) at h)
    | inr (rest, e) ↦
        let (tail, slash) = (slash_iff rest).0 (rw (other, e) at h) in
        inr (tail, (strip_iff p c rest).0 e ∙ ap (λ t. p ++ t) slash)
  ]
]

Subpath-cmd_is_subpath : (p c : Text) → Subpath p c → cmd_is_subpath p c ≡ true
unfolding cmd_is_subpath
Subpath-cmd_is_subpath p c (inl e) = rw ((==_iff c p).1 e)
Subpath-cmd_is_subpath p c (inr (rest, e)) = elim (Bool-cases (c == p)) [
  | inl same ↦ rw same
  | inr other ↦
      rw (other, (strip_iff p c (b'/' ∷ rest)).1 e) ((slash_iff (b'/' ∷ rest)).1 (rest, refl))
]

-- cmdIsSubpath returns true exactly for the path itself and its continuations after a slash.
pub cmd_is_subpath_iff : (p c : Text) → (cmd_is_subpath p c ≡ true) ↔ Subpath p c
cmd_is_subpath_iff p c = (cmd_is_subpath-Subpath p c, Subpath-cmd_is_subpath p c)

pub Subpath-trans : (a b c : Text) → Subpath a b → Subpath b c → Subpath a c
Subpath-trans a b c h (inl e) = rw e h
Subpath-trans a b c (inl e) (inr (r, f)) = inr (r, rw (f, e))
Subpath-trans a b c (inr (q, e)) (inr (r, f)) =
    inr (q ++ b'/' ∷ r, rw (f, e) (append_assoc a (b'/' ∷ q) (b'/' ∷ r)))
