-- ===== src/Policy/Segments.antt =====
-- What normalizeResourceURI of drs-verify/pkg/policy/evaluate.go leaves of a path.
use mathlib.Core.List.{reverse_aux, tail}
use drs.Prelude.{◌≢◌, ◌||◌, List, [], ◌∷◌, All, Bool-cases, arith, inl, inr}
use drs.Prelude.Text.{Text, codes, ◌==◌, ==_iff, is_empty, split}
use drs.Policy.Uri.{decode_segment, push_segment, resolve_segments, resolved_parts}

-- Neither empty nor a step to the same or the parent directory.
abbrev pub IsPlain : Text → Type 0
IsPlain p = (p ≢ []) × (p ≢ codes ".") × (p ≢ codes "..")

All-reverse_aux :
    (P : Text → Type 0) (xs ys : List Text) → All P xs → All P ys → All P (reverse_aux xs ys)
All-reverse_aux P [] ys h k = k
All-reverse_aux P (x ∷ xs) ys (p, h) k = All-reverse_aux P xs (x ∷ ys) h (p, k)

All-tail : (P : Text → Type 0) (xs : List Text) → All P xs → All P (tail xs)
All-tail P [] h = tt
All-tail P (x ∷ xs) h = h.1

push-All :
    (parts : List Text) (seg : Text) → All IsPlain parts → All IsPlain (push_segment parts seg)
unfolding push_segment
push-All parts seg h = elim (Bool-cases (seg == codes "..")) [
  | inl up ↦ rw up (All-tail IsPlain parts h)
  | inr stay ↦ elim (Bool-cases (seg == codes "." || is_empty seg)) [
    | inl same ↦ rw (stay, same) h
    | inr plain ↦
        rw (stay, plain)
          (
            (
              λ e. ground arith,
              λ e. ground (arith, (==_iff seg (codes ".")).1 e),
              λ e. ground (arith, (==_iff seg (codes "..")).1 e),
            ),
            h,
          )
  ]
]

resolve-All :
    (parts segs : List Text) → All IsPlain parts → All IsPlain (resolve_segments parts segs)
unfolding resolve_segments
resolve-All parts [] h = All-reverse_aux IsPlain parts [] h tt
resolve-All parts (seg ∷ segs) h =
    resolve-All (push_segment parts (decode_segment seg)) segs
      (push-All parts (decode_segment seg) h)

-- The parts that normalizeResourceURI joins are plain: after the decoding, none is empty, "." or
-- "..".
pub resolved_parts-IsPlain : (path : Text) → All IsPlain (resolved_parts path)
unfolding resolved_parts
resolved_parts-IsPlain path = resolve-All [] (split b'/' path) tt
