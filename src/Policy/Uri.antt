-- ===== src/Policy/Uri.antt =====
-- normalizeResourceURI and resourceCovered of drs-verify/pkg/policy/evaluate.go.

use mathlib.Core.List.{reverse, tail}
use mathlib.Core.Option
use drs.Prelude.{
  Bool, false, ◌&&◌, ◌||◌, List, [], ◌∷◌, ◌++◌, Option, none, some, eqb, if◌then◌else◌, any_of,
}
use drs.Prelude.Percent.{path_unescape}
use drs.Prelude.Text.{Text, codes, ◌==◌, is_empty, strip_prefix, has_prefix, split}

abbrev pub wildcard : Text
wildcard = codes "*"

abbrev pub scheme_sep : Text
scheme_sep = codes "://"

-- strings.Index(uri, "://"), with the two parts of the text instead of the position
scheme_from : Text → Text → Option (Text × Text)
scheme_from before [] = none
scheme_from before (a ∷ s) =
    let later = scheme_from (before ++ a ∷ []) s in
    elim (strip_prefix scheme_sep (a ∷ s)) [
      | none ↦ later
      | some path ↦ some (before ++ scheme_sep, path)
    ]

unfoldable pub split_scheme : Text → Text × Text
unfolding scheme_from
split_scheme uri = elim (scheme_from [] uri) [ none ↦ ([], uri) | some parts ↦ parts ]

unfoldable pub decode_segment : Text → Text
unfolding path_unescape
decode_segment seg = elim (path_unescape seg) [ none ↦ seg | some decoded ↦ decoded ]

-- One round of the loop; the stack has the last part at its head.
unfoldable pub push_segment : List Text → Text → List Text
push_segment parts decoded =
    if decoded == codes ".."
    then tail parts
    else if decoded == codes "." || is_empty decoded
    then parts
    else decoded ∷ parts

unfoldable pub resolve_segments : List Text → List Text → List Text
unfolding push_segment
resolve_segments parts [] = reverse parts
resolve_segments parts (seg ∷ segs) =
    resolve_segments (push_segment parts (decode_segment seg)) segs

-- strings.Join(parts, "/")
unfoldable pub join_slash : List Text → Text
join_slash [] = []
join_slash (p ∷ []) = p
join_slash (p ∷ q ∷ ps) = p ++ b'/' ∷ join_slash (q ∷ ps)

-- the parts that normalizeResourceURI joins
unfoldable pub resolved_parts : Text → List Text
unfolding resolve_segments
resolved_parts path = resolve_segments [] (split b'/' path)

unfoldable pub normalize_resource_uri : Text → Text
unfolding split_scheme resolved_parts join_slash
normalize_resource_uri uri =
    let (scheme, path) = split_scheme uri in scheme ++ join_slash (resolved_parts path)

-- p[:len(p)-1] where p ends in "/*"
unfoldable pub wildcard_dir : Text → Option Text
wildcard_dir [] = none
wildcard_dir (a ∷ []) = none
wildcard_dir (a ∷ b ∷ []) = if eqb b b'*' && eqb a b'/' then some (a ∷ []) else none
wildcard_dir (a ∷ b ∷ c ∷ s) = Option.map (λ t. a ∷ t) (wildcard_dir (b ∷ c ∷ s))

ends_with_slash : Text → Bool
ends_with_slash [] = false
ends_with_slash (a ∷ []) = eqb a b'/'
ends_with_slash (a ∷ b ∷ s) = ends_with_slash (b ∷ s)

-- the prefix with its closing slash
unfoldable pub close_dir : Text → Text
unfolding ends_with_slash
close_dir prefix = if ends_with_slash prefix then prefix else prefix ++ b'/' ∷ []

-- one pattern of the loop in resourceCovered
unfoldable pub pattern_covers : Text → Text → Text → Bool
pattern_covers uri norm_uri p =
    p == wildcard || p == uri || p == norm_uri || elim (wildcard_dir p) [
      | none ↦ false
      | some dir ↦ has_prefix norm_uri (close_dir (normalize_resource_uri dir))
    ]

unfoldable pub resource_covered : Text → List Text → Bool
unfolding pattern_covers
resource_covered uri patterns = any_of (pattern_covers uri (normalize_resource_uri uri)) patterns
