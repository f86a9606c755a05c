-- ===== src/Resolver/WebUrl.antt =====
-- didWebDocumentURL of drs-verify/pkg/resolver/did.go, on what follows "did:web:".
use drs.Prelude.{
  ℕ, Bool, true, false, not, ◌||◌, List, [], ◌∷◌, ◌++◌, Option, none, some, eqb, if◌then◌else◌,
  any_of, All, arith, ◌≡◌, ◌≢◌, ◌⊎◌, inl, inr, refl, ap, sym, Bool-cases, Option-cases,
}
use mathlib.Core.Option.{some-injective}
use drs.Prelude.Percent.{path_unescape}
use drs.Prelude.Text.{Text, codes, ◌==◌, ==_iff, is_empty, is_padded, split}
use drs.Policy.Uri.{join_slash}
use drs.Policy.Segments.{IsPlain}

-- the text before the first colon, and the text after it, which is empty where there is none
unfoldable pub cut_colon : Text → Text × Text
cut_colon [] = ([], [])
cut_colon (c ∷ s) = let (a, b) = cut_colon s in if eqb c b':' then ([], s) else (c ∷ a, b)

-- strings.ContainsAny
unfoldable pub contains_any : Text → Text → Bool
contains_any s chars = any_of (λ c. any_of (λ x. eqb c x) chars) s

-- the characters that a domain may not have: "@/?#\\ " and NUL
abbrev pub illegal_domain_chars : Text
illegal_domain_chars = 0 ∷ codes "@/?#\\ "

abbrev pub illegal_segment_chars : Text
illegal_segment_chars = 0 ∷ codes "/\\"

unfoldable pub is_domain : Text → Bool
is_domain d =
    if is_empty d
    then false
    else if contains_any d illegal_domain_chars
    then false
    else not (is_padded d)

unfoldable pub is_segment : Text → Bool
is_segment decoded =
    if is_empty decoded || decoded == codes "." || decoded == codes ".."
    then false
    else not (contains_any decoded illegal_segment_chars)

abbrev pub is_decoded_segment : Option Text → Bool
is_decoded_segment none = false
is_decoded_segment (some decoded) = is_segment decoded

-- the loop over the segments of the path
unfoldable pub are_segments : List Text → Bool
are_segments [] = true
are_segments (seg ∷ segs) =
    let rest = are_segments segs in if is_decoded_segment (path_unescape seg) then rest else false

abbrev pub url_of : Text → Text → Option Text
url_of domain path =
    if is_empty path
    then some (codes "https://" ++ domain ++ codes "/.well-known/did.json")
    else if are_segments (split b':' path)
    then some (
        codes "https://"
        ++ domain
        ++ (codes "/" ++ join_slash (split b':' path) ++ codes "/did.json"))
    else none

abbrev pub with_domain : Option Text → Text → Option Text
with_domain none path = none
with_domain (some domain) path = if is_domain domain then url_of domain path else none

unfoldable pub did_web_document_url : Text → Option Text
did_web_document_url rest =
    let (domain, path) = cut_colon rest in with_domain (path_unescape domain) path

-- No byte of the text is one of the characters.
abbrev pub Avoids : Text → Text → Type 0
Avoids chars s = All (λ c. All (λ x. c ≢ x) chars) s

none_equal : (c : ℕ) (chars : Text) → any_of (λ x. eqb c x) chars ≡ false → All (λ x. c ≢ x) chars
unfolding any_of
none_equal c [] h = tt
none_equal c (x ∷ chars) h = elim (Bool-cases (eqb c x)) [
  | inl same ↦ cc (rw (same, any_of) at h)
  | inr other ↦ (λ e. ground arith, none_equal c chars (rw (other, any_of) at h))
]

contains_any-Avoids : (s chars : Text) → contains_any s chars ≡ false → Avoids chars s
unfolding contains_any any_of
contains_any-Avoids [] chars h = tt
contains_any-Avoids (c ∷ s) chars h = elim (Bool-cases (any_of (λ x. eqb c x) chars)) [
  | inl found ↦ cc (rw (contains_any, any_of, found) at h)
  | inr clean ↦ (
    none_equal c chars clean,
    contains_any-Avoids s chars (rw (contains_any, any_of, clean) at h),
  )
]

-- What a domain and a segment may be.
abbrev pub IsDomain : Text → Type 0
IsDomain d = (d ≢ []) × Avoids illegal_domain_chars d × (is_padded d ≡ false)

abbrev pub IsSegment : Text → Type 0
IsSegment seg =
    (decoded : Text) × (path_unescape seg ≡ some decoded)
    × IsPlain decoded
    × Avoids illegal_segment_chars decoded

not-true : (b : Bool) → not b ≡ true → b ≡ false
not-true true h = cc
not-true false h = refl

neither : (a b c : Bool) → (a || b || c) ≡ false → (a ≡ false) × (b ≡ false) × (c ≡ false)
neither true b c h = cc
neither false true c h = cc
neither false false c h = (refl, refl, h)

is_domain-IsDomain : (d : Text) → is_domain d ≡ true → IsDomain d
unfolding is_domain
is_domain-IsDomain [] h = cc
is_domain-IsDomain (c ∷ d) h = elim (Bool-cases (contains_any (c ∷ d) illegal_domain_chars)) [
  | inl found ↦ cc (rw (found, is_domain) at h)
  | inr clean ↦ (
    λ e. cc,
    contains_any-Avoids (c ∷ d) illegal_domain_chars clean,
    not-true (is_padded (c ∷ d)) (rw (clean, is_domain) at h),
  )
]

is_segment_sound :
    (decoded : Text)
    → is_segment decoded ≡ true
    → IsPlain decoded × Avoids illegal_segment_chars decoded
unfolding is_segment
is_segment_sound decoded h =
    elim (Bool-cases (is_empty decoded || decoded == codes "." || decoded == codes "..")) [
      | inl special ↦ cc (rw (special, is_segment) at h)
      | inr plain ↦
          let clean =
            not-true (contains_any decoded illegal_segment_chars) (rw (plain, is_segment) at h) in
          let (full, here, above) =
            neither (is_empty decoded) (decoded == codes ".") (decoded == codes "..") plain in
          (
            (
              λ e. absurd (ground (arith, full, ap is_empty e)),
              λ e. ground (arith, (==_iff decoded (codes ".")).1 e),
              λ e. ground (arith, (==_iff decoded (codes "..")).1 e),
            ),
            contains_any-Avoids decoded illegal_segment_chars clean,
          )
    ]

decoded-IsSegment : (seg : Text) → is_decoded_segment (path_unescape seg) ≡ true → IsSegment seg
decoded-IsSegment seg h = elim (Option-cases (path_unescape seg)) [
  | inl bad ↦ cc (rw (bad, is_decoded_segment) at h)
  | inr (decoded, e) ↦
      let (plain, clean) = is_segment_sound decoded (rw (e, is_decoded_segment) at h) in
      (decoded, e, plain, clean)
]

are_segments-All : (segs : List Text) → are_segments segs ≡ true → All IsSegment segs
unfolding are_segments
are_segments-All [] h = tt
are_segments-All (seg ∷ segs) h = elim (Bool-cases (is_decoded_segment (path_unescape seg))) [
  | inr bad ↦ cc (rw (bad, are_segments) at h)
  | inl good ↦ (decoded-IsSegment seg good, are_segments-All segs (rw (good, are_segments) at h))
]

-- The path of a document's URL below its host.
abbrev pub IsDocumentPath : Text → Type 0
IsDocumentPath path =
    (path ≡ codes "/.well-known/did.json")
    ⊎ ((segs : List Text) × (path ≡ codes "/" ++ join_slash segs ++ codes "/did.json")
        × All IsSegment segs)

abbrev pub IsDocumentUrl : Text → Type 0
IsDocumentUrl url =
    (domain : Text) × (path : Text) × (url ≡ codes "https://" ++ domain ++ path)
    × IsDomain domain
    × IsDocumentPath path

url_of_sound :
    (domain path url : Text) → IsDomain domain → url_of domain path ≡ some url → IsDocumentUrl url
url_of_sound domain path url legal h = elim (Bool-cases (is_empty path)) [
  | inl none_given ↦ (
    domain,
    codes "/.well-known/did.json",
    sym (some-injective _ _ (rw (none_given, url_of) at h)),
    legal,
    inl refl,
  )
  | inr given ↦ elim (Bool-cases (are_segments (split b':' path))) [
    | inr bad ↦ cc (rw (given, bad, url_of) at h)
    | inl good ↦
        let segs = split b':' path in
        (
          domain,
          codes "/" ++ join_slash segs ++ codes "/did.json",
          sym (some-injective _ _ (rw (given, good, url_of) at h)),
          legal,
          inr (segs, refl, are_segments-All segs good),
        )
  ]
]

with_domain_sound :
    (o : Option Text) (path url : Text) → with_domain o path ≡ some url → IsDocumentUrl url
with_domain_sound none path url h = cc
with_domain_sound (some domain) path url h = elim (Bool-cases (is_domain domain)) [
  | inr bad ↦ cc (rw (bad, with_domain) at h)
  | inl good ↦
      url_of_sound domain path url (is_domain-IsDomain domain good) (rw (good, with_domain) at h)
]

-- A document's URL is https, with a host that is not empty, not padded with white space and has no
-- NUL, space, at sign, slash, question mark, number sign or backslash; its path is the well-known
-- one, or joins segments that decode to plain ones without a slash, backslash or NUL.
pub did_web_document_url_sound :
    (rest url : Text) → did_web_document_url rest ≡ some url → IsDocumentUrl url
unfolding did_web_document_url
did_web_document_url_sound rest url h =
    with_domain_sound (path_unescape (cut_colon rest).0) (cut_colon rest).1 url h
