-- ===== src/Storage/Key.antt =====
-- hashPath of drs-verify/pkg/store/filesystem.go: the paths are those below the base directory.
use drs.Prelude.{
  ℕ, zero, suc, Bool, true, ◌&&◌, ◌||◌, [], ◌∷◌, ◌++◌, Option, none, some, leb, if◌then◌else◌,
  length, take, All, ◌≡◌, ◌⊎◌, inl, inr, refl, sym, ap, Bool-cases, Option-cases,
}
use mathlib.Core.Option.{some-injective}
use drs.Prelude.Text.{Text, codes, ◌==◌, is_empty, strip_prefix}

abbrev pub is_hex : ℕ → Bool
is_hex c = (leb b'0' c && leb c b'9') || (leb b'a' c && leb c b'f')

-- The first hexadecimal digits, and what follows them.
unfoldable pub take_hex : ℕ → Text → Option (Text × Text)
take_hex zero s = some ([], s)
take_hex (suc n) [] = none
take_hex (suc n) (c ∷ s) = elim (take_hex n s) [
  | none ↦ none
  | some (digest, rest) ↦ if is_hex c then some (c ∷ digest, rest) else none
]

-- the extension after the digest, "jwt" where there is none
unfoldable pub extension : Text → Option Text
extension rest =
    if is_empty rest
    then some (codes "jwt")
    else if rest == codes ".jwt"
    then some (codes "jwt")
    else if rest == codes ".tst"
    then some (codes "tst")
    else none

abbrev pub path_of : Text → Option Text → Option Text
path_of digest none = none
path_of digest (some ext) = some (take 4 digest ++ (codes "/" ++ (digest ++ (codes "." ++ ext))))

abbrev pub with_digest : Option (Text × Text) → Option Text
with_digest none = none
with_digest (some (digest, rest)) = path_of digest (extension rest)

-- strings.TrimPrefix
abbrev pub without_prefix : Text → Option Text → Text
without_prefix hash none = hash
without_prefix hash (some name) = name

-- hashPath; `none` is its error
unfoldable pub hash_path : Text → Option Text
hash_path hash =
    with_digest (take_hex 64 (without_prefix hash (strip_prefix (codes "sha256:") hash)))

-- The path of a file of the store: a directory named by the first four digits of the digest.
abbrev pub IsStorePath : Text → Type 0
IsStorePath path =
    (digest : Text) × (ext : Text) × (path
      ≡ take 4 digest ++ (codes "/" ++ (digest ++ (codes "." ++ ext))))
    × (length digest ≡ 64)
    × All (λ c. is_hex c ≡ true) digest
    × ((ext ≡ codes "jwt") ⊎ (ext ≡ codes "tst"))

take_hex_sound :
    (n : ℕ) (s digest rest : Text)
    → take_hex n s ≡ some (digest, rest)
    → (length digest ≡ n) × All (λ c. is_hex c ≡ true) digest
unfolding take_hex
take_hex_sound zero s digest rest h =
    let none_yet : [] ≡ digest = ap (λ (p : Text × Text). p.0) (some-injective _ _ h) in
    rw (sym none_yet) (refl, tt)
take_hex_sound (suc n) [] digest rest h = cc
take_hex_sound (suc n) (c ∷ s) digest rest h = elim (Option-cases (take_hex n s)) [
  | inl short ↦ cc (rw (short, take_hex) at h)
  | inr ((ds, more), e) ↦ elim (Bool-cases (is_hex c)) [
    | inr other ↦ cc (rw (e, other, take_hex) at h)
    | inl hex ↦
        let same : c ∷ ds ≡ digest =
          ap (λ (p : Text × Text). p.0) (some-injective _ _ (rw (e, hex, take_hex) at h)) in
        let (long, rest_hex) = take_hex_sound n s ds more e in
        rw (sym same) (ap suc long, (hex, rest_hex))
  ]
]

extension_sound :
    (rest ext : Text) → extension rest ≡ some ext → (ext ≡ codes "jwt") ⊎ (ext ≡ codes "tst")
unfolding extension
extension_sound rest ext h = elim (Bool-cases (is_empty rest)) [
  | inl blank ↦ inl (sym (some-injective _ _ (rw (blank, extension) at h)))
  | inr given ↦ elim (Bool-cases (rest == codes ".jwt")) [
    | inl jwt ↦ inl (sym (some-injective _ _ (rw (given, jwt, extension) at h)))
    | inr other ↦ elim (Bool-cases (rest == codes ".tst")) [
      | inl tst ↦ inr (sym (some-injective _ _ (rw (given, other, tst, extension) at h)))
      | inr neither ↦ cc (rw (given, other, neither, extension) at h)
    ]
  ]
]

with_digest_sound :
    (o : Option (Text × Text)) (path : Text)
    → ((digest rest : Text)
        → o ≡ some (digest, rest)
        → (length digest ≡ 64) × All (λ c. is_hex c ≡ true) digest)
    → with_digest o ≡ some path
    → IsStorePath path
with_digest_sound none path right h = cc
with_digest_sound (some (digest, rest)) path right h = elim (Option-cases (extension rest)) [
  | inl bad ↦ cc (rw (bad, with_digest) at h)
  | inr (ext, e) ↦
      let (long, hex) = right digest rest refl in
      (
        digest,
        ext,
        sym (some-injective _ _ (rw (e, with_digest) at h)),
        long,
        hex,
        extension_sound rest ext e,
      )
]

-- Every key that hashPath accepts has a path of the store: no key leads elsewhere.
pub hash_path-IsStorePath : (hash path : Text) → hash_path hash ≡ some path → IsStorePath path
unfolding hash_path
hash_path-IsStorePath hash path h =
    with_digest_sound _ path (λ digest rest e. take_hex_sound 64 _ digest rest e) h
