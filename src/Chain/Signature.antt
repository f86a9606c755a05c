-- ===== src/Chain/Signature.antt =====
-- Block C of Chain in drs-verify/pkg/verify/chain.go: resolveIssuersParallel, classifySignatureError,
-- strictVerifyEd25519 and verifyJWTSignatureWithKey.
use drs.Prelude.{
  ℕ, zero, suc, ◌+◌, Bool, true, false, not, List, [], ◌∷◌, ◌++◌, map, Option, none, some, eqb, ltb,
  if◌then◌else◌, length, get_elem?, any_of, Result, ok, err, Checked, fail_if, ◌>>=◌,
}
use drs.Prelude.Text.{Text, codes, ◌==◌, contains_text}
use drs.Types.{
  Code, signature_malleability, unresolvable_did, invalid_signature, invalid_invocation_signature,
}
use drs.Chain.Jwt.{Env, Parts, jwt_parts, decode_header, base64_decode}
use drs.Chain.Structure.{Verdict, Link, Decoded, all_links, fault, fault_at}

-- An error value: its text, and whether it wraps errSignatureMalleability.
pub record SignatureError : Type 0 where
  pub message : Text
  pub malleable : Bool

abbrev pub plain : Text → SignatureError
plain m = record { message = m; malleable = false }

-- fmt.Errorf with a %w at its end
abbrev pub wrap : Text → SignatureError → SignatureError
wrap context e = record { message = context ++ e.message; malleable = e.malleable }

-- edGroupOrder: L, in little-endian bytes
abbrev pub ed_group_order : List ℕ
ed_group_order =
    0xed ∷ 0xd3 ∷ 0xf5 ∷ 0x5c ∷ 0x1a ∷ 0x63 ∷ 0x12 ∷ 0x58 ∷ 0xd6 ∷ 0x9c ∷ 0xf7 ∷ 0xa2 ∷ 0xde ∷ 0xf9
    ∷ 0xde ∷ 0x14 ∷ 0 ∷ 0 ∷ 0 ∷ 0 ∷ 0 ∷ 0 ∷ 0 ∷ 0 ∷ 0 ∷ 0 ∷ 0 ∷ 0 ∷ 0 ∷ 0 ∷ 0 ∷ 0x10 ∷ []

-- s[i] within bounds
unfoldable pub byte_at : List ℕ → ℕ → ℕ
byte_at s i = elim (get_elem? s i) [ none ↦ 0 | some b ↦ b ]

-- The loop from byte i - 1 down to byte 0; `sig` is read at 32 + i.
unfoldable pub scan_scalar : List ℕ → List ℕ → ℕ → Checked SignatureError
scan_scalar order sig zero = err (record {
  message =
      codes "non-canonical Ed25519 signature scalar: S == group order L: signature malleability";
  malleable = true;
})
scan_scalar order sig (suc i) =
    let lower = scan_scalar order sig i in
    if ltb (byte_at order i) (byte_at sig (32 + i))
    then err (record {
      message =
          codes
            "non-canonical Ed25519 signature scalar: S >= group order L: signature malleability";
      malleable = true;
    })
    else if ltb (byte_at sig (32 + i)) (byte_at order i)
    then ok tt
    else lower

module _ (env : Env) where
  unfoldable pub strict_verify_ed25519 : Text → Checked SignatureError
  strict_verify_ed25519 sig =
      if not (eqb (length sig) 64)
      then err (plain (codes "invalid signature length: " ++ env.decimal (length sig)))
      else scan_scalar ed_group_order sig 32

-- resolvedKeys[did]
abbrev pub Keys : Type 0
Keys = List (Text × Text)

unfoldable pub key_of : Text → Keys → Option Text
key_of did [] = none
key_of did ((d, k) ∷ ks) = if d == did then some k else key_of did ks

module _ (env : Env) where
  -- the signature's bytes, and the call of ed25519.Verify
  unfoldable pub check_signature : Parts → Text → Text → Checked SignatureError
  check_signature p key sig = elim (strict_verify_ed25519 env sig) [
    | err e ↦ err (wrap (codes "Ed25519 strict check failed: ") e)
    | ok _ ↦
        fail_if (not (env.ed25519_verify key (p.header ++ b'.' ∷ p.payload) sig))
          (plain (codes "Ed25519 signature verification failed"))
  ]

  unfoldable pub verify_parts : Option Parts → Text → Checked SignatureError
  verify_parts none key = err (plain (codes "malformed JWT"))
  verify_parts (some p) key = elim (base64_decode p.signature) [
    | none ↦ err (plain (codes "signature base64 decode: " ++ env.base64_message p.signature))
    | some sig ↦ check_signature p key sig
  ]

  -- verifyJWTSignatureWithKey
  unfoldable pub verify_jwt_signature : Text → Text → Keys → Checked SignatureError
  verify_jwt_signature jwt did keys = elim (decode_header env jwt) [
    | err m ↦ err (plain (codes "JWT header decode failed: " ++ m))
    | ok alg ↦
        if not (alg == codes "EdDSA")
        then err (
            plain (
              codes "unsupported JWT algorithm "
              ++ env.quote alg
              ++ codes ": DRS receipts must use EdDSA"))
        else elim (key_of did keys) [
          | none ↦ err (plain (codes "DID resolution failed: no key found for " ++ did))
          | some key ↦ verify_parts (jwt_parts jwt) key
        ]
  ]

-- the texts by which classifySignatureError knows a failed resolution
abbrev pub resolution_texts : List Text
resolution_texts =
    codes "DID resolution failed"
    ∷ codes "unsupported DID method"
    ∷ codes "base58 decoding failed"
    ∷ codes "decoded length"
    ∷ codes "unsupported key type"
    ∷ []

unfoldable pub classify_signature_error : SignatureError → Code
classify_signature_error e =
    if e.malleable
    then signature_malleability
    else if any_of (λ t. contains_text e.message t) resolution_texts
    then unresolvable_did
    else invalid_signature

abbrev for_invocation : Code → Code
for_invocation invalid_signature = invalid_invocation_signature
for_invocation c = c

module _ (env : Env) where
  unfoldable pub check_receipt_signatures : ℕ → List Link → Keys → Verdict
  check_receipt_signatures i [] keys = ok tt
  check_receipt_signatures i (l ∷ ls) keys =
      let rest = check_receipt_signatures (suc i) ls keys in
      elim (verify_jwt_signature env l.jwt l.iss keys) [
        | err e ↦ err (fault_at (classify_signature_error e) i)
        | ok _ ↦ rest
      ]

  unfoldable pub check_invocation_signature : Decoded → Keys → Verdict
  check_invocation_signature d keys =
      elim (verify_jwt_signature env d.invocation_jwt d.invocation.iss keys) [
        | err e ↦ err (fault (for_invocation (classify_signature_error e)))
        | ok _ ↦ ok tt
      ]

-- The first occurrence of each DID that is not in `seen`.
unfoldable pub unique_from : List Text → List Text → List Text
unique_from seen [] = []
unique_from seen (did ∷ dids) =
    let known = unique_from seen dids in
    let fresh = unique_from (did ∷ seen) dids in
    if any_of (λ d. d == did) seen then known else did ∷ fresh

abbrev pub unique : List Text → List Text
unique dids = unique_from [] dids

-- What a worker sends: the DID with its key, or with the error's text.
abbrev pub Outcome : Type 0
Outcome = Text × Result Text Text

-- The goroutines run one at a time here. The order in which they take the semaphore and the order
-- in which their results arrive are the scheduler's.
pub record Schedule : Type 0 where
  pub start : List Text → List Text
  pub arrive : List Outcome → List Outcome

module _ {S : Type 0} (resolve : Text → S → Result Text Text × S) where
  unfoldable pub run_workers : List Text → S → List Outcome × S
  run_workers [] s = ([], s)
  run_workers (did ∷ dids) s =
      let (r, s1) = resolve did s in let (rs, s2) = run_workers dids s1 in ((did, r) ∷ rs, s2)

-- the drain loop: the first error that arrived, or the keys
unfoldable pub drain : List Outcome → Result SignatureError Keys
drain [] = ok []
drain ((did, err m) ∷ rs) = err (plain (codes "resolve " ++ did ++ codes ": " ++ m))
drain ((did, ok key) ∷ rs) = do keys ← drain rs; ok ((did, key) ∷ keys)

module _ {S : Type 0} (resolve : Text → S → Result Text Text × S) (sched : Schedule) where
  unfoldable pub resolve_issuers : List Text → S → Result SignatureError Keys × S
  resolve_issuers dids s =
      let (rs, s') = run_workers resolve (sched.start (unique dids)) s in
      (drain (sched.arrive rs), s')

abbrev pub issuer_dids : Decoded → List Text
issuer_dids d = map (λ (l : Link). l.iss) (all_links d) ++ d.invocation.iss ∷ []
