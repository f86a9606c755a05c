-- ===== src/Chain/Jwt.antt =====
-- How drs-verify/pkg/verify/chain.go takes a JWT apart: computeChainHash, decodeJWTHeader and
-- decodeJWTPayload. SHA-256, Ed25519, encoding/json and the wording of three library messages are
-- an environment; strings.SplitN, RawURLEncoding and the hexadecimal form are written out.
use Prim.Native.Nat.{min}
use mathlib.Core.Option
use drs.Prelude.{
  ◌≡◌, refl, length, ℕ, ◌+◌, ◌-◌, ◌*◌, ◌/◌, ◌%◌, Bool, ◌&&◌, ◌||◌, List, [], ◌∷◌, ◌++◌, Option,
  none, some, eqb, ltb, leb, if◌then◌else◌, Result, ok, err,
}
use drs.Prelude.Text.{Text, codes, split}
use drs.Types.{Value, DelegationReceipt, InvocationReceipt, ChainBundle}

-- What the program calls and does not implement. `unmarshal_header` has the decoder's message or
-- the "alg" field; the other decoders have `none` for an error.
pub record Env : Type 0 where
  pub sha256 : Text → Text
  pub ed25519_verify : Text → Text → Text → Bool
  pub unmarshal_header : Text → Result Text Text
  pub unmarshal_receipt : Text → Option DelegationReceipt
  pub unmarshal_invocation : Text → Option InvocationReceipt
  pub unmarshal_bundle : Text → Option ChainBundle
  pub unmarshal_jti : Text → Option Text
  pub unmarshal_args : Text → Option Value
  pub base64_message : Text → Text
  pub quote : Text → Text
  pub decimal : ℕ → Text

-- the URL-safe alphabet
unfoldable pub b64_value : ℕ → Option ℕ
b64_value c =
    if leb b'A' c && leb c b'Z'
    then some (c - b'A')
    else if leb b'a' c && leb c b'z'
    then some (c - b'a' + 26)
    else if leb b'0' c && leb c b'9'
    then some (c - b'0' + 52)
    else if eqb c b'-'
    then some 62
    else if eqb c b'_'
    then some 63
    else none

-- The decoder skips line ends.
drop_newlines : Text → Text
drop_newlines [] = []
drop_newlines (c ∷ s) =
    let rest = drop_newlines s in if eqb c 10 || eqb c 13 then rest else c ∷ rest

sextets : Text → Option (List ℕ)
unfolding b64_value
sextets [] = some []
sextets (c ∷ s) = elim (b64_value c) [
  | none ↦ none
  | some v ↦ Option.map (λ vs. v ∷ vs) (sextets s)
]

-- Four sextets are three bytes; a rest of two or three is one or two, and a rest of one an error.
bytes_of : List ℕ → Option Text
bytes_of [] = some []
bytes_of (a ∷ []) = none
bytes_of (a ∷ b ∷ []) = some ((a * 4 + b / 16) ∷ [])
bytes_of (a ∷ b ∷ c ∷ []) = some ((a * 4 + b / 16) ∷ (b % 16 * 16 + c / 4) ∷ [])
bytes_of (a ∷ b ∷ c ∷ d ∷ s) =
    Option.map (λ t. (a * 4 + b / 16) ∷ (b % 16 * 16 + c / 4) ∷ (c % 4 * 64 + d) ∷ t) (bytes_of s)

-- base64.RawURLEncoding.DecodeString
unfoldable pub base64_decode : Text → Option Text
unfolding drop_newlines sextets bytes_of
base64_decode s = elim (sextets (drop_newlines s)) [ none ↦ none | some vs ↦ bytes_of vs ]

pub record Parts : Type 0 where
  pub header : Text
  pub payload : Text
  pub signature : Text

abbrev three_parts : List Text → Option Parts
three_parts (h ∷ p ∷ s ∷ []) = some (record { header = h; payload = p; signature = s })
three_parts _ = none

-- strings.SplitN(jwt, ".", 4) with the test that there are three parts
unfoldable pub jwt_parts : Text → Option Parts
jwt_parts jwt = three_parts (split b'.' jwt)

unfoldable pub hex_digit : ℕ → ℕ
hex_digit v = if ltb v 10 then v + b'0' else v - 10 + b'a'

-- the verb %x
unfoldable pub hex_encode : Text → Text
unfolding hex_digit
hex_encode [] = []
hex_encode (b ∷ s) = hex_digit (b / 16) ∷ hex_digit (b % 16) ∷ hex_encode s

module _ (env : Env) where
  unfoldable pub compute_chain_hash : Text → Text
  compute_chain_hash jwt = codes "sha256:" ++ hex_encode (env.sha256 jwt)

  -- the payload's bytes
  unfoldable pub jwt_payload : Text → Option Text
  jwt_payload jwt = elim (jwt_parts jwt) [ none ↦ none | some p ↦ base64_decode p.payload ]

  -- decodeJWTPayload, into each of the types that it is called with
  unfoldable pub decode_receipt : Text → Option DelegationReceipt
  decode_receipt jwt = Option.bind (jwt_payload jwt) env.unmarshal_receipt

  unfoldable pub decode_invocation : Text → Option InvocationReceipt
  decode_invocation jwt = Option.bind (jwt_payload jwt) env.unmarshal_invocation

  -- decodeJWTHeader, with the error's text
  unfoldable pub decode_header : Text → Result Text Text
  decode_header jwt = elim (jwt_parts jwt) [
    | none ↦ err (
        codes "expected 3 dot-separated JWT parts, got "
        ++ env.decimal (min 4 (length (split b'.' jwt))))
    | some p ↦ elim (base64_decode p.header) [
      | none ↦ err (codes "JWT header base64 decode: " ++ env.base64_message p.header)
      | some bytes ↦ elim (env.unmarshal_header bytes) [
        | err m ↦ err (codes "JWT header JSON unmarshal: " ++ m)
        | ok alg ↦ ok alg
      ]
    ]
  ]

base64_runs : base64_decode (codes "aGk_\nIQ") ≡ some (codes "hi?!")
unfolding base64_decode b64_value
base64_runs = refl

hex_runs : hex_encode (0xed ∷ 0x05 ∷ []) ≡ codes "ed05"
unfolding hex_encode
hex_runs = refl
