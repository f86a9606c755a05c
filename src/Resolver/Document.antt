-- ===== src/Resolver/Document.antt =====
-- extractEd25519FromDIDDocument of drs-verify/pkg/resolver/did.go, on the methods that
-- encoding/json reads from a document.
use drs.Prelude.{not, ◌&&◌, List, [], ◌∷◌, Option, none, some, eqb, if◌then◌else◌, length}
use drs.Prelude.Text.{Text, codes, ◌==◌, is_empty}
use drs.Chain.Jwt.{base64_decode}
use drs.Resolver.Base58.{Decoded, bytes, invalid_character, panicked, base58_decode}
use drs.Resolver.DidKey.{
  Resolved, key, failed, crashed, no_key, document_unparsed, decoded_len, ed25519_bytes,
}

-- jwkKey
pub record Jwk : Type 0 where
  pub kty : Text
  pub crv : Text
  pub x : Text

-- verificationMethod
pub record Method : Type 0 where
  pub type_name : Text
  pub public_key_multibase : Text
  pub public_key_jwk : Option Jwk

-- What one round of the loop does: it goes on, returns a key, or panics in base58Decode.
pub data Round : Type 0 where
  next : Round
  found : Text → Round
  panic : Round

abbrev pub found_or_next : Option Text → Round
found_or_next none = next
found_or_next (some k) = found k

abbrev pub of_multibase : Decoded → Round
of_multibase invalid_character = next
of_multibase panicked = panic
of_multibase (bytes decoded) =
    if eqb (length decoded) decoded_len then found_or_next (ed25519_bytes decoded) else next

abbrev pub of_x : Option Text → Round
of_x none = next
of_x (some raw) = if eqb (length raw) 32 then found raw else next

unfoldable pub jwk_round : Option Jwk → Round
jwk_round none = next
jwk_round (some jwk) =
    if jwk.kty == codes "OKP" && jwk.crv == codes "Ed25519" && not (is_empty jwk.x)
    then of_x (base64_decode jwk.x)
    else next

abbrev pub multibase_round : Text → Option Jwk → Round
multibase_round [] jwk = jwk_round jwk
multibase_round (c ∷ encoded) jwk =
    if eqb c b'z' then of_multibase (base58_decode encoded) else jwk_round jwk

-- the body of the loop; the multibase key, where there is one, decides
unfoldable pub method_round : Method → Round
method_round vm = multibase_round vm.public_key_multibase vm.public_key_jwk

unfoldable pub extract : List Method → Resolved
extract [] = failed no_key
extract (vm ∷ vms) = elim (method_round vm) [
  | next ↦ extract vms
  | found k ↦ key k
  | panic ↦ crashed
]

abbrev pub of_document : Option (List Method) → Resolved
of_document none = failed document_unparsed
of_document (some vms) = extract vms
