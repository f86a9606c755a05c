-- ===== src/Tests/Resolvers.antt =====
-- The DID resolver of drs-verify on small inputs.
use drs.Prelude.{
  suc, ◌+◌, ◌≤◌, ◌<◌, arith, ◌≡◌, ◌≢◌, ◌↔◌, refl, Bool, true, false, [], ◌∷◌, ◌++◌, none, some,
  Option, if◌then◌else◌, All, any_of, Bool-cases, inl, inr,
}
use drs.Prelude.Percent.{path_unescape}
use drs.Prelude.Text.{
  Text, codes, ◌==◌, ==_iff, ==-refl, is_padded, starts_blank, ends_blank, is_blank, blank_from,
  space_step, split, split_from,
}
use drs.Policy.Uri.{join_slash}
use drs.Resolver.Base58.{bytes, panicked, invalid_character, base58_decode, digit}
use drs.Resolver.Digits.{
  Spells, nil, cons, value, number_from, zeros, leading_ones, IsByte, IsMinimal,
  base58_decode-Spells,
}
use drs.Resolver.Runes.{utf8, base58_decode_panics}
use drs.Resolver.DidKey.{key, IsEd25519, did_key_prefix, resolve_did_key, resolve_did_key_iff}
use drs.Resolver.Address.{v4, is_private_ip}
use drs.Resolver.Circuit.{Circuit, closed, tested, failed, is_open, step, run, streak, is_open_iff}
use drs.Resolver.Document.{Method, extract}
use drs.Resolver.DocumentKeys.{FirstKey, extract_iff}
use drs.Resolver.WebUrl.{
  did_web_document_url, IsDocumentUrl, did_web_document_url_sound, cut_colon, is_domain,
  contains_any, are_segments, is_segment,
}
use drs.Resolver.DidWeb.{Network, Config, answered, resolve_url}
use drs.Resolver.DidWebKeys.{IsAnswered, resolve_url_iff}
use drs.Resolver.Dial.{Dialer, target, safe_dial, dial_first, safe_dial_public}
use drs.Prelude.Lru.{Lru, IsLru}
use drs.Resolver.Resolve.{Entry, Clock, Resolver, resolve}
use drs.Resolver.Cached.{IsDidKey, IsTrue, resolve_sound}

abbrev public_key : Text
public_key =
    46 ∷ 111 ∷ 204 ∷ 227 ∷ 103 ∷ 1 ∷ 220 ∷ 121 ∷ 20 ∷ 136 ∷ 224 ∷ 208 ∷ 177 ∷ 116 ∷ 92 ∷ 193 ∷ 227
    ∷ 58 ∷ 76 ∷ 28 ∷ 159 ∷ 204 ∷ 65 ∷ 198 ∷ 59 ∷ 211 ∷ 67 ∷ 219 ∷ 190 ∷ 9 ∷ 112 ∷ 230 ∷ []

abbrev encoded : Text
encoded = codes "6MkhaXgBZDvotDkL5257faiztiGiC2QtKLGpbnnEGta2doK"

abbrev pub did : Text
did = codes "did:key:z6MkhaXgBZDvotDkL5257faiztiGiC2QtKLGpbnnEGta2doK"

resolve_did_key_iff_example :
    (resolve_did_key did ≡ key public_key)
    ↔ ((e : Text) × (did ≡ did_key_prefix ++ e) × IsEd25519 e public_key)
resolve_did_key_iff_example = resolve_did_key_iff did public_key

two_one : Spells (codes "121") (0 ∷ 1 ∷ 0 ∷ [])
unfolding digit
two_one = cons refl (cons refl (cons refl nil))

base58_decode-Spells_example :
    (low : Text) × (base58_decode (codes "121") ≡ bytes (zeros (leading_ones (codes "121")) ++ low))
    × (value low ≡ number_from 0 (0 ∷ 1 ∷ 0 ∷ []))
    × All IsByte low
    × IsMinimal low
base58_decode-Spells_example = base58_decode-Spells (codes "121") (0 ∷ 1 ∷ 0 ∷ []) two_one

-- the euro sign
base58_decode_panics_example :
    (0x100 ≤ 0x20ac → base58_decode (codes "121" ++ (utf8 0x20ac ++ [])) ≡ panicked)
    × (0x20ac < 0x100 → base58_decode (codes "121" ++ (utf8 0x20ac ++ [])) ≡ invalid_character)
base58_decode_panics_example =
    base58_decode_panics (codes "121") (0 ∷ 1 ∷ 0 ∷ []) 0x20ac [] two_one (omega arith)
      (omega arith)

abbrev web_url : Text
web_url = codes "https://example.com/users/alice/did.json"

url_run : did_web_document_url (codes "example.com:users:alice") ≡ some web_url
unfolding did_web_document_url cut_colon path_unescape is_domain contains_any any_of is_padded
    starts_blank ends_blank is_blank blank_from space_step are_segments is_segment ◌==◌ split
    split_from join_slash
url_run = refl

did_web_document_url_sound_example : IsDocumentUrl web_url
did_web_document_url_sound_example =
    did_web_document_url_sound (codes "example.com:users:alice") web_url url_run

is_open_iff_example :
    ((is_open 55 (step 2 60 (failed 20) (run 2 60 (failed 5 ∷ tested 7 ∷ []) closed))).0 ≡ true)
    ↔ ((2 ≤ suc (streak 2 60 0 (failed 5 ∷ tested 7 ∷ []))) × (55 ≤ 20 + 60))
is_open_iff_example = is_open_iff 2 60 (failed 5 ∷ tested 7 ∷ []) 20 55

abbrev signing : Method
signing = record {
  type_name = codes "JsonWebKey2020";
  public_key_multibase = [];
  public_key_jwk = some (record {
    kty = codes "OKP";
    crv = codes "Ed25519";
    x = codes "AAAAAAAAAAAAAAAAAAAAAAAAAAAAAAAAAAAAAAAAAAA";
  });
}

extract_iff_example : (extract (signing ∷ []) ≡ key public_key) ↔ FirstKey (signing ∷ []) public_key
extract_iff_example = extract_iff (signing ∷ []) public_key

abbrev net : Network
net = record {
  hostname = λ url. some (codes "example.com");
  split_host_port = λ host. none;
  lookup_host = λ host. some (codes "93.184.216.34" ∷ []);
  parse_ip = λ text. some (v4 1572395042);
  http_get = λ url. answered 200 (some []);
  unmarshal_document = λ body. some (signing ∷ []);
}

abbrev config : Config
config = record { threshold = 5; cooldown = 60; allow_private_hosts = false }

resolve_url_iff_example :
    ((resolve_url config net 10 11 web_url closed).0 ≡ key public_key)
    ↔ (((is_open 10 closed).0 ≡ false) × IsAnswered net web_url public_key)
resolve_url_iff_example = resolve_url_iff config net 10 11 web_url closed public_key refl

abbrev dialer : Dialer
dialer = record {
  split_host_port = λ addr. some (codes "example.com", codes "443");
  parse_ip = λ host. none;
  lookup_ip = λ host. some (v4 1572395042 ∷ []);
}

dial_run : target (safe_dial dialer false (codes "example.com:443")) ≡ some (v4 1572395042)
unfolding safe_dial dial_first any_of is_private_ip
dial_run = refl

safe_dial_public_example : is_private_ip (v4 1572395042) ≡ false
safe_dial_public_example =
    safe_dial_public dialer (codes "example.com:443") (v4 1572395042) dial_run

-- A cache that forgets nothing.
abbrev pub memo : {V : Type 0} → Lru V (Text → Option V)
memo = record {
  get = λ k s. (s k, s);
  add = λ k v s j. if j == k then some v else s j;
  remove = λ k s j. if j == k then none else s j;
}

apart : (j k : Text) → j ≢ k → (j == k) ≡ false
apart j k other = elim (Bool-cases (j == k)) [
  | inl same ↦ absurd (other ((==_iff j k).0 same))
  | inr different ↦ different
]

removed_keeps :
    (b : Bool) (o : Option Entry) (w : Entry) → (if b then none else o) ≡ some w → o ≡ some w
removed_keeps true o w h = cc
removed_keeps false o w h = h

pub memo-IsLru : IsLru {V = Entry} memo
memo-IsLru = record {
  get_keeps = λ j k s. refl;
  added = λ k v s. rw (==-refl k) refl;
  add_keeps = λ j k v w s other found. rw (apart j k other) at found;
  removed = λ k s. rw (==-refl k) refl;
  remove_keeps = λ j k w s found. removed_keeps (j == k) (s j) w found;
}

abbrev clock : Clock
clock = record { started = 1; tested = 2; faulted = 3; finished = 4 }

abbrev blank : Resolver (Text → Option Entry) (Text → Option Circuit)
blank = record { cache = λ k. none; circuits = λ k. none }

blank-IsTrue : IsTrue memo memo blank.cache
blank-IsTrue did' e is_key found = cc found

resolve_sound_example :
    IsTrue memo memo (resolve memo memo 300 config net clock did blank).1.cache
    × (IsDidKey did → (resolve memo memo 300 config net clock did blank).0 ≡ resolve_did_key did)
resolve_sound_example =
    resolve_sound memo memo memo-IsLru 300 config net clock did blank blank-IsTrue
