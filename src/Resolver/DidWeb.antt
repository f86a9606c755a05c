-- ===== src/Resolver/DidWeb.antt =====
-- resolveDidWeb and isPrivateHost of drs-verify/pkg/resolver/did.go, for one circuit. The network and
-- the libraries are a parameter, with their answers during the call.
use drs.Prelude.{
  ℕ, ◌+◌, ◌^◌, Bool, true, false, List, [], ◌∷◌, ◌++◌, Option, none, some, eqb, ltb, if◌then◌else◌,
  length, take,
}
use drs.Prelude.Text.{Text, codes, strip_prefix}
use drs.Resolver.Address.{Ip, is_private_ip}
use drs.Resolver.Circuit.{Circuit, is_open, record_success, record_failure}
use drs.Resolver.DidKey.{
  Resolved, key, failed, crashed, circuit_open, url_unparsed, host_unresolved, private_host,
  request_unbuilt, fetch_failed, bad_status, document_unread, document_too_large,
}
use drs.Resolver.Document.{Method, of_document}

-- What a GET gives: no request, no response, or a status with the body, `none` where reading it
-- fails before the limit.
pub data Reply : Type 0 where
  unbuilt unreachable : Reply
  answered : ℕ → Option Text → Reply

pub record Network : Type 0 where
  -- url.Parse, then Hostname
  pub hostname : Text → Option Text
  -- the host that net.SplitHostPort finds
  pub split_host_port : Text → Option Text
  pub lookup_host : Text → Option (List Text)
  pub parse_ip : Text → Option Ip
  pub http_get : Text → Reply
  -- encoding/json on a document
  pub unmarshal_document : Text → Option (List Method)

-- Resolver's configuration
pub record Config : Type 0 where
  pub threshold : ℕ
  pub cooldown : ℕ
  pub allow_private_hosts : Bool

abbrev pub max_document : ℕ
max_document = 2 ^ 20

abbrev pub is_private_address : Option Ip → Bool
is_private_address none = false
is_private_address (some ip) = is_private_ip ip

-- the loop over the addresses
unfoldable pub any_private : Network → List Text → Bool
any_private net [] = false
any_private net (addr ∷ addrs) =
    let rest = any_private net addrs in
    if is_private_address (net.parse_ip addr) then true else rest

abbrev pub host_of : Option Text → Text → Text
host_of none host = host
host_of (some h) host = h

abbrev pub private_among : Network → Option (List Text) → Option Bool
private_among net none = none
private_among net (some addrs) = some (any_private net addrs)

-- isPrivateHost; `none` is its error
unfoldable pub is_private_host : Network → Text → Option Bool
is_private_host net host =
    private_among net (net.lookup_host (host_of (net.split_host_port host) host))

-- What becomes of the circuit.
pub data Effect : Type 0 where
  untouched counted cleared : Effect

abbrev pub settled : Resolved → Resolved × Effect
settled (key k) = (key k, cleared)
settled (failed e) = (failed e, counted)
settled crashed = (crashed, untouched)

abbrev pub read_body : Network → Option Text → Resolved × Effect
read_body net none = (failed document_unread, counted)
read_body net (some body) =
    if ltb max_document (length (take (max_document + 1) body))
    then (failed document_too_large, counted)
    else settled (of_document (net.unmarshal_document (take (max_document + 1) body)))

abbrev pub of_reply : Network → Reply → Resolved × Effect
of_reply net unbuilt = (failed request_unbuilt, counted)
of_reply net unreachable = (failed fetch_failed, counted)
of_reply net (answered status body) =
    if eqb status 200 then read_body net body else (failed bad_status, counted)

-- https becomes http where private hosts are allowed
abbrev pub fetch_url : Bool → Text → Text
fetch_url false url = url
fetch_url true url = elim (strip_prefix (codes "https://") url) [
  | none ↦ url
  | some rest ↦ codes "http://" ++ rest
]

unfoldable pub fetch : Network → Bool → Text → Resolved × Effect
fetch net allow url = of_reply net (net.http_get (fetch_url allow url))

abbrev pub fetch_unless : Network → Text → Option Bool → Resolved × Effect
fetch_unless net url none = (failed host_unresolved, counted)
fetch_unless net url (some true) = (failed private_host, untouched)
fetch_unless net url (some false) = fetch net false url

abbrev pub guarded_fetch : Network → Text → Option Text → Resolved × Effect
guarded_fetch net url none = (failed url_unparsed, counted)
guarded_fetch net url (some host) = fetch_unless net url (is_private_host net host)

unfoldable pub attempt : Network → Bool → Text → Resolved × Effect
attempt net true url = fetch net true url
attempt net false url = guarded_fetch net url (net.hostname url)

abbrev pub settle : Config → ℕ → Effect → Circuit → Circuit
settle config later untouched c = c
settle config later counted c = record_failure config.threshold config.cooldown later c
settle config later cleared c = record_success c

abbrev pub tried : Config → ℕ → Resolved × Effect → Circuit → Resolved × Circuit
tried config later (r, effect) c = (r, settle config later effect c)

-- resolveDidWeb once the URL is known; the circuit is tested at `now`, and a failure is recorded at
-- `later`.
unfoldable pub resolve_url : Config → Network → ℕ → ℕ → Text → Circuit → Resolved × Circuit
resolve_url config net now later url c =
    let (blocked, c1) = is_open now c in
    if blocked
    then (failed circuit_open, c1)
    else tried config later (attempt net config.allow_private_hosts url) c1
