-- ===== src/Resolver/Dial.antt =====
-- safeDialContext of drs-verify/pkg/resolver/did.go. The libraries are a parameter.
use drs.Prelude.{
  Bool, false, not, ◌&&◌, List, [], ◌∷◌, Option, none, some, if◌then◌else◌, any_of, ◌≡◌, inl, inr,
  Bool-cases, Option-cases, sym,
}
use mathlib.Core.Option.{some-injective}
use drs.Prelude.Text.{Text}
use drs.Resolver.Address.{Ip, is_private_ip}

pub record Dialer : Type 0 where
  -- net.SplitHostPort
  pub split_host_port : Text → Option (Text × Text)
  pub parse_ip : Text → Option Ip
  -- LookupIPAddr
  pub lookup_ip : Text → Option (List Ip)

-- What is dialled: the literal address of `addr`, or an address that was looked up, with the port.
pub data Dialled : Type 0 where
  refused : Dialled
  literal : Ip → Text → Dialled
  resolved : Ip → Text → Dialled

unfoldable pub dial_first : Bool → List Ip → Text → Dialled
dial_first allow [] port = refused
dial_first allow (ip ∷ ips) port =
    if any_of (λ i. not allow && is_private_ip i) (ip ∷ ips) then refused else resolved ip port

abbrev pub dial_resolved : Bool → Option (List Ip) → Text → Dialled
dial_resolved allow none port = refused
dial_resolved allow (some ips) port = dial_first allow ips port

abbrev pub dial_literal : Bool → Ip → Text → Dialled
dial_literal allow ip addr = if not allow && is_private_ip ip then refused else literal ip addr

abbrev pub dial_host : Dialer → Bool → Text → Option Ip → Text → Text → Dialled
dial_host net allow addr (some ip) host port = dial_literal allow ip addr
dial_host net allow addr none host port = dial_resolved allow (net.lookup_ip host) port

abbrev pub dial_parts : Dialer → Bool → Text → Option (Text × Text) → Dialled
dial_parts net allow addr none = refused
dial_parts net allow addr (some (host, port)) =
    dial_host net allow addr (net.parse_ip host) host port

unfoldable pub safe_dial : Dialer → Bool → Text → Dialled
safe_dial net allow addr = dial_parts net allow addr (net.split_host_port addr)

-- The address dialled.
abbrev pub target : Dialled → Option Ip
target refused = none
target (literal ip addr) = some ip
target (resolved ip port) = some ip

dial_literal_public :
    (i : Ip) (addr : Text) (ip : Ip)
    → target (dial_literal false i addr) ≡ some ip
    → is_private_ip ip ≡ false
dial_literal_public i addr ip h = elim (Bool-cases (is_private_ip i)) [
  | inl blocked ↦ cc (rw (blocked, target) at h)
  | inr public ↦
      let same : i ≡ ip = some-injective _ _ (rw (public, target) at h) in rw (sym same) public
]

dial_first_public :
    (ips : List Ip) (port : Text) (ip : Ip)
    → target (dial_first false ips port) ≡ some ip
    → is_private_ip ip ≡ false
unfolding dial_first any_of
dial_first_public [] port ip h = cc
dial_first_public (i ∷ ips) port ip h = elim (Bool-cases (is_private_ip i)) [
  | inl blocked ↦ cc (rw (blocked, dial_first) at h)
  | inr public ↦ elim (Bool-cases (any_of (λ j. is_private_ip j) ips)) [
    | inl blocked ↦ cc (rw (public, blocked, dial_first) at h)
    | inr clean ↦
        let same : i ≡ ip = some-injective _ _ (rw (public, clean, dial_first) at h) in
        rw (sym same) public
  ]
]

dial_resolved_public :
    (o : Option (List Ip)) (port : Text) (ip : Ip)
    → target (dial_resolved false o port) ≡ some ip
    → is_private_ip ip ≡ false
dial_resolved_public none port ip h = cc
dial_resolved_public (some ips) port ip h = dial_first_public ips port ip h

-- Where private hosts are not allowed, no connection is made to a blocked address, whatever the
-- address given and whatever the names resolve to.
pub safe_dial_public :
    (net : Dialer) (addr : Text) (ip : Ip)
    → target (safe_dial net false addr) ≡ some ip
    → is_private_ip ip ≡ false
unfolding safe_dial
safe_dial_public net addr ip h = elim (Option-cases (net.split_host_port addr)) [
  | inl bad ↦ cc (rw (bad, safe_dial) at h)
  | inr ((host, port), parts) ↦ elim (Option-cases (net.parse_ip host)) [
    | inr (literal_ip, e) ↦ dial_literal_public literal_ip addr ip (rw (parts, safe_dial, e) at h)
    | inl name ↦
        dial_resolved_public (net.lookup_ip host) port ip (rw (parts, safe_dial, name) at h)
  ]
]
