-- ===== src/Resolver/Hosts.antt =====
-- Which hosts isPrivateHost of drs-verify/pkg/resolver/did.go lets through.
use drs.Prelude.{
  false, List, [], ◌∷◌, Option, none, some, All, ◌≡◌, ◌↔◌, inl, inr, refl, ap, sym, Bool-cases,
}
use mathlib.Core.Option.{some-injective}
use drs.Prelude.Text.{Text}
use drs.Resolver.Address.{Ip, is_private_ip}
use drs.Resolver.DidWeb.{
  Network, any_private, host_of, private_among, is_private_host, is_private_address,
}

-- No address of the host is in a blocked range.
abbrev pub IsPublic : Network → Text → Type 0
IsPublic net host =
    (addrs : List Text) × (net.lookup_host (host_of (net.split_host_port host) host) ≡ some addrs)
    × All (λ a. (ip : Ip) → net.parse_ip a ≡ some ip → is_private_ip ip ≡ false) addrs

address_iff :
    (o : Option Ip)
    → (is_private_address o ≡ false) ↔ ((ip : Ip) → o ≡ some ip → is_private_ip ip ≡ false)
address_iff none = (λ h ip e. cc, λ h. refl)
address_iff (some ip) = (λ h ip' e. rw (sym (some-injective _ _ e)) h, λ h. h ip refl)

any_private_iff :
    (net : Network) (addrs : List Text)
    → (any_private net addrs ≡ false)
      ↔ All (λ a. (ip : Ip) → net.parse_ip a ≡ some ip → is_private_ip ip ≡ false) addrs
unfolding any_private
any_private_iff net [] = (λ h. tt, λ h. refl)
any_private_iff net (a ∷ addrs) = elim (Bool-cases (is_private_address (net.parse_ip a))) [
  | inl hit ↦ rw hit (λ h. cc, λ h. cc (hit, (address_iff (net.parse_ip a)).1 h.0))
  | inr miss ↦ rw miss (
    λ h. ((address_iff (net.parse_ip a)).0 miss, (any_private_iff net addrs).0 h),
    λ h. (any_private_iff net addrs).1 h.1,
  )
]

private_among_iff :
    (net : Network) (o : Option (List Text))
    → (private_among net o ≡ some false) ↔ (
        (addrs : List Text) × (o ≡ some addrs)
        × All (λ a. (ip : Ip) → net.parse_ip a ≡ some ip → is_private_ip ip ≡ false) addrs)
private_among_iff net none = (λ h. cc, λ (addrs, e, public). cc)
private_among_iff net (some addrs) = (
  λ h. (addrs, refl, (any_private_iff net addrs).0 (some-injective _ _ h)),
  λ (addrs', e, public). ap some ((any_private_iff net addrs).1 (rw (some-injective _ _ e) public)),
)

pub is_private_host_iff :
    (net : Network) (host : Text) → (is_private_host net host ≡ some false) ↔ IsPublic net host
unfolding is_private_host
is_private_host_iff net host = private_among_iff net _
