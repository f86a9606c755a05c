-- ===== src/Resolver.antt =====
-- drs-verify/pkg/resolver/did.go.
pub mod Base58
pub mod Digits
pub mod Runes
pub mod DidKey
pub mod WebUrl
pub mod Address
pub mod Circuit
pub mod Document
pub mod DocumentKeys
pub mod DidWeb
pub mod Hosts
pub mod Replies
pub mod DidWebKeys
pub mod Resolve
pub mod Dial
pub mod Create
pub mod Cached
pub mod Flight
pub mod InFlight
pub mod Waiting
pub mod Remembered
pub mod Concurrent
