-- ===== src/Storage.antt =====
-- drs-verify/pkg/store, and the store of drs-verify/pkg/anchor.
pub mod Key
pub mod Filesystem
pub mod RoundTrip
pub mod Memory
pub mod Tier3
