-- ===== src/Revocation.antt =====
-- drs-verify/pkg/revocation.
pub mod Status
pub mod Log
pub mod Local
pub mod File
pub mod Digits
pub mod Reload
pub mod Restart
pub mod Refined
pub mod Admin
pub mod Bits
pub mod FailClosed
pub mod Refreshing
pub mod Interleaved
pub mod Listed
pub mod Published
