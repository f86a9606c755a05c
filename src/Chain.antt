-- ===== src/Chain.antt =====
-- drs-verify/pkg/verify/chain.go.
pub mod Jwt
pub mod Structure
pub mod Signature
pub mod Semantic
pub mod Verify
mod Links
pub mod WellFormed
pub mod Commands
pub mod Authorised
pub mod InForce
pub mod Scalar
pub mod Signed
pub mod Context
pub mod Accepted
pub mod Resolved
