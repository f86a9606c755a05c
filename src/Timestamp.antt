-- ===== src/Timestamp.antt =====
-- drs-verify/pkg/anchor/rfc3161.go.
pub mod Token
pub mod Values
pub mod Signer
pub mod Named
pub mod Chosen
pub mod Attributes
pub mod Binding
pub mod Signature
pub mod Verify
pub mod Signed
pub mod Opened
pub mod Trusted
pub mod Client
pub mod Answered
pub mod Receipts
