-- ===== src/Policy.antt =====
-- drs-verify/pkg/policy/evaluate.go: the modules below define it, and their children prove.
pub mod Uri
pub mod Evaluate
pub mod Attenuate
pub mod Lists
pub mod Permits
pub mod Narrowing
pub mod Segments
