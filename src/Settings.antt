-- ===== src/Settings.antt =====
-- drs-verify/pkg/config and drs-verify/pkg/operator.
pub mod Parse
pub mod Load
pub mod Loaded
pub mod Operator
pub mod Validated
