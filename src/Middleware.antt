-- ===== src/Middleware.antt =====
-- The HTTP middleware that guards a tool server: drs-verify/pkg/middleware.
pub mod RateLimit
pub mod Limited
pub mod Decode
pub mod Binding
pub mod Mcp
pub mod Claimed
pub mod Guarded
