-- ===== src/Registry.antt =====
-- The registry of remote imports (internal/registry).
pub mod Ranges
pub mod Semver
