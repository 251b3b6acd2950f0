-- ===== src/Sidecar.antt =====
-- src/mom_bot/sidecar: the HTTP endpoints for the siege site.
pub mod RoleSync
pub mod Auth
pub mod Endpoints
