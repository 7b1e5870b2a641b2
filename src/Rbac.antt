-- ===== src/Rbac.antt =====
-- internal/rbac: what a tenant may see.
pub mod Sanitize
