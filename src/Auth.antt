-- ===== src/Auth.antt =====
-- internal/auth: the sessions of signed-in users.
pub mod Store
