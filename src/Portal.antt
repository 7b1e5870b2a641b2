-- ===== src/Portal.antt =====
-- internal/portal: the registries that tie captures to authenticated sessions.
pub mod CaptureRegistry
pub mod TraceRegistry
