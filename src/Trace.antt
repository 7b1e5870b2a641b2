-- ===== src/Trace.antt =====
-- internal/trace: the path graph of a trace and its reduction to the focused path.
pub mod Types
pub mod FocusPath
pub mod Simplify
pub mod Track
pub mod Layout
pub mod Builder
