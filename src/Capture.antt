-- ===== src/Capture.antt =====
-- internal/capture: the start of a capture.
pub mod Admission
