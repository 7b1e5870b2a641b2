-- ===== src/Probe.antt =====
-- internal/trace/probe: live verification of the focused path by painted probe packets.
pub mod Correlator
pub mod Session
