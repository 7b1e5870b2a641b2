-- ===== src/Capture/Admission/Decision.antt =====
-- When internal/capture/admission/limits.go lets a capture start and go on.
use netobserv_spcg.Common.{ℕ, ◌-◌, ◌≤◌, ◌<◌, ◌≡◌, ◌↔◌, Bool, true, false, arith}
use netobserv_spcg.Capture.Admission.{
  Limits, admitted, validate_start, keep_capturing, should_stop_capture,
}

-- A capture may start exactly if fewer captures run than the limit, it selects no more pods than
-- the limit, and it uploads where the tier demands it; a limit of 0 is none.
pub validate_start_iff :
    (l : Limits) (pods active : ℕ) (s3_enabled : Bool)
    → (validate_start l pods active s3_enabled ≡ admitted) ↔ (
        (0 < l.max_concurrent_sessions → active < l.max_concurrent_sessions)
        × (0 < l.max_pods_per_session → pods ≤ l.max_pods_per_session)
        × (l.s3_offload_required ≡ true → s3_enabled ≡ true))
unfolding validate_start
validate_start_iff l pods active s3_enabled = ground arith

-- A running capture goes on exactly if it is not older than the limit and, unless it uploads, has
-- not more bytes than the limit; a limit of 0 is none.
pub should_stop_capture_iff :
    (l : Limits) (now created : ℕ) (s3_enabled : Bool) (total_bytes : ℕ)
    → (should_stop_capture l now created s3_enabled total_bytes ≡ keep_capturing) ↔ (
        (0 < l.max_capture_duration → now - created ≤ l.max_capture_duration)
        × (s3_enabled ≡ false → 0 < l.max_capture_bytes → total_bytes ≤ l.max_capture_bytes))
unfolding should_stop_capture
should_stop_capture_iff l now created s3_enabled total_bytes = ground arith
