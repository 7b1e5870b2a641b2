-- ===== src/Capture/Admission.antt =====
-- internal/capture/admission/limits.go: the limits of a tier. `envInt` and `envDuration` let no
-- negative limit through, so a limit is a natural number, and 0 is no limit. An error is a
-- constructor with the numbers that its message prints.
pub mod Decision
use netobserv_spcg.Common.{ℕ, ◌-◌, Bool, true, false, not, ◌&&◌, ltb, leb, if◌then◌else◌}

pub record Limits : Type 0 where
  pub max_concurrent_sessions : ℕ
  pub max_pods_per_session : ℕ
  pub max_capture_duration : ℕ
  pub max_capture_bytes : ℕ
  pub s3_offload_required : Bool

pub data StartResult : Type 0 where
  admitted : StartResult
  too_many_sessions : ℕ → StartResult
  too_many_pods : ℕ → ℕ → StartResult
  s3_required : StartResult

-- `ValidateStart`.
unfoldable pub validate_start : Limits → ℕ → ℕ → Bool → StartResult
validate_start l pods active s3_enabled =
    if ltb 0 l.max_concurrent_sessions && leb l.max_concurrent_sessions active
    then too_many_sessions l.max_concurrent_sessions
    else if ltb 0 l.max_pods_per_session && ltb l.max_pods_per_session pods
    then too_many_pods pods l.max_pods_per_session
    else if l.s3_offload_required && not s3_enabled
    then s3_required
    else admitted

pub data StopResult : Type 0 where
  keep_capturing : StopResult
  over_duration over_bytes : ℕ → StopResult

-- `ShouldStopCapture` of a session with its time of creation, its uploader state and its bytes.
unfoldable pub should_stop_capture : Limits → ℕ → ℕ → Bool → ℕ → StopResult
should_stop_capture l now created s3_enabled total_bytes =
    if ltb 0 l.max_capture_duration && ltb l.max_capture_duration (now - created)
    then over_duration l.max_capture_duration
    else if not s3_enabled && (ltb 0 l.max_capture_bytes && ltb l.max_capture_bytes total_bytes)
    then over_bytes l.max_capture_bytes
    else keep_capturing
