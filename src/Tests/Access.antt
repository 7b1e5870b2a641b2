-- ===== src/Tests/Access.antt =====
-- internal/auth/session.go and internal/capture/admission/limits.go on concrete sessions and limits.
use netobserv_spcg.Common.{◌-◌, ◌≤◌, ◌<◌, ◌≡◌, ◌↔◌, refl, true, false, some, none}
use netobserv_spcg.Auth.Store.{UserSession, Store, new_store, create_bearer, get_session}
use netobserv_spcg.Auth.Store.Expiry.{get_session-create_bearer}
use netobserv_spcg.Capture.Admission.{
  Limits, admitted, validate_start, keep_capturing, should_stop_capture,
}
use netobserv_spcg.Capture.Admission.Decision.{validate_start_iff, should_stop_capture_iff}

abbrev short_lived : Store
short_lived = new_store 60

get_session-create_bearer_example :
    (sess : UserSession) × ((create_bearer "token" "s1" 100 short_lived).0 ≡ some sess)
    × (sess.bearer ≡ "token")
    × (150 - 100 ≤ short_lived.ttl
        → get_session "s1" 150 (create_bearer "token" "s1" 100 short_lived).1
          ≡ (some sess, (create_bearer "token" "s1" 100 short_lived).1))
    × (short_lived.ttl < 150 - 100
        → ((get_session "s1" 150 (create_bearer "token" "s1" 100 short_lived).1).0 ≡ none)
          × ((get_session "s1" 300
                (get_session "s1" 150 (create_bearer "token" "s1" 100 short_lived).1).1).0
              ≡ none))
get_session-create_bearer_example =
    get_session-create_bearer "token" "s1" 100 150 300 short_lived refl

abbrev small_tier : Limits
small_tier = record {
  max_concurrent_sessions = 2;
  max_pods_per_session = 10;
  max_capture_duration = 900;
  max_capture_bytes = 104857600;
  s3_offload_required = false;
}

validate_start_iff_example :
    (validate_start small_tier 11 1 false ≡ admitted)
    ↔ ((0 < 2 → 1 < 2) × (0 < 10 → 11 ≤ 10) × (false ≡ true → false ≡ true))
validate_start_iff_example = validate_start_iff small_tier 11 1 false

should_stop_capture_iff_example :
    (should_stop_capture small_tier 1000 200 false 5000 ≡ keep_capturing)
    ↔ ((0 < 900 → 1000 - 200 ≤ 900) × (false ≡ false → 0 < 104857600 → 5000 ≤ 104857600))
should_stop_capture_iff_example = should_stop_capture_iff small_tier 1000 200 false 5000
