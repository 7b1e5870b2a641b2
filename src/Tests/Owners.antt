-- ===== src/Tests/Owners.antt =====
-- internal/portal/capture_registry.go with the captures of two sessions, and trace_registry.go with
-- a trace to which a capture is linked.
use netobserv_spcg.Common.{
  ◌≡◌, ◌≢◌, refl, String, String-discrete, str_ne, List, [], ◌∷◌, Option, some,
}
use netobserv_spcg.Common.Maps.{Map, lookup}
use netobserv_spcg.Common.{ℕ, none}
use netobserv_spcg.Portal.TraceRegistry.{
  TraceSession, TraceRegistry, link_trace_capture, purge_trace_sessions, get_trace_session,
}
use netobserv_spcg.Portal.TraceRegistry.Cancel.{
  Op, link, stop, delete, run_all, IsAccounted, link_trace_capture-IsAccounted,
  purge_trace_sessions_drops,
}
use netobserv_spcg.Portal.CaptureRegistry.{IdSet, Registry, purge_capture_sessions}
use netobserv_spcg.Portal.CaptureRegistry.Ownership.{IsGone, purge-IsGone, purge_keeps}

abbrev ids : IdSet
ids = ("c1", tt) ∷ ("c2", tt) ∷ []

abbrev shared : Registry
shared = record {
  capture_owners = ("c1", "alice") ∷ ("c2", "bob") ∷ [];
  active_streams = ids;
  pcap_sessions = ids;
  scrubbers = ids;
  chat_hist = [];
  ai_sessions = ("c1", tt) ∷ [];
}

purge-IsGone_example : IsGone "c1" (purge_capture_sessions "alice" shared).0
unfolding lookup String-discrete netobserv_spcg.Common.Bool-cases
purge-IsGone_example = purge-IsGone "alice" "c1" shared refl refl

purge_keeps_example :
    (lookup String-discrete "c2" (purge_capture_sessions "alice" shared).0.capture_owners
      ≡ some "bob")
    × (lookup String-discrete "c2" (purge_capture_sessions "alice" shared).0.active_streams
        ≡ lookup String-discrete "c2" shared.active_streams)
    × (lookup String-discrete "c2" (purge_capture_sessions "alice" shared).0.pcap_sessions
        ≡ lookup String-discrete "c2" shared.pcap_sessions)
unfolding lookup netobserv_spcg.Common.Maps.contains String-discrete
    netobserv_spcg.Common.Bool-cases
purge_keeps_example =
    purge_keeps "alice" "bob" "c2" shared (refl, (refl, tt)) (str_ne "bob" "alice" refl) refl

abbrev trace_of : String → Option ℕ → TraceSession String String
trace_of owner cancel = record {
  auth_session_id = owner;
  response = "";
  sigma_graph = none;
  capture_session_id = "c1";
  capture_cancel = cancel;
  created_at = 0;
}

abbrev traced : TraceRegistry String String
traced = record { trace_owners = ("t1", trace_of "alice" (some 7)) ∷ []; cancelled = [] }

abbrev later_calls : List Op
later_calls = link "t1" "c3" (some 9) ∷ stop "t1" ∷ delete "t1" ∷ []

link_trace_capture-IsAccounted_example :
    IsAccounted 8 (run_all later_calls (link_trace_capture "t1" "c2" (some 8) traced))
link_trace_capture-IsAccounted_example =
    link_trace_capture-IsAccounted 8 "t1" "c2" later_calls traced refl

purge_trace_sessions_drops_example :
    (get_trace_session "t1" (purge_trace_sessions "alice" traced) ≡ none)
    × ((purge_trace_sessions "alice" traced).cancelled ≡ traced.cancelled)
unfolding lookup String-discrete netobserv_spcg.Common.Bool-cases
purge_trace_sessions_drops_example =
    purge_trace_sessions_drops "alice" "t1" (trace_of "alice" (some 7)) traced refl refl refl
