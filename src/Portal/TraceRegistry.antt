-- ===== src/Portal/TraceRegistry.antt =====
-- internal/portal/trace_registry.go: which session owns a trace, and the capture linked to it. A
-- cancel function is a number, and calling it adds the number to `cancelled`. The discovered path
-- and its drawing are held and never read here.
pub mod Cancel
use netobserv_spcg.Common.{
  ℕ, String, String-discrete, str_eq, is_empty, Bool, true, false, ◌&&◌, ◌||◌, List, [], ◌∷◌,
  Option, some, none, if◌then◌else◌,
}
use netobserv_spcg.Common.Maps.{Map, lookup, insert, erase}
use netobserv_spcg.Common.Maps.Erase.{keys_where, erase_all}

pub record TraceSession (Response Sigma : Type 0) : Type 0 where
  pub auth_session_id : String
  pub response : Response
  pub sigma_graph : Option Sigma
  pub capture_session_id : String
  pub capture_cancel : Option ℕ
  pub created_at : ℕ

pub record TraceRegistry (Response Sigma : Type 0) : Type 0 where
  pub trace_owners : Map String (TraceSession Response Sigma)
  pub cancelled : List ℕ

-- `if cancel != nil { cancel() }`.
unfoldable pub call : Option ℕ → List ℕ → List ℕ
call none cancelled = cancelled
call (some c) cancelled = c ∷ cancelled

module _ {Response Sigma : Type 0} where
  unfoldable pub register_trace_session :
      String
      → String
      → Response
      → Option Sigma
      → ℕ
      → TraceRegistry Response Sigma
      → TraceRegistry Response Sigma
  register_trace_session trace_id auth_id resp sigma now r =
      if is_empty trace_id || is_empty auth_id then r else record r {
        trace_owners =
            insert String-discrete trace_id
              (record {
                auth_session_id = auth_id;
                response = resp;
                sigma_graph = sigma;
                capture_session_id = "";
                capture_cancel = none;
                created_at = now;
              })
              r.trace_owners;
      }

  unfoldable pub get_trace_session :
      String → TraceRegistry Response Sigma → Option (TraceSession Response Sigma)
  get_trace_session trace_id r = lookup String-discrete trace_id r.trace_owners

  abbrev is_trace_owner : String → Option (TraceSession Response Sigma) → Bool
  is_trace_owner auth_id none = false
  is_trace_owner auth_id (some s) = str_eq s.auth_session_id auth_id

  unfoldable pub assert_trace_owner : String → String → TraceRegistry Response Sigma → Bool
  assert_trace_owner trace_id auth_id r =
      if is_empty trace_id || is_empty auth_id
      then false
      else is_trace_owner auth_id (lookup String-discrete trace_id r.trace_owners)

  abbrev cancel_of : Option (TraceSession Response Sigma) → Option ℕ
  cancel_of none = none
  cancel_of (some s) = s.capture_cancel

  unfoldable pub delete_trace_session :
      String → TraceRegistry Response Sigma → TraceRegistry Response Sigma
  delete_trace_session trace_id r = record {
    trace_owners = erase String-discrete trace_id r.trace_owners;
    cancelled = call (cancel_of (lookup String-discrete trace_id r.trace_owners)) r.cancelled;
  }

  abbrev link_found :
      String
      → String
      → Option ℕ
      → TraceRegistry Response Sigma
      → Option (TraceSession Response Sigma)
      → TraceRegistry Response Sigma
  link_found trace_id capture_id cancel r none = record r { cancelled = call cancel r.cancelled }
  link_found trace_id capture_id cancel r (some s) = record {
    trace_owners =
        insert String-discrete trace_id
          (record s { capture_session_id = capture_id; capture_cancel = cancel }) r.trace_owners;
    cancelled = call s.capture_cancel r.cancelled;
  }

  unfoldable pub link_trace_capture :
      String → String → Option ℕ → TraceRegistry Response Sigma → TraceRegistry Response Sigma
  link_trace_capture trace_id capture_id cancel r =
      if is_empty trace_id || is_empty capture_id
      then r
      else link_found trace_id capture_id cancel r (lookup String-discrete trace_id r.trace_owners)

  abbrev capture_of : Option (TraceSession Response Sigma) → String
  capture_of none = ""
  capture_of (some s) = s.capture_session_id

  unfoldable pub trace_capture_session_id : String → TraceRegistry Response Sigma → String
  trace_capture_session_id trace_id r = capture_of (lookup String-discrete trace_id r.trace_owners)

  abbrev stop_found :
      String
      → TraceRegistry Response Sigma
      → Option (TraceSession Response Sigma)
      → TraceRegistry Response Sigma
  stop_found trace_id r none = r
  stop_found trace_id r (some s) = record {
    trace_owners =
        insert String-discrete trace_id
          (record s { capture_session_id = ""; capture_cancel = none }) r.trace_owners;
    cancelled = call s.capture_cancel r.cancelled;
  }

  -- The registry afterwards, and the id of the capture that was linked.
  unfoldable pub stop_trace_capture :
      String → TraceRegistry Response Sigma → TraceRegistry Response Sigma × String
  stop_trace_capture trace_id r =
      let found = lookup String-discrete trace_id r.trace_owners in
      (stop_found trace_id r found, capture_of found)

  -- The sessions are dropped; their cancel functions are not called.
  unfoldable pub purge_trace_sessions :
      String → TraceRegistry Response Sigma → TraceRegistry Response Sigma
  purge_trace_sessions auth_id r =
      let owned = λ (s : TraceSession Response Sigma). str_eq s.auth_session_id auth_id in
      if is_empty auth_id then r else record r {
        trace_owners =
            erase_all String-discrete (keys_where String-discrete owned r.trace_owners)
              r.trace_owners;
      }
