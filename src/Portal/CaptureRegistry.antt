-- ===== src/Portal/CaptureRegistry.antt =====
-- internal/portal/capture_registry.go: which authenticated session owns which capture. Each
-- function holds the registry's lock, so it is one step of the registry. Finishing the S3 upload
-- and deleting the graph in Neo4j are remote effects whose results the source ignores; they are
-- not modelled. A bearer token that is zeroed before its session is dropped is not kept.
pub mod Ownership
use netobserv_spcg.Common.{
  ℕ, zero, suc, ◌+◌, String, String-discrete, str_eq, is_empty, Bool, true, false, ◌&&◌, ◌||◌, List,
  [], ◌∷◌, Option, some, none, if◌then◌else◌, length,
}
use netobserv_spcg.Common.Maps.{Map, lookup, insert, erase, contains}
pub use netobserv_spcg.Common.Sets.{IdSet}
use netobserv_spcg.Common.Maps.Erase.{keys_where}

-- The maps that a capture id stands in: its owner, its open stream, its stored packets, its
-- scrubber, its chat history and its AI session.
pub record Registry : Type 0 where
  pub capture_owners : Map String String
  pub active_streams : IdSet
  pub pcap_sessions : IdSet
  pub scrubbers : IdSet
  pub chat_hist : IdSet
  pub ai_sessions : IdSet

unfoldable pub register_capture_session : String → String → Registry → Registry
register_capture_session capture_id auth_id r =
    if is_empty capture_id || is_empty auth_id
    then r
    else record r { capture_owners = insert String-discrete capture_id auth_id r.capture_owners }

unfoldable pub mark_capture_stream_active : String → Registry → Registry
mark_capture_stream_active capture_id r =
    if is_empty capture_id
    then r
    else record r { active_streams = insert String-discrete capture_id tt r.active_streams }

unfoldable pub release_capture_stream : String → Registry → Registry
release_capture_stream capture_id r =
    if is_empty capture_id
    then r
    else record r { active_streams = erase String-discrete capture_id r.active_streams }

unfoldable pub active_capture_session_count : Registry → ℕ
active_capture_session_count r = length r.active_streams

unfoldable pub stored_capture_session_count : Registry → ℕ
stored_capture_session_count r = length r.capture_owners

-- The loop of `releaseAllCaptureStreamsForAuth` over the owners.
unfoldable pub release_owned : String → Map String String → IdSet → ℕ → IdSet × ℕ
release_owned auth_id [] streams n = (streams, n)
release_owned auth_id ((cid, owner) ∷ owners) streams n =
    let hit = str_eq owner auth_id && contains String-discrete cid streams in
    release_owned auth_id owners (if hit then erase String-discrete cid streams else streams)
      (if hit then n + 1 else n)

unfoldable pub release_all_capture_streams_for_auth : String → Registry → Registry × ℕ
release_all_capture_streams_for_auth auth_id r =
    if is_empty auth_id
    then (r, 0)
    else (let (streams, n) = release_owned auth_id r.capture_owners r.active_streams 0 in
        (record r { active_streams = streams }, n))

abbrev is_owner : Option String → String → Bool
is_owner none auth_id = false
is_owner (some owner) auth_id = str_eq owner auth_id

unfoldable pub assert_capture_owner : String → String → Registry → Bool
assert_capture_owner capture_id auth_id r =
    if is_empty capture_id || is_empty auth_id
    then false
    else is_owner (lookup String-discrete capture_id r.capture_owners) auth_id

unfoldable pub teardown_capture_session : String → Registry → Registry
teardown_capture_session capture_id r = record {
  capture_owners = erase String-discrete capture_id r.capture_owners;
  active_streams = erase String-discrete capture_id r.active_streams;
  pcap_sessions = erase String-discrete capture_id r.pcap_sessions;
  scrubbers = erase String-discrete capture_id r.scrubbers;
  chat_hist = erase String-discrete capture_id r.chat_hist;
  ai_sessions = erase String-discrete capture_id r.ai_sessions;
}

unfoldable pub teardown_all : List String → Registry → Registry
teardown_all [] r = r
teardown_all (cid ∷ ids) r = teardown_all ids (teardown_capture_session cid r)

-- `purgeCaptureSessions`, with the ids that it returns.
unfoldable pub purge_capture_sessions : String → Registry → Registry × List String
purge_capture_sessions auth_id r =
    if is_empty auth_id
    then (r, [])
    else (let ids = keys_where String-discrete (λ owner. str_eq owner auth_id) r.capture_owners in
        (teardown_all ids r, ids))
