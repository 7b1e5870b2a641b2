-- ===== src/Portal/CaptureRegistry/Ownership.antt =====
-- Purging a session of internal/portal/capture_registry.go removes all that it owns and nothing
-- that another session owns.
use netobserv_spcg.Common.{
  ◌≡◌, ◌≢◌, refl, ◌∙◌, String, String-discrete, str_eq, is_empty, false, List, [], ◌∷◌, some, none,
  Bool-cases, inl, inr, str_eq_iff, str_ne_false,
}
use netobserv_spcg.Common.Maps.{lookup}
use netobserv_spcg.Common.Maps.Erase.{
  Distinct, keys_where, erase_all, not-Elem-keys_where, lookup-erase_all_other,
  lookup-erase_all-Elem, lookup-keys_where,
}
use netobserv_spcg.Portal.CaptureRegistry.{
  Registry, teardown_capture_session, teardown_all, purge_capture_sessions,
}

abbrev all_erased : List String → Registry → Registry
all_erased ids r = record {
  capture_owners = erase_all String-discrete ids r.capture_owners;
  active_streams = erase_all String-discrete ids r.active_streams;
  pcap_sessions = erase_all String-discrete ids r.pcap_sessions;
  scrubbers = erase_all String-discrete ids r.scrubbers;
  chat_hist = erase_all String-discrete ids r.chat_hist;
  ai_sessions = erase_all String-discrete ids r.ai_sessions;
}

teardown_all-eq : (ids : List String) (r : Registry) → teardown_all ids r ≡ all_erased ids r
unfolding teardown_all teardown_capture_session erase_all
teardown_all-eq [] r = refl
teardown_all-eq (cid ∷ ids) r = teardown_all-eq ids (teardown_capture_session cid r)

-- A capture is gone from every map of the registry.
pub record IsGone (id : String) (r : Registry) : Type 0 where
  pub no_owner : lookup String-discrete id r.capture_owners ≡ none
  pub no_stream : lookup String-discrete id r.active_streams ≡ none
  pub no_packets : lookup String-discrete id r.pcap_sessions ≡ none
  pub no_scrubber : lookup String-discrete id r.scrubbers ≡ none
  pub no_history : lookup String-discrete id r.chat_hist ≡ none
  pub no_ai_session : lookup String-discrete id r.ai_sessions ≡ none

-- Purging a session with a non-empty id leaves no trace of a capture that it owns: neither owner,
-- stream, packets, scrubber, chat history nor AI session.
pub purge-IsGone :
    (auth_id id : String) (r : Registry)
    → is_empty auth_id ≡ false
    → lookup String-discrete id r.capture_owners ≡ some auth_id
    → IsGone id (purge_capture_sessions auth_id r).0
unfolding purge_capture_sessions
purge-IsGone auth_id id r named owned =
    let p = λ (owner : String). str_eq owner auth_id in
    let j =
      lookup-keys_where String-discrete p r.capture_owners id owned
        ((str_eq_iff auth_id auth_id).1 refl) in
    let ids = keys_where String-discrete p r.capture_owners in
    rw (named, teardown_all-eq)
      (record {
        no_owner = lookup-erase_all-Elem String-discrete ids r.capture_owners id j;
        no_stream = lookup-erase_all-Elem String-discrete ids r.active_streams id j;
        no_packets = lookup-erase_all-Elem String-discrete ids r.pcap_sessions id j;
        no_scrubber = lookup-erase_all-Elem String-discrete ids r.scrubbers id j;
        no_history = lookup-erase_all-Elem String-discrete ids r.chat_hist id j;
        no_ai_session = lookup-erase_all-Elem String-discrete ids r.ai_sessions id j;
      })

-- Purging a session keeps every capture of every other session: its owner, its stream and its
-- stored packets, if no capture id stands twice among the owners.
pub purge_keeps :
    (auth_id other id : String) (r : Registry)
    → Distinct String-discrete r.capture_owners
    → other ≢ auth_id
    → lookup String-discrete id r.capture_owners ≡ some other
    → (lookup String-discrete id (purge_capture_sessions auth_id r).0.capture_owners ≡ some other)
      × (lookup String-discrete id (purge_capture_sessions auth_id r).0.active_streams
          ≡ lookup String-discrete id r.active_streams)
      × (lookup String-discrete id (purge_capture_sessions auth_id r).0.pcap_sessions
          ≡ lookup String-discrete id r.pcap_sessions)
unfolding purge_capture_sessions
purge_keeps auth_id other id r d ne owned = elim (Bool-cases (is_empty auth_id)) [
  | inl e ↦ rw e (owned, refl, refl)
  | inr e ↦
      let p = λ (owner : String). str_eq owner auth_id in
      let miss =
        not-Elem-keys_where String-discrete p r.capture_owners id d owned
          (str_ne_false other auth_id ne) in
      let ids = keys_where String-discrete p r.capture_owners in
      rw (e, teardown_all-eq)
        (
          lookup-erase_all_other String-discrete ids r.capture_owners id miss ∙ owned,
          lookup-erase_all_other String-discrete ids r.active_streams id miss,
          lookup-erase_all_other String-discrete ids r.pcap_sessions id miss,
        )
]
