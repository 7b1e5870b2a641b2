-- ===== src/Auth/Store/Expiry.antt =====
-- A session of internal/auth/session.go lives as long as the store says, and no longer.
use netobserv_spcg.Common.{
  ℕ, ◌-◌, ◌≤◌, ◌<◌, ◌≡◌, refl, ◌∙◌, if_pos, String, String-discrete, is_empty, true, false, [],
  some, none, ltb, lt→ltb, le→ltb-false,
}
use netobserv_spcg.Common.Maps.{Map, lookup, erase, lookup-insert_self, lookup-erase}
use netobserv_spcg.Auth.Store.{
  UserSession, Store, mode_bearer, put, create_bearer, delete_session, get_session,
}

lookup-erase_self :
    (id : String) (m : Map String UserSession)
    → lookup String-discrete id (erase String-discrete id m) ≡ none
lookup-erase_self id m =
    lookup-erase String-discrete id id m ∙ if_pos (String-discrete id id) refl _ _

get_session-miss :
    (id : String) (now : ℕ) (st : Store)
    → lookup String-discrete id st.sessions ≡ none
    → (get_session id now st).0 ≡ none
unfolding get_session
get_session-miss id now st e = rw e

get_session-hit :
    (id : String) (now : ℕ) (st : Store) (sess : UserSession)
    → lookup String-discrete id st.sessions ≡ some sess
    → now - sess.created ≤ st.ttl
    → get_session id now st ≡ (some sess, st)
unfolding get_session
get_session-hit id now st sess e young =
    let t : ltb st.ttl (now - sess.created) ≡ false = le→ltb-false _ _ young in rw (e, t)

get_session-expired :
    (id : String) (now : ℕ) (st : Store) (sess : UserSession)
    → lookup String-discrete id st.sessions ≡ some sess
    → st.ttl < now - sess.created
    → get_session id now st ≡ (none, delete_session id st)
unfolding get_session
get_session-expired id now st sess e old =
    let t : ltb st.ttl (now - sess.created) ≡ true = lt→ltb _ _ old in rw (e, t)

-- A session that `CreateBearer` opened with a token is what `Get` returns for its id until the
-- lifetime is over, and `Get` changes nothing. Once the lifetime is over `Get` returns nothing, nor
-- does any later `Get`, whatever the clock says then.
pub get_session-create_bearer :
    (token id : String) (created now later : ℕ) (st : Store)
    → is_empty token ≡ false
    → (sess : UserSession) × ((create_bearer token id created st).0 ≡ some sess)
      × (sess.bearer ≡ token)
      × (now - created ≤ st.ttl
          → get_session id now (create_bearer token id created st).1
            ≡ (some sess, (create_bearer token id created st).1))
      × (st.ttl < now - created
          → ((get_session id now (create_bearer token id created st).1).0 ≡ none)
            × ((get_session id later (get_session id now (create_bearer token id created st).1).1).0
                ≡ none))
unfolding create_bearer delete_session
get_session-create_bearer token id created now later st given =
    let sess : UserSession = record {
      id = id;
      mode = mode_bearer;
      bearer = token;
      kubeconfig = [];
      created = created;
    } in
    let st' = put sess st in
    let found = lookup-insert_self String-discrete id sess st.sessions in
    rw given (
      sess,
      refl,
      refl,
      (λ young. get_session-hit id now st' sess found young),
      (λ old.
          let gone = get_session-expired id now st' sess found old in
          rw gone (
            refl,
            get_session-miss id later (delete_session id st') (lookup-erase_self id st'.sessions),
          )),
    )
