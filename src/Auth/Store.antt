-- ===== src/Auth/Store.antt =====
-- internal/auth/session.go: the store of signed-in sessions. The random id and the clock, in
-- nanoseconds, are arguments; a lifetime is not negative. Wiping a secret in memory has no effect
-- on the store and is left out.
pub mod Expiry
use netobserv_spcg.Common.{
  ℕ, ◌-◌, ◌*◌, String, String-discrete, is_empty, Bool, true, false, List, [], ◌∷◌, Option, some,
  none, ltb, ◌==◌, if◌then◌else◌, length,
}
use netobserv_spcg.Common.Maps.{Map, lookup, insert, erase}
use netobserv_spcg.Pcap.Bytes.{Bytes}

pub data Mode : Type 0 where
  mode_bearer mode_kubeconfig : Mode

pub record UserSession : Type 0 where
  pub id : String
  pub mode : Mode
  pub bearer : String
  pub kubeconfig : Bytes
  pub created : ℕ

pub record Store : Type 0 where
  pub sessions : Map String UserSession
  pub ttl : ℕ

abbrev pub default_ttl : ℕ
default_ttl = 8 * 3600 * 1000000000

-- `NewStore`.
unfoldable pub new_store : ℕ → Store
new_store ttl = record { sessions = []; ttl = if ttl == 0 then default_ttl else ttl }

abbrev pub put : UserSession → Store → Store
put sess st = record st { sessions = insert String-discrete sess.id sess st.sessions }

-- `CreateBearer`: the session, or none on the error.
unfoldable pub create_bearer : String → String → ℕ → Store → Option UserSession × Store
create_bearer token id now st =
    let sess : UserSession = record {
      id = id;
      mode = mode_bearer;
      bearer = token;
      kubeconfig = [];
      created = now;
    } in
    if is_empty token then (none, st) else (some sess, put sess st)

-- `CreateKubeconfig`.
unfoldable pub create_kubeconfig : Bytes → String → ℕ → Store → Option UserSession × Store
create_kubeconfig content id now st =
    let sess : UserSession = record {
      id = id;
      mode = mode_kubeconfig;
      bearer = "";
      kubeconfig = content;
      created = now;
    } in
    if length content == 0 then (none, st) else (some sess, put sess st)

-- `wipeLocked` and `Delete`.
unfoldable pub delete_session : String → Store → Store
delete_session id st = record st { sessions = erase String-discrete id st.sessions }

abbrev pub get_found : String → ℕ → Store → Option UserSession → Option UserSession × Store
get_found id now st none = (none, st)
get_found id now st (some sess) =
    if ltb st.ttl (now - sess.created) then (none, delete_session id st) else (some sess, st)

-- `Get`: an expired session is removed.
unfoldable pub get_session : String → ℕ → Store → Option UserSession × Store
get_session id now st = get_found id now st (lookup String-discrete id st.sessions)
