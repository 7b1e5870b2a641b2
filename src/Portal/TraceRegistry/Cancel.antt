-- ===== src/Portal/TraceRegistry/Cancel.antt =====
-- The cancel functions of linked captures in internal/portal/trace_registry.go.
use mathlib.Core.Option.{some-injective}
use netobserv_spcg.Common.{
  ℕ, ◌≡◌, ◌≢◌, refl, ◌∙◌, ◌⊎◌, inl, inr, if_neg, String, String-discrete, is_empty, str_eq,
  str_eq_iff, false, ◌||◌, List, [], ◌∷◌, Option, some, none, none≢some, Elem, here, there,
  Bool-cases, Option-cases,
}
use netobserv_spcg.Common.Maps.{
  Map, lookup, insert, erase, lookup-insert_self, lookup-insert_ne, lookup-erase,
}
use netobserv_spcg.Portal.TraceRegistry.{
  TraceSession, TraceRegistry, call, cancel_of, delete_trace_session, link_trace_capture,
  stop_trace_capture, get_trace_session, purge_trace_sessions,
}
use netobserv_spcg.Common.Maps.Erase.{keys_where, lookup-keys_where, lookup-erase_all-Elem}

-- The calls that end or replace a linked capture.
pub data Op : Type 0 where
  link : String → String → Option ℕ → Op
  stop delete : String → Op

call_keeps : {c : ℕ} (o : Option ℕ) {xs : List ℕ} → Elem c xs → Elem c (call o xs)
unfolding call
call_keeps none m = m
call_keeps (some d) m = there m

call-some : {c : ℕ} (o : Option ℕ) (xs : List ℕ) → o ≡ some c → Elem c (call o xs)
unfolding call
call-some none xs e = absurd (none≢some e)
call-some {c = c} (some d) xs e = here (some-injective d c e)

module _ {Response Sigma : Type 0} where
  unfoldable pub run : Op → TraceRegistry Response Sigma → TraceRegistry Response Sigma
  run (link trace_id capture_id cancel) r = link_trace_capture trace_id capture_id cancel r
  run (stop trace_id) r = (stop_trace_capture trace_id r).0
  run (delete trace_id) r = delete_trace_session trace_id r

  unfoldable pub run_all : List Op → TraceRegistry Response Sigma → TraceRegistry Response Sigma
  run_all [] r = r
  run_all (op ∷ ops) r = run_all ops (run op r)

  -- A session of the registry holds the cancel function.
  pub record IsHeld (c : ℕ) (m : Map String (TraceSession Response Sigma)) : Type 0 where
    pub id : String
    pub session : TraceSession Response Sigma
    pub found : lookup String-discrete id m ≡ some session
    pub held : session.capture_cancel ≡ some c

  -- It is held, or has been called.
  abbrev pub IsAccounted : ℕ → TraceRegistry Response Sigma → Type 0
  IsAccounted c r = IsHeld c r.trace_owners ⊎ Elem c r.cancelled

  -- A step that calls the cancel function of one entry and keeps the others.
  replace-IsAccounted :
      (c : ℕ) (t : String) (m m' : Map String (TraceSession Response Sigma)) (xs : List ℕ)
      → ((id : String) → t ≢ id → lookup String-discrete id m' ≡ lookup String-discrete id m)
      → IsHeld c m ⊎ Elem c xs
      → IsHeld c m' ⊎ Elem c (call (cancel_of (lookup String-discrete t m)) xs)
  replace-IsAccounted c t m m' xs same (inr j) = inr (call_keeps _ j)
  replace-IsAccounted c t m m' xs same (inl h) = elim (String-discrete t h.id) [
    | yes q ↦ inr (call-some _ xs (rw (q, h.found) h.held))
    | no ne ↦
        inl
          (record { id = h.id; session = h.session; found = same h.id ne ∙ h.found; held = h.held })
  ]

  delete-IsAccounted :
      (c : ℕ) (t : String) (r : TraceRegistry Response Sigma)
      → IsAccounted c r
      → IsAccounted c (delete_trace_session t r)
  unfolding delete_trace_session
  delete-IsAccounted c t r a =
      replace-IsAccounted c t r.trace_owners (erase String-discrete t r.trace_owners) r.cancelled
        (λ id ne.
          lookup-erase String-discrete t id r.trace_owners ∙ if_neg (String-discrete t id) ne _ _)
        a

  -- Replacing the entry by another session, as linking and stopping do.
  insert-IsAccounted :
      (c : ℕ) (t : String) (s s' : TraceSession Response Sigma) (r : TraceRegistry Response Sigma)
      → lookup String-discrete t r.trace_owners ≡ some s
      → IsAccounted c r
      → IsHeld c (insert String-discrete t s' r.trace_owners)
        ⊎ Elem c (call s.capture_cancel r.cancelled)
  insert-IsAccounted c t s s' r e a = rw e at (
      replace-IsAccounted c t r.trace_owners (insert String-discrete t s' r.trace_owners)
        r.cancelled (λ id ne. lookup-insert_ne String-discrete t id s' r.trace_owners ne) a)

  stop-IsAccounted :
      (c : ℕ) (t : String) (r : TraceRegistry Response Sigma)
      → IsAccounted c r
      → IsAccounted c (stop_trace_capture t r).0
  unfolding stop_trace_capture
  stop-IsAccounted c t r a = elim (Option-cases (lookup String-discrete t r.trace_owners)) [
    | inl e ↦ rw e a
    | inr (s, e) ↦ rw e (insert-IsAccounted c t s _ r e a)
  ]

  link-IsAccounted :
      (c : ℕ) (t capture_id : String) (cancel : Option ℕ) (r : TraceRegistry Response Sigma)
      → IsAccounted c r
      → IsAccounted c (link_trace_capture t capture_id cancel r)
  unfolding link_trace_capture
  link-IsAccounted c t capture_id cancel r a =
      elim (Bool-cases (is_empty t || is_empty capture_id)) [
        | inl b ↦ rw b a
        | inr b ↦ elim (Option-cases (lookup String-discrete t r.trace_owners)) [
          | inl e ↦ rw (b, e) (elim a [ inl h ↦ inl h | inr m ↦ inr (call_keeps cancel m) ])
          | inr (s, e) ↦ rw (b, e) (insert-IsAccounted c t s _ r e a)
        ]
      ]

  run_all-IsAccounted :
      (c : ℕ) (ops : List Op) (r : TraceRegistry Response Sigma)
      → IsAccounted c r
      → IsAccounted c (run_all ops r)
  unfolding run_all run
  run_all-IsAccounted c [] r a = a
  run_all-IsAccounted c (link t capture_id cancel ∷ ops) r a =
      run_all-IsAccounted c ops (link_trace_capture t capture_id cancel r)
        (link-IsAccounted c t capture_id cancel r a)
  run_all-IsAccounted c (stop t ∷ ops) r a =
      run_all-IsAccounted c ops (stop_trace_capture t r).0 (stop-IsAccounted c t r a)
  run_all-IsAccounted c (delete t ∷ ops) r a =
      run_all-IsAccounted c ops (delete_trace_session t r) (delete-IsAccounted c t r a)

  link-new :
      (c : ℕ) (t capture_id : String) (r : TraceRegistry Response Sigma)
      → (is_empty t || is_empty capture_id) ≡ false
      → IsAccounted c (link_trace_capture t capture_id (some c) r)
  unfolding link_trace_capture
  link-new c t capture_id r named = elim (Option-cases (lookup String-discrete t r.trace_owners)) [
    | inl e ↦ rw (named, e) (inr (call-some (some c) r.cancelled refl))
    | inr (s, e) ↦
        let s' = record s { capture_session_id = capture_id; capture_cancel = some c } in
        rw (named, e)
          (inl (record {
            id = t;
            session = s';
            found = lookup-insert_self String-discrete t s' r.trace_owners;
            held = refl;
          }))
  ]

  -- A cancel function that `linkTraceCapture` is given with a trace and a capture id is never lost
  -- while captures are linked, stopped and traces deleted in any order: a trace session holds it,
  -- or it has been called.
  pub link_trace_capture-IsAccounted :
      (c : ℕ) (t capture_id : String) (ops : List Op) (r : TraceRegistry Response Sigma)
      → (is_empty t || is_empty capture_id) ≡ false
      → IsAccounted c (run_all ops (link_trace_capture t capture_id (some c) r))
  link_trace_capture-IsAccounted c t capture_id ops r named =
      run_all-IsAccounted c ops (link_trace_capture t capture_id (some c) r)
        (link-new c t capture_id r named)

  -- `purgeTraceSessions` of a session with a non-empty id drops each of its traces and calls no
  -- cancel function, also where a capture is linked to the trace.
  pub purge_trace_sessions_drops :
      (auth_id id : String) (s : TraceSession Response Sigma) (r : TraceRegistry Response Sigma)
      → is_empty auth_id ≡ false
      → s.auth_session_id ≡ auth_id
      → lookup String-discrete id r.trace_owners ≡ some s
      → (get_trace_session id (purge_trace_sessions auth_id r) ≡ none)
        × ((purge_trace_sessions auth_id r).cancelled ≡ r.cancelled)
  unfolding purge_trace_sessions get_trace_session
  purge_trace_sessions_drops auth_id id s r named own found =
      let owned = λ (s : TraceSession Response Sigma). str_eq s.auth_session_id auth_id in
      let j =
        lookup-keys_where String-discrete owned r.trace_owners id found
          ((str_eq_iff s.auth_session_id auth_id).1 own) in
      rw named (
        lookup-erase_all-Elem String-discrete (keys_where String-discrete owned r.trace_owners)
            r.trace_owners id j,
        refl,
      )
