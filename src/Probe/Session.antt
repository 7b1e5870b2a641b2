-- ===== src/Probe/Session.antt =====
-- internal/trace/probe/session.go: a probe session, its subscribers and the painting of hops. A
-- call holds the locks of its session, so it is one step from a session to the next; a nil
-- session is left out (its callers have one). Channels are bounded queues, and a send that finds
-- its channel full is dropped, as by `select … default`.
pub mod Paint
use Prim.Native.String.{◌++◌ as str_append}
use netobserv_spcg.Common.{
  ℕ, zero, suc, ◌+◌, ◌%◌, String, is_empty, Bool, true, false, not, ◌&&◌, ◌||◌, List, [], ◌∷◌, ◌++◌,
  map, Option, some, none, leb, ltb, ◌==◌, if◌then◌else◌, length,
}
use netobserv_spcg.Probe.Correlator.{
  EdgePaintState, theory_only, active_green, dropped_red, GraphCorrelator, advance,
  mark_drop_on_edge, remaining, next_edge_id, verified_count, primary_count,
}

-- The state of an event that names no edge is the empty state, `none`.
pub record ProbeEvent : Type 0 where
  pub kind : String
  pub trace_id : String
  pub probe_id : String
  pub edge_id : String
  pub state : Option EdgePaintState
  pub hook : String
  pub seq : ℕ
  pub message : String
  pub drop_reason : String
  pub verified : ℕ
  pub total : ℕ

-- A subscriber's buffered channel: the events not received yet.
pub record Subscriber : Type 0 where
  pub id : ℕ
  pub channel : List ProbeEvent

abbrev pub subscriber_buffer : ℕ
subscriber_buffer = 64

abbrev pub notify_buffer : ℕ
notify_buffer = 8

pub record Session : Type 0 where
  pub trace_id : String
  pub probe_id : String
  pub corr : Option GraphCorrelator
  pub capture_session_id : String
  pub icmp_id : ℕ
  pub demo_drop : Bool
  pub simulate : Bool
  pub paint_seq : ℕ
  pub last_capture_seq : ℕ
  pub finished : Bool
  pub obs_notify : ℕ
  pub subscribers : List Subscriber

unfoldable pub send : ProbeEvent → Subscriber → Subscriber
send ev sub =
    if ltb (length sub.channel) subscriber_buffer
    then record sub { channel = sub.channel ++ (ev ∷ []) }
    else sub

unfoldable pub broadcast : Session → ProbeEvent → Session
broadcast s ev = record s { subscribers = map (send ev) s.subscribers }

abbrev pub finished_event : Session → GraphCorrelator → String → ProbeEvent
finished_event s c message = record {
  kind = "probe_finished";
  trace_id = s.trace_id;
  probe_id = s.probe_id;
  edge_id = "";
  state = none;
  hook = "";
  seq = 0;
  message = message;
  drop_reason = "";
  verified = verified_count c;
  total = primary_count c;
}

-- `finishProbe` on a session whose correlator is `c`.
unfoldable pub finish_probe : Session → GraphCorrelator → String → Session
finish_probe s c message =
    if s.finished then s else broadcast (record s { finished = true }) (finished_event s c message)

abbrev pub edge_event :
    Session → GraphCorrelator → String → EdgePaintState → String → String → ProbeEvent
edge_event s c edge_id state hook reason = record {
  kind = "edge_update";
  trace_id = s.trace_id;
  probe_id = s.probe_id;
  edge_id = edge_id;
  state = some state;
  hook = hook;
  seq = s.paint_seq;
  message = "";
  drop_reason = reason;
  verified = verified_count c;
  total = primary_count c;
}

abbrev drop_reason_for : Bool → String
drop_reason_for true = "capture: policy drop on final hop"
drop_reason_for false = "NetworkPolicy: deny egress to destination"

-- Where an observation comes from: `source == "capture"` or not.
pub data Source : Type 0 where
  capture simulation : Source

abbrev is_capture : Source → Bool
is_capture capture = true
is_capture simulation = false

-- `"path blocked at " + edgeID`.
abbrev path_blocked : String → String
path_blocked edge_id = str_append "path blocked at " edge_id

-- The `demoDrop` branch of `paintHop`.
unfoldable pub paint_drop : Session → GraphCorrelator → String → Source → Session
paint_drop s c hook source =
    let edge_id = next_edge_id c in
    if is_empty edge_id
    then finish_probe s c "demo drop — no remaining hop"
    else (let c' = (mark_drop_on_edge c edge_id).0 in
        let s' = record s { corr = some c'; paint_seq = s.paint_seq + 1 } in
        let ev = edge_event s' c' edge_id dropped_red hook (drop_reason_for (is_capture source)) in
        finish_probe (broadcast s' ev) c' (path_blocked edge_id))

-- The end of `paintHop` after `Advance` returned `edge_id`.
unfoldable pub paint_edge : Session → GraphCorrelator → String → String → Session
paint_edge s c edge_id hook =
    let s' = record s { corr = some c; paint_seq = s.paint_seq + 1 } in
    let s'' = broadcast s' (edge_event s' c edge_id active_green hook "") in
    if remaining c == 0 then finish_probe s'' c "all primary hops verified" else s''

abbrev paint_advanced :
    Session → GraphCorrelator → String → GraphCorrelator × Option String → Session
paint_advanced s c hook (c', none) = finish_probe s c "all primary hops verified"
paint_advanced s c hook (c', some edge_id) = paint_edge s c' edge_id hook

abbrev paint_with : Session → String → Source → Option GraphCorrelator → Session
paint_with s hook source none = s
paint_with s hook source (some c) =
    if s.finished
    then s
    else if s.demo_drop && remaining c == 1
    then paint_drop s c hook source
    else paint_advanced s c hook (advance c)

-- `paintHop`.
unfoldable pub paint_hop : Session → String → Source → Session
paint_hop s hook source = paint_with s hook source s.corr

-- `ingestCapture` on a packet for which `MatchPaintPacket` answered `matches`, with the hook
-- name of its metadata.
unfoldable pub ingest_capture : Session → Bool → String → ℕ → Session
ingest_capture s matches hook seq =
    if not matches
    then s
    else if ltb 0 seq && leb seq s.last_capture_seq
    then s
    else (let s' = paint_hop (record s { last_capture_seq = seq }) hook capture in
        record s' {
          obs_notify = if ltb s'.obs_notify notify_buffer then s'.obs_notify + 1 else s'.obs_notify;
        })

abbrev hook_at : ℕ → String
hook_at zero = "veth_egress"
hook_at (suc zero) = "ovs_vport_receive"
hook_at (suc (suc zero)) = "ovs_execute_actions"
hook_at (suc (suc (suc n))) = "physical_egress"

-- `runSimulatedPaint` for `fuel` ticks, if the context is not cancelled: `none` is that the loop
-- still runs.
unfoldable pub run_simulated_paint : ℕ → Session → Option Session
run_simulated_paint zero s = if s.finished then some s else none
run_simulated_paint (suc fuel) s =
    let rest = run_simulated_paint fuel (paint_hop s (hook_at (s.paint_seq % 4)) simulation) in
    if s.finished then some s else rest
