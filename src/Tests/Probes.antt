-- ===== src/Tests/Probes.antt =====
-- internal/trace/probe on a path of two primary edges.
use netobserv_spcg.Common.{
  ℕ, suc, ◌+◌, ◌≡◌, ◌≢◌, refl, subst, String, str_ne, Bool, true, false, List, [], ◌∷◌, some, Elem,
  here, there, length, keep,
}
use netobserv_spcg.Trace.Types.{TraceNode, TraceEdge}
use netobserv_spcg.Probe.Correlator.{
  GraphCorrelator, new_graph_correlator, advance, remaining, verified_count, primary_count,
}
use netobserv_spcg.Probe.Correlator.Progress.{
  HasDistinctIds, IsSound, advance-IsSound, counts_agree,
}
use netobserv_spcg.Probe.Correlator.Start.{new_graph_correlator-IsSound}
use netobserv_spcg.Probe.Session.{Session, run_simulated_paint}
use netobserv_spcg.Probe.Session.Paint.{IsVerified, run_simulated_paint-IsVerified}

abbrev node : String → ℕ → TraceNode
node id rank = record {
  id = id;
  label = id;
  kind = "pod";
  layer = "logical";
  namespace = "shop";
  rank = rank;
  track = "egress";
  x = 0;
  y = 0;
  width = 0;
  height = 0;
  tracked = true;
  focused = true;
  status = "";
  detail = "";
}

abbrev edge : String → String → String → Bool → TraceEdge
edge id from to primary = record {
  id = id;
  from = from;
  to = to;
  edge_type = "direct";
  primary = primary;
  drop = false;
  label = "";
}

abbrev nodes : List TraceNode
nodes = node "switch" 2 ∷ node "pod" 1 ∷ node "gateway" 3 ∷ []

abbrev edges : List TraceEdge
edges =
    edge "a" "switch" "gateway" true
    ∷ edge "b" "pod" "switch" true
    ∷ edge "c" "pod" "gateway" false
    ∷ []

edges-HasDistinctIds : HasDistinctIds edges
edges-HasDistinctIds = (first, (second, (third, tt)))
  where
    first :
        (f : TraceEdge)
        → Elem f (edge "b" "pod" "switch" true ∷ edge "c" "pod" "gateway" false ∷ [])
        → "a" ≢ f.id
    first f (here e) = subst (λ (g : TraceEdge). "a" ≢ g.id) e (str_ne "a" "b" refl)
    first f (there (here e)) = subst (λ (g : TraceEdge). "a" ≢ g.id) e (str_ne "a" "c" refl)
    first f (there (there m)) = elim m [ ]

    second : (f : TraceEdge) → Elem f (edge "c" "pod" "gateway" false ∷ []) → "b" ≢ f.id
    second f (here e) = subst (λ (g : TraceEdge). "b" ≢ g.id) e (str_ne "b" "c" refl)
    second f (there m) = elim m [ ]

    third : (f : TraceEdge) → Elem f [] → "c" ≢ f.id
    third f m = elim m [ ]

new_graph_correlator-IsSound_example :
    IsSound (new_graph_correlator nodes edges)
    × (primary_count (new_graph_correlator nodes edges) ≡ length (keep (λ e. e.primary) edges))
new_graph_correlator-IsSound_example = new_graph_correlator-IsSound nodes edges edges-HasDistinctIds

abbrev started : GraphCorrelator
started = new_graph_correlator nodes edges

started-IsSound : IsSound started
started-IsSound = (new_graph_correlator-IsSound nodes edges edges-HasDistinctIds).0

advance-IsSound_example : IsSound (advance started).0
advance-IsSound_example = advance-IsSound started started-IsSound

counts_agree_example :
    (verified_count started ≡ started.seq)
    × (verified_count started + remaining started ≡ primary_count started)
counts_agree_example = counts_agree started started-IsSound

abbrev running : Session
running = record {
  trace_id = "t1";
  probe_id = "p1";
  corr = some started;
  capture_session_id = "";
  icmp_id = 7;
  demo_drop = false;
  simulate = true;
  paint_seq = 0;
  last_capture_seq = 0;
  finished = false;
  obs_notify = 0;
  subscribers = record { id = 1; channel = [] } ∷ [];
}

run_simulated_paint-IsVerified_example :
    (s' : Session) × (run_simulated_paint (suc (remaining started)) running ≡ some s')
    × IsVerified s' (primary_count started)
run_simulated_paint-IsVerified_example =
    run_simulated_paint-IsVerified running started started-IsSound
      (record { correlated = refl; live = refl; no_drop = refl })
