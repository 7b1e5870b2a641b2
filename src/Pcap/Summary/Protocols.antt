-- ===== src/Pcap/Summary/Protocols.antt =====
-- What the protocol counts of `BuildCaptureSummary` in internal/pcap/summary.go add up to.
use netobserv_spcg.Common.{
  ℕ, ◌+◌, ◌≡◌, refl, inl, inr, String, String-discrete, is_empty, List, [], ◌∷◌, Option, some, none,
  length, sum_by, Returns, bind-Returns, Bool-cases, if◌then◌else◌, arith,
}
use netobserv_spcg.Common.Maps.{Map, lookup}
use netobserv_spcg.Common.Maps.Entries.{value_or, sum_of, sum_of-insert}
use netobserv_spcg.Pcap.Frame.{FrameSummary, ethernet_payload}
use netobserv_spcg.Pcap.Frame.Safety.{ethernet_payload-Returns}
use netobserv_spcg.Pcap.Meta.{FlowMeta, Formats}
use netobserv_spcg.Pcap.Session.{FlowEvent}
use netobserv_spcg.Pcap.Topology.{TopologyEdge, FlowTopology, tracked_node_ids}
use netobserv_spcg.Pcap.Topology.Bounded.{select_tracked}
use netobserv_spcg.Pcap.Topology.Build.{read_frame}
use netobserv_spcg.Pcap.Topology.Build.Returns.{AreReadable, read_frame-Returns}
use netobserv_spcg.Pcap.Topology.Build.Closed.{count_flows, build_flow_topology-IsClosed}
use netobserv_spcg.Pcap.Analytics.Peers.{IpOps}
use netobserv_spcg.Pcap.Analytics.Returns.{AreAnalyzable, analyze_events_totals}
use netobserv_spcg.Pcap.Summary.{
  CaptureSummary, FloatOps, Counts, no_counts, add_to, or_word, add_edge_counts, add_edges,
  add_event_counts, add_events_counts, total_frames, summary_of, build_capture_summary,
}

-- The sum of the counts of a map.
abbrev pub sum_counts : Map String ℕ → ℕ
sum_counts m = sum_of String-discrete (λ n. n) m

sum_counts-add_to :
    (k : String) (n : ℕ) (m : Map String ℕ) → sum_counts (add_to k n m) ≡ sum_counts m + n
sum_counts-add_to k n m = omega (
  arith,
  sum_of-insert String-discrete (λ v. v) k
      (value_or String-discrete (λ v. v) 0 (lookup String-discrete k m) + n) m,
)

add_edges-protocols :
    (edges : List TopologyEdge) (c : Counts)
    → sum_counts (add_edges edges c).protocols
      ≡ sum_counts c.protocols + sum_by (λ (e : TopologyEdge). e.count) edges
unfolding add_edges add_edge_counts
add_edges-protocols [] c = omega arith
add_edges-protocols (e ∷ edges) c = omega (
  arith,
  add_edges-protocols edges (add_edge_counts e c),
  sum_counts-add_to (or_word e.proto "OTHER") e.count c.protocols,
)

abbrev is_named : Option FrameSummary → ℕ
is_named none = 0
is_named (some fs) = if is_empty fs.proto then 0 else 1

-- The events of which the protocol is known.
abbrev pub count_named : Formats → List (FlowEvent FlowMeta) → ℕ
count_named fmt [] = 0
count_named fmt (ev ∷ events) = is_named (read_frame fmt ev) + count_named fmt events

add_event_counts-protocols :
    (fs : FrameSummary) (size : ℕ) (c : Counts)
    → sum_counts (add_event_counts fs size c).protocols
      ≡ sum_counts c.protocols + is_named (some fs)
unfolding add_event_counts
add_event_counts-protocols fs size c = elim (Bool-cases (is_empty fs.proto)) [
  | inl unknown ↦ rw unknown (omega arith)
  | inr known ↦ rw known (sum_counts-add_to fs.proto 1 c.protocols)
]

module _ (fmt : Formats) where
  add_events_counts-Returns :
      (events : List (FlowEvent FlowMeta)) (c : Counts)
      → AreReadable fmt events
      → (c' : Counts) × (add_events_counts fmt events c ≡ some c')
        × (sum_counts c'.protocols ≡ sum_counts c.protocols + count_named fmt events)
  unfolding add_events_counts
  add_events_counts-Returns [] c ok = (c, refl, omega arith)
  add_events_counts-Returns (ev ∷ events) c ok =
      let (fs, e) = read_frame-Returns fmt ev ok.0 in
      let next = add_event_counts fs (length ev.frame) c in
      let (c', e', sum) = add_events_counts-Returns events next ok.1 in
      let here_sum = add_event_counts-protocols fs (length ev.frame) c in
      (c', rw (e, e') refl, rw e (omega (arith, sum, here_sum)))

  total_frames-Returns :
      (events : List (FlowEvent FlowMeta)) (total : ℕ × ℕ)
      → AreReadable fmt events
      → Returns (total_frames events total)
  unfolding total_frames
  total_frames-Returns [] total ok = (total, refl)
  total_frames-Returns (ev ∷ events) total ok =
      bind-Returns (ethernet_payload ev.frame) _ (ethernet_payload-Returns ev.frame ok.0.small)
        λ raw _. total_frames-Returns events _ ok.1

  are_readable :
      (events : List (FlowEvent FlowMeta)) → AreAnalyzable events → AreReadable fmt events
  are_readable [] ok = tt
  are_readable (ev ∷ events) ok = (ok.0.readable, are_readable events ok.1)

select_tracked-nil : (topo : FlowTopology) → select_tracked topo [] ≡ topo
unfolding select_tracked tracked_node_ids
select_tracked-nil topo = refl

-- Without tracked pods, if `AnalyzeEvents` panics on no event's frame, `BuildCaptureSummary` returns, and its protocol
-- counts add up to the number of events of which both ends are known and, once more, the number of
-- events of which the protocol is known.
pub build_capture_summary_protocols :
    {Float : Type 0} (ops : FloatOps Float) (fmt : Formats) (ips : IpOps)
    (events : List (FlowEvent FlowMeta))
    → AreAnalyzable events
    → (s : CaptureSummary Float) × (build_capture_summary ops fmt ips events [] ≡ some s)
      × (s.event_count ≡ length events)
      × (sum_counts s.protocols ≡ count_flows fmt [] events + count_named fmt events)
unfolding build_capture_summary summary_of
build_capture_summary_protocols ops fmt ips events ok =
    let readable = are_readable fmt events ok in
    let (topo, e1, _, counted) = build_flow_topology-IsClosed fmt events [] readable in
    let (total, e2) = total_frames-Returns fmt events (0, 0) readable in
    let (c, e3, sum) =
      add_events_counts-Returns fmt events (add_edges topo.edges no_counts) readable in
    let (analytics, e4, _, _, _) = analyze_events_totals fmt ips events ok in
    let edges = add_edges-protocols topo.edges no_counts in
    (
      summary_of ops topo events 0 total c analytics,
      rw (e1, select_tracked-nil topo, e2, e3, e4) refl,
      refl,
      omega (arith, sum, edges, counted),
    )
