-- ===== src/Pcap/FlowGraph/Counted.antt =====
-- The graph of `BuildFlowGraph` in internal/pcap/flowgraph.go against that of `BuildFlowTopology`.
use netobserv_spcg.Common.{
  ℕ, ◌+◌, ◌≡◌, refl, inl, inr, ◌&&◌, List, [], ◌∷◌, Option, some, none, map, sum_by, bind-eq-some,
  Bool-cases, if◌then◌else◌, arith, ◌>>=◌, String,
}
use netobserv_spcg.Common.Maps.{Map, lookup}
use netobserv_spcg.Common.Maps.Entries.{value_or, sum_of, sum_of-insert}
use netobserv_spcg.Pcap.Frame.{FrameSummary, ethernet_payload, summarize_frame}
use netobserv_spcg.Pcap.Meta.{FlowMeta, Formats}
use netobserv_spcg.Pcap.Session.{TrackedPod, FlowEvent}
use netobserv_spcg.Pcap.Topology.{TopologyNode, FlowTopology}
use netobserv_spcg.Pcap.Topology.Nodes.{is_node}
use netobserv_spcg.Pcap.Topology.Build.{EdgeKey, EdgeKey-discrete, read_frame, build_flow_topology}
use netobserv_spcg.Pcap.Topology.Build.Returns.{
  AreReadable, IsReadable, read_frame-Returns, resolve_flow_endpoints-Returns,
}
use netobserv_spcg.Pcap.Topology.Build.Closed.{count_flows, build_flow_topology-IsClosed}
use netobserv_spcg.Pcap.FlowGraph.{
  FlowEdge, FlowGraph, Flows, flow_or_new, count_flow, count_between, count_all, flow_graph_of,
  build_flow_graph,
}

abbrev count_of : FlowEdge → ℕ
count_of e = e.count

abbrev counted : Flows → ℕ
counted flows = sum_of EdgeKey-discrete count_of flows.counts

value_or-flow_or_new :
    (from to : String) (fs : FrameSummary) (o : Option FlowEdge)
    → value_or EdgeKey-discrete count_of 0 o ≡ (flow_or_new from to fs o).count
value_or-flow_or_new from to fs none = refl
value_or-flow_or_new from to fs (some e) = refl

counted-count_flow :
    (from to : String) (fs : FrameSummary) (flows : Flows)
    → counted (count_flow from to fs flows) ≡ counted flows + 1
unfolding count_flow
counted-count_flow from to fs flows = omega (
  arith,
  sum_of-insert EdgeKey-discrete count_of (from, to) _ flows.counts,
  value_or-flow_or_new from to fs (lookup EdgeKey-discrete (from, to) flows.counts),
)

sum_by-counts :
    (m : Map EdgeKey FlowEdge)
    → sum_by count_of (map (λ entry. entry.1) m) ≡ sum_of EdgeKey-discrete count_of m
sum_by-counts [] = refl
sum_by-counts ((k, e) ∷ m) = omega (arith, sum_by-counts m)

module _ (fmt : Formats) where
  summarize_raw :
      (ev : FlowEvent FlowMeta)
      → IsReadable ev
      → (fs : FrameSummary) × ((ethernet_payload ev.frame >>= summarize_frame) ≡ some fs)
  unfolding read_frame
  summarize_raw ev ok =
      let (merged, e) = read_frame-Returns fmt ev ok in
      let (raw, e1, e2) = bind-eq-some (ethernet_payload ev.frame) _ e in
      let (fs, e3, _) = bind-eq-some (summarize_frame raw) _ e2 in (fs, rw (e1, e3) refl)

  counted-count_between :
      (fs : FrameSummary) (ends : TopologyNode × TopologyNode) (flows : Flows)
      → counted (count_between fmt fs ends flows)
        ≡ counted flows + (if is_node ends.0 && is_node ends.1 then 1 else 0)
  counted-count_between fs (from, to) flows = elim (Bool-cases (is_node from && is_node to)) [
    | inl both ↦ rw both (counted-count_flow from.id to.id fs flows)
    | inr not_both ↦ rw not_both (omega arith)
  ]

  count_all-Returns :
      (tracked : List TrackedPod) (events : List (FlowEvent FlowMeta)) (flows : Flows)
      → AreReadable fmt events
      → (found : Flows) × (count_all fmt tracked events flows ≡ some found)
        × (counted found ≡ counted flows + count_flows fmt tracked events)
  unfolding count_all
  count_all-Returns tracked [] flows ok = (flows, refl, omega arith)
  count_all-Returns tracked (ev ∷ events) flows ok =
      let (fs, e) = summarize_raw ev ok.0 in
      let (raw, e1, e2) = bind-eq-some (ethernet_payload ev.frame) summarize_frame e in
      let (ends, known) = resolve_flow_endpoints-Returns fmt ev tracked ok.0.small in
      let (found, e3, sum) =
        count_all-Returns tracked events (count_between fmt fs ends flows) ok.1 in
      let step = counted-count_between fs ends flows in
      (found, rw (e1, e2, known) e3, rw known (omega (arith, sum, step)))

-- If no event's frame is 4 GiB long or a cut DNS datagram, `BuildFlowGraph` and `BuildFlowTopology` both
-- return, and the counts of their edges have the same sum.
pub build_flow_graph-build_flow_topology :
    (fmt : Formats) (events : List (FlowEvent FlowMeta)) (tracked : List TrackedPod)
    → AreReadable fmt events
    → (graph : FlowGraph) × (topo : FlowTopology) × (build_flow_graph fmt events tracked
        ≡ some graph)
      × (build_flow_topology fmt events tracked ≡ some topo)
      × (sum_by (λ e. e.count) graph.edges ≡ sum_by (λ e. e.count) topo.edges)
unfolding build_flow_graph
build_flow_graph-build_flow_topology fmt events tracked ok =
    let (flows, e, sum) =
      count_all-Returns fmt tracked events (record { node_set = []; counts = [] }) ok in
    let (topo, e', _, total) = build_flow_topology-IsClosed fmt events tracked ok in
    (
      flow_graph_of flows,
      topo,
      rw e refl,
      e',
      omega (arith, sum_by-counts flows.counts, sum, total),
    )
