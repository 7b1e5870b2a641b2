-- ===== src/Pcap/Topology/Bounded.antt =====
-- `BuildBoundedTopology` of internal/pcap/topology_limits.go: the graph of the last events, restricted
-- to the selected pods and limited in size, with a detail for each of its edges.
use netobserv_spcg.Common.{
  ℕ, zero, suc, ◌-◌, ◌≤◌, ◌≡◌, refl, ◌⊎◌, inl, inr, String, String-discrete, Bool, List, [], ◌∷◌,
  Option, some, none, ◌==◌, if◌then◌else◌, length, Bool-cases, ◌>>=◌, drop, ltb,
}
use netobserv_spcg.Common.Maps.{Map, lookup, insert}
use netobserv_spcg.Pcap.Meta.{FlowMeta, Formats}
use netobserv_spcg.Pcap.Session.{TrackedPod, FlowEvent, trim}
use netobserv_spcg.Pcap.Topology.{
  TopologyEdge, EdgeDetail, FlowTopology, pos, tracked_node_ids, filter_topology_to_selection,
  sample_events_for_graph, max_topology_build_events, max_topology_nodes, max_topology_edges,
}
use netobserv_spcg.Pcap.Topology.Build.{build_flow_topology, conversation_sequence}
use netobserv_spcg.Pcap.Topology.Build.Returns.{AreReadable}
use netobserv_spcg.Pcap.Topology.Build.Closed.{build_flow_topology-IsClosed}
use netobserv_spcg.Pcap.Topology.Limit.{limit_flow_topology}
use netobserv_spcg.Pcap.Topology.Limit.Kept.{
  IsClosed, limit_flow_topology-Within, limit_flow_topology-IsClosed,
}
use netobserv_spcg.Pcap.Topology.Selection.{filter_topology_to_selection-IsClosed}

abbrev detail_or : FlowTopology → String → Option EdgeDetail → EdgeDetail
detail_or topo id (some d) = d
detail_or topo id none = record {
  edge_id = id;
  srtt_ns = pos 0;
  bytes = 0;
  packets = 0;
  tcp_flags = [];
  tcp_state = "";
  drop_cause = "";
  drop_diagnosis = "";
  steps = conversation_sequence topo.edges [] id;
}

-- A detail for each edge; one that is missing is made up of the steps alone.
unfoldable pub fill_details :
    FlowTopology → List TopologyEdge → Map String EdgeDetail → Map String EdgeDetail
fill_details topo [] out = out
fill_details topo (e ∷ edges) out = fill_details topo edges (
    insert String-discrete e.id (detail_or topo e.id (lookup String-discrete e.id topo.edge_detail))
      out)

-- The restriction of `BuildBoundedTopology`, `MergeTopologyIntoGraph` and `BuildCaptureSummary`.
unfoldable pub select_tracked : FlowTopology → List TrackedPod → FlowTopology
select_tracked topo tracked =
    let ids = tracked_node_ids tracked [] in
    if length ids == 0 then topo else filter_topology_to_selection topo ids

unfoldable pub bound_topology : FlowTopology → List TrackedPod → FlowTopology × Bool
bound_topology topo tracked =
    let limited =
      limit_flow_topology (select_tracked topo tracked) tracked max_topology_nodes
        max_topology_edges in
    (record limited.0 { edge_detail = fill_details limited.0 limited.0.edges [] }, limited.1)

module _ (fmt : Formats) where
  unfoldable pub build_bounded_topology :
      List (FlowEvent FlowMeta) → List TrackedPod → Option (FlowTopology × Bool)
  build_bounded_topology events tracked = do
    topo ←
        build_flow_topology fmt (sample_events_for_graph events max_topology_build_events) tracked
    some (bound_topology topo tracked)

  drop-AreReadable :
      (k : ℕ) (events : List (FlowEvent FlowMeta))
      → AreReadable fmt events
      → AreReadable fmt (drop k events)
  drop-AreReadable zero events ok = ok
  drop-AreReadable (suc k) [] ok = ok
  drop-AreReadable (suc k) (ev ∷ events) ok = drop-AreReadable k events ok.1

  sample-AreReadable :
      (events : List (FlowEvent FlowMeta)) (max : ℕ)
      → AreReadable fmt events
      → AreReadable fmt (sample_events_for_graph events max)
  unfolding sample_events_for_graph trim
  sample-AreReadable events max ok = elim (Bool-cases (max == 0)) [
    | inl z ↦ rw z ok
    | inr nz ↦ elim (Bool-cases (ltb max (length events))) [
      | inl over ↦ rw (nz, over) (drop-AreReadable (length events - max) events ok)
      | inr fits ↦ rw (nz, fits) ok
    ]
  ]

select_tracked-IsClosed :
    (topo : FlowTopology) (tracked : List TrackedPod)
    → IsClosed topo
    → IsClosed (select_tracked topo tracked)
unfolding select_tracked
select_tracked-IsClosed topo tracked closed =
    elim (Bool-cases (length (tracked_node_ids tracked []) == 0)) [
      | inl none_tracked ↦ rw none_tracked closed
      | inr some_tracked ↦
          rw some_tracked
            (filter_topology_to_selection-IsClosed topo (tracked_node_ids tracked []) some_tracked
              closed).2
    ]

-- Of events that no frame's parsing panics on, `BuildBoundedTopology` returns a graph in which both ends
-- of every edge are nodes, with at most 150 edges, and with at most 100 nodes or as many as there are
-- tracked pods.
pub build_bounded_topology-IsClosed :
    (fmt : Formats) (events : List (FlowEvent FlowMeta)) (tracked : List TrackedPod)
    → AreReadable fmt events
    → (topo : FlowTopology) × (capped : Bool) × (build_bounded_topology fmt events tracked
        ≡ some (topo, capped))
      × IsClosed topo
      × (length topo.edges ≤ 150)
      × ((length topo.nodes ≤ 100) ⊎ (length topo.nodes ≤ length (tracked_node_ids tracked [])))
unfolding build_bounded_topology bound_topology
build_bounded_topology-IsClosed fmt events tracked ok =
    let sampled = sample_events_for_graph events max_topology_build_events in
    let (full, e, closed, _) =
      build_flow_topology-IsClosed fmt sampled tracked
        (sample-AreReadable fmt events max_topology_build_events ok) in
    let selected = select_tracked full tracked in
    let within =
      limit_flow_topology-Within selected tracked max_topology_nodes max_topology_edges in
    let bounded = bound_topology full tracked in
    (
      bounded.0,
      bounded.1,
      rw e refl,
      limit_flow_topology-IsClosed selected tracked max_topology_nodes max_topology_edges
          (select_tracked-IsClosed full tracked closed),
      within.0,
      within.1,
    )
