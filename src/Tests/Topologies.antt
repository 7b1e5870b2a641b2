-- ===== src/Tests/Topologies.antt =====
-- internal/pcap/topology.go and topology_limits.go on the events of a capture.
use mathlib.Core.Option.{some-injective}
use netobserv_spcg.Pcap.FlowGraph.{FlowGraph, build_flow_graph}
use netobserv_spcg.Pcap.FlowGraph.Counted.{build_flow_graph-build_flow_topology}
use netobserv_spcg.Common.{
  refl, String-discrete, Bool-cases, str_ne, ℕ, ◌≡◌, ◌≤◌, ◌⊎◌, sym, ap, String, Bool, List, [], ◌∷◌,
  ◌++◌, map, some, length, sum_by, arith,
}
use netobserv_spcg.Pcap.Bytes.{Bytes}
use netobserv_spcg.Pcap.Frame.{ethernet_payload}
use netobserv_spcg.Pcap.Meta.{FlowMeta, Formats, text}
use netobserv_spcg.Pcap.Session.{TrackedPod, FlowEvent}
use netobserv_spcg.Pcap.Topology.{
  TopologyEdge, SequenceStep, EdgeDetail, FlowTopology, pos, tracked_node_ids,
}
use netobserv_spcg.Pcap.Topology.Build.{
  build_flow_topology, new_acc, find_edge, edge_id, sequence_all,
}
use netobserv_spcg.Pcap.Topology.Build.Conversation.{IsEdge, seen, timeless, sequence_all-Perm}
use mathlib.Core.List.{Perm}
use netobserv_spcg.Common.Maps.{Map, lookup}
use netobserv_spcg.Pcap.Topology.Build.Returns.{IsReadable, AreReadable}
use netobserv_spcg.Pcap.Topology.Build.Closed.{count_flows, build_flow_topology-IsClosed}
use netobserv_spcg.Pcap.Topology.Bounded.{build_bounded_topology, build_bounded_topology-IsClosed}
use netobserv_spcg.Pcap.Topology.Limit.Kept.{IsClosed}

abbrev pub plain : Formats
plain = record { sprint = λ v. "value"; ip_text = λ b. "10.0.0.7" }

abbrev pub short_frame : Bytes
short_frame = 1 ∷ 2 ∷ 3 ∷ 4 ∷ 5 ∷ 6 ∷ 7 ∷ 8 ∷ []

abbrev call_meta : String → String → FlowMeta
call_meta from to =
    ("SrcK8S_Name", text from)
    ∷ ("SrcK8S_Namespace", text "shop")
    ∷ ("DstK8S_Name", text to)
    ∷ ("DstK8S_Namespace", text "shop")
    ∷ ("Proto", text "TCP")
    ∷ []

abbrev pub event : String → String → ℕ → FlowEvent FlowMeta
event from to at = record {
  time = at;
  capture_pod = "shop/web";
  capture_pod_uid = "u1";
  frame = short_frame;
  flow_meta = call_meta from to;
  sequence = at;
}

abbrev pub conversation : List (FlowEvent FlowMeta)
conversation = event "web" "cart" 100 ∷ event "cart" "web" 120 ∷ event "web" "cart" 130 ∷ []

abbrev web_pod : List TrackedPod
web_pod =
    record {
      namespace = "shop";
      name = "web";
      uid = "u1";
      owner_kind = "Deployment";
      pod_ip = "10.0.0.5";
      pod_ips = [];
    }
    ∷ []

pub ethernet_payload-short_frame :
    (b : Bytes) → ethernet_payload short_frame ≡ some b → b ≡ short_frame
unfolding ethernet_payload
ethernet_payload-short_frame b e = sym (some-injective _ _ e)

pub event-IsReadable : (from to : String) (at : ℕ) → IsReadable (event from to at)
event-IsReadable from to at = record {
  small = omega arith;
  whole = λ raw b e e' cut.
      let same = ethernet_payload-short_frame raw e in
      let same' = ethernet_payload-short_frame b (rw same at e') in
      omega (arith, cut.long, ap length same');
}

conversation-AreReadable : AreReadable plain conversation
conversation-AreReadable = (
  event-IsReadable "web" "cart" 100,
  (event-IsReadable "cart" "web" 120, (event-IsReadable "web" "cart" 130, tt)),
)

build_flow_topology-IsClosed_example :
    (topo : FlowTopology) × (build_flow_topology plain conversation web_pod ≡ some topo)
    × IsClosed topo
    × (sum_by (λ e. e.count) topo.edges ≡ count_flows plain web_pod conversation)
build_flow_topology-IsClosed_example =
    build_flow_topology-IsClosed plain conversation web_pod conversation-AreReadable

build_bounded_topology-IsClosed_example :
    (topo : FlowTopology) × (capped : Bool) × (build_bounded_topology plain conversation web_pod
      ≡ some (topo, capped))
    × IsClosed topo
    × (length topo.edges ≤ 150)
    × ((length topo.nodes ≤ 100) ⊎ (length topo.nodes ≤ length (tracked_node_ids web_pod [])))
build_bounded_topology-IsClosed_example =
    build_bounded_topology-IsClosed plain conversation web_pod conversation-AreReadable

abbrev marker : ℕ → SequenceStep
marker at = record {
  rel_us = pos 0;
  at_us = pos at;
  direction = "forward";
  phase = "data";
  lane = "forward";
  label = "TCP";
  flags = [];
  src_port = 40000;
  dst_port = 443;
}

abbrev no_detail : String → EdgeDetail
no_detail id = record {
  edge_id = id;
  srtt_ns = pos 0;
  bytes = 0;
  packets = 0;
  tcp_flags = [];
  tcp_state = "";
  drop_cause = "";
  drop_diagnosis = "";
  steps = [];
}

abbrev request : EdgeDetail
request = record (no_detail "a->b") { steps = marker 100 ∷ marker 130 ∷ [] }

abbrev response : EdgeDetail
response = record (no_detail "b->a") { steps = marker 120 ∷ [] }

abbrev both_ways : List TopologyEdge
both_ways = (new_acc "a" "b" "TCP").edge ∷ (new_acc "b" "a" "TCP").edge ∷ []

abbrev both_details : Map String EdgeDetail
both_details = ("a->b", request) ∷ ("b->a", response) ∷ []

request-IsEdge : IsEdge both_ways both_details "a->b" "b->a" request
unfolding find_edge edge_id lookup String-discrete Bool-cases
request-IsEdge = record {
  edge = (new_acc "a" "b" "TCP").edge;
  found = refl;
  reversed = refl;
  detail = refl;
}

response-IsEdge : IsEdge both_ways both_details "b->a" "a->b" response
unfolding find_edge edge_id lookup String-discrete Bool-cases
response-IsEdge = record {
  edge = (new_acc "b" "a" "TCP").edge;
  found = refl;
  reversed = refl;
  detail = refl;
}

sequence_all-Perm_example :
    (one : EdgeDetail) × (two : EdgeDetail) × (lookup String-discrete "a->b"
        (sequence_all both_ways ("a->b" ∷ "b->a" ∷ []) both_details)
      ≡ some one)
    × (lookup String-discrete "b->a" (sequence_all both_ways ("a->b" ∷ "b->a" ∷ []) both_details)
        ≡ some two)
    × Perm
        (map timeless one.steps)
        (map (seen "forward") request.steps ++ map (seen "reverse") response.steps)
    × Perm (map timeless two.steps) (
        map (seen "forward") response.steps
        ++ (map (seen "reverse") request.steps ++ map (seen "reverse") response.steps))
sequence_all-Perm_example =
    sequence_all-Perm both_ways both_details "a->b" "b->a" request response
      (str_ne "a->b" "b->a" refl) request-IsEdge response-IsEdge (omega arith)

build_flow_graph-build_flow_topology_example :
    (graph : FlowGraph) × (topo : FlowTopology) × (build_flow_graph plain conversation web_pod
      ≡ some graph)
    × (build_flow_topology plain conversation web_pod ≡ some topo)
    × (sum_by (λ e. e.count) graph.edges ≡ sum_by (λ e. e.count) topo.edges)
build_flow_graph-build_flow_topology_example =
    build_flow_graph-build_flow_topology plain conversation web_pod conversation-AreReadable
