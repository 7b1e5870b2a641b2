-- ===== src/Pcap/Topology.antt =====
-- internal/pcap/topology.go and topology_limits.go: the graph of flows between workloads, its
-- restriction to the selected pods and its limits on nodes and edges.
pub mod Selection
pub mod Limit
pub mod Nodes
pub mod Labels
pub mod Build
pub mod Bounded
use Prim.Native.String.{◌++◌ as str_append}
use netobserv_spcg.Common.{
  ℕ, ◌+◌, ◌-◌, ◌%◌, String, String-discrete, str_eq, is_empty, Bool, true, false, not, ◌&&◌, ◌||◌,
  List, [], ◌∷◌, Option, some, none, map, ltb, ◌==◌, if◌then◌else◌, length, take, drop, keep,
}
pub use netobserv_spcg.Common.Int64.{ℤ, pos, negsuc}
use netobserv_spcg.Common.Maps.{Map, lookup, insert}
use netobserv_spcg.Common.Sets.{IdSet, has, add, add_ids}
use netobserv_spcg.Common.Sort.{str_lt, sort_slice}
use netobserv_spcg.Pcap.Session.{TrackedPod, FlowEvent, trim, u64_mod}

pub record TopologyNode : Type 0 where
  pub id : String
  pub label : String
  pub kind : String
  pub namespace : String
  pub pod : String
  pub owner_kind : String
  pub owner_name : String
  pub host_name : String
  pub host_ip : String

pub record TopologyEdge : Type 0 where
  pub id : String
  pub from : String
  pub to : String
  pub health : String
  pub proto : String
  pub src_port : ℕ
  pub dst_port : ℕ
  pub count : ℕ
  pub bytes : ℕ
  pub packets : ℕ
  pub srtt_ns : ℤ
  pub max_srtt_ns : ℤ
  pub drop_cause : String
  pub drop_diagnosis : String
  pub tcp_flags : List String
  pub tcp_state : String

pub record SequenceStep : Type 0 where
  pub rel_us : ℤ
  pub at_us : ℤ
  pub direction : String
  pub phase : String
  pub lane : String
  pub label : String
  pub flags : List String
  pub src_port : ℕ
  pub dst_port : ℕ

pub record EdgeDetail : Type 0 where
  pub edge_id : String
  pub srtt_ns : ℤ
  pub bytes : ℕ
  pub packets : ℕ
  pub tcp_flags : List String
  pub tcp_state : String
  pub drop_cause : String
  pub drop_diagnosis : String
  pub steps : List SequenceStep

pub record FlowTopology : Type 0 where
  pub nodes : List TopologyNode
  pub edges : List TopologyEdge
  pub namespaces : List String
  pub edge_detail : Map String EdgeDetail

-- `trackedNodeIDs`.
unfoldable pub tracked_node_ids : List TrackedPod → IdSet → IdSet
tracked_node_ids [] out = out
tracked_node_ids (p ∷ tracked) out = tracked_node_ids tracked (
    if not (is_empty p.namespace) && not (is_empty p.name)
    then add (str_append p.namespace (str_append "/" p.name)) out
    else out)

-- The set of both ends of the edges, on top of the ids that are in it.
unfoldable pub ends_of : List TopologyEdge → IdSet → IdSet
ends_of [] ids = ids
ends_of (e ∷ edges) ids = ends_of edges (add e.to (add e.from ids))

unfoldable pub detail_if :
    String → Option EdgeDetail → Map String EdgeDetail → Map String EdgeDetail
detail_if id none out = out
detail_if id (some d) out = insert String-discrete id d out

-- The details of the edges that have one.
unfoldable pub details_of :
    List TopologyEdge → Map String EdgeDetail → Map String EdgeDetail → Map String EdgeDetail
details_of [] details out = out
details_of (e ∷ edges) details out =
    details_of edges details (detail_if e.id (lookup String-discrete e.id details) out)

unfoldable pub namespace_set : List TopologyNode → IdSet → IdSet
namespace_set [] ns = ns
namespace_set (n ∷ nodes) ns =
    namespace_set nodes (if is_empty n.namespace then ns else add n.namespace ns)

-- `sort.Strings` of the keys of the set.
unfoldable pub namespaces_of : List TopologyNode → List String
namespaces_of nodes = sort_slice str_lt (map (λ entry. entry.0) (namespace_set nodes []))

abbrev pub is_selected : IdSet → TopologyEdge → Bool
is_selected tracked e = has e.from tracked || has e.to tracked

-- `FilterTopologyToSelection`.
unfoldable pub filter_topology_to_selection : FlowTopology → IdSet → FlowTopology
filter_topology_to_selection full tracked =
    let edges = keep (is_selected tracked) full.edges in
    let nodes = keep (λ n. has n.id (ends_of edges [])) full.nodes in
    if length tracked == 0 then full else record {
      nodes = nodes;
      edges = edges;
      namespaces = namespaces_of nodes;
      edge_detail = details_of edges full.edge_detail [];
    }

abbrev pub max_topology_build_events : ℕ
max_topology_build_events = 2500

abbrev pub max_topology_nodes : ℕ
max_topology_nodes = 100

abbrev pub max_topology_edges : ℕ
max_topology_edges = 150

module _ {Meta : Type 0} where
  -- `SampleEventsForGraph`; no maximum, 0, takes all events.
  unfoldable pub sample_events_for_graph : List (FlowEvent Meta) → ℕ → List (FlowEvent Meta)
  sample_events_for_graph events max = if max == 0 then events else trim max events
