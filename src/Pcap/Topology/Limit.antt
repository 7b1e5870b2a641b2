-- ===== src/Pcap/Topology/Limit.antt =====
-- `LimitFlowTopology` of internal/pcap/topology_limits.go. Go ranges over the set `keepNodes` in an
-- order that it leaves open, which decides between equally heavy nodes; here it is the order of
-- insertion. The maxima are not negative.
pub mod Sizes
pub mod Kept
use netobserv_spcg.Common.{
  ℕ, ◌+◌, ◌-◌, ◌%◌, String, String-discrete, str_eq, Bool, true, false, not, ◌&&◌, ◌||◌, List, [],
  ◌∷◌, Option, some, none, map, ltb, ◌==◌, if◌then◌else◌, length, take, keep,
}
use netobserv_spcg.Common.Maps.{Map, lookup, insert}
use netobserv_spcg.Common.Sets.{IdSet, has, add_ids}
use netobserv_spcg.Common.Sort.{str_lt, sort_slice}
use netobserv_spcg.Pcap.Session.{TrackedPod, u64_mod}
use netobserv_spcg.Pcap.Topology.{
  TopologyNode, TopologyEdge, FlowTopology, tracked_node_ids, ends_of, details_of, namespaces_of,
  max_topology_nodes, max_topology_edges,
}

-- `nodeByID`.
unfoldable pub node_by_id : List TopologyNode → Map String TopologyNode → Map String TopologyNode
node_by_id [] out = out
node_by_id (n ∷ nodes) out = node_by_id nodes (insert String-discrete n.id n out)

abbrev pub heavier : TopologyEdge → TopologyEdge → Bool
heavier e f = if e.bytes == f.bytes then ltb f.packets e.packets else ltb f.bytes e.bytes

-- The edges by falling weight, cut at the maximum.
unfoldable pub heaviest : ℕ → List TopologyEdge → List TopologyEdge
heaviest max_edges es =
    let sorted = sort_slice heavier es in
    if ltb max_edges (length sorted) then take max_edges sorted else sorted

abbrev or_no_bytes : Option ℕ → ℕ
or_no_bytes none = 0
or_no_bytes (some n) = n

-- `bytesByNode[id] += bytes`.
abbrev add_bytes : String → ℕ → Map String ℕ → Map String ℕ
add_bytes id bytes m =
    insert String-discrete id ((or_no_bytes (lookup String-discrete id m) + bytes) % u64_mod) m

unfoldable pub bytes_by_node : List TopologyEdge → Map String ℕ → Map String ℕ
bytes_by_node [] out = out
bytes_by_node (e ∷ es) out =
    bytes_by_node es (add_bytes e.to e.bytes (add_bytes e.from e.bytes out))

pub record NodeScore : Type 0 where
  pub id : String
  pub bytes : ℕ

-- The scores of the ids that are not tracked.
unfoldable pub node_scores : IdSet → IdSet → Map String ℕ → List NodeScore
node_scores [] tracked_set bytes = []
node_scores ((id, u) ∷ keep_nodes) tracked_set bytes =
    let rest = node_scores keep_nodes tracked_set bytes in
    if has id tracked_set
    then rest
    else record { id = id; bytes = or_no_bytes (lookup String-discrete id bytes) } ∷ rest

-- The tracked ids, and the ids of the heaviest others up to the maximum.
unfoldable pub allowed_nodes : ℕ → List TopologyEdge → IdSet → IdSet → IdSet
allowed_nodes max_nodes es tracked_set keep_nodes =
    let scores =
      sort_slice (λ (a : NodeScore) (b : NodeScore). ltb b.bytes a.bytes)
        (node_scores keep_nodes tracked_set (bytes_by_node es [])) in
    add_ids (map (λ (s : NodeScore). s.id) (take (max_nodes - length tracked_set) scores))
      tracked_set

-- `keepNodes` after the limit.
unfoldable pub kept_nodes : ℕ → List TopologyEdge → IdSet → IdSet
kept_nodes max_nodes es tracked_set =
    let keep_nodes = ends_of es tracked_set in
    if ltb max_nodes (length keep_nodes)
    then allowed_nodes max_nodes es tracked_set keep_nodes
    else keep_nodes

abbrev node_if : Option TopologyNode → List TopologyNode → List TopologyNode
node_if none rest = rest
node_if (some n) rest = n ∷ rest

-- The nodes of the ids that have one.
unfoldable pub nodes_of : IdSet → Map String TopologyNode → List TopologyNode
nodes_of [] by_id = []
nodes_of ((id, u) ∷ ids) by_id = node_if (lookup String-discrete id by_id) (nodes_of ids by_id)

abbrev pub has_ends : IdSet → TopologyEdge → Bool
has_ends ids e = has e.from ids && has e.to ids

unfoldable pub limited : FlowTopology → IdSet → ℕ → ℕ → FlowTopology
limited topo tracked_set max_nodes max_edges =
    let es = heaviest max_edges topo.edges in
    let ids = kept_nodes max_nodes es tracked_set in
    let edges = keep (has_ends ids) es in
    let found = nodes_of ids (node_by_id topo.nodes []) in
    record {
      nodes = sort_slice (λ (a : TopologyNode) (b : TopologyNode). str_lt a.id b.id) found;
      edges = edges;
      namespaces = namespaces_of found;
      edge_detail = details_of edges topo.edge_detail [];
    }

-- `if max <= 0 { max = default }`.
abbrev pub or_default : ℕ → ℕ → ℕ
or_default max default = if max == 0 then default else max

-- `LimitFlowTopology`.
unfoldable pub limit_flow_topology : FlowTopology → List TrackedPod → ℕ → ℕ → FlowTopology × Bool
limit_flow_topology topo tracked max_nodes max_edges =
    let n = or_default max_nodes max_topology_nodes in
    let e = or_default max_edges max_topology_edges in
    if ltb n (length topo.nodes) || ltb e (length topo.edges)
    then (limited topo (tracked_node_ids tracked []) n e, true)
    else (topo, false)
