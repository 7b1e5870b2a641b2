-- ===== src/Trace/Builder.antt =====
-- internal/trace/graph_builder.go: the path graph as it is built, a node and an edge at a time.
-- `nodeID` cuts and lowers ASCII text; `truncate`, which shortens a label, is left out.
pub mod Distinct
pub mod Finished
use netobserv_spcg.Common.{
  ℕ, ◌+◌, Bool, true, false, ◌||◌, List, [], ◌∷◌, ◌++◌, Option, some, none, String, str_eq,
  is_empty, if◌then◌else◌, length, map, ◌>>=◌,
}
use netobserv_spcg.Common.Int64.{ℤ, pos, negsuc}
use netobserv_spcg.Common.Sets.{IdSet, has, add}
use netobserv_spcg.Common.Text.{◌+++◌, to_lower, trim_space, decimal}
use netobserv_spcg.Trace.Types.{TraceNode, TraceEdge, PathSummary}
use netobserv_spcg.Trace.FocusPath.{mark_focus_path}
use netobserv_spcg.Trace.Simplify.{TraceGraph, layer_for_kind, simplified}
use netobserv_spcg.Trace.Layout.{rank_for_kind}

-- `OwnerRef` and `PodDetail` of internal/k8s/workloads.go.
pub record OwnerRef : Type 0 where
  pub kind : String
  pub name : String
  pub uid : String

pub record PodDetail : Type 0 where
  pub namespace : String
  pub name : String
  pub uid : String
  pub status : String
  pub pod_ip : String
  pub pod_ips : List String
  pub host_ip : String
  pub node_name : String
  pub label_selector : String
  pub owners : List OwnerRef
  pub primary_owner : Option OwnerRef

abbrev pub no_pod : PodDetail
no_pod = record {
  namespace = "";
  name = "";
  uid = "";
  status = "";
  pod_ip = "";
  pod_ips = [];
  host_ip = "";
  node_name = "";
  label_selector = "";
  owners = [];
  primary_owner = none;
}

-- `ipEndpointNode` of endpoints.go.
pub record IpEndpointNode : Type 0 where
  pub id : String
  pub label : String
  pub kind : String
  pub detail : String
  pub external : Bool

pub record GraphBuilder : Type 0 where
  pub source_pods : List PodDetail
  pub dest_pods : List PodDetail
  pub dest_ip : Option IpEndpointNode
  pub scope : IdSet
  pub anchor : PodDetail
  pub source_ids : IdSet
  pub dest_ids : IdSet
  pub nodes : List TraceNode
  pub edges : List TraceEdge
  pub paths : List PathSummary
  pub node_set : IdSet
  pub edge_set : IdSet

abbrev joined_id : String → String → String → String
joined_id kind ns name =
    if is_empty ns then kind +++ ("/" +++ name) else kind +++ ("/" +++ (ns +++ ("/" +++ name)))

-- `nodeID`.
unfoldable pub node_id : String → String → String → String
node_id kind ns name = joined_id (to_lower (trim_space kind)) (trim_space ns) (trim_space name)

unfoldable pub pod_node_id : PodDetail → String
pod_node_id p = node_id "pod" p.namespace p.name

abbrev first_pod : List PodDetail → PodDetail
first_pod [] = no_pod
first_pod (p ∷ pods) = p

abbrev pod_ids : List PodDetail → IdSet → IdSet
pod_ids [] ids = ids
pod_ids (p ∷ pods) ids = pod_ids pods (add (pod_node_id p) ids)

abbrev with_ip : Option IpEndpointNode → IdSet → IdSet
with_ip none ids = ids
with_ip (some ip) ids = add ip.id ids

-- `newGraphBuilder`.
unfoldable pub new_graph_builder :
    List PodDetail → List PodDetail → Option IpEndpointNode → IdSet → GraphBuilder
new_graph_builder source_pods dest_pods dest_ip scope = record {
  source_pods = source_pods;
  dest_pods = dest_pods;
  dest_ip = dest_ip;
  scope = scope;
  anchor = first_pod source_pods;
  source_ids = pod_ids source_pods [];
  dest_ids = with_ip dest_ip (pod_ids dest_pods []);
  nodes = [];
  edges = [];
  paths = [];
  node_set = [];
  edge_set = [];
}

abbrev pub has_node : String → GraphBuilder → Bool
has_node id b = has id b.node_set

unfoldable pub anchor_pod_id : GraphBuilder → String
anchor_pod_id b = if is_empty b.anchor.name then "" else pod_node_id b.anchor

unfoldable pub anchor_node_id : GraphBuilder → String
anchor_node_id b = if is_empty b.anchor.node_name then "" else node_id "node" "" b.anchor.node_name

-- The arguments of `addNode`.
pub record NewNode : Type 0 where
  pub id : String
  pub label : String
  pub kind : String
  pub namespace : String
  pub tracked : Bool
  pub focused : Bool
  pub rank : ℤ
  pub detail : String

-- A negative rank stands for that of the kind.
abbrev rank_or : String → ℤ → ℕ
rank_or kind (pos n) = n
rank_or kind (negsuc n) = rank_for_kind kind

abbrev pub made_node : NewNode → TraceNode
made_node n = record {
  id = n.id;
  label = n.label;
  kind = n.kind;
  layer = "";
  namespace = n.namespace;
  rank = rank_or n.kind n.rank;
  track = "";
  x = 0;
  y = 0;
  width = 0;
  height = 0;
  tracked = n.tracked;
  focused = n.focused;
  status = "pending";
  detail = n.detail;
}

-- `addNode`: an id that is there is not added again.
unfoldable pub add_node : NewNode → GraphBuilder → GraphBuilder
add_node n b =
    if has n.id b.node_set
    then b
    else record b { node_set = add n.id b.node_set; nodes = b.nodes ++ (made_node n ∷ []) }

-- The arguments of `addEdge`.
pub record NewEdge : Type 0 where
  pub from : String
  pub to : String
  pub edge_type : String
  pub primary : Bool
  pub label : String
  pub drop : Bool

unfoldable pub edge_key : NewEdge → String
edge_key e = e.from +++ ("->" +++ (e.to +++ (":" +++ e.edge_type)))

unfoldable pub edge_number : ℕ → String
edge_number n = "e-" +++ decimal n

abbrev pub made_edge : NewEdge → ℕ → TraceEdge
made_edge e count = record {
  id = edge_number (count + 1);
  from = e.from;
  to = e.to;
  edge_type = e.edge_type;
  primary = e.primary;
  drop = e.drop;
  label = e.label;
}

-- `addEdge`: no loop, no edge without an end, and none twice.
unfoldable pub add_edge : NewEdge → GraphBuilder → GraphBuilder
add_edge e b =
    if is_empty e.from || (is_empty e.to || str_eq e.from e.to)
    then b
    else if has (edge_key e) b.edge_set
    then b
    else record b {
      edge_set = add (edge_key e) b.edge_set;
      edges = b.edges ++ (made_edge e (length b.edges) ∷ []);
    }

-- `addPath`.
unfoldable pub add_path : PathSummary → GraphBuilder → GraphBuilder
add_path p b = record b { paths = b.paths ++ (p ∷ []) }

abbrev pod_node : PodDetail → ℕ → NewNode
pod_node p rank = record {
  id = pod_node_id p;
  label = p.name;
  kind = "pod";
  namespace = p.namespace;
  tracked = true;
  focused = false;
  rank = pos rank;
  detail = p.pod_ip;
}

abbrev host_node : PodDetail → NewNode
host_node p = record {
  id = node_id "node" "" p.node_name;
  label = p.node_name;
  kind = "node";
  namespace = "";
  tracked = false;
  focused = false;
  rank = pos (rank_for_kind "node");
  detail = "scheduled node";
}

abbrev scheduled : PodDetail → NewEdge
scheduled p = record {
  from = pod_node_id p;
  to = node_id "node" "" p.node_name;
  edge_type = "scheduled";
  primary = false;
  label = "";
  drop = false;
}

unfoldable pub seed_source : PodDetail → GraphBuilder → GraphBuilder
seed_source p b =
    let b' = add_node (pod_node p 0) b in
    if is_empty p.node_name then b' else add_edge (scheduled p) (add_node (host_node p) b')

unfoldable pub seed_sources : List PodDetail → GraphBuilder → GraphBuilder
seed_sources [] b = b
seed_sources (p ∷ pods) b = seed_sources pods (seed_source p b)

unfoldable pub seed_dests : List PodDetail → GraphBuilder → GraphBuilder
seed_dests [] b = b
seed_dests (p ∷ pods) b = seed_dests pods (add_node (pod_node p 5) b)

unfoldable pub seed_ip : Option IpEndpointNode → GraphBuilder → GraphBuilder
seed_ip none b = b
seed_ip (some ip) b =
    add_node
      (record {
        id = ip.id;
        label = ip.label;
        kind = ip.kind;
        namespace = "";
        tracked = true;
        focused = false;
        rank = pos 5;
        detail = ip.detail;
      })
      b

-- `seedEndpoints`.
unfoldable pub seed_endpoints : GraphBuilder → GraphBuilder
seed_endpoints b = seed_ip b.dest_ip (seed_dests b.dest_pods (seed_sources b.source_pods b))

unfoldable pub with_layers : List TraceNode → List TraceNode
with_layers nodes =
    map
      (λ (n : TraceNode).
        if is_empty n.layer then record n { layer = layer_for_kind n.kind } else n)
      nodes

-- `finish` up to the layout; `none` is that the search of the focus path ran out of fuel.
unfoldable pub finish : GraphBuilder → Option TraceGraph
finish b = do
  marked ← mark_focus_path b.node_set b.source_ids b.dest_ids b.nodes b.edges
  some (simplified (record { nodes = with_layers marked.0; edges = marked.1; paths = b.paths }))
