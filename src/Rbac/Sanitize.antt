-- ===== src/Rbac/Sanitize.antt =====
-- internal/rbac/sanitize.go: a trace result as a tenant of single namespaces sees it. The planes that
-- are emptied or passed through are of any type, as is float64.
pub mod Safe
use netobserv_spcg.Common.{
  String, str_eq, is_empty, Bool, true, false, not, ◌&&◌, ◌||◌, List, [], ◌∷◌, Option, some, none,
  map, keep, if◌then◌else◌,
}
use netobserv_spcg.Common.{ℕ}
use netobserv_spcg.Common.Maps.{Map}
use netobserv_spcg.Common.Sets.{IdSet, has, add}
use netobserv_spcg.Common.Text.{is_one_of, to_lower}
use netobserv_spcg.Trace.Types.{TraceNode, TraceEdge}
use netobserv_spcg.Trace.Simplify.{TraceGraph}

-- `TopologyNode` of internal/trace/engine/types.go.
pub record TopologyNode (Float : Type 0) : Type 0 where
  pub id : String
  pub label : String
  pub neo4j_label : String
  pub layer : String
  pub shape : String
  pub namespace : String
  pub kind : String
  pub detail : String
  pub properties : Map String String
  pub sensitive : Bool
  pub bounding_key : String
  pub rank : ℕ
  pub x : Float
  pub y : Float

-- `TopologyEdge` of the same file.
pub record TopologyEdge : Type 0 where
  pub id : String
  pub from : String
  pub to : String
  pub rel_type : String
  pub layer : String
  pub primary : Bool
  pub label : String
  pub open_flow_cookie : String
  pub acl_metadata : String
  pub state : String

pub record LayerRegion (Float : Type 0) : Type 0 where
  pub label : String
  pub anchor : String
  pub x : Float
  pub y : Float
  pub width : Float
  pub height : Float

pub record VisualizationLayers (Float : Type 0) : Type 0 where
  pub logical : LayerRegion Float
  pub infrastructure : LayerRegion Float
  pub physical : LayerRegion Float

-- The endpoints and the edge states are passed through; they are `rest`.
pub record TopologyResult (Float Rest Logical Infrastructure Physical : Type 0) : Type 0 where
  pub rest : Rest
  pub graph : TraceGraph
  pub logical : Logical
  pub infrastructure : Infrastructure
  pub physical : Physical
  pub nodes : List (TopologyNode Float)
  pub edges : List TopologyEdge
  pub layers : VisualizationLayers Float

-- `isInfraKind`.
unfoldable pub is_infra_kind : String → Bool
is_infra_kind kind = is_one_of (to_lower kind) (
    "node" ∷ "bond" ∷ "host-veth" ∷ "vrf" ∷ "bgp-peer" ∷ "metallb-pool" ∷ "metallb-advertisement"
    ∷ "ovs-bridge" ∷ "logical-switch" ∷ "logical-router" ∷ [])

-- The ids of the elements of a list.
unfoldable pub ids_of : {A : Type 0} → (A → String) → List A → IdSet → IdSet
ids_of key [] ids = ids
ids_of key (x ∷ xs) ids = ids_of key xs (add (key x) ids)

-- A node that is kept in the trace graph; the rewriting of an infrastructure node is never reached.
unfoldable pub is_visible : TraceNode → Bool
is_visible n =
    not (str_eq n.layer "physical" || is_infra_kind n.kind)
    && not (is_one_of n.kind ("node" ∷ "bond" ∷ "bgp-peer" ∷ []))

-- `sanitizeTraceGraph`: the paths are left as they are.
unfoldable pub sanitize_trace_graph : TraceGraph → TraceGraph
sanitize_trace_graph g =
    let nodes = keep is_visible g.nodes in
    let ids = ids_of (λ (n : TraceNode). n.id) nodes [] in
    record g {
      nodes = nodes;
      edges = keep (λ (e : TraceEdge). has e.from ids && has e.to ids) g.edges;
    }

abbrev pub is_allowed : IdSet → TopologyEdge → Bool
is_allowed ids e = str_eq e.layer "logical" && (has e.from ids && has e.to ids)

abbrev pub without_flows : TopologyEdge → TopologyEdge
without_flows e = record e { open_flow_cookie = ""; acl_metadata = "" }

module _ {Float : Type 0} where
  -- `abstractLabel`.
  unfoldable pub abstract_label : TopologyNode Float → String
  abstract_label n =
      if str_eq n.neo4j_label "NetworkAttachmentDefinition"
      then "Secondary network"
      else if str_eq n.neo4j_label "EgressIP"
      then "Egress gateway"
      else if is_one_of n.neo4j_label ("LoadBalancer" ∷ "BGP_Peer" ∷ [])
      then "External entry"
      else n.label

  -- `abstractDetail`: the namespace, empty or not.
  unfoldable pub abstract_detail : TopologyNode Float → String
  abstract_detail n = n.namespace

  abbrev pub is_public : TopologyNode Float → Bool
  is_public n = not (n.sensitive || not (str_eq n.layer "logical"))

  abbrev pub abstracted : TopologyNode Float → TopologyNode Float
  abstracted n = record n { label = abstract_label n; detail = abstract_detail n }

  -- `filterNodes`.
  unfoldable pub filter_nodes : List (TopologyNode Float) → List (TopologyNode Float)
  filter_nodes nodes = map abstracted (keep is_public nodes)

  -- `filterEdges`.
  unfoldable pub filter_edges : List (TopologyNode Float) → List TopologyEdge → List TopologyEdge
  filter_edges nodes edges =
      map without_flows (
        keep (is_allowed (ids_of (λ (n : TopologyNode Float). n.id) (filter_nodes nodes) [])) edges)

  abbrev no_region : Float → LayerRegion Float
  no_region zero = record {
    label = "";
    anchor = "";
    x = zero;
    y = zero;
    width = zero;
    height = zero;
  }

  -- `collapseLayers`.
  unfoldable pub collapse_layers : Float → VisualizationLayers Float → VisualizationLayers Float
  collapse_layers zero layers = record {
    logical = record layers.logical { label = "Logical path"; anchor = "top-left" };
    infrastructure = no_region zero;
    physical = no_region zero;
  }

-- The zero values that the code assigns.
pub record Zeros (Float Infrastructure Physical : Type 0) : Type 0 where
  pub float : Float
  pub infrastructure : Infrastructure
  pub physical : Physical

module _ {Float Rest Logical Infrastructure Physical : Type 0}
    (zeros : Zeros Float Infrastructure Physical) where
  -- `SanitizeTopologyResult` of a result that is there.
  unfoldable pub sanitize_topology_result :
      TopologyResult Float Rest Logical Infrastructure Physical
      → TopologyResult Float Rest Logical Infrastructure Physical
  sanitize_topology_result topo = record topo {
    infrastructure = zeros.infrastructure;
    physical = zeros.physical;
    nodes = filter_nodes topo.nodes;
    edges = filter_edges topo.nodes topo.edges;
    graph = sanitize_trace_graph topo.graph;
    layers = collapse_layers zeros.float topo.layers;
  }

  -- `ApplyTraceSanitization`, with the context's `SanitizeInfra`; `none` is a nil result.
  unfoldable pub apply_trace_sanitization :
      Bool
      → Option (TopologyResult Float Rest Logical Infrastructure Physical)
      → Option (TopologyResult Float Rest Logical Infrastructure Physical)
  apply_trace_sanitization sanitize none = none
  apply_trace_sanitization sanitize (some topo) =
      if sanitize then some (sanitize_topology_result topo) else some topo
