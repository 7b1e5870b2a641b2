-- ===== src/Tests/Tenants.antt =====
-- internal/rbac/sanitize.go on a result with a sensitive node.
use netobserv_spcg.Common.{ℕ, ◌≡◌, String, Bool, true, false, [], ◌∷◌}
use netobserv_spcg.Rbac.Sanitize.{
  TopologyNode, TopologyEdge, LayerRegion, TopologyResult, Zeros, sanitize_topology_result,
}
use netobserv_spcg.Trace.Types.{TraceNode, TraceEdge}
use netobserv_spcg.Trace.Simplify.{TraceGraph}
use netobserv_spcg.Rbac.Sanitize.Safe.{IsPublic, IsVisibleGraph, sanitize_topology_result-IsPublic}

abbrev seen : String → String → Bool → TopologyNode ℕ
seen id layer sensitive = record {
  id = id;
  label = id;
  neo4j_label = "Pod";
  layer = layer;
  shape = "rounded";
  namespace = "shop";
  kind = "pod";
  detail = "10.0.0.1";
  properties = [];
  sensitive = sensitive;
  bounding_key = "";
  rank = 0;
  x = 0;
  y = 0;
}

abbrev hop : String → String → TopologyEdge
hop from to = record {
  id = from;
  from = from;
  to = to;
  rel_type = "ROUTES";
  layer = "logical";
  primary = true;
  label = "";
  open_flow_cookie = "0x1";
  acl_metadata = "allow";
  state = "THEORY_ONLY";
}

abbrev region : LayerRegion ℕ
region = record { label = "Layer"; anchor = ""; x = 0; y = 0; width = 10; height = 10 }

abbrev vertex : String → String → String → TraceNode
vertex id kind layer = record {
  id = id;
  label = id;
  kind = kind;
  layer = layer;
  namespace = "shop";
  rank = 0;
  track = "shared";
  x = 0;
  y = 0;
  width = 10;
  height = 10;
  tracked = false;
  focused = false;
  status = "";
  detail = "";
}

abbrev link : String → String → TraceEdge
link from to = record {
  id = from;
  from = from;
  to = to;
  edge_type = "ROUTES";
  primary = true;
  drop = false;
  label = "";
}

abbrev traced : TraceGraph
traced = record {
  nodes =
      vertex "a" "pod" "logical" ∷ vertex "b" "service" "logical" ∷ vertex "c" "VRF" "logical" ∷ [];
  edges = link "a" "b" ∷ link "b" "c" ∷ [];
  paths = [];
}

abbrev full_result : TopologyResult ℕ String String String String
full_result = record {
  rest = "trace";
  graph = traced;
  logical = "plane";
  infrastructure = "bridges";
  physical = "routes";
  nodes =
      seen "web" "logical" false
      ∷ seen "cart" "logical" false
      ∷ seen "router" "logical" true
      ∷ seen "host" "physical" false
      ∷ [];
  edges = hop "web" "cart" ∷ hop "cart" "router" ∷ hop "router" "host" ∷ [];
  layers = record { logical = region; infrastructure = region; physical = region };
}

abbrev nothing : Zeros ℕ String String
nothing = record { float = 0; infrastructure = ""; physical = "" }

sanitize_topology_result-IsPublic_example :
    IsPublic
      (sanitize_topology_result nothing full_result).nodes
      (sanitize_topology_result nothing full_result).edges
    × IsVisibleGraph (sanitize_topology_result nothing full_result).graph
    × ((sanitize_topology_result nothing full_result).infrastructure ≡ nothing.infrastructure)
    × ((sanitize_topology_result nothing full_result).physical ≡ nothing.physical)
    × ((sanitize_topology_result nothing full_result).layers.infrastructure.label ≡ "")
    × ((sanitize_topology_result nothing full_result).layers.physical.label ≡ "")
    × ((sanitize_topology_result nothing full_result).logical ≡ "plane")
    × ((sanitize_topology_result nothing full_result).graph.paths ≡ [])
    × ((sanitize_topology_result nothing full_result).rest ≡ "trace")
sanitize_topology_result-IsPublic_example = sanitize_topology_result-IsPublic nothing full_result
