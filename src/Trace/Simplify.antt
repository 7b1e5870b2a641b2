-- ===== src/Trace/Simplify.antt =====
-- internal/trace/graph_simplify.go: the graph cut down to its endpoints and the focused path.
-- `simplified` is what `simplifyGraph` hands to the drawing of layout.go, which is not modelled.
pub mod Closed
use netobserv_spcg.Common.{
  ℕ, ◌+◌, ◌-◌, String, str_eq, is_empty, Bool, true, false, ◌&&◌, ◌||◌, List, [], ◌∷◌, map, keep,
  if◌then◌else◌, length, ◌==◌,
}
use netobserv_spcg.Common.Sets.{IdSet, has, add}
use netobserv_spcg.Common.Text.{is_one_of}
use netobserv_spcg.Trace.Types.{TraceNode, TraceEdge, PathSummary, TraceGraphStats}

pub record TraceGraph : Type 0 where
  pub nodes : List TraceNode
  pub edges : List TraceEdge
  pub paths : List PathSummary

abbrev physical_kinds : List String
physical_kinds =
    "node" ∷ "bond" ∷ "host-veth" ∷ "vrf" ∷ "nad" ∷ "ovn-logical-port" ∷ "bgp-peer"
    ∷ "metallb-advertisement" ∷ []

unfoldable pub layer_for_kind : String → String
layer_for_kind kind = if is_one_of kind physical_kinds then "physical" else "logical"

-- The ids of the tracked and the focused nodes.
unfoldable pub endpoint_ids : List TraceNode → IdSet → IdSet
endpoint_ids [] ids = ids
endpoint_ids (n ∷ nodes) ids =
    endpoint_ids nodes (if n.tracked || n.focused then add n.id ids else ids)

-- And both ends of the primary edges.
unfoldable pub primary_ids : List TraceEdge → IdSet → IdSet
primary_ids [] ids = ids
primary_ids (e ∷ edges) ids =
    primary_ids edges (if e.primary then add e.to (add e.from ids) else ids)

unfoldable pub with_layer : TraceNode → TraceNode
with_layer n = if is_empty n.layer then record n { layer = layer_for_kind n.kind } else n

unfoldable pub kept_ids : TraceGraph → IdSet
kept_ids g = primary_ids g.edges (endpoint_ids g.nodes [])

unfoldable pub cut : TraceGraph → TraceGraph
cut g = record {
  nodes = map with_layer (keep (λ n. has n.id (kept_ids g)) g.nodes);
  edges = keep (λ e. has e.from (kept_ids g) && has e.to (kept_ids g)) g.edges;
  paths = keep (λ p. str_eq p.status "discovered") g.paths;
}

-- A graph without nodes is returned as it is.
unfoldable pub simplified : TraceGraph → TraceGraph
simplified g = if length g.nodes == 0 then g else cut g

unfoldable pub count_nodes : List TraceNode → TraceGraphStats → TraceGraphStats
count_nodes [] st = st
count_nodes (n ∷ nodes) st =
    let physical = str_eq n.layer "physical" in
    count_nodes nodes (record st {
      focused_nodes = if n.focused || n.tracked then st.focused_nodes + 1 else st.focused_nodes;
      physical_nodes = if physical then st.physical_nodes + 1 else st.physical_nodes;
      logical_nodes = if physical then st.logical_nodes else st.logical_nodes + 1;
    })

-- `graphStats`; there are no more nodes than in total.
unfoldable pub graph_stats : ℕ → List TraceNode → TraceGraphStats
graph_stats total nodes = count_nodes nodes (record {
  total_nodes = total;
  focused_nodes = 0;
  logical_nodes = 0;
  physical_nodes = 0;
  pruned_nodes = total - length nodes;
})
