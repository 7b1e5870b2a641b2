-- ===== src/Tests/Paths.antt =====
-- internal/trace/path_focus.go on a graph with two ways from a client to a server, and
-- graph_simplify.go on a graph of one hop.
use netobserv_spcg.Common.{
  ◌≡◌, ◌↔◌, refl, String, Bool, true, false, List, [], ◌∷◌, Option, some, Elem,
}
use netobserv_spcg.Trace.Types.{TraceEdge}
use netobserv_spcg.Common.{subst, here, there}
use netobserv_spcg.Trace.Types.{TraceNode}
use netobserv_spcg.Trace.Simplify.{TraceGraph, simplified}
use netobserv_spcg.Trace.Simplify.Closed.{IsConnected, HasVertex, simplified-IsConnected}
use netobserv_spcg.Trace.FocusPath.{IdSet, best_path, add_adjacency, neighbours}
use netobserv_spcg.Trace.FocusPath.Adjacent.{Adjacent, neighbours_iff}
use netobserv_spcg.Trace.FocusPath.Seed.{IsSource}
use netobserv_spcg.Trace.FocusPath.Shortest.{IsBest, best_path-IsBest}

abbrev edge : String → String → String → TraceEdge
edge id from to = record {
  id = id;
  from = from;
  to = to;
  edge_type = "direct";
  primary = true;
  drop = false;
  label = "";
}

abbrev two_ways : List TraceEdge
two_ways =
    edge "e1" "client" "router"
    ∷ edge "e2" "router" "node"
    ∷ edge "e3" "node" "server"
    ∷ edge "e4" "server" "router"
    ∷ []

abbrev vertices : IdSet
vertices = ("client", tt) ∷ ("router", tt) ∷ ("node", tt) ∷ ("server", tt) ∷ []

abbrev clients : IdSet
clients = ("client", tt) ∷ []

abbrev servers : IdSet
servers = ("server", tt) ∷ []

best_path-two_ways :
    best_path two_ways vertices clients servers ≡ some (some ("client" ∷ "router" ∷ "server" ∷ []))
unfolding best_path netobserv_spcg.Trace.FocusPath.search_path
    netobserv_spcg.Trace.FocusPath.seed_queue netobserv_spcg.Common.Maps.contains
    netobserv_spcg.Common.Maps.lookup netobserv_spcg.Common.String-discrete
    netobserv_spcg.Common.Bool-cases netobserv_spcg.Trace.FocusPath.visit_neighbours neighbours
    add_adjacency netobserv_spcg.Trace.FocusPath.link netobserv_spcg.Common.Maps.insert
best_path-two_ways = refl

best_path-IsBest_example :
    (best : Option (List String)) × (best_path two_ways vertices clients servers ≡ some best)
    × IsBest (add_adjacency two_ways []) servers (IsSource vertices clients) best
best_path-IsBest_example = best_path-IsBest two_ways vertices clients servers

neighbours_iff_example :
    Elem "server" (neighbours (add_adjacency two_ways []) "router")
    ↔ Adjacent "router" "server" two_ways
neighbours_iff_example = neighbours_iff two_ways "router" "server"

abbrev vertex_of : String → TraceNode
vertex_of id = record {
  id = id;
  label = id;
  kind = "pod";
  layer = "";
  namespace = "";
  rank = 0;
  track = "";
  x = 0;
  y = 0;
  width = 0;
  height = 0;
  tracked = false;
  focused = false;
  status = "pending";
  detail = "";
}

abbrev one_hop : TraceGraph
one_hop = record {
  nodes = vertex_of "client" ∷ vertex_of "policy" ∷ vertex_of "router" ∷ [];
  edges = edge "e1" "client" "router" ∷ [];
  paths = [];
}

one_hop-IsConnected : IsConnected one_hop
one_hop-IsConnected e (here q) =
    subst (λ (f : TraceEdge). HasVertex f.from one_hop.nodes × HasVertex f.to one_hop.nodes) q
      (
        record { vertex = vertex_of "client"; inside = here refl; same = refl },
        record { vertex = vertex_of "router"; inside = there (there (here refl)); same = refl },
      )
one_hop-IsConnected e (there m) = elim m [ ]

simplified-IsConnected_example :
    ((e : TraceEdge) → Elem e one_hop.edges → e.primary ≡ true → Elem e (simplified one_hop).edges)
    × IsConnected (simplified one_hop)
simplified-IsConnected_example = simplified-IsConnected one_hop one_hop-IsConnected
