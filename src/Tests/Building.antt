-- ===== src/Tests/Building.antt =====
-- internal/trace/graph_builder.go on two pods and a service.
use netobserv_spcg.Common.{◌≡◌, String, false, List, [], ◌∷◌, some, none, arith}
use netobserv_spcg.Common.Int64.{negsuc}
use netobserv_spcg.Trace.Layout.{Sizes, context, place_at}
use netobserv_spcg.Trace.Layout.Places.{IsApart, place_at-IsApart}
use netobserv_spcg.Trace.Simplify.{TraceGraph}
use netobserv_spcg.Trace.Builder.{
  PodDetail, NewNode, NewEdge, no_pod, new_graph_builder, seed_endpoints, finish,
}
use netobserv_spcg.Trace.Builder.Finished.{
  BuilderCall, node_call, edge_call, run_calls, IsWellFormed, finish-run_calls,
}
use netobserv_spcg.Probe.Correlator.{new_graph_correlator}
use netobserv_spcg.Probe.Correlator.Progress.{IsSound}

abbrev client : PodDetail
client = record no_pod {
  namespace = "shop";
  name = "client";
  pod_ip = "10.0.0.1";
  node_name = "worker-1";
}

abbrev server : PodDetail
server = record no_pod { namespace = "shop"; name = "server"; pod_ip = "10.0.0.2" }

abbrev service : NewNode
service = record {
  id = "service/shop/server";
  label = "server";
  kind = "service";
  namespace = "shop";
  tracked = false;
  focused = false;
  rank = negsuc 0;
  detail = "";
}

abbrev link_to : String → String → NewEdge
link_to from to = record {
  from = from;
  to = to;
  edge_type = "direct";
  primary = false;
  label = "";
  drop = false;
}

-- The last call repeats an edge.
abbrev discovered : List BuilderCall
discovered =
    node_call service
    ∷ edge_call (link_to "pod/shop/client" "service/shop/server")
    ∷ edge_call (link_to "service/shop/server" "pod/shop/server")
    ∷ edge_call (link_to "service/shop/server" "pod/shop/server")
    ∷ []

finish-run_calls_example :
    (g : TraceGraph) × (finish (
        run_calls discovered
          (seed_endpoints (new_graph_builder (client ∷ []) (server ∷ []) none [])))
      ≡ some g)
    × IsWellFormed g.nodes g.edges
    × IsSound (new_graph_correlator g.nodes g.edges)
finish-run_calls_example =
    finish-run_calls (client ∷ []) (server ∷ []) none [] discovered (omega arith)

abbrev crowded : Sizes
crowded = record { ingress = 2; anchor = 1; shared = 2; egress = 1; context = 9 }

place_at-IsApart_example : IsApart (place_at crowded context 2) (place_at crowded context 8)
place_at-IsApart_example =
    place_at-IsApart crowded context context 2 8 (omega arith) (omega arith)
      (λ same e. omega (arith, e))
