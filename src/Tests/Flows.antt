-- ===== src/Tests/Flows.antt =====
-- internal/pcap/topology.go and topology_limits.go on a pod that talks to two peers.
use netobserv_spcg.Common.{
  ℕ, ◌≡◌, ◌≤◌, ◌↔◌, ◌⊎◌, refl, subst, String, Bool, true, false, List, [], ◌∷◌, length, ◌==◌, Elem,
  here, there,
}
use netobserv_spcg.Common.Sets.{IdSet, has}
use netobserv_spcg.Pcap.Session.{TrackedPod}
use netobserv_spcg.Pcap.Topology.{
  TopologyNode, TopologyEdge, FlowTopology, pos, tracked_node_ids, filter_topology_to_selection,
}
use netobserv_spcg.Pcap.Topology.Limit.{limit_flow_topology}
use netobserv_spcg.Pcap.Topology.Limit.Kept.{
  HasNode, IsClosed, limit_flow_topology-Within, limit_flow_topology-IsClosed,
  limit_flow_topology_keeps,
}
use netobserv_spcg.Pcap.Topology.Limit.Sizes.{limit_of}
use netobserv_spcg.Pcap.Topology.Selection.{IsEnd, filter_topology_to_selection-IsClosed}

abbrev workload : String → String → TopologyNode
workload id namespace = record {
  id = id;
  label = id;
  kind = "Pod";
  namespace = namespace;
  pod = id;
  owner_kind = "";
  owner_name = "";
  host_name = "";
  host_ip = "";
}

abbrev flow : String → String → ℕ → TopologyEdge
flow from to bytes = record {
  id = to;
  from = from;
  to = to;
  health = "healthy";
  proto = "TCP";
  src_port = 40000;
  dst_port = 443;
  count = 1;
  bytes = bytes;
  packets = 1;
  srtt_ns = pos 0;
  max_srtt_ns = pos 0;
  drop_cause = "";
  drop_diagnosis = "";
  tcp_flags = [];
  tcp_state = "";
}

abbrev web : TopologyNode
web = workload "shop/web" "shop"

abbrev small_peer : TopologyNode
small_peer = workload "10.0.0.8" ""

abbrev large_peer : TopologyNode
large_peer = workload "10.0.0.9" ""

abbrev observed : FlowTopology
observed = record {
  nodes = web ∷ small_peer ∷ large_peer ∷ [];
  edges = flow "shop/web" "10.0.0.8" 10 ∷ flow "shop/web" "10.0.0.9" 900 ∷ [];
  namespaces = "shop" ∷ [];
  edge_detail = [];
}

abbrev tracked_pods : List TrackedPod
tracked_pods =
    record {
      namespace = "shop";
      name = "web";
      uid = "u1";
      owner_kind = "Deployment";
      pod_ip = "10.0.0.5";
      pod_ips = [];
    }
    ∷ []

observed-IsClosed : IsClosed observed
observed-IsClosed e (here q) = subst Closed q (
  record { node = web; inside = here refl; same = refl },
  record { node = small_peer; inside = there (here refl); same = refl },
)
  where
    Closed : TopologyEdge → Type 0
    Closed f = HasNode f.from observed.nodes × HasNode f.to observed.nodes
observed-IsClosed e (there (here q)) = subst Closed q (
  record { node = web; inside = here refl; same = refl },
  record { node = large_peer; inside = there (there (here refl)); same = refl },
)
  where
    Closed : TopologyEdge → Type 0
    Closed f = HasNode f.from observed.nodes × HasNode f.to observed.nodes
observed-IsClosed e (there (there m)) = elim m [ ]

limit_flow_topology-Within_example :
    (length (limit_flow_topology observed tracked_pods 2 1).0.edges ≤ limit_of 1 150)
    × ((length (limit_flow_topology observed tracked_pods 2 1).0.nodes ≤ limit_of 2 100)
        ⊎ (length (limit_flow_topology observed tracked_pods 2 1).0.nodes
            ≤ length (tracked_node_ids tracked_pods [])))
    × (length (tracked_node_ids tracked_pods []) ≤ length tracked_pods)
limit_flow_topology-Within_example = limit_flow_topology-Within observed tracked_pods 2 1

limit_flow_topology-IsClosed_example : IsClosed (limit_flow_topology observed tracked_pods 2 1).0
limit_flow_topology-IsClosed_example =
    limit_flow_topology-IsClosed observed tracked_pods 2 1 observed-IsClosed

limit_flow_topology_keeps_example :
    HasNode "shop/web" (limit_flow_topology observed tracked_pods 2 1).0.nodes
unfolding tracked_node_ids netobserv_spcg.Common.Maps.contains netobserv_spcg.Common.Maps.lookup
    netobserv_spcg.Common.Maps.insert netobserv_spcg.Common.String-discrete
    netobserv_spcg.Common.Bool-cases
limit_flow_topology_keeps_example =
    limit_flow_topology_keeps observed tracked_pods 2 1 "shop/web" refl
      (record { node = web; inside = here refl; same = refl })

abbrev selection : IdSet
selection = ("10.0.0.9", tt) ∷ []

filter_topology_to_selection-IsClosed_example :
    ((e : TopologyEdge)
      → Elem e (filter_topology_to_selection observed selection).edges
        ↔ (Elem e observed.edges × ((has e.from selection ≡ true) ⊎ (has e.to selection ≡ true))))
    × ((n : TopologyNode)
        → Elem n (filter_topology_to_selection observed selection).nodes ↔ (
            Elem n observed.nodes
            × IsEnd n.id (filter_topology_to_selection observed selection).edges))
    × IsClosed (filter_topology_to_selection observed selection)
filter_topology_to_selection-IsClosed_example =
    filter_topology_to_selection-IsClosed observed selection refl observed-IsClosed
