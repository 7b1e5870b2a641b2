-- ===== src/Pcap/Topology/Limit/Kept.antt =====
-- What the limits of internal/pcap/topology_limits.go keep: few enough nodes and edges, every
-- tracked node, and both ends of every edge.
use mathlib.Core.Option.{some-injective}
use netobserv_spcg.Common.{
  ℕ, ◌-◌, ◌≤◌, ◌≡◌, refl, sym, ap, ◌∙◌, ◌⊎◌, inl, inr, if_neg, String, String-discrete, true, List,
  [], ◌∷◌, Option, some, none, map, ltb, ltb-false, length, take, Elem, here, there, Elem-keep,
  Elem-take, Bool-cases, arith, and_left, and_right, or_left, or_right, none≢some, ◌||◌,
}
use netobserv_spcg.Common.Maps.{
  Map, lookup, insert, lookup-insert_self, lookup-insert_ne, contains-cons, contains,
}
use netobserv_spcg.Common.Sets.{IdSet, has, add, has-add_keeps, add_ids_keeps}
use netobserv_spcg.Common.Sort.{sort_slice, sort_slice-Elem, Elem-sort_slice}
use netobserv_spcg.Pcap.Session.{TrackedPod}
use netobserv_spcg.Pcap.Topology.{
  TopologyNode, TopologyEdge, FlowTopology, tracked_node_ids, ends_of, max_topology_nodes,
  max_topology_edges,
}
use netobserv_spcg.Pcap.Topology.Limit.{
  node_by_id, heavier, heaviest, allowed_nodes, kept_nodes, node_if, nodes_of, NodeScore,
  node_scores, bytes_by_node, has_ends, limited, or_default, limit_flow_topology,
}
use netobserv_spcg.Pcap.Topology.Limit.Sizes.{
  limit_of, limited-Within, or_default-limit_of, length-tracked_node_ids-le,
}

-- A node of the graph has the id.
pub record HasNode (id : String) (nodes : List TopologyNode) : Type 0 where
  pub node : TopologyNode
  pub inside : Elem node nodes
  pub same : node.id ≡ id

-- Both ends of every edge are nodes of the graph.
abbrev pub IsClosed : FlowTopology → Type 0
IsClosed topo =
    (e : TopologyEdge) → Elem e topo.edges → HasNode e.from topo.nodes × HasNode e.to topo.nodes

abbrev IsKeyed : Map String TopologyNode → Type 0
IsKeyed m = (id : String) (n : TopologyNode) → lookup String-discrete id m ≡ some n → n.id ≡ id

insert-IsKeyed :
    (n : TopologyNode) (m : Map String TopologyNode)
    → IsKeyed m
    → IsKeyed (insert String-discrete n.id n m)
insert-IsKeyed n m keyed id n' e = elim (String-discrete n.id id) [
  | yes q ↦
      let e' : some n ≡ some n' =
        sym (rw (← q) (lookup-insert_self String-discrete n.id n m)) ∙ e in
      ap (λ (a : TopologyNode). a.id) (sym (some-injective n n' e')) ∙ q
  | no ne ↦ keyed id n' (sym (lookup-insert_ne String-discrete n.id id n m ne) ∙ e)
]

node_by_id-finds :
    (nodes : List TopologyNode) (out : Map String TopologyNode) (id : String)
    → IsKeyed out
    → ((n : TopologyNode) × (lookup String-discrete id out ≡ some n)) ⊎ HasNode id nodes
    → (n : TopologyNode) × (lookup String-discrete id (node_by_id nodes out) ≡ some n) × (n.id ≡ id)
unfolding node_by_id
node_by_id-finds [] out id keyed (inl (n, e)) = (n, e, keyed id n e)
node_by_id-finds [] out id keyed (inr h) = elim h.inside [ ]
node_by_id-finds (m ∷ nodes) out id keyed o =
    node_by_id-finds nodes (insert String-discrete m.id m out) id (insert-IsKeyed m out keyed)
      (elim o [
        | inl (n, e) ↦ elim (String-discrete m.id id) [
          | yes q ↦ inl (m, rw (← q) (lookup-insert_self String-discrete m.id m out))
          | no ne ↦ inl (n, lookup-insert_ne String-discrete m.id id m out ne ∙ e)
        ]
        | inr h ↦ elim h.inside [
          | here q ↦
              let same : m.id ≡ id = ap (λ (a : TopologyNode). a.id) q ∙ h.same in
              inl (m, rw (← same) (lookup-insert_self String-discrete m.id m out))
          | there k ↦ inr (record { node = h.node; inside = k; same = h.same })
        ]
      ])

node_if_keeps :
    (o : Option TopologyNode) {n : TopologyNode} {rest : List TopologyNode}
    → Elem n rest
    → Elem n (node_if o rest)
node_if_keeps none m = m
node_if_keeps (some a) m = there m

has-nil : (id : String) → has id [] ≡ true → ⊥
unfolding contains lookup
has-nil id h = cc

nodes_of-Elem :
    (ids : IdSet) (by_id : Map String TopologyNode) (id : String) (n : TopologyNode)
    → has id ids ≡ true
    → lookup String-discrete id by_id ≡ some n
    → Elem n (nodes_of ids by_id)
unfolding nodes_of
nodes_of-Elem [] by_id id n h e = absurd (has-nil id h)
nodes_of-Elem ((k, u) ∷ ids) by_id id n h e = elim (String-discrete k id) [
  | yes q ↦ rw (q, e) (here refl)
  | no ne ↦ node_if_keeps (lookup String-discrete k by_id) (
      nodes_of-Elem ids by_id id n
        (rw (contains-cons String-discrete id k u ids, if_neg (String-discrete k id) ne) at h) e)
]

Elem-heaviest :
    (max_edges : ℕ) (es : List TopologyEdge) (e : TopologyEdge)
    → Elem e (heaviest max_edges es)
    → Elem e es
unfolding heaviest
Elem-heaviest max_edges es e m =
    elim (Bool-cases (ltb max_edges (length (sort_slice heavier es)))) [
      | inl t ↦ Elem-sort_slice heavier es (Elem-take max_edges _ (rw t at m))
      | inr t ↦ Elem-sort_slice heavier es (rw t at m)
    ]

pub ends_of_keeps :
    (es : List TopologyEdge) (ids : IdSet) (id : String)
    → has id ids ≡ true
    → has id (ends_of es ids) ≡ true
unfolding ends_of
ends_of_keeps [] ids id h = h
ends_of_keeps (e ∷ es) ids id h =
    ends_of_keeps es (add e.to (add e.from ids)) id
      (has-add_keeps e.to id (add e.from ids) (has-add_keeps e.from id ids h))

allowed_nodes_keeps :
    (max_nodes : ℕ) (es : List TopologyEdge) (tracked_set keep_nodes : IdSet) (id : String)
    → has id tracked_set ≡ true
    → has id (allowed_nodes max_nodes es tracked_set keep_nodes) ≡ true
unfolding allowed_nodes
allowed_nodes_keeps max_nodes es tracked_set keep_nodes id h =
    let scores =
      sort_slice (λ (a : NodeScore) (b : NodeScore). ltb b.bytes a.bytes)
        (node_scores keep_nodes tracked_set (bytes_by_node es [])) in
    add_ids_keeps (map (λ (s : NodeScore). s.id) (take (max_nodes - length tracked_set) scores)) id
      tracked_set h

kept_nodes_keeps :
    (max_nodes : ℕ) (es : List TopologyEdge) (tracked_set : IdSet) (id : String)
    → has id tracked_set ≡ true
    → has id (kept_nodes max_nodes es tracked_set) ≡ true
unfolding kept_nodes
kept_nodes_keeps max_nodes es tracked_set id h =
    elim (Bool-cases (ltb max_nodes (length (ends_of es tracked_set)))) [
      | inl t ↦ rw t (allowed_nodes_keeps max_nodes es tracked_set (ends_of es tracked_set) id h)
      | inr t ↦ rw t (ends_of_keeps es tracked_set id h)
    ]

limited-HasNode :
    (topo : FlowTopology) (tracked_set : IdSet) (n e : ℕ) (id : String)
    → has id (kept_nodes n (heaviest e topo.edges) tracked_set) ≡ true
    → HasNode id topo.nodes
    → HasNode id (limited topo tracked_set n e).nodes
unfolding limited lookup
limited-HasNode topo tracked_set n e id h present =
    let (node, found, same) =
      node_by_id-finds topo.nodes [] id (λ k a q. absurd (none≢some q)) (inr present) in
    record {
      node = node;
      inside = sort_slice-Elem _ _ (nodes_of-Elem _ (node_by_id topo.nodes []) id node h found);
      same = same;
    }

limited-IsClosed :
    (topo : FlowTopology) (tracked_set : IdSet) (n e : ℕ)
    → IsClosed topo
    → IsClosed (limited topo tracked_set n e)
unfolding limited
limited-IsClosed topo tracked_set n e closed edge m =
    let es = heaviest e topo.edges in
    let ids = kept_nodes n es tracked_set in
    let (inside, ends) = Elem-keep (has_ends ids) es m in
    let (from, to) = closed edge (Elem-heaviest e topo.edges edge inside) in
    (
      limited-HasNode topo tracked_set n e edge.from (and_left _ _ ends) from,
      limited-HasNode topo tracked_set n e edge.to (and_right _ _ ends) to,
    )

-- `LimitFlowTopology` returns at most the maximum of edges that is asked for, and at most the
-- maximum of nodes or as many as there are ids of tracked pods, of which there are at most as many as
-- tracked pods; where a maximum of 0 is asked for, it is 150 edges and 100 nodes.
pub limit_flow_topology-Within :
    (topo : FlowTopology) (tracked : List TrackedPod) (max_nodes max_edges : ℕ)
    → (length (limit_flow_topology topo tracked max_nodes max_edges).0.edges
        ≤ limit_of max_edges 150)
      × ((length (limit_flow_topology topo tracked max_nodes max_edges).0.nodes
            ≤ limit_of max_nodes 100)
          ⊎ (length (limit_flow_topology topo tracked max_nodes max_edges).0.nodes
              ≤ length (tracked_node_ids tracked [])))
      × (length (tracked_node_ids tracked []) ≤ length tracked)
unfolding limit_flow_topology
limit_flow_topology-Within topo tracked max_nodes max_edges =
    let n = or_default max_nodes max_topology_nodes in
    let e = or_default max_edges max_topology_edges in
    let pods : length (tracked_node_ids tracked []) ≤ length tracked =
      omega (arith, length-tracked_node_ids-le tracked []) in
    rw (← or_default-limit_of max_edges 150, ← or_default-limit_of max_nodes 100)
      (elim (Bool-cases (ltb n (length topo.nodes) || ltb e (length topo.edges))) [
        | inl over ↦
            let (edges, nodes) = limited-Within topo (tracked_node_ids tracked []) n e in
            rw over (edges, nodes, pods)
        | inr fits ↦
            rw fits
              (ltb-false e _ (or_right _ _ fits), inl (ltb-false n _ (or_left _ _ fits)), pods)
      ])

-- If both ends of every edge are nodes of the graph, `LimitFlowTopology` keeps that so.
pub limit_flow_topology-IsClosed :
    (topo : FlowTopology) (tracked : List TrackedPod) (max_nodes max_edges : ℕ)
    → IsClosed topo
    → IsClosed (limit_flow_topology topo tracked max_nodes max_edges).0
unfolding limit_flow_topology
limit_flow_topology-IsClosed topo tracked max_nodes max_edges closed =
    let n = or_default max_nodes max_topology_nodes in
    let e = or_default max_edges max_topology_edges in
    elim (Bool-cases (ltb n (length topo.nodes) || ltb e (length topo.edges))) [
      | inl over ↦ rw over (limited-IsClosed topo (tracked_node_ids tracked []) n e closed)
      | inr fits ↦ rw fits closed
    ]

-- `LimitFlowTopology` keeps every node of the graph that is a tracked pod, whatever the maxima are.
pub limit_flow_topology_keeps :
    (topo : FlowTopology) (tracked : List TrackedPod) (max_nodes max_edges : ℕ) (id : String)
    → has id (tracked_node_ids tracked []) ≡ true
    → HasNode id topo.nodes
    → HasNode id (limit_flow_topology topo tracked max_nodes max_edges).0.nodes
unfolding limit_flow_topology
limit_flow_topology_keeps topo tracked max_nodes max_edges id h present =
    let n = or_default max_nodes max_topology_nodes in
    let e = or_default max_edges max_topology_edges in
    let tracked_set = tracked_node_ids tracked [] in
    elim (Bool-cases (ltb n (length topo.nodes) || ltb e (length topo.edges))) [
      | inl over ↦ rw over (
          limited-HasNode topo tracked_set n e id
            (kept_nodes_keeps n (heaviest e topo.edges) tracked_set id h) present)
      | inr fits ↦ rw fits present
    ]
