-- ===== src/Pcap/Topology/Limit/Sizes.antt =====
-- How much the limits of internal/pcap/topology_limits.go leave.
use Prim.Native.String.{◌++◌ as str_append}
use netobserv_spcg.Common.{
  ℕ, zero, suc, ◌+◌, ◌-◌, ◌≤◌, ◌≡◌, refl, ◌⊎◌, inl, inr, String, String-discrete, List, [], ◌∷◌,
  Option, some, none, map, ltb, ltb-false, ltb→lt, length, take, length-take-le, length-keep-le,
  length-map, Bool-cases, arith, ◌&&◌, not, is_empty,
}
use netobserv_spcg.Common.Maps.{Map, lookup, length-insert-le}
use netobserv_spcg.Common.Sets.{IdSet, add, add_ids, length-add_ids-le}
use netobserv_spcg.Common.Sort.{str_lt, sort_slice, length-sort_slice}
use netobserv_spcg.Pcap.Session.{TrackedPod}
use netobserv_spcg.Pcap.Topology.{
  TopologyNode, TopologyEdge, FlowTopology, tracked_node_ids, ends_of,
}
use netobserv_spcg.Pcap.Topology.Limit.{
  node_by_id, heavier, heaviest, allowed_nodes, kept_nodes, node_if, nodes_of, NodeScore, has_ends,
  limited, or_default,
}

length-node_if-le :
    (o : Option TopologyNode) (rest : List TopologyNode) → length (node_if o rest) ≤ length rest + 1
length-node_if-le none rest = omega arith
length-node_if-le (some n) rest = omega arith

length-nodes_of-le :
    (ids : IdSet) (by_id : Map String TopologyNode) → length (nodes_of ids by_id) ≤ length ids
unfolding nodes_of
length-nodes_of-le [] by_id = omega arith
length-nodes_of-le ((k, u) ∷ ids) by_id = omega (
  arith,
  length-node_if-le (lookup String-discrete k by_id) (nodes_of ids by_id),
  length-nodes_of-le ids by_id,
)

length-heaviest-le :
    (max_edges : ℕ) (es : List TopologyEdge) → length (heaviest max_edges es) ≤ max_edges
unfolding heaviest
length-heaviest-le max_edges es =
    elim (Bool-cases (ltb max_edges (length (sort_slice heavier es)))) [
      | inl t ↦ rw t (length-take-le max_edges _)
      | inr t ↦ rw t (ltb-false _ _ t)
    ]

length-add_ids-take-le :
    {A : Type 0} (k : ℕ) (xs : List A) (f : A → String) (ids : IdSet)
    → length (add_ids (map f (take k xs)) ids) ≤ k + length ids
length-add_ids-take-le k xs f ids = omega (
  arith,
  length-add_ids-le (map f (take k xs)) ids,
  length-map (take k xs) f,
  length-take-le k xs,
)

length-allowed_nodes-le :
    (max_nodes : ℕ) (es : List TopologyEdge) (tracked_set keep_nodes : IdSet)
    → length (allowed_nodes max_nodes es tracked_set keep_nodes)
      ≤ max_nodes - length tracked_set + length tracked_set
unfolding allowed_nodes
length-allowed_nodes-le max_nodes es tracked_set keep_nodes =
    length-add_ids-take-le (max_nodes - length tracked_set) _ (λ (s : NodeScore). s.id) tracked_set

length-kept_nodes-le :
    (max_nodes : ℕ) (es : List TopologyEdge) (tracked_set : IdSet)
    → (length (kept_nodes max_nodes es tracked_set) ≤ max_nodes)
      ⊎ (length (kept_nodes max_nodes es tracked_set) ≤ length tracked_set)
unfolding kept_nodes
length-kept_nodes-le max_nodes es tracked_set =
    elim (Bool-cases (ltb max_nodes (length (ends_of es tracked_set)))) [
      | inr t ↦ inl (rw t (ltb-false _ _ t))
      | inl t ↦ rw t (
          let size = length-allowed_nodes-le max_nodes es tracked_set (ends_of es tracked_set) in
          elim (Bool-cases (ltb max_nodes (length tracked_set))) [
            | inl more ↦ inr (omega (arith, size, ltb→lt max_nodes (length tracked_set) more))
            | inr fits ↦ inl (omega (arith, size, ltb-false max_nodes (length tracked_set) fits))
          ])
    ]

pub limited-Within :
    (topo : FlowTopology) (tracked_set : IdSet) (n e : ℕ)
    → (length (limited topo tracked_set n e).edges ≤ e)
      × ((length (limited topo tracked_set n e).nodes ≤ n)
          ⊎ (length (limited topo tracked_set n e).nodes ≤ length tracked_set))
unfolding limited
limited-Within topo tracked_set n e =
    let es = heaviest e topo.edges in
    let ids = kept_nodes n es tracked_set in
    let by_id = node_by_id topo.nodes [] in
    let size =
      length-sort_slice (λ (a : TopologyNode) (b : TopologyNode). str_lt a.id b.id)
        (nodes_of ids by_id) in
    let few = length-nodes_of-le ids by_id in
    (
      omega (arith, length-keep-le (has_ends ids) es, length-heaviest-le e topo.edges),
      elim (length-kept_nodes-le n es tracked_set) [
        | inl h ↦ inl (omega (arith, size, few, h))
        | inr h ↦ inr (omega (arith, size, few, h))
      ],
    )

-- The maximum that is asked for, or a fixed one if none is.
abbrev pub limit_of : ℕ → ℕ → ℕ
limit_of zero fixed = fixed
limit_of (suc max) fixed = suc max

pub or_default-limit_of : (max fixed : ℕ) → or_default max fixed ≡ limit_of max fixed
or_default-limit_of zero fixed = refl
or_default-limit_of (suc max) fixed = ground arith

pub length-tracked_node_ids-le :
    (tracked : List TrackedPod) (out : IdSet)
    → length (tracked_node_ids tracked out) ≤ length tracked + length out
unfolding tracked_node_ids
length-tracked_node_ids-le [] out = omega arith
length-tracked_node_ids-le (p ∷ tracked) out =
    elim (Bool-cases (not (is_empty p.namespace) && not (is_empty p.name))) [
      | inl named ↦
          let id = str_append p.namespace (str_append "/" p.name) in
          rw named (
            omega (
              arith,
              length-tracked_node_ids-le tracked (add id out),
              length-insert-le String-discrete id tt out,
            ))
      | inr unnamed ↦ rw unnamed (omega (arith, length-tracked_node_ids-le tracked out))
    ]
