-- ===== src/Pcap/Topology/Selection.antt =====
-- `FilterTopologyToSelection` of internal/pcap/topology.go: the flows that touch the selected pods.
use netobserv_spcg.Common.{
  ◌≡◌, ◌↔◌, ◌⊎◌, inl, inr, refl, Bool, Bool-cases, String, true, false, List, [], ◌∷◌, length, ◌==◌,
  keep, Elem, here, there, Elem-keep, keep-Elem, ap, subst, ◌∙◌,
}
use netobserv_spcg.Common.Sets.{IdSet, has, add, has-add_self, has-add_keeps, has-add_inv}
use netobserv_spcg.Common.Maps.{contains, lookup}
use netobserv_spcg.Pcap.Topology.{
  TopologyNode, TopologyEdge, FlowTopology, ends_of, is_selected, filter_topology_to_selection,
}
use netobserv_spcg.Pcap.Topology.Limit.Kept.{HasNode, IsClosed, ends_of_keeps}

-- An edge of the list starts or ends at the node.
abbrev pub IsEnd : String → List TopologyEdge → Type 0
IsEnd id es = (e : TopologyEdge) × Elem e es × ((e.from ≡ id) ⊎ (e.to ≡ id))

-- Both ends of an edge of the list are in the set of ends.
ends_of-Elem :
    (e : TopologyEdge) (es : List TopologyEdge) (ids : IdSet)
    → Elem e es
    → (has e.from (ends_of es ids) ≡ true) × (has e.to (ends_of es ids) ≡ true)
unfolding ends_of
ends_of-Elem e [] ids m = elim m [ ]
ends_of-Elem e (f ∷ es) ids (here q) =
    let ids' = add f.to (add f.from ids) in
    subst
      (λ (g : TopologyEdge).
        (has g.from (ends_of es ids') ≡ true) × (has g.to (ends_of es ids') ≡ true))
      q
      (
        ends_of_keeps es ids' f.from
            (has-add_keeps f.to f.from (add f.from ids) (has-add_self f.from ids)),
        ends_of_keeps es ids' f.to (has-add_self f.to (add f.from ids)),
      )
ends_of-Elem e (f ∷ es) ids (there m) = ends_of-Elem e es (add f.to (add f.from ids)) m

keep-HasNode :
    (ids : IdSet) (id : String) (nodes : List TopologyNode)
    → has id ids ≡ true
    → HasNode id nodes
    → HasNode id (keep (λ n. has n.id ids) nodes)
keep-HasNode ids id nodes h present = record {
  node = present.node;
  inside =
      keep-Elem (λ n. has n.id ids) nodes present.inside (ap (λ k. has k ids) present.same ∙ h);
  same = present.same;
}

-- A node that is in the set of ends is an end of one of the edges.
ends_of_inv :
    (id : String) (es : List TopologyEdge) (ids : IdSet)
    → has id (ends_of es ids) ≡ true
    → IsEnd id es ⊎ (has id ids ≡ true)
unfolding ends_of
ends_of_inv id [] ids h = inr h
ends_of_inv id (f ∷ es) ids h = elim (ends_of_inv id es (add f.to (add f.from ids)) h) [
  | inl (e, m, q) ↦ inl (e, there m, q)
  | inr old ↦ elim (has-add_inv f.to id (add f.from ids) old) [
    | inl to ↦ inl (f, here refl, inr to)
    | inr older ↦ elim (has-add_inv f.from id ids older) [
      | inl from ↦ inl (f, here refl, inl from)
      | inr before ↦ inr before
    ]
  ]
]

ends_of-IsEnd : (id : String) (es : List TopologyEdge) → has id (ends_of es []) ≡ true → IsEnd id es
unfolding contains lookup
ends_of-IsEnd id es h = elim (ends_of_inv id es [] h) [
  | inl found ↦ found
  | inr off ↦ absurd (false≢true off)
]
  where
    false≢true : false ≡ true → ⊥
    false≢true e = cc

IsEnd-ends_of : (id : String) (es : List TopologyEdge) → IsEnd id es → has id (ends_of es []) ≡ true
IsEnd-ends_of id es (e, m, inl q) =
    subst (λ k. has k (ends_of es []) ≡ true) q (ends_of-Elem e es [] m).0
IsEnd-ends_of id es (e, m, inr q) =
    subst (λ k. has k (ends_of es []) ≡ true) q (ends_of-Elem e es [] m).1

selected_iff :
    (tracked : IdSet) (e : TopologyEdge)
    → (is_selected tracked e ≡ true) ↔ ((has e.from tracked ≡ true) ⊎ (has e.to tracked ≡ true))
selected_iff tracked e = (
  (λ h. elim (Bool-cases (has e.from tracked)) [
    | inl from ↦ inl from
    | inr off ↦ inr (rw off at h)
  ]),
  (λ ends. elim ends [
    | inl from ↦ rw from refl
    | inr to ↦ elim (Bool-cases (has e.from tracked)) [
      | inl from ↦ rw from refl
      | inr off ↦ rw (off, to) refl
    ]
  ]),
)

-- With a pod selected, `FilterTopologyToSelection` keeps exactly the edges of the graph of which the
-- one end or the other is selected, and exactly the nodes of the graph that are an end of an edge
-- kept; and if both ends of every edge are nodes of the graph, that is so afterwards.
pub filter_topology_to_selection-IsClosed :
    (full : FlowTopology) (tracked : IdSet)
    → (length tracked == 0) ≡ false
    → IsClosed full
    → ((e : TopologyEdge)
        → Elem e (filter_topology_to_selection full tracked).edges
          ↔ (Elem e full.edges × ((has e.from tracked ≡ true) ⊎ (has e.to tracked ≡ true))))
      × ((n : TopologyNode)
          → Elem n (filter_topology_to_selection full tracked).nodes
            ↔ (Elem n full.nodes × IsEnd n.id (filter_topology_to_selection full tracked).edges))
      × IsClosed (filter_topology_to_selection full tracked)
unfolding filter_topology_to_selection
filter_topology_to_selection-IsClosed full tracked some_pod closed =
    let edges = keep (is_selected tracked) full.edges in
    let ended : TopologyNode → Bool = λ n. has n.id (ends_of edges []) in
    rw some_pod (
      (λ e. (
        (λ m.
            let (inside, selected) = Elem-keep (is_selected tracked) full.edges m in
            (inside, (selected_iff tracked e).0 selected)),
        (λ m. keep-Elem (is_selected tracked) full.edges m.0 ((selected_iff tracked e).1 m.1)),
      )),
      (λ n. (
        (λ m.
            let (inside, end) = Elem-keep ended full.nodes m in
            (inside, ends_of-IsEnd n.id edges end)),
        (λ m. keep-Elem ended full.nodes m.0 (IsEnd-ends_of n.id edges m.1)),
      )),
      (λ e m.
          let (from, to) = closed e (Elem-keep (is_selected tracked) full.edges m).0 in
          let (has_from, has_to) = ends_of-Elem e edges [] m in
          (
            keep-HasNode (ends_of edges []) e.from full.nodes has_from from,
            keep-HasNode (ends_of edges []) e.to full.nodes has_to to,
          )),
    )
