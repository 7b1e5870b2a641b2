-- ===== src/Rbac/Sanitize/Safe.antt =====
-- What a result sanitised by internal/rbac/sanitize.go shows.
use netobserv_spcg.Common.Text.{is_one_of, to_lower}
use netobserv_spcg.Common.{
  ◌≡◌, ◌≢◌, ◌∙◌, str_ne, str_eq_iff, refl, sym, ◌⊎◌, inl, inr, String, str_eq, Bool, true, false,
  not, List, [], ◌∷◌, keep, Elem, here, there, Elem-keep, Elem-map, and_left, and_right, or_left,
  or_right,
}
use netobserv_spcg.Common.Maps.{lookup, contains}
use netobserv_spcg.Common.Sets.{IdSet, has, add, has-add_inv}
use netobserv_spcg.Trace.Types.{TraceNode, TraceEdge}
use netobserv_spcg.Trace.Simplify.{TraceGraph}
use netobserv_spcg.Rbac.Sanitize.{
  TopologyNode, TopologyEdge, TopologyResult, Zeros, is_infra_kind, ids_of, is_visible,
  sanitize_trace_graph, is_public, abstracted, filter_nodes, filter_edges, without_flows,
  sanitize_topology_result, collapse_layers,
}

module _ {A : Type 0} (key : A → String) where
  -- An element of the list has the id.
  abbrev pub HasId : String → List A → Type 0
  HasId id xs = (x : A) × Elem x xs × (key x ≡ id)

  has-ids_of :
      (id : String) (xs : List A) (ids : IdSet)
      → has id (ids_of key xs ids) ≡ true
      → HasId id xs ⊎ (has id ids ≡ true)
  unfolding ids_of
  has-ids_of id [] ids h = inr h
  has-ids_of id (x ∷ xs) ids h = elim (has-ids_of id xs (add (key x) ids) h) [
    | inl (y, inside, same) ↦ inl (y, there inside, same)
    | inr old ↦ elim (has-add_inv (key x) id ids old) [
      | inl same ↦ inl (x, here refl, same)
      | inr before ↦ inr before
    ]
  ]

  has-ids_of_nil : (id : String) (xs : List A) → has id (ids_of key xs []) ≡ true → HasId id xs
  unfolding contains lookup
  has-ids_of_nil id xs h = elim (has-ids_of id xs [] h) [
    | inl found ↦ found
    | inr off ↦ absurd (false≢true off)
  ]
    where
      false≢true : false ≡ true → ⊥
      false≢true e = cc

not-true : (b : Bool) → not b ≡ true → b ≡ false
not-true true h = sym h
not-true false h = refl

-- The kinds of infrastructure, in lower case.
abbrev pub infra_kinds : List String
infra_kinds =
    "node" ∷ "bond" ∷ "host-veth" ∷ "vrf" ∷ "bgp-peer" ∷ "metallb-pool" ∷ "metallb-advertisement"
    ∷ "ovs-bridge" ∷ "logical-switch" ∷ "logical-router" ∷ []

not_one_of :
    (s : String) (ts : List String) → is_one_of s ts ≡ false → (k : String) → Elem k ts → s ≢ k
not_one_of s [] off k m = elim m [ ]
not_one_of s (t ∷ ts) off k (here q) = λ p. str_ne s t (or_left _ _ off) (p ∙ sym q)
not_one_of s (t ∷ ts) off k (there m) = not_one_of s ts (or_right (str_eq s t) _ off) k m

-- A trace graph without physical and infrastructure nodes, in which every edge has its nodes.
pub record IsVisibleGraph (g : TraceGraph) : Type 0 where
  pub hidden :
      (n : TraceNode)
      → Elem n g.nodes
      → (n.layer ≢ "physical") × ((k : String) → Elem k infra_kinds → to_lower n.kind ≢ k)
  pub closed :
      (e : TraceEdge)
      → Elem e g.edges
      → HasId (λ (n : TraceNode). n.id) e.from g.nodes
        × HasId (λ (n : TraceNode). n.id) e.to g.nodes

sanitize_trace_graph-IsVisibleGraph : (g : TraceGraph) → IsVisibleGraph (sanitize_trace_graph g)
unfolding sanitize_trace_graph is_visible is_infra_kind
sanitize_trace_graph-IsVisibleGraph g = record {
  hidden = λ n m.
      let shown = not-true _ (and_left _ _ (Elem-keep is_visible g.nodes m).1) in
      (
        str_ne n.layer "physical" (or_left _ _ shown),
        not_one_of (to_lower n.kind) infra_kinds (or_right (str_eq n.layer "physical") _ shown),
      );
  closed = λ e m.
      let ends = (Elem-keep _ g.edges m).1 in
      (
        has-ids_of_nil (λ (n : TraceNode). n.id) e.from _ (and_left _ _ ends),
        has-ids_of_nil (λ (n : TraceNode). n.id) e.to _ (and_right _ (has e.to _) ends),
      );
}

module _ {Float : Type 0} where
  -- Nodes of the logical layer that are not sensitive, and edges of that layer between them without
  -- flow metadata.
  pub record IsPublic (nodes : List (TopologyNode Float)) (edges : List TopologyEdge) : Type 0 where
    pub shown :
        (n : TopologyNode Float) → Elem n nodes → (n.sensitive ≡ false) × (n.layer ≡ "logical")
    pub joined :
        (e : TopologyEdge)
        → Elem e edges
        → HasId (λ (n : TopologyNode Float). n.id) e.from nodes
          × HasId (λ (n : TopologyNode Float). n.id) e.to nodes
    pub logical_edges : (e : TopologyEdge) → Elem e edges → e.layer ≡ "logical"
    pub stripped :
        (e : TopologyEdge) → Elem e edges → (e.open_flow_cookie ≡ "") × (e.acl_metadata ≡ "")

  filter-IsPublic :
      (nodes : List (TopologyNode Float)) (edges : List TopologyEdge)
      → IsPublic (filter_nodes nodes) (filter_edges nodes edges)
  unfolding filter_nodes filter_edges
  filter-IsPublic nodes edges = record {
    shown = λ n m.
        let (old, inside, made) = Elem-map abstracted (keep is_public nodes) m in
        let visible = not-true _ (Elem-keep is_public nodes inside).1 in
        let logical =
          (str_eq_iff old.layer "logical").0 (not-false _ (or_right old.sensitive _ visible)) in
        rw (← made) (or_left _ _ visible, logical);
    joined = λ e m.
        let (old, inside, made) = Elem-map without_flows _ m in
        let ok = (Elem-keep _ edges inside).1 in
        let ends = and_right (str_eq old.layer "logical") _ ok in
        rw (← made) (
          has-ids_of_nil (λ (n : TopologyNode Float). n.id) old.from _ (and_left _ _ ends),
          has-ids_of_nil (λ (n : TopologyNode Float). n.id) old.to _
              (and_right (has old.from _) _ ends),
        );
    logical_edges = λ e m.
        let (old, inside, made) = Elem-map without_flows _ m in
        let ok = (Elem-keep _ edges inside).1 in
        rw (← made) ((str_eq_iff old.layer "logical").0 (and_left _ _ ok));
    stripped =
        λ e m. let (old, inside, made) = Elem-map without_flows _ m in rw (← made) (refl, refl);
  }
    where
      not-false : (b : Bool) → not b ≡ false → b ≡ true
      not-false true h = refl
      not-false false h = sym h

-- In the list of nodes of what `SanitizeTopologyResult` returns, no node is sensitive or outside the
-- logical layer; in its list of edges, each is of that layer, between two nodes of that list and has no OpenFlow
-- cookie and no ACL metadata; its trace graph has no node of the physical layer or of one of ten
-- infrastructure kinds, and only edges between its nodes; the infrastructure and the physical plane
-- are empty, and the regions of these two layers have no label. The logical plane, the paths of the
-- trace graph, the endpoints and the edge states are returned as they came: nothing is said of what
-- they hold.
pub sanitize_topology_result-IsPublic :
    {Float Rest Logical Infrastructure Physical : Type 0}
    (zeros : Zeros Float Infrastructure Physical)
    (topo : TopologyResult Float Rest Logical Infrastructure Physical)
    → IsPublic
        (sanitize_topology_result zeros topo).nodes
        (sanitize_topology_result zeros topo).edges
      × IsVisibleGraph (sanitize_topology_result zeros topo).graph
      × ((sanitize_topology_result zeros topo).infrastructure ≡ zeros.infrastructure)
      × ((sanitize_topology_result zeros topo).physical ≡ zeros.physical)
      × ((sanitize_topology_result zeros topo).layers.infrastructure.label ≡ "")
      × ((sanitize_topology_result zeros topo).layers.physical.label ≡ "")
      × ((sanitize_topology_result zeros topo).logical ≡ topo.logical)
      × ((sanitize_topology_result zeros topo).graph.paths ≡ topo.graph.paths)
      × ((sanitize_topology_result zeros topo).rest ≡ topo.rest)
unfolding sanitize_topology_result sanitize_trace_graph collapse_layers
sanitize_topology_result-IsPublic zeros topo = (
  filter-IsPublic topo.nodes topo.edges,
  sanitize_trace_graph-IsVisibleGraph topo.graph,
  refl,
  refl,
  refl,
  refl,
  refl,
  refl,
  refl,
)
