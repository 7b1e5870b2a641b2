-- ===== src/Trace/Builder/Finished.antt =====
-- The graph that the builder of internal/trace/graph_builder.go gives after any calls of its methods.
use netobserv_spcg.Common.{
  AreApartBy, AreApartBy-map, AreApart-keep, ℕ, ◌+◌, ◌^◌, ◌≤◌, ◌<◌, ◌≡◌, refl, inl, inr, Bool, true,
  false, ◌||◌, ◌&&◌, List, [], ◌∷◌, Option, some, none, String, is_empty, length, Bool-cases,
  if◌then◌else◌, arith, map, ltb, ◌==◌,
}
use netobserv_spcg.Common.Sets.{IdSet, has}
use netobserv_spcg.Trace.Types.{TraceNode, TraceEdge, PathSummary}
use netobserv_spcg.Trace.FocusPath.{
  mark_focus_path, apply_focus, focus_endpoints, mark_direct, focus_path, mark_path, mark_hop,
  is_nil,
}
use netobserv_spcg.Trace.FocusPath.Fuel.{best_path-Returns}
use netobserv_spcg.Trace.Simplify.{TraceGraph, simplified, cut, with_layer}
use netobserv_spcg.Trace.Builder.{
  PodDetail, IpEndpointNode, GraphBuilder, NewNode, NewEdge, new_graph_builder, add_node, add_edge,
  add_path, seed_source, seed_sources, seed_dests, seed_ip, seed_endpoints, with_layers, finish,
}
use netobserv_spcg.Trace.Builder.Distinct.{
  HasDistinctNodes, HasNoDoubles, key_of, IsBuilt, add_node-IsBuilt, add_edge-IsBuilt,
  add_path-IsBuilt,
}
use netobserv_spcg.Probe.Correlator.{new_graph_correlator}
use netobserv_spcg.Probe.Correlator.Progress.{HasDistinctIds, IsSound}
use netobserv_spcg.Probe.Correlator.Start.{new_graph_correlator-IsSound}

-- A call of a method of the builder.
pub data BuilderCall : Type 0 where
  node_call : NewNode → BuilderCall
  edge_call : NewEdge → BuilderCall
  path_call : PathSummary → BuilderCall

abbrev run_call : BuilderCall → GraphBuilder → GraphBuilder
run_call (node_call n) b = add_node n b
run_call (edge_call e) b = add_edge e b
run_call (path_call p) b = add_path p b

abbrev pub run_calls : List BuilderCall → GraphBuilder → GraphBuilder
run_calls [] b = b
run_calls (c ∷ calls) b = run_calls calls (run_call c b)

-- The builder's invariant, with at most so many edges.
abbrev IsBuiltIn : ℕ → GraphBuilder → Type 0
IsBuiltIn n b = IsBuilt b × (length b.edges ≤ n)

add_node-edges : (n : NewNode) (b : GraphBuilder) → (add_node n b).edges ≡ b.edges
unfolding add_node
add_node-edges n b = elim (Bool-cases (has n.id b.node_set)) [
  | inl known ↦ rw known refl
  | inr fresh ↦ rw fresh refl
]

add_node-IsBuiltIn :
    (k : ℕ) (n : NewNode) (b : GraphBuilder) → IsBuiltIn k b → IsBuiltIn k (add_node n b)
add_node-IsBuiltIn k n b (built, few) = (add_node-IsBuilt n b built, rw (add_node-edges n b) few)

add_edge-IsBuiltIn :
    (k : ℕ) (e : NewEdge) (b : GraphBuilder)
    → k + 1 < 2 ^ 64
    → IsBuiltIn k b
    → IsBuiltIn (k + 1) (add_edge e b)
add_edge-IsBuiltIn k e b small (built, few) =
    let (built', few') = add_edge-IsBuilt e b built (omega arith) in (built', omega arith)

run_calls-IsBuiltIn :
    (calls : List BuilderCall) (k : ℕ) (b : GraphBuilder)
    → k + length calls < 2 ^ 64
    → IsBuiltIn k b
    → IsBuilt (run_calls calls b)
unfolding add_path
run_calls-IsBuiltIn [] k b small built = built.0
run_calls-IsBuiltIn (node_call n ∷ calls) k b small built =
    run_calls-IsBuiltIn calls k _ (omega arith) (add_node-IsBuiltIn k n b built)
run_calls-IsBuiltIn (edge_call e ∷ calls) k b small built =
    run_calls-IsBuiltIn calls (k + 1) _ (omega arith) (add_edge-IsBuiltIn k e b (omega arith) built)
run_calls-IsBuiltIn (path_call p ∷ calls) k b small built =
    run_calls-IsBuiltIn calls k _ (omega arith) (add_path-IsBuilt p b built.0, add_path_few)
  where
    add_path_few : length (add_path p b).edges ≤ k
    add_path_few = built.1

seed_source-IsBuiltIn :
    (k : ℕ) (p : PodDetail) (b : GraphBuilder)
    → k + 1 < 2 ^ 64
    → IsBuiltIn k b
    → IsBuiltIn (k + 1) (seed_source p b)
unfolding seed_source
seed_source-IsBuiltIn k p b small built = elim (Bool-cases (is_empty p.node_name)) [
  | inl no_host ↦
      let (built', few) = add_node-IsBuiltIn k _ b built in rw no_host (built', omega arith)
  | inr host ↦
      rw host
        (add_edge-IsBuiltIn k _ _ small (add_node-IsBuiltIn k _ _ (add_node-IsBuiltIn k _ b built)))
]

seed_sources-IsBuiltIn :
    (pods : List PodDetail) (k : ℕ) (b : GraphBuilder)
    → k + length pods < 2 ^ 64
    → IsBuiltIn k b
    → IsBuiltIn (k + length pods) (seed_sources pods b)
unfolding seed_sources
seed_sources-IsBuiltIn [] k b small built = (built.0, omega (arith, built.1))
seed_sources-IsBuiltIn (p ∷ pods) k b small built =
    let (built', few) =
      seed_sources-IsBuiltIn pods (k + 1) _ (omega arith)
        (seed_source-IsBuiltIn k p b (omega arith) built) in
    (built', omega arith)

seed_dests-IsBuiltIn :
    (pods : List PodDetail) (k : ℕ) (b : GraphBuilder)
    → IsBuiltIn k b
    → IsBuiltIn k (seed_dests pods b)
unfolding seed_dests
seed_dests-IsBuiltIn [] k b built = built
seed_dests-IsBuiltIn (p ∷ pods) k b built =
    seed_dests-IsBuiltIn pods k _ (add_node-IsBuiltIn k _ b built)

seed_ip-IsBuiltIn :
    (ip : Option IpEndpointNode) (k : ℕ) (b : GraphBuilder)
    → IsBuiltIn k b
    → IsBuiltIn k (seed_ip ip b)
unfolding seed_ip
seed_ip-IsBuiltIn none k b built = built
seed_ip-IsBuiltIn (some ip) k b built = add_node-IsBuiltIn k _ b built

empty-IsBuilt :
    (source_pods dest_pods : List PodDetail) (ip : Option IpEndpointNode) (scope : IdSet)
    → IsBuiltIn 0 (new_graph_builder source_pods dest_pods ip scope)
unfolding new_graph_builder
empty-IsBuilt source_pods dest_pods ip scope = (
  record {
    nodes_distinct = tt;
    in_set = λ n m. elim m [ ];
    edges_distinct = tt;
    numbered = λ e m. elim m [ ];
    no_doubles = tt;
    keyed = λ e m. elim m [ ];
    loopless = λ e m. elim m [ ];
  },
  omega arith,
)

-- What of an edge and of a node the marking does not change.
IsKept : (TraceEdge → String) → Type 0
IsKept key = (e : TraceEdge) → key (record e { primary = true }) ≡ key e

if_kept :
    {A : Type 0} (key : A → String) (c : Bool) (x y : A)
    → key y ≡ key x
    → key (if c then y else x) ≡ key x
if_kept key true x y same = same
if_kept key false x y same = refl

mark_direct-AreApart :
    (key : TraceEdge → String) (source_ids dest_ids : IdSet) (es : List TraceEdge)
    → IsKept key
    → AreApartBy key es
    → AreApartBy key (mark_direct source_ids dest_ids es)
unfolding mark_direct IsKept
mark_direct-AreApart key source_ids dest_ids es kept apart =
    AreApartBy-map key _ es
      (λ e.
        if_kept key (has e.from source_ids && has e.to dest_ids) e (record e { primary = true })
          (kept e))
      apart

mark_path-AreApart :
    (key : TraceEdge → String) (best : List String) (es : List TraceEdge)
    → IsKept key
    → AreApartBy key es
    → AreApartBy key (mark_path best es)
unfolding mark_path mark_hop IsKept
mark_path-AreApart key [] es kept apart = apart
mark_path-AreApart key (a ∷ []) es kept apart = apart
mark_path-AreApart key (a ∷ c ∷ best) es kept apart = mark_path-AreApart key (c ∷ best) _ kept (
    AreApartBy-map key (mark_hop a c) es
      (λ e. if_kept key _ e (record e { primary = true }) (kept e)) apart)

focus_nodes-AreApart :
    (test : TraceNode → Bool) (nodes : List TraceNode)
    → HasDistinctNodes nodes
    → HasDistinctNodes
        (map (λ (n : TraceNode). if test n then record n { focused = true } else n) nodes)
focus_nodes-AreApart test nodes apart =
    AreApartBy-map (λ (n : TraceNode). n.id) _ nodes
      (λ n. if_kept (λ (m : TraceNode). m.id) (test n) n (record n { focused = true }) refl) apart

apply_focus-edges :
    (key : TraceEdge → String) (source_ids dest_ids : IdSet) (best : Option (List String))
    (nodes : List TraceNode) (es : List TraceEdge)
    → IsKept key
    → AreApartBy key es
    → AreApartBy key (apply_focus source_ids dest_ids best nodes es).1
unfolding apply_focus
apply_focus-edges key source_ids dest_ids none nodes es kept apart =
    mark_direct-AreApart key source_ids dest_ids es kept apart
apply_focus-edges key source_ids dest_ids (some best) nodes es kept apart =
    elim (Bool-cases (ltb (length best) 2)) [
      | inl short ↦ rw short (mark_direct-AreApart key source_ids dest_ids es kept apart)
      | inr long ↦ rw long (mark_path-AreApart key best es kept apart)
    ]

apply_focus-nodes :
    (source_ids dest_ids : IdSet) (best : Option (List String)) (nodes : List TraceNode)
    (es : List TraceEdge)
    → HasDistinctNodes nodes
    → HasDistinctNodes (apply_focus source_ids dest_ids best nodes es).0
unfolding apply_focus focus_endpoints focus_path
apply_focus-nodes source_ids dest_ids none nodes es apart = focus_nodes-AreApart _ nodes apart
apply_focus-nodes source_ids dest_ids (some best) nodes es apart =
    elim (Bool-cases (ltb (length best) 2)) [
      | inl short ↦ rw short (focus_nodes-AreApart _ nodes apart)
      | inr long ↦ rw long (focus_nodes-AreApart _ nodes apart)
    ]

-- A graph without two nodes of the same id, two edges of the same id or two of the same ends and type.
pub record IsWellFormed (nodes : List TraceNode) (es : List TraceEdge) : Type 0 where
  pub nodes_distinct : HasDistinctNodes nodes
  pub edges_distinct : HasDistinctIds es
  pub no_doubles : HasNoDoubles es

mark_focus_path-IsWellFormed :
    (node_set source_ids dest_ids : IdSet) (nodes : List TraceNode) (es : List TraceEdge)
    → IsWellFormed nodes es
    → (marked : List TraceNode × List TraceEdge) × (mark_focus_path node_set source_ids dest_ids
          nodes es
        ≡ some marked)
      × IsWellFormed marked.0 marked.1
unfolding mark_focus_path IsKept
mark_focus_path-IsWellFormed node_set source_ids dest_ids nodes es formed =
    elim (Bool-cases (is_nil source_ids || is_nil dest_ids)) [
      | inl nothing ↦ rw nothing ((nodes, es), refl, formed)
      | inr ends ↦
          let (best, found) = best_path-Returns es node_set source_ids dest_ids in
          (
            apply_focus source_ids dest_ids best nodes es,
            rw (ends, found) refl,
            record {
              nodes_distinct =
                  apply_focus-nodes source_ids dest_ids best nodes es formed.nodes_distinct;
              edges_distinct =
                  apply_focus-edges (λ e. e.id) source_ids dest_ids best nodes es (λ e. refl)
                    formed.edges_distinct;
              no_doubles =
                  apply_focus-edges key_of source_ids dest_ids best nodes es (λ e. refl)
                    formed.no_doubles;
            },
          )
    ]

simplified-IsWellFormed :
    (g : TraceGraph)
    → IsWellFormed g.nodes g.edges
    → IsWellFormed (simplified g).nodes (simplified g).edges
unfolding simplified cut with_layer
simplified-IsWellFormed g formed = elim (Bool-cases (length g.nodes == 0)) [
  | inl nothing ↦ rw nothing formed
  | inr some_nodes ↦ rw some_nodes (record {
    nodes_distinct =
        AreApartBy-map (λ (n : TraceNode). n.id) with_layer _
          (λ n. if_kept (λ (m : TraceNode). m.id) _ n _ refl)
          (AreApart-keep _ _ g.nodes formed.nodes_distinct);
    edges_distinct = AreApart-keep _ _ g.edges formed.edges_distinct;
    no_doubles = AreApart-keep _ _ g.edges formed.no_doubles;
  })
]

finish-IsWellFormed :
    (b : GraphBuilder)
    → IsBuilt b
    → (g : TraceGraph) × (finish b ≡ some g) × IsWellFormed g.nodes g.edges
unfolding finish with_layers
finish-IsWellFormed b built =
    let (marked, found, formed) =
      mark_focus_path-IsWellFormed b.node_set b.source_ids b.dest_ids b.nodes b.edges (record {
        nodes_distinct = built.nodes_distinct;
        edges_distinct = built.edges_distinct;
        no_doubles = built.no_doubles;
      }) in
    let layered : TraceGraph = record {
      nodes = with_layers marked.0;
      edges = marked.1;
      paths = b.paths;
    } in
    (
      simplified layered,
      rw found refl,
      simplified-IsWellFormed layered (record {
        nodes_distinct =
            AreApartBy-map (λ (n : TraceNode). n.id) _ marked.0
              (λ n. if_kept (λ (m : TraceNode). m.id) _ n _ refl) formed.nodes_distinct;
        edges_distinct = formed.edges_distinct;
        no_doubles = formed.no_doubles;
      }),
    )

-- From a new builder, after `seedEndpoints` and any calls of `addNode`, `addEdge` and `addPath`,
-- fewer than 2 ^ 64 with the source pods, `finish` returns a graph without two nodes of the same id
-- and without two edges of the same id or of the same ends and type, and `NewGraphCorrelator` of it is
-- sound.
pub finish-run_calls :
    (source_pods dest_pods : List PodDetail) (ip : Option IpEndpointNode) (scope : IdSet)
    (calls : List BuilderCall)
    → length source_pods + length calls < 2 ^ 64
    → (g : TraceGraph) × (finish
          (run_calls calls (seed_endpoints (new_graph_builder source_pods dest_pods ip scope)))
        ≡ some g)
      × IsWellFormed g.nodes g.edges
      × IsSound (new_graph_correlator g.nodes g.edges)
unfolding seed_endpoints new_graph_builder
finish-run_calls source_pods dest_pods ip scope calls small =
    let start = new_graph_builder source_pods dest_pods ip scope in
    let sources =
      seed_sources-IsBuiltIn source_pods 0 start (omega arith)
        (empty-IsBuilt source_pods dest_pods ip scope) in
    let seeded =
      seed_ip-IsBuiltIn ip (0 + length source_pods) _
        (seed_dests-IsBuiltIn dest_pods (0 + length source_pods) _ sources) in
    let built =
      run_calls-IsBuiltIn calls (0 + length source_pods) (seed_endpoints start) (omega arith)
        seeded in
    let (g, returned, formed) =
      finish-IsWellFormed (run_calls calls (seed_endpoints start)) built in
    (g, returned, formed, (new_graph_correlator-IsSound g.nodes g.edges formed.edges_distinct).0)
