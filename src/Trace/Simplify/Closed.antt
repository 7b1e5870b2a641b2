-- ===== src/Trace/Simplify/Closed.antt =====
-- `simplifyGraph` keeps the primary edges, and both ends of every edge.
use netobserv_spcg.Common.{
  ◌≡◌, refl, ap, subst, ◌∙◌, String, is_empty, true, ◌&&◌, List, [], ◌∷◌, map, map-Elem, keep, Elem,
  here, there, Elem-keep, keep-Elem, and_left, and_right, Bool-cases, length, ◌==◌, inl, inr,
}
use netobserv_spcg.Common.Sets.{IdSet, has, add, has-add_self, has-add_keeps}
use netobserv_spcg.Trace.Types.{TraceNode, TraceEdge}
use netobserv_spcg.Trace.Simplify.{
  TraceGraph, primary_ids, with_layer, kept_ids, cut, simplified, endpoint_ids,
}

pub record HasVertex (id : String) (nodes : List TraceNode) : Type 0 where
  pub vertex : TraceNode
  pub inside : Elem vertex nodes
  pub same : vertex.id ≡ id

-- Both ends of every edge are nodes of the graph.
abbrev pub IsConnected : TraceGraph → Type 0
IsConnected g = (e : TraceEdge) → Elem e g.edges → HasVertex e.from g.nodes × HasVertex e.to g.nodes

with_layer-id : (n : TraceNode) → (with_layer n).id ≡ n.id
unfolding with_layer
with_layer-id n = elim (Bool-cases (is_empty n.layer)) [ inl t ↦ rw t refl | inr t ↦ rw t refl ]

primary_ids_keeps :
    (es : List TraceEdge) (ids : IdSet) (id : String)
    → has id ids ≡ true
    → has id (primary_ids es ids) ≡ true
unfolding primary_ids
primary_ids_keeps [] ids id h = h
primary_ids_keeps (e ∷ es) ids id h = elim (Bool-cases e.primary) [
  | inr t ↦ rw t (primary_ids_keeps es ids id h)
  | inl t ↦ rw t (
      primary_ids_keeps es (add e.to (add e.from ids)) id
        (has-add_keeps e.to id (add e.from ids) (has-add_keeps e.from id ids h)))
]

primary_ids-Elem :
    (e : TraceEdge) (es : List TraceEdge) (ids : IdSet)
    → Elem e es
    → e.primary ≡ true
    → (has e.from (primary_ids es ids) ≡ true) × (has e.to (primary_ids es ids) ≡ true)
unfolding primary_ids
primary_ids-Elem e [] ids m p = elim m [ ]
primary_ids-Elem e (f ∷ es) ids (there m) p = primary_ids-Elem e es _ m p
primary_ids-Elem e (f ∷ es) ids (here q) p =
    let t : f.primary ≡ true = ap (λ (g : TraceEdge). g.primary) q ∙ p in
    let ids' = add f.to (add f.from ids) in
    subst
      (λ (g : TraceEdge).
        (has g.from (primary_ids (f ∷ es) ids) ≡ true)
        × (has g.to (primary_ids (f ∷ es) ids) ≡ true))
      q
      (rw t (
        primary_ids_keeps es ids' f.from
            (has-add_keeps f.to f.from (add f.from ids) (has-add_self f.from ids)),
        primary_ids_keeps es ids' f.to (has-add_self f.to (add f.from ids)),
      ))

keep-HasVertex :
    (ids : IdSet) (id : String) (nodes : List TraceNode)
    → has id ids ≡ true
    → HasVertex id nodes
    → HasVertex id (map with_layer (keep (λ n. has n.id ids) nodes))
keep-HasVertex ids id nodes h v = record {
  vertex = with_layer v.vertex;
  inside =
      map-Elem with_layer (keep (λ n. has n.id ids) nodes)
        (keep-Elem (λ n. has n.id ids) nodes v.inside (ap (λ k. has k ids) v.same ∙ h));
  same = with_layer-id v.vertex ∙ v.same;
}

cut-IsConnected :
    (g : TraceGraph)
    → IsConnected g
    → ((e : TraceEdge) → Elem e g.edges → e.primary ≡ true → Elem e (cut g).edges)
      × IsConnected (cut g)
unfolding cut kept_ids
cut-IsConnected g closed =
    let ids = kept_ids g in
    let within = λ (e : TraceEdge). has e.from ids && has e.to ids in
    (
      (λ e m p.
          let (a, b) = primary_ids-Elem e g.edges (endpoint_ids g.nodes []) m p in
          keep-Elem within g.edges m (rw (a, b))),
      (λ e m.
          let (inside, ends) = Elem-keep within g.edges m in
          let (from, to) = closed e inside in
          (
            keep-HasVertex ids e.from g.nodes (and_left _ _ ends) from,
            keep-HasVertex ids e.to g.nodes (and_right _ _ ends) to,
          )),
    )

-- The graph that `simplifyGraph` draws keeps every primary edge, and if both ends of every edge are
-- nodes of the graph, that is so in the simplified one.
pub simplified-IsConnected :
    (g : TraceGraph)
    → IsConnected g
    → ((e : TraceEdge) → Elem e g.edges → e.primary ≡ true → Elem e (simplified g).edges)
      × IsConnected (simplified g)
unfolding simplified
simplified-IsConnected g closed = elim (Bool-cases (length g.nodes == 0)) [
  | inl t ↦ rw t ((λ e m p. m), closed)
  | inr t ↦ rw t (cut-IsConnected g closed)
]
