-- ===== src/Trace/FocusPath/Adjacent.antt =====
-- What `adj` of internal/trace/path_focus.go holds: the two ends of every edge.
use netobserv_spcg.Common.{
  ◌≡◌, ◌↔◌, refl, ◌⊎◌, inl, inr, ite, if_pos, if_neg, String, String-discrete, List, [], ◌∷◌, ◌++◌,
  Elem, here, there, Elem-append, Elem-append_left, Elem-append_right,
}
use netobserv_spcg.Common.Maps.{lookup, lookup-insert}
use netobserv_spcg.Trace.Types.{TraceEdge}
use netobserv_spcg.Trace.FocusPath.{Adjacency, neighbours, link, add_adjacency}

-- An edge joins the two ids, in either direction.
pub data Adjacent (a c : String) : List TraceEdge → Type 0 where
  forward : {e : TraceEdge} {es : List TraceEdge} → e.from ≡ a → e.to ≡ c → Adjacent a c (e ∷ es)
  backward : {e : TraceEdge} {es : List TraceEdge} → e.to ≡ a → e.from ≡ c → Adjacent a c (e ∷ es)
  later : {e : TraceEdge} {es : List TraceEdge} → Adjacent a c es → Adjacent a c (e ∷ es)

pub no_neighbours : (a w : String) → Elem w (neighbours [] a) → ⊥
unfolding neighbours lookup
no_neighbours a w z = elim z [ ]

neighbours-link :
    (from to : String) (adj : Adjacency) (a : String)
    → neighbours (link from to adj) a
      ≡ ite (String-discrete from a) (neighbours adj from ++ (to ∷ [])) (neighbours adj a)
unfolding neighbours link
neighbours-link from to adj a = rw lookup-insert (elim (String-discrete from a) [
  | yes p ↦ rw (if_pos (String-discrete from a) p, if_pos (String-discrete from a) p)
  | no p ↦ rw (if_neg (String-discrete from a) p, if_neg (String-discrete from a) p)
])

link-Elem :
    (from to : String) (adj : Adjacency) (a c : String)
    → Elem c (neighbours (link from to adj) a)
    → Elem c (neighbours adj a) ⊎ ((from ≡ a) × (to ≡ c))
link-Elem from to adj a c m = elim (String-discrete from a) [
  | yes p ↦
      let m' = rw (neighbours-link from to adj a, if_pos (String-discrete from a) p) at m in
      elim (Elem-append (neighbours adj from) (to ∷ []) m') [
        | inl old ↦ inl (rw p at old)
        | inr (here e) ↦ inr (p, e)
        | inr (there x) ↦ elim x [ ]
      ]
  | no p ↦ inl (rw (neighbours-link from to adj a, if_neg (String-discrete from a) p) at m)
]

link_keeps :
    (from to : String) (adj : Adjacency) (a c : String)
    → Elem c (neighbours adj a)
    → Elem c (neighbours (link from to adj) a)
link_keeps from to adj a c m = rw (neighbours-link from to adj a) (elim (String-discrete from a) [
  | yes p ↦ rw (if_pos (String-discrete from a) p) (Elem-append_left (to ∷ []) (rw (← p) at m))
  | no p ↦ rw (if_neg (String-discrete from a) p) m
])

link_adds : (from to : String) (adj : Adjacency) → Elem to (neighbours (link from to adj) from)
link_adds from to adj =
    rw (neighbours-link from to adj from, if_pos (String-discrete from from) refl)
      (Elem-append_right (neighbours adj from) (here refl))

-- Every entry of `adj[a]` is the other end of an edge at `a`.
pub Elem-add_adjacency :
    (edges : List TraceEdge) (adj : Adjacency) (a c : String)
    → Elem c (neighbours (add_adjacency edges adj) a)
    → Elem c (neighbours adj a) ⊎ Adjacent a c edges
unfolding add_adjacency
Elem-add_adjacency [] adj a c m = inl m
Elem-add_adjacency (e ∷ edges) adj a c m =
    elim (Elem-add_adjacency edges (link e.to e.from (link e.from e.to adj)) a c m) [
      | inr j ↦ inr (later j)
      | inl m1 ↦ elim (link-Elem e.to e.from (link e.from e.to adj) a c m1) [
        | inr (p, q) ↦ inr (backward p q)
        | inl m2 ↦ elim (link-Elem e.from e.to adj a c m2) [
          | inr (p, q) ↦ inr (forward p q)
          | inl m3 ↦ inl m3
        ]
      ]
    ]

add_adjacency_keeps :
    (edges : List TraceEdge) (adj : Adjacency) (a c : String)
    → Elem c (neighbours adj a)
    → Elem c (neighbours (add_adjacency edges adj) a)
unfolding add_adjacency
add_adjacency_keeps [] adj a c m = m
add_adjacency_keeps (e ∷ edges) adj a c m =
    add_adjacency_keeps edges (link e.to e.from (link e.from e.to adj)) a c
      (link_keeps e.to e.from (link e.from e.to adj) a c (link_keeps e.from e.to adj a c m))

-- The other end of every edge at `a` is an entry of `adj[a]`.
pub add_adjacency-Elem :
    (edges : List TraceEdge) (adj : Adjacency) (a c : String)
    → Adjacent a c edges
    → Elem c (neighbours (add_adjacency edges adj) a)
unfolding add_adjacency
add_adjacency-Elem [] adj a c j = elim j [ ]
add_adjacency-Elem (e ∷ edges) adj a c (forward p q) =
    add_adjacency_keeps edges (link e.to e.from (link e.from e.to adj)) a c (
      link_keeps e.to e.from (link e.from e.to adj) a c (rw (← p, ← q) (link_adds e.from e.to adj)))
add_adjacency-Elem (e ∷ edges) adj a c (backward p q) =
    add_adjacency_keeps edges (link e.to e.from (link e.from e.to adj)) a c
      (rw (← p, ← q) (link_adds e.to e.from (link e.from e.to adj)))
add_adjacency-Elem (e ∷ edges) adj a c (later j) =
    add_adjacency-Elem edges (link e.to e.from (link e.from e.to adj)) a c j

-- After the loop over the edges, `adj[a]` lists exactly the ids that an edge joins to `a`, whichever
-- way the edge points.
pub neighbours_iff :
    (edges : List TraceEdge) (a c : String)
    → Elem c (neighbours (add_adjacency edges []) a) ↔ Adjacent a c edges
neighbours_iff edges a c = (to_edge, add_adjacency-Elem edges [] a c)
  where
    to_edge : Elem c (neighbours (add_adjacency edges []) a) → Adjacent a c edges
    to_edge m = elim (Elem-add_adjacency edges [] a c m) [
      | inl z ↦ absurd (no_neighbours a c z)
      | inr j ↦ j
    ]
