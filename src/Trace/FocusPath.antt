-- ===== src/Trace/FocusPath.antt =====
-- internal/trace/path_focus.go: the breadth-first search for the focused path. A set of ids is a
-- map to the one-element type, as in the source.
pub mod Adjacent
pub mod Visit
pub mod Shortest
pub mod Seed
pub mod Fuel
use netobserv_spcg.Common.{
  ℕ, zero, suc, ◌+◌, ◌*◌, String, String-discrete, str_eq, Bool, true, false, ◌&&◌, ◌||◌, List, [],
  ◌∷◌, ◌++◌, map, Option, some, none, ltb, if◌then◌else◌, length,
}
use netobserv_spcg.Common.Maps.{Map, lookup, insert, contains}
pub use netobserv_spcg.Common.Sets.{IdSet, has, add}
use netobserv_spcg.Trace.Types.{TraceNode, TraceEdge}

abbrev pub Adjacency : Type 0
Adjacency = Map String (List String)

abbrev pub or_empty : Option (List String) → List String
or_empty none = []
or_empty (some xs) = xs

-- `adj[id]`, which is nil for an id without edges.
unfoldable pub neighbours : Adjacency → String → List String
neighbours adj id = or_empty (lookup String-discrete id adj)

-- `adj[from] = append(adj[from], to)`.
unfoldable pub link : String → String → Adjacency → Adjacency
link from to adj = insert String-discrete from (neighbours adj from ++ (to ∷ [])) adj

unfoldable pub add_adjacency : List TraceEdge → Adjacency → Adjacency
add_adjacency [] adj = adj
add_adjacency (e ∷ edges) adj = add_adjacency edges (link e.to e.from (link e.from e.to adj))

-- A queue entry of the search.
pub record SearchStep : Type 0 where
  pub id : String
  pub path : List String

-- The loop that seeds the queue with the source ids that are nodes of the graph.
unfoldable pub seed_queue : IdSet → IdSet → List SearchStep → IdSet → List SearchStep × IdSet
seed_queue [] node_set queue visited = (queue, visited)
seed_queue ((id, u) ∷ source_ids) node_set queue visited =
    let present = has id node_set in
    seed_queue source_ids node_set
      (if present then queue ++ (record { id = id; path = id ∷ [] } ∷ []) else queue)
      (if present then add id visited else visited)

-- The inner loop over `adj[cur.id]`.
unfoldable pub visit_neighbours :
    List String → List String → List SearchStep → IdSet → List SearchStep × IdSet
visit_neighbours path [] queue visited = (queue, visited)
visit_neighbours path (next ∷ rest) queue visited =
    let seen = has next visited in
    visit_neighbours path rest
      (if seen then queue else queue ++ (record { id = next; path = path ++ (next ∷ []) } ∷ []))
      (if seen then visited else add next visited)

-- The search loop. The outer `none` is that the fuel ran out, the inner one that no destination
-- was met.
unfoldable pub search_path :
    ℕ → Adjacency → IdSet → List SearchStep → IdSet → Option (Option (List String))
search_path fuel adj dest_ids [] visited = some none
search_path zero adj dest_ids (cur ∷ queue) visited = none
search_path (suc fuel) adj dest_ids (cur ∷ queue) visited =
    let (queue', visited') = visit_neighbours cur.path (neighbours adj cur.id) queue visited in
    let rest = search_path fuel adj dest_ids queue' visited' in
    if has cur.id dest_ids then some (some cur.path) else rest

-- The part of `markFocusPath` up to the end of the search. Each id enters the queue at most
-- once, and is a source or an end of an edge.
unfoldable pub best_path : List TraceEdge → IdSet → IdSet → IdSet → Option (Option (List String))
best_path edges node_set source_ids dest_ids =
    let (queue, visited) = seed_queue source_ids node_set [] [] in
    search_path (length source_ids + 2 * length edges) (add_adjacency edges []) dest_ids queue
      visited

-- The two assignments `Focused = true` of the fallback.
unfoldable pub focus_endpoints : IdSet → IdSet → List TraceNode → List TraceNode
focus_endpoints source_ids dest_ids =
    map (λ n. if has n.id source_ids || has n.id dest_ids then record n { focused = true } else n)

unfoldable pub mark_direct : IdSet → IdSet → List TraceEdge → List TraceEdge
mark_direct source_ids dest_ids =
    map (λ e. if has e.from source_ids && has e.to dest_ids then record e { primary = true } else e)

unfoldable pub on_path : List String → IdSet
on_path [] = []
on_path (id ∷ best) = add id (on_path best)

unfoldable pub focus_path : List String → List TraceNode → List TraceNode
focus_path best = map (λ n. if has n.id (on_path best) then record n { focused = true } else n)

unfoldable pub mark_hop : String → String → TraceEdge → TraceEdge
mark_hop a c e =
    if (str_eq e.from a && str_eq e.to c) || (str_eq e.from c && str_eq e.to a)
    then record e { primary = true }
    else e

-- The loop over consecutive ids of the path.
unfoldable pub mark_path : List String → List TraceEdge → List TraceEdge
mark_path [] edges = edges
mark_path (a ∷ []) edges = edges
mark_path (a ∷ c ∷ best) edges = mark_path (c ∷ best) (map (mark_hop a c) edges)

unfoldable pub apply_focus :
    IdSet
    → IdSet
    → Option (List String)
    → List TraceNode
    → List TraceEdge
    → List TraceNode × List TraceEdge
apply_focus source_ids dest_ids none nodes edges =
    (focus_endpoints source_ids dest_ids nodes, mark_direct source_ids dest_ids edges)
apply_focus source_ids dest_ids (some best) nodes edges =
    if ltb (length best) 2
    then (focus_endpoints source_ids dest_ids nodes, mark_direct source_ids dest_ids edges)
    else (focus_path best nodes, mark_path best edges)

abbrev pub is_nil : IdSet → Bool
is_nil [] = true
is_nil (x ∷ xs) = false

-- `markFocusPath` on the builder's nodes and edges; `none` is that the fuel ran out.
unfoldable pub mark_focus_path :
    IdSet
    → IdSet
    → IdSet
    → List TraceNode
    → List TraceEdge
    → Option (List TraceNode × List TraceEdge)
mark_focus_path node_set source_ids dest_ids nodes edges =
    if is_nil source_ids || is_nil dest_ids
    then some (nodes, edges)
    else (elim (best_path edges node_set source_ids dest_ids) [
      | none ↦ none
      | some best ↦ some (apply_focus source_ids dest_ids best nodes edges)
    ])
