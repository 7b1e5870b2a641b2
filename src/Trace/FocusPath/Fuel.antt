-- ===== src/Trace/FocusPath/Fuel.antt =====
-- The search of internal/trace/path_focus.go ends: each id enters the queue at most once.
use netobserv_spcg.Common.{
  ℕ, zero, suc, ◌+◌, ◌*◌, ◌≤◌, ◌<◌, ◌≡◌, refl, inl, inr, String, false, List, [], ◌∷◌, ◌++◌, some,
  none, Elem, here, there, length, length-append, Bool-cases, arith, if◌then◌else◌, Returns,
}
use netobserv_spcg.Trace.Types.{TraceEdge}
use netobserv_spcg.Trace.FocusPath.{
  IdSet, has, add, Adjacency, neighbours, add_adjacency, SearchStep, visit_neighbours, search_path,
  seed_queue, best_path,
}
use netobserv_spcg.Trace.FocusPath.Adjacent.{
  Adjacent, forward, backward, later, Elem-add_adjacency, no_neighbours,
}
use netobserv_spcg.Common.Sets.{has-add_self, has-add_keeps}

-- The ends of the edges, with repetition.
pub ends : List TraceEdge → List String
ends [] = []
ends (e ∷ edges) = e.from ∷ e.to ∷ ends edges

pub length-ends : (edges : List TraceEdge) → length (ends edges) ≡ 2 * length edges
unfolding ends
length-ends [] = refl
length-ends (e ∷ edges) = omega (arith, length-ends edges)

Adjacent-ends : (a c : String) (edges : List TraceEdge) → Adjacent a c edges → Elem c (ends edges)
unfolding ends
Adjacent-ends a c (e ∷ edges) (forward p q) = there (here q)
Adjacent-ends a c (e ∷ edges) (backward p q) = here q
Adjacent-ends a c (e ∷ edges) (later j) = there (there (Adjacent-ends a c edges j))
Adjacent-ends a c [] j = elim j [ ]

-- How many entries of the list are not visited yet.
pub unvisited : List String → IdSet → ℕ
unvisited [] visited = 0
unvisited (id ∷ ids) visited =
    if has id visited then unvisited ids visited else suc (unvisited ids visited)

pub unvisited-le : (ids : List String) (visited : IdSet) → unvisited ids visited ≤ length ids
unfolding unvisited
unvisited-le [] visited = omega arith
unvisited-le (id ∷ ids) visited = ground (arith, unvisited-le ids visited)

unvisited-add-le :
    (k : String) (ids : List String) (visited : IdSet)
    → unvisited ids (add k visited) ≤ unvisited ids visited
unfolding unvisited
unvisited-add-le k [] visited = omega arith
unvisited-add-le k (id ∷ ids) visited = elim (Bool-cases (has id visited)) [
  | inl old ↦ rw (old, has-add_keeps k id visited old) (unvisited-add-le k ids visited)
  | inr new ↦ elim (Bool-cases (has id (add k visited))) [
    | inl e ↦ rw (new, e) (omega (arith, unvisited-add-le k ids visited))
    | inr e ↦ rw (new, e) (omega (arith, unvisited-add-le k ids visited))
  ]
]

unvisited-add-lt :
    (k : String) (ids : List String) (visited : IdSet)
    → Elem k ids
    → has k visited ≡ false
    → unvisited ids (add k visited) < unvisited ids visited
unfolding unvisited
unvisited-add-lt k (id ∷ ids) visited (here e) new =
    rw (← e) (rw (e, new, has-add_self k visited) (omega (arith, unvisited-add-le k ids visited)))
unvisited-add-lt k (id ∷ ids) visited (there j) new =
    let ih = unvisited-add-lt k ids visited j new in
    elim (Bool-cases (has id visited)) [
      | inl old ↦ rw (old, has-add_keeps k id visited old) ih
      | inr e ↦ elim (Bool-cases (has id (add k visited))) [
        | inl e' ↦ rw (e, e') (omega (arith, ih))
        | inr e' ↦ rw (e, e') (omega (arith, ih))
      ]
    ]
unvisited-add-lt k [] visited j new = elim j [ ]

-- What one id adds to the queue, it takes from the unvisited ids.
visit-measure :
    (ids path rest : List String) (queue : List SearchStep) (visited : IdSet)
    → ((w : String) → Elem w rest → Elem w ids)
    → let (queue', visited') = visit_neighbours path rest queue visited in
      length queue' + unvisited ids visited' ≤ length queue + unvisited ids visited
unfolding visit_neighbours
visit-measure ids path [] queue visited sub = omega arith
visit-measure ids path (next ∷ rest) queue visited sub = elim (Bool-cases (has next visited)) [
  | inl old ↦
      rw (old, visit_neighbours)
        (visit-measure ids path rest queue visited (λ w j. sub w (there j)))
  | inr new ↦
      let step : SearchStep = record { id = next; path = path ++ (next ∷ []) } in
      rw (new, visit_neighbours)
        (omega (
          arith,
          visit-measure ids path rest (queue ++ (step ∷ [])) (add next visited)
              (λ w j. sub w (there j)),
          length-append queue (step ∷ []),
          unvisited-add-lt next ids visited (sub next (here refl)) new,
        ))
]

search_path-Returns :
    (fuel : ℕ) (adj : Adjacency) (dest_ids : IdSet) (ids : List String) (queue : List SearchStep)
    (visited : IdSet)
    → ((a w : String) → Elem w (neighbours adj a) → Elem w ids)
    → length queue + unvisited ids visited ≤ fuel
    → Returns (search_path fuel adj dest_ids queue visited)
unfolding search_path
search_path-Returns zero adj dest_ids ids [] visited sub h = (none, refl)
search_path-Returns (suc fuel) adj dest_ids ids [] visited sub h = (none, refl)
search_path-Returns zero adj dest_ids ids (cur ∷ queue) visited sub h = absurd (omega arith)
search_path-Returns (suc fuel) adj dest_ids ids (cur ∷ queue) visited sub h =
    elim (Bool-cases (has cur.id dest_ids)) [
      | inl met ↦ (some cur.path, rw met)
      | inr no_dest ↦
          let (queue', visited') =
            visit_neighbours cur.path (neighbours adj cur.id) queue visited in
          let less =
            visit-measure ids cur.path (neighbours adj cur.id) queue visited (sub cur.id) in
          rw no_dest (search_path-Returns fuel adj dest_ids ids queue' visited' sub (omega arith))
    ]

length-seed_queue :
    (source_ids node_set : IdSet) (queue : List SearchStep) (visited : IdSet)
    → length (seed_queue source_ids node_set queue visited).0 ≤ length source_ids + length queue
unfolding seed_queue
length-seed_queue [] node_set queue visited = omega arith
length-seed_queue ((id, u) ∷ source_ids) node_set queue visited =
    let step : SearchStep = record { id = id; path = id ∷ [] } in
    elim (Bool-cases (has id node_set)) [
      | inl e ↦
          rw (e, seed_queue)
            (omega (
              arith,
              length-seed_queue source_ids node_set (queue ++ (step ∷ [])) (add id visited),
              length-append queue (step ∷ []),
            ))
      | inr e ↦
          rw (e, seed_queue) (omega (arith, length-seed_queue source_ids node_set queue visited))
    ]

-- `markFocusPath`'s search ends on every graph: the fuel of one round for each source and two for
-- each edge is enough.
pub best_path-Returns :
    (edges : List TraceEdge) (node_set source_ids dest_ids : IdSet)
    → Returns (best_path edges node_set source_ids dest_ids)
unfolding best_path
best_path-Returns edges node_set source_ids dest_ids =
    let (queue, visited) = seed_queue source_ids node_set [] [] in
    search_path-Returns (length source_ids + 2 * length edges) (add_adjacency edges []) dest_ids
      (ends edges) queue visited known
      (omega (
        arith,
        length-seed_queue source_ids node_set [] [],
        length-ends edges,
        unvisited-le (ends edges) visited,
      ))
  where
    known : (a w : String) → Elem w (neighbours (add_adjacency edges []) a) → Elem w (ends edges)
    known a w j = elim (Elem-add_adjacency edges [] a w j) [
      | inl z ↦ absurd (no_neighbours a w z)
      | inr adj ↦ Adjacent-ends a w edges adj
    ]
