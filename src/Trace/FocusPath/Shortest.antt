-- ===== src/Trace/FocusPath/Shortest.antt =====
-- The search of internal/trace/path_focus.go finds a shortest route, and finds none only where
-- there is none.
use mathlib.Core.Option.{some-injective}
use netobserv_spcg.Common.{
  ℕ, zero, suc, ◌+◌, ◌*◌, ◌≤◌, ◌≡◌, refl, sym, ◌∙◌, ap, subst, ◌⊎◌, inl, inr, String, true, false,
  List, [], ◌∷◌, Option, some, none, Elem, here, there, length, length-append, Bool-cases, arith,
  none≢some,
}
use netobserv_spcg.Trace.FocusPath.{
  IdSet, has, Adjacency, neighbours, SearchStep, visit_neighbours, search_path, add_adjacency,
  seed_queue, best_path,
}
use netobserv_spcg.Trace.Types.{TraceEdge}
use netobserv_spcg.Trace.FocusPath.Seed.{IsSource, seed-Inv}
use netobserv_spcg.Trace.FocusPath.Fuel.{best_path-Returns}
use netobserv_spcg.Trace.FocusPath.Visit.{
  Route, start, hop, Dist, IsQueued, IsDone, Inv, Mid, visit-Mid,
}

module _ (adj : Adjacency) (dest_ids : IdSet) (Start : String → Type 0) where
  abbrev Invariant : Dist → ℕ → List SearchStep → IdSet → Type 0
  Invariant = Inv adj dest_ids Start

  -- Taking the head off the queue starts its expansion.
  pop-Mid :
      (dist : Dist) (b : ℕ) (cur : SearchStep) (queue : List SearchStep) (visited : IdSet)
      → Invariant dist b (cur ∷ queue) visited
      → Mid adj dest_ids Start dist cur (neighbours adj cur.id) queue visited
  pop-Mid dist b cur queue visited i =
      let head = i.entries cur (here refl) in
      record {
        starts = i.starts;
        levels = i.levels.1;
        entries = λ s j.
            let e = i.entries s (there j) in
            let level = i.levels.0 s j in
            record {
              route = e.route;
              seen = e.seen;
              exact = e.exact;
              above = level.0;
              below = level.1;
            };
        covered = λ v g. elim (i.covered v g) [
          | inl q ↦ queued v q
          | inr d ↦ inr (
              inl (record {
                no_dest = d.no_dest;
                near = omega (arith, d.near, head.above);
                closed = d.closed;
              }))
        ];
        expanded = λ w j. inl j;
        nearby = λ w j. j;
        route = head.route;
        exact = sym head.exact;
        seen = head.seen;
      }
    where
      queued :
          (v : String)
          → IsQueued adj dest_ids Start (cur ∷ queue) v
          → IsQueued adj dest_ids Start queue v
            ⊎ IsDone adj dest_ids Start dist (length cur.path) visited v
            ⊎ (cur.id ≡ v)
      queued v q = from q.inside q.same
        where
          from :
              {s : SearchStep}
              → Elem s (cur ∷ queue)
              → s.id ≡ v
              → IsQueued adj dest_ids Start queue v
                ⊎ IsDone adj dest_ids Start dist (length cur.path) visited v
                ⊎ (cur.id ≡ v)
          from (here e) same = inr (inr (ap (λ (s : SearchStep). s.id) e ∙ same))
          from {s} (there j) same = inl (record { entry = s; inside = j; same = same })

  -- When all neighbours of `cur` are visited, `cur` is done.
  expanded-Inv :
      (dist : Dist) (cur : SearchStep) (queue : List SearchStep) (visited : IdSet)
      → Mid adj dest_ids Start dist cur [] queue visited
      → has cur.id dest_ids ≡ false
      → Invariant dist (length cur.path) queue visited
  expanded-Inv dist cur queue visited m no_dest = record {
    starts = m.starts;
    levels = m.levels;
    entries = m.entries;
    covered = λ v g. elim (m.covered v g) [
      | inl q ↦ inl q
      | inr (inl d) ↦ inr d
      | inr (inr c) ↦ inr (
          subst (IsDone adj dest_ids Start dist (length cur.path) visited) c (record {
            no_dest = no_dest;
            near = omega (arith, m.exact);
            closed = λ w j. elim (m.expanded w j) [
              | inl z ↦ elim z [ ]
              | inr (seen, near) ↦ (seen, omega (arith, m.exact, near))
            ];
          }))
    ];
  }

  -- A route has met only visited ids, or is at least as long as the paths in the queue.
  walk :
      (dist : Dist) (b k : ℕ) (queue : List SearchStep) (visited : IdSet)
      → Invariant dist b queue visited
      → ((s : SearchStep) → Elem s queue → k ≤ length s.path)
      → {p : List String} {v : String} → Route adj Start p v
      → ((has v visited ≡ true) × (dist v ≤ length p)) ⊎ (k ≤ length p)
  walk dist b k queue visited i low (start id s) = inl (i.starts id s)
  walk dist b k queue visited i low (hop {a} p c r j) =
      let size = length-append p (c ∷ []) in
      elim (walk dist b k queue visited i low r) [
        | inr far ↦ inr (omega arith)
        | inl (g, near) ↦ elim (i.covered a g) [
          | inl q ↦
              let e = i.entries q.entry q.inside in
              let d : dist q.entry.id ≡ dist a = ap dist q.same in
              inr (omega (arith, low q.entry q.inside, e.exact))
          | inr d ↦ let next = d.closed c j in inl (next.0, omega (arith, next.1))
        ]
      ]

  -- What the search is for: a shortest route to a destination, or that there is none.
  abbrev pub IsBest : Option (List String) → Type 0
  IsBest none = (p : List String) (v : String) → Route adj Start p v → has v dest_ids ≡ false
  IsBest (some best) =
      (d : String) × Route adj Start best d
      × (has d dest_ids ≡ true)
      × ((p : List String) (v : String)
          → Route adj Start p v
          → has v dest_ids ≡ true
          → length best ≤ length p)

  empty-IsBest : (dist : Dist) (b : ℕ) (visited : IdSet) → Invariant dist b [] visited → IsBest none
  empty-IsBest dist b visited i p v r =
      elim (walk dist b (length p + 1) [] visited i (λ s j. elim j [ ]) r) [
        | inr far ↦ absurd (omega arith)
        | inl (g, _) ↦ elim (i.covered v g) [ inl q ↦ elim q.inside [ ] | inr d ↦ d.no_dest ]
      ]

  head-IsBest :
      (dist : Dist) (b : ℕ) (cur : SearchStep) (queue : List SearchStep) (visited : IdSet)
      → Invariant dist b (cur ∷ queue) visited
      → has cur.id dest_ids ≡ true
      → IsBest (some cur.path)
  head-IsBest dist b cur queue visited i met = (
    cur.id,
    (i.entries cur (here refl)).route,
    met,
    λ p v r g'. elim (walk dist b (length cur.path) (cur ∷ queue) visited i low r) [
      | inr far ↦ far
      | inl (g, near) ↦ elim (i.covered v g) [
        | inl q ↦
            let e = i.entries q.entry q.inside in
            let d : dist q.entry.id ≡ dist v = ap dist q.same in
            omega (arith, low q.entry q.inside, e.exact)
        | inr d ↦ cc (sym d.no_dest ∙ g')
      ]
    ],
  )
    where
      low : (s : SearchStep) → Elem s (cur ∷ queue) → length cur.path ≤ length s.path
      low s (here e) = rw (← e) (omega arith)
      low s (there j) = (i.levels.0 s j).0

  -- Whatever the search returns is right.
  pub search_path-IsBest :
      (fuel : ℕ) (dist : Dist) (b : ℕ) (queue : List SearchStep) (visited : IdSet)
      (r : Option (List String))
      → Invariant dist b queue visited
      → search_path fuel adj dest_ids queue visited ≡ some r
      → IsBest r
  unfolding search_path
  search_path-IsBest zero dist b [] visited r i e =
      subst IsBest (some-injective _ _ e) (empty-IsBest dist b visited i)
  search_path-IsBest (suc fuel) dist b [] visited r i e =
      subst IsBest (some-injective _ _ e) (empty-IsBest dist b visited i)
  search_path-IsBest zero dist b (cur ∷ queue) visited r i e = absurd (none≢some e)
  search_path-IsBest (suc fuel) dist b (cur ∷ queue) visited r i e =
      elim (Bool-cases (has cur.id dest_ids)) [
        | inl met ↦
            subst IsBest (some-injective _ _ (rw met at e))
              (head-IsBest dist b cur queue visited i met)
        | inr no_dest ↦
            let (dist', m) =
              visit-Mid adj dest_ids Start dist cur (neighbours adj cur.id) queue visited
                (pop-Mid dist b cur queue visited i) in
            let (queue', visited') =
              visit_neighbours cur.path (neighbours adj cur.id) queue visited in
            search_path-IsBest fuel dist' (length cur.path) queue' visited' r
              (expanded-Inv dist' cur queue' visited' m no_dest) (rw no_dest at e)
      ]

-- The search of `markFocusPath` ends on every graph. It returns a route from a present source to
-- a destination that no other such route is shorter than, or, if it returns none, no destination
-- can be reached from any present source.
pub best_path-IsBest :
    (edges : List TraceEdge) (node_set source_ids dest_ids : IdSet)
    → (best : Option (List String)) × (best_path edges node_set source_ids dest_ids ≡ some best)
      × IsBest (add_adjacency edges []) dest_ids (IsSource node_set source_ids) best
unfolding best_path
best_path-IsBest edges node_set source_ids dest_ids =
    let (best, e) = best_path-Returns edges node_set source_ids dest_ids in
    let (queue, visited) = seed_queue source_ids node_set [] [] in
    let adj = add_adjacency edges [] in
    (
      best,
      e,
      search_path-IsBest adj dest_ids (IsSource node_set source_ids)
          (length source_ids + 2 * length edges) (λ _. 1) 1 queue visited best
          (seed-Inv adj dest_ids node_set source_ids) e,
    )
