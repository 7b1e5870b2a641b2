-- ===== src/Trace/FocusPath/Visit.antt =====
-- The invariant of the search of internal/trace/path_focus.go, and one expansion of an id.
use netobserv_spcg.Common.{
  ℕ, ◌+◌, ◌≤◌, ◌≡◌, ◌≢◌, refl, sym, ◌∙◌, subst, ◌⊎◌, inl, inr, ite, if_pos, if_neg, String,
  String-discrete, true, false, List, [], ◌∷◌, ◌++◌, Elem, here, there, Elem-append,
  Elem-append_left, Elem-append_right, length, length-append, Bool-cases, arith,
}
use netobserv_spcg.Common.Sets.{has-add_self, has-add_keeps, has-add_inv}
use netobserv_spcg.Trace.FocusPath.{
  IdSet, has, add, Adjacency, neighbours, SearchStep, visit_neighbours,
}

-- A walk along edges from a start, as the list of its ids.
pub data Route (adj : Adjacency) (Start : String → Type 0) : List String → String → Type 0 where
  start : (id : String) → Start id → Route adj Start (id ∷ []) id
  hop :
      {a : String} (p : List String) (c : String)
      → Route adj Start p a
      → Elem c (neighbours adj a)
      → Route adj Start (p ++ (c ∷ [])) c

-- The paths in the queue grow by one id at most, and never shrink.
abbrev pub Levels : List SearchStep → Type 0
Levels [] = Unit
Levels (s ∷ queue) =
    ((t : SearchStep)
      → Elem t queue
      → (length s.path ≤ length t.path) × (length t.path ≤ length s.path + 1))
    × Levels queue

pub Levels-append :
    (queue : List SearchStep) (x : SearchStep)
    → Levels queue
    → ((t : SearchStep)
        → Elem t queue
        → (length t.path ≤ length x.path) × (length x.path ≤ length t.path + 1))
    → Levels (queue ++ (x ∷ []))
Levels-append [] x l h = ((λ t m. elim m [ ]), tt)
Levels-append (s ∷ queue) x l h = (
  (λ t m. elim (Elem-append queue (x ∷ []) m) [
    | inl old ↦ l.0 t old
    | inr (here e) ↦ rw (← e) (h s (here refl))
    | inr (there none_left) ↦ elim none_left [ ]
  ]),
  Levels-append queue x l.1 (λ t m. h t (there m)),
)

-- `dist` gives each visited id the length of the path by which it was met.
abbrev pub Dist : Type 0
Dist = String → ℕ

abbrev pub extend : Dist → String → ℕ → Dist
extend dist k n id = ite (String-discrete k id) n (dist id)

extend_other :
    (dist : Dist) (k : String) (n : ℕ) (id : String) → k ≢ id → extend dist k n id ≡ dist id
extend_other dist k n id p = if_neg (String-discrete k id) p _ _

extend_self : (dist : Dist) (k : String) (n : ℕ) → extend dist k n k ≡ n
extend_self dist k n = if_pos (String-discrete k k) refl _ _

module _ (adj : Adjacency) (dest_ids : IdSet) (Start : String → Type 0) where
  pub record IsQueued (queue : List SearchStep) (id : String) : Type 0 where
    pub entry : SearchStep
    pub inside : Elem entry queue
    pub same : entry.id ≡ id

  -- An id that has left the queue: no destination, and all its neighbours have been met.
  pub record IsDone (dist : Dist) (b : ℕ) (visited : IdSet) (id : String) : Type 0 where
    pub no_dest : has id dest_ids ≡ false
    pub near : dist id ≤ b
    pub closed :
        (w : String) → Elem w (neighbours adj id) → (has w visited ≡ true) × (dist w ≤ dist id + 1)

  pub record IsEntry (dist : Dist) (b : ℕ) (visited : IdSet) (s : SearchStep) : Type 0 where
    pub route : Route adj Start s.path s.id
    pub seen : has s.id visited ≡ true
    pub exact : length s.path ≡ dist s.id
    pub above : b ≤ length s.path
    pub below : length s.path ≤ b + 1

  -- The invariant of the search loop.
  pub record Inv (dist : Dist) (b : ℕ) (queue : List SearchStep) (visited : IdSet) : Type 0 where
    pub starts : (v : String) → Start v → (has v visited ≡ true) × (dist v ≤ 1)
    pub levels : Levels queue
    pub entries : (s : SearchStep) → Elem s queue → IsEntry dist b visited s
    pub covered : (v : String) → has v visited ≡ true → IsQueued queue v ⊎ IsDone dist b visited v

  -- The invariant of the inner loop, with the neighbours `rest` of `cur` still to visit.
  pub record Mid (dist : Dist) (cur : SearchStep) (rest : List String) (queue : List SearchStep)
      (visited : IdSet) : Type 0 where
    pub starts : (v : String) → Start v → (has v visited ≡ true) × (dist v ≤ 1)
    pub levels : Levels queue
    pub entries : (s : SearchStep) → Elem s queue → IsEntry dist (length cur.path) visited s
    pub covered :
        (v : String)
        → has v visited ≡ true
        → IsQueued queue v ⊎ IsDone dist (length cur.path) visited v ⊎ (cur.id ≡ v)
    pub expanded :
        (w : String)
        → Elem w (neighbours adj cur.id)
        → Elem w rest ⊎ ((has w visited ≡ true) × (dist w ≤ length cur.path + 1))
    pub nearby : (w : String) → Elem w rest → Elem w (neighbours adj cur.id)
    pub route : Route adj Start cur.path cur.id
    pub exact : dist cur.id ≡ length cur.path
    pub seen : has cur.id visited ≡ true

  dist_bound :
      (dist : Dist) (cur : SearchStep) (rest : List String) (queue : List SearchStep)
      (visited : IdSet) (v : String)
      → Mid dist cur rest queue visited
      → has v visited ≡ true
      → dist v ≤ length cur.path + 1
  dist_bound dist cur rest queue visited v m h = elim (m.covered v h) [
    | inl q ↦ let e = m.entries q.entry q.inside in rw (← q.same) (omega (arith, e.exact, e.below))
    | inr (inl d) ↦ omega (arith, d.near)
    | inr (inr c) ↦ rw (← c) (omega (arith, m.exact))
  ]

  -- A neighbour that was met before changes nothing.
  Mid-seen :
      (dist : Dist) (cur : SearchStep) (next : String) (rest : List String)
      (queue : List SearchStep) (visited : IdSet)
      → Mid dist cur (next ∷ rest) queue visited
      → has next visited ≡ true
      → Mid dist cur rest queue visited
  Mid-seen dist cur next rest queue visited m h = record {
    starts = m.starts;
    levels = m.levels;
    entries = m.entries;
    covered = m.covered;
    expanded = λ w j. elim (m.expanded w j) [
      | inl (here e) ↦ inr (rw (← e) (h, dist_bound dist cur (next ∷ rest) queue visited next m h))
      | inl (there l) ↦ inl l
      | inr d ↦ inr d
    ];
    nearby = λ w j. m.nearby w (there j);
    route = m.route;
    exact = m.exact;
    seen = m.seen;
  }

  abbrev met : SearchStep → String → SearchStep
  met cur next = record { id = next; path = cur.path ++ (next ∷ []) }

  ne_of_has :
      (next v : String) (visited : IdSet)
      → has next visited ≡ false
      → has v visited ≡ true
      → next ≢ v
  ne_of_has next v visited h g e = cc (sym h ∙ (rw (← e) at g))

  module _ (dist : Dist) (cur : SearchStep) (next : String) (rest : List String)
      (queue : List SearchStep) (visited : IdSet) (m : Mid dist cur (next ∷ rest) queue visited)
      (h : has next visited ≡ false) where
    abbrev dist_met : Dist
    dist_met = extend dist next (length cur.path + 1)

    same : (v : String) → has v visited ≡ true → dist_met v ≡ dist v
    same v g = extend_other dist next (length cur.path + 1) v (ne_of_has next v visited h g)

    keeps : (v : String) → has v visited ≡ true → has v (add next visited) ≡ true
    keeps v g = has-add_keeps next v visited g

    length-met : length (cur.path ++ (next ∷ [])) ≡ length cur.path + 1
    length-met = length-append cur.path (next ∷ [])

    keep-IsEntry :
        (s : SearchStep)
        → IsEntry dist (length cur.path) visited s
        → IsEntry dist_met (length cur.path) (add next visited) s
    keep-IsEntry s e = record {
      route = e.route;
      seen = keeps s.id e.seen;
      exact = e.exact ∙ sym (same s.id e.seen);
      above = e.above;
      below = e.below;
    }

    met-IsEntry : IsEntry dist_met (length cur.path) (add next visited) (met cur next)
    met-IsEntry = record {
      route = hop cur.path next m.route (m.nearby next (here refl));
      seen = has-add_self next visited;
      exact = length-met ∙ sym (extend_self dist next (length cur.path + 1));
      above = omega (arith, length-met);
      below = omega (arith, length-met);
    }

    keep-IsDone :
        (v : String)
        → has v visited ≡ true
        → IsDone dist (length cur.path) visited v
        → IsDone dist_met (length cur.path) (add next visited) v
    keep-IsDone v g d = record {
      no_dest = d.no_dest;
      near = rw (same v g) d.near;
      closed = λ w j. let c = d.closed w j in (keeps w c.0, rw (same w c.0, same v g) c.1);
    }

    entries_met :
        (s : SearchStep)
        → Elem s (queue ++ (met cur next ∷ []))
        → IsEntry dist_met (length cur.path) (add next visited) s
    entries_met s j = elim (Elem-append queue (met cur next ∷ []) j) [
      | inl old ↦ keep-IsEntry s (m.entries s old)
      | inr (here e) ↦ subst (IsEntry dist_met (length cur.path) (add next visited)) e met-IsEntry
      | inr (there z) ↦ elim z [ ]
    ]

    covered_met :
        (v : String)
        → has v (add next visited) ≡ true
        → IsQueued (queue ++ (met cur next ∷ [])) v
          ⊎ IsDone dist_met (length cur.path) (add next visited) v
          ⊎ (cur.id ≡ v)
    covered_met v g' = elim (has-add_inv next v visited g') [
      | inl e ↦
          inl (record {
            entry = met cur next;
            inside = Elem-append_right queue (here refl);
            same = e;
          })
      | inr g ↦ elim (m.covered v g) [
        | inl q ↦ inl (record {
          entry = q.entry;
          inside = Elem-append_left (met cur next ∷ []) q.inside;
          same = q.same;
        })
        | inr (inl d) ↦ inr (inl (keep-IsDone v g d))
        | inr (inr c) ↦ inr (inr c)
      ]
    ]

    expanded_met :
        (w : String)
        → Elem w (neighbours adj cur.id)
        → Elem w rest ⊎ ((has w (add next visited) ≡ true) × (dist_met w ≤ length cur.path + 1))
    expanded_met w j = elim (m.expanded w j) [
      | inl (here e) ↦
          let self = extend_self dist next (length cur.path + 1) in
          inr (rw (← e) (has-add_self next visited, rw self (omega arith)))
      | inl (there l) ↦ inl l
      | inr (g, d) ↦ inr (keeps w g, rw (same w g) d)
    ]

    -- A new neighbour is met one level below `cur`.
    Mid-met : Mid dist_met cur rest (queue ++ (met cur next ∷ [])) (add next visited)
    Mid-met = record {
      starts = λ v s. let old = m.starts v s in (keeps v old.0, rw (same v old.0) old.1);
      levels = Levels-append queue (met cur next) m.levels λ t j.
          let e = m.entries t j in
          (omega (arith, length-met, e.below), omega (arith, length-met, e.above));
      entries = entries_met;
      covered = covered_met;
      expanded = expanded_met;
      nearby = λ w j. m.nearby w (there j);
      route = m.route;
      exact = same cur.id m.seen ∙ m.exact;
      seen = keeps cur.id m.seen;
    }

  -- The inner loop visits every neighbour and keeps its invariant.
  pub visit-Mid :
      (dist : Dist) (cur : SearchStep) (rest : List String) (queue : List SearchStep)
      (visited : IdSet)
      → Mid dist cur rest queue visited
      → let (queue', visited') = visit_neighbours cur.path rest queue visited in
        (dist' : Dist) × Mid dist' cur [] queue' visited'
  unfolding visit_neighbours
  visit-Mid dist cur [] queue visited m = (dist, m)
  visit-Mid dist cur (next ∷ rest) queue visited m = elim (Bool-cases (has next visited)) [
    | inl old ↦
        rw (old, visit_neighbours)
          (visit-Mid dist cur rest queue visited (Mid-seen dist cur next rest queue visited m old))
    | inr new ↦
        rw (new, visit_neighbours)
          (visit-Mid (dist_met dist cur next rest queue visited m new) cur rest
            (queue ++ (met cur next ∷ [])) (add next visited)
            (Mid-met dist cur next rest queue visited m new))
  ]
