-- ===== src/Trace/FocusPath/Seed.antt =====
-- The seeding of the queue in internal/trace/path_focus.go establishes the invariant.
use netobserv_spcg.Common.{
  ◌≡◌, refl, sym, ◌∙◌, ap, subst, ◌⊎◌, inl, inr, String, String-discrete, true, List, [], ◌∷◌, ◌++◌,
  Elem, here, there, Elem-append, Elem-append_left, Elem-append_right, length, Bool-cases, arith,
  if_pos, if_neg,
}
use netobserv_spcg.Common.Maps.{contains, lookup, contains-cons}
use netobserv_spcg.Common.Sets.{has-add_self, has-add_keeps, has-add_inv}
use netobserv_spcg.Trace.FocusPath.{IdSet, has, add, Adjacency, SearchStep, seed_queue}
use netobserv_spcg.Trace.FocusPath.Visit.{start, Levels, Inv}

-- A source id that is a node of the graph: where the search starts.
abbrev pub IsSource : IdSet → IdSet → String → Type 0
IsSource node_set source_ids id = (has id node_set ≡ true) × (has id source_ids ≡ true)

none_nil : (v : String) → has v [] ≡ true → ⊥
unfolding contains lookup
none_nil v g = cc

has-head : (id : String) (u : Unit {0}) (ids : IdSet) → has id ((id, u) ∷ ids) ≡ true
has-head id u ids =
    contains-cons String-discrete id id u ids ∙ if_pos (String-discrete id id) refl _ _

has-tail :
    (id v : String) (u : Unit {0}) (ids : IdSet) → has v ids ≡ true → has v ((id, u) ∷ ids) ≡ true
has-tail id v u ids g = contains-cons String-discrete v id u ids ∙ (elim (String-discrete id v) [
  | yes p ↦ if_pos (String-discrete id v) p _ _
  | no p ↦ if_neg (String-discrete id v) p _ _ ∙ g
])

has-inv :
    (id v : String) (u : Unit {0}) (ids : IdSet)
    → has v ((id, u) ∷ ids) ≡ true
    → (id ≡ v) ⊎ (has v ids ≡ true)
has-inv id v u ids g = elim (String-discrete id v) [
  | yes p ↦ inl p
  | no p ↦ inr (rw (contains-cons String-discrete v id u ids, if_neg (String-discrete id v) p) at g)
]

ones-Levels :
    (queue : List SearchStep) → ((s : SearchStep) → Elem s queue → length s.path ≡ 1) → Levels queue
ones-Levels [] h = tt
ones-Levels (s ∷ queue) h = (
  (λ t j. (
    omega (arith, h s (here refl), h t (there j)),
    omega (arith, h s (here refl), h t (there j)),
  )),
  ones-Levels queue (λ t j. h t (there j)),
)

module _ (node_set all_sources : IdSet) where
  record IsSeed (s : SearchStep) : Type 0 where
    alone : s.path ≡ s.id ∷ []
    source : IsSource node_set all_sources s.id

  record Seeded (queue : List SearchStep) (visited : IdSet) : Type 0 where
    entries : (s : SearchStep) → Elem s queue → IsSeed s × (has s.id visited ≡ true)
    covered : (v : String) → has v visited ≡ true → (s : SearchStep) × Elem s queue × (s.id ≡ v)

  abbrev seed : String → SearchStep
  seed id = record { id = id; path = id ∷ [] }

  seed_one :
      (id : String) (queue : List SearchStep) (visited : IdSet)
      → Seeded queue visited
      → IsSource node_set all_sources id
      → Seeded (queue ++ (seed id ∷ [])) (add id visited)
  seed_one id queue visited h src = record {
    entries = λ s j. elim (Elem-append queue (seed id ∷ []) j) [
      | inl old ↦ let e = h.entries s old in (e.0, has-add_keeps id s.id visited e.1)
      | inr (here e) ↦
          subst (λ s. IsSeed s × (has s.id (add id visited) ≡ true)) e
            (record { alone = refl; source = src }, has-add_self id visited)
      | inr (there z) ↦ elim z [ ]
    ];
    covered = λ v g. elim (has-add_inv id v visited g) [
      | inl e ↦ (seed id, Elem-append_right queue (here refl), e)
      | inr g' ↦ let (s, j, e) = h.covered v g' in (s, Elem-append_left (seed id ∷ []) j, e)
    ];
  }

  seed_queue-Seeded :
      (ids : IdSet) (queue : List SearchStep) (visited : IdSet)
      → Seeded queue visited
      → ((v : String) → has v ids ≡ true → has v all_sources ≡ true)
      → let (queue', visited') = seed_queue ids node_set queue visited in
        Seeded queue' visited'
        × ((v : String) → has v visited ≡ true → has v visited' ≡ true)
        × ((v : String) → has v ids ≡ true → has v node_set ≡ true → has v visited' ≡ true)
  unfolding seed_queue
  seed_queue-Seeded [] queue visited h sub = (h, (λ v g. g), (λ v g p. absurd (none_nil v g)))
  seed_queue-Seeded ((id, u) ∷ ids) queue visited h sub = elim (Bool-cases (has id node_set)) [
    | inl present ↦
        let src : IsSource node_set all_sources id = (present, sub id (has-head id u ids)) in
        let ih =
          seed_queue-Seeded ids (queue ++ (seed id ∷ [])) (add id visited)
            (seed_one id queue visited h src) (λ v g. sub v (has-tail id v u ids g)) in
        rw (present, seed_queue)
          (
            ih.0,
            (λ v g. ih.1 v (has-add_keeps id v visited g)),
            λ v g p. elim (has-inv id v u ids g) [
              | inl e ↦ ih.1 v (rw (← e) (has-add_self id visited))
              | inr g' ↦ ih.2 v g' p
            ],
          )
    | inr missing ↦
        let ih = seed_queue-Seeded ids queue visited h (λ v g. sub v (has-tail id v u ids g)) in
        rw (missing, seed_queue)
          (
            ih.0,
            ih.1,
            λ v g p. elim (has-inv id v u ids g) [
              | inl e ↦ cc (sym p ∙ (rw e at missing))
              | inr g' ↦ ih.2 v g' p
            ],
          )
  ]

-- The invariant holds before the first round.
pub seed-Inv :
    (adj : Adjacency) (dest_ids node_set source_ids : IdSet)
    → let (queue, visited) = seed_queue source_ids node_set [] [] in
      Inv adj dest_ids (IsSource node_set source_ids) (λ _. 1) 1 queue visited
seed-Inv adj dest_ids node_set source_ids =
    let (h, _, all) =
      seed_queue-Seeded node_set source_ids source_ids [] []
        (record { entries = λ s j. elim j [ ]; covered = λ v g. absurd (none_nil v g) })
        (λ v g. g) in
    let (queue, visited) = seed_queue source_ids node_set [] [] in
    record {
      starts = λ v s. (all v s.1 s.0, omega arith);
      levels = ones-Levels queue (λ s j. ap length (h.entries s j).0.alone);
      entries = λ s j.
          let e = h.entries s j in
          let one : length s.path ≡ 1 = ap length e.0.alone in
          record {
            route = rw e.0.alone (start s.id e.0.source);
            seen = e.1;
            exact = one;
            above = omega arith;
            below = omega arith;
          };
      covered =
          λ v g. let (s, j, e) = h.covered v g in inl (record { entry = s; inside = j; same = e });
    }
