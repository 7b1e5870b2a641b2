-- ===== src/Trace/Builder/Distinct.antt =====
-- What the methods of the builder in internal/trace/graph_builder.go keep true.
use Prim.Native.String.{char_at}
use Prim.Native.String.append.{cons as append_cons, nil as append_nil}
use netobserv_spcg.Common.{
  ℕ, ◌+◌, ◌^◌, ◌≤◌, ◌<◌, ◌≡◌, ◌≢◌, refl, sym, ap, ◌∙◌, inl, inr, true, false, ◌||◌, List, [], ◌∷◌,
  ◌++◌, String, str_eq, str_ne, is_empty, Elem, here, there, Elem-append, AreApart, AreApart-append,
  length, length-append, Bool-cases, arith, or_right, subst,
}
use netobserv_spcg.Common.Sets.{IdSet, has, add, has-add_self, has-add_keeps}
use netobserv_spcg.Common.Text.{◌+++◌, decimal}
use netobserv_spcg.Common.Text.Decimal.{decimal-injective}
use netobserv_spcg.Trace.Types.{TraceNode, TraceEdge, PathSummary}
use netobserv_spcg.Probe.Correlator.Progress.{HasDistinctIds}
use netobserv_spcg.Trace.Builder.{
  GraphBuilder, NewNode, NewEdge, made_node, made_edge, edge_key, edge_number, add_node, add_edge,
  add_path,
}

abbrev drop_char : String → String
drop_char String.[] = String.[]
drop_char (String.◌∷◌ c s) = s

drop_prefix : (s : String) → drop_char (drop_char ("e-" +++ s)) ≡ s
drop_prefix s =
    (λ i. drop_char (drop_char (append_cons (char_at "e-" 0) "-" s i)))
    ∙ ((λ i. drop_char (append_cons (char_at "e-" 1) "" s i)) ∙ (λ i. append_nil s i))

edge_number-injective : (m n : ℕ) → m < 2 ^ 64 → n < 2 ^ 64 → edge_number m ≡ edge_number n → m ≡ n
unfolding edge_number
edge_number-injective m n hm hn e = decimal-injective m n hm hn (
    sym (drop_prefix (decimal m)) ∙ (ap (λ s. drop_char (drop_char s)) e ∙ drop_prefix (decimal n)))

-- The key of an edge that was added.
abbrev pub key_of : TraceEdge → String
key_of e = e.from +++ ("->" +++ (e.to +++ (":" +++ e.edge_type)))

-- No two nodes share an id.
abbrev pub HasDistinctNodes : List TraceNode → Type 0
HasDistinctNodes nodes = AreApart (λ (m : TraceNode) (n : TraceNode). m.id ≢ n.id) nodes

-- No two edges join the same ids in the same direction with the same type.
abbrev pub HasNoDoubles : List TraceEdge → Type 0
HasNoDoubles edges = AreApart (λ (e : TraceEdge) (f : TraceEdge). key_of e ≢ key_of f) edges

pub record IsBuilt (b : GraphBuilder) : Type 0 where
  pub nodes_distinct : HasDistinctNodes b.nodes
  pub in_set : (n : TraceNode) → Elem n b.nodes → has n.id b.node_set ≡ true
  pub edges_distinct : HasDistinctIds b.edges
  pub numbered :
      (e : TraceEdge) → Elem e b.edges → (i : ℕ) × (e.id ≡ edge_number i) × (i ≤ length b.edges)
  pub no_doubles : HasNoDoubles b.edges
  pub keyed : (e : TraceEdge) → Elem e b.edges → has (key_of e) b.edge_set ≡ true
  pub loopless : (e : TraceEdge) → Elem e b.edges → e.from ≢ e.to

-- What holds of all elements and of one more holds with that one at the end.
all_with :
    {A : Type 0} (P : A → Type 0) (xs : List A) (y : A)
    → ((x : A) → Elem x xs → P x)
    → P y
    → (x : A) → Elem x (xs ++ (y ∷ []))
    → P x
all_with P xs y old new x m = elim (Elem-append xs (y ∷ []) m) [
  | inl before ↦ old x before
  | inr last ↦ elim last [ here q ↦ subst P q new | there off ↦ elim off [ ] ]
]

absent : (k : String) (ids : IdSet) (j : String) → has j ids ≡ true → has k ids ≡ false → j ≢ k
absent k ids j there_is is_not e = cc

pub add_node-IsBuilt : (n : NewNode) (b : GraphBuilder) → IsBuilt b → IsBuilt (add_node n b)
unfolding add_node
add_node-IsBuilt n b built = elim (Bool-cases (has n.id b.node_set)) [
  | inl known ↦ rw known built
  | inr fresh ↦ rw fresh (record {
    nodes_distinct =
        AreApart-append _ b.nodes (made_node n) built.nodes_distinct
          (λ m el. absent n.id b.node_set m.id (built.in_set m el) fresh);
    in_set =
        all_with (λ (m : TraceNode). has m.id (add n.id b.node_set) ≡ true) b.nodes (made_node n)
          (λ m el. has-add_keeps n.id m.id b.node_set (built.in_set m el))
          (has-add_self n.id b.node_set);
    edges_distinct = built.edges_distinct;
    numbered = built.numbered;
    no_doubles = built.no_doubles;
    keyed = built.keyed;
    loopless = built.loopless;
  })
]

-- The edge that `addEdge` appends.
append_edge-IsBuilt :
    (e : NewEdge) (b : GraphBuilder)
    → IsBuilt b
    → e.from ≢ e.to
    → has (edge_key e) b.edge_set ≡ false
    → length b.edges + 1 < 2 ^ 64
    → IsBuilt (record b {
      edge_set = add (edge_key e) b.edge_set;
      edges = b.edges ++ (made_edge e (length b.edges) ∷ []);
    })
unfolding edge_key
append_edge-IsBuilt e b built differ fresh few =
    let new = made_edge e (length b.edges) in
    let size = length-append b.edges (new ∷ []) in
    record {
      nodes_distinct = built.nodes_distinct;
      in_set = built.in_set;
      edges_distinct = AreApart-append _ b.edges new built.edges_distinct (λ f el same.
          let (i, named, low) = built.numbered f el in
          let eq =
            edge_number-injective i (length b.edges + 1) (omega arith) few (sym named ∙ same) in
          omega arith);
      numbered =
          all_with
            (λ (f : TraceEdge).
              (i : ℕ) × (f.id ≡ edge_number i) × (i ≤ length (b.edges ++ (new ∷ []))))
            b.edges new
            (λ f el. let (i, named, low) = built.numbered f el in (i, named, omega arith))
            (length b.edges + 1, refl, omega arith);
      no_doubles =
          AreApart-append _ b.edges new built.no_doubles
            (λ f el. absent (key_of new) b.edge_set (key_of f) (built.keyed f el) fresh);
      keyed =
          all_with (λ (f : TraceEdge). has (key_of f) (add (edge_key e) b.edge_set) ≡ true) b.edges
            new (λ f el. has-add_keeps (edge_key e) (key_of f) b.edge_set (built.keyed f el))
            (has-add_self (edge_key e) b.edge_set);
      loopless = all_with (λ (f : TraceEdge). f.from ≢ f.to) b.edges new built.loopless differ;
    }

pub add_edge-IsBuilt :
    (e : NewEdge) (b : GraphBuilder)
    → IsBuilt b
    → length b.edges + 1 < 2 ^ 64
    → IsBuilt (add_edge e b) × (length (add_edge e b).edges ≤ length b.edges + 1)
unfolding add_edge
add_edge-IsBuilt e b built few =
    elim (Bool-cases (is_empty e.from || (is_empty e.to || str_eq e.from e.to))) [
      | inl bad ↦ rw bad (built, omega arith)
      | inr good ↦ elim (Bool-cases (has (edge_key e) b.edge_set)) [
        | inl known ↦ rw (good, known) (built, omega arith)
        | inr fresh ↦
            let differ =
              str_ne e.from e.to (or_right (is_empty e.to) _ (or_right (is_empty e.from) _ good)) in
            rw (good, fresh)
              (
                append_edge-IsBuilt e b built differ fresh few,
                omega (arith, length-append b.edges (made_edge e (length b.edges) ∷ [])),
              )
      ]
    ]

pub add_path-IsBuilt : (p : PathSummary) (b : GraphBuilder) → IsBuilt b → IsBuilt (add_path p b)
unfolding add_path
add_path-IsBuilt p b built = record {
  nodes_distinct = built.nodes_distinct;
  in_set = built.in_set;
  edges_distinct = built.edges_distinct;
  numbered = built.numbered;
  no_doubles = built.no_doubles;
  keyed = built.keyed;
  loopless = built.loopless;
}
