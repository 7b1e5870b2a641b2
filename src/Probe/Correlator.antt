-- ===== src/Probe/Correlator.antt =====
-- internal/trace/probe/correlator.go: the states of the primary edges of a trace. The receiver is
-- not nil: a session without a correlator is `none` in Session. Each method holds the lock for
-- its whole body.
pub mod Progress
pub mod Start
use netobserv_spcg.Common.{
  ℕ, zero, suc, ◌+◌, ◌-◌, String, String-discrete, str_eq, is_empty, Bool, true, false, not, ◌||◌,
  List, [], ◌∷◌, Option, some, none, leb, ltb, ◌==◌, if◌then◌else◌, length, get_elem?, keep,
}
use netobserv_spcg.Common.Maps.{Map, lookup, insert, contains}
use netobserv_spcg.Common.Sort.{str_lt, sort_slice}
use netobserv_spcg.Trace.Types.{TraceNode, TraceEdge}

pub data EdgePaintState : Type 0 where
  theory_only active_green dropped_red : EdgePaintState

pub record GraphCorrelator : Type 0 where
  pub edges : List TraceEdge
  pub edge_states : Map String EdgePaintState
  pub seq : ℕ

-- `rank[n.ID] = n.Rank` over the nodes; a missing id reads as 0.
unfoldable pub ranks : List TraceNode → Map String ℕ → Map String ℕ
ranks [] rank = rank
ranks (n ∷ nodes) rank = ranks nodes (insert String-discrete n.id n.rank rank)

abbrev pub or_zero : Option ℕ → ℕ
or_zero none = 0
or_zero (some n) = n

unfoldable pub edge_before : Map String ℕ → TraceEdge → TraceEdge → Bool
edge_before rank e f =
    let re = or_zero (lookup String-discrete e.from rank) in
    let rf = or_zero (lookup String-discrete f.from rank) in
    if not (re == rf) then ltb re rf else str_lt e.id f.id

unfoldable pub primary_edges_in_order : List TraceNode → List TraceEdge → List TraceEdge
primary_edges_in_order nodes edges =
    sort_slice (edge_before (ranks nodes [])) (keep (λ e. e.primary) edges)

unfoldable pub theory_states :
    List TraceEdge → Map String EdgePaintState → Map String EdgePaintState
theory_states [] states = states
theory_states (e ∷ edges) states =
    theory_states edges (insert String-discrete e.id theory_only states)

unfoldable pub new_graph_correlator : List TraceNode → List TraceEdge → GraphCorrelator
new_graph_correlator nodes edges = record {
  edges = primary_edges_in_order nodes edges;
  edge_states = theory_states edges [];
  seq = 0;
}

abbrev advance_to : GraphCorrelator → Option TraceEdge → GraphCorrelator × Option String
advance_to c none = (c, none)
advance_to c (some edge) = (
  record c {
    edge_states = insert String-discrete edge.id active_green c.edge_states;
    seq = c.seq + 1;
  },
  some edge.id,
)

-- `Advance`; the result `"", false` is `none`.
unfoldable pub advance : GraphCorrelator → GraphCorrelator × Option String
advance c = if leb (length c.edges) c.seq then (c, none) else advance_to c (get_elem? c.edges c.seq)

-- The loop of `MarkDropOnEdge` over `c.edges` from index `i`: the new `c.seq`.
unfoldable pub seq_past : String → ℕ → List TraceEdge → ℕ → ℕ
seq_past edge_id i [] seq = seq
seq_past edge_id i (e ∷ edges) seq =
    if str_eq e.id edge_id
    then if leb seq i then i + 1 else seq
    else seq_past edge_id (i + 1) edges seq

unfoldable pub mark_drop_on_edge : GraphCorrelator → String → GraphCorrelator × Bool
mark_drop_on_edge c edge_id =
    if is_empty edge_id
    then (c, false)
    else if not (contains String-discrete edge_id c.edge_states)
    then (c, false)
    else (
      record c {
        edge_states = insert String-discrete edge_id dropped_red c.edge_states;
        seq = seq_past edge_id 0 c.edges c.seq;
      },
      true,
    )

unfoldable pub remaining : GraphCorrelator → ℕ
remaining c = if leb (length c.edges) c.seq then 0 else length c.edges - c.seq

abbrev id_or_empty : Option TraceEdge → String
id_or_empty none = ""
id_or_empty (some e) = e.id

unfoldable pub next_edge_id : GraphCorrelator → String
next_edge_id c = if leb (length c.edges) c.seq then "" else id_or_empty (get_elem? c.edges c.seq)

-- `st == EdgeActiveGreen || st == EdgeDroppedRed`; a missing id is the empty state.
abbrev pub is_painted : Option EdgePaintState → Bool
is_painted (some active_green) = true
is_painted (some dropped_red) = true
is_painted (some theory_only) = false
is_painted none = false

unfoldable pub count_painted : Map String EdgePaintState → List TraceEdge → ℕ
count_painted states [] = 0
count_painted states (e ∷ edges) =
    let rest = count_painted states edges in
    if is_painted (lookup String-discrete e.id states) then suc rest else rest

unfoldable pub verified_count : GraphCorrelator → ℕ
verified_count c = count_painted c.edge_states c.edges

-- The edge that `MarkDrop` paints: the last advanced one, or else the final one.
unfoldable pub drop_target : GraphCorrelator → String
drop_target c =
    if ltb 0 c.seq
    then id_or_empty (get_elem? c.edges (c.seq - 1))
    else if ltb 0 (length c.edges)
    then id_or_empty (get_elem? c.edges (length c.edges - 1))
    else ""

unfoldable pub mark_drop : GraphCorrelator → GraphCorrelator × String
mark_drop c =
    let edge_id = drop_target c in
    if is_empty edge_id then (c, edge_id) else (
      record c { edge_states = insert String-discrete edge_id dropped_red c.edge_states },
      edge_id,
    )

unfoldable pub primary_count : GraphCorrelator → ℕ
primary_count c = length c.edges
