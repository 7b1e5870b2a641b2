-- ===== src/Probe/Correlator/Start.antt =====
-- `NewGraphCorrelator` of internal/trace/probe/correlator.go gives a sound correlator.
use netobserv_spcg.Common.{
  zero, ◌≡◌, ◌≢◌, refl, sym, ◌∙◌, ap, inl, inr, String, String-discrete, Bool, false, List, [], ◌∷◌,
  Elem, here, there, length, Bool-cases, keep, Elem-keep,
}
use netobserv_spcg.Common.Maps.{Map, lookup, insert, lookup-insert_self, lookup-insert_ne}
use netobserv_spcg.Common.Sort.{
  insert_sorted, sort_slice, length-sort_slice, Elem-insert_sorted, Elem-sort_slice,
}
use netobserv_spcg.Trace.Types.{TraceNode, TraceEdge}
use netobserv_spcg.Probe.Correlator.{
  EdgePaintState, theory_only, primary_edges_in_order, theory_states, new_graph_correlator,
  is_painted, primary_count,
}
use netobserv_spcg.Probe.Correlator.Progress.{PaintedTo, HasDistinctIds, IsSound}

HasDistinctIds-keep :
    (p : TraceEdge → Bool) (es : List TraceEdge) → HasDistinctIds es → HasDistinctIds (keep p es)
HasDistinctIds-keep p [] d = d
HasDistinctIds-keep p (e ∷ es) d = elim (Bool-cases (p e)) [
  | inl t ↦ rw t ((λ f m. d.0 f (Elem-keep p es m).0), HasDistinctIds-keep p es d.1)
  | inr t ↦ rw t (HasDistinctIds-keep p es d.1)
]

HasDistinctIds-insert_sorted :
    (less : TraceEdge → TraceEdge → Bool) (x : TraceEdge) (ys : List TraceEdge)
    → ((f : TraceEdge) → Elem f ys → x.id ≢ f.id)
    → HasDistinctIds ys
    → HasDistinctIds (insert_sorted less x ys)
unfolding insert_sorted
HasDistinctIds-insert_sorted less x [] new d = (new, d)
HasDistinctIds-insert_sorted less x (y ∷ ys) new d = elim (Bool-cases (less y x)) [
  | inr t ↦ rw t (new, d)
  | inl t ↦ rw t (
    (λ f m. elim (Elem-insert_sorted less x ys m) [
      | inl e ↦ λ q. new y (here refl) (ap (λ (g : TraceEdge). g.id) e ∙ sym q)
      | inr k ↦ d.0 f k
    ]),
    HasDistinctIds-insert_sorted less x ys (λ f k. new f (there k)) d.1,
  )
]

HasDistinctIds-sort_slice :
    (less : TraceEdge → TraceEdge → Bool) (xs : List TraceEdge)
    → HasDistinctIds xs
    → HasDistinctIds (sort_slice less xs)
unfolding sort_slice
HasDistinctIds-sort_slice less [] d = d
HasDistinctIds-sort_slice less (x ∷ xs) d =
    HasDistinctIds-insert_sorted less x (sort_slice less xs)
      (λ f m. d.0 f (Elem-sort_slice less xs m)) (HasDistinctIds-sort_slice less xs d.1)

theory_states-unpainted :
    (es : List TraceEdge) (states : Map String EdgePaintState)
    → ((id : String) → is_painted (lookup String-discrete id states) ≡ false)
    → (id : String) → is_painted (lookup String-discrete id (theory_states es states)) ≡ false
unfolding theory_states
theory_states-unpainted [] states h id = h id
theory_states-unpainted (e ∷ es) states h id =
    theory_states-unpainted es (insert String-discrete e.id theory_only states)
      (λ j. elim (String-discrete e.id j) [
        | yes q ↦ rw (← q, lookup-insert_self String-discrete e.id theory_only states)
        | no ne ↦ rw (lookup-insert_ne String-discrete e.id j theory_only states ne) (h j)
      ])
      id

PaintedTo-zero :
    (states : Map String EdgePaintState)
    → ((id : String) → is_painted (lookup String-discrete id states) ≡ false)
    → (es : List TraceEdge) → PaintedTo states zero es
PaintedTo-zero states h [] = refl
PaintedTo-zero states h (e ∷ es) = (h e.id, PaintedTo-zero states h es)

-- The correlator of a graph whose edges have distinct ids starts sound, with nothing painted, and
-- counts the primary edges of the graph.
pub new_graph_correlator-IsSound :
    (nodes : List TraceNode) (es : List TraceEdge)
    → HasDistinctIds es
    → IsSound (new_graph_correlator nodes es)
      × (primary_count (new_graph_correlator nodes es) ≡ length (keep (λ e. e.primary) es))
unfolding new_graph_correlator primary_edges_in_order primary_count lookup
new_graph_correlator-IsSound nodes es d = (
  record {
    distinct = HasDistinctIds-sort_slice _ _ (HasDistinctIds-keep (λ e. e.primary) es d);
    painted = PaintedTo-zero _ (theory_states-unpainted es [] (λ _. refl)) _;
  },
  length-sort_slice _ _,
)
