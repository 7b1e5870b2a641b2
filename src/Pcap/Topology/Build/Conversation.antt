-- ===== src/Pcap/Topology/Build/Conversation.antt =====
-- The loop over the details at the end of `BuildFlowTopology` in internal/pcap/topology.go, on a
-- conversation in both directions.
use netobserv_spcg.Common.{
  ◌+◌, ◌*◌, ◌≤◌, ◌≡◌, ◌≢◌, ◌∙◌, refl, sym, ap, map, Bool-cases, inl, inr, ◌&&◌, String,
  String-discrete, List, [], ◌∷◌, ◌++◌, some, ltb, length, length-map, length-append, arith,
  le→ltb-false, false,
}
use netobserv_spcg.Common.Maps.{Map, lookup, insert, lookup-insert_self, lookup-insert_ne}
use netobserv_spcg.Common.Sort.{sort_slice, length-sort_slice, sort_slice-perm}
use netobserv_spcg.Common.Int64.{ℤ, pos, ltb_ℤ}
use mathlib.Core.List.{Perm, map-append}
use mathlib.Core.List.Perm
use netobserv_spcg.Pcap.Topology.{TopologyEdge, SequenceStep, EdgeDetail}
use netobserv_spcg.Pcap.Topology.Build.{
  edge_id, find_edge, clone_sequence_steps, merge_steps, relative_to, earlier, max_steps,
  conversation_sequence, sequence_all,
}

length-clone_sequence_steps :
    (steps : List SequenceStep) (direction : String)
    → length (clone_sequence_steps steps direction) ≡ length steps
unfolding clone_sequence_steps
length-clone_sequence_steps steps direction = length-map steps _

length-merge_steps :
    (fwd rev : List SequenceStep)
    → length fwd + length rev ≤ max_steps
    → length (merge_steps fwd rev) ≡ length fwd + length rev
unfolding merge_steps
length-merge_steps fwd rev few =
    let sorted = sort_slice earlier (fwd ++ rev) in
    let size : length sorted ≡ length fwd + length rev =
      length-sort_slice earlier (fwd ++ rev) ∙ length-append fwd rev in
    let uncut : ltb max_steps (length sorted) ≡ false =
      le→ltb-false _ _ (omega (arith, few, size)) in
    length-map _ _ ∙ (rw uncut size)

-- An edge of the graph with its detail and the id of its reverse.
pub record IsEdge (edges : List TopologyEdge) (details : Map String EdgeDetail) (id back : String)
    (d : EdgeDetail) : Type 0 where
  pub edge : TopologyEdge
  pub found : find_edge id edges ≡ some edge
  pub reversed : edge_id edge.to edge.from ≡ back
  pub detail : lookup String-discrete id details ≡ some d

length-conversation_sequence :
    (edges : List TopologyEdge) (details : Map String EdgeDetail) (id back : String)
    (d d' : EdgeDetail)
    → IsEdge edges details id back d
    → lookup String-discrete back details ≡ some d'
    → length d.steps + length d'.steps ≤ max_steps
    → length (conversation_sequence edges details id) ≡ length d.steps + length d'.steps
unfolding conversation_sequence
length-conversation_sequence edges details id back d d' e other few =
    let fwd = length-clone_sequence_steps d.steps "forward" in
    let rev = length-clone_sequence_steps d'.steps "reverse" in
    rw (e.found, e.reversed, e.detail, other)
      (length-merge_steps _ _ (omega (arith, few, fwd, rev)) ∙ omega (arith, fwd, rev))

-- A step as a sequence shows it that runs the given way: its relative time left out.
abbrev pub seen : String → SequenceStep → SequenceStep
seen way s = record {
  rel_us = pos 0;
  at_us = s.at_us;
  direction = way;
  phase = s.phase;
  lane = way;
  label = s.label;
  flags = s.flags;
  src_port = s.src_port;
  dst_port = s.dst_port;
}

-- A step without its relative time.
abbrev pub timeless : SequenceStep → SequenceStep
timeless s = record s { rel_us = pos 0 }

timeless-relative_to : (base : ℤ) (s : SequenceStep) → timeless (relative_to base s) ≡ timeless s
unfolding relative_to
timeless-relative_to base s = elim (Bool-cases (ltb_ℤ (pos 0) base && ltb_ℤ (pos 0) s.at_us)) [
  | inl e ↦ rw e refl
  | inr e ↦ rw e refl
]

map-timeless-relative_to :
    (base : ℤ) (steps : List SequenceStep)
    → map timeless (map (relative_to base) steps) ≡ map timeless steps
map-timeless-relative_to base [] = refl
map-timeless-relative_to base (s ∷ steps) =
    rw (timeless-relative_to base s, map-timeless-relative_to base steps)

map-timeless-clone_sequence_steps :
    (steps : List SequenceStep) (way : String)
    → map timeless (clone_sequence_steps steps way) ≡ map (seen way) steps
unfolding clone_sequence_steps
map-timeless-clone_sequence_steps [] way = refl
map-timeless-clone_sequence_steps (s ∷ steps) way =
    ap (◌∷◌ (seen way s)) (map-timeless-clone_sequence_steps steps way)

map-seen-timeless :
    (steps : List SequenceStep) (way : String)
    → map (seen way) (map timeless steps) ≡ map (seen way) steps
map-seen-timeless [] way = refl
map-seen-timeless (s ∷ steps) way = ap (◌∷◌ (seen way s)) (map-seen-timeless steps way)

map-seen-seen :
    (steps : List SequenceStep) (way way' : String)
    → map (seen way) (map (seen way') steps) ≡ map (seen way) steps
map-seen-seen [] way way' = refl
map-seen-seen (s ∷ steps) way way' = ap (◌∷◌ (seen way s)) (map-seen-seen steps way way')

merge_steps-Perm :
    (fwd rev : List SequenceStep)
    → length fwd + length rev ≤ max_steps
    → Perm (map timeless (merge_steps fwd rev)) (map timeless (fwd ++ rev))
unfolding merge_steps
merge_steps-Perm fwd rev few =
    let sorted = sort_slice earlier (fwd ++ rev) in
    let size : length sorted ≡ length fwd + length rev =
      length-sort_slice earlier (fwd ++ rev) ∙ length-append fwd rev in
    let uncut : ltb max_steps (length sorted) ≡ false =
      le→ltb-false _ _ (omega (arith, few, size)) in
    rw (uncut, map-timeless-relative_to) (Perm.map timeless (sort_slice-perm earlier (fwd ++ rev)))

-- The steps of a conversation: those of the edge forward and those of its reverse edge back.
conversation_sequence-Perm :
    (edges : List TopologyEdge) (details : Map String EdgeDetail) (id back : String)
    (d d' : EdgeDetail)
    → IsEdge edges details id back d
    → lookup String-discrete back details ≡ some d'
    → length d.steps + length d'.steps ≤ max_steps
    → Perm
        (map timeless (conversation_sequence edges details id))
        (map (seen "forward") d.steps ++ map (seen "reverse") d'.steps)
unfolding conversation_sequence
conversation_sequence-Perm edges details id back d d' e other few =
    let fwd = clone_sequence_steps d.steps "forward" in
    let rev = clone_sequence_steps d'.steps "reverse" in
    let n = length-clone_sequence_steps d.steps "forward" in
    let n' = length-clone_sequence_steps d'.steps "reverse" in
    let same : map timeless (fwd ++ rev)
        ≡ map (seen "forward") d.steps ++ map (seen "reverse") d'.steps =
      rw (map-append, map-timeless-clone_sequence_steps, map-timeless-clone_sequence_steps) in
    rw (e.found, e.reversed, e.detail, other, ← same)
      (merge_steps-Perm fwd rev (omega (arith, few, n, n')))

seen_back :
    (merged own other : List SequenceStep)
    → Perm (map timeless merged) (map (seen "forward") own ++ map (seen "reverse") other)
    → Perm (map (seen "reverse") merged) (map (seen "reverse") own ++ map (seen "reverse") other)
seen_back merged own other p =
    let back = seen "reverse" in
    let same : map back (map (seen "forward") own ++ map back other)
        ≡ map back own ++ map back other =
      rw (map-append, map-seen-seen, map-seen-seen) in
    rw (← map-seen-timeless merged "reverse", ← same) (Perm.map back p)

-- In a conversation of two edges with at most 48 steps, where the steps back count twice, the edge
-- that the loop reaches first ends with its own steps, shown as forward, and those of the other, shown
-- as reverse. The edge that it reaches second ends with its own steps twice, shown as forward and as
-- reverse, and with those of the first, shown as reverse: it merges its steps with a sequence that
-- holds them already. Steps are compared in any order and without their relative times.
pub sequence_all-Perm :
    (edges : List TopologyEdge) (details : Map String EdgeDetail) (id back : String)
    (d d' : EdgeDetail)
    → id ≢ back
    → IsEdge edges details id back d
    → IsEdge edges details back id d'
    → length d.steps + 2 * length d'.steps ≤ 48
    → (one : EdgeDetail) × (two : EdgeDetail) × (lookup String-discrete id
          (sequence_all edges (id ∷ back ∷ []) details)
        ≡ some one)
      × (lookup String-discrete back (sequence_all edges (id ∷ back ∷ []) details) ≡ some two)
      × Perm
          (map timeless one.steps)
          (map (seen "forward") d.steps ++ map (seen "reverse") d'.steps)
      × Perm (map timeless two.steps) (
          map (seen "forward") d'.steps
          ++ (map (seen "reverse") d.steps ++ map (seen "reverse") d'.steps))
unfolding sequence_all
sequence_all-Perm edges details id back d d' differ e e' few =
    let steps = conversation_sequence edges details id in
    let first = record d { steps = steps } in
    let details' = insert String-discrete id first details in
    let steps' = conversation_sequence edges details' back in
    let second = record d' { steps = steps' } in
    let kept : lookup String-discrete back details' ≡ some d' =
      lookup-insert_ne String-discrete id back first details differ ∙ e'.detail in
    let there : IsEdge edges details' back id d' = record {
      edge = e'.edge;
      found = e'.found;
      reversed = e'.reversed;
      detail = kept;
    } in
    let before = lookup-insert_self String-discrete id first details in
    let size = length-conversation_sequence edges details id back d d' e e'.detail (omega arith) in
    let seen_once =
      conversation_sequence-Perm edges details id back d d' e e'.detail (omega arith) in
    let seen_twice =
      conversation_sequence-Perm edges details' back id d' first there before (omega arith) in
    (
      first,
      second,
      (rw (e.detail, kept)
          (lookup-insert_ne String-discrete back id second details' (λ p. differ (sym p))
            ∙ before)),
      (rw (e.detail, kept) (lookup-insert_self String-discrete back second details')),
      seen_once,
      Perm.trans seen_twice (
          Perm.append_left (map (seen "forward") d'.steps)
            (seen_back steps d.steps d'.steps seen_once)),
    )
