-- ===== src/Pcap/Topology/Build/Sequence.antt =====
-- `ConversationSequence` of internal/pcap/topology.go, and the loop of `BuildFlowTopology` that calls
-- it for every edge.
use netobserv_spcg.Common.{
  ℕ, String, String-discrete, str_eq, Bool, ◌&&◌, ◌||◌, List, [], ◌∷◌, ◌++◌, Option, some, none,
  map, ltb, if◌then◌else◌, length, take,
}
use netobserv_spcg.Common.Int64.{ℤ, pos, ltb_ℤ, eq_ℤ, sub_int64}
use netobserv_spcg.Common.Maps.{Map, lookup, insert}
use netobserv_spcg.Common.Sort.{sort_slice}
use netobserv_spcg.Common.Text.{◌+++◌}
use netobserv_spcg.Pcap.Topology.{TopologyEdge, SequenceStep, EdgeDetail}

unfoldable pub edge_id : String → String → String
edge_id from to = from +++ ("->" +++ to)

abbrev pub max_steps : ℕ
max_steps = 48

unfoldable pub find_edge : String → List TopologyEdge → Option TopologyEdge
find_edge id [] = none
find_edge id (e ∷ es) = let rest = find_edge id es in if str_eq e.id id then some e else rest

abbrev steps_of : Option EdgeDetail → List SequenceStep
steps_of none = []
steps_of (some d) = d.steps

-- `cloneSequenceSteps`.
unfoldable pub clone_sequence_steps : List SequenceStep → String → List SequenceStep
clone_sequence_steps steps direction =
    map (λ (s : SequenceStep). record s { direction = direction; lane = direction }) steps

abbrev pub earlier : SequenceStep → SequenceStep → Bool
earlier a b = if eq_ℤ a.at_us b.at_us then ltb_ℤ a.rel_us b.rel_us else ltb_ℤ a.at_us b.at_us

-- The earliest positive time, where the first time is zero.
unfoldable pub earliest : ℤ → List SequenceStep → ℤ
earliest base [] = base
earliest base (s ∷ steps) =
    earliest
      (if ltb_ℤ (pos 0) s.at_us && (eq_ℤ base (pos 0) || ltb_ℤ s.at_us base) then s.at_us else base)
      steps

abbrev base_time : List SequenceStep → ℤ
base_time [] = pos 0
base_time (s ∷ steps) = if eq_ℤ s.at_us (pos 0) then earliest (pos 0) (s ∷ steps) else s.at_us

unfoldable pub relative_to : ℤ → SequenceStep → SequenceStep
relative_to base s =
    if ltb_ℤ (pos 0) base && ltb_ℤ (pos 0) s.at_us
    then record s { rel_us = sub_int64 s.at_us base }
    else s

-- The merge of the steps of both directions; none of them gives the empty sequence.
unfoldable pub merge_steps : List SequenceStep → List SequenceStep → List SequenceStep
merge_steps fwd rev =
    let out = sort_slice earlier (fwd ++ rev) in
    let cut = if ltb max_steps (length out) then take max_steps out else out in
    map (relative_to (base_time cut)) cut

abbrev sequence_for : Map String EdgeDetail → String → Option TopologyEdge → List SequenceStep
sequence_for details id none = []
sequence_for details id (some e) =
    merge_steps (clone_sequence_steps (steps_of (lookup String-discrete id details)) "forward") (
      clone_sequence_steps (steps_of (lookup String-discrete (edge_id e.to e.from) details))
        "reverse")

-- `ConversationSequence`.
unfoldable pub conversation_sequence :
    List TopologyEdge → Map String EdgeDetail → String → List SequenceStep
conversation_sequence edges details id = sequence_for details id (find_edge id edges)

abbrev with_sequence :
    List SequenceStep → String → Option EdgeDetail → Map String EdgeDetail → Map String EdgeDetail
with_sequence steps id none details = details
with_sequence steps id (some d) details =
    insert String-discrete id (record d { steps = steps }) details

-- The loop over the details at the end. It reads the map that it writes: `partial` holds the same
-- map, so an edge reads the sequence of its reverse edge as the loop has left it.
unfoldable pub sequence_all :
    List TopologyEdge → List String → Map String EdgeDetail → Map String EdgeDetail
sequence_all edges [] details = details
sequence_all edges (id ∷ ids) details = sequence_all edges ids (
    with_sequence (conversation_sequence edges details id) id (lookup String-discrete id details)
      details)
