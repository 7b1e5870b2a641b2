-- ===== src/Trace/Layout.antt =====
-- internal/trace/layout.go: the coordinates of the nodes on the swimlanes.
pub mod Places
use netobserv_spcg.Common.{
  ℕ, zero, suc, ◌+◌, ◌-◌, ◌*◌, ◌/◌, ◌%◌, String, str_eq, is_empty, Bool, true, false, not, ◌&&◌,
  List, [], ◌∷◌, Option, some, none, ltb, ◌==◌, if◌then◌else◌, length, get_elem?, map,
}
use netobserv_spcg.Common.Sort.{sort_slice}
use netobserv_spcg.Common.Text.{is_one_of}
use netobserv_spcg.Trace.Types.{TraceNode, TraceEdge, PathSummary, TraceLane}
use netobserv_spcg.Trace.Track.{
  track_ingress, track_anchor, track_shared, track_egress, track_context, infer_path_track,
}

-- `rankForKind`.
unfoldable pub rank_for_kind : String → ℕ
rank_for_kind kind =
    if is_one_of kind ("external-client" ∷ "external" ∷ [])
    then 0
    else if is_one_of kind ("route" ∷ "ingress" ∷ "metallb-pool" ∷ "loadbalancer-external" ∷ [])
    then 1
    else if is_one_of kind (
        "service-clusterip" ∷ "service-loadbalancer" ∷ "service-nodeport" ∷ "service" ∷ "pod"
        ∷ "nad" ∷ [])
    then 2
    else if is_one_of kind
        ("node" ∷ "ovn-logical-port" ∷ "host-veth" ∷ "bond" ∷ "vrf" ∷ "networkpolicy" ∷ [])
    then 3
    else if is_one_of kind
        ("egressip" ∷ "egressservice" ∷ "egress-router" ∷ "bgp-peer" ∷ "metallb-advertisement" ∷ [])
    then 4
    else 2

abbrev pub node_w : ℕ
node_w = 148

abbrev pub node_h : ℕ
node_h = 72

abbrev pub ctx_node_w : ℕ
ctx_node_w = 128

abbrev pub ctx_node_h : ℕ
ctx_node_h = 40

abbrev pub pad_x : ℕ
pad_x = 40

abbrev pub pad_y : ℕ
pad_y = 48

abbrev pub hop_gap : ℕ
hop_gap = 40

abbrev pub ingress_y : ℕ
ingress_y = 52

abbrev pub anchor_y : ℕ
anchor_y = 152

abbrev pub egress_y : ℕ
egress_y = 252

abbrev pub context_y : ℕ
context_y = 348

-- The rank and the track of a node.
unfoldable pub with_track : List TraceEdge → List PathSummary → TraceNode → TraceNode
with_track edges paths n =
    let ranked =
      if n.rank == 0 && not (str_eq n.kind "pod")
      then record n { rank = rank_for_kind n.kind }
      else n in
    if is_empty ranked.track
    then record ranked { track = infer_path_track ranked edges paths }
    else ranked

-- The indices of the nodes of a track, from the index of the first.
unfoldable pub indices_of : String → List TraceNode → ℕ → List ℕ
indices_of track [] i = []
indices_of track (n ∷ nodes) i =
    let rest = indices_of track nodes (i + 1) in if str_eq n.track track then i ∷ rest else rest

abbrev rank_or_zero : Option TraceNode → ℕ
rank_or_zero none = 0
rank_or_zero (some n) = n.rank

-- `sortIndicesByRank`, a stable sort.
unfoldable pub sort_indices_by_rank : List TraceNode → List ℕ → List ℕ
sort_indices_by_rank nodes idxs =
    sort_slice
      (λ (i : ℕ) (j : ℕ). ltb (rank_or_zero (get_elem? nodes i)) (rank_or_zero (get_elem? nodes j)))
      idxs

-- The indices of a track as they are placed; the context is not sorted.
unfoldable pub bucket : String → List TraceNode → List ℕ
bucket track nodes =
    let idxs = indices_of track nodes 0 in
    if str_eq track track_context then idxs else sort_indices_by_rank nodes idxs

-- How many nodes each track has.
pub record Sizes : Type 0 where
  pub ingress : ℕ
  pub anchor : ℕ
  pub shared : ℕ
  pub egress : ℕ
  pub context : ℕ

-- `max`.
abbrev pub larger : ℕ → ℕ → ℕ
larger a b = if ltb b a then a else b

abbrev pub anchor_x : Sizes → ℕ
anchor_x n = pad_x + larger n.ingress 1 * (node_w + hop_gap)

abbrev pub shared_start : Sizes → ℕ
shared_start n = anchor_x n + larger n.anchor 1 * (node_w + 16) + hop_gap

abbrev pub egress_start : Sizes → ℕ
egress_start n =
    if ltb 0 n.shared
    then shared_start n + n.shared * (node_w + hop_gap)
    else anchor_x n + larger n.anchor 1 * (node_w + 16) + hop_gap

pub record Place : Type 0 where
  pub x : ℕ
  pub y : ℕ
  pub width : ℕ
  pub height : ℕ

pub data Track : Type 0 where
  ingress anchor shared egress context : Track

-- Where the node at a position of a track is placed.
unfoldable pub place_at : Sizes → Track → ℕ → Place
place_at n ingress j = record {
  x = pad_x + j * (node_w + hop_gap);
  y = ingress_y;
  width = node_w;
  height = node_h;
}
place_at n anchor j = record {
  x = anchor_x n + j * (node_w + 16);
  y = anchor_y;
  width = node_w;
  height = node_h;
}
place_at n shared j = record {
  x = shared_start n + j * (node_w + hop_gap);
  y = anchor_y;
  width = node_w;
  height = node_h;
}
place_at n egress j = record {
  x = egress_start n + j * (node_w + hop_gap);
  y = egress_y;
  width = node_w;
  height = node_h;
}
place_at n context j = record {
  x = pad_x + j % 6 * (ctx_node_w + 14);
  y = context_y + j / 6 * (ctx_node_h + 12);
  width = ctx_node_w;
  height = ctx_node_h;
}

-- `placeNode`.
abbrev pub place_node : Place → TraceNode → TraceNode
place_node p n = record n { x = p.x; y = p.y; width = p.width; height = p.height }

unfoldable pub update_at : ℕ → (TraceNode → TraceNode) → List TraceNode → List TraceNode
update_at i f [] = []
update_at zero f (n ∷ nodes) = f n ∷ nodes
update_at (suc i) f (n ∷ nodes) = n ∷ update_at i f nodes

-- The loop over the indices of a track.
unfoldable pub place_all : Sizes → Track → ℕ → List ℕ → List TraceNode → List TraceNode
place_all n t j [] nodes = nodes
place_all n t j (idx ∷ idxs) nodes =
    place_all n t (j + 1) idxs (update_at idx (place_node (place_at n t j)) nodes)

abbrev pub max_x : Sizes → ℕ
max_x n =
    if ltb 0 n.egress
    then egress_start n + n.egress * (node_w + hop_gap)
    else if ltb 0 n.shared
    then shared_start n + n.shared * (node_w + hop_gap)
    else anchor_x n + larger n.anchor 1 * (node_w + 16) + node_w

abbrev pub graph_width : Sizes → ℕ
graph_width n = max_x n + pad_x

abbrev pub graph_height : Sizes → ℕ
graph_height n =
    if ltb 0 n.context
    then context_y + (n.context + 5) / 6 * (ctx_node_h + 12) + ctx_node_h + pad_y
    else egress_y + node_h + pad_y

abbrev lane : String → String → ℕ → ℕ → ℕ → TraceLane
lane track label rank y width = record {
  label = label;
  rank = rank;
  x = pad_x - 12;
  width = width - pad_x + 12;
  y = y;
  height = node_h + 36;
  track = track;
}

-- `buildTrackLanes`: the rows of `trackLaneMeta` but for the shared one.
unfoldable pub build_track_lanes : ℕ → List TraceLane
build_track_lanes width =
    lane track_ingress "Ingress paths" 0 (ingress_y - 20) width
    ∷ lane track_anchor "Workload" 1 (anchor_y - 20) width
    ∷ lane track_egress "Egress paths" 3 (egress_y - 20) width
    ∷ []

-- What `applyLayout` sets of the graph.
pub record LaidOut : Type 0 where
  pub nodes : List TraceNode
  pub width : ℕ
  pub height : ℕ
  pub lanes : List TraceLane

unfoldable pub sizes_of : List TraceNode → Sizes
sizes_of nodes = record {
  ingress = length (bucket track_ingress nodes);
  anchor = length (bucket track_anchor nodes);
  shared = length (bucket track_shared nodes);
  egress = length (bucket track_egress nodes);
  context = length (bucket track_context nodes);
}

unfoldable pub place_tracks : Sizes → List TraceNode → List TraceNode
place_tracks n nodes =
    let placed_ingress = place_all n ingress 0 (bucket track_ingress nodes) nodes in
    let placed_anchor = place_all n anchor 0 (bucket track_anchor nodes) placed_ingress in
    let placed_shared = place_all n shared 0 (bucket track_shared nodes) placed_anchor in
    let placed_egress = place_all n egress 0 (bucket track_egress nodes) placed_shared in
    place_all n context 0 (bucket track_context nodes) placed_egress

-- `applyLayout`.
unfoldable pub apply_layout : List TraceNode → List TraceEdge → List PathSummary → LaidOut
apply_layout nodes edges paths =
    let tracked = map (with_track edges paths) nodes in
    let n = sizes_of tracked in
    if length nodes == 0
    then record { nodes = []; width = 960; height = 420; lanes = [] }
    else record {
      nodes = place_tracks n tracked;
      width = graph_width n;
      height = graph_height n;
      lanes = build_track_lanes (graph_width n);
    }
