-- ===== src/Trace/Track.antt =====
-- internal/trace/track.go: the swimlane of a node.
use netobserv_spcg.Common.{
  String, str_eq, is_empty, Bool, true, false, not, ◌&&◌, ◌||◌, List, [], ◌∷◌, Option, some, none,
  if◌then◌else◌,
}
use netobserv_spcg.Common.Text.{is_one_of, equal_fold}
use netobserv_spcg.Trace.Types.{TraceNode, TraceEdge, PathSummary}

abbrev pub track_ingress : String
track_ingress = "ingress"

abbrev pub track_egress : String
track_egress = "egress"

abbrev pub track_anchor : String
track_anchor = "anchor"

abbrev pub track_shared : String
track_shared = "shared"

abbrev pub track_context : String
track_context = "context"

-- `pathMatchesNode`.
unfoldable pub path_matches_node : PathSummary → TraceNode → Bool
path_matches_node p n =
    (not (is_empty p.resource) && equal_fold p.resource n.label)
    || ((not (is_empty p.kind) && equal_fold p.kind n.kind)
        && (is_empty p.namespace || str_eq p.namespace n.namespace))

-- Whether an ingress and whether an egress edge ends at the node.
pub record Directions : Type 0 where
  pub ingress : Bool
  pub egress : Bool

abbrev with_edge : TraceEdge → Directions → Directions
with_edge e found =
    if str_eq e.edge_type "ingress"
    then record found { ingress = true }
    else if is_one_of e.edge_type ("egress" ∷ "egressservice" ∷ [])
    then record found { egress = true }
    else found

-- `edgeDirectionFlags`.
unfoldable pub edge_direction_flags : String → List TraceEdge → Directions → Directions
edge_direction_flags id [] found = found
edge_direction_flags id (e ∷ edges) found =
    edge_direction_flags id edges
      (if not (str_eq e.from id) && not (str_eq e.to id) then found else with_edge e found)

abbrev focused_or : TraceNode → String → String → String
focused_or n yes_track no_track = if n.focused then yes_track else no_track

-- The `switch p.Direction`; `none` goes on with the loop.
abbrev track_of_direction : String → TraceNode → Option String
track_of_direction direction n =
    if str_eq direction "ingress"
    then some track_ingress
    else if str_eq direction "egress"
    then some track_egress
    else if str_eq direction "host"
    then some (focused_or n track_shared track_context)
    else none

abbrev track_or : Option String → Option String → Option String
track_or (some t) rest = some t
track_or none rest = rest

-- The loop over the paths.
unfoldable pub track_of_paths : TraceNode → List PathSummary → Option String
track_of_paths n [] = none
track_of_paths n (p ∷ paths) =
    let rest = track_of_paths n paths in
    if str_eq p.status "discovered" && path_matches_node p n
    then track_or (track_of_direction p.direction n) rest
    else rest

-- One direction alone decides.
abbrev track_of_flags : Directions → String → String
track_of_flags d otherwise =
    if d.ingress && not d.egress
    then track_ingress
    else if d.egress && not d.ingress
    then track_egress
    else otherwise

unfoldable pub track_of_kind : TraceNode → List TraceEdge → String
track_of_kind n edges =
    let found = edge_direction_flags n.id edges (record { ingress = false; egress = false }) in
    if is_one_of n.kind (
      "external-client" ∷ "loadbalancer-external" ∷ "metallb-pool" ∷ "metallb-advertisement"
      ∷ "route" ∷ "bgp-peer" ∷ [])
    then track_ingress
    else if is_one_of n.kind ("egressip" ∷ "egressservice" ∷ "egress-router" ∷ "external" ∷ [])
    then track_egress
    else if is_one_of n.kind
        ("node" ∷ "bond" ∷ "ovn-logical-port" ∷ "host-veth" ∷ "nad" ∷ "vrf" ∷ [])
    then focused_or n track_shared track_context
    else if is_one_of n.kind
        ("service-clusterip" ∷ "service-loadbalancer" ∷ "service-nodeport" ∷ "service" ∷ [])
    then track_of_flags found (focused_or n track_ingress track_context)
    else track_of_flags found
        (focused_or n track_egress (if n.tracked then track_shared else track_context))

abbrev given_or : String → Option String → String
given_or otherwise none = otherwise
given_or otherwise (some t) = t

-- `inferPathTrack`.
unfoldable pub infer_path_track : TraceNode → List TraceEdge → List PathSummary → String
infer_path_track n edges paths =
    if str_eq n.kind "networkpolicy"
    then track_context
    else if n.tracked && str_eq n.kind "pod"
    then track_anchor
    else if n.tracked && is_one_of n.kind ("external" ∷ "external-client" ∷ [])
    then track_egress
    else given_or (track_of_kind n edges) (track_of_paths n paths)
