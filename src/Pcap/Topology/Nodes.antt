-- ===== src/Pcap/Topology/Nodes.antt =====
-- Which workloads a flow joins: internal/pcap/endpoints.go, `nodeFromMeta` of topology.go and
-- `ipsFromEthernet` of frameparse.go. The outer `none` is a panic.
use netobserv_spcg.Common.{
  ◌/◌, String, String-discrete, str_eq, is_empty, Bool, true, false, not, ◌&&◌, ◌||◌, List, [], ◌∷◌,
  Option, some, none, ltb, ◌==◌, if◌then◌else◌, length, at, slice, slice_from, ◌>>=◌,
}
use netobserv_spcg.Common.Maps.{Map, lookup, insert}
use netobserv_spcg.Common.Text.{◌+++◌, trim_space, has_prefix, contains_text, cut_at}
use netobserv_spcg.Pcap.Bytes.{Bytes, be_uint16}
use netobserv_spcg.Pcap.Frame.{ethernet_payload, ipv4_type, ipv6_type}
use netobserv_spcg.Pcap.Meta.{FlowMeta, Formats, flow_string}
use netobserv_spcg.Pcap.Session.{TrackedPod, FlowEvent}
use netobserv_spcg.Pcap.Topology.{TopologyNode}

-- `TopologyNode{}`.
abbrev pub no_node : TopologyNode
no_node = record {
  id = "";
  label = "";
  kind = "";
  namespace = "";
  pod = "";
  owner_kind = "";
  owner_name = "";
  host_name = "";
  host_ip = "";
}

abbrev pub is_node : TopologyNode → Bool
is_node n = not (is_empty n.id)

module _ (fmt : Formats) where
  -- `ipsFromEthernet`: the source and the destination.
  unfoldable pub ips_from_ethernet : Bytes → Option (String × String)
  ips_from_ethernet raw = do
    payload ← ethernet_payload raw
    if ltb (length payload) 34 then some ("", "") else (do
      eth_type ← (slice payload 12 14 >>= be_uint16)
      l3 ← slice_from payload 14
      b0 ← at l3 0
      if eth_type == ipv4_type
          then (if ltb (length l3) 20 || not (b0 / 16 == 4) then some ("", "") else (do
            src ← slice l3 12 16
            dst ← slice l3 16 20
            some (fmt.ip_text src, fmt.ip_text dst)))
          else if eth_type == ipv6_type
          then (if ltb (length l3) 40 || not (b0 / 16 == 6) then some ("", "") else (do
            src ← slice l3 8 24
            dst ← slice l3 24 40
            some (fmt.ip_text src, fmt.ip_text dst)))
          else some ("", ""))

  abbrev end_prefix : Bool → String
  end_prefix true = "Src"
  end_prefix false = "Dst"

  -- The id and the label that `nodeFromMeta` chooses; an empty id is the early return.
  abbrev id_and_label : String → String → String → String → String → String × String
  id_and_label ns pod kind owner fallback =
      if not (is_empty ns) && not (is_empty pod)
      then (ns +++ ("/" +++ pod), pod)
      else if not (is_empty ns) && (not (is_empty kind) && not (is_empty owner))
      then (ns +++ ("/" +++ (kind +++ ("/" +++ owner))), owner)
      else (fallback, fallback)

  abbrev node_kind : String → String → String → String
  node_kind pod kind label =
      if not (is_empty pod)
      then "Pod"
      else if not (is_empty kind)
      then kind
      else if contains_text label "dns" || has_prefix label "kube-"
      then "Service"
      else "External"

  -- `nodeFromMeta`.
  unfoldable pub node_from_meta : FlowMeta → Bool → String → TopologyNode
  node_from_meta meta src fallback =
      let prefix = end_prefix src in
      let ns = flow_string fmt meta (prefix +++ "K8S_Namespace") in
      let pod = flow_string fmt meta (prefix +++ "K8S_Name") in
      let kind = flow_string fmt meta (prefix +++ "K8S_OwnerType") in
      let owner = flow_string fmt meta (prefix +++ "K8S_OwnerName") in
      let named = id_and_label ns pod kind owner fallback in
      if is_empty named.0 then no_node else record {
        id = named.0;
        label = named.1;
        kind = node_kind pod kind named.1;
        namespace = ns;
        pod = pod;
        owner_kind = kind;
        owner_name = owner;
        host_name = flow_string fmt meta (prefix +++ "K8S_HostName");
        host_ip = flow_string fmt meta (prefix +++ "K8S_HostIP");
      }

pub record PodRef : Type 0 where
  pub namespace : String
  pub name : String
  pub owner_kind : String

abbrev same_ref : PodRef → PodRef → Bool
same_ref a b =
    str_eq a.namespace b.namespace && (str_eq a.name b.name && str_eq a.owner_kind b.owner_kind)

abbrev ref_or_zero : Option PodRef → PodRef
ref_or_zero none = record { namespace = ""; name = ""; owner_kind = "" }
ref_or_zero (some ref) = ref

-- The addresses of a pod.
abbrev pub pod_ips_of : TrackedPod → List String
pod_ips_of p = if length p.pod_ips == 0 && not (is_empty p.pod_ip) then p.pod_ip ∷ [] else p.pod_ips

unfoldable pub index_ips : PodRef → List String → Map String PodRef → Map String PodRef
index_ips ref [] out = out
index_ips ref (ip ∷ ips) out =
    index_ips ref ips (if is_empty ip then out else insert String-discrete ip ref out)

-- `trackedPodIPIndex`.
unfoldable pub tracked_pod_ip_index : List TrackedPod → Map String PodRef → Map String PodRef
tracked_pod_ip_index [] out = out
tracked_pod_ip_index (p ∷ tracked) out = tracked_pod_ip_index tracked (
    index_ips (record { namespace = p.namespace; name = p.name; owner_kind = p.owner_kind })
      (pod_ips_of p) out)

-- `podNode`.
unfoldable pub pod_node : PodRef → TopologyNode
pod_node ref = record no_node {
  id = ref.namespace +++ ("/" +++ ref.name);
  label = ref.name;
  kind = if is_empty ref.owner_kind then "Pod" else ref.owner_kind;
  namespace = ref.namespace;
  pod = ref.name;
  owner_kind = ref.owner_kind;
}

-- `externalNode`.
unfoldable pub external_node : String → TopologyNode
external_node ip =
    if is_empty ip
    then no_node
    else record no_node { id = "ext/" +++ ip; label = ip; kind = "External" }

abbrev node_of_ref : String → Option PodRef → TopologyNode
node_of_ref ip (some ref) = pod_node ref
node_of_ref ip none = external_node ip

-- `nodeForIP`.
unfoldable pub node_for_ip : String → Map String PodRef → TopologyNode
node_for_ip ip ip_map = node_of_ref ip (lookup String-discrete ip ip_map)

-- `splitCapturePod`: a slash at the start separates nothing.
unfoldable pub split_capture_pod : String → String × String
split_capture_pod s = elim (cut_at b'/' (trim_space s)) [
  | none ↦ ("", "")
  | some (ns, name) ↦ if is_empty ns then ("", "") else (ns, name)
]

unfoldable pub capture_pod_node : String → String → List TrackedPod → TopologyNode
capture_pod_node ns name [] = record no_node {
  id = ns +++ ("/" +++ name);
  label = name;
  kind = "Pod";
  namespace = ns;
  pod = name;
}
capture_pod_node ns name (p ∷ tracked) =
    let rest = capture_pod_node ns name tracked in
    if str_eq p.namespace ns && str_eq p.name name
    then pod_node (record { namespace = ns; name = name; owner_kind = p.owner_kind })
    else rest

-- `nodeFromCapturePod`.
unfoldable pub node_from_capture_pod : String → List TrackedPod → TopologyNode
node_from_capture_pod capture_pod tracked =
    let (ns, name) = split_capture_pod capture_pod in
    if not (is_empty ns) && not (is_empty name) then capture_pod_node ns name tracked else no_node

unfoldable pub find_ref : String → String → Map String PodRef → Option PodRef
find_ref ns pod [] = none
find_ref ns pod ((ip, ref) ∷ ip_map) =
    let rest = find_ref ns pod ip_map in
    if str_eq ref.namespace ns && str_eq ref.name pod then some ref else rest

abbrev ref_or : PodRef → Option PodRef → PodRef
ref_or ref none = ref
ref_or ref (some found) = found

-- `ipMapRef`.
unfoldable pub ip_map_ref : TopologyNode → Map String PodRef → Option PodRef
ip_map_ref cap ip_map =
    let pod = if is_empty cap.pod then cap.label else cap.pod in
    if is_empty cap.namespace || is_empty pod
    then none
    else some (
        ref_or (record { namespace = cap.namespace; name = pod; owner_kind = cap.owner_kind })
          (find_ref cap.namespace pod ip_map))

abbrev is_ref : Option PodRef → Option PodRef → Bool
is_ref none found = false
is_ref (some ref) found = same_ref (ref_or_zero found) ref

abbrev or_node : TopologyNode → TopologyNode → TopologyNode
or_node n fallback = if is_empty n.id then fallback else n

-- `orientToCapturePod`.
unfoldable pub orient_to_capture_pod :
    TopologyNode
    → TopologyNode
    → TopologyNode
    → String
    → String
    → Map String PodRef
    → TopologyNode × TopologyNode
orient_to_capture_pod from to cap src_ip dst_ip ip_map =
    let cap_ref = ip_map_ref cap ip_map in
    let src_pod = node_for_ip src_ip ip_map in
    let dst_pod = node_for_ip dst_ip ip_map in
    let src_is_cap =
      str_eq src_pod.id cap.id || is_ref cap_ref (lookup String-discrete src_ip ip_map) in
    let dst_is_cap =
      str_eq dst_pod.id cap.id || is_ref cap_ref (lookup String-discrete dst_ip ip_map) in
    if is_empty cap.id || (is_empty src_ip || is_empty dst_ip)
    then (from, to)
    else if src_is_cap && not dst_is_cap
    then (or_node src_pod cap, or_node dst_pod (external_node dst_ip))
    else if dst_is_cap && not src_is_cap
    then (or_node src_pod (external_node src_ip), or_node dst_pod cap)
    else if has_prefix from.id "ext/" && has_prefix to.id "ext/"
    then (cap, external_node dst_ip)
    else (from, to)

abbrev or_text : String → String → String
or_text s fallback = if is_empty s then fallback else s

module _ (fmt : Formats) where
  -- The addresses of the metadata, or else of the frame.
  unfoldable pub flow_ips : FlowEvent FlowMeta → Option (String × String)
  flow_ips ev =
      let src = flow_string fmt ev.flow_meta "SrcAddr" in
      let dst = flow_string fmt ev.flow_meta "DstAddr" in
      if is_empty src || is_empty dst
      then (do
        frame ← ethernet_payload ev.frame
        ips ← ips_from_ethernet fmt frame
        some (or_text src ips.0, or_text dst ips.1))
      else some (src, dst)

  abbrev settle : TopologyNode → TopologyNode × TopologyNode → TopologyNode × TopologyNode
  settle cap (from, to) =
      let from' = if is_empty from.id && is_node cap then cap else from in
      if is_empty from'.id || is_empty to.id then (no_node, no_node) else (from', to)

  -- `resolveFlowEndpoints`.
  unfoldable pub resolve_flow_endpoints :
      FlowEvent FlowMeta → List TrackedPod → Option (TopologyNode × TopologyNode)
  resolve_flow_endpoints ev tracked =
      let from = node_from_meta fmt ev.flow_meta true "" in
      let to = node_from_meta fmt ev.flow_meta false "" in
      let ip_map = tracked_pod_ip_index tracked [] in
      let cap = node_from_capture_pod ev.capture_pod tracked in
      if is_node from && is_node to then some (from, to) else (do
        ips ← flow_ips ev
        let known = not (is_empty ips.0) && not (is_empty ips.1)
        let from' = if known && is_empty from.id then node_for_ip ips.0 ip_map else from
        let to' = if known && is_empty to.id then node_for_ip ips.1 ip_map else to
        some (settle cap (orient_to_capture_pod from' to' cap ips.0 ips.1 ip_map)))
