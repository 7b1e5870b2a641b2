-- ===== src/Pcap/Topology/Build.antt =====
-- `BuildFlowTopology` and `ConversationSequence` of internal/pcap/topology.go: the events of a capture
-- as a graph of workloads. The outer `none` is a panic in the parsing of a frame. Go ranges over its
-- maps in an order that it leaves open; here it is the order of insertion.
pub mod Sequence
pub mod Edges
pub mod Closed
pub mod Returns
pub mod Conversation
unfoldable pub use Sequence.*
use netobserv_spcg.Common.{
  ℕ, ◌+◌, ◌-◌, ◌%◌, String, String-discrete, str_eq, is_empty, Bool, true, false, not, ◌&&◌, ◌||◌,
  List, [], ◌∷◌, ◌++◌, Option, some, none, map, ltb, ◌==◌, if◌then◌else◌, length, take, ◌>>=◌, ◌≡◌,
  ap, sym, ◌∙◌, ◌≢◌,
}
use netobserv_spcg.Common.Int64.{
  ℤ, pos, negsuc, ltb_ℤ, eq_ℤ, add_int64, sub_int64, quot_int64, uint16_of, positive_part,
}
use netobserv_spcg.Common.Maps.{Map, lookup, insert}
use netobserv_spcg.Common.Sets.{IdSet, add_ids}
use netobserv_spcg.Common.Sort.{str_lt, sort_slice}
use netobserv_spcg.Common.Text.{◌+++◌}
use netobserv_spcg.Pcap.Bytes.{Bytes}
use netobserv_spcg.Pcap.Frame.{FrameSummary, ethernet_payload, summarize_frame, parse_tcp_flags}
use netobserv_spcg.Pcap.Meta.{
  FlowMeta, Formats, flow_int64, flow_uint, flow_string, flow_counters, tcp_flags_from_meta,
}
use netobserv_spcg.Pcap.Session.{TrackedPod, FlowEvent, u64_mod}
use netobserv_spcg.Pcap.Topology.{
  TopologyNode, TopologyEdge, SequenceStep, EdgeDetail, FlowTopology, namespaces_of,
}
use netobserv_spcg.Pcap.Topology.Labels.{sequence_phase, sequence_label, edge_health, diagnose_drop}
use netobserv_spcg.Pcap.Topology.Nodes.{resolve_flow_endpoints, is_node}

-- `edgeKey`, and its equality.
abbrev pub EdgeKey : Type 0
EdgeKey = String × String

unfoldable pub EdgeKey-discrete : Discrete EdgeKey
EdgeKey-discrete (a, b) (c, d) = elim (String-discrete a c) [
  | no ne ↦ no (λ e. ne (ap (λ (k : EdgeKey). k.0) e))
  | yes p ↦ elim (String-discrete b d) [
    | no ne ↦ no (λ e. ne (ap (λ (k : EdgeKey). k.1) e))
    | yes q ↦ yes (λ i. (p i, q i))
  ]
]

-- `edgeAcc`: what is known of an edge so far. A zero `first` is `none`.
pub record EdgeAcc : Type 0 where
  pub edge : TopologyEdge
  pub flags : IdSet
  pub steps : List SequenceStep
  pub first : Option ℕ
  pub srtt_sum : ℤ
  pub srtt_n : ℕ

abbrev pub new_acc : String → String → String → EdgeAcc
new_acc from to proto = record {
  edge = record {
    id = edge_id from to;
    from = from;
    to = to;
    health = "";
    proto = proto;
    src_port = 0;
    dst_port = 0;
    count = 0;
    bytes = 0;
    packets = 0;
    srtt_ns = pos 0;
    max_srtt_ns = pos 0;
    drop_cause = "";
    drop_diagnosis = "";
    tcp_flags = [];
    tcp_state = "";
  };
  flags = [];
  steps = [];
  first = none;
  srtt_sum = pos 0;
  srtt_n = 0;
}

abbrev pub acc_or_new : String → String → String → Option EdgeAcc → EdgeAcc
acc_or_new from to proto none = new_acc from to proto
acc_or_new from to proto (some acc) = acc

module _ (fmt : Formats) where
  -- `mergeFrameMeta`.
  unfoldable pub merge_frame_meta : FrameSummary → FlowMeta → FrameSummary
  merge_frame_meta fs meta = record fs {
    proto = if is_empty fs.proto then flow_string fmt meta "Proto" else fs.proto;
    src_port = if fs.src_port == 0 then uint16_of (flow_int64 meta "SrcPort") else fs.src_port;
    dst_port = if fs.dst_port == 0 then uint16_of (flow_int64 meta "DstPort") else fs.dst_port;
  }

-- The protocol, the ports and the number of events.
unfoldable pub with_frame : FrameSummary → TopologyEdge → TopologyEdge
with_frame fs e = record e {
  count = e.count + 1;
  proto = if is_empty fs.proto then e.proto else fs.proto;
  src_port = if ltb 0 fs.src_port then fs.src_port else e.src_port;
  dst_port = if ltb 0 fs.dst_port then fs.dst_port else e.dst_port;
}

unfoldable pub with_counters : ℕ × ℕ → TopologyEdge → TopologyEdge
with_counters (bytes, packets) e = record e {
  bytes = (e.bytes + bytes) % u64_mod;
  packets = (e.packets + packets) % u64_mod;
}

-- The round-trip time of the event, if it has one.
unfoldable pub with_srtt : ℤ → EdgeAcc → EdgeAcc
with_srtt srtt acc =
    let e = acc.edge in
    if ltb_ℤ (pos 0) srtt
    then record acc {
      srtt_sum = add_int64 acc.srtt_sum srtt;
      srtt_n = acc.srtt_n + 1;
      edge = record e { max_srtt_ns = if ltb_ℤ e.max_srtt_ns srtt then srtt else e.max_srtt_ns };
    }
    else acc

unfoldable pub with_drop_cause : String → TopologyEdge → TopologyEdge
with_drop_cause drop e =
    if is_empty drop then e else record e { drop_cause = drop; drop_diagnosis = diagnose_drop drop }

unfoldable pub with_drop_counts : Bool → TopologyEdge → TopologyEdge
with_drop_counts dropped e =
    let cause = if is_empty e.drop_cause then "SKB_DROP" else e.drop_cause in
    if dropped then record e { drop_cause = cause; drop_diagnosis = diagnose_drop cause } else e

unfoldable pub with_state : String → TopologyEdge → TopologyEdge
with_state state e = if is_empty state then e else record e { tcp_state = state }

abbrev first_or : ℕ → Option ℕ → ℕ
first_or at none = at
first_or at (some first) = first

-- The packet's marker, for the first 48 packets; times are in microseconds.
unfoldable pub with_step : FrameSummary → List String → ℕ → EdgeAcc → EdgeAcc
with_step fs flags at acc =
    let first = first_or at acc.first in
    let phase = sequence_phase flags in
    if ltb (length acc.steps) max_steps
    then record acc {
      first = some first;
      steps =
          acc.steps
          ++ (record {
            rel_us = sub_int64 (pos at) (pos first);
            at_us = pos at;
            direction = "forward";
            phase = phase;
            lane = "forward";
            label = sequence_label fs flags phase;
            flags = flags;
            src_port = fs.src_port;
            dst_port = fs.dst_port;
          }
              ∷ []);
    }
    else acc

module _ (fmt : Formats) where
  abbrev drop_of : FlowMeta → String
  drop_of meta =
      let cause = flow_string fmt meta "PktDropLatestDropCause" in
      if is_empty cause then flow_string fmt meta "PktDropLatestState" else cause

  -- The edge after an event.
  unfoldable pub update_acc : FrameSummary → FlowMeta → ℕ → ℕ × ℕ → List String → EdgeAcc → EdgeAcc
  update_acc fs meta at counters flags acc =
      let dropped =
        ltb 0 (flow_uint meta "PktDropPackets") || ltb 0 (flow_uint meta "PktDropBytes") in
      let timed =
        with_srtt (flow_int64 meta "TimeFlowRttNs")
          (record acc { edge = with_counters counters (with_frame fs acc.edge) }) in
      let e = with_drop_counts dropped (with_drop_cause (drop_of meta) timed.edge) in
      with_step fs flags at (record timed {
        edge = with_state (flow_string fmt meta "PktDropLatestState") e;
        flags = add_ids flags timed.flags;
      })

  -- The frame of an event, completed by the metadata.
  unfoldable pub read_frame : FlowEvent FlowMeta → Option FrameSummary
  read_frame ev = do
    raw ← ethernet_payload ev.frame
    fs ← summarize_frame raw
    some (merge_frame_meta fmt fs ev.flow_meta)

  -- The TCP flags of the metadata, or else of the frame.
  abbrev flags_or : List String → List String → Bytes → Option (List String)
  flags_or (f ∷ flags) summary frame = some (f ∷ flags)
  flags_or [] (f ∷ flags) frame = some (f ∷ flags)
  flags_or [] [] frame = do raw ← ethernet_payload frame; parse_tcp_flags raw

  unfoldable pub read_flags : FlowEvent FlowMeta → FrameSummary → Option (List String)
  read_flags ev fs = flags_or (tcp_flags_from_meta fmt ev.flow_meta) fs.tcp_flags ev.frame

-- `nodeMap` and `edges` of `BuildFlowTopology`.
pub record Builder : Type 0 where
  pub node_map : Map String TopologyNode
  pub edges : Map EdgeKey EdgeAcc

module _ (fmt : Formats) where
  unfoldable pub add_flow :
      FlowEvent FlowMeta
      → FrameSummary
      → ℕ × ℕ
      → List String
      → TopologyNode
      → TopologyNode
      → Builder
      → Builder
  add_flow ev fs counters flags from to b =
      let key : EdgeKey = (from.id, to.id) in
      let acc = acc_or_new from.id to.id fs.proto (lookup EdgeKey-discrete key b.edges) in
      record {
        node_map = insert String-discrete to.id to (insert String-discrete from.id from b.node_map);
        edges =
            insert EdgeKey-discrete key (update_acc fmt fs ev.flow_meta ev.time counters flags acc)
              b.edges;
      }

  abbrev add_between :
      FlowEvent FlowMeta → FrameSummary → Builder → TopologyNode × TopologyNode → Option Builder
  add_between ev fs b (from, to) =
      if is_node from && is_node to
      then (do
        counters ← flow_counters ev.flow_meta ev.frame
        flags ← read_flags fmt ev fs
        some (add_flow ev fs counters flags from to b))
      else some b

  -- One event; an event without both ends is skipped.
  unfoldable pub add_event : List TrackedPod → FlowEvent FlowMeta → Builder → Option Builder
  add_event tracked ev b = do
    fs ← read_frame fmt ev
    ends ← resolve_flow_endpoints fmt ev tracked
    add_between ev fs b ends

  unfoldable pub add_events : List TrackedPod → List (FlowEvent FlowMeta) → Builder → Option Builder
  add_events tracked [] b = some b
  add_events tracked (ev ∷ events) b = do b' ← add_event tracked ev b; add_events tracked events b'

-- The edge as it is returned.
unfoldable pub finish_edge : EdgeAcc → TopologyEdge
finish_edge acc =
    let e = acc.edge in
    let timed = record e {
      srtt_ns = if ltb 0 acc.srtt_n then quot_int64 acc.srtt_sum acc.srtt_n else e.srtt_ns;
    } in
    record timed {
      health = edge_health timed;
      tcp_flags = sort_slice str_lt (e.tcp_flags ++ map (λ entry. entry.0) acc.flags);
    }

unfoldable pub edge_details :
    List (EdgeKey × EdgeAcc) → Map String EdgeDetail → Map String EdgeDetail
edge_details [] out = out
edge_details ((k, acc) ∷ accs) out =
    let e = finish_edge acc in
    edge_details accs (
      insert String-discrete e.id
        (record {
          edge_id = e.id;
          srtt_ns = e.srtt_ns;
          bytes = e.bytes;
          packets = e.packets;
          tcp_flags = e.tcp_flags;
          tcp_state = e.tcp_state;
          drop_cause = e.drop_cause;
          drop_diagnosis = e.drop_diagnosis;
          steps = acc.steps;
        })
        out)

unfoldable pub finish_topology : Builder → FlowTopology
finish_topology b =
    let found = map (λ entry. entry.1) b.node_map in
    let edges =
      sort_slice (λ (e : TopologyEdge) (f : TopologyEdge). str_lt e.id f.id)
        (map (λ entry. finish_edge entry.1) b.edges) in
    let details = edge_details b.edges [] in
    record {
      nodes = sort_slice (λ (m : TopologyNode) (n : TopologyNode). str_lt m.id n.id) found;
      edges = edges;
      namespaces = namespaces_of found;
      edge_detail = sequence_all edges (map (λ entry. entry.0) details) details;
    }

abbrev pub empty_builder : Builder
empty_builder = record { node_map = []; edges = [] }

module _ (fmt : Formats) where
  -- `BuildFlowTopology`.
  unfoldable pub build_flow_topology :
      List (FlowEvent FlowMeta) → List TrackedPod → Option FlowTopology
  build_flow_topology events tracked = do
    b ← add_events fmt tracked events empty_builder
    some (finish_topology b)
