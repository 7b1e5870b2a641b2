-- ===== src/Pcap/Summary.antt =====
-- `BuildCaptureSummary` of internal/pcap/summary.go. Arithmetic on float64 is taken as operations.
-- Go ranges over its maps in an order that it leaves open; here it is the order of insertion.
pub mod Protocols
use netobserv_spcg.Common.{
  ℕ, zero, suc, ◌+◌, ◌-◌, ◌/◌, ◌%◌, Bool, true, false, not, ◌&&◌, ◌||◌, List, [], ◌∷◌, Option, some,
  none, String, String-discrete, str_eq, is_empty, ltb, ◌==◌, if◌then◌else◌, length, take, map,
  ◌>>=◌,
}
use netobserv_spcg.Common.Int64.{ℤ, pos, add_int64, ltb_ℤ, time_sub}
use netobserv_spcg.Common.Maps.{Map, lookup, insert}
use netobserv_spcg.Common.Maps.Entries.{value_or}
use netobserv_spcg.Common.Sort.{sort_slice}
use netobserv_spcg.Common.Text.{◌+++◌, digit, join}
use netobserv_spcg.Pcap.Bytes.{Bytes}
use netobserv_spcg.Pcap.Frame.{FrameSummary, ethernet_payload}
use netobserv_spcg.Pcap.Meta.{FlowMeta, Formats}
use netobserv_spcg.Pcap.Session.{TrackedPod, FlowEvent, u64_mod}
use netobserv_spcg.Pcap.Topology.{TopologyNode, TopologyEdge, FlowTopology}
use netobserv_spcg.Pcap.Topology.Build.{build_flow_topology, read_frame}
use netobserv_spcg.Pcap.Topology.Bounded.{select_tracked}
use netobserv_spcg.Pcap.Analytics.{PacketAnalytics, Bytes-discrete, bump, analyze_events}
use netobserv_spcg.Pcap.Analytics.Peers.{IpOps}

pub record TalkerStat : Type 0 where
  pub id : String
  pub label : String
  pub kind : String
  pub packets : ℕ
  pub bytes : ℕ

pub record PortStat : Type 0 where
  pub proto : String
  pub port : ℕ
  pub count : ℕ
  pub bytes : ℕ

-- `DNSStat`.
pub record DnsStat : Type 0 where
  pub name : Bytes
  pub count : ℕ

pub record CaptureSummary (Float : Type 0) : Type 0 where
  pub event_count : ℕ
  pub total_packets : ℕ
  pub total_bytes : ℕ
  pub flow_edges : ℕ
  pub unique_nodes : ℕ
  pub external_peers : ℕ
  pub tracked_pods : ℕ
  pub capture_duration_sec : Float
  pub events_per_sec : Float
  pub avg_packet_bytes : Float
  pub avg_srtt_ms : Float
  pub protocols : Map String ℕ
  pub health : Map String ℕ
  pub tcp_flags : Map String ℕ
  pub top_ports : List PortStat
  pub top_dns : List DnsStat
  pub top_talkers : List TalkerStat
  pub drop_edges : ℕ
  pub dns_queries : ℕ
  pub packet_analytics : PacketAnalytics

-- The operations on float64 that the code uses; `seconds` is that of a duration in nanoseconds.
pub record FloatOps (Float : Type 0) : Type 0 where
  pub of_int : ℤ → Float
  pub divide : Float → Float → Float
  pub seconds : ℤ → Float
  pub is_positive : Float → Bool

-- The loop of `itoaU16` and `itoaInt` over the digits.
unfoldable pub itoa_digits : ℕ → ℕ → String
itoa_digits zero v = ""
itoa_digits (suc fuel) v =
    let rest = itoa_digits fuel (v / 10) in if v == 0 then "" else rest +++ digit (v % 10)

-- `itoaU16`: at most five digits.
unfoldable pub itoa_u16 : ℕ → String
itoa_u16 p = if p == 0 then "0" else itoa_digits 5 p

-- `itoaInt` of a count, which has at most twelve digits.
unfoldable pub itoa_int : ℕ → String
itoa_int v = if v == 0 then "0" else itoa_digits 12 v

abbrev pub add_to : String → ℕ → Map String ℕ → Map String ℕ
add_to k n m =
    insert String-discrete k (value_or String-discrete (λ v. v) 0 (lookup String-discrete k m) + n)
      m

-- `m[k] += n` of a `uint64`.
abbrev add_u64 : String → ℕ → Map String ℕ → Map String ℕ
add_u64 k n m =
    insert String-discrete k
      ((value_or String-discrete (λ v. v) 0 (lookup String-discrete k m) + n) % u64_mod) m

-- What the loops of `BuildCaptureSummary` count.
pub record Counts : Type 0 where
  pub protocols : Map String ℕ
  pub health : Map String ℕ
  pub tcp_flags : Map String ℕ
  pub ports : Map String PortStat
  pub dns : Map Bytes ℕ
  pub talker_bytes : Map String ℕ
  pub talker_packets : Map String ℕ
  pub srtt_sum : ℤ
  pub srtt_n : ℕ
  pub drop_edges : ℕ
  pub dns_queries : ℕ

abbrev pub no_counts : Counts
no_counts = record {
  protocols = [];
  health = [];
  tcp_flags = [];
  ports = [];
  dns = [];
  talker_bytes = [];
  talker_packets = [];
  srtt_sum = pos 0;
  srtt_n = 0;
  drop_edges = 0;
  dns_queries = 0;
}

abbrev port_or_new : String → ℕ → Option PortStat → PortStat
port_or_new proto port none = record { proto = proto; port = port; count = 0; bytes = 0 }
port_or_new proto port (some p) = p

-- A destination port of zero is not counted.
unfoldable pub add_port : String → ℕ → ℕ → ℕ → Map String PortStat → Map String PortStat
add_port proto port count bytes ports =
    let key = proto +++ ("/dst:" +++ itoa_u16 port) in
    let p = port_or_new proto port (lookup String-discrete key ports) in
    if port == 0
    then ports
    else insert String-discrete key
        (record p { count = p.count + count; bytes = (p.bytes + bytes) % u64_mod }) ports

unfoldable pub bump_all : List String → Map String ℕ → Map String ℕ
bump_all [] m = m
bump_all (f ∷ flags) m = bump_all flags (bump String-discrete f m)

abbrev or_word : String → String → String
or_word s word = if is_empty s then word else s

-- An edge of the graph: it counts as many times as it has events.
unfoldable pub add_edge_counts : TopologyEdge → Counts → Counts
add_edge_counts e c =
    let packets = if e.packets == 0 then e.count else e.packets in
    let health = or_word e.health "healthy" in
    let dropped = str_eq health "dropped" || not (is_empty e.drop_cause) in
    let timed = ltb_ℤ (pos 0) e.srtt_ns in
    record c {
      protocols = add_to (or_word e.proto "OTHER") e.count c.protocols;
      health = add_to health e.count c.health;
      drop_edges = if dropped then c.drop_edges + 1 else c.drop_edges;
      srtt_sum = if timed then add_int64 c.srtt_sum e.srtt_ns else c.srtt_sum;
      srtt_n = if timed then c.srtt_n + 1 else c.srtt_n;
      tcp_flags = bump_all e.tcp_flags c.tcp_flags;
      ports = add_port e.proto e.dst_port e.count e.bytes c.ports;
      talker_bytes = add_u64 e.to e.bytes (add_u64 e.from e.bytes c.talker_bytes);
      talker_packets = add_u64 e.to packets (add_u64 e.from packets c.talker_packets);
    }

unfoldable pub add_edges : List TopologyEdge → Counts → Counts
add_edges [] c = c
add_edges (e ∷ edges) c = add_edges edges (add_edge_counts e c)

-- An event, once more.
unfoldable pub add_event_counts : FrameSummary → ℕ → Counts → Counts
add_event_counts fs size c =
    let named = not (length fs.dns_query == 0) in
    record c {
      dns_queries = if named then c.dns_queries + 1 else c.dns_queries;
      dns = if named then bump Bytes-discrete fs.dns_query c.dns else c.dns;
      protocols =
          if is_empty fs.proto then c.protocols else bump String-discrete fs.proto c.protocols;
      tcp_flags = bump_all fs.tcp_flags c.tcp_flags;
      ports = add_port fs.proto fs.dst_port 1 size c.ports;
    }

module _ (fmt : Formats) where
  unfoldable pub add_events_counts : List (FlowEvent FlowMeta) → Counts → Option Counts
  add_events_counts [] c = some c
  add_events_counts (ev ∷ events) c = do
    fs ← read_frame fmt ev
    add_events_counts events (add_event_counts fs (length ev.frame) c)

-- The number of packets and of bytes; an empty frame counts as one byte.
unfoldable pub total_frames : List (FlowEvent FlowMeta) → ℕ × ℕ → Option (ℕ × ℕ)
total_frames [] total = some total
total_frames (ev ∷ events) total = do
  raw ← ethernet_payload ev.frame
  let size = if length ev.frame == 0 then 1 else length raw
  total_frames events ((total.0 + 1) % u64_mod, (total.1 + size) % u64_mod)

unfoldable pub count_external : List TopologyNode → ℕ
count_external [] = 0
count_external (n ∷ nodes) =
    if str_eq n.kind "External" then count_external nodes + 1 else count_external nodes

abbrev label_of : Option TopologyNode → String
label_of none = ""
label_of (some n) = n.label

abbrev kind_of : Option TopologyNode → String
kind_of none = ""
kind_of (some n) = n.kind

unfoldable pub nodes_by_id : List TopologyNode → Map String TopologyNode → Map String TopologyNode
nodes_by_id [] m = m
nodes_by_id (n ∷ nodes) m = nodes_by_id nodes (insert String-discrete n.id n m)

-- `topPorts`.
unfoldable pub top_ports : Map String PortStat → ℕ → List PortStat
top_ports m n = take n (
    sort_slice
      (λ (a : PortStat) (b : PortStat).
        if a.count == b.count then ltb b.bytes a.bytes else ltb b.count a.count)
      (map (λ entry. entry.1) m))

-- `topDNS`.
unfoldable pub top_dns : Map Bytes ℕ → ℕ → List DnsStat
top_dns m n = take n (
    sort_slice (λ (a : DnsStat) (b : DnsStat). ltb b.count a.count)
      (map (λ entry. record { name = entry.0; count = entry.1 }) m))

abbrev talker : Map String ℕ → Map String TopologyNode → String × ℕ → TalkerStat
talker packets nodes (id, bytes) =
    let node = lookup String-discrete id nodes in
    record {
      id = id;
      label = label_of node;
      kind = kind_of node;
      packets = value_or String-discrete (λ v. v) 0 (lookup String-discrete id packets);
      bytes = bytes;
    }

-- `topTalkers`.
unfoldable pub top_talkers :
    Map String ℕ → Map String ℕ → Map String TopologyNode → ℕ → List TalkerStat
top_talkers bytes packets nodes n = take n (
    sort_slice
      (λ (a : TalkerStat) (b : TalkerStat).
        if a.bytes == b.bytes then ltb b.packets a.packets else ltb b.bytes a.bytes)
      (map (talker packets nodes) bytes))

-- `FormatProtoMix`.
unfoldable pub format_proto_mix : Map String ℕ → String
format_proto_mix m = join " · " (
    map (λ (kv : String × ℕ). kv.0 +++ (" " +++ itoa_int kv.1))
      (sort_slice (λ (a : String × ℕ) (b : String × ℕ). ltb b.1 a.1) m))

-- The earliest and the latest time.
unfoldable pub time_span : List (FlowEvent FlowMeta) → ℕ × ℕ → ℕ × ℕ
time_span [] span = span
time_span (ev ∷ events) span =
    time_span events (
      if ltb ev.time span.0 then ev.time else span.0,
      if ltb span.1 ev.time then ev.time else span.1,
    )

abbrev span_of : List (FlowEvent FlowMeta) → ℕ × ℕ
span_of [] = (0, 0)
span_of (ev ∷ events) = time_span events (ev.time, ev.time)

module _ {Float : Type 0} (ops : FloatOps Float) where
  abbrev duration : ℕ × ℕ → Float
  duration span =
      if ltb span.0 span.1 then ops.seconds (time_sub span.1 span.0) else ops.of_int (pos 0)

  abbrev rate : Bool → ℤ → Float → Float
  rate known n by = if known then ops.divide (ops.of_int n) by else ops.of_int (pos 0)

  unfoldable pub summary_of :
      FlowTopology
      → List (FlowEvent FlowMeta)
      → ℕ
      → ℕ × ℕ
      → Counts
      → PacketAnalytics
      → CaptureSummary Float
  summary_of topo events tracked total c analytics =
      let span = span_of events in
      let sec = duration span in
      record {
        event_count = length events;
        total_packets = total.0;
        total_bytes = total.1;
        flow_edges = length topo.edges;
        unique_nodes = length topo.nodes;
        external_peers = count_external topo.nodes;
        tracked_pods = tracked;
        capture_duration_sec = sec;
        events_per_sec = rate (ltb span.0 span.1 && ops.is_positive sec) (pos (length events)) sec;
        avg_packet_bytes = rate (ltb 0 total.0) (pos total.1) (ops.of_int (pos total.0));
        avg_srtt_ms =
            if ltb 0 c.srtt_n
            then ops.divide (ops.divide (ops.of_int c.srtt_sum) (ops.of_int (pos c.srtt_n)))
                (ops.of_int (pos 1000000))
            else ops.of_int (pos 0);
        protocols = c.protocols;
        health = c.health;
        tcp_flags = c.tcp_flags;
        top_ports = top_ports c.ports 8;
        top_dns = top_dns c.dns 6;
        top_talkers = top_talkers c.talker_bytes c.talker_packets (nodes_by_id topo.nodes []) 8;
        drop_edges = c.drop_edges;
        dns_queries = c.dns_queries;
        packet_analytics = analytics;
      }

  -- `BuildCaptureSummary`.
  unfoldable pub build_capture_summary :
      Formats → IpOps → List (FlowEvent FlowMeta) → List TrackedPod → Option (CaptureSummary Float)
  build_capture_summary fmt ips events tracked = do
    full ← build_flow_topology fmt events tracked
    let topo = select_tracked full tracked
    total ← total_frames events (0, 0)
    counts ← add_events_counts fmt events (add_edges topo.edges no_counts)
    analytics ← analyze_events fmt ips events
    some (summary_of topo events (length tracked) total counts analytics)
