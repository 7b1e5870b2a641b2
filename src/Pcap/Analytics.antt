-- ===== src/Pcap/Analytics.antt =====
-- `AnalyzeEvents` of internal/pcap/analytics.go: the loop over the events first reads a frame, which
-- may panic (`none`), and then counts what it read. Go ranges over its maps in an order that it
-- leaves open; here it is the order of insertion.
pub mod Decode
pub mod Peers
pub mod Handshake
pub mod Totals
pub mod Returns
use mathlib.Core.List.{List-discrete}
use netobserv_spcg.Common.{
  ℕ, ◌+◌, ◌*◌, ◌%◌, ℕ_discrete, Bool, true, false, not, ◌&&◌, ◌||◌, List, [], ◌∷◌, Option, some,
  none, String, String-discrete, str_eq, is_empty, ltb, ◌==◌, if◌then◌else◌, length, take, map,
  ◌>>=◌,
}
use netobserv_spcg.Common.Int64.{ℤ, pos, ℤ-discrete, ltb_ℤ, quot_int64, time_sub, times}
use netobserv_spcg.Common.Maps.{Map, lookup, insert}
use netobserv_spcg.Common.Maps.Entries.{value_or, sum_of}
use netobserv_spcg.Common.Sort.{sort_slice}
use netobserv_spcg.Common.Text.{◌+++◌, decimal, is_one_of}
use netobserv_spcg.Pcap.Bytes.{Bytes}
use netobserv_spcg.Pcap.Frame.{FrameSummary, ethernet_payload}
use netobserv_spcg.Pcap.Meta.{FlowMeta, Formats}
use netobserv_spcg.Pcap.Session.{FlowEvent, u64_mod}
use netobserv_spcg.Pcap.Topology.Nodes.{ips_from_ethernet, flow_ips}
use netobserv_spcg.Pcap.Topology.Build.{read_frame}
use netobserv_spcg.Pcap.Analytics.Decode.{parse_icmp, parse_tls_sni, parse_dns_response}
use netobserv_spcg.Pcap.Analytics.Peers.{IpOps, classify_peer_ip}

-- `SNIStat`.
pub record SniStat : Type 0 where
  pub host : Bytes
  pub count : ℕ

pub record TimeBucket : Type 0 where
  pub offset_ms : ℤ
  pub packets : ℕ
  pub bytes : ℕ

pub record PacketAnalytics : Type 0 where
  pub tcp_syn : ℕ
  pub tcp_syn_ack : ℕ
  pub tcp_rst : ℕ
  pub tcp_fin : ℕ
  pub tcp_failed_handshakes : ℕ
  pub icmp : Map String ℕ
  pub peer_classes : Map String ℕ
  pub tls_sni : List SniStat
  pub dns_failures : Map String ℕ
  pub dns_responses : ℕ
  pub time_buckets : List TimeBucket
  pub peak_bucket_packets : ℕ
  pub peak_bucket_bits_per_sec : ℕ

-- `tcpFlowTrack`.
pub record TcpFlowTrack : Type 0 where
  pub syn : Bool
  pub syn_ack : Bool

abbrev pub no_analytics : PacketAnalytics
no_analytics = record {
  tcp_syn = 0;
  tcp_syn_ack = 0;
  tcp_rst = 0;
  tcp_fin = 0;
  tcp_failed_handshakes = 0;
  icmp = [];
  peer_classes = [];
  tls_sni = [];
  dns_failures = [];
  dns_responses = 0;
  time_buckets = [];
  peak_bucket_packets = 0;
  peak_bucket_bits_per_sec = 0;
}

-- A TCP segment with known addresses: the flow that it belongs to, and the one back.
pub record Segment : Type 0 where
  pub key : String
  pub reverse : String
  pub syn : Bool
  pub ack : Bool

abbrev pub flow_key : String → ℕ → String → ℕ → String
flow_key src src_port dst dst_port =
    src +++ (":" +++ (decimal src_port +++ (">" +++ (dst +++ (":" +++ decimal dst_port)))))

abbrev pub track_or_new : Option TcpFlowTrack → TcpFlowTrack
track_or_new none = record { syn = false; syn_ack = false }
track_or_new (some st) = st

abbrev pub mark_answered : String → Map String TcpFlowTrack → Map String TcpFlowTrack
mark_answered k flows =
    insert String-discrete k
      (record (track_or_new (lookup String-discrete k flows)) { syn_ack = true }) flows

abbrev pub mark_opened : String → Map String TcpFlowTrack → Map String TcpFlowTrack
mark_opened k flows =
    insert String-discrete k (record (track_or_new (lookup String-discrete k flows)) { syn = true })
      flows

-- The end of `trackTCPFlows`: `st` and `rs` point into the map.
unfoldable pub track_segment : Segment → Map String TcpFlowTrack → Map String TcpFlowTrack
track_segment s flows =
    let known =
      insert String-discrete s.key (track_or_new (lookup String-discrete s.key flows)) flows in
    let opened = if s.syn && not s.ack then mark_opened s.key known else known in
    if s.syn && s.ack then mark_answered s.key (mark_answered s.reverse opened) else opened

-- `countFailedTCP`.
unfoldable pub count_failed : Map String TcpFlowTrack → ℕ
count_failed flows = sum_of String-discrete (λ st. if st.syn && not st.syn_ack then 1 else 0) flows

unfoldable pub count_flag : String → PacketAnalytics → PacketAnalytics
count_flag f out =
    if str_eq f "SYN"
    then record out { tcp_syn = out.tcp_syn + 1 }
    else if str_eq f "RST"
    then record out { tcp_rst = out.tcp_rst + 1 }
    else if str_eq f "FIN"
    then record out { tcp_fin = out.tcp_fin + 1 }
    else out

unfoldable pub count_flags : List String → PacketAnalytics → PacketAnalytics
count_flags [] out = out
count_flags (f ∷ flags) out = count_flags flags (count_flag f out)

-- `m[k]++`.
abbrev pub bump : {V : Type 0} → Discrete V → V → Map V ℕ → Map V ℕ
bump dec k m = insert dec k (value_or dec (λ n. n) 0 (lookup dec k m) + 1) m

abbrev pub bump_text : String → Map String ℕ → Map String ℕ
bump_text k m = if is_empty k then m else bump String-discrete k m

abbrev pub Bytes-discrete : Discrete Bytes
Bytes-discrete = List-discrete ℕ_discrete

-- What the loop reads of an event.
pub record Sample : Type 0 where
  pub size : ℕ
  pub summary : FrameSummary
  pub src_ip : String
  pub dst_ip : String
  pub segment : Option Segment
  pub icmp_type : String
  pub host : Bytes
  pub rcode : String
  pub is_response : Bool

-- `out`, `flows`, `buckets` and `sniCounts` of `AnalyzeEvents`.
pub record Analysis : Type 0 where
  pub out : PacketAnalytics
  pub flows : Map String TcpFlowTrack
  pub buckets : Map ℤ TimeBucket
  pub sni_counts : Map Bytes ℕ

abbrev pub bucket_ms : ℕ
bucket_ms = 100

abbrev pub bucket_or_new : ℤ → Option TimeBucket → TimeBucket
bucket_or_new index none = record { offset_ms = times index bucket_ms; packets = 0; bytes = 0 }
bucket_or_new index (some b) = b

-- The bucket of 100 milliseconds that the event falls in.
abbrev pub bucket_index : ℕ → ℕ → ℤ
bucket_index first at = quot_int64 (quot_int64 (time_sub at first) 1000000) bucket_ms

unfoldable pub add_to_bucket : ℤ → ℕ → Map ℤ TimeBucket → Map ℤ TimeBucket
add_to_bucket index size buckets =
    let b = bucket_or_new index (lookup ℤ-discrete index buckets) in
    insert ℤ-discrete index
      (record b { packets = b.packets + 1; bytes = (b.bytes + size) % u64_mod }) buckets

abbrev pub track_found : Option Segment → Map String TcpFlowTrack → Map String TcpFlowTrack
track_found none flows = flows
track_found (some s) flows = track_segment s flows

abbrev syn_acks_of : Option Segment → ℕ
syn_acks_of none = 0
syn_acks_of (some s) = if s.syn && s.ack then 1 else 0

module _ (ops : IpOps) where
  abbrev add_peer : String → Map String ℕ → Map String ℕ
  add_peer ip classes =
      if is_empty ip then classes else bump String-discrete (classify_peer_ip ops ip) classes

  unfoldable pub add_sample : ℤ → Sample → Analysis → Analysis
  add_sample index s a =
      let tcp =
        if str_eq s.summary.proto "TCP" then count_flags s.summary.tcp_flags a.out else a.out in
      let failed = s.is_response && not (str_eq s.rcode "NOERROR") in
      record {
        out = record tcp {
          tcp_syn_ack = tcp.tcp_syn_ack + syn_acks_of s.segment;
          peer_classes = add_peer s.dst_ip (add_peer s.src_ip tcp.peer_classes);
          icmp = bump_text s.icmp_type tcp.icmp;
          dns_responses = if s.is_response then tcp.dns_responses + 1 else tcp.dns_responses;
          dns_failures = if failed then bump_text s.rcode tcp.dns_failures else tcp.dns_failures;
        };
        flows = track_found s.segment a.flows;
        buckets = add_to_bucket index s.size a.buckets;
        sni_counts =
            if length s.host == 0 then a.sni_counts else bump Bytes-discrete s.host a.sni_counts;
      }

module _ (fmt : Formats) where
  -- The middle of `trackTCPFlows`; the inner `none` is its early return.
  unfoldable pub read_segment : Bytes → FrameSummary → Option (Option Segment)
  read_segment frame fs = do
    ips ← ips_from_ethernet fmt frame
    if is_empty ips.0 || (is_empty ips.1 || fs.src_port == 0)
        then some none
        else some (
            some (record {
              key = flow_key ips.0 fs.src_port ips.1 fs.dst_port;
              reverse = flow_key ips.1 fs.dst_port ips.0 fs.src_port;
              syn = is_one_of "SYN" fs.tcp_flags;
              ack = is_one_of "ACK" fs.tcp_flags;
            }))

  unfoldable pub read_sample : FlowEvent FlowMeta → Option Sample
  read_sample ev = do
    frame ← ethernet_payload ev.frame
    fs ← read_frame fmt ev
    ips ← flow_ips fmt ev
    segment ← (if str_eq fs.proto "TCP" then read_segment frame fs else some none)
    icmp_type ← parse_icmp frame
    host ← parse_tls_sni frame
    answer ← parse_dns_response frame
    some (record {
      size = length frame;
      summary = fs;
      src_ip = ips.0;
      dst_ip = ips.1;
      segment = segment;
      icmp_type = icmp_type;
      host = host;
      rcode = answer.0;
      is_response = answer.1;
    })

-- `sortedBuckets`: the values by key.
unfoldable pub sorted_buckets : Map ℤ TimeBucket → List TimeBucket
sorted_buckets m =
    map (λ entry. entry.1)
      (sort_slice (λ (x : ℤ × TimeBucket) (y : ℤ × TimeBucket). ltb_ℤ x.0 y.0) m)

-- `topSNI`.
unfoldable pub top_sni : Map Bytes ℕ → ℕ → List SniStat
top_sni m n = take n (
    sort_slice (λ (x : SniStat) (y : SniStat). ltb y.count x.count)
      (map (λ entry. record { host = entry.0; count = entry.1 }) m))

-- The peak of packets in a bucket, and the bits per second in that bucket.
unfoldable pub peak_of : List TimeBucket → ℕ × ℕ → ℕ × ℕ
peak_of [] peak = peak
peak_of (b ∷ buckets) peak =
    peak_of buckets (if ltb peak.0 b.packets then (b.packets, b.bytes * 8 * 10 % u64_mod) else peak)

abbrev pub top_hosts : ℕ
top_hosts = 8

unfoldable pub finish_analysis : Analysis → PacketAnalytics
finish_analysis a =
    let sorted = sorted_buckets a.buckets in
    let peak = peak_of sorted (0, 0) in
    record a.out {
      tcp_failed_handshakes = count_failed a.flows;
      time_buckets = sorted;
      tls_sni = top_sni a.sni_counts top_hosts;
      peak_bucket_packets = peak.0;
      peak_bucket_bits_per_sec = peak.1;
    }

abbrev pub empty_analysis : Analysis
empty_analysis = record { out = no_analytics; flows = []; buckets = []; sni_counts = [] }

module _ (fmt : Formats) (ops : IpOps) where
  unfoldable pub add_all_samples : ℕ → List (FlowEvent FlowMeta) → Analysis → Option Analysis
  add_all_samples first [] a = some a
  add_all_samples first (ev ∷ events) a = do
    s ← read_sample fmt ev
    add_all_samples first events (add_sample ops (bucket_index first ev.time) s a)

  -- `AnalyzeEvents`.
  unfoldable pub analyze_events : List (FlowEvent FlowMeta) → Option PacketAnalytics
  analyze_events [] = some no_analytics
  analyze_events (ev ∷ events) = do
    a ← add_all_samples ev.time (ev ∷ events) empty_analysis
    some (finish_analysis a)
