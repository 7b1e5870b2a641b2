-- ===== src/Tests/Analytics.antt =====
-- internal/pcap/analytics.go on frames and events.
use mathlib.Core.Option.{some-injective}
use netobserv_spcg.Common.Int64.{positive_part}
use netobserv_spcg.Pcap.Summary.{CaptureSummary, FloatOps, build_capture_summary}
use netobserv_spcg.Pcap.Summary.Protocols.{sum_counts, count_named, build_capture_summary_protocols}
use netobserv_spcg.Pcap.Topology.Build.Closed.{count_flows}
use netobserv_spcg.Common.{
  ◌/◌, ℕ, ◌+◌, ◌≤◌, ◌<◌, ◌≡◌, ◌↔◌, refl, sym, ap, ◌∙◌, String, Bool, true, false, List, [], ◌∷◌,
  ◌++◌, Option, some, none, length, length-slice_from, replicate, sum_by, All, Returns, at, arith,
}
use netobserv_spcg.Pcap.Bytes.{Bytes, u32_mod}
use netobserv_spcg.Pcap.Frame.{ethernet_payload}
use netobserv_spcg.Pcap.Analytics.{PacketAnalytics, Segment, analyze_events}
use netobserv_spcg.Pcap.Analytics.Decode.{parse_icmp, parse_tls_sni, parse_sni_name}
use netobserv_spcg.Pcap.Analytics.Decode.Icmp.{IsBareIcmp6, parse_icmp-eq-none_iff}
use netobserv_spcg.Pcap.Analytics.Decode.Safety.{parse_tls_sni-Returns}
use netobserv_spcg.Pcap.Analytics.Decode.ServerName.{server_name, parse_sni_name-server_name}
use netobserv_spcg.Pcap.Analytics.Handshake.{
  track_of, track_all, any_of, opens, answers, track_of-track_all,
}
use netobserv_spcg.Pcap.Analytics.Peers.{
  IpOps, Ipv4, as_number, IsPrivateNumber, classify_v4, classify_v4_iff,
}
use netobserv_spcg.Pcap.Analytics.Returns.{AreAnalyzable, IsAnalyzable, analyze_events_totals}
use netobserv_spcg.Tests.Topologies.{
  plain, event, conversation, event-IsReadable, ethernet_payload-short_frame,
}

-- An Ethernet frame of 54 bytes: an IPv6 header that announces an ICMPv6 message, and no message.
abbrev bare_frame : Bytes
bare_frame = replicate 12 0 ++ (0x86 ∷ 0xdd ∷ 0x60 ∷ 0 ∷ 0 ∷ 0 ∷ 0 ∷ 0 ∷ 58 ∷ 64 ∷ replicate 32 0)

parse_icmp-eq-none_iff_example : (parse_icmp bare_frame ≡ none) ↔ IsBareIcmp6 bare_frame
parse_icmp-eq-none_iff_example = parse_icmp-eq-none_iff bare_frame (omega arith)

bare_frame_panics : parse_icmp bare_frame ≡ none
unfolding parse_icmp ethernet_payload netobserv_spcg.Common.slice netobserv_spcg.Common.slice_from
    netobserv_spcg.Pcap.Bytes.le_uint32 netobserv_spcg.Pcap.Bytes.be_uint16
    netobserv_spcg.Pcap.Analytics.Decode.parse_icmpv6
bare_frame_panics = refl

parse_tls_sni-Returns_example : Returns (parse_tls_sni bare_frame)
parse_tls_sni-Returns_example = parse_tls_sni-Returns bare_frame (omega arith)

-- `www.shop.test`.
abbrev host : Bytes
host = b'w' ∷ b'w' ∷ b'w' ∷ b'.' ∷ b's' ∷ b'h' ∷ b'o' ∷ b'p' ∷ b'.' ∷ b't' ∷ b'e' ∷ b's' ∷ b't' ∷ []

parse_sni_name-server_name_example : parse_sni_name (server_name host) ≡ some []
parse_sni_name-server_name_example =
    parse_sni_name-server_name host (omega arith) (λ c e. omega (arith, some-injective b't' c e))

abbrev opening : Segment
opening = record {
  key = "10.0.0.1:40000>10.0.0.2:443";
  reverse = "10.0.0.2:443>10.0.0.1:40000";
  syn = true;
  ack = false;
}

abbrev answer : Segment
answer = record {
  key = "10.0.0.2:443>10.0.0.1:40000";
  reverse = "10.0.0.1:40000>10.0.0.2:443";
  syn = true;
  ack = true;
}

track_of-track_all_example :
    track_of "10.0.0.1:40000>10.0.0.2:443" (track_all (opening ∷ answer ∷ []) []) ≡ record {
      syn = any_of (opens "10.0.0.1:40000>10.0.0.2:443") (opening ∷ answer ∷ []);
      syn_ack = any_of (answers "10.0.0.1:40000>10.0.0.2:443") (opening ∷ answer ∷ []);
    }
track_of-track_all_example =
    track_of-track_all (opening ∷ answer ∷ []) "10.0.0.1:40000>10.0.0.2:443"

abbrev gateway : Ipv4
gateway = (172, 16, 0, 1)

classify_v4_iff_example :
    (classify_v4 gateway ≡ "external") ↔ (IsPrivateNumber (as_number gateway) → ⊥)
classify_v4_iff_example =
    classify_v4_iff gateway (omega arith, omega arith, omega arith, omega arith)

abbrev any_address : IpOps
any_address = record {
  parse_ip = λ text. some (10 ∷ 0 ∷ 0 ∷ 7 ∷ []);
  is_loopback = λ ip. false;
  is_link_local_unicast = λ ip. false;
  is_link_local_multicast = λ ip. false;
  is_private = λ ip. true;
  to4 = λ ip. some (10, 0, 0, 7);
}

event-IsAnalyzable : (from to : String) (at : ℕ) → IsAnalyzable (event from to at)
event-IsAnalyzable from to at = record {
  readable = event-IsReadable from to at;
  no_bare = λ raw e bare.
      let same = ethernet_payload-short_frame raw e in
      let same' = ethernet_payload-short_frame bare.frame (rw same at bare.stripped) in
      omega (arith, bare.bare.size, length-slice_from bare.frame 14 bare.network, ap length same');
}

conversation-AreAnalyzable : AreAnalyzable conversation
conversation-AreAnalyzable = (
  event-IsAnalyzable "web" "cart" 100,
  (event-IsAnalyzable "cart" "web" 120, (event-IsAnalyzable "web" "cart" 130, tt)),
)

analyze_events_totals_example :
    (out : PacketAnalytics) × (analyze_events plain any_address conversation ≡ some out)
    × (sum_by (λ b. b.packets) out.time_buckets ≡ length conversation)
    × All (λ b. b.packets ≤ out.peak_bucket_packets) out.time_buckets
    × (length out.tls_sni ≤ 8)
analyze_events_totals_example =
    analyze_events_totals plain any_address conversation conversation-AreAnalyzable

-- Whole numbers in place of float64.
abbrev whole : FloatOps ℕ
whole = record {
  of_int = positive_part;
  divide = λ a b. a;
  seconds = λ d. positive_part d / 1000000000;
  is_positive = λ a. true;
}

build_capture_summary_protocols_example :
    (s : CaptureSummary ℕ) × (build_capture_summary whole plain any_address conversation []
      ≡ some s)
    × (s.event_count ≡ length conversation)
    × (sum_counts s.protocols ≡ count_flows plain [] conversation + count_named plain conversation)
build_capture_summary_protocols_example =
    build_capture_summary_protocols whole plain any_address conversation conversation-AreAnalyzable
