-- ===== src/Pcap/Analytics/Returns.antt =====
-- When `AnalyzeEvents` of internal/pcap/analytics.go returns, and what its totals add up to.
use mathlib.Core.Option.{some-injective}
use netobserv_spcg.Common.{
  ap, if◌then◌else◌, ℕ, ◌≤◌, ◌<◌, ◌==◌, ◌||◌, ◌≡◌, refl, sym, ◌∙◌, inl, inr, is_empty, str_eq, List,
  [], ◌∷◌, some, none, length, sum_by, All, Returns, if-Returns, bind-Returns, Option-cases,
  length-take-le, arith,
}
use netobserv_spcg.Pcap.Bytes.{Bytes, u32_mod}
use netobserv_spcg.Pcap.Frame.{FrameSummary, ethernet_payload}
use netobserv_spcg.Pcap.Frame.Within.{ethernet_payload-Within}
use netobserv_spcg.Pcap.Meta.{FlowMeta, Formats}
use netobserv_spcg.Pcap.Session.{FlowEvent}
use netobserv_spcg.Pcap.Topology.Nodes.{ips_from_ethernet, flow_ips}
use netobserv_spcg.Pcap.Topology.Build.{read_frame}
use netobserv_spcg.Pcap.Topology.Build.Returns.{
  IsReadable, read_frame-Returns, ips_from_ethernet-Returns, flow_ips-Returns,
}
use netobserv_spcg.Pcap.Analytics.{
  PacketAnalytics, no_analytics, Analysis, read_segment, read_sample, add_all_samples, add_sample,
  analyze_events, bucket_index, empty_analysis, finish_analysis, top_sni,
}
use netobserv_spcg.Pcap.Analytics.Decode.{parse_icmp, parse_tls_sni, parse_dns, parse_dns_response}
use netobserv_spcg.Pcap.Analytics.Decode.Icmp.{IsBareIcmp6, parse_icmp-eq-none_iff}
use netobserv_spcg.Pcap.Analytics.Decode.Safety.{parse_dns-Returns, parse_tls_sni-Returns}
use netobserv_spcg.Pcap.Analytics.Peers.{IpOps}
use netobserv_spcg.Pcap.Analytics.Totals.{finish_analysis_totals}

-- A readable event whose frame is not stripped to an Ethernet frame with an ICMPv6 header alone.
pub record IsAnalyzable (ev : FlowEvent FlowMeta) : Type 0 where
  pub readable : IsReadable ev
  pub no_bare : (raw : Bytes) → ethernet_payload ev.frame ≡ some raw → IsBareIcmp6 raw → ⊥

abbrev pub AreAnalyzable : List (FlowEvent FlowMeta) → Type 0
AreAnalyzable [] = Unit
AreAnalyzable (ev ∷ events) = IsAnalyzable ev × AreAnalyzable events

parse_icmp-Returns :
    (raw : Bytes) → length raw < u32_mod → (IsBareIcmp6 raw → ⊥) → Returns (parse_icmp raw)
parse_icmp-Returns raw small no_bare = elim (Option-cases (parse_icmp raw)) [
  | inl e ↦ absurd (no_bare ((parse_icmp-eq-none_iff raw small).0 e))
  | inr found ↦ found
]

parse_dns_response-Returns : (raw : Bytes) → length raw < u32_mod → Returns (parse_dns_response raw)
unfolding parse_dns_response
parse_dns_response-Returns raw small =
    bind-Returns (parse_dns raw) _ (parse_dns-Returns raw small) λ m _. (_, refl)

module _ (fmt : Formats) where
  read_segment-Returns :
      (frame : Bytes) (fs : FrameSummary)
      → length frame < u32_mod
      → Returns (read_segment fmt frame fs)
  unfolding read_segment
  read_segment-Returns frame fs small =
      bind-Returns (ips_from_ethernet fmt frame) _ (ips_from_ethernet-Returns fmt frame small)
        λ ips _.
          if-Returns (is_empty ips.0 || (is_empty ips.1 || fs.src_port == 0)) _ _ (λ _. (_, refl))
            (λ _. (_, refl))

  read_sample-Returns : (ev : FlowEvent FlowMeta) → IsAnalyzable ev → Returns (read_sample fmt ev)
  unfolding read_sample
  read_sample-Returns ev ok =
      let small = ok.readable.small in
      let (raw, stripped, shorter) = ethernet_payload-Within ev.frame small in
      let less : length raw < u32_mod = omega (arith, small) in
      bind-Returns (ethernet_payload ev.frame) _ (raw, stripped)
        λ frame e.
          let short : length frame < u32_mod =
            omega (arith, ap length (some-injective raw frame (sym stripped ∙ e)), less) in
          bind-Returns (read_frame fmt ev) _ (read_frame-Returns fmt ev ok.readable) λ fs _.
            bind-Returns (flow_ips fmt ev) _ (flow_ips-Returns fmt ev small) λ ips _.
              bind-Returns (if str_eq fs.proto "TCP" then read_segment fmt frame fs else some none)
                _
                (if-Returns (str_eq fs.proto "TCP") _ _ (λ _. read_segment-Returns frame fs short)
                  (λ _. (_, refl)))
                λ segment _.
                  bind-Returns (parse_icmp frame) _
                    (parse_icmp-Returns frame short (ok.no_bare frame e))
                    λ icmp_type _.
                      bind-Returns (parse_tls_sni frame) _ (parse_tls_sni-Returns frame short)
                        λ host _.
                          bind-Returns (parse_dns_response frame) _
                            (parse_dns_response-Returns frame short) λ answer _. (_, refl)

  add_all_samples-Returns :
      (ops : IpOps) (first : ℕ) (events : List (FlowEvent FlowMeta)) (a : Analysis)
      → AreAnalyzable events
      → Returns (add_all_samples fmt ops first events a)
  unfolding add_all_samples
  add_all_samples-Returns ops first [] a ok = (a, refl)
  add_all_samples-Returns ops first (ev ∷ events) a ok =
      bind-Returns (read_sample fmt ev) _ (read_sample-Returns ev ok.0) λ s _.
        add_all_samples-Returns ops first events (add_sample ops (bucket_index first ev.time) s a)
          ok.1

-- If no event's frame is 4 GiB long, a cut DNS datagram or a bare ICMPv6 header, `AnalyzeEvents`
-- returns: the packets of its time buckets add up to the number of events, no bucket has more than
-- the peak, and at most eight hosts are listed.
pub analyze_events_totals :
    (fmt : Formats) (ops : IpOps) (events : List (FlowEvent FlowMeta))
    → AreAnalyzable events
    → (out : PacketAnalytics) × (analyze_events fmt ops events ≡ some out)
      × (sum_by (λ b. b.packets) out.time_buckets ≡ length events)
      × All (λ b. b.packets ≤ out.peak_bucket_packets) out.time_buckets
      × (length out.tls_sni ≤ 8)
unfolding analyze_events finish_analysis top_sni
analyze_events_totals fmt ops [] ok = (no_analytics, refl, refl, tt, omega arith)
analyze_events_totals fmt ops (ev ∷ events) ok =
    let (a, e) = add_all_samples-Returns fmt ops ev.time (ev ∷ events) empty_analysis ok in
    let (sum, peak) = finish_analysis_totals fmt ops ev.time (ev ∷ events) a e in
    (finish_analysis a, rw e refl, sum, peak, length-take-le _ _)
