-- ===== src/Pcap/Topology/Build/Returns.antt =====
-- When the loop of `BuildFlowTopology` reads every event.
use netobserv_spcg.Common.{
  ◌<◌, ◌≡◌, refl, String, is_empty, true, false, not, ◌&&◌, ◌||◌, List, [], ◌∷◌, some, Option-cases,
  inl, inr, ltb, ◌==◌, length, ◌>>=◌, Returns, slice-Returns, slice_from-Returns, at-Returns,
  bind-Returns, if-Returns, at, slice, slice_from, length-slice_from, ltb-false, or_left, arith,
  ◌/◌,
}
use netobserv_spcg.Common.Int64.{positive_part}
use netobserv_spcg.Pcap.Bytes.{Bytes, u32_mod, be_uint16, field-Returns}
use netobserv_spcg.Pcap.Frame.{
  ethernet_payload, ipv4_type, ipv6_type, summarize_frame, summarize_payload,
}
use netobserv_spcg.Pcap.Frame.Panic.{IsCutDatagram, summarize_payload-eq-none_iff}
use netobserv_spcg.Pcap.Frame.Safety.{ethernet_payload-Returns, parse_tcp_flags-Returns}
use netobserv_spcg.Pcap.Frame.Within.{ethernet_payload-Within}
use netobserv_spcg.Pcap.Meta.{
  FlowMeta, Formats, flow_string, flow_counters, tcp_flags_from_meta, flow_int64,
}
use netobserv_spcg.Pcap.Session.{TrackedPod, FlowEvent}
use netobserv_spcg.Pcap.Topology.Nodes.{
  ips_from_ethernet, flow_ips, resolve_flow_endpoints, node_from_meta, is_node,
}
use netobserv_spcg.Pcap.Topology.Build.{
  Builder, read_frame, flags_or, read_flags, add_event, add_events,
}

-- The frame of the event is shorter than 4 GiB, and stripped it is no datagram to or from port 53
-- that ends inside its UDP header.
pub record IsReadable (ev : FlowEvent FlowMeta) : Type 0 where
  pub small : length ev.frame < u32_mod
  pub whole :
      (raw b : Bytes)
      → ethernet_payload ev.frame ≡ some raw
      → ethernet_payload raw ≡ some b
      → IsCutDatagram b
      → ⊥

module _ (fmt : Formats) where
  pub read_frame-Returns : (ev : FlowEvent FlowMeta) → IsReadable ev → Returns (read_frame fmt ev)
  unfolding read_frame summarize_frame
  read_frame-Returns ev ok =
      let (raw, e, short) = ethernet_payload-Within ev.frame ok.small in
      let (b, e') = ethernet_payload-Returns raw (omega (arith, ok.small)) in
      elim (Option-cases (summarize_payload b)) [
        | inl n ↦ absurd (ok.whole raw b e e' ((summarize_payload-eq-none_iff b).0 n))
        | inr (fs, s) ↦ rw (e, e', s) (_, refl)
      ]

  pub ips_from_ethernet-Returns :
      (raw : Bytes) → length raw < u32_mod → Returns (ips_from_ethernet fmt raw)
  unfolding ips_from_ethernet
  ips_from_ethernet-Returns raw small =
      bind-Returns (ethernet_payload raw) _ (ethernet_payload-Returns raw small) λ payload _.
        if-Returns (ltb (length payload) 34) _ _ (λ _. (_, refl))
          λ h.
            let long = ltb-false (length payload) 34 h in
            bind-Returns (slice payload 12 14 >>= be_uint16) _
              (field-Returns payload 12 (omega arith))
              λ eth_type _.
                bind-Returns (slice_from payload 14) _ (slice_from-Returns payload 14 (omega arith))
                  λ l3 e.
                    let size = length-slice_from payload 14 e in
                    bind-Returns (at l3 0) _ (at-Returns l3 0 (omega arith)) λ b0 _.
                      if-Returns (eth_type == ipv4_type) _ _
                        (λ _.
                          if-Returns (ltb (length l3) 20 || not (b0 / 16 == 4)) _ _ (λ _. (_, refl))
                            λ _.
                              bind-Returns (slice l3 12 16) _
                                (slice-Returns l3 12 16 (omega arith) (omega arith))
                                λ src _.
                                  bind-Returns (slice l3 16 20) _
                                    (slice-Returns l3 16 20 (omega arith) (omega arith))
                                    λ dst _. (_, refl))
                        λ _.
                          if-Returns (eth_type == ipv6_type) _ _
                            (λ _.
                              if-Returns (ltb (length l3) 40 || not (b0 / 16 == 6)) _ _
                                (λ _. (_, refl))
                                λ k.
                                  let long' = ltb-false (length l3) 40 (or_left _ _ k) in
                                  bind-Returns (slice l3 8 24) _
                                    (slice-Returns l3 8 24 (omega arith) (omega arith))
                                    λ src _.
                                      bind-Returns (slice l3 24 40) _
                                        (slice-Returns l3 24 40 (omega arith) (omega arith))
                                        λ dst _. (_, refl))
                            λ _. (_, refl)

  pub flow_ips-Returns :
      (ev : FlowEvent FlowMeta) → length ev.frame < u32_mod → Returns (flow_ips fmt ev)
  unfolding flow_ips
  flow_ips-Returns ev small =
      if-Returns
        (is_empty (flow_string fmt ev.flow_meta "SrcAddr")
          || is_empty (flow_string fmt ev.flow_meta "DstAddr"))
        _ _
        (λ _.
          let (raw, e, short) = ethernet_payload-Within ev.frame small in
          rw e (
            bind-Returns (ips_from_ethernet fmt raw) _
              (ips_from_ethernet-Returns raw (omega (arith, small))) λ ips _. (_, refl)))
        (λ _. (_, refl))

  pub resolve_flow_endpoints-Returns :
      (ev : FlowEvent FlowMeta) (tracked : List TrackedPod)
      → length ev.frame < u32_mod
      → Returns (resolve_flow_endpoints fmt ev tracked)
  unfolding resolve_flow_endpoints
  resolve_flow_endpoints-Returns ev tracked small =
      if-Returns
        (is_node (node_from_meta fmt ev.flow_meta true "")
          && is_node (node_from_meta fmt ev.flow_meta false ""))
        _ _ (λ _. (_, refl))
        λ _. bind-Returns (flow_ips fmt ev) _ (flow_ips-Returns ev small) λ ips _. (_, refl)

  flow_counters-Returns :
      (m : FlowMeta) (frame : Bytes) → length frame < u32_mod → Returns (flow_counters m frame)
  unfolding flow_counters
  flow_counters-Returns m frame small =
      let (raw, e) = ethernet_payload-Returns frame small in
      rw e (
        if-Returns (positive_part (flow_int64 m "Bytes") == 0) (some (_, _)) (some (_, _))
          (λ _. (_, refl)) (λ _. (_, refl)))

  flags_or-Returns :
      (a b : List String) (frame : Bytes)
      → length frame < u32_mod
      → Returns (flags_or fmt a b frame)
  flags_or-Returns (f ∷ a) b frame small = (_, refl)
  flags_or-Returns [] (f ∷ b) frame small = (_, refl)
  flags_or-Returns [] [] frame small =
      let (raw, e, short) = ethernet_payload-Within frame small in
      rw e (parse_tcp_flags-Returns raw (omega (arith, small)))

  add_event-Returns :
      (tracked : List TrackedPod) (ev : FlowEvent FlowMeta) (b : Builder)
      → IsReadable ev
      → Returns (add_event fmt tracked ev b)
  unfolding add_event read_flags
  add_event-Returns tracked ev b ok =
      bind-Returns (read_frame fmt ev) _ (read_frame-Returns ev ok) λ fs _.
        bind-Returns (resolve_flow_endpoints fmt ev tracked) _
          (resolve_flow_endpoints-Returns ev tracked ok.small)
          λ ends _.
            if-Returns (is_node ends.0 && is_node ends.1) _ _
              (λ _.
                bind-Returns (flow_counters ev.flow_meta ev.frame) _
                  (flow_counters-Returns ev.flow_meta ev.frame ok.small)
                  λ counters _.
                    bind-Returns (read_flags fmt ev fs) _
                      (flags_or-Returns (tcp_flags_from_meta fmt ev.flow_meta) fs.tcp_flags ev.frame
                        ok.small)
                      λ flags _. (_, refl))
              (λ _. (_, refl))

  abbrev pub AreReadable : List (FlowEvent FlowMeta) → Type 0
  AreReadable [] = Unit
  AreReadable (ev ∷ events) = IsReadable ev × AreReadable events

  pub add_events-Returns :
      (tracked : List TrackedPod) (events : List (FlowEvent FlowMeta)) (b : Builder)
      → AreReadable events
      → Returns (add_events fmt tracked events b)
  unfolding add_events
  add_events-Returns tracked [] b ok = (b, refl)
  add_events-Returns tracked (ev ∷ events) b ok =
      bind-Returns (add_event fmt tracked ev b) _ (add_event-Returns tracked ev b ok.0)
        λ b' _. add_events-Returns tracked events b' ok.1
