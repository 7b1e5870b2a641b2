-- ===== src/Pcap/Analytics/Decode/Icmp.antt =====
-- When `parseICMP` of internal/pcap/analytics.go panics.
use netobserv_spcg.Common.{
  ℕ, ◌+◌, ◌*◌, ◌/◌, ◌%◌, ◌<◌, ◌≡◌, ◌↔◌, refl, sym, ap, ◌∙◌, inl, inr, not, ◌&&◌, ◌||◌, Bool, true,
  false, some, none, ltb, leb, ◌==◌, length, at, slice, slice_from, ◌>>=◌, Returns, at-Returns,
  slice_from-Returns, if-Returns, bind-Returns, bind-eq-none, if-eq-none, length-slice_from,
  get_elem?-eq-none, arith, ltb-false, and_left, or_left, or_right, none≢some, ==→eq, Bool-cases,
}
use netobserv_spcg.Pcap.Bytes.{Bytes, u32_mod, be_uint16, field-Returns}
use netobserv_spcg.Pcap.Frame.{ethernet_payload, ipv4_type, ipv6_type}
use netobserv_spcg.Pcap.Frame.Safety.{ethernet_payload-Returns}
use netobserv_spcg.Pcap.Analytics.Decode.{parse_icmpv6, icmp_name, icmpv4, parse_icmp}

icmp_name-Returns : (l3 : Bytes) (ihl typ : ℕ) → Returns (icmp_name l3 ihl typ)
unfolding icmp_name
icmp_name-Returns l3 ihl typ =
    if-Returns (typ == 0) _ _ (λ _. (_, refl))
      λ _.
        if-Returns (typ == 3) _ _
          (λ _.
            if-Returns (ltb (ihl + 3) (length l3)) _ _
              (λ h.
                bind-Returns (at l3 (ihl + 3)) _ (at-Returns l3 (ihl + 3) (ground arith))
                  λ code _. (_, refl))
              (λ _. (_, refl)))
          λ _.
            if-Returns (typ == 8) _ _ (λ _. (_, refl))
              λ _. if-Returns (typ == 11) _ _ (λ _. (_, refl)) (λ _. (_, refl))

icmpv4-Returns : (l3 : Bytes) → Returns (icmpv4 l3)
unfolding icmpv4
icmpv4-Returns l3 =
    if-Returns (ltb (length l3) 20) _ _ (λ _. (_, refl))
      λ h.
        let long = ltb-false (length l3) 20 h in
        bind-Returns (at l3 0) _ (at-Returns l3 0 (omega arith)) λ b0 _.
          if-Returns (not (b0 / 16 == 4)) _ _ (λ _. (_, refl))
            λ _. bind-Returns (at l3 9) _ (at-Returns l3 9 (omega arith)) λ b9 _.
              if-Returns (not (b9 == 1) || ltb (length l3) (b0 % 16 * 4 + 4)) _ _ (λ _. (_, refl))
                λ ok.
                  let fits =
                    ltb-false (length l3) (b0 % 16 * 4 + 4) (or_right (not (b9 == 1)) _ ok) in
                  bind-Returns (at l3 (b0 % 16 * 4)) _ (at-Returns l3 (b0 % 16 * 4) (omega arith))
                    λ typ _. icmp_name-Returns l3 (b0 % 16 * 4) typ

-- An IPv6 packet of its 40-byte header alone, which announces an ICMPv6 message.
pub record IsBareHeader (l3 : Bytes) : Type 0 where
  pub version : ℕ
  pub size : length l3 ≡ 40
  pub first : at l3 0 ≡ some version
  pub is_ipv6 : version / 16 ≡ 6
  pub next_header : at l3 6 ≡ some 58

not-not : (b : Bool) → not b ≡ false → b ≡ true
not-not true h = refl
not-not false h = sym h

parse_icmpv6-eq-none : (l3 : Bytes) → parse_icmpv6 l3 ≡ none → IsBareHeader l3
unfolding parse_icmpv6
parse_icmpv6-eq-none l3 e = elim (if-eq-none (ltb (length l3) 40) _ _ e) [
  | inl p ↦ absurd (none≢some (sym p.1))
  | inr (h, e1) ↦
      let long = ltb-false (length l3) 40 h in
      let (b0, g0, e2) = bind-eq-none (at l3 0) _ (at-Returns l3 0 (omega arith)) e1 in
      let (b6, g6, e3) = bind-eq-none (at l3 6) _ (at-Returns l3 6 (omega arith)) e2 in
      elim (if-eq-none (not (b0 / 16 == 6) || not (b6 == 58)) _ _ e3) [
        | inl p ↦ absurd (none≢some (sym p.1))
        | inr (ok, e4) ↦ elim (Bool-cases (ltb 40 (length l3))) [
          | inl more ↦
              let (typ, g) = at-Returns l3 40 (ground arith) in
              absurd (none≢some (sym (rw g at e4)))
          | inr short ↦ record {
            version = b0;
            size = ground arith;
            first = g0;
            is_ipv6 = ==→eq _ _ (not-not _ (or_left (not (b0 / 16 == 6)) _ ok));
            next_header =
                g6
                ∙ ap (λ n. some n)
                    (==→eq b6 58 (not-not _ (or_right (not (b0 / 16 == 6)) (not (b6 == 58)) ok)));
          }
        ]
      ]
]

bare_panics : (l3 : Bytes) → IsBareHeader l3 → parse_icmpv6 l3 ≡ none
unfolding parse_icmpv6
bare_panics l3 c =
    let missing : at l3 40 ≡ none = get_elem?-eq-none l3 40 (omega (arith, c.size)) in
    rw (c.size, c.first, c.is_ipv6, c.next_header, missing) refl

-- A stripped Ethernet frame of 54 bytes with such a packet.
pub record IsBareIcmp6 (raw : Bytes) : Type 0 where
  pub frame : Bytes
  pub l3 : Bytes
  pub stripped : ethernet_payload raw ≡ some frame
  pub typed : (slice frame 12 14 >>= be_uint16) ≡ some ipv6_type
  pub network : slice_from frame 14 ≡ some l3
  pub bare : IsBareHeader l3

-- `parseICMP` panics on a frame shorter than 4 GiB exactly if it is stripped to an Ethernet frame that ends behind an
-- IPv6 header whose next header is ICMPv6.
pub parse_icmp-eq-none_iff :
    (raw : Bytes) → length raw < u32_mod → (parse_icmp raw ≡ none) ↔ IsBareIcmp6 raw
unfolding parse_icmp
parse_icmp-eq-none_iff raw small = (to, from)
  where
    to : parse_icmp raw ≡ none → IsBareIcmp6 raw
    to e =
        let (frame, g, e1) =
          bind-eq-none (ethernet_payload raw) _ (ethernet_payload-Returns raw small) e in
        elim (if-eq-none (ltb (length frame) 14) _ _ e1) [
          | inl p ↦ absurd (none≢some (sym p.1))
          | inr (h, e2) ↦
              let long = ltb-false (length frame) 14 h in
              let (eth_type, g', e3) =
                bind-eq-none (slice frame 12 14 >>= be_uint16) _
                  (field-Returns frame 12 (omega arith)) e2 in
              elim (if-eq-none (not (eth_type == ipv4_type)) _ _ e3) [
                | inl (_, e4) ↦
                    elim (if-eq-none (eth_type == ipv6_type && leb 54 (length frame)) _ _ e4) [
                      | inl (v6, e5) ↦
                          let (l3, n, e6) =
                            bind-eq-none (slice_from frame 14) _
                              (slice_from-Returns frame 14 (omega arith)) e5 in
                          record {
                            frame = frame;
                            l3 = l3;
                            stripped = g;
                            typed =
                                g'
                                ∙ ap (λ n. some n)
                                    (==→eq eth_type ipv6_type
                                      (and_left _ (leb 54 (length frame)) v6));
                            network = n;
                            bare = parse_icmpv6-eq-none l3 e6;
                          }
                      | inr p ↦ absurd (none≢some (sym p.1))
                    ]
                | inr (_, e4) ↦
                    let (l3, n, e5) =
                      bind-eq-none (slice_from frame 14) _
                        (slice_from-Returns frame 14 (omega arith)) e4 in
                    let (name, r) = icmpv4-Returns l3 in absurd (none≢some (sym e5 ∙ r))
              ]
        ]

    from : IsBareIcmp6 raw → parse_icmp raw ≡ none
    from c =
        let size : length c.frame ≡ 54 =
          omega (arith, length-slice_from c.frame 14 c.network, c.bare.size) in
        rw (c.stripped, size, c.typed, c.network, bare_panics c.l3 c.bare) refl
