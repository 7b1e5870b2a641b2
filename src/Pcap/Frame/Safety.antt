-- ===== src/Pcap/Frame/Safety.antt =====
-- The decoder of internal/pcap/frameparse.go and icmp.go never reads out of range, but for one
-- path: a port-53 datagram that is cut inside its UDP header.
use netobserv_spcg.Common.{
  ℕ, zero, suc, ◌+◌, ◌*◌, ◌/◌, ◌%◌, ◌^◌, ◌≤◌, ◌<◌, ◌≡◌, refl, not, ◌&&◌, ◌||◌, List, [], ◌∷◌, ◌++◌,
  Option, some, none, ltb, leb, ◌==◌, length, at, slice, slice_from, ◌>>=◌, Returns, at-Returns,
  slice-Returns, slice_from-Returns, if-Returns, bind-Returns, length-slice, arith, leb→le,
  and_right, leb-false, or_right, ltb-false, ltb→lt,
}
use netobserv_spcg.Pcap.Bytes.{
  Bytes, u32_mod, be_uint16, le_uint32, le_uint32-Returns, be_uint16-Returns, field-Returns,
}
use netobserv_spcg.Pcap.Frame.{
  ipv4_type, hex_digits, join_labels, parse_tcp_flags_byte, ethernet_payload, ip_header, hex16,
  dns_labels, parse_dns_query, parse_tcp_flags, icmp_echo_id, icmp_identifier,
}

-- `ethernetPayload` returns for every frame shorter than 4 GiB: `16 + capLen` cannot wrap there.
pub ethernet_payload-Returns :
    (frame : Bytes) → length frame < u32_mod → Returns (ethernet_payload frame)
unfolding ethernet_payload
ethernet_payload-Returns frame small =
    if-Returns (leb (length frame) 16) _ _ (λ _. (frame, refl))
      λ h.
        let long : 16 < length frame = leb-false (length frame) 16 h in
        bind-Returns (slice frame 8 12) _ (slice-Returns frame 8 12 (omega arith) (omega arith))
          λ header e.
            bind-Returns (le_uint32 header) _
              (le_uint32-Returns header (omega (arith, length-slice frame 8 12 e)))
              λ cap_len _. bind-Returns (at frame 12) _ (at-Returns frame 12 (omega arith)) λ b12 _.
                bind-Returns (at frame 13) _ (at-Returns frame 13 (omega arith)) λ b13 _.
                  if-Returns (ltb 0 cap_len && leb (cap_len + 16) (length frame)) _ _
                    (λ fits.
                      let both =
                        and_right (ltb 0 cap_len) (leb (cap_len + 16) (length frame)) fits in
                      let within = leb→le (cap_len + 16) (length frame) both in
                      slice-Returns frame 16 ((16 + cap_len) % u32_mod) (omega arith) (omega arith))
                    λ _.
                      if-Returns (ltb 16 (length frame) && (b12 == 0 && b13 == 0)) _ _
                        (λ _. slice_from-Returns frame 16 (omega arith)) (λ _. (frame, refl))

-- `hex16` never misses its digit table.
pub hex16-Returns : (v : ℕ) → Returns (hex16 v)
unfolding hex16
hex16-Returns v =
    bind-Returns (at hex_digits (v / 2 ^ 12 % 16)) _ (at-Returns hex_digits _ (omega arith)) λ _ _.
      bind-Returns (at hex_digits (v / 2 ^ 8 % 16)) _ (at-Returns hex_digits _ (omega arith)) λ _ _.
        bind-Returns (at hex_digits (v / 2 ^ 4 % 16)) _ (at-Returns hex_digits _ (omega arith))
          λ _ _.
            bind-Returns (at hex_digits (v % 16)) _ (at-Returns hex_digits _ (omega arith))
              λ _ _. (_, refl)

-- The header checks guard every read of the IP header.
pub ip_header-Returns : (eth_type : ℕ) (l3 : Bytes) → Returns (ip_header eth_type l3)
unfolding ip_header
ip_header-Returns eth_type l3 =
    if-Returns (eth_type == ipv4_type) _ _
      (λ _.
        if-Returns (ltb (length l3) 20) _ _ (λ _. (none, refl))
          λ h.
            let long = ltb-false (length l3) 20 h in
            bind-Returns (at l3 0) _ (at-Returns l3 0 (omega arith)) λ b0 _.
              if-Returns (not (b0 / 16 == 4)) _ _ (λ _. (none, refl))
                λ _.
                  if-Returns (ltb (length l3) (b0 % 16 * 4 + 4)) _ _ (λ _. (none, refl))
                    λ _.
                      bind-Returns (at l3 9) _ (at-Returns l3 9 (omega arith)) (λ _ _. (_, refl)))
      λ _.
        if-Returns (ltb (length l3) 40) _ _ (λ _. (none, refl))
          λ h.
            let long = ltb-false (length l3) 40 h in
            bind-Returns (at l3 0) _ (at-Returns l3 0 (omega arith)) λ b0 _.
              if-Returns (not (b0 / 16 == 6)) _ _ (λ _. (none, refl))
                λ _. bind-Returns (at l3 6) _ (at-Returns l3 6 (omega arith)) (λ _ _. (_, refl))

-- The label loop ends and stays within the payload, given fuel for the bytes that are left.
pub dns_labels-Returns :
    (fuel : ℕ) (payload : Bytes) (i : ℕ) (labels : List Bytes)
    → i ≤ length payload
    → length payload < i + fuel
    → Returns (dns_labels fuel payload i labels)
unfolding dns_labels
dns_labels-Returns zero payload i labels inside h = absurd (omega arith)
dns_labels-Returns (suc fuel) payload i labels bound h =
    if-Returns (ltb i (length payload)) _ _
      (λ lt.
        let inside = ltb→lt i (length payload) lt in
        bind-Returns (at payload i) _ (at-Returns payload i inside) λ l _.
          if-Returns (l == 0) _ _ (λ _. (some labels, refl))
            λ _.
              if-Returns (ltb 63 l || ltb (length payload) (i + 1 + l)) _ _ (λ _. (none, refl))
                λ ok.
                  let right = or_right (ltb 63 l) (ltb (length payload) (i + 1 + l)) ok in
                  let fits = ltb-false (length payload) (i + 1 + l) right in
                  bind-Returns (slice payload (i + 1) (i + 1 + l)) _
                    (slice-Returns payload (i + 1) (i + 1 + l) (omega arith) fits)
                    λ label _.
                      dns_labels-Returns fuel payload (i + 1 + l) (labels ++ (label ∷ [])) fits
                        (omega arith))
      λ _. (some labels, refl)

-- `parseDNSQuery` returns on every payload: its loop ends, and no index or slice is out of range.
pub parse_dns_query-Returns : (payload : Bytes) → Returns (parse_dns_query payload)
unfolding parse_dns_query
parse_dns_query-Returns payload =
    if-Returns (ltb (length payload) 13) _ _ (λ _. ([], refl))
      λ h.
        let long = ltb-false (length payload) 13 h in
        bind-Returns (dns_labels (length payload) payload 12 []) _
          (dns_labels-Returns (length payload) payload 12 [] (omega arith) (omega arith)) found
  where
    found :
        (a : Option (List Bytes))
        → dns_labels (length payload) payload 12 [] ≡ some a
        → Returns (elim a [ none ↦ some [] | some labels ↦ some (join_labels labels) ])
    found none _ = ([], refl)
    found (some labels) _ = (join_labels labels, refl)

icmp_echo_id-Returns : (l3 : Bytes) (ihl : ℕ) → Returns (icmp_echo_id l3 ihl)
unfolding icmp_echo_id
icmp_echo_id-Returns l3 ihl =
    if-Returns (ltb (length l3) (ihl + 8)) _ _ (λ _. (none, refl))
      λ h.
        let long = ltb-false (length l3) (ihl + 8) h in
        bind-Returns (at l3 ihl) _ (at-Returns l3 ihl (omega arith)) λ typ _.
          if-Returns (not (typ == 8) && not (typ == 0)) _ _ (λ _. (none, refl))
            λ _.
              bind-Returns (slice l3 (ihl + 4) (ihl + 6) >>= be_uint16) _
                (bind-Returns (slice l3 (ihl + 4) (ihl + 6)) be_uint16
                  (slice-Returns l3 (ihl + 4) (ihl + 6) (omega arith) (omega arith))
                  λ c e. be_uint16-Returns c (omega (arith, length-slice l3 (ihl + 4) (ihl + 6) e)))
                λ id _. (some id, refl)

-- `ICMPIdentifier` returns on every frame shorter than 4 GiB, whatever bytes it holds.
pub icmp_identifier-Returns : (raw : Bytes) → length raw < u32_mod → Returns (icmp_identifier raw)
unfolding icmp_identifier
icmp_identifier-Returns raw small =
    bind-Returns (ethernet_payload raw) _ (ethernet_payload-Returns raw small) λ frame _.
      if-Returns (ltb (length frame) 14) _ _ (λ _. (none, refl))
        λ h.
          let long = ltb-false (length frame) 14 h in
          bind-Returns (slice frame 12 14 >>= be_uint16) _ (field-Returns frame 12 (omega arith))
            λ eth_type _.
              if-Returns (not (eth_type == ipv4_type)) _ _ (λ _. (none, refl))
                λ _.
                  bind-Returns (slice_from frame 14) _ (slice_from-Returns frame 14 (omega arith))
                    λ l3 _.
                      if-Returns (ltb (length l3) 28) _ _ (λ _. (none, refl))
                        λ h'.
                          let long' = ltb-false (length l3) 28 h' in
                          bind-Returns (at l3 0) _ (at-Returns l3 0 (omega arith)) λ b0 _.
                            bind-Returns (at l3 9) _ (at-Returns l3 9 (omega arith)) λ b9 _.
                              if-Returns (not (b0 / 16 == 4) || not (b9 == 1)) _ _
                                (λ _. (none, refl)) (λ _. icmp_echo_id-Returns l3 (b0 % 16 * 4))

-- `parseTCPFlags` returns on every frame shorter than 4 GiB.
pub parse_tcp_flags-Returns : (raw : Bytes) → length raw < u32_mod → Returns (parse_tcp_flags raw)
unfolding parse_tcp_flags
parse_tcp_flags-Returns raw small =
    bind-Returns (ethernet_payload raw) _ (ethernet_payload-Returns raw small) λ frame _.
      if-Returns (ltb (length frame) 34) _ _ (λ _. ([], refl))
        λ h.
          let long = ltb-false (length frame) 34 h in
          bind-Returns (slice frame 12 14 >>= be_uint16) _ (field-Returns frame 12 (omega arith))
            λ eth_type _.
              if-Returns (not (eth_type == ipv4_type)) _ _ (λ _. ([], refl))
                λ _. bind-Returns (at frame 14) _ (at-Returns frame 14 (omega arith)) λ b14 _.
                  bind-Returns (at frame 23) _ (at-Returns frame 23 (omega arith)) λ b23 _.
                    let off = 14 + b14 % 16 * 4 in
                    if-Returns (not (b23 == 6) || ltb (length frame) (off + 14)) _ _
                      (λ _. ([], refl))
                      λ ok.
                        let right = or_right (not (b23 == 6)) (ltb (length frame) (off + 14)) ok in
                        let fits = ltb-false (length frame) (off + 14) right in
                        bind-Returns (at frame (off + 13)) _
                          (at-Returns frame (off + 13) (omega arith))
                          λ flags _. (parse_tcp_flags_byte flags, refl)
