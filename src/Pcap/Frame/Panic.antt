-- ===== src/Pcap/Frame/Panic.antt =====
-- When `summarizeFrame` of internal/pcap/frameparse.go panics.
use netobserv_spcg.Common.{
  ◌≢◌, ◌∙◌, ℕ_discrete, leb-false, ℕ, ◌+◌, ◌≤◌, ◌<◌, ◌≡◌, ◌↔◌, inl, inr, refl, sym, ap, true, false,
  not, ◌&&◌, ◌||◌, Option, some, none, ltb, leb, ◌==◌, if◌then◌else◌, length, at, slice, slice_from,
  ◌>>=◌, Returns, at-Returns, slice-Returns, slice_from-Returns, if-Returns, bind-Returns,
  bind-eq-none, if-eq-none, length-slice, arith, leb→le, ltb-false, none≢some, Bool-cases,
}
use netobserv_spcg.Pcap.Bytes.{Bytes, be_uint16, field-Returns, be_uint16-Returns}
use netobserv_spcg.Pcap.Frame.{
  FrameSummary, ipv4_type, ipv6_type, ip_header, hex16, be16, parse_dns_query, transport_fields,
  summarize_payload,
}
use netobserv_spcg.Pcap.Frame.Safety.{hex16-Returns, ip_header-Returns, parse_dns_query-Returns}

be16-eq-be_uint16 : (b : Bytes) → be16 b ≡ be_uint16 b
unfolding be16 be_uint16
be16-eq-be_uint16 b = refl

port-Returns :
    (b : Bytes) (lo hi : ℕ) → hi ≡ lo + 2 → hi ≤ length b → Returns (slice b lo hi >>= be16)
port-Returns b lo hi e h =
    bind-Returns (slice b lo hi) be16 (slice-Returns b lo hi (omega arith) h) λ c e'.
      rw (be16-eq-be_uint16 c) (be_uint16-Returns c (omega (arith, length-slice b lo hi e')))

-- A stripped frame whose port-53 UDP datagram ends inside the 8-byte UDP header.
pub record IsCutDatagram (b : Bytes) : Type 0 where
  pub eth_type : ℕ
  pub l3 : Bytes
  pub off : ℕ
  pub src : ℕ
  pub dst : ℕ
  pub long : 14 ≤ length b
  pub typed : (slice b 12 14 >>= be_uint16) ≡ some eth_type
  pub known : (not (eth_type == ipv4_type) && not (eth_type == ipv6_type)) ≡ false
  pub network : slice_from b 14 ≡ some l3
  pub is_udp : ip_header eth_type l3 ≡ some (some (17, off))
  pub has_ports : off + 4 ≤ length b
  pub source : (slice b off (off + 2) >>= be16) ≡ some src
  pub target : (slice b (off + 2) (off + 4) >>= be16) ≡ some dst
  pub is_dns : (dst == 53 || src == 53) ≡ true
  pub cut : length b < off + 8

-- On a frame with such a datagram the slice `b[off+8:]` is out of range.
cut_panics : (b : Bytes) → IsCutDatagram b → summarize_payload b ≡ none
unfolding summarize_payload transport_fields slice_from
cut_panics b c =
    let (name, named) = hex16-Returns c.eth_type in
    let t1 : ltb (length b) 14 ≡ false = ground arith in
    let t2 : ltb (length b) (c.off + 4) ≡ false = ground arith in
    let t3 : leb (c.off + 8) (length b) ≡ false = ground arith in
    rw (t1, c.typed, named, c.known, c.network, c.is_udp, t2, c.source, c.target, c.is_dns, t3)

-- What a panic of the transport step tells.
record IsCutAt (b : Bytes) (proto off : ℕ) : Type 0 where
  is_udp : proto ≡ 17
  src : ℕ
  dst : ℕ
  source : (slice b off (off + 2) >>= be16) ≡ some src
  target : (slice b (off + 2) (off + 4) >>= be16) ≡ some dst
  is_dns : (dst == 53 || src == 53) ≡ true
  cut : length b < off + 8

tcp-Returns :
    (b : Bytes) (proto off : ℕ) (s : FrameSummary)
    → off + 4 ≤ length b
    → proto ≡ 6
    → Returns (transport_fields b proto off s)
unfolding transport_fields
tcp-Returns b proto off s ports e =
    let t : (proto == 6) ≡ true = ground arith in
    rw t (
      bind-Returns (slice b off (off + 2) >>= be16) _
        (port-Returns b off (off + 2) refl (omega arith))
        λ src _.
          bind-Returns (slice b (off + 2) (off + 4) >>= be16) _
            (port-Returns b (off + 2) (off + 4) (omega arith) ports)
            λ dst _.
              if-Returns (leb (off + 14) (length b)) _ _
                (λ h.
                  let long = leb→le (off + 14) (length b) h in
                  bind-Returns (at b (off + 13)) _ (at-Returns b (off + 13) (omega arith))
                    (λ _ _. (_, refl)))
                (λ _. (_, refl)))

udp_cut :
    (b : Bytes) (proto off : ℕ) (s : FrameSummary)
    → off + 4 ≤ length b
    → proto ≡ 17
    → transport_fields b proto off s ≡ none
    → IsCutAt b proto off
unfolding transport_fields
udp_cut b proto off s ports e h =
    let t6 : (proto == 6) ≡ false = ground arith in
    let t17 : (proto == 17) ≡ true = ground arith in
    let (src, source, h1) =
      bind-eq-none (slice b off (off + 2) >>= be16) _
        (port-Returns b off (off + 2) refl (omega arith)) (rw (t6, t17) at h) in
    let (dst, target, h2) =
      bind-eq-none (slice b (off + 2) (off + 4) >>= be16) _
        (port-Returns b (off + 2) (off + 4) (omega arith) ports) h1 in
    elim (if-eq-none (dst == 53 || src == 53) _ _ h2) [
      | inl (dns, h3) ↦ elim (Bool-cases (leb (off + 8) (length b))) [
        | inl fits ↦
            let (payload, _, h4) =
              bind-eq-none (slice_from b (off + 8)) _
                (slice_from-Returns b (off + 8) (leb→le (off + 8) (length b) fits)) h3 in
            let (query, _, h5) =
              bind-eq-none (parse_dns_query payload) _ (parse_dns_query-Returns payload) h4 in
            absurd (none≢some (sym h5))
        | inr short ↦ record {
          is_udp = e;
          src = src;
          dst = dst;
          source = source;
          target = target;
          is_dns = dns;
          cut = leb-false (off + 8) (length b) short;
        }
      ]
      | inr (_, h3) ↦ absurd (none≢some (sym h3))
    ]

other-Returns :
    (b : Bytes) (proto off : ℕ) (s : FrameSummary)
    → proto ≢ 6
    → proto ≢ 17
    → Returns (transport_fields b proto off s)
unfolding transport_fields
other-Returns b proto off s n6 n17 =
    let t6 : (proto == 6) ≡ false = ground arith in
    let t17 : (proto == 17) ≡ false = ground arith in
    rw (t6, t17)
      (if-Returns (proto == 1) _ _ (λ _. (_, refl))
        (λ _. if-Returns (proto == 58) _ _ (λ _. (_, refl)) (λ _. (_, refl))))

transport_cut :
    (b : Bytes) (proto off : ℕ) (s : FrameSummary)
    → off + 4 ≤ length b
    → transport_fields b proto off s ≡ none
    → IsCutAt b proto off
transport_cut b proto off s ports h = elim (ℕ_discrete proto 6) [
  | yes e ↦ absurd (none≢some (sym h ∙ (tcp-Returns b proto off s ports e).1))
  | no n6 ↦ elim (ℕ_discrete proto 17) [
    | yes e ↦ udp_cut b proto off s ports e h
    | no n17 ↦ absurd (none≢some (sym h ∙ (other-Returns b proto off s n6 n17).1))
  ]
]

-- Behind the IP header, only a cut port-53 datagram panics.
header_cut :
    (b : Bytes) (s : FrameSummary) (header : Option (ℕ × ℕ))
    → (elim header [
      | none ↦ some s
      | some (proto, off) ↦
          if ltb (length b) (off + 4) then some s else transport_fields b proto off s
    ])
      ≡ none
    → (proto off : ℕ) × (header ≡ some (proto, off)) × (off + 4 ≤ length b) × IsCutAt b proto off
header_cut b s none h = absurd (none≢some (sym h))
header_cut b s (some (proto, off)) h = elim (if-eq-none (ltb (length b) (off + 4)) _ _ h) [
  | inl (_, h1) ↦ absurd (none≢some (sym h1))
  | inr (ports, h1) ↦
      let fits = ltb-false (length b) (off + 4) ports in
      (proto, off, refl, fits, transport_cut b proto off s fits h1)
]

panics_cut : (b : Bytes) → summarize_payload b ≡ none → IsCutDatagram b
unfolding summarize_payload
panics_cut b h = elim (if-eq-none (ltb (length b) 14) _ _ h) [
  | inl (_, h1) ↦ absurd (none≢some (sym h1))
  | inr (long, h1) ↦
      let enough = ltb-false (length b) 14 long in
      let (eth_type, typed, h2) =
        bind-eq-none (slice b 12 14 >>= be_uint16) _ (field-Returns b 12 enough) h1 in
      let (name, _, h3) = bind-eq-none (hex16 eth_type) _ (hex16-Returns eth_type) h2 in
      elim (if-eq-none (not (eth_type == ipv4_type) && not (eth_type == ipv6_type)) _ _ h3) [
        | inl (_, h4) ↦ absurd (none≢some (sym h4))
        | inr (known, h4) ↦
            let (l3, network, h5) =
              bind-eq-none (slice_from b 14) _ (slice_from-Returns b 14 enough) h4 in
            let (header, read, h6) =
              bind-eq-none (ip_header eth_type l3) _ (ip_header-Returns eth_type l3) h5 in
            let (proto, off, e, fits, cut) = header_cut b _ header h6 in
            record {
              eth_type = eth_type;
              l3 = l3;
              off = off;
              src = cut.src;
              dst = cut.dst;
              long = enough;
              typed = typed;
              known = known;
              network = network;
              is_udp = read ∙ ap some (e ∙ ap (λ p. some (p, off)) cut.is_udp);
              has_ports = fits;
              source = cut.source;
              target = cut.target;
              is_dns = cut.is_dns;
              cut = cut.cut;
            }
      ]
]

-- On a stripped frame, `summarizeFrame` panics exactly if a port-53 UDP datagram of it ends inside
-- the 8-byte UDP header: on every other stripped frame, of any bytes and length, it returns.
pub summarize_payload-eq-none_iff : (b : Bytes) → (summarize_payload b ≡ none) ↔ IsCutDatagram b
summarize_payload-eq-none_iff b = (panics_cut b, cut_panics b)
