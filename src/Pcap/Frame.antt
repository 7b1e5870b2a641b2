-- ===== src/Pcap/Frame.antt =====
-- internal/pcap/frameparse.go and icmp.go: the decoder of captured Ethernet frames. `none` is a
-- run-time panic of the Go code, and where a loop has fuel, also that the fuel ran out.
pub mod Safety
pub mod Panic
pub mod Within
pub mod Dns
use netobserv_spcg.Common.{
  ℕ, zero, suc, ◌+◌, ◌-◌, ◌*◌, ◌/◌, ◌%◌, ◌^◌, Bool, true, false, not, ◌&&◌, ◌||◌, List, [], ◌∷◌,
  ◌++◌, Option, some, none, String, ltb, leb, ◌==◌, if◌then◌else◌, length, get_elem?, at, slice,
  slice_from, ◌>>=◌,
}
use netobserv_spcg.Pcap.Bytes.{Bytes, u32_mod, be_uint16, le_uint32, bit_set}

-- The fields of `FrameSummary`; texts that the code builds from bytes are byte lists.
pub record FrameSummary : Type 0 where
  pub length : ℕ
  pub ether_type : Bytes
  pub proto : String
  pub src_port : ℕ
  pub dst_port : ℕ
  pub tcp_flags : List String
  pub dns_query : Bytes

abbrev pub ipv4_type : ℕ
ipv4_type = 0x0800

abbrev pub ipv6_type : ℕ
ipv6_type = 0x86dd

-- Strips the optional 16-byte record header. `16 + capLen` is computed in `uint32`.
unfoldable pub ethernet_payload : Bytes → Option Bytes
ethernet_payload frame = if leb (length frame) 16 then some frame else (do
  header ← slice frame 8 12
  cap_len ← le_uint32 header
  b12 ← at frame 12
  b13 ← at frame 13
  if ltb 0 cap_len && leb (cap_len + 16) (length frame)
      then slice frame 16 ((16 + cap_len) % u32_mod)
      else if ltb 16 (length frame) && (b12 == 0 && b13 == 0)
      then slice_from frame 16
      else some frame)

-- The length and version checks on an IPv4 or IPv6 header. `some none` is an early return;
-- otherwise the protocol and the offset of the transport header in the frame.
unfoldable pub ip_header : ℕ → Bytes → Option (Option (ℕ × ℕ))
ip_header eth_type l3 =
    if eth_type == ipv4_type
    then (if ltb (length l3) 20 then some none else (do
      b0 ← at l3 0
      if not (b0 / 16 == 4)
          then some none
          else (let ihl = b0 % 16 * 4 in
              if ltb (length l3) (ihl + 4)
              then some none
              else (do proto ← at l3 9; some (some (proto, 14 + ihl))))))
    else if ltb (length l3) 40
    then some none
    else (do
      b0 ← at l3 0
      if not (b0 / 16 == 6) then some none else (do proto ← at l3 6; some (some (proto, 14 + 40))))

abbrev hex_digits : List ℕ
hex_digits =
    b'0' ∷ b'1' ∷ b'2' ∷ b'3' ∷ b'4' ∷ b'5' ∷ b'6' ∷ b'7' ∷ b'8' ∷ b'9' ∷ b'a' ∷ b'b' ∷ b'c' ∷ b'd'
    ∷ b'e' ∷ b'f' ∷ []

-- `"0x"` and four digits. Each index is below 16, so the table is never missed.
unfoldable pub hex16 : ℕ → Option Bytes
hex16 v = do
  d3 ← at hex_digits (v / 2 ^ 12 % 16)
  d2 ← at hex_digits (v / 2 ^ 8 % 16)
  d1 ← at hex_digits (v / 2 ^ 4 % 16)
  d0 ← at hex_digits (v % 16)
  some (b'0' ∷ b'x' ∷ d3 ∷ d2 ∷ d1 ∷ d0 ∷ [])

abbrev flag_if : Bool → String → List String → List String
flag_if true s out = s ∷ out
flag_if false s out = out

unfoldable pub parse_tcp_flags_byte : ℕ → List String
parse_tcp_flags_byte flags = flag_if (bit_set flags 1) "SYN" (
    flag_if (bit_set flags 4) "ACK" (
      flag_if (bit_set flags 0) "FIN"
        (flag_if (bit_set flags 2) "RST" (flag_if (bit_set flags 3) "PSH" []))))

-- The helper `be16`.
unfoldable pub be16 : Bytes → Option ℕ
be16 b = do b0 ← at b 0; b1 ← at b 1; some (b0 * 256 + b1)

-- The loop of `parseDNSQuery` over QNAME labels. `some none` is the early `return ""`.
unfoldable pub dns_labels : ℕ → Bytes → ℕ → List Bytes → Option (Option (List Bytes))
dns_labels zero payload i labels = none
dns_labels (suc fuel) payload i labels =
    if ltb i (length payload)
    then (do
      l ← at payload i
      let next = (do
        label ← slice payload (i + 1) (i + 1 + l)
        dns_labels fuel payload (i + 1 + l) (labels ++ (label ∷ [])))
      if l == 0
          then some (some labels)
          else if ltb 63 l || ltb (length payload) (i + 1 + l)
          then some none
          else next)
    else some (some labels)

-- `for j, lb := range labels { if j > 0 { name += "." }; name += lb }`.
unfoldable pub join_labels : List Bytes → Bytes
join_labels [] = []
join_labels (l ∷ []) = l
join_labels (l ∷ l' ∷ ls) = l ++ (b'.' ∷ join_labels (l' ∷ ls))

unfoldable pub parse_dns_query : Bytes → Option Bytes
parse_dns_query payload = if ltb (length payload) 13 then some [] else (do
  found ← dns_labels (length payload) payload 12 []
  elim found [ none ↦ some [] | some labels ↦ some (join_labels labels) ])

-- The `switch proto` of `summarizeFrame`, with the ports, flags and DNS name that it reads.
unfoldable pub transport_fields : Bytes → ℕ → ℕ → FrameSummary → Option FrameSummary
transport_fields b proto off s =
    if proto == 6
    then (do
      src ← (slice b off (off + 2) >>= be16)
      dst ← (slice b (off + 2) (off + 4) >>= be16)
      let t = record s { proto = "TCP"; src_port = src; dst_port = dst }
      if leb (off + 14) (length b)
          then (do
            flags ← at b (off + 13)
            some (record t { tcp_flags = parse_tcp_flags_byte flags }))
          else some t)
    else if proto == 17
    then (do
      src ← (slice b off (off + 2) >>= be16)
      dst ← (slice b (off + 2) (off + 4) >>= be16)
      let t = record s { proto = "UDP"; src_port = src; dst_port = dst }
      if dst == 53 || src == 53
          then (do
            payload ← slice_from b (off + 8)
            query ← parse_dns_query payload
            some (record t { dns_query = query }))
          else some t)
    else if proto == 1
    then some (record s { proto = "ICMP" })
    else if proto == 58
    then some (record s { proto = "ICMPv6" })
    else some s

abbrev pub bare_summary : ℕ → FrameSummary
bare_summary n = record {
  length = n;
  ether_type = [];
  proto = "";
  src_port = 0;
  dst_port = 0;
  tcp_flags = [];
  dns_query = [];
}

-- `summarizeFrame` on the stripped frame.
unfoldable pub summarize_payload : Bytes → Option FrameSummary
summarize_payload b = if ltb (length b) 14 then some (bare_summary (length b)) else (do
  eth_type ← (slice b 12 14 >>= be_uint16)
  name ← hex16 eth_type
  let s = record (bare_summary (length b)) { ether_type = name }
  if not (eth_type == ipv4_type) && not (eth_type == ipv6_type) then some s else (do
    l3 ← slice_from b 14
    header ← ip_header eth_type l3
    elim header [
      | none ↦ some s
      | some (proto, off) ↦
          if ltb (length b) (off + 4) then some s else transport_fields b proto off s
    ]))

unfoldable pub summarize_frame : Bytes → Option FrameSummary
summarize_frame frame = ethernet_payload frame >>= summarize_payload

-- `parseTCPFlags`.
unfoldable pub parse_tcp_flags : Bytes → Option (List String)
parse_tcp_flags raw = do
  frame ← ethernet_payload raw
  if ltb (length frame) 34 then some [] else (do
    eth_type ← (slice frame 12 14 >>= be_uint16)
    if not (eth_type == ipv4_type) then some [] else (do
      b14 ← at frame 14
      b23 ← at frame 23
      let ihl = b14 % 16 * 4
      if not (b23 == 6) || ltb (length frame) (14 + ihl + 14)
          then some []
          else (do flags ← at frame (14 + ihl + 13); some (parse_tcp_flags_byte flags))))

-- The end of `ICMPIdentifier`, behind an IPv4 header of `ihl` bytes.
unfoldable pub icmp_echo_id : Bytes → ℕ → Option (Option ℕ)
icmp_echo_id l3 ihl = if ltb (length l3) (ihl + 8) then some none else (do
  typ ← at l3 ihl
  if not (typ == 8) && not (typ == 0)
      then some none
      else (do id ← (slice l3 (ihl + 4) (ihl + 6) >>= be_uint16); some (some id)))

-- `ICMPIdentifier` of icmp.go; the inner `none` is the result `0, false`.
unfoldable pub icmp_identifier : Bytes → Option (Option ℕ)
icmp_identifier raw = do
  frame ← ethernet_payload raw
  if ltb (length frame) 14 then some none else (do
    eth_type ← (slice frame 12 14 >>= be_uint16)
    if not (eth_type == ipv4_type) then some none else (do
      l3 ← slice_from frame 14
      if ltb (length l3) 28 then some none else (do
        b0 ← at l3 0
        b9 ← at l3 9
        if not (b0 / 16 == 4) || not (b9 == 1) then some none else icmp_echo_id l3 (b0 % 16 * 4))))
