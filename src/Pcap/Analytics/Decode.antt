-- ===== src/Pcap/Analytics/Decode.antt =====
-- The decoders of internal/pcap/analytics.go: ICMP, DNS answers and the server name of a TLS hello.
-- `none` is a run-time panic, and where a loop has fuel, also that the fuel ran out.
pub mod Safety
pub mod Icmp
pub mod ServerName
use netobserv_spcg.Common.{
  ℕ, zero, suc, ◌+◌, ◌*◌, ◌/◌, ◌%◌, Bool, true, false, not, ◌&&◌, ◌||◌, List, [], ◌∷◌, Option, some,
  none, String, ltb, leb, ◌==◌, if◌then◌else◌, length, at, slice, slice_from, ◌>>=◌,
}
use netobserv_spcg.Common.Text.{◌+++◌, decimal}
use netobserv_spcg.Pcap.Bytes.{Bytes, be_uint16, bit_set}
use netobserv_spcg.Pcap.Frame.{ethernet_payload, ipv4_type, ipv6_type, parse_dns_query}

abbrev pub icmpv6_name : ℕ → String
icmpv6_name typ =
    if typ == 128
    then "echo-request"
    else if typ == 129
    then "echo-reply"
    else "icmpv6-type-" +++ decimal typ

-- `parseICMPv6`. The type is read behind the 40 bytes that the guard asks for.
unfoldable pub parse_icmpv6 : Bytes → Option String
parse_icmpv6 l3 = if ltb (length l3) 40 then some "" else (do
  b0 ← at l3 0
  b6 ← at l3 6
  if not (b0 / 16 == 6) || not (b6 == 58)
      then some ""
      else (do typ ← at l3 40; some (icmpv6_name typ)))

unfoldable pub icmp_name : Bytes → ℕ → ℕ → Option String
icmp_name l3 ihl typ =
    if typ == 0
    then some "echo-reply"
    else if typ == 3
    then (if ltb (ihl + 3) (length l3)
        then (do code ← at l3 (ihl + 3); some ("unreachable(code=" +++ (decimal code +++ ")")))
        else some "unreachable")
    else if typ == 8
    then some "echo-request"
    else if typ == 11
    then some "time-exceeded"
    else some ("type-" +++ decimal typ)

-- The end of `parseICMP`, on an IPv4 packet.
unfoldable pub icmpv4 : Bytes → Option String
icmpv4 l3 = if ltb (length l3) 20 then some "" else (do
  b0 ← at l3 0
  if not (b0 / 16 == 4) then some "" else (do
    b9 ← at l3 9
    if not (b9 == 1) || ltb (length l3) (b0 % 16 * 4 + 4)
        then some ""
        else (do typ ← at l3 (b0 % 16 * 4); icmp_name l3 (b0 % 16 * 4) typ)))

-- `parseICMP`.
unfoldable pub parse_icmp : Bytes → Option String
parse_icmp raw = do
  frame ← ethernet_payload raw
  if ltb (length frame) 14 then some "" else (do
    eth_type ← (slice frame 12 14 >>= be_uint16)
    if not (eth_type == ipv4_type)
        then (if eth_type == ipv6_type && leb 54 (length frame)
            then (do l3 ← slice_from frame 14; parse_icmpv6 l3)
            else some "")
        else (do l3 ← slice_from frame 14; icmpv4 l3))

-- `dnsRcode`.
unfoldable pub dns_rcode : ℕ → String
dns_rcode flags =
    let rc = flags % 16 in
    if rc == 0
    then "NOERROR"
    else if rc == 1
    then "FORMERR"
    else if rc == 2
    then "SERVFAIL"
    else if rc == 3
    then "NXDOMAIN"
    else if rc == 4
    then "NOTIMP"
    else if rc == 5
    then "REFUSED"
    else "RCODE" +++ decimal rc

-- What `parseDNS` returns: the name, the response code and whether it is a response.
pub record DnsMessage : Type 0 where
  pub qname : Bytes
  pub rcode : String
  pub is_response : Bool

abbrev pub no_message : DnsMessage
no_message = record { qname = []; rcode = ""; is_response = false }

unfoldable pub dns_message : Bytes → Option DnsMessage
dns_message dns = do
  flags ← (slice dns 2 4 >>= be_uint16)
  if bit_set flags 15
      then some (record { qname = []; rcode = dns_rcode flags; is_response = true })
      else (do
        rest ← slice_from dns 12
        name ← parse_dns_query rest
        some (record { qname = name; rcode = dns_rcode flags; is_response = false }))

-- `parseDNS`.
unfoldable pub parse_dns : Bytes → Option DnsMessage
parse_dns raw = do
  frame ← ethernet_payload raw
  if ltb (length frame) 14 then some no_message else (do
    eth_type ← (slice frame 12 14 >>= be_uint16)
    if not (eth_type == ipv4_type) then some no_message else (do
      l3 ← slice_from frame 14
      if ltb (length l3) 20 then some no_message else (do
        b9 ← at l3 9
        b0 ← at l3 0
        if not (b9 == 17) || ltb (length frame) (14 + b0 % 16 * 4 + 8 + 12)
            then some no_message
            else (do dns ← slice_from frame (14 + b0 % 16 * 4 + 8); dns_message dns))))

-- `parseDNSResponse`.
unfoldable pub parse_dns_response : Bytes → Option (String × Bool)
parse_dns_response frame = do m ← parse_dns frame; some (m.rcode, m.is_response)

-- The data of a TCP segment behind its header; `some none` is an early return.
unfoldable pub tcp_data : Bytes → ℕ → Option (Option Bytes)
tcp_data frame tcp_off = if ltb (length frame) (tcp_off + 20) then some none else (do
  b ← at frame (tcp_off + 12)
  if leb (length frame) (tcp_off + b / 16 % 16 * 4 + 5)
      then some none
      else (do payload ← slice_from frame (tcp_off + b / 16 % 16 * 4); some (some payload)))

unfoldable pub tls_payload : Bytes → Option (Option Bytes)
tls_payload raw = do
  frame ← ethernet_payload raw
  if ltb (length frame) 14 then some none else (do
    eth_type ← (slice frame 12 14 >>= be_uint16)
    if not (eth_type == ipv4_type) then some none else (do
      l3 ← slice_from frame 14
      if ltb (length l3) 20 then some none else (do
        b9 ← at l3 9
        b0 ← at l3 0
        if not (b9 == 6) then some none else tcp_data frame (14 + b0 % 16 * 4))))

-- Where the extensions of the hello begin and end, behind the cipher suites.
unfoldable pub after_ciphers : Bytes → ℕ → Option (Option (ℕ × ℕ))
after_ciphers payload at_comp = if ltb (length payload) (at_comp + 1) then some none else (do
  comp_len ← at payload at_comp
  let pos = at_comp + 1 + comp_len
  if ltb (length payload) (pos + 2) then some none else (do
    ext_len ← (slice payload pos (pos + 2) >>= be_uint16)
    some (some (pos + 2, pos + 2 + ext_len))))

unfoldable pub after_session : Bytes → ℕ → Option (Option (ℕ × ℕ))
after_session payload pos = if ltb (length payload) (pos + 2) then some none else (do
  cipher_len ← (slice payload pos (pos + 2) >>= be_uint16)
  after_ciphers payload (pos + 2 + cipher_len))

unfoldable pub client_hello : Bytes → Option (Option (ℕ × ℕ))
client_hello payload = if ltb (length payload) 5 then some none else (do
  b0 ← at payload 0
  if not (b0 == 0x16) || ltb (length payload) 9 then some none else (do
    b5 ← at payload 5
    if not (b5 == 1) || leb (length payload) 43
        then some none
        else (do sess_len ← at payload 43; after_session payload (44 + sess_len))))

-- `parseSNIName`.
unfoldable pub parse_sni_name : Bytes → Option Bytes
parse_sni_name b = if ltb (length b) 3 then some [] else (do
  b0 ← at b 0
  if not (b0 == 0) then some [] else (do rest ← slice_from b 2; parse_dns_query rest))

-- The loop of `parseTLSSNI` over the extensions.
unfoldable pub find_server_name : ℕ → Bytes → ℕ → ℕ → Option Bytes
find_server_name zero payload pos end = none
find_server_name (suc fuel) payload pos end =
    if leb (pos + 4) end && leb (pos + 4) (length payload)
    then (do
      typ ← (slice payload pos (pos + 2) >>= be_uint16)
      ln ← (slice payload (pos + 2) (pos + 4) >>= be_uint16)
      let next = find_server_name fuel payload (pos + 4 + ln) end
      if ltb (length payload) (pos + 4 + ln)
          then some []
          else if typ == 0
          then (do b ← slice payload (pos + 4) (pos + 4 + ln); parse_sni_name b)
          else next)
    else some []

abbrev extensions_name : Bytes → Option (ℕ × ℕ) → Option Bytes
extensions_name payload none = some []
extensions_name payload (some (pos, end)) = find_server_name (suc (length payload)) payload pos end

abbrev payload_name : Option Bytes → Option Bytes
payload_name none = some []
payload_name (some payload) = client_hello payload >>= extensions_name payload

-- `parseTLSSNI`.
unfoldable pub parse_tls_sni : Bytes → Option Bytes
parse_tls_sni raw = tls_payload raw >>= payload_name
