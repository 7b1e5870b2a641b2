-- ===== src/Pcap/Analytics/Decode/Safety.antt =====
-- The decoders of DNS answers and TLS hellos in internal/pcap/analytics.go never read out of range.
use netobserv_spcg.Common.{
  ℕ, zero, suc, ◌+◌, ◌*◌, ◌/◌, ◌%◌, ◌≤◌, ◌<◌, ◌≡◌, refl, not, ◌&&◌, ◌||◌, Option, some, none, ltb,
  leb, ◌==◌, length, at, slice, slice_from, if◌then◌else◌, ◌>>=◌, Returns, at-Returns,
  slice-Returns, slice_from-Returns, if-Returns, bind-Returns, length-slice_from, arith, leb→le,
  ltb-false, leb-false, and_right, or_right,
}
use netobserv_spcg.Pcap.Bytes.{Bytes, u32_mod, be_uint16, bit_set, field-Returns, field_at-Returns}
use netobserv_spcg.Pcap.Frame.{ethernet_payload, ipv4_type, parse_dns_query}
use netobserv_spcg.Pcap.Frame.Safety.{ethernet_payload-Returns, parse_dns_query-Returns}
use netobserv_spcg.Pcap.Analytics.Decode.{
  dns_message, parse_dns, tcp_data, tls_payload, after_ciphers, after_session, client_hello,
  parse_sni_name, find_server_name, extensions_name, payload_name, parse_tls_sni,
}

-- What follows the check for an IPv4 frame, given that the rest returns on an IP packet of 20 bytes.
pub ipv4-Returns {ℓ} :
    {A : Type ℓ} (frame : Bytes) (a b c : A) (other : Bytes → Option A)
    → ((l3 : Bytes) → length frame ≡ 14 + length l3 → 20 ≤ length l3 → Returns (other l3))
    → Returns (
        if ltb (length frame) 14
        then some a
        else ((slice frame 12 14 >>= be_uint16) >>= λ eth_type.
            if not (eth_type == ipv4_type)
            then some b
            else (slice_from frame 14 >>= λ l3. if ltb (length l3) 20 then some c else other l3)))
ipv4-Returns frame a b c other rest =
    if-Returns (ltb (length frame) 14) _ _ (λ _. (a, refl))
      λ h.
        let long = ltb-false (length frame) 14 h in
        bind-Returns (slice frame 12 14 >>= be_uint16) _ (field-Returns frame 12 (omega arith))
          λ eth_type _.
            if-Returns (not (eth_type == ipv4_type)) _ _ (λ _. (b, refl))
              λ _.
                bind-Returns (slice_from frame 14) _ (slice_from-Returns frame 14 (omega arith))
                  λ l3 e.
                    if-Returns (ltb (length l3) 20) _ _ (λ _. (c, refl))
                      λ k.
                        rest l3 (omega (arith, length-slice_from frame 14 e))
                          (ltb-false (length l3) 20 k)

dns_message-Returns : (dns : Bytes) → 12 ≤ length dns → Returns (dns_message dns)
unfolding dns_message
dns_message-Returns dns long =
    bind-Returns (slice dns 2 4 >>= be_uint16) _ (field-Returns dns 2 (omega arith)) λ flags _.
      if-Returns (bit_set flags 15) _ _ (λ _. (_, refl))
        λ _. bind-Returns (slice_from dns 12) _ (slice_from-Returns dns 12 (omega arith)) λ rest _.
          bind-Returns (parse_dns_query rest) _ (parse_dns_query-Returns rest) λ name _. (_, refl)

-- `parseDNS` returns on every frame shorter than 4 GiB.
pub parse_dns-Returns : (raw : Bytes) → length raw < u32_mod → Returns (parse_dns raw)
unfolding parse_dns
parse_dns-Returns raw small =
    bind-Returns (ethernet_payload raw) _ (ethernet_payload-Returns raw small) λ frame _.
      ipv4-Returns frame _ _ _ _ λ l3 e long.
        bind-Returns (at l3 9) _ (at-Returns l3 9 (omega arith)) λ b9 _.
          bind-Returns (at l3 0) _ (at-Returns l3 0 (omega arith)) λ b0 _.
            if-Returns (not (b9 == 17) || ltb (length frame) (14 + b0 % 16 * 4 + 8 + 12)) _ _
              (λ _. (_, refl))
              λ ok.
                let fits =
                  ltb-false (length frame) (14 + b0 % 16 * 4 + 8 + 12)
                    (or_right (not (b9 == 17)) _ ok) in
                bind-Returns (slice_from frame (14 + b0 % 16 * 4 + 8)) _
                  (slice_from-Returns frame _ (omega arith))
                  λ dns e'.
                    dns_message-Returns dns
                      (omega (arith, length-slice_from frame (14 + b0 % 16 * 4 + 8) e'))

tcp_data-Returns : (frame : Bytes) (off : ℕ) → Returns (tcp_data frame off)
unfolding tcp_data
tcp_data-Returns frame off =
    if-Returns (ltb (length frame) (off + 20)) _ _ (λ _. (none, refl))
      λ h.
        let long = ltb-false (length frame) (off + 20) h in
        bind-Returns (at frame (off + 12)) _ (at-Returns frame (off + 12) (omega arith)) λ b _.
          if-Returns (leb (length frame) (off + b / 16 % 16 * 4 + 5)) _ _ (λ _. (none, refl))
            λ k.
              let more = leb-false (length frame) (off + b / 16 % 16 * 4 + 5) k in
              bind-Returns (slice_from frame (off + b / 16 % 16 * 4)) _
                (slice_from-Returns frame _ (omega arith)) λ payload _. (_, refl)

tls_payload-Returns : (raw : Bytes) → length raw < u32_mod → Returns (tls_payload raw)
unfolding tls_payload
tls_payload-Returns raw small =
    bind-Returns (ethernet_payload raw) _ (ethernet_payload-Returns raw small) λ frame _.
      ipv4-Returns frame _ _ _ _ λ l3 e long.
        bind-Returns (at l3 9) _ (at-Returns l3 9 (omega arith)) λ b9 _.
          bind-Returns (at l3 0) _ (at-Returns l3 0 (omega arith)) λ b0 _.
            if-Returns (not (b9 == 6)) _ _ (λ _. (_, refl))
              (λ _. tcp_data-Returns frame (14 + b0 % 16 * 4))

after_ciphers-Returns : (payload : Bytes) (i : ℕ) → Returns (after_ciphers payload i)
unfolding after_ciphers
after_ciphers-Returns payload i =
    if-Returns (ltb (length payload) (i + 1)) _ _ (λ _. (none, refl))
      λ h.
        let long = ltb-false (length payload) (i + 1) h in
        bind-Returns (at payload i) _ (at-Returns payload i (omega arith)) λ comp_len _.
          if-Returns (ltb (length payload) (i + 1 + comp_len + 2)) _ _ (λ _. (none, refl))
            λ k.
              let more = ltb-false (length payload) (i + 1 + comp_len + 2) k in
              bind-Returns (slice payload (i + 1 + comp_len) (i + 1 + comp_len + 2) >>= be_uint16) _
                (field-Returns payload (i + 1 + comp_len) more) λ ext_len _. (_, refl)

after_session-Returns : (payload : Bytes) (i : ℕ) → Returns (after_session payload i)
unfolding after_session
after_session-Returns payload i =
    if-Returns (ltb (length payload) (i + 2)) _ _ (λ _. (none, refl))
      λ h.
        bind-Returns (slice payload i (i + 2) >>= be_uint16) _
          (field-Returns payload i (ltb-false (length payload) (i + 2) h))
          λ cipher_len _. after_ciphers-Returns payload (i + 2 + cipher_len)

client_hello-Returns : (payload : Bytes) → Returns (client_hello payload)
unfolding client_hello
client_hello-Returns payload =
    if-Returns (ltb (length payload) 5) _ _ (λ _. (none, refl))
      λ h.
        let long = ltb-false (length payload) 5 h in
        bind-Returns (at payload 0) _ (at-Returns payload 0 (omega arith)) λ b0 _.
          if-Returns (not (b0 == 0x16) || ltb (length payload) 9) _ _ (λ _. (none, refl))
            λ ok.
              let long' = ltb-false (length payload) 9 (or_right (not (b0 == 0x16)) _ ok) in
              bind-Returns (at payload 5) _ (at-Returns payload 5 (omega arith)) λ b5 _.
                if-Returns (not (b5 == 1) || leb (length payload) 43) _ _ (λ _. (none, refl))
                  λ ok'.
                    let long'' = leb-false (length payload) 43 (or_right (not (b5 == 1)) _ ok') in
                    bind-Returns (at payload 43) _ (at-Returns payload 43 long'')
                      λ sess_len _. after_session-Returns payload (44 + sess_len)

pub parse_sni_name-Returns : (b : Bytes) → Returns (parse_sni_name b)
unfolding parse_sni_name
parse_sni_name-Returns b =
    if-Returns (ltb (length b) 3) _ _ (λ _. (_, refl))
      λ h.
        let long = ltb-false (length b) 3 h in
        bind-Returns (at b 0) _ (at-Returns b 0 (omega arith)) λ b0 _.
          if-Returns (not (b0 == 0)) _ _ (λ _. (_, refl))
            λ _.
              bind-Returns (slice_from b 2) _ (slice_from-Returns b 2 (omega arith))
                λ rest _. parse_dns_query-Returns rest

-- Every round of the loop over the extensions moves on by at least four bytes.
find_server_name-Returns :
    (fuel : ℕ) (payload : Bytes) (i stop : ℕ)
    → 1 ≤ fuel
    → length payload < i + fuel
    → Returns (find_server_name fuel payload i stop)
unfolding find_server_name
find_server_name-Returns zero payload i stop some_fuel h = absurd (omega arith)
find_server_name-Returns (suc fuel) payload i stop some_fuel h =
    if-Returns (leb (i + 4) stop && leb (i + 4) (length payload)) _ _
      (λ ok.
        let within = leb→le (i + 4) (length payload) (and_right (leb (i + 4) stop) _ ok) in
        bind-Returns (slice payload i (i + 2) >>= be_uint16) _
          (field-Returns payload i (omega arith))
          λ typ _.
            bind-Returns (slice payload (i + 2) (i + 4) >>= be_uint16) _
              (field_at-Returns payload (i + 2) (i + 4) (omega arith) within)
              λ ln _.
                if-Returns (ltb (length payload) (i + 4 + ln)) _ _ (λ _. (_, refl))
                  λ k.
                    let fits = ltb-false (length payload) (i + 4 + ln) k in
                    if-Returns (typ == 0) _ _
                      (λ _.
                        bind-Returns (slice payload (i + 4) (i + 4 + ln)) _
                          (slice-Returns payload (i + 4) (i + 4 + ln) (omega arith) fits)
                          λ b _. parse_sni_name-Returns b)
                      (λ _.
                        find_server_name-Returns fuel payload (i + 4 + ln) stop (omega arith)
                          (omega arith)))
      (λ _. (_, refl))

extensions_name-Returns :
    (payload : Bytes) (o : Option (ℕ × ℕ)) → Returns (extensions_name payload o)
extensions_name-Returns payload none = (_, refl)
extensions_name-Returns payload (some (i, stop)) =
    find_server_name-Returns (suc (length payload)) payload i stop (omega arith) (omega arith)

payload_name-Returns : (o : Option Bytes) → Returns (payload_name o)
payload_name-Returns none = (_, refl)
payload_name-Returns (some payload) =
    bind-Returns (client_hello payload) _ (client_hello-Returns payload)
      λ o _. extensions_name-Returns payload o

-- `parseTLSSNI` returns on every frame shorter than 4 GiB: no index or slice of it is out of range,
-- and its loop over the extensions ends.
pub parse_tls_sni-Returns : (raw : Bytes) → length raw < u32_mod → Returns (parse_tls_sni raw)
unfolding parse_tls_sni
parse_tls_sni-Returns raw small =
    bind-Returns (tls_payload raw) _ (tls_payload-Returns raw small) λ o _. payload_name-Returns o
