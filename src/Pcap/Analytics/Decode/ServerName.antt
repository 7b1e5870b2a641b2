-- ===== src/Pcap/Analytics/Decode/ServerName.antt =====
-- `parseSNIName` of internal/pcap/analytics.go on the server_name extension of RFC 6066.
use netobserv_spcg.Common.{
  ℕ, ◌+◌, ◌/◌, ◌%◌, ◌≤◌, ◌<◌, ◌≡◌, refl, inl, inr, true, false, [], ◌∷◌, some, ltb, leb, ◌==◌,
  length, at, at-Returns, slice_from, arith, Bool-cases, ltb-false, lt→ltb, le→ltb-false,
}
use netobserv_spcg.Pcap.Bytes.{Bytes}
use netobserv_spcg.Pcap.Frame.{dns_labels, parse_dns_query}
use netobserv_spcg.Pcap.Analytics.Decode.{parse_sni_name}

-- The body of the extension for one host name: the length of the list, the type host_name, the
-- length of the name and the name.
pub server_name : Bytes → Bytes
server_name host =
    (length host + 3) / 256
    ∷ (length host + 3) % 256
    ∷ 0
    ∷ length host / 256
    ∷ length host % 256
    ∷ host

-- A label length above 63 ends the query parser with no name.
parse_dns_query_long_label :
    (payload : Bytes) (l : ℕ)
    → at payload 12 ≡ some l
    → 63 < l
    → 12 < length payload
    → parse_dns_query payload ≡ some []
unfolding parse_dns_query dns_labels
parse_dns_query_long_label (p ∷ payload) l e big long =
    let t1 : ltb (length (p ∷ payload)) 13 ≡ false = le→ltb-false _ _ (omega arith) in
    let t2 : ltb 12 (length (p ∷ payload)) ≡ true = lt→ltb _ _ long in
    let t3 : (l == 0) ≡ false = ground arith in
    let t4 : ltb 63 l ≡ true = lt→ltb _ _ big in rw (t1, t2, e, t3, t4) refl
parse_dns_query_long_label [] l e big long = absurd (omega arith)

parse_dns_query_short : (b : Bytes) → ltb (length b) 13 ≡ true → parse_dns_query b ≡ some []
unfolding parse_dns_query
parse_dns_query_short b h = rw h refl

-- Of the extension of a host name of at most 252 bytes, `parseSNIName` reads no name if the name is
-- shorter than ten bytes or its tenth byte is above 63, as every letter is.
pub parse_sni_name-server_name :
    (host : Bytes)
    → length host ≤ 252
    → ((c : ℕ) → at host 9 ≡ some c → 63 < c)
    → parse_sni_name (server_name host) ≡ some []
unfolding parse_sni_name server_name slice_from
parse_sni_name-server_name host short letter =
    let body = 0 ∷ length host / 256 ∷ length host % 256 ∷ host in
    let t1 : ltb (length (server_name host)) 3 ≡ false = le→ltb-false _ _ (omega arith) in
    let t2 : (length host + 3) / 256 ≡ 0 = omega arith in
    let t3 : leb 2 (length (server_name host)) ≡ true = ground arith in
    let none_read : parse_dns_query body ≡ some [] = elim (Bool-cases (ltb (length body) 13)) [
      | inl few ↦ parse_dns_query_short body few
      | inr many ↦
          let more = ltb-false (length body) 13 many in
          let (c, e) = at-Returns host 9 (omega arith) in
          parse_dns_query_long_label body c e (letter c e) (omega arith)
    ] in
    rw (t1, t2, t3, none_read) refl
