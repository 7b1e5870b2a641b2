-- ===== src/Pcap/Analytics/Peers.antt =====
-- `ClassifyPeerIP` of internal/pcap/analytics.go. Go's `net.ParseIP` and the methods of an address
-- are operations; `To4` gives the four bytes of an IPv4 address.
use netobserv_spcg.Common.{
  ℕ, ◌+◌, ◌*◌, ◌/◌, ◌≤◌, ◌<◌, ◌≡◌, ◌↔◌, ◌⊎◌, inl, inr, refl, Bool, true, false, ◌&&◌, ◌||◌, Option,
  some, none, String, ◌==◌, if◌then◌else◌, arith, Bool-cases, or_left,
}
use netobserv_spcg.Common.Text.{contains_text}
use netobserv_spcg.Pcap.Bytes.{Bytes}

-- What the code takes from Go's `net`.
pub record IpOps : Type 0 where
  pub parse_ip : String → Option Bytes
  pub is_loopback : Bytes → Bool
  pub is_link_local_unicast : Bytes → Bool
  pub is_link_local_multicast : Bytes → Bool
  pub is_private : Bytes → Bool
  pub to4 : Bytes → Option (ℕ × ℕ × ℕ × ℕ)

abbrev pub Ipv4 : Type 0
Ipv4 = ℕ × ℕ × ℕ × ℕ

-- The class of an IPv4 address; `v4[1] & 0xf0 == 16` is a test of the upper four bits.
unfoldable pub classify_v4 : Ipv4 → String
classify_v4 (a, b, c, d) =
    if a == 10 && b == 96
    then "k8s_service"
    else if a == 10 || (a == 172 && b / 16 == 1 || a == 192 && b == 168)
    then "k8s_pod"
    else "external"

module _ (ops : IpOps) where
  abbrev classify_v6 : Bytes → Option Ipv4 → String
  classify_v6 ip (some v4) = classify_v4 v4
  classify_v6 ip none = if ops.is_private ip then "k8s_pod" else "external"

  abbrev classify_parsed : String → Option Bytes → String
  classify_parsed text none =
      if contains_text text ".svc.cluster.local" || contains_text text "cluster.local"
      then "cluster_dns"
      else "unknown"
  classify_parsed text (some ip) =
      if ops.is_loopback ip
      then "loopback"
      else if ops.is_link_local_unicast ip || ops.is_link_local_multicast ip
      then "link_local"
      else classify_v6 ip (ops.to4 ip)

  -- `ClassifyPeerIP`.
  unfoldable pub classify_peer_ip : String → String
  classify_peer_ip ip = classify_parsed ip (ops.parse_ip ip)

abbrev pub IsByte : ℕ → Type 0
IsByte b = b < 256

abbrev pub AreBytes : Ipv4 → Type 0
AreBytes (a, b, c, d) = IsByte a × IsByte b × IsByte c × IsByte d

-- An address as a number.
abbrev pub as_number : Ipv4 → ℕ
as_number (a, b, c, d) = a * 16777216 + b * 65536 + c * 256 + d

-- 10.0.0.0/8, 172.16.0.0/12 and 192.168.0.0/16 as intervals, and 10.96.0.0/16 without the rest.
abbrev pub IsPrivateNumber : ℕ → Type 0
IsPrivateNumber n =
    ((167772160 ≤ n) × (n ≤ 184549375))
    ⊎ (((2886729728 ≤ n) × (n ≤ 2887778303)) ⊎ ((3232235520 ≤ n) × (n ≤ 3232301055)))

abbrev private_test : Ipv4 → Bool
private_test (a, b, c, d) = a == 10 || (a == 172 && b / 16 == 1 || a == 192 && b == 168)

false≢true : true ≡ false → ⊥
false≢true e = cc

private_test-IsPrivateNumber :
    (v4 : Ipv4) → AreBytes v4 → private_test v4 ≡ true → IsPrivateNumber (as_number v4)
private_test-IsPrivateNumber (a, b, c, d) (ha, hb, hc, hd) t = ground arith

private_test-false :
    (v4 : Ipv4) → AreBytes v4 → private_test v4 ≡ false → IsPrivateNumber (as_number v4) → ⊥
private_test-false (a, b, c, d) (ha, hb, hc, hd) t h = elim h [
  | inl (lo, hi) ↦ let e : a ≡ 10 = omega arith in absurd (false≢true (rw e at t))
  | inr (inl (lo, hi)) ↦
      let e : a ≡ 172 = omega arith in
      let e' : b / 16 ≡ 1 = omega arith in absurd (false≢true (rw (e, e') at t))
  | inr (inr (lo, hi)) ↦
      let e : a ≡ 192 = omega arith in
      let e' : b ≡ 168 = omega arith in absurd (false≢true (rw (e, e') at t))
]

not_external : (v4 : Ipv4) → private_test v4 ≡ true → classify_v4 v4 ≡ "external" → ⊥
unfolding classify_v4
not_external (a, b, c, d) t e = elim (Bool-cases (a == 10 && b == 96)) [
  | inl s ↦ cc (rw s at e)
  | inr s ↦ cc (rw (s, t) at e)
]

external : (v4 : Ipv4) → private_test v4 ≡ false → classify_v4 v4 ≡ "external"
unfolding classify_v4
external (a, b, c, d) t = let ne : (a == 10) ≡ false = or_left (a == 10) _ t in rw (t, ne) refl

-- Of four bytes, the class is neither pod nor service exactly if the address lies outside the three
-- private intervals of RFC 1918.
pub classify_v4_iff :
    (v4 : Ipv4) → AreBytes v4 → (classify_v4 v4 ≡ "external") ↔ (IsPrivateNumber (as_number v4) → ⊥)
unfolding classify_v4
classify_v4_iff (a, b, c, d) bytes = elim (Bool-cases (private_test (a, b, c, d))) [
  | inl t ↦ (
    (λ e. absurd (not_external (a, b, c, d) t e)),
    λ out. absurd (out (private_test-IsPrivateNumber (a, b, c, d) bytes t)),
  )
  | inr t ↦ ((λ e. private_test-false (a, b, c, d) bytes t), λ out. external (a, b, c, d) t)
]
