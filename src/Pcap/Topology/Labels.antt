-- ===== src/Pcap/Topology/Labels.antt =====
-- The texts of internal/pcap/topology.go: the phase and label of a packet, the health of an edge and
-- the plain words for a drop.
use netobserv_spcg.Common.{
  String, str_eq, is_empty, not, ◌&&◌, ◌||◌, List, [], ◌∷◌, map, ltb, if◌then◌else◌,
}
use netobserv_spcg.Common.Int64.{pos, ltb_ℤ}
use netobserv_spcg.Common.Text.{
  ◌+++◌, to_upper, trim_space, contains_text, join, decimal, is_one_of,
}
use netobserv_spcg.Pcap.Frame.{FrameSummary}
use netobserv_spcg.Pcap.Topology.{TopologyEdge}

-- `sequencePhase`.
unfoldable pub sequence_phase : List String → String
sequence_phase flags =
    let set = map to_upper flags in
    let syn = is_one_of "SYN" set in
    let ack = is_one_of "ACK" set in
    if is_one_of "RST" set || is_one_of "FIN" set
    then "close"
    else if syn && not ack
    then "start"
    else if syn && ack
    then "reply"
    else if is_one_of "PSH" set
    then "data"
    else if ack
    then "reply"
    else "data"

-- `sequenceLabel`.
unfoldable pub sequence_label : FrameSummary → List String → String → String
sequence_label fs flags phase =
    let joined = join "+" flags in
    let flag_str =
      if is_empty joined then (if is_empty fs.proto then "pkt" else fs.proto) else joined in
    let ports = ltb 0 fs.src_port && ltb 0 fs.dst_port in
    let port_hint =
      if ports then " :" +++ (decimal fs.src_port +++ ("→:" +++ decimal fs.dst_port)) else "" in
    let word =
      if str_eq phase "start"
      then "Start · "
      else if str_eq phase "reply"
      then "Reply · "
      else if str_eq phase "close"
      then "Close · "
      else "Data · " in
    word +++ (flag_str +++ port_hint)

-- `edgeHealth`.
unfoldable pub edge_health : TopologyEdge → String
edge_health e =
    if not (is_empty e.drop_cause) || contains_text (to_upper e.drop_diagnosis) "DROP"
    then "dropped"
    else if ltb_ℤ (pos 50000000) e.max_srtt_ns || ltb_ℤ (pos 25000000) e.srtt_ns
    then "degraded"
    else "healthy"

abbrev drop_rules : List (String × String)
drop_rules =
    ("NETFILTER", "Blocked by NetworkPolicy or iptables/netfilter rule")
    ∷ ("NETWORKPOLICY", "Blocked by Kubernetes NetworkPolicy")
    ∷ ("OVS", "Dropped in Open vSwitch bridge or overlay path")
    ∷ ("IPTABLES", "Dropped by host iptables/nftables rule")
    ∷ ("CONNTRACK", "Connection tracking table full or invalid state")
    ∷ ("TTL", "Packet expired (TTL/hop limit exceeded)")
    ∷ ("MTU", "Fragmentation or MTU mismatch on path")
    ∷ ("NO_SOCKET", "No listening socket on destination port")
    ∷ ("TCP_CLOSE", "Connection closed before delivery")
    ∷ ("SKB_DROP", "Kernel dropped packet in network stack")
    ∷ []

unfoldable pub first_rule : List (String × String) → String → String → String
first_rule [] c cause = "Kernel drop: " +++ cause
first_rule ((sub, msg) ∷ rules) c cause =
    let rest = first_rule rules c cause in if contains_text c sub then msg else rest

-- `DiagnoseDrop`.
unfoldable pub diagnose_drop : String → String
diagnose_drop cause =
    let c = to_upper (trim_space cause) in if is_empty c then "" else first_rule drop_rules c cause
