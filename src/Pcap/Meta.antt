-- ===== src/Pcap/Meta.antt =====
-- The metadata of a flow in internal/pcap/topology.go: what `json.Unmarshal` gives for an object,
-- and the functions that read it. How Go prints a value that is no text, and an address of 16
-- bytes, is taken as an operation. Numbers of another Go type than float64 do not come from JSON.
use netobserv_spcg.Common.{
  ℕ, ◌-◌, ◌*◌, ◌/◌, ◌^◌, String, String-discrete, is_empty, Bool, List, [], ◌∷◌, Option, some, none,
  ltb, ◌==◌, if◌then◌else◌, length, ◌>>=◌,
}
use netobserv_spcg.Common.Int64.{ℤ, pos, negsuc, positive_part}
use netobserv_spcg.Common.Maps.{Map, lookup}
use netobserv_spcg.Common.Text.{split_on}
use netobserv_spcg.Pcap.Bytes.{Bytes}
use netobserv_spcg.Pcap.Frame.{ethernet_payload}

-- A float64: plus or minus `digits * 2 ^ up / 2 ^ down`.
pub record Float64 : Type 0 where
  pub negative : Bool
  pub digits : ℕ
  pub up : ℕ
  pub down : ℕ

mutual
  pub data JsonValue : Type 0 where
    null : JsonValue
    boolean : Bool → JsonValue
    number : Float64 → JsonValue
    text : String → JsonValue
    array : JsonList → JsonValue
    object : JsonFields → JsonValue

  pub data JsonList : Type 0 where
    end : JsonList
    item : JsonValue → JsonList → JsonList

  pub data JsonFields : Type 0 where
    no_fields : JsonFields
    field : String → JsonValue → JsonFields → JsonFields

-- Absent metadata, a nil map, reads like an empty one.
abbrev pub FlowMeta : Type 0
FlowMeta = Map String JsonValue

-- What the code takes from Go's `fmt` and `net`: `fmt.Sprint` and `net.IP.String`.
pub record Formats : Type 0 where
  pub sprint : JsonValue → String
  pub ip_text : Bytes → String

-- `int64(t)` of a float64: rounded towards zero. Out of range, Go leaves the result to the
-- machine; this is that of amd64.
unfoldable pub int64_of : Float64 → ℤ
int64_of x =
    let size = x.digits * 2 ^ x.up / 2 ^ x.down in
    if ltb (2 ^ 63 - 1) size
    then negsuc (2 ^ 63 - 1)
    else if x.negative
    then (if size == 0 then pos 0 else negsuc (size - 1))
    else pos size

abbrev int_in : Option JsonValue → ℤ
int_in (some (number x)) = int64_of x
int_in _ = pos 0

-- `flowInt64`.
unfoldable pub flow_int64 : FlowMeta → String → ℤ
flow_int64 m k = int_in (lookup String-discrete k m)

-- `flowUint`: no negative number.
unfoldable pub flow_uint : FlowMeta → String → ℕ
flow_uint m k = positive_part (flow_int64 m k)

module _ (fmt : Formats) where
  abbrev string_in : Option JsonValue → String
  string_in none = ""
  string_in (some null) = ""
  string_in (some (text s)) = s
  string_in (some v) = fmt.sprint v

  -- `flowString`.
  unfoldable pub flow_string : FlowMeta → String → String
  flow_string m k = string_in (lookup String-discrete k m)

  unfoldable pub sprint_all : JsonList → List String
  sprint_all end = []
  sprint_all (item v vs) = fmt.sprint v ∷ sprint_all vs

  abbrev flags_in : Option JsonValue → List String
  flags_in (some (array vs)) = sprint_all vs
  flags_in (some (text s)) = if is_empty s then [] else split_on b',' s
  flags_in _ = []

  -- `tcpFlagsFromMeta`; nil is the empty list.
  unfoldable pub tcp_flags_from_meta : FlowMeta → List String
  tcp_flags_from_meta m = flags_in (lookup String-discrete "Flags" m)

-- `flowCounters`: the bytes and packets that an event stands for.
unfoldable pub flow_counters : FlowMeta → Bytes → Option (ℕ × ℕ)
flow_counters m frame =
    let bytes = positive_part (flow_int64 m "Bytes") in
    let packets = positive_part (flow_int64 m "Packets") in
    let packets' = if packets == 0 then 1 else packets in
    if bytes == 0
    then (do raw ← ethernet_payload frame; some (length raw, packets'))
    else some (bytes, packets')
