-- ===== src/Pcap/FlowGraph.antt =====
-- internal/pcap/flowgraph.go: the flows between workloads as a graph and as the text of a diagram. Go
-- ranges over its maps in an order that it leaves open; here it is the order of insertion.
pub mod Counted
use Prim.Native.Char.{Char, code}
use Prim.Native.String.{char_at}
use netobserv_spcg.Common.{
  ℕ, ◌+◌, String, String-discrete, str_eq, is_empty, Bool, true, false, not, ◌&&◌, ◌||◌, List, [],
  ◌∷◌, Option, some, none, map, ltb, leb, ◌==◌, if◌then◌else◌, length, ◌>>=◌,
}
use netobserv_spcg.Common.Maps.{Map, lookup, insert}
use netobserv_spcg.Common.Sets.{IdSet, has, add}
use netobserv_spcg.Common.Text.{◌+++◌, decimal}
use netobserv_spcg.Pcap.Frame.{FrameSummary, ethernet_payload, summarize_frame}
use netobserv_spcg.Pcap.Meta.{FlowMeta, Formats, JsonValue, text}
use netobserv_spcg.Pcap.Session.{TrackedPod, FlowEvent}
use netobserv_spcg.Pcap.Topology.{TopologyNode}
use netobserv_spcg.Pcap.Topology.Build.{EdgeKey, EdgeKey-discrete}
use netobserv_spcg.Pcap.Topology.Nodes.{is_node, resolve_flow_endpoints}

pub record FlowEdge : Type 0 where
  pub from : String
  pub to : String
  pub proto : String
  pub src_port : ℕ
  pub dst_port : ℕ
  pub count : ℕ

pub record FlowGraph : Type 0 where
  pub nodes : List String
  pub edges : List FlowEdge
  pub mermaid : String

-- `nodeSet` and `counts` of `BuildFlowGraph`.
pub record Flows : Type 0 where
  pub node_set : IdSet
  pub counts : Map EdgeKey FlowEdge

abbrev flow_or_new : String → String → FrameSummary → Option FlowEdge → FlowEdge
flow_or_new from to fs none = record {
  from = from;
  to = to;
  proto = fs.proto;
  src_port = fs.src_port;
  dst_port = fs.dst_port;
  count = 0;
}
flow_or_new from to fs (some e) = e

unfoldable pub count_flow : String → String → FrameSummary → Flows → Flows
count_flow from to fs flows =
    let key : EdgeKey = (from, to) in
    let e = flow_or_new from to fs (lookup EdgeKey-discrete key flows.counts) in
    let proto = if is_empty fs.proto then e.proto else fs.proto in
    record {
      node_set = add to (add from flows.node_set);
      counts =
          insert EdgeKey-discrete key (record e { count = e.count + 1; proto = proto })
            flows.counts;
    }

-- A character of an identifier in the diagram.
abbrev id_char : Char → Char
id_char c =
    if (leb b'a' (code c) && leb (code c) b'z')
      || ((leb b'A' (code c) && leb (code c) b'Z') || (leb b'0' (code c) && leb (code c) b'9'))
    then c
    else char_at "_" 0

unfoldable pub map_id : String → String
map_id String.[] = String.[]
map_id (String.◌∷◌ c s) = String.◌∷◌ (id_char c) (map_id s)

unfoldable pub diagram_id : String → String
diagram_id s = let out = map_id s in if is_empty out then "node" else out

-- The declaration of a node, the first time that its identifier is met.
unfoldable pub declare_node : String → String → String × IdSet → String × IdSet
declare_node id label (out, seen) =
    if has id seen
    then (out, seen)
    else (out +++ ("  " +++ (id +++ ("[\"" +++ (label +++ "\"]\n")))), add id seen)

unfoldable pub edge_label : FlowEdge → String
edge_label e =
    let port = decimal e.dst_port in
    let named =
      if ltb 0 e.dst_port
      then (if is_empty e.proto then port else e.proto +++ (":" +++ port))
      else e.proto in
    if is_empty named
    then decimal e.count +++ " pkts"
    else named +++ (" (" +++ (decimal e.count +++ ")"))

unfoldable pub write_edges : List FlowEdge → String × IdSet → String
write_edges [] (out, seen) = out
write_edges (e ∷ edges) (out, seen) =
    let fid = diagram_id e.from in
    let tid = diagram_id e.to in
    let declared = declare_node tid e.to (declare_node fid e.from (out, seen)) in
    let arrow = "  " +++ (fid +++ (" -->|" +++ (edge_label e +++ ("| " +++ (tid +++ "\n"))))) in
    write_edges edges (declared.0 +++ arrow, declared.1)

-- `mermaidFromEdges`.
unfoldable pub mermaid_from_edges : List FlowEdge → String
mermaid_from_edges [] = "flowchart LR\n  idle[No K8s-enriched flows yet]\n"
mermaid_from_edges (e ∷ edges) = write_edges (e ∷ edges) ("flowchart LR\n", [])

abbrev flow_graph_of : Flows → FlowGraph
flow_graph_of flows =
    let edges = map (λ entry. entry.1) flows.counts in
    record {
      nodes = map (λ entry. entry.0) flows.node_set;
      edges = edges;
      mermaid = mermaid_from_edges edges;
    }

-- `v, _ := meta[k].(string)`.
abbrev text_or_nothing : Option JsonValue → String
text_or_nothing (some (text s)) = s
text_or_nothing _ = ""

-- `endpointLabel`; nil metadata reads like empty metadata.
unfoldable pub endpoint_label : FlowMeta → Bool → String → String
endpoint_label meta src fallback =
    let prefix = if src then "Src" else "Dst" in
    let ns = text_or_nothing (lookup String-discrete (prefix +++ "K8S_Namespace") meta) in
    let name = text_or_nothing (lookup String-discrete (prefix +++ "K8S_Name") meta) in
    let owner = text_or_nothing (lookup String-discrete (prefix +++ "K8S_OwnerName") meta) in
    let kind = text_or_nothing (lookup String-discrete (prefix +++ "K8S_OwnerType") meta) in
    if not (is_empty ns) && not (is_empty name)
    then ns +++ ("/" +++ name)
    else if not (is_empty ns) && (not (is_empty kind) && not (is_empty owner))
    then ns +++ ("/" +++ (kind +++ ("/" +++ owner)))
    else fallback

module _ (fmt : Formats) where
  abbrev count_between : FrameSummary → TopologyNode × TopologyNode → Flows → Flows
  count_between fs (from, to) flows =
      if is_node from && is_node to then count_flow from.id to.id fs flows else flows

  unfoldable pub count_all : List TrackedPod → List (FlowEvent FlowMeta) → Flows → Option Flows
  count_all tracked [] flows = some flows
  count_all tracked (ev ∷ events) flows = do
    raw ← ethernet_payload ev.frame
    fs ← summarize_frame raw
    ends ← resolve_flow_endpoints fmt ev tracked
    count_all tracked events (count_between fs ends flows)

  -- `BuildFlowGraph`.
  unfoldable pub build_flow_graph : List (FlowEvent FlowMeta) → List TrackedPod → Option FlowGraph
  build_flow_graph events tracked = do
    flows ← count_all tracked events (record { node_set = []; counts = [] })
    some (flow_graph_of flows)
