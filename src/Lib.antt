-- ===== src/Lib.antt =====
-- Network observability for a cluster: packets are captured from pods, kept per capture session,
-- written as PCAP-NG files and summarised for the user interface; a trace shows the path between
-- two endpoints as a graph, and a probe verifies that path hop by hop. The portal keeps which
-- signed-in session owns which capture.
--
-- The files and the code they are about:
-- - Common: list, option, string and map helpers, with Go's `strings` functions on native texts
--   (Common/Text) and `int64` with its wrap-around (Common/Int64). A Go map with string keys is
--   an association list in the order of insertion; a read out of range, which panics in Go, is
--   `none` (Common/Partial).
-- - Pcap/Bytes, Pcap/Frame: internal/pcap/frameparse.go and icmp.go, byte by byte.
--   `ethernetPayload` is ethernet_payload, `summarizeFrame` is summarize_frame, which strips the
--   frame and calls summarize_payload, `parseDNSQuery` is parse_dns_query, `ICMPIdentifier` is
--   icmp_identifier. Frame/Safety and Frame/Panic say which of them can panic, Frame/Dns
--   compares the query parser with the wire format.
-- - Pcap/PcapNg: internal/pcap/pcapng.go, with a reader of the format (PcapNg/Reader) written
--   from the format and not from the code, which checks the section header, the interface and
--   each packet block.
-- - Pcap/Session: internal/pcap/session.go, `AppendFlow` with its limits of 1500 events and 400
--   frames. The uploader and the parser of flow metadata are operations that the definitions
--   take, and the clock is an argument. Session/Window compares the buffers with the history of
--   calls, in terms of the end of a list (Session/Last), Session/Export has the counters,
--   listings and exports.
-- - Pcap/Meta: the metadata of a flow as decoded JSON, and the functions of
--   internal/pcap/topology.go that read it. How Go prints a value and an address is an
--   operation.
-- - Pcap/Topology: internal/pcap/topology.go, endpoints.go and topology_limits.go.
--   Topology/Nodes has the workloads at the two ends of an event, `resolveFlowEndpoints`;
--   Topology/Labels the phases, labels and drop diagnoses; Topology/Build `BuildFlowTopology`,
--   with Build/Sequence (`ConversationSequence`) and with Build/Edges, Build/Returns,
--   Build/Closed and Build/Conversation on what it builds; Topology/Selection and Topology/Limit
--   `FilterTopologyToSelection` and `LimitFlowTopology`, with Limit/Sizes and Limit/Kept on how
--   much and what they leave; Topology/Bounded their composition `BuildBoundedTopology`.
-- - Pcap/FlowGraph: internal/pcap/flowgraph.go, with FlowGraph/Counted, which compares it with
--   the topology.
-- - Pcap/Analytics: internal/pcap/analytics.go. Analytics/Decode has its frame decoders,
--   Analytics/Peers `ClassifyPeerIP`, and Pcap/Analytics `AnalyzeEvents`; Analytics/Handshake
--   compares `trackTCPFlows` with the history of segments, Analytics/Totals and
--   Analytics/Returns say what the totals add up to.
-- - Pcap/Summary: internal/pcap/summary.go, `BuildCaptureSummary`, which composes the graph, the
--   totals and the analytics; arithmetic on float64 is taken as operations. Summary/Protocols
--   says what its protocol counts add up to.
-- - Trace/Types, Trace/FocusPath: internal/trace/types.go and path_focus.go, `markFocusPath`.
--   FocusPath/Adjacent, Visit, Seed, Fuel and Shortest prove its search against the routes of
--   the graph.
-- - Trace/Builder: internal/trace/graph_builder.go, a function for each method of
--   `graphBuilder`. Builder/Distinct has its invariant and Builder/Finished what holds of the
--   graph after any calls. Trace/Track and Trace/Layout: internal/trace/track.go and layout.go,
--   the swimlane and the coordinates of each node, with Layout/Places.
-- - Trace/Simplify: internal/trace/graph_simplify.go, `simplifyGraph` up to its call of the
--   layout, with Simplify/Closed.
-- - Probe/Correlator, Probe/Session: internal/trace/probe/correlator.go and session.go. A method
--   that holds a lock is one step on the state. A subscriber is the list of events in its
--   channel. Correlator/Start and Correlator/Progress hold the correlator's invariant,
--   Session/Paint the end of the simulated probe.
-- - Portal/CaptureRegistry: internal/portal/capture_registry.go, its maps and the per-capture
--   stores that teardown clears as one state.
-- - Portal/TraceRegistry: internal/portal/trace_registry.go. A cancel function is a number;
--   TraceRegistry/Cancel follows it through sequences of calls.
-- - Auth/Store: internal/auth/session.go, the store of signed-in sessions, with Store/Expiry on
--   their lifetime.
-- - Rbac/Sanitize: internal/rbac/sanitize.go, what a tenant of single namespaces sees of a
--   trace, with Sanitize/Safe.
-- - Capture/Admission: internal/capture/admission/limits.go, `ValidateStart` and
--   `ShouldStopCapture`, with Admission/Decision.
-- - Tests: the theorems on concrete inputs.
--
-- Bounds and fuel: the search of a path takes a round for each source and two for each edge,
-- which is enough as each id enters the queue at most once. The loop of the DNS parser takes a
-- round for each byte of the payload. The loop over the extensions of a TLS hello takes a round
-- for each byte of the hello and one more. The loop of the simulated probe takes a round for
-- each tick. Machine integers keep their wrap-around: lengths in `ethernetPayload` are taken
-- modulo 2 ^ 32, the byte counters modulo 2 ^ 64, ports modulo 2 ^ 16, and signed numbers as 64
-- bits in two's complement.
--
-- Not modelled: Kubernetes, gRPC, S3, Neo4j and HTTP clients and handlers, the AI assistant,
-- OAuth and tokens, the eBPF agent. Contexts, timers and goroutines are left out: the order of
-- steps is an argument. Go's iteration over a map is in an order that it leaves open; the models
-- iterate in the order of insertion.
pub mod Common
pub mod Pcap
pub mod Trace
pub mod Probe
pub mod Portal
pub mod Auth
pub mod Capture
pub mod Rbac
mod Tests
