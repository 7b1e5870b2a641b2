-- ===== src/Pcap.antt =====
-- internal/pcap: frame decoding, the PCAP-NG writer, capture sessions and flow topologies.
pub mod Bytes
pub mod Frame
pub mod PcapNg
pub mod Session
pub mod Topology
pub mod Meta
pub mod Analytics
pub mod Summary
pub mod FlowGraph
