-- ===== src/Tests.antt =====
-- The theorems applied to concrete inputs, by component.
mod Paths
mod Packets
mod Probes
mod Owners
mod Flows
mod Access
mod Topologies
mod Analytics
mod Building
mod Tenants
