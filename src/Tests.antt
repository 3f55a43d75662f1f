-- ===== src/Tests.antt =====
-- Concrete inputs, and the theorems at them.
mod Nodes
mod Replicas
mod Operations
mod Messages
mod Routing
mod Configs
mod Rooms
mod Stores
mod Wires
mod Agents
mod Exchanges
mod Proxies
