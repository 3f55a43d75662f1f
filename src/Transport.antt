-- ===== src/Transport.antt =====
-- python/propagul/transport.py: `GossipTransport`.
pub mod Frames
pub mod Pool
pub mod Sends
pub mod Bounded
pub mod Replaced
pub mod Delivery
pub mod Sealed
pub mod Rounds
pub mod Stopped
