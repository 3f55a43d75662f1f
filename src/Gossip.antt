-- ===== src/Gossip.antt =====
-- python/propagul/gossip.py: the messages of push-pull gossip.
pub mod Digest
pub mod Messages
pub mod Handle
pub mod Receive
pub mod Exact
pub mod Deltas
