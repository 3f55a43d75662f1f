-- ===== src/Crdt.antt =====
-- python/propagul/crdt.py: the observed-remove map.
pub mod Defs
pub mod Merge
pub mod View
pub mod Writes
pub mod Reads
pub mod Restart
mod Order
mod Tombstones
pub mod Invariant
pub mod Eviction
