-- ===== src/A2a.antt =====
-- python/propagul/a2a: shared state of the agents of a room, and the room.
pub mod State
pub mod Room
pub mod Writes
pub mod Members
