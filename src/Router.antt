-- ===== src/Router.antt =====
-- python/propagul/mesh/router.py: routing of requests over the fleet.
pub mod Tracker
pub mod EventLog
pub mod Fleet
pub mod Select
pub mod Choice
pub mod Ordered
