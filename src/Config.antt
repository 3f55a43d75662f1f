-- ===== src/Config.antt =====
-- python/propagul/mesh/config.py: `FleetConfigMap`, tables over an `ORMap` and a file.
pub mod Defs
pub mod Tables
pub mod Saving
pub mod Restarts
pub mod Reads
pub mod ModelSettings
