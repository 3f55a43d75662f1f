-- ===== src/Proxy.antt =====
-- python/propagul/mesh/proxy.py: the local reverse proxy, from the validation of a backend's URL to the
-- routing of a chat completion.
pub mod Validation
pub mod Values
pub mod Translate
pub mod Requested
pub mod Responses
pub mod Handlers
pub mod Chat
pub mod Balance
pub mod Failover
pub mod Stays
pub mod Endpoints
pub mod Answers
pub mod Served
