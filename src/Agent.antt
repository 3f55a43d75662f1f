-- ===== src/Agent.antt =====
-- python/propagul/mesh/agent.py: the parts of `MeshAgent` that decide. What the dashboard and the
-- backends answer is an argument.
pub mod Numbers
pub mod Settings
pub mod Contexts
pub mod Reconcile
pub mod Settled
pub mod Sync
pub mod Exchange
pub mod Unpushed
pub mod ReadOnly
pub mod Cancelling
pub mod Commands
pub mod Pull
pub mod Loop
pub mod Polling
