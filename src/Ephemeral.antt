-- ===== src/Ephemeral.antt =====
-- src/litestar_queues/backends/ephemeral: the queue backend on a private SQLite file.
pub mod Database
pub mod Enqueue
pub mod Claim
pub mod Batch
pub mod Settle
pub mod Dispatch
pub mod Recovery
pub mod Ownership
pub mod Queries
pub mod Holds
pub mod Simulation
pub mod Calls
pub mod Codec
