-- ===== src/Memory.antt =====
-- src/litestar_queues/backends/memory/backend.py: the in-memory queue backend.
pub mod State
pub mod Enqueue
pub mod Claim
pub mod Settle
pub mod Dispatch
pub mod Recovery
pub mod Ownership
pub mod Queries
pub mod Evolution
pub mod Lifecycle
pub mod Sweeps
pub mod Shape
pub mod Consistency
pub mod Admission
pub mod Changes
pub mod History
pub mod Fences
pub mod Calls
