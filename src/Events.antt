-- ===== src/Events.antt =====
-- The durable event history: src/litestar_queues/events/query.py, its records in events/history.py, and
-- the in-memory log of src/litestar_queues/backends/memory/event_log.py.
pub mod Records
pub mod Query
pub mod Columns
pub mod Validation
pub mod Summary
pub mod Log
pub mod Pages
pub mod Stages
pub mod Retention
pub mod Chunking
