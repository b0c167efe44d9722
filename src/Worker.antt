-- ===== src/Worker.antt =====
-- src/litestar_queues/worker.
pub mod Heartbeat
