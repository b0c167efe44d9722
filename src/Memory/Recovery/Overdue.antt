-- ===== src/Memory/Recovery/Overdue.antt =====
-- Expiry: what a sweep leaves and what it returns.
use litestar_queues.Memory.State.{Memory}
