-- ===== src/Tests.antt =====
-- Concrete requests, records, histories and events, on which the theorems are applied.
pub mod Data
pub mod Queue
pub mod History
pub mod Events
pub mod Serializer
pub mod Ephemeral
pub mod Texts
pub mod Codec
pub mod Chunking
pub mod Worker
