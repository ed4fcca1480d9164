-- ===== src/MemStore.antt =====
-- storage/src/memstore: chunks of samples, and the head block that holds the series.
pub mod Chunk
pub mod Entry
pub mod Head
pub mod Store
pub mod Tests
