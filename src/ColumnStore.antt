-- ===== src/ColumnStore.antt =====
-- storage/src/columnstore: the levels of downsampling.
pub mod Level
