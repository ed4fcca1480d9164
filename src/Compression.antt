-- ===== src/Compression.antt =====
-- storage/src/compression: the encodings of columns and chunks.
pub mod ZigZag
pub mod Varint
pub mod Stream
pub mod Delta
pub mod Simple8b
mod Tests
pub mod Dictionary
