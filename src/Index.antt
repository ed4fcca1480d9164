-- ===== src/Index.antt =====
-- storage/src/index: the indexes that find series by their labels.
pub mod Bloom
pub mod Inverted
pub mod Bitmap
pub mod Tests
