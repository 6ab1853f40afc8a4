-- ===== src/DataSection.antt =====
-- internal/datasection: the data section as one byte stream.
pub mod Lru
pub mod Transpose
pub mod Resolve
pub mod Reader
