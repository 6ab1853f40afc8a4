-- ===== src/Writer.antt =====
-- writer.go and writerdata.go: blocks appended to a file, and byte streams written in chunks.
pub mod Stream
