-- ===== src/Blocks.antt =====
-- internal/blocks: the blocks of a file.
pub mod Header
pub mod Lists
pub mod Encode
pub mod Text
pub mod Group
pub mod Fields
pub mod Meta
pub mod Array
