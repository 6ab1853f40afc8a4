-- ===== src/Records.antt =====
-- internal/records: the extraction of channel samples from records.
pub mod BitField
pub mod Bitset
pub mod Column
pub mod Strings
pub mod Extract
