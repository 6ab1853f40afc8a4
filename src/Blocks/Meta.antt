-- ===== src/Blocks/Meta.antt =====
-- internal/blocks: the blocks of the metadata tree, decoded.
pub mod Channel
pub mod Tree
pub mod Extra
pub mod Laws
pub mod Safety
