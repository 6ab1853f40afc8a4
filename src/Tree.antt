-- ===== src/Tree.antt =====
-- tree.go: the hierarchy of groups and channels that a file is opened to.
pub mod Elements
