-- ===== src/Examples.antt =====
-- The theorems at concrete inputs, and runs of the code on them.
mod Dbc
mod Records
mod DataSection
mod Blocks
mod Text
mod Unsorted
mod Resolve
mod Writer
mod Group
mod Meta
mod Reader
mod Conversion
mod Formula
mod Tree
mod Reading
