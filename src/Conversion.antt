-- ===== src/Conversion.antt =====
-- internal/conversion: channel conversions, compiled from their blocks.
pub mod Float
pub mod Table
pub mod Compile
pub mod Rules
pub mod Formula
pub mod Whole
