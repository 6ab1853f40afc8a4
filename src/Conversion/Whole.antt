-- ===== src/Conversion/Whole.antt =====
-- Compile with the parser of formulas.
use go_mdf.Conversion.Float.{Float}
