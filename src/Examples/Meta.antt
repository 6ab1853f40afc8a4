-- ===== src/Examples/Meta.antt =====
-- The metadata decoders on a hierarchy node, and an array block with 2 ^ 64 - 1 elements.
use go_mdf.Base.{ℕ, ◌≡◌, ◌^◌, ◌<◌, [], ◌∷◌, ◌++◌, arith, length, replicate, panic}
use go_mdf.Base.Words.{Bytes, le_bytes}
use go_mdf.Blocks.Encode.{build, link_bytes}
use go_mdf.Blocks.Array.{id_ca, decode_ca}
use go_mdf.Blocks.Array.Laws.{HasLargeDims, decode_ca-eq-panic}
use go_mdf.Blocks.Array.Panics.{huge_dim, decode_ca_panics, decode_ca_panics_on_axes}

-- One element: three links behind the four fixed ones.
abbrev node_file : Bytes
node_file =
    replicate 8 7 ++ build (b'#' ∷ b'#' ∷ b'C' ∷ b'H' ∷ []) (replicate 7 0) (1 ∷ replicate 7 0)

abbrev array_file : ℕ → ℕ → Bytes
array_file storage flags = (7 ∷ []) ++ (build id_ca (0 ∷ []) (huge_dim 0 storage flags []) ++ [])

array_small : (storage flags : ℕ) → length (array_file storage flags) < 2 ^ 62
unfolding build link_bytes le_bytes
array_small storage flags = omega arith

decode_ca_panics_example : decode_ca (array_file 2 0) 1 ≡ panic
decode_ca_panics_example =
    decode_ca_panics (7 ∷ []) [] [] 0 0 [] (omega arith, tt) (omega (arith, array_small 2 0))

decode_ca_panics_on_axes_example : decode_ca (array_file 0 32) 1 ≡ panic
decode_ca_panics_on_axes_example =
    decode_ca_panics_on_axes (7 ∷ []) [] [] 0 0 [] (omega arith, tt) 0
      (omega (arith, array_small 0 32))

decode_ca-eq-panic_example : HasLargeDims (array_file 2 0) 1
decode_ca-eq-panic_example =
    decode_ca-eq-panic (array_file 2 0) (array_small 2 0) 1 decode_ca_panics_example
