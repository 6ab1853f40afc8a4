-- ===== src/Examples/Text.antt =====
-- internal/blocks: blocks composed and read back.
use go_mdf.Base.{[], ◌∷◌, ◌++◌, ◌≡◌, arith, ok, length, replicate, ◌<◌, ◌^◌}
use go_mdf.Base.Words.{Bytes, le_bytes}
use go_mdf.Blocks.Header.{decode_raw}
use go_mdf.Blocks.Encode.{link_bytes, pad8, build, build_tx}
use go_mdf.Blocks.Encode.RoundTrip.{decode_raw-build}
use go_mdf.Blocks.Text.{decode_text}
use go_mdf.Blocks.Text.RoundTrip.{decode_text-build_tx}

abbrev front : Bytes
front = replicate 8 7

-- A list block with two links and two words of data behind eight bytes.
decode_raw-build_example :
    decode_raw
      (front ++ (build (b'#' ∷ b'#' ∷ b'D' ∷ b'L' ∷ []) (0 ∷ 64 ∷ []) (replicate 16 1) ++ 9 ∷ []))
      8
      (b'#' ∷ b'#' ∷ b'D' ∷ b'L' ∷ [])
      1
      8
    ≡ ok (record {
      header = record { id = b'#' ∷ b'#' ∷ b'D' ∷ b'L' ∷ []; len = 56; link_count = 2 };
      links = 0 ∷ 64 ∷ [];
      content = replicate 16 1;
    })
decode_raw-build_example =
    decode_raw-build b'D' b'L' (0 ∷ 64 ∷ []) (replicate 16 1) front (9 ∷ [])
      (omega arith, (omega arith, tt)) small 1 8 (omega arith) (omega arith)
  where
    small :
        length (
          front
          ++ (build (b'#' ∷ b'#' ∷ b'D' ∷ b'L' ∷ []) (0 ∷ 64 ∷ []) (replicate 16 1) ++ 9 ∷ []))
        < 2 ^ 63
    small = unfold build link_bytes le_bytes in omega arith

decode_text-build_tx_example :
    decode_text (front ++ (build_tx (b's' ∷ []) ++ 9 ∷ [])) 8 ≡ ok (b's' ∷ [])
decode_text-build_tx_example =
    decode_text-build_tx front (9 ∷ []) (b's' ∷ []) (omega arith) ((λ e. omega (arith, e)), tt)
      small
  where
    small : length (front ++ (build_tx (b's' ∷ []) ++ 9 ∷ [])) < 2 ^ 63
    small = unfold build_tx build pad8 link_bytes le_bytes in omega arith
