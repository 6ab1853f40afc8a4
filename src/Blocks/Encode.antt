-- ===== src/Blocks/Encode.antt =====
-- internal/blocks/encode.go: the composition of blocks.
pub mod RoundTrip
use go_mdf.Base.{
  ℕ, zero, suc, ◌+◌, ◌-◌, ◌*◌, ◌/◌, ◌%◌, List, [], ◌∷◌, ◌++◌, ltb, ◌==◌, if◌then◌else◌, length,
  take, replicate,
}
use go_mdf.Base.Words.{Bytes, le_bytes}
use go_mdf.Blocks.Header.{header_size, link_size}

-- The loop that appends the links.
unfoldable pub link_bytes : List ℕ → Bytes
link_bytes [] = []
link_bytes (l ∷ links) = le_bytes 8 l ++ link_bytes links

-- The id is copied into four bytes, and four reserved bytes follow it.
unfoldable pub build : Bytes → List ℕ → Bytes → Bytes
build id links content =
    let n = header_size + length links * link_size + length content in
    take 4 (id ++ replicate 4 0)
    ++ (replicate 4 0
        ++ (le_bytes 8 n ++ (le_bytes 8 (length links) ++ (link_bytes links ++ content))))

-- `for len(data)%8 != 0 { data = append(data, 0) }`: less than eight rounds.
unfoldable pub pad8 : Bytes → Bytes
pad8 content = content ++ replicate ((8 - length content % 8) % 8) 0

abbrev pub id_tx : Bytes
id_tx = b'#' ∷ b'#' ∷ b'T' ∷ b'X' ∷ []

abbrev pub id_md : Bytes
id_md = b'#' ∷ b'#' ∷ b'M' ∷ b'D' ∷ []

unfoldable pub build_tx : Bytes → Bytes
unfolding build pad8
build_tx s = build id_tx [] (pad8 (s ++ 0 ∷ []))

unfoldable pub build_md : Bytes → Bytes
unfolding build pad8
build_md s = build id_md [] (pad8 (s ++ 0 ∷ []))
