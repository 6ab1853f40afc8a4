-- ===== src/Blocks/Text.antt =====
-- internal/blocks/tx_md.go: the text of a TX or MD block.
pub mod RoundTrip
use go_mdf.Base.{
  ℕ, ◌&&◌, not, List, [], ◌∷◌, ◌==◌, if◌then◌else◌, Outcome, ok, ◌>>=◌, ◌>>◌, invalid_block,
}
use go_mdf.Base.Words.{Bytes}
use go_mdf.Source.{slice_at}
use go_mdf.Blocks.Header.{header_size, add64, same_bytes, Header, data_len, refuse, decode_header}
use go_mdf.Blocks.Encode.{id_tx, id_md}

-- What stands before the first NUL.
unfoldable pub until_nul : Bytes → Bytes
until_nul [] = []
until_nul (b ∷ bs) = if b == 0 then [] else b ∷ until_nul bs

unfoldable pub decode_text : Bytes → ℕ → Outcome Bytes
decode_text src addr = if addr == 0 then ok [] else (do
  h ← decode_header src addr []
  refuse (not (same_bytes h.id id_tx) && not (same_bytes h.id id_md)) invalid_block
  refuse (not (h.link_count == 0)) invalid_block
  content ← slice_at src (add64 addr header_size) (data_len h)
  ok (until_nul content))
