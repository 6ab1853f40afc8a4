-- ===== src/Vlsd.antt =====
-- Variable-length values: how writergroup.go (Append) puts them in a channel's stream, and how
-- vlsd.go (resolveVLSD) gets them from the offsets in the records. The signal data section is its
-- bytes; values are returned as bytes, before a text's encoding is decoded.
pub mod RoundTrip
use go_mdf.Base.{
  ℕ, ◌+◌, ◌%◌, ◌^◌, Bool, Option, List, [], ◌∷◌, ◌++◌, ◌==◌, if◌then◌else◌, length, Outcome, ok,
  ◌>>=◌, ◌>>◌, out_of_bounds,
}
use go_mdf.Base.Words.{Bytes, le_value, le_bytes}
use go_mdf.Source.{slice_at}
use go_mdf.Blocks.Header.{add64, refuse}
use go_mdf.DataSection.Resolve.{slt}
use go_mdf.Writer.Stream.{ChunkStream, append_stream}

module _ (compress : Bool) (build_dz : Bytes → Bytes → Option Bytes) (chunk_size : ℕ) where
  -- The stream with the value, the file, and the offset that the record keeps.
  unfoldable pub append_value : Bytes → ChunkStream → Bytes → ℕ × ChunkStream × Bytes
  unfolding append_stream
  append_value s cs out =
      let r = append_stream compress build_dz chunk_size (le_bytes 4 (length s % 2 ^ 32)) cs out in
      let q = append_stream compress build_dz chunk_size s r.0 r.1 in (cs.total, q.0, q.1)

  -- The values of one channel over the records appended.
  unfoldable pub append_values : List Bytes → ChunkStream → Bytes → List ℕ × ChunkStream × Bytes
  append_values [] cs out = ([], cs, out)
  append_values (s ∷ values) cs out =
      let r = append_value s cs out in let q = append_values values r.1 r.2 in (r.0 ∷ q.0, q.1, q.2)

-- One round of the loop over the offsets.
unfoldable pub resolve_value : Bytes → ℕ → Outcome Bytes
resolve_value sd off = do
  refuse (slt (length sd) (add64 off 4)) out_of_bounds
  len_buf ← slice_at sd off 4
  refuse (slt (length sd) (add64 (add64 off 4) (le_value len_buf))) out_of_bounds
  (if le_value len_buf == 0 then ok [] else slice_at sd (add64 off 4) (le_value len_buf))

unfoldable pub resolve_vlsd : Bytes → List ℕ → Outcome (List Bytes)
resolve_vlsd sd [] = ok []
resolve_vlsd sd (off ∷ offsets) = do
  payload ← resolve_value sd off
  values ← resolve_vlsd sd offsets
  ok (payload ∷ values)
