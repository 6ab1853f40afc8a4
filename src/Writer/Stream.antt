-- ===== src/Writer/Stream.antt =====
-- writer.go (writeBlock, align8) and writerdata.go (appendStream, flushChunk). The file under
-- construction is its bytes so far, so the offset of the next byte is their number; writing to it
-- succeeds. `build_dz`, which compresses with zlib, is a parameter.
pub mod Laws
use go_mdf.Base.{
  ℕ, ◌+◌, ◌-◌, ◌%◌, ◌^◌, Bool, true, false, Option, none, some, List, [], ◌∷◌, ◌++◌, ltb, leb, ◌==◌,
  if◌then◌else◌, length, replicate,
}
use go_mdf.Base.Words.{Bytes}
use go_mdf.Blocks.Header.{add64}
use go_mdf.Blocks.Encode.{build}

unfoldable pub align8 : Bytes → Bytes
align8 out = if length out % 8 == 0 then out else out ++ replicate (8 - length out % 8) 0

-- The block's offset and the file with it.
unfoldable pub write_block : Bytes → Bytes → ℕ × Bytes
unfolding align8
write_block b out = (length (align8 out), align8 out ++ b)

pub record Wseg : Type 0 where
  pub addr : ℕ
  pub org_len : ℕ

pub record ChunkStream : Type 0 where
  pub block_id : Bytes
  pub buf : Bytes
  pub total : ℕ
  pub segs : List Wseg

-- The compressed block is taken if there is one and it is smaller.
abbrev pub smaller : Option Bytes → Bytes → Bytes
smaller none block = block
smaller (some dz) block = if ltb (length dz) (length block) then dz else block

module _ (compress : Bool) (build_dz : Bytes → Bytes → Option Bytes) (chunk_size : ℕ) where
  unfoldable pub chunk_block : Bytes → Bytes → Bytes
  chunk_block id buf = smaller (if compress then build_dz id buf else none) (build id [] buf)

  unfoldable pub flush_chunk : ChunkStream → Bytes → ChunkStream × Bytes
  unfolding chunk_block write_block
  flush_chunk cs out =
      let w = write_block (chunk_block cs.block_id cs.buf) out in
      let seg : Wseg = record { addr = w.0; org_len = length cs.buf } in
      if length cs.buf == 0
      then (cs, out)
      else (record cs { buf = []; segs = cs.segs ++ seg ∷ [] }, w.1)

  unfoldable pub append_stream : Bytes → ChunkStream → Bytes → ChunkStream × Bytes
  unfolding flush_chunk
  append_stream b cs out =
      let more : ChunkStream = record cs { total = add64 cs.total (length b); buf = cs.buf ++ b } in
      if leb chunk_size (length more.buf) then flush_chunk more out else (more, out)
