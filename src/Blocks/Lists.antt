-- ===== src/Blocks/Lists.antt =====
-- internal/blocks/dl.go, ld.go, hl.go, dz.go: the blocks that list or compress data blocks.
pub mod Laws
use Prim.Native.Nat.{bit_and}
use go_mdf.Base.{
  ℕ, zero, suc, ◌+◌, ◌-◌, ◌*◌, ◌^◌, Bool, not, List, [], ◌∷◌, ltb, ◌==◌, if◌then◌else◌, length,
  Outcome, ok, ◌>>=◌, ◌>>◌, invalid_block, take,
}
use go_mdf.Base.Words.{Bytes, index, slice, slice_from, le_uint}
use go_mdf.Blocks.Header.{add64, sub64, header_size, Raw, data_len, refuse, decode_raw, link}

abbrev pub id_dl : Bytes
id_dl = b'#' ∷ b'#' ∷ b'D' ∷ b'L' ∷ []

abbrev pub id_ld : Bytes
id_ld = b'#' ∷ b'#' ∷ b'L' ∷ b'D' ∷ []

abbrev pub id_hl : Bytes
id_hl = b'#' ∷ b'#' ∷ b'H' ∷ b'L' ∷ []

abbrev pub id_dz : Bytes
id_dz = b'#' ∷ b'#' ∷ b'D' ∷ b'Z' ∷ []

-- `flags & bit != 0`
abbrev pub has_flag : ℕ → ℕ → Bool
has_flag flags bit = not (bit_and flags bit == 0)

-- `dl_flags` bit 0; `ld_flags` bits 0 and 31.
abbrev pub equal_flag : ℕ
equal_flag = 1

abbrev pub invalidation_flag : ℕ
invalidation_flag = 2 ^ 31

pub record Dl : Type 0 where
  pub next : ℕ
  pub blocks : List ℕ
  pub flags : ℕ
  pub count : ℕ
  pub equal_length : ℕ
  pub offsets : List ℕ

-- The loop that reads `d[8+8*i:]`, with `n` rounds left.
unfoldable pub read_offsets : ℕ → ℕ → Bytes → Outcome (List ℕ)
read_offsets zero i d = ok []
read_offsets (suc n) i d = do
  w ← (slice_from d (8 + 8 * i) >>= le_uint 8)
  ws ← read_offsets n (i + 1) d
  ok (w ∷ ws)

-- The length or sample count that all blocks share, or an offset for each block.
unfoldable pub read_layout : ℕ → ℕ → Bytes → Outcome (ℕ × List ℕ)
read_layout flags n d =
    if has_flag flags equal_flag
    then (do refuse (ltb (length d) 16) invalid_block; w ← (slice d 8 16 >>= le_uint 8); ok (w, []))
    else (do refuse (ltb (length d) (8 + 8 * n)) invalid_block; ws ← read_offsets n 0 d; ok (0, ws))

unfoldable pub decode_dl : Bytes → ℕ → Outcome Dl
decode_dl src addr = do
  r ← decode_raw src addr id_dl 1 8
  flags ← index r.content 0
  n ← (slice r.content 4 8 >>= le_uint 4)
  refuse (ltb (length r.links) (1 + n)) invalid_block
  blocks ← slice r.links 1 (1 + n)
  (equal, offsets) ← read_layout flags n r.content
  ok (record {
    next = link r 0;
    blocks = blocks;
    flags = flags;
    count = n;
    equal_length = equal;
    offsets = offsets;
  })

pub record Ld : Type 0 where
  pub next : ℕ
  pub blocks : List ℕ
  pub inval_blocks : List ℕ
  pub flags : ℕ
  pub count : ℕ
  pub equal_sample_count : ℕ
  pub sample_offsets : List ℕ

unfoldable pub read_inval : ℕ → ℕ → List ℕ → Outcome (List ℕ)
read_inval flags n links =
    if has_flag flags invalidation_flag
    then (do refuse (ltb (length links) (1 + 2 * n)) invalid_block; slice links (1 + n) (1 + 2 * n))
    else ok []

unfoldable pub decode_ld : Bytes → ℕ → Outcome Ld
decode_ld src addr = do
  r ← decode_raw src addr id_ld 1 8
  flags ← (slice r.content 0 4 >>= le_uint 4)
  n ← (slice r.content 4 8 >>= le_uint 4)
  refuse (ltb (length r.links) (1 + n)) invalid_block
  blocks ← slice r.links 1 (1 + n)
  inval ← read_inval flags n r.links
  (equal, offsets) ← read_layout flags n r.content
  ok (record {
    next = link r 0;
    blocks = blocks;
    inval_blocks = inval;
    flags = flags;
    count = n;
    equal_sample_count = equal;
    sample_offsets = offsets;
  })

pub record Hl : Type 0 where
  pub dl_first : ℕ
  pub flags : ℕ
  pub zip_type : ℕ

unfoldable pub decode_hl : Bytes → ℕ → Outcome Hl
decode_hl src addr = do
  r ← decode_raw src addr id_hl 1 3
  flags ← (slice r.content 0 2 >>= le_uint 2)
  zip ← index r.content 2
  ok (record { dl_first = link r 0; flags = flags; zip_type = zip })

pub record Dz : Type 0 where
  pub org_block_type : Bytes
  pub zip_type : ℕ
  pub zip_parameter : ℕ
  pub org_data_length : ℕ
  pub data_length : ℕ
  pub data_addr : ℕ

unfoldable pub decode_dz : Bytes → ℕ → Outcome Dz
decode_dz src addr = do
  r ← decode_raw src addr id_dz 0 24
  org ← slice r.content 0 2
  zip ← index r.content 2
  param ← (slice r.content 4 8 >>= le_uint 4)
  org_len ← (slice r.content 8 16 >>= le_uint 8)
  len ← (slice r.content 16 24 >>= le_uint 8)
  refuse (ltb (sub64 (data_len r.header) 24) len) invalid_block
  ok (record {
    org_block_type = org;
    zip_type = zip;
    zip_parameter = param;
    org_data_length = org_len;
    data_length = len;
    data_addr = add64 (add64 addr header_size) 24;
  })
