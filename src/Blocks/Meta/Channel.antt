-- ===== src/Blocks/Meta/Channel.antt =====
-- internal/blocks/cn.go and cc.go: channels and conversions.
use go_mdf.Base.{
  ℕ, ◌+◌, ◌*◌, ◌&&◌, Option, none, some, List, [], ◌∷◌, ltb, leb, ◌==◌, if◌then◌else◌, length,
  Outcome, ok, ◌>>=◌, ◌>>◌, invalid_block,
}
use go_mdf.Base.Words.{Bytes, index, slice}
use go_mdf.Blocks.Header.{refuse, decode_raw, link}
use go_mdf.Blocks.Lists.{has_flag}
use go_mdf.Blocks.Fields.{field, read_words}

abbrev pub id_cn : Bytes
id_cn = b'#' ∷ b'#' ∷ b'C' ∷ b'N' ∷ []

abbrev pub id_cc : Bytes
id_cc = b'#' ∷ b'#' ∷ b'C' ∷ b'C' ∷ []

pub record Cn : Type 0 where
  pub next : ℕ
  pub composition : ℕ
  pub name : ℕ
  pub source : ℕ
  pub conversion : ℕ
  pub signal : ℕ
  pub unit : ℕ
  pub comment : ℕ
  pub at_reference : List ℕ
  pub default_x : List ℕ
  pub cn_type : ℕ
  pub sync_type : ℕ
  pub data_type : ℕ
  pub bit_offset : ℕ
  pub byte_offset : ℕ
  pub bit_count : ℕ
  pub flags : ℕ
  pub inval_bit_pos : ℕ
  pub precision : ℕ
  pub attachment_count : ℕ
  pub ranges : List ℕ

-- Bit 12 of `cn_flags`.
abbrev default_x_flag : ℕ
default_x_flag = 4096

-- The attachments behind the eight fixed links, and the place of the next link.
unfoldable pub attachments : ℕ → ℕ → List ℕ → Outcome (List ℕ × ℕ)
attachments first n links =
    if leb 1 n && leb (first + n) (length links)
    then (do refs ← slice links first (first + n); ok (refs, first + n))
    else ok ([], first)

-- Three nil links unless the flag is set and they are there.
unfoldable pub read_default_x : ℕ → ℕ → List ℕ → Outcome (List ℕ)
read_default_x flags next links =
    if has_flag flags default_x_flag && leb (next + 3) (length links)
    then slice links next (next + 3)
    else ok (0 ∷ 0 ∷ 0 ∷ [])

unfoldable pub decode_cn : Bytes → ℕ → Outcome Cn
decode_cn src addr = do
  r ← decode_raw src addr id_cn 8 72
  cn_type ← index r.content 0
  sync ← index r.content 1
  data_type ← index r.content 2
  bit_offset ← index r.content 3
  byte_offset ← field 4 r.content 4
  bit_count ← field 4 r.content 8
  flags ← field 4 r.content 12
  inval ← field 4 r.content 16
  precision ← index r.content 20
  count ← field 2 r.content 22
  ranges ← read_words 6 24 r.content
  (refs, next) ← attachments 8 count r.links
  xs ← read_default_x flags next r.links
  ok (record {
    next = link r 0;
    composition = link r 1;
    name = link r 2;
    source = link r 3;
    conversion = link r 4;
    signal = link r 5;
    unit = link r 6;
    comment = link r 7;
    at_reference = refs;
    default_x = xs;
    cn_type = cn_type;
    sync_type = sync;
    data_type = data_type;
    bit_offset = bit_offset;
    byte_offset = byte_offset;
    bit_count = bit_count;
    flags = flags;
    inval_bit_pos = inval;
    precision = precision;
    attachment_count = count;
    ranges = ranges;
  })

-- `vals` are the values' bit patterns, which the code keeps both as floats and as patterns.
pub record Cc : Type 0 where
  pub name : ℕ
  pub unit : ℕ
  pub comment : ℕ
  pub inverse : ℕ
  pub refs : List ℕ
  pub cc_type : ℕ
  pub precision : ℕ
  pub flags : ℕ
  pub ref_count : ℕ
  pub val_count : ℕ
  pub range_min : ℕ
  pub range_max : ℕ
  pub vals : List ℕ

unfoldable pub read_refs : ℕ → List ℕ → Outcome (List ℕ)
read_refs n links =
    if n == 0
    then ok []
    else (do refuse (ltb (length links) (4 + n)) invalid_block; slice links 4 (4 + n))

unfoldable pub read_vals : ℕ → Bytes → Outcome (List ℕ)
read_vals n d =
    if n == 0
    then ok []
    else (do refuse (ltb (length d) (24 + 8 * n)) invalid_block; read_words n 24 d)

-- A nil link is no conversion.
unfoldable pub decode_cc : Bytes → ℕ → Outcome (Option Cc)
decode_cc src addr = if addr == 0 then ok none else (do
  r ← decode_raw src addr id_cc 4 24
  cc_type ← index r.content 0
  precision ← index r.content 1
  flags ← field 2 r.content 2
  ref_count ← field 2 r.content 4
  val_count ← field 2 r.content 6
  low ← field 8 r.content 8
  high ← field 8 r.content 16
  refs ← read_refs ref_count r.links
  vals ← read_vals val_count r.content
  ok (
      some (record {
        name = link r 0;
        unit = link r 1;
        comment = link r 2;
        inverse = link r 3;
        refs = refs;
        cc_type = cc_type;
        precision = precision;
        flags = flags;
        ref_count = ref_count;
        val_count = val_count;
        range_min = low;
        range_max = high;
        vals = vals;
      })))
