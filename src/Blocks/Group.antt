-- ===== src/Blocks/Group.antt =====
-- internal/blocks/cg.go: channel groups, and the one that writeGroupMeta of writerdata.go composes.
pub mod RoundTrip
use go_mdf.Base.{
  ℕ, ◌+◌, ◌^◌, ◌%◌, Bool, if◌then◌else◌, List, [], ◌∷◌, ◌++◌, replicate, Outcome, ok, ◌>>=◌,
}
use go_mdf.Base.Words.{Bytes, slice, le_uint, le_bytes}
use go_mdf.Blocks.Header.{Raw, decode_raw, link}
use go_mdf.Blocks.Lists.{has_flag}
use go_mdf.Blocks.Encode.{build}

abbrev pub id_cg : Bytes
id_cg = b'#' ∷ b'#' ∷ b'C' ∷ b'G' ∷ []

pub record Cg : Type 0 where
  pub next : ℕ
  pub cn_first : ℕ
  pub acq_name : ℕ
  pub acq_source : ℕ
  pub sr_first : ℕ
  pub comment : ℕ
  pub record_id : ℕ
  pub cycle_count : ℕ
  pub flags : ℕ
  pub path_separator : ℕ
  pub data_bytes : ℕ
  pub inval_bytes : ℕ
  pub cg_master : ℕ

-- Bit 3 of the flags.
abbrev remote_master : ℕ
remote_master = 8

unfoldable record_size : Cg → ℕ
record_size b = b.data_bytes + b.inval_bytes

-- Bit 0 of the flags.
unfoldable is_vlsd : Cg → Bool
is_vlsd b = has_flag b.flags 1

unfoldable pub decode_cg : Bytes → ℕ → Outcome Cg
decode_cg src addr = do
  r ← decode_raw src addr id_cg 6 32
  id ← (slice r.content 0 8 >>= le_uint 8)
  cycles ← (slice r.content 8 16 >>= le_uint 8)
  flags ← (slice r.content 16 18 >>= le_uint 2)
  separator ← (slice r.content 18 20 >>= le_uint 2)
  size ← (slice r.content 24 28 >>= le_uint 4)
  inval ← (slice r.content 28 32 >>= le_uint 4)
  ok (record {
    next = link r 0;
    cn_first = link r 1;
    acq_name = link r 2;
    acq_source = link r 3;
    sr_first = link r 4;
    comment = link r 5;
    record_id = id;
    cycle_count = cycles;
    flags = flags;
    path_separator = separator;
    data_bytes = size;
    inval_bytes = inval;
    cg_master = if has_flag flags remote_master then link r 6 else 0;
  })

-- The group block of a writer with records of `rec_size` bytes.
unfoldable pub build_cg : ℕ → ℕ → ℕ → Bytes
build_cg rec_size next_cn acq =
    build id_cg (0 ∷ next_cn ∷ acq ∷ 0 ∷ 0 ∷ 0 ∷ [])
      (replicate 24 0 ++ (le_bytes 4 (rec_size % 2 ^ 32) ++ replicate 4 0))
