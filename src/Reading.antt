-- ===== src/Reading.antt =====
-- read.go: the samples of a channel, read in chunks of records. A section is what its reader does
-- to the state of the readers.
pub mod Sound
pub mod Chunks
pub mod Laws
pub mod Panics
pub mod Sections
use go_mdf.Base.{
  ℕ, zero, suc, ◌+◌, ◌-◌, ◌*◌, ◌/◌, ◌%◌, ◌^◌, Bool, true, false, ◌&&◌, ◌||◌, not, Option, none,
  some, List, [], map, ltb, leb, ◌==◌, if◌then◌else◌, Outcome, ok, err, panic, ◌>>=◌, ◌>>◌,
  out_of_bounds, unsupported,
}
use go_mdf.Base.Words.{Bytes}
use go_mdf.Blocks.Header.{add64, sub64, mul64, refuse}
use go_mdf.Blocks.Lists.{has_flag}
use go_mdf.Blocks.Meta.Channel.{Cn}
use go_mdf.Conversion.Compile.{
  Conversion, textual, text_input, present, convert, strings, from_texts, text_to_texts,
}
use go_mdf.DataSection.Resolve.{slt}
use go_mdf.Records.Bitset.{Bitset, new_bitset}
use go_mdf.Records.Column.{
  Kind, floats, strings as texts, ColumnSpec, Column, make_slice, new_column,
}
use go_mdf.Records.Extract.{ToFloat, extract_invalid_bits, extract}

-- An `int` is its bit pattern; a negative count reads to the end.
pub record ReadConfig : Type 0 where
  pub raw : Bool
  pub from : ℕ
  pub count : ℕ
  pub chunk_samples : ℕ

unfoldable pub new_read_config : ReadConfig
new_read_config = record { raw = false; from = 0; count = 2 ^ 64 - 1; chunk_samples = 0 }

unfoldable pub with_raw : ReadConfig → ReadConfig
with_raw c = record c { raw = true }

unfoldable pub with_range : ℕ → ℕ → ReadConfig → ReadConfig
with_range from n c = record c { from = from; count = n }

unfoldable pub with_chunk_samples : ℕ → ReadConfig → ReadConfig
with_chunk_samples n c = if slt 0 n then record c { chunk_samples = n } else c

unfoldable pub resolve_range : ReadConfig → ℕ → Outcome (ℕ × ℕ)
unfolding refuse
resolve_range cfg total = do
  refuse (slt cfg.from 0 || slt total cfg.from) out_of_bounds
  (if slt cfg.count 0 || slt total (add64 cfg.from cfg.count)
      then ok (cfg.from, sub64 total cfg.from)
      else ok (cfg.from, cfg.count))

-- What a channel's reading depends on.
pub record Channel : Type 0 where
  pub cn : Cn
  pub channel_type : ℕ
  pub is_array : Bool
  pub data_bytes : ℕ

abbrev is_textual {ℓ} : {W : Type ℓ} → Option (Conversion W) → Bool
is_textual none = false
is_textual (some c) = textual c

unfoldable pub column_spec {ℓ} :
    {W : Type ℓ} → ReadConfig → Channel → Option (Conversion W) → ColumnSpec
column_spec cfg c conv =
    let numeric_in = leb c.cn.data_type 5 in
    let is_vlsd = c.channel_type == 1 in
    let converted =
      not cfg.raw && numeric_in && present conv && not (text_input conv) && not (is_textual conv) in
    let rendered = not cfg.raw && numeric_in && is_textual conv in
    record {
      byte_offset = c.cn.byte_offset;
      bit_offset = c.cn.bit_offset;
      bit_count = c.cn.bit_count;
      data_type = if is_vlsd then 0 else if c.is_array then 10 else c.cn.data_type;
      inval_bit = if has_flag c.cn.flags 2 then some c.cn.inval_bit_pos else none;
      data_bytes = c.data_bytes;
      as_float = not is_vlsd && (converted || rendered);
    }

-- A section's size and `ReadAt`.
pub record Section (S : Type 0) : Type 0 where
  pub size : ℕ
  pub read : ℕ → ℕ → S → Outcome (Bytes × S)

pub record RecordLayout (S : Type 0) : Type 0 where
  pub stream : Section S
  pub inval : Option (Section S)
  pub rec_size : ℕ
  pub inval_size : ℕ

-- `buf[:n]` of a buffer.
unfoldable pub slice_buffer : ℕ → ℕ → Outcome (Unit {0})
slice_buffer buf_len n = if ltb buf_len n then panic else ok tt

-- The loop over chunks, on fuel; a round reads at least a record, so `count` rounds are enough.
module _ {S A : Type 0} (step : Bytes → ℕ → A → Outcome A) (section : Section S)
    (stride buf_len chunk from count : ℕ) where
  unfoldable pub read_chunks : ℕ → ℕ → A → S → Outcome (A × S)
  unfolding slice_buffer
  read_chunks zero done acc s = ok (acc, s)
  read_chunks (suc fuel) done acc s =
      let n = if slt count (add64 done chunk) then sub64 count done else chunk in
      let rest = (do
        slice_buffer buf_len (mul64 n stride)
        (buf, s') ← section.read (mul64 n stride) (mul64 (add64 from done) stride) s
        acc' ← step buf n acc
        read_chunks fuel (add64 done n) acc' s') in
      if slt done count then rest else ok (acc, s)

-- `1<<18/stride` panics on a stride of 0.
unfoldable pub read_separate_invalid :
    {S : Type 0} → Section S → ℕ → ℕ → ℕ → ℕ → S → Outcome (Bitset × S)
unfolding read_chunks extract_invalid_bits
read_separate_invalid section stride bit from count s =
    let chunk = 2 ^ 18 / stride + 1 in
    if stride == 0
    then panic
    else read_chunks (λ buf n dst. extract_invalid_bits dst buf stride n (bit / 8) bit) section
        stride (chunk * stride) chunk from count count 0 new_bitset s

unfoldable pub chunk_size : ℕ → ℕ → ℕ
chunk_size rec_size k =
    let auto = 2 ^ 20 / rec_size in if slt 0 k then k else if ltb auto 1 then 1 else auto

-- What is left of the specification, and the bit that is read from a separate stream, if there is one.
abbrev pub split_at :
    {S : Type 0} → Section S → ColumnSpec → Option ℕ → ColumnSpec × Option (Section S × ℕ)
split_at section spec none = (spec, none)
split_at section spec (some bit) = (record spec { inval_bit = none }, some (section, bit))

abbrev pub split_invalid :
    {S : Type 0} → Option (Section S) → ColumnSpec → ColumnSpec × Option (Section S × ℕ)
split_invalid none spec = (spec, none)
split_invalid (some section) spec = split_at section spec spec.inval_bit

module _ {ℓ} {W : Type ℓ} where
  -- What a conversion does to a column by the column's kind.
  abbrev convert_kind : Conversion W → Kind → Column W → Outcome (Column W)
  convert_kind c floats col =
      if textual c
      then (strings c col.f >>= λ xs. ok (record col { kind = texts; f = []; s = xs }))
      else (convert (some c) col.f col.f >>= λ xs. ok (record col { f = xs }))
  convert_kind c texts col =
      if textual c
      then (text_to_texts c col.s >>= λ xs. ok (record col { s = xs }))
      else if text_input (some c)
      then (from_texts c col.s >>= λ xs. ok (record col { kind = floats; s = []; f = xs }))
      else ok col
  convert_kind c _ col = ok col

  unfoldable pub apply_conversion : Column W → Option (Conversion W) → Outcome (Column W)
  apply_conversion col none = ok col
  apply_conversion col (some c) = convert_kind c col.kind col

module _ {W S : Type 0} (w : ToFloat W) where
  abbrev pub add_separate :
      Option (Section S × ℕ) → ℕ → ℕ → ℕ → Column W × S → Outcome (Column W × S)
  add_separate none stride from count r = ok r
  add_separate (some (section, bit)) stride from count (col, s) = do
    (flags, s') ← read_separate_invalid section stride bit from count s
    ok (record col { invalid = some flags }, s')

  -- `extractColumn` behind the specification.
  unfoldable pub extract_spec :
      ReadConfig → ColumnSpec → RecordLayout S → ℕ → ℕ → S → Outcome (Column W × S)
  unfolding refuse
  extract_spec cfg spec layout from count s =
      let split = split_invalid layout.inval spec in
      let rec_size = layout.rec_size in
      let chunk = chunk_size rec_size cfg.chunk_samples in
      do
        col ← new_column split.0 count
        (if count == 0 then ok (col, s) else (do
          refuse (rec_size == 0) out_of_bounds
          refuse (slt (layout.stream.size / rec_size) (add64 from count)) out_of_bounds
          make_slice 1 (mul64 chunk rec_size)
          r ←
              read_chunks (λ buf n c. extract w c split.0 buf rec_size n) layout.stream rec_size
                (mul64 chunk rec_size) chunk from count count 0 col s
          add_separate split.1 layout.inval_size from count r))

  unfoldable pub extract_column :
      ReadConfig
      → Channel
      → Option (Conversion W)
      → RecordLayout S
      → ℕ
      → ℕ
      → S
      → Outcome (Column W × S)
  extract_column cfg c conv layout from count s =
      extract_spec cfg (column_spec cfg c conv) layout from count s

  -- `read` of a channel that is neither virtual nor of variable length, with the first sample's number.
  unfoldable pub read_column :
      ReadConfig
      → Channel
      → Option (Conversion W)
      → RecordLayout S
      → ℕ
      → S
      → Outcome (Column W × ℕ × S)
  read_column cfg c conv layout total s = do
    range ← resolve_range cfg total
    r ← extract_column cfg c conv layout range.0 range.1 s
    col ← (if cfg.raw then ok r.0 else apply_conversion r.0 conv)
    ok (col, range.0, r.1)
