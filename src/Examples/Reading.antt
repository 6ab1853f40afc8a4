-- ===== src/Examples/Reading.antt =====
-- A channel of one byte in the two records of a section, read in chunks of one record.
use go_mdf.Base.{ℕ, ◌-◌, ◌≡◌, ◌^◌, refl, false, none, Option, [], ◌∷◌, arith, ok, panic}
use go_mdf.Base.Words.{index, slice_from}
use go_mdf.Blocks.Header.{refuse}
use go_mdf.DataSection.Lru.{Lru, new_lru}
use go_mdf.DataSection.Reader.{Prefetch}
use go_mdf.DataSection.Reader.Laws.{IsFilled, new-IsFilled}
use go_mdf.Conversion.Compile.{Conversion}
use go_mdf.Records.Column.{uints, native_kind, new_column, make_slice}
use go_mdf.Records.Extract.{
  ToFloat, samples, extract, extract_samples, extract_ints, append_ints, int_get, fast_get,
}
use go_mdf.Reading.{
  ReadConfig, Channel, RecordLayout, new_read_config, with_range, resolve_range, chunk_size,
  column_spec, extract_column, read_column,
}
use go_mdf.Reading.Sound.{Does}
use go_mdf.Reading.Laws.{extract_whole, extract_column-extract}
use go_mdf.Reading.Panics.{IsOversized, read_column_panics}
use go_mdf.Reading.Sections.{reader_section, reader_section-IsSection}
use go_mdf.Examples.Reader.{nines, src, segs, stream, laid, All-IsSafe}

abbrev exact : ToFloat ℕ
exact = record { of_bits = λ n. n; of_bits32 = λ n. n; of_int = λ n. n; of_uint = λ n. n }

abbrev byte_channel : Channel
byte_channel = record {
  cn = record {
    next = 0;
    composition = 0;
    name = 0;
    source = 0;
    conversion = 0;
    signal = 0;
    unit = 0;
    comment = 0;
    at_reference = [];
    default_x = [];
    cn_type = 0;
    sync_type = 0;
    data_type = 0;
    bit_offset = 0;
    byte_offset = 2;
    bit_count = 8;
    flags = 0;
    inval_bit_pos = 0;
    precision = 0;
    attachment_count = 0;
    ranges = [];
  };
  channel_type = 0;
  is_array = false;
  data_bytes = 3;
}

abbrev layout : RecordLayout Lru
layout = record {
  stream = reader_section nines src segs 6 (λ n off c. c);
  inval = none;
  rec_size = 3;
  inval_size = 0;
}

abbrev one_by_one : ReadConfig
one_by_one = record { raw = false; from = 0; count = 2 ^ 64 - 1; chunk_samples = 1 }

abbrev plain : Option (Conversion ℕ)
plain = none

extract_column-extract_example :
    Does
      (IsFilled nines src segs)
      (extract_column exact one_by_one byte_channel plain layout 0 2 (new_lru 100))
      (extract_whole exact (column_spec one_by_one byte_channel plain) layout stream [] 0 2)
unfolding chunk_size
extract_column-extract_example =
    extract_column-extract exact (IsFilled nines src segs) 0 1 one_by_one byte_channel plain layout
      stream [] (new_lru 100)
      (reader_section-IsSection nines src segs stream (λ n off c. c) (omega arith) laid
        (omega arith) All-IsSafe λ n off c. Prefetch.done)
      (record { positive = omega arith; bound = omega arith; enough = omega arith })
      (λ section e. cc) (omega arith) (omega arith) (omega arith) (omega arith)
      (new-IsFilled nines src segs 100)

-- The last byte of each record.
samples_read :
    extract_whole exact (column_spec one_by_one byte_channel plain) layout stream [] 0 2
    ≡ ok (record { kind = uints; f = []; i = []; u = 4 ∷ 9 ∷ []; s = []; b = []; invalid = none })
unfolding column_spec new_column make_slice native_kind refuse extract extract_samples extract_ints
    append_ints int_get fast_get samples slice_from index
samples_read = refl

-- WithRange(1, math.MaxInt) of a group of two records.
read_column_panics_example :
    read_column exact
      (with_range 1 (2 ^ 63 - 1) new_read_config)
      byte_channel
      plain
      layout
      2
      (new_lru 100)
    ≡ panic
unfolding with_range new_read_config column_spec native_kind
read_column_panics_example =
    read_column_panics exact (with_range 1 (2 ^ 63 - 1) new_read_config) byte_channel plain layout 2
      (new_lru 100) uints refl (omega arith)
      (IsOversized.past_end (omega arith) (omega arith) (omega arith) (omega arith))

-- A group that counts 2 ^ 60 cycles.
cycles_panic :
    read_column exact new_read_config byte_channel plain layout (2 ^ 60) (new_lru 100) ≡ panic
unfolding new_read_config column_spec native_kind
cycles_panic =
    read_column_panics exact new_read_config byte_channel plain layout (2 ^ 60) (new_lru 100) uints
      refl (omega arith) (IsOversized.all_cycles refl refl (omega arith))

range_clamped : resolve_range (with_range 3 10 new_read_config) 8 ≡ ok (3, 5)
unfolding resolve_range with_range new_read_config refuse
range_clamped = refl
