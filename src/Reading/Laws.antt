-- ===== src/Reading/Laws.antt =====
-- The chunks in which a channel is read are not seen in what is read.
use native.Mathlib.Nat.{
  add-mul, mul-le-mul_right, mul_comm, div-mul-le_self, div-le_self, le-div_iff_mul-le,
}
use go_mdf.Base.{
  ℕ, suc, ◌+◌, ◌*◌, ◌/◌, ◌^◌, ◌≤◌, ◌<◌, ◌≡◌, refl, sym, ap, ◌∙◌, false, Bool-cases, inl, inr,
  Option, none, some, ltb, ◌==◌, ltb→lt, ltb→ge, ge→ltb, max_alloc, length, Outcome, bind_assoc, ok,
  ◌>>=◌, arith,
}
use go_mdf.Base.Words.{Bytes}
use go_mdf.Blocks.Header.{add64, mul64, refuse}
use go_mdf.Conversion.Compile.{Conversion}
use go_mdf.DataSection.Resolve.{slt}
use go_mdf.DataSection.Reader.Laws.Layout.{slt-false}
use go_mdf.Records.Bitset.{new_bitset}
use go_mdf.Records.Column.{ColumnSpec, Column, make_slice, new_column}
use go_mdf.Records.Extract.{ToFloat, extract_invalid_bits, extract}
use go_mdf.Records.Extract.Local.{window}
use go_mdf.Records.Extract.Flags.{extract_invalid_bits-add}
use go_mdf.Records.Extract.Windows.{extract-add}
use go_mdf.Reading.{
  ReadConfig, Channel, Section, RecordLayout, read_separate_invalid, chunk_size, split_at,
  split_invalid, add_separate, column_spec, extract_spec, extract_column,
}
use go_mdf.Reading.Sound.{IsSection, Does, Does-bind, Does-seq}
use go_mdf.Reading.Chunks.{read_chunks-all}

-- The records of a range are in a stream.
pub record Holds (whole : Bytes) (stride from count : ℕ) : Type 0 where
  pub positive : 1 ≤ stride
  pub bound : length whole < 2 ^ 63
  pub enough : (from + count) * stride ≤ length whole

Holds-bound :
    (whole : Bytes) (stride from count : ℕ) → Holds whole stride from count → from + count < 2 ^ 63
Holds-bound whole stride from count h =
    let one = mul-le-mul_right {m = 1} {n = stride} (from + count) h.positive in
    omega (arith, one, h.bound, h.enough, mul_comm stride (from + count))

chunk_size-positive : (rec_size k : ℕ) → 1 ≤ chunk_size rec_size k
unfolding chunk_size
chunk_size-positive rec_size k = elim (Bool-cases (slt 0 k)) [
  | inl e ↦ rw e (omega (arith, ltb→lt (add64 0 (2 ^ 63)) (add64 k (2 ^ 63)) e))
  | inr e ↦ elim (Bool-cases (ltb (2 ^ 20 / rec_size) 1)) [
    | inl a ↦ rw (e, a) (omega arith)
    | inr a ↦ rw (e, a) (ltb→ge (2 ^ 20 / rec_size) 1 a)
  ]
]

-- The flags that a separate stream gives to a range of records.
abbrev pub flags_apart :
    {W S : Type 0} → Option (Section S × ℕ) → Bytes → ℕ → ℕ → ℕ → Column W → Outcome (Column W)
flags_apart none apart stride from count c = ok c
flags_apart (some (section, bit)) apart stride from count c = do
  flags ←
      extract_invalid_bits new_bitset (window apart stride from count) stride count (bit / 8) bit
  ok (record c { invalid = some flags })

-- One extraction from all records of the range.
abbrev pub extract_whole :
    {W S : Type 0}
    → ToFloat W
    → ColumnSpec
    → RecordLayout S
    → Bytes
    → Bytes
    → ℕ
    → ℕ
    → Outcome (Column W)
extract_whole w spec layout whole apart from count =
    let split = split_invalid layout.inval spec in
    do
      col ← new_column split.0 count
      c ← extract w col split.0 (window whole layout.rec_size from count) layout.rec_size count
      flags_apart split.1 apart layout.inval_size from count c

section_of : {S : Type 0} → Option (Section S × ℕ) → Option (Section S)
section_of none = none
section_of (some (section, bit)) = some section

split_at-section :
    {S : Type 0} (section : Section S) (spec : ColumnSpec) (bit : Option ℕ) (r : Section S × ℕ)
    → (split_at section spec bit).1 ≡ some r
    → some section ≡ some r.0
unfolding section_of
split_at-section section spec none r e = cc
split_at-section section spec (some bit) r e = ap section_of e

split_invalid-section :
    {S : Type 0} (inval : Option (Section S)) (spec : ColumnSpec) (r : Section S × ℕ)
    → (split_invalid inval spec).1 ≡ some r
    → inval ≡ some r.0
split_invalid-section none spec r e = cc
split_invalid-section (some section) spec r e = split_at-section section spec spec.inval_bit r e

module _ {W S : Type 0} (w : ToFloat W) (Valid : S → Type 0) (from rest : ℕ) where
  add_separate-Does :
      (sep : Option (Section S × ℕ)) (apart : Bytes) (stride : ℕ) (c : Column W) (s : S)
      → ((r : Section S × ℕ)
          → sep ≡ some r
          → IsSection r.0 Valid apart × Holds apart stride from (suc rest))
      → stride < 2 ^ 32
      → suc rest < 2 ^ 62
      → Valid s
      → Does Valid
          (add_separate w sep stride from (suc rest) (c, s))
          (flags_apart sep apart stride from (suc rest) c)
  unfolding read_separate_invalid
  add_separate-Does none apart stride c s i small few v = (s, refl, v)
  add_separate-Does (some (section, bit)) apart stride c s i small few v =
      let h = i (section, bit) refl in
      let held = h.1 in
      let chunk = 2 ^ 18 / stride + 1 in
      let nonzero : (stride == 0) ≡ false = ground (arith, held.positive) in
      let most : chunk * stride ≤ 2 ^ 18 + stride =
        omega (arith, div-mul-le_self (2 ^ 18) stride, add-mul (2 ^ 18 / stride) 1 stride) in
      let index = Holds-bound apart stride from (suc rest) held in
      let flags =
        extract_invalid_bits new_bitset (window apart stride from (suc rest)) stride (suc rest)
          (bit / 8) bit in
      let r =
        read_chunks-all section Valid apart h.0
          (λ buf n dst. extract_invalid_bits dst buf stride n (bit / 8) bit) stride (chunk * stride)
          chunk from (suc rest)
          (λ k a b dst e. extract_invalid_bits-add apart stride (bit / 8) bit k a b dst e)
          (omega arith) (omega (arith, few, div-le_self (2 ^ 18) stride)) (omega arith)
          (omega (arith, most, small)) held.bound held.enough index rest new_bitset s refl v in
      rw nonzero (
        r.0,
        ap (λ t. t >>= λ x. ok (record c { invalid = some x.0 }, x.1)) r.1
            ∙ bind_assoc flags _ _
            ∙ sym (bind_assoc flags _ _),
        r.2,
      )

  -- Whatever the conversion that follows, the number of samples in a chunk does not matter.
  extract_spec-Does :
      (cfg : ReadConfig) (spec : ColumnSpec) (layout : RecordLayout S) (whole apart : Bytes) (s : S)
      → IsSection layout.stream Valid whole
      → Holds whole layout.rec_size from (suc rest)
      → ((section : Section S)
          → layout.inval ≡ some section
          → IsSection section Valid apart × Holds apart layout.inval_size from (suc rest))
      → layout.inval_size < 2 ^ 32
      → suc rest < 2 ^ 62
      → chunk_size layout.rec_size cfg.chunk_samples < 2 ^ 62
      → chunk_size layout.rec_size cfg.chunk_samples * layout.rec_size ≤ max_alloc
      → Valid s
      → Does Valid
          (extract_spec w cfg spec layout from (suc rest) s)
          (extract_whole w spec layout whole apart from (suc rest))
  unfolding extract_spec refuse make_slice
  extract_spec-Does cfg spec layout whole apart s i held separate small few chunked fits v =
      let split = split_invalid layout.inval spec in
      let rec_size = layout.rec_size in
      let chunk = chunk_size rec_size cfg.chunk_samples in
      let nonzero : (rec_size == 0) ≡ false = ground (arith, held.positive) in
      let some_records : (suc rest == 0) ≡ false = ground arith in
      let index = Holds-bound whole rec_size from (suc rest) held in
      let sum : add64 from (suc rest) ≡ from + suc rest = omega (arith, index) in
      let bytes : mul64 chunk rec_size ≡ chunk * rec_size = omega (arith, fits) in
      let total : slt (layout.stream.size / rec_size) (from + suc rest) ≡ false =
        ap (λ n. slt (n / rec_size) (from + suc rest)) i.same_size
        ∙ slt-false (length whole / rec_size) (from + suc rest)
            ((le-div_iff_mul-le held.positive).1 held.enough)
            (omega (arith, div-le_self (length whole) rec_size, held.bound)) in
      let one : 1 * (chunk * rec_size) ≡ chunk * rec_size = omega arith in
      let step = λ (buf : Bytes) (n : ℕ) (c : Column W). extract w c split.0 buf rec_size n in
      Does-bind Valid s (new_column split.0 (suc rest)) _ _ v (λ col.
        rw (some_records, nonzero, sum, total, bytes, one, ge→ltb max_alloc (chunk * rec_size) fits)
          (Does-seq Valid _
            (extract w col split.0 (window whole rec_size from (suc rest)) rec_size (suc rest)) _ _
            (read_chunks-all layout.stream Valid whole i step rec_size (chunk * rec_size) chunk from
              (suc rest) (λ k a b c e. extract-add w split.0 whole rec_size c k a b e)
              (chunk_size-positive rec_size cfg.chunk_samples) (omega (arith, few, chunked))
              (omega arith) (omega (arith, fits)) held.bound held.enough index rest col s refl v)
            (λ c after ok_after.
              add_separate-Does split.1 apart layout.inval_size c after
                (λ r e. separate r.0 (split_invalid-section layout.inval spec r e)) small few
                ok_after)))

  -- Reading a range of at least one record in chunks does what one extraction from all records of
  -- the range does, invalidation flags included, whatever the number of samples in a chunk: if the
  -- sections return the bytes of their streams, the range is inside of them, a chunk
  -- takes no more bytes than `make` allocates, and the sizes of range and streams do not overflow.
  pub extract_column-extract :
      (cfg : ReadConfig) (c : Channel) (conv : Option (Conversion W)) (layout : RecordLayout S)
      (whole apart : Bytes) (s : S)
      → IsSection layout.stream Valid whole
      → Holds whole layout.rec_size from (suc rest)
      → ((section : Section S)
          → layout.inval ≡ some section
          → IsSection section Valid apart × Holds apart layout.inval_size from (suc rest))
      → layout.inval_size < 2 ^ 32
      → suc rest < 2 ^ 62
      → chunk_size layout.rec_size cfg.chunk_samples < 2 ^ 62
      → chunk_size layout.rec_size cfg.chunk_samples * layout.rec_size ≤ max_alloc
      → Valid s
      → Does Valid
          (extract_column w cfg c conv layout from (suc rest) s)
          (extract_whole w (column_spec cfg c conv) layout whole apart from (suc rest))
  unfolding extract_column
  extract_column-extract cfg c conv layout whole apart s =
      extract_spec-Does cfg (column_spec cfg c conv) layout whole apart s
