-- ===== src/Reading/Panics.antt =====
-- A count of samples that nothing has checked yet.
use native.Mathlib.Nat.{mul-le-mul_right}
use go_mdf.Base.{
  ℕ, ◌+◌, ◌*◌, ◌^◌, ◌≤◌, ◌<◌, ◌≡◌, refl, ◌∙◌, true, false, Option, none, some, ok, panic, arith,
  lt→ltb, max_alloc, ge→ltb,
}
use go_mdf.Blocks.Header.{add64, sub64, refuse}
use go_mdf.Conversion.Compile.{Conversion}
use go_mdf.DataSection.Resolve.{slt}
use go_mdf.DataSection.Reader.Laws.Layout.{slt-false}
use go_mdf.Records.Column.{
  Kind, floats, ints, uints, strings, blobs, ColumnSpec, native_kind, element_size, make_slice,
  new_column,
}
use go_mdf.Records.Extract.{ToFloat}
use go_mdf.Reading.{
  ReadConfig, Channel, RecordLayout, Section, resolve_range, split_at, split_invalid, column_spec,
  extract_spec, extract_column, read_column,
}

-- Two ways to ask for 2 ^ 60 samples or more: all samples of a group that counts so many cycles, or
-- a range whose end is no `int`.
pub data IsOversized (cfg : ReadConfig) (total : ℕ) : Type 0 where
  all_cycles : cfg.from ≡ 0 → slt cfg.count 0 ≡ true → 2 ^ 60 ≤ total → IsOversized cfg total
  past_end :
      2 ^ 60 ≤ cfg.count
      → cfg.count < 2 ^ 63
      → cfg.from ≤ total
      → 2 ^ 63 ≤ cfg.from + cfg.count
      → IsOversized cfg total

resolve_range-IsOversized :
    (cfg : ReadConfig) (total : ℕ)
    → total < 2 ^ 63
    → IsOversized cfg total
    → (n : ℕ) × (resolve_range cfg total ≡ ok (cfg.from, n)) × (2 ^ 60 ≤ n)
unfolding resolve_range refuse
resolve_range-IsOversized cfg total small (all_cycles z e h) =
    let whole : sub64 total cfg.from ≡ total = omega (arith, z, small) in
    (
      total,
      rw
          (
            slt-false cfg.from 0 (omega arith) (omega (arith, z)),
            slt-false total cfg.from (omega (arith, z)) small,
            e,
            whole,
          )
          refl,
      h,
    )
resolve_range-IsOversized cfg total small (past_end h k l m) =
    let negative : slt total (add64 cfg.from cfg.count) ≡ false =
      ge→ltb (add64 total (2 ^ 63)) (add64 (add64 cfg.from cfg.count) (2 ^ 63))
        (omega (arith, small, k, l, m)) in
    (
      cfg.count,
      rw
          (
            slt-false cfg.from 0 (omega arith) (omega (arith, l, small)),
            slt-false total cfg.from l small,
            slt-false cfg.count 0 (omega arith) k,
            negative,
          )
          refl,
      h,
    )

element_size-enough : (kind : Kind) → 8 ≤ element_size kind
element_size-enough floats = omega arith
element_size-enough ints = omega arith
element_size-enough uints = omega arith
element_size-enough strings = omega arith
element_size-enough blobs = omega arith

new_column-panic :
    {W : Type 0} (spec : ColumnSpec) (kind : Kind) (n : ℕ)
    → native_kind spec.data_type spec.as_float ≡ ok kind
    → 2 ^ 60 ≤ n
    → new_column {W = W} spec n ≡ panic
unfolding new_column make_slice
new_column-panic spec kind n e h =
    let most = mul-le-mul_right {m = 8} {n = element_size kind} n (element_size-enough kind) in
    rw (e, lt→ltb max_alloc (element_size kind * n) (omega (arith, most, h))) refl

split_invalid-native_kind :
    {S : Type 0} (inval : Option (Section S)) (spec : ColumnSpec)
    → native_kind (split_invalid inval spec).0.data_type (split_invalid inval spec).0.as_float
      ≡ native_kind spec.data_type spec.as_float
split_invalid-native_kind none spec = refl
split_invalid-native_kind (some section) spec = by_bit spec.inval_bit
  where
    by_bit :
        (bit : Option ℕ)
        → native_kind (split_at section spec bit).0.data_type (split_at section spec bit).0.as_float
          ≡ native_kind spec.data_type spec.as_float
    by_bit none = refl
    by_bit (some b) = refl

-- Such a read of a channel of a supported data type, in a group of less than 2 ^ 63 cycles, panics
-- in `make`, whatever the stream holds: the column is made before the count is compared with the
-- stream's size.
pub read_column_panics :
    {W S : Type 0} (w : ToFloat W) (cfg : ReadConfig) (c : Channel) (conv : Option (Conversion W))
    (layout : RecordLayout S) (total : ℕ) (s : S) (kind : Kind)
    → native_kind (column_spec cfg c conv).data_type (column_spec cfg c conv).as_float ≡ ok kind
    → total < 2 ^ 63
    → IsOversized cfg total
    → read_column w cfg c conv layout total s ≡ panic
unfolding read_column extract_column extract_spec
read_column_panics w cfg c conv layout total s kind e small h =
    let r = resolve_range-IsOversized cfg total small h in
    let spec = column_spec cfg c conv in
    rw
      (
        r.1,
        new_column-panic (split_invalid layout.inval spec).0 kind r.0
            (split_invalid-native_kind layout.inval spec ∙ e) r.2,
      )
      refl
