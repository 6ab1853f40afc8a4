-- ===== src/Records/Extract.antt =====
-- internal/records/extract.go and the loop of strings.go: samples from records, a column at a time.
pub mod Local
pub mod Laws
pub mod Flags
pub mod Windows
use Prim.Native.Nat.{bit_and, bit_or}
use go_mdf.Base.{
  ℕ, zero, suc, ◌+◌, ◌-◌, ◌*◌, ◌/◌, ◌%◌, ◌^◌, Bool, true, false, ◌&&◌, ◌||◌, not, Option, none,
  some, List, [], ◌∷◌, ◌++◌, ltb, leb, ◌==◌, if◌then◌else◌, length, Outcome, ok, err, panic, ◌>>=◌,
  ◌>>◌, out_of_bounds, unsupported,
}
use go_mdf.Base.Words.{Bytes, le_uint, be_uint, slice, slice_from, index}
use go_mdf.Base.Uint64.{shl}
use go_mdf.Blocks.Header.{refuse}
use go_mdf.Dbc.Sign.{sar}
use go_mdf.Records.BitField.{bit_field}
use go_mdf.Records.Bitset.{Bitset, append}
use go_mdf.Records.Column.{Kind, floats, ints, uints, ColumnSpec, Column}
use go_mdf.Records.Strings.{decode_string}

-- Conversions to `float64`.
pub record ToFloat {ℓ} (W : Type ℓ) : Type ℓ where
  pub of_bits : ℕ → W
  pub of_bits32 : ℕ → W
  pub of_int : ℕ → W
  pub of_uint : ℕ → W

abbrev pub is_floats : Kind → Bool
is_floats floats = true
is_floats _ = false

-- The bytes of record `r` from `off` on, and what follows the record.
abbrev pub at_record : Bytes → ℕ → ℕ → ℕ → Outcome Bytes
at_record buf rec_size off r = slice_from buf (r * rec_size + off)

-- A loop over `n` records, from record `r` on.
unfoldable pub samples {ℓ} :
    {A : Type ℓ} → (Bytes → Outcome A) → Bytes → ℕ → ℕ → ℕ → ℕ → Outcome (List A)
samples get buf rec_size off zero r = ok []
samples get buf rec_size off (suc n) r = do
  p ← at_record buf rec_size off r
  x ← get p
  xs ← samples get buf rec_size off n (suc r)
  ok (x ∷ xs)

module _ {ℓ} {W : Type ℓ} where
  abbrev pub push_f : Column W → List W → Column W
  push_f c xs = record c { f = c.f ++ xs }

  abbrev pub push_i : Column W → List ℕ → Column W
  push_i c xs = record c { i = c.i ++ xs }

  abbrev pub push_u : Column W → List ℕ → Column W
  push_u c xs = record c { u = c.u ++ xs }

  abbrev pub push_s : Column W → List Bytes → Column W
  push_s c xs = record c { s = c.s ++ xs }

  abbrev pub push_b : Column W → List Bytes → Column W
  push_b c xs = record c { b = c.b ++ xs }

-- The readers of whole words, `none` where there is none.
unfoldable pub fast_get : ℕ → Bool → Option (Bytes → Outcome ℕ)
fast_get bits big_e =
    if bits == 8
    then some (λ p. index p 0)
    else if bits == 16
    then some (if big_e then be_uint 2 else le_uint 2)
    else if bits == 32
    then some (if big_e then be_uint 4 else le_uint 4)
    else if bits == 64
    then some (if big_e then be_uint 8 else le_uint 8)
    else none

-- The reader that `extractInts` picks.
unfoldable pub int_get : ColumnSpec → Bool → Bool → Bytes → Outcome ℕ
unfolding fast_get
int_get spec aligned big_e =
    let generic : Bytes → Outcome ℕ = λ p. bit_field p spec.bit_offset spec.bit_count big_e in
    if aligned
    then elim (fast_get spec.bit_count big_e) [ none ↦ generic | some get ↦ get ]
    else generic

-- `int64(v<<shift) >> shift` with `shift := 64 - bits`, a uint32.
unfoldable pub signed_sample : ℕ → ℕ → ℕ
signed_sample bits v = let shift = (64 + 2 ^ 32 - bits) % 2 ^ 32 in sar (shl v shift) shift

-- The normalisation of a subnormal: shifts until bit 10 is set. Ten rounds are enough.
unfoldable pub normalize : ℕ → ℕ → ℕ → ℕ × ℕ
normalize zero frac e = (frac, e)
normalize (suc n) frac e =
    let rest = normalize n (frac * 2) (e - 1) in if bit_and frac 0x400 == 0 then rest else (frac, e)

unfoldable pub half_bits : ℕ → ℕ
unfolding normalize
half_bits h =
    let sign = shl (h / 2 ^ 15) 63 in
    let exp = bit_and (h / 2 ^ 10) 0x1f in
    let frac = bit_and h 0x3ff in
    let norm = normalize 10 frac 1009 in
    if exp == 0
    then (if frac == 0
        then sign
        else bit_or (bit_or sign (shl norm.1 52)) (shl (bit_and norm.0 0x3ff) 42))
    else if exp == 0x1f
    then bit_or (bit_or sign (shl 0x7ff 52)) (shl frac 42)
    else bit_or (bit_or sign (shl (exp + 1023 - 15) 52)) (shl frac 42)

module _ {ℓ} {W : Type ℓ} (w : ToFloat W) where
  abbrev pub mapped {κ} : {A : Type κ} → (Bytes → Outcome ℕ) → (ℕ → A) → Bytes → Outcome A
  mapped get g p = do v ← get p; ok (g v)

  unfoldable pub append_ints :
      Column W → ColumnSpec → Bytes → ℕ → ℕ → Bool → (Bytes → Outcome ℕ) → Outcome (Column W)
  unfolding signed_sample
  append_ints col spec buf rec_size n signed get =
      let off = spec.byte_offset in
      if signed
      then (if is_floats col.kind
          then (samples (mapped get λ v. w.of_int (signed_sample spec.bit_count v)) buf rec_size off
                n 0
              >>= λ xs. ok (push_f col xs))
          else (samples (mapped get (signed_sample spec.bit_count)) buf rec_size off n 0 >>= λ xs.
              ok (push_i col xs)))
      else if is_floats col.kind
      then (samples (mapped get w.of_uint) buf rec_size off n 0 >>= λ xs. ok (push_f col xs))
      else (samples get buf rec_size off n 0 >>= λ xs. ok (push_u col xs))

  unfoldable pub extract_ints : Column W → ColumnSpec → Bytes → ℕ → ℕ → Bool → Outcome (Column W)
  unfolding append_ints int_get
  extract_ints col spec buf rec_size n aligned =
      let t = spec.data_type in
      append_ints col spec buf rec_size n (t == 2 || t == 3)
        (int_get spec aligned (t == 1 || t == 3))

  unfoldable pub float_get : ℕ → Bool → Option (Bytes → Outcome W)
  unfolding half_bits
  float_get bits big_e =
      if bits == 64
      then some (mapped (if big_e then be_uint 8 else le_uint 8) w.of_bits)
      else if bits == 32
      then some (mapped (if big_e then be_uint 4 else le_uint 4) w.of_bits32)
      else if bits == 16
      then some (mapped (if big_e then be_uint 2 else le_uint 2) λ h. w.of_bits (half_bits h))
      else none

  unfoldable pub extract_floats : Column W → ColumnSpec → Bytes → ℕ → ℕ → Bool → Outcome (Column W)
  unfolding float_get
  extract_floats col spec buf rec_size n aligned =
      if aligned
      then elim (float_get spec.bit_count (spec.data_type == 5)) [
        | none ↦ err unsupported
        | some get ↦ (samples get buf rec_size spec.byte_offset n 0 >>= λ xs. ok (push_f col xs))
      ]
      else err unsupported

  -- `p[:nBytes]` of each record, decoded or copied.
  abbrev pub head_of {κ} : {A : Type κ} → ℕ → (Bytes → A) → Bytes → Outcome A
  head_of n_bytes g p = do q ← slice p 0 n_bytes; ok (g q)

  -- The samples of `extract`, by data type.
  unfoldable pub extract_samples : Column W → ColumnSpec → Bytes → ℕ → ℕ → Outcome (Column W)
  unfolding extract_ints extract_floats decode_string
  extract_samples col spec buf rec_size n =
      let t = spec.data_type in
      let n_bytes = spec.bit_count / 8 in
      let aligned = spec.bit_offset == 0 && spec.bit_count % 8 == 0 in
      if leb t 3
      then extract_ints col spec buf rec_size n aligned
      else if leb t 5
      then extract_floats col spec buf rec_size n aligned
      else if leb t 9
      then (if aligned
          then (samples (head_of n_bytes λ q. decode_string q t) buf rec_size spec.byte_offset n 0
              >>= λ xs. ok (push_s col xs))
          else err unsupported)
      else if leb t 14
      then (samples (head_of n_bytes λ q. q) buf rec_size spec.byte_offset n 0 >>= λ xs.
          ok (push_b col xs))
      else err unsupported

-- The loop of `extractInvalid` and of `ExtractInvalidBits`, for `n` entries from entry `r` on.
unfoldable pub flag_loop : Bytes → ℕ → ℕ → ℕ → ℕ → ℕ → Bitset → Outcome Bitset
flag_loop buf stride byte_idx mask zero r dst = ok dst
flag_loop buf stride byte_idx mask (suc n) r dst = do
  b ← index buf (r * stride + byte_idx)
  dst' ← append dst (not (bit_and b mask == 0))
  flag_loop buf stride byte_idx mask n (suc r) dst'

unfoldable pub extract_invalid_bits : Bitset → Bytes → ℕ → ℕ → ℕ → ℕ → Outcome Bitset
unfolding flag_loop
extract_invalid_bits dst buf stride n byte_idx bit =
    if leb stride byte_idx then ok dst else flag_loop buf stride byte_idx (2 ^ (bit % 8)) n 0 dst

module _ {ℓ} {W : Type ℓ} (w : ToFloat W) where
  -- The flags, for a column that keeps them; a shift by -1 panics.
  abbrev pub extract_flags :
      Option Bitset → Option ℕ → ColumnSpec → Bytes → ℕ → ℕ → Outcome (Option Bitset)
  extract_flags (some dst) (some bit) spec buf rec_size n = do
    flags ← extract_invalid_bits dst buf rec_size n (spec.data_bytes + bit / 8) bit
    ok (some flags)
  extract_flags (some dst) none spec buf rec_size n = panic
  extract_flags none bit spec buf rec_size n = ok none

  unfoldable pub extract : Column W → ColumnSpec → Bytes → ℕ → ℕ → Outcome (Column W)
  unfolding extract_samples extract_invalid_bits
  extract col spec buf rec_size n = do
    refuse (ltb (length buf) (rec_size * n)) out_of_bounds
    refuse (ltb rec_size (spec.byte_offset + (spec.bit_offset + spec.bit_count + 7) / 8))
        out_of_bounds
    c ← extract_samples w col spec buf rec_size n
    flags ← extract_flags c.invalid spec.inval_bit spec buf rec_size n
    ok (record c { invalid = flags })
