-- ===== src/Blocks/Array/Panics.antt =====
-- Blocks on which `DecodeCA` panics: one dimension of 2 ^ 64 - 1 elements.
use go_mdf.Base.{
  ℕ, suc, ◌≤◌, ◌^◌, ◌<◌, ◌≡◌, ◌∙◌, take, drop, List, [], ◌∷◌, ◌++◌, length, replicate, panic, ok,
  ◌-◌, All, arith, ◌>>=◌, ge→ltb,
}
use go_mdf.Base.Words.{Bytes, IsWord, index, slice, le_value, word_at, word_at-ok, field-ok}
use go_mdf.Blocks.Header.{add64, refuse, link}
use go_mdf.Blocks.Encode.{build}
use go_mdf.Blocks.Encode.RoundTrip.{decode_raw-build, length-file}
use go_mdf.Blocks.Array.{
  id_ca, decode_ca, read_dims, read_axes, read_counts, read_links_dg, make_words,
}

-- The data of an array block with that dimension: the storage, the lowest byte of the flags.
abbrev pub huge_dim : ℕ → ℕ → ℕ → Bytes → Bytes
huge_dim kind storage flags rest =
    kind ∷ storage ∷ 1 ∷ 0 ∷ flags ∷ (replicate 11 0 ++ (replicate 8 255 ++ rest))

module _ (before after rest : Bytes) (kind first : ℕ) (others : List ℕ)
    (words : All IsWord (first ∷ others)) where
  abbrev pub file : ℕ → ℕ → Bytes
  file storage flags =
      before ++ (build id_ca (first ∷ others) (huge_dim kind storage flags rest) ++ after)

  module _ (storage flags : ℕ) where
    abbrev d : Bytes
    d = huge_dim kind storage flags rest

    long : 24 ≤ length d
    long = omega arith

    one_dim : read_dims 1 16 0 1 d ≡ ok ((2 ^ 64 - 1) ∷ [], 2 ^ 64 - 1, 2 ^ 64 - 1)
    unfolding read_dims word_at le_value
    one_dim = rw (word_at-ok d 16 long)

    low_flags : le_value (take 4 (drop 4 d)) ≡ flags
    low_flags = unfold le_value in omega arith

    -- What `DecodeCA` does with the block before its arrays.
    arrays :
        length (file storage flags) < 2 ^ 63
        → decode_ca (file storage flags) (length before) ≡ (do
          (axes, pos) ← read_axes flags (2 ^ 64 - 1) 24 d
          counts ← read_counts storage (2 ^ 64 - 1) pos d
          elements ← read_links_dg storage (2 ^ 64 - 1) (first ∷ others)
          ok (record {
            composition = first;
            links = elements;
            ca_type = kind;
            storage = storage;
            flags = flags;
            byte_offset_base = 0;
            inval_bit_pos_base = 0;
            dim_size = (2 ^ 64 - 1) ∷ [];
            axis_values = axes;
            cycle_counts = counts;
          }))
    unfolding decode_ca index le_value link refuse
    arrays small = rw (
      decode_raw-build b'C' b'A' (first ∷ others) d before after words small 1 16 (omega arith)
          (omega arith),
      field-ok d 2 2 (omega arith),
      field-ok d 4 4 (omega arith),
      field-ok d 8 4 (omega arith),
      field-ok d 12 4 (omega arith),
      ge→ltb (length d) 24 long,
      one_dim,
      low_flags,
    )

  -- An array of data groups (storage 2) with 2 ^ 64 - 1 elements makes `DecodeCA` panic: the check
  -- of the number of links passes, since its right side wraps to 0, and the slice of the links runs
  -- from 1 to 0.
  pub decode_ca_panics : length (file 2 0) < 2 ^ 63 → decode_ca (file 2 0) (length before) ≡ panic
  unfolding read_axes read_counts read_links_dg refuse slice
  decode_ca_panics small = arrays 2 0 small ∙ rw (ge→ltb (suc (length others)) 0 (omega arith))

  axes_panic :
      (storage : ℕ)
      → length (file storage 32) < 2 ^ 63
      → read_axes 32 (2 ^ 64 - 1) 24 (d storage 32) ≡ panic
  unfolding read_axes make_words
  axes_panic storage small = rw (
      ge→ltb (add64 (length (d storage 32)) (2 ^ 63)) (add64 16 (2 ^ 63)) (
        omega (
          arith,
          long storage 32,
          small,
          length-file b'C' b'A' (first ∷ others) (d storage 32) before after words,
        )))

  -- So does one whose axis values are in the block (flag 5), in any storage: a negative number of
  -- bytes passes the check of the data's length, and so many values cannot be made.
  pub decode_ca_panics_on_axes :
      (storage : ℕ)
      → length (file storage 32) < 2 ^ 63
      → decode_ca (file storage 32) (length before) ≡ panic
  unfolding read_axes make_words
  decode_ca_panics_on_axes storage small = arrays storage 32 small ∙ rw (axes_panic storage small)
