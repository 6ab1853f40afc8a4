-- ===== src/Blocks/Array.antt =====
-- internal/blocks/ca.go: channel arrays. The sum of the dimensions is an `int` and their product a
-- `uint64`, and both wrap.
pub mod Laws
pub mod Panics
use go_mdf.Base.{
  ℕ, zero, suc, ◌+◌, ◌*◌, ◌^◌, Bool, ◌&&◌, not, List, [], ◌∷◌, ltb, leb, ◌==◌, if◌then◌else◌,
  length, Outcome, ok, panic, ◌>>=◌, ◌>>◌, invalid_block,
}
use go_mdf.Base.Words.{Bytes, index, slice, slice_from, le_uint}
use go_mdf.Blocks.Header.{add64, mul64, refuse, Raw, decode_raw, link}
use go_mdf.Blocks.Lists.{has_flag}
use go_mdf.Blocks.Fields.{field, read_words}

abbrev pub id_ca : Bytes
id_ca = b'#' ∷ b'#' ∷ b'C' ∷ b'A' ∷ []

-- Axis values are bit patterns.
pub record Ca : Type 0 where
  pub composition : ℕ
  pub links : List ℕ
  pub ca_type : ℕ
  pub storage : ℕ
  pub flags : ℕ
  pub byte_offset_base : ℕ
  pub inval_bit_pos_base : ℕ
  pub dim_size : List ℕ
  pub axis_values : List ℕ
  pub cycle_counts : List ℕ

-- The dimensions, from `pos` on, with their sum and their product so far.
unfoldable pub read_dims : ℕ → ℕ → ℕ → ℕ → Bytes → Outcome (List ℕ × ℕ × ℕ)
read_dims zero pos sum prod d = ok ([], sum, prod)
read_dims (suc n) pos sum prod d = do
  w ← (slice_from d pos >>= le_uint 8)
  (dims, s, p) ← read_dims n (pos + 8) (add64 sum w) (mul64 prod w) d
  ok (w ∷ dims, s, p)

-- `a < b` on `int`s by their bit patterns.
abbrev int_lt : ℕ → ℕ → Bool
int_lt a b = ltb (add64 a (2 ^ 63)) (add64 b (2 ^ 63))

-- `make([]T, n)` for elements of eight bytes panics if `n` is negative, or too large for an `int`
-- to count the bytes. For a smaller `n` the callers have checked that the block holds as many words,
-- so the runtime's limit is not reached in a file that is below it.
unfoldable pub make_words : ℕ → ℕ → Bytes → Outcome (List ℕ)
make_words n pos d = if leb (2 ^ 63) (8 * n) then panic else read_words n pos d

-- The axis values, and where they end.
unfoldable pub read_axes : ℕ → ℕ → ℕ → Bytes → Outcome (List ℕ × ℕ)
unfolding make_words
read_axes flags sum pos d =
    if has_flag flags 32 && not (int_lt (length d) (add64 pos (mul64 8 sum)))
    then (do axes ← make_words sum pos d; ok (axes, add64 pos (mul64 8 sum)))
    else ok ([], pos)

unfoldable pub read_counts : ℕ → ℕ → ℕ → Bytes → Outcome (List ℕ)
read_counts storage prod pos d =
    if not (storage == 0) && (leb prod (2 ^ 20) && not (int_lt (length d) (add64 pos (8 * prod))))
    then read_words prod pos d
    else ok []

-- A bound `1+prod` that has wrapped to 0 lies below the other bound, which panics.
unfoldable pub read_links_dg : ℕ → ℕ → List ℕ → Outcome (List ℕ)
read_links_dg storage prod links =
    if storage == 2
    then (do refuse (ltb (length links) (add64 1 prod)) invalid_block; slice links 1 (add64 1 prod))
    else ok []

unfoldable pub decode_ca : Bytes → ℕ → Outcome Ca
decode_ca src addr = do
  r ← decode_raw src addr id_ca 1 16
  ca_type ← index r.content 0
  storage ← index r.content 1
  nd ← field 2 r.content 2
  flags ← field 4 r.content 4
  base ← field 4 r.content 8
  inval ← field 4 r.content 12
  refuse (ltb (length r.content) (16 + 8 * nd)) invalid_block
  (dims, sum, prod) ← read_dims nd 16 0 1 r.content
  (axes, pos) ← read_axes flags sum (16 + 8 * nd) r.content
  counts ← read_counts storage prod pos r.content
  elements ← read_links_dg storage prod r.links
  ok (record {
    composition = link r 0;
    links = elements;
    ca_type = ca_type;
    storage = storage;
    flags = flags;
    byte_offset_base = base;
    inval_bit_pos_base = inval;
    dim_size = dims;
    axis_values = axes;
    cycle_counts = counts;
  })
