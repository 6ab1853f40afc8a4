-- ===== src/Blocks/Header.antt =====
-- internal/blocks/block.go: the common header, and a block cut into links and data.
-- A length, a count and a link are 64-bit words; arithmetic on them wraps.
pub mod Laws
use go_mdf.Base.{
  ℕ, zero, suc, ◌+◌, ◌-◌, ◌*◌, ◌/◌, ◌%◌, ◌^◌, Bool, true, false, ◌&&◌, ◌||◌, not, List, [], ◌∷◌,
  ◌++◌, ltb, leb, ◌==◌, if◌then◌else◌, length, get_or, Outcome, ok, err, panic, ◌>>=◌, ◌>>◌, Error,
  invalid_block,
}
use go_mdf.Base.Words.{Bytes, index, slice, slice_from, le_uint}
use go_mdf.Source.{slice_at}

abbrev pub header_size : ℕ
header_size = 24

abbrev pub link_size : ℕ
link_size = 8

-- Arithmetic on `uint64` and on the patterns of `int64`.
abbrev pub add64 : ℕ → ℕ → ℕ
add64 a b = (a + b) % 2 ^ 64

abbrev pub sub64 : ℕ → ℕ → ℕ
sub64 a b = (a + 2 ^ 64 - b) % 2 ^ 64

abbrev pub mul64 : ℕ → ℕ → ℕ
mul64 a b = a * b % 2 ^ 64

-- `a == b` on strings.
unfoldable pub same_bytes : Bytes → Bytes → Bool
same_bytes [] [] = true
same_bytes [] (y ∷ ys) = false
same_bytes (x ∷ xs) [] = false
same_bytes (x ∷ xs) (y ∷ ys) = x == y && same_bytes xs ys

pub record Header : Type 0 where
  pub id : Bytes
  pub len : ℕ
  pub link_count : ℕ

unfoldable pub data_len : Header → ℕ
data_len h = sub64 (sub64 h.len header_size) (mul64 h.link_count link_size)

-- `if cond { return error }`
unfoldable pub refuse : Bool → Error → Outcome (Unit {0})
refuse true e = err e
refuse false e = ok tt

-- An empty `want` takes every block.
unfoldable pub decode_header : Bytes → ℕ → Bytes → Outcome Header
decode_header src addr want = do
  buf ← slice_at src addr header_size
  id ← slice buf 0 4
  len ← (slice buf 8 16 >>= le_uint 8)
  count ← (slice buf 16 24 >>= le_uint 8)
  c0 ← index id 0
  c1 ← index id 1
  refuse (not (c0 == b'#') || not (c1 == b'#')) invalid_block
  refuse (not (same_bytes want []) && not (same_bytes id want)) invalid_block
  let min_len = add64 header_size (mul64 count link_size)
  refuse (ltb len min_len || ltb (sub64 len header_size / link_size) count) invalid_block
  refuse (ltb (sub64 (length src) addr) len) invalid_block
  ok (record { id = id; len = len; link_count = count })

unfoldable pub peek_id : Bytes → ℕ → Outcome Bytes
peek_id src addr = slice_at src addr 4

pub record Raw : Type 0 where
  pub header : Header
  pub links : List ℕ
  pub content : Bytes

-- The loop over the links, with `n` left, at link `i`.
unfoldable pub read_links : ℕ → ℕ → Bytes → Outcome (List ℕ)
read_links zero i body = ok []
read_links (suc n) i body = do
  w ← (slice_from body (i * link_size) >>= le_uint 8)
  ws ← read_links n (i + 1) body
  ok (w ∷ ws)

unfoldable pub decode_raw : Bytes → ℕ → Bytes → ℕ → ℕ → Outcome Raw
decode_raw src addr want min_links min_data = do
  h ← decode_header src addr want
  refuse (ltb h.link_count min_links) invalid_block
  refuse (ltb (data_len h) min_data) invalid_block
  body ← slice_at src (add64 addr header_size) (sub64 h.len header_size)
  links ← read_links h.link_count 0 body
  content ← slice_from body (mul64 h.link_count link_size)
  ok (record { header = h; links = links; content = content })

-- A link past the end reads as nil.
unfoldable pub link : Raw → ℕ → ℕ
link r i = get_or r.links i 0
