-- ===== src/DataSection/Reader.antt =====
-- internal/datasection/datasection.go (ReadAt, prefetch, NewFromBytes) and dz.go (decompressed, inflate).
-- zlib is a parameter. The segments are sorted by their logical offset, so `sort.Search` finds the
-- first one that starts behind an offset.
pub mod Laws
use go_mdf.Base.{
  ℕ, zero, suc, ◌+◌, ◌-◌, ◌^◌, Bool, true, false, ◌||◌, not, Option, none, some, List, [], ◌∷◌,
  ◌++◌, ltb, leb, ◌==◌, if◌then◌else◌, length, replicate, Outcome, Error, ok, err, panic, ◌>>=◌,
  inflate_failed, gap, max_alloc, out_of_bounds, ◌≡◌,
}
use go_mdf.Base.Words.{Bytes, slice}
use go_mdf.Source.{slice_at}
use go_mdf.Blocks.Header.{add64, sub64}
use go_mdf.DataSection.Lru.{Lru, get, put}
use go_mdf.DataSection.Transpose.{untranspose}
use go_mdf.DataSection.Resolve.{
  Segment, SegKind, seg_stored, seg_deflate, seg_transpose_deflate, seg_zero, slt,
}

-- `zlib.NewReader` accepts the bytes or not; `io.ReadFull` then gets that many bytes of the
-- inflated stream, if it has them.
pub record Zlib : Type 0 where
  pub opens : Bytes → Bool
  pub read : Bytes → ℕ → Option Bytes

abbrev read_full : Option Bytes → Outcome Bytes
read_full none = err inflate_failed
read_full (some buf) = ok buf

-- `make([]byte, orgLen)` panics on a length that is negative or too large.
unfoldable pub inflate : Zlib → Bytes → ℕ → Outcome Bytes
inflate z comp org_len =
    if z.opens comp
    then (if ltb max_alloc org_len then panic else read_full (z.read comp org_len))
    else err inflate_failed

abbrev pub is_transposed : SegKind → Bool
is_transposed seg_transpose_deflate = true
is_transposed _ = false

-- The content of a compressed segment that is not in the cache.
unfoldable pub decompress : Zlib → Bytes → Segment → Outcome Bytes
unfolding inflate
decompress z src seg = do
  comp ← slice_at src seg.addr seg.comp_len
  buf ← inflate z comp seg.len
  (if is_transposed seg.kind then untranspose buf seg.zip_param else ok buf)

-- What the cache says, or else the content, which is then cached.
abbrev pub from_cache : Zlib → Bytes → Segment → Lru × Option Bytes → Outcome (Bytes × Lru)
from_cache z src seg (c, some buf) = ok (buf, c)
from_cache z src seg (c, none) = do buf ← decompress z src seg; ok (buf, put seg.addr buf c)

unfoldable pub decompressed : Zlib → Bytes → Segment → Lru → Outcome (Bytes × Lru)
decompressed z src seg c = from_cache z src seg (get seg.addr c)

-- The last segment that starts at or before `off`.
unfoldable pub locate : Option Segment → List Segment → ℕ → Option Segment
locate best [] off = best
locate best (s ∷ segs) off =
    let rest = locate (some s) segs off in if slt off s.logical then best else rest

-- `want` bytes of a segment, from `delta` on.
unfoldable pub read_segment : SegKind → Zlib → Bytes → Segment → ℕ → ℕ → Lru → Outcome (Bytes × Lru)
read_segment seg_stored z src seg delta want c = do
  b ← slice_at src (add64 seg.addr delta) want
  ok (b, c)
read_segment seg_zero z src seg delta want c = ok (replicate want 0, c)
read_segment seg_deflate z src seg delta want c = do
  (buf, c') ← decompressed z src seg c
  b ← slice buf delta (add64 delta want)
  ok (b, c')
read_segment seg_transpose_deflate z src seg delta want c = do
  (buf, c') ← decompressed z src seg c
  b ← slice buf delta (add64 delta want)
  ok (b, c')

-- A round with the segment found, if any.
unfoldable pub read_found : Option Segment → Zlib → Bytes → ℕ → ℕ → Lru → Outcome (Bytes × Lru)
read_found none z src left off c = err gap
read_found (some seg) z src left off c =
    let delta = sub64 off seg.logical in
    let avail = sub64 seg.len delta in
    if not (slt off (add64 seg.logical seg.len))
    then err gap
    else read_segment seg.kind z src seg delta (if slt avail left then avail else left) c

-- The bytes read, the cache, and how the loop ended.
abbrev pub Reading : Type 0
Reading = Bytes × Lru × Outcome (Unit {0})

-- The loop, with `left` bytes to go, on fuel. A round reads at least a byte.
unfoldable pub read_loop : ℕ → Zlib → Bytes → List Segment → ℕ → ℕ → ℕ → Lru → Reading
read_loop zero z src segs size left off c = ([], c, ok tt)
read_loop (suc fuel) z src segs size left off c =
    let rest : Reading = elim (read_found (locate none segs off) z src left off c) [
      | ok r ↦
          let later =
            read_loop fuel z src segs size (left - length r.0) (add64 off (length r.0)) r.1 in
          (r.0 ++ later.0, later.1, later.2)
      | err e ↦ ([], c, err e)
      | panic ↦ ([], c, panic)
    ] in
    if left == 0 || not (slt off size) then ([], c, ok tt) else rest

-- Fewer bytes than asked for are an error.
abbrev pub finish : ℕ → Reading → Reading
finish n (b, c, ok _) = (b, c, if ltb (length b) n then err out_of_bounds else ok tt)
finish n (b, c, err e) = (b, c, err e)
finish n (b, c, panic) = (b, c, panic)

-- `ReadAt` of `n` bytes behind the prefetch.
unfoldable pub read_at : Zlib → Bytes → List Segment → ℕ → ℕ → ℕ → Lru → Reading
unfolding read_loop
read_at z src segs size n off c =
    if leb (2 ^ 63) off || slt size off
    then ([], c, err out_of_bounds)
    else finish n (read_loop n z src segs size n off c)

-- What the prefetch does to the cache: its look-ups, and the stores of its goroutines for segments
-- of the section, in any order. Errors leave the cache as it is.
pub data Prefetch (z : Zlib) (src : Bytes) (P : Segment → Type 0) : Lru → Lru → Type 0 where
  done : {c : Lru} → Prefetch z src P c c
  probe :
      {c c' : Lru} (seg : Segment) → Prefetch z src P (get seg.addr c).0 c' → Prefetch z src P c c'
  store :
      {c c' : Lru} (seg : Segment) (buf : Bytes)
      → P seg
      → decompress z src seg ≡ ok buf
      → Prefetch z src P (put seg.addr buf c) c'
      → Prefetch z src P c c'

-- A section in memory is one stored segment.
unfoldable new_from_bytes : Bytes → List Segment
new_from_bytes src =
    if length src == 0
    then []
    else record {
      logical = 0;
      len = length src;
      addr = 0;
      comp_len = 0;
      zip_param = 0;
      kind = seg_stored;
    }
      ∷ []
