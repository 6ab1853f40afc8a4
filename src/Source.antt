-- ===== src/Source.antt =====
-- internal/source: a file as a byte string, read at an offset and a length.
-- Both are `int64`s by their bit patterns, negative from 2 ^ 63 on; a file's size is below that.
use go_mdf.Base.{
  ℕ, ◌+◌, ◌-◌, ◌^◌, ◌≤◌, ◌<◌, ◌≡◌, refl, Bool, false, ◌||◌, ltb, leb, if◌then◌else◌, length, take,
  drop, Outcome, ok, err, out_of_bounds, Post, returns, raises, Post-if, arith, length-take,
  length-drop,
}
use go_mdf.Base.Words.{Bytes}

unfoldable pub check_bounds : ℕ → ℕ → ℕ → Bool
check_bounds off n size =
    leb (2 ^ 63) off || (leb (2 ^ 63) n || (ltb size off || ltb (size - off) n))

-- `Mem.Slice`; the mapped file and the adapter of `io.ReaderAt` answer alike.
unfoldable pub slice_at : Bytes → ℕ → ℕ → Outcome Bytes
unfolding check_bounds
slice_at src off n =
    if check_bounds off n (length src) then err out_of_bounds else ok (take n (drop off src))

-- A slice that is returned has the length asked for, and lies in the file.
pub record IsSlice (src : Bytes) (off n : ℕ) (b : Bytes) : Type 0 where
  pub content : b ≡ take n (drop off src)
  pub size : length b ≡ n
  pub inside : off + n ≤ length src

check_bounds_lem : (off n size : ℕ) → check_bounds off n size ≡ false → off + n ≤ size
unfolding check_bounds
check_bounds_lem off n size h = ground arith

pub slice_at-IsSlice : (src : Bytes) (off n : ℕ) → Post (IsSlice src off n) (slice_at src off n)
unfolding slice_at
slice_at-IsSlice src off n =
    Post-if (check_bounds off n (length src)) (λ _. raises)
      λ h.
        let k = check_bounds_lem off n (length src) h in
        returns (record {
          content = refl;
          size = omega (arith, k, length-take n (drop off src), length-drop off src);
          inside = k;
        })

pub slice_at-ok :
    (src : Bytes) (off n : ℕ)
    → length src < 2 ^ 63
    → off + n ≤ length src
    → slice_at src off n ≡ ok (take n (drop off src))
unfolding slice_at
slice_at-ok src off n small inside = ground arith
