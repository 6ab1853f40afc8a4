-- ===== src/DataSection/Transpose.antt =====
-- The byte transposition around deflate: `transpose` of writerdata.go, and `untranspose` of
-- internal/datasection/dz.go, which takes it back.
pub mod Laws
use go_mdf.Base.{
  ℕ, zero, suc, ◌+◌, ◌*◌, ◌/◌, [], ◌∷◌, ◌++◌, ltb, leb, ◌||◌, if◌then◌else◌, length, set, take,
  drop, replicate, Outcome, ok, panic, ◌>>=◌,
}
use go_mdf.Base.Words.{Bytes, slice}

-- `out[i] = b`
unfoldable pub write : Bytes → ℕ → ℕ → Outcome Bytes
write out i b = if ltb i (length out) then ok (set out i b) else panic

-- `for b, x := range row { out[at(b)] = x }`, from `b` on
unfoldable pub scatter_row : (ℕ → ℕ) → ℕ → Bytes → Bytes → Outcome Bytes
scatter_row at b [] out = ok out
scatter_row at b (x ∷ row) out = write out (at b) x >>= λ out'. scatter_row at (b + 1) row out'

-- `for a := …; a < …; a++ { row := in[a*width : (a+1)*width]; … }`, with `n` rounds left
unfoldable pub scatter : (ℕ → ℕ → ℕ) → ℕ → ℕ → ℕ → Bytes → Bytes → Outcome Bytes
scatter at width zero a input out = ok out
scatter at width (suc n) a input out = do
  row ← slice input (a * width) ((a + 1) * width)
  out' ← scatter_row (at a) 0 row out
  scatter at width n (a + 1) input out'

-- `copy(out[body:], in[body:])`, for slices of one length
abbrev pub copy_tail : ℕ → Bytes → Bytes → Bytes
copy_tail body input out = take body out ++ drop body input

-- A division by no columns panics.
unfoldable pub transpose : Bytes → ℕ → Outcome Bytes
transpose input cols =
    let rows = length input / cols in
    if leb cols 0 then panic else do
      out ← scatter (λ i j. j * rows + i) cols rows 0 input (replicate (length input) 0)
      ok (copy_tail (rows * cols) input out)

unfoldable pub untranspose : Bytes → ℕ → Outcome Bytes
untranspose input cols =
    let rows = length input / cols in
    if leb cols 1 || leb (length input) cols then ok input else do
      out ← scatter (λ j i. i * cols + j) rows cols 0 input (replicate (length input) 0)
      ok (copy_tail (rows * cols) input out)
