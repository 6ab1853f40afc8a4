-- ===== src/Conversion/Table.antt =====
-- internal/conversion/numeric.go: value tables and range tables.
pub mod Laws
pub mod Values
use go_mdf.Base.{
  ℕ, zero, suc, ◌+◌, ◌-◌, ◌/◌, Bool, ltb, ◌&&◌, not, Option, none, some, List, [], ◌∷◌,
  if◌then◌else◌, length, Outcome, ok, panic, ◌>>=◌,
}
use go_mdf.Base.Words.{index}
use go_mdf.Conversion.Float.{Float, lt}

module _ {ℓ} {W : Type ℓ} (f : Float W) where
  -- `sort.SearchFloat64s`: the binary search in [i, j) for the first key that is `>= x`, on fuel; a
  -- round takes at least one off `j - i`.
  unfoldable pub search : ℕ → List W → W → ℕ → ℕ → Outcome ℕ
  search zero keys x i j = ok i
  search (suc fuel) keys x i j =
      let h = (i + j) / 2 in
      let right = search fuel keys x (suc h) j in
      let left = search fuel keys x i h in
      let round : Outcome ℕ = (do k ← index keys h; if f.le x k then left else right) in
      if ltb i j then round else ok i

  -- Between the keys at `i - 1` and `i`.
  unfoldable pub between : Bool → W → W → W → W → W → W
  between interp k0 k1 v0 v1 x =
      if interp
      then f.add v0 (f.div (f.mul (f.sub v1 v0) (f.sub x k0)) (f.sub k1 k0))
      else if f.le (f.sub x k0) (f.sub k1 x)
      then v0
      else v1

  -- `keys[i-1]` at 0 panics.
  abbrev pub before : List W → ℕ → Outcome W
  before xs zero = panic
  before xs (suc i) = index xs i

  unfoldable pub tab_lookup : List W → List W → W → Bool → Outcome W
  unfolding search between
  tab_lookup keys vals x interp = do
    first ← index keys 0
    last ← before keys (length keys)
    (if f.le x first then index vals 0 else if f.le last x then before vals (length keys) else (do
      i ← search (length keys) keys x 0 (length keys)
      k1 ← index keys i
      (if f.eq k1 x then index vals i else (do
        k0 ← before keys i
        v0 ← before vals i
        v1 ← index vals i
        ok (between interp k0 k1 v0 v1 x)))))

  -- The first range that holds `x`: the upper bound is inclusive for integers only.
  unfoldable pub in_range : Bool → W × W → W → Bool
  in_range int_in r x = f.le r.0 x && (if int_in then f.le x r.1 else lt f x r.1)

  unfoldable pub find : Bool → List (W × W) → W → Option ℕ
  unfolding in_range
  find int_in [] x = none
  find int_in (r ∷ ranges) x =
      let rest = find int_in ranges x in
      if in_range int_in r x then some 0 else elim rest [ none ↦ none | some i ↦ some (suc i) ]
