-- ===== src/Conversion/Table/Laws.antt =====
-- What the lookup in a table returns, and that it panics at NaN.
use go_mdf.Base.{
  ℕ, zero, suc, ◌+◌, ◌-◌, ◌/◌, ◌≤◌, ◌<◌, ◌≡◌, refl, ap, subst, Bool, false, inl, inr, Bool-cases,
  List, [], ◌∷◌, length, ok, panic, All, arith, ltb, ltb→lt, ltb→ge,
}
use go_mdf.Base.Words.{index}
use go_mdf.Conversion.Float.{Float, IsOrdered, IsNan}
use go_mdf.Conversion.Table.{search, tab_lookup}

module _ {ℓ} {W : Type ℓ} where
  -- An element at a place that a list has.
  pub index-at : (xs : List W) (i : ℕ) → i < length xs → (x : W) × (index xs i ≡ ok x)
  unfolding index
  index-at [] i h = absurd (omega (arith, h))
  index-at (x ∷ xs) zero h = (x, refl)
  index-at (x ∷ xs) (suc i) h = index-at xs i (omega (arith, h))

  pub index-All {κ} :
      (P : W → Type κ) (xs : List W) (i : ℕ) (x : W) → All P xs → index xs i ≡ ok x → P x
  unfolding index
  index-All P [] i x h e = cc
  index-All P (y ∷ xs) zero x (h, hs) e = let k : y ≡ x = cc in subst P k h
  index-All P (y ∷ xs) (suc i) x (h, hs) e = index-All P xs i x hs e

  pub index-lt : (xs : List W) (i : ℕ) (x : W) → index xs i ≡ ok x → i < length xs
  unfolding index
  index-lt [] i x e = cc
  index-lt (y ∷ xs) zero x e = omega arith
  index-lt (y ∷ xs) (suc i) x e = omega (arith, index-lt xs i x e)

  pub index-head : (x : W) (xs : List W) → index (x ∷ xs) 0 ≡ ok x
  unfolding index
  index-head x xs = refl

  index-past : (xs : List W) → index xs (length xs) ≡ panic
  unfolding index
  index-past [] = refl
  index-past (x ∷ xs) = index-past xs

module _ {ℓ} {W : Type ℓ} (f : Float W) (laws : IsOrdered W f) where
  nan_le : (x y : W) → IsNan f x → f.le x y ≡ false
  nan_le x y h = elim (Bool-cases (f.le x y)) [
    | inl e ↦ let n = laws.le_number x y e in cc
    | inr e ↦ e
  ]

  le_nan : (x y : W) → IsNan f y → f.le x y ≡ false
  le_nan x y h = elim (Bool-cases (f.le x y)) [
    | inl e ↦ let n = laws.le_number x y e in cc
    | inr e ↦ e
  ]

  -- No key is `>= NaN`, so the search runs to its right end.
  search_nan :
      (fuel : ℕ) (keys : List W) (x : W) (i j : ℕ)
      → IsNan f x
      → i ≤ j
      → j ≤ length keys
      → j - i ≤ fuel
      → search f fuel keys x i j ≡ ok j
  unfolding search
  search_nan zero keys x i j h le bound enough =
      let e : i ≡ j = omega (arith, le, enough) in ap ok e
  search_nan (suc fuel) keys x i j h le bound enough = elim (Bool-cases (ltb i j)) [
    | inl e ↦
        let lt = ltb→lt i j e in
        let k = index-at keys ((i + j) / 2) (omega (arith, lt, bound)) in
        rw (e, k.1, nan_le x k.0 h)
          (search_nan fuel keys x (suc ((i + j) / 2)) j h (omega (arith, lt)) bound
            (omega (arith, lt, enough)))
    | inr e ↦ let ge = ltb→ge i j e in let same : i ≡ j = omega (arith, ge, le) in rw e (ap ok same)
  ]

  -- A lookup of NaN panics, in every table that is not empty.
  pub tab_lookup_nan :
      (key : W) (keys vals : List W) (x : W) (interp : Bool)
      → IsNan f x
      → tab_lookup f (key ∷ keys) vals x interp ≡ panic
  unfolding tab_lookup index
  tab_lookup_nan key keys vals x interp h =
      let last = index-at (key ∷ keys) (length keys) (omega arith) in
      let end =
        search_nan (length (key ∷ keys)) (key ∷ keys) x 0 (length (key ∷ keys)) h (omega arith)
          (omega arith) (omega arith) in
      rw (nan_le x key h, last.1, le_nan last.0 x h, end, index-past (key ∷ keys)) refl
