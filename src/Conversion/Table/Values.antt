-- ===== src/Conversion/Table/Values.antt =====
-- What the lookup in a table returns for a number.
use go_mdf.Base.{
  ℕ, zero, suc, ◌+◌, ◌-◌, ◌/◌, ◌≤◌, ◌≡◌, refl, sym, ap, subst, Bool, true, false, ◌⊎◌, inl, inr,
  Bool-cases, List, ◌∷◌, if◌then◌else◌, length, ok, ◌>>=◌, All, Post, returns, Post-bind, Post-if,
  arith, ltb, ltb→lt, ltb→ge,
}
use go_mdf.Base.Words.{index}
use go_mdf.Conversion.Float.{Float, IsOrdered, IsNumber}
use go_mdf.Conversion.Table.{search, between, before, tab_lookup}
use go_mdf.Conversion.Table.Laws.{index-at, index-head, index-lt, index-All}

-- What a table gives: the edge values outside, the value of a key equal to `x`, and in between what
-- the two neighbours say, the left key not being `>= x` and the right one being so.
pub data Looked {W : Type 0} (f : Float W) (keys vals : List W) (x : W) (interp : Bool)
    : W → Type 0 where
  below :
      {v : W} (k : W)
      → index keys 0 ≡ ok k
      → f.le x k ≡ true
      → index vals 0 ≡ ok v
      → Looked f keys vals x interp v
  above :
      {v : W} (n : ℕ) (k : W)
      → length keys ≡ suc n
      → index keys n ≡ ok k
      → f.le k x ≡ true
      → index vals n ≡ ok v
      → Looked f keys vals x interp v
  hit :
      {v : W} (i : ℕ) (k : W)
      → index keys i ≡ ok k
      → f.eq k x ≡ true
      → index vals i ≡ ok v
      → Looked f keys vals x interp v
  inside :
      {k0 k1 v0 v1 : W} (i : ℕ)
      → index keys i ≡ ok k0
      → index keys (suc i) ≡ ok k1
      → index vals i ≡ ok v0
      → index vals (suc i) ≡ ok v1
      → f.le x k0 ≡ false
      → f.le x k1 ≡ true
      → Looked f keys vals x interp (between f interp k0 k1 v0 v1 x)

module _ {W : Type 0} (f : Float W) (keys : List W) (x : W) where
  abbrev Left : ℕ → Type 0
  Left i = (k : W) × (index keys i ≡ ok k) × (f.le x k ≡ false)

  abbrev Right : ℕ → Type 0
  Right i = (k : W) × (index keys i ≡ ok k) × (f.le x k ≡ true)

  -- The left end of the search: the key before it is too small, as is the first one.
  abbrev Start : ℕ → Type 0
  Start zero = Left 0
  Start (suc i) = Left i

  -- A place between a key that is too small and one that is not.
  abbrev IsBound : ℕ → Type 0
  IsBound zero = ⊥
  IsBound (suc i) = Left i × Right (suc i)

  apart : (i : ℕ) → Left i → Right i → ⊥
  apart i l r =
      let same : l.0 ≡ r.0 = cc in let e : f.le x l.0 ≡ f.le x r.0 = ap (λ k. f.le x k) same in cc

  module _ (n : ℕ) (size : length keys ≡ suc n) (last : Right n) where
    -- The right end of the search: a key that is not too small, or the end of the table.
    abbrev End : ℕ → Type 0
    End j = Right j ⊎ (j ≡ suc n)

    met : (i : ℕ) → Start i → End i → IsBound i
    met zero l (inl r) = apart 0 l r
    met zero l (inr e) = absurd (omega (arith, e))
    met (suc i) l (inl r) = (l, r)
    met (suc i) l (inr e) =
        let same : i ≡ n = omega (arith, e) in absurd (apart i l (subst Right (sym same) last))

    search-IsBound :
        (fuel i j : ℕ)
        → Start i
        → End j
        → i ≤ j
        → j ≤ length keys
        → j - i ≤ fuel
        → Post IsBound (search f fuel keys x i j)
    unfolding search
    search-IsBound zero i j l r le bound enough =
        let e : j ≡ i = omega (arith, le, enough) in returns (met i l (subst End e r))
    search-IsBound (suc fuel) i j l r le bound enough = elim (Bool-cases (ltb i j)) [
      | inl e ↦
          let lt = ltb→lt i j e in
          let h = (i + j) / 2 in
          let k = index-at keys h (omega (arith, lt, bound)) in
          rw (e, k.1)
            (Post-if (f.le x k.0)
              (λ t.
                search-IsBound fuel i h l (inl (k.0, k.1, t)) (omega (arith, lt))
                  (omega (arith, lt, bound)) (omega (arith, lt, enough)))
              (λ t.
                search-IsBound fuel (suc h) j (k.0, k.1, t) r (omega (arith, lt)) bound
                  (omega (arith, lt, enough))))
      | inr e ↦
          let ge = ltb→ge i j e in
          let same : j ≡ i = omega (arith, ge, le) in rw e (returns (met i l (subst End same r)))
    ]

    search_whole : Left 0 → Post IsBound (search f (length keys) keys x 0 (length keys))
    search_whole l =
        search-IsBound (length keys) 0 (length keys) l (inr size) (omega arith) (omega arith)
          (omega arith)

  found-Looked :
      (vals : List W) (interp : Bool) (i : ℕ)
      → length vals ≡ length keys
      → IsBound i
      → Post (Looked f keys vals x interp) (do
        k1 ← index keys i
        (if f.eq k1 x then index vals i else (do
          k0 ← before f keys i
          v0 ← before f vals i
          v1 ← index vals i
          ok (between f interp k0 k1 v0 v1 x))))
  found-Looked vals interp zero same b = absurd b
  found-Looked vals interp (suc i) same (l, r) =
      let lt = index-lt keys (suc i) r.0 r.1 in
      let v0 = index-at vals i (omega (arith, lt, same)) in
      let v1 = index-at vals (suc i) (omega (arith, lt, same)) in
      rw (r.1, l.1, v0.1, v1.1)
        (Post-if (f.eq r.0 x) (λ t. returns (Looked.hit (suc i) r.0 r.1 t v1.1))
          (λ t. returns (Looked.inside i l.1 r.1 v0.1 v1.1 l.2 r.2)))

module _ {W : Type 0} (f : Float W) (laws : IsOrdered W f) where
  pub le_flip : (x y : W) → IsNumber f x → IsNumber f y → f.le x y ≡ false → f.le y x ≡ true
  le_flip x y hx hy e = elim (laws.le_total x y hx hy) [ inl t ↦ cc | inr t ↦ t ]

  -- On a table of numbers, the lookup of a number does not panic and returns what the table says,
  -- whether the keys are sorted or not.
  pub tab_lookup-Looked :
      (key : W) (keys vals : List W) (x : W) (interp : Bool)
      → All (IsNumber f) (key ∷ keys)
      → length vals ≡ suc (length keys)
      → IsNumber f x
      → Post (Looked f (key ∷ keys) vals x interp) (tab_lookup f (key ∷ keys) vals x interp)
  unfolding tab_lookup
  tab_lookup-Looked key keys vals x interp numbers same number =
      let ks = key ∷ keys in
      let last = index-at ks (length keys) (omega arith) in
      let v0 = index-at vals 0 (omega (arith, same)) in
      let vn = index-at vals (length keys) (omega (arith, same)) in
      rw (index-head key keys, last.1, vn.1, v0.1)
        (Post-if (f.le x key) (λ t. returns (Looked.below key (index-head key keys) t v0.1))
          λ t.
            Post-if (f.le last.0 x)
              (λ u. returns (Looked.above (length keys) last.0 refl last.1 u vn.1))
              λ u.
                let right =
                  le_flip last.0 x (index-All (IsNumber f) ks (length keys) last.0 numbers last.1)
                    number u in
                Post-bind
                  (search_whole f ks x (length keys) refl (last.0, last.1, right)
                    (key, index-head key keys, t))
                  λ i b. found-Looked f ks x vals interp i same b)
