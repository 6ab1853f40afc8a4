-- ===== src/Conversion/Compile/Laws.antt =====
-- Conversions that do not panic on a number, and how they are put together.
use native.Mathlib.Nat.{mul-suc}
use go_mdf.Base.{
  ℕ, zero, suc, ◌+◌, ◌*◌, ◌≤◌, ◌<◌, ◌≡◌, refl, ap, subst, Bool, true, false, inl, inr, Bool-cases,
  Option, none, some, List, [], ◌∷◌, if◌then◌else◌, length, Outcome, ok, All, Post, returns,
  Post-bind, Post-if, arith,
}
use go_mdf.Base.Words.{Bytes, index}
use go_mdf.Conversion.Float.{Float, IsNumber}
use go_mdf.Conversion.Table.{find, in_range}
use go_mdf.Conversion.Table.Laws.{index-at, index-All}
use go_mdf.Conversion.Compile.{
  Conversion, Ref, textual, convert_one, string_one, render_conv, render_numeric_conv, render_ref,
  render_numeric_ref, numeric_dominant, match_key, match_range, read_ranges, read_every,
  numeric_only, text_only, text_table, render_masks,
}

abbrev pub IsBelow : ℕ → Option ℕ → Type 0
IsBelow n none = Unit
IsBelow n (some i) = i < n

if-IsBelow :
    (n : ℕ) (b : Bool) (o : Option ℕ)
    → IsBelow n o
    → IsBelow (suc n) (if b then some 0 else elim o [ none ↦ none | some i ↦ some (suc i) ])
if-IsBelow n true o h = omega arith
if-IsBelow n false none h = tt
if-IsBelow n false (some i) h = omega (arith, h)

-- What a table holds at a place found, or the default.
pub found-Post {κ} :
    {A : Type κ} (P : A → Type 0) (xs : List A) (def : A) (o : Option ℕ)
    → IsBelow (length xs) o
    → All P xs
    → P def
    → Post P (elim o [ none ↦ ok def | some i ↦ index xs i ])
found-Post P xs def none h p q = returns q
found-Post P xs def (some i) h p q =
    let x = index-at xs i h in rw x.1 (returns (index-All P xs i x.0 p x.1))

module _ {W : Type 0} where
  -- Reading every `stride`-th value of those that are there.
  pub read_every-eq-ok {κ} :
      (f : Float W) (P : W → Type κ) (stride n at : ℕ) (v : List W)
      → at + stride * n < length v + stride
      → All P v
      → (xs : List W) × (read_every f stride n at v ≡ ok xs) × (length xs ≡ n) × All P xs
  unfolding read_every
  read_every-eq-ok f P stride zero at v h p = ([], refl, refl, tt)
  read_every-eq-ok f P stride (suc n) at v h p =
      let x = index-at v at (omega (arith, h, mul-suc stride n)) in
      let rest =
        read_every-eq-ok f P stride n (at + stride) v (omega (arith, h, mul-suc stride n)) p in
      (x.0 ∷ rest.0, rw (x.1, rest.1) refl, ap suc rest.2, (index-All P v at x.0 p x.1, rest.3))

  pub read_ranges-eq-ok :
      (f : Float W) (stride n at : ℕ) (v : List W)
      → at + 1 + stride * n < length v + stride
      → (xs : List (W × W)) × (read_ranges f stride n at v ≡ ok xs) × (length xs ≡ n)
  unfolding read_ranges
  read_ranges-eq-ok f stride zero at v h = ([], refl, refl)
  read_ranges-eq-ok f stride (suc n) at v h =
      let low = index-at v at (omega (arith, h, mul-suc stride n)) in
      let high = index-at v (at + 1) (omega (arith, h, mul-suc stride n)) in
      let rest =
        read_ranges-eq-ok f stride n (at + stride) v (omega (arith, h, mul-suc stride n)) in
      ((low.0, high.0) ∷ rest.0, rw (low.1, high.1, rest.1) refl, ap suc rest.2)

  -- A range found is one of the table.
  pub find-IsBelow :
      (f : Float W) (int_in : Bool) (ranges : List (W × W)) (x : W)
      → IsBelow (length ranges) (find f int_in ranges x)
  unfolding find
  find-IsBelow f int_in [] x = tt
  find-IsBelow f int_in (r ∷ ranges) x =
      if-IsBelow (length ranges) (in_range f int_in r x) (find f int_in ranges x)
        (find-IsBelow f int_in ranges x)

module _ {W : Type 0} (f : Float W) where
  abbrev pub Number : Type 0
  Number = (x : W) × IsNumber f x

  -- On a number the conversion to a value and the one to a text do not panic.
  abbrev pub IsTotal : Conversion W → Type 0
  IsTotal c =
      (n : Number) → Post (λ _. Unit) (convert_one c n.0) × Post (λ _. Unit) (string_one f c n.0)

  abbrev pub IsTotalOption : Option (Conversion W) → Type 0
  IsTotalOption none = Unit
  IsTotalOption (some c) = IsTotal c

  abbrev pub IsTotalRef : Ref W → Type 0
  IsTotalRef r = IsTotalOption r.conv

  pub numeric_only-IsTotal :
      (typ : ℕ) (g : W → Outcome W)
      → ((n : Number) → Post (λ _. Unit) (g n.0))
      → IsTotal (numeric_only typ g)
  unfolding convert_one string_one
  numeric_only-IsTotal typ g h n = (h n, Post-bind (h n) λ y _. returns tt)

  pub text_only-IsTotal :
      (typ : ℕ) (g : W → Outcome Bytes)
      → ((n : Number) → Post (λ _. Unit) (g n.0))
      → IsTotal (text_only typ g)
  unfolding convert_one string_one
  text_only-IsTotal typ g h n = (returns tt, h n)

  render_conv-Post :
      (c : Option (Conversion W)) (text : Bytes)
      → IsTotalOption c
      → (n : Number) → Post (λ _. Unit) (render_conv f c text n.0)
  render_conv-Post none text h n = returns tt
  render_conv-Post (some c) text h n = (h n).1

  render_numeric_conv-Post :
      (c : Option (Conversion W))
      → IsTotalOption c
      → (n : Number) → Post (λ _. Unit) (render_numeric_conv f c n.0)
  render_numeric_conv-Post none h n = returns tt
  render_numeric_conv-Post (some c) h n = Post-if (textual c) (λ _. returns tt) (λ _. (h n).0)

  pub render_ref-Post :
      (r : Ref W) → IsTotalRef r → (n : Number) → Post (λ _. Unit) (render_ref f r n.0)
  unfolding render_ref
  render_ref-Post r h n = render_conv-Post r.conv r.text h n

  pub render_numeric_ref-Post :
      (r : Ref W) → IsTotalRef r → (n : Number) → Post (λ _. Unit) (render_numeric_ref f r n.0)
  unfolding render_numeric_ref
  render_numeric_ref-Post r h n = render_numeric_conv-Post r.conv h n

  -- What is picked for a number is one of the references.
  pub match_key-Post :
      (P : Ref W → Type 0) (keys : List W) (texts : List (Ref W)) (def : Ref W) (x : W)
      → length keys ≤ length texts
      → All P texts
      → P def
      → Post P (match_key f keys texts def x)
  unfolding match_key
  match_key-Post P [] texts def x h p q = returns q
  match_key-Post P (k ∷ keys) [] def x h p q = absurd (omega (arith, h))
  match_key-Post P (k ∷ keys) (t ∷ texts) def x h (p, ps) q =
      Post-if (f.eq x k) (λ _. returns p)
        (λ _. match_key-Post P keys texts def x (omega (arith, h)) ps q)

  pub match_range-Post :
      (P : Ref W → Type 0) (int_in : Bool) (ranges : List (W × W)) (texts : List (Ref W))
      (def : Ref W) (x : W)
      → length ranges ≡ length texts
      → All P texts
      → P def
      → Post P (match_range f int_in ranges texts def x)
  unfolding match_range
  match_range-Post P int_in ranges texts def x h p q =
      let found = find-IsBelow f int_in ranges x in
      found-Post P texts def (find f int_in ranges x)
        (subst (λ n. IsBelow n (find f int_in ranges x)) h found) p q

  pub text_table-IsTotal :
      (typ : ℕ) (pick : W → Outcome (Ref W)) (def : Ref W)
      → ((n : Number) → Post IsTotalRef (pick n.0))
      → IsTotal (text_table f typ pick def)
  unfolding text_table
  text_table-IsTotal typ pick def h = elim (Bool-cases (numeric_dominant f def)) [
    | inl e ↦
        rw e (numeric_only-IsTotal typ _ λ n. Post-bind (h n) λ r t. render_numeric_ref-Post r t n)
    | inr e ↦ rw e (text_only-IsTotal typ _ λ n. Post-bind (h n) λ r t. render_ref-Post r t n)
  ]

  pub render_masks-Post :
      ((n : ℕ) → f.le (f.of_uint n) (f.of_uint n) ≡ true)
      → (masks : List ℕ) (refs : List (Ref W)) (raw : ℕ) (s : Bytes) → length masks ≤ length refs
      → All IsTotalRef refs
      → Post (λ _. Unit) (render_masks f masks refs raw s)
  unfolding render_masks
  render_masks-Post whole [] refs raw s h t = returns tt
  render_masks-Post whole (m ∷ masks) [] raw s h t = absurd (omega (arith, h))
  render_masks-Post whole (m ∷ masks) (r ∷ refs) raw s h (t, ts) =
      Post-bind (render_ref-Post r t (f.of_uint _, whole _))
        λ part _. render_masks-Post whole masks refs raw _ (omega (arith, h)) ts
