-- ===== src/Examples/Conversion.antt =====
-- Conversions over whole numbers and NaN.
use go_mdf.Base.{
  ℕ, ◌+◌, ◌-◌, ◌*◌, ◌/◌, ◌≡◌, refl, Bool, true, false, ◌&&◌, ◌⊎◌, inl, inr, Bool-cases, Option,
  none, some, [], ◌∷◌, leb, leb→le, le→leb, Outcome, ok, panic, Post, arith,
}
use go_mdf.Base.Words.{Bytes}
use go_mdf.Blocks.Meta.Channel.{Cc}
use go_mdf.Conversion.Float.{Float, IsOrdered}
use go_mdf.Conversion.Table.{tab_lookup}
use go_mdf.Conversion.Table.Values.{Looked, tab_lookup-Looked}
use go_mdf.Conversion.Compile.{Conversion, convert_one}
use go_mdf.Conversion.Rules.{compile}
use go_mdf.Conversion.Rules.Laws.{compile_panics}

abbrev pub W : Type 0
W = Option ℕ

abbrev pub both : (ℕ → ℕ → ℕ) → W → W → W
both g (some a) (some b) = some (g a b)
both g _ _ = none

abbrev le : W → W → Bool
le (some a) (some b) = leb a b
le _ _ = false

abbrev pub toy : Float W
toy = record {
  add = both (λ a b. a + b);
  sub = both (λ a b. a - b);
  mul = both (λ a b. a * b);
  div = both (λ a b. a / b);
  le = le;
  eq = λ x y. le x y && le y x;
  zero = some 0;
  one = some 1;
  nan = none;
  of_bits = some;
  of_uint = some;
  to_uint = λ x. elim x [ none ↦ 0 | some n ↦ n ];
  show = λ x. [];
}

leb_refl : (a : ℕ) → leb a a ≡ true
leb_refl a = le→leb a a (omega arith)

le_number : (x y : W) → le x y ≡ true → (le x x ≡ true) × (le y y ≡ true)
le_number none y h = cc
le_number (some a) none h = cc
le_number (some a) (some b) h = (leb_refl a, leb_refl b)

le_trans : (x y z : W) → le x y ≡ true → le y z ≡ true → le x z ≡ true
le_trans none y z h k = cc
le_trans (some a) none z h k = cc
le_trans (some a) (some b) none h k = cc
le_trans (some a) (some b) (some c) h k = le→leb a c (omega (arith, leb→le a b h, leb→le b c k))

le_total : (x y : W) → le x x ≡ true → le y y ≡ true → (le x y ≡ true) ⊎ (le y x ≡ true)
le_total none y h k = cc
le_total (some a) none h k = cc
le_total (some a) (some b) h k = elim (Bool-cases (leb a b)) [
  | inl e ↦ inl e
  | inr e ↦ inr (ground arith)
]

pub toy-IsOrdered : IsOrdered W toy
toy-IsOrdered = record {
  le_number = le_number;
  le_trans = le_trans;
  le_total = le_total;
  of_uint_number = leb_refl;
  eq-le = λ x y. refl;
}

abbrev formula : Bytes → Outcome (W → W)
formula s = ok (λ x. x)

-- 10 ↦ 1 and 20 ↦ 2.
abbrev pub block : Cc
block = record {
  name = 0;
  unit = 0;
  comment = 0;
  inverse = 0;
  refs = [];
  cc_type = 4;
  precision = 0;
  flags = 0;
  ref_count = 0;
  val_count = 4;
  range_min = 0;
  range_max = 0;
  vals = 10 ∷ 1 ∷ 20 ∷ 2 ∷ [];
}

tab_lookup-Looked_example :
    Post
      (Looked toy (some 10 ∷ some 20 ∷ []) (some 1 ∷ some 2 ∷ []) (some 15) true)
      (tab_lookup toy (some 10 ∷ some 20 ∷ []) (some 1 ∷ some 2 ∷ []) (some 15) true)
tab_lookup-Looked_example =
    tab_lookup-Looked toy toy-IsOrdered (some 10) (some 20 ∷ []) (some 1 ∷ some 2 ∷ []) (some 15)
      true (refl, (refl, tt)) refl refl

compile_panics_example :
    (c : Conversion W) × (compile toy formula (some block) [] true ≡ ok (some c))
    × (convert_one c none ≡ panic)
compile_panics_example =
    compile_panics toy toy-IsOrdered formula block [] true none (inl refl) (omega arith) refl
