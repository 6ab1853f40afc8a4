-- ===== src/Conversion/Float.antt =====
-- What internal/conversion does with a `float64`: arithmetic, comparisons, and the functions of
-- Go's library. NaN is the value that is not `<=` itself.
use go_mdf.Base.{ℕ, Bool, true, false, if◌then◌else◌, ◌≡◌, ◌⊎◌, ◌&&◌}
use go_mdf.Base.Words.{Bytes}

pub record Float {ℓ} (W : Type ℓ) : Type ℓ where
  pub add : W → W → W
  pub sub : W → W → W
  pub mul : W → W → W
  pub div : W → W → W
  pub le : W → W → Bool
  pub eq : W → W → Bool
  pub zero : W
  pub one : W
  pub nan : W
  pub of_bits : ℕ → W
  pub of_uint : ℕ → W
  pub to_uint : W → ℕ
  pub show : W → Bytes

-- `x < y` is `!(y <= x)` between numbers; with NaN both are false.
abbrev pub lt {ℓ} : {W : Type ℓ} → Float W → W → W → Bool
lt f x y = f.le x y && (if f.le y x then false else true)

abbrev pub IsNumber {ℓ} : {W : Type ℓ} → Float W → W → Type 0
IsNumber f x = f.le x x ≡ true

abbrev pub IsNan {ℓ} : {W : Type ℓ} → Float W → W → Type 0
IsNan f x = f.le x x ≡ false

-- The laws of the comparisons (IEEE 754): `<=` is a total order of the numbers, NaN is not
-- comparable, `==` is `<=` both ways, and an integer is a number.
pub record IsOrdered {ℓ} (W : Type ℓ) (f : Float W) : Type ℓ where
  pub le_number : (x y : W) → f.le x y ≡ true → (f.le x x ≡ true) × (f.le y y ≡ true)
  pub le_trans : (x y z : W) → f.le x y ≡ true → f.le y z ≡ true → f.le x z ≡ true
  pub le_total :
      (x y : W) → f.le x x ≡ true → f.le y y ≡ true → (f.le x y ≡ true) ⊎ (f.le y x ≡ true)
  pub of_uint_number : (n : ℕ) → f.le (f.of_uint n) (f.of_uint n) ≡ true
  pub eq-le : (x y : W) → f.eq x y ≡ (f.le x y && f.le y x)
