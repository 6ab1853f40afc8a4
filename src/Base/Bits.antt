-- ===== src/Base/Bits.antt =====
-- `|` of disjoint fields and `&` with a mask of ones, as arithmetic, at every width.
use Prim.Native.Nat.{
  ℕ, zero, suc, ◌+◌, ◌-◌, ◌*◌, ◌/◌, ◌%◌, ◌^◌, ◌≤◌, ◌<◌, min, max, bit_and, bit_or, digits, bitwise,
  bit_and-bitwise, bit_or-bitwise,
}
use mathlib.Core.Path.{◌≡◌, refl, sym, ap, ap₂, ◌∙◌}
use native.Mathlib.Omega.{arith}
use native.Mathlib.Nat.{pow-suc, le_refl, div-div-eq-div-mul}
use go_mdf.Base.Powers.{pow-pos, mod-mul}

-- The fuel of the library's digit recursion does not matter once it covers the first number.
module _ (z : ℕ → ℕ) (f : ℕ → ℕ → ℕ) where
  enough_fuel : (n m a b : ℕ) → a ≤ n → a ≤ m → digits z f n a b ≡ digits z f m a b
  enough_fuel zero zero a b p q = refl
  enough_fuel zero (suc m) zero b p q = refl
  enough_fuel zero (suc m) (suc a) b p q = absurd (omega arith)
  enough_fuel (suc n) zero zero b p q = refl
  enough_fuel (suc n) zero (suc a) b p q = absurd (omega arith)
  enough_fuel (suc n) (suc m) zero b p q = refl
  enough_fuel (suc n) (suc m) (suc a) b p q =
      ap (λ (t : ℕ). t * 2 + f (suc a % 2) (b % 2))
        (enough_fuel n m (suc a / 2) (b / 2) (omega arith) (omega arith))

  lowest_digit :
      (a b : ℕ)
      → bitwise z f (suc a) b ≡ bitwise z f (suc a / 2) (b / 2) * 2 + f (suc a % 2) (b % 2)
  lowest_digit a b =
      ap (λ (t : ℕ). t * 2 + f (suc a % 2) (b % 2))
        (enough_fuel a (suc a / 2) (suc a / 2) (b / 2) (omega arith) (le_refl _))

pub or_digit : (a b : ℕ) → bit_or a b ≡ bit_or (a / 2) (b / 2) * 2 + max (a % 2) (b % 2)
or_digit zero b = simp bit_or-bitwise (omega arith)
or_digit (suc a) b = simp bit_or-bitwise (lowest_digit (λ y. y) max a b)

pub and_digit : (a b : ℕ) → bit_and a b ≡ bit_and (a / 2) (b / 2) * 2 + min (a % 2) (b % 2)
and_digit zero b = simp bit_and-bitwise (omega arith)
and_digit (suc a) b = simp bit_and-bitwise (lowest_digit (λ y. 0) min a b)

bit_or-zero_below : (k a : ℕ) → a < k → bit_or a 0 ≡ a
bit_or-zero_below zero a h = absurd (omega arith)
bit_or-zero_below (suc k) zero h = refl
bit_or-zero_below (suc k) (suc a) h =
    omega (arith, or_digit (suc a) 0, bit_or-zero_below k (suc a / 2) (omega arith))

pub bit_or-zero : (a : ℕ) → bit_or a 0 ≡ a
bit_or-zero a = bit_or-zero_below (suc a) a (omega arith)

bit_and-zero_below : (k a : ℕ) → a < k → bit_and a 0 ≡ 0
bit_and-zero_below zero a h = absurd (omega arith)
bit_and-zero_below (suc k) zero h = refl
bit_and-zero_below (suc k) (suc a) h =
    omega (arith, and_digit (suc a) 0, bit_and-zero_below k (suc a / 2) (omega arith))

double_pow : (q k : ℕ) → q * 2 ^ suc k ≡ 2 * (q * 2 ^ k)
double_pow q k = omega (arith, ap (λ (t : ℕ). q * t) (pow-suc 2 k))

-- A field shifted past the low `k` bits is joined to them by addition.
pub or_disjoint : (k q r : ℕ) → r < 2 ^ k → bit_or (q * 2 ^ k) r ≡ q * 2 ^ k + r
or_disjoint zero q r h = ground (arith, bit_or-zero q)
or_disjoint (suc k) q r h =
    ground
      (arith, or_digit (q * 2 ^ suc k) r, double_pow q k, or_disjoint k q (r / 2) (omega arith))

zero-bit_or : (b : ℕ) → bit_or 0 b ≡ b
zero-bit_or b = bit_or-bitwise 0 b

-- The same with the low part on the left.
pub or_disjoint' : (k q r : ℕ) → r < 2 ^ k → bit_or r (q * 2 ^ k) ≡ q * 2 ^ k + r
or_disjoint' zero q zero h = zero-bit_or (q * 2 ^ 0) ∙ omega arith
or_disjoint' zero q (suc r) h = absurd (omega arith)
or_disjoint' (suc k) q r h =
    ground
      (arith, or_digit r (q * 2 ^ suc k), double_pow q k, or_disjoint' k q (r / 2) (omega arith))

-- A mask of `k` ones keeps the remainder by `2 ^ k`.
pub and_mask : (k a : ℕ) → bit_and a (2 ^ k - 1) ≡ a % 2 ^ k
and_mask zero a = ground (arith, bit_and-zero_below (suc a) a (omega arith))
and_mask (suc k) a =
    ground
      (arith, and_digit a (2 ^ suc k - 1), pow-suc 2 k, pow-pos k, and_mask k (a / 2), half_mod)
  where
    half_mod : a % 2 ^ suc k ≡ 2 * (a / 2 % 2 ^ k) + a % 2
    half_mod =
        let e : 2 ^ suc k ≡ 2 * 2 ^ k = omega (arith, pow-suc 2 k) in
        ap (λ t. a % t) e ∙ mod-mul 2 (2 ^ k) a (omega arith) (pow-pos k)

-- One bit, tested by a mask.
pub and_bit : (k a : ℕ) → bit_and a (2 ^ k) ≡ a / 2 ^ k % 2 * 2 ^ k
and_bit zero a =
    omega (arith, and_digit a 1, bit_and-zero_below (suc (a / 2)) (a / 2) (omega arith))
and_bit (suc k) a =
    and_digit a (2 ^ suc k)
    ∙ ap₂ (λ u v. bit_and (a / 2) u * 2 + min (a % 2) v) half_pow even_pow
    ∙ ap (λ t. t * 2 + min (a % 2) 0) (and_bit k (a / 2))
    ∙ omega arith
    ∙ ap₂ (λ u v. u % 2 * v) (sym half_div) (sym double)
  where
    double : 2 ^ suc k ≡ 2 ^ k * 2
    double = pow-suc 2 k

    half_pow : 2 ^ suc k / 2 ≡ 2 ^ k
    half_pow = omega (arith, pow-suc 2 k)

    even_pow : 2 ^ suc k % 2 ≡ 0
    even_pow = omega (arith, pow-suc 2 k)

    half_div : a / 2 ^ suc k ≡ a / 2 / 2 ^ k
    half_div =
        let e : 2 ^ suc k ≡ 2 * 2 ^ k = omega (arith, pow-suc 2 k) in
        ap (λ t. a / t) e ∙ sym (div-div-eq-div-mul a 2 (2 ^ k))
