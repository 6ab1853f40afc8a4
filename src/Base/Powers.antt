-- ===== src/Base/Powers.antt =====
-- Quotients and remainders by products, and by powers of two: shifts and masks at variable widths.
use Prim.Native.Nat.{ℕ, zero, suc, ◌+◌, ◌-◌, ◌*◌, ◌/◌, ◌%◌, ◌^◌, ◌≤◌, ◌<◌}
use mathlib.Core.Path.{◌≡◌, sym, ap, ◌∙◌}
use native.Mathlib.Omega.{arith}
use native.Mathlib.Nat.{
  pow-suc, pow-zero, one-le-pow, div-div-eq-div-mul, div-add-mod, mod-lt, mul_assoc, mod-eq_of_lt,
  mul-add-mod_self_left, mul-add-div, div-eq_of_lt, add-zero, add-suc,
}

-- The quotient and the remainder are determined by the division's equation.
pub mod_unique : (m q r : ℕ) → r < m → (m * q + r) % m ≡ r
mod_unique m q r h = mul-add-mod_self_left m q r ∙ mod-eq_of_lt h

pub div_unique : (m q r : ℕ) → r < m → (m * q + r) / m ≡ q
div_unique m q r h = mul-add-div (omega arith) q r ∙ rw (div-eq_of_lt h) (omega arith)

module _ (m n x : ℕ) (hm : 0 < m) (hn : 0 < n) where
  small_part : m * (x / m % n) + x % m < m * n
  small_part =
      let a = x / m % n in
      let b : x / m % n < n = mod-lt (x / m) hn in let c : x % m < m = mod-lt x hm in grind arith

  split_product : x ≡ m * n * (x / m / n) + (m * (x / m % n) + x % m)
  split_product = omega (arith, div-add-mod x m, ap (λ (t : ℕ). m * t) (div-add-mod (x / m) n))

  pub mod-mul : x % (m * n) ≡ m * (x / m % n) + x % m
  mod-mul = ap (λ t. t % (m * n)) split_product ∙ mod_unique (m * n) _ _ small_part

pub pow-add : (b m n : ℕ) → b ^ (m + n) ≡ b ^ m * b ^ n
pow-add b m zero = ap (λ t. b ^ t) (add-zero m) ∙ rw pow-zero (omega arith)
pow-add b m (suc n) =
    ap (λ t. b ^ t) (add-suc m n)
    ∙ pow-suc b (m + n)
    ∙ ap (λ t. t * b) (pow-add b m n)
    ∙ mul_assoc (b ^ m) (b ^ n) b
    ∙ ap (λ t. b ^ m * t) (sym (pow-suc b n))

pub pow-pos : (n : ℕ) → 0 < 2 ^ n
pow-pos n = one-le-pow n 2 (omega arith)

-- A shift by `m + n` is one by `m`, then one by `n`.
pub div-div-pow : (x m n : ℕ) → x / 2 ^ m / 2 ^ n ≡ x / 2 ^ (m + n)
div-div-pow x m n = div-div-eq-div-mul x (2 ^ m) (2 ^ n) ∙ ap (λ t. x / t) (sym (pow-add 2 m n))

-- The low `m + n` bits: the low `m`, and the `n` above them.
pub mod-pow-add : (x m n : ℕ) → x % 2 ^ (m + n) ≡ 2 ^ m * (x / 2 ^ m % 2 ^ n) + x % 2 ^ m
mod-pow-add x m n =
    ap (λ t. x % t) (pow-add 2 m n) ∙ mod-mul (2 ^ m) (2 ^ n) x (pow-pos m) (pow-pos n)

-- Cutting to more bits first changes nothing.
pub mod-mod-pow : (x m n : ℕ) → x % 2 ^ (m + n) % 2 ^ m ≡ x % 2 ^ m
mod-mod-pow x m n =
    ap (λ t. t % 2 ^ m) (mod-pow-add x m n) ∙ mod_unique (2 ^ m) _ _ (mod-lt x (pow-pos m))

pub div-mod-pow : (x m n : ℕ) → x % 2 ^ (m + n) / 2 ^ m ≡ x / 2 ^ m % 2 ^ n
div-mod-pow x m n =
    ap (λ t. t / 2 ^ m) (mod-pow-add x m n) ∙ div_unique (2 ^ m) _ _ (mod-lt x (pow-pos m))

-- A field of `n` bits at bit `m` does not see what lies above it.
pub field-mod : (x m n k : ℕ) → x % 2 ^ (m + (n + k)) / 2 ^ m % 2 ^ n ≡ x / 2 ^ m % 2 ^ n
field-mod x m n k = ap (λ t. t % 2 ^ n) (div-mod-pow x m (n + k)) ∙ mod-mod-pow (x / 2 ^ m) n k

-- The same with the widths given by an inequality.
pub field-mod_le : (x m n w : ℕ) → m + n ≤ w → x % 2 ^ w / 2 ^ m % 2 ^ n ≡ x / 2 ^ m % 2 ^ n
field-mod_le x m n w h =
    let e : w ≡ m + (n + (w - (m + n))) = omega arith in
    ap (λ t. x % 2 ^ t / 2 ^ m % 2 ^ n) e ∙ field-mod x m n (w - (m + n))

pub mod-mod-pow_le : (x n w : ℕ) → n ≤ w → x % 2 ^ w % 2 ^ n ≡ x % 2 ^ n
mod-mod-pow_le x n w h =
    let e : w ≡ n + (w - n) = omega arith in ap (λ t. x % 2 ^ t % 2 ^ n) e ∙ mod-mod-pow x n (w - n)

-- What is a multiple of `2 ^ n` does not show in the low `n` bits.
pub mod-add-high : (x q n w : ℕ) → n ≤ w → (2 ^ w * q + x) % 2 ^ n ≡ x % 2 ^ n
mod-add-high x q n w h = ap (λ t. (t + x) % 2 ^ n) split ∙ mul-add-mod_self_left (2 ^ n) _ x
  where
    split : 2 ^ w * q ≡ 2 ^ n * (2 ^ (w - n) * q)
    split =
        let e : w ≡ n + (w - n) = omega arith in
        ap (λ t. 2 ^ t * q) e ∙ ap (λ t. t * q) (pow-add 2 n (w - n)) ∙ mul_assoc _ _ _

pub mod_fits : (x n : ℕ) → x < 2 ^ n → x % 2 ^ n ≡ x
mod_fits x n h = mod-eq_of_lt h
