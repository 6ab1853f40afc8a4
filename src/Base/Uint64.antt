-- ===== src/Base/Uint64.antt =====
-- Go's shifts of a uint64, and the accumulation of bytes by `v = v<<8 | uint64(b)`.
use Prim.Native.Nat.{ℕ, ◌+◌, ◌*◌, ◌/◌, ◌%◌, ◌^◌, ◌<◌, bit_or}
use mathlib.Core.Path.{◌≡◌, sym, ap, ap₂, ◌∙◌}
use native.Mathlib.Omega.{arith}
use native.Mathlib.Nat.{mul-div_cancel, mul-mod_left}
use go_mdf.Base.Powers.{pow-pos, mod-pow-add}
use go_mdf.Base.Bits.{or_disjoint, or_disjoint'}

abbrev pub shl : ℕ → ℕ → ℕ
shl v k = v * 2 ^ k % 2 ^ 64

abbrev pub shr : ℕ → ℕ → ℕ
shr v k = v / 2 ^ k

unfoldable pub push_byte : ℕ → ℕ → ℕ
push_byte v b = bit_or (shl v 8) b

-- The top byte falls out and `b` comes in below.
pub push_byte_lem : (v b : ℕ) → b < 256 → push_byte (v % 2 ^ 64) b ≡ (v * 256 + b) % 2 ^ 64
unfolding push_byte
push_byte_lem v b h =
    let shifted : v % 2 ^ 64 * 2 ^ 8 % 2 ^ 64 ≡ v % 2 ^ 56 * 2 ^ 8 = omega arith in
    ap (λ t. bit_or t b) shifted ∙ or_disjoint 8 (v % 2 ^ 56) b h ∙ omega arith

-- A shift left by `k ≤ 64` keeps the low `64 - k` bits.
pub shl_lem : (v k j : ℕ) → k + j ≡ 64 → shl v k ≡ v % 2 ^ j * 2 ^ k
shl_lem v k j h =
    ap (λ t. v * 2 ^ k % 2 ^ t) (sym h)
    ∙ mod-pow-add (v * 2 ^ k) k j
    ∙ ap₂ (λ a b. 2 ^ k * (a % 2 ^ j) + b) (mul-div_cancel v (pow-pos k)) (mul-mod_left v (2 ^ k))
    ∙ omega arith

-- Joining what `shl` gives to what fits below it.
pub or-shl : (v k j r : ℕ) → k + j ≡ 64 → r < 2 ^ k → bit_or (shl v k) r ≡ v % 2 ^ j * 2 ^ k + r
or-shl v k j r h hr = ap (λ t. bit_or t r) (shl_lem v k j h) ∙ or_disjoint k _ r hr

pub or-shl' : (v k j r : ℕ) → k + j ≡ 64 → r < 2 ^ k → bit_or r (shl v k) ≡ v % 2 ^ j * 2 ^ k + r
or-shl' v k j r h hr = ap (λ t. bit_or r t) (shl_lem v k j h) ∙ or_disjoint' k _ r hr
