-- ===== src/Base/Words.antt =====
-- Bytes, and byte strings read as numbers: `encoding/binary`'s readers and slices that can panic.
-- A `uint64`, and an `int64` by its bit pattern, is a number below 2 ^ 64.
use Prim.Native.Nat.{ℕ, zero, suc, ◌+◌, ◌-◌, ◌*◌, ◌/◌, ◌%◌, ◌^◌, ◌≤◌, ◌<◌}
use mathlib.Core.Path.{◌≡◌, refl, sym, ap, ap₂, ◌∙◌, subst}
use mathlib.Core.List.{List, [], ◌∷◌, ◌++◌}
use native.Mathlib.Omega.{arith}
use native.Mathlib.Nat.{pow-suc, lt_of_lt_of_le, pow-le-pow_right}
use go_mdf.Base.Tests.{ltb, ge→ltb, if◌then◌else◌}
use go_mdf.Base.Lists.{
  length, get_elem?, get_or, take-take, take, drop, All, length-append, length-take, length-drop,
  All-take, All-drop, take-append-drop,
}
use go_mdf.Base.Powers.{div-div-pow, div-mod-pow, pow-add, mod_unique, div_unique}
use mathlib.Core.Option.{none, some}
use go_mdf.Base.Results.{Outcome, ok, panic, ◌>>=◌}

abbrev pub IsByte : ℕ → Type 0
IsByte b = b < 256

abbrev pub IsWord : ℕ → Type 0
IsWord w = w < 2 ^ 64

abbrev pub Bytes : Type 0
Bytes = List ℕ

-- The first byte counts least.
unfoldable pub le_value : Bytes → ℕ
le_value [] = 0
le_value (b ∷ bs) = b + 256 * le_value bs

-- The first byte counts most.
unfoldable pub be_value : Bytes → ℕ
be_value [] = 0
be_value (b ∷ bs) = b * 256 ^ length bs + be_value bs

-- `p[i]`
unfoldable pub index {ℓ} : {A : Type ℓ} → List A → ℕ → Outcome A
index xs i = elim (get_elem? xs i) [ none ↦ panic | some x ↦ ok x ]

-- `p[i:]` and `p[i:j]`
unfoldable pub slice_from {ℓ} : {A : Type ℓ} → List A → ℕ → Outcome (List A)
slice_from xs i = if ltb (length xs) i then panic else ok (drop i xs)

unfoldable pub slice {ℓ} : {A : Type ℓ} → List A → ℕ → ℕ → Outcome (List A)
slice xs i j =
    if ltb (length xs) j then panic else if ltb j i then panic else ok (take (j - i) (drop i xs))

-- `le.Uint16`, `le.Uint32` and `le.Uint64` are this at 2, 4 and 8; they panic on a short slice.
unfoldable pub le_uint : ℕ → Bytes → Outcome ℕ
le_uint n bs = if ltb (length bs) n then panic else ok (le_value (take n bs))

unfoldable pub be_uint : ℕ → Bytes → Outcome ℕ
be_uint n bs = if ltb (length bs) n then panic else ok (be_value (take n bs))

-- `le.PutUint64` and the narrower writers: `n` bytes, least first.
unfoldable pub le_bytes : ℕ → ℕ → Bytes
le_bytes zero v = []
le_bytes (suc n) v = v % 256 ∷ le_bytes n (v / 256)

pub length-le_bytes : (n v : ℕ) → length (le_bytes n v) ≡ n
unfolding le_bytes
length-le_bytes zero v = refl
length-le_bytes (suc n) v = ap suc (length-le_bytes n (v / 256))

pub le_bytes-IsByte : (n v : ℕ) → All IsByte (le_bytes n v)
unfolding le_bytes
le_bytes-IsByte zero v = tt
le_bytes-IsByte (suc n) v = (omega arith, le_bytes-IsByte n (v / 256))

pub le_value-le_bytes : (n v : ℕ) → v < 256 ^ n → le_value (le_bytes n v) ≡ v
unfolding le_bytes le_value
le_value-le_bytes zero v h = omega arith
le_value-le_bytes (suc n) v h =
    omega (arith, le_value-le_bytes n (v / 256) (omega (arith, pow-suc 256 n)))

pub le_value-lt : (bs : Bytes) → All IsByte bs → le_value bs < 256 ^ length bs
unfolding le_value
le_value-lt [] h = omega arith
le_value-lt (b ∷ bs) (h, hs) = omega (arith, le_value-lt bs hs, pow-suc 256 (length bs))

pub be_value-lt : (bs : Bytes) → All IsByte bs → be_value bs < 256 ^ length bs
unfolding be_value
be_value-lt [] h = omega arith
be_value-lt (b ∷ bs) (h, hs) = grind (arith, be_value-lt bs hs, pow-suc 256 (length bs))

pub le_value-append :
    (xs ys : Bytes) → le_value (xs ++ ys) ≡ le_value xs + 256 ^ length xs * le_value ys
unfolding le_value
le_value-append [] ys = omega arith
le_value-append (x ∷ xs) ys =
    omega (arith, le_value-append xs ys, ap (λ (t : ℕ). t * le_value ys) (pow-suc 256 (length xs)))

pub be_value-append :
    (xs ys : Bytes) → be_value (xs ++ ys) ≡ be_value xs * 256 ^ length ys + be_value ys
unfolding be_value
be_value-append [] ys = omega arith
be_value-append (x ∷ xs) ys = omega (
  arith,
  be_value-append xs ys,
  ap (λ (t : ℕ). x * 256 ^ t) (length-append xs ys),
  ap (λ (t : ℕ). x * t) (pow-add 256 (length xs) (length ys)),
)

-- 256 ^ n is a shift by n bytes.
pub pow-256 : (n : ℕ) → 256 ^ n ≡ 2 ^ (8 * n)
pow-256 zero = refl
pow-256 (suc n) =
    let e : 8 * suc n ≡ 8 * n + 8 = omega arith in
    omega (arith, pow-suc 256 n, pow-256 n, ap (λ t. 2 ^ t) e, pow-add 2 (8 * n) 8)

module _ (p : Bytes) (k : ℕ) (hk : k ≤ length p) where
  length-take_le : length (take k p) ≡ k
  length-take_le = omega (arith, length-take k p)

  cut_le : le_value p ≡ 256 ^ k * le_value (drop k p) + le_value (take k p)
  cut_le =
      ap le_value (sym (take-append-drop k p))
      ∙ le_value-append (take k p) (drop k p)
      ∙ ap (λ t. le_value (take k p) + 256 ^ t * le_value (drop k p)) length-take_le
      ∙ omega arith

  module _ (hp : All IsByte p) where
    low_lt : le_value (take k p) < 256 ^ k
    low_lt =
        subst (λ t. le_value (take k p) < 256 ^ t) length-take_le
          (le_value-lt (take k p) (All-take IsByte k p hp))

    -- Dropping the first `k` bytes is a shift right, and keeping them a mask.
    pub le_value-drop : le_value (drop k p) ≡ le_value p / 2 ^ (8 * k)
    le_value-drop = sym (
        ap (λ t. le_value p / t) (sym (pow-256 k))
        ∙ ap (λ t. t / 256 ^ k) cut_le
        ∙ div_unique (256 ^ k) _ _ low_lt)

    pub le_value-take : le_value (take k p) ≡ le_value p % 2 ^ (8 * k)
    le_value-take = sym (
        ap (λ t. le_value p % t) (sym (pow-256 k))
        ∙ ap (λ t. t % 256 ^ k) cut_le
        ∙ mod_unique (256 ^ k) _ _ low_lt)

  length-drop_le : length (drop k p) ≡ length p - k
  length-drop_le = length-drop k p

  cut_be : be_value p ≡ 256 ^ (length p - k) * be_value (take k p) + be_value (drop k p)
  cut_be =
      ap be_value (sym (take-append-drop k p))
      ∙ be_value-append (take k p) (drop k p)
      ∙ ap (λ t. be_value (take k p) * 256 ^ t + be_value (drop k p)) length-drop_le
      ∙ omega arith

  module _ (hp : All IsByte p) where
    high_lt : be_value (drop k p) < 256 ^ (length p - k)
    high_lt =
        subst (λ t. be_value (drop k p) < 256 ^ t) length-drop_le
          (be_value-lt (drop k p) (All-drop IsByte k p hp))

    -- In a big-endian number the first `k` bytes are what a shift leaves.
    pub be_value-take : be_value (take k p) ≡ be_value p / 2 ^ (8 * (length p - k))
    be_value-take = sym (
        ap (λ t. be_value p / t) (sym (pow-256 (length p - k)))
        ∙ ap (λ t. t / 256 ^ (length p - k)) cut_be
        ∙ div_unique (256 ^ (length p - k)) _ _ high_lt)

    pub be_value-drop : be_value (drop k p) ≡ be_value p % 2 ^ (8 * (length p - k))
    be_value-drop = sym (
        ap (λ t. be_value p % t) (sym (pow-256 (length p - k)))
        ∙ ap (λ t. t % 256 ^ (length p - k)) cut_be
        ∙ mod_unique (256 ^ (length p - k)) _ _ high_lt)

-- A byte of the string is eight bits of its number.
pub index_le :
    (p : Bytes) (i : ℕ)
    → All IsByte p
    → i < length p
    → index p i ≡ ok (le_value p / 2 ^ (8 * i) % 2 ^ 8)
unfolding index le_value
index_le [] i hp h = absurd (omega arith)
index_le (b ∷ p) zero (hb, hp) h = ap ok (omega arith)
index_le (b ∷ p) (suc i) (hb, hp) h = index_le p i hp (omega arith) ∙ ap (λ t. ok (t % 2 ^ 8)) up
  where
    up : le_value p / 2 ^ (8 * i) ≡ (b + 256 * le_value p) / 2 ^ (8 * suc i)
    up =
        let e : 8 + 8 * i ≡ 8 * suc i = omega arith in
        let q : le_value p ≡ (b + 256 * le_value p) / 2 ^ 8 = omega arith in
        ap (λ t. t / 2 ^ (8 * i)) q
        ∙ div-div-pow (b + 256 * le_value p) 8 (8 * i)
        ∙ ap (λ t. (b + 256 * le_value p) / 2 ^ t) e

pub be_value-lt_pow : (bs : Bytes) → All IsByte bs → be_value bs < 2 ^ (8 * length bs)
be_value-lt_pow bs h = rw pow-256 at (be_value-lt bs h)

index-drop {ℓ} : {A : Type ℓ} (xs : List A) (i : ℕ) → index xs i ≡ index (drop i xs) 0
unfolding index
index-drop [] zero = refl
index-drop [] (suc i) = refl
index-drop (x ∷ xs) zero = refl
index-drop (x ∷ xs) (suc i) = index-drop xs i

first_be :
    (q : Bytes)
    → All IsByte q
    → 1 ≤ length q
    → index q 0 ≡ ok (be_value q / 2 ^ (8 * (length q - 1)))
unfolding index be_value
first_be [] hq h = absurd (omega arith)
first_be (b ∷ q) (hb, hq) h = ap ok (
    sym (
      ap₂ (λ s t. (s + be_value q) / t) (omega arith) top
      ∙ div_unique (256 ^ length q) b (be_value q) (be_value-lt q hq)))
  where
    top : 2 ^ (8 * (length (b ∷ q) - 1)) ≡ 256 ^ length q
    top =
        let e : 8 * (length (b ∷ q) - 1) ≡ 8 * length q = omega arith in
        ap (λ t. 2 ^ t) e ∙ sym (pow-256 (length q))

-- The same byte in the big-endian number.
pub index_be :
    (p : Bytes) (i : ℕ)
    → All IsByte p
    → i < length p
    → index p i ≡ ok (be_value p / 2 ^ (8 * (length p - 1 - i)) % 2 ^ 8)
index_be p i hp h =
    index-drop p i
    ∙ first_be (drop i p) (All-drop IsByte i p hp) (omega (arith, length-drop i p))
    ∙ ap₂ (λ v e. ok (v / 2 ^ e)) (be_value-drop p i (omega arith) hp) e1
    ∙ ap (λ e. ok (be_value p % 2 ^ e / 2 ^ (8 * (length p - 1 - i)))) e2
    ∙ ap ok (div-mod-pow (be_value p) (8 * (length p - 1 - i)) 8)
  where
    e1 : 8 * (length (drop i p) - 1) ≡ 8 * (length p - 1 - i)
    e1 = omega (arith, length-drop i p)

    e2 : 8 * (length p - i) ≡ 8 * (length p - 1 - i) + 8
    e2 = omega arith

pub slice-ok {ℓ} :
    {A : Type ℓ} (xs : List A) (i j : ℕ)
    → i ≤ j
    → j ≤ length xs
    → slice xs i j ≡ ok (take (j - i) (drop i xs))
unfolding slice
slice-ok xs i j h k = rw (ge→ltb (length xs) j k, ge→ltb j i h)

pub slice_from-ok {ℓ} :
    {A : Type ℓ} (xs : List A) (i : ℕ) → i ≤ length xs → slice_from xs i ≡ ok (drop i xs)
unfolding slice_from
slice_from-ok xs i h = rw (ge→ltb (length xs) i h)

pub le_uint-ok : (n : ℕ) (bs : Bytes) → n ≤ length bs → le_uint n bs ≡ ok (le_value (take n bs))
unfolding le_uint
le_uint-ok n bs h = ground arith

pub index-ok : (xs : Bytes) (i : ℕ) → i < length xs → index xs i ≡ ok (get_or xs i 0)
unfolding index
index-ok [] i h = absurd (omega arith)
index-ok (x ∷ xs) zero h = refl
index-ok (x ∷ xs) (suc i) h = index-ok xs i (omega arith)

-- The 64-bit word at byte `i`.
unfoldable pub word_at : Bytes → ℕ → ℕ
word_at bs i = le_value (take 8 (drop i bs))

pub word_at-ok :
    (bs : Bytes) (i : ℕ) → i + 8 ≤ length bs → (slice_from bs i >>= le_uint 8) ≡ ok (word_at bs i)
unfolding word_at
word_at-ok bs i h =
    rw (slice_from-ok bs i (omega arith))
      (le_uint-ok 8 (drop i bs) (omega (arith, length-drop i bs)))

pub word_at-slice :
    (bs : Bytes) (i : ℕ)
    → i + 8 ≤ length bs
    → (slice bs i (i + 8) >>= le_uint 8) ≡ ok (word_at bs i)
unfolding word_at
word_at-slice bs i h =
    let e : i + 8 - i ≡ 8 = omega arith in
    rw (slice-ok bs i (i + 8) (omega arith) (omega arith), e)
      (le_uint-ok 8 (take 8 (drop i bs))
          (omega (arith, length-take 8 (drop i bs), length-drop i bs))
        ∙ ap (λ t. ok (le_value t)) (take-take 8 8 (drop i bs) (omega arith)))

pub word_at-lt : (bs : Bytes) (i : ℕ) → All IsByte bs → word_at bs i < 2 ^ 64
unfolding word_at
word_at-lt bs i h =
    lt_of_lt_of_le
      (le_value-lt (take 8 (drop i bs)) (All-take IsByte 8 (drop i bs) (All-drop IsByte i bs h)))
      (pow-le-pow_right {n = 256} (omega arith) {j = 8} (omega (arith, length-take 8 (drop i bs))))

-- A field of a byte string that is long enough can be read.
pub field-ok :
    (bs : Bytes) (i n : ℕ)
    → i + n ≤ length bs
    → (slice bs i (i + n) >>= le_uint n) ≡ ok (le_value (take n (drop i bs)))
field-ok bs i n h =
    let e : i + n - i ≡ n = omega arith in
    rw (slice-ok bs i (i + n) (omega arith) (omega arith), e)
      (le_uint-ok n (take n (drop i bs))
          (omega (arith, length-take n (drop i bs), length-drop i bs))
        ∙ ap (λ t. ok (le_value t)) (take-take n n (drop i bs) (omega arith)))
