-- ===== src/Tree/Elements/Laws.antt =====
-- The elements of an array of one level stand one behind the other, in the order of their numbers.
use native.Mathlib.Nat.{
  mul-add, add-mul, mul_comm, mul_assoc, mul_left_comm, add-mul-mod_self_left, div-add-mod,
  div-lt_iff_lt-mul,
}
use go_mdf.Base.{
  ℕ, zero, suc, ◌+◌, ◌*◌, ◌/◌, ◌%◌, ◌^◌, ◌<◌, ◌≡◌, sym, ap, ◌∙◌, Bool, List, [], ◌∷◌, arith,
}
use go_mdf.Blocks.Header.{add64, mul64}
use go_mdf.Tree.Elements.{Dim, level, indices, offsets, element, add32, mul32}

abbrev pub product : List ℕ → ℕ
product [] = 1
product (n ∷ ns) = n * product ns

spread : (M a b y z : ℕ) → a + b * (M * y + z) ≡ a + b * z + M * (b * y)
spread M a b y z = omega (arith, mul-add b (M * y) z, mul_left_comm b M y)

gather : (a n s y z : ℕ) → a + z * s + y * (s * n) ≡ a + (n * y + z) * s
gather a n s y z =
    let turned : n * y * s ≡ y * (s * n) =
      mul_comm (n * y) s ∙ ap (λ t. s * t) (mul_comm n y) ∙ mul_left_comm s y n in
    omega (arith, add-mul (n * y) z s, turned)

module _ (M : ℕ) where
  -- A factor counts modulo `M` only.
  factor : (a b c : ℕ) → (a + b * (c % M)) % M ≡ (a + b * c) % M
  factor a b c =
      let split = div-add-mod c M in
      let e : a + b * c ≡ (a + b * (c % M)) + M * (b * (c / M)) =
        ap (λ t. a + b * t) (sym split) ∙ spread M a b (c / M) (c % M) in
      sym (ap (λ t. t % M) e ∙ add-mul-mod_self_left (a + b * (c % M)) M (b * (c / M)))

-- What a place adds up to, by its index and the number that is left of it.
carry : (a q n s : ℕ) → q % n * s + a + q / n * (s * n) ≡ a + q * s
carry a q n s =
    let sum = gather a n s (q / n) (q % n) ∙ ap (λ t. a + t * s) (div-add-mod q n) in
    omega (arith, sum)

-- What the indices add up to.
abbrev byte_sum : List Dim → List ℕ → ℕ
byte_sum [] is = 0
byte_sum (d ∷ ds) [] = 0
byte_sum (d ∷ ds) (i ∷ is) = i * d.stride + byte_sum ds is

offsets-byte_sum :
    (ds : List Dim) (is : List ℕ) (byte_off inv_off : ℕ)
    → (offsets byte_off inv_off ds is).0 % 2 ^ 64 ≡ (byte_off + byte_sum ds is) % 2 ^ 64
unfolding offsets
offsets-byte_sum [] is byte_off inv_off = omega arith
offsets-byte_sum (d ∷ ds) [] byte_off inv_off = omega arith
offsets-byte_sum (d ∷ ds) (i ∷ is) byte_off inv_off =
    offsets-byte_sum ds is (add64 byte_off (mul64 i d.stride))
      (add32 inv_off (mul32 (i % 2 ^ 32) d.inval_stride))
    ∙ omega arith

-- The indices of `k` add up to `k` times the base, up to what is left of `k`.
level-byte_sum :
    (stride inval : ℕ) (ns : List ℕ) (k : ℕ)
    → (byte_sum (level stride inval ns).0 (indices (level stride inval ns).0 k).0
          + (indices (level stride inval ns).0 k).1 * (level stride inval ns).1)
        % 2 ^ 64
      ≡ k * stride % 2 ^ 64
unfolding level indices
level-byte_sum stride inval [] k = omega arith
level-byte_sum stride inval (n ∷ ns) k =
    let r = level stride inval ns in
    let q = (indices r.0 k).1 in
    let a = byte_sum r.0 (indices r.0 k).0 in
    let ih = level-byte_sum stride inval ns k in
    factor (2 ^ 64) (q % n * r.1 + a) (q / n) (r.1 * n)
    ∙ ap (λ t. t % 2 ^ 64) (carry a q n r.1)
    ∙ ih

-- Nothing is left of the number of an element.
indices-lt :
    (stride inval : ℕ) (ns : List ℕ) (m k : ℕ)
    → k < m * product ns
    → (indices (level stride inval ns).0 k).1 < m
unfolding level indices
indices-lt stride inval [] m k h = omega (arith, h)
indices-lt stride inval (zero ∷ ns) m k h = absurd (omega (arith, h))
indices-lt stride inval (suc n ∷ ns) m k h =
    let same : m * suc n * product ns ≡ m * (suc n * product ns) =
      mul_assoc m (suc n) (product ns) in
    let ih = indices-lt stride inval ns (m * suc n) k (omega (arith, h, same)) in
    (div-lt_iff_lt-mul {k = suc n} (omega arith)).1 ih

narrow :
    (x p b t : ℕ)
    → x % 2 ^ 64 ≡ (p + b) % 2 ^ 64
    → b % 2 ^ 64 ≡ t % 2 ^ 64
    → x % 2 ^ 32 ≡ (p + t) % 2 ^ 32
narrow x p b t h k = omega (arith, h, k)

-- The elements of an array of one level are laid out by their numbers: element `k` stands `k` times
-- the base offset behind the parent, modulo the 32 bits of an offset.
pub element-level :
    (parent inval_bit_pos stride inval : ℕ) (flag : Bool) (ns : List ℕ) (k : ℕ)
    → k < product ns
    → (element parent inval_bit_pos flag (level stride inval ns).0 k).byte_offset
      ≡ (parent + k * stride) % 2 ^ 32
unfolding element
element-level parent inval_bit_pos stride inval flag ns k h =
    let ds = (level stride inval ns).0 in
    let is = (indices ds k).0 in
    let left : (indices ds k).1 ≡ 0 =
      omega (arith, indices-lt stride inval ns 1 k (omega (arith, h))) in
    let walked = offsets-byte_sum ds is parent 0 in
    let total = level-byte_sum stride inval ns k in
    let next = (level stride inval ns).1 in
    let none_left : byte_sum ds is + (indices ds k).1 * next ≡ byte_sum ds is =
      ap (λ t. byte_sum ds is + t * next) left ∙ omega arith in
    narrow (offsets parent 0 ds is).0 parent (byte_sum ds is) (k * stride) walked
      (ap (λ t. t % 2 ^ 64) (sym none_left) ∙ total)
