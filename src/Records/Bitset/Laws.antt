-- ===== src/Records/Bitset/Laws.antt =====
-- The bit set holds the flags that were appended, in order.
use Prim.Native.Nat.{bit_or}
use go_mdf.Base.{
  ℕ, zero, suc, ◌+◌, ◌*◌, ◌/◌, ◌%◌, ◌^◌, ◌≤◌, ◌<◌, ◌≡◌, refl, sym, ap, ap₂, subst, ◌∙◌, Bool, true,
  false, List, [], ◌∷◌, ◌++◌, leb, ◌==◌, not, if◌then◌else◌, length, All, All-append, length-append,
  length-set, All-set, ok, ◌>>=◌, arith, inl, inr, Bool-cases, get_or, set, Outcome, leb→le, leb→gt,
  ==→eq, ==→ne, append-nil, append_assoc,
}
use go_mdf.Base.Words.{index, IsWord}
use go_mdf.Base.Powers.{pow-pos, pow-add, div-div-pow, field-mod_le}
use native.Mathlib.Nat.{
  pow-suc, zero-div, div-div-eq-div-mul, mod-le, lt_of_le_of_lt, div-lt_iff_lt-mul,
  pow-le-pow_right,
}
use go_mdf.Base.Bits.{and_bit, or_disjoint'}
use go_mdf.Records.Bitset.{Bitset, new_bitset, append, get, len}

pub append_all : Bitset → List Bool → Outcome Bitset
append_all b [] = ok b
append_all b (x ∷ xs) = append b x >>= λ c. append_all c xs

-- The words as one number, and the flags as one number.
number : List ℕ → ℕ
number [] = 0
number (w ∷ ws) = w + 2 ^ 64 * number ws

bit : Bool → ℕ
bit true = 1
bit false = 0

flags : List Bool → ℕ
flags [] = 0
flags (x ∷ xs) = bit x + 2 * flags xs

index-number :
    (ws : List ℕ) (i : ℕ)
    → All IsWord ws
    → i < length ws
    → index ws i ≡ ok (number ws / 2 ^ (64 * i) % 2 ^ 64)
unfolding index number
index-number [] i hw h = absurd (omega arith)
index-number (w ∷ ws) zero (hw, hws) h = ap ok (omega arith)
index-number (w ∷ ws) (suc i) (hw, hws) h =
    index-number ws i hws (omega arith) ∙ ap (λ t. ok (t % 2 ^ 64)) up
  where
    up : number ws / 2 ^ (64 * i) ≡ (w + 2 ^ 64 * number ws) / 2 ^ (64 * suc i)
    up =
        let e : 64 + 64 * i ≡ 64 * suc i = omega arith in
        let q : number ws ≡ (w + 2 ^ 64 * number ws) / 2 ^ 64 = omega arith in
        ap (λ t. t / 2 ^ (64 * i)) q
        ∙ div-div-pow (w + 2 ^ 64 * number ws) 64 (64 * i)
        ∙ ap (λ t. (w + 2 ^ 64 * number ws) / 2 ^ t) e

-- Adding `m` to one word adds it at that word's place.
number-set :
    (ws : List ℕ) (i w m : ℕ)
    → index ws i ≡ ok w
    → number (set ws i (m + w)) ≡ number ws + m * 2 ^ (64 * i)
unfolding index number
number-set [] i w m h = cc
number-set (v ∷ ws) zero w m h = ground arith
number-set (v ∷ ws) (suc i) w m h =
    let e : 64 * suc i ≡ 64 * i + 64 = omega arith in
    omega (
      arith,
      number-set ws i w m h,
      ap (λ t. m * 2 ^ t) e,
      ap (λ (t : ℕ). m * t) (pow-add 2 (64 * i) 64),
    )

number-snoc : (ws : List ℕ) → number (ws ++ 0 ∷ []) ≡ number ws
unfolding number
number-snoc [] = refl
number-snoc (w ∷ ws) = omega (arith, number-snoc ws)

flags-snoc : (xs : List Bool) (x : Bool) → flags (xs ++ x ∷ []) ≡ flags xs + bit x * 2 ^ length xs
unfolding flags
flags-snoc [] x = omega arith
flags-snoc (y ∷ xs) x =
    omega (arith, flags-snoc xs x, ap (λ (t : ℕ). bit x * t) (pow-suc 2 (length xs)))

flags-lt : (xs : List Bool) → flags xs < 2 ^ length xs
unfolding flags bit
flags-lt [] = omega arith
flags-lt (true ∷ xs) = omega (arith, flags-lt xs, pow-suc 2 (length xs))
flags-lt (false ∷ xs) = omega (arith, flags-lt xs, pow-suc 2 (length xs))

flags-bit : (xs : List Bool) (i : ℕ) → flags xs / 2 ^ i % 2 ≡ bit (get_or xs i false)
unfolding flags bit
flags-bit [] i = omega (arith, zero-div (2 ^ i))
flags-bit (true ∷ xs) zero = omega arith
flags-bit (false ∷ xs) zero = omega arith
flags-bit (x ∷ xs) (suc i) = ap (λ t. t % 2) shifted ∙ flags-bit xs i
  where
    shifted : (bit x + 2 * flags xs) / 2 ^ suc i ≡ flags xs / 2 ^ i
    shifted =
        let e : 2 ^ suc i ≡ 2 * 2 ^ i = omega (arith, pow-suc 2 i) in
        ap (λ t. (bit x + 2 * flags xs) / t) e
        ∙ sym (div-div-eq-div-mul (bit x + 2 * flags xs) 2 (2 ^ i))
        ∙ ap (λ t. t / 2 ^ i) (ground (arith, x))

-- The bit set `b` holds the flags `xs`.
record Holds (b : Bitset) (xs : List Bool) : Type 0 where
  value : number b.words ≡ flags xs
  counted : b.n ≡ length xs
  sized : length b.words ≡ (length xs + 63) / 64
  fits : All IsWord b.words

abbrev grown : Bitset → List ℕ
grown b = if b.n % 64 == 0 then b.words ++ 0 ∷ [] else b.words

module _ (b : Bitset) (xs : List Bool) (h : Holds b xs) where
  grown_lem :
      (number (grown b) ≡ flags xs) × (length (grown b) ≡ length xs / 64 + 1) × All IsWord (grown b)
  grown_lem = elim (Bool-cases (b.n % 64 == 0)) [
    | inl full ↦ rw full (
      number-snoc b.words ∙ h.value,
      omega (arith, length-append b.words (0 ∷ []), h.sized, h.counted, ==→eq (b.n % 64) 0 full),
      All-append IsWord b.words (0 ∷ []) h.fits (omega arith),
    )
    | inr part ↦
        rw part (h.value, omega (arith, h.sized, h.counted, ==→ne (b.n % 64) 0 part), h.fits)
  ]

  last : ℕ
  last = number (grown b) / 2 ^ (64 * (b.n / 64)) % 2 ^ 64

  index-last : index (grown b) (b.n / 64) ≡ ok last
  unfolding last
  index-last = index-number (grown b) (b.n / 64) grown_lem.2 (omega (arith, grown_lem.1, h.counted))

  last-lt : last < 2 ^ (b.n % 64)
  unfolding last
  last-lt =
      lt_of_le_of_lt (mod-le _ (2 ^ 64)) ((div-lt_iff_lt-mul (pow-pos (64 * (b.n / 64)))).1 below)
    where
      below : number (grown b) < 2 ^ (b.n % 64) * 2 ^ (64 * (b.n / 64))
      below =
          let e : length xs ≡ b.n % 64 + 64 * (b.n / 64) = omega (arith, h.counted) in
          let f : flags xs < 2 ^ (b.n % 64 + 64 * (b.n / 64)) =
            subst (λ t. flags xs < 2 ^ t) e (flags-lt xs) in
          omega (arith, f, grown_lem.0, pow-add 2 (b.n % 64) (64 * (b.n / 64)))

  joined : bit_or last (2 ^ (b.n % 64)) ≡ 2 ^ (b.n % 64) + last
  joined = ap (bit_or last) (omega arith) ∙ or_disjoint' (b.n % 64) 1 last last-lt ∙ omega arith

  room : 2 ^ (b.n % 64) + last < 2 ^ 64
  room =
      let top : 2 ^ (b.n % 64 + 1) ≤ 2 ^ 64 =
        pow-le-pow_right {n = 2} (omega arith) {j = 64} (omega arith) in
      omega (arith, last-lt, top, pow-add 2 (b.n % 64) 1)

  append-Holds : (x : Bool) → (c : Bitset) × (append b x ≡ ok c) × Holds c (xs ++ x ∷ [])
  unfolding append
  append-Holds false = (
    record { words = grown b; n = b.n + 1 },
    refl,
    record {
      value = omega (arith, grown_lem.0, flags-snoc xs false, unset);
      counted = omega (arith, h.counted, length-append xs (false ∷ []));
      sized = omega (arith, grown_lem.1, length-append xs (false ∷ []));
      fits = grown_lem.2;
    },
  )
    where
      unset : bit false * 2 ^ length xs ≡ 0
      unset = unfold bit in omega arith
  append-Holds true = (
    record { words = written; n = b.n + 1 },
    rw (index-last, joined),
    record {
      value = number-set (grown b) (b.n / 64) last (2 ^ (b.n % 64)) index-last ∙ total;
      counted = omega (arith, h.counted, length-append xs (true ∷ []));
      sized = omega (
        arith,
        grown_lem.1,
        length-append xs (true ∷ []),
        length-set (grown b) (b.n / 64) (2 ^ (b.n % 64) + last),
      );
      fits = All-set IsWord (grown b) (b.n / 64) _ grown_lem.2 room;
    },
  )
    where
      written : List ℕ
      written = set (grown b) (b.n / 64) (2 ^ (b.n % 64) + last)

      total : number (grown b) + 2 ^ (b.n % 64) * 2 ^ (64 * (b.n / 64)) ≡ flags (xs ++ true ∷ [])
      total =
          let e : b.n % 64 + 64 * (b.n / 64) ≡ length xs = omega (arith, h.counted) in
          let one_bit : bit true * 2 ^ length xs ≡ 2 ^ length xs = unfold bit in omega arith in
          omega (
            arith,
            grown_lem.0,
            flags-snoc xs true,
            one_bit,
            pow-add 2 (b.n % 64) (64 * (b.n / 64)),
            ap (λ t. 2 ^ t) e,
          )

  get_past : (ys : List Bool) (i : ℕ) → length ys ≤ i → get_or ys i false ≡ false
  get_past [] i k = refl
  get_past (y ∷ ys) zero k = absurd (omega arith)
  get_past (y ∷ ys) (suc i) k = get_past ys i (omega arith)

  masked_bit : (x : Bool) (r : ℕ) → not (bit x * 2 ^ r == 0) ≡ x
  unfolding bit
  masked_bit true r = ground (arith, pow-pos r)
  masked_bit false r = ground arith

  at_bit :
      (i : ℕ)
      → number b.words / 2 ^ (64 * (i / 64)) % 2 ^ 64 / 2 ^ (i % 64) % 2 ≡ bit (get_or xs i false)
  at_bit i =
      let e : 64 * (i / 64) + i % 64 ≡ i = omega arith in
      field-mod_le (number b.words / 2 ^ (64 * (i / 64))) (i % 64) 1 64 (omega arith)
      ∙ ap (λ t. t % 2) (div-div-pow (number b.words) (64 * (i / 64)) (i % 64))
      ∙ ap₂ (λ v t. v / 2 ^ t % 2) h.value e
      ∙ flags-bit xs i

  get-Holds : (i : ℕ) → get b i ≡ ok (get_or xs i false)
  unfolding get
  get-Holds i = elim (Bool-cases (leb b.n i)) [
    | inl past ↦ rw past (ap ok (sym (get_past xs i (omega (arith, h.counted, leb→le b.n i past)))))
    | inr inside ↦
        rw
          (
            inside,
            index-number b.words (i / 64) h.fits
                (omega (arith, h.sized, h.counted, leb→gt b.n i inside)),
            and_bit (i % 64),
          )
          (ap (λ t. ok (not (t * 2 ^ (i % 64) == 0))) (at_bit i)
            ∙ ap ok (masked_bit (get_or xs i false) (i % 64)))
  ]

append_all-Holds :
    (b : Bitset) (xs ys : List Bool)
    → Holds b xs
    → (c : Bitset) × (append_all b ys ≡ ok c) × Holds c (xs ++ ys)
unfolding append_all
append_all-Holds b xs [] h = (b, refl, rw append-nil h)
append_all-Holds b xs (y ∷ ys) h =
    let (c, e, k) = append-Holds b xs h y in
    let (d, f, l) = append_all-Holds c (xs ++ y ∷ []) ys k in (d, rw e f, rw append_assoc at l)

new-Holds : Holds new_bitset []
unfolding new_bitset number flags
new-Holds = record { value = refl; counted = refl; sized = refl; fits = tt }

-- Appending any flags to a new bit set succeeds; then `Len` is their number, and `Get` at an
-- index is the flag appended there, and false from the length on.
pub append_all-get :
    (xs : List Bool)
    → (b : Bitset) × (append_all new_bitset xs ≡ ok b)
      × (len b ≡ length xs)
      × ((i : ℕ) → get b i ≡ ok (get_or xs i false))
unfolding len
append_all-get xs =
    let (b, e, h) = append_all-Holds new_bitset [] xs new-Holds in
    (b, e, h.counted, get-Holds b xs h)
