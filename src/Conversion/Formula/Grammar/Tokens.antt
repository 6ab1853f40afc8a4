-- ===== src/Conversion/Formula/Grammar/Tokens.antt =====
-- What may follow a formula of a level, and how the scanners of names and numbers end there.
use go_mdf.Base.{
  ℕ, suc, ◌≡◌, ◌≤◌, refl, true, false, ◌||◌, ◌==◌, leb, [], ◌∷◌, ◌++◌, All, arith, inl, inr,
  Bool-cases, gt→leb, leb→gt, leb→le, ne→==, ok,
}
use go_mdf.Base.Words.{Bytes}
use go_mdf.Conversion.Float.{Float}
use go_mdf.Conversion.Formula.{
  Math, Parser, is_space, is_digit, is_letter, skip_space, peek, scan_number, scan_name,
  parse_power, term_loop, expr_loop,
}
use go_mdf.Conversion.Formula.Grammar.{IsFigure, IsNameByte}

-- The end, or a byte that no formula of the level goes on with: 0 is a sum, 1 a term, 2 a power, and
-- 3 an operand.
pub data Follows : ℕ → Bytes → Type 0 where
  done : {l : ℕ} → Follows l []
  closes : {l : ℕ} {s : Bytes} → Follows l (b')' ∷ s)
  adds : {l : ℕ} {s : Bytes} → 1 ≤ l → Follows l (b'+' ∷ s)
  subtracts : {l : ℕ} {s : Bytes} → 1 ≤ l → Follows l (b'-' ∷ s)
  times : {l : ℕ} {s : Bytes} → 2 ≤ l → Follows l (b'*' ∷ s)
  over : {l : ℕ} {s : Bytes} → 2 ≤ l → Follows l (b'/' ∷ s)
  exponent : {l : ℕ} {s : Bytes} → 3 ≤ l → Follows l (b'^' ∷ s)

pub Follows-le : {l k : ℕ} {s : Bytes} → l ≤ k → Follows l s → Follows k s
Follows-le h done = done
Follows-le h closes = closes
Follows-le h (adds e) = adds (omega (arith, h, e))
Follows-le h (subtracts e) = subtracts (omega (arith, h, e))
Follows-le h (times e) = times (omega (arith, h, e))
Follows-le h (over e) = over (omega (arith, h, e))
Follows-le h (exponent e) = exponent (omega (arith, h, e))

scan_number-end : {l : ℕ} (s : Bytes) → Follows l s → scan_number false s ≡ ([], s)
unfolding scan_number
scan_number-end s done = refl
scan_number-end s closes = refl
scan_number-end s (adds e) = refl
scan_number-end s (subtracts e) = refl
scan_number-end s (times e) = refl
scan_number-end s (over e) = refl
scan_number-end s (exponent e) = refl

pub scan_name-end : {l : ℕ} (s : Bytes) → Follows l s → scan_name s ≡ ([], s)
unfolding scan_name
scan_name-end s done = refl
scan_name-end s closes = refl
scan_name-end s (adds e) = refl
scan_name-end s (subtracts e) = refl
scan_name-end s (times e) = refl
scan_name-end s (over e) = refl
scan_name-end s (exponent e) = refl

pub scan_number-figures :
    {l : ℕ} (s rest : Bytes)
    → All IsFigure s
    → Follows l rest
    → scan_number false (s ++ rest) ≡ (s, rest)
unfolding scan_number
scan_number-figures [] rest h e = scan_number-end rest e
scan_number-figures (c ∷ s) rest (h, hs) e = rw (h, scan_number-figures s rest hs e) refl

pub scan_name-append :
    (s rest : Bytes)
    → All IsNameByte s
    → scan_name rest ≡ ([], rest)
    → scan_name (s ++ rest) ≡ (s, rest)
unfolding scan_name
scan_name-append [] rest h e = e
scan_name-append (c ∷ s) rest (h, hs) e = rw (h, scan_name-append s rest hs e) refl

pub peek_byte : (c : ℕ) (s : Bytes) → is_space c ≡ false → peek (c ∷ s) ≡ (c, c ∷ s)
unfolding peek skip_space
peek_byte c s h = rw h refl

module _ {W : Type 0} (m : Math W) (f : Float W) where
  -- The loops stop at what may follow.
  pub term_loop-end :
      (p : Parser W) (n : ℕ) (g : W → W) (s : Bytes)
      → Follows 1 s
      → term_loop m f p (suc n) g s ≡ ok (g, s)
  unfolding term_loop peek skip_space
  term_loop-end p n g s done = refl
  term_loop-end p n g s closes = refl
  term_loop-end p n g s (adds e) = refl
  term_loop-end p n g s (subtracts e) = refl
  term_loop-end p n g s (times e) = absurd (omega (arith, e))
  term_loop-end p n g s (over e) = absurd (omega (arith, e))
  term_loop-end p n g s (exponent e) = absurd (omega (arith, e))

  pub expr_loop-end :
      (p : Parser W) (n : ℕ) (g : W → W) (s : Bytes)
      → Follows 0 s
      → expr_loop m f p (suc n) g s ≡ ok (g, s)
  unfolding expr_loop peek skip_space
  expr_loop-end p n g s done = refl
  expr_loop-end p n g s closes = refl
  expr_loop-end p n g s (adds e) = absurd (omega (arith, e))
  expr_loop-end p n g s (subtracts e) = absurd (omega (arith, e))
  expr_loop-end p n g s (times e) = absurd (omega (arith, e))
  expr_loop-end p n g s (over e) = absurd (omega (arith, e))
  expr_loop-end p n g s (exponent e) = absurd (omega (arith, e))

  pub parse_power-end :
      (u : Parser W) (n : ℕ) (g : W → W) (t s : Bytes)
      → u t ≡ ok (g, s)
      → Follows 2 s
      → parse_power m f u (suc n) t ≡ ok (g, s)
  unfolding parse_power peek skip_space
  parse_power-end u n g t s h done = rw h refl
  parse_power-end u n g t s h closes = rw h refl
  parse_power-end u n g t s h (adds e) = rw h refl
  parse_power-end u n g t s h (subtracts e) = rw h refl
  parse_power-end u n g t s h (times e) = rw h refl
  parse_power-end u n g t s h (over e) = rw h refl
  parse_power-end u n g t s h (exponent e) = absurd (omega (arith, e))

-- What an operand starts with is neither a space nor a sign.
abbrev pub IsInitial : ℕ → Type 0
IsInitial c = (is_space c ≡ false) × ((c == b'-') ≡ false) × ((c == b'+') ≡ false)

pub letter-ge : (c : ℕ) → is_letter c ≡ true → 65 ≤ c
letter-ge c h = elim (Bool-cases (leb 65 c)) [
  | inl e ↦ leb→le 65 c e
  | inr e ↦
      let k = leb→gt 65 c e in
      let none_of : is_letter c ≡ false =
        rw
          (
            e,
            gt→leb 97 c (omega (arith, k)),
            ne→== c 170 (λ q. omega (arith, q, k)),
            ne→== c 181 (λ q. omega (arith, q, k)),
            ne→== c 186 (λ q. omega (arith, q, k)),
            gt→leb 192 c (omega (arith, k)),
          )
          refl in
      cc
]

pub high-IsInitial : (c : ℕ) → 46 ≤ c → IsInitial c
high-IsInitial c h = (
  rw
      (
        ne→== c 32 (λ q. omega (arith, q, h)),
        ne→== c 9 (λ q. omega (arith, q, h)),
        ne→== c 10 (λ q. omega (arith, q, h)),
        ne→== c 13 (λ q. omega (arith, q, h)),
      )
      refl,
  ne→== c 45 (λ q. omega (arith, q, h)),
  ne→== c 43 (λ q. omega (arith, q, h)),
)

pub figure-ge : (c : ℕ) → IsFigure c → 46 ≤ c
figure-ge c h = elim (Bool-cases (leb 46 c)) [
  | inl e ↦ leb→le 46 c e
  | inr e ↦
      let k = leb→gt 46 c e in
      let none_of : (is_digit c || c == b'.') ≡ false =
        rw (gt→leb 48 c (omega (arith, k)), ne→== c 46 (λ q. omega (arith, q, k))) refl in
      cc
]

-- The first byte of a formula is not a space, nor a closing parenthesis.
pub data Starts : Bytes → Type 0 where
  starts : (c : ℕ) (t : Bytes) → is_space c ≡ false → (c == b')') ≡ false → Starts (c ∷ t)

pub Starts-append : (s t : Bytes) → Starts s → Starts (s ++ t)
Starts-append s t (starts c s' h k) = starts c (s' ++ t) h k

pub high-Starts : (c : ℕ) (s : Bytes) → 46 ≤ c → Starts (c ∷ s)
high-Starts c s h = starts c s (high-IsInitial c h).0 (ne→== c 41 (λ q. omega (arith, q, h)))

pub data IsInitialOf : Bytes → Type 0 where
  initial : (c : ℕ) (t : Bytes) → IsInitial c → IsInitialOf (c ∷ t)
