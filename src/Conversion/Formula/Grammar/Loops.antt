-- ===== src/Conversion/Formula/Grammar/Loops.antt =====
-- The loops of terms and sums read their operators from left to right.
use go_mdf.Base.{
  ℕ, zero, suc, ◌<◌, ◌≡◌, refl, ◌∙◌, ◌∷◌, ◌++◌, append_assoc, length, length-append, ok, arith,
}
use go_mdf.Base.Words.{Bytes}
use go_mdf.Conversion.Float.{Float}
use go_mdf.Conversion.Formula.{Math, term_loop, parse_term, expr_loop, parse_sum}
use go_mdf.Conversion.Formula.Grammar.{Level}
use go_mdf.Conversion.Formula.Grammar.Tokens.{Follows, peek_byte}
use go_mdf.Conversion.Formula.Grammar.Reads.{power_at, term_at, Reads, term-Reads}

module _ {W : Type 0} (m : Math W) (f : Float W) where
  pub factor-Reads :
      (d : ℕ) (s : Bytes) (g : W → W) → Reads m f Level.power d s g → Reads m f Level.term d s g
  unfolding parse_term
  factor-Reads d s g h rest e = (
    length rest,
    omega arith,
    rw (h rest e (suc (length (s ++ rest))) (omega (arith, length-append s rest))) refl,
  )

  step_product :
      (d k : ℕ) (g h : W → W) (s rest : Bytes)
      → power_at m f d s ≡ ok (h, rest)
      → length rest < suc (length s)
      → length (b'*' ∷ s) < suc k
      → (i : ℕ) × (length rest < suc i)
        × (term_loop m f (power_at m f d) (suc k) g (b'*' ∷ s)
            ≡ term_loop m f (power_at m f d) (suc i) (λ x. f.mul (g x) (h x)) rest)
  unfolding term_loop
  step_product d zero g h s rest q short enough = absurd (omega (arith, enough))
  step_product d (suc k) g h s rest q short enough =
      (k, omega (arith, short, enough), rw (peek_byte b'*' s refl, q) refl)

  pub product-Reads :
      (d : ℕ) (s t : Bytes) (g h : W → W)
      → Reads m f Level.term d s g
      → Reads m f Level.power d t h
      → Reads m f Level.term d (s ++ b'*' ∷ t) (λ x. f.mul (g x) (h x))
  product-Reads d s t g h p q rest e =
      let left = p (b'*' ∷ t ++ rest) (Follows.times (omega arith)) in
      let right = q rest e (suc (length (t ++ rest))) (omega (arith, length-append t rest)) in
      let next =
        step_product d left.0 g h (t ++ rest) rest right (omega (arith, length-append t rest))
          left.1 in
      (next.0, next.1, rw (append_assoc s (b'*' ∷ t) rest) (left.2 ∙ next.2))

  step_quotient :
      (d k : ℕ) (g h : W → W) (s rest : Bytes)
      → power_at m f d s ≡ ok (h, rest)
      → length rest < suc (length s)
      → length (b'/' ∷ s) < suc k
      → (i : ℕ) × (length rest < suc i)
        × (term_loop m f (power_at m f d) (suc k) g (b'/' ∷ s)
            ≡ term_loop m f (power_at m f d) (suc i) (λ x. f.div (g x) (h x)) rest)
  unfolding term_loop
  step_quotient d zero g h s rest q short enough = absurd (omega (arith, enough))
  step_quotient d (suc k) g h s rest q short enough =
      (k, omega (arith, short, enough), rw (peek_byte b'/' s refl, q) refl)

  pub quotient-Reads :
      (d : ℕ) (s t : Bytes) (g h : W → W)
      → Reads m f Level.term d s g
      → Reads m f Level.power d t h
      → Reads m f Level.term d (s ++ b'/' ∷ t) (λ x. f.div (g x) (h x))
  quotient-Reads d s t g h p q rest e =
      let left = p (b'/' ∷ t ++ rest) (Follows.over (omega arith)) in
      let right = q rest e (suc (length (t ++ rest))) (omega (arith, length-append t rest)) in
      let next =
        step_quotient d left.0 g h (t ++ rest) rest right (omega (arith, length-append t rest))
          left.1 in
      (next.0, next.1, rw (append_assoc s (b'/' ∷ t) rest) (left.2 ∙ next.2))

  step_plus :
      (d k : ℕ) (g h : W → W) (s rest : Bytes)
      → term_at m f d s ≡ ok (h, rest)
      → length rest < suc (length s)
      → length (b'+' ∷ s) < suc k
      → (i : ℕ) × (length rest < suc i)
        × (expr_loop m f (term_at m f d) (suc k) g (b'+' ∷ s)
            ≡ expr_loop m f (term_at m f d) (suc i) (λ x. f.add (g x) (h x)) rest)
  unfolding expr_loop
  step_plus d zero g h s rest q short enough = absurd (omega (arith, enough))
  step_plus d (suc k) g h s rest q short enough =
      (k, omega (arith, short, enough), rw (peek_byte b'+' s refl, q) refl)

  pub plus-Reads :
      (d : ℕ) (s t : Bytes) (g h : W → W)
      → Reads m f Level.sum d s g
      → Reads m f Level.term d t h
      → Reads m f Level.sum d (s ++ b'+' ∷ t) (λ x. f.add (g x) (h x))
  plus-Reads d s t g h p q rest e =
      let left = p (b'+' ∷ t ++ rest) (Follows.adds (omega arith)) in
      let right = term-Reads m f d t h q rest e in
      let next =
        step_plus d left.0 g h (t ++ rest) rest right (omega (arith, length-append t rest))
          left.1 in
      (next.0, next.1, rw (append_assoc s (b'+' ∷ t) rest) (left.2 ∙ next.2))

  step_minus :
      (d k : ℕ) (g h : W → W) (s rest : Bytes)
      → term_at m f d s ≡ ok (h, rest)
      → length rest < suc (length s)
      → length (b'-' ∷ s) < suc k
      → (i : ℕ) × (length rest < suc i)
        × (expr_loop m f (term_at m f d) (suc k) g (b'-' ∷ s)
            ≡ expr_loop m f (term_at m f d) (suc i) (λ x. f.sub (g x) (h x)) rest)
  unfolding expr_loop
  step_minus d zero g h s rest q short enough = absurd (omega (arith, enough))
  step_minus d (suc k) g h s rest q short enough =
      (k, omega (arith, short, enough), rw (peek_byte b'-' s refl, q) refl)

  pub minus-Reads :
      (d : ℕ) (s t : Bytes) (g h : W → W)
      → Reads m f Level.sum d s g
      → Reads m f Level.term d t h
      → Reads m f Level.sum d (s ++ b'-' ∷ t) (λ x. f.sub (g x) (h x))
  minus-Reads d s t g h p q rest e =
      let left = p (b'-' ∷ t ++ rest) (Follows.subtracts (omega arith)) in
      let right = term-Reads m f d t h q rest e in
      let next =
        step_minus d left.0 g h (t ++ rest) rest right (omega (arith, length-append t rest))
          left.1 in
      (next.0, next.1, rw (append_assoc s (b'-' ∷ t) rest) (left.2 ∙ next.2))

  pub summand-Reads :
      (d : ℕ) (s : Bytes) (g : W → W) → Reads m f Level.term d s g → Reads m f Level.sum d s g
  unfolding parse_sum
  summand-Reads d s g h rest e = (length rest, omega arith, rw (term-Reads m f d s g h rest e) refl)
