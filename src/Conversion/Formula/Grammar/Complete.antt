-- ===== src/Conversion/Formula/Grammar/Complete.antt =====
-- Every formula of the grammar is compiled, to its value.
use go_mdf.Base.{
  ℕ, zero, suc, ◌≤◌, ◌≡◌, refl, subst, [], ◌∷◌, ◌++◌, append-nil, length, length-append, ok, arith,
}
use go_mdf.Base.Words.{Bytes}
use go_mdf.Blocks.Header.{refuse}
use go_mdf.Conversion.Float.{Float}
use go_mdf.Conversion.Formula.{Math, parse_expr, compile_formula, skip_space}
use go_mdf.Conversion.Formula.Grammar.{Level, Derives}
use go_mdf.Conversion.Formula.Grammar.Tokens.{
  Follows, IsInitialOf, initial, high-IsInitial, Starts, starts, Starts-append, high-Starts,
  letter-ge, figure-ge,
}
use go_mdf.Conversion.Formula.Grammar.Reads.{
  Reads, sum-Reads, number-Reads, variable-Reads, group-Reads, call-Reads, operand-Reads,
  negative-Reads, positive-Reads, base-Reads, raised-Reads,
}
use go_mdf.Conversion.Formula.Grammar.Loops.{
  factor-Reads, product-Reads, quotient-Reads, summand-Reads, plus-Reads, minus-Reads,
}

module _ {W : Type 0} {m : Math W} {f : Float W} where
  opening : {l : Level} {s : Bytes} {g : W → W} → Derives m f l s g → Starts s
  opening (Derives.number c s v figures value) = high-Starts c s (figure-ge c figures.0)
  opening Derives.variable = high-Starts b'X' [] (omega arith)
  opening (Derives.group {s} p) = starts b'(' (s ++ b')' ∷ []) refl refl
  opening (Derives.call {s} c name h letter bytes other named p) =
      Starts-append (c ∷ name ++ b'(' ∷ s) (b')' ∷ []) (
        Starts-append (c ∷ name) (b'(' ∷ s)
          (high-Starts c name (let high = letter-ge c letter in omega (arith, high))))
  opening (Derives.operand p) = opening p
  opening (Derives.negative {s} p) = starts b'-' s refl refl
  opening (Derives.positive {s} p) = starts b'+' s refl refl
  opening (Derives.base p) = opening p
  opening (Derives.raised {s} {t} p q) = Starts-append s (b'^' ∷ t) (opening p)
  opening (Derives.factor p) = opening p
  opening (Derives.product {s} {t} p q) = Starts-append s (b'*' ∷ t) (opening p)
  opening (Derives.quotient {s} {t} p q) = Starts-append s (b'/' ∷ t) (opening p)
  opening (Derives.summand p) = opening p
  opening (Derives.plus {s} {t} p q) = Starts-append s (b'+' ∷ t) (opening p)
  opening (Derives.minus {s} {t} p q) = Starts-append s (b'-' ∷ t) (opening p)

  -- An operand does not start with a sign.
  unsigned : {s : Bytes} {g : W → W} → Derives m f Level.primary s g → IsInitialOf s
  unsigned (Derives.number c s v figures value) =
      initial c s (high-IsInitial c (figure-ge c figures.0))
  unsigned Derives.variable = initial b'X' [] (high-IsInitial b'X' (omega arith))
  unsigned (Derives.group {s} p) = initial b'(' (s ++ b')' ∷ []) (refl, refl, refl)
  unsigned (Derives.call {s} c name h letter bytes other named p) =
      let high = letter-ge c letter in
      initial c (name ++ b'(' ∷ s ++ b')' ∷ []) (high-IsInitial c (omega (arith, high)))

  Derives-Reads :
      {l : Level} {s : Bytes} {g : W → W}
      → Derives m f l s g
      → (d : ℕ) → length s ≤ d
      → Reads m f l d s g
  Derives-Reads (Derives.number c s v figures value) d h = number-Reads m f d c s v figures value
  Derives-Reads Derives.variable d h = variable-Reads m f d
  Derives-Reads (Derives.group {s} {g} p) zero h = absurd (omega (arith, h))
  Derives-Reads (Derives.group {s} {g} p) (suc d) h =
      group-Reads m f d s g (Derives-Reads p d (omega (arith, h, length-append s (b')' ∷ []))))
  Derives-Reads (Derives.call {s} {g} c name k letter bytes other named p) zero h =
      absurd (omega (arith, h))
  Derives-Reads (Derives.call {s} {g} c name k letter bytes other named p) (suc d) h =
      call-Reads m f d c name k s g letter bytes other named (opening p) (
        Derives-Reads p d (
          omega (
            arith,
            h,
            length-append (c ∷ name ++ b'(' ∷ s) (b')' ∷ []),
            length-append (c ∷ name) (b'(' ∷ s),
          )))
  Derives-Reads (Derives.operand {s} {g} p) d h =
      operand-Reads m f d s g (unsigned p) (Derives-Reads p d h)
  Derives-Reads (Derives.negative {s} {g} p) d h =
      negative-Reads m f d s g (Derives-Reads p d (omega (arith, h)))
  Derives-Reads (Derives.positive {s} {g} p) d h =
      positive-Reads m f d s g (Derives-Reads p d (omega (arith, h)))
  Derives-Reads (Derives.base {s} {g} p) d h = base-Reads m f d s g (Derives-Reads p d h)
  Derives-Reads (Derives.raised {s} {t} {g} {h} p q) d le =
      let n = length-append s (b'^' ∷ t) in
      raised-Reads m f d s t g h (Derives-Reads p d (omega (arith, le, n)))
        (Derives-Reads q d (omega (arith, le, n)))
  Derives-Reads (Derives.factor {s} {g} p) d h = factor-Reads m f d s g (Derives-Reads p d h)
  Derives-Reads (Derives.product {s} {t} {g} {h} p q) d le =
      let n = length-append s (b'*' ∷ t) in
      product-Reads m f d s t g h (Derives-Reads p d (omega (arith, le, n)))
        (Derives-Reads q d (omega (arith, le, n)))
  Derives-Reads (Derives.quotient {s} {t} {g} {h} p q) d le =
      let n = length-append s (b'/' ∷ t) in
      quotient-Reads m f d s t g h (Derives-Reads p d (omega (arith, le, n)))
        (Derives-Reads q d (omega (arith, le, n)))
  Derives-Reads (Derives.summand {s} {g} p) d h = summand-Reads m f d s g (Derives-Reads p d h)
  Derives-Reads (Derives.plus {s} {t} {g} {h} p q) d le =
      let n = length-append s (b'+' ∷ t) in
      plus-Reads m f d s t g h (Derives-Reads p d (omega (arith, le, n)))
        (Derives-Reads q d (omega (arith, le, n)))
  Derives-Reads (Derives.minus {s} {t} {g} {h} p q) d le =
      let n = length-append s (b'-' ∷ t) in
      minus-Reads m f d s t g h (Derives-Reads p d (omega (arith, le, n)))
        (Derives-Reads q d (omega (arith, le, n)))

-- A formula of the grammar is compiled to the function that the grammar gives it, precedences and
-- associativity as in the grammar.
pub compile_formula-Derives :
    {W : Type 0} (m : Math W) (f : Float W) (s : Bytes) (g : W → W)
    → Derives m f Level.sum s g
    → compile_formula m f s ≡ ok g
unfolding compile_formula refuse skip_space
compile_formula-Derives m f s g p =
    let whole =
      subst (λ t. parse_expr m f (suc (length s)) t ≡ ok (g, [])) (append-nil s)
        (sum-Reads m f (length s) s g (Derives-Reads p (length s) (omega arith)) [] Follows.done) in
    rw whole refl
