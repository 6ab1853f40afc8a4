-- ===== src/Conversion/Formula/Grammar/Reads.antt =====
-- The parser reads every formula of the grammar, to the value that the grammar gives it.
use go_mdf.Base.{
  ℕ, zero, suc, ◌≤◌, ◌<◌, ◌≡◌, refl, ◌∙◌, true, false, ◌||◌, ◌==◌, some, [], ◌∷◌, ◌++◌,
  append_assoc, map, length, length-append, All, ok, arith, ne→==, gt→leb, le→leb,
}
use go_mdf.Base.Words.{Bytes}
use go_mdf.Blocks.Header.{same_bytes, refuse}
use go_mdf.Conversion.Float.{Float}
use go_mdf.Conversion.Formula.{
  Math, Parser, is_digit, is_letter, lower, expr_funcs, func_named, apply_func, scan_name,
  parse_args, parse_call, parse_name, parse_primary, parse_unary, parse_power, term_loop,
  parse_term, expr_loop, parse_sum, parse_expr,
}
use go_mdf.Conversion.Formula.Grammar.{Level, IsFigure, IsNameByte, is_variable}
use go_mdf.Conversion.Formula.Grammar.Tokens.{
  IsInitialOf, initial, Starts, starts, Follows, Follows-le, scan_name-end, scan_number-figures,
  scan_name-append, peek_byte, term_loop-end, expr_loop-end, parse_power-end, high-IsInitial,
  letter-ge, figure-ge,
}

not_figure : (c : ℕ) → 65 ≤ c → (is_digit c || c == b'.') ≡ false
not_figure c h =
    rw
      (
        le→leb 48 c (omega (arith, h)),
        gt→leb c 57 (omega (arith, h)),
        ne→== c 46 (λ q. omega (arith, q, h)),
      )
      refl

scan_name-open : {s : Bytes} → scan_name (b'(' ∷ s) ≡ ([], b'(' ∷ s)
unfolding scan_name
scan_name-open = refl

module _ {W : Type 0} (m : Math W) (f : Float W) where
  -- The parsers of a nesting depth.
  abbrev pub operand_at : ℕ → Parser W
  operand_at d u = parse_unary m f (parse_primary m f (parse_expr m f d)) (suc (length u)) u

  abbrev pub power_at : ℕ → Parser W
  power_at d t = parse_power m f (operand_at d) (suc (length t)) t

  abbrev pub term_at : ℕ → Parser W
  term_at d = parse_term m f (power_at d)

  -- What the parser of a level does at a formula `s`. A term and a sum go on in their loops.
  abbrev pub Reads : Level → ℕ → Bytes → (W → W) → Type 0
  Reads Level.primary d s g =
      (rest : Bytes)
      → Follows 3 rest
      → parse_primary m f (parse_expr m f d) (s ++ rest) ≡ ok (g, rest)
  Reads Level.unary d s g =
      (rest : Bytes)
      → Follows 3 rest
      → (n : ℕ) → length s < n
      → parse_unary m f (parse_primary m f (parse_expr m f d)) n (s ++ rest) ≡ ok (g, rest)
  Reads Level.power d s g =
      (rest : Bytes)
      → Follows 2 rest
      → (n : ℕ) → length s < n
      → parse_power m f (operand_at d) n (s ++ rest) ≡ ok (g, rest)
  Reads Level.term d s g =
      (rest : Bytes)
      → Follows 2 rest
      → (k : ℕ) × (length rest < suc k)
        × (term_at d (s ++ rest) ≡ term_loop m f (power_at d) (suc k) g rest)
  Reads Level.sum d s g =
      (rest : Bytes)
      → Follows 1 rest
      → (k : ℕ) × (length rest < suc k)
        × (parse_sum m f (term_at d) (s ++ rest) ≡ expr_loop m f (term_at d) (suc k) g rest)

  -- A whole sum, at the next depth.
  pub sum-Reads :
      (d : ℕ) (s : Bytes) (g : W → W)
      → Reads Level.sum d s g
      → (rest : Bytes) → Follows 0 rest
      → parse_expr m f (suc d) (s ++ rest) ≡ ok (g, rest)
  unfolding parse_expr
  sum-Reads d s g h rest e =
      let r = h rest (Follows-le (omega arith) e) in
      r.2 ∙ expr_loop-end m f (term_at d) r.0 g rest e

  pub term-Reads :
      (d : ℕ) (s : Bytes) (g : W → W)
      → Reads Level.term d s g
      → (rest : Bytes) → Follows 1 rest
      → term_at d (s ++ rest) ≡ ok (g, rest)
  term-Reads d s g h rest e =
      let r = h rest (Follows-le (omega arith) e) in
      r.2 ∙ term_loop-end m f (power_at d) r.0 g rest e

  pub number-Reads :
      (d c : ℕ) (s : Bytes) (v : W)
      → All IsFigure (c ∷ s)
      → m.parse_float (c ∷ s) ≡ some v
      → Reads Level.primary d (c ∷ s) (λ x. v)
  unfolding parse_primary
  number-Reads d c s v figures value rest e =
      let high = figure-ge c figures.0 in
      rw
        (
          peek_byte c (s ++ rest) (high-IsInitial c high).0,
          ne→== c 40 (λ q. omega (arith, q, high)),
          figures.0,
          scan_number-figures (c ∷ s) rest figures e,
          value,
        )
        refl

  pub variable-Reads : (d : ℕ) → Reads Level.primary d (b'X' ∷ []) (λ x. x)
  unfolding parse_primary parse_name same_bytes
  variable-Reads d rest e =
      rw
        (
          peek_byte b'X' rest refl,
          scan_name-append (b'X' ∷ []) rest (refl, tt) (scan_name-end rest e),
        )
        refl

  pub group-Reads :
      (d : ℕ) (s : Bytes) (g : W → W)
      → Reads Level.sum d s g
      → Reads Level.primary (suc d) (b'(' ∷ s ++ b')' ∷ []) g
  unfolding parse_primary refuse
  group-Reads d s g h rest e =
      rw
        (
          append_assoc s (b')' ∷ []) rest,
          peek_byte b'(' (s ++ b')' ∷ rest) refl,
          sum-Reads d s g h (b')' ∷ rest) Follows.closes,
          peek_byte b')' rest refl,
        )
        refl

  pub call-Reads :
      (d c : ℕ) (name : Bytes) (k : W → W) (s : Bytes) (g : W → W)
      → is_letter c ≡ true
      → All IsNameByte (c ∷ name)
      → is_variable (c ∷ name) ≡ false
      → func_named (map lower (c ∷ name)) (expr_funcs m) ≡ some k
      → Starts s
      → Reads Level.sum d s g
      → Reads Level.primary (suc d) (c ∷ name ++ b'(' ∷ s ++ b')' ∷ []) (λ x. k (g x))
  unfolding parse_primary parse_name parse_call parse_args apply_func refuse
  call-Reads d c name k s g letter bytes other named (starts c' t visible open_) h rest e =
      let high = letter-ge c letter in
      let inner = s ++ b')' ∷ rest in
      let split : (((c ∷ name ++ b'(' ∷ s) ++ b')' ∷ []) ++ rest) ≡ (c ∷ name) ++ b'(' ∷ inner =
        append_assoc (c ∷ name ++ b'(' ∷ s) (b')' ∷ []) rest
        ∙ append_assoc (c ∷ name) (b'(' ∷ s) (b')' ∷ rest) in
      let plain : (is_digit c || c == b'.') ≡ false = not_figure c high in
      rw
        (
          split,
          peek_byte c (name ++ b'(' ∷ inner) (high-IsInitial c (omega (arith, high))).0,
          ne→== c 40 (λ q. omega (arith, q, high)),
          plain,
          letter,
          scan_name-append (c ∷ name) (b'(' ∷ inner) bytes scan_name-open,
          other,
          peek_byte b'(' inner refl,
          peek_byte c' (t ++ b')' ∷ rest) visible,
          open_,
          sum-Reads d s g h (b')' ∷ rest) Follows.closes,
          peek_byte b')' rest refl,
          peek_byte b')' rest refl,
          named,
        )
        refl

  pub operand-Reads :
      (d : ℕ) (s : Bytes) (g : W → W)
      → IsInitialOf s
      → Reads Level.primary d s g
      → Reads Level.unary d s g
  unfolding parse_unary
  operand-Reads d s g (initial c t i) h rest e zero enough = absurd (omega (arith, enough))
  operand-Reads d s g (initial c t i) h rest e (suc n) enough =
      rw (peek_byte c (t ++ rest) i.0, i.1, i.2) (h rest e)

  pub negative-Reads :
      (d : ℕ) (s : Bytes) (g : W → W)
      → Reads Level.unary d s g
      → Reads Level.unary d (b'-' ∷ s) (λ x. m.neg (g x))
  unfolding parse_unary
  negative-Reads d s g h rest e zero enough = absurd (omega (arith, enough))
  negative-Reads d s g h rest e (suc n) enough =
      rw (peek_byte b'-' (s ++ rest) refl, h rest e n (omega (arith, enough))) refl

  pub positive-Reads :
      (d : ℕ) (s : Bytes) (g : W → W) → Reads Level.unary d s g → Reads Level.unary d (b'+' ∷ s) g
  unfolding parse_unary
  positive-Reads d s g h rest e zero enough = absurd (omega (arith, enough))
  positive-Reads d s g h rest e (suc n) enough =
      rw (peek_byte b'+' (s ++ rest) refl, h rest e n (omega (arith, enough))) refl

  pub base-Reads :
      (d : ℕ) (s : Bytes) (g : W → W) → Reads Level.unary d s g → Reads Level.power d s g
  base-Reads d s g h rest e zero enough = absurd (omega (arith, enough))
  base-Reads d s g h rest e (suc n) enough =
      parse_power-end m f (operand_at d) n g (s ++ rest) rest
        (h rest (Follows-le (omega arith) e) (suc (length (s ++ rest)))
          (omega (arith, length-append s rest)))
        e

  pub raised-Reads :
      (d : ℕ) (s t : Bytes) (g h : W → W)
      → Reads Level.unary d s g
      → Reads Level.power d t h
      → Reads Level.power d (s ++ b'^' ∷ t) (λ x. m.pow (g x) (h x))
  unfolding parse_power
  raised-Reads d s t g h p q rest e zero enough = absurd (omega (arith, enough))
  raised-Reads d s t g h p q rest e (suc n) enough =
      let first =
        p (b'^' ∷ t ++ rest) (Follows.exponent (omega arith))
          (suc (length (s ++ (b'^' ∷ t ++ rest))))
          (omega (arith, length-append s (b'^' ∷ t ++ rest))) in
      rw
        (
          append_assoc s (b'^' ∷ t) rest,
          first,
          peek_byte b'^' (t ++ rest) refl,
          q rest e n (omega (arith, enough, length-append s (b'^' ∷ t))),
        )
        refl
