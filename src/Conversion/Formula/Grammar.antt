-- ===== src/Conversion/Formula/Grammar.antt =====
-- A grammar of formulas without spaces, with what each formula means: the precedences and the
-- associativity that the parser of internal/conversion/expr.go is to have.
pub mod Tokens
pub mod Reads
pub mod Loops
pub mod Complete
use go_mdf.Base.{ℕ, ◌≡◌, ◌≤◌, Bool, true, false, ◌||◌, ◌==◌, some, List, [], ◌∷◌, ◌++◌, map, All}
use go_mdf.Base.Words.{Bytes}
use go_mdf.Blocks.Header.{same_bytes}
use go_mdf.Conversion.Float.{Float}
use go_mdf.Conversion.Formula.{Math, is_digit, is_letter, in_name, lower, expr_funcs, func_named}

pub data Level : Type 0 where
  primary : Level
  unary : Level
  power : Level
  term : Level
  sum : Level

-- A digit or a point.
abbrev pub IsFigure : ℕ → Type 0
IsFigure c = (is_digit c || c == b'.') ≡ true

abbrev pub IsNameByte : ℕ → Type 0
IsNameByte c = in_name c ≡ true

abbrev pub is_variable : Bytes → Bool
is_variable s =
    same_bytes s (b'X' ∷ []) || same_bytes s (b'x' ∷ []) || same_bytes s (b'X' ∷ b'1' ∷ [])

-- The formulas of a level and their values.
pub data Derives {W : Type 0} (m : Math W) (f : Float W) : Level → Bytes → (W → W) → Type 0 where
  number :
      (c : ℕ) (s : Bytes) (v : W)
      → All IsFigure (c ∷ s)
      → m.parse_float (c ∷ s) ≡ some v
      → Derives m f primary (c ∷ s) (λ x. v)
  variable : Derives m f primary (b'X' ∷ []) (λ x. x)
  group :
      {s : Bytes} {g : W → W} → Derives m f sum s g → Derives m f primary (b'(' ∷ s ++ b')' ∷ []) g
  call :
      {s : Bytes} {g : W → W} (c : ℕ) (name : Bytes) (h : W → W)
      → is_letter c ≡ true
      → All IsNameByte (c ∷ name)
      → is_variable (c ∷ name) ≡ false
      → func_named (map lower (c ∷ name)) (expr_funcs m) ≡ some h
      → Derives m f sum s g
      → Derives m f primary (c ∷ name ++ b'(' ∷ s ++ b')' ∷ []) (λ x. h (g x))
  operand : {s : Bytes} {g : W → W} → Derives m f primary s g → Derives m f unary s g
  negative :
      {s : Bytes} {g : W → W}
      → Derives m f unary s g
      → Derives m f unary (b'-' ∷ s) (λ x. m.neg (g x))
  positive : {s : Bytes} {g : W → W} → Derives m f unary s g → Derives m f unary (b'+' ∷ s) g
  base : {s : Bytes} {g : W → W} → Derives m f unary s g → Derives m f power s g
  raised :
      {s t : Bytes} {g h : W → W}
      → Derives m f unary s g
      → Derives m f power t h
      → Derives m f power (s ++ b'^' ∷ t) (λ x. m.pow (g x) (h x))
  factor : {s : Bytes} {g : W → W} → Derives m f power s g → Derives m f term s g
  product :
      {s t : Bytes} {g h : W → W}
      → Derives m f term s g
      → Derives m f power t h
      → Derives m f term (s ++ b'*' ∷ t) (λ x. f.mul (g x) (h x))
  quotient :
      {s t : Bytes} {g h : W → W}
      → Derives m f term s g
      → Derives m f power t h
      → Derives m f term (s ++ b'/' ∷ t) (λ x. f.div (g x) (h x))
  summand : {s : Bytes} {g : W → W} → Derives m f term s g → Derives m f sum s g
  plus :
      {s t : Bytes} {g h : W → W}
      → Derives m f sum s g
      → Derives m f term t h
      → Derives m f sum (s ++ b'+' ∷ t) (λ x. f.add (g x) (h x))
  minus :
      {s t : Bytes} {g h : W → W}
      → Derives m f sum s g
      → Derives m f term t h
      → Derives m f sum (s ++ b'-' ∷ t) (λ x. f.sub (g x) (h x))
