-- ===== src/Examples/Formula.antt =====
-- The formula 1+X*2, over whole numbers and NaN.
use go_mdf.Base.{◌-◌, ◌^◌, ◌≡◌, refl, Option, none, some, [], ◌∷◌, ok, Post}
use go_mdf.Base.Words.{Bytes}
use go_mdf.Conversion.Formula.{
  Math, compile_formula, parse_expr, parse_sum, expr_loop, parse_term, term_loop, parse_power,
  parse_unary, parse_primary, parse_name, peek, skip_space, scan_name, scan_number,
}
use go_mdf.Blocks.Header.{same_bytes, refuse}
use go_mdf.Conversion.Formula.Laws.{compile_formula-Post}
use go_mdf.Conversion.Formula.Grammar.{Level, Derives}
use go_mdf.Conversion.Formula.Grammar.Complete.{compile_formula-Derives}
use go_mdf.Examples.Conversion.{W, toy, both}

-- A number of one figure.
abbrev figure : Bytes → Option W
figure (c ∷ []) = some (some (c - 48))
figure _ = none

abbrev math : Math W
math = record {
  neg = λ x. toy.sub (some 0) x;
  pow = both (λ a b. a ^ b);
  sqrt = λ x. x;
  abs = λ x. x;
  exp = λ x. x;
  ln = λ x. x;
  log10 = λ x. x;
  sin = λ x. x;
  cos = λ x. x;
  tan = λ x. x;
  asin = λ x. x;
  acos = λ x. x;
  atan = λ x. x;
  sinh = λ x. x;
  cosh = λ x. x;
  tanh = λ x. x;
  floor = λ x. x;
  ceil = λ x. x;
  parse_float = figure;
}

abbrev source : Bytes
source = b'1' ∷ b'+' ∷ b'X' ∷ b'*' ∷ b'2' ∷ []

one_plus_double : Derives math toy Level.sum source (λ x. toy.add (some 1) (toy.mul x (some 2)))
one_plus_double =
    Derives.plus {s = b'1' ∷ []} {t = b'X' ∷ b'*' ∷ b'2' ∷ []}
      (Derives.summand (
        Derives.factor
          (Derives.base (Derives.operand (Derives.number b'1' [] (some 1) (refl, tt) refl)))))
      (Derives.product {s = b'X' ∷ []} {t = b'2' ∷ []}
        (Derives.factor (Derives.base (Derives.operand Derives.variable)))
        (Derives.base (Derives.operand (Derives.number b'2' [] (some 2) (refl, tt) refl))))

compile_formula-Derives_example :
    compile_formula math toy source ≡ ok (λ x. toy.add (some 1) (toy.mul x (some 2)))
compile_formula-Derives_example =
    compile_formula-Derives math toy source (λ x. toy.add (some 1) (toy.mul x (some 2)))
      one_plus_double

compile_formula-Post_example : Post (λ _. Unit) (compile_formula math toy source)
compile_formula-Post_example = compile_formula-Post math toy source

-- Spaces, and a sign in front of a power.
abbrev spaced : Bytes
spaced = b' ' ∷ b'-' ∷ b'X' ∷ b' ' ∷ b'^' ∷ b'2' ∷ []

spaced_run : compile_formula math toy spaced ≡ ok (λ x. math.pow (math.neg x) (some 2))
unfolding compile_formula parse_expr parse_sum expr_loop parse_term term_loop parse_power
    parse_unary parse_primary parse_name peek skip_space scan_name scan_number same_bytes refuse
spaced_run = refl
