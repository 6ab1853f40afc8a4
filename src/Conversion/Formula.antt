-- ===== src/Conversion/Formula.antt =====
-- internal/conversion/expr.go: the parser of formulas, which gives a function. The position in the
-- source is the rest of it. `panic` stands for an exhausted fuel.
pub mod Laws
pub mod Grammar
use go_mdf.Base.{
  ℕ, zero, suc, Bool, true, false, ◌&&◌, ◌||◌, not, Option, none, some, List, [], ◌∷◌, ltb, leb,
  ◌==◌, if◌then◌else◌, length, drop, Outcome, ok, err, panic, ◌>>=◌, ◌>>◌, bad_formula, ◌+◌, map,
}
use go_mdf.Base.Words.{Bytes}
use go_mdf.Blocks.Header.{same_bytes, refuse}
use go_mdf.Conversion.Float.{Float}

-- What the parser takes of the packages math and strconv.
pub record Math {ℓ} (W : Type ℓ) : Type ℓ where
  pub neg : W → W
  pub pow : W → W → W
  pub sqrt : W → W
  pub abs : W → W
  pub exp : W → W
  pub ln : W → W
  pub log10 : W → W
  pub sin : W → W
  pub cos : W → W
  pub tan : W → W
  pub asin : W → W
  pub acos : W → W
  pub atan : W → W
  pub sinh : W → W
  pub cosh : W → W
  pub tanh : W → W
  pub floor : W → W
  pub ceil : W → W
  pub parse_float : Bytes → Option W

abbrev pub is_space : ℕ → Bool
is_space c = c == 32 || c == 9 || c == 10 || c == 13

unfoldable pub skip_space : Bytes → Bytes
skip_space [] = []
skip_space (c ∷ s) = let rest = skip_space s in if is_space c then rest else c ∷ s

-- The first byte, or 0 at the end.
abbrev pub next_byte : Bytes → ℕ
next_byte [] = 0
next_byte (c ∷ s) = c

-- `peek` skips spaces and returns the next byte.
unfoldable pub peek : Bytes → ℕ × Bytes
peek s = (next_byte (skip_space s), skip_space s)

abbrev pub is_digit : ℕ → Bool
is_digit c = leb b'0' c && leb c b'9'

-- `unicode.IsLetter` and `unicode.IsDigit` of a byte, which is a character of Latin-1.
abbrev pub is_letter : ℕ → Bool
is_letter c =
    leb b'A' c && leb c b'Z'
    || leb b'a' c && leb c b'z'
    || c == 170
    || c == 181
    || c == 186
    || leb 192 c && leb c 255 && not (c == 215) && not (c == 247)

abbrev pub in_name : ℕ → Bool
in_name c = is_letter c || is_digit c || c == b'_'

abbrev pub is_sign : ℕ → Bool
is_sign c = c == b'+' || c == b'-'

-- After an `e`: a digit, or a sign and a digit.
abbrev pub exponent_follows : Bytes → Bool
exponent_follows [] = false
exponent_follows (c ∷ s) = if is_sign c then is_digit (next_byte s) else is_digit c

-- The number at the start, and what follows; a sign that was seen behind an `e` is taken as it is.
unfoldable pub scan_number : Bool → Bytes → Bytes × Bytes
scan_number signed [] = ([], [])
scan_number true (c ∷ s) = let rest = scan_number false s in (c ∷ rest.0, rest.1)
scan_number false (c ∷ s) =
    let rest = scan_number (is_sign (next_byte s)) s in
    let plain = scan_number false s in
    if is_digit c || c == b'.'
    then (c ∷ plain.0, plain.1)
    else if (c == b'e' || c == b'E') && exponent_follows s
    then (c ∷ rest.0, rest.1)
    else ([], c ∷ s)

unfoldable pub scan_name : Bytes → Bytes × Bytes
scan_name [] = ([], [])
scan_name (c ∷ s) =
    let rest = scan_name s in if in_name c then (c ∷ rest.0, rest.1) else ([], c ∷ s)

-- `strings.ToLower`, on ASCII.
abbrev pub lower : ℕ → ℕ
lower c = if leb b'A' c && leb c b'Z' then c + 32 else c

abbrev pub Parsed {ℓ} : Type ℓ → Type ℓ
Parsed W = Outcome ((W → W) × Bytes)

abbrev pub Parser {ℓ} : Type ℓ → Type ℓ
Parser W = Bytes → Parsed W

module _ {ℓ} {W : Type ℓ} where
  -- `exprFuncs`
  unfoldable pub expr_funcs : Math W → List (Bytes × (W → W))
  expr_funcs m =
      (b's' ∷ b'q' ∷ b'r' ∷ b't' ∷ [], m.sqrt)
      ∷ (b'a' ∷ b'b' ∷ b's' ∷ [], m.abs)
      ∷ (b'e' ∷ b'x' ∷ b'p' ∷ [], m.exp)
      ∷ (b'l' ∷ b'n' ∷ [], m.ln)
      ∷ (b'l' ∷ b'o' ∷ b'g' ∷ [], m.log10)
      ∷ (b's' ∷ b'i' ∷ b'n' ∷ [], m.sin)
      ∷ (b'c' ∷ b'o' ∷ b's' ∷ [], m.cos)
      ∷ (b't' ∷ b'a' ∷ b'n' ∷ [], m.tan)
      ∷ (b'a' ∷ b's' ∷ b'i' ∷ b'n' ∷ [], m.asin)
      ∷ (b'a' ∷ b'c' ∷ b'o' ∷ b's' ∷ [], m.acos)
      ∷ (b'a' ∷ b't' ∷ b'a' ∷ b'n' ∷ [], m.atan)
      ∷ (b's' ∷ b'i' ∷ b'n' ∷ b'h' ∷ [], m.sinh)
      ∷ (b'c' ∷ b'o' ∷ b's' ∷ b'h' ∷ [], m.cosh)
      ∷ (b't' ∷ b'a' ∷ b'n' ∷ b'h' ∷ [], m.tanh)
      ∷ (b'f' ∷ b'l' ∷ b'o' ∷ b'o' ∷ b'r' ∷ [], m.floor)
      ∷ (b'c' ∷ b'e' ∷ b'i' ∷ b'l' ∷ [], m.ceil)
      ∷ []

  -- The function of a name.
  abbrev pub func_named : Bytes → List (Bytes × (W → W)) → Option (W → W)
  func_named s [] = none
  func_named s ((k, g) ∷ funcs) = if same_bytes s k then some g else func_named s funcs

  abbrev pub apply_found : Option (W → W) → (W → W) → Bytes → Parsed W
  apply_found none a s = err bad_formula
  apply_found (some g) a s = ok (λ x. g (a x), s)

  -- The call of a function by its lower-case name.
  unfoldable pub apply_func : Math W → Bytes → List (W → W) → Bytes → Parsed W
  apply_func m name [] s = err bad_formula
  apply_func m name (a ∷ []) s = apply_found (func_named name (expr_funcs m)) a s
  apply_func m name (b ∷ e ∷ []) s =
      if same_bytes name (b'p' ∷ b'o' ∷ b'w' ∷ [])
      then ok (λ x. m.pow (b x) (e x), s)
      else err bad_formula
  apply_func m name (a ∷ b ∷ c ∷ args) s = err bad_formula

  module _ (m : Math W) (f : Float W) where
    -- Arguments, one at least, with commas between them.
    unfoldable pub parse_args : Parser W → ℕ → Bytes → Outcome (List (W → W) × Bytes)
    parse_args expr zero s = panic
    parse_args expr (suc fuel) s = do
      (a, t) ← expr s
      let p = peek t
      let more : Outcome (List (W → W) × Bytes) = (do
        (args, u) ← parse_args expr fuel (drop 1 p.1)
        ok (a ∷ args, u))
      (if p.0 == b',' then more else ok (a ∷ [], p.1))

    -- The call of `name`, behind its parenthesis.
    unfoldable pub parse_call : Parser W → Bytes → Bytes → Parsed W
    unfolding parse_args
    parse_call expr name s = do
      let p = peek s
      (args, t) ← if p.0 == b')' then ok ([], p.1) else parse_args expr (suc (length s)) p.1
      let q = peek t
      refuse (not (q.0 == b')')) bad_formula
      apply_func m (map lower name) args (drop 1 q.1)

    -- The variable, or the call of a function.
    unfoldable pub parse_name : Parser W → Bytes → Parsed W
    unfolding parse_call
    parse_name expr s =
        let n = scan_name s in
        let p = peek n.1 in
        if same_bytes n.0 (b'X' ∷ [])
          || same_bytes n.0 (b'x' ∷ [])
          || same_bytes n.0 (b'X' ∷ b'1' ∷ [])
        then ok (λ x. x, n.1)
        else if p.0 == b'('
        then parse_call expr n.0 (drop 1 p.1)
        else err bad_formula

    abbrev pub constant : Option W → Bytes → Parsed W
    constant none s = err bad_formula
    constant (some v) s = ok (λ x. v, s)

    abbrev pub parse_group : Parser W → Bytes → Parsed W
    parse_group expr s = do
      (g, t) ← expr s
      let p = peek t
      refuse (not (p.0 == b')')) bad_formula
      ok (g, drop 1 p.1)

    unfoldable pub parse_primary : Parser W → Bytes → Parsed W
    unfolding parse_name
    parse_primary expr s =
        let p = peek s in
        if p.0 == b'('
        then parse_group expr (drop 1 p.1)
        else if is_digit p.0 || p.0 == b'.'
        then constant (m.parse_float (scan_number false p.1).0) (scan_number false p.1).1
        else if is_letter p.0
        then parse_name expr p.1
        else err bad_formula

    -- The operand of a sign.
    unfoldable pub parse_unary : Parser W → ℕ → Bytes → Parsed W
    parse_unary primary zero s = panic
    parse_unary primary (suc fuel) s =
        let p = peek s in
        let operand = parse_unary primary fuel (drop 1 p.1) in
        let negated : Parsed W = (do (g, t) ← operand; ok (λ x. m.neg (g x), t)) in
        if p.0 == b'-' then negated else if p.0 == b'+' then operand else primary p.1

    -- Powers, which associate to the right.
    unfoldable pub parse_power : Parser W → ℕ → Bytes → Parsed W
    parse_power unary zero s = panic
    parse_power unary (suc fuel) s = do
      (base, t) ← unary s
      let p = peek t
      let power : Parsed W = (do
        (e, u) ← parse_power unary fuel (drop 1 p.1)
        ok (λ x. m.pow (base x) (e x), u))
      (if p.0 == b'^' then power else ok (base, p.1))

    -- The loop of `parseTerm`, behind its first factor.
    unfoldable pub term_loop : Parser W → ℕ → (W → W) → Bytes → Parsed W
    term_loop power zero left s = panic
    term_loop power (suc fuel) left s =
        let p = peek s in
        let times : Parsed W = (do
          (r, t) ← power (drop 1 p.1)
          term_loop power fuel (λ x. f.mul (left x) (r x)) t) in
        let over : Parsed W = (do
          (r, t) ← power (drop 1 p.1)
          term_loop power fuel (λ x. f.div (left x) (r x)) t) in
        if p.0 == b'*' then times else if p.0 == b'/' then over else ok (left, p.1)

    unfoldable pub parse_term : Parser W → Bytes → Parsed W
    unfolding term_loop
    parse_term power s = do (left, t) ← power s; term_loop power (suc (length t)) left t

    -- The loop of `parseExpr`, behind its first term.
    unfoldable pub expr_loop : Parser W → ℕ → (W → W) → Bytes → Parsed W
    expr_loop term zero left s = panic
    expr_loop term (suc fuel) left s =
        let p = peek s in
        let plus : Parsed W = (do
          (r, t) ← term (drop 1 p.1)
          expr_loop term fuel (λ x. f.add (left x) (r x)) t) in
        let minus : Parsed W = (do
          (r, t) ← term (drop 1 p.1)
          expr_loop term fuel (λ x. f.sub (left x) (r x)) t) in
        if p.0 == b'+' then plus else if p.0 == b'-' then minus else ok (left, p.1)

    unfoldable pub parse_sum : Parser W → Bytes → Parsed W
    unfolding expr_loop
    parse_sum term s = do (left, t) ← term s; expr_loop term (suc (length t)) left t

    -- `parseExpr`: a unit of fuel for each nesting.
    unfoldable pub parse_expr : ℕ → Bytes → Parsed W
    unfolding parse_sum parse_term parse_power parse_unary parse_primary
    parse_expr zero s = panic
    parse_expr (suc depth) s =
        parse_sum
          (parse_term λ t.
            parse_power (λ u. parse_unary (parse_primary (parse_expr depth)) (suc (length u)) u)
              (suc (length t)) t)
          s

    unfoldable pub compile_formula : Bytes → Outcome (W → W)
    unfolding parse_expr
    compile_formula s = do
      (g, t) ← parse_expr (suc (length s)) s
      refuse (ltb 0 (length (skip_space t))) bad_formula
      ok g
