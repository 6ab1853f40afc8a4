-- ===== src/Conversion/Formula/Laws.antt =====
-- The parser of formulas ends: its fuel is enough on every source.
use go_mdf.Base.{
  ℕ, zero, suc, ◌≤◌, ◌<◌, ◌≡◌, refl, Bool, true, false, ◌&&◌, ◌||◌, Option, none, some, List, [],
  ◌∷◌, ◌==◌, if◌then◌else◌, length, drop, map, Post, returns, raises, Post-bind, Post-if, Post-map,
  arith, ==→eq,
}
use go_mdf.Base.Words.{Bytes}
use go_mdf.Blocks.Header.{same_bytes}
use go_mdf.Blocks.Header.Laws.{refuse-Post}
use go_mdf.Conversion.Float.{Float}
use go_mdf.Conversion.Formula.{
  Math, Parser, is_space, is_sign, is_digit, is_letter, in_name, exponent_follows, skip_space,
  next_byte, peek, lower, scan_number, scan_name, expr_funcs, func_named, apply_found, apply_func,
  parse_args, parse_call, parse_name, constant, parse_primary, parse_unary, parse_power, term_loop,
  parse_term, expr_loop, parse_sum, parse_expr, compile_formula,
}

if-le :
    (b : Bool) (x y : Bytes) (n : ℕ) → length x ≤ n → length y ≤ n → length (if b then x else y) ≤ n
if-le true x y n h k = h
if-le false x y n h k = k

skip_space-le : (s : Bytes) → length (skip_space s) ≤ length s
unfolding skip_space
skip_space-le [] = omega arith
skip_space-le (c ∷ s) =
    let h = skip_space-le s in
    if-le (is_space c) (skip_space s) (c ∷ s) (length (c ∷ s)) (omega (arith, h)) (omega (arith, h))

one_less : (s : Bytes) → length (drop 1 s) ≤ length s
one_less [] = omega arith
one_less (c ∷ s) = omega arith

peek-le : (s : Bytes) → length (peek s).1 ≤ length s
unfolding peek
peek-le = skip_space-le

-- A byte that was seen is there to be taken.
seen : (t : Bytes) (c : ℕ) → next_byte t ≡ suc c → length (drop 1 t) < length t
seen [] c h = absurd (omega (arith, h))
seen (d ∷ t) c h = omega arith

took : (s : Bytes) (c : ℕ) → ((peek s).0 == suc c) ≡ true → length (drop 1 (peek s).1) < length s
unfolding peek
took s c h =
    omega
      (arith, skip_space-le s, seen (skip_space s) c (==→eq (next_byte (skip_space s)) (suc c) h))

if-second-le :
    (b : Bool) (x y : Bytes × Bytes) (n : ℕ)
    → length x.1 ≤ n
    → length y.1 ≤ n
    → length (if b then x else y).1 ≤ n
if-second-le true x y n h k = h
if-second-le false x y n h k = k

scan_number-le : (signed : Bool) (s : Bytes) → length (scan_number signed s).1 ≤ length s
unfolding scan_number
scan_number-le true [] = omega arith
scan_number-le false [] = omega arith
scan_number-le true (c ∷ s) = omega (arith, scan_number-le false s)
scan_number-le false (c ∷ s) =
    let h = scan_number-le false s in
    let k = scan_number-le (is_sign (next_byte s)) s in
    if-second-le (is_digit c || c == b'.') _ _ _ (omega (arith, h)) (
      if-second-le ((c == b'e' || c == b'E') && exponent_follows s) _ _ _ (omega (arith, k))
        (omega arith))

scan_number-lt :
    (s : Bytes)
    → (is_digit (next_byte s) || next_byte s == b'.') ≡ true
    → length (scan_number false s).1 < length s
unfolding scan_number
scan_number-lt [] h = cc
scan_number-lt (c ∷ s) h = rw h (omega (arith, scan_number-le false s))

scan_name-le : (s : Bytes) → length (scan_name s).1 ≤ length s
unfolding scan_name
scan_name-le [] = omega arith
scan_name-le (c ∷ s) =
    let h = scan_name-le s in if-second-le (in_name c) _ _ _ (omega (arith, h)) (omega arith)

or_left : (a b : Bool) → a ≡ true → (a || b) ≡ true
or_left true b h = refl
or_left false b h = cc

scan_name-lt : (s : Bytes) → is_letter (next_byte s) ≡ true → length (scan_name s).1 < length s
unfolding scan_name
scan_name-lt [] h = cc
scan_name-lt (c ∷ s) h =
    let e : in_name c ≡ true =
      or_left (is_letter c || is_digit c) (c == b'_') (or_left (is_letter c) (is_digit c) h) in
    rw e (omega (arith, scan_name-le s))

drop-le : (s : Bytes) → length (drop 1 (peek s).1) ≤ length s
drop-le s = let le = peek-le s in omega (arith, le, one_less (peek s).1)

peek_number :
    (s : Bytes)
    → (is_digit (peek s).0 || (peek s).0 == b'.') ≡ true
    → length (scan_number false (peek s).1).1 < length (peek s).1
unfolding peek
peek_number s e = scan_number-lt (skip_space s) e

peek_letter : (s : Bytes) → is_letter (peek s).0 ≡ true → is_letter (next_byte (peek s).1) ≡ true
unfolding peek
peek_letter s e = e

module _ {W : Type 0} (m : Math W) (f : Float W) where
  -- A parser takes something off, on every source shorter than `k`.
  abbrev Takes : ℕ → Parser W → Type 0
  Takes k p = (s : Bytes) → length s < k → Post (λ r. length r.1 < length s) (p s)

  apply_found-Post :
      (g : Option (W → W)) (a : W → W) (s : Bytes)
      → Post (λ r. length r.1 ≤ length s) (apply_found g a s)
  apply_found-Post none a s = raises
  apply_found-Post (some g) a s = returns (omega arith)

  apply_func-Post :
      (name : Bytes) (args : List (W → W)) (s : Bytes)
      → Post (λ r. length r.1 ≤ length s) (apply_func m name args s)
  unfolding apply_func
  apply_func-Post name [] s = raises
  apply_func-Post name (a ∷ []) s = apply_found-Post (func_named name (expr_funcs m)) a s
  apply_func-Post name (b ∷ e ∷ []) s =
      Post-if (same_bytes name (b'p' ∷ b'o' ∷ b'w' ∷ [])) (λ _. returns (omega arith)) (λ _. raises)
  apply_func-Post name (a ∷ b ∷ c ∷ args) s = raises

  module _ (k : ℕ) where
    parse_args-Post :
        (expr : Parser W)
        → Takes k expr
        → (fuel : ℕ) (s : Bytes) → length s < k
        → length s < fuel
        → Post (λ r. length r.1 ≤ length s) (parse_args m f expr fuel s)
    unfolding parse_args
    parse_args-Post expr takes zero s short enough = absurd (omega (arith, enough))
    parse_args-Post expr takes (suc fuel) s short enough = Post-bind (takes s short) λ (a, t) h.
        let le = peek-le t in
        Post-if ((peek t).0 == b',')
          (λ e.
            let lt = took t 43 e in
            Post-bind
              (parse_args-Post expr takes fuel (drop 1 (peek t).1) (omega (arith, lt, h, short))
                (omega (arith, lt, h, enough)))
              λ (args, u) g. returns (omega (arith, lt, h, g)))
          (λ e. returns (omega (arith, h, le)))

    parse_call-Post :
        (expr : Parser W)
        → Takes k expr
        → (name s : Bytes) → length s < k
        → Post (λ r. length r.1 < suc (length s)) (parse_call m f expr name s)
    unfolding parse_call
    parse_call-Post expr takes name s short =
        let le = peek-le s in
        Post-bind {P = λ r. length r.1 ≤ length s}
          (Post-if ((peek s).0 == b')') (λ e. returns le)
            (λ e.
              Post-map
                (parse_args-Post expr takes (suc (length s)) (peek s).1 (omega (arith, le, short))
                  (omega (arith, le)))
                (λ r h. omega (arith, h, le))))
          λ (args, t) h. Post-bind (refuse-Post _ _) λ _ e.
            Post-map (apply_func-Post (map lower name) args (drop 1 (peek t).1))
              λ r g. omega (arith, g, h, drop-le t)

    parse_name-Post :
        (expr : Parser W)
        → Takes k expr
        → (s : Bytes) → length s ≤ k
        → is_letter (next_byte s) ≡ true
        → Post (λ r. length r.1 < length s) (parse_name m f expr s)
    unfolding parse_name
    parse_name-Post expr takes s short letter =
        let lt = scan_name-lt s letter in
        let n = (scan_name s).0 in
        Post-if
          (same_bytes n (b'X' ∷ []) || same_bytes n (b'x' ∷ []) || same_bytes n (b'X' ∷ b'1' ∷ []))
          (λ _. returns lt)
          λ _.
            Post-if ((peek (scan_name s).1).0 == b'(')
              (λ e.
                let less = took (scan_name s).1 39 e in
                Post-map
                  (parse_call-Post expr takes (scan_name s).0 (drop 1 (peek (scan_name s).1).1)
                    (omega (arith, lt, less, short)))
                  λ r h. omega (arith, h, lt, less))
              (λ _. raises)

    constant-Post :
        (v : Option W) (s t : Bytes)
        → length t < length s
        → Post (λ r. length r.1 < length s) (constant m f v t)
    constant-Post none s t h = raises
    constant-Post (some v) s t h = returns h

    parse_primary-Post : (expr : Parser W) → Takes k expr → Takes (suc k) (parse_primary m f expr)
    unfolding parse_primary
    parse_primary-Post expr takes s short =
        let le = peek-le s in
        let t = (peek s).1 in
        Post-if ((peek s).0 == b'(')
          (λ e.
            let lt = took s 39 e in
            Post-bind (takes (drop 1 t) (omega (arith, lt, short))) λ (g, u) h.
              Post-bind (refuse-Post _ _) λ _ _. returns (omega (arith, lt, h, drop-le u)))
          λ _.
            Post-if (is_digit (peek s).0 || (peek s).0 == b'.')
              (λ e.
                constant-Post (m.parse_float (scan_number false t).0) s (scan_number false t).1
                  (omega (arith, le, peek_number s e)))
              λ _.
                Post-if (is_letter (peek s).0)
                  (λ e.
                    Post-map
                      (parse_name-Post expr takes t (omega (arith, le, short)) (peek_letter s e))
                      λ r h. omega (arith, h, le))
                  (λ _. raises)

    parse_unary-Post :
        (primary : Parser W)
        → Takes k primary
        → (fuel : ℕ) (s : Bytes) → length s < fuel
        → length s < k
        → Post (λ r. length r.1 < length s) (parse_unary m f primary fuel s)
    unfolding parse_unary
    parse_unary-Post primary takes zero s enough short = absurd (omega (arith, enough))
    parse_unary-Post primary takes (suc fuel) s enough short =
        let le = peek-le s in
        Post-if ((peek s).0 == b'-')
          (λ e.
            let lt = took s 44 e in
            Post-bind
              (parse_unary-Post primary takes fuel (drop 1 (peek s).1) (omega (arith, lt, enough))
                (omega (arith, lt, short)))
              λ (g, t) h. returns (omega (arith, lt, h)))
          λ _.
            Post-if ((peek s).0 == b'+')
              (λ e.
                let lt = took s 42 e in
                Post-map
                  (parse_unary-Post primary takes fuel (drop 1 (peek s).1)
                    (omega (arith, lt, enough)) (omega (arith, lt, short)))
                  λ r h. omega (arith, lt, h))
              λ _.
                Post-map (takes (peek s).1 (omega (arith, le, short))) λ r h. omega (arith, le, h)

    parse_power-Post :
        (unary : Parser W)
        → Takes k unary
        → (fuel : ℕ) (s : Bytes) → length s < fuel
        → length s < k
        → Post (λ r. length r.1 < length s) (parse_power m f unary fuel s)
    unfolding parse_power
    parse_power-Post unary takes zero s enough short = absurd (omega (arith, enough))
    parse_power-Post unary takes (suc fuel) s enough short =
        Post-bind (takes s short) λ (base, t) h.
          let le = peek-le t in
          Post-if ((peek t).0 == b'^')
            (λ e.
              let lt = took t 93 e in
              Post-bind
                (parse_power-Post unary takes fuel (drop 1 (peek t).1)
                  (omega (arith, lt, h, enough)) (omega (arith, lt, h, short)))
                λ (e, u) g. returns (omega (arith, lt, h, g)))
            (λ _. returns (omega (arith, h, le)))

    term_loop-Post :
        (power : Parser W)
        → Takes k power
        → (fuel : ℕ) (left : W → W) (s : Bytes) → length s < fuel
        → length s < k
        → Post (λ r. length r.1 ≤ length s) (term_loop m f power fuel left s)
    unfolding term_loop
    term_loop-Post power takes zero left s enough short = absurd (omega (arith, enough))
    term_loop-Post power takes (suc fuel) left s enough short =
        Post-if ((peek s).0 == b'*')
          (λ e.
            let lt = took s 41 e in
            Post-bind (takes (drop 1 (peek s).1) (omega (arith, lt, short))) λ (r, t) h.
              Post-map
                (term_loop-Post power takes fuel _ t (omega (arith, lt, h, enough))
                  (omega (arith, lt, h, short)))
                λ _ g. omega (arith, lt, h, g))
          λ _.
            Post-if ((peek s).0 == b'/')
              (λ e.
                let lt = took s 46 e in
                Post-bind (takes (drop 1 (peek s).1) (omega (arith, lt, short))) λ (r, t) h.
                  Post-map
                    (term_loop-Post power takes fuel _ t (omega (arith, lt, h, enough))
                      (omega (arith, lt, h, short)))
                    λ _ g. omega (arith, lt, h, g))
              λ _. returns (peek-le s)

    parse_term-Post : (power : Parser W) → Takes k power → Takes k (parse_term m f power)
    unfolding parse_term
    parse_term-Post power takes s short = Post-bind (takes s short) λ (left, t) h.
        Post-map
          (term_loop-Post power takes (suc (length t)) left t (omega arith)
            (omega (arith, h, short)))
          λ r g. omega (arith, h, g)

    expr_loop-Post :
        (term : Parser W)
        → Takes k term
        → (fuel : ℕ) (left : W → W) (s : Bytes) → length s < fuel
        → length s < k
        → Post (λ r. length r.1 ≤ length s) (expr_loop m f term fuel left s)
    unfolding expr_loop
    expr_loop-Post term takes zero left s enough short = absurd (omega (arith, enough))
    expr_loop-Post term takes (suc fuel) left s enough short =
        Post-if ((peek s).0 == b'+')
          (λ e.
            let lt = took s 42 e in
            Post-bind (takes (drop 1 (peek s).1) (omega (arith, lt, short))) λ (r, t) h.
              Post-map
                (expr_loop-Post term takes fuel _ t (omega (arith, lt, h, enough))
                  (omega (arith, lt, h, short)))
                λ _ g. omega (arith, lt, h, g))
          λ _.
            Post-if ((peek s).0 == b'-')
              (λ e.
                let lt = took s 44 e in
                Post-bind (takes (drop 1 (peek s).1) (omega (arith, lt, short))) λ (r, t) h.
                  Post-map
                    (expr_loop-Post term takes fuel _ t (omega (arith, lt, h, enough))
                      (omega (arith, lt, h, short)))
                    λ _ g. omega (arith, lt, h, g))
              λ _. returns (peek-le s)

    parse_sum-Post : (term : Parser W) → Takes k term → Takes k (parse_sum m f term)
    unfolding parse_sum
    parse_sum-Post term takes s short = Post-bind (takes s short) λ (left, t) h.
        Post-map
          (expr_loop-Post term takes (suc (length t)) left t (omega arith)
            (omega (arith, h, short)))
          λ r g. omega (arith, h, g)

  parse_expr-Post : (depth : ℕ) → Takes depth (parse_expr m f depth)
  unfolding parse_expr
  parse_expr-Post zero s short = absurd (omega (arith, short))
  parse_expr-Post (suc depth) s short =
      let primary = parse_primary-Post depth (parse_expr m f depth) (parse_expr-Post depth) in
      parse_sum-Post (suc depth) _
        (parse_term-Post (suc depth) _ (λ t less'.
          parse_power-Post (suc depth) _
            (λ u less. parse_unary-Post (suc depth) _ primary (suc (length u)) u (omega arith) less)
            (suc (length t)) t (omega arith) less'))
        s short

  -- Every source is compiled to a function or refused, with the fuel that its length gives.
  pub compile_formula-Post : (s : Bytes) → Post (λ _. Unit) (compile_formula m f s)
  unfolding compile_formula
  compile_formula-Post s =
      Post-bind (parse_expr-Post (suc (length s)) s (omega arith))
        λ (g, t) _. Post-bind (refuse-Post _ _) λ _ _. returns tt
