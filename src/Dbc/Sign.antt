-- ===== src/Dbc/Sign.antt =====
-- internal/dbc/decode.go (SignedRaw, MuxValueOf) and dbc.go (multiplexer). An int64 is its bit pattern.
use native.Mathlib.Nat.{mod-lt, mul-div_left, mul-lt-mul_of_pos_right, mul-le-mul_right}
use go_mdf.Base.{
  ℕ, suc, ◌+◌, ◌-◌, ◌*◌, ◌/◌, ◌%◌, ◌^◌, ◌≤◌, ◌<◌, ◌≡◌, refl, sym, subst, ap, ◌∙◌, true, false, ◌||◌,
  not, Option, none, some, List, [], ◌∷◌, ltb, leb, ne→==, All, length, if◌then◌else◌, if-false,
  Outcome, ok, ◌>>=◌, arith, Bool-cases, inl, inr, ltb→lt, ltb→ge, lt→ltb, ge→ltb, leb→gt, leb→le,
}
use go_mdf.Base.Powers.{pow-add, pow-pos, mod_fits}
use go_mdf.Base.Uint64.{shl, shl_lem}
use go_mdf.Base.Words.{Bytes, IsByte, le_value}
use go_mdf.Dbc.Decode.{Signal, raw, raw_little, raw_big}
use go_mdf.Dbc.Little.{raw_little_lem}

-- `int64(v) >> k`: the sign bit comes in from above.
abbrev pub sar : ℕ → ℕ → ℕ
sar v k = if ltb v (2 ^ 63) then v / 2 ^ k else v / 2 ^ k + (2 ^ 64 - 2 ^ (64 - k))

unfoldable pub signed_raw : Signal → ℕ → ℕ
signed_raw s v = if not s.signed || leb 64 s.len then v else sar (shl v (64 - s.len)) (64 - s.len)

-- The first multiplexer among the signals of a message.
unfoldable pub multiplexer : List Signal → Option Signal
multiplexer [] = none
multiplexer (s ∷ signals) =
    let rest = multiplexer signals in if s.is_multiplexer then some s else rest

abbrev pub switch_value : Signal → Option ℕ → Option ℕ
switch_value mux none = none
switch_value mux (some v) = some (signed_raw mux v)

unfoldable pub mux_value_of : List Signal → Bytes → Outcome (Option ℕ)
mux_value_of signals payload = elim (multiplexer signals) [
  | none ↦ ok none
  | some mux ↦ (raw mux payload >>= λ v. ok (switch_value mux v))
]

-- The raw value of `len` bits as a two's complement number of `len` bits, extended to 64 bits.
abbrev pub extended : ℕ → ℕ → ℕ
extended len v = if ltb v (2 ^ (len - 1)) then v else v + (2 ^ 64 - 2 ^ len)

module _ (l k v : ℕ) (width : l + k ≡ 63) (fits : v < 2 ^ suc l) where
  shifted : shl v k ≡ v * 2 ^ k
  shifted =
      shl_lem v k (suc l) (omega (arith, width)) ∙ ap (λ t. t * 2 ^ k) (mod_fits v (suc l) fits)

  top : 2 ^ 63 ≡ 2 ^ l * 2 ^ k
  top = ap (λ t. 2 ^ t) (sym width) ∙ pow-add 2 l k

  back : v * 2 ^ k / 2 ^ k ≡ v
  back = mul-div_left v (pow-pos k)

  minus : suc l - 1 ≡ l
  minus = omega arith

  rest : 64 - k ≡ suc l
  rest = omega (arith, width)

  sar-shl : sar (shl v k) k ≡ extended (suc l) v
  sar-shl = elim (Bool-cases (ltb v (2 ^ l))) [
    | inl e ↦
        let less = mul-lt-mul_of_pos_right {k = 2 ^ k} (ltb→lt v (2 ^ l) e) (pow-pos k) in
        rw (shifted, lt→ltb (v * 2 ^ k) (2 ^ 63) (omega (arith, less, top)), minus, e) back
    | inr e ↦
        let more = mul-le-mul_right {m = 2 ^ l} {n = v} (2 ^ k) (ltb→ge v (2 ^ l) e) in
        rw (shifted, ge→ltb (v * 2 ^ k) (2 ^ 63) (omega (arith, more, top)), minus, e, rest)
          (ap (λ t. t + (2 ^ 64 - 2 ^ suc l)) back)
  ]

whole_width : (v : ℕ) → v ≡ extended 64 v
whole_width v = elim (Bool-cases (ltb v (2 ^ 63))) [
  | inl e ↦ rw e refl
  | inr e ↦ rw e (omega arith)
]

-- SignedRaw of a signed signal takes the raw value, which has the signal's length, as a two's
-- complement number, and extends it to 64 bits.
pub signed_raw_lem :
    (s : Signal) (v : ℕ)
    → s.signed ≡ true
    → 1 ≤ s.len
    → s.len ≤ 64
    → v < 2 ^ s.len
    → signed_raw s v ≡ extended s.len v
unfolding signed_raw
signed_raw_lem s v signed lo hi fits = elim (Bool-cases (leb 64 s.len)) [
  | inl wide ↦
      let len_eq : 64 ≡ s.len = omega (arith, leb→le 64 s.len wide, hi) in
      rw (signed, wide) (whole_width v ∙ ap (λ n. extended n v) len_eq)
  | inr narrow ↦
      let less = leb→gt 64 s.len narrow in
      let len_eq : suc (s.len - 1) ≡ s.len = omega (arith, lo) in
      rw (signed, narrow)
        (sar-shl (s.len - 1) (64 - s.len) v (omega (arith, lo, less))
            (subst (λ n. v < 2 ^ n) (sym len_eq) fits)
          ∙ ap (λ n. extended n v) len_eq)
]

-- The value of a signal's field: unsigned, or extended.
abbrev pub field_value : Signal → ℕ → ℕ
field_value s v = if s.signed then extended s.len v else v

field_value_lem :
    (s : Signal) (v : ℕ) → 1 ≤ s.len → s.len ≤ 64 → v < 2 ^ s.len → signed_raw s v ≡ field_value s v
unfolding signed_raw
field_value_lem s v lo hi fits = elim (Bool-cases s.signed) [
  | inl e ↦ signed_raw_lem s v e lo hi fits ∙ rw e refl
  | inr e ↦ rw e refl
]

raw_little-raw :
    (s : Signal) (p : Bytes)
    → s.big_endian ≡ false
    → 1 ≤ s.len
    → s.len ≤ 64
    → raw s p ≡ raw_little s p
unfolding raw
raw_little-raw s p little lo hi =
    rw (ne→== s.len 0 (λ q. omega (arith, q, lo)), ge→ltb 64 s.len hi)
      (if-false s.big_endian (raw_big s p) (raw_little s p) little)

-- MuxValueOf of a message whose first multiplexer is little-endian returns the field of that
-- signal, sign-extended if it is signed, and nothing exactly if its bits are not all in the payload.
pub mux_value_of_lem :
    (signals : List Signal) (mux : Signal) (p : Bytes)
    → multiplexer signals ≡ some mux
    → mux.big_endian ≡ false
    → 1 ≤ mux.len
    → mux.len ≤ 64
    → All IsByte p
    → mux_value_of signals p ≡ (
        if leb (mux.start_bit + mux.len) (8 * length p)
        then ok (some (field_value mux (le_value p / 2 ^ mux.start_bit % 2 ^ mux.len)))
        else ok none)
unfolding mux_value_of
mux_value_of_lem signals mux p found little lo hi bytes =
    elim (Bool-cases (leb (mux.start_bit + mux.len) (8 * length p))) [
      | inl e ↦
          rw
            (
              found,
              mux_value_of,
              raw_little-raw mux p little lo hi,
              raw_little_lem mux p bytes hi lo,
              e,
            )
            (ap (λ t. ok (some t))
              (field_value_lem mux (le_value p / 2 ^ mux.start_bit % 2 ^ mux.len) lo hi
                (mod-lt (le_value p / 2 ^ mux.start_bit) (pow-pos mux.len))))
      | inr e ↦
          rw
            (
              found,
              mux_value_of,
              raw_little-raw mux p little lo hi,
              raw_little_lem mux p bytes hi lo,
              e,
            )
            refl
    ]
