-- ===== src/Dbc/Big.antt =====
-- What `raw_big` reads, as the bits of one big-endian number.
use Prim.Native.Nat.{bit_or}
use go_mdf.Base.{
  ℕ, ◌+◌, ◌-◌, ◌*◌, ◌/◌, ◌%◌, ◌^◌, ◌≤◌, ◌<◌, ◌≡◌, sym, ap, ap₂, subst, ◌∙◌, none, some, [], ◌∷◌,
  ltb, leb, if◌then◌else◌, length, take, drop, All, ok, arith, length-take, inl, inr, Bool-cases,
  leb→le, leb→gt, ltb→lt, ltb→ge, le→leb, ge→ltb, gt→leb, take_all, All-take, All-drop, length-drop,
}
use go_mdf.Base.Powers.{
  pow-pos, field-mod_le, mod-mod-pow_le, div-div-pow, mod-pow-add, div-mod-pow, mod_fits,
}
use native.Mathlib.Nat.{
  mul-div_cancel, pow-suc, mod-lt, div-le_self, lt_of_le_of_lt, lt_of_lt_of_le, pow-le-pow_right,
}
use go_mdf.Base.Uint64.{shl, shr, push_byte_lem, or-shl, shl_lem}
use go_mdf.Base.Words.{
  Bytes, IsByte, be_value, slice_from, index, be_value-drop, index_be, be_value-take,
  be_value-lt_pow,
}
use go_mdf.Dbc.Decode.{Signal, be_word_loop, be_word, big_field, raw_big}
use go_mdf.Dbc.Little.{and-mask}

be_word_loop_lem :
    (v : ℕ) (bs : Bytes)
    → All IsByte bs
    → be_word_loop (v % 2 ^ 64) bs ≡ (v * 256 ^ length bs + be_value bs) % 2 ^ 64
unfolding be_word_loop be_value
be_word_loop_lem v [] h = omega arith
be_word_loop_lem v (b ∷ bs) (h, hs) =
    ap (λ t. be_word_loop t bs) (push_byte_lem v b h)
    ∙ be_word_loop_lem (v * 256 + b) bs hs
    ∙ ap (λ t. t % 2 ^ 64) (omega (arith, ap (λ (t : ℕ). v * t) (pow-suc 256 (length bs))))

loop_value : (bs : Bytes) → All IsByte bs → length bs ≤ 8 → be_word_loop 0 bs ≡ be_value bs
loop_value bs h short =
    be_word_loop_lem 0 bs h ∙ ap (λ t. t % 2 ^ 64) (omega arith) ∙ mod_fits (be_value bs) 64 bound
  where
    bound : be_value bs < 2 ^ 64
    bound =
        lt_of_lt_of_le (be_value-lt_pow bs h)
          (pow-le-pow_right {n = 2} (omega arith) {j = 64} (omega arith))

-- With eight bytes at least `beWord` is the first eight; a shorter slice is padded with zeros.
be_word_long :
    (p : Bytes) → All IsByte p → 8 ≤ length p → be_word p ≡ be_value p / 2 ^ (8 * (length p - 8))
unfolding be_word
be_word_long p h long =
    ap (λ n. be_word_loop 0 (take 8 p) * 2 ^ (8 * (8 - n)) % 2 ^ 64) eight
    ∙ ap (λ v. v * 1 % 2 ^ 64)
        (loop_value (take 8 p) (All-take IsByte 8 p h) (omega (arith, length-take 8 p)))
    ∙ omega (arith, top)
    ∙ be_value-take p 8 long h
  where
    eight : (if ltb 8 (length p) then 8 else length p) ≡ 8
    eight = ground arith

    cut : length (take 8 p) ≡ 8
    cut = omega (arith, length-take 8 p)

    top : be_value (take 8 p) < 2 ^ 64
    top =
        subst (λ t. be_value (take 8 p) < 2 ^ (8 * t)) cut
          (be_value-lt_pow (take 8 p) (All-take IsByte 8 p h))

be_word_short :
    (p : Bytes) → All IsByte p → length p < 8 → be_word p ≡ be_value p * 2 ^ (8 * (8 - length p))
unfolding be_word
be_word_short p h short =
    ap₂ (λ v n. v * 2 ^ (8 * (8 - n)) % 2 ^ 64) value all
    ∙ shl_lem (be_value p) (8 * (8 - length p)) (8 * length p) (omega arith)
    ∙ ap (λ t. t * 2 ^ (8 * (8 - length p)))
        (mod_fits (be_value p) (8 * length p) (be_value-lt_pow p h))
  where
    all : (if ltb 8 (length p) then 8 else length p) ≡ length p
    all = ground arith

    value : be_word_loop 0 (take 8 p) ≡ be_value p
    value = ap (be_word_loop 0) (take_all 8 p (omega arith)) ∙ loop_value p h (omega arith)

be_word-lt : (p : Bytes) → be_word p < 2 ^ 64
unfolding be_word
be_word-lt p = omega arith

-- The eight high bytes and the bits of the ninth, `s` of them.
module _ (u s : ℕ) (hs : s ≤ 8) where
  ninth_low : u % 2 ^ 8 / 2 ^ (8 - s) ≡ u / 2 ^ (8 - s) % 2 ^ s
  ninth_low =
      let e : 8 ≡ (8 - s) + s = omega arith in
      ap (λ t. u % 2 ^ t / 2 ^ (8 - s)) e ∙ div-mod-pow u (8 - s) s

  ninth_fits : u % 2 ^ 8 / 2 ^ (8 - s) < 2 ^ s
  ninth_fits = rw ninth_low (mod-lt (u / 2 ^ (8 - s)) (pow-pos s))

  upper : u / 2 ^ (8 - s) / 2 ^ s ≡ u / 2 ^ 8
  upper = let e : (8 - s) + s ≡ 8 = omega arith in div-div-pow u (8 - s) s ∙ ap (λ t. u / 2 ^ t) e

  split : u / 2 ^ (8 - s) % 2 ^ 64 ≡ 2 ^ s * (u / 2 ^ 8 % 2 ^ (64 - s)) + u % 2 ^ 8 / 2 ^ (8 - s)
  split =
      let e : 64 ≡ s + (64 - s) = omega arith in
      ap (λ t. u / 2 ^ (8 - s) % 2 ^ t) e
      ∙ mod-pow-add (u / 2 ^ (8 - s)) s (64 - s)
      ∙ ap₂ (λ a b. 2 ^ s * (a % 2 ^ (64 - s)) + b) upper (sym ninth_low)

  nine_bytes : bit_or (shl (u / 2 ^ 8) s) (shr (u % 2 ^ 8) (8 - s)) ≡ u / 2 ^ (8 - s) % 2 ^ 64
  nine_bytes =
      or-shl (u / 2 ^ 8) s (64 - s) (u % 2 ^ 8 / 2 ^ (8 - s)) (omega arith) ninth_fits
      ∙ omega (arith, split)

module _ (p : Bytes) (hp : All IsByte p) (fb o len : ℕ) (ho : o < 8) (hl : len ≤ 64) where
  module _ (fits : fb + (o + len + 7) / 8 ≤ length p) where
    n_eq : length (drop fb p) ≡ length p - fb
    n_eq = length-drop fb p

    -- The number of bits below the field.
    abbrev below : ℕ
    below = 8 * (length p - fb) - o - len

    hq : All IsByte (drop fb p)
    hq = All-drop IsByte fb p hp

    -- A slice of fewer than eight bytes is padded, so the shift goes past the padding first.
    narrow_field :
        o + len ≤ 64 → shr (be_word (drop fb p)) (64 - o - len) ≡ be_value (drop fb p) / 2 ^ below
    narrow_field h = elim (Bool-cases (ltb (length (drop fb p)) 8)) [
      | inl short ↦ rw (be_word_short (drop fb p) hq (ltb→lt _ _ short)) (
          ap (λ t. be_value (drop fb p) * 2 ^ (8 * (8 - length (drop fb p))) / 2 ^ t)
            (omega (arith, n_eq, ltb→lt _ _ short))
          ∙ sym (div-div-pow _ (8 * (8 - length (drop fb p))) below)
          ∙ ap (λ t. t / 2 ^ below)
              (mul-div_cancel (be_value (drop fb p)) (pow-pos (8 * (8 - length (drop fb p))))))
      | inr long ↦ rw (be_word_long (drop fb p) hq (ltb→ge _ _ long)) (
          div-div-pow (be_value (drop fb p)) (8 * (length (drop fb p) - 8)) (64 - o - len)
          ∙ ap (λ t. be_value (drop fb p) / 2 ^ t) (omega (arith, n_eq, ltb→ge _ _ long)))
    ]

    ninth :
        64 < o + len
        → index p (fb + 8) ≡ ok (be_value (drop fb p) / 2 ^ (8 * (length p - fb - 9)) % 2 ^ 8)
    ninth h =
        let e : length p - 1 - (fb + 8) ≡ length p - fb - 9 = omega arith in
        index_be p (fb + 8) hp (omega arith)
        ∙ ap (λ t. ok (be_value p / 2 ^ (8 * t) % 2 ^ 8)) e
        ∙ ap ok (
            sym (
              field-mod_le (be_value p) (8 * (length p - fb - 9)) 8 (8 * (length p - fb))
                (omega arith)))
        ∙ ap (λ t. ok (t / 2 ^ (8 * (length p - fb - 9)) % 2 ^ 8))
            (sym (be_value-drop p fb (omega arith) hp))

    wide_field :
        64 < o + len
        → bit_or
            (shl (be_word (drop fb p)) (o + len - 64))
            (shr (be_value (drop fb p) / 2 ^ (8 * (length p - fb - 9)) % 2 ^ 8) (8 + 64 - o - len))
          ≡ be_value (drop fb p) / 2 ^ below % 2 ^ 64
    wide_field h =
        let y = be_value (drop fb p) in
        let k = 8 * (length p - fb - 9) in
        let s = o + len - 64 in
        let e1 : 8 * (length (drop fb p) - 8) ≡ k + 8 = omega (arith, n_eq) in
        let e2 : 8 + 64 - o - len ≡ 8 - s = omega arith in
        let e3 : k + (8 - s) ≡ below = omega arith in
        ap₂ (λ a b. bit_or (shl a s) (shr (y / 2 ^ k % 2 ^ 8) b))
          (be_word_long (drop fb p) hq (omega (arith, n_eq))
            ∙ ap (λ t. y / 2 ^ t) e1
            ∙ sym (div-div-pow y k 8))
          e2
        ∙ nine_bytes (y / 2 ^ k) s (omega arith)
        ∙ ap (λ t. t % 2 ^ 64) (div-div-pow y k (8 - s) ∙ ap (λ t. y / 2 ^ t) e3)

    narrow-lt : o + len ≤ 64 → be_value (drop fb p) / 2 ^ below < 2 ^ 64
    narrow-lt h =
        subst (λ t. t < 2 ^ 64) (narrow_field h)
          (lt_of_le_of_lt (div-le_self (be_word (drop fb p)) (2 ^ (64 - o - len)))
            (be_word-lt (drop fb p)))

    -- What the slice does not hold lies above the field.
    in_whole : be_value (drop fb p) / 2 ^ below % 2 ^ len ≡ be_value p / 2 ^ below % 2 ^ len
    in_whole =
        ap (λ t. t / 2 ^ below % 2 ^ len) (be_value-drop p fb (omega arith) hp)
        ∙ field-mod_le (be_value p) below len (8 * (length p - fb)) (omega arith)

    pub big_field_lem :
        big_field p fb o len ≡ ok (be_value p / 2 ^ (8 * (length p - fb) - o - len) % 2 ^ len)
    unfolding big_field slice_from
    big_field_lem = rw (ge→ltb (length p) fb (omega arith)) (elim (Bool-cases (leb (o + len) 64)) [
      | inl narrow ↦
          rw (narrow, narrow_field (leb→le _ _ narrow))
            (ap ok (and-mask _ len (narrow-lt (leb→le _ _ narrow)) hl ∙ in_whole))
      | inr wide ↦
          rw (wide, ninth (leb→gt _ _ wide), wide_field (leb→gt _ _ wide))
            (ap ok (and-mask _ len (omega arith) hl ∙ mod-mod-pow_le _ len 64 hl ∙ in_whole))
    ])

module _ (s : Signal) (p : Bytes) (hp : All IsByte p) (hi : s.len ≤ 64) where
  -- The position of the most significant bit, counted from the first bit of the payload.
  abbrev msb : ℕ
  msb = 8 * (s.start_bit / 8) + (7 - s.start_bit % 8)

  -- The field's bits go down from `msb` in the big-endian number that the whole payload is; there
  -- is no value exactly if they are not all in the payload.
  pub raw_big_lem :
      1 ≤ s.len
      → raw_big s p ≡ (
          if leb (msb + s.len) (8 * length p)
          then ok (some (be_value p / 2 ^ (8 * length p - msb - s.len) % 2 ^ s.len))
          else ok none)
  unfolding raw_big
  raw_big_lem lo = elim (Bool-cases (ltb (length p) (msb / 8 + (msb % 8 + s.len + 7) / 8))) [
    | inl short ↦ rw (short, gt→leb (msb + s.len) (8 * length p) (omega (arith, ltb→lt _ _ short)))
    | inr fits ↦
        rw
          (
            fits,
            le→leb (msb + s.len) (8 * length p) (omega (arith, ltb→ge _ _ fits)),
            big_field_lem p hp (msb / 8) (msb % 8) s.len (omega arith) hi
                (omega (arith, ltb→ge _ _ fits)),
          )
          (ap (λ t. ok (some (be_value p / 2 ^ t % 2 ^ s.len))) (omega (arith, ltb→ge _ _ fits)))
  ]
