-- ===== src/Records/BitField.antt =====
-- internal/records/bits.go: `bitField`, and what it computes.
use Prim.Native.Nat.{bit_and}
use go_mdf.Base.{
  ℕ, ◌+◌, ◌-◌, ◌*◌, ◌/◌, ◌%◌, ◌^◌, ◌≤◌, ◌<◌, ◌≡◌, ◌≢◌, refl, sym, ap, ◌∙◌, Bool, true, false, [],
  ◌∷◌, ltb, leb, if◌then◌else◌, length, take, All, ok, ◌>>=◌, arith, min, inl, inr, Bool-cases,
  leb→le, leb→gt, ltb→ge, ge→ltb, All-take, Outcome,
}
use go_mdf.Base.Powers.{pow-pos, mod-mod-pow_le, div-mod-pow, mod_fits}
use native.Mathlib.Nat.{
  mod-lt, div-le_self, lt_of_le_of_lt, lt_of_lt_of_le, pow-le-pow_right, pow-suc,
}
use go_mdf.Base.Bits.{and_mask}
use go_mdf.Base.Uint64.{shr, push_byte, push_byte_lem}
use go_mdf.Base.Words.{Bytes, IsByte, le_value, be_value, slice, slice-ok}

-- The two loops over the first `nBytes` bytes, from the last one down and from the first one up.
gather_little : Bytes → ℕ
gather_little [] = 0
gather_little (b ∷ bs) = push_byte (gather_little bs) b

gather_big : ℕ → Bytes → ℕ
gather_big v [] = v
gather_big v (b ∷ bs) = gather_big (push_byte v b) bs

-- An index past the end of `p` panics.
unfoldable pub bit_field : Bytes → ℕ → ℕ → Bool → Outcome ℕ
unfolding gather_little gather_big
bit_field p bit_offset bit_count big_e = do
  let n_bytes = (bit_offset + bit_count + 7) / 8
  q ← slice p 0 n_bytes
  let v = if big_e then gather_big 0 q else gather_little q
  let w = shr v bit_offset
  ok (if ltb bit_count 64 then bit_and w (2 ^ bit_count - 1) else w)

-- The result, from the bytes that hold the field.
pub pure_field : ℕ → ℕ → Bool → Bytes → ℕ
unfolding gather_little gather_big
pure_field o c big_e q =
    let w = shr (if big_e then gather_big 0 q else gather_little q) o in
    if ltb c 64 then bit_and w (2 ^ c - 1) else w

pub bit_field-ok :
    (p : Bytes) (o c : ℕ) (big_e : Bool)
    → (o + c + 7) / 8 ≤ length p
    → bit_field p o c big_e ≡ ok (pure_field o c big_e (take ((o + c + 7) / 8) p))
unfolding bit_field pure_field
bit_field-ok p o c big_e h =
    let whole : (o + c + 7) / 8 - 0 ≡ (o + c + 7) / 8 = omega arith in
    rw (slice-ok p 0 ((o + c + 7) / 8) (omega arith) h, whole) refl

gather_little_lem : (bs : Bytes) → All IsByte bs → gather_little bs ≡ le_value bs % 2 ^ 64
unfolding gather_little le_value
gather_little_lem [] h = refl
gather_little_lem (b ∷ bs) (h, hs) =
    ap (λ t. push_byte t b) (gather_little_lem bs hs)
    ∙ push_byte_lem (le_value bs) b h
    ∙ ap (λ t. t % 2 ^ 64) (omega arith)

gather_big_lem :
    (v : ℕ) (bs : Bytes)
    → All IsByte bs
    → gather_big (v % 2 ^ 64) bs ≡ (v * 256 ^ length bs + be_value bs) % 2 ^ 64
unfolding gather_big be_value
gather_big_lem v [] h = omega arith
gather_big_lem v (b ∷ bs) (h, hs) =
    ap (λ t. gather_big t bs) (push_byte_lem v b h)
    ∙ gather_big_lem (v * 256 + b) bs hs
    ∙ ap (λ t. t % 2 ^ 64) (omega (arith, ap (λ (t : ℕ). v * t) (pow-suc 256 (length bs))))

-- The number that the field's bytes spell.
abbrev pub spelled : Bytes → Bool → ℕ
spelled q big_e = if big_e then be_value q else le_value q

module _ (p : Bytes) (hp : All IsByte p) (o c : ℕ) (fits : (o + c + 7) / 8 ≤ length p) where
  gathered :
      (big_e : Bool)
      → (q : Bytes) → All IsByte q
      → (if big_e then gather_big 0 q else gather_little q) ≡ spelled q big_e % 2 ^ 64
  gathered true q h = gather_big_lem 0 q h ∙ ap (λ t. t % 2 ^ 64) (omega arith)
  gathered false q h = gather_little_lem q h

  masked :
      (v : ℕ) → c ≤ 64 → v < 2 ^ 64 → (if ltb c 64 then bit_and v (2 ^ c - 1) else v) ≡ v % 2 ^ c
  masked v hc hv = elim (Bool-cases (ltb c 64)) [
    | inl part ↦ rw part (and_mask c v)
    | inr full ↦
        let e : c ≡ 64 = omega (arith, ltb→ge c 64 full) in
        rw full (sym (ap (λ t. v % 2 ^ t) e ∙ mod_fits v 64 hv))
  ]

  bit_field_lem :
      (big_e : Bool)
      → c ≤ 64
      → bit_field p o c big_e
        ≡ ok (spelled (take ((o + c + 7) / 8) p) big_e % 2 ^ 64 / 2 ^ o % 2 ^ c)
  unfolding bit_field slice
  bit_field_lem big_e hc =
      rw (ge→ltb (length p) ((o + c + 7) / 8) fits, ge→ltb ((o + c + 7) / 8) 0 (omega arith), whole)
        (ap ok (
          ap (λ v. if ltb c 64 then bit_and (v / 2 ^ o) (2 ^ c - 1) else v / 2 ^ o)
            (gathered big_e _ (All-take IsByte ((o + c + 7) / 8) p hp))
          ∙ masked _ hc (lt_of_le_of_lt (div-le_self _ (2 ^ o)) (omega arith))))
    where
      whole : (o + c + 7) / 8 - 0 ≡ (o + c + 7) / 8
      whole = omega arith

-- The low 64 bits of `x`, shifted by `o` and cut to `c` bits, are the field cut to `64 - o` bits.
cut_field : (x o c : ℕ) → o ≤ 64 → x % 2 ^ 64 / 2 ^ o % 2 ^ c ≡ x / 2 ^ o % 2 ^ min c (64 - o)
cut_field x o c ho =
    let e : 64 ≡ o + (64 - o) = omega arith in
    ap (λ t. x % 2 ^ t / 2 ^ o % 2 ^ c) e
    ∙ ap (λ t. t % 2 ^ c) (div-mod-pow x o (64 - o))
    ∙ elim (Bool-cases (leb c (64 - o))) [
      | inl small ↦
          mod-mod-pow_le (x / 2 ^ o) c (64 - o) (leb→le c _ small)
          ∙ ap (λ t. x / 2 ^ o % 2 ^ t) (omega (arith, leb→le c (64 - o) small))
      | inr large ↦
          mod_fits _ c (
            lt_of_lt_of_le (mod-lt (x / 2 ^ o) (pow-pos (64 - o))) (
              pow-le-pow_right {n = 2} (omega arith) {j = c}
                (omega (arith, leb→gt c (64 - o) large))))
          ∙ ap (λ t. x / 2 ^ o % 2 ^ t) (omega (arith, leb→gt c (64 - o) large))
    ]

module _ (p : Bytes) (hp : All IsByte p) (o c : ℕ) (big_e : Bool) where
  -- The field as the documentation describes it.
  abbrev pub field_value : ℕ
  field_value = spelled (take ((o + c + 7) / 8) p) big_e / 2 ^ o % 2 ^ c

  -- On bytes that hold a field of at most 64 bits, `bitField` does not panic, and it returns the
  -- bits of the number that the containing bytes spell (least byte first, or most byte first for
  -- a big-endian field) from bit `o` on: `c` of them, but never more than `64 - o`.
  pub bit_field_reads :
      o < 8
      → c ≤ 64
      → (o + c + 7) / 8 ≤ length p
      → bit_field p o c big_e
        ≡ ok (spelled (take ((o + c + 7) / 8) p) big_e / 2 ^ o % 2 ^ min c (64 - o))
  bit_field_reads ho hc fits =
      bit_field_lem p hp o c fits big_e hc ∙ ap ok (cut_field _ o c (omega arith))

  -- A field of at most 64 bits that spans a ninth byte is not returned if its value is `2 ^ (64 - o)`
  -- or more: if a bit of it is set that stands in the ninth byte of a little-endian field, or in the
  -- first byte of a big-endian one, above the low 64 bits.
  pub bit_field_loses :
      o < 8
      → c ≤ 64
      → (o + c + 7) / 8 ≤ length p
      → 64 < o + c
      → 2 ^ (64 - o) ≤ field_value
      → bit_field p o c big_e ≢ ok field_value
  bit_field_loses ho hc fits wide high e = absurd (omega (arith, value, small, high))
    where
      value : spelled (take ((o + c + 7) / 8) p) big_e / 2 ^ o % 2 ^ min c (64 - o) ≡ field_value
      value = cc (bit_field_reads ho hc fits)

      small : spelled (take ((o + c + 7) / 8) p) big_e / 2 ^ o % 2 ^ min c (64 - o) < 2 ^ (64 - o)
      small = let m : min c (64 - o) ≡ 64 - o = omega arith in rw m (mod-lt _ (pow-pos (64 - o)))
