-- ===== src/Dbc/Little.antt =====
-- What `raw_little` reads, as the bits of one little-endian number.
use Prim.Native.Nat.{bit_and, bit_or}
use go_mdf.Base.{
  ℕ, ◌+◌, ◌-◌, ◌*◌, ◌/◌, ◌%◌, ◌^◌, ◌≤◌, ◌<◌, ◌≡◌, refl, sym, ap, ap₂, ◌∙◌, true, false, none, some,
  [], ◌∷◌, ltb, leb, if◌then◌else◌, length, take, drop, All, ok, arith, inl, inr, Bool-cases,
  leb→le, leb→gt, ltb→lt, ltb→ge, le→leb, ge→ltb, gt→leb, take_all, All-take, All-drop,
}
use go_mdf.Base.Powers.{
  pow-pos, field-mod_le, mod-mod-pow_le, div-div-pow, mod-pow-add, div-mod-pow,
}
use native.Mathlib.Nat.{mod-lt, mod-mod, div-le_self, lt_of_le_of_lt}
use go_mdf.Base.Bits.{and_mask}
use go_mdf.Base.Uint64.{shl, shr, push_byte, push_byte_lem, or-shl'}
use go_mdf.Base.Words.{
  Bytes, IsByte, le_value, slice_from, index, le_value-drop, le_value-take, index_le,
}
use go_mdf.Dbc.Decode.{Signal, le_word_loop, le_word, mask, little_field, raw_little}

le_word_loop_lem : (bs : Bytes) → All IsByte bs → le_word_loop bs ≡ le_value bs % 2 ^ 64
unfolding le_word_loop le_value
le_word_loop_lem [] h = refl
le_word_loop_lem (b ∷ bs) (h, hs) =
    ap (λ t. push_byte t b) (le_word_loop_lem bs hs) ∙ push_byte_lem (le_value bs) b h ∙ omega arith

-- `leWord` is the low 64 bits, however long the slice.
pub le_word_lem : (p : Bytes) → All IsByte p → le_word p ≡ le_value p % 2 ^ 64
unfolding le_word
le_word_lem p h = le_word_loop_lem (take 8 p) (All-take IsByte 8 p h) ∙ cut
  where
    cut : le_value (take 8 p) % 2 ^ 64 ≡ le_value p % 2 ^ 64
    cut = elim (Bool-cases (leb 8 (length p))) [
      | inl long ↦
          ap (λ t. t % 2 ^ 64) (le_value-take p 8 (leb→le 8 _ long) h)
          ∙ mod-mod (le_value p) (2 ^ 64)
      | inr short ↦
          ap (λ t. le_value t % 2 ^ 64) (take_all 8 p (omega (arith, leb→gt 8 (length p) short)))
    ]

pub and-mask : (v len : ℕ) → v < 2 ^ 64 → len ≤ 64 → bit_and v (mask len) ≡ v % 2 ^ len
unfolding mask
and-mask v len hv hl = elim (Bool-cases (leb 64 len)) [
  | inl full ↦ let e : len ≡ 64 = omega (arith, leb→le 64 len full) in rw e (and_mask 64 v)
  | inr part ↦ rw part (and_mask len v)
]

-- The eight low bytes and the ninth, joined.
module _ (w o : ℕ) (ho : o ≤ 8) where
  low_eq : w % 2 ^ 64 / 2 ^ o ≡ w / 2 ^ o % 2 ^ (64 - o)
  low_eq =
      let e : 64 ≡ o + (64 - o) = omega arith in
      ap (λ t. w % 2 ^ t / 2 ^ o) e ∙ div-mod-pow w o (64 - o)

  low_fits : w % 2 ^ 64 / 2 ^ o < 2 ^ (64 - o)
  low_fits = rw low_eq (mod-lt (w / 2 ^ o) (pow-pos (64 - o)))

  high_eq : w / 2 ^ o / 2 ^ (64 - o) ≡ w / 2 ^ 64
  high_eq =
      let e : o + (64 - o) ≡ 64 = omega arith in div-div-pow w o (64 - o) ∙ ap (λ t. w / 2 ^ t) e

  split : w / 2 ^ o % 2 ^ 64 ≡ 2 ^ (64 - o) * (w / 2 ^ 64 % 2 ^ o) + w % 2 ^ 64 / 2 ^ o
  split =
      let e : 64 ≡ (64 - o) + o = omega arith in
      ap (λ t. w / 2 ^ o % 2 ^ t) e
      ∙ mod-pow-add (w / 2 ^ o) (64 - o) o
      ∙ ap₂ (λ a b. 2 ^ (64 - o) * (a % 2 ^ o) + b) high_eq (sym low_eq)

  nine_bytes : bit_or (shr (w % 2 ^ 64) o) (shl (w / 2 ^ 64 % 2 ^ 8) (64 - o)) ≡ w / 2 ^ o % 2 ^ 64
  nine_bytes =
      or-shl' (w / 2 ^ 64 % 2 ^ 8) (64 - o) o (w % 2 ^ 64 / 2 ^ o) (omega arith) low_fits
      ∙ ap (λ t. t * 2 ^ (64 - o) + w % 2 ^ 64 / 2 ^ o) (mod-mod-pow_le (w / 2 ^ 64) o 8 ho)
      ∙ omega (arith, split)

module _ (p : Bytes) (hp : All IsByte p) (sb o len : ℕ) (ho : o < 8) (hl : len ≤ 64) where
  module _ (fits : sb + (o + len + 7) / 8 ≤ length p) where
    low_word : le_word (drop sb p) ≡ le_value p / 2 ^ (8 * sb) % 2 ^ 64
    low_word =
        le_word_lem (drop sb p) (All-drop IsByte sb p hp)
        ∙ ap (λ t. t % 2 ^ 64) (le_value-drop p sb (omega arith) hp)

    ninth :
        ltb 64 (o + len) ≡ true → index p (sb + 8) ≡ ok (le_value p / 2 ^ (8 * sb) / 2 ^ 64 % 2 ^ 8)
    ninth h =
        let e : 8 * (sb + 8) ≡ 8 * sb + 64 = omega arith in
        index_le p (sb + 8) hp (omega (arith, ltb→lt 64 (o + len) h))
        ∙ ap (λ t. ok (le_value p / 2 ^ t % 2 ^ 8)) e
        ∙ ap (λ t. ok (t % 2 ^ 8)) (sym (div-div-pow (le_value p) (8 * sb) 64))

    joined :
        bit_and (le_value p / 2 ^ (8 * sb) / 2 ^ o % 2 ^ 64) (mask len)
        ≡ le_value p / 2 ^ (8 * sb) / 2 ^ o % 2 ^ len
    joined =
        and-mask _ len (omega arith) hl
        ∙ mod-mod-pow_le (le_value p / 2 ^ (8 * sb) / 2 ^ o) len 64 hl

    short_field :
        ltb 64 (o + len) ≡ false
        → bit_and (le_value p / 2 ^ (8 * sb) % 2 ^ 64 / 2 ^ o) (mask len)
          ≡ le_value p / 2 ^ (8 * sb) / 2 ^ o % 2 ^ len
    short_field h =
        and-mask _ len (lt_of_le_of_lt (div-le_self _ (2 ^ o)) (omega arith)) hl
        ∙ field-mod_le (le_value p / 2 ^ (8 * sb)) o len 64 (ltb→ge 64 (o + len) h)

    pub little_field_lem :
        little_field p sb o len ≡ ok (le_value p / 2 ^ (8 * sb) / 2 ^ o % 2 ^ len)
    unfolding little_field slice_from
    little_field_lem =
        rw (ge→ltb (length p) sb (omega arith), low_word)
          (elim (Bool-cases (ltb 64 (o + len))) [
            | inl wide ↦ rw (wide, ninth wide, nine_bytes _ o (omega arith)) (ap ok joined)
            | inr narrow ↦ rw narrow (ap ok (short_field narrow))
          ])

module _ (s : Signal) (p : Bytes) (hp : All IsByte p) (hi : s.len ≤ 64) where
  -- The field's bits are those at `start_bit` and above, in the little-endian number that the
  -- whole payload is; there is no value exactly if they are not all in the payload.
  pub raw_little_lem :
      1 ≤ s.len
      → raw_little s p ≡ (
          if leb (s.start_bit + s.len) (8 * length p)
          then ok (some (le_value p / 2 ^ s.start_bit % 2 ^ s.len))
          else ok none)
  unfolding raw_little
  raw_little_lem lo =
      elim (Bool-cases (ltb (length p) (s.start_bit / 8 + (s.start_bit % 8 + s.len + 7) / 8))) [
        | inl short ↦
            rw
              (short, gt→leb (s.start_bit + s.len) (8 * length p) (omega (arith, ltb→lt _ _ short)))
        | inr fits ↦ rw (
          fits,
          le→leb (s.start_bit + s.len) (8 * length p) (omega (arith, ltb→ge _ _ fits)),
          little_field_lem p hp (s.start_bit / 8) (s.start_bit % 8) s.len (omega arith) hi
              (omega (arith, ltb→ge _ _ fits)),
          at_bit,
        )
      ]
    where
      at_bit :
          le_value p / 2 ^ (8 * (s.start_bit / 8)) / 2 ^ (s.start_bit % 8)
          ≡ le_value p / 2 ^ s.start_bit
      at_bit =
          let e : 8 * (s.start_bit / 8) + s.start_bit % 8 ≡ s.start_bit = omega arith in
          div-div-pow (le_value p) _ _ ∙ ap (λ t. le_value p / 2 ^ t) e
