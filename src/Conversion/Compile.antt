-- ===== src/Conversion/Compile.antt =====
-- internal/conversion/conversion.go: conversions compiled from their blocks. A compiled conversion
-- keeps, in place of the functions on slices, what they do to each element.
pub mod Laws
use Prim.Native.Nat.{bit_and}
use go_mdf.Base.{
  ℕ, zero, suc, ◌+◌, ◌-◌, ◌*◌, ◌/◌, Bool, true, false, ◌&&◌, ◌||◌, not, Option, none, some, List,
  [], ◌∷◌, ◌++◌, map, ltb, ◌==◌, if◌then◌else◌, length, take, drop, Outcome, Error, ok, err, panic,
  ◌>>=◌, ◌>>◌, bad_spec, unsupported,
}
use go_mdf.Base.Words.{Bytes, index, slice}
use go_mdf.Blocks.Header.{same_bytes, refuse}
use go_mdf.Blocks.Meta.Channel.{Cc}
use go_mdf.Conversion.Float.{Float}
use go_mdf.Conversion.Table.{tab_lookup, find}

pub record Conversion {ℓ} (W : Type ℓ) : Type ℓ where
  pub typ : ℕ
  pub numeric : Option (W → Outcome W)
  pub to_text : Option (W → Outcome Bytes)
  pub from_text : Option (Bytes → W)
  pub text_text : Option (Bytes → Bytes)

-- A resolved reference: a text, or a nested conversion.
pub record Ref {ℓ} (W : Type ℓ) : Type ℓ where
  pub text : Bytes
  pub conv : Option (Conversion W)

abbrev pub present {ℓ} : {A : Type ℓ} → Option A → Bool
present none = false
present (some _) = true

-- The value that a key has, the last one written if it stands there more than once.
abbrev pub look_up {ℓ} : {A : Type ℓ} → Bytes → List (Bytes × A) → A → A
look_up s [] d = d
look_up s ((k, v) ∷ entries) d = look_up s entries (if same_bytes k s then v else d)

module _ {ℓ} {W : Type ℓ} where
  unfoldable pub textual : Conversion W → Bool
  textual c = present c.to_text || present c.text_text

  unfoldable pub text_input : Option (Conversion W) → Bool
  text_input none = false
  text_input (some c) = c.typ == 9 || c.typ == 10

  -- `dst[i] = g(src[i])` for all of `src`; a shorter `dst` panics.
  unfoldable pub convert_each : (W → Outcome W) → List W → List W → Outcome (List W)
  convert_each g dst [] = ok dst
  convert_each g [] (x ∷ src) = panic
  convert_each g (d ∷ dst) (x ∷ src) = do y ← g x; ys ← convert_each g dst src; ok (y ∷ ys)

  -- `copy(dst, src)`
  abbrev pub copy_over : List W → List W → List W
  copy_over [] src = []
  copy_over (d ∷ dst) [] = d ∷ dst
  copy_over (d ∷ dst) (x ∷ src) = x ∷ copy_over dst src

  abbrev convert_with : Option (W → Outcome W) → List W → List W → Outcome (List W)
  convert_with none dst src = ok (copy_over dst src)
  convert_with (some g) dst src = convert_each g dst src

  -- `Convert`: what `dst` then holds.
  unfoldable pub convert : Option (Conversion W) → List W → List W → Outcome (List W)
  unfolding convert_each
  convert none dst src = ok (copy_over dst src)
  convert (some c) dst src = convert_with c.numeric dst src

  abbrev pub numeric_of : Option (W → Outcome W) → W → Outcome W
  numeric_of none x = ok x
  numeric_of (some g) x = g x

  unfoldable pub convert_one : Conversion W → W → Outcome W
  convert_one c x = numeric_of c.numeric x

  -- The loops of the functions to texts.
  unfoldable pub text_each : (W → Outcome Bytes) → List W → Outcome (List Bytes)
  text_each g [] = ok []
  text_each g (x ∷ src) = do s ← g x; rest ← text_each g src; ok (s ∷ rest)

  -- `Strings`, `FromText` and `TextToText` call a function that may be `nil`.
  unfoldable pub strings : Conversion W → List W → Outcome (List Bytes)
  strings c src = elim c.to_text [ none ↦ panic | some g ↦ text_each g src ]

  unfoldable pub from_texts : Conversion W → List Bytes → Outcome (List W)
  from_texts c src = elim c.from_text [ none ↦ panic | some g ↦ ok (map g src) ]

  unfoldable pub text_to_texts : Conversion W → List Bytes → Outcome (List Bytes)
  text_to_texts c src = elim c.text_text [ none ↦ panic | some g ↦ ok (map g src) ]

  abbrev pub numeric_only : ℕ → (W → Outcome W) → Conversion W
  numeric_only typ g = record {
    typ = typ;
    numeric = some g;
    to_text = none;
    from_text = none;
    text_text = none;
  }

  abbrev pub text_only : ℕ → (W → Outcome Bytes) → Conversion W
  text_only typ g = record {
    typ = typ;
    numeric = none;
    to_text = some g;
    from_text = none;
    text_text = none;
  }

  module _ (f : Float W) where
    abbrev pub text_of : Option (W → Outcome Bytes) → Conversion W → W → Outcome Bytes
    text_of (some g) c x = g x
    text_of none c x = do y ← convert_one c x; ok (f.show y)

    unfoldable pub string_one : Conversion W → W → Outcome Bytes
    string_one c x = text_of c.to_text c x

    abbrev pub render_conv : Option (Conversion W) → Bytes → W → Outcome Bytes
    render_conv none text x = ok text
    render_conv (some c) text x = string_one c x

    unfoldable pub render_ref : Ref W → W → Outcome Bytes
    render_ref r x = render_conv r.conv r.text x

    abbrev pub render_numeric_conv : Option (Conversion W) → W → Outcome W
    render_numeric_conv none x = ok f.nan
    render_numeric_conv (some c) x = if textual c then ok f.nan else convert_one c x

    unfoldable pub render_numeric_ref : Ref W → W → Outcome W
    render_numeric_ref r x = render_numeric_conv r.conv x

    abbrev pub is_numeric_conv : Option (Conversion W) → Bool
    is_numeric_conv none = false
    is_numeric_conv (some c) = not (textual c)

    unfoldable pub numeric_dominant : Ref W → Bool
    numeric_dominant r = is_numeric_conv r.conv

    -- The reference of the first key that equals `x`, or the default.
    unfoldable pub match_key : List W → List (Ref W) → Ref W → W → Outcome (Ref W)
    match_key [] texts def x = ok def
    match_key (k ∷ keys) [] def x = if f.eq x k then panic else match_key keys [] def x
    match_key (k ∷ keys) (t ∷ texts) def x =
        let rest = match_key keys texts def x in if f.eq x k then ok t else rest

    -- The reference of the first range that holds `x`, or the default.
    unfoldable pub match_range : Bool → List (W × W) → List (Ref W) → Ref W → W → Outcome (Ref W)
    match_range int_in ranges texts def x = elim (find f int_in ranges x) [
      | none ↦ ok def
      | some i ↦ index texts i
    ]

    -- `n` ranges from `v`, each at a multiple of `stride`.
    unfoldable pub read_ranges : ℕ → ℕ → ℕ → List W → Outcome (List (W × W))
    read_ranges stride zero at v = ok []
    read_ranges stride (suc n) at v = do
      low ← index v at
      high ← index v (at + 1)
      rest ← read_ranges stride n (at + stride) v
      ok ((low, high) ∷ rest)

    -- The values at `at`, `at + stride`, and so on.
    unfoldable pub read_every : ℕ → ℕ → ℕ → List W → Outcome (List W)
    read_every stride zero at v = ok []
    read_every stride (suc n) at v = do
      x ← index v at
      rest ← read_every stride n (at + stride) v
      ok (x ∷ rest)

    -- A table of texts: numeric if the default is a numeric conversion.
    unfoldable pub text_table : ℕ → (W → Outcome (Ref W)) → Ref W → Conversion W
    text_table typ pick def =
        if numeric_dominant def
        then numeric_only typ (λ x. do r ← pick x; render_numeric_ref r x)
        else text_only typ (λ x. do r ← pick x; render_ref r x)

    -- The parts of the masks, joined by " | ", without the empty ones.
    unfoldable pub render_masks : List ℕ → List (Ref W) → ℕ → Bytes → Outcome Bytes
    render_masks [] refs raw s = ok s
    render_masks (m ∷ masks) [] raw s = panic
    render_masks (m ∷ masks) (r ∷ refs) raw s = do
      part ← render_ref r (f.of_uint (bit_and raw m))
      render_masks masks refs raw (
          if same_bytes part []
          then s
          else if same_bytes s []
          then part
          else s ++ (32 ∷ b'|' ∷ 32 ∷ part))
