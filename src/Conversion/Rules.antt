-- ===== src/Conversion/Rules.antt =====
-- internal/conversion/conversion.go (Compile): one rule for each type of conversion. The compiler of
-- formulas is an argument.
pub mod Laws
use go_mdf.Base.{
  ℕ, suc, ◌+◌, ◌-◌, ◌*◌, ◌/◌, Bool, true, false, ◌&&◌, ◌||◌, not, Option, none, some, List, [], ◌∷◌,
  map, ltb, ◌==◌, if◌then◌else◌, length, take, drop, Outcome, Error, ok, err, panic, ◌>>=◌, ◌>>◌,
  bad_spec, unsupported,
}
use go_mdf.Base.Words.{Bytes, index, slice}
use go_mdf.Blocks.Header.{same_bytes, refuse}
use go_mdf.Blocks.Meta.Channel.{Cc}
use go_mdf.Conversion.Float.{Float}
use go_mdf.Conversion.Table.{tab_lookup, find}
use go_mdf.Conversion.Compile.{
  Conversion, Ref, look_up, match_key, match_range, read_ranges, read_every, numeric_only,
  text_only, text_table, render_masks,
}

module _ {ℓ} {W : Type ℓ} (f : Float W) where
  -- No conversion is the identity, which is `nil`.
  abbrev pub Compiled : Type ℓ
  Compiled = Outcome (Option (Conversion W))

  unfoldable pub linear : List W → Compiled
  linear v = do
    refuse (ltb (length v) 2) bad_spec
    b ← index v 0
    a ← index v 1
    ok (
        if f.eq a f.one && f.eq b f.zero
        then none
        else some (numeric_only 1 λ x. ok (f.add (f.mul a x) b)))

  unfoldable pub rational : List W → Compiled
  rational v = do
    refuse (ltb (length v) 6) bad_spec
    p2 ← index v 0
    p1 ← index v 1
    p0 ← index v 2
    q2 ← index v 3
    q1 ← index v 4
    q0 ← index v 5
    ok (
        if f.eq p2 f.zero
          && f.eq p1 f.one
          && f.eq p0 f.zero
          && f.eq q2 f.zero
          && f.eq q1 f.zero
          && f.eq q0 f.one
        then none
        else some (
            numeric_only 2 λ x. ok (
              f.div (f.add (f.add (f.mul (f.mul p2 x) x) (f.mul p1 x)) p0)
                (f.add (f.add (f.mul (f.mul q2 x) x) (f.mul q1 x)) q0))))

  unfoldable pub algebraic : (Bytes → Outcome (W → W)) → List (Ref W) → Compiled
  algebraic formula refs = do
    refuse (ltb (length refs) 1) bad_spec
    r ← index refs 0
    g ← formula r.text
    ok (some (numeric_only 3 λ x. ok (g x)))

  unfoldable pub table : ℕ → Bool → List W → Compiled
  table typ interp v = do
    refuse (length v / 2 == 0) bad_spec
    keys ← read_every f 2 (length v / 2) 0 v
    vals ← read_every f 2 (length v / 2) 1 v
    ok (some (numeric_only typ λ x. tab_lookup f keys vals x interp))

  abbrev pub value_at : List W → W → Option ℕ → Outcome W
  value_at vals def none = ok def
  value_at vals def (some i) = index vals i

  unfoldable pub range_to_value : Bool → List W → Compiled
  range_to_value int_in v = do
    let n = length v / 3
    refuse (ltb (length v) (3 * n + 1)) bad_spec
    ranges ← read_ranges f 3 n 0 v
    vals ← read_every f 3 n 2 v
    def ← index v (3 * n)
    ok (some (numeric_only 6 λ x. value_at vals def (find f int_in ranges x)))

  unfoldable pub value_to_text : List W → List (Ref W) → Compiled
  value_to_text v refs = do
    refuse (ltb (length refs) (length v + 1)) bad_spec
    texts ← slice refs 0 (length v)
    def ← index refs (length v)
    ok (some (text_table f 7 (match_key f v texts def) def))

  unfoldable pub range_to_text : Bool → List W → List (Ref W) → Compiled
  range_to_text int_in v refs = do
    let n = length v / 2
    refuse (ltb (length refs) (n + 1)) bad_spec
    ranges ← read_ranges f 2 n 0 v
    texts ← slice refs 0 n
    def ← index refs n
    ok (some (text_table f 8 (match_range f int_in ranges texts def) def))

  -- The entries of the map that the rule builds; `v[i]` past the end panics.
  unfoldable pub text_values : List (Ref W) → List W → Outcome (List (Bytes × W))
  text_values [] v = ok []
  text_values (r ∷ refs) [] = panic
  text_values (r ∷ refs) (x ∷ v) = do rest ← text_values refs v; ok ((r.text, x) ∷ rest)

  unfoldable pub text_to_value : List W → List (Ref W) → Compiled
  text_to_value v refs = do
    refuse (ltb (length v) (length refs + 1)) bad_spec
    entries ← text_values refs v
    def ← index v (length refs)
    ok (
        some (record {
          typ = 9;
          numeric = none;
          to_text = none;
          from_text = some (λ s. look_up s entries def);
          text_text = none;
        }))

  -- Pairs of references; a last one alone is the default.
  unfoldable pub text_pairs : List (Ref W) → List (Bytes × Bytes) × Bytes
  text_pairs [] = ([], [])
  text_pairs (r ∷ []) = ([], r.text)
  text_pairs (r ∷ s ∷ refs) = let rest = text_pairs refs in ((r.text, s.text) ∷ rest.0, rest.1)

  unfoldable pub text_to_text : List (Ref W) → Compiled
  text_to_text refs = ok (
      some (record {
        typ = 10;
        numeric = none;
        to_text = none;
        from_text = none;
        text_text = some (λ s.
            look_up s (text_pairs refs).0
              (if same_bytes (text_pairs refs).1 [] then s else (text_pairs refs).1));
      }))

  unfoldable pub bitfield_to_text : List ℕ → List (Ref W) → Compiled
  bitfield_to_text masks refs = do
    refuse (ltb (length refs) (length masks)) bad_spec
    ok (some (text_only 11 λ x. render_masks f masks refs (f.to_uint x) []))

  -- `Compile` of a block, by its type. An absent block is `nil` as well.
  unfoldable pub compile : (Bytes → Outcome (W → W)) → Option Cc → List (Ref W) → Bool → Compiled
  compile formula none refs int_in = ok none
  compile formula (some cc) refs int_in =
      let v = map f.of_bits cc.vals in
      if cc.cc_type == 0
      then ok none
      else if cc.cc_type == 1
      then linear v
      else if cc.cc_type == 2
      then rational v
      else if cc.cc_type == 3
      then algebraic formula refs
      else if cc.cc_type == 4
      then table 4 true v
      else if cc.cc_type == 5
      then table 5 false v
      else if cc.cc_type == 6
      then range_to_value int_in v
      else if cc.cc_type == 7
      then value_to_text v refs
      else if cc.cc_type == 8
      then range_to_text int_in v refs
      else if cc.cc_type == 9
      then text_to_value v refs
      else if cc.cc_type == 10
      then text_to_text refs
      else if cc.cc_type == 11
      then bitfield_to_text cc.vals refs
      else err unsupported
