-- ===== src/Conversion/Rules/Laws.antt =====
-- What Compile accepts: it does not panic, its conversions do not panic on numbers, and a value
-- table panics at NaN.
use go_mdf.Base.{
  ℕ, ◌+◌, ◌-◌, ◌*◌, ◌/◌, ◌≤◌, ◌<◌, ◌≡◌, ◌≢◌, ◌∙◌, refl, sym, subst, Bool, true, false, ◌⊎◌, inl,
  inr, Option, none, some, List, [], ◌∷◌, map, if◌then◌else◌, ◌==◌, length, drop, Outcome, ok,
  panic, All, All-take, All-drop, length-take, length-drop, Post, returns, raises, Post-bind,
  Post-if, Post-map, arith, ltb→ge, ==→ne, ne→==,
}
use go_mdf.Base.Words.{Bytes, index, slice, slice-ok}
use go_mdf.Blocks.Header.{refuse}
use go_mdf.Blocks.Header.Laws.{refuse-Post}
use go_mdf.Blocks.Meta.Channel.{Cc}
use go_mdf.Conversion.Float.{Float, IsOrdered, IsNumber, IsNan}
use go_mdf.Conversion.Table.{find, tab_lookup}
use go_mdf.Conversion.Table.Laws.{index-at, index-All, tab_lookup_nan}
use go_mdf.Conversion.Table.Values.{tab_lookup-Looked}
use go_mdf.Conversion.Compile.{Conversion, Ref, convert_one, string_one, numeric_only}
use go_mdf.Conversion.Compile.Laws.{
  read_every-eq-ok, read_ranges-eq-ok, IsBelow, find-IsBelow, Number, IsTotal, IsTotalOption,
  IsTotalRef, numeric_only-IsTotal, text_only-IsTotal, match_key-Post, match_range-Post,
  text_table-IsTotal, render_masks-Post,
}
use go_mdf.Conversion.Rules.{
  Compiled, linear, rational, algebraic, table, value_at, range_to_value, value_to_text,
  range_to_text, text_values, text_to_value, text_to_text, bitfield_to_text, compile,
}

index-Post {ℓ} : {A : Type ℓ} (xs : List A) (i : ℕ) → i < length xs → Post (λ _. Unit) (index xs i)
index-Post xs i h = let x = index-at xs i h in rw x.1 (returns tt)

index-kept {ℓ} :
    {A : Type ℓ} (P : A → Type 0) (xs : List A) (i : ℕ)
    → All P xs
    → i < length xs
    → Post P (index xs i)
index-kept P xs i p h = let x = index-at xs i h in rw x.1 (returns (index-All P xs i x.0 p x.1))

every {ℓ} : {A : Type ℓ} (xs : List A) → All (λ _. Unit {0}) xs
every [] = tt
every (x ∷ xs) = (tt, every xs)

slice-kept {ℓ} :
    {A : Type ℓ} (P : A → Type 0) (xs : List A) (n : ℕ)
    → All P xs
    → n ≤ length xs
    → Post (λ ys. (length ys ≡ n) × All P ys) (slice xs 0 n)
slice-kept P xs n p h = rw (slice-ok xs 0 n (omega arith) h) (
    returns (
      omega (arith, h, length-take (n - 0) (drop 0 xs), length-drop 0 xs),
      All-take P (n - 0) (drop 0 xs) (All-drop P 0 xs p),
    ))

module _ {W : Type 0} (f : Float W) (laws : IsOrdered W f) where
  abbrev Sound : Compiled f → Type 0
  Sound r = Post (IsTotalOption f) r

  if-total :
      (b : Bool) (c : Conversion W) → IsTotal f c → IsTotalOption f (if b then none else some c)
  if-total true c h = tt
  if-total false c h = h

  table_value-Post :
      (keys vals : List W) (n : Number f) (interp : Bool) {m : ℕ}
      → m ≢ 0
      → length keys ≡ m
      → length vals ≡ m
      → All (IsNumber f) keys
      → Post (λ _. Unit) (tab_lookup f keys vals n.0 interp)
  table_value-Post [] vals n interp some_key k v numbers = absurd (some_key (sym k))
  table_value-Post (key ∷ keys) vals n interp some_key k v numbers =
      Post-map (tab_lookup-Looked f laws key keys vals n.0 interp numbers (v ∙ sym k) n.1) λ _ _. tt

  value_at-Post :
      (vals : List W) (def : W) (o : Option ℕ)
      → IsBelow (length vals) o
      → Post (λ _. Unit) (value_at f vals def o)
  value_at-Post vals def none h = returns tt
  value_at-Post vals def (some i) h = index-Post vals i h

  text_values-Post :
      (refs : List (Ref W)) (v : List W)
      → length refs ≤ length v
      → Post (λ _. Unit) (text_values f refs v)
  unfolding text_values
  text_values-Post [] v h = returns tt
  text_values-Post (r ∷ refs) [] h = absurd (omega (arith, h))
  text_values-Post (r ∷ refs) (x ∷ v) h =
      Post-bind (text_values-Post refs v (omega (arith, h))) λ _ _. returns tt

  linear-Post : (v : List W) → Sound (linear f v)
  unfolding linear
  linear-Post v = Post-bind (refuse-Post _ _) λ _ e.
      let size = ltb→ge (length v) 2 e in
      Post-bind (index-Post v 0 (omega (arith, size))) λ b _.
        Post-bind (index-Post v 1 (omega (arith, size)))
          λ a _. returns (if-total _ _ (numeric_only-IsTotal f 1 _ λ n. returns tt))

  rational-Post : (v : List W) → Sound (rational f v)
  unfolding rational
  rational-Post v = Post-bind (refuse-Post _ _) λ _ e.
      let size = ltb→ge (length v) 6 e in
      Post-bind (index-Post v 0 (omega (arith, size))) λ _ _.
        Post-bind (index-Post v 1 (omega (arith, size))) λ _ _.
          Post-bind (index-Post v 2 (omega (arith, size))) λ _ _.
            Post-bind (index-Post v 3 (omega (arith, size))) λ _ _.
              Post-bind (index-Post v 4 (omega (arith, size))) λ _ _.
                Post-bind (index-Post v 5 (omega (arith, size)))
                  λ _ _. returns (if-total _ _ (numeric_only-IsTotal f 2 _ λ n. returns tt))

  algebraic-Post :
      (formula : Bytes → Outcome (W → W))
      → ((s : Bytes) → Post (λ _. Unit) (formula s))
      → (refs : List (Ref W)) → Sound (algebraic f formula refs)
  unfolding algebraic
  algebraic-Post formula safe refs = Post-bind (refuse-Post _ _) λ _ e.
      let size = ltb→ge (length refs) 1 e in
      Post-bind (index-Post refs 0 (omega (arith, size)))
        λ r _. Post-bind (safe r.text) λ g _. returns (numeric_only-IsTotal f 3 _ λ n. returns tt)

  table-Post :
      (typ : ℕ) (interp : Bool) (v : List W) → All (IsNumber f) v → Sound (table f typ interp v)
  unfolding table
  table-Post typ interp v numbers = Post-bind (refuse-Post _ _) λ _ e.
      let keys = read_every-eq-ok f (IsNumber f) 2 (length v / 2) 0 v (omega arith) numbers in
      let vals = read_every-eq-ok f (IsNumber f) 2 (length v / 2) 1 v (omega arith) numbers in
      rw (keys.1, vals.1)
        (returns (
          numeric_only-IsTotal f typ _ λ n.
            table_value-Post keys.0 vals.0 n interp (==→ne (length v / 2) 0 e) keys.2 vals.2
              keys.3))

  range_to_value-Post : (int_in : Bool) (v : List W) → Sound (range_to_value f int_in v)
  unfolding range_to_value
  range_to_value-Post int_in v = Post-bind (refuse-Post _ _) λ _ e.
      let n = length v / 3 in
      let size = ltb→ge (length v) (3 * n + 1) e in
      let ranges = read_ranges-eq-ok f 3 n 0 v (omega (arith, size)) in
      let vals = read_every-eq-ok f (λ _. Unit {0}) 3 n 2 v (omega (arith, size)) (every v) in
      rw (ranges.1, vals.1)
        (Post-bind (index-Post v (3 * n) (omega (arith, size))) λ def _. returns (
          numeric_only-IsTotal f 6 _ λ x. value_at-Post vals.0 def (find f int_in ranges.0 x.0) (
            subst (λ k. IsBelow k (find f int_in ranges.0 x.0)) (ranges.2 ∙ sym vals.2)
              (find-IsBelow f int_in ranges.0 x.0))))

  value_to_text-Post :
      (v : List W) (refs : List (Ref W)) → All (IsTotalRef f) refs → Sound (value_to_text f v refs)
  unfolding value_to_text
  value_to_text-Post v refs total = Post-bind (refuse-Post _ _) λ _ e.
      let size = ltb→ge (length refs) (length v + 1) e in
      Post-bind (slice-kept (IsTotalRef f) refs (length v) total (omega (arith, size))) λ texts t.
        Post-bind (index-kept (IsTotalRef f) refs (length v) total (omega (arith, size))) λ def d.
          returns (
            text_table-IsTotal f 7 _ def
              λ x. match_key-Post f (IsTotalRef f) v texts def x.0 (omega (arith, t.0)) t.1 d)

  range_to_text-Post :
      (int_in : Bool) (v : List W) (refs : List (Ref W))
      → All (IsTotalRef f) refs
      → Sound (range_to_text f int_in v refs)
  unfolding range_to_text
  range_to_text-Post int_in v refs total = Post-bind (refuse-Post _ _) λ _ e.
      let n = length v / 2 in
      let size = ltb→ge (length refs) (n + 1) e in
      let ranges = read_ranges-eq-ok f 2 n 0 v (omega arith) in
      rw ranges.1 (
        Post-bind (slice-kept (IsTotalRef f) refs n total (omega (arith, size))) λ texts t.
          Post-bind (index-kept (IsTotalRef f) refs n total (omega (arith, size))) λ def d.
            returns (
              text_table-IsTotal f 8 _ def λ x.
                match_range-Post f (IsTotalRef f) int_in ranges.0 texts def x.0 (ranges.2 ∙ sym t.0)
                  t.1 d))

  text_to_value-Post : (v : List W) (refs : List (Ref W)) → Sound (text_to_value f v refs)
  unfolding text_to_value convert_one string_one
  text_to_value-Post v refs = Post-bind (refuse-Post _ _) λ _ e.
      let size = ltb→ge (length v) (length refs + 1) e in
      Post-bind (text_values-Post refs v (omega (arith, size))) λ entries _.
        Post-bind (index-Post v (length refs) (omega (arith, size)))
          λ def _. returns (λ n. (returns tt, returns tt))

  text_to_text-Post : (refs : List (Ref W)) → Sound (text_to_text f refs)
  unfolding text_to_text convert_one string_one
  text_to_text-Post refs = returns (λ n. (returns tt, returns tt))

  bitfield_to_text-Post :
      (masks : List ℕ) (refs : List (Ref W))
      → All (IsTotalRef f) refs
      → Sound (bitfield_to_text f masks refs)
  unfolding bitfield_to_text
  bitfield_to_text-Post masks refs total = Post-bind (refuse-Post _ _) λ _ e.
      let size = ltb→ge (length refs) (length masks) e in
      returns (
        text_only-IsTotal f 11 _
          λ n. render_masks-Post f laws.of_uint_number masks refs (f.to_uint n.0) [] size total)

  -- Compile does not panic, and what it compiles does not panic on a number.
  pub compile-Post :
      (formula : Bytes → Outcome (W → W))
      → ((s : Bytes) → Post (λ _. Unit) (formula s))
      → (b : Cc) (refs : List (Ref W)) (int_in : Bool) → All (IsNumber f) (map f.of_bits b.vals)
      → All (IsTotalRef f) refs
      → Post (IsTotalOption f) (compile f formula (some b) refs int_in)
  unfolding compile
  compile-Post formula safe b refs int_in numbers total =
      let v = map f.of_bits b.vals in
      Post-if (b.cc_type == 0) (λ _. returns tt)
        λ _.
          Post-if (b.cc_type == 1) (λ _. linear-Post v)
            λ _.
              Post-if (b.cc_type == 2) (λ _. rational-Post v)
                λ _.
                  Post-if (b.cc_type == 3) (λ _. algebraic-Post formula safe refs)
                    λ _.
                      Post-if (b.cc_type == 4) (λ _. table-Post 4 true v numbers)
                        λ _.
                          Post-if (b.cc_type == 5) (λ _. table-Post 5 false v numbers)
                            λ _.
                              Post-if (b.cc_type == 6) (λ _. range_to_value-Post int_in v)
                                λ _.
                                  Post-if (b.cc_type == 7) (λ _. value_to_text-Post v refs total)
                                    λ _.
                                      Post-if (b.cc_type == 8)
                                        (λ _. range_to_text-Post int_in v refs total)
                                        λ _.
                                          Post-if (b.cc_type == 9) (λ _. text_to_value-Post v refs)
                                            λ _.
                                              Post-if (b.cc_type == 10)
                                                (λ _. text_to_text-Post refs)
                                                λ _.
                                                  Post-if (b.cc_type == 11)
                                                    (λ _. bitfield_to_text-Post b.vals refs total)
                                                    (λ _. raises)

  nan_value :
      (keys vals : List W) (x : W) (interp : Bool) {m : ℕ}
      → m ≢ 0
      → length keys ≡ m
      → IsNan f x
      → tab_lookup f keys vals x interp ≡ panic
  nan_value [] vals x interp some_key k nan = absurd (some_key (sym k))
  nan_value (key ∷ keys) vals x interp some_key k nan =
      tab_lookup_nan f laws key keys vals x interp nan

  table_panics :
      (typ : ℕ) (interp : Bool) (v : List W) (x : W)
      → 2 ≤ length v
      → IsNan f x
      → (c : Conversion W) × (table f typ interp v ≡ ok (some c)) × (convert_one c x ≡ panic)
  unfolding table refuse convert_one
  table_panics typ interp v x size nan =
      let n = length v / 2 in
      let some_key : n ≢ 0 = λ e. omega (arith, size, e) in
      let keys = read_every-eq-ok f (λ _. Unit {0}) 2 n 0 v (omega arith) (every v) in
      let vals = read_every-eq-ok f (λ _. Unit {0}) 2 n 1 v (omega arith) (every v) in
      (
        numeric_only typ (λ y. tab_lookup f keys.0 vals.0 y interp),
        rw (ne→== n 0 some_key, keys.1, vals.1) refl,
        nan_value keys.0 vals.0 x interp some_key keys.2 nan,
      )

  -- A value table that Compile accepts panics at a sample that is NaN.
  pub compile_panics :
      (formula : Bytes → Outcome (W → W)) (b : Cc) (refs : List (Ref W)) (int_in : Bool) (x : W)
      → (b.cc_type ≡ 4) ⊎ (b.cc_type ≡ 5)
      → 2 ≤ length (map f.of_bits b.vals)
      → IsNan f x
      → (c : Conversion W) × (compile f formula (some b) refs int_in ≡ ok (some c))
        × (convert_one c x ≡ panic)
  unfolding compile
  compile_panics formula b refs int_in x (inl e) size nan =
      rw e (table_panics 4 true (map f.of_bits b.vals) x size nan)
  compile_panics formula b refs int_in x (inr e) size nan =
      rw e (table_panics 5 false (map f.of_bits b.vals) x size nan)
