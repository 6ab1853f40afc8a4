-- ===== src/Records/Extract/Windows.antt =====
-- Extracting the records of a stream in two pieces is extracting them at once.
use native.Mathlib.Nat.{mul_comm, mul-le-mul_right}
use go_mdf.Base.{
  ℕ, ◌+◌, ◌*◌, ◌/◌, ◌≤◌, ◌≡◌, refl, sym, ap, ◌∙◌, false, Bool-cases, inl, inr, Option, none, some,
  List, ltb, ltb→ge, ge→ltb, length, Outcome, bind_assoc, bind-ap, ok, ◌>>=◌, arith,
}
use go_mdf.Base.Words.{Bytes}
use go_mdf.Blocks.Header.{refuse}
use go_mdf.Records.Bitset.{Bitset}
use go_mdf.Records.Column.{Kind, ColumnSpec, Column}
use go_mdf.Records.Extract.{
  ToFloat, samples, extract_samples, extract_invalid_bits, extract_flags, extract,
}
use go_mdf.Records.Extract.Local.{
  IsLocal, decoded, decoded-add, decoded-window, samples-eq-ok, window, length-window, span,
}
use go_mdf.Records.Extract.Laws.{IsPush, Effect, samples-Effect}
use go_mdf.Records.Extract.Flags.{extract_invalid_bits-add}

abbrev flagged : {W : Type 0} → Option Bitset → Column W → Column W
flagged x c = record c { invalid = x }

assoc : (i a b : ℕ) → i + (a + b) ≡ i + a + b
assoc i a b = omega arith

module _ {W : Type 0} (w : ToFloat W) (spec : ColumnSpec) (stream : Bytes) (rec_size : ℕ) where
  abbrev flags_at : Option ℕ → ℕ → ℕ → Option Bitset → Outcome (Option Bitset)
  flags_at bit i n old = extract_flags w old bit spec (window stream rec_size i n) rec_size n

  flags_at-add :
      (bit : Option ℕ) (i a b : ℕ) (old : Option Bitset)
      → (i + (a + b)) * rec_size ≤ length stream
      → flags_at bit i (a + b) old ≡ (flags_at bit i a old >>= flags_at bit (i + a) b)
  flags_at-add bit i a b none enough = refl
  flags_at-add none i a b (some dst) enough = refl
  flags_at-add (some bit) i a b (some dst) enough =
      let first =
        extract_invalid_bits dst (window stream rec_size i a) rec_size a (spec.data_bytes + bit / 8)
          bit in
      ap (λ t. t >>= λ x. ok (some x))
        (extract_invalid_bits-add stream rec_size (spec.data_bytes + bit / 8) bit i a b dst enough)
      ∙ bind_assoc first _ _
      ∙ sym (bind_assoc first (λ x. ok (some x)) (flags_at (some bit) (i + a) b))

  -- What `extract` does to the records of a window, when the field fits.
  module _ {A : Type 0} (push : Column W → List A → Column W) (p : IsPush push) (k : ℕ)
      (get : Bytes → Outcome A) (l : IsLocal get k) (few : k ≤ span spec) (kind : Kind)
      (act : (c : Column W) (buf : Bytes) (rec_size n : ℕ)
        → c.kind ≡ kind
        → extract_samples w c spec buf rec_size n
          ≡ (samples get buf rec_size spec.byte_offset n 0 >>= λ xs. ok (push c xs)))
      (room : spec.byte_offset + span spec ≤ rec_size) where
    abbrev values : ℕ → ℕ → List A
    values i n = decoded l.value k stream rec_size spec.byte_offset n i

    extract-eq :
        (c : Column W) (i n : ℕ)
        → c.kind ≡ kind
        → (i + n) * rec_size ≤ length stream
        → extract w c spec (window stream rec_size i n) rec_size n ≡ (
            flags_at spec.inval_bit i n c.invalid >>= λ v.
            ok (record (push c (values i n)) { invalid = v }))
    unfolding extract refuse
    extract-eq c i n e enough =
        let buf = window stream rec_size i n in
        let size = length-window stream rec_size i n enough in
        let at =
          decoded-window l.value k stream rec_size spec.byte_offset i n n 0
            (omega (arith, room, few)) (omega arith) in
        let start : decoded l.value k buf rec_size spec.byte_offset n 0 ≡ values i n =
          at ∙ ap (decoded l.value k stream rec_size spec.byte_offset n) (omega arith) in
        let read =
          samples-eq-ok get k l buf rec_size spec.byte_offset n 0 (omega (arith, room, few))
            (omega (arith, size)) in
        rw
          (
            ge→ltb (length buf) (rec_size * n) (omega (arith, size, mul_comm rec_size n)),
            ge→ltb rec_size (spec.byte_offset + span spec) room,
            act c buf rec_size n e,
            read,
            start,
            p.invalid-push c (values i n),
          )
          refl

    invalid_set :
        (c : Column W) (v x : Option Bitset) (xs : List A)
        → flagged x (push (record c { invalid = v }) xs) ≡ flagged x (push c xs)
    invalid_set c v x xs = ap (flagged x) (p.push-invalid c v xs)

    joined :
        (c : Column W) (i a b : ℕ)
        → push c (values i (a + b)) ≡ push (push c (values i a)) (values (i + a) b)
    joined c i a b =
        ap (push c) (decoded-add l.value k stream rec_size spec.byte_offset a b i)
        ∙ sym (p.push-push c (values i a) (values (i + a) b))

    pieces :
        (c : Column W) (i a b : ℕ)
        → c.kind ≡ kind
        → (i + (a + b)) * rec_size ≤ length stream
        → extract w c spec (window stream rec_size i (a + b)) rec_size (a + b) ≡ (
            extract w c spec (window stream rec_size i a) rec_size a >>= λ c'.
            extract w c' spec (window stream rec_size (i + a) b) rec_size b)
    pieces c i a b e enough =
        let same = ap (λ t. t * rec_size) (assoc i a b) in
        let less = mul-le-mul_right {m = i + a} {n = i + (a + b)} rec_size (omega arith) in
        let first = extract-eq c i a e (omega (arith, enough, less)) in
        let mid : Option Bitset → Column W = λ v. record (push c (values i a)) { invalid = v } in
        extract-eq c i (a + b) e enough
        ∙ ap (λ t. t >>= λ v. ok (record (push c (values i (a + b))) { invalid = v }))
            (flags_at-add spec.inval_bit i a b c.invalid enough)
        ∙ bind_assoc (flags_at spec.inval_bit i a c.invalid) _ _
        ∙ bind-ap (flags_at spec.inval_bit i a c.invalid) _ _ (λ v.
          bind-ap (flags_at spec.inval_bit (i + a) b v) _ _ (λ x.
            ap (λ t. ok (flagged x t)) (joined c i a b)
            ∙ ap ok (sym (invalid_set (push c (values i a)) v x (values (i + a) b))))
          ∙ sym (
              extract-eq (mid v) (i + a) b (p.kind-push c (values i a) ∙ e)
                (omega (arith, enough, same))))
        ∙ sym (
            bind_assoc (flags_at spec.inval_bit i a c.invalid) (λ v. ok (mid v))
              (λ c'. extract w c' spec (window stream rec_size (i + a) b) rec_size b))
        ∙ ap (λ t. t >>= λ c'. extract w c' spec (window stream rec_size (i + a) b) rec_size b)
            (sym first)

  -- The records of two windows side by side, whatever the field: what is raised is raised by both.
  pub extract-add :
      (c : Column W) (i a b : ℕ)
      → (i + (a + b)) * rec_size ≤ length stream
      → extract w c spec (window stream rec_size i (a + b)) rec_size (a + b) ≡ (
          extract w c spec (window stream rec_size i a) rec_size a >>= λ c'.
          extract w c' spec (window stream rec_size (i + a) b) rec_size b)
  unfolding extract refuse
  extract-add c i a b enough =
      let same = ap (λ t. t * rec_size) (assoc i a b) in
      let less = mul-le-mul_right {m = i + a} {n = i + (a + b)} rec_size (omega arith) in
      let passes : (j n : ℕ)
          → (j + n) * rec_size ≤ length stream
          → ltb (length (window stream rec_size j n)) (rec_size * n) ≡ false =
        λ j n h.
          ge→ltb (length (window stream rec_size j n)) (rec_size * n)
            (omega (arith, length-window stream rec_size j n h, mul_comm rec_size n)) in
      let whole = passes i (a + b) enough in
      let first = passes i a (omega (arith, enough, less)) in
      elim (Bool-cases (ltb rec_size (spec.byte_offset + span spec))) [
        | inl e ↦ rw (whole, first, e) refl
        | inr e ↦ elim (samples-Effect w spec c.kind) [
          | Effect.raises er h ↦
              rw
                (
                  whole,
                  first,
                  e,
                  h c (window stream rec_size i (a + b)) rec_size (a + b) refl,
                  h c (window stream rec_size i a) rec_size a refl,
                )
                refl
          | Effect.pushes push k get l p few act ↦
              pieces push p k get l few c.kind act
                (ltb→ge rec_size (spec.byte_offset + span spec) e) c i a b refl enough
        ]
      ]
