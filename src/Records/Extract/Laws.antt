-- ===== src/Records/Extract/Laws.antt =====
-- Extracting the records of a stream in pieces is extracting them at once.
use go_mdf.Base.{
  ℕ, ◌/◌, ◌%◌, ◌≤◌, ◌≡◌, refl, ap, ◌∙◌, true, false, ◌||◌, ◌&&◌, ◌==◌, ==→eq, Bool-cases, inl, inr,
  Option, List, ◌++◌, append_assoc, leb, if-true, if-false, Outcome, Error, ok, err, ◌>>=◌, arith,
  unsupported,
}
use go_mdf.Base.Words.{Bytes}
use go_mdf.Records.Column.{Kind, ColumnSpec, Column}
use go_mdf.Records.Bitset.{Bitset}
use go_mdf.Records.Strings.{decode_string}
use go_mdf.Records.Extract.{
  ToFloat, samples, push_f, push_i, push_u, push_s, push_b, is_floats, int_get, signed_sample,
  mapped, half_bits, extract_samples,
}
use go_mdf.Records.Extract.Local.{
  IsLocal, mapped-IsLocal, head_of-IsLocal, uint-IsLocal, span, picks, int_get-Picks,
}

-- A way to append samples to a column.
pub record IsPush {W : Type 0} {A : Type 0} (push : Column W → List A → Column W) : Type 0 where
  pub push-push : (c : Column W) (xs ys : List A) → push (push c xs) ys ≡ push c (xs ++ ys)
  pub kind-push : (c : Column W) (xs : List A) → (push c xs).kind ≡ c.kind
  pub invalid-push : (c : Column W) (xs : List A) → (push c xs).invalid ≡ c.invalid
  pub push-invalid :
      (c : Column W) (v : Option Bitset) (xs : List A)
      → push (record c { invalid = v }) xs ≡ record (push c xs) { invalid = v }

module _ {W : Type 0} (w : ToFloat W) (spec : ColumnSpec) (kind : Kind) where
  -- What `extract_samples` does to a column of a kind: nothing but an error, or it appends the
  -- samples of the records.
  pub data Effect : Type 1 where
    raises :
        (e : Error)
        → ((c : Column W) (buf : Bytes) (rec_size n : ℕ)
            → c.kind ≡ kind
            → extract_samples w c spec buf rec_size n ≡ err e)
        → Effect
    pushes :
        {A : Type 0} (push : Column W → List A → Column W) (k : ℕ) (get : Bytes → Outcome A)
        (l : IsLocal get k)
        → IsPush push
        → k ≤ span spec
        → ((c : Column W) (buf : Bytes) (rec_size n : ℕ)
            → c.kind ≡ kind
            → extract_samples w c spec buf rec_size n
              ≡ (samples get buf rec_size spec.byte_offset n 0 >>= λ xs. ok (push c xs)))
        → Effect

push_f-IsPush : {W : Type 0} → IsPush (push_f {W = W})
push_f-IsPush = record {
  push-push = λ c xs ys. ap (λ t. record c { f = t }) (append_assoc c.f xs ys);
  kind-push = λ c xs. refl;
  invalid-push = λ c xs. refl;
  push-invalid = λ c v xs. refl;
}

push_i-IsPush : {W : Type 0} → IsPush (push_i {W = W})
push_i-IsPush = record {
  push-push = λ c xs ys. ap (λ t. record c { i = t }) (append_assoc c.i xs ys);
  kind-push = λ c xs. refl;
  invalid-push = λ c xs. refl;
  push-invalid = λ c v xs. refl;
}

push_u-IsPush : {W : Type 0} → IsPush (push_u {W = W})
push_u-IsPush = record {
  push-push = λ c xs ys. ap (λ t. record c { u = t }) (append_assoc c.u xs ys);
  kind-push = λ c xs. refl;
  invalid-push = λ c xs. refl;
  push-invalid = λ c v xs. refl;
}

push_s-IsPush : {W : Type 0} → IsPush (push_s {W = W})
push_s-IsPush = record {
  push-push = λ c xs ys. ap (λ t. record c { s = t }) (append_assoc c.s xs ys);
  kind-push = λ c xs. refl;
  invalid-push = λ c xs. refl;
  push-invalid = λ c v xs. refl;
}

push_b-IsPush : {W : Type 0} → IsPush (push_b {W = W})
push_b-IsPush = record {
  push-push = λ c xs ys. ap (λ t. record c { b = t }) (append_assoc c.b xs ys);
  kind-push = λ c xs. refl;
  invalid-push = λ c xs. refl;
  push-invalid = λ c v xs. refl;
}

module _ {W : Type 0} (w : ToFloat W) (spec : ColumnSpec) (kind : Kind) where
  ints-Effect : leb spec.data_type 3 ≡ true → Effect w spec kind
  unfolding extract_samples
  ints-Effect t =
      let aligned = spec.bit_offset == 0 && spec.bit_count % 8 == 0 in
      let get = int_get spec aligned (spec.data_type == 1 || spec.data_type == 3) in
      elim (int_get-Picks spec aligned (spec.data_type == 1 || spec.data_type == 3)) [
        | picks k h l ↦ elim (Bool-cases (spec.data_type == 2 || spec.data_type == 3)) [
          | inl s ↦ elim (Bool-cases (is_floats kind)) [
            | inl f ↦
                Effect.pushes push_f k (mapped w get λ v. w.of_int (signed_sample spec.bit_count v))
                  (mapped-IsLocal w get k _ l) push_f-IsPush h
                  (λ c buf rec_size n e.
                    rw (t, s) (if-true (is_floats c.kind) _ _ (ap is_floats e ∙ f)))
            | inr f ↦
                Effect.pushes push_i k (mapped w get (signed_sample spec.bit_count))
                  (mapped-IsLocal w get k _ l) push_i-IsPush h
                  (λ c buf rec_size n e.
                    rw (t, s) (if-false (is_floats c.kind) _ _ (ap is_floats e ∙ f)))
          ]
          | inr s ↦ elim (Bool-cases (is_floats kind)) [
            | inl f ↦
                Effect.pushes push_f k (mapped w get w.of_uint) (mapped-IsLocal w get k _ l)
                  push_f-IsPush h
                  (λ c buf rec_size n e.
                    rw (t, s) (if-true (is_floats c.kind) _ _ (ap is_floats e ∙ f)))
            | inr f ↦ Effect.pushes push_u k get l push_u-IsPush h (λ c buf rec_size n e.
                rw (t, s) (if-false (is_floats c.kind) _ _ (ap is_floats e ∙ f)))
          ]
        ]
      ]

  floats-Effect : leb spec.data_type 3 ≡ false → leb spec.data_type 5 ≡ true → Effect w spec kind
  unfolding extract_samples
  floats-Effect t u =
      let big_e = spec.data_type == 5 in
      elim (Bool-cases (spec.bit_offset == 0 && spec.bit_count % 8 == 0)) [
        | inr a ↦ Effect.raises unsupported (λ c buf rec_size n e. rw (t, u, a) refl)
        | inl a ↦ elim (Bool-cases (spec.bit_count == 64)) [
          | inl b ↦
              Effect.pushes push_f 8 _ (mapped-IsLocal w _ 8 w.of_bits (uint-IsLocal 8 big_e))
                push_f-IsPush (omega (arith, ==→eq spec.bit_count 64 b))
                (λ c buf rec_size n e. rw (t, u, a, b) refl)
          | inr b ↦ elim (Bool-cases (spec.bit_count == 32)) [
            | inl d ↦
                Effect.pushes push_f 4 _ (mapped-IsLocal w _ 4 w.of_bits32 (uint-IsLocal 4 big_e))
                  push_f-IsPush (omega (arith, ==→eq spec.bit_count 32 d))
                  (λ c buf rec_size n e. rw (t, u, a, b, d) refl)
            | inr d ↦ elim (Bool-cases (spec.bit_count == 16)) [
              | inl g ↦
                  Effect.pushes push_f 2 _
                    (mapped-IsLocal w _ 2 (λ h. w.of_bits (half_bits h)) (uint-IsLocal 2 big_e))
                    push_f-IsPush (omega (arith, ==→eq spec.bit_count 16 g))
                    (λ c buf rec_size n e. rw (t, u, a, b, d, g) refl)
              | inr g ↦ Effect.raises unsupported (λ c buf rec_size n e. rw (t, u, a, b, d, g) refl)
            ]
          ]
        ]
      ]

  strings-Effect : leb spec.data_type 3 ≡ false → leb spec.data_type 5 ≡ false → Effect w spec kind
  unfolding extract_samples
  strings-Effect t u = elim (Bool-cases (leb spec.data_type 9)) [
    | inl v ↦ elim (Bool-cases (spec.bit_offset == 0 && spec.bit_count % 8 == 0)) [
      | inl a ↦
          Effect.pushes push_s (spec.bit_count / 8) _
            (head_of-IsLocal w (spec.bit_count / 8) λ q. decode_string q spec.data_type)
            push_s-IsPush (omega arith) (λ c buf rec_size n e. rw (t, u, v, a) refl)
      | inr a ↦ Effect.raises unsupported (λ c buf rec_size n e. rw (t, u, v, a) refl)
    ]
    | inr v ↦ elim (Bool-cases (leb spec.data_type 14)) [
      | inl b ↦
          Effect.pushes push_b (spec.bit_count / 8) _
            (head_of-IsLocal w (spec.bit_count / 8) λ q. q) push_b-IsPush (omega arith)
            (λ c buf rec_size n e. rw (t, u, v, b) refl)
      | inr b ↦ Effect.raises unsupported (λ c buf rec_size n e. rw (t, u, v, b) refl)
    ]
  ]

  pub samples-Effect : Effect w spec kind
  samples-Effect = elim (Bool-cases (leb spec.data_type 3)) [
    | inl t ↦ ints-Effect t
    | inr t ↦ elim (Bool-cases (leb spec.data_type 5)) [
      | inl u ↦ floats-Effect t u
      | inr u ↦ strings-Effect t u
    ]
  ]
