-- ===== src/Records/Extract/Local.antt =====
-- Readers that look at the first bytes only, and the loop over records with one of them.
use native.Mathlib.Nat.{add-mul, mul-le-mul_right}
use go_mdf.Base.{
  ℕ, zero, suc, ◌+◌, ◌-◌, ◌*◌, ◌/◌, ◌≤◌, ◌≡◌, refl, sym, ap, ap₂, ◌∙◌, Bool, true, false,
  Bool-cases, inl, inr, List, [], ◌∷◌, ◌++◌, ◌==◌, ==→eq, if◌then◌else◌, length, take, drop, get_or,
  drop-drop, drop-take, take-take, length-drop, length-take, Outcome, ok, arith, ge→ltb,
}
use go_mdf.Base.Words.{
  Bytes, le_uint, be_uint, le_value, be_value, index, index-ok, slice-ok, slice_from-ok,
}
use go_mdf.Records.BitField.{bit_field, pure_field, bit_field-ok}
use go_mdf.Records.Column.{ColumnSpec}
use go_mdf.Records.Extract.{samples, int_get, mapped, head_of, ToFloat}

-- A reader that returns a function of its first `k` bytes.
pub record IsLocal {ℓ} {A : Type ℓ} (get : Bytes → Outcome A) (k : ℕ) : Type ℓ where
  pub value : Bytes → A
  pub reads : (p : Bytes) → k ≤ length p → get p ≡ ok (value (take k p))

module _ {ℓ} {A : Type ℓ} where
  -- The values of `n` records of a stream, from record `r` on.
  abbrev pub decoded : (Bytes → A) → ℕ → Bytes → ℕ → ℕ → ℕ → ℕ → List A
  decoded value k stream rec_size off zero r = []
  decoded value k stream rec_size off (suc n) r =
      value (take k (drop (r * rec_size + off) stream))
      ∷ decoded value k stream rec_size off n (suc r)

  pub decoded-add :
      (value : Bytes → A) (k : ℕ) (stream : Bytes) (rec_size off n m r : ℕ)
      → decoded value k stream rec_size off (n + m) r
        ≡ decoded value k stream rec_size off n r ++ decoded value k stream rec_size off m (r + n)
  decoded-add value k stream rec_size off zero m r =
      ap₂ (decoded value k stream rec_size off) (omega arith) (omega arith)
  decoded-add value k stream rec_size off (suc n) m r =
      let e : suc n + m ≡ suc (n + m) = omega arith in
      let g : suc r + n ≡ r + suc n = omega arith in
      ap (λ t. decoded value k stream rec_size off t r) e
      ∙ ap (λ t. value (take k (drop (r * rec_size + off) stream)) ∷ t)
          (decoded-add value k stream rec_size off n m (suc r)
            ∙ ap
                (λ t.
                  decoded value k stream rec_size off n (suc r)
                  ++ decoded value k stream rec_size off m t)
                g)

  pub samples-eq-ok :
      (get : Bytes → Outcome A) (k : ℕ) (l : IsLocal get k) (buf : Bytes) (rec_size off n r : ℕ)
      → off + k ≤ rec_size
      → (r + n) * rec_size ≤ length buf
      → samples get buf rec_size off n r ≡ ok (decoded l.value k buf rec_size off n r)
  unfolding samples
  samples-eq-ok get k l buf rec_size off zero r room enough = refl
  samples-eq-ok get k l buf rec_size off (suc n) r room enough =
      let within = mul-le-mul_right {m = suc r} {n = r + suc n} rec_size (omega arith) in
      let next : suc r * rec_size ≡ r * rec_size + rec_size = omega arith in
      let count : r + suc n ≡ suc r + n = omega arith in
      let at = slice_from-ok buf (r * rec_size + off) (omega (arith, within, next, room, enough)) in
      let one =
        l.reads (drop (r * rec_size + off) buf)
          (omega (arith, length-drop (r * rec_size + off) buf, within, next, room, enough)) in
      let rest =
        samples-eq-ok get k l buf rec_size off n (suc r) room
          (omega (arith, enough, ap (λ t. t * rec_size) count)) in
      rw (at, one, rest) refl

-- The records `i` to `i + n` of a stream.
abbrev pub window : Bytes → ℕ → ℕ → ℕ → Bytes
window stream rec_size i n = take (n * rec_size) (drop (i * rec_size) stream)

window-field :
    (stream : Bytes) (rec_size i total r off k : ℕ)
    → off + k ≤ rec_size
    → suc r ≤ total
    → take k (drop (r * rec_size + off) (window stream rec_size i total))
      ≡ take k (drop ((i + r) * rec_size + off) stream)
window-field stream rec_size i total r off k room h =
    let within = mul-le-mul_right {m = suc r} {n = total} rec_size h in
    let next : suc r * rec_size ≡ r * rec_size + rec_size = omega arith in
    let x = r * rec_size + off in
    let place : i * rec_size + x ≡ (i + r) * rec_size + off = omega (arith, add-mul i r rec_size) in
    ap (take k) (drop-take x (total * rec_size) (drop (i * rec_size) stream))
    ∙ take-take k (total * rec_size - x) (drop x (drop (i * rec_size) stream))
        (omega (arith, within, next, room))
    ∙ ap (take k) (drop-drop (i * rec_size) x stream)
    ∙ ap (λ t. take k (drop t stream)) place

pub decoded-window {ℓ} :
    {A : Type ℓ} (value : Bytes → A) (k : ℕ) (stream : Bytes) (rec_size off i n total r : ℕ)
    → off + k ≤ rec_size
    → r + n ≤ total
    → decoded value k (window stream rec_size i total) rec_size off n r
      ≡ decoded value k stream rec_size off n (i + r)
decoded-window value k stream rec_size off i zero total r room h = refl
decoded-window value k stream rec_size off i (suc n) total r room h =
    let e : i + suc r ≡ suc (i + r) = omega arith in
    ap₂ (λ x xs. value x ∷ xs)
      (window-field stream rec_size i total r off k room (omega (arith, h)))
      (decoded-window value k stream rec_size off i n total (suc r) room (omega (arith, h))
        ∙ ap (decoded value k stream rec_size off n) e)

pub length-window :
    (stream : Bytes) (rec_size i n : ℕ)
    → (i + n) * rec_size ≤ length stream
    → length (window stream rec_size i n) ≡ n * rec_size
length-window stream rec_size i n h = omega (
  arith,
  h,
  add-mul i n rec_size,
  length-take (n * rec_size) (drop (i * rec_size) stream),
  length-drop (i * rec_size) stream,
)

-- The readers of samples.
le_uint-IsLocal : (n : ℕ) → IsLocal (le_uint n) n
unfolding le_uint
le_uint-IsLocal n = record { value = le_value; reads = λ p h. rw (ge→ltb (length p) n h) refl }

be_uint-IsLocal : (n : ℕ) → IsLocal (be_uint n) n
unfolding be_uint
be_uint-IsLocal n = record { value = be_value; reads = λ p h. rw (ge→ltb (length p) n h) refl }

pub uint-IsLocal : (n : ℕ) (big_e : Bool) → IsLocal (if big_e then be_uint n else le_uint n) n
uint-IsLocal n true = be_uint-IsLocal n
uint-IsLocal n false = le_uint-IsLocal n

get_or-take_one : (p : Bytes) → get_or (take 1 p) 0 0 ≡ get_or p 0 0
get_or-take_one [] = refl
get_or-take_one (b ∷ p) = refl

byte-IsLocal : IsLocal (λ p. index p 0) 1
byte-IsLocal = record {
  value = λ q. get_or q 0 0;
  reads = λ p h. index-ok p 0 h ∙ ap ok (sym (get_or-take_one p));
}

pub mapped-IsLocal {ℓ κ} :
    {W : Type ℓ} {A : Type κ} (w : ToFloat W) (get : Bytes → Outcome ℕ) (k : ℕ) (g : ℕ → A)
    → IsLocal get k
    → IsLocal (mapped w get g) k
mapped-IsLocal w get k g l = record {
  value = λ q. g (l.value q);
  reads = λ p h. rw (l.reads p h) refl;
}

pub head_of-IsLocal {ℓ κ} :
    {W : Type ℓ} {A : Type κ} (w : ToFloat W) (k : ℕ) (g : Bytes → A) → IsLocal (head_of w k g) k
head_of-IsLocal w k g = record {
  value = g;
  reads = λ p h.
      (let whole : k - 0 ≡ k = omega arith in rw (slice-ok p 0 k (omega arith) h, whole) refl);
}

-- The bytes that a channel takes of its record.
abbrev pub span : ColumnSpec → ℕ
span spec = (spec.bit_offset + spec.bit_count + 7) / 8

-- The reader that is picked looks at those bytes only.
pub data Picks (get : Bytes → Outcome ℕ) (most : ℕ) : Type 0 where
  picks : (k : ℕ) → k ≤ most → IsLocal get k → Picks get most

generic-Picks :
    (spec : ColumnSpec) (big_e : Bool)
    → Picks (λ p. bit_field p spec.bit_offset spec.bit_count big_e) (span spec)
generic-Picks spec big_e = picks (span spec) (omega arith) (record {
  value = pure_field spec.bit_offset spec.bit_count big_e;
  reads = λ p h. bit_field-ok p spec.bit_offset spec.bit_count big_e h;
})

pub int_get-Picks :
    (spec : ColumnSpec) (aligned big_e : Bool) → Picks (int_get spec aligned big_e) (span spec)
unfolding int_get
int_get-Picks spec false big_e = generic-Picks spec big_e
int_get-Picks spec true big_e = elim (Bool-cases (spec.bit_count == 8)) [
  | inl e ↦ rw e (picks 1 (omega (arith, ==→eq spec.bit_count 8 e)) byte-IsLocal)
  | inr e8 ↦ elim (Bool-cases (spec.bit_count == 16)) [
    | inl e ↦ rw (e8, e) (picks 2 (omega (arith, ==→eq spec.bit_count 16 e)) (uint-IsLocal 2 big_e))
    | inr e16 ↦ elim (Bool-cases (spec.bit_count == 32)) [
      | inl e ↦
          rw (e8, e16, e)
            (picks 4 (omega (arith, ==→eq spec.bit_count 32 e)) (uint-IsLocal 4 big_e))
      | inr e32 ↦ elim (Bool-cases (spec.bit_count == 64)) [
        | inl e ↦
            rw (e8, e16, e32, e)
              (picks 8 (omega (arith, ==→eq spec.bit_count 64 e)) (uint-IsLocal 8 big_e))
        | inr e64 ↦ rw (e8, e16, e32, e64) (generic-Picks spec big_e)
      ]
    ]
  ]
]
