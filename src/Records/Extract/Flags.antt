-- ===== src/Records/Extract/Flags.antt =====
-- The loop over invalidation bits, for the records of two windows side by side.
use native.Mathlib.Nat.{add-mul, mul-le-mul_right}
use go_mdf.Base.{
  ℕ, zero, suc, ◌+◌, ◌*◌, ◌%◌, ◌^◌, ◌≤◌, ◌<◌, ◌≡◌, refl, sym, ap, ap₂, ◌∙◌, Bool-cases, inl, inr,
  leb, leb→gt, length, drop, get_or, get_or-take, get_or-drop, bind_assoc, bind-ap, ok, ◌>>=◌,
  arith,
}
use go_mdf.Base.Words.{Bytes, index, index-ok}
use go_mdf.Records.Bitset.{Bitset, append}
use go_mdf.Records.Extract.{flag_loop, extract_invalid_bits}
use go_mdf.Records.Extract.Local.{window, length-window}

module _ (stream : Bytes) (rec_size byte_idx : ℕ) (inside : byte_idx < rec_size) where
  index-window :
      (i total r : ℕ)
      → suc r ≤ total
      → (i + total) * rec_size ≤ length stream
      → index (window stream rec_size i total) (r * rec_size + byte_idx)
        ≡ index stream ((i + r) * rec_size + byte_idx)
  index-window i total r h enough =
      let x = r * rec_size + byte_idx in
      let within = mul-le-mul_right {m = suc r} {n = total} rec_size h in
      let next : suc r * rec_size ≡ r * rec_size + rec_size = omega arith in
      let size = length-window stream rec_size i total enough in
      let whole = add-mul i total rec_size in
      let place : i * rec_size + x ≡ (i + r) * rec_size + byte_idx =
        omega (arith, add-mul i r rec_size) in
      index-ok (window stream rec_size i total) x (omega (arith, inside, within, next, size))
      ∙ ap ok (
          get_or-take (total * rec_size) (drop (i * rec_size) stream) x 0
            (omega (arith, inside, within, next))
          ∙ get_or-drop (i * rec_size) stream x 0
          ∙ ap (λ t. get_or stream t 0) place)
      ∙ sym (
          index-ok stream ((i + r) * rec_size + byte_idx)
            (omega (arith, inside, within, next, enough, whole, place)))

  flag_loop-window :
      (mask i total n r : ℕ) (dst : Bitset)
      → r + n ≤ total
      → (i + total) * rec_size ≤ length stream
      → flag_loop (window stream rec_size i total) rec_size byte_idx mask n r dst
        ≡ flag_loop stream rec_size byte_idx mask n (i + r) dst
  unfolding flag_loop
  flag_loop-window mask i total zero r dst h enough = refl
  flag_loop-window mask i total (suc n) r dst h enough =
      let e : i + suc r ≡ suc (i + r) = omega arith in
      rw (index-window i total r (omega (arith, h)) enough) (
        bind-ap (index stream ((i + r) * rec_size + byte_idx)) _ _ λ b.
          bind-ap (append dst _) _ _ λ d.
            flag_loop-window mask i total n (suc r) d (omega (arith, h)) enough
            ∙ ap (λ t. flag_loop stream rec_size byte_idx mask n t d) e)

  flag_loop-add :
      (mask n m r : ℕ) (dst : Bitset)
      → flag_loop stream rec_size byte_idx mask (n + m) r dst ≡ (
          flag_loop stream rec_size byte_idx mask n r dst >>= λ d.
          flag_loop stream rec_size byte_idx mask m (r + n) d)
  unfolding flag_loop
  flag_loop-add mask zero m r dst =
      ap₂ (λ a b. flag_loop stream rec_size byte_idx mask a b dst) (omega arith) (omega arith)
  flag_loop-add mask (suc n) m r dst =
      let e : suc n + m ≡ suc (n + m) = omega arith in
      let g : suc r + n ≡ r + suc n = omega arith in
      let later = λ (d : Bitset). flag_loop stream rec_size byte_idx mask m (r + suc n) d in
      ap (λ t. flag_loop stream rec_size byte_idx mask t r dst) e
      ∙ bind-ap (index stream (r * rec_size + byte_idx)) _ _ (λ b.
        bind-ap (append dst _) _ _ (λ d.
          flag_loop-add mask n m (suc r) d
          ∙ bind-ap (flag_loop stream rec_size byte_idx mask n (suc r) d) _ _
              (λ x. ap (λ t. flag_loop stream rec_size byte_idx mask m t x) g))
        ∙ sym (bind_assoc (append dst _) _ later))
      ∙ sym (bind_assoc (index stream (r * rec_size + byte_idx)) _ later)

  flag_loop-pieces :
      (mask i a b : ℕ) (dst : Bitset)
      → (i + (a + b)) * rec_size ≤ length stream
      → flag_loop (window stream rec_size i (a + b)) rec_size byte_idx mask (a + b) 0 dst ≡ (
          flag_loop (window stream rec_size i a) rec_size byte_idx mask a 0 dst >>= λ d.
          flag_loop (window stream rec_size (i + a) b) rec_size byte_idx mask b 0 d)
  flag_loop-pieces mask i a b dst enough =
      let e : i + (a + b) ≡ i + a + b = omega arith in
      let same = ap (λ t. t * rec_size) e in
      let less = mul-le-mul_right {m = i + a} {n = i + (a + b)} rec_size (omega arith) in
      let first = flag_loop-window mask i a a 0 dst (omega arith) (omega (arith, enough, less)) in
      flag_loop-window mask i (a + b) (a + b) 0 dst (omega arith) enough
      ∙ flag_loop-add mask a b (i + 0) dst
      ∙ ap (λ t. t >>= λ d. flag_loop stream rec_size byte_idx mask b (i + 0 + a) d) (sym first)
      ∙ bind-ap (flag_loop (window stream rec_size i a) rec_size byte_idx mask a 0 dst) _ _ (λ d.
        ap (λ t. flag_loop stream rec_size byte_idx mask b t d) (omega arith)
        ∙ sym (flag_loop-window mask (i + a) b b 0 d (omega arith) (omega (arith, enough, same))))

pub extract_invalid_bits-add :
    (stream : Bytes) (rec_size byte_idx bit i a b : ℕ) (dst : Bitset)
    → (i + (a + b)) * rec_size ≤ length stream
    → extract_invalid_bits dst (window stream rec_size i (a + b)) rec_size (a + b) byte_idx bit ≡ (
        extract_invalid_bits dst (window stream rec_size i a) rec_size a byte_idx bit >>= λ d.
        extract_invalid_bits d (window stream rec_size (i + a) b) rec_size b byte_idx bit)
unfolding extract_invalid_bits
extract_invalid_bits-add stream rec_size byte_idx bit i a b dst enough =
    elim (Bool-cases (leb rec_size byte_idx)) [
      | inl e ↦ rw e refl
      | inr e ↦ rw e (
          flag_loop-pieces stream rec_size byte_idx (leb→gt rec_size byte_idx e) (2 ^ (bit % 8)) i a
            b dst enough)
    ]
