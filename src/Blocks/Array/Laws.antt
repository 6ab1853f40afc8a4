-- ===== src/Blocks/Array/Laws.antt =====
-- When `DecodeCA` panics.
use go_mdf.Base.{
  ℕ, zero, suc, ◌+◌, ◌-◌, ◌*◌, ◌^◌, ◌≤◌, ◌<◌, ◌≡◌, refl, Bool, true, false, ◌&&◌, not, ◌⊎◌, inl,
  inr, Bool-cases, List, ltb, leb, ◌==◌, length, take, drop, Outcome, Error, ok, err, panic, ◌>>=◌,
  Post, returns, raises, Post-bind, Post-if, Post-map, arith, ltb→ge, leb→le, leb→gt, gt→leb, ==→eq,
  ==→ne,
}
use go_mdf.Base.Words.{Bytes, le_value, slice-ok, field-ok, word_at-ok}
use go_mdf.Blocks.Header.{add64, mul64, Raw, decode_raw}
use go_mdf.Blocks.Header.Laws.{refuse-Post, decode_raw-Post}
use go_mdf.Blocks.Lists.{has_flag}
use go_mdf.Blocks.Fields.{byte-Post, read_words-Post}
use go_mdf.Blocks.Array.{
  id_ca, read_dims, make_words, read_axes, read_counts, read_links_dg, decode_ca,
}

-- `r` panics only if `Q`.
data PanicsOnly {ℓ} {A : Type ℓ} (Q : Type 0) : Outcome A → Type ℓ where
  value : {a : A} → PanicsOnly Q (ok a)
  error : {e : Error} → PanicsOnly Q (err e)
  caused : Q → PanicsOnly Q panic

PanicsOnly-bind {ℓ κ} :
    {A : Type ℓ} {B : Type κ} {Q : Type 0} {P : A → Type 0} {r : Outcome A} {f : A → Outcome B}
    → Post P r
    → ((a : A) → P a → r ≡ ok a → PanicsOnly Q (f a))
    → PanicsOnly Q (r >>= f)
PanicsOnly-bind (returns h) k = k _ h refl
PanicsOnly-bind raises k = error

PanicsOnly-Post {ℓ} :
    {A : Type ℓ} {Q : Type 0} {P : A → Type 0} {r : Outcome A} → Post P r → PanicsOnly Q r
PanicsOnly-Post (returns h) = value
PanicsOnly-Post raises = error

PanicsOnly-any {ℓ} : {A : Type ℓ} {Q : Type 0} (r : Outcome A) → Q → PanicsOnly Q r
PanicsOnly-any (ok a) q = value
PanicsOnly-any (err e) q = error
PanicsOnly-any panic q = caused q

PanicsOnly-panic {ℓ} : {A : Type ℓ} {Q : Type 0} {r : Outcome A} → PanicsOnly Q r → r ≡ panic → Q
PanicsOnly-panic value e = cc
PanicsOnly-panic error e = cc
PanicsOnly-panic (caused q) e = q

read_dims-Post :
    (n pos sum prod : ℕ) (d : Bytes)
    → pos + 8 * n ≤ length d
    → sum < 2 ^ 64
    → prod < 2 ^ 64
    → Post (λ r. (r.1 < 2 ^ 64) × (r.2 < 2 ^ 64)) (read_dims n pos sum prod d)
unfolding read_dims
read_dims-Post zero pos sum prod d h hs hp = returns (hs, hp)
read_dims-Post (suc n) pos sum prod d h hs hp = rw (word_at-ok d pos (omega (arith, h))) (
    Post-bind
      (read_dims-Post n (pos + 8) (add64 sum _) (mul64 prod _) d (omega (arith, h)) (omega arith)
        (omega arith))
      λ r k. returns k)

-- The sum of the dimensions is too large for as many words, or negative; or their product is the
-- greatest word.
abbrev pub TooLarge : ℕ → ℕ → Type 0
TooLarge sum prod = (2 ^ 59 ≤ sum) ⊎ (prod ≡ 2 ^ 64 - 1)

module _ (d : Bytes) (small : length d < 2 ^ 62) where
  read_axes-Post :
      (flags sum pos : ℕ)
      → sum < 2 ^ 59
      → pos ≤ length d
      → Post (λ r. r.1 ≤ length d) (read_axes flags sum pos d)
  unfolding read_axes make_words
  read_axes-Post flags sum pos few at =
      Post-if
        (has_flag flags 32
          && not (ltb (add64 (length d) (2 ^ 63)) (add64 (add64 pos (mul64 8 sum)) (2 ^ 63))))
        (λ h.
          let room = fits (last _ _ h) in
          rw (gt→leb (2 ^ 63) (8 * sum) (omega (arith, few))) (
            Post-bind (read_words-Post sum pos d room)
              λ _ _. returns (omega (arith, room, few, small))))
        (λ _. returns at)
    where
      last : (a b : Bool) → (a && not b) ≡ true → b ≡ false
      last true false h = refl
      last true true h = cc
      last false b h = cc

      fits :
          ltb (add64 (length d) (2 ^ 63)) (add64 (add64 pos (mul64 8 sum)) (2 ^ 63)) ≡ false
          → pos + 8 * sum ≤ length d
      fits h = omega (
        arith,
        few,
        ltb→ge (add64 (length d) (2 ^ 63)) (add64 (add64 pos (mul64 8 sum)) (2 ^ 63)) h,
        small,
        at,
      )

  read_counts-Post :
      (storage prod pos : ℕ) → pos ≤ length d → Post (λ _. Unit) (read_counts storage prod pos d)
  unfolding read_counts
  read_counts-Post storage prod pos at =
      Post-if
        (not (storage == 0)
          && (leb prod (2 ^ 20)
              && not (ltb (add64 (length d) (2 ^ 63)) (add64 (add64 pos (8 * prod)) (2 ^ 63)))))
        (λ h. Post-map (read_words-Post prod pos d (fits (last _ _ _ h))) λ _ _. tt)
        (λ _. returns tt)
    where
      last : (a b c : Bool) → (a && (b && not c)) ≡ true → (b ≡ true) × (c ≡ false)
      last true true false h = (refl, refl)
      last true true true h = cc
      last true false c h = cc
      last false b c h = cc

      fits :
          (leb prod (2 ^ 20) ≡ true)
            × (ltb (add64 (length d) (2 ^ 63)) (add64 (add64 pos (8 * prod)) (2 ^ 63)) ≡ false)
          → pos + 8 * prod ≤ length d
      fits (h, k) = omega (
        arith,
        leb→le prod (2 ^ 20) h,
        ltb→ge (add64 (length d) (2 ^ 63)) (add64 (add64 pos (8 * prod)) (2 ^ 63)) k,
        small,
        at,
      )

read_links_dg-Post :
    (storage prod : ℕ) (links : List ℕ)
    → prod < 2 ^ 64 - 1
    → Post (λ _. Unit) (read_links_dg storage prod links)
unfolding read_links_dg
read_links_dg-Post storage prod links below =
    let n : add64 1 prod ≡ 1 + prod = omega (arith, below) in
    Post-if (storage == 2)
      (λ _. Post-bind (refuse-Post _ _) λ _ h.
        rw
          (
            n,
            slice-ok links 1 (1 + prod) (omega arith)
                (omega (arith, n, ltb→ge (length links) (add64 1 prod) h)),
          )
          (returns tt))
      (λ _. returns tt)

-- The block can be read, and its dimensions wrap.
pub record HasLargeDims (src : Bytes) (addr : ℕ) : Type 0 where
  block : Raw
  block_eq : decode_raw src addr id_ca 1 16 ≡ ok block
  dims : List ℕ × ℕ × ℕ
  dims_eq : read_dims (le_value (take 2 (drop 2 block.content))) 16 0 1 block.content ≡ ok dims
  large : TooLarge dims.1 dims.2

modest_or :
    (sum prod : ℕ) → prod < 2 ^ 64 → TooLarge sum prod ⊎ ((sum < 2 ^ 59) × (prod < 2 ^ 64 - 1))
modest_or sum prod h = elim (Bool-cases (leb (2 ^ 59) sum)) [
  | inl big ↦ inl (inl (leb→le (2 ^ 59) sum big))
  | inr few ↦ elim (Bool-cases (prod == 2 ^ 64 - 1)) [
    | inl greatest ↦ inl (inr (==→eq prod (2 ^ 64 - 1) greatest))
    | inr below ↦ inr (leb→gt (2 ^ 59) sum few, omega (arith, h, ==→ne prod (2 ^ 64 - 1) below))
  ]
]

module _ (src : Bytes) (small : length src < 2 ^ 62) (addr : ℕ) where
  decode_ca-PanicsOnly : PanicsOnly (HasLargeDims src addr) (decode_ca src addr)
  unfolding decode_ca
  decode_ca-PanicsOnly =
      PanicsOnly-bind (decode_raw-Post src (omega (arith, small)) addr id_ca 1 16) λ r v e.
        let d = v.enough_data in
        let short : length r.content < 2 ^ 62 = omega (arith, v.content_size, v.inside, small) in
        PanicsOnly-bind (byte-Post r.content 0 (omega (arith, d))) λ _ _ _.
          PanicsOnly-bind (byte-Post r.content 1 (omega (arith, d))) λ storage _ _.
            rw
              (
                field-ok r.content 2 2 (omega (arith, d)),
                field-ok r.content 4 4 (omega (arith, d)),
                field-ok r.content 8 4 (omega (arith, d)),
                field-ok r.content 12 4 (omega (arith, d)),
              )
              (PanicsOnly-bind (refuse-Post _ _) λ _ h _.
                let nd = le_value (take 2 (drop 2 r.content)) in
                let room : 16 + 8 * nd ≤ length r.content =
                  ltb→ge (length r.content) (16 + 8 * nd) h in
                PanicsOnly-bind
                  (read_dims-Post nd 16 0 1 r.content room (omega arith) (omega arith))
                  λ q k dims_eq. elim (modest_or q.1 q.2 k.1) [
                    | inl large ↦ PanicsOnly-any _ (record {
                      block = r;
                      block_eq = e;
                      dims = q;
                      dims_eq = dims_eq;
                      large = large;
                    })
                    | inr modest ↦
                        PanicsOnly-bind
                          (read_axes-Post r.content short _ q.1 (16 + 8 * nd) modest.0 room)
                          λ axes at _.
                            PanicsOnly-bind (read_counts-Post r.content short storage q.2 axes.1 at)
                              λ _ _ _.
                                PanicsOnly-bind (read_links_dg-Post storage q.2 r.links modest.1)
                                  λ _ _ _. value
                  ])

  -- `DecodeCA` panics only on a block whose dimensions have a sum of 2 ^ 59 or more (modulo 2 ^ 64)
  -- or a product of 2 ^ 64 - 1 (modulo 2 ^ 64).
  pub decode_ca-eq-panic : decode_ca src addr ≡ panic → HasLargeDims src addr
  decode_ca-eq-panic = PanicsOnly-panic decode_ca-PanicsOnly
