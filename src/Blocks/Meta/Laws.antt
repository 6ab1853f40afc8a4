-- ===== src/Blocks/Meta/Laws.antt =====
-- The metadata decoders on any bytes.
use go_mdf.Base.{
  ℕ, zero, suc, ◌+◌, ◌-◌, ◌*◌, ◌^◌, ◌≤◌, ◌<◌, ◌≡◌, refl, sym, ap, subst, ◌∙◌, if-true, if-false,
  if◌then◌else◌, Bool, true, false, ◌&&◌, Option, none, some, List, leb, ◌==◌, length, drop, Post,
  returns, Post-bind, Post-if, Post-map, arith, length-take, length-drop, ltb→ge, leb→le, ==→eq,
}
use go_mdf.Base.Words.{Bytes, index, slice, slice-ok, index-ok, field-ok, word_at}
use go_mdf.Blocks.Header.Laws.{refuse-Post, decode_raw-Post}
use go_mdf.Blocks.Lists.{has_flag}
use go_mdf.Blocks.Fields.{byte-Post, read_words-Post}
use go_mdf.Blocks.Meta.Channel.{
  Cn, attachments, read_default_x, decode_cn, Cc, read_refs, read_vals, decode_cc,
}
use go_mdf.Blocks.Meta.Tree.{read_elements}
use go_mdf.Blocks.Meta.Extra.{read_scope}

pub slice-Post {ℓ} :
    {A : Type ℓ} (xs : List A) (i j : ℕ)
    → i ≤ j
    → j ≤ length xs
    → Post (λ ys. length ys ≡ j - i) (slice xs i j)
slice-Post xs i j h k =
    rw (slice-ok xs i j h k)
      (returns (omega (arith, h, k, length-take (j - i) (drop i xs), length-drop i xs)))

element-Post : (xs : List ℕ) (i : ℕ) → suc i ≤ length xs → Post (λ _. Unit) (index xs i)
element-Post xs i h = rw (index-ok xs i h) (returns tt)

and_right : (a b : Bool) → (a && b) ≡ true → b ≡ true
and_right true b h = h
and_right false b h = cc

-- As many links as announced if they are all among the block's `total` links from `first` on, and
-- else none.
abbrev pub Counted : List ℕ → ℕ → ℕ → ℕ → Type 0
Counted xs first n total = length xs ≡ (if leb (first + n) total then n else 0)

pub attachments-Post :
    (first n : ℕ) (links : List ℕ)
    → Post (λ r. Counted r.0 first n (length links)) (attachments first n links)
unfolding attachments
attachments-Post first n links =
    Post-if (leb 1 n && leb (first + n) (length links))
      (λ h.
        let there = and_right (leb 1 n) (leb (first + n) (length links)) h in
        Post-bind
          (slice-Post links first (first + n) (omega arith)
            (leb→le (first + n) (length links) there))
          λ refs k.
            returns (omega (arith, k) ∙ sym (if-true (leb (first + n) (length links)) n 0 there)))
      (λ h. returns (ground (arith, h)))

read_default_x-Post :
    (flags next : ℕ) (links : List ℕ) → Post (λ xs. length xs ≡ 3) (read_default_x flags next links)
unfolding read_default_x
read_default_x-Post flags next links =
    Post-if (has_flag flags 4096 && leb (next + 3) (length links))
      (λ h.
        Post-map
          (slice-Post links next (next + 3) (omega arith) (
            leb→le (next + 3) (length links)
              (and_right (has_flag flags 4096) (leb (next + 3) (length links)) h)))
          λ refs k. omega (arith, k))
      (λ _. returns refl)

pub read_scope-Post :
    (n : ℕ) (links : List ℕ)
    → Post (λ r. Counted r.0 5 n (length links) × (r.1 ≡ 5 + length r.0)) (read_scope n links)
unfolding read_scope
read_scope-Post n links =
    Post-if (leb (5 + n) (length links))
      (λ h.
        Post-bind (slice-Post links 5 (5 + n) (omega arith) (leb→le (5 + n) (length links) h))
          λ refs k.
            returns (
              omega (arith, k) ∙ sym (if-true (leb (5 + n) (length links)) n 0 h),
              omega (arith, k),
            ))
      (λ h. returns (sym (if-false (leb (5 + n) (length links)) n 0 h), refl))

read_refs-Post : (n : ℕ) (links : List ℕ) → Post (λ xs. length xs ≡ n) (read_refs n links)
unfolding read_refs
read_refs-Post n links =
    Post-if (n == 0) (λ h. returns (sym (==→eq n 0 h)))
      λ _. Post-bind (refuse-Post _ _) λ _ k.
        Post-map (slice-Post links 4 (4 + n) (omega arith) (ltb→ge (length links) (4 + n) k))
          λ xs e. omega (arith, e)

read_vals-Post : (n : ℕ) (d : Bytes) → Post (λ xs. length xs ≡ n) (read_vals n d)
unfolding read_vals
read_vals-Post n d =
    Post-if (n == 0) (λ h. returns (sym (==→eq n 0 h)))
      λ _.
        Post-bind (refuse-Post _ _)
          λ _ k. read_words-Post n 24 d (omega (arith, ltb→ge (length d) (24 + 8 * n) k))

pub read_elements-Post :
    (n i : ℕ) (links : List ℕ)
    → 4 + 3 * (i + n) ≤ length links
    → Post (λ es. length es ≡ n) (read_elements n i links)
unfolding read_elements
read_elements-Post zero i links h = returns refl
read_elements-Post (suc n) i links h =
    Post-bind (element-Post links (4 + 3 * i) (omega (arith, h))) λ _ _.
      Post-bind (element-Post links (4 + 3 * i + 1) (omega (arith, h))) λ _ _.
        Post-bind (element-Post links (4 + 3 * i + 2) (omega (arith, h))) λ _ _.
          Post-bind (read_elements-Post n (i + 1) links (omega (arith, h)))
            λ es k. returns (ap suc k)

-- The announced attachments behind the eight fixed links, by the number of links in the header.
pub record IsCn (src : Bytes) (addr : ℕ) (b : Cn) : Type 0 where
  attachments_counted : Counted b.at_reference 8 b.attachment_count (word_at src (addr + 16))
  default_x_three : length b.default_x ≡ 3
  ranges_six : length b.ranges ≡ 6

-- No conversion, or one with the references and values that it announces.
pub data IsCc : Option Cc → Type 0 where
  no_conversion : IsCc none
  counted : {b : Cc} → length b.refs ≡ b.ref_count → length b.vals ≡ b.val_count → IsCc (some b)

module _ (src : Bytes) (small : length src < 2 ^ 63) (addr : ℕ) where
  pub decode_cn-Post : Post (IsCn src addr) (decode_cn src addr)
  unfolding decode_cn
  decode_cn-Post = Post-bind (decode_raw-Post src small addr _ 8 72) λ r v.
      let d = v.enough_data in
      Post-bind (byte-Post r.content 0 (omega (arith, d))) λ _ _.
        Post-bind (byte-Post r.content 1 (omega (arith, d))) λ _ _.
          Post-bind (byte-Post r.content 2 (omega (arith, d))) λ _ _.
            Post-bind (byte-Post r.content 3 (omega (arith, d))) λ _ _.
              rw
                (
                  field-ok r.content 4 4 (omega (arith, d)),
                  field-ok r.content 8 4 (omega (arith, d)),
                  field-ok r.content 12 4 (omega (arith, d)),
                  field-ok r.content 16 4 (omega (arith, d)),
                  field-ok r.content 22 2 (omega (arith, d)),
                )
                (Post-bind (byte-Post r.content 20 (omega (arith, d))) λ _ _.
                  Post-bind (read_words-Post 6 24 r.content (omega (arith, d))) λ ranges six.
                    Post-bind (attachments-Post 8 _ r.links) λ refs counted.
                      Post-bind (read_default_x-Post _ refs.1 r.links) λ xs three. returns (record {
                        attachments_counted =
                            subst (Counted refs.0 8 _) (v.links_count ∙ v.count_eq) counted;
                        default_x_three = three;
                        ranges_six = six;
                      }))

  pub decode_cc-Post : Post IsCc (decode_cc src addr)
  unfolding decode_cc
  decode_cc-Post =
      Post-if (addr == 0) (λ _. returns no_conversion)
        λ _. Post-bind (decode_raw-Post src small addr _ 4 24) λ r v.
          let d = v.enough_data in
          Post-bind (byte-Post r.content 0 (omega (arith, d))) λ _ _.
            Post-bind (byte-Post r.content 1 (omega (arith, d))) λ _ _.
              rw
                (
                  field-ok r.content 2 2 (omega (arith, d)),
                  field-ok r.content 4 2 (omega (arith, d)),
                  field-ok r.content 6 2 (omega (arith, d)),
                  field-ok r.content 8 8 (omega (arith, d)),
                  field-ok r.content 16 8 (omega (arith, d)),
                )
                (Post-bind (read_refs-Post _ r.links)
                  λ refs k. Post-bind (read_vals-Post _ r.content) λ vals m. returns (counted k m))
