-- ===== src/Blocks/Header/Laws.antt =====
-- What a decoded header and a decoded block guarantee, on any bytes.
use go_mdf.Base.{
  eq→==, [], false, true, ℕ, zero, suc, ◌+◌, ◌-◌, ◌*◌, ◌/◌, ◌^◌, ◌≤◌, ◌<◌, ◌≡◌, refl, ap, ap₂, ◌∙◌,
  Bool, ◌||◌, List, ◌∷◌, ltb, length, get_or, Error, take, drop, arith, length-take, length-drop,
  Post, returns, raises, Post-bind, ltb→ge, drop-drop, drop-take, take-take,
}
use go_mdf.Base.Words.{
  Bytes, le_value, word_at, word_at-ok, word_at-slice, slice-ok, slice_from-ok, index-ok,
}
use go_mdf.Source.{IsSlice, slice_at-IsSlice}
use go_mdf.Blocks.Header.{
  same_bytes, add64, sub64, mul64, Header, data_len, refuse, decode_header, Raw, read_links,
  decode_raw,
}

pub same_bytes_refl : (xs : Bytes) → same_bytes xs xs ≡ true
unfolding same_bytes
same_bytes_refl [] = refl
same_bytes_refl (x ∷ xs) = rw (eq→== x x refl) (same_bytes_refl xs)

pub same_bytes-nil : (x : ℕ) (xs : Bytes) → same_bytes (x ∷ xs) [] ≡ false
unfolding same_bytes
same_bytes-nil x xs = refl

pub refuse-Post : (b : Bool) (e : Error) → Post (λ _. b ≡ false) (refuse b e)
unfolding refuse
refuse-Post true e = raises
refuse-Post false e = returns refl

-- What holds of a header that `DecodeHeader` accepts. Its length may still be less than a header.
pub record IsHeader (src : Bytes) (addr : ℕ) (h : Header) : Type 0 where
  pub at : addr + 24 ≤ length src
  pub id_eq : h.id ≡ take 4 (drop addr src)
  pub len_eq : h.len ≡ word_at src (addr + 8)
  pub count_eq : h.link_count ≡ word_at src (addr + 16)
  pub least_fits : add64 24 (mul64 h.link_count 8) ≤ h.len
  pub count_fits : h.link_count ≤ sub64 h.len 24 / 8
  pub in_file : addr + h.len ≤ length src

word_at-take :
    (src : Bytes) (addr i n : ℕ)
    → i + 8 ≤ n
    → word_at (take n (drop addr src)) i ≡ word_at src (addr + i)
unfolding word_at
word_at-take src addr i n h =
    ap (λ t. le_value (take 8 t))
      (drop-take i n (drop addr src) ∙ ap (take (n - i)) (drop-drop addr i src))
    ∙ ap le_value (take-take 8 (n - i) (drop (addr + i) src) (omega arith))

word_at-cut :
    (src : Bytes) (addr i : ℕ) {buf : Bytes}
    → i + 8 ≤ 24
    → buf ≡ take 24 (drop addr src)
    → word_at buf i ≡ word_at src (addr + i)
word_at-cut src addr i h e = ap (λ t. word_at t i) e ∙ word_at-take src addr i 24 h

or-false : (a b : Bool) → (a || b) ≡ false → (a ≡ false) × (b ≡ false)
or-false true b h = cc
or-false false b h = (refl, h)

module _ (src : Bytes) (small : length src < 2 ^ 63) (addr : ℕ) where
  pub decode_header-Post : (want : Bytes) → Post (IsHeader src addr) (decode_header src addr want)
  unfolding decode_header
  decode_header-Post want = Post-bind (slice_at-IsSlice src addr 24) λ buf s.
      let size = s.size in
      let four : length (take 4 buf) ≡ 4 = omega (arith, length-take 4 buf, size) in
      rw
        (
          slice-ok buf 0 4 (omega arith) (omega arith),
          word_at-slice buf 8 (omega arith),
          word_at-slice buf 16 (omega arith),
          index-ok (take 4 buf) 0 (omega arith),
          index-ok (take 4 buf) 1 (omega arith),
        )
        (Post-bind (refuse-Post _ _) λ _ _. Post-bind (refuse-Post _ _) λ _ _.
          Post-bind (refuse-Post _ _) λ _ links. Post-bind (refuse-Post _ _) λ _ whole.
            returns (record {
              at = s.inside;
              id_eq = ap (take 4) s.content ∙ take-take 4 24 (drop addr src) (omega arith);
              len_eq = word_at-cut src addr 8 (omega arith) s.content;
              count_eq = word_at-cut src addr 16 (omega arith) s.content;
              least_fits = ltb→ge _ _ (or-false _ _ links).0;
              count_fits = ltb→ge _ _ (or-false _ _ links).1;
              in_file = in_file s.inside (ltb→ge _ _ whole);
            }))
    where
      in_file :
          {len : ℕ}
          → addr + 24 ≤ length src
          → len ≤ sub64 (length src) addr
          → addr + len ≤ length src
      in_file h k = omega arith

-- The words from `i` on, `n` of them.
record IsLinks (body : Bytes) (i n : ℕ) (ws : List ℕ) : Type 0 where
  count : length ws ≡ n
  words : (j : ℕ) → j < n → get_or ws j 0 ≡ word_at body ((i + j) * 8)

cons-IsLinks :
    (body : Bytes) (i n : ℕ) {ws : List ℕ}
    → IsLinks body (i + 1) n ws
    → IsLinks body i (suc n) (word_at body (i * 8) ∷ ws)
cons-IsLinks body i n {ws} h = record { count = ap suc h.count; words = all }
  where
    all : (j : ℕ) → j < suc n → get_or (word_at body (i * 8) ∷ ws) j 0 ≡ word_at body ((i + j) * 8)
    all zero k = let e : i * 8 ≡ (i + 0) * 8 = omega arith in ap (word_at body) e
    all (suc j) k =
        let e : (i + 1 + j) * 8 ≡ (i + suc j) * 8 = omega arith in
        h.words j (omega arith) ∙ ap (word_at body) e

read_links-Post :
    (n i : ℕ) (body : Bytes)
    → (i + n) * 8 ≤ length body
    → Post (IsLinks body i n) (read_links n i body)
unfolding read_links
read_links-Post zero i body h =
    returns (record { count = refl; words = λ j k. absurd (omega arith) })
read_links-Post (suc n) i body h = rw (word_at-ok body (i * 8) (omega arith)) (
    Post-bind (read_links-Post n (i + 1) body (omega arith))
      λ ws k. returns (cons-IsLinks body i n k))

-- What `decodeRaw` guarantees of a block that it returns.
pub record IsBlock (src : Bytes) (addr min_links min_data : ℕ) (r : Raw) : Type 0 where
  pub id_eq : r.header.id ≡ take 4 (drop addr src)
  pub inside : addr + r.header.len ≤ length src
  pub fits : 24 + 8 * r.header.link_count ≤ r.header.len
  pub count_eq : r.header.link_count ≡ word_at src (addr + 16)
  pub links_count : length r.links ≡ r.header.link_count
  pub enough_links : min_links ≤ length r.links
  pub links_eq : (j : ℕ) → j < length r.links → get_or r.links j 0 ≡ word_at src (addr + 24 + 8 * j)
  pub content_eq :
      r.content
      ≡ take
          (r.header.len - 24 - 8 * r.header.link_count)
          (drop (addr + 24 + 8 * r.header.link_count) src)
  pub content_size : length r.content + 24 + 8 * r.header.link_count ≡ r.header.len
  pub enough_data : min_data ≤ length r.content

-- The facts that the successful checks of `decodeRaw` give.
module _ (src : Bytes) (small : length src < 2 ^ 63) (addr : ℕ) {h : Header}
    (v : IsHeader src addr h) {body : Bytes}
    (s : IsSlice src (add64 addr 24) (sub64 h.len 24) body) where
  longer : 24 ≤ h.len
  longer = omega (arith, small, v.in_file, v.at, s.inside)

  start : add64 addr 24 ≡ addr + 24
  start = omega (arith, small, v.at)

  body_size : sub64 h.len 24 ≡ h.len - 24
  body_size = omega (arith, small, v.in_file, longer)

  links_fit : 24 + 8 * h.link_count ≤ h.len
  links_fit = omega (arith, v.count_fits, body_size, longer)

  links_size : mul64 h.link_count 8 ≡ 8 * h.link_count
  links_size = omega (arith, links_fit, small, v.in_file)

  body_eq : body ≡ take (h.len - 24) (drop (addr + 24) src)
  body_eq = s.content ∙ ap₂ (λ a n. take n (drop a src)) start body_size

  module _ {ws : List ℕ} (l : IsLinks body 0 h.link_count ws) (min_links min_data : ℕ)
      (few : ltb h.link_count min_links ≡ false) (short : ltb (data_len h) min_data ≡ false) where
    link_eq : (j : ℕ) → j < length ws → get_or ws j 0 ≡ word_at src (addr + 24 + 8 * j)
    link_eq j k =
        let e : (0 + j) * 8 ≡ 8 * j = omega arith in
        l.words j (omega (arith, k, l.count))
        ∙ ap₂ word_at body_eq e
        ∙ word_at-take src (addr + 24) (8 * j) (h.len - 24) (omega (arith, k, l.count, links_fit))

    rest_eq :
        drop (mul64 h.link_count 8) body
        ≡ take (h.len - 24 - 8 * h.link_count) (drop (addr + 24 + 8 * h.link_count) src)
    rest_eq =
        ap₂ drop links_size body_eq
        ∙ drop-take (8 * h.link_count) (h.len - 24) (drop (addr + 24) src)
        ∙ ap (take (h.len - 24 - 8 * h.link_count)) (drop-drop (addr + 24) (8 * h.link_count) src)

    rest_size : length (drop (mul64 h.link_count 8) body) + 24 + 8 * h.link_count ≡ h.len
    rest_size =
        omega
          (arith, length-drop (mul64 h.link_count 8) body, links_size, s.size, body_size, links_fit)

    data_len_eq : data_len h ≡ h.len - 24 - 8 * h.link_count
    unfolding data_len
    data_len_eq = omega (arith, body_size, links_size, links_fit, small, v.in_file)

    whole-IsBlock :
        IsBlock src addr min_links min_data
          (record { header = h; links = ws; content = drop (mul64 h.link_count 8) body })
    whole-IsBlock = record {
      id_eq = v.id_eq;
      inside = v.in_file;
      fits = links_fit;
      count_eq = v.count_eq;
      links_count = l.count;
      enough_links = omega (arith, l.count, ltb→ge h.link_count min_links few);
      links_eq = link_eq;
      content_eq = rest_eq;
      content_size = rest_size;
      enough_data = omega (arith, rest_size, data_len_eq, ltb→ge (data_len h) min_data short);
    }

module _ (src : Bytes) (small : length src < 2 ^ 63) (addr : ℕ) where
  -- On any file `decodeRaw` does not panic, and a block that it returns lies in the file: its links
  -- and its data are the bytes that follow the header, there are as many as the header says, and
  -- at least as many as were asked for.
  pub decode_raw-Post :
      (want : Bytes) (min_links min_data : ℕ)
      → Post (IsBlock src addr min_links min_data) (decode_raw src addr want min_links min_data)
  unfolding decode_raw
  decode_raw-Post want min_links min_data =
      Post-bind (decode_header-Post src small addr want) λ h v. Post-bind (refuse-Post _ _) λ _ few.
        Post-bind (refuse-Post _ _) λ _ short.
          Post-bind (slice_at-IsSlice src (add64 addr 24) (sub64 h.len 24)) λ body s.
            let fit = links_fit src small addr v s in
            let size = body_size src small addr v s in
            Post-bind (read_links-Post h.link_count 0 body (omega (arith, fit, size, s.size)))
              λ ws l.
                rw
                  (slice_from-ok body (mul64 h.link_count 8)
                    (omega (arith, fit, size, s.size, links_size src small addr v s)))
                  (returns (whole-IsBlock src small addr v s l min_links min_data few short))

-- A field of a block's data is a field of the file.
pub block_field :
    (src : Bytes) (addr min_links min_data : ℕ) (r : Raw)
    → IsBlock src addr min_links min_data r
    → (k n : ℕ) → k + n ≤ min_data
    → take n (drop k r.content) ≡ take n (drop (addr + 24 + 8 * word_at src (addr + 16) + k) src)
block_field src addr min_links min_data r v k n h =
    let start = addr + 24 + 8 * r.header.link_count in
    let size = r.header.len - 24 - 8 * r.header.link_count in
    ap (λ t. take n (drop k t)) v.content_eq
    ∙ ap (take n) (drop-take k size (drop start src) ∙ ap (take (size - k)) (drop-drop start k src))
    ∙ take-take n (size - k) (drop (start + k) src)
        (omega (arith, h, v.enough_data, v.content_size))
    ∙ ap (λ c. take n (drop (addr + 24 + 8 * c + k) src)) v.count_eq
