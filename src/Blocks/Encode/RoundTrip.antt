-- ===== src/Blocks/Encode/RoundTrip.antt =====
-- `decodeRaw` takes back `Build`, wherever the block stands in a file.
use go_mdf.Base.{
  ℕ, ◌+◌, ◌-◌, ◌*◌, ◌/◌, ◌^◌, ◌≤◌, ◌<◌, ◌≡◌, refl, sym, ap, ap₂, subst, ◌∙◌, false, ◌&&◌, not, List,
  [], ◌∷◌, ◌++◌, length, replicate, append-nil, append_assoc, ok, take, drop, All, arith,
  length-drop, length-append, take-length, drop-length, ge→ltb, drop-drop,
}
use go_mdf.Base.Words.{
  Bytes, IsWord, index, le_value, le_bytes, length-le_bytes, le_value-le_bytes, word_at, word_at-ok,
  word_at-slice, slice-ok, slice_from-ok,
}
use go_mdf.Source.{slice_at, slice_at-ok}
use go_mdf.Blocks.Header.{
  sub64, add64, mul64, same_bytes, data_len, refuse, decode_header, decode_raw, read_links,
}
use go_mdf.Blocks.Header.Laws.{same_bytes_refl, same_bytes-nil}
use go_mdf.Blocks.Encode.{link_bytes, build}

length-link_bytes : (ws : List ℕ) → length (link_bytes ws) ≡ 8 * length ws
unfolding link_bytes
length-link_bytes [] = refl
length-link_bytes (w ∷ ws) =
    omega (
      arith,
      length-append (le_bytes 8 w) (link_bytes ws),
      length-le_bytes 8 w,
      length-link_bytes ws,
    )

front_word : (w : ℕ) (rest : Bytes) → IsWord w → le_value (take 8 (le_bytes 8 w ++ rest)) ≡ w
unfolding le_bytes
front_word w rest h = le_value-le_bytes 8 w (omega arith)

drop_word : (w : ℕ) (rest : Bytes) → drop 8 (le_bytes 8 w ++ rest) ≡ rest
unfolding le_bytes
drop_word w rest = refl

read_links-link_bytes :
    (ws : List ℕ) (i : ℕ) (body content : Bytes)
    → All IsWord ws
    → drop (i * 8) body ≡ link_bytes ws ++ content
    → read_links (length ws) i body ≡ ok ws
unfolding read_links
read_links-link_bytes [] i body content hw e = refl
read_links-link_bytes (w ∷ ws) i body content (hw, hws) e =
    rw (word_at-ok body (i * 8) room, value, read_links-link_bytes ws (i + 1) body content hws next)
  where
    here : drop (i * 8) body ≡ le_bytes 8 w ++ (link_bytes ws ++ content)
    here = e ∙ unfold link_bytes in append_assoc (le_bytes 8 w) (link_bytes ws) content

    size : 8 ≤ length (drop (i * 8) body)
    size = subst (λ t. 8 ≤ length t) (sym here) (unfold le_bytes in omega arith)

    room : i * 8 + 8 ≤ length body
    room = omega (arith, size, length-drop (i * 8) body)

    value : word_at body (i * 8) ≡ w
    value = unfold word_at in ap (λ t. le_value (take 8 t)) here ∙ front_word w _ hw

    next : drop ((i + 1) * 8) body ≡ link_bytes ws ++ content
    next =
        let k : (i + 1) * 8 ≡ i * 8 + 8 = omega arith in
        ap (λ t. drop t body) k ∙ sym (drop-drop (i * 8) 8 body) ∙ ap (drop 8) here ∙ drop_word w _

-- A block with the id `##xy`.
module _ (x y : ℕ) (links : List ℕ) (content before after : Bytes) (words : All IsWord links) where
  abbrev id : Bytes
  id = b'#' ∷ b'#' ∷ x ∷ y ∷ []

  abbrev size : ℕ
  size = 24 + length links * 8 + length content

  abbrev file : Bytes
  file = before ++ (build id links content ++ after)

  abbrev front : Bytes
  front = id ++ (replicate 4 0 ++ (le_bytes 8 size ++ le_bytes 8 (length links)))

  abbrev tail : Bytes
  tail = link_bytes links ++ content

  length-front : length front ≡ 24
  unfolding le_bytes
  length-front = refl

  at_block : drop (length before) file ≡ front ++ (tail ++ after)
  unfolding build le_bytes
  at_block = drop-length before (build id links content ++ after)

  pub length-file : length file ≡ length before + size + length after
  length-file = omega (
    arith,
    length-append before (build id links content ++ after),
    ap length built,
    length-append front (tail ++ after),
    length-front,
    length-append tail after,
    length-append (link_bytes links) content,
    length-link_bytes links,
  )
    where
      built : build id links content ++ after ≡ front ++ (tail ++ after)
      built = unfold build le_bytes in refl

  module _ (small : length file < 2 ^ 63) where
    bounds : size < 2 ^ 63
    bounds = omega (arith, length-file, small)

    header_bytes : slice_at file (length before) 24 ≡ ok front
    header_bytes =
        slice_at-ok file (length before) 24 small (omega (arith, length-file))
        ∙ ap (λ t. ok (take 24 t)) at_block
        ∙ ap ok (unfold le_bytes in refl)

    header_size_at : word_at front 8 ≡ size
    header_size_at =
        unfold word_at in front_word size (le_bytes 8 (length links)) (omega (arith, bounds))

    header_count_at : word_at front 16 ≡ length links
    header_count_at =
        unfold word_at in
        ap (λ t. le_value (take 8 t)) (sixteen ∙ sym (append-nil (le_bytes 8 (length links))))
        ∙ front_word (length links) [] (omega (arith, bounds))
      where
        sixteen : drop 16 front ≡ le_bytes 8 (length links)
        sixteen = unfold le_bytes in refl

    no_wrap : add64 24 (mul64 (length links) 8) ≤ size
    no_wrap = omega (arith, bounds)

    links_fit : length links ≤ sub64 size 24 / 8
    links_fit = omega (arith, bounds)

    in_file : size ≤ sub64 (length file) (length before)
    in_file = omega (arith, length-file, small)

    pub decoded_header :
        (want : Bytes)
        → (not (same_bytes want []) && not (same_bytes id want)) ≡ false
        → decode_header file (length before) want
          ≡ ok (record { id = id; len = size; link_count = length links })
    unfolding decode_header refuse index
    decoded_header want wanted = rw (
      header_bytes,
      slice-ok front 0 4 (omega arith) four,
      word_at-slice front 8 eight,
      word_at-slice front 16 sixteen,
      header_size_at,
      header_count_at,
      wanted,
      ge→ltb size (add64 24 (mul64 (length links) 8)) no_wrap,
      ge→ltb (sub64 size 24 / 8) (length links) links_fit,
      ge→ltb (sub64 (length file) (length before)) size in_file,
    )
      where
        four : 4 ≤ length front
        four = omega (arith, length-front)

        eight : 8 + 8 ≤ length front
        eight = omega (arith, length-front)

        sixteen : 16 + 8 ≤ length front
        sixteen = omega (arith, length-front)

    pub body_at : slice_at file (add64 (length before) 24) (sub64 size 24) ≡ ok tail
    unfolding le_bytes link_bytes
    body_at =
        ap₂ (slice_at file) start rest
        ∙ slice_at-ok file (length before + 24) (size - 24) small (omega (arith, length-file))
        ∙ ap (λ t. ok (take (size - 24) t))
            (sym (drop-drop (length before) 24 file) ∙ ap (drop 24) at_block)
        ∙ ap (λ n. ok (take n (tail ++ after))) tail_size
        ∙ ap ok (take-length tail after)
      where
        start : add64 (length before) 24 ≡ length before + 24
        start = omega (arith, length-file, small)

        rest : sub64 size 24 ≡ size - 24
        rest = omega (arith, bounds)

        tail_size : size - 24 ≡ length tail
        tail_size = omega (arith, length-append (link_bytes links) content, length-link_bytes links)

    module _ (min_links min_data : ℕ) (enough : min_links ≤ length links)
        (long : min_data ≤ length content) where
      content_len : min_data ≤ data_len (record { id = id; len = size; link_count = length links })
      content_len = unfold data_len in omega (arith, bounds, long)

      links_end : mul64 (length links) 8 ≡ length (link_bytes links)
      links_end = omega (arith, length-link_bytes links, bounds)

      end_in : length (link_bytes links) ≤ length tail
      end_in = omega (arith, length-append (link_bytes links) content)

      -- Decoding takes back building: a block that `Build` composed, with the id `##xy`, any links
      -- and any data, is read back by `decodeRaw` wherever it stands in a file, with the links and
      -- the data that it was built from.
      pub decode_raw-build :
          decode_raw file (length before) id min_links min_data
          ≡ ok (record {
            header = record { id = id; len = size; link_count = length links };
            links = links;
            content = content;
          })
      unfolding decode_raw refuse
      decode_raw-build = rw (
        decoded_header id (rw (same_bytes_refl id, same_bytes-nil b'#' (b'#' ∷ x ∷ y ∷ []))),
        ge→ltb (length links) min_links enough,
        ge→ltb (data_len (record { id = id; len = size; link_count = length links })) min_data
            content_len,
        body_at,
        read_links-link_bytes links 0 tail content words refl,
        links_end,
        slice_from-ok tail (length (link_bytes links)) end_in,
        drop-length (link_bytes links) content,
      )
