-- ===== src/Blocks/Lists/Laws.antt =====
-- The list blocks on any bytes: no panic, and arrays of the length that the count announces.
use go_mdf.Base.{
  ℕ, zero, suc, ◌+◌, ◌-◌, ◌*◌, ◌^◌, ◌≤◌, ◌<◌, ◌≡◌, refl, ap, ◌∙◌, true, false, List, length, take,
  drop, arith, length-take, length-drop, Post, returns, Post-bind, Post-if, ltb→ge,
}
use go_mdf.Base.Words.{Bytes, le_value, word_at-ok, word_at-slice, slice-ok, index-ok, field-ok}
use go_mdf.Blocks.Header.{Raw, data_len}
use go_mdf.Blocks.Header.Laws.{refuse-Post, IsBlock, decode_raw-Post}
use go_mdf.Blocks.Lists.{
  id_dl, id_ld, id_hl, id_dz, has_flag, equal_flag, invalidation_flag, Dl, read_offsets,
  read_layout, decode_dl, Ld, decode_ld, read_inval, decode_hl, Dz, decode_dz,
}

read_offsets-Post :
    (n i : ℕ) (d : Bytes)
    → 8 + 8 * (i + n) ≤ length d
    → Post (λ ws. length ws ≡ n) (read_offsets n i d)
unfolding read_offsets
read_offsets-Post zero i d h = returns refl
read_offsets-Post (suc n) i d h =
    rw (word_at-ok d (8 + 8 * i) (omega arith))
      (Post-bind (read_offsets-Post n (i + 1) d (omega arith)) λ ws k. returns (ap suc k))

-- Unless the layout is an equal one, there is an offset for each block.
abbrev pub HasLayout : ℕ → ℕ → ℕ × List ℕ → Type 0
HasLayout flags n l = has_flag flags equal_flag ≡ false → length l.1 ≡ n

read_layout-Post : (flags n : ℕ) (d : Bytes) → Post (HasLayout flags n) (read_layout flags n d)
unfolding read_layout
read_layout-Post flags n d =
    Post-if (has_flag flags equal_flag)
      (λ eq.
        Post-bind (refuse-Post _ _)
          λ _ h. rw (word_at-slice d 8 (ltb→ge (length d) 16 h)) (returns (λ no. cc (eq, no))))
      (λ ne. Post-bind (refuse-Post _ _) λ _ h.
        Post-bind (read_offsets-Post n 0 d (omega (arith, ltb→ge (length d) (8 + 8 * n) h)))
          λ ws k. returns (λ _. k))

-- A list block as its count announces it: one link for each data block, and one offset for each
-- unless all blocks have one length.
pub record IsDl (b : Dl) : Type 0 where
  pub blocks_count : length b.blocks ≡ b.count
  pub offsets_count : has_flag b.flags equal_flag ≡ false → length b.offsets ≡ b.count

slice_count :
    {A : Type 0} (xs : List A) (i j : ℕ)
    → i ≤ j
    → j ≤ length xs
    → length (take (j - i) (drop i xs)) ≡ j - i
slice_count xs i j h k = omega (arith, length-take (j - i) (drop i xs), length-drop i xs)

module _ (src : Bytes) (small : length src < 2 ^ 63) (addr : ℕ) where
  -- `DecodeDL` never panics, and the arrays of a list that it returns have the announced length.
  pub decode_dl-Post : Post IsDl (decode_dl src addr)
  unfolding decode_dl
  decode_dl-Post = Post-bind (decode_raw-Post src small addr id_dl 1 8) λ r v.
      let bytes = v.enough_data in
      rw (index-ok r.content 0 (omega (arith, bytes)), field-ok r.content 4 4 bytes)
        (Post-bind (refuse-Post _ _) λ _ h.
          let n = le_value (take 4 (drop 4 r.content)) in
          let k : 1 + n ≤ length r.links = ltb→ge _ _ h in
          rw (slice-ok r.links 1 (1 + n) (omega arith) k) (
            Post-bind (read_layout-Post _ n r.content) λ l m. returns (record {
              blocks_count = slice_count r.links 1 (1 + n) (omega arith) k ∙ omega arith;
              offsets_count = m;
            })))

pub record IsLd (b : Ld) : Type 0 where
  pub blocks_count : length b.blocks ≡ b.count
  pub inval_count : has_flag b.flags invalidation_flag ≡ true → length b.inval_blocks ≡ b.count
  pub offsets_count : has_flag b.flags equal_flag ≡ false → length b.sample_offsets ≡ b.count

read_inval-Post :
    (flags n : ℕ) (links : List ℕ)
    → Post
        (λ ws. has_flag flags invalidation_flag ≡ true → length ws ≡ n)
        (read_inval flags n links)
unfolding read_inval
read_inval-Post flags n links =
    Post-if (has_flag flags invalidation_flag)
      (λ yes. Post-bind (refuse-Post _ _) λ _ h.
        let k : 1 + 2 * n ≤ length links = ltb→ge _ _ h in
        rw (slice-ok links (1 + n) (1 + 2 * n) (omega arith) k)
          (returns (λ _. slice_count links (1 + n) (1 + 2 * n) (omega arith) k ∙ omega arith)))
      (λ ne. returns (λ yes. cc (ne, yes)))

-- A compressed block's payload, as `DecodeDZ` locates it.
pub record IsDz (src : Bytes) (b : Dz) : Type 0 where
  pub payload_in_file : b.data_addr + b.data_length ≤ length src

module _ (src : Bytes) (small : length src < 2 ^ 63) (addr : ℕ) where
  -- `DecodeLD` never panics. A list that it returns has one data block for each that its count
  -- announces, and as many invalidation blocks and sample offsets where its flags say so.
  pub decode_ld-Post : Post IsLd (decode_ld src addr)
  unfolding decode_ld
  decode_ld-Post = Post-bind (decode_raw-Post src small addr id_ld 1 8) λ r v.
      let bytes = v.enough_data in
      rw (field-ok r.content 0 4 (omega (arith, bytes)), field-ok r.content 4 4 bytes)
        (Post-bind (refuse-Post _ _) λ _ h.
          let n = le_value (take 4 (drop 4 r.content)) in
          let k : 1 + n ≤ length r.links = ltb→ge _ _ h in
          rw (slice-ok r.links 1 (1 + n) (omega arith) k) (
            Post-bind (read_inval-Post _ n r.links) λ inval i.
              Post-bind (read_layout-Post _ n r.content) λ l m. returns (record {
                blocks_count = slice_count r.links 1 (1 + n) (omega arith) k ∙ omega arith;
                inval_count = i;
                offsets_count = m;
              })))

  pub decode_hl-Post : Post (λ _. Unit) (decode_hl src addr)
  unfolding decode_hl
  decode_hl-Post = Post-bind (decode_raw-Post src small addr id_hl 1 3) λ r v.
      let bytes = v.enough_data in
      rw
        (field-ok r.content 0 2 (omega (arith, bytes)), index-ok r.content 2 (omega (arith, bytes)))
        (returns tt)

  -- `DecodeDZ` never panics, and the compressed bytes that it locates lie in the file.
  pub decode_dz-Post : Post (IsDz src) (decode_dz src addr)
  unfolding decode_dz
  decode_dz-Post = Post-bind (decode_raw-Post src small addr id_dz 0 24) λ r v.
      let bytes = v.enough_data in
      rw
        (
          slice-ok r.content 0 2 (omega arith) (omega (arith, bytes)),
          index-ok r.content 2 (omega (arith, bytes)),
          field-ok r.content 4 4 (omega (arith, bytes)),
          field-ok r.content 8 8 (omega (arith, bytes)),
          field-ok r.content 16 8 (omega (arith, bytes)),
        )
        (Post-bind (refuse-Post _ _) λ _ h.
          let size : data_len r.header ≡ length r.content = content_len r v in
          let k = ltb→ge _ _ h in
          returns (record {
            payload_in_file = omega (arith, v.inside, v.content_size, size, k, small, bytes);
          }))
    where
      content_len : (r : Raw) → IsBlock src addr 0 24 r → data_len r.header ≡ length r.content
      content_len r v = unfold data_len in omega (arith, v.inside, v.content_size, small)
