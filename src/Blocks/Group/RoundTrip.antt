-- ===== src/Blocks/Group/RoundTrip.antt =====
-- `DecodeCG` on any bytes, and on the writer's group block.
use go_mdf.Base.{
  ℕ, ◌+◌, ◌*◌, ◌%◌, ◌^◌, ◌≤◌, ◌<◌, ◌≡◌, ap, ◌∙◌, take, drop, get_or, [], ◌∷◌, ◌++◌, length,
  replicate, ok, arith, Post, returns, Post-bind,
}
use go_mdf.Base.Words.{Bytes, IsWord, slice, le_uint, le_value, le_bytes, field-ok, word_at}
use go_mdf.Blocks.Header.{link}
use go_mdf.Blocks.Header.Laws.{decode_raw-Post, block_field}
use go_mdf.Blocks.Encode.RoundTrip.{decode_raw-build}
use go_mdf.Blocks.Group.{id_cg, Cg, decode_cg, build_cg}

-- A field of `n` bytes, `k` bytes into the data behind the links that the header counts.
abbrev pub cg_field : Bytes → ℕ → ℕ → ℕ → ℕ
cg_field src addr k n = le_value (take n (drop (addr + 24 + 8 * word_at src (addr + 16) + k) src))

-- A group as a file has it at an address: behind the header of 24 bytes stand the links, as many as
-- the header counts, and behind them the data, all in the file.
pub record IsCg (src : Bytes) (addr : ℕ) (g : Cg) : Type 0 where
  pub links : 6 ≤ word_at src (addr + 16)
  pub inside : addr + 24 + 8 * word_at src (addr + 16) + 32 ≤ length src
  pub next_eq : g.next ≡ word_at src (addr + 24)
  pub cn_first_eq : g.cn_first ≡ word_at src (addr + 32)
  pub acq_name_eq : g.acq_name ≡ word_at src (addr + 40)
  pub acq_source_eq : g.acq_source ≡ word_at src (addr + 48)
  pub sr_first_eq : g.sr_first ≡ word_at src (addr + 56)
  pub comment_eq : g.comment ≡ word_at src (addr + 64)
  pub record_id_eq : g.record_id ≡ cg_field src addr 0 8
  pub cycle_count_eq : g.cycle_count ≡ cg_field src addr 8 8
  pub flags_eq : g.flags ≡ cg_field src addr 16 2
  pub path_separator_eq : g.path_separator ≡ cg_field src addr 18 2
  pub data_bytes_eq : g.data_bytes ≡ cg_field src addr 24 4
  pub inval_bytes_eq : g.inval_bytes ≡ cg_field src addr 28 4

-- `DecodeCG` never panics, and a group that it returns is the one at its address: the header, at
-- least six links and the 32 bytes of data lie in the file, and the six links and every field of the
-- data are read from their places.
pub decode_cg-Post :
    (src : Bytes) → length src < 2 ^ 63 → (addr : ℕ) → Post (IsCg src addr) (decode_cg src addr)
unfolding decode_cg link
decode_cg-Post src small addr = Post-bind (decode_raw-Post src small addr id_cg 6 32) λ r v.
    let bytes = v.enough_data in
    let at : (i : ℕ) → i < 6 → get_or r.links i 0 ≡ word_at src (addr + 24 + 8 * i) =
      λ i h. v.links_eq i (omega (arith, h, v.enough_links)) in
    let part : (k n : ℕ)
        → k + n ≤ 32
        → le_value (take n (drop k r.content)) ≡ cg_field src addr k n =
      λ k n h. ap le_value (block_field src addr 6 32 r v k n h) in
    let place : (i j : ℕ)
        → 24 + 8 * i ≡ j
        → word_at src (addr + 24 + 8 * i) ≡ word_at src (addr + j) =
      λ i j e. ap (word_at src) (omega (arith, e)) in
    rw
      (
        field-ok r.content 0 8 (omega (arith, bytes)),
        field-ok r.content 8 8 (omega (arith, bytes)),
        field-ok r.content 16 2 (omega (arith, bytes)),
        field-ok r.content 18 2 (omega (arith, bytes)),
        field-ok r.content 24 4 (omega (arith, bytes)),
        field-ok r.content 28 4 (omega (arith, bytes)),
      )
      (returns (record {
        links = omega (arith, v.count_eq, v.links_count, v.enough_links);
        inside = omega (arith, v.count_eq, v.inside, v.content_size, v.links_count, bytes);
        next_eq = at 0 (omega arith) ∙ place 0 24 (omega arith);
        cn_first_eq = at 1 (omega arith) ∙ place 1 32 (omega arith);
        acq_name_eq = at 2 (omega arith) ∙ place 2 40 (omega arith);
        acq_source_eq = at 3 (omega arith) ∙ place 3 48 (omega arith);
        sr_first_eq = at 4 (omega arith) ∙ place 4 56 (omega arith);
        comment_eq = at 5 (omega arith) ∙ place 5 64 (omega arith);
        record_id_eq = part 0 8 (omega arith);
        cycle_count_eq = part 8 8 (omega arith);
        flags_eq = part 16 2 (omega arith);
        path_separator_eq = part 18 2 (omega arith);
        data_bytes_eq = part 24 4 (omega arith);
        inval_bytes_eq = part 28 4 (omega arith);
      }))

-- The reader gets a group's record size and links back from the block that the writer composes,
-- wherever it stands in a file, with no cycles counted yet.
pub decode_cg-build_cg :
    (before after : Bytes) (size cn acq : ℕ)
    → size < 2 ^ 32
    → IsWord cn
    → IsWord acq
    → length (before ++ (build_cg size cn acq ++ after)) < 2 ^ 63
    → decode_cg (before ++ (build_cg size cn acq ++ after)) (length before)
      ≡ ok (record {
        next = 0;
        cn_first = cn;
        acq_name = acq;
        acq_source = 0;
        sr_first = 0;
        comment = 0;
        record_id = 0;
        cycle_count = 0;
        flags = 0;
        path_separator = 0;
        data_bytes = size;
        inval_bytes = 0;
        cg_master = 0;
      })
unfolding decode_cg build_cg link slice le_uint le_value le_bytes
decode_cg-build_cg before after size cn acq hs hc ha small =
    rw
      (decode_raw-build b'C' b'G' (0 ∷ cn ∷ acq ∷ 0 ∷ 0 ∷ 0 ∷ [])
        (replicate 24 0 ++ (le_bytes 4 (size % 2 ^ 32) ++ replicate 4 0)) before after
        (omega arith, (hc, (ha, (omega arith, (omega arith, (omega arith, tt)))))) small 6 32
        (omega arith) (omega arith))
      (ap
        (λ d. ok (record {
          next = 0;
          cn_first = cn;
          acq_name = acq;
          acq_source = 0;
          sr_first = 0;
          comment = 0;
          record_id = 0;
          cycle_count = 0;
          flags = 0;
          path_separator = 0;
          data_bytes = d;
          inval_bytes = 0;
          cg_master = 0;
        }))
        (omega (arith, hs)))
