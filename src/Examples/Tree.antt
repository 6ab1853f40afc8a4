-- ===== src/Examples/Tree.antt =====
-- An array of two rows of three, and an array block that is its own composition.
use go_mdf.Base.{◌≡◌, refl, false, [], ◌∷◌, ◌++◌, replicate, ok, none, arith}
use go_mdf.Base.Words.{Bytes, index, slice, slice_from, le_uint, le_value}
use go_mdf.Source.{slice_at, check_bounds}
use go_mdf.Blocks.Header.{
  decode_raw, decode_header, read_links, peek_id, refuse, same_bytes, data_len, link,
}
use go_mdf.Blocks.Fields.{read_words}
use go_mdf.Blocks.Array.{
  Ca, decode_ca, id_ca, read_dims, read_axes, read_counts, read_links_dg, make_words,
}
use go_mdf.Tree.Elements.{level, indices, element, walk}
use go_mdf.Tree.Elements.Laws.{element-level}
use go_mdf.Tree.Elements.Circle.{walk_circle}

element-level_example : (element 16 0 false (level 4 0 (2 ∷ 3 ∷ [])).0 5).byte_offset ≡ 36
element-level_example = element-level 16 0 4 0 false (2 ∷ 3 ∷ []) 5 (omega arith)

last_index : (element 16 0 false (level 4 0 (2 ∷ 3 ∷ [])).0 5).index ≡ 1 ∷ 2 ∷ []
unfolding element level indices
last_index = refl

-- The block stands at offset 8.
abbrev circle : Bytes
circle =
    replicate 8 0
    ++ (b'#' ∷ b'#' ∷ b'C' ∷ b'A' ∷ replicate 4 0)
    ++ (56 ∷ replicate 7 0)
    ++ (1 ∷ replicate 7 0)
    ++ (8 ∷ replicate 7 0)
    ++ (0 ∷ 0 ∷ 1 ∷ 0 ∷ replicate 12 0)
    ++ (1 ∷ replicate 7 0)

abbrev own : Ca
own = record {
  composition = 8;
  links = [];
  ca_type = 0;
  storage = 0;
  flags = 0;
  byte_offset_base = 0;
  inval_bit_pos_base = 0;
  dim_size = 1 ∷ [];
  axis_values = [];
  cycle_counts = [];
}

circle_decoded : decode_ca circle 8 ≡ ok own
unfolding decode_ca decode_raw decode_header read_links slice_at check_bounds read_words read_dims
    read_axes read_counts read_links_dg refuse same_bytes index slice slice_from le_uint le_value
    make_words data_len link
circle_decoded = refl

circle_id : peek_id circle 8 ≡ ok id_ca
unfolding peek_id slice_at check_bounds
circle_id = refl

walk_circle_example : walk 1000 circle [] 1 8 ≡ none
walk_circle_example =
    walk_circle circle 8 own (λ e. omega (arith, e)) circle_decoded circle_id refl refl refl 1000 []
