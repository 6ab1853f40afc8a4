-- ===== src/Examples/Resolve.antt =====
-- internal/datasection: data lists in small files.
use go_mdf.Base.{ℕ, ◌≡◌, ◌^◌, ◌<◌, refl, false, none, [], ◌∷◌, ◌++◌, arith, ok, length, replicate}
use go_mdf.Base.Words.{Bytes, le_value, index, slice, slice_from, le_uint, le_bytes}
use go_mdf.Source.{slice_at, check_bounds}
use go_mdf.Blocks.Header.{
  same_bytes, data_len, refuse, decode_header, peek_id, read_links, decode_raw, link,
}
use go_mdf.Blocks.Lists.{Dl, id_dl, read_layout, decode_dl}
use go_mdf.Blocks.Encode.{build, link_bytes}
use go_mdf.DataSection.Resolve.{
  Segment, SegKind, stored_header, stored_len, add_stored, is_plain, add_entry, entry_logical,
  add_entries, add_list, resolve_chain,
}
use go_mdf.DataSection.Resolve.Laws.{IsFinite, Ends, resolve_chain-IsFinite, resolve_chain_circle}

-- An empty list at byte 8 whose next list is itself.
abbrev circle_file : Bytes
circle_file = replicate 8 7 ++ build id_dl (8 ∷ []) (1 ∷ replicate 15 0)

abbrev circle_list : (global : ℕ) → add_list circle_file false 8 global ≡ ok (8, global, [])
unfolding add_list add_entries decode_dl decode_raw decode_header read_links slice_at check_bounds
    refuse same_bytes data_len link read_layout le_uint slice slice_from index le_value build
    link_bytes le_bytes
circle_list global = refl

resolve_chain_circle_example : resolve_chain 1000 circle_file false 8 0 [] ≡ none
resolve_chain_circle_example =
    resolve_chain_circle circle_file small false 8 (λ e. omega (arith, e))
      (λ global. ((global, []), circle_list global)) 1000 0 []
  where
    small : length circle_file < 2 ^ 63
    small = unfold build link_bytes le_bytes in omega arith

-- A list at byte 8 with one data block of two bytes behind it.
abbrev chain_file : Bytes
chain_file =
    replicate 8 7
    ++ (build id_dl (0 ∷ 64 ∷ []) (1 ∷ 0 ∷ 0 ∷ 0 ∷ 1 ∷ 0 ∷ 0 ∷ 0 ∷ 2 ∷ replicate 7 0)
        ++ build (b'#' ∷ b'#' ∷ b'D' ∷ b'T' ∷ []) [] (5 ∷ 6 ∷ []))

abbrev chain_segment : Segment
chain_segment = record {
  logical = 0;
  len = 2;
  addr = 88;
  comp_len = 0;
  zip_param = 0;
  kind = SegKind.seg_stored;
}

chain_list : add_list chain_file false 8 0 ≡ ok (0, 1, chain_segment ∷ [])
unfolding add_list add_entries add_entry entry_logical add_stored stored_header stored_len is_plain
    peek_id decode_dl decode_raw decode_header read_links slice_at check_bounds refuse same_bytes
    data_len link read_layout le_uint slice slice_from index le_value build link_bytes le_bytes
chain_list = refl

abbrev chain_dl : Dl
chain_dl = record {
  next = 0;
  blocks = 64 ∷ [];
  flags = 1;
  count = 1;
  equal_length = 2;
  offsets = [];
}

chain_decoded : decode_dl chain_file 8 ≡ ok chain_dl
unfolding decode_dl decode_raw decode_header read_links slice_at check_bounds refuse same_bytes
    data_len link read_layout le_uint slice slice_from index le_value build link_bytes le_bytes
chain_decoded = refl

resolve_chain-IsFinite_example : Ends chain_file false (resolve_chain 1 chain_file false 8 0 [])
resolve_chain-IsFinite_example =
    resolve_chain-IsFinite chain_file small false 8 0 1 1 []
      (IsFinite.list (λ e. omega (arith, e)) chain_decoded IsFinite.nil) (omega arith) tt
  where
    small : length chain_file < 2 ^ 63
    small = unfold build link_bytes le_bytes in omega arith
