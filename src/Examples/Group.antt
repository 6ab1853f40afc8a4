-- ===== src/Examples/Group.antt =====
-- The writer's group block of three-byte records, behind eight bytes.
use go_mdf.Base.{◌≡◌, ◌^◌, ◌<◌, [], ◌++◌, arith, ok, Post, length, replicate}
use go_mdf.Base.Words.{Bytes, le_bytes}
use go_mdf.Blocks.Encode.{build, link_bytes}
use go_mdf.Blocks.Group.{decode_cg, build_cg}
use go_mdf.Blocks.Group.RoundTrip.{decode_cg-build_cg, decode_cg-Post, IsCg}

decode_cg-build_cg_example :
    decode_cg (replicate 8 7 ++ (build_cg 3 400 500 ++ [])) 8
    ≡ ok (record {
      next = 0;
      cn_first = 400;
      acq_name = 500;
      acq_source = 0;
      sr_first = 0;
      comment = 0;
      record_id = 0;
      cycle_count = 0;
      flags = 0;
      path_separator = 0;
      data_bytes = 3;
      inval_bytes = 0;
      cg_master = 0;
    })
decode_cg-build_cg_example =
    decode_cg-build_cg (replicate 8 7) [] 3 400 500 (omega arith) (omega arith) (omega arith) small
  where
    small : length (replicate 8 7 ++ (build_cg 3 400 500 ++ [])) < 2 ^ 63
    small = unfold build_cg build link_bytes le_bytes in omega arith

-- The same file; `DecodeCG` returns the group, by the run above.
abbrev group_file : Bytes
group_file = replicate 8 7 ++ (build_cg 3 400 500 ++ [])

decode_cg-Post_example : Post (IsCg group_file 8) (decode_cg group_file 8)
decode_cg-Post_example = decode_cg-Post group_file small 8
  where
    small : length group_file < 2 ^ 63
    small = unfold build_cg build link_bytes le_bytes in omega arith
