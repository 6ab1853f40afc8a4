-- ===== src/Examples/Blocks.antt =====
-- internal/blocks on a small file: a DL block, then a DZ block and an LD block.
use go_mdf.Base.{[], ◌∷◌, ◌++◌, arith, replicate, Post}
use go_mdf.Base.Words.{Bytes}
use go_mdf.Blocks.Header.{decode_raw}
use go_mdf.Blocks.Header.Laws.{IsBlock, decode_raw-Post}
use go_mdf.Blocks.Lists.{id_dl, id_ld, id_dz, decode_dl, decode_ld, decode_dz}
use go_mdf.Blocks.Lists.Laws.{IsDl, IsLd, IsDz, decode_dl-Post, decode_ld-Post, decode_dz-Post}

-- Reserved bytes, a length of 56, two links, an equal length of 8 for one block.
abbrev list_file : Bytes
list_file =
    id_dl
    ++ (replicate 4 0
        ++ (56 ∷ replicate 7 0
            ++ (2 ∷ replicate 7 0
                ++ (replicate 8 0
                    ++ (64 ∷ replicate 7 0
                        ++ (1 ∷ 0 ∷ 0 ∷ 0 ∷ 1 ∷ 0 ∷ 0 ∷ 0 ∷ 8 ∷ replicate 7 0))))))

decode_raw-Post_example : Post (IsBlock list_file 0 1 8) (decode_raw list_file 0 id_dl 1 8)
decode_raw-Post_example = decode_raw-Post list_file (omega arith) 0 id_dl 1 8

decode_dl-Post_example : Post IsDl (decode_dl list_file 0)
decode_dl-Post_example = decode_dl-Post list_file (omega arith) 0

abbrev ld_file : Bytes
ld_file =
    id_ld
    ++ (replicate 4 0
        ++ (56 ∷ replicate 7 0
            ++ (2 ∷ replicate 7 0
                ++ (replicate 8 0
                    ++ (64 ∷ replicate 7 0
                        ++ (1 ∷ 0 ∷ 0 ∷ 0 ∷ 1 ∷ 0 ∷ 0 ∷ 0 ∷ 8 ∷ replicate 7 0))))))

decode_ld-Post_example : Post IsLd (decode_ld ld_file 0)
decode_ld-Post_example = decode_ld-Post ld_file (omega arith) 0

-- Two compressed bytes behind the fields of a DZ block.
abbrev dz_file : Bytes
dz_file =
    id_dz
    ++ (replicate 4 0
        ++ (50 ∷ replicate 7 0
            ++ (replicate 8 0
                ++ (b'D' ∷ b'T' ∷ replicate 6 0
                    ++ (8 ∷ replicate 7 0 ++ (2 ∷ replicate 7 0 ++ (7 ∷ 7 ∷ [])))))))

decode_dz-Post_example : Post (IsDz dz_file) (decode_dz dz_file 0)
decode_dz-Post_example = decode_dz-Post dz_file (omega arith) 0
