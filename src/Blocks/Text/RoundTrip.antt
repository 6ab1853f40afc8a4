-- ===== src/Blocks/Text/RoundTrip.antt =====
-- `DecodeText` takes back `BuildTX` and `BuildMD`.
use go_mdf.Base.{
  ℕ, ◌+◌, ◌-◌, ◌*◌, ◌%◌, ◌^◌, ◌≤◌, ◌<◌, ◌≡◌, ◌≢◌, refl, ap, ◌∙◌, false, ◌&&◌, not, [], ◌∷◌, ◌++◌,
  length, replicate, append_assoc, ok, All, arith, length-append, length-replicate, ne→==,
}
use go_mdf.Base.Words.{Bytes}
use go_mdf.Source.{slice_at}
use go_mdf.Blocks.Header.{add64, sub64, same_bytes, data_len, refuse}
use go_mdf.Blocks.Encode.{link_bytes, build, pad8, id_tx, id_md, build_tx, build_md}
use go_mdf.Blocks.Encode.RoundTrip.{decoded_header, body_at}
use go_mdf.Blocks.Text.{until_nul, decode_text}

-- Text without a NUL.
abbrev pub IsText : Bytes → Type 0
IsText s = All (λ b. b ≢ 0) s

until_nul_text : (s rest : Bytes) → IsText s → until_nul (s ++ 0 ∷ rest) ≡ s
unfolding until_nul
until_nul_text [] rest h = refl
until_nul_text (b ∷ s) rest (h, hs) = rw (ne→== b 0 h) (ap (◌∷◌ b) (until_nul_text s rest hs))

-- Padding fills up to a multiple of eight, with less than eight bytes.
pub length-pad8 :
    (xs : Bytes)
    → (length (pad8 xs) % 8 ≡ 0)
      × (length xs ≤ length (pad8 xs))
      × (length (pad8 xs) < length xs + 8)
unfolding pad8
length-pad8 xs =
    let e = length-append xs (replicate ((8 - length xs % 8) % 8) 0) in
    let f = length-replicate {A = ℕ} ((8 - length xs % 8) % 8) 0 in
    (omega (arith, e, f), omega (arith, e, f), omega (arith, e, f))

until_nul-pad8 : (s : Bytes) → IsText s → until_nul (pad8 (s ++ 0 ∷ [])) ≡ s
unfolding pad8
until_nul-pad8 s h =
    ap until_nul (append_assoc s (0 ∷ []) (replicate ((8 - length (s ++ 0 ∷ []) % 8) % 8) 0))
    ∙ until_nul_text s _ h

module _ (before after s : Bytes) (there : 0 < length before) (text : IsText s) where
  abbrev content : Bytes
  content = pad8 (s ++ 0 ∷ [])

  module _ (x y : ℕ)
      (known : (not (same_bytes (b'#' ∷ b'#' ∷ x ∷ y ∷ []) id_tx)
          && not (same_bytes (b'#' ∷ b'#' ∷ x ∷ y ∷ []) id_md))
        ≡ false)
      (small : length (before ++ (build (b'#' ∷ b'#' ∷ x ∷ y ∷ []) [] content ++ after))
        < 2 ^ 63) where
    abbrev file : Bytes
    file = before ++ (build (b'#' ∷ b'#' ∷ x ∷ y ∷ []) [] content ++ after)

    decode_text-build : decode_text file (length before) ≡ ok s
    unfolding decode_text refuse link_bytes
    decode_text-build = rw (
      ne→== (length before) 0 (λ e. omega (arith, e, there)),
      decoded_header x y [] content before after tt small [] (unfold same_bytes in refl),
      known,
      sliced,
      until_nul-pad8 s text,
    )
      where
        sliced :
            slice_at file (add64 (length before) 24) (
              data_len (record {
                id = b'#' ∷ b'#' ∷ x ∷ y ∷ [];
                len = 24 + 0 * 8 + length content;
                link_count = 0;
              }))
            ≡ ok content
        sliced =
            let e : data_len (record {
              id = b'#' ∷ b'#' ∷ x ∷ y ∷ [];
              len = 24 + 0 * 8 + length content;
              link_count = 0;
            })
                ≡ sub64 (24 + 0 * 8 + length content) 24 =
              (unfold data_len in omega arith) in
            ap (slice_at file (add64 (length before) 24)) e
            ∙ body_at x y [] content before after tt small

  -- `DecodeText` returns the text that `BuildTX` was given, wherever the block stands in the file
  -- but at its start, where a link is nil.
  pub decode_text-build_tx :
      length (before ++ (build_tx s ++ after)) < 2 ^ 63
      → decode_text (before ++ (build_tx s ++ after)) (length before) ≡ ok s
  unfolding build_tx
  decode_text-build_tx = decode_text-build b'T' b'X' (unfold same_bytes in refl)

  pub decode_text-build_md :
      length (before ++ (build_md s ++ after)) < 2 ^ 63
      → decode_text (before ++ (build_md s ++ after)) (length before) ≡ ok s
  unfolding build_md
  decode_text-build_md = decode_text-build b'M' b'D' (unfold same_bytes in refl)
