-- ===== src/Records/Strings.antt =====
-- internal/records/strings.go: text samples, as UTF-8 bytes.
use go_mdf.Base.{
  ℕ, ◌+◌, ◌-◌, ◌*◌, ◌/◌, ◌%◌, Bool, ◌&&◌, List, [], ◌∷◌, ◌++◌, ltb, leb, ◌==◌, if◌then◌else◌,
}
use go_mdf.Base.Words.{Bytes}

-- Go's encoding of a rune; a surrogate is no rune and becomes U+FFFD.
unfoldable pub encode_rune : ℕ → Bytes
encode_rune r =
    if ltb r 128
    then r ∷ []
    else if ltb r 2048
    then (192 + r / 64) ∷ (128 + r % 64) ∷ []
    else if leb 55296 r && ltb r 57344
    then 239 ∷ 191 ∷ 189 ∷ []
    else if ltb r 65536
    then (224 + r / 4096) ∷ (128 + r / 64 % 64) ∷ (128 + r % 64) ∷ []
    else (240 + r / 262144) ∷ (128 + r / 4096 % 64) ∷ (128 + r / 64 % 64) ∷ (128 + r % 64) ∷ []

-- The loop over the code units, up to a zero; an odd byte at the end is dropped.
unfoldable pub code_units : Bool → Bytes → List ℕ
code_units big_e [] = []
code_units big_e (a ∷ []) = []
code_units big_e (a ∷ b ∷ p) =
    let rest = code_units big_e p in
    let c = if big_e then a * 256 + b else b * 256 + a in if c == 0 then [] else c ∷ rest

-- `string(utf16.Decode(u))`: a pair of surrogates is one rune.
unfoldable pub utf16_string : List ℕ → Bytes
unfolding encode_rune
utf16_string [] = []
utf16_string (u ∷ []) = encode_rune u
utf16_string (u ∷ v ∷ us) =
    let single = utf16_string (v ∷ us) in
    let pair = utf16_string us in
    if leb 55296 u && ltb u 56320 && leb 56320 v && ltb v 57344
    then encode_rune ((u - 55296) * 1024 + (v - 56320) + 65536) ++ pair
    else encode_rune u ++ single

-- The bytes in front of the first NUL.
unfoldable pub before_nul : Bytes → Bytes
before_nul [] = []
before_nul (b ∷ p) = let rest = before_nul p in if b == 0 then [] else b ∷ rest

unfoldable pub latin_string : Bytes → Bytes
unfolding encode_rune
latin_string [] = []
latin_string (b ∷ p) = encode_rune b ++ latin_string p

unfoldable pub decode_string : Bytes → ℕ → Bytes
unfolding code_units utf16_string before_nul latin_string
decode_string p t =
    if leb 8 t && leb t 9
    then utf16_string (code_units (t == 9) p)
    else if t == 6
    then latin_string (before_nul p)
    else before_nul p
