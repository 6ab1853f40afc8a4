-- ===== src/Dbc/Decode.antt =====
-- internal/dbc/decode.go: the raw bits of a signal, and the sign extension of them.
use Prim.Native.Nat.{bit_and, bit_or}
use go_mdf.Base.{
  ℕ, ◌+◌, ◌-◌, ◌*◌, ◌/◌, ◌%◌, ◌^◌, Bool, Option, none, some, [], ◌∷◌, ltb, leb, ◌==◌, ◌||◌,
  if◌then◌else◌, length, take, Outcome, ok, ◌>>=◌,
}
use go_mdf.Base.Uint64.{shl, shr, push_byte}
use go_mdf.Base.Words.{Bytes, index, slice_from}

-- The fields of `Signal` that decoding reads. The parser yields no negative start or length.
pub record Signal : Type 0 where
  pub start_bit : ℕ
  pub len : ℕ
  pub big_endian : Bool
  pub signed : Bool
  pub is_multiplexer : Bool

-- The loop of `leWord`, from the last byte to the first.
unfoldable pub le_word_loop : Bytes → ℕ
le_word_loop [] = 0
le_word_loop (b ∷ bs) = push_byte (le_word_loop bs) b

unfoldable pub le_word : Bytes → ℕ
le_word p = le_word_loop (take 8 p)

-- The loop of `beWord`, from the first byte on.
unfoldable pub be_word_loop : ℕ → Bytes → ℕ
be_word_loop v [] = v
be_word_loop v (b ∷ bs) = be_word_loop (push_byte v b) bs

unfoldable pub be_word : Bytes → ℕ
be_word p =
    let n = if ltb 8 (length p) then 8 else length p in
    shl (be_word_loop 0 (take 8 p)) (8 * (8 - n))

unfoldable pub mask : ℕ → ℕ
mask bits = if leb 64 bits then 2 ^ 64 - 1 else 2 ^ bits - 1

-- The part of `rawLittle` behind its bounds check; a field may span a ninth byte.
unfoldable pub little_field : Bytes → ℕ → ℕ → ℕ → Outcome ℕ
little_field p start_byte bit_off len = do
  q ← slice_from p start_byte
  let v = shr (le_word q) bit_off
  w ←
      (if ltb 64 (bit_off + len)
        then (index p (start_byte + 8) >>= λ b. ok (bit_or v (shl b (64 - bit_off))))
        else ok v)
  ok (bit_and w (mask len))

-- `none` is the `false` of Go's pair.
unfoldable pub raw_little : Signal → Bytes → Outcome (Option ℕ)
raw_little s p =
    let start_byte = s.start_bit / 8 in
    let bit_off = s.start_bit % 8 in
    let need = (bit_off + s.len + 7) / 8 in
    if ltb (length p) (start_byte + need)
    then ok none
    else (little_field p start_byte bit_off s.len >>= λ v. ok (some v))

-- The part of `rawBig` behind its bounds check. `shift := 64 - bitOff - Length` is negative when
-- the field spans nine bytes.
unfoldable pub big_field : Bytes → ℕ → ℕ → ℕ → Outcome ℕ
big_field p first_byte bit_off len = do
  q ← slice_from p first_byte
  let v = be_word q
  w ←
      (if leb (bit_off + len) 64
        then ok (shr v (64 - bit_off - len))
        else (index p (first_byte + 8) >>= λ b.
            ok (bit_or (shl v (bit_off + len - 64)) (shr b (8 + 64 - bit_off - len)))))
  ok (bit_and w (mask len))

unfoldable pub raw_big : Signal → Bytes → Outcome (Option ℕ)
raw_big s p =
    let msb = 8 * (s.start_bit / 8) + (7 - s.start_bit % 8) in
    let first_byte = msb / 8 in
    let bit_off = msb % 8 in
    let need = (bit_off + s.len + 7) / 8 in
    if ltb (length p) (first_byte + need)
    then ok none
    else (big_field p first_byte bit_off s.len >>= λ v. ok (some v))

unfoldable pub raw : Signal → Bytes → Outcome (Option ℕ)
raw s p =
    if s.len == 0 || ltb 64 s.len
    then ok none
    else if s.big_endian
    then raw_big s p
    else raw_little s p
