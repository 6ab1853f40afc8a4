-- ===== src/Blocks/Fields.antt =====
-- The fields of a block's data: `d[i]`, `le.UintN(d[i:i+n])`, and the loops over words.
-- A floating-point field is its bit pattern.
use go_mdf.Base.{
  ℕ, zero, suc, ◌+◌, ◌*◌, ◌≤◌, ◌≡◌, refl, ap, List, [], ◌∷◌, length, Outcome, ok, ◌>>=◌, Post,
  returns, Post-bind, arith,
}
use go_mdf.Base.Words.{Bytes, index, slice, slice_from, le_uint, index-ok, field-ok, word_at-ok}

abbrev pub field : ℕ → Bytes → ℕ → Outcome ℕ
field n d i = slice d i (i + n) >>= le_uint n

-- `n` words of eight bytes from `pos` on.
unfoldable pub read_words : ℕ → ℕ → Bytes → Outcome (List ℕ)
read_words zero pos d = ok []
read_words (suc n) pos d = do
  w ← (slice_from d pos >>= le_uint 8)
  ws ← read_words n (pos + 8) d
  ok (w ∷ ws)

pub field-Post : (n : ℕ) (d : Bytes) (i : ℕ) → i + n ≤ length d → Post (λ _. Unit) (field n d i)
field-Post n d i h = rw (field-ok d i n h) (returns tt)

pub byte-Post : (d : Bytes) (i : ℕ) → suc i ≤ length d → Post (λ _. Unit) (index d i)
byte-Post d i h = rw (index-ok d i h) (returns tt)

pub read_words-Post :
    (n pos : ℕ) (d : Bytes)
    → pos + 8 * n ≤ length d
    → Post (λ ws. length ws ≡ n) (read_words n pos d)
unfolding read_words
read_words-Post zero pos d h = returns refl
read_words-Post (suc n) pos d h =
    rw (word_at-ok d pos (omega arith))
      (Post-bind (read_words-Post n (pos + 8) d (omega arith)) λ ws k. returns (ap suc k))
