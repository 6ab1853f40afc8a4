-- ===== src/Records/Bitset.antt =====
-- internal/records/bitset.go: the packed flag set, against the list of the flags appended.
pub mod Laws
use Prim.Native.Nat.{bit_and, bit_or}
use go_mdf.Base.{
  ℕ, zero, suc, ◌+◌, ◌-◌, ◌*◌, ◌/◌, ◌%◌, ◌^◌, ◌≤◌, ◌<◌, ◌≡◌, ◌≢◌, refl, sym, ap, ap₂, subst, ◌∙◌,
  Bool, true, false, Option, none, some, List, [], ◌∷◌, ◌++◌, ltb, leb, ◌==◌, ◌||◌, not,
  if◌then◌else◌, length, take, drop, All, ok, panic, ◌>>=◌, arith, min, inl, inr, Bool-cases,
  get_or, set, Outcome,
}
use go_mdf.Base.Words.{index}

pub record Bitset : Type 0 where
  pub words : List ℕ
  pub n : ℕ

unfoldable pub new_bitset : Bitset
new_bitset = record { words = []; n = 0 }

-- `b.words[i] |= m`, which panics out of range.
or_at : List ℕ → ℕ → ℕ → Outcome (List ℕ)
or_at ws i m = index ws i >>= λ w. ok (set ws i (bit_or w m))

unfoldable pub append : Bitset → Bool → Outcome Bitset
unfolding or_at
append b v = do
  let grown = if b.n % 64 == 0 then b.words ++ 0 ∷ [] else b.words
  ws ← (if v then or_at grown (b.n / 64) (2 ^ (b.n % 64)) else ok grown)
  ok (record { words = ws; n = b.n + 1 })

-- A negative index, for which `Get` is false too, is no natural number.
unfoldable pub get : Bitset → ℕ → Outcome Bool
get b i =
    if leb b.n i
    then ok false
    else (index b.words (i / 64) >>= λ w. ok (not (bit_and w (2 ^ (i % 64)) == 0)))

unfoldable pub len : Bitset → ℕ
len b = b.n
