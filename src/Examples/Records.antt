-- ===== src/Examples/Records.antt =====
-- internal/records on concrete fields and flags.
use go_mdf.Base.{ℕ, ◌≡◌, ◌≢◌, true, false, Bool, List, [], ◌∷◌, arith, ok, get_or}
use go_mdf.Base.Words.{Bytes, le_value}
use go_mdf.Records.BitField.{bit_field, bit_field_reads, bit_field_loses}
use go_mdf.Records.Bitset.{Bitset, new_bitset, get, len}
use go_mdf.Records.Bitset.Laws.{append_all, append_all-get}

abbrev bytes : Bytes
bytes = 0x12 ∷ 0x34 ∷ 0x56 ∷ 0x78 ∷ 0x9a ∷ 0xbc ∷ 0xde ∷ 0xf0 ∷ 0xff ∷ []

bit_field_reads_example : bit_field bytes 4 12 false ≡ ok 0x341
unfolding le_value
bit_field_reads_example =
    bit_field_reads bytes (omega arith) 4 12 false (omega arith) (omega arith) (omega arith)

bit_field_loses_example : bit_field bytes 4 64 false ≢ ok 0xff0debc9a7856341
unfolding le_value
bit_field_loses_example =
    bit_field_loses bytes (omega arith) 4 64 false (omega arith) (omega arith) (omega arith)
      (omega arith) (omega arith)

abbrev three : List Bool
three = true ∷ false ∷ true ∷ []

append_all-get_example :
    (b : Bitset) × (append_all new_bitset three ≡ ok b)
    × (len b ≡ 3)
    × ((i : ℕ) → get b i ≡ ok (get_or three i false))
append_all-get_example = append_all-get three
