-- ===== src/Examples/Unsorted.antt =====
-- unsorted.go: a group of two-byte records with ID 1 and a variable-length group with ID 2.
use go_mdf.Base.{
  ℕ, ◌≡◌, refl, true, false, some, List, [], ◌∷◌, ◌++◌, arith, All, ok, panic, Outcome, Post,
  if◌then◌else◌, ◌==◌, none,
}
use go_mdf.Base.Words.{Bytes, le_value}
use go_mdf.Unsorted.{
  Group, Bufs, GroupBuf, add_groups, add_derived, deinterleave, valid_size, group_buf,
  make_capacity,
}
use go_mdf.Unsorted.Laws.{IsKnown, IsSpread, IsRecord, interleave, collect, extend}
use go_mdf.Unsorted.Whole.{
  CanAllocate, no_bufs, deinterleave-IsSpread, deinterleave-interleave, deinterleave_panics,
}

abbrev fixed_group : Group
fixed_group = record { record_id = 1; vlsd = false; record_size = 2; cycle_count = 2 }

abbrev text_group : Group
text_group = record { record_id = 2; vlsd = true; record_size = 0; cycle_count = 0 }

abbrev two_groups : List Group
two_groups = fixed_group ∷ text_group ∷ []

abbrev entries : List (ℕ × Bytes)
entries = (1, 10 ∷ 11 ∷ []) ∷ (2, (1 ∷ 0 ∷ 0 ∷ 0 ∷ []) ++ (99 ∷ [])) ∷ (1, 20 ∷ 21 ∷ []) ∷ []

abbrev fixed_buf : GroupBuf
fixed_buf = record { buf = []; rec_size = 2; vlsd = false }

abbrev text_buf : GroupBuf
text_buf = record { buf = []; rec_size = 0; vlsd = true }

abbrev start : Bufs
start j = if j == 2 then some text_buf else if j == 1 then some fixed_buf else none

start_lem : add_groups two_groups no_bufs ≡ ok start
unfolding add_groups group_buf make_capacity
start_lem = refl

entries-IsKnown : All (IsKnown (add_derived [] start) 1) entries
unfolding add_derived le_value
entries-IsKnown = (
  record { group = fixed_buf; found = refl; form = IsRecord.fixed refl; id_fits = omega arith },
  (
    record {
      group = text_buf;
      found = refl;
      form = IsRecord.variable (1 ∷ 0 ∷ 0 ∷ 0 ∷ []) (99 ∷ []) refl refl;
      id_fits = omega arith;
    },
    (
      record { group = fixed_buf; found = refl; form = IsRecord.fixed refl; id_fits = omega arith },
      tt,
    ),
  ),
)

deinterleave-interleave_example :
    (after : Bufs) × (deinterleave 1 two_groups [] (interleave 1 entries) ≡ some (ok after))
    × ((id : ℕ) → after id ≡ extend (collect id entries) (add_derived [] start id))
deinterleave-interleave_example =
    deinterleave-interleave 1 valid [] two_groups start start_lem entries entries-IsKnown
  where
    valid : valid_size 1 ≡ true
    valid = unfold valid_size in refl

deinterleave-IsSpread_example :
    (bufs : Bufs) × (add_groups two_groups no_bufs ≡ ok bufs)
    × ((r : Outcome Bufs) × (deinterleave 1 two_groups [] (1 ∷ 10 ∷ 11 ∷ []) ≡ some r)
        × Post (IsSpread 1 (1 ∷ 10 ∷ 11 ∷ []) (add_derived [] bufs)) r)
deinterleave-IsSpread_example =
    deinterleave-IsSpread 1 valid [] two_groups
      (CanAllocate.fits (omega arith), (CanAllocate.no_buffer refl, tt)) (1 ∷ 10 ∷ 11 ∷ [])
      (omega arith, (omega arith, (omega arith, tt)))
  where
    valid : valid_size 1 ≡ true
    valid = unfold valid_size in refl

-- 2 ^ 62 cycles of two bytes.
abbrev huge_group : Group
huge_group = record {
  record_id = 1;
  vlsd = false;
  record_size = 2;
  cycle_count = 4611686018427387904;
}

deinterleave_panics_example : deinterleave 1 ([] ++ huge_group ∷ []) [] [] ≡ some panic
deinterleave_panics_example = deinterleave_panics 1 valid [] [] huge_group [] [] refl (omega arith)
  where
    valid : valid_size 1 ≡ true
    valid = unfold valid_size in refl
