-- ===== src/Unsorted.antt =====
-- unsorted.go: the records of several channel groups, interleaved in one stream, are sorted by
-- record ID. The stream is the data section's bytes; the buffered reader only reads them in order.
pub mod Laws
pub mod Whole
use go_mdf.Base.{
  ℕ, zero, suc, ◌*◌, ◌%◌, ◌^◌, Bool, true, false, ◌||◌, Option, none, some, List, [], ◌∷◌, ◌++◌,
  ltb, leb, ◌==◌, if◌then◌else◌, length, take, drop, Outcome, ok, err, panic, ◌>>=◌, ◌>>◌,
  short_input, unknown_record, bad_spec, max_alloc,
}
use go_mdf.Base.Words.{Bytes, le_value}
use go_mdf.Base.Uint64.{push_byte}

-- A channel group as `deinterleave` uses it: a CGBLOCK's record ID, flag, size and cycle count.
pub record Group : Type 0 where
  pub record_id : ℕ
  pub vlsd : Bool
  pub record_size : ℕ
  pub cycle_count : ℕ

pub record GroupBuf : Type 0 where
  pub buf : Bytes
  pub rec_size : ℕ
  pub vlsd : Bool

-- A Go map, as the function that a lookup computes.
abbrev pub Bufs : Type 0
Bufs = ℕ → Option GroupBuf

abbrev pub insert : ℕ → GroupBuf → Bufs → Bufs
insert id g bufs j = if j == id then some g else bufs j

-- `make([]byte, 0, n)` panics on an `n` that is negative or too large; the product wraps.
unfoldable pub make_capacity : ℕ → ℕ → Outcome Bytes
make_capacity cycle_count rec_size =
    if ltb max_alloc (cycle_count * rec_size % 2 ^ 64) then panic else ok []

unfoldable pub group_buf : Group → Outcome GroupBuf
group_buf cg = if cg.vlsd then ok (record { buf = []; rec_size = 0; vlsd = true }) else (do
  buf ← make_capacity cg.cycle_count cg.record_size
  ok (record { buf = buf; rec_size = cg.record_size; vlsd = false }))

-- The loop over `dg.groups`.
unfoldable pub add_groups : List Group → Bufs → Outcome Bufs
add_groups [] bufs = ok bufs
add_groups (cg ∷ groups) bufs = do
  gb ← group_buf cg
  add_groups groups (insert cg.record_id gb bufs)

-- The loop over `dg.derivedIDs`: a record ID that has a group keeps it.
unfoldable pub add_derived : List (ℕ × ℕ) → Bufs → Bufs
add_derived [] bufs = bufs
add_derived ((id, rec_size) ∷ ids) bufs = add_derived ids (elim (bufs id) [
  | some _ ↦ bufs
  | none ↦ insert id (record { buf = []; rec_size = rec_size; vlsd = false }) bufs
])

-- `io.ReadFull` of `n` bytes: they and what is left.
unfoldable pub read_full : ℕ → Bytes → Outcome (Bytes × Bytes)
read_full n rest = if ltb (length rest) n then err short_input else ok (take n rest, drop n rest)

-- The loop `id = id<<8 | uint64(idBuf[i])`, from the last byte down.
unfoldable pub record_id_of : Bytes → ℕ
record_id_of [] = 0
record_id_of (b ∷ bs) = push_byte (record_id_of bs) b

unfoldable pub find_buf : ℕ → Bufs → Outcome GroupBuf
find_buf id bufs = elim (bufs id) [ none ↦ err unknown_record | some gb ↦ ok gb ]

-- What the record itself adds to its group's buffer, and what is left of the stream.
unfoldable pub read_record : Bool → ℕ → Bytes → Outcome (Bytes × Bytes)
read_record false rec_size rest = read_full rec_size rest
read_record true rec_size rest = do
  (len_buf, rest₁) ← read_full 4 rest
  (payload, rest₂) ← read_full (le_value len_buf) rest₁
  ok (len_buf ++ payload, rest₂)

-- One round of the pass.
unfoldable pub step : ℕ → Bytes → Bufs → Outcome (Bytes × Bufs)
step id_size rest bufs = do
  (id_buf, rest₁) ← read_full id_size rest
  gb ← find_buf (record_id_of id_buf) bufs
  (taken, rest₂) ← read_record gb.vlsd gb.rec_size rest₁
  ok (rest₂, insert (record_id_of id_buf) (record gb { buf = gb.buf ++ taken }) bufs)

-- The pass, on fuel: `none` if the fuel does not last.
unfoldable pub pass : ℕ → ℕ → Bytes → Bufs → Option (Outcome Bufs)
pass fuel id_size [] bufs = some (ok bufs)
pass zero id_size (b ∷ rest) bufs = none
pass (suc fuel) id_size (b ∷ rest) bufs = elim (step id_size (b ∷ rest) bufs) [
  | ok r ↦ pass fuel id_size r.0 r.1
  | err e ↦ some (err e)
  | panic ↦ some panic
]

unfoldable pub valid_size : ℕ → Bool
valid_size n = n == 1 || (n == 2 || (n == 4 || n == 8))

-- The fuel is the length of the stream.
unfoldable pub deinterleave : ℕ → List Group → List (ℕ × ℕ) → Bytes → Option (Outcome Bufs)
deinterleave id_size groups derived section =
    if valid_size id_size
    then elim (add_groups groups (λ id. none)) [
      | ok bufs ↦ pass (length section) id_size section (add_derived derived bufs)
      | err e ↦ some (err e)
      | panic ↦ some panic
    ]
    else some (err bad_spec)
