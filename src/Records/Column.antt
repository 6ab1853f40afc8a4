-- ===== src/Records/Column.antt =====
-- internal/records/records.go: the columns that channel samples are extracted to.
use go_mdf.Base.{
  ℕ, ◌*◌, Bool, Option, none, some, List, [], leb, if◌then◌else◌, length, Outcome, ok, err, panic,
  ◌>>=◌, ◌>>◌, unsupported, ltb, max_alloc,
}
use go_mdf.Base.Words.{Bytes}
use go_mdf.Records.Bitset.{Bitset, new_bitset}

pub data Kind : Type 0 where
  floats : Kind
  ints : Kind
  uints : Kind
  strings : Kind
  blobs : Kind

-- An absent invalidation bit is -1 in the code.
pub record ColumnSpec : Type 0 where
  pub byte_offset : ℕ
  pub bit_offset : ℕ
  pub bit_count : ℕ
  pub data_type : ℕ
  pub inval_bit : Option ℕ
  pub data_bytes : ℕ
  pub as_float : Bool

unfoldable pub native_kind : ℕ → Bool → Outcome Kind
native_kind t as_float =
    if leb t 1
    then ok (if as_float then floats else uints)
    else if leb t 3
    then ok (if as_float then floats else ints)
    else if leb t 5
    then ok floats
    else if leb t 9
    then ok strings
    else if leb t 14
    then ok blobs
    else err unsupported

-- Signed samples are bit patterns.
pub record Column {ℓ} (W : Type ℓ) : Type ℓ where
  pub kind : Kind
  pub f : List W
  pub i : List ℕ
  pub u : List ℕ
  pub s : List Bytes
  pub b : List Bytes
  pub invalid : Option Bitset

-- The bytes that an element of a slice takes.
abbrev pub element_size : Kind → ℕ
element_size strings = 16
element_size blobs = 24
element_size _ = 8

-- `make` panics if the slice takes more bytes than the runtime allocates.
unfoldable pub make_slice : ℕ → ℕ → Outcome (Unit {0})
make_slice size n = if ltb max_alloc (size * n) then panic else ok tt

-- A bitset for `capacity` flags is empty.
abbrev pub new_invalid : Option ℕ → Option Bitset
new_invalid none = none
new_invalid (some bit) = some new_bitset

unfoldable pub new_column {ℓ} : {W : Type ℓ} → ColumnSpec → ℕ → Outcome (Column W)
new_column spec capacity = do
  kind ← native_kind spec.data_type spec.as_float
  make_slice (element_size kind) capacity
  ok (record {
    kind = kind;
    f = [];
    i = [];
    u = [];
    s = [];
    b = [];
    invalid = new_invalid spec.inval_bit;
  })

unfoldable pub column_len {ℓ} : {W : Type ℓ} → Column W → ℕ
column_len c = elim c.kind [
  | floats ↦ length c.f
  | ints ↦ length c.i
  | uints ↦ length c.u
  | strings ↦ length c.s
  | blobs ↦ length c.b
]
