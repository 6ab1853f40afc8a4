-- ===== src/Tree/Elements.antt =====
-- tree.go (expandArray): the scalar elements of an array channel. Only what differs between the
-- elements is kept: the indices, which the name shows, and where the element stands in a record.
pub mod Laws
pub mod Circle
use go_mdf.Base.{
  ◌-◌, Option, none, some, ℕ, zero, suc, ◌+◌, ◌*◌, ◌/◌, ◌%◌, ◌^◌, Bool, ◌||◌, not, List, [], ◌∷◌,
  ◌++◌, ltb, ◌==◌, if◌then◌else◌, length, Outcome, ok, err, panic, ◌>>=◌,
}
use go_mdf.Base.Words.{Bytes}
use go_mdf.Blocks.Header.{add64, mul64, same_bytes, peek_id}
use go_mdf.Blocks.Lists.{has_flag}
use go_mdf.Blocks.Array.{Ca, decode_ca, id_ca}

-- A dimension: its size, and what its index adds to the byte offset and to the invalidation bit.
pub record Dim : Type 0 where
  pub size : ℕ
  pub stride : ℕ
  pub inval_stride : ℕ

abbrev pub add32 : ℕ → ℕ → ℕ
add32 a b = (a + b) % 2 ^ 32

abbrev pub mul32 : ℕ → ℕ → ℕ
mul32 a b = a * b % 2 ^ 32

-- `int64` of an `int32`, by bit patterns.
abbrev pub sign_extend : ℕ → ℕ
sign_extend v = if ltb v (2 ^ 31) then v else v + (2 ^ 64 - 2 ^ 32)

-- The dimensions of one level, the last of which has the base strides, and the strides that come next.
unfoldable pub level : ℕ → ℕ → List ℕ → List Dim × ℕ × ℕ
level stride inval [] = ([], stride, inval)
level stride inval (n ∷ ns) =
    let r = level stride inval ns in
    (
      record { size = n; stride = r.1; inval_stride = r.2 } ∷ r.0,
      mul64 r.1 n,
      mul32 r.2 (n % 2 ^ 32),
    )

-- The number of elements; none, or more than 2 ^ 20, are not expanded.
unfoldable pub count_elements : ℕ → List ℕ → Option ℕ
count_elements total [] = some total
count_elements total (n ∷ ns) =
    let rest = count_elements (mul64 total n) ns in
    if mul64 total n == 0 || ltb (2 ^ 20) (mul64 total n) then none else rest

-- The indices of element `k`, the last one the fastest, and what is left of `k`.
unfoldable pub indices : List Dim → ℕ → List ℕ × ℕ
indices [] k = ([], k)
indices (d ∷ ds) k = let r = indices ds k in (r.1 % d.size ∷ r.0, r.1 / d.size)

-- The loop that adds up the offsets.
unfoldable pub offsets : ℕ → ℕ → List Dim → List ℕ → ℕ × ℕ
offsets byte_off inv_off (d ∷ ds) (i ∷ is) =
    offsets (add64 byte_off (mul64 i d.stride)) (add32 inv_off (mul32 (i % 2 ^ 32) d.inval_stride))
      ds is
offsets byte_off inv_off [] is = (byte_off, inv_off)
offsets byte_off inv_off (d ∷ ds) [] = (byte_off, inv_off)

pub record Element : Type 0 where
  pub index : List ℕ
  pub byte_offset : ℕ
  pub inval_bit_pos : ℕ

-- The element of number `k` for a parent channel at `byte_offset`; a channel without an
-- invalidation bit keeps the parent's position.
unfoldable pub element : ℕ → ℕ → Bool → List Dim → ℕ → Element
unfolding offsets indices
element byte_offset inval_bit_pos flag dims k =
    let idx = (indices dims k).0 in
    let off = offsets byte_offset 0 dims idx in
    record {
      index = idx;
      byte_offset = off.0 % 2 ^ 32;
      inval_bit_pos = if flag then add32 inval_bit_pos off.1 else inval_bit_pos;
    }

-- `n` elements from number `k` on.
unfoldable pub elements : ℕ → ℕ → Bool → List Dim → ℕ → ℕ → List Element
elements byte_offset inval_bit_pos flag dims zero k = []
elements byte_offset inval_bit_pos flag dims (suc n) k =
    element byte_offset inval_bit_pos flag dims k
    ∷ elements byte_offset inval_bit_pos flag dims n (suc k)

-- How the walk down the chain of array blocks ends.
pub data Expansion : Type 0 where
  keep : Expansion
  fragmented : Ca → Expansion
  expand : List Dim → ℕ → Expansion

-- What follows a call, unless it fails, in a walk that may run out of fuel.
abbrev pub after : {A B : Type 0} → Outcome A → (A → Option (Outcome B)) → Option (Outcome B)
after (ok a) f = f a
after (err e) f = some (err e)
after panic f = some panic

-- The walk, on fuel, one unit for a block: `none` if the fuel does not last, since a chain can be
-- endless.
unfoldable pub walk : ℕ → Bytes → List Dim → ℕ → ℕ → Option (Outcome Expansion)
unfolding level count_elements
walk zero src dims total addr = none
walk (suc fuel) src dims total addr =
    let block = after (decode_ca src addr) (λ ca.
      let deeper =
        dims ++ (level (sign_extend ca.byte_offset_base) ca.inval_bit_pos_base ca.dim_size).0 in
      let next : ℕ → Option (Outcome Expansion) = λ t. after (peek_id src ca.composition) (λ id.
        if same_bytes id id_ca then walk fuel src deeper t ca.composition else some (ok keep)) in
      let counted : Option (Outcome Expansion) = elim (count_elements total ca.dim_size) [
        | none ↦ some (ok keep)
        | some t ↦ if ca.composition == 0 then walk fuel src deeper t 0 else next t
      ] in
      if length ca.dim_size == 0
      then some (ok keep)
      else if not (ca.storage == 0)
      then some (ok (fragmented ca))
      else counted) in
    if addr == 0 then some (ok (expand dims total)) else block

abbrev pub add_elements : ℕ → ℕ → Bool → Expansion → List Element
add_elements byte_offset inval_bit_pos flag keep = []
add_elements byte_offset inval_bit_pos flag (fragmented ca) = []
add_elements byte_offset inval_bit_pos flag (expand dims total) =
    elements byte_offset inval_bit_pos flag dims total 0

-- `expandArray`, but for the elements of fragmented arrays.
unfoldable pub expand_array : ℕ → Bytes → ℕ → ℕ → Bool → ℕ → Option (Outcome (List Element))
unfolding walk
expand_array fuel src byte_offset inval_bit_pos flag addr = elim (walk fuel src [] 1 addr) [
  | none ↦ none
  | some r ↦ after r (λ e. some (ok (add_elements byte_offset inval_bit_pos flag e)))
]
