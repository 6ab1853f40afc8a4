-- ===== src/DataSection/Resolve.antt =====
-- internal/datasection/datasection.go: a data section's address is resolved to segments of the file.
-- Offsets and lengths are `int64`s by their bit patterns.
pub mod Laws
use go_mdf.Base.{
  ℕ, zero, suc, ◌+◌, ◌-◌, ◌*◌, ◌/◌, ◌%◌, ◌^◌, Bool, true, false, ◌&&◌, ◌||◌, not, Option, none,
  some, List, [], ◌∷◌, ◌++◌, ltb, ◌==◌, if◌then◌else◌, length, Outcome, ok, err, panic, ◌>>=◌, ◌>>◌,
  invalid_block, unsupported, column_storage, unexpected_block,
}
use go_mdf.Base.Words.{Bytes, index, slice, le_uint}
use go_mdf.Source.{slice_at}
use go_mdf.Blocks.Header.{
  header_size, add64, sub64, mul64, same_bytes, Header, data_len, refuse, decode_header, peek_id,
}
use go_mdf.Blocks.Lists.{
  id_dl, id_ld, id_hl, id_dz, has_flag, equal_flag, Dl, decode_dl, decode_hl, decode_dz,
}

pub data SegKind : Type 0 where
  seg_stored : SegKind
  seg_deflate : SegKind
  seg_transpose_deflate : SegKind
  seg_zero : SegKind

-- A logical byte range of the section, and where it stands in the file.
pub record Segment : Type 0 where
  pub logical : ℕ
  pub len : ℕ
  pub addr : ℕ
  pub comp_len : ℕ
  pub zip_param : ℕ
  pub kind : SegKind

-- `a < b` on `int64`s.
abbrev pub slt : ℕ → ℕ → Bool
slt a b = ltb (add64 a (2 ^ 63)) (add64 b (2 ^ 63))

unfoldable pub clamped_header : Bytes → ℕ → Outcome Header
clamped_header src addr = do
  buf ← slice_at src addr header_size
  id ← slice buf 0 4
  stored ← (slice buf 8 16 >>= le_uint 8)
  count ← (slice buf 16 24 >>= le_uint 8)
  c0 ← index id 0
  c1 ← index id 1
  refuse (not (c0 == b'#') || not (c1 == b'#') || not (count == 0)) invalid_block
  let max = sub64 (length src) addr
  let clamped = if ltb max stored then max else stored
  ok (record {
    id = id;
    len = if ltb clamped header_size then header_size else clamped;
    link_count = count;
  })

unfoldable pub stored_header : Bytes → Bool → ℕ → Outcome Header
stored_header src clamp addr = elim (decode_header src addr []) [
  | ok h ↦ ok h
  | err e ↦ if clamp then clamped_header src addr else err e
  | panic ↦ panic
]

-- With `clamp` a length that overruns the file, or was never written, ends at the file's end.
unfoldable pub stored_len : Bytes → Bool → ℕ → Header → ℕ
stored_len src clamp addr h =
    let n = data_len h in
    let max = sub64 (sub64 (length src) addr) header_size in
    if clamp then (if slt max n then max else if n == 0 && slt 0 max then max else n) else n

unfoldable pub add_stored : Bytes → Bool → ℕ → ℕ → Outcome Segment
add_stored src clamp addr logical = do
  h ← stored_header src clamp addr
  ok (record {
    logical = logical;
    len = stored_len src clamp addr h;
    addr = add64 addr header_size;
    comp_len = 0;
    zip_param = 0;
    kind = seg_stored;
  })

unfoldable pub zip_kind : ℕ → Outcome SegKind
zip_kind zip_type =
    if zip_type == 0
    then ok seg_deflate
    else if zip_type == 1
    then ok seg_transpose_deflate
    else err unsupported

unfoldable pub add_zipped : Bytes → ℕ → ℕ → Outcome Segment
add_zipped src addr logical = do
  dz ← decode_dz src addr
  kind ← zip_kind dz.zip_type
  ok (record {
    logical = logical;
    len = dz.org_data_length;
    addr = dz.data_addr;
    comp_len = dz.data_length;
    zip_param = dz.zip_parameter;
    kind = kind;
  })

-- DT, DV, SD and RD blocks hold plain bytes.
unfoldable pub is_plain : Bytes → Bool
is_plain id =
    same_bytes id (b'#' ∷ b'#' ∷ b'D' ∷ b'T' ∷ [])
    || (same_bytes id (b'#' ∷ b'#' ∷ b'D' ∷ b'V' ∷ [])
        || (same_bytes id (b'#' ∷ b'#' ∷ b'S' ∷ b'D' ∷ [])
            || same_bytes id (b'#' ∷ b'#' ∷ b'R' ∷ b'D' ∷ [])))

-- DI, RV and RI blocks are parts of column storage.
unfoldable pub is_column_part : Bytes → Bool
is_column_part id =
    same_bytes id (b'#' ∷ b'#' ∷ b'D' ∷ b'I' ∷ [])
    || (same_bytes id (b'#' ∷ b'#' ∷ b'R' ∷ b'V' ∷ [])
        || same_bytes id (b'#' ∷ b'#' ∷ b'R' ∷ b'I' ∷ []))

-- One entry of a data list.
unfoldable pub add_entry : Bytes → Bool → ℕ → ℕ → Outcome Segment
add_entry src clamp addr logical = do
  id ← peek_id src addr
  (if is_plain id
      then add_stored src clamp addr logical
      else if same_bytes id id_dz
      then add_zipped src addr logical
      else err unexpected_block)

-- Where the block `i` of a list starts, the block `global` of the whole chain.
unfoldable pub entry_logical : Dl → ℕ → ℕ → Outcome ℕ
entry_logical dl i global =
    if has_flag dl.flags equal_flag then ok (mul64 dl.equal_length global) else index dl.offsets i

-- The loop over a list's blocks, at block `i`: the next index and the segments, in order.
unfoldable pub add_entries : Bytes → Bool → Dl → ℕ → ℕ → List ℕ → Outcome (ℕ × List Segment)
add_entries src clamp dl i global [] = ok (global, [])
add_entries src clamp dl i global (addr ∷ blocks) =
    let rest = add_entries src clamp dl (i + 1) (if addr == 0 then global else global + 1) blocks in
    if addr == 0 then rest else (do
      logical ← entry_logical dl i global
      seg ← add_entry src clamp addr logical
      (last, segs) ← rest
      ok (last, seg ∷ segs))

-- One round of the walk: the next list, the next index and the list's segments.
unfoldable pub add_list : Bytes → Bool → ℕ → ℕ → Outcome (ℕ × ℕ × List Segment)
add_list src clamp addr global = do
  dl ← decode_dl src addr
  (last, segs) ← add_entries src clamp dl 0 global dl.blocks
  ok (dl.next, last, segs)

-- The walk of a chain of lists, on fuel: `none` if the fuel does not last.
unfoldable pub resolve_chain :
    ℕ → Bytes → Bool → ℕ → ℕ → List Segment → Option (Outcome (List Segment))
resolve_chain zero src clamp addr global segs = if addr == 0 then some (ok segs) else none
resolve_chain (suc fuel) src clamp addr global segs =
    let rest : Option (Outcome (List Segment)) = elim (add_list src clamp addr global) [
      | ok r ↦ resolve_chain fuel src clamp r.0 r.1 (segs ++ r.2)
      | err e ↦ some (err e)
      | panic ↦ some panic
    ] in
    if addr == 0 then some (ok segs) else rest

abbrev one_segment : Outcome Segment → Option (Outcome (List Segment))
one_segment (ok s) = some (ok (s ∷ []))
one_segment (err e) = some (err e)
one_segment panic = some panic

unfoldable pub resolve : ℕ → Bytes → Bool → ℕ → Option (Outcome (List Segment))
resolve fuel src clamp addr = elim (peek_id src addr) [
  | ok id ↦
      if is_plain id
      then one_segment (add_stored src clamp addr 0)
      else if same_bytes id id_dz
      then one_segment (add_zipped src addr 0)
      else if same_bytes id id_hl
      then elim (decode_hl src addr) [
        | ok hl ↦ resolve_chain fuel src clamp hl.dl_first 0 []
        | err e ↦ some (err e)
        | panic ↦ some panic
      ]
      else if same_bytes id id_dl
      then resolve_chain fuel src clamp addr 0 []
      else if same_bytes id id_ld
      then some (err column_storage)
      else if is_column_part id
      then some (err unsupported)
      else some (err unexpected_block)
  | err e ↦ some (err e)
  | panic ↦ some panic
]
