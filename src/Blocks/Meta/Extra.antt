-- ===== src/Blocks/Meta/Extra.antt =====
-- internal/blocks/at.go, ev.go and id.go: attachments, events and the identification block.
use go_mdf.Base.{
  ℕ, ◌+◌, ◌*◌, Bool, ◌&&◌, ◌||◌, not, List, [], ◌∷◌, ltb, leb, ◌==◌, if◌then◌else◌, length, Outcome,
  ok, ◌>>=◌, ◌>>◌, invalid_block,
}
use go_mdf.Base.Words.{Bytes, index, slice}
use go_mdf.Source.{slice_at}
use go_mdf.Blocks.Header.{
  header_size, link_size, add64, sub64, same_bytes, refuse, data_len, decode_raw, link,
}
use go_mdf.Blocks.Fields.{field}
use go_mdf.Blocks.Meta.Channel.{attachments}

pub record At : Type 0 where
  pub next : ℕ
  pub filename : ℕ
  pub mimetype : ℕ
  pub comment : ℕ
  pub flags : ℕ
  pub creator_index : ℕ
  pub md5_checksum : Bytes
  pub original_size : ℕ
  pub embedded_size : ℕ
  pub embedded_addr : ℕ

unfoldable pub decode_at : Bytes → ℕ → Outcome At
decode_at src addr = do
  r ← decode_raw src addr (b'#' ∷ b'#' ∷ b'A' ∷ b'T' ∷ []) 4 40
  flags ← field 2 r.content 0
  creator ← field 2 r.content 2
  original ← field 8 r.content 24
  embedded ← field 8 r.content 32
  md5 ← slice r.content 8 24
  refuse (ltb (sub64 (data_len r.header) 40) embedded) invalid_block
  ok (record {
    next = link r 0;
    filename = link r 1;
    mimetype = link r 2;
    comment = link r 3;
    flags = flags;
    creator_index = creator;
    md5_checksum = md5;
    original_size = original;
    embedded_size = embedded;
    embedded_addr = add64 (add64 (add64 addr header_size) (length r.links * link_size)) 40;
  })

pub record Ev : Type 0 where
  pub next : ℕ
  pub parent : ℕ
  pub range : ℕ
  pub name : ℕ
  pub comment : ℕ
  pub scope : List ℕ
  pub at_reference : List ℕ
  pub ev_type : ℕ
  pub sync_type : ℕ
  pub range_type : ℕ
  pub cause : ℕ
  pub flags : ℕ
  pub scope_count : ℕ
  pub attachment_count : ℕ
  pub creator_index : ℕ
  pub sync_base_value : ℕ
  pub sync_factor : ℕ

-- The scope's links behind the five fixed ones, and the place of the next link.
unfoldable pub read_scope : ℕ → List ℕ → Outcome (List ℕ × ℕ)
read_scope n links =
    if leb (5 + n) (length links)
    then (do scope ← slice links 5 (5 + n); ok (scope, 5 + n))
    else ok ([], 5)

unfoldable pub decode_ev : Bytes → ℕ → Outcome Ev
decode_ev src addr = do
  r ← decode_raw src addr (b'#' ∷ b'#' ∷ b'E' ∷ b'V' ∷ []) 5 32
  ev_type ← index r.content 0
  sync ← index r.content 1
  range_type ← index r.content 2
  cause ← index r.content 3
  flags ← index r.content 4
  scopes ← field 4 r.content 8
  count ← field 2 r.content 12
  creator ← field 2 r.content 14
  base ← field 8 r.content 16
  factor ← field 8 r.content 24
  (scope, next) ← read_scope scopes r.links
  (refs, last) ← attachments next count r.links
  ok (record {
    next = link r 0;
    parent = link r 1;
    range = link r 2;
    name = link r 3;
    comment = link r 4;
    scope = scope;
    at_reference = refs;
    ev_type = ev_type;
    sync_type = sync;
    range_type = range_type;
    cause = cause;
    flags = flags;
    scope_count = scopes;
    attachment_count = count;
    creator_index = creator;
    sync_base_value = base;
    sync_factor = factor;
  })

pub record IdBlock : Type 0 where
  pub file : Bytes
  pub version_string : Bytes
  pub program : Bytes
  pub version : ℕ
  pub unfinalized_flags : ℕ
  pub custom_unfin_flags : ℕ

-- `bytes.TrimRight(b, " \x00")`
unfoldable pub trim_right : Bytes → Bytes
trim_right [] = []
trim_right (b ∷ bs) =
    let rest = trim_right bs in if same_bytes rest [] && (b == 32 || b == 0) then [] else b ∷ rest

-- "MDF" and five spaces, and "UnFinMF" and one.
abbrev pub finalized_id : Bytes
finalized_id = b'M' ∷ b'D' ∷ b'F' ∷ 32 ∷ 32 ∷ 32 ∷ 32 ∷ 32 ∷ []

abbrev pub unfinalized_id : Bytes
unfinalized_id = b'U' ∷ b'n' ∷ b'F' ∷ b'i' ∷ b'n' ∷ b'M' ∷ b'F' ∷ 32 ∷ []

unfoldable unfinalized : IdBlock → Bool
unfinalized id = same_bytes id.file unfinalized_id

unfoldable pub decode_id : Bytes → Outcome IdBlock
decode_id src = do
  buf ← slice_at src 0 64
  file ← slice buf 0 8
  version_string ← slice buf 8 16
  program ← slice buf 16 24
  version ← field 2 buf 28
  flags ← field 2 buf 60
  custom ← field 2 buf 62
  refuse (not (same_bytes file finalized_id) && not (same_bytes file unfinalized_id)) invalid_block
  ok (record {
    file = file;
    version_string = trim_right version_string;
    program = trim_right program;
    version = version;
    unfinalized_flags = flags;
    custom_unfin_flags = custom;
  })
