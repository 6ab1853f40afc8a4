-- ===== src/Blocks/Meta/Tree.antt =====
-- internal/blocks/dg.go, hd.go, fh.go, si.go, sr.go and ch.go.
use go_mdf.Base.{
  ℕ, zero, suc, ◌+◌, ◌*◌, Option, none, some, List, [], ◌∷◌, ltb, ◌==◌, if◌then◌else◌, length,
  Outcome, ok, ◌>>=◌, ◌>>◌, invalid_block,
}
use go_mdf.Base.Words.{Bytes, index}
use go_mdf.Blocks.Header.{refuse, decode_raw, link}
use go_mdf.Blocks.Fields.{field}

pub record Dg : Type 0 where
  pub next : ℕ
  pub cg_first : ℕ
  pub section : ℕ
  pub comment : ℕ
  pub rec_id_size : ℕ

unfoldable pub decode_dg : Bytes → ℕ → Outcome Dg
decode_dg src addr = do
  r ← decode_raw src addr (b'#' ∷ b'#' ∷ b'D' ∷ b'G' ∷ []) 4 1
  size ← index r.content 0
  ok (record {
    next = link r 0;
    cg_first = link r 1;
    section = link r 2;
    comment = link r 3;
    rec_id_size = size;
  })

pub record Hd : Type 0 where
  pub dg_first : ℕ
  pub fh_first : ℕ
  pub ch_first : ℕ
  pub at_first : ℕ
  pub ev_first : ℕ
  pub comment : ℕ
  pub start_time : ℕ
  pub tz_offset : ℕ
  pub dst_offset : ℕ
  pub time_flags : ℕ
  pub time_class : ℕ
  pub flags : ℕ
  pub start_angle : ℕ
  pub start_distance : ℕ

unfoldable pub decode_hd : Bytes → ℕ → Outcome Hd
decode_hd src addr = do
  r ← decode_raw src addr (b'#' ∷ b'#' ∷ b'H' ∷ b'D' ∷ []) 6 32
  start ← field 8 r.content 0
  tz ← field 2 r.content 8
  dst ← field 2 r.content 10
  time_flags ← index r.content 12
  class ← index r.content 13
  flags ← index r.content 14
  angle ← field 8 r.content 16
  distance ← field 8 r.content 24
  ok (record {
    dg_first = link r 0;
    fh_first = link r 1;
    ch_first = link r 2;
    at_first = link r 3;
    ev_first = link r 4;
    comment = link r 5;
    start_time = start;
    tz_offset = tz;
    dst_offset = dst;
    time_flags = time_flags;
    time_class = class;
    flags = flags;
    start_angle = angle;
    start_distance = distance;
  })

pub record Fh : Type 0 where
  pub next : ℕ
  pub comment : ℕ
  pub time : ℕ
  pub tz_offset : ℕ
  pub dst_offset : ℕ
  pub time_flags : ℕ

unfoldable pub decode_fh : Bytes → ℕ → Outcome Fh
decode_fh src addr = do
  r ← decode_raw src addr (b'#' ∷ b'#' ∷ b'F' ∷ b'H' ∷ []) 2 13
  time ← field 8 r.content 0
  tz ← field 2 r.content 8
  dst ← field 2 r.content 10
  flags ← index r.content 12
  ok (record {
    next = link r 0;
    comment = link r 1;
    time = time;
    tz_offset = tz;
    dst_offset = dst;
    time_flags = flags;
  })

pub record Si : Type 0 where
  pub name : ℕ
  pub path : ℕ
  pub comment : ℕ
  pub si_type : ℕ
  pub bus_type : ℕ
  pub flags : ℕ

-- A nil link is no source.
unfoldable pub decode_si : Bytes → ℕ → Outcome (Option Si)
decode_si src addr = if addr == 0 then ok none else (do
  r ← decode_raw src addr (b'#' ∷ b'#' ∷ b'S' ∷ b'I' ∷ []) 3 3
  si_type ← index r.content 0
  bus ← index r.content 1
  flags ← index r.content 2
  ok (
      some (record {
        name = link r 0;
        path = link r 1;
        comment = link r 2;
        si_type = si_type;
        bus_type = bus;
        flags = flags;
      })))

pub record Sr : Type 0 where
  pub next : ℕ
  pub section : ℕ
  pub cycle_count : ℕ
  pub interval : ℕ
  pub sync_type : ℕ
  pub flags : ℕ

unfoldable pub decode_sr : Bytes → ℕ → Outcome Sr
decode_sr src addr = do
  r ← decode_raw src addr (b'#' ∷ b'#' ∷ b'S' ∷ b'R' ∷ []) 2 18
  cycles ← field 8 r.content 0
  interval ← field 8 r.content 8
  sync ← index r.content 16
  flags ← index r.content 17
  ok (record {
    next = link r 0;
    section = link r 1;
    cycle_count = cycles;
    interval = interval;
    sync_type = sync;
    flags = flags;
  })

-- The links to a channel, its group and its data group.
pub record ChElement : Type 0 where
  pub dg : ℕ
  pub cg : ℕ
  pub cn : ℕ

pub record Ch : Type 0 where
  pub next : ℕ
  pub first : ℕ
  pub name : ℕ
  pub comment : ℕ
  pub elements : List ChElement
  pub element_count : ℕ
  pub ch_type : ℕ

-- The loop over the elements, with `n` left, at element `i`.
unfoldable pub read_elements : ℕ → ℕ → List ℕ → Outcome (List ChElement)
read_elements zero i links = ok []
read_elements (suc n) i links = do
  dg ← index links (4 + 3 * i)
  cg ← index links (4 + 3 * i + 1)
  cn ← index links (4 + 3 * i + 2)
  es ← read_elements n (i + 1) links
  ok (record { dg = dg; cg = cg; cn = cn } ∷ es)

unfoldable pub decode_ch : Bytes → ℕ → Outcome Ch
decode_ch src addr = do
  r ← decode_raw src addr (b'#' ∷ b'#' ∷ b'C' ∷ b'H' ∷ []) 4 5
  n ← field 4 r.content 0
  ch_type ← index r.content 4
  refuse (ltb (length r.links) (4 + 3 * n)) invalid_block
  es ← read_elements n 0 r.links
  ok (record {
    next = link r 0;
    first = link r 1;
    name = link r 2;
    comment = link r 3;
    elements = es;
    element_count = n;
    ch_type = ch_type;
  })
