-- ===== src/Reading/Sections.antt =====
-- datasection.go's reader as a section, with any prefetch before each read.
use go_mdf.Base.{ℕ, ◌-◌, ◌^◌, ◌<◌, refl, length, ge→ltb, List, All, Outcome, ok, err, panic, arith}
use go_mdf.Base.Words.{Bytes}
use go_mdf.DataSection.Lru.{Lru}
use go_mdf.DataSection.Resolve.{Segment}
use go_mdf.DataSection.Reader.{Zlib, Reading, read_at, Prefetch}
use go_mdf.DataSection.Reader.Laws.{IsFilled}
use go_mdf.DataSection.Reader.Laws.Layout.{IsLaid}
use go_mdf.DataSection.Reader.Laws.Whole.{IsSafe, read_at-Prefetch}
use go_mdf.Reading.{Section}
use go_mdf.Reading.Sound.{IsSection}

-- The callers drop the bytes of a read that fails.
abbrev bytes_read : Reading → Outcome (Bytes × Lru)
bytes_read (b, c, ok _) = ok (b, c)
bytes_read (b, c, err e) = err e
bytes_read (b, c, panic) = panic

abbrev pub reader_section : Zlib → Bytes → List Segment → ℕ → (ℕ → ℕ → Lru → Lru) → Section Lru
reader_section z src segs size fetch = record {
  size = size;
  read = λ n off c. bytes_read (read_at z src segs size n off (fetch n off c));
}

pub reader_section-IsSection :
    (z : Zlib) (src : Bytes) (segs : List Segment) (whole : Bytes) (fetch : ℕ → ℕ → Lru → Lru)
    → length src < 2 ^ 63
    → IsLaid z src 0 segs whole
    → length whole < 2 ^ 63
    → All (IsSafe z src segs) segs
    → ((n off : ℕ) (c : Lru) → Prefetch z src (IsSafe z src segs) c (fetch n off c))
    → IsSection (reader_section z src segs (length whole) fetch) (IsFilled z src segs) whole
reader_section-IsSection z src segs whole fetch small laid bound safe fetches = record {
  same_size = refl;
  reads = λ n off c v h.
      (let r =
          read_at-Prefetch z src small segs whole laid bound safe n off c (fetch n off c)
            (omega (arith, h, bound)) (omega (arith, h)) v (fetches n off c) in
        (r.0, rw (r.1, ge→ltb (length whole - off) n (omega (arith, h))) refl, r.2));
}
