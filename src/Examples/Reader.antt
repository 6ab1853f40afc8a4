-- ===== src/Examples/Reader.antt =====
-- A section of three stored bytes and a compressed block that inflates to three nines.
use go_mdf.Base.{
  All, ◌≡◌, refl, true, some, List, [], ◌∷◌, replicate, arith, ok, err, out_of_bounds,
}
use go_mdf.Base.Words.{Bytes}
use go_mdf.Source.{slice_at, check_bounds}
use go_mdf.DataSection.Lru.{Lru, new_lru, put}
use go_mdf.DataSection.Resolve.{Segment, SegKind}
use go_mdf.DataSection.Reader.{Zlib, decompress, inflate, Prefetch, read_at}
use go_mdf.DataSection.Reader.Laws.{IsFilled, new-IsFilled}
use go_mdf.DataSection.Reader.Laws.Layout.{IsLaid, segment_bytes}
use go_mdf.DataSection.Reader.Laws.Whole.{IsSafe, read_at-Prefetch}

abbrev pub nines : Zlib
nines = record { opens = λ comp. true; read = λ comp n. some (replicate n 9) }

abbrev pub src : Bytes
src = 1 ∷ 2 ∷ 3 ∷ 4 ∷ 5 ∷ []

abbrev plain : Segment
plain = record {
  logical = 0;
  len = 3;
  addr = 1;
  comp_len = 0;
  zip_param = 0;
  kind = SegKind.seg_stored;
}

abbrev packed : Segment
packed = record {
  logical = 3;
  len = 3;
  addr = 4;
  comp_len = 1;
  zip_param = 0;
  kind = SegKind.seg_deflate;
}

abbrev pub segs : List Segment
segs = plain ∷ packed ∷ []

abbrev pub stream : Bytes
stream = 2 ∷ 3 ∷ 4 ∷ 9 ∷ 9 ∷ 9 ∷ []

pub laid : IsLaid nines src 0 segs stream
unfolding segment_bytes slice_at check_bounds decompress inflate
laid =
    IsLaid.laid_cons {b = 2 ∷ 3 ∷ 4 ∷ []} refl (omega arith) refl refl
      (IsLaid.laid_cons {b = 9 ∷ 9 ∷ 9 ∷ []} refl (omega arith) refl refl IsLaid.laid_nil refl) refl

inflated : decompress nines src packed ≡ ok (9 ∷ 9 ∷ 9 ∷ [])
unfolding slice_at check_bounds decompress inflate
inflated = refl

pub packed-IsSafe : IsSafe nines src segs packed
packed-IsSafe = ((λ k e. absurd (omega (arith, e))), ((λ k e. refl), tt))

pub All-IsSafe : All (IsSafe nines src segs) segs
All-IsSafe = (((λ k e. refl), ((λ k e. absurd (omega (arith, e))), tt)), (packed-IsSafe, tt))

read_at-Prefetch_example :
    (after : Lru) × (read_at nines src segs 6 9 2 (put 4 (9 ∷ 9 ∷ 9 ∷ []) (new_lru 100))
      ≡ (4 ∷ 9 ∷ 9 ∷ 9 ∷ [], after, err out_of_bounds))
    × IsFilled nines src segs after
read_at-Prefetch_example =
    read_at-Prefetch nines src (omega arith) segs stream laid (omega arith) All-IsSafe 9 2
      (new_lru 100) (put 4 (9 ∷ 9 ∷ 9 ∷ []) (new_lru 100)) (omega arith) (omega arith)
      (new-IsFilled nines src segs 100)
      (Prefetch.store packed (9 ∷ 9 ∷ 9 ∷ []) packed-IsSafe inflated Prefetch.done)
