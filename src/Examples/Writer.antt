-- ===== src/Examples/Writer.antt =====
-- The writer with chunks of eight bytes, starting behind one byte of a file.
use go_mdf.Base.{◌≡◌, ◌^◌, ◌<◌, refl, false, none, Option, List, [], ◌∷◌, ◌++◌, arith, ok, length}
use go_mdf.Base.Words.{Bytes, le_bytes}
use go_mdf.Writer.Stream.{ChunkStream, append_stream}
use go_mdf.Writer.Stream.Laws.{stored, IsStream, append_stream-IsStream}
use go_mdf.Vlsd.{append_values, resolve_vlsd}
use go_mdf.Vlsd.RoundTrip.{values_bytes, append_values-resolve_vlsd}

abbrev no_dz : Bytes → Bytes → Option Bytes
no_dz id buf = none

abbrev empty : ChunkStream
empty = record { block_id = b'#' ∷ b'#' ∷ b'S' ∷ b'D' ∷ []; buf = []; total = 0; segs = [] }

empty-IsStream : IsStream (7 ∷ []) empty []
unfolding stored
empty-IsStream = record { bytes = refl; segments = tt; count = refl }

append_stream-IsStream_example :
    let r = append_stream false no_dz 2 (5 ∷ 6 ∷ []) empty (7 ∷ []) in
    IsStream r.1 r.0 ([] ++ 5 ∷ 6 ∷ [])
append_stream-IsStream_example =
    append_stream-IsStream no_dz 2 (7 ∷ []) empty [] (5 ∷ 6 ∷ []) empty-IsStream

abbrev words : List Bytes
words = (b'a' ∷ []) ∷ [] ∷ (b'b' ∷ b'c' ∷ []) ∷ []

append_values-resolve_vlsd_example :
    let r = append_values false no_dz 8 words empty (7 ∷ []) in
    resolve_vlsd (stored r.2 r.1.segs ++ r.1.buf) r.0 ≡ ok words
append_values-resolve_vlsd_example =
    append_values-resolve_vlsd no_dz 8 words empty (7 ∷ []) [] empty-IsStream
      (omega arith, (omega arith, (omega arith, tt))) small
  where
    small : length ([] ++ values_bytes words) < 2 ^ 63
    small = unfold values_bytes le_bytes in omega arith
