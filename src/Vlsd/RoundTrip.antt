-- ===== src/Vlsd/RoundTrip.antt =====
-- The values that a writer appends are resolved from their offsets.
use go_mdf.Base.{
  ℕ, ◌+◌, ◌%◌, ◌^◌, ◌<◌, ◌≡◌, refl, sym, ap, ap₂, subst, ◌∙◌, false, Option, inl, inr, Bool-cases,
  List, [], ◌∷◌, ◌++◌, append_assoc, append-nil, ◌==◌, length, take, drop, take-length, drop-length,
  drop-drop, ok, All, arith, length-append, ==→eq, ge→ltb,
}
use go_mdf.Base.Words.{Bytes, le_value, le_bytes, length-le_bytes, le_value-le_bytes}
use go_mdf.Source.{slice_at, slice_at-ok}
use go_mdf.Blocks.Header.{add64, refuse}
use go_mdf.Writer.Stream.{ChunkStream}
use go_mdf.Writer.Stream.Laws.{stored, IsStream, append_stream-IsStream}
use go_mdf.Vlsd.{append_value, append_values, resolve_value, resolve_vlsd}

abbrev pub IsShort : Bytes → Type 0
IsShort s = length s < 2 ^ 32

-- A value as it stands in the stream.
abbrev pub entry : Bytes → Bytes
entry s = le_bytes 4 (length s % 2 ^ 32) ++ s

slice_middle :
    (before b after : Bytes)
    → length (before ++ (b ++ after)) < 2 ^ 63
    → slice_at (before ++ (b ++ after)) (length before) (length b) ≡ ok b
slice_middle before b after small =
    slice_at-ok (before ++ (b ++ after)) (length before) (length b) small
      (omega (arith, length-append before (b ++ after), length-append b after))
    ∙ ap (λ t. ok (take (length b) t)) (drop-length before (b ++ after))
    ∙ ap ok (take-length b after)

module _ (before s after : Bytes) (short : IsShort s)
    (small : length (before ++ (entry s ++ after)) < 2 ^ 63) where
  abbrev sd : Bytes
  sd = before ++ (entry s ++ after)

  length-sd : length sd ≡ length before + (4 + length s) + length after
  length-sd = omega (
    arith,
    length-append before (entry s ++ after),
    length-append (entry s) after,
    length-append (le_bytes 4 (length s % 2 ^ 32)) s,
    length-le_bytes 4 (length s % 2 ^ 32),
  )

  prefix_read : slice_at sd (length before) 4 ≡ ok (le_bytes 4 (length s % 2 ^ 32))
  prefix_read =
      ap (λ t. slice_at (before ++ t) (length before) 4) cut
      ∙ subst
          (λ n.
            slice_at (before ++ (le_bytes 4 (length s % 2 ^ 32) ++ (s ++ after))) (length before) n
            ≡ ok (le_bytes 4 (length s % 2 ^ 32)))
          (length-le_bytes 4 (length s % 2 ^ 32))
          (slice_middle before (le_bytes 4 (length s % 2 ^ 32)) (s ++ after)
            (subst (λ t. length (before ++ t) < 2 ^ 63) cut small))
    where
      cut : entry s ++ after ≡ le_bytes 4 (length s % 2 ^ 32) ++ (s ++ after)
      cut = append_assoc (le_bytes 4 (length s % 2 ^ 32)) s after

  count_read : le_value (le_bytes 4 (length s % 2 ^ 32)) ≡ length s
  count_read = le_value-le_bytes 4 (length s % 2 ^ 32) (omega arith) ∙ omega (arith, short)

  payload_read : slice_at sd (length before + 4) (length s) ≡ ok s
  payload_read =
      slice_at-ok sd (length before + 4) (length s) small (omega (arith, length-sd))
      ∙ ap (λ t. ok (take (length s) t))
          (sym (drop-drop (length before) 4 sd)
            ∙ ap (drop 4) (drop-length before (entry s ++ after))
            ∙ dropped)
      ∙ ap ok (take-length s after)
    where
      dropped : drop 4 (entry s ++ after) ≡ s ++ after
      dropped = unfold le_bytes in refl

  resolve_value-entry : resolve_value sd (length before) ≡ ok s
  unfolding resolve_value refuse
  resolve_value-entry =
      rw
        (
          ge→ltb (add64 (length sd) (2 ^ 63)) (add64 (add64 (length before) 4) (2 ^ 63))
              (omega (arith, length-sd, small)),
          prefix_read,
          count_read,
          ge→ltb (add64 (length sd) (2 ^ 63))
              (add64 (add64 (add64 (length before) 4) (length s)) (2 ^ 63))
              (omega (arith, length-sd, small)),
          start,
        )
        (elim (Bool-cases (length s == 0)) [
          | inl empty ↦ rw empty (ap ok (nothing s (==→eq (length s) 0 empty)))
          | inr full ↦ rw full payload_read
        ])
    where
      start : add64 (length before) 4 ≡ length before + 4
      start = omega (arith, length-sd, small)

      nothing : (t : Bytes) → length t ≡ 0 → [] ≡ t
      nothing [] e = refl
      nothing (x ∷ t) e = absurd (omega (arith, e))

unfoldable pub values_bytes : List Bytes → Bytes
values_bytes [] = []
values_bytes (s ∷ values) = entry s ++ values_bytes values

offsets : ℕ → List Bytes → List ℕ
offsets k [] = []
offsets k (s ∷ values) = k ∷ offsets (k + (4 + length s)) values

length-entry : (s : Bytes) → length (entry s) ≡ 4 + length s
length-entry s =
    omega (
      arith,
      length-append (le_bytes 4 (length s % 2 ^ 32)) s,
      length-le_bytes 4 (length s % 2 ^ 32),
    )

resolve_vlsd-offsets :
    (before : Bytes) (values : List Bytes)
    → All IsShort values
    → length (before ++ values_bytes values) < 2 ^ 63
    → resolve_vlsd (before ++ values_bytes values) (offsets (length before) values) ≡ ok values
unfolding values_bytes offsets resolve_vlsd
resolve_vlsd-offsets before [] h small = refl
resolve_vlsd-offsets before (s ∷ values) (h, hs) small =
    let size : length (before ++ entry s) ≡ length before + (4 + length s) =
      omega (arith, length-append before (entry s), length-entry s) in
    let assoc : (before ++ entry s) ++ values_bytes values
        ≡ before ++ (entry s ++ values_bytes values) =
      append_assoc before (entry s) (values_bytes values) in
    let later =
      resolve_vlsd-offsets (before ++ entry s) values hs
        (subst (λ t. length t < 2 ^ 63) (sym assoc) small) in
    let rest : resolve_vlsd (before ++ (entry s ++ values_bytes values))
          (offsets (length before + (4 + length s)) values)
        ≡ ok values =
      ap₂ (λ t k. resolve_vlsd t (offsets k values)) (sym assoc) (sym size) ∙ later in
    rw (resolve_value-entry before s (values_bytes values) h small, rest)

module _ (build_dz : Bytes → Bytes → Option Bytes) (chunk_size : ℕ) where
  append_value-IsStream :
      (s : Bytes) (cs : ChunkStream) (out content : Bytes)
      → IsStream out cs content
      → let r = append_value false build_dz chunk_size s cs out in
        IsStream r.2 r.1 (content ++ entry s)
  unfolding append_value
  append_value-IsStream s cs out content v =
      subst (IsStream _ _) (append_assoc content (le_bytes 4 (length s % 2 ^ 32)) s) (
        append_stream-IsStream build_dz chunk_size _ _ (content ++ le_bytes 4 (length s % 2 ^ 32)) s
          (append_stream-IsStream build_dz chunk_size out cs content
            (le_bytes 4 (length s % 2 ^ 32)) v))

  append_values-IsStream :
      (values : List Bytes) (cs : ChunkStream) (out content : Bytes)
      → IsStream out cs content
      → length (content ++ values_bytes values) < 2 ^ 63
      → let r = append_values false build_dz chunk_size values cs out in
        (r.0 ≡ offsets (length content) values) × IsStream r.2 r.1 (content ++ values_bytes values)
  unfolding append_values values_bytes offsets
  append_values-IsStream [] cs out content v small =
      (refl, subst (IsStream out cs) (sym (append-nil content)) v)
  append_values-IsStream (s ∷ values) cs out content v small =
      let r = append_value false build_dz chunk_size s cs out in
      let assoc : (content ++ entry s) ++ values_bytes values
          ≡ content ++ (entry s ++ values_bytes values) =
        append_assoc content (entry s) (values_bytes values) in
      let size : length (content ++ entry s) ≡ length content + (4 + length s) =
        omega (arith, length-append content (entry s), length-entry s) in
      let rest =
        append_values-IsStream values r.1 r.2 (content ++ entry s)
          (append_value-IsStream s cs out content v)
          (subst (λ t. length t < 2 ^ 63) (sym assoc) small) in
      let first : r.0 ≡ length content =
        (unfold append_value in
          omega (arith, v.count, small, length-append content (entry s ++ values_bytes values))) in
      (ap₂ ◌∷◌ first (rest.0 ∙ ap (λ k. offsets k values) size), subst (IsStream _ _) assoc rest.1)

  -- Values appended to an uncompressed stream are resolved again: from the offsets that the records
  -- keep and the bytes that the stream then stands for, `resolveVLSD` gets the values in their order.
  pub append_values-resolve_vlsd :
      (values : List Bytes) (cs : ChunkStream) (out content : Bytes)
      → IsStream out cs content
      → All IsShort values
      → length (content ++ values_bytes values) < 2 ^ 63
      → let r = append_values false build_dz chunk_size values cs out in
        resolve_vlsd (stored r.2 r.1.segs ++ r.1.buf) r.0 ≡ ok values
  append_values-resolve_vlsd values cs out content v hs small =
      let p = append_values-IsStream values cs out content v small in
      ap₂ resolve_vlsd p.1.bytes p.0 ∙ resolve_vlsd-offsets content values hs small
