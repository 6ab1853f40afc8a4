-- ===== src/Writer/Stream/Laws.antt =====
-- Uncompressed streams: the chunks in the file and the buffer together are the bytes appended.
use go_mdf.Base.{
  ℕ, zero, suc, ◌+◌, ◌-◌, ◌%◌, ◌^◌, ◌≤◌, ◌≡◌, refl, sym, ap, ap₂, subst, ◌∙◌, false, Option, inl,
  inr, Bool-cases, List, [], ◌∷◌, ◌++◌, append-nil, append_assoc, leb, ◌==◌, length, replicate,
  take, drop, take_all, All, All-append, arith, length-append, length-replicate, length-take,
  length-drop, drop-drop, drop-length, ==→eq, ==→ne,
}
use go_mdf.Base.Words.{Bytes, le_bytes}
use go_mdf.Blocks.Header.{add64}
use go_mdf.Blocks.Encode.{link_bytes, build}
use go_mdf.Writer.Stream.{
  align8, write_block, Wseg, ChunkStream, chunk_block, flush_chunk, append_stream,
}

-- The bytes of a segment that stands uncompressed in the file, behind its block's header.
pub seg_bytes : Bytes → Wseg → Bytes
seg_bytes out s = take s.org_len (drop (s.addr + 24) out)

unfoldable pub stored : Bytes → List Wseg → Bytes
stored out [] = []
stored out (s ∷ segs) = seg_bytes out s ++ stored out segs

pub record IsInside (out : Bytes) (s : Wseg) : Type 0 where
  inside : s.addr + 24 + s.org_len ≤ length out
  aligned : s.addr % 8 ≡ 0

-- The stream `cs` in the file `out` stands for the bytes `content`.
pub record IsStream (out : Bytes) (cs : ChunkStream) (content : Bytes) : Type 0 where
  pub bytes : stored out cs.segs ++ cs.buf ≡ content
  pub segments : All (IsInside out) cs.segs
  pub count : cs.total ≡ length content % 2 ^ 64

drop_left : (k : ℕ) (xs ys : Bytes) → k ≤ length xs → drop k (xs ++ ys) ≡ drop k xs ++ ys
drop_left zero xs ys h = refl
drop_left (suc k) [] ys h = absurd (omega (arith, h))
drop_left (suc k) (x ∷ xs) ys h = drop_left k xs ys (omega (arith, h))

take_left : (k : ℕ) (xs ys : Bytes) → k ≤ length xs → take k (xs ++ ys) ≡ take k xs
take_left zero xs ys h = refl
take_left (suc k) [] ys h = absurd (omega (arith, h))
take_left (suc k) (x ∷ xs) ys h = ap (◌∷◌ x) (take_left k xs ys (omega (arith, h)))

seg_bytes_later :
    (out more : Bytes) (s : Wseg) → IsInside out s → seg_bytes (out ++ more) s ≡ seg_bytes out s
unfolding seg_bytes
seg_bytes_later out more s h =
    ap (take s.org_len) (drop_left (s.addr + 24) out more (omega (arith, h.inside)))
    ∙ take_left s.org_len (drop (s.addr + 24) out) more
        (omega (arith, h.inside, length-drop (s.addr + 24) out))

stored_later :
    (out more : Bytes) (segs : List Wseg)
    → All (IsInside out) segs
    → stored (out ++ more) segs ≡ stored out segs
unfolding stored
stored_later out more [] h = refl
stored_later out more (s ∷ segs) (h, hs) =
    ap₂ ◌++◌ (seg_bytes_later out more s h) (stored_later out more segs hs)

All-IsInside_later :
    (out more : Bytes) (segs : List Wseg)
    → All (IsInside out) segs
    → All (IsInside (out ++ more)) segs
All-IsInside_later out more [] h = tt
All-IsInside_later out more (s ∷ segs) (h, hs) = (
  record { inside = omega (arith, h.inside, length-append out more); aligned = h.aligned },
  All-IsInside_later out more segs hs,
)

stored-append :
    (out : Bytes) (xs ys : List Wseg) → stored out (xs ++ ys) ≡ stored out xs ++ stored out ys
unfolding stored
stored-append out [] ys = refl
stored-append out (x ∷ xs) ys =
    ap (λ t. seg_bytes out x ++ t) (stored-append out xs ys)
    ∙ sym (append_assoc (seg_bytes out x) (stored out xs) (stored out ys))

-- What stands behind a header is the data.
build_data :
    (id buf : Bytes)
    → (drop 24 (build id [] buf) ≡ buf) × (length (build id [] buf) ≡ 24 + length buf)
unfolding build link_bytes le_bytes
build_data id buf = (
  sym (drop-drop 4 20 (take 4 (id ++ replicate 4 0) ++ rest))
      ∙ ap (drop 20) (
          subst (λ k. drop k (take 4 (id ++ replicate 4 0) ++ rest) ≡ rest) four
            (drop-length (take 4 (id ++ replicate 4 0)) rest)),
  omega (arith, length-append (take 4 (id ++ replicate 4 0)) rest, four),
)
  where
    rest : Bytes
    rest = replicate 4 0 ++ (le_bytes 8 (24 + 0 + length buf) ++ (le_bytes 8 0 ++ buf))

    four : length (take 4 (id ++ replicate 4 0)) ≡ 4
    four = omega (arith, length-take 4 (id ++ replicate 4 0), length-append id (replicate 4 0))

align8_lem :
    (out : Bytes) → (pad : Bytes) × (align8 out ≡ out ++ pad) × (length (align8 out) % 8 ≡ 0)
unfolding align8
align8_lem out = elim (Bool-cases (length out % 8 == 0)) [
  | inl even ↦ rw even ([], sym (append-nil out), ==→eq (length out % 8) 0 even)
  | inr odd ↦ rw odd (
    replicate (8 - length out % 8) 0,
    refl,
    omega (
      arith,
      length-append out (replicate (8 - length out % 8) 0),
      length-replicate {A = ℕ} (8 - length out % 8) 0,
      ==→ne (length out % 8) 0 odd,
    ),
  )
]

module _ (build_dz : Bytes → Bytes → Option Bytes) (chunk_size : ℕ) where
  module _ (out : Bytes) (cs : ChunkStream) (content : Bytes) (v : IsStream out cs content) where
    abbrev pad : Bytes
    pad = (align8_lem out).0

    abbrev block : Bytes
    block = build cs.block_id [] cs.buf

    abbrev seg : Wseg
    seg = record { addr = length (align8 out); org_len = length cs.buf }

    new_seg : seg_bytes (align8 out ++ block) seg ≡ cs.buf
    unfolding seg_bytes
    new_seg =
        ap (take (length cs.buf)) (
          sym (drop-drop (length (align8 out)) 24 (align8 out ++ block))
          ∙ ap (drop 24) (drop-length (align8 out) block)
          ∙ (build_data cs.block_id cs.buf).0)
        ∙ take_all (length cs.buf) cs.buf (omega arith)

    written : align8 out ++ block ≡ out ++ (pad ++ block)
    written = ap (λ t. t ++ block) (align8_lem out).1 ∙ append_assoc out pad block

    new_bytes : stored (align8 out ++ block) (cs.segs ++ seg ∷ []) ++ [] ≡ content
    unfolding stored
    new_bytes =
        append-nil _
        ∙ stored-append (align8 out ++ block) cs.segs (seg ∷ [])
        ∙ ap₂ ◌++◌
            (ap (λ t. stored t cs.segs) written
              ∙ stored_later out (pad ++ block) cs.segs v.segments)
            (append-nil _ ∙ new_seg)
        ∙ v.bytes

    new_segments : All (IsInside (align8 out ++ block)) (cs.segs ++ seg ∷ [])
    new_segments =
        All-append (IsInside (align8 out ++ block)) cs.segs (seg ∷ [])
          (subst (λ t. All (IsInside t) cs.segs) (sym written)
            (All-IsInside_later out (pad ++ block) cs.segs v.segments))
          (
            record {
              inside =
                  omega
                    (arith, length-append (align8 out) block, (build_data cs.block_id cs.buf).1);
              aligned = (align8_lem out).2;
            },
            tt,
          )

    -- Flushing the buffer as a block leaves what the stream stands for, and nothing in the buffer.
    pub flush_chunk-IsStream :
        IsStream
          (flush_chunk false build_dz chunk_size cs out).1
          (flush_chunk false build_dz chunk_size cs out).0
          content
        × (length (flush_chunk false build_dz chunk_size cs out).0.buf ≡ 0)
    unfolding flush_chunk chunk_block write_block
    flush_chunk-IsStream = elim (Bool-cases (length cs.buf == 0)) [
      | inl empty ↦ rw empty (v, ==→eq (length cs.buf) 0 empty)
      | inr full ↦
          rw full (record { bytes = new_bytes; segments = new_segments; count = v.count }, refl)
    ]

  -- Appending to an uncompressed stream appends to the bytes that it stands for, whether a chunk is
  -- flushed or not: the chunks in the file, each at an offset divisible by eight, and the buffer.
  pub append_stream-IsStream :
      (out : Bytes) (cs : ChunkStream) (content b : Bytes)
      → IsStream out cs content
      → IsStream
          (append_stream false build_dz chunk_size b cs out).1
          (append_stream false build_dz chunk_size b cs out).0
          (content ++ b)
  unfolding append_stream
  append_stream-IsStream out cs content b v =
      elim (Bool-cases (leb chunk_size (length (cs.buf ++ b)))) [
        | inl full ↦ rw full (flush_chunk-IsStream out _ (content ++ b) more).0
        | inr room ↦ rw room more
      ]
    where
      more :
          IsStream out
            (record cs { total = add64 cs.total (length b); buf = cs.buf ++ b })
            (content ++ b)
      more = record {
        bytes = sym (append_assoc (stored out cs.segs) cs.buf b) ∙ ap (λ t. t ++ b) v.bytes;
        segments = v.segments;
        count = omega (arith, v.count, length-append content b);
      }
