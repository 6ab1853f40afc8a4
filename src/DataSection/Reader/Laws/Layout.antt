-- ===== src/DataSection/Reader/Laws/Layout.antt =====
-- Segments laid one behind the other, and the one that holds an offset.
use go_mdf.Base.{
  ℕ, zero, suc, ◌+◌, ◌-◌, ◌^◌, ◌≤◌, ◌<◌, ◌≡◌, refl, sym, ap, ap₂, subst, ◌∙◌, true, false, inl, inr,
  Bool-cases, Option, some, List, [], ◌∷◌, ◌++◌, ltb, length, replicate, drop, Outcome, ok, All,
  arith, length-append, lt→ltb, ge→ltb, ltb→lt, ltb→ge, drop-drop, drop-length,
}
use go_mdf.Base.Words.{Bytes}
use go_mdf.Source.{slice_at}
use go_mdf.Blocks.Header.{add64}
use go_mdf.DataSection.Resolve.{
  Segment, SegKind, seg_stored, seg_deflate, seg_transpose_deflate, seg_zero, slt,
}
use go_mdf.DataSection.Reader.{Zlib, decompress, locate}

-- The bytes that a segment stands for, read without a cache.
unfoldable pub segment_bytes : SegKind → Zlib → Bytes → Segment → Outcome Bytes
segment_bytes seg_stored z src s = slice_at src s.addr s.len
segment_bytes seg_zero z src s = ok (replicate s.len 0)
segment_bytes seg_deflate z src s = decompress z src s
segment_bytes seg_transpose_deflate z src s = decompress z src s

-- The segments follow each other from `start` on without a gap, none is empty, each can be read and
-- has its announced length, and together they are `whole`.
pub data IsLaid (z : Zlib) (src : Bytes) : ℕ → List Segment → Bytes → Type 0 where
  laid_nil : {start : ℕ} → IsLaid z src start [] []
  laid_cons :
      {start : ℕ} {s : Segment} {segs : List Segment} {b content whole : Bytes}
      → s.logical ≡ start
      → 0 < length b
      → s.len ≡ length b
      → segment_bytes s.kind z src s ≡ ok b
      → IsLaid z src (start + length b) segs content
      → whole ≡ b ++ content
      → IsLaid z src start (s ∷ segs) whole

pub slt-true : (a b : ℕ) → a < b → b < 2 ^ 63 → slt a b ≡ true
slt-true a b h k = lt→ltb (add64 a (2 ^ 63)) (add64 b (2 ^ 63)) (omega (arith, h, k))

pub slt-false : (a b : ℕ) → b ≤ a → a < 2 ^ 63 → slt a b ≡ false
slt-false a b h k = ge→ltb (add64 a (2 ^ 63)) (add64 b (2 ^ 63)) (omega (arith, h, k))

drop_left : (k : ℕ) (xs ys : Bytes) → k ≤ length xs → drop k (xs ++ ys) ≡ drop k xs ++ ys
drop_left zero xs ys h = refl
drop_left (suc k) [] ys h = absurd (omega (arith, h))
drop_left (suc k) (x ∷ xs) ys h = drop_left k xs ys (omega (arith, h))

module _ (z : Zlib) (src : Bytes) where
  -- The segment that holds `off`, with its content.
  pub record Holds (P : Segment → Type 0) (found : Option Segment) (off : ℕ) (view : Bytes)
      : Type 0 where
    pub seg : Segment
    pub found_eq : found ≡ some seg
    pub holds : P seg
    pub content : Bytes
    pub content_eq : segment_bytes seg.kind z src seg ≡ ok content
    pub len_eq : seg.len ≡ length content
    pub low : seg.logical ≤ off
    pub high : off < seg.logical + length content
    pub fits : seg.logical + length content < 2 ^ 63
    pub rest : Bytes
    pub view_eq : view ≡ drop (off - seg.logical) content ++ rest

  stays :
      {start : ℕ} {segs : List Segment} {whole : Bytes} (best : Option Segment) (off : ℕ)
      → IsLaid z src start segs whole
      → off < start
      → start + length whole < 2 ^ 63
      → locate best segs off ≡ best
  unfolding locate
  stays best off laid_nil h small = refl
  stays {start} best off (laid_cons {s = s} first more len bytes next e) h small =
      rw (slt-true off s.logical (omega (arith, first, h)) (omega (arith, first, small)))

  pub locate-Holds :
      (P : Segment → Type 0) {start : ℕ} {segs : List Segment} {whole : Bytes}
      (best : Option Segment) (off : ℕ)
      → IsLaid z src start segs whole
      → All P segs
      → start ≤ off
      → off < start + length whole
      → start + length whole < 2 ^ 63
      → Holds P (locate best segs off) off (drop (off - start) whole)
  unfolding locate
  locate-Holds P best off laid_nil p low high small = absurd (omega (arith, low, high))
  locate-Holds P {start} {whole = whole} best off
        (laid_cons {s = s} {segs = segs} {b = b} {content = content} first more len bytes next e)
        (p, ps) low high small =
      rw (slt-false off s.logical (omega (arith, first, low)) (omega (arith, high, small)))
        (elim (Bool-cases (ltb off (start + length b))) [
          | inl here ↦ record {
            seg = s;
            found_eq =
                stays (some s) off next (ltb→lt off (start + length b) here)
                  (omega (arith, small, size));
            holds = p;
            content = b;
            content_eq = bytes;
            len_eq = len;
            low = omega (arith, first, low);
            high = omega (arith, first, ltb→lt off (start + length b) here);
            fits = omega (arith, first, small, size);
            rest = content;
            view_eq =
                ap (drop (off - start)) e
                ∙ drop_left (off - start) b content
                    (omega (arith, ltb→lt off (start + length b) here))
                ∙ ap (λ k. drop (off - k) b ++ content) (sym first);
          }
          | inr later ↦
              let behind : start + length b ≤ off = ltb→ge off (start + length b) later in
              let view : drop (off - start) whole ≡ drop (off - (start + length b)) content =
                ap₂ drop (split behind) e
                ∙ sym (drop-drop (length b) (off - (start + length b)) (b ++ content))
                ∙ ap (drop (off - (start + length b))) (drop-length b content) in
              subst (Holds P (locate (some s) segs off) off) (sym view) (
                locate-Holds P (some s) off next ps behind (omega (arith, high, size))
                  (omega (arith, small, size)))
        ])
    where
      size : length whole ≡ length b + length content
      size = ap length e ∙ length-append b content

      split : start + length b ≤ off → off - start ≡ length b + (off - (start + length b))
      split h = omega (arith, h)
