-- ===== src/DataSection/Reader/Laws/Whole.antt =====
-- `ReadAt` reads the logical byte stream.
use go_mdf.Base.{
  ℕ, zero, suc, ◌+◌, ◌-◌, ◌^◌, ◌≤◌, ◌<◌, ◌≡◌, refl, sym, ap, ap₂, subst, ◌∙◌, Bool, true, false,
  ◌||◌, not, ◌⊎◌, inl, inr, Bool-cases, Option, none, List, [], ◌∷◌, ◌++◌, ltb, leb, ◌==◌,
  if◌then◌else◌, length, replicate, take, drop, Outcome, ok, err, panic, out_of_bounds, ◌>>=◌, All,
  arith, length-append, length-drop, length-take, gt→leb, ltb→lt, ltb→ge, ==→eq, ==→ne, drop-drop,
  drop-take, take-take, drop_all, take-nil, Post-eq-ok,
}
use go_mdf.Base.Words.{Bytes, slice, slice-ok}
use go_mdf.Source.{slice_at, slice_at-ok, slice_at-IsSlice}
use go_mdf.Blocks.Header.{add64, sub64}
use go_mdf.DataSection.Lru.{Lru}
use go_mdf.DataSection.Resolve.{
  Segment, SegKind, seg_stored, seg_deflate, seg_transpose_deflate, seg_zero, slt,
}
use go_mdf.DataSection.Reader.{
  Zlib, decompress, decompressed, locate, read_segment, read_found, Reading, read_loop, read_at,
  Prefetch,
}
use go_mdf.DataSection.Reader.Laws.{
  IsFilled, Right, Agrees, is_cached, decompressed-IsFilled, Prefetch-IsFilled,
}
use go_mdf.DataSection.Reader.Laws.Layout.{
  segment_bytes, IsLaid, Holds, locate-Holds, slt-false, slt-true,
}

take_more : (m n : ℕ) (xs : Bytes) → take (m + n) xs ≡ take m xs ++ take n (drop m xs)
take_more zero n xs = let e : 0 + n ≡ n = omega arith in ap (λ t. take t xs) e
take_more (suc m) zero [] = let e : suc m + 0 ≡ suc m = omega arith in ap (λ t. take t []) e
take_more (suc m) (suc n) [] =
    let e : suc m + suc n ≡ suc (m + suc n) = omega arith in ap (λ t. take t []) e
take_more (suc m) n (x ∷ xs) =
    let e : suc m + n ≡ suc (m + n) = omega arith in
    ap (λ t. take t (x ∷ xs)) e ∙ ap (◌∷◌ x) (take_more m n xs)

take_left : (k : ℕ) (xs ys : Bytes) → k ≤ length xs → take k (xs ++ ys) ≡ take k xs
take_left zero xs ys h = refl
take_left (suc k) [] ys h = absurd (omega (arith, h))
take_left (suc k) (x ∷ xs) ys h = ap (◌∷◌ x) (take_left k xs ys (omega (arith, h)))

zeros_part :
    (n delta want : ℕ)
    → delta + want ≤ n
    → take {A = ℕ} want (drop delta (replicate n 0)) ≡ replicate want 0
zeros_part n zero zero h = refl
zeros_part zero zero (suc want) h = absurd (omega (arith, h))
zeros_part (suc n) zero (suc want) h = ap (◌∷◌ 0) (zeros_part n zero want (omega (arith, h)))
zeros_part zero (suc delta) want h = absurd (omega (arith, h))
zeros_part (suc n) (suc delta) want h = zeros_part n delta want (omega (arith, h))

-- What the reading of a segment needs of it: compressed segments at its address have its content.
abbrev pub IsSafe : Zlib → Bytes → List Segment → Segment → Type 0
IsSafe z src segs s = All (Agrees z src s) segs

module _ (z : Zlib) (src : Bytes) (small : length src < 2 ^ 63) (segs : List Segment) where
  module _ (c : Lru) (filled : IsFilled z src segs c) (s : Segment) (safe : IsSafe z src segs s)
      (b : Bytes) (len : s.len ≡ length b) (right : Right z src c s) (delta want : ℕ)
      (room : delta + want ≤ length b) (bound : length b < 2 ^ 63) where
    abbrev Result : Outcome (Bytes × Lru) → Type 0
    Result r = (c' : Lru) × (r ≡ ok (take want (drop delta b), c')) × IsFilled z src segs c'

    stored_part :
        slice_at src s.addr s.len ≡ ok b
        → slice_at src (add64 s.addr delta) want ≡ ok (take want (drop delta b))
    stored_part e =
        let v = Post-eq-ok (slice_at-IsSlice src s.addr s.len) e in
        let start : add64 s.addr delta ≡ s.addr + delta =
          omega (arith, v.inside, len, room, small) in
        ap (λ t. slice_at src t want) start
        ∙ slice_at-ok src (s.addr + delta) want small (omega (arith, v.inside, len, room))
        ∙ ap ok (
            sym (
              ap (λ t. take want (drop delta t)) v.content
              ∙ ap (take want) (drop-take delta s.len (drop s.addr src))
              ∙ take-take want (s.len - delta) (drop delta (drop s.addr src))
                  (omega (arith, len, room))
              ∙ ap (take want) (drop-drop s.addr delta src)))

    cached_part :
        is_cached s.kind ≡ true
        → decompress z src s ≡ ok b
        → Result (do
          (buf, c') ← decompressed z src s c
          t ← slice buf delta (add64 delta want)
          ok (t, c'))
    cached_part kind e =
        let r = decompressed-IsFilled z src segs c s b e kind safe right filled in
        let stop : add64 delta want ≡ delta + want = omega (arith, room, bound) in
        let width : delta + want - delta ≡ want = omega arith in
        (r.0, rw (r.1, stop, slice-ok b delta (delta + want) (omega arith) room, width), r.2)

    part :
        (k : SegKind)
        → s.kind ≡ k
        → segment_bytes k z src s ≡ ok b
        → Result (read_segment k z src s delta want c)
    unfolding read_segment segment_bytes
    part seg_stored k e = (c, rw (stored_part e), filled)
    part seg_zero k e =
        let here : replicate s.len 0 ≡ b = cc in
        (
          c,
          ap (λ t. ok (t, c))
              (sym (zeros_part s.len delta want (omega (arith, len, room)))
                ∙ ap (λ t. take want (drop delta t)) here),
          filled,
        )
    part seg_deflate k e = cached_part (ap is_cached k) e
    part seg_transpose_deflate k e = cached_part (ap is_cached k) e

  All-both :
      (P Q : Segment → Type 0) (xs : List Segment) → All P xs → All Q xs → All (λ s. P s × Q s) xs
  All-both P Q [] p q = tt
  All-both P Q (x ∷ xs) (p, ps) (q, qs) = ((p, q), All-both P Q xs ps qs)

  module _ (whole : Bytes) (laid : IsLaid z src 0 segs whole) (bound : length whole < 2 ^ 63)
      (safe : All (IsSafe z src segs) segs) where
    -- A round reads at least a byte, and what it reads is the stream's.
    record IsRound (c : Lru) (left off : ℕ) (r : Outcome (Bytes × Lru)) : Type 0 where
      count : ℕ
      after : Lru
      result : r ≡ ok (take count (drop off whole), after)
      filled : IsFilled z src segs after
      progress : 0 < count
      asked : count ≤ left
      inside : off + count ≤ length whole

    found-IsRound :
        (c : Lru)
        → IsFilled z src segs c
        → (left off : ℕ) → 0 < left
        → left < 2 ^ 63
        → {found : Option Segment}
        → Holds z src (λ s. IsSafe z src segs s × Right z src c s) found off (drop off whole)
        → off < length whole
        → IsRound c left off (read_found found z src left off c)
    unfolding read_found
    found-IsRound c filled left off some_left few h high =
        rw (h.found_eq, inside_seg, delta_eq, avail_eq) (by_want (Bool-cases (slt avail left)))
      where
        delta : ℕ
        delta = off - h.seg.logical

        avail : ℕ
        avail = length h.content - delta

        inside_seg : slt off (add64 h.seg.logical h.seg.len) ≡ true
        inside_seg =
            let e : add64 h.seg.logical h.seg.len ≡ h.seg.logical + length h.content =
              omega (arith, h.fits, h.len_eq) in
            ap (slt off) e ∙ slt-true off (h.seg.logical + length h.content) h.high h.fits

        delta_eq : sub64 off h.seg.logical ≡ delta
        delta_eq = omega (arith, h.low, h.high, h.fits)

        avail_eq : sub64 h.seg.len delta ≡ avail
        avail_eq = omega (arith, h.len_eq, h.high, h.low, h.fits)

        same : (w : ℕ) → w ≤ avail → take w (drop delta h.content) ≡ take w (drop off whole)
        same w k = sym (
            ap (take w) h.view_eq
            ∙ take_left w (drop delta h.content) h.rest
                (omega (arith, k, length-drop delta h.content)))

        reads :
            (w : ℕ)
            → 0 < w
            → w ≤ avail
            → w ≤ left
            → IsRound c left off (read_segment h.seg.kind z src h.seg delta w c)
        reads w pos k m =
            let r =
              part c filled h.seg h.holds.0 h.content h.len_eq h.holds.1 delta w
                (omega (arith, k, h.low, h.high)) (omega (arith, h.fits)) h.seg.kind refl
                h.content_eq in
            record {
              count = w;
              after = r.0;
              result = r.1 ∙ ap (λ t. ok (t, r.0)) (same w k);
              filled = r.2;
              progress = pos;
              asked = m;
              inside = omega (
                arith,
                k,
                high,
                ap length h.view_eq,
                length-append (drop delta h.content) h.rest,
                length-drop off whole,
                length-drop delta h.content,
              );
            }

        by_want :
            ((slt avail left) ≡ true) ⊎ ((slt avail left) ≡ false)
            → IsRound c left off (
                read_segment h.seg.kind z src h.seg delta
                  (if slt avail left then avail else left)
                  c)
        by_want (inl fewer) = rw fewer (
            reads avail (omega (arith, h.low, h.high)) (omega arith) (
              omega
                (arith, ltb→lt (add64 avail (2 ^ 63)) (add64 left (2 ^ 63)) fewer, few, h.fits)))
        by_want (inr enough) = rw enough (
            reads left some_left
              (omega
                (arith, ltb→ge (add64 avail (2 ^ 63)) (add64 left (2 ^ 63)) enough, few, h.fits))
              (omega arith))

    abbrev Loop : ℕ → ℕ → Reading → Type 0
    Loop left off r =
        (after : Lru) × (r ≡ (take left (drop off whole), after, ok tt)) × IsFilled z src segs after

    nothing_left :
        (left off : ℕ) → (left ≡ 0) ⊎ (length whole ≤ off) → [] ≡ take left (drop off whole)
    nothing_left left off (inl e) = ap (λ t. take t (drop off whole)) (sym e)
    nothing_left left off (inr e) = sym (ap (take left) (drop_all off whole e) ∙ take-nil left)

    step-Loop :
        (fuel left off : ℕ) (c : Lru)
        → left < 2 ^ 63
        → left ≤ suc fuel
        → off < length whole
        → (r : Outcome (Bytes × Lru)) → IsRound c left off r
        → ((left' off' : ℕ) (c' : Lru)
            → left' < 2 ^ 63
            → left' ≤ fuel
            → off' ≤ length whole
            → IsFilled z src segs c'
            → Loop left' off' (read_loop fuel z src segs (length whole) left' off' c'))
        → Loop left off (elim r [
          | ok r ↦
              let later =
                read_loop fuel z src segs
                  (length whole)
                  (left - length r.0)
                  (add64 off (length r.0))
                  r.1 in
              (r.0 ++ later.0, later.1, later.2)
          | err e ↦ ([], c, err e)
          | panic ↦ ([], c, panic)
        ])
    step-Loop fuel left off c few h high r v later = rw v.result (
      next.0,
      ap₂ (λ l o. prepend (read_loop fuel z src segs (length whole) l o v.after)) left_eq off_eq
          ∙ ap prepend next.1
          ∙ ap (λ (t : Bytes). let p : Reading = (t, next.0, ok tt) in p) join,
      next.2,
    )
      where
        piece : Bytes
        piece = take v.count (drop off whole)

        prepend : Reading → Reading
        prepend t = (piece ++ t.0, t.1, t.2)

        size : length piece ≡ v.count
        size = omega (arith, v.inside, length-take v.count (drop off whole), length-drop off whole)

        next :
            Loop
              (left - v.count)
              (off + v.count)
              (read_loop fuel z src segs (length whole) (left - v.count) (off + v.count) v.after)
        next =
            later (left - v.count) (off + v.count) v.after (omega (arith, few))
              (omega (arith, h, v.progress)) v.inside v.filled

        left_eq : left - length piece ≡ left - v.count
        left_eq = omega (arith, size)

        off_eq : add64 off (length piece) ≡ off + v.count
        off_eq = omega (arith, size, v.inside, bound)

        join :
            piece ++ take (left - v.count) (drop (off + v.count) whole) ≡ take left (drop off whole)
        join =
            let e : v.count + (left - v.count) ≡ left = omega (arith, v.asked) in
            ap (λ t. piece ++ take (left - v.count) t) (sym (drop-drop off v.count whole))
            ∙ sym (take_more v.count (left - v.count) (drop off whole))
            ∙ ap (λ t. take t (drop off whole)) e

    stops :
        (left off : ℕ)
        → off ≤ length whole
        → (left == 0 || not (slt off (length whole))) ≡ true
        → (left ≡ 0) ⊎ (length whole ≤ off)
    stops left off at h = elim (Bool-cases (left == 0)) [
      | inl e ↦ inl (==→eq left 0 e)
      | inr ne ↦ elim (Bool-cases (ltb off (length whole))) [
        | inl lt ↦
            let on = slt-true off (length whole) (ltb→lt off (length whole) lt) bound in
            absurd_test (slt off (length whole)) on (rw ne at h)
        | inr ge ↦ inr (ltb→ge off (length whole) ge)
      ]
    ]
      where
        absurd_test : (b : Bool) → b ≡ true → not b ≡ true → (left ≡ 0) ⊎ (length whole ≤ off)
        absurd_test true e k = cc
        absurd_test false e k = cc

    goes :
        (left off : ℕ)
        → off ≤ length whole
        → (left == 0 || not (slt off (length whole))) ≡ false
        → (0 < left) × (off < length whole)
    goes left off at h = elim (Bool-cases (left == 0)) [
      | inl e ↦ absurd_true (left == 0) (not (slt off (length whole))) e h
      | inr ne ↦ elim (Bool-cases (ltb off (length whole))) [
        | inl lt ↦ (omega (arith, ==→ne left 0 ne), ltb→lt off (length whole) lt)
        | inr ge ↦
            absurd_true (not (slt off (length whole))) (left == 0)
              (ap not (
                slt-false off (length whole) (ltb→ge off (length whole) ge)
                  (omega (arith, at, bound))))
              (flip (left == 0) (not (slt off (length whole))) h)
      ]
    ]
      where
        absurd_true : (a b : Bool) → a ≡ true → (a || b) ≡ false → (0 < left) × (off < length whole)
        absurd_true true b e k = cc
        absurd_true false b e k = cc

        flip : (a b : Bool) → (a || b) ≡ false → (b || a) ≡ false
        flip true b k = cc
        flip false true k = cc
        flip false false k = refl

    read_loop-Loop :
        (fuel left off : ℕ) (c : Lru)
        → left < 2 ^ 63
        → left ≤ fuel
        → off ≤ length whole
        → IsFilled z src segs c
        → Loop left off (read_loop fuel z src segs (length whole) left off c)
    unfolding read_loop
    read_loop-Loop zero left off c few h at f = (
      c,
      ap (λ (t : Bytes). let p : Reading = (t, c, ok tt) in p)
          (nothing_left left off (inl (omega (arith, h)))),
      f,
    )
    read_loop-Loop (suc fuel) left off c few h at f =
        elim (Bool-cases (left == 0 || not (slt off (length whole)))) [
          | inl stop ↦ rw stop (
            c,
            ap (λ (t : Bytes). let p : Reading = (t, c, ok tt) in p)
                (nothing_left left off (stops left off at stop)),
            f,
          )
          | inr go ↦
              let k = goes left off at go in
              let whole_off : off - 0 ≡ off = omega arith in
              let held =
                subst
                  (λ o.
                    Holds z src (λ s. IsSafe z src segs s × Right z src c s) (locate none segs off)
                      off (drop o whole))
                  whole_off
                  (locate-Holds z src (λ s. IsSafe z src segs s × Right z src c s) none off laid
                    (All-both (IsSafe z src segs) (Right z src c) segs safe f.right) (omega arith)
                    (omega (arith, k.1)) (omega (arith, bound))) in
              rw go (
                step-Loop fuel left off c few h k.1 _ (found-IsRound c f left off k.0 few held k.1)
                  (λ left' off' c' few' h' at' f'.
                    read_loop-Loop fuel left' off' c' few' h' at' f'))
        ]

    read_at-IsLaid :
        (n off : ℕ) (c : Lru)
        → n < 2 ^ 63
        → off ≤ length whole
        → IsFilled z src segs c
        → (after : Lru) × (read_at z src segs (length whole) n off c ≡ (
          take n (drop off whole),
          after,
          if ltb (length whole - off) n then err out_of_bounds else ok tt,
        ))
          × IsFilled z src segs after
    unfolding read_at
    read_at-IsLaid n off c few at f =
        let r = read_loop-Loop n n off c few (omega arith) at f in
        (r.0, rw (in_range, r.1, short), r.2)
      where
        in_range : (leb (2 ^ 63) off || slt (length whole) off) ≡ false
        in_range =
            rw (gt→leb (2 ^ 63) off (omega (arith, at, bound)))
              (slt-false (length whole) off at bound)

        short : ltb (length (take n (drop off whole))) n ≡ ltb (length whole - off) n
        short = ground (arith, length-take n (drop off whole), length-drop off whole)

    -- What `ReadAt` returns is the stream's: `n` bytes from `off` on, or with an error the bytes up
    -- to the end, whatever right payloads the cache holds before and whatever the prefetch stores,
    -- in any order; and the cache then holds right payloads again.
    pub read_at-Prefetch :
        (n off : ℕ) (c c' : Lru)
        → n < 2 ^ 63
        → off ≤ length whole
        → IsFilled z src segs c
        → Prefetch z src (IsSafe z src segs) c c'
        → (after : Lru) × (read_at z src segs (length whole) n off c' ≡ (
          take n (drop off whole),
          after,
          if ltb (length whole - off) n then err out_of_bounds else ok tt,
        ))
          × IsFilled z src segs after
    read_at-Prefetch n off c c' few at f p =
        read_at-IsLaid n off c' few at (Prefetch-IsFilled z src segs c c' p f)
