-- ===== src/DataSection/Reader/Laws.antt =====
-- The cache holds nothing but the segments' contents, whatever is read, prefetched or evicted.
pub mod Layout
pub mod Whole
use go_mdf.Base.{
  ℕ, ◌≡◌, refl, sym, ap, ◌∙◌, Bool, true, false, ◌⊎◌, inl, inr, Option, none, some, List, [], ◌∷◌,
  length, replicate, Outcome, ok, err, panic, ◌>>=◌, All, Option-cases,
}
use go_mdf.Base.Words.{Bytes, slice}
use go_mdf.Source.{slice_at}
use go_mdf.DataSection.Lru.{Lru, new_lru, get, put}
use go_mdf.DataSection.Lru.Laws.{
  IsValid, new-entries, new-IsValid, get-IsValid, put-IsValid, put-entries,
}
use go_mdf.DataSection.Resolve.{
  Segment, SegKind, seg_stored, seg_deflate, seg_transpose_deflate, seg_zero,
}
use go_mdf.DataSection.Reader.{
  Zlib, decompress, from_cache, decompressed, Prefetch, done, probe, store,
}

abbrev pub is_cached : SegKind → Bool
is_cached seg_deflate = true
is_cached seg_transpose_deflate = true
is_cached _ = false

module _ (z : Zlib) (src : Bytes) where
  -- The cached payload of a compressed segment is its content.
  abbrev pub Right : Lru → Segment → Type 0
  Right c s =
      is_cached s.kind ≡ true
      → (buf : Bytes) → c.entries s.addr ≡ some buf
      → decompress z src s ≡ ok buf

  -- The cache keeps its own invariant, and every payload is right.
  pub record IsFilled (segs : List Segment) (c : Lru) : Type 0 where
    pub valid : IsValid c
    pub right : All (Right c) segs

  -- A compressed segment at the same address has the same content.
  abbrev pub Agrees : Segment → Segment → Type 0
  Agrees s t = is_cached t.kind ≡ true → t.addr ≡ s.addr → decompress z src t ≡ decompress z src s

  All-Right-entries :
      (c c' : Lru)
      → c'.entries ≡ c.entries
      → (segs : List Segment) → All (Right c) segs
      → All (Right c') segs
  All-Right-entries c c' e [] h = tt
  All-Right-entries c c' e (s ∷ segs) (h, hs) = (
    λ k buf there. h k buf (sym (ap (λ m. m s.addr) e) ∙ there),
    All-Right-entries c c' e segs hs,
  )

  pub get-IsFilled :
      (segs : List Segment) (c : Lru) (key : ℕ) → IsFilled segs c → IsFilled segs (get key c).0
  get-IsFilled segs c key f =
      let g = get-IsValid key c f.valid in
      record { valid = g.0; right = All-Right-entries c (get key c).0 g.1 segs f.right }

  module _ (c : Lru) (v : IsValid c) (s : Segment) (buf : Bytes)
      (content : decompress z src s ≡ ok buf) where
    All-Right-put :
        (segs : List Segment)
        → All (Agrees s) segs
        → All (Right c) segs
        → All (Right (put s.addr buf c)) segs
    All-Right-put [] a h = tt
    All-Right-put (t ∷ segs) (a, more) (h, hs) = (
      λ k b there. elim (put-entries s.addr c v buf t.addr b there) [
        | inl (same, e) ↦ a k same ∙ content ∙ ap ok (sym e)
        | inr old ↦ h k b old
      ],
      All-Right-put segs more hs,
    )

  pub put-IsFilled :
      (segs : List Segment) (c : Lru) (s : Segment) (buf : Bytes)
      → decompress z src s ≡ ok buf
      → All (Agrees s) segs
      → IsFilled segs c
      → IsFilled segs (put s.addr buf c)
  put-IsFilled segs c s buf content a f = record {
    valid = put-IsValid s.addr c f.valid buf;
    right = All-Right-put c f.valid s buf content segs a f.right;
  }

  -- Whatever the prefetch looks up and stores, in any order, every payload is right.
  pub Prefetch-IsFilled :
      (segs : List Segment) (c c' : Lru)
      → Prefetch z src (λ s. All (Agrees s) segs) c c'
      → IsFilled segs c
      → IsFilled segs c'
  Prefetch-IsFilled segs c _ done f = f
  Prefetch-IsFilled segs c c' (probe s next) f =
      Prefetch-IsFilled segs _ c' next (get-IsFilled segs c s.addr f)
  Prefetch-IsFilled segs c c' (store s buf agrees content next) f =
      Prefetch-IsFilled segs _ c' next (put-IsFilled segs c s buf content agrees f)

  -- With or without the cache a compressed segment's content is the same.
  pub decompressed-IsFilled :
      (segs : List Segment) (c : Lru) (s : Segment) (b : Bytes)
      → decompress z src s ≡ ok b
      → is_cached s.kind ≡ true
      → All (Agrees s) segs
      → Right c s
      → IsFilled segs c
      → (c' : Lru) × (decompressed z src s c ≡ ok (b, c')) × IsFilled segs c'
  unfolding decompressed
  decompressed-IsFilled segs c s b content kind agrees right f = by_entry (get s.addr c).1 refl
    where
      found : (get s.addr c).1 ≡ c.entries s.addr
      found = (get-IsValid s.addr c f.valid).2

      by_entry :
          (o : Option Bytes)
          → (get s.addr c).1 ≡ o
          → (c' : Lru) × (from_cache z src s (get s.addr c) ≡ ok (b, c')) × IsFilled segs c'
      by_entry none e = (
        put s.addr b (get s.addr c).0,
        ap (λ t. from_cache z src s ((get s.addr c).0, t)) e ∙ rw content,
        put-IsFilled segs (get s.addr c).0 s b content agrees (get-IsFilled segs c s.addr f),
      )
      by_entry (some buf) e =
          let same : ok buf ≡ ok b = sym (right kind buf (sym found ∙ e)) ∙ content in
          let here : buf ≡ b = cc in
          (
            (get s.addr c).0,
            ap (λ t. from_cache z src s ((get s.addr c).0, t)) e
                ∙ ap (λ t. ok (t, (get s.addr c).0)) here,
            get-IsFilled segs c s.addr f,
          )

  missing : (s : Segment) (buf : Bytes) → none ≡ some buf → decompress z src s ≡ ok buf
  missing s buf e = cc

  pub new-IsFilled : (segs : List Segment) (budget : ℕ) → IsFilled segs (new_lru budget)
  new-IsFilled segs budget = record { valid = new-IsValid budget; right = nothing segs }
    where
      nothing : (ss : List Segment) → All (Right (new_lru budget)) ss
      nothing [] = tt
      nothing (s ∷ ss) =
          ((λ k buf e. missing s buf (sym (new-entries budget s.addr) ∙ e)), nothing ss)
