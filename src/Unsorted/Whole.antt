-- ===== src/Unsorted/Whole.antt =====
-- `deinterleave` from the channel groups to the sorted buffers.
use go_mdf.Base.{
  ℕ, ◌*◌, ◌%◌, ◌^◌, ◌≤◌, ◌<◌, ◌≡◌, refl, ◌∙◌, Bool, true, false, none, some, List, [], ◌∷◌, ◌++◌,
  if◌then◌else◌, length, Outcome, ok, panic, Post, All, arith, ltb, ltb→ge, Bool-cases, ◌⊎◌, inl,
  inr, ge→ltb, lt→ltb, max_alloc, ◌>>=◌,
}
use go_mdf.Base.Words.{Bytes, IsByte}
use go_mdf.Unsorted.{
  Group, GroupBuf, Bufs, insert, make_capacity, group_buf, add_groups, add_derived, valid_size,
  deinterleave, pass,
}
use go_mdf.Unsorted.Laws.{IsKnown, IsSpread, interleave, collect, extend}
use go_mdf.Unsorted.Laws.Pass.{pass-IsSpread, pass-interleave}

-- The buffer's capacity is one that `make` allocates.
pub data CanAllocate (cg : Group) : Type 0 where
  no_buffer : cg.vlsd ≡ true → CanAllocate cg
  fits : cg.cycle_count * cg.record_size % 2 ^ 64 ≤ max_alloc → CanAllocate cg

group_buf-ok : (cg : Group) → CanAllocate cg → (gb : GroupBuf) × (group_buf cg ≡ ok gb)
unfolding group_buf make_capacity
group_buf-ok cg (no_buffer h) = (record { buf = []; rec_size = 0; vlsd = true }, rw h refl)
group_buf-ok cg (fits h) = by_flag cg.vlsd
  where
    by_flag :
        (v : Bool)
        → (gb : GroupBuf) × ((if v then ok (record { buf = []; rec_size = 0; vlsd = true }) else (do
          buf ← make_capacity cg.cycle_count cg.record_size
          ok (record { buf = buf; rec_size = cg.record_size; vlsd = false })))
            ≡ ok gb)
    by_flag true = (record { buf = []; rec_size = 0; vlsd = true }, refl)
    by_flag false = (
      record { buf = []; rec_size = cg.record_size; vlsd = false },
      rw (ge→ltb max_alloc (cg.cycle_count * cg.record_size % 2 ^ 64) h),
    )

group_buf-cases : (cg : Group) → ((gb : GroupBuf) × (group_buf cg ≡ ok gb)) ⊎ (group_buf cg ≡ panic)
unfolding group_buf make_capacity
group_buf-cases cg = elim (Bool-cases cg.vlsd) [
  | inl v ↦ inl (group_buf-ok cg (no_buffer v))
  | inr v ↦ elim (Bool-cases (ltb max_alloc (cg.cycle_count * cg.record_size % 2 ^ 64))) [
    | inl large ↦ inr (rw (v, large) refl)
    | inr small ↦
        inl (
          group_buf-ok cg
            (fits (ltb→ge max_alloc (cg.cycle_count * cg.record_size % 2 ^ 64) small)))
  ]
]

add_groups-ok :
    (groups : List Group) (m : Bufs)
    → All CanAllocate groups
    → (bufs : Bufs) × (add_groups groups m ≡ ok bufs)
unfolding add_groups
add_groups-ok [] m h = (m, refl)
add_groups-ok (cg ∷ groups) m (h, hs) =
    let g = group_buf-ok cg h in
    let rest = add_groups-ok groups (insert cg.record_id g.0 m) hs in (rest.0, rw g.1 rest.1)

valid_size_lem : (n : ℕ) → valid_size n ≡ true → (1 ≤ n) × (n ≤ 8)
unfolding valid_size
valid_size_lem n h = ground arith

abbrev pub no_bufs : Bufs
no_bufs id = none

module _ (n : ℕ) (valid : valid_size n ≡ true) (derived : List (ℕ × ℕ)) where
  deinterleave-pass :
      (groups : List Group) (section : Bytes) (bufs : Bufs)
      → add_groups groups no_bufs ≡ ok bufs
      → deinterleave n groups derived section
        ≡ pass (length section) n section (add_derived derived bufs)
  unfolding deinterleave
  deinterleave-pass groups section bufs e = rw (valid, e)

  module _ (groups : List Group) (can : All CanAllocate groups) where
    -- On any stream `deinterleave` ends without a panic if every buffer's capacity,
    -- the product of cycle count and record size modulo 2 ^ 64, is at most `max_alloc`: with an
    -- error, or with buffers for a stream that is an interleaving of records of the groups, each
    -- buffer holding its group's records in their order.
    pub deinterleave-IsSpread :
        (section : Bytes)
        → All IsByte section
        → (bufs : Bufs) × (add_groups groups no_bufs ≡ ok bufs)
          × ((r : Outcome Bufs) × (deinterleave n groups derived section ≡ some r)
              × Post (IsSpread n section (add_derived derived bufs)) r)
    deinterleave-IsSpread section hb =
        let s = valid_size_lem n valid in
        let g = add_groups-ok groups no_bufs can in
        let p =
          pass-IsSpread n s.0 s.1 (length section) section (add_derived derived g.0) (omega arith)
            hb in
        (g.0, g.1, (p.0, deinterleave-pass groups section g.0 g.1 ∙ p.1, p.2))

  -- Interleaving is inverted: from any sequence of records, each of a known group and of its form,
  -- `deinterleave` sorts out every group's records in their order.
  pub deinterleave-interleave :
      (groups : List Group) (bufs : Bufs)
      → add_groups groups no_bufs ≡ ok bufs
      → (es : List (ℕ × Bytes)) → All (IsKnown (add_derived derived bufs) n) es
      → (after : Bufs) × (deinterleave n groups derived (interleave n es) ≡ some (ok after))
        × ((id : ℕ) → after id ≡ extend (collect id es) (add_derived derived bufs id))
  deinterleave-interleave groups bufs e es k =
      let s = valid_size_lem n valid in
      let p =
        pass-interleave n s.0 s.1 (length (interleave n es)) es (add_derived derived bufs)
          (omega arith) k in
      (p.0, deinterleave-pass groups (interleave n es) bufs e ∙ p.1, p.2)

  panic_groups :
      (before : List Group) (cg : Group) (behind : List Group) (m : Bufs)
      → cg.vlsd ≡ false
      → max_alloc < cg.cycle_count * cg.record_size % 2 ^ 64
      → add_groups (before ++ cg ∷ behind) m ≡ panic
  unfolding add_groups group_buf make_capacity
  panic_groups [] cg behind m v w =
      rw (v, lt→ltb max_alloc (cg.cycle_count * cg.record_size % 2 ^ 64) w)
  panic_groups (b ∷ before) cg behind m v w = elim (group_buf-cases b) [
    | inl g ↦ rw g.1 (panic_groups before cg behind (insert b.record_id g.0 m) v w)
    | inr e ↦ rw e refl
  ]

  -- A cycle count from the file whose product with the record size, modulo 2 ^ 64, is more than
  -- `make` allocates (a negative `int` is) makes `deinterleave` panic, whatever the stream holds and
  -- whatever groups stand before and behind.
  pub deinterleave_panics :
      (before : List Group) (cg : Group) (behind : List Group) (section : Bytes)
      → cg.vlsd ≡ false
      → max_alloc < cg.cycle_count * cg.record_size % 2 ^ 64
      → deinterleave n (before ++ cg ∷ behind) derived section ≡ some panic
  unfolding deinterleave
  deinterleave_panics before cg behind section v w =
      rw (valid, panic_groups before cg behind no_bufs v w)
