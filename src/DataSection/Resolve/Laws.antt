-- ===== src/DataSection/Resolve/Laws.antt =====
-- The resolution never panics, ends on every chain that does, and does not end on a chain that
-- runs in a circle.
use go_mdf.Base.{
  ℕ, zero, suc, ◌+◌, ◌^◌, ◌-◌, ◌&&◌, ◌||◌, not, true, false, ◌⊎◌, inl, inr, Bool-cases, ltb, ltb→lt,
  ltb→ge, ==→eq, ◌≤◌, ◌<◌, ◌≡◌, ◌≢◌, refl, Bool, Option, none, some, List, [], ◌∷◌, ◌++◌, ◌==◌,
  if◌then◌else◌, length, take, Outcome, Error, ok, err, panic, Post, returns, raises, Post-bind,
  Post-if, All, All-append, arith, ne→==, length-take, Post-eq-ok,
}
use go_mdf.Base.Words.{Bytes, slice-ok, word_at, word_at-slice, index-ok}
use go_mdf.Source.{slice_at-IsSlice}
use go_mdf.Blocks.Header.{
  Header, header_size, data_len, add64, sub64, decode_header, peek_id, same_bytes,
}
use go_mdf.Blocks.Header.Laws.{refuse-Post, decode_header-Post, IsHeader}
use go_mdf.Blocks.Lists.{Dl, has_flag, equal_flag, id_dz, decode_dl}
use go_mdf.Blocks.Lists.Laws.{IsDl, decode_dl-Post, decode_dz-Post}
use go_mdf.DataSection.Resolve.{
  Segment, SegKind, seg_stored, stored_len, clamped_header, stored_header, add_stored, zip_kind,
  add_zipped, is_plain, add_entry, entry_logical, add_entries, add_list, resolve_chain, slt,
}

-- The bytes that a segment takes in the file: its own, or its compressed payload.
abbrev pub file_bytes : SegKind → Segment → ℕ
file_bytes seg_stored s = s.len
file_bytes _ s = s.comp_len

-- They lie in the file. Only without `clamp`, the length of a block that announces less than its
-- header is taken as it is; the segment is then shorter than a header.
pub data IsLocated (src : Bytes) (clamp : Bool) (s : Segment) : Type 0 where
  in_file : s.addr + file_bytes s.kind s ≤ length src → IsLocated src clamp s
  short : clamp ≡ false → s.addr ≤ length src → s.len < 24 → IsLocated src clamp s

-- What a block's header says of its data.
record IsStored (src : Bytes) (clamp : Bool) (addr : ℕ) (h : Header) : Type 0 where
  at : addr + 24 ≤ length src
  size : data_len h < 2 ^ 63
  room : clamp ≡ false → (addr + 24 + data_len h ≤ length src) ⊎ (data_len h < 24)

third_of : (a b c : Bool) → (not a || not b || not c) ≡ false → c ≡ true
third_of true true true h = refl
third_of true true false h = cc
third_of true false c h = cc
third_of false b c h = cc

abbrev pub Ends : Bytes → Bool → Option (Outcome (List Segment)) → Type 0
Ends src clamp o = (r : Outcome (List Segment)) × (o ≡ some r) × Post (All (IsLocated src clamp)) r

module _ (src : Bytes) (small : length src < 2 ^ 63) where
  clamped_header-Post : (addr : ℕ) → Post (IsStored src true addr) (clamped_header src addr)
  unfolding clamped_header data_len
  clamped_header-Post addr = Post-bind (slice_at-IsSlice src addr 24) λ buf s.
      let size = s.size in
      let four : length (take 4 buf) ≡ 4 = omega (arith, length-take 4 buf, size) in
      rw
        (
          slice-ok buf 0 4 (omega arith) (omega (arith, size)),
          word_at-slice buf 8 (omega (arith, size)),
          word_at-slice buf 16 (omega (arith, size)),
          index-ok (take 4 buf) 0 (omega (arith, four)),
          index-ok (take 4 buf) 1 (omega (arith, four)),
        )
        (Post-bind (refuse-Post _ _) λ _ h.
          let none_linked = ==→eq (word_at buf 16) 0 (third_of _ _ _ h) in
          let inside = s.inside in
          returns (record {
            at = s.inside;
            size = ground (arith, none_linked, inside, small);
            room = λ e. cc;
          }))

  decoded-IsStored :
      (clamp : Bool) (addr : ℕ) (h : Header) → IsHeader src addr h → IsStored src clamp addr h
  unfolding data_len
  decoded-IsStored clamp addr h v = record {
    at = v.at;
    size = omega (arith, v.in_file, v.least_fits, small);
    room = λ e. elim (Bool-cases (ltb h.len 24)) [
      | inl less ↦ inr (omega (arith, ltb→lt h.len 24 less, v.least_fits))
      | inr enough ↦ inl (omega (arith, ltb→ge h.len 24 enough, v.in_file, v.count_fits, small))
    ];
  }

  stored_header-Post :
      (clamp : Bool) (addr : ℕ) → Post (IsStored src clamp addr) (stored_header src clamp addr)
  unfolding stored_header
  stored_header-Post clamp addr =
      by_header (decode_header src addr []) (decode_header-Post src small addr [])
    where
      clamped :
          (c : Bool) (e : Error)
          → Post (IsStored src c addr) (if c then clamped_header src addr else err e)
      clamped true e = clamped_header-Post addr
      clamped false e = raises

      by_header :
          (o : Outcome Header)
          → Post (IsHeader src addr) o
          → Post (IsStored src clamp addr) (elim o [
            | ok h ↦ ok h
            | err e ↦ if clamp then clamped_header src addr else err e
            | panic ↦ panic
          ])
      by_header _ (returns h) = returns (decoded-IsStored clamp addr _ h)
      by_header _ (raises {e = e}) = clamped clamp e

  stored_len-clamp :
      (addr : ℕ) (h : Header)
      → IsStored src true addr h
      → addr + 24 + stored_len src true addr h ≤ length src
  unfolding stored_len
  stored_len-clamp addr h v =
      let n = data_len h in
      let max = length src - addr - 24 in
      let e : sub64 (sub64 (length src) addr) header_size ≡ max = omega (arith, v.at, small) in
      elim (Bool-cases (slt max n)) [
        | inl more ↦ rw (e, more) (omega (arith, v.at))
        | inr fits ↦
            let less = ltb→ge (add64 max (2 ^ 63)) (add64 n (2 ^ 63)) fits in
            elim (Bool-cases (n == 0 && slt 0 max)) [
              | inl rest ↦ rw (e, fits, rest) (omega (arith, v.at))
              | inr plain ↦ rw (e, fits, plain) (omega (arith, v.at, v.size, small, less))
            ]
      ]

  stored_len-plain : (addr : ℕ) (h : Header) → stored_len src false addr h ≡ data_len h
  unfolding stored_len
  stored_len-plain addr h = refl

  add_stored-Post :
      (clamp : Bool) (addr logical : ℕ)
      → Post (IsLocated src clamp) (add_stored src clamp addr logical)
  unfolding add_stored
  add_stored-Post clamp addr logical =
      Post-bind (stored_header-Post clamp addr) λ h v. returns (by_clamp clamp h v)
    where
      by_clamp :
          (c : Bool) (h : Header)
          → IsStored src c addr h
          → IsLocated src c (record {
            logical = logical;
            len = stored_len src c addr h;
            addr = add64 addr header_size;
            comp_len = 0;
            zip_param = 0;
            kind = seg_stored;
          })
      by_clamp true h v = in_file (omega (arith, stored_len-clamp addr h v, v.at, small))
      by_clamp false h v = elim (v.room refl) [
        | inl room ↦ in_file (omega (arith, room, stored_len-plain addr h, v.at, small))
        | inr less ↦
            short refl (omega (arith, v.at, small)) (omega (arith, less, stored_len-plain addr h))
      ]

  -- A compressed segment's bytes are its payload.
  zip_kind-Post : (n : ℕ) → Post (λ k. (s : Segment) → file_bytes k s ≡ s.comp_len) (zip_kind n)
  unfolding zip_kind
  zip_kind-Post n =
      Post-if (n == 0) (λ _. returns (λ s. refl))
        (λ _. Post-if (n == 1) (λ _. returns (λ s. refl)) (λ _. raises))

  add_zipped-Post :
      (clamp : Bool) (addr logical : ℕ) → Post (IsLocated src clamp) (add_zipped src addr logical)
  unfolding add_zipped
  add_zipped-Post clamp addr logical = Post-bind (decode_dz-Post src small addr) λ dz h.
      Post-bind (zip_kind-Post dz.zip_type)
        λ kind payload. returns (in_file (omega (arith, h.payload_in_file, payload _)))

  add_entry-Post :
      (clamp : Bool) (addr logical : ℕ)
      → Post (IsLocated src clamp) (add_entry src clamp addr logical)
  unfolding add_entry peek_id
  add_entry-Post clamp addr logical = Post-bind (slice_at-IsSlice src addr 4) λ id _.
      Post-if (is_plain id) (λ _. add_stored-Post clamp addr logical)
        (λ _. Post-if (same_bytes id id_dz) (λ _. add_zipped-Post clamp addr logical) (λ _. raises))

  entry_logical-Post :
      (dl : Dl)
      → IsDl dl
      → (i global : ℕ) → i < dl.count
      → Post (λ _. Unit) (entry_logical dl i global)
  unfolding entry_logical
  entry_logical-Post dl v i global h =
      Post-if (has_flag dl.flags equal_flag) (λ _. returns tt)
        (λ no. rw (index-ok dl.offsets i (omega (arith, v.offsets_count no, h))) (returns tt))

  add_entries-Post :
      (clamp : Bool) (dl : Dl)
      → IsDl dl
      → (i global : ℕ) (blocks : List ℕ) → i + length blocks ≤ dl.count
      → Post (λ r. All (IsLocated src clamp) r.1) (add_entries src clamp dl i global blocks)
  unfolding add_entries
  add_entries-Post clamp dl v i global [] h = returns tt
  add_entries-Post clamp dl v i global (addr ∷ blocks) h =
      let rest =
        add_entries-Post clamp dl v (i + 1) (if addr == 0 then global else global + 1) blocks
          (omega (arith, h)) in
      Post-if (addr == 0) (λ _. rest)
        λ _. Post-bind (entry_logical-Post dl v i global (omega (arith, h))) λ logical _.
          Post-bind (add_entry-Post clamp addr logical)
            λ seg at. Post-bind rest λ r all. returns (at, all)

  -- A round on a list that is decoded, and what comes behind it.
  round-Ends :
      (clamp : Bool) (addr global fuel : ℕ) (segs : List Segment) (dl : Dl)
      → addr ≢ 0
      → decode_dl src addr ≡ ok dl
      → All (IsLocated src clamp) segs
      → ((last : ℕ) (more : List Segment)
          → All (IsLocated src clamp) more
          → Ends src clamp (resolve_chain fuel src clamp dl.next last more))
      → Ends src clamp (resolve_chain (suc fuel) src clamp addr global segs)
  unfolding resolve_chain add_list
  round-Ends clamp addr global fuel segs dl ne e hs rest =
      let v = Post-eq-ok (decode_dl-Post src small addr) e in
      by_entries (add_entries src clamp dl 0 global dl.blocks) refl
        (add_entries-Post clamp dl v 0 global dl.blocks (omega (arith, v.blocks_count)))
    where
      by_entries :
          (o : Outcome (ℕ × List Segment))
          → add_entries src clamp dl 0 global dl.blocks ≡ o
          → Post (λ r. All (IsLocated src clamp) r.1) o
          → Ends src clamp (resolve_chain (suc fuel) src clamp addr global segs)
      by_entries _ at (returns {a = r} more) =
          let ended = rest r.0 (segs ++ r.1) (All-append (IsLocated src clamp) segs r.1 hs more) in
          (ended.0, rw (ne→== addr 0 ne, e, at) ended.1, ended.2)
      by_entries _ at (raises {e = x}) = (err x, rw (ne→== addr 0 ne, e, at) refl, raises)

  broken-Ends :
      (clamp : Bool) (addr global fuel : ℕ) (segs : List Segment)
      → addr ≢ 0
      → ((dl : Dl) → decode_dl src addr ≢ ok dl)
      → Ends src clamp (resolve_chain (suc fuel) src clamp addr global segs)
  unfolding resolve_chain add_list
  broken-Ends clamp addr global fuel segs ne undecodable =
      by_dl (decode_dl src addr) refl (decode_dl-Post src small addr)
    where
      by_dl :
          (o : Outcome Dl)
          → decode_dl src addr ≡ o
          → Post IsDl o
          → Ends src clamp (resolve_chain (suc fuel) src clamp addr global segs)
      by_dl _ at (returns {a = dl} v) = absurd (undecodable dl at)
      by_dl _ at (raises {e = x}) = (err x, rw (ne→== addr 0 ne, at) refl, raises)

  -- The data lists that follow each other from an address by their links, as the file has them: a
  -- chain ends at a nil link, or at a list that cannot be decoded.
  pub data IsFinite : ℕ → ℕ → Type 0 where
    nil : IsFinite 0 0
    broken : {addr : ℕ} → addr ≢ 0 → ((dl : Dl) → decode_dl src addr ≢ ok dl) → IsFinite addr 1
    list :
        {addr lists : ℕ} {dl : Dl}
        → addr ≢ 0
        → decode_dl src addr ≡ ok dl
        → IsFinite dl.next lists
        → IsFinite addr (suc lists)

  -- A chain of data lists that ends is resolved with as much fuel as it has lists, whatever its
  -- lists name: without a panic, with an error or with segments whose bytes, stored or compressed,
  -- all lie in the file.
  pub resolve_chain-IsFinite :
      (clamp : Bool) (addr global lists fuel : ℕ) (segs : List Segment)
      → IsFinite addr lists
      → lists ≤ fuel
      → All (IsLocated src clamp) segs
      → Ends src clamp (resolve_chain fuel src clamp addr global segs)
  unfolding resolve_chain
  resolve_chain-IsFinite clamp _ global _ zero segs nil h hs = (ok segs, refl, returns hs)
  resolve_chain-IsFinite clamp _ global _ (suc fuel) segs nil h hs = (ok segs, refl, returns hs)
  resolve_chain-IsFinite clamp addr global _ zero segs (broken ne undecodable) h hs =
      absurd (omega (arith, h))
  resolve_chain-IsFinite clamp addr global _ (suc fuel) segs (broken ne undecodable) h hs =
      broken-Ends clamp addr global fuel segs ne undecodable
  resolve_chain-IsFinite clamp addr global _ zero segs (list ne e next) h hs =
      absurd (omega (arith, h))
  resolve_chain-IsFinite clamp addr global _ (suc fuel) segs
        (list {lists = lists} {dl = dl} ne e next) h hs =
      round-Ends clamp addr global fuel segs dl ne e hs λ last more located.
        resolve_chain-IsFinite clamp dl.next last lists fuel more next (omega (arith, h)) located

  module _ (clamp : Bool) (addr : ℕ) (there : addr ≢ 0)
      (circle : (global : ℕ)
        → (r : ℕ × List Segment) × (add_list src clamp addr global ≡ ok (addr, r.0, r.1))) where
    -- The walk of a list whose next list is itself does not end, whatever the fuel.
    pub resolve_chain_circle :
        (fuel global : ℕ) (segs : List Segment)
        → resolve_chain fuel src clamp addr global segs ≡ none
    unfolding resolve_chain
    resolve_chain_circle zero global segs = rw (ne→== addr 0 there)
    resolve_chain_circle (suc fuel) global segs =
        let round = circle global in
        rw (ne→== addr 0 there, round.1) (resolve_chain_circle fuel round.0.0 (segs ++ round.0.1))
