-- ===== src/Unsorted/Laws.antt =====
-- What de-interleaving promises: the stream is an interleaving of records, and each group's buffer
-- is its own records in their order.
pub mod Pass
use go_mdf.Base.{
  ℕ, zero, suc, ◌+◌, ◌*◌, ◌%◌, ◌/◌, ◌^◌, ◌≤◌, ◌<◌, ◌≡◌, refl, sym, ap, ap₂, subst, ◌∙◌, Bool, true,
  false, Option, none, some, List, [], ◌∷◌, ◌++◌, append_assoc, append-nil, ltb, ◌==◌,
  if◌then◌else◌, length, take, drop, take-length, drop-length, take-append-drop, Outcome, ok, err,
  panic, ◌>>=◌, Post, returns, raises, Post-bind, Post-if, Post-map, All, All-left, arith,
  length-append, length-take, length-drop, eq→==, ==→eq, inl, inr, Bool-cases, ltb→ge, ge→ltb,
  short_input, unknown_record,
}
use go_mdf.Base.Words.{
  Bytes, IsByte, le_value, le_bytes, length-le_bytes, le_value-le_bytes, le_bytes-IsByte,
  le_value-lt,
}
use go_mdf.Base.Uint64.{push_byte, push_byte_lem}
use native.Mathlib.Nat.{pow-le-pow_right}
use go_mdf.Unsorted.{
  GroupBuf, Bufs, insert, read_full, record_id_of, find_buf, read_record, step, pass,
}

-- A record of a group: of its size, or a length in four bytes and as many bytes.
pub data IsRecord : Bool → ℕ → Bytes → Type 0 where
  fixed : {size : ℕ} {t : Bytes} → length t ≡ size → IsRecord false size t
  variable :
      {size : ℕ} (a b : Bytes) → length a ≡ 4 → length b ≡ le_value a → IsRecord true size (a ++ b)

-- The record IDs and the records, as they follow each other in the stream.
unfoldable pub interleave : ℕ → List (ℕ × Bytes) → Bytes
interleave n [] = []
interleave n ((id, t) ∷ es) = le_bytes n id ++ (t ++ interleave n es)

-- The records with one ID.
unfoldable pub collect : ℕ → List (ℕ × Bytes) → Bytes
collect id [] = []
collect id ((j, t) ∷ es) = (if id == j then t else []) ++ collect id es

abbrev pub extend : Bytes → Option GroupBuf → Option GroupBuf
extend t none = none
extend t (some g) = some (record g { buf = g.buf ++ t })

-- Every record belongs to a group and has that group's form.
pub record IsKnown (bufs : Bufs) (n : ℕ) (e : ℕ × Bytes) : Type 0 where
  pub group : GroupBuf
  pub found : bufs e.0 ≡ some group
  pub form : IsRecord group.vlsd group.rec_size e.1
  pub id_fits : e.0 < 256 ^ n

-- The buffers after the records `es`.
pub record IsSpread (n : ℕ) (section : Bytes) (bufs after : Bufs) : Type 0 where
  pub records : List (ℕ × Bytes)
  pub known : All (IsKnown bufs n) records
  pub stream : section ≡ interleave n records
  pub each : (id : ℕ) → after id ≡ extend (collect id records) (bufs id)

read_full-ok : (n : ℕ) (xs rest : Bytes) → length xs ≡ n → read_full n (xs ++ rest) ≡ ok (xs, rest)
unfolding read_full
read_full-ok n xs rest h = rw (
  sym h,
  ge→ltb (length (xs ++ rest)) (length xs) (omega (arith, length-append xs rest)),
  take-length xs rest,
  drop-length xs rest,
)

read_full-Post :
    (n : ℕ) (rest : Bytes) → Post (λ r. (rest ≡ r.0 ++ r.1) × (length r.0 ≡ n)) (read_full n rest)
unfolding read_full
read_full-Post n rest =
    Post-if (ltb (length rest) n) (λ _. raises)
      λ h.
        returns (
          sym (take-append-drop n rest),
          omega (arith, ltb→ge (length rest) n h, length-take n rest),
        )

record_id_of_lem : (bs : Bytes) → All IsByte bs → record_id_of bs ≡ le_value bs % 2 ^ 64
unfolding record_id_of le_value
record_id_of_lem [] h = refl
record_id_of_lem (b ∷ bs) (h, hs) =
    ap (λ t. push_byte t b) (record_id_of_lem bs hs)
    ∙ push_byte_lem (le_value bs) b h
    ∙ ap (λ t. t % 2 ^ 64) (omega arith)

read_record-ok :
    (vlsd : Bool) (size : ℕ) (t rest : Bytes)
    → IsRecord vlsd size t
    → read_record vlsd size (t ++ rest) ≡ ok (t, rest)
unfolding read_record
read_record-ok false size t rest (fixed h) = read_full-ok size t rest h
read_record-ok true size _ rest (variable a b h k) =
    rw (append_assoc a b rest, read_full-ok 4 a (b ++ rest) h, read_full-ok (le_value a) b rest (k))

read_record-Post :
    (vlsd : Bool) (size : ℕ) (rest : Bytes)
    → Post (λ r. (rest ≡ r.0 ++ r.1) × IsRecord vlsd size r.0) (read_record vlsd size rest)
unfolding read_record
read_record-Post false size rest = Post-map (read_full-Post size rest) λ r h. (h.0, fixed h.1)
read_record-Post true size rest = Post-bind (read_full-Post 4 rest) λ r h.
    Post-bind (read_full-Post (le_value r.0) r.1) λ s k.
      returns
        (h.0 ∙ ap (λ t. r.0 ++ t) k.0 ∙ sym (append_assoc r.0 s.0 s.1), variable r.0 s.0 h.1 k.1)

find_buf-Post : (id : ℕ) (bufs : Bufs) → Post (λ g. bufs id ≡ some g) (find_buf id bufs)
unfolding find_buf
find_buf-Post id bufs = found (bufs id) refl
  where
    found :
        (o : Option GroupBuf)
        → bufs id ≡ o
        → Post
            (λ g. bufs id ≡ some g)
            (elim (bufs id) [ none ↦ err unknown_record | some gb ↦ ok gb ])
    found none e = rw e raises
    found (some g) e = rw e (returns refl)

find_buf-ok : (id : ℕ) (bufs : Bufs) (g : GroupBuf) → bufs id ≡ some g → find_buf id bufs ≡ ok g
unfolding find_buf
find_buf-ok id bufs g e = rw (e, find_buf)

-- One record more.
abbrev pub grow : Bytes → ℕ → GroupBuf → Bufs → Bufs
grow t id g bufs = insert id (record g { buf = g.buf ++ t }) bufs

-- What one round does.
pub record IsStep (n : ℕ) (rest : Bytes) (bufs : Bufs) (r : Bytes × Bufs) : Type 0 where
  pub entry : ℕ × Bytes
  pub known : IsKnown bufs n entry
  pub stream : rest ≡ le_bytes n entry.0 ++ (entry.1 ++ r.0)
  pub next : r.1 ≡ grow entry.1 entry.0 known.group bufs

le_bytes-le_value :
    (n : ℕ) (bs : Bytes) → length bs ≡ n → All IsByte bs → le_bytes n (le_value bs) ≡ bs
unfolding le_bytes le_value
le_bytes-le_value zero [] h hb = refl
le_bytes-le_value zero (b ∷ bs) h hb = absurd (omega (arith, h))
le_bytes-le_value (suc n) [] h hb = absurd (omega (arith, h))
le_bytes-le_value (suc n) (b ∷ bs) h (hb, hs) =
    let low : (b + 256 * le_value bs) % 256 ≡ b = omega arith in
    let high : (b + 256 * le_value bs) / 256 ≡ le_value bs = omega arith in
    rw (low, high) (ap (◌∷◌ b) (le_bytes-le_value n bs (omega (arith, h)) hs))

-- The ID's bytes spell it, and are what the writer of the ID writes.
record_id_word :
    (n : ℕ) (bs : Bytes)
    → n ≤ 8
    → length bs ≡ n
    → All IsByte bs
    → (record_id_of bs < 256 ^ n) × (le_bytes n (record_id_of bs) ≡ bs)
record_id_word n bs h e hb =
    let small : le_value bs < 256 ^ n = subst (λ t. le_value bs < 256 ^ t) e (le_value-lt bs hb) in
    let top : 256 ^ n ≤ 256 ^ 8 = pow-le-pow_right {n = 256} (omega arith) {j = 8} h in
    let id : record_id_of bs ≡ le_value bs = record_id_of_lem bs hb ∙ (omega (arith, small, top)) in
    rw id (small, le_bytes-le_value n bs e hb)

module _ (n : ℕ) (short : n ≤ 8) where
  pub step-Post :
      (rest : Bytes) (bufs : Bufs) → All IsByte rest → Post (IsStep n rest bufs) (step n rest bufs)
  unfolding step
  step-Post rest bufs hb = Post-bind (read_full-Post n rest) λ r h.
      let id_bytes : All IsByte r.0 = (All-left IsByte r.0 r.1 (subst (All IsByte) h.0 hb)) in
      let id = record_id_word n r.0 short h.1 id_bytes in
      Post-bind (find_buf-Post (record_id_of r.0) bufs) λ g f.
        Post-bind (read_record-Post g.vlsd g.rec_size r.1) λ t k. returns (record {
          entry = (record_id_of r.0, t.0);
          known = record { group = g; found = f; form = k.1; id_fits = id.0 };
          stream = h.0 ∙ ap₂ ◌++◌ (sym id.1) k.0;
          next = refl;
        })

  pub step-ok :
      (bufs : Bufs) (id : ℕ) (t rest : Bytes) (k : IsKnown bufs n (id, t))
      → step n (le_bytes n id ++ (t ++ rest)) bufs ≡ ok (rest, grow t id k.group bufs)
  unfolding step
  step-ok bufs id t rest k = rw (
    read_full-ok n (le_bytes n id) (t ++ rest) (length-le_bytes n id),
    read_id,
    find_buf-ok id bufs k.group k.found,
    read_record-ok k.group.vlsd k.group.rec_size t rest k.form,
  )
    where
      top : 256 ^ n ≤ 256 ^ 8
      top = pow-le-pow_right {n = 256} (omega arith) {j = 8} short

      read_id : record_id_of (le_bytes n id) ≡ id
      read_id =
          record_id_of_lem (le_bytes n id) (le_bytes-IsByte n id)
          ∙ ap (λ t. t % 2 ^ 64) (le_value-le_bytes n id k.id_fits)
          ∙ omega (arith, top, k.id_fits)

  -- A record more leaves every record that comes after it known.
  pub IsKnown-grow :
      (bufs : Bufs) (id : ℕ) (t : Bytes) (g : GroupBuf)
      → bufs id ≡ some g
      → (e : ℕ × Bytes) → IsKnown bufs n e
      → IsKnown (grow t id g bufs) n e
  IsKnown-grow bufs id t g f e k = elim (Bool-cases (e.0 == id)) [
    | inl same ↦
        let at : e.0 ≡ id = ==→eq e.0 id same in
        let one : some k.group ≡ some g = sym k.found ∙ ap bufs at ∙ f in
        let group : k.group ≡ g = cc in
        record {
          group = record g { buf = g.buf ++ t };
          found = rw same;
          form = subst (λ h. IsRecord h.vlsd h.rec_size e.1) group k.form;
          id_fits = k.id_fits;
        }
    | inr other ↦ record {
      group = k.group;
      found = rw other k.found;
      form = k.form;
      id_fits = k.id_fits;
    }
  ]

  pub grow-collect :
      (bufs : Bufs) (id : ℕ) (t : Bytes) (g : GroupBuf) (es : List (ℕ × Bytes)) (j : ℕ)
      → bufs id ≡ some g
      → extend (collect j es) (grow t id g bufs j) ≡ extend (collect j ((id, t) ∷ es)) (bufs j)
  unfolding collect
  grow-collect bufs id t g es j f = elim (Bool-cases (j == id)) [
    | inl same ↦
        let here : bufs j ≡ some g = ap bufs (==→eq j id same) ∙ f in
        rw (same, here)
          (ap (λ b. some (record g { buf = b })) (append_assoc g.buf t (collect j es)))
    | inr other ↦ rw other refl
  ]
