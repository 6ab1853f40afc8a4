-- ===== src/Unsorted/Laws/Pass.antt =====
-- The whole pass: its fuel lasts, and it inverts interleaving.
use go_mdf.Base.{
  ℕ, zero, suc, ◌+◌, ◌≤◌, ◌<◌, ◌≡◌, refl, sym, ap, subst, ◌∙◌, Option, none, some, inl, inr,
  Bool-cases, ◌==◌, ==→eq, Post-map, List, [], ◌∷◌, ◌++◌, append-nil, length, Outcome, ok, err,
  panic, Post, returns, raises, All, All-right, arith, length-append,
}
use go_mdf.Base.Words.{Bytes, IsByte, le_bytes, length-le_bytes}
use go_mdf.Unsorted.{GroupBuf, Bufs, step, pass}
use go_mdf.Unsorted.Laws.{
  IsRecord, IsKnown, IsStep, IsSpread, interleave, collect, extend, grow, step-Post, step-ok,
  IsKnown-grow, grow-collect,
}

extend-nil : (o : Option GroupBuf) → o ≡ extend [] o
extend-nil none = refl
extend-nil (some g) = ap (λ b. some (record g { buf = b })) (sym (append-nil g.buf))

-- The pass after a round that ended with `o`.
abbrev after : ℕ → ℕ → Outcome (Bytes × Bufs) → Option (Outcome Bufs)
after fuel n (ok r) = pass fuel n r.0 r.1
after fuel n (err e) = some (err e)
after fuel n panic = some panic

abbrev Ends : ℕ → Bytes → Bufs → Option (Outcome Bufs) → Type 0
Ends n section bufs o = (r : Outcome Bufs) × (o ≡ some r) × Post (IsSpread n section bufs) r

module _ (n : ℕ) (some_id : 1 ≤ n) (short : n ≤ 8) where
  All-IsKnown :
      (bufs : Bufs) (id : ℕ) (t : Bytes) (g : GroupBuf)
      → bufs id ≡ some g
      → (es : List (ℕ × Bytes)) → All (IsKnown bufs n) es
      → All (IsKnown (grow t id g bufs) n) es
  All-IsKnown bufs id t g f [] h = tt
  All-IsKnown bufs id t g f (e ∷ es) (h, hs) =
      (IsKnown-grow n short bufs id t g f e h, All-IsKnown bufs id t g f es hs)

  IsKnown-shrink :
      (bufs : Bufs) (id : ℕ) (t : Bytes) (g : GroupBuf)
      → bufs id ≡ some g
      → (e : ℕ × Bytes) → IsKnown (grow t id g bufs) n e
      → IsKnown bufs n e
  IsKnown-shrink bufs id t g f e k = elim (Bool-cases (e.0 == id)) [
    | inl same ↦
        let at : e.0 ≡ id = ==→eq e.0 id same in
        let here : grow t id g bufs e.0 ≡ some (record g { buf = g.buf ++ t }) = rw same in
        let one : some (record g { buf = g.buf ++ t }) ≡ some k.group = sym here ∙ k.found in
        let group : record g { buf = g.buf ++ t } ≡ k.group = cc in
        record {
          group = g;
          found = ap bufs at ∙ f;
          form = subst (λ h. IsRecord h.vlsd h.rec_size e.1) (sym group) k.form;
          id_fits = k.id_fits;
        }
    | inr other ↦ record {
      group = k.group;
      found = (let there : bufs e.0 ≡ grow t id g bufs e.0 = rw other in there ∙ k.found);
      form = k.form;
      id_fits = k.id_fits;
    }
  ]

  All-IsKnown_back :
      (bufs : Bufs) (id : ℕ) (t : Bytes) (g : GroupBuf)
      → bufs id ≡ some g
      → (es : List (ℕ × Bytes)) → All (IsKnown (grow t id g bufs) n) es
      → All (IsKnown bufs n) es
  All-IsKnown_back bufs id t g f [] h = tt
  All-IsKnown_back bufs id t g f (e ∷ es) (h, hs) =
      (IsKnown-shrink bufs id t g f e h, All-IsKnown_back bufs id t g f es hs)

  module _ (fuel : ℕ) (rest : Bytes) (bufs : Bufs) (bytes : All IsByte rest)
      (room : length rest ≤ suc fuel)
      (later : (rest' : Bytes) (bufs' : Bufs)
        → length rest' ≤ fuel
        → All IsByte rest'
        → Ends n rest' bufs' (pass fuel n rest' bufs')) where
    join :
        (r : Bytes × Bufs)
        → IsStep n rest bufs r
        → {x : Bufs} → IsSpread n r.0 r.1 x
        → IsSpread n rest bufs x
    unfolding interleave
    join r s {x} p =
        let id = s.entry.0 in
        let t = s.entry.1 in
        let g = s.known.group in
        let same : (j : ℕ) → r.1 j ≡ grow t id g bufs j = λ j. ap (λ m. m j) s.next in
        record {
          records = s.entry ∷ p.records;
          known = (
            s.known,
            All-IsKnown_back bufs id t g s.known.found p.records
                (subst (λ m. All (IsKnown m n) p.records) s.next p.known),
          );
          stream = s.stream ∙ ap (λ q. le_bytes n id ++ (t ++ q)) p.stream;
          each = λ j.
              p.each j
              ∙ ap (extend (collect j p.records)) (same j)
              ∙ grow-collect n short bufs id t g p.records j s.known.found;
        }

    left_bytes : (r : Bytes × Bufs) → IsStep n rest bufs r → (length r.0 ≤ fuel) × All IsByte r.0
    left_bytes r s = (
      omega (
        arith,
        room,
        ap length s.stream,
        length-append (le_bytes n s.entry.0) (s.entry.1 ++ r.0),
        length-le_bytes n s.entry.0,
        length-append s.entry.1 r.0,
        some_id,
      ),
      All-right IsByte s.entry.1 r.0 (
          All-right IsByte (le_bytes n s.entry.0) (s.entry.1 ++ r.0)
            (subst (All IsByte) s.stream bytes)),
    )

    after-Ends :
        (o : Outcome (Bytes × Bufs))
        → Post (IsStep n rest bufs) o
        → Ends n rest bufs (after fuel n o)
    after-Ends _ (returns {a = r} s) =
        let k = left_bytes r s in
        let e = later r.0 r.1 k.0 k.1 in (e.0, e.1, Post-map e.2 λ x p. join r s p)
    after-Ends _ (raises {e = e}) = (err e, refl, raises)

  -- With as much fuel as the stream is long the pass ends. It never panics, and buffers that it
  -- returns hold, for a stream that is an interleaving of known records, each group's records in
  -- their order.
  pub pass-IsSpread :
      (fuel : ℕ) (rest : Bytes) (bufs : Bufs)
      → length rest ≤ fuel
      → All IsByte rest
      → Ends n rest bufs (pass fuel n rest bufs)
  unfolding pass interleave collect
  pass-IsSpread fuel [] bufs h hb = (
    ok bufs,
    refl,
    returns (record { records = []; known = tt; stream = refl; each = λ id. extend-nil (bufs id) }),
  )
  pass-IsSpread zero (b ∷ rest) bufs h hb = absurd (omega (arith, h))
  pass-IsSpread (suc fuel) (b ∷ rest) bufs h hb =
      after-Ends fuel (b ∷ rest) bufs hb h (λ r m k kb. pass-IsSpread fuel r m k kb)
        (step n (b ∷ rest) bufs) (step-Post n short (b ∷ rest) bufs hb)

  pass-step :
      (fuel : ℕ) (xs : Bytes) (bufs : Bufs) (r : Bytes × Bufs)
      → 0 < length xs
      → step n xs bufs ≡ ok r
      → pass (suc fuel) n xs bufs ≡ pass fuel n r.0 r.1
  unfolding pass
  pass-step fuel [] bufs r h e = absurd (omega (arith, h))
  pass-step fuel (b ∷ xs) bufs r h e = ap (after fuel n) e

  length-stream :
      (id : ℕ) (t : Bytes) (es : List (ℕ × Bytes))
      → n + length (interleave n es) ≤ length (interleave n ((id, t) ∷ es))
  unfolding interleave
  length-stream id t es = omega (
    arith,
    length-append (le_bytes n id) (t ++ interleave n es),
    length-le_bytes n id,
    length-append t (interleave n es),
  )

  -- Interleaved records are taken apart again.
  pub pass-interleave :
      (fuel : ℕ) (es : List (ℕ × Bytes)) (bufs : Bufs)
      → length (interleave n es) ≤ fuel
      → All (IsKnown bufs n) es
      → (x : Bufs) × (pass fuel n (interleave n es) bufs ≡ some (ok x))
        × ((id : ℕ) → x id ≡ extend (collect id es) (bufs id))
  unfolding interleave collect pass
  pass-interleave fuel [] bufs h k = (bufs, refl, λ id. extend-nil (bufs id))
  pass-interleave zero ((id, t) ∷ es) bufs h k =
      absurd (omega (arith, h, length-stream id t es, some_id))
  pass-interleave (suc fuel) ((id, t) ∷ es) bufs h (k, ks) =
      let room = length-stream id t es in
      let rest =
        pass-interleave fuel es (grow t id k.group bufs) (omega (arith, h, room, some_id))
          (All-IsKnown bufs id t k.group k.found es ks) in
      (
        rest.0,
        pass-step fuel _ bufs (interleave n es, grow t id k.group bufs)
              (omega (arith, room, some_id)) (step-ok n short bufs id t (interleave n es) k)
            ∙ rest.1,
        λ j. rest.2 j ∙ grow-collect n short bufs id t k.group es j k.found,
      )
