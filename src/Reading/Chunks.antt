-- ===== src/Reading/Chunks.antt =====
-- Reading the chunks of a section one after another is reading the whole window.
use native.Mathlib.Nat.{add-mul, mul-le-mul_right}
use go_mdf.Base.{
  ℕ, zero, suc, ◌+◌, ◌-◌, ◌*◌, ◌^◌, ◌≤◌, ◌<◌, ◌≡◌, refl, sym, subst, Bool-cases, inl, inr, ltb,
  ltb→lt, ltb→ge, ge→ltb, if◌then◌else◌, length, Outcome, bind-ap, ok, ◌>>=◌, arith,
}
use go_mdf.Base.Words.{Bytes}
use go_mdf.Blocks.Header.{add64, sub64, mul64}
use go_mdf.DataSection.Resolve.{slt}
use go_mdf.DataSection.Reader.Laws.Layout.{slt-true, slt-false}
use go_mdf.Records.Extract.Local.{window}
use go_mdf.Reading.{Section, read_chunks, slice_buffer}
use go_mdf.Reading.Sound.{IsSection, Does, Does-bind}

module _ {S A : Type 0} (section : Section S) (Valid : S → Type 0) (whole : Bytes)
    (i : IsSection section Valid whole) (step : Bytes → ℕ → A → Outcome A)
    (stride buf_len chunk from count : ℕ)
    (add : (k a b : ℕ) (acc : A)
      → (k + (a + b)) * stride ≤ length whole
      → step (window whole stride k (a + b)) (a + b) acc
        ≡ (step (window whole stride k a) a acc >>= step (window whole stride (k + a) b) b))
    (positive : 1 ≤ chunk) (few : count + chunk < 2 ^ 63) (fits : chunk * stride ≤ buf_len)
    (small : buf_len < 2 ^ 63) (bound : length whole < 2 ^ 63)
    (enough : (from + count) * stride ≤ length whole) (index : from + count < 2 ^ 63) where
  round : ℕ → ℕ → ℕ → A → S → Outcome (A × S)
  unfolding read_chunks
  round n fuel done acc s = section.read (n * stride) ((from + done) * stride) s >>= λ r.
      step r.0 n acc >>= λ acc'.
      read_chunks step section stride buf_len chunk from count fuel (done + n) acc' r.1

  finished :
      (fuel : ℕ) (acc : A) (s : S)
      → read_chunks step section stride buf_len chunk from count fuel count acc s ≡ ok (acc, s)
  unfolding read_chunks
  finished zero acc s = refl
  finished (suc fuel) acc s = rw (slt-false count count (omega arith) (omega (arith, few))) refl

  abbrev size : ℕ → ℕ
  size done = if slt count (add64 done chunk) then sub64 count done else chunk

  size-all : (done left : ℕ) → done + left ≡ count → left ≤ chunk → size done ≡ left
  size-all done left e h = elim (Bool-cases (ltb count (done + chunk))) [
    | inl more ↦
        let sum : add64 done chunk ≡ done + chunk = omega (arith, e, few) in
        rw
          (
            sum,
            slt-true count (done + chunk) (ltb→lt count (done + chunk) more)
                (omega (arith, e, few)),
          )
          (omega (arith, e, few))
    | inr last ↦
        let sum : add64 done chunk ≡ done + chunk = omega (arith, e, few) in
        rw
          (
            sum,
            slt-false count (done + chunk) (ltb→ge count (done + chunk) last) (omega (arith, few)),
          )
          (omega (arith, e, h, ltb→ge count (done + chunk) last))
  ]

  size-some : (done left : ℕ) → done + left ≡ count → chunk < left → size done ≡ chunk
  size-some done left e h =
      let sum : add64 done chunk ≡ done + chunk = omega (arith, e, few) in
      rw (sum, slt-false count (done + chunk) (omega (arith, e, h)) (omega (arith, few))) refl

  read_chunks-round :
      (n fuel done left : ℕ) (acc : A) (s : S)
      → done + suc left ≡ count
      → size done ≡ n
      → n ≤ suc left
      → n ≤ chunk
      → read_chunks step section stride buf_len chunk from count (suc fuel) done acc s
        ≡ round n fuel done acc s
  unfolding read_chunks slice_buffer round
  read_chunks-round n fuel done left acc s e m less most =
      let within = mul-le-mul_right {m = n} {n = chunk} stride most in
      let before =
        mul-le-mul_right {m = from + done} {n = from + count} stride (omega (arith, e)) in
      let bytes : mul64 n stride ≡ n * stride = omega (arith, within, fits, small) in
      let place : add64 from done ≡ from + done = omega (arith, e, index) in
      let off : mul64 (from + done) stride ≡ (from + done) * stride =
        omega (arith, before, enough, bound) in
      let later : add64 done n ≡ done + n = omega (arith, e, less, few) in
      let room = ge→ltb buf_len (n * stride) (omega (arith, within, fits)) in
      rw
        (
          slt-true done count (omega (arith, e)) (omega (arith, few)),
          m,
          bytes,
          place,
          off,
          later,
          room,
        )
        refl

  reading :
      (n done : ℕ) (s : S)
      → Valid s
      → done + n ≤ count
      → (after : S) × (section.read (n * stride) ((from + done) * stride) s
          ≡ ok (window whole stride (from + done) n, after))
        × Valid after
  reading n done s v h =
      let within =
        mul-le-mul_right {m = from + done + n} {n = from + count} stride (omega (arith, h)) in
      i.reads (n * stride) ((from + done) * stride) s v
        (omega (arith, within, enough, add-mul (from + done) n stride))

  -- As many rounds as records left read them all.
  read_chunks-window :
      (fuel done left : ℕ) (acc : A) (s : S)
      → done + suc left ≡ count
      → suc left ≤ fuel
      → Valid s
      → Does Valid
          (read_chunks step section stride buf_len chunk from count fuel done acc s)
          (step (window whole stride (from + done) (suc left)) (suc left) acc)
  unfolding round
  read_chunks-window zero done left acc s e f v = absurd (omega (arith, f))
  read_chunks-window (suc fuel) done left acc s e f v = elim (Bool-cases (ltb chunk (suc left))) [
    | inr last ↦
        let most = ltb→ge chunk (suc left) last in
        let r = reading (suc left) done s v (omega (arith, e)) in
        rw
          (
            read_chunks-round (suc left) fuel done left acc s e (size-all done (suc left) e most)
                (omega arith) most,
            r.1,
            e,
          )
          (
            r.0,
            bind-ap (step (window whole stride (from + done) (suc left)) (suc left) acc) _ _
                (λ a. finished fuel a r.0),
            r.2,
          )
    | inl more ↦
        let less = ltb→lt chunk (suc left) more in
        let rest = left - chunk in
        let split : chunk + suc rest ≡ suc left = omega (arith, less) in
        let now : done + chunk + suc rest ≡ count = omega (arith, split, e) in
        let place : from + (done + chunk) ≡ from + done + chunk = omega arith in
        let within =
          mul-le-mul_right {m = from + done + (chunk + suc rest)} {n = from + count} stride
            (omega (arith, split, e)) in
        let r = reading chunk done s v (omega (arith, less, e)) in
        let first = step (window whole stride (from + done) chunk) chunk acc in
        let run = first >>= λ a.
        read_chunks step section stride buf_len chunk from count fuel (done + chunk) a r.0 in
        let both =
          Does-bind Valid r.0 first
            (λ a.
              read_chunks step section stride buf_len chunk from count fuel (done + chunk) a r.0)
            (step (window whole stride (from + done + chunk) (suc rest)) (suc rest)) r.2
            (λ a.
              subst
                (λ k.
                  Does Valid
                    (read_chunks step section stride buf_len chunk from count fuel (done + chunk) a
                      r.0)
                    (step (window whole stride k (suc rest)) (suc rest) a))
                place
                (read_chunks-window fuel (done + chunk) rest a r.0 now
                  (omega (arith, f, positive, split)) r.2)) in
        rw
          (
            read_chunks-round chunk fuel done left acc s e (size-some done (suc left) e less)
                (omega (arith, less)) (omega arith),
            r.1,
          )
          (subst (λ t. Does Valid run (step (window whole stride (from + done) t) t acc)) split
            (subst (Does Valid run)
              (sym (add (from + done) chunk (suc rest) acc (omega (arith, within, enough)))) both))
  ]

  -- All of them.
  pub read_chunks-all :
      (left : ℕ) (acc : A) (s : S)
      → suc left ≡ count
      → Valid s
      → Does Valid
          (read_chunks step section stride buf_len chunk from count count 0 acc s)
          (step (window whole stride from count) count acc)
  read_chunks-all left acc s e v =
      let start : from + 0 ≡ from = omega arith in
      subst
        (λ t.
          Does Valid (read_chunks step section stride buf_len chunk from count count 0 acc s)
            (step (window whole stride from t) t acc))
        e
        (subst
          (λ k.
            Does Valid (read_chunks step section stride buf_len chunk from count count 0 acc s)
              (step (window whole stride k (suc left)) (suc left) acc))
          start (read_chunks-window count 0 left acc s (omega (arith, e)) (omega (arith, e)) v))
