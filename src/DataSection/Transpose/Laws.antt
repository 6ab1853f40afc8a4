-- ===== src/DataSection/Transpose/Laws.antt =====
-- What the transposition loops write, and that `untranspose` takes back `transpose`.
use go_mdf.Base.{
  ℕ, zero, suc, ◌+◌, ◌-◌, ◌*◌, ◌/◌, ◌%◌, ◌≤◌, ◌<◌, ◌≡◌, ◌≢◌, refl, sym, ap, ap₂, ◌∙◌, [], ◌∷◌, ltb,
  length, length-append, arith, inl, inr, Bool-cases, ltb→lt, ltb→ge, lt→ltb, ge→ltb, gt→leb, drop,
  take, subst, get_or, set, length-set, replicate, length-replicate, length-take, length-drop,
  get_or-set_self, get_or-set_ne, get_or-take, get_or-drop, get_or-append_left, get_or-append_right,
  get_or_ext, ok,
}
use native.Mathlib.Nat.{div-mul-le_self, div-add-mod', div-lt_iff_lt-mul, mod-lt, mul_comm}
use go_mdf.Base.Powers.{mod_unique, div_unique}
use go_mdf.Base.Words.{Bytes, slice}
use go_mdf.DataSection.Transpose.{write, scatter_row, scatter, copy_tail, transpose, untranspose}

-- Rows of `a` below `stride` write to disjoint places.
module _ (stride a a' b b' : ℕ) (ha : a < stride) (ha' : a' < stride)
    (e : b * stride + a ≡ b' * stride + a') where
  same_column : b ≡ b'
  same_column =
      sym (div_unique stride b a ha)
      ∙ ap (λ t. t / stride) (omega (arith, e))
      ∙ div_unique stride b' a' ha'

  same_row : a ≡ a'
  same_row =
      sym (mod_unique stride b a ha)
      ∙ ap (λ t. t % stride) (omega (arith, e))
      ∙ mod_unique stride b' a' ha'

-- One row: each element lands at its place, and the other places keep their bytes.
record IsWritten (at : ℕ → ℕ) (b : ℕ) (row out : Bytes) : Type 0 where
  result : Bytes
  runs : scatter_row at b row out ≡ ok result
  same_length : length result ≡ length out
  written : (j : ℕ) → j < length row → get_or result (at (b + j)) 0 ≡ get_or row j 0
  others :
      (p : ℕ) → ((j : ℕ) → j < length row → at (b + j) ≢ p) → get_or result p 0 ≡ get_or out p 0

module _ (at : ℕ → ℕ) (injective : (b c : ℕ) → at b ≡ at c → b ≡ c) where
  module _ (x : ℕ) (row out : Bytes) (b : ℕ)
      (room : (j : ℕ) → j < suc (length row) → at (b + j) < length out) where
    start : b + 0 ≡ b
    start = omega arith

    next : (j : ℕ) → b + suc j ≡ b + 1 + j
    next j = omega arith

    here : at b < length out
    here = subst (λ t. at t < length out) start (room 0 (omega arith))

    rest_room : (j : ℕ) → j < length row → at (b + 1 + j) < length (set out (at b) x)
    rest_room j h =
        let k : at (b + suc j) < length out = room (suc j) (omega arith) in
        subst (λ t. at t < length (set out (at b) x)) (next j)
          (omega (arith, k, length-set out (at b) x))

    module _ (rest : IsWritten at (b + 1) row (set out (at b) x)) where
      all_written :
          (j : ℕ) → j < suc (length row) → get_or rest.result (at (b + j)) 0 ≡ get_or (x ∷ row) j 0
      all_written zero h =
          ap (λ t. get_or rest.result (at t) 0) start
          ∙ rest.others (at b) (λ j k e. absurd (omega (arith, injective (b + 1 + j) b e)))
          ∙ get_or-set_self out (at b) x 0 here
      all_written (suc j) h =
          ap (λ t. get_or rest.result (at t) 0) (next j) ∙ rest.written j (omega arith)

      all_others :
          (p : ℕ)
          → ((j : ℕ) → j < suc (length row) → at (b + j) ≢ p)
          → get_or rest.result p 0 ≡ get_or out p 0
      all_others p away =
          rest.others p (λ j h. subst (λ t. at t ≢ p) (next j) (away (suc j) (omega arith)))
          ∙ get_or-set_ne out (at b) p x 0 (subst (λ t. at t ≢ p) start (away 0 (omega arith)))

      cons-IsWritten : IsWritten at b (x ∷ row) out
      unfolding scatter_row write
      cons-IsWritten = record {
        result = rest.result;
        runs = rw (lt→ltb (at b) (length out) here) rest.runs;
        same_length = rest.same_length ∙ length-set out (at b) x;
        written = all_written;
        others = all_others;
      }

  scatter_row-IsWritten :
      (row out : Bytes) (b : ℕ)
      → ((j : ℕ) → j < length row → at (b + j) < length out)
      → IsWritten at b row out
  unfolding scatter_row
  scatter_row-IsWritten [] out b room = record {
    result = out;
    runs = refl;
    same_length = refl;
    written = λ j h. absurd (omega arith);
    others = λ p h. refl;
  }
  scatter_row-IsWritten (x ∷ row) out b room =
      cons-IsWritten x row out b room
        (scatter_row-IsWritten row (set out (at b) x) (b + 1) (rest_room x row out b room))

-- The rows from `a` on, `n` of them: byte `b` of row `a` lands at `b * stride + a`.
record IsScattered (stride width n a : ℕ) (input out : Bytes) : Type 0 where
  result : Bytes
  runs : scatter (λ i j. j * stride + i) width n a input out ≡ ok result
  same_length : length result ≡ length out
  written :
      (i j : ℕ)
      → a ≤ i
      → i < a + n
      → j < width
      → get_or result (j * stride + i) 0 ≡ get_or input (i * width + j) 0
  others :
      (p : ℕ)
      → ((i j : ℕ) → a ≤ i → i < a + n → j < width → j * stride + i ≢ p)
      → get_or result p 0 ≡ get_or out p 0

module _ (stride width : ℕ) (input : Bytes) (enough : stride * width ≤ length input) where
  abbrev row_of : ℕ → Bytes
  row_of a = take ((a + 1) * width - a * width) (drop (a * width) input)

  row_end : (a : ℕ) → a < stride → (a + 1) * width ≤ length input
  row_end a h = grind arith

  row_size : (a : ℕ) → (a + 1) * width - a * width ≡ width
  row_size a = omega arith

  length-row : (a : ℕ) → a < stride → length (row_of a) ≡ width
  length-row a h = omega (
    arith,
    length-take ((a + 1) * width - a * width) (drop (a * width) input),
    length-drop (a * width) input,
    row_size a,
    row_end a h,
  )

  row_slice : (a : ℕ) → a < stride → slice input (a * width) ((a + 1) * width) ≡ ok (row_of a)
  unfolding slice
  row_slice a h = rw (
    ge→ltb (length input) ((a + 1) * width) (row_end a h),
    ge→ltb ((a + 1) * width) (a * width) (omega arith),
  )

  get_row : (a j : ℕ) → j < width → get_or (row_of a) j 0 ≡ get_or input (a * width + j) 0
  get_row a j h =
      ap (λ n. get_or (take n (drop (a * width) input)) j 0) (row_size a)
      ∙ get_or-take width (drop (a * width) input) j 0 h
      ∙ get_or-drop (a * width) input j 0

  place-lt : (a j : ℕ) → a < stride → j < width → j * stride + a < stride * width
  place-lt a j h k = grind arith

  first-IsWritten :
      (out : Bytes) (a : ℕ)
      → stride * width ≤ length out
      → a < stride
      → IsWritten (λ j. j * stride + a) 0 (row_of a) out
  first-IsWritten out a room h =
      scatter_row-IsWritten (λ j. j * stride + a) (λ b c e. same_column stride a a b c h h e)
        (row_of a) out 0
        λ j k. omega (arith, place-lt a (0 + j) h (omega (arith, k, length-row a h)), room)

  module _ (n a : ℕ) (out : Bytes) (h : a + suc n ≤ stride)
      (one : IsWritten (λ j. j * stride + a) 0 (row_of a) out)
      (rest : IsScattered stride width n (a + 1) input one.result) where
    below : a < stride
    below = omega (arith, h)

    in_row : (j : ℕ) → j < width → j < length (row_of a)
    in_row j k = omega (arith, k, length-row a below)

    both_written :
        (i j : ℕ)
        → a ≤ i
        → i < a + suc n
        → j < width
        → get_or rest.result (j * stride + i) 0 ≡ get_or input (i * width + j) 0
    both_written i j lo hi k = elim (Bool-cases (ltb a i)) [
      | inl later ↦ rest.written i j (omega (arith, ltb→lt a i later)) (omega (arith, hi)) k
      | inr now ↦
          let same : i ≡ a = omega (arith, ltb→ge a i now, lo) in
          rw same (
            rest.others (j * stride + a) (λ i' j' lo' hi' k' e.
              absurd
                (omega (arith, lo', same_row stride i' a j' j (omega (arith, hi', h)) below e)))
            ∙ ap (λ t. get_or one.result (t * stride + a) 0) (zero_left j)
            ∙ one.written j (in_row j k)
            ∙ get_row a j k)
    ]
      where
        zero_left : (j : ℕ) → j ≡ 0 + j
        zero_left j = omega arith

    both_others :
        (p : ℕ)
        → ((i j : ℕ) → a ≤ i → i < a + suc n → j < width → j * stride + i ≢ p)
        → get_or rest.result p 0 ≡ get_or out p 0
    both_others p away =
        rest.others p (λ i j lo hi k. away i j (omega arith) (omega arith) k)
        ∙ one.others p (λ j k e.
          away a j (omega arith) (omega arith) (omega (arith, k, length-row a below)) (left j ∙ e))
      where
        left : (j : ℕ) → j * stride + a ≡ (0 + j) * stride + a
        left j = let e : j ≡ 0 + j = omega arith in ap (λ t. t * stride + a) e

    cons-IsScattered : IsScattered stride width (suc n) a input out
    unfolding scatter
    cons-IsScattered = record {
      result = rest.result;
      runs = rw (row_slice a below, one.runs) rest.runs;
      same_length = rest.same_length ∙ one.same_length;
      written = both_written;
      others = both_others;
    }

  scatter-IsScattered :
      (n a : ℕ) (out : Bytes)
      → a + n ≤ stride
      → stride * width ≤ length out
      → IsScattered stride width n a input out
  unfolding scatter
  scatter-IsScattered zero a out h room = record {
    result = out;
    runs = refl;
    same_length = refl;
    written = λ i j lo hi k. absurd (omega arith);
    others = λ p away. refl;
  }
  scatter-IsScattered (suc n) a out h room =
      let one = first-IsWritten out a room (omega arith) in
      cons-IsScattered n a out h one
        (scatter-IsScattered n (a + 1) one.result (omega arith) (omega (arith, one.same_length)))

-- A whole pass: the loops over all rows, then the copy of the bytes behind them.
module _ (stride width body : ℕ) (input : Bytes) (size : body ≡ stride * width)
    (enough : body ≤ length input) where
  cleared : length (replicate {A = ℕ} (length input) 0) ≡ length input
  cleared = length-replicate (length input) 0

  pass : IsScattered stride width stride 0 input (replicate (length input) 0)
  pass =
      scatter-IsScattered stride width input (omega (arith, size, enough)) stride 0
        (replicate (length input) 0) (omega arith) (omega (arith, size, enough, cleared))

  abbrev passed : Bytes
  passed = copy_tail body input pass.result

  same : length pass.result ≡ length input
  same = pass.same_length ∙ cleared

  head_size : length (take body pass.result) ≡ body
  head_size = omega (arith, length-take body pass.result, same, enough)

  length-passed : length passed ≡ length input
  length-passed = omega (
    arith,
    length-append (take body pass.result) (drop body input),
    head_size,
    length-drop body input,
    enough,
  )

  -- In the body, byte `q` comes from row `q % stride` and column `q / stride`.
  in_body :
      (q : ℕ) → q < body → get_or passed q 0 ≡ get_or input (q % stride * width + q / stride) 0
  in_body q h =
      get_or-append_left (take body pass.result) (drop body input) q 0 (omega (arith, head_size, h))
      ∙ get_or-take body pass.result q 0 h
      ∙ ap (λ t. get_or pass.result t 0) (sym (div-add-mod' q stride))
      ∙ pass.written (q % stride) (q / stride) (omega arith) (omega (arith, mod-lt q positive))
          column
    where
      positive : 0 < stride
      positive = grind (arith, size)

      column : q / stride < width
      column = (div-lt_iff_lt-mul positive).1 (omega (arith, h, size))

  behind : (q : ℕ) → body ≤ q → get_or passed q 0 ≡ get_or input q 0
  behind q h =
      ap (λ t. get_or passed t 0) place
      ∙ get_or-append_right (take body pass.result) (drop body input) (q - body) 0
      ∙ get_or-drop body input (q - body) 0
      ∙ ap (λ t. get_or input t 0) back
    where
      place : q ≡ length (take body pass.result) + (q - body)
      place = omega (arith, head_size, h)

      back : body + (q - body) ≡ q
      back = omega (arith, h)

-- The bytes `t` are `input` transposed, as `transpose` leaves them.
record IsTransposed (input t : Bytes) (rows cols : ℕ) : Type 0 where
  same_length : length t ≡ length input
  moved : (q : ℕ) → q < rows * cols → get_or t q 0 ≡ get_or input (q % rows * cols + q / rows) 0
  kept : (q : ℕ) → rows * cols ≤ q → get_or t q 0 ≡ get_or input q 0

module _ (input t : Bytes) (cols : ℕ) (wide : 1 < cols) (long : cols < length t)
    (h : IsTransposed input t (length t / cols) cols) where
  abbrev rows : ℕ
  rows = length t / cols

  fit : rows * cols ≤ length t
  fit = div-mul-le_self (length t) cols

  abbrev restored : Bytes
  restored = passed cols rows (rows * cols) t (mul_comm rows cols) fit

  -- Row and column of a byte change places once more.
  place : (q : ℕ) → q < rows * cols → get_or t (q % cols * rows + q / cols) 0 ≡ get_or input q 0
  place q k =
      h.moved p p-lt
      ∙ ap₂ (λ a b. get_or input (a * cols + b) 0) row column
      ∙ ap (λ i. get_or input i 0) (div-add-mod' q cols)
    where
      p : ℕ
      p = q % cols * rows + q / cols

      positive : 0 < cols
      positive = omega arith

      below : q / cols < rows
      below = (div-lt_iff_lt-mul positive).1 k

      flip : q % cols * rows + q / cols ≡ rows * (q % cols) + q / cols
      flip = omega arith

      row : p % rows ≡ q / cols
      row = ap (λ i. i % rows) flip ∙ mod_unique rows (q % cols) (q / cols) below

      column : p / rows ≡ q % cols
      column = ap (λ i. i / rows) flip ∙ div_unique rows (q % cols) (q / cols) below

      in_cols : q % cols < cols
      in_cols = mod-lt q positive

      p-lt : p < rows * cols
      p-lt = let b = below in let c = in_cols in grind arith

  restored-get : (q : ℕ) → q < length restored → get_or restored q 0 ≡ get_or input q 0
  restored-get q k = elim (Bool-cases (ltb q (rows * cols))) [
    | inl inside ↦
        let i : q < rows * cols = ltb→lt q (rows * cols) inside in
        in_body cols rows (rows * cols) t (mul_comm rows cols) fit q i ∙ place q i
    | inr outside ↦
        let o : rows * cols ≤ q = ltb→ge q (rows * cols) outside in
        behind cols rows (rows * cols) t (mul_comm rows cols) fit q o ∙ h.kept q o
  ]

  restored-eq : restored ≡ input
  restored-eq =
      get_or_ext restored input 0
        (length-passed cols rows (rows * cols) t (mul_comm rows cols) fit ∙ h.same_length)
        restored-get

  untranspose_lem : untranspose t cols ≡ ok input
  unfolding untranspose
  untranspose_lem =
      rw
        (
          gt→leb cols 1 (omega arith),
          gt→leb (length t) cols long,
          (pass cols rows (rows * cols) t (mul_comm rows cols) fit).runs,
        )
        (ap ok restored-eq)

module _ (input : Bytes) (cols : ℕ) (wide : 1 < cols) (long : cols < length input) where
  -- The reader's `untranspose` takes back the writer's `transpose`, for every input longer than
  -- one row of at least two columns; neither panics.
  pub untranspose-transpose :
      (t : Bytes) × (transpose input cols ≡ ok t) × (untranspose t cols ≡ ok input)
  unfolding transpose
  untranspose-transpose = (
    t,
    rw (gt→leb cols 0 (omega arith), (pass n cols (n * cols) input refl fits).runs),
    untranspose_lem input t cols wide (omega (arith, long, same_size)) transposed,
  )
    where
      n : ℕ
      n = length input / cols

      fits : n * cols ≤ length input
      fits = div-mul-le_self (length input) cols

      t : Bytes
      t = passed n cols (n * cols) input refl fits

      same_size : length t ≡ length input
      same_size = length-passed n cols (n * cols) input refl fits

      transposed : IsTransposed input t (length t / cols) cols
      transposed =
          subst (λ m. IsTransposed input t (m / cols) cols) (sym same_size)
            (record {
              same_length = same_size;
              moved = in_body n cols (n * cols) input refl fits;
              kept = behind n cols (n * cols) input refl fits;
            })
