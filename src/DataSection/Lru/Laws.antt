-- ===== src/DataSection/Lru/Laws.antt =====
-- The cache's invariant, and that `get` and `put` keep it.
use go_mdf.Base.{
  ℕ, zero, suc, ◌+◌, ◌-◌, ◌≤◌, ◌<◌, ◌≡◌, ◌≢◌, refl, ap, ◌∙◌, Bool, true, false, ◌||◌, Option, none,
  some, List, [], ◌∷◌, ◌++◌, ltb, ◌==◌, if◌then◌else◌, if-true, length, length-append, arith, inl,
  inr, ◌⊎◌, Bool-cases, ltb→lt, ltb→ge, ==→eq, ==→ne, sym, Option-cases, eq→==, ne→==, drop,
}
use go_mdf.Base.Words.{Bytes}
use go_mdf.DataSection.Lru.{
  Entries, Lru, insert, delete, held, new_lru, remove, touch, get_found, get, evict, put_found, put,
}

pub contains : ℕ → List ℕ → Bool
contains k [] = false
contains k (j ∷ js) = j == k || contains k js

abbrev pub is_some : Option Bytes → Bool
is_some none = false
is_some (some _) = true

pub Distinct : List ℕ → Type 0
Distinct [] = Unit
Distinct (k ∷ ks) = (contains k ks ≡ false) × Distinct ks

pub total : Entries → List ℕ → ℕ
total m [] = 0
total m (k ∷ ks) = held (m k) + total m ks

-- The keys in the map, their order and their sizes agree, and the budget is kept unless a single
-- payload is larger than all of it.
pub record IsSound (size : ℕ) (m : Entries) (order : List ℕ) : Type 0 where
  pub distinct : Distinct order
  present : (k : ℕ) → contains k order ≡ is_some (m k)
  sized : size ≡ total m order

total-delete :
    (k : ℕ) (m : Entries) (ks : List ℕ) → contains k ks ≡ false → total (delete k m) ks ≡ total m ks
unfolding total contains
total-delete k m [] h = refl
total-delete k m (j ∷ js) h = ground (arith, total-delete k m js)

total-insert :
    (k : ℕ) (b : Bytes) (m : Entries) (ks : List ℕ)
    → contains k ks ≡ false
    → total (insert k b m) ks ≡ total m ks
unfolding total contains
total-insert k b m [] h = refl
total-insert k b m (j ∷ js) h = ground (arith, total-insert k b m js)

-- Only the payloads of the keys count.
total-eq :
    (m m' : Entries) (ks : List ℕ)
    → ((k : ℕ) → contains k ks ≡ true → m k ≡ m' k)
    → total m ks ≡ total m' ks
unfolding total contains
total-eq m m' [] h = refl
total-eq m m' (k ∷ ks) h =
    let head : held (m k) ≡ held (m' k) = ap held (h k (ground (arith, eq→== k k refl))) in
    let rest = total-eq m m' ks (λ j there. h j (ground (arith, there))) in
    omega (arith, head, rest)

total-append : (m : Entries) (xs ys : List ℕ) → total m (xs ++ ys) ≡ total m xs + total m ys
unfolding total
total-append m [] ys = omega arith
total-append m (x ∷ xs) ys = omega (arith, total-append m xs ys)

contains-append :
    (k : ℕ) (xs ys : List ℕ) → contains k (xs ++ ys) ≡ (contains k xs || contains k ys)
unfolding contains
contains-append k [] ys = refl
contains-append k (x ∷ xs) ys = ground (arith, contains-append k xs ys)

contains-remove :
    (k j : ℕ) (xs : List ℕ)
    → Distinct xs
    → contains k (remove j xs) ≡ (if k == j then false else contains k xs)
unfolding contains remove Distinct
contains-remove k j [] d = ground arith
contains-remove k j (x ∷ xs) (f, d) = ground (arith, contains-remove k j xs d)

Distinct-remove : (j : ℕ) (xs : List ℕ) → Distinct xs → Distinct (remove j xs)
unfolding Distinct remove
Distinct-remove j [] d = tt
Distinct-remove j (x ∷ xs) (f, d) = elim (Bool-cases (x == j)) [
  | inl e ↦ rw e d
  | inr e ↦ rw e (contains-remove x j xs d ∙ ground arith, Distinct-remove j xs d)
]

Distinct-snoc :
    (k : ℕ) (xs : List ℕ) → Distinct xs → contains k xs ≡ false → Distinct (xs ++ k ∷ [])
unfolding Distinct contains
Distinct-snoc k [] d h = (refl, tt)
Distinct-snoc k (x ∷ xs) (f, d) h =
    (contains-append x xs (k ∷ []) ∙ ground arith, Distinct-snoc k xs d (ground arith))

total-remove :
    (j : ℕ) (m : Entries) (xs : List ℕ)
    → Distinct xs
    → contains j xs ≡ true
    → total m (remove j xs) + held (m j) ≡ total m xs
unfolding total remove contains Distinct
total-remove j m [] d h = cc
total-remove j m (x ∷ xs) (f, d) h = ground (arith, total-remove j m xs d)

-- The oldest key goes.
drop_oldest :
    (size : ℕ) (m : Entries) (k : ℕ) (ks : List ℕ)
    → IsSound size m (k ∷ ks)
    → IsSound (size - held (m k)) (delete k m) ks
unfolding Distinct total contains
drop_oldest size m k ks s = record {
  distinct = s.distinct.1;
  present = λ j. elim (Bool-cases (j == k)) [
    | inl e ↦ rw e (let i : j ≡ k = ==→eq j k e in rw i s.distinct.0)
    | inr e ↦ ground (arith, e, s.present j)
  ];
  sized = omega (arith, s.sized, total-delete k m ks s.distinct.0);
}

kept_value : (o : Option Bytes) (b : Bool) → b ≡ is_some o → o ≡ (if b then o else none)
kept_value none true h = refl
kept_value none false h = refl
kept_value (some v) true h = refl
kept_value (some v) false h = cc

contains-drop : (k n : ℕ) (ks : List ℕ) → contains k ks ≡ false → contains k (drop n ks) ≡ false
unfolding contains
contains-drop k zero ks h = h
contains-drop k (suc n) [] h = refl
contains-drop k (suc n) (j ∷ js) h = contains-drop k n js (ground arith)

-- What `evict` leaves: the newest keys, with their payloads, and either room for `need` bytes or
-- nothing. It stops as soon as there is room.
record Evicted (budget need : ℕ) (m : Entries) (order : List ℕ) (r : ℕ × Entries × List ℕ)
    : Type 0 where
  sound : IsSound r.0 r.1 r.2
  fits : (r.0 + need ≤ budget) ⊎ (r.2 ≡ [])
  count : ℕ
  kept : r.2 ≡ drop count order
  values : (k : ℕ) → r.1 k ≡ (if contains k r.2 then m k else none)
  needed : (i : ℕ) → i < count → budget < total m (drop i order) + need

module _ (budget need : ℕ) {size : ℕ} (m : Entries) (k : ℕ) (ks : List ℕ)
    (s : IsSound size m (k ∷ ks)) where
  module _ {t : ℕ × Entries × List ℕ} (r : Evicted budget need (delete k m) ks t) where
    evicted_values : (j : ℕ) → t.1 j ≡ (if contains j t.2 then m j else none)
    unfolding Distinct
    evicted_values j = r.values j ∙ elim (Bool-cases (j == k)) [
      | inl same ↦
          let e : j ≡ k = ==→eq j k same in
          let gone : contains j t.2 ≡ false =
            rw (r.kept, e) (contains-drop k r.count ks s.distinct.0) in
          rw (gone)
      | inr other ↦ rw other
    ]

    evicted_needed :
        budget < size + need → (i : ℕ) → i < suc r.count → budget < total m (drop i (k ∷ ks)) + need
    unfolding Distinct
    evicted_needed full zero h = omega (arith, full, s.sized)
    evicted_needed full (suc i) h = omega (
      arith,
      r.needed i (omega arith),
      total-delete k m (drop i ks) (contains-drop k i ks s.distinct.0),
    )

evict-Evicted :
    (budget need size : ℕ) (m : Entries) (order : List ℕ)
    → IsSound size m order
    → Evicted budget need m order (evict budget need size m order)
unfolding evict
evict-Evicted budget need size m [] s = record {
  sound = s;
  fits = inr refl;
  count = 0;
  kept = refl;
  values = λ k. kept_value (m k) (contains k []) (s.present k);
  needed = λ i h. absurd (omega arith);
}
evict-Evicted budget need size m (k ∷ ks) s = elim (Bool-cases (ltb budget (size + need))) [
  | inl full ↦ rw full (
      let r =
        evict-Evicted budget need (size - held (m k)) (delete k m) ks (drop_oldest size m k ks s) in
      record {
        sound = r.sound;
        fits = r.fits;
        count = suc r.count;
        kept = r.kept;
        values = evicted_values budget need m k ks s r;
        needed = evicted_needed budget need m k ks s r (ltb→lt budget (size + need) full);
      })
  | inr room ↦ rw room (record {
    sound = s;
    fits = inl (ltb→ge budget (size + need) room);
    count = 0;
    kept = refl;
    values = λ j. kept_value (m j) (contains j (k ∷ ks)) (s.present j);
    needed = λ i h. absurd (omega arith);
  })
]

touch-IsSound :
    (key size : ℕ) (m : Entries) (order : List ℕ)
    → IsSound size m order
    → contains key order ≡ true
    → IsSound size m (remove key order ++ key ∷ [])
unfolding contains
touch-IsSound key size m order s h = record {
  distinct =
      Distinct-snoc key (remove key order) (Distinct-remove key order s.distinct)
        (contains-remove key key order s.distinct ∙ ground arith);
  present = λ k. touched_present k;
  sized = omega (
    arith,
    s.sized,
    total-append m (remove key order) (key ∷ []),
    total-remove key m order s.distinct h,
    last,
  );
}
  where
    touched_present : (k : ℕ) → contains k (remove key order ++ key ∷ []) ≡ is_some (m k)
    touched_present k = ground (
      arith,
      contains-append k (remove key order) (key ∷ []),
      contains-remove k key order s.distinct,
      s.present k,
      s.present key,
    )

    last : total m (key ∷ []) ≡ held (m key)
    last = unfold total in omega arith

-- The invariant of the cache: keys without repetition, in the map exactly if in the order, the size
-- their payloads' total, and the budget kept unless one payload is cached alone.
pub record IsValid (c : Lru) : Type 0 where
  sound : IsSound c.size c.entries c.order
  bounded : (c.size ≤ c.budget) ⊎ (length c.order ≤ 1)

length-touch :
    (key : ℕ) (order : List ℕ)
    → contains key order ≡ true
    → length (remove key order ++ key ∷ []) ≡ length order
unfolding contains remove
length-touch key [] h = cc
length-touch key (x ∷ xs) h = ground (arith, length-touch key xs, length-append xs (key ∷ []))

touch-IsValid :
    (key : ℕ) (c : Lru) → IsValid c → is_some (c.entries key) ≡ true → IsValid (touch key c)
unfolding touch
touch-IsValid key c v h =
    let there = v.sound.present key ∙ h in
    record {
      sound = touch-IsSound key c.size c.entries c.order v.sound there;
      bounded = ground (arith, v.bounded, length-touch key c.order there);
    }

module _ (key : ℕ) (c : Lru) (v : IsValid c) where
  get_found_lem :
      (o : Option Bytes)
      → c.entries key ≡ o
      → IsValid (get_found key c o).0
        × ((get_found key c o).0.entries ≡ c.entries)
        × ((get_found key c o).1 ≡ o)
        × ((get_found key c o).0.order
            ≡ (if is_some o then remove key c.order ++ key ∷ [] else c.order))
  unfolding get_found
  get_found_lem none e = (v, refl, refl, refl)
  get_found_lem (some buf) e =
      (touch-IsValid key c v (ap is_some e), unfold touch in refl, refl, unfold touch in refl)

  -- `get` keeps the invariant, changes no payload, returns what the map holds, and makes a key
  -- that it finds the most recently used one.
  pub get-IsValid :
      IsValid (get key c).0
      × ((get key c).0.entries ≡ c.entries)
      × ((get key c).1 ≡ c.entries key)
      × ((get key c).0.order
          ≡ (if is_some (c.entries key) then remove key c.order ++ key ∷ [] else c.order))
  unfolding get
  get-IsValid = get_found_lem (c.entries key) refl

  module _ (buf : Bytes) where
    abbrev left : ℕ × Entries × List ℕ
    left = evict c.budget (length buf) c.size c.entries c.order

    evicted : Evicted c.budget (length buf) c.entries c.order left
    evicted = evict-Evicted c.budget (length buf) c.size c.entries c.order v.sound

    module _ (absent : c.entries key ≡ none) where
      not_left : contains key left.2 ≡ false
      not_left =
          let r = evicted in
          r.sound.present key ∙ ap is_some (r.values key) ∙ rw absent (ground arith)

      stays : total left.1 left.2 ≡ total c.entries left.2
      stays =
          total-eq left.1 c.entries left.2
            (λ k there. evicted.values k ∙ if-true (contains k left.2) (c.entries k) none there)

      kept_fit :
          (total c.entries (drop evicted.count c.order) + length buf ≤ c.budget)
          ⊎ (drop evicted.count c.order ≡ [])
      kept_fit = elim evicted.fits [
        | inl room ↦
            let same = ap (total c.entries) evicted.kept in
            inl (omega (arith, room, evicted.sound.sized, stays, same))
        | inr nothing ↦ inr (sym evicted.kept ∙ nothing)
      ]

      self : insert key buf left.1 key ≡ some buf
      self = rw (eq→== key key refl)

      new-IsSound : IsSound (left.0 + length buf) (insert key buf left.1) (left.2 ++ key ∷ [])
      unfolding contains total
      new-IsSound =
          let r = evicted in
          let here : held (insert key buf left.1 key) ≡ length buf = ap held self in
          record {
            distinct = Distinct-snoc key left.2 r.sound.distinct not_left;
            present = λ k.
                contains-append k left.2 (key ∷ []) ∙ ground (arith, r.sound.present k, not_left);
            sized = omega (
              arith,
              r.sound.sized,
              total-append (insert key buf left.1) left.2 (key ∷ []),
              total-insert key buf left.1 left.2 not_left,
              here,
            );
          }

      found_none : put key buf c ≡ put_found key buf c none
      unfolding put
      found_none = ap (put_found key buf c) absent

      new_bounded : (left.0 + length buf ≤ c.budget) ⊎ (length (left.2 ++ key ∷ []) ≤ 1)
      new_bounded = elim evicted.fits [
        | inl room ↦ inl room
        | inr nothing ↦ inr (rw nothing (omega arith))
      ]

      put_found-IsValid : IsValid (put_found key buf c none)
      unfolding put_found
      put_found-IsValid = record { sound = new-IsSound; bounded = new_bounded }

      -- A new payload is cached: the keys that stay are the most recently used ones, with their
      -- payloads, the new key is the most recent, they fit into the budget with it unless none
      -- stays, and every key that went had to go, since with it and the keys after it the new
      -- payload did not fit.
      pub put_new :
          (n : ℕ) × ((put key buf c).order ≡ drop n c.order ++ key ∷ [])
          × ((put key buf c).entries key ≡ some buf)
          × ((j : ℕ)
              → j ≢ key
              → (put key buf c).entries j
                ≡ (if contains j (drop n c.order) then c.entries j else none))
          × ((i : ℕ) → i < n → c.budget < total c.entries (drop i c.order) + length buf)
          × ((total c.entries (drop n c.order) + length buf ≤ c.budget) ⊎ (drop n c.order ≡ []))
      unfolding put_found
      put_new = rw found_none (
        evicted.count,
        ap (λ t. t ++ key ∷ []) evicted.kept,
        self,
        λ j ne.
            rw (ne→== j key ne) (
              evicted.values j ∙ ap (λ t. if contains j t then c.entries j else none) evicted.kept),
        evicted.needed,
        kept_fit,
      )

    put_found_lem : (o : Option Bytes) → c.entries key ≡ o → IsValid (put_found key buf c o)
    put_found_lem none e = put_found-IsValid e
    put_found_lem (some old) e = unfold put_found in touch-IsValid key c v (ap is_some e)

    -- `put` keeps the invariant, whether the key is cached or not.
    pub put-IsValid : IsValid (put key buf c)
    unfolding put
    put-IsValid = put_found_lem (c.entries key) refl

pub new-IsValid : (budget : ℕ) → IsValid (new_lru budget)
unfolding new_lru Distinct contains total
new-IsValid budget = record {
  sound = record { distinct = tt; present = λ k. refl; sized = refl };
  bounded = inl (omega arith);
}

put_found_entries :
    (key : ℕ) (buf : Bytes) (c : Lru) (o : Option Bytes)
    → c.entries key ≡ o
    → is_some o ≡ true
    → (put_found key buf c o).entries ≡ c.entries
unfolding put_found touch
put_found_entries key buf c none e h = cc
put_found_entries key buf c (some old) e h = refl

-- After `put` a key holds the new payload or what it held before.
pub put-entries :
    (key : ℕ) (c : Lru)
    → IsValid c
    → (buf : Bytes) (j : ℕ) (b : Bytes) → (put key buf c).entries j ≡ some b
    → ((j ≡ key) × (b ≡ buf)) ⊎ (c.entries j ≡ some b)
put-entries key c v buf j b h = elim (Option-cases (c.entries key)) [
  | inr (old, there) ↦
      let same : (put key buf c).entries ≡ c.entries =
        (unfold put in put_found_entries key buf c (c.entries key) refl (ap is_some there)) in
      inr (sym (ap (λ m. m j) same) ∙ h)
  | inl absent ↦
      let new = put_new key c v buf absent in
      elim (Bool-cases (j == key)) [
        | inl self ↦
            let e : j ≡ key = ==→eq j key self in
            let here : some b ≡ some buf = sym h ∙ ap (put key buf c).entries e ∙ new.2 in
            inl (e, cc)
        | inr other ↦ inr (
            kept (contains j (drop new.0 c.order)) (c.entries j)
              (sym (new.3 j (==→ne j key other)) ∙ h))
      ]
]
  where
    kept : (t : Bool) (o : Option Bytes) → (if t then o else none) ≡ some b → o ≡ some b
    kept true o e = e
    kept false o e = cc

pub new-entries : (budget k : ℕ) → (new_lru budget).entries k ≡ none
unfolding new_lru
new-entries budget k = refl
