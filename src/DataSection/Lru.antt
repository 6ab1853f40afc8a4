-- ===== src/DataSection/Lru.antt =====
-- internal/datasection/cache.go: the LRU cache of decompressed payloads.
pub mod Laws
use go_mdf.Base.{
  ℕ, ◌+◌, ◌-◌, ◌*◌, ◌^◌, Bool, true, false, Option, none, some, List, [], ◌∷◌, ◌++◌, ltb, ◌==◌,
  if◌then◌else◌, length,
}
use go_mdf.Base.Words.{Bytes}

-- A Go map, as the function that a lookup computes.
abbrev pub Entries : Type 0
Entries = ℕ → Option Bytes

-- `order` has the least recently used key first.
pub record Lru : Type 0 where
  pub budget : ℕ
  pub size : ℕ
  pub entries : Entries
  pub order : List ℕ

abbrev pub insert : ℕ → Bytes → Entries → Entries
insert k buf m j = if j == k then some buf else m j

abbrev pub delete : ℕ → Entries → Entries
delete k m j = if j == k then none else m j

-- `len(m[k])`: a missing key reads as an empty slice.
abbrev pub held : Option Bytes → ℕ
held none = 0
held (some buf) = length buf

-- A budget that is not positive stands for the default of 128 MiB; 0 stands for those here.
unfoldable pub new_lru : ℕ → Lru
new_lru budget = record {
  budget = if budget == 0 then 128 * 2 ^ 20 else budget;
  size = 0;
  entries = λ k. none;
  order = [];
}

-- The first occurrence of the key goes.
unfoldable pub remove : ℕ → List ℕ → List ℕ
remove key [] = []
remove key (k ∷ ks) = if k == key then ks else k ∷ remove key ks

unfoldable pub touch : ℕ → Lru → Lru
unfolding remove
touch key c = record c { order = remove key c.order ++ key ∷ [] }

get_found : ℕ → Lru → Option Bytes → Lru × Option Bytes
get_found key c none = (c, none)
get_found key c (some buf) = (touch key c, some buf)

unfoldable pub get : ℕ → Lru → Lru × Option Bytes
unfolding get_found touch
get key c = get_found key c (c.entries key)

-- The loop of `put`: the oldest entries go until `need` more bytes fit, or none is left.
unfoldable pub evict : ℕ → ℕ → ℕ → Entries → List ℕ → ℕ × Entries × List ℕ
evict budget need size m [] = (size, m, [])
evict budget need size m (oldest ∷ order) =
    let rest = evict budget need (size - held (m oldest)) (delete oldest m) order in
    if ltb budget (size + need) then rest else (size, m, oldest ∷ order)

put_found : ℕ → Bytes → Lru → Option Bytes → Lru
put_found key buf c (some _) = touch key c
put_found key buf c none =
    let r = evict c.budget (length buf) c.size c.entries c.order in
    record c { size = r.0 + length buf; entries = insert key buf r.1; order = r.2 ++ key ∷ [] }

unfoldable pub put : ℕ → Bytes → Lru → Lru
unfolding put_found touch evict
put key buf c = put_found key buf c (c.entries key)
