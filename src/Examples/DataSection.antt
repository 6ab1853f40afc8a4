-- ===== src/Examples/DataSection.antt =====
-- internal/datasection on a small cache and a small record matrix.
use go_mdf.Base.{
  ℕ, ◌+◌, ◌<◌, ◌≤◌, ◌⊎◌, ◌≡◌, ◌≢◌, refl, none, some, [], ◌∷◌, ◌++◌, arith, ok, drop, if◌then◌else◌,
}
use go_mdf.Base.Words.{Bytes}
use go_mdf.DataSection.Lru.{Lru, new_lru, get, put}
use go_mdf.DataSection.Lru.Laws.{
  IsValid, contains, total, new-IsValid, get-IsValid, put-IsValid, put_new,
}
use go_mdf.DataSection.Transpose.{transpose, untranspose}
use go_mdf.DataSection.Transpose.Laws.{untranspose-transpose}

-- Two payloads of two bytes in a cache of five; a third needs room.
abbrev one : Lru
one = put 10 (1 ∷ 2 ∷ []) (new_lru 5)

abbrev two : Lru
two = put 20 (3 ∷ 4 ∷ []) one

two-IsValid : IsValid two
two-IsValid =
    put-IsValid 20 one (put-IsValid 10 (new_lru 5) (new-IsValid 5) (1 ∷ 2 ∷ [])) (3 ∷ 4 ∷ [])

put-IsValid_example : IsValid (put 30 (5 ∷ 6 ∷ []) two)
put-IsValid_example = put-IsValid 30 two two-IsValid (5 ∷ 6 ∷ [])

get-IsValid_example :
    IsValid (get 10 two).0
    × ((get 10 two).0.entries ≡ two.entries)
    × ((get 10 two).1 ≡ some (1 ∷ 2 ∷ []))
    × ((get 10 two).0.order ≡ 20 ∷ 10 ∷ [])
unfolding new_lru put
get-IsValid_example = get-IsValid 10 two two-IsValid

put_new_example :
    (n : ℕ) × ((put 30 (5 ∷ 6 ∷ []) two).order ≡ drop n two.order ++ 30 ∷ [])
    × ((put 30 (5 ∷ 6 ∷ []) two).entries 30 ≡ some (5 ∷ 6 ∷ []))
    × ((j : ℕ)
        → j ≢ 30
        → (put 30 (5 ∷ 6 ∷ []) two).entries j
          ≡ (if contains j (drop n two.order) then two.entries j else none))
    × ((i : ℕ) → i < n → two.budget < total two.entries (drop i two.order) + 2)
    × ((total two.entries (drop n two.order) + 2 ≤ two.budget) ⊎ (drop n two.order ≡ []))
unfolding new_lru put
put_new_example = put_new 30 two two-IsValid (5 ∷ 6 ∷ []) refl

put_evicts : (put 30 (5 ∷ 6 ∷ []) two).order ≡ 20 ∷ 30 ∷ []
unfolding new_lru put
put_evicts = refl

abbrev matrix : Bytes
matrix = 1 ∷ 2 ∷ 3 ∷ 4 ∷ 5 ∷ 6 ∷ 7 ∷ []

untranspose-transpose_example :
    (t : Bytes) × (transpose matrix 2 ≡ ok t) × (untranspose t 2 ≡ ok matrix)
untranspose-transpose_example = untranspose-transpose matrix 2 (omega arith) (omega arith)
